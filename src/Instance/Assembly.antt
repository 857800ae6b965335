-- ===== src/Instance/Assembly.antt =====
-- When `NewLspwatchInstance` of internal/lspwatch.go builds an instance.
use lspwatch.Common.{
  ℕ, ◌≡◌, ◌≢◌, inl, inr, refl, ◌∙◌, Bool, true, false, ◌&&◌, Option, none, some, List, [], ◌∷◌,
  ◌++◌, if◌then◌else◌, Bytes, codes, same, contains, is_some, Option-cases, Bool-cases, arith,
}
use lspwatch.Common.Dict.{Dict, get}
use lspwatch.Common.Results.{Result, ok, err}
use lspwatch.Config.{LspwatchConfig}
use lspwatch.Config.Rules.{all_of, tag_options}
use lspwatch.Config.Rules.Kept.{both_true}
use lspwatch.Telemetry.{
  AvailableMetric, request_duration, server_rss, MetricRegistration, MetricsExporter,
  MetricsRegistry, Tag, new_tag, new_default_metrics_registry,
}
use lspwatch.Telemetry.Registry.{enable_all_succeeds, enable_metric_succeeds}
use lspwatch.Core.Buffer.{OrderedMap}
use lspwatch.Core.Proxy.{
  ProxyHandler, ProxyError, is_mode, enable_metrics, new_proxy_handler, built,
}
use lspwatch.Core.Watcher.{ServerWatcher, WatcherError, new_server_watcher, watcher_built}
use lspwatch.Instance.{
  Host, global_tag_getters, get_tag_values, collect_global_tags, with_watcher, with_proxy,
  with_tags, new_lspwatch_instance,
}
use lspwatch.Instance.Metrics.{new_lspwatch_instance_refuses}

abbrev pub is_ok : {E A : Type 0} → Result E A → Bool
is_ok (ok a) = true
is_ok (err e) = false

-- No metrics are listed.
abbrev pub no_metrics : Option (List AvailableMetric) → Bool
no_metrics none = true
no_metrics (some []) = true
no_metrics (some (m ∷ ms)) = false

one_of_four :
    (a b c d k s t u v : Bytes)
    → contains (a ∷ b ∷ c ∷ d ∷ []) k ≡ true
    → is_some (get k ((b, s) ∷ (c, t) ∷ (d, u) ∷ (a, v) ∷ [])) ≡ true
unfolding get contains
one_of_four a b c d k s t u v h = ground (arith, h)

is_some_value : {A : Type 0} (o : Option A) → is_some o ≡ true → (a : A) × (o ≡ some a)
is_some_value (some a) h = (a, refl)
is_some_value none h = cc

known_tag :
    (host : Host) (path k : Bytes)
    → contains tag_options k ≡ true
    → (value : Bytes) × (get k (global_tag_getters host path) ≡ some value)
unfolding global_tag_getters
known_tag host path k h =
    is_some_value (get k (global_tag_getters host path))
      (one_of_four (codes "user") (codes "os") (codes "language_server") (codes "ram") k _ _ _ _ h)

-- There is a getter for every tag that the rules allow.
pub get_tag_values_succeeds :
    (host : Host) (path : Bytes) (tags : List Bytes)
    → all_of tag_options tags ≡ true
    → (ts : List Tag) × (get_tag_values tags (global_tag_getters host path) ≡ ok ts)
unfolding get_tag_values all_of
get_tag_values_succeeds host path [] h = ([], refl)
get_tag_values_succeeds host path (k ∷ tags) h =
    let (known, others) = both_true (contains tag_options k) (all_of tag_options tags) h in
    let (value, found) = known_tag host path k known in
    let (ts, rest) = get_tag_values_succeeds host path tags others in
    (new_tag k value ∷ ts, rw (found, rest, get_tag_values) refl)

listed_metrics :
    (o : Option (List AvailableMetric))
    → no_metrics o ≡ false
    → (m : AvailableMetric) × (ms : List AvailableMetric) × (o ≡ some (m ∷ ms))
listed_metrics none h = cc
listed_metrics (some []) h = cc
listed_metrics (some (m ∷ ms)) h = (m, ms, refl)

not_ok : {E A : Type 0} (r : Result E A) → ((a : A) → r ≢ ok a) → is_ok r ≡ false
not_ok (ok a) h = absurd (h a refl)
not_ok (err e) h = refl

-- The exporter takes every registration.
abbrev pub Accepts : {V X : Type 0} → MetricsExporter V X → Type 0
Accepts {X = X} exporter =
    (g : MetricRegistration) (y : X) → (exporter.register_metric g y).1 ≡ none

module _ {V X : Type 0} (exporter : MetricsExporter V X) (of_bytes : ℕ → V) (B : OrderedMap) where
  enable_metrics_succeeds :
      (by_default : AvailableMetric) (cfg : LspwatchConfig) (r : MetricsRegistry) (x : X)
      → Accepts exporter
      → no_metrics cfg.metrics ≡ true
      → is_some (get by_default r.registered) ≡ true
      → (enable_metrics exporter by_default cfg r x).2 ≡ none
  unfolding enable_metrics
  enable_metrics_succeeds by_default cfg r x accepts unlisted known =
      elim (Option-cases cfg.metrics) [
        | inl unset ↦ rw unset ((enable_metric_succeeds exporter accepts by_default r x).1 known)
        | inr ([], listed) ↦ rw listed ((enable_all_succeeds exporter [] r x accepts).1 tt)
        | inr (m ∷ ms, listed) ↦ absurd (ground (arith, listed, unlisted))
      ]

  new_proxy_handler-is_ok :
      (cfg : LspwatchConfig) (r : MetricsRegistry) (mode : Bytes) (x : X)
      → Accepts exporter
      → no_metrics cfg.metrics ≡ true
      → is_some (get request_duration r.registered) ≡ true
      → is_ok (new_proxy_handler exporter B cfg r mode x).0 ≡ is_mode mode
  unfolding new_proxy_handler built
  new_proxy_handler-is_ok cfg r mode x accepts unlisted known =
      let enabled = enable_metrics_succeeds request_duration cfg r x accepts unlisted known in
      elim (Bool-cases (is_mode mode)) [
        | inl valid ↦ ground (arith, valid, enabled)
        | inr invalid ↦ ground (arith, invalid)
      ]

  new_server_watcher-is_ok :
      (cfg : LspwatchConfig) (r : MetricsRegistry) (x : X)
      → Accepts exporter
      → no_metrics cfg.metrics ≡ true
      → is_some (get server_rss r.registered) ≡ true
      → is_ok (new_server_watcher exporter of_bytes r cfg x).0 ≡ true
  unfolding new_server_watcher watcher_built
  new_server_watcher-is_ok cfg r x accepts unlisted known =
      let enabled = enable_metrics_succeeds server_rss cfg r x accepts unlisted known in
      ground (arith, enabled)

  with_watcher-is_ok :
      (cfg : LspwatchConfig) (proxy : ProxyHandler B) (t : Result WatcherError ServerWatcher × X)
      → is_ok (with_watcher exporter of_bytes B cfg proxy t).0 ≡ is_ok t.0
  unfolding with_watcher
  with_watcher-is_ok cfg proxy (err e, x) = refl
  with_watcher-is_ok cfg proxy (ok w, x) = refl

  with_proxy-is_ok :
      (cfg : LspwatchConfig) (p : Result ProxyError (ProxyHandler B) × X)
      → Accepts exporter
      → no_metrics cfg.metrics ≡ true
      → is_ok (with_proxy exporter of_bytes B cfg p).0 ≡ is_ok p.0
  unfolding with_proxy new_default_metrics_registry get same
  with_proxy-is_ok cfg (err e, x) accepts unlisted = refl
  with_proxy-is_ok cfg (ok proxy, x) accepts unlisted =
      with_watcher-is_ok cfg proxy _ ∙ new_server_watcher-is_ok cfg _ x accepts unlisted refl

  with_tags-is_ok :
      (cfg : LspwatchConfig) (mode : Bytes) (x : X) (tags : List Tag)
      → Accepts exporter
      → no_metrics cfg.metrics ≡ true
      → is_ok (with_tags exporter of_bytes B cfg mode x (ok tags)).0 ≡ is_mode mode
  unfolding with_tags new_default_metrics_registry get same
  with_tags-is_ok cfg mode x tags accepts unlisted =
      with_proxy-is_ok cfg _ accepts unlisted
      ∙ new_proxy_handler-is_ok cfg _ mode (exporter.set_global_tags tags x) accepts unlisted refl

  global_tags_succeeds :
      (cfg : LspwatchConfig) (getters : Dict Bytes) (ts : List Tag)
      → get_tag_values cfg.tags getters ≡ ok ts
      → (all : List Tag) × (collect_global_tags cfg getters ≡ ok all)
  unfolding collect_global_tags
  global_tags_succeeds cfg getters ts e = (
    if same cfg.project [] then ts else ts ++ new_tag (codes "project") cfg.project ∷ [],
    rw (e, collect_global_tags) refl,
  )

  -- With an exporter that takes every registration and tags that the rules allow, an instance is
  -- built exactly if the mode is one of the known ones and no metrics are listed.
  pub new_lspwatch_instance_builds :
      (cfg : LspwatchConfig) (host : Host) (path mode : Bytes) (x : X)
      → Accepts exporter
      → all_of tag_options cfg.tags ≡ true
      → is_ok
          (new_lspwatch_instance exporter of_bytes B cfg (global_tag_getters host path) mode x).0
        ≡ (is_mode mode && no_metrics cfg.metrics)
  unfolding new_lspwatch_instance
  new_lspwatch_instance_builds cfg host path mode x accepts allowed =
      let (ts, valued) = get_tag_values_succeeds host path cfg.tags allowed in
      let (all, tagged) = global_tags_succeeds cfg (global_tag_getters host path) ts valued in
      elim (Bool-cases (no_metrics cfg.metrics)) [
        | inl unlisted ↦
            rw (tagged, unlisted) (with_tags-is_ok cfg mode x all accepts unlisted ∙ ground arith)
        | inr listed ↦
            let (m, ms, l) = listed_metrics cfg.metrics listed in
            not_ok
              (new_lspwatch_instance exporter of_bytes B cfg (global_tag_getters host path) mode
                x).0
              (new_lspwatch_instance_refuses exporter of_bytes B cfg (global_tag_getters host path)
                mode m ms x l)
            ∙ ground (arith, listed)
      ]
