-- ===== src/Instance/Metrics.antt =====
-- The `metrics` list of the configuration and the two registries of an instance.
use lspwatch.Common.{
  ◌≡◌, ◌≢◌, refl, ◌⊎◌, inl, inr, true, false, none, some, List, [], ◌∷◌, Bytes, same, same_iff,
  contains, arith, ℕ, Bool-cases, Option-cases,
}
use lspwatch.Common.Dict.{Dict, get}
use lspwatch.Common.Results.{Result, ok, err}
use lspwatch.Config.{LspwatchConfig}
use lspwatch.Telemetry.{
  request_duration, server_rss, MetricsExporter, MetricsRegistry, Tag, MetricRegistration,
  new_default_metrics_registry,
}
use lspwatch.Telemetry.Registry.{enable_all_refuses}
use lspwatch.Core.Buffer.{OrderedMap}
use lspwatch.Core.Proxy.{ProxyHandler, ProxyError, enable_metrics, new_proxy_handler, built}
use lspwatch.Core.Watcher.{ServerWatcher, WatcherError, new_server_watcher, watcher_built}
use lspwatch.Instance.{
  available_server_metrics, LspwatchInstance, InstanceError, with_tags, with_proxy, with_watcher,
  collect_global_tags, new_lspwatch_instance,
}

-- A metric that is not the only one of a registry is unknown to it.
only_metric : (m k : Bytes) (g : MetricRegistration) → same k m ≡ false → get m ((k, g) ∷ []) ≡ none
unfolding get
only_metric m k g h = rw h

contains-head : (m : Bytes) (ms : List Bytes) → contains (m ∷ ms) m ≡ true
unfolding contains
contains-head m ms = ground (arith, same_iff m m)

-- One metric of a list that is not empty is unknown to one of two registries that know one each.
one_unknown :
    (m k j : Bytes) (g h : MetricRegistration)
    → same k j ≡ false
    → (get m ((k, g) ∷ []) ≡ none) ⊎ (get m ((j, h) ∷ []) ≡ none)
one_unknown m k j g h apart = elim (Bool-cases (same k m)) [
  | inl known ↦ inr (only_metric m j h (ground (arith, same_iff k m, same_iff j m, same_iff k j)))
  | inr unknown ↦ inl (only_metric m k g unknown)
]

module _ {V X : Type 0} (exporter : MetricsExporter V X) (of_bytes : ℕ → V) (B : OrderedMap) where
  enable_metrics_refuses :
      (by_default m : Bytes) (ms : List Bytes) (cfg : LspwatchConfig) (r : MetricsRegistry) (x : X)
      → cfg.metrics ≡ some (m ∷ ms)
      → get m r.registered ≡ none
      → (enable_metrics exporter by_default cfg r x).2 ≢ none
  enable_metrics_refuses by_default m ms cfg r x listed unknown done =
      enable_all_refuses exporter (m ∷ ms) r x m (contains-head m ms) unknown
        (unfold enable_metrics in ground (arith, listed))

  proxy_refuses :
      (cfg : LspwatchConfig) (mode m : Bytes) (ms : List Bytes) (r : MetricsRegistry) (x : X)
      → cfg.metrics ≡ some (m ∷ ms)
      → get m r.registered ≡ none
      → (h : ProxyHandler B) → (new_proxy_handler exporter B cfg r mode x).0 ≢ ok h
  unfolding new_proxy_handler built
  proxy_refuses cfg mode m ms r x listed unknown h e =
      elim (Option-cases (enable_metrics exporter request_duration cfg r x).2) [
        | inl done ↦ enable_metrics_refuses request_duration m ms cfg r x listed unknown done
        | inr (failure, failed) ↦ ground (arith, failed, e)
      ]

  watcher_refuses :
      (cfg : LspwatchConfig) (m : Bytes) (ms : List Bytes) (r : MetricsRegistry) (x : X)
      → cfg.metrics ≡ some (m ∷ ms)
      → get m r.registered ≡ none
      → (w : ServerWatcher) → (new_server_watcher exporter of_bytes r cfg x).0 ≢ ok w
  unfolding new_server_watcher watcher_built
  watcher_refuses cfg m ms r x listed unknown w e =
      elim (Option-cases (enable_metrics exporter server_rss cfg r x).2) [
        | inl done ↦ enable_metrics_refuses server_rss m ms cfg r x listed unknown done
        | inr (failure, failed) ↦ ground (arith, failed, e)
      ]

  with_watcher_refuses :
      (cfg : LspwatchConfig) (proxy : ProxyHandler B) (t : Result WatcherError ServerWatcher × X)
      → ((w : ServerWatcher) → t.0 ≢ ok w)
      → (i : LspwatchInstance B) → (with_watcher exporter of_bytes B cfg proxy t).0 ≢ ok i
  unfolding with_watcher
  with_watcher_refuses cfg proxy (err e, x) h i q = cc
  with_watcher_refuses cfg proxy (ok w, x) h i q = h w refl

  with_proxy_refuses :
      (cfg : LspwatchConfig) (p : Result ProxyError (ProxyHandler B) × X)
      → ((h : ProxyHandler B) → p.0 ≢ ok h)
        ⊎ ((x : X) (w : ServerWatcher)
            → (new_server_watcher exporter of_bytes
                (new_default_metrics_registry available_server_metrics)
                cfg
                x).0
              ≢ ok w)
      → (i : LspwatchInstance B) → (with_proxy exporter of_bytes B cfg p).0 ≢ ok i
  unfolding with_proxy
  with_proxy_refuses cfg (err e, x) h i q = cc
  with_proxy_refuses cfg (ok proxy, x) (inl none_built) i q = none_built proxy refl
  with_proxy_refuses cfg (ok proxy, x) (inr none_watched) i q =
      with_watcher_refuses cfg proxy _ (none_watched x) i q

  with_tags_refuses :
      (cfg : LspwatchConfig) (mode m : Bytes) (ms : List Bytes) (x : X)
      (tags : Result InstanceError (List Tag))
      → cfg.metrics ≡ some (m ∷ ms)
      → (i : LspwatchInstance B) → (with_tags exporter of_bytes B cfg mode x tags).0 ≢ ok i
  unfolding with_tags new_default_metrics_registry
  with_tags_refuses cfg mode m ms x (err e) listed i q = cc
  with_tags_refuses cfg mode m ms x (ok tags) listed i q =
      with_proxy_refuses cfg _
        (elim (one_unknown m request_duration server_rss _ _ (unfold same in refl)) [
          | inl unknown ↦ inl (proxy_refuses cfg mode m ms _ _ listed unknown)
          | inr unknown ↦ inr (λ y. watcher_refuses cfg m ms _ y listed unknown)
        ])
        i q

  -- No instance can be built from a configuration with a `metrics` list that is not empty: each of
  -- the two registries knows one metric, and each is told to enable the whole list.
  pub new_lspwatch_instance_refuses :
      (cfg : LspwatchConfig) (getters : Dict Bytes) (mode m : Bytes) (ms : List Bytes) (x : X)
      → cfg.metrics ≡ some (m ∷ ms)
      → (i : LspwatchInstance B)
      → (new_lspwatch_instance exporter of_bytes B cfg getters mode x).0 ≢ ok i
  unfolding new_lspwatch_instance
  new_lspwatch_instance_refuses cfg getters mode m ms x listed i =
      with_tags_refuses cfg mode m ms x (collect_global_tags cfg getters) listed i
