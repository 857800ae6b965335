-- ===== src/Telemetry/Registry.antt =====
-- What a registry enables, and what of a metric reaches the exporter.
use lspwatch.Common.{
  ◌≡◌, ◌≢◌, refl, sym, ap, ap₂, subst, ◌∙◌, inl, inr, ◌↔◌, Bool, true, ◌||◌, Option, none, some,
  List, [], ◌∷◌, if◌then◌else◌, is_some, Bytes, same, same_iff, contains, All, All-map, arith,
  Option-cases,
}
use lspwatch.Common.Dict.{Dict, get, get-put}
use lspwatch.Telemetry.{
  AvailableMetric, MetricRegistration, MetricRecording, MetricsExporter, MetricsRegistry,
  RegistryError, is_metric_enabled, enable_metric, new_default_metrics_registry, emit_metric,
  enable_all, continue_enabling,
}

abbrev pub IsRegistered : MetricsRegistry → AvailableMetric → Type 0
IsRegistered r m = is_some (get m r.registered) ≡ true

-- The name under which a metric is exported.
abbrev pub export_name : Bytes → Dict MetricRegistration → Bytes
export_name n d = elim (get n d) [ none ↦ n | some g ↦ g.name ]

fresh_disabled :
    (registered : Dict MetricRegistration) (ms : List AvailableMetric) (k : AvailableMetric)
    → (contains ms k || is_metric_enabled k (new_default_metrics_registry registered))
      ≡ contains ms k
unfolding new_default_metrics_registry is_metric_enabled
fresh_disabled registered ms k = ground arith

registered_of_listed :
    (ms : List AvailableMetric) (r : MetricsRegistry) (k : AvailableMetric)
    → contains ms k ≡ true
    → get k r.registered ≡ none
    → ¬ All (IsRegistered r) ms
unfolding contains
registered_of_listed [] r k h n a = cc
registered_of_listed (m ∷ ms) r k h n a = ground (arith, same_iff m k, registered_of_listed ms r k)

module _ {V X : Type 0} (exporter : MetricsExporter V X) where
  -- What one call of `EnableMetric` does to the registry.
  pub enable_metric_lem :
      (m k : AvailableMetric) (r : MetricsRegistry) (x : X)
      → ((enable_metric exporter m r x).0.registered ≡ r.registered)
        × ((enable_metric exporter m r x).2 ≡ none
            → IsRegistered r m
              × (is_metric_enabled k (enable_metric exporter m r x).0
                  ≡ (same m k || is_metric_enabled k r)))
  unfolding enable_metric is_metric_enabled
  enable_metric_lem m k r x = ground (arith, get-put m k true r.enabled)

  pub enable_metric_succeeds :
      ((g : MetricRegistration) (y : X) → (exporter.register_metric g y).1 ≡ none)
      → (m : AvailableMetric) (r : MetricsRegistry) (x : X)
      → ((enable_metric exporter m r x).2 ≡ none) ↔ IsRegistered r m
  unfolding enable_metric
  enable_metric_succeeds accepts m r x = elim (Option-cases (get m r.registered)) [
    | inl missing ↦ ground (arith, missing)
    | inr (g, found) ↦ ground (arith, found, accepts g x)
  ]

  pub continued :
      (t : MetricsRegistry × X × Option RegistryError)
      (rest : MetricsRegistry → X → MetricsRegistry × X × Option RegistryError)
      → (continue_enabling exporter t rest).2 ≡ none
      → (t.2 ≡ none) × (continue_enabling exporter t rest ≡ rest t.0 t.1)
  unfolding continue_enabling
  continued (r, x, none) rest h = (refl, refl)
  continued (r, x, some e) rest h = cc

  continue_enabling_ok :
      (t : MetricsRegistry × X × Option RegistryError)
      (rest : MetricsRegistry → X → MetricsRegistry × X × Option RegistryError)
      → t.2 ≡ none
      → continue_enabling exporter t rest ≡ rest t.0 t.1
  unfolding continue_enabling
  continue_enabling_ok (r, x, none) rest h = refl
  continue_enabling_ok (r, x, some e) rest h = cc

  enables_registered :
      (ms : List AvailableMetric) (r : MetricsRegistry) (x : X)
      → ((g : MetricRegistration) (y : X) → (exporter.register_metric g y).1 ≡ none)
      → All (IsRegistered r) ms
      → (enable_all exporter ms r x).2 ≡ none
  unfolding enable_all
  enables_registered [] r x accepts all = refl
  enables_registered (m ∷ ms) r x accepts (one, all) =
      let t = enable_metric exporter m r x in
      let kept = (enable_metric_lem m m r x).0 in
      ap (λ u. u.2)
        (continue_enabling_ok t (enable_all exporter ms)
          ((enable_metric_succeeds accepts m r x).1 one))
      ∙ enables_registered ms t.0 t.1 accepts
          (All-map _ _ ms (λ k h. subst (λ d. is_some (get k d) ≡ true) (sym kept) h) all)

  -- What holds of a registry `r'` that came from `r` by enabling `ms`.
  abbrev pub HasEnabled : List AvailableMetric → MetricsRegistry → MetricsRegistry → Type 0
  HasEnabled ms r r' =
      All (IsRegistered r) ms
      × (r'.registered ≡ r.registered)
      × ((k : AvailableMetric) → is_metric_enabled k r' ≡ (contains ms k || is_metric_enabled k r))

  HasEnabled-cons :
      (m : AvailableMetric) (ms : List AvailableMetric) (r s t : MetricsRegistry)
      → s.registered ≡ r.registered
      → IsRegistered r m
      → ((k : AvailableMetric) → is_metric_enabled k s ≡ (same m k || is_metric_enabled k r))
      → HasEnabled ms s t
      → HasEnabled (m ∷ ms) r t
  unfolding contains
  HasEnabled-cons m ms r s t kept reg one (all, kept', more) = (
    (reg, All-map _ _ ms (λ k h. subst (λ d. is_some (get k d) ≡ true) kept h) all),
    kept' ∙ kept,
    λ k. ground (arith, one k, more k),
  )

  -- If `enableMetrics` reports no error, every listed metric is registered, and exactly the listed
  -- metrics and those enabled before are enabled after; the registrations stay as they are.
  pub enable_all-enables :
      (ms : List AvailableMetric) (r : MetricsRegistry) (x : X)
      → (enable_all exporter ms r x).2 ≡ none
      → HasEnabled ms r (enable_all exporter ms r x).0
  unfolding enable_all contains
  enable_all-enables [] r x e = (tt, refl, λ k. refl)
  enable_all-enables (m ∷ ms) r x e =
      let t = enable_metric exporter m r x in
      let (ok, next) = continued t (enable_all exporter ms) e in
      let (ok', later) = continued t (enable_all exporter ms) e in
      rw next (
        HasEnabled-cons m ms r t.0 _ (enable_metric_lem m m r x).0
          ((enable_metric_lem m m r x).1 ok).0 (λ k. ((enable_metric_lem m k r x).1 ok).1)
          (enable_all-enables ms t.0 t.1 (sym (ap (λ u. u.2) next) ∙ e)))

  -- With an exporter that accepts every registration, `enableMetrics` reports no error exactly if
  -- every listed metric is registered.
  pub enable_all_succeeds :
      (ms : List AvailableMetric) (r : MetricsRegistry) (x : X)
      → ((g : MetricRegistration) (y : X) → (exporter.register_metric g y).1 ≡ none)
      → ((enable_all exporter ms r x).2 ≡ none) ↔ All (IsRegistered r) ms
  enable_all_succeeds ms r x accepts =
      (λ e. (enable_all-enables ms r x e).0, enables_registered ms r x accepts)

  -- A list with a metric that is not registered is refused.
  pub enable_all_refuses :
      (ms : List AvailableMetric) (r : MetricsRegistry) (x : X) (k : AvailableMetric)
      → contains ms k ≡ true
      → get k r.registered ≡ none
      → (enable_all exporter ms r x).2 ≢ none
  enable_all_refuses ms r x k listed missing e =
      registered_of_listed ms r k listed missing (enable_all-enables ms r x e).0

  -- `emit_metric` on the exporter's state, as one expression.
  emit_metric_state :
      (m : MetricRecording V) (r : MetricsRegistry) (x : X)
      → is_some (get m.name r.registered) ≡ true
      → (emit_metric exporter m r x).0 ≡ (
          if is_metric_enabled m.name r
          then (exporter.emit_metric (record m { name = export_name m.name r.registered }) x).0
          else x)
  unfolding emit_metric
  emit_metric_state m r x h = ground arith

  -- A fresh registry on which `ms` was enabled without an error passes a metric that it has
  -- registered on to the exporter exactly if the metric is in `ms`, under its export name and
  -- otherwise unchanged; else the exporter is left as it was.
  pub emit-enable_all :
      (registered : Dict MetricRegistration) (ms : List AvailableMetric) (x y : X)
      (m : MetricRecording V)
      → (enable_all exporter ms (new_default_metrics_registry registered) x).2 ≡ none
      → is_some (get m.name registered) ≡ true
      → (emit_metric exporter m
          (enable_all exporter ms (new_default_metrics_registry registered) x).0
          y).0
        ≡ (if contains ms m.name
            then (exporter.emit_metric (record m { name = export_name m.name registered }) y).0
            else y)
  unfolding new_default_metrics_registry
  emit-enable_all registered ms x y m ok known =
      let (all, kept, enabled) =
        enable_all-enables ms (new_default_metrics_registry registered) x ok in
      let r = (enable_all exporter ms (new_default_metrics_registry registered) x).0 in
      emit_metric_state m r y (subst (λ d. is_some (get m.name d) ≡ true) (sym kept) known)
      ∙ ap₂
          (λ (b : Bool) (d : Dict MetricRegistration).
            if b then (exporter.emit_metric (record m { name = export_name m.name d }) y).0 else y)
          (enabled m.name ∙ fresh_disabled registered ms m.name) kept
