-- ===== src/Exporters/Otel/Enabling.antt =====
-- The registry over the exporter of internal/exporters/otel.go: what is enabled before the start
-- can be emitted after it.
use lspwatch.Common.{
  ◌≡◌, refl, sym, ap, subst, ◌∙◌, inl, inr, true, false, ◌||◌, none, some, List, [], ◌∷◌, ◌++◌,
  Bytes, is_some, same, same_iff, same_refl, contains, Option-cases, Bool-cases, arith,
}
use lspwatch.Common.Dict.{Dict, get}
use lspwatch.Telemetry
use lspwatch.Telemetry.{
  AvailableMetric, histogram, MetricRegistration, MetricRecording, MetricsRegistry,
  is_metric_enabled, enable_metric, enable_all, new_default_metrics_registry,
}
use lspwatch.Telemetry.Registry.{enable_metric_lem, continued, enable_all-enables}
use lspwatch.Exporters.Otel.{
  Sdk, OtelExporter, Call, register_metric, emit_metric, start, take_calls, as_otel_exporter,
  with_error,
}
use lspwatch.Exporters.Otel.Life.{has_histogram, is_histogram, emit_metric-take_calls}

has_histogram-append :
    (name : Bytes) (gs hs : List MetricRegistration)
    → has_histogram name (gs ++ hs) ≡ (has_histogram name gs || has_histogram name hs)
unfolding has_histogram
has_histogram-append name [] hs = refl
has_histogram-append name (g ∷ gs) hs = ground (arith, has_histogram-append name gs hs)

-- All that a registry knows are histograms.
abbrev pub AreHistograms : Dict MetricRegistration → Type 0
AreHistograms d = (k : Bytes) (g : MetricRegistration) → get k d ≡ some g → g.kind ≡ histogram

module _ {V S H : Type 0} (api : Sdk V S H) (range : Dict Bytes → Dict Bytes) where
  -- Only registrations were added to the exporter.
  abbrev Grows : OtelExporter S H → OtelExporter S H → Type 0
  Grows x y =
      (y.running ≡ x.running)
      × (y.histograms ≡ x.histograms)
      × ((name : Bytes)
          → has_histogram name x.metric_registrations ≡ true
          → has_histogram name y.metric_registrations ≡ true)

  enable_metric-Grows :
      (m : AvailableMetric) (r : MetricsRegistry) (x : OtelExporter S H)
      → Grows x (enable_metric (as_otel_exporter api range) m r x).1
  unfolding enable_metric as_otel_exporter register_metric
  enable_metric-Grows m r x = elim (Option-cases (get m r.registered)) [
    | inl missing ↦ rw (missing, enable_metric) (refl, refl, λ name h. h)
    | inr (g, found) ↦
        rw (found, enable_metric)
          (
            refl,
            refl,
            λ name h. ground (arith, h, has_histogram-append name x.metric_registrations (g ∷ [])),
          )
  ]

  enable_metric-has_histogram :
      (m : AvailableMetric) (r : MetricsRegistry) (x : OtelExporter S H) (g : MetricRegistration)
      → get m r.registered ≡ some g
      → g.kind ≡ histogram
      → has_histogram g.name
          (enable_metric (as_otel_exporter api range) m r x).1.metric_registrations
        ≡ true
  unfolding enable_metric as_otel_exporter register_metric has_histogram is_histogram
  enable_metric-has_histogram m r x g found kind =
      rw (found, enable_metric)
        (ground (
          arith,
          kind,
          same_refl g.name,
          has_histogram-append g.name x.metric_registrations (g ∷ []),
        ))

  enable_all-Grows :
      (ms : List AvailableMetric) (r : MetricsRegistry) (x : OtelExporter S H)
      → (enable_all (as_otel_exporter api range) ms r x).2 ≡ none
      → Grows x (enable_all (as_otel_exporter api range) ms r x).1
  unfolding enable_all
  enable_all-Grows [] r x e = (refl, refl, λ name h. h)
  enable_all-Grows (m ∷ ms) r x e =
      let t = enable_metric (as_otel_exporter api range) m r x in
      let next =
        (continued (as_otel_exporter api range) t (enable_all (as_otel_exporter api range) ms)
          e).1 in
      let (on, hists, kept) = enable_metric-Grows m r x in
      let (on', hists', kept') = enable_all-Grows ms t.0 t.1 (sym (ap (λ u. u.2) next) ∙ e) in
      rw next (on' ∙ on, hists' ∙ hists, λ name h. kept' name (kept name h))

  enable_all-has_histogram :
      (ms : List AvailableMetric) (r : MetricsRegistry) (x : OtelExporter S H) (k : AvailableMetric)
      (g : MetricRegistration)
      → (enable_all (as_otel_exporter api range) ms r x).2 ≡ none
      → get k r.registered ≡ some g
      → g.kind ≡ histogram
      → contains ms k ≡ true
      → has_histogram g.name (enable_all (as_otel_exporter api range) ms r x).1.metric_registrations
        ≡ true
  unfolding enable_all contains
  enable_all-has_histogram [] r x k g e found kind listed = cc
  enable_all-has_histogram (m ∷ ms) r x k g e found kind listed =
      let t = enable_metric (as_otel_exporter api range) m r x in
      let next =
        (continued (as_otel_exporter api range) t (enable_all (as_otel_exporter api range) ms)
          e).1 in
      let good = sym (ap (λ u. u.2) next) ∙ e in
      let (on, hists, later) = enable_all-Grows ms t.0 t.1 good in
      rw next (elim (Bool-cases (same m k)) [
        | inl here ↦ later g.name (
            enable_metric-has_histogram m r x g
              (subst (λ j. get j r.registered ≡ some g) (sym ((same_iff m k).0 here)) found) kind)
        | inr there ↦
            enable_all-has_histogram ms t.0 t.1 k g good
              (subst (λ d. get k d ≡ some g)
                (sym (enable_metric_lem (as_otel_exporter api range) m m r x).0) found)
              kind (ground (arith, there, listed))
      ])

  registry_emits :
      (m : MetricRecording V) (r : MetricsRegistry) (y : OtelExporter S H)
      → is_some (get m.name r.registered) ≡ true
      → ((g : MetricRegistration)
          → get m.name r.registered ≡ some g
          → is_metric_enabled m.name r ≡ true
          → (emit_metric api range (record m { name = g.name }) y).1 ≡ none)
      → (Telemetry.emit_metric (as_otel_exporter api range) m r y).1 ≡ none
  unfolding Telemetry.emit_metric Telemetry.exporter_result as_otel_exporter with_error
  registry_emits m r y known serves = elim (Option-cases (get m.name r.registered)) [
    | inl missing ↦ ground (arith, missing, known)
    | inr (g, found) ↦ elim (Bool-cases (is_metric_enabled m.name r)) [
      | inl enabled ↦ ground (arith, found, enabled, serves g found enabled)
      | inr disabled ↦ ground (arith, found, disabled)
    ]
  ]

  -- From enabling to emitting: when a fresh registry of histograms has enabled a list without an
  -- error, on an exporter that does not run and has no histograms, and the exporter has then
  -- started without an error, no emission of a metric that the registry knows fails, whatever is
  -- called in between.
  pub emit_metric-enable_all :
      (registered : Dict MetricRegistration) (ms : List AvailableMetric) (x : OtelExporter S H)
      (cs : List (Call V)) (m : MetricRecording V)
      → AreHistograms registered
      → x.running ≡ false
      → x.histograms ≡ []
      → (enable_all (as_otel_exporter api range) ms (new_default_metrics_registry registered) x).2
        ≡ none
      → (start api range
          (enable_all
            (as_otel_exporter api range)
            ms
            (new_default_metrics_registry registered)
            x).1).1
        ≡ none
      → is_some (get m.name registered) ≡ true
      → (Telemetry.emit_metric
          (as_otel_exporter api range)
          m
          (enable_all (as_otel_exporter api range) ms (new_default_metrics_registry registered) x).0
          (take_calls api range cs
            (start api range
              (enable_all
                (as_otel_exporter api range)
                ms
                (new_default_metrics_registry registered)
                x).1).0)).1
        ≡ none
  unfolding new_default_metrics_registry is_metric_enabled
  emit_metric-enable_all registered ms x cs m hist idle empty good begun known =
      let r : MetricsRegistry = new_default_metrics_registry registered in
      let t = enable_all (as_otel_exporter api range) ms r x in
      let (all, kept, enabled) = enable_all-enables (as_otel_exporter api range) ms r x good in
      let (on, hists, more) = enable_all-Grows ms r x good in
      registry_emits m t.0 _ (subst (λ d. is_some (get m.name d) ≡ true) (sym kept) known)
        (λ g found on_list.
          let found' : get m.name registered ≡ some g =
            subst (λ d. get m.name d ≡ some g) kept found in
          (emit_metric-take_calls api range t.1 cs (record m { name = g.name }) (on ∙ idle)
              (hists ∙ empty) begun).1
            (enable_all-has_histogram ms r x m.name g good found' (hist m.name g found')
              (ground (arith, enabled m.name, on_list))))
