-- ===== src/Exporters/Datadog/Delivery.antt =====
-- The exporter of internal/exporters/datadog.go as the one behind the registry of the proxy: from
-- the events of the listeners to the batches.
use lspwatch.Common.{
  ℕ, ◌≡◌, refl, sym, ap, subst, ◌∙◌, inl, inr, true, false, Option, none, some, List, [], ◌∷◌, ◌++◌,
  append-nil, append_assoc, Bytes, codes, Option-cases, Bool-cases, arith,
}
use lspwatch.Common.Dict.{get}
use lspwatch.Telemetry
use lspwatch.Telemetry.{MetricRecording, MetricsExporter, MetricsRegistry, is_metric_enabled}
use lspwatch.Telemetry.Passing.{exported, exported-cons}
use lspwatch.Core.Buffer.{OrderedMap}
use lspwatch.Core.Proxy.Listeners.{Event, Session, Trace}
use lspwatch.Core.Proxy.Metering.{emit_each, observations, Trace-observations}
use lspwatch.Exporters.Datadog.{
  DatadogExporter, Outcome, done, not_running, panics, blocks, register_metric, set_global_tags,
  receive, emit_metric,
}
use lspwatch.Exporters.Datadog.Life.{contents, contents-receive, flush_lem}

-- The error that `EmitMetric` returns. A call that panics or blocks does not return; what is proved
-- here excludes it.
error_text : Outcome → Option Bytes
error_text done = none
error_text not_running = some (codes "datadog metricsexporter not running")
error_text panics = some (codes "send on closed channel")
error_text blocks = some (codes "no receiver")

module _ {V : Type 0} where
  with_error : DatadogExporter V × Outcome → DatadogExporter V × Option Bytes
  unfolding error_text
  with_error (s, o) = (s, error_text o)

  -- `DatadogMetricsExporter` as a `MetricsExporter`
  unfoldable pub as_datadog_exporter : MetricsExporter V (DatadogExporter V)
  unfolding with_error
  as_datadog_exporter = record {
    register_metric = λ g s. (register_metric g s, none);
    emit_metric = λ m s. with_error (emit_metric m s);
    set_global_tags = λ tags s. set_global_tags tags s;
  }

  -- An exporter that was started and not shut down since.
  abbrev pub IsLive : DatadogExporter V → Type 0
  IsLive s = (s.running ≡ true) × (s.channel_closed ≡ false) × (s.handler_active ≡ true)

  receive-IsLive : (m : MetricRecording V) (s : DatadogExporter V) → IsLive s → IsLive (receive m s)
  unfolding receive
  receive-IsLive m s v =
      ground (arith, flush_lem (s.batch ++ m ∷ []) (record s { batch = s.batch ++ m ∷ [] }) refl)

  emit_live :
      (m : MetricRecording V) (s : DatadogExporter V)
      → IsLive s
      → as_datadog_exporter.emit_metric m s ≡ (receive m s, none)
  unfolding as_datadog_exporter emit_metric with_error error_text
  emit_live m s v = ground arith

  -- What one call of the registry's `EmitMetric` does to the exporter behind it.
  abbrev Passed :
      MetricsRegistry → MetricRecording V → DatadogExporter V → DatadogExporter V → Type 0
  Passed r m s t = IsLive t × (contents t ≡ contents s ++ exported r (m ∷ []))

  Passed-of :
      (r : MetricsRegistry) (m : MetricRecording V) (ms : List (MetricRecording V))
      (s t t' : DatadogExporter V)
      → t ≡ t'
      → exported r (m ∷ []) ≡ ms
      → IsLive t'
      → contents t' ≡ contents s ++ ms
      → Passed r m s t
  Passed-of r m ms s t t' e f v c =
      (subst (λ u. IsLive u) (sym e) v, ap contents e ∙ c ∙ ap (λ l. contents s ++ l) (sym f))

  registry_live :
      (m : MetricRecording V) (r : MetricsRegistry) (s : DatadogExporter V)
      → IsLive s
      → Passed r m s (Telemetry.emit_metric as_datadog_exporter m r s).0
  unfolding Telemetry.emit_metric exported Telemetry.exporter_result
  registry_live m r s v = elim (Option-cases (get m.name r.registered)) [
    | inl missing ↦
        Passed-of r m [] s (Telemetry.emit_metric as_datadog_exporter m r s).0 s
          (ground (arith, missing)) (ground (arith, missing)) v (sym (append-nil (contents s)))
    | inr (g, found) ↦ elim (Bool-cases (is_metric_enabled m.name r)) [
      | inr disabled ↦
          Passed-of r m [] s (Telemetry.emit_metric as_datadog_exporter m r s).0 s
            (ground (arith, found, disabled)) (ground (arith, found, disabled)) v
            (sym (append-nil (contents s)))
      | inl enabled ↦
          let m' : MetricRecording V = record m { name = g.name } in
          Passed-of r m (m' ∷ []) s (Telemetry.emit_metric as_datadog_exporter m r s).0
            (receive m' s) (ground (arith, found, enabled, emit_live m' s v))
            (ground (arith, found, enabled)) (receive-IsLive m' s v) (contents-receive m' s)
    ]
  ]

module _ {V : Type 0} (seconds : ℕ → V) (B : OrderedMap) where
  open B use {get_key}

  emit_each-exported :
      (r : MetricsRegistry) (ms : List (MetricRecording V)) (s : DatadogExporter V)
      → IsLive s
      → contents (emit_each as_datadog_exporter seconds B r ms s) ≡ contents s ++ exported r ms
  unfolding emit_each exported
  emit_each-exported r [] s v = sym (append-nil (contents s))
  emit_each-exported r (m ∷ ms) s v =
      let (v', e) = registry_live m r s v in
      emit_each-exported r ms (Telemetry.emit_metric as_datadog_exporter m r s).0 v'
      ∙ ap (λ l. l ++ exported r ms) e
      ∙ append_assoc (contents s) (exported r (m ∷ [])) (exported r ms)
      ∙ ap (λ l. contents s ++ l) (sym (exported-cons r m ms))

  -- With a running Datadog exporter, in every interleaving of client and server: what the exporter
  -- holds or has submitted is what it did before, followed by exactly the durations that the
  -- history has measured, once each, in order and under their export names.
  pub Trace-exported :
      {s t : Session as_datadog_exporter seconds B} {es : List Event}
      → ((k : Bytes) → get_key k s.handler.request_buffer ≡ none)
      → IsLive s.exporter_state
      → Trace as_datadog_exporter seconds B s es t
      → contents t.exporter_state
        ≡ contents s.exporter_state
          ++ exported s.handler.metrics_registry
              (observations as_datadog_exporter seconds B s.handler es)
  Trace-exported {s} {es} fresh live tr =
      ap contents (Trace-observations as_datadog_exporter seconds B fresh tr)
      ∙ emit_each-exported s.handler.metrics_registry _ s.exporter_state live
