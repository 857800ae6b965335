-- ===== src/Exporters/Otel/Delivery.antt =====
-- The exporter of internal/exporters/otel.go as the one behind the registry of the proxy: from the
-- events of the listeners to the SDK.
use lspwatch.Common.{
  ℕ, ◌≡◌, refl, sym, ap, ◌∙◌, inl, inr, true, none, some, List, [], ◌∷◌, ◌++◌, map, Bytes,
  Option-cases, Bool-cases, arith,
}
use lspwatch.Common.Dict.{Dict, get}
use lspwatch.Telemetry
use lspwatch.Telemetry.{MetricRecording, MetricsRegistry, Tag, is_metric_enabled}
use lspwatch.Telemetry.Passing.{exported, exported-cons}
use lspwatch.Core.Buffer.{OrderedMap}
use lspwatch.Core.Proxy.Listeners.{Event, Session, Trace}
use lspwatch.Core.Proxy.Metering.{emit_each, observations, Trace-observations}
use lspwatch.Exporters.Otel.{
  Sdk, OtelExporter, attributes, tag_attributes, emit_metric, as_otel_exporter, with_error,
}

abbrev as_pair : Tag → Bytes × Bytes
as_pair t = (t.key, t.value)

module _ {V S H : Type 0} (api : Sdk V S H) (range : Dict Bytes → Dict Bytes) where
  attributes_lem :
      (global : List Tag) (tags : Dict Bytes)
      → attributes api range global tags ≡ map as_pair global ++ range tags
  unfolding attributes tag_attributes
  attributes_lem [] tags = refl
  attributes_lem (t ∷ global) tags = ap (λ l. (t.key, t.value) ∷ l) (attributes_lem global tags)

  -- The SDK after some recordings were made, each on the histogram of its name, with the global
  -- tags first.
  unfoldable pub record_each : Dict H → List Tag → List (MetricRecording V) → S → S
  record_each hs tags [] s = s
  record_each hs tags (m ∷ ms) s = record_each hs tags ms (elim (get m.name hs) [
    | none ↦ s
    | some h ↦ api.record_value h m.value (map as_pair tags ++ range m.tags) s
  ])

  record_each-append :
      (hs : Dict H) (tags : List Tag) (ms ns : List (MetricRecording V)) (s : S)
      → record_each hs tags (ms ++ ns) s ≡ record_each hs tags ns (record_each hs tags ms s)
  unfolding record_each
  record_each-append hs tags [] ns s = refl
  record_each-append hs tags (m ∷ ms) ns s = record_each-append hs tags ms ns _

  -- The exporter with these recordings made.
  abbrev pub recorded : List (MetricRecording V) → OtelExporter S H → OtelExporter S H
  recorded ms x = record x { sdk = record_each x.histograms x.global_tags ms x.sdk }

  emit_running :
      (m : MetricRecording V) (x : OtelExporter S H)
      → x.running ≡ true
      → ((as_otel_exporter api range).emit_metric m x).0 ≡ recorded (m ∷ []) x
  unfolding as_otel_exporter emit_metric with_error record_each
  emit_running m x h = elim (Option-cases (get m.name x.histograms)) [
    | inl missing ↦ ground (arith, h, missing)
    | inr (hist, found) ↦ ground (arith, h, found, attributes_lem x.global_tags m.tags)
  ]

  registry_running :
      (m : MetricRecording V) (r : MetricsRegistry) (x : OtelExporter S H)
      → x.running ≡ true
      → (Telemetry.emit_metric (as_otel_exporter api range) m r x).0
        ≡ recorded (exported r (m ∷ [])) x
  unfolding Telemetry.emit_metric exported Telemetry.exporter_result record_each
  registry_running m r x h = elim (Option-cases (get m.name r.registered)) [
    | inl missing ↦ ground (arith, missing)
    | inr (g, found) ↦ elim (Bool-cases (is_metric_enabled m.name r)) [
      | inr disabled ↦ ground (arith, found, disabled)
      | inl enabled ↦ ground (arith, found, enabled, emit_running (record m { name = g.name }) x h)
    ]
  ]

module _ {V S H : Type 0} (api : Sdk V S H) (range : Dict Bytes → Dict Bytes) (seconds : ℕ → V)
    (B : OrderedMap) where
  open B use {get_key}

  emit_each-recorded :
      (r : MetricsRegistry) (ms : List (MetricRecording V)) (x : OtelExporter S H)
      → x.running ≡ true
      → emit_each (as_otel_exporter api range) seconds B r ms x
        ≡ recorded api range (exported r ms) x
  unfolding emit_each exported record_each
  emit_each-recorded r [] x h = refl
  emit_each-recorded r (m ∷ ms) x h =
      ap (emit_each (as_otel_exporter api range) seconds B r ms)
        (registry_running api range m r x h)
      ∙ emit_each-recorded r ms (recorded api range (exported r (m ∷ [])) x) h
      ∙ sym (
          ap (λ l. recorded api range l x) (exported-cons r m ms)
          ∙ ap (λ s. record x { sdk = s })
              (record_each-append api range x.histograms x.global_tags (exported r (m ∷ []))
                (exported r ms) x.sdk))

  -- With a running OpenTelemetry exporter, in every interleaving of client and server: all that
  -- changes of the exporter is that exactly the durations which the history has measured were
  -- recorded in the SDK, in order, on the histograms of their export names and with the global tags
  -- before their own.
  pub Trace-recorded :
      {s t : Session (as_otel_exporter api range) seconds B} {es : List Event}
      → ((k : Bytes) → get_key k s.handler.request_buffer ≡ none)
      → s.exporter_state.running ≡ true
      → Trace (as_otel_exporter api range) seconds B s es t
      → t.exporter_state
        ≡ recorded api range
            (exported s.handler.metrics_registry
              (observations (as_otel_exporter api range) seconds B s.handler es))
            s.exporter_state
  Trace-recorded {s} {es} fresh running tr =
      Trace-observations (as_otel_exporter api range) seconds B fresh tr
      ∙ emit_each-recorded s.handler.metrics_registry _ s.exporter_state running
