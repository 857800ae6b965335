-- ===== src/Tests/Meters.antt =====
-- Instances for internal/exporters/otel.go.
use lspwatch.Common.{
  ℕ, ◌≡◌, refl, true, false, none, some, List, [], ◌∷◌, ◌++◌, Bytes, codes, same, arith,
}
use lspwatch.Common.Dict.{Dict, get}
use lspwatch.Common.Results.{ok}
use lspwatch.Telemetry
use lspwatch.Telemetry.{
  MetricRecording, MetricRegistration, request_duration, histogram, enable_all, enable_metric,
  new_default_metrics_registry,
}
use lspwatch.Telemetry.Passing.{exported}
use lspwatch.Core.Buffer.{RequestBookmark, dict_buffer}
use lspwatch.Core.Proxy.Listeners.{
  message, Event, from_client, from_server, Session, step, Trace, start, taken,
}
use lspwatch.Core.Proxy.Metering.{observations}
use lspwatch.Exporters.Otel
use lspwatch.Exporters.Otel.{
  Sdk, OtelExporter, Call, emit, end, as_otel_exporter, new_exporter, shutdown_timeout, take_calls,
  emit_metric, register_metric, wait, shutdown, create_instruments, create_instrument, started,
  add_histogram,
}
use lspwatch.Exporters.Otel.Delivery.{recorded, Trace-recorded}
use lspwatch.Exporters.Otel.Enabling.{AreHistograms, emit_metric-enable_all}
use lspwatch.Instance.{available_lsp_metrics}

-- An SDK that keeps what is recorded, with the name of a histogram for the histogram.
abbrev pub recording : Sdk ℕ (List (Bytes × ℕ)) Bytes
recording = record {
  new_meter = λ s. s;
  float64_histogram = λ name description unit s. (s, ok name);
  record_value = λ h v attributes s. s ++ (h, v) ∷ [];
  shutdown_provider = λ s. s;
}

abbrev pub in_order : Dict Bytes → Dict Bytes
in_order m = m

abbrev pub duration_registration : MetricRegistration
duration_registration = record {
  kind = histogram;
  name = codes "lspwatch.request.duration";
  description = codes "Duration of LSP request";
  otel_unit = codes "s";
  datadog_unit = codes "s";
}

abbrev pub registered : OtelExporter (List (Bytes × ℕ)) Bytes
registered = record {
  sdk = [];
  metric_registrations = duration_registration ∷ [];
  histograms = [];
  global_tags = [];
  shutdown_ctx = none;
  running = false;
}

abbrev live : OtelExporter (List (Bytes × ℕ)) Bytes
live = record registered {
  histograms = (codes "lspwatch.request.duration", codes "lspwatch.request.duration") ∷ [];
  running = true;
}

abbrev pub duration : MetricRecording ℕ
duration = record { name = codes "lspwatch.request.duration"; timestamp = 1; value = 4; tags = [] }

abbrev whole_seconds : ℕ → ℕ
whole_seconds n = n

abbrev fresh : Session (as_otel_exporter recording in_order) whole_seconds dict_buffer
fresh = record {
  handler = record {
    metered_requests = (codes "initialize", tt) ∷ [];
    metrics_registry = record {
      registered = available_lsp_metrics;
      enabled = (request_duration, true) ∷ [];
    };
    request_buffer = [];
    mode = codes "proxy";
  };
  exporter_state = live;
  to_server = [];
  to_client = [];
  shutdown_message = none;
  shutdown_requests = 0;
  client_listening = true;
  server_listening = true;
}

abbrev request : Event
request = from_client 5 (
    message (record { id = some (codes "1"); method = some (codes "initialize"); params = none })
      (codes "request"))

abbrev response : Event
response = from_server 9 1 (
    message (record { id = some (codes "1"); method = none; result = none; error = none })
      (codes "response"))

abbrev answered : Session (as_otel_exporter recording in_order) whole_seconds dict_buffer
answered =
    step (as_otel_exporter recording in_order) whole_seconds dict_buffer response
      (step (as_otel_exporter recording in_order) whole_seconds dict_buffer request fresh)

session :
    Trace
      (as_otel_exporter recording in_order)
      whole_seconds
      dict_buffer
      fresh
      (response ∷ request ∷ [])
      answered
unfolding step
session = taken response (taken request start refl) refl

empty_buffer : (k : Bytes) → get {V = RequestBookmark} k [] ≡ none
empty_buffer k = unfold get in refl

Trace-recorded_example :
    answered.exporter_state
    ≡ recorded recording in_order
        (exported fresh.handler.metrics_registry (
          observations
            (as_otel_exporter recording in_order)
            whole_seconds
            dict_buffer
            fresh.handler
            (response ∷ request ∷ [])))
        live
Trace-recorded_example =
    Trace-recorded recording in_order whole_seconds dict_buffer empty_buffer refl session

lsp-AreHistograms : AreHistograms available_lsp_metrics
unfolding get
lsp-AreHistograms k g found = ground (arith, found)

abbrev listed : List Bytes
listed = request_duration ∷ []

abbrev measured : MetricRecording ℕ
measured = record { name = request_duration; timestamp = 1; value = 4; tags = [] }

emit_metric-enable_all_example :
    (Telemetry.emit_metric
      (as_otel_exporter recording in_order)
      measured
      (enable_all
        (as_otel_exporter recording in_order)
        listed
        (new_default_metrics_registry available_lsp_metrics)
        (new_exporter [])).0
      (take_calls recording in_order
        (end 7 ∷ [])
        (Otel.start recording in_order
          (enable_all
            (as_otel_exporter recording in_order)
            listed
            (new_default_metrics_registry available_lsp_metrics)
            (new_exporter [])).1).0)).1
    ≡ none
unfolding as_otel_exporter register_metric
emit_metric-enable_all_example =
    emit_metric-enable_all recording in_order available_lsp_metrics listed (new_exporter [])
      (end 7 ∷ []) measured lsp-AreHistograms (unfold new_exporter in refl)
      (unfold new_exporter in refl)
      (unfold enable_all enable_metric new_default_metrics_registry get same in refl)
      (unfold enable_all enable_metric new_default_metrics_registry get same Otel.start
          as_otel_exporter new_exporter in
        refl)
      (unfold get same in refl)
