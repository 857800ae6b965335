-- ===== src/Tests/Deliveries.antt =====
-- An instance for the proxy with the Datadog exporter.
use lspwatch.Common.{ℕ, ◌≡◌, ◌++◌, refl, true, false, none, some, [], ◌∷◌, Bytes, codes}
use lspwatch.Common.Dict.{get}
use lspwatch.Common.Int.{pos}
use lspwatch.Telemetry.{request_duration}
use lspwatch.Telemetry.Passing.{exported}
use lspwatch.Core.Buffer.{RequestBookmark, dict_buffer}
use lspwatch.Core.Proxy.Listeners.{
  message, Event, from_client, from_server, Session, step, Trace, start, taken,
}
use lspwatch.Core.Proxy.Metering.{observations}
use lspwatch.Exporters.Datadog.{DatadogExporter}
use lspwatch.Exporters.Datadog.Life.{contents}
use lspwatch.Exporters.Datadog.Delivery.{as_datadog_exporter, Trace-exported}
use lspwatch.Instance.{available_lsp_metrics}

abbrev running : DatadogExporter ℕ
running = record {
  batch_size = pos 2;
  batch_timeout = pos 1;
  running = true;
  channel_closed = false;
  handler_active = true;
  batch = [];
  submitted = [];
  metric_unit_mapping = [];
  tags = [];
}

abbrev whole_seconds : ℕ → ℕ
whole_seconds n = n

abbrev fresh : Session as_datadog_exporter whole_seconds dict_buffer
fresh = record {
  handler = record {
    metered_requests = (codes "initialize", tt) ∷ [];
    metrics_registry = record {
      registered = available_lsp_metrics;
      enabled = (request_duration, true) ∷ [];
    };
    request_buffer = [];
    mode = codes "proxy";
  };
  exporter_state = running;
  to_server = [];
  to_client = [];
  shutdown_message = none;
  shutdown_requests = 0;
  client_listening = true;
  server_listening = true;
}

abbrev request : Event
request = from_client 5 (
    message (record { id = some (codes "1"); method = some (codes "initialize"); params = none })
      (codes "request"))

abbrev response : Event
response = from_server 9 1 (
    message (record { id = some (codes "1"); method = none; result = none; error = none })
      (codes "response"))

abbrev answered : Session as_datadog_exporter whole_seconds dict_buffer
answered =
    step as_datadog_exporter whole_seconds dict_buffer response
      (step as_datadog_exporter whole_seconds dict_buffer request fresh)

session :
    Trace as_datadog_exporter whole_seconds dict_buffer fresh (response ∷ request ∷ []) answered
unfolding step
session = taken response (taken request start refl) refl

empty_buffer : (k : Bytes) → get {V = RequestBookmark} k [] ≡ none
empty_buffer k = unfold get in refl

Trace-exported_example :
    contents answered.exporter_state
    ≡ contents running
      ++ exported fresh.handler.metrics_registry (
          observations as_datadog_exporter whole_seconds dict_buffer fresh.handler
            (response ∷ request ∷ []))
Trace-exported_example =
    Trace-exported whole_seconds dict_buffer empty_buffer (refl, refl, refl) session
