-- ===== src/Tests/Batches.antt =====
-- Instances for internal/exporters/datadog.go.
use mathlib.Core.List.{Perm}
use mathlib.Core.List.Perm
use lspwatch.Exporters.Datadog.Payloads.{payloads, run_complete-payloads}
use lspwatch.Exporters.Datadog.Series.Points.{points_of}
use lspwatch.Common.{ℕ, ◌≡◌, refl, none, some, List, [], ◌∷◌, map, concat, arith}
use lspwatch.Common.Int.{pos}
use lspwatch.Config.{DatadogConfig}
use lspwatch.Telemetry.{MetricRecording, request_duration}
use lspwatch.Exporters.Datadog.{
  DatadogExporter, Action, start, emit, shutdown, timeout, see_closed, act, run,
  new_datadog_metrics_exporter, flush, receive, emit_metric,
}
use lspwatch.Exporters.Datadog.Life.{OneLife, IsSized, run-IsSized}
use lspwatch.Exporters.Datadog.Series.{point}

abbrev duration : MetricRecording ℕ
duration = record { name = request_duration; timestamp = 1; value = 4; tags = [] }

abbrev pub by_two : DatadogConfig
by_two = record {
  client_api_key = [];
  client_app_key = [];
  batch_size = some (pos 2);
  batch_timeout = none;
  site = [];
  disable_compression = none;
}

abbrev life : List (Action ℕ)
life = start ∷ emit duration ∷ timeout ∷ emit duration ∷ emit duration ∷ shutdown ∷ see_closed ∷ []

abbrev exporter : DatadogExporter ℕ
exporter = new_datadog_metrics_exporter by_two

-- The life above sends two batches.
life_batches : (run life exporter).0.submitted ≡ (duration ∷ []) ∷ (duration ∷ duration ∷ []) ∷ []
unfolding run act new_datadog_metrics_exporter emit_metric receive flush
life_batches = refl

one_life : OneLife life exporter
unfolding OneLife act new_datadog_metrics_exporter emit_metric receive flush
one_life = (refl, (tt, (tt, (tt, (tt, (tt, (tt, tt)))))))

run-IsSized_example : IsSized 2 (run life exporter).0
run-IsSized_example =
    run-IsSized 2 life exporter (omega arith)
      (unfold new_datadog_metrics_exporter in (refl, tt, omega arith))

run_complete-payloads_example :
    Perm
      (concat
        (map (points_of (λ t. t) (λ A m. m)) (payloads (λ t. t) (λ A m. m) (run life exporter).0)))
      (map point (run life exporter).1)
run_complete-payloads_example =
    run_complete-payloads (λ t. t) (λ A m. m) by_two life (λ A m. Perm.refl m) one_life
      (unfold run act new_datadog_metrics_exporter emit_metric receive flush in refl)
