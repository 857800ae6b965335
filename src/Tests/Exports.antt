-- ===== src/Tests/Exports.antt =====
-- Instances for internal/telemetry/metrics.go.
use lspwatch.Common.{ℕ, ◌≡◌, refl, none, List, [], ◌∷◌, ◌++◌, same, contains, if◌then◌else◌}
use lspwatch.Common.Dict.{get}
use lspwatch.Telemetry.{
  MetricRecording, MetricsExporter, MetricsRegistry, request_duration, enable_metric, emit_metric,
  enable_all, new_default_metrics_registry,
}
use lspwatch.Telemetry.Registry.{export_name, emit-enable_all}
use lspwatch.Instance.{available_lsp_metrics}

-- An exporter that takes every registration and keeps the recordings.
abbrev pub keeping : MetricsExporter ℕ (List (MetricRecording ℕ))
keeping = record {
  register_metric = λ g x. (x, none);
  emit_metric = λ m x. (x ++ m ∷ [], none);
  set_global_tags = λ tags x. x;
}

abbrev duration : MetricRecording ℕ
duration = record { name = request_duration; timestamp = 1; value = 4; tags = [] }

abbrev registry : MetricsRegistry
registry = new_default_metrics_registry available_lsp_metrics

emit-enable_all_example :
    (emit_metric keeping duration (enable_all keeping (request_duration ∷ []) registry []).0 []).0
    ≡ (if contains (request_duration ∷ []) request_duration
        then record duration { name = export_name request_duration available_lsp_metrics } ∷ []
        else [])
emit-enable_all_example =
    emit-enable_all keeping available_lsp_metrics (request_duration ∷ []) [] [] duration
      (unfold enable_all enable_metric new_default_metrics_registry get same in refl)
      (unfold get same in refl)
