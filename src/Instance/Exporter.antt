-- ===== src/Instance/Exporter.antt =====
-- internal/lspwatch.go: `newMetricsExporter`, and the exporter behind the registries as a value of
-- one interface.
pub mod Ready
use lspwatch.Common.{Option, none, some, if◌then◌else◌, Bytes, codes, same}
use lspwatch.Common.Dict.{Dict}
use lspwatch.Common.Results.{Result, ok, err}
use lspwatch.Config.{LspwatchConfig, OpenTelemetryConfig, DatadogConfig}
use lspwatch.Telemetry.{MetricsExporter}
use lspwatch.Io.Logs.{Files, Log, LogError}
use lspwatch.Exporters.Otel
use lspwatch.Exporters.Otel.{Sdk, OtelExporter, new_exporter}
use lspwatch.Exporters.Otel.Setup.{SetupApi, SetupError, Transport, new_metrics_otel_exporter}
use lspwatch.Exporters.Datadog.{DatadogExporter}
use lspwatch.Exporters.Datadog.Delivery
use lspwatch.Exporters.Datadog.Setup.{DatadogSetup, get_datadog_context, new_datadog_exporter}

-- `telemetry.MetricsExporter`, by what it points to
pub data AnyExporter (V S H Grpc Http : Type 0) : Type 0 where
  open_telemetry : OtelExporter S H → Transport Grpc Http → Log → AnyExporter V S H Grpc Http
  datadog : DatadogSetup V → AnyExporter V S H Grpc Http

pub data ExporterError : Type 0 where
  open_telemetry_failed : SetupError → ExporterError
  datadog_failed : LogError → ExporterError
  invalid_exporter : Bytes → ExporterError
  nil_section : ExporterError  -- the constructor reads a field of a nil section, and panics

module _ {V S H Pool Cert Grpc Http Resource W : Type 0}
    (api : SetupApi Pool Cert Grpc Http Resource) (files : Files W) (sdk : S) where
  open_telemetry_made :
      W × Result SetupError (Transport Grpc Http × Log)
      → W × Result ExporterError (AnyExporter V S H Grpc Http)
  open_telemetry_made (w, err e) = (w, err (open_telemetry_failed e))
  open_telemetry_made (w, ok (transport, log)) =
      (w, ok (open_telemetry (new_exporter sdk) transport log))

  datadog_made :
      W × Result LogError (DatadogSetup V) → W × Result ExporterError (AnyExporter V S H Grpc Http)
  datadog_made (w, err e) = (w, err (datadog_failed e))
  datadog_made (w, ok setup) = (w, ok (datadog setup))

  from_open_telemetry :
      Option OpenTelemetryConfig
      → Bytes
      → W
      → W × Result ExporterError (AnyExporter V S H Grpc Http)
  unfolding open_telemetry_made new_metrics_otel_exporter
  from_open_telemetry none log_dir w = (w, err nil_section)
  from_open_telemetry (some cfg) log_dir w =
      open_telemetry_made (new_metrics_otel_exporter api files cfg log_dir w)

  from_datadog :
      Option DatadogConfig → Bytes → W → W × Result ExporterError (AnyExporter V S H Grpc Http)
  unfolding datadog_made new_datadog_exporter get_datadog_context
  from_datadog none log_dir w = (w, err nil_section)
  from_datadog (some cfg) log_dir w =
      datadog_made (new_datadog_exporter files (get_datadog_context cfg) cfg log_dir w)

  -- `newMetricsExporter`
  unfoldable pub new_metrics_exporter :
      LspwatchConfig → Bytes → W → W × Result ExporterError (AnyExporter V S H Grpc Http)
  unfolding from_open_telemetry from_datadog same
  new_metrics_exporter cfg log_dir w =
      if same cfg.exporter (codes "opentelemetry")
      then from_open_telemetry cfg.open_telemetry log_dir w
      else if same cfg.exporter (codes "datadog")
      then from_datadog cfg.datadog log_dir w
      else (w, err (invalid_exporter cfg.exporter))
