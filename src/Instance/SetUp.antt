-- ===== src/Instance/SetUp.antt =====
-- `NewLspwatchInstance` of internal/lspwatch.go as a whole, from the path of the configuration on,
-- with the exporter as a value of the one interface that both exporters have. The command and its
-- pipes are the system's.
pub mod Panics
pub mod Builds
use lspwatch.Common.{ℕ, Bool, true, false, Option, none, some, List, if◌then◌else◌, Bytes, codes}
use lspwatch.Common.Dict.{Dict}
use lspwatch.Common.Results.{Result, ok, err}
use lspwatch.Config.{LspwatchConfig, ConfigError, Services, get_config}
use lspwatch.Telemetry.{MetricRegistration, MetricRecording, MetricsExporter, Tag}
use lspwatch.Io.Logs.{Files, Log, LogError, create_logger}
use lspwatch.Core.Buffer.{OrderedMap}
use lspwatch.Exporters.Otel
use lspwatch.Exporters.Otel.{Sdk, OtelExporter}
use lspwatch.Exporters.Otel.Setup.{SetupApi, Transport}
use lspwatch.Exporters.Datadog.{DatadogExporter}
use lspwatch.Exporters.Datadog.Delivery
use lspwatch.Exporters.Datadog.Setup.{DatadogSetup}
use lspwatch.Instance.{
  Host, global_tag_getters, LspwatchInstance, InstanceError, new_lspwatch_instance,
}
use lspwatch.Instance.Exporter.{
  AnyExporter, open_telemetry, datadog, ExporterError, open_telemetry_failed, datadog_failed,
  invalid_exporter, nil_section, new_metrics_exporter,
}

module _ {V S H Grpc Http : Type 0} (meter : Sdk V S H) (range : Dict Bytes → Dict Bytes) where
  otel_with :
      Transport Grpc Http
      → Log
      → OtelExporter S H × Option Bytes
      → AnyExporter V S H Grpc Http × Option Bytes
  otel_with transport log (x, e) = (open_telemetry x transport log, e)

  datadog_with :
      DatadogSetup V → DatadogExporter V × Option Bytes → AnyExporter V S H Grpc Http × Option Bytes
  datadog_with setup (x, e) = (datadog (record setup { exporter = x }), e)

  any_register :
      MetricRegistration → AnyExporter V S H Grpc Http → AnyExporter V S H Grpc Http × Option Bytes
  unfolding otel_with datadog_with Otel.as_otel_exporter Delivery.as_datadog_exporter
  any_register g (open_telemetry x transport log) =
      otel_with transport log ((Otel.as_otel_exporter meter range).register_metric g x)
  any_register g (datadog setup) =
      datadog_with setup (Delivery.as_datadog_exporter.register_metric g setup.exporter)

  any_emit :
      MetricRecording V → AnyExporter V S H Grpc Http → AnyExporter V S H Grpc Http × Option Bytes
  unfolding otel_with datadog_with Otel.as_otel_exporter Delivery.as_datadog_exporter
  any_emit m (open_telemetry x transport log) =
      otel_with transport log ((Otel.as_otel_exporter meter range).emit_metric m x)
  any_emit m (datadog setup) =
      datadog_with setup (Delivery.as_datadog_exporter.emit_metric m setup.exporter)

  any_set_tags : List Tag → AnyExporter V S H Grpc Http → AnyExporter V S H Grpc Http
  unfolding Otel.as_otel_exporter Delivery.as_datadog_exporter
  any_set_tags tags (open_telemetry x transport log) =
      open_telemetry ((Otel.as_otel_exporter meter range).set_global_tags tags x) transport log
  any_set_tags tags (datadog setup) =
      datadog (record setup {
        exporter = Delivery.as_datadog_exporter.set_global_tags tags setup.exporter;
      })

  -- A value of the interface has the methods of what it points to.
  unfoldable pub as_any : MetricsExporter V (AnyExporter V S H Grpc Http)
  unfolding any_register any_emit any_set_tags
  as_any = record {
    register_metric = any_register;
    emit_metric = any_emit;
    set_global_tags = any_set_tags;
  }

-- `exec.Command` with what its three pipe methods say: true is success.
pub record Command : Type 0 where
  pub path : Bytes
  pub stderr_pipe : Bool
  pub stdout_pipe : Bool
  pub stdin_pipe : Bool

pub data SetUpError : Type 0 where
  configuring : ConfigError → SetUpError
  piping_stderr piping_stdout piping_stdin : SetUpError
  exporting : ExporterError → SetUpError
  assembling : InstanceError → SetUpError

-- How the start ends; a nil pointer that is used panics.
pub data Outcome (B : OrderedMap) (X : Type 0) : Type 0 where
  has_built : LspwatchInstance B → Log → X → Outcome B X
  refuses : SetUpError → Outcome B X
  panics : Outcome B X

module _ {E V S H Pool Cert Grpc Http Resource W : Type 0} (services : Services E)
    (api : SetupApi Pool Cert Grpc Http Resource) (files : Files W) (sdk : S) (meter : Sdk V S H)
    (range : Dict Bytes → Dict Bytes) (of_bytes : ℕ → V) (B : OrderedMap) (host : Host) where
  assembled :
      Log
      → Result InstanceError (LspwatchInstance B) × AnyExporter V S H Grpc Http
      → Outcome B (AnyExporter V S H Grpc Http)
  assembled log (err e, x) = refuses (assembling e)
  assembled log (ok i, x) = has_built i log x

  with_exporter :
      Bytes
      → LspwatchConfig
      → Command
      → Log
      → Result ExporterError (AnyExporter V S H Grpc Http)
      → Outcome B (AnyExporter V S H Grpc Http)
  unfolding assembled as_any global_tag_getters new_lspwatch_instance
  with_exporter mode cfg command log (err nil_section) = panics
  with_exporter mode cfg command log (err e) = refuses (exporting e)
  with_exporter mode cfg command log (ok x) = assembled log (
      new_lspwatch_instance (as_any meter range) of_bytes B cfg
        (global_tag_getters host command.path) mode x)

  -- the pipes to the command, and the exporter
  with_config :
      Bytes
      → Bytes
      → Command
      → W
      → Log
      → Result ConfigError (LspwatchConfig × E)
      → Outcome B (AnyExporter V S H Grpc Http)
  unfolding with_exporter new_metrics_exporter
  with_config log_dir mode command w log (err e) = refuses (configuring e)
  with_config log_dir mode command w log (ok (cfg, env)) =
      if command.stderr_pipe
      then if command.stdout_pipe
        then if command.stdin_pipe
          then with_exporter mode cfg command log
              (new_metrics_exporter api files sdk cfg log_dir w).1
          else refuses piping_stdin
        else refuses piping_stdout
      else refuses piping_stderr

  -- the logger, which is nil when it cannot be created, and used to say so
  with_log :
      Bytes
      → Bytes
      → Bytes
      → Command
      → E
      → W × Result LogError Log
      → Outcome B (AnyExporter V S H Grpc Http)
  unfolding with_config get_config
  with_log path log_dir mode command env (w, err e) = panics
  with_log path log_dir mode command env (w, ok log) =
      with_config log_dir mode command w log (get_config services path env)

  -- `NewLspwatchInstance`
  unfoldable pub set_up :
      (path log_dir mode : Bytes) → Command → E → W → Outcome B (AnyExporter V S H Grpc Http)
  unfolding with_log create_logger
  set_up path log_dir mode command env w =
      with_log path log_dir mode command env (create_logger files log_dir (codes "lspwatch.log") w)
