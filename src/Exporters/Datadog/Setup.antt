-- ===== src/Exporters/Datadog/Setup.antt =====
-- internal/exporters/datadog.go: what `NewDatadogMetricsExporter` makes beside the exporter's own
-- state, and `GetDatadogContext`.
pub mod Bounds
use lspwatch.Common.{Bool, not, Option, none, some, [], if◌then◌else◌, Bytes, codes, same}
use lspwatch.Common.Results.{Result, ok, err}
use lspwatch.Config.{DatadogConfig}
use lspwatch.Io.Logs.{Files, Log, LogError, create_logger}
use lspwatch.Exporters.Datadog.{DatadogExporter, new_datadog_metrics_exporter}

-- The values that the context of a request carries: the two keys, and the site among the server's
-- variables.
pub record DatadogContext : Type 0 where
  pub api_key_auth : Bytes
  pub app_key_auth : Bytes
  pub site : Option Bytes

-- `GetDatadogContext`
unfoldable pub get_datadog_context : DatadogConfig → DatadogContext
unfolding same
get_datadog_context cfg = record {
  api_key_auth = cfg.client_api_key;
  app_key_auth = cfg.client_app_key;
  site = if same cfg.site [] then none else some cfg.site;
}

-- What `NewDatadogMetricsExporter` makes; `compress` is `none` where the client's own default
-- stays.
pub record DatadogSetup (V : Type 0) : Type 0 where
  pub exporter : DatadogExporter V
  pub context : DatadogContext
  pub compress : Option Bool
  pub log : Log

compress_setting : Option Bool → Option Bool
compress_setting none = none
compress_setting (some disabled) = some (not disabled)

module _ {V W : Type 0} (files : Files W) where
  datadog_logged :
      DatadogContext
      → DatadogConfig
      → W × Result LogError Log
      → W × Result LogError (DatadogSetup V)
  unfolding compress_setting new_datadog_metrics_exporter
  datadog_logged context cfg (w, err e) = (w, err e)
  datadog_logged context cfg (w, ok log) = (
    w,
    ok (record {
      exporter = new_datadog_metrics_exporter cfg;
      context = context;
      compress = compress_setting cfg.disable_compression;
      log = log;
    }),
  )

  -- `NewDatadogMetricsExporter`
  unfoldable pub new_datadog_exporter :
      DatadogContext → DatadogConfig → Bytes → W → W × Result LogError (DatadogSetup V)
  unfolding datadog_logged create_logger
  new_datadog_exporter context cfg log_dir w =
      datadog_logged context cfg (create_logger files log_dir (codes "datadog.log") w)
