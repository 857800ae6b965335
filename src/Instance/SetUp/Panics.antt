-- ===== src/Instance/SetUp/Panics.antt =====
-- When the start of internal/lspwatch.go panics.
use lspwatch.Common.{ℕ, ◌≡◌, refl, Bool, true, false, not, if◌then◌else◌, Bytes, codes}
use lspwatch.Common.Dict.{Dict}
use lspwatch.Common.Results.{Result, ok, err}
use lspwatch.Config.{LspwatchConfig, ConfigError, Services, get_config}
use lspwatch.Config.Rules.{is_fit}
use lspwatch.Config.Rules.Kept.{KeepsRules, get_config-is_fit}
use lspwatch.Io.Logs.{Files, Log, LogError, create_logger}
use lspwatch.Core.Buffer.{OrderedMap}
use lspwatch.Exporters.Otel.{Sdk}
use lspwatch.Exporters.Otel.Setup.{SetupApi}
use lspwatch.Instance.{Host, LspwatchInstance, InstanceError}
use lspwatch.Instance.Exporter.{
  AnyExporter, ExporterError, open_telemetry_failed, datadog_failed, invalid_exporter, nil_section,
}
use lspwatch.Instance.Exporter.Ready.{IsReady, new_metrics_exporter-IsReady}
use lspwatch.Instance.Assembly.{is_ok}
use lspwatch.Instance.SetUp.{
  Command, Outcome, panics, assembled, with_exporter, with_config, with_log, set_up,
}

abbrev pub does_panic : {B : OrderedMap} {X : Type 0} → Outcome B X → Bool
does_panic panics = true
does_panic _ = false

three_panics :
    {B : OrderedMap} {X : Type 0} (a b c : Bool) (last err_c err_b err_a : Outcome B X)
    → does_panic last ≡ false
    → does_panic err_c ≡ false
    → does_panic err_b ≡ false
    → does_panic err_a ≡ false
    → does_panic (if a then if b then if c then last else err_c else err_b else err_a) ≡ false
three_panics true true true last err_c err_b err_a o p q r = o
three_panics true true false last err_c err_b err_a o p q r = p
three_panics true false c last err_c err_b err_a o p q r = q
three_panics false b c last err_c err_b err_a o p q r = r

module _ {E S Pool Cert Grpc Http Resource W V H : Type 0} (services : Services E)
    (api : SetupApi Pool Cert Grpc Http Resource) (files : Files W) (sdk : S) (meter : Sdk V S H)
    (range : Dict Bytes → Dict Bytes) (of_bytes : ℕ → V) (B : OrderedMap) (host : Host) where
  assembled_panics :
      (log : Log) (t : Result InstanceError (LspwatchInstance B) × AnyExporter V S H Grpc Http)
      → does_panic (assembled services api files sdk meter range of_bytes B host log t) ≡ false
  unfolding assembled
  assembled_panics log (err e, x) = refl
  assembled_panics log (ok i, x) = refl

  with_exporter_panics :
      (mode : Bytes) (cfg : LspwatchConfig) (command : Command) (log : Log)
      (r : Result ExporterError (AnyExporter V S H Grpc Http))
      → IsReady V H api files sdk cfg r
      → does_panic
          (with_exporter services api files sdk meter range of_bytes B host mode cfg command log r)
        ≡ false
  unfolding with_exporter
  with_exporter_panics mode cfg command log (err (open_telemetry_failed e)) h = refl
  with_exporter_panics mode cfg command log (err (datadog_failed e)) h = refl
  with_exporter_panics mode cfg command log (err (invalid_exporter n)) h = refl
  with_exporter_panics mode cfg command log (err nil_section) h = absurd h
  with_exporter_panics mode cfg command log (ok x) h = assembled_panics log _

  with_config_panics :
      (is_filepath : Bytes → Bool) (log_dir mode : Bytes) (command : Command) (w : W) (log : Log)
      (r : Result ConfigError (LspwatchConfig × E))
      → ((cfg : LspwatchConfig) (env : E) → r ≡ ok (cfg, env) → is_fit is_filepath cfg ≡ true)
      → does_panic (
          with_config services api files sdk meter range of_bytes B host log_dir mode command w log
            r)
        ≡ false
  unfolding with_config
  with_config_panics is_filepath log_dir mode command w log (err e) fit = refl
  with_config_panics is_filepath log_dir mode command w log (ok (cfg, env)) fit =
      three_panics command.stderr_pipe command.stdout_pipe command.stdin_pipe _ _ _ _
        (with_exporter_panics mode cfg command log _ (
          new_metrics_exporter-IsReady V H api files sdk is_filepath cfg log_dir w
            (fit cfg env refl)))
        refl refl refl

  with_log_panics :
      (is_filepath : Bytes → Bool) (path log_dir mode : Bytes) (command : Command) (env : E)
      (t : W × Result LogError Log)
      → KeepsRules is_filepath services
      → does_panic (
          with_log services api files sdk meter range of_bytes B host path log_dir mode command env
            t)
        ≡ not (is_ok t.1)
  unfolding with_log
  with_log_panics is_filepath path log_dir mode command env (w, err e) keeps = refl
  with_log_panics is_filepath path log_dir mode command env (w, ok log) keeps =
      with_config_panics is_filepath log_dir mode command w log (get_config services path env)
        (λ cfg env' q. get_config-is_fit is_filepath services path env env' cfg keeps q)

  -- With a validator that keeps the rules, the start panics exactly if the log cannot be created:
  -- no configuration, no failing pipe and no failing exporter makes it panic.
  pub set_up_panics :
      (is_filepath : Bytes → Bool) (path log_dir mode : Bytes) (command : Command) (env : E) (w : W)
      → KeepsRules is_filepath services
      → does_panic (
          set_up services api files sdk meter range of_bytes B host path log_dir mode command env w)
        ≡ not (is_ok (create_logger files log_dir (codes "lspwatch.log") w).1)
  unfolding set_up
  set_up_panics is_filepath path log_dir mode command env w keeps =
      with_log_panics is_filepath path log_dir mode command env
        (create_logger files log_dir (codes "lspwatch.log") w) keeps
