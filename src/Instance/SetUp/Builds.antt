-- ===== src/Instance/SetUp/Builds.antt =====
-- When the start of internal/lspwatch.go builds an instance.
use lspwatch.Common.{ℕ, ◌≡◌, refl, ap, ◌∙◌, Bool, true, false, ◌&&◌, if◌then◌else◌, Bytes, codes}
use lspwatch.Common.Dict.{Dict}
use lspwatch.Common.Results.{Result, ok, err}
use lspwatch.Config.{LspwatchConfig, ConfigError, Services, get_config}
use lspwatch.Config.Rules.{is_fit}
use lspwatch.Config.Rules.Kept.{KeepsRules, get_config-is_fit, is_fit_lem}
use lspwatch.Io.Logs.{Files, Log, LogError, create_logger}
use lspwatch.Core.Buffer.{OrderedMap}
use lspwatch.Core.Proxy.{is_mode}
use lspwatch.Exporters.Otel
use lspwatch.Exporters.Datadog.Delivery
use lspwatch.Exporters.Otel.{Sdk}
use lspwatch.Exporters.Otel.Setup.{SetupApi}
use lspwatch.Instance.{
  Host, LspwatchInstance, InstanceError, global_tag_getters, new_lspwatch_instance,
}
use lspwatch.Instance.Exporter.{
  AnyExporter, open_telemetry, datadog, ExporterError, open_telemetry_failed, datadog_failed,
  invalid_exporter, nil_section, new_metrics_exporter,
}
use lspwatch.Instance.Assembly.{is_ok, no_metrics, Accepts, new_lspwatch_instance_builds}
use lspwatch.Instance.SetUp.{
  as_any, any_register, otel_with, datadog_with, Command, Outcome, has_built, assembled,
  with_exporter, with_config, with_log, set_up,
}

abbrev pub is_built : {B : OrderedMap} {X : Type 0} → Outcome B X → Bool
is_built (has_built i log x) = true
is_built _ = false

as_any-Accepts :
    {V S H Grpc Http : Type 0} (meter : Sdk V S H) (range : Dict Bytes → Dict Bytes)
    → Accepts (as_any {Grpc = Grpc} {Http = Http} meter range)
unfolding as_any any_register otel_with datadog_with Otel.as_otel_exporter
    Delivery.as_datadog_exporter
as_any-Accepts meter range g (open_telemetry x transport log) = refl
as_any-Accepts meter range g (datadog setup) = refl

three_tests :
    {B : OrderedMap} {X : Type 0} (a b c : Bool) (last err_c err_b err_a : Outcome B X)
    → is_built err_c ≡ false
    → is_built err_b ≡ false
    → is_built err_a ≡ false
    → is_built (if a then if b then if c then last else err_c else err_b else err_a)
      ≡ (a && b && c && is_built last)
three_tests true true true last err_c err_b err_a p q r = refl
three_tests true true false last err_c err_b err_a p q r = p
three_tests true false c last err_c err_b err_a p q r = q
three_tests false b c last err_c err_b err_a p q r = r

module _ {E S Pool Cert Grpc Http Resource W V H : Type 0} (services : Services E)
    (api : SetupApi Pool Cert Grpc Http Resource) (files : Files W) (sdk : S) (meter : Sdk V S H)
    (range : Dict Bytes → Dict Bytes) (of_bytes : ℕ → V) (B : OrderedMap) (host : Host) where
  assembled-is_built :
      (log : Log) (t : Result InstanceError (LspwatchInstance B) × AnyExporter V S H Grpc Http)
      → is_built (assembled services api files sdk meter range of_bytes B host log t) ≡ is_ok t.0
  unfolding assembled
  assembled-is_built log (err e, x) = refl
  assembled-is_built log (ok i, x) = refl

  is_built-with_exporter :
      (is_filepath : Bytes → Bool) (mode : Bytes) (cfg : LspwatchConfig) (command : Command)
      (log : Log) (r : Result ExporterError (AnyExporter V S H Grpc Http))
      → is_fit is_filepath cfg ≡ true
      → is_built
          (with_exporter services api files sdk meter range of_bytes B host mode cfg command log r)
        ≡ (is_ok r && (is_mode mode && no_metrics cfg.metrics))
  unfolding with_exporter
  is_built-with_exporter is_filepath mode cfg command log (err (open_telemetry_failed e)) fit = refl
  is_built-with_exporter is_filepath mode cfg command log (err (datadog_failed e)) fit = refl
  is_built-with_exporter is_filepath mode cfg command log (err (invalid_exporter n)) fit = refl
  is_built-with_exporter is_filepath mode cfg command log (err nil_section) fit = refl
  is_built-with_exporter is_filepath mode cfg command log (ok x) fit =
      assembled-is_built log (
        new_lspwatch_instance (as_any meter range) of_bytes B cfg
          (global_tag_getters host command.path) mode x)
      ∙ new_lspwatch_instance_builds (as_any meter range) of_bytes B cfg host command.path mode x
          (as_any-Accepts meter range) (is_fit_lem is_filepath cfg fit).1

  -- What is needed once the log is there: a configuration, the pipes to the command, the exporter,
  -- a known mode, and no listed metrics.
  pub can_start :
      (log_dir mode : Bytes) → Command → W → Result ConfigError (LspwatchConfig × E) → Bool
  can_start log_dir mode command w (err e) = false
  can_start log_dir mode command w (ok (cfg, env)) =
      command.stderr_pipe
      && command.stdout_pipe
      && command.stdin_pipe
      && (is_ok (new_metrics_exporter {V = V} {H = H} api files sdk cfg log_dir w).1
          && (is_mode mode && no_metrics cfg.metrics))

  pub starts_with : (path log_dir mode : Bytes) → Command → E → W × Result LogError Log → Bool
  unfolding can_start
  starts_with path log_dir mode command env (w, err e) = false
  starts_with path log_dir mode command env (w, ok log) =
      can_start log_dir mode command w (get_config services path env)

  is_built-with_config :
      (is_filepath : Bytes → Bool) (log_dir mode : Bytes) (command : Command) (w : W) (log : Log)
      (r : Result ConfigError (LspwatchConfig × E))
      → ((cfg : LspwatchConfig) (env : E) → r ≡ ok (cfg, env) → is_fit is_filepath cfg ≡ true)
      → is_built (
          with_config services api files sdk meter range of_bytes B host log_dir mode command w log
            r)
        ≡ can_start log_dir mode command w r
  unfolding with_config can_start
  is_built-with_config is_filepath log_dir mode command w log (err e) fit = refl
  is_built-with_config is_filepath log_dir mode command w log (ok (cfg, env)) fit =
      three_tests command.stderr_pipe command.stdout_pipe command.stdin_pipe _ _ _ _ refl refl refl
      ∙ ap (λ b. command.stderr_pipe && command.stdout_pipe && command.stdin_pipe && b)
          (is_built-with_exporter is_filepath mode cfg command log _ (fit cfg env refl))

  is_built-with_log :
      (is_filepath : Bytes → Bool) (path log_dir mode : Bytes) (command : Command) (env : E)
      (t : W × Result LogError Log)
      → KeepsRules is_filepath services
      → is_built (
          with_log services api files sdk meter range of_bytes B host path log_dir mode command env
            t)
        ≡ starts_with path log_dir mode command env t
  unfolding with_log starts_with
  is_built-with_log is_filepath path log_dir mode command env (w, err e) keeps = refl
  is_built-with_log is_filepath path log_dir mode command env (w, ok log) keeps =
      is_built-with_config is_filepath log_dir mode command w log (get_config services path env)
        (λ cfg env' q. get_config-is_fit is_filepath services path env env' cfg keeps q)

  -- With a validator that keeps the rules, the start builds an instance exactly if the log can be
  -- created, the configuration is found and valid, the command gives its three pipes, the exporter
  -- can be made, the mode is a known one, and the configuration lists no metrics.
  pub is_built-set_up :
      (is_filepath : Bytes → Bool) (path log_dir mode : Bytes) (command : Command) (env : E) (w : W)
      → KeepsRules is_filepath services
      → is_built (
          set_up services api files sdk meter range of_bytes B host path log_dir mode command env w)
        ≡ starts_with path log_dir mode command env
            (create_logger files log_dir (codes "lspwatch.log") w)
  unfolding set_up
  is_built-set_up is_filepath path log_dir mode command env w keeps =
      is_built-with_log is_filepath path log_dir mode command env
        (create_logger files log_dir (codes "lspwatch.log") w) keeps
