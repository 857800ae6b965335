-- ===== src/Instance/Exporter/Ready.antt =====
-- What `newMetricsExporter` of internal/lspwatch.go makes of a configuration that satisfies the
-- rules.
use lspwatch.Common.{
  Bool, ◌≡◌, sym, subst, inl, inr, true, refl, some, Bytes, codes, same, contains,
}
use lspwatch.Common.Results.{Result, ok, err}
use lspwatch.Config.{LspwatchConfig, OpenTelemetryConfig, DatadogConfig}
use lspwatch.Config.Rules.{protocols, batch_rules, is_fit}
use lspwatch.Config.Rules.Kept.{HasSection, is_fit_lem}
use lspwatch.Io.Logs.{Files, Log, LogError}
use lspwatch.Exporters.Otel.Setup.{SetupApi, SetupError, Transport, new_metrics_otel_exporter}
use lspwatch.Exporters.Otel.Setup.Chosen.{IsOver, IsWired, new_metrics_otel_exporter-IsWired}
use lspwatch.Exporters.Datadog.Setup.{DatadogSetup, get_datadog_context, new_datadog_exporter}
use lspwatch.Exporters.Datadog.Setup.Bounds.{IsBatching, IsSetUp, new_datadog_exporter-IsSetUp}
use lspwatch.Instance.Exporter.{
  AnyExporter, open_telemetry, datadog, ExporterError, open_telemetry_failed, datadog_failed,
  invalid_exporter, nil_section, new_metrics_exporter, from_open_telemetry, from_datadog,
  open_telemetry_made, datadog_made,
}

module _ (V H : Type 0) {S Pool Cert Grpc Http Resource W : Type 0}
    (api : SetupApi Pool Cert Grpc Http Resource) (files : Files W) (sdk : S) where
  -- The exporter is the one that the configuration names, made from its section: over
  -- OpenTelemetry, by the protocol given there; for Datadog, with the keys and the site given there,
  -- and batches within the bounds. The errors that are left are those of the machine, from the
  -- exporter that is named.
  abbrev pub IsReady : LspwatchConfig → Result ExporterError (AnyExporter V S H Grpc Http) → Type 0
  IsReady cfg (ok (open_telemetry x transport log)) =
      (cfg.exporter ≡ codes "opentelemetry")
      × ((o : OpenTelemetryConfig) × (cfg.open_telemetry ≡ some o) × IsOver api files o transport)
  IsReady cfg (ok (datadog setup)) =
      (cfg.exporter ≡ codes "datadog")
      × ((d : DatadogConfig) × (cfg.datadog ≡ some d)
          × IsBatching setup.exporter
          × (setup.context ≡ get_datadog_context d))
  IsReady cfg (err (open_telemetry_failed e)) = cfg.exporter ≡ codes "opentelemetry"
  IsReady cfg (err (datadog_failed e)) = cfg.exporter ≡ codes "datadog"
  IsReady cfg (err (invalid_exporter name)) = ⊥
  IsReady cfg (err nil_section) = ⊥

  module _ (cfg : LspwatchConfig) where
    open_telemetry_made-IsReady :
        (o : OpenTelemetryConfig) (t : W × Result SetupError (Transport Grpc Http × Log))
        → cfg.exporter ≡ codes "opentelemetry"
        → cfg.open_telemetry ≡ some o
        → IsWired api files o t.1
        → IsReady cfg (open_telemetry_made api files sdk t).1
    unfolding open_telemetry_made
    open_telemetry_made-IsReady o (w, err e) named found h = named
    open_telemetry_made-IsReady o (w, ok (transport, log)) named found h = (named, (o, found, h))

    datadog_made-IsReady :
        (d : DatadogConfig) (t : W × Result LogError (DatadogSetup V))
        → cfg.exporter ≡ codes "datadog"
        → cfg.datadog ≡ some d
        → IsSetUp V files (get_datadog_context d) t.1
        → IsReady cfg (datadog_made api files sdk t).1
    unfolding datadog_made
    datadog_made-IsReady d (w, err e) named found h = named
    datadog_made-IsReady d (w, ok setup) named found h = (named, (d, found, h.0, h.1))

    from_open_telemetry-IsReady :
        (o : OpenTelemetryConfig) (log_dir : Bytes) (w : W)
        → cfg.exporter ≡ codes "opentelemetry"
        → cfg.open_telemetry ≡ some o
        → contains protocols o.protocol ≡ true
        → IsReady cfg (from_open_telemetry api files sdk cfg.open_telemetry log_dir w).1
    unfolding from_open_telemetry
    from_open_telemetry-IsReady o log_dir w named found known =
        subst (λ section. IsReady cfg (from_open_telemetry api files sdk section log_dir w).1)
          (sym found)
          (open_telemetry_made-IsReady o (new_metrics_otel_exporter api files o log_dir w) named
            found (new_metrics_otel_exporter-IsWired api files o log_dir w known))

    from_datadog-IsReady :
        (d : DatadogConfig) (log_dir : Bytes) (w : W)
        → cfg.exporter ≡ codes "datadog"
        → cfg.datadog ≡ some d
        → batch_rules d ≡ true
        → IsReady cfg (from_datadog api files sdk cfg.datadog log_dir w).1
    unfolding from_datadog
    from_datadog-IsReady d log_dir w named found rules =
        subst (λ section. IsReady cfg (from_datadog api files sdk section log_dir w).1) (sym found)
          (datadog_made-IsReady d (new_datadog_exporter files (get_datadog_context d) d log_dir w)
            named found
            (new_datadog_exporter-IsSetUp V files (get_datadog_context d) d log_dir w rules))

  pub new_metrics_exporter-IsReady :
      (is_filepath : Bytes → Bool) (cfg : LspwatchConfig) (log_dir : Bytes) (w : W)
      → is_fit is_filepath cfg ≡ true
      → IsReady cfg (new_metrics_exporter api files sdk cfg log_dir w).1
  unfolding new_metrics_exporter HasSection same
  new_metrics_exporter-IsReady is_filepath cfg log_dir w fit =
      elim (is_fit_lem is_filepath cfg fit).0 [
        | inl (named, (o, found, known)) ↦
            let chosen : new_metrics_exporter {V = V} {H = H} api files sdk cfg log_dir w
                ≡ from_open_telemetry api files sdk cfg.open_telemetry log_dir w =
              rw named refl in
            subst (λ t. IsReady cfg t.1) (sym chosen)
              (from_open_telemetry-IsReady cfg o log_dir w named found known)
        | inr (named, (d, found, rules)) ↦
            let chosen : new_metrics_exporter {V = V} {H = H} api files sdk cfg log_dir w
                ≡ from_datadog api files sdk cfg.datadog log_dir w =
              rw named refl in
            subst (λ t. IsReady cfg t.1) (sym chosen)
              (from_datadog-IsReady cfg d log_dir w named found rules)
      ]
