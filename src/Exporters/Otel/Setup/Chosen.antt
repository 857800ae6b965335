-- ===== src/Exporters/Otel/Setup/Chosen.antt =====
-- Which exporter of internal/exporters/otel.go a configuration gives.
use lspwatch.Common.{
  ◌≡◌, refl, inl, inr, Bool, true, false, Option, none, some, Bytes, codes, same, same_iff,
  same_comm, contains, Bool-cases, arith,
}
use lspwatch.Common.Results.{Result, ok, err, ◌>>=◌}
use lspwatch.Config.{OpenTelemetryConfig}
use lspwatch.Config.Rules.{protocols}
use lspwatch.Io.Logs.{Files, Log, LogError}
use lspwatch.Exporters.Otel.Setup.{
  TlsSettings, SetupApi, SetupError, Transport, over_grpc, over_http, to_file, unset, or_error,
  creating_grpc, creating_http, new_tls_config, grpc_options, http_options, new_grpc_exporter,
  new_http_exporter, opened_file, new_file_exporter, new_transport, with_logger, with_resource,
  with_transport, new_metrics_otel_exporter, new_resource,
}

module _ {Pool Cert Grpc Http Resource W : Type 0} (api : SetupApi Pool Cert Grpc Http Resource)
    (files : Files W) where
  -- The exporter is the one that the protocol of the configuration names, made with the options of
  -- that configuration, or on its file.
  abbrev pub IsOver : OpenTelemetryConfig → Transport Grpc Http → Type 0
  IsOver cfg (over_grpc g) =
      (cfg.protocol ≡ codes "grpc")
      × ((tls : TlsSettings Pool Cert) × (new_tls_config api cfg.tls ≡ ok tls)
          × (api.new_grpc (grpc_options api cfg tls) ≡ some g))
  IsOver cfg (over_http h) =
      (cfg.protocol ≡ codes "http")
      × ((tls : TlsSettings Pool Cert) × (new_tls_config api cfg.tls ≡ ok tls)
          × (api.new_http (http_options api cfg tls) ≡ some h))
  IsOver cfg (to_file path) =
      (cfg.protocol ≡ codes "file")
      × (path ≡ files.join cfg.directory (codes "lspwatch_metrics.json"))
  IsOver cfg unset = ⊥

  abbrev IsChosen : OpenTelemetryConfig → Result SetupError (Transport Grpc Http) → Type 0
  IsChosen cfg (ok transport) = IsOver cfg transport
  IsChosen cfg (err e) = Unit

  new_grpc_exporter-IsChosen :
      (cfg : OpenTelemetryConfig)
      → cfg.protocol ≡ codes "grpc"
      → IsChosen cfg (new_grpc_exporter api cfg)
  unfolding new_grpc_exporter
  new_grpc_exporter-IsChosen cfg named = go (new_tls_config api cfg.tls) refl
    where
      made :
          (tls : TlsSettings Pool Cert) (o : Option Grpc)
          → new_tls_config api cfg.tls ≡ ok tls
          → api.new_grpc (grpc_options api cfg tls) ≡ o
          → IsChosen cfg (or_error creating_grpc o >>= λ e. ok (over_grpc e))
      made tls none q q' = tt
      made tls (some e) q q' = (named, (tls, q, q'))

      go :
          (r : Result SetupError (TlsSettings Pool Cert))
          → new_tls_config api cfg.tls ≡ r
          → IsChosen cfg (
              r >>= λ tls. or_error creating_grpc (api.new_grpc (grpc_options api cfg tls)) >>= λ e.
              ok (over_grpc e))
      go (err e) q = tt
      go (ok tls) q = made tls (api.new_grpc (grpc_options api cfg tls)) q refl

  new_http_exporter-IsChosen :
      (cfg : OpenTelemetryConfig)
      → cfg.protocol ≡ codes "http"
      → IsChosen cfg (new_http_exporter api cfg)
  unfolding new_http_exporter
  new_http_exporter-IsChosen cfg named = go (new_tls_config api cfg.tls) refl
    where
      made :
          (tls : TlsSettings Pool Cert) (o : Option Http)
          → new_tls_config api cfg.tls ≡ ok tls
          → api.new_http (http_options api cfg tls) ≡ o
          → IsChosen cfg (or_error creating_http o >>= λ e. ok (over_http e))
      made tls none q q' = tt
      made tls (some e) q q' = (named, (tls, q, q'))

      go :
          (r : Result SetupError (TlsSettings Pool Cert))
          → new_tls_config api cfg.tls ≡ r
          → IsChosen cfg (
              r >>= λ tls. or_error creating_http (api.new_http (http_options api cfg tls)) >>= λ e.
              ok (over_http e))
      go (err e) q = tt
      go (ok tls) q = made tls (api.new_http (http_options api cfg tls)) q refl

  opened_file-IsChosen :
      (cfg : OpenTelemetryConfig)
      → cfg.protocol ≡ codes "file"
      → (t : W × Bool)
      → IsChosen cfg
          (opened_file api files (files.join cfg.directory (codes "lspwatch_metrics.json")) t).1
  unfolding opened_file
  opened_file-IsChosen cfg named (w, true) = (named, refl)
  opened_file-IsChosen cfg named (w, false) = tt

  new_transport-IsChosen :
      (cfg : OpenTelemetryConfig) (w : W)
      → contains protocols cfg.protocol ≡ true
      → IsChosen cfg (new_transport api files cfg w).1
  unfolding new_transport new_file_exporter contains
  new_transport-IsChosen cfg w known = elim (Bool-cases (same cfg.protocol (codes "http"))) [
    | inl http ↦
        rw http (new_http_exporter-IsChosen cfg ((same_iff cfg.protocol (codes "http")).0 http))
    | inr not_http ↦ elim (Bool-cases (same cfg.protocol (codes "grpc"))) [
      | inl grpc ↦
          rw (not_http, grpc)
            (new_grpc_exporter-IsChosen cfg ((same_iff cfg.protocol (codes "grpc")).0 grpc))
      | inr not_grpc ↦ elim (Bool-cases (same cfg.protocol (codes "file"))) [
        | inl file ↦
            rw (not_http, not_grpc, file)
              (opened_file-IsChosen cfg ((same_iff cfg.protocol (codes "file")).0 file) _)
        | inr not_file ↦ absurd (
            ground (
              arith,
              known,
              not_http,
              not_grpc,
              not_file,
              same_comm cfg.protocol (codes "http"),
              same_comm cfg.protocol (codes "grpc"),
              same_comm cfg.protocol (codes "file"),
            ))
      ]
    ]
  ]

  -- What `NewMetricsOTelExporter` has made is the exporter of that configuration.
  abbrev pub IsWired : OpenTelemetryConfig → Result SetupError (Transport Grpc Http × Log) → Type 0
  IsWired cfg (ok (transport, log)) = IsOver cfg transport
  IsWired cfg (err e) = Unit

  with_logger-IsWired :
      (cfg : OpenTelemetryConfig) (transport : Transport Grpc Http) (t : W × Result LogError Log)
      → IsOver cfg transport
      → IsWired cfg (with_logger api files transport t).1
  unfolding with_logger
  with_logger-IsWired cfg transport (w, err e) h = tt
  with_logger-IsWired cfg transport (w, ok log) h = h

  with_resource-IsWired :
      (cfg : OpenTelemetryConfig) (transport : Transport Grpc Http) (log_dir : Bytes) (w : W)
      (o : Option Resource)
      → IsOver cfg transport
      → IsWired cfg (with_resource api files transport log_dir w o).1
  unfolding with_resource
  with_resource-IsWired cfg transport log_dir w none h = tt
  with_resource-IsWired cfg transport log_dir w (some resource) h =
      with_logger-IsWired cfg transport _ h

  with_transport-IsWired :
      (cfg : OpenTelemetryConfig) (log_dir : Bytes)
      (t : W × Result SetupError (Transport Grpc Http))
      → IsChosen cfg t.1
      → IsWired cfg (with_transport api files log_dir t).1
  unfolding with_transport
  with_transport-IsWired cfg log_dir (w, err e) h = tt
  with_transport-IsWired cfg log_dir (w, ok transport) h =
      with_resource-IsWired cfg transport log_dir w (new_resource api files) h

  pub new_metrics_otel_exporter-IsWired :
      (cfg : OpenTelemetryConfig) (log_dir : Bytes) (w : W)
      → contains protocols cfg.protocol ≡ true
      → IsWired cfg (new_metrics_otel_exporter api files cfg log_dir w).1
  unfolding new_metrics_otel_exporter
  new_metrics_otel_exporter-IsWired cfg log_dir w known =
      with_transport-IsWired cfg log_dir (new_transport api files cfg w)
        (new_transport-IsChosen cfg w known)
