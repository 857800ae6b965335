-- ===== src/Exporters/Otel/Setup.antt =====
-- internal/exporters/otel.go: `newTLSConfig`, the options of the two OTLP exporters, and
-- `NewMetricsOTelExporter`. An option is the call that makes it; certificates, pools, the OTLP
-- exporters and the resource are of third parties.
pub mod Options
pub mod Chosen
use lspwatch.Common.{
  Bool, true, false, Option, none, some, List, [], ◌∷◌, ◌++◌, if◌then◌else◌, Bytes, codes, same,
}
use lspwatch.Common.Dict.{Dict}
use lspwatch.Common.Int.{ℤ}
use lspwatch.Common.Results.{Result, ok, err, ◌>>=◌}
use lspwatch.Config.{TlsConfig, OpenTelemetryConfig}
use lspwatch.Core.Watcher.{seconds_duration}
use lspwatch.Io.Logs.{Files, Log, LogError, create_logger}

-- `tls.Config`, by the fields that are set; a nil pool is `none`
pub record TlsSettings (Pool Cert : Type 0) : Type 0 where
  pub insecure_skip_verify : Bool
  pub root_cas : Option Pool
  pub client_cas : Option Pool
  pub certificates : List Cert

pub data GrpcOption (Tls : Type 0) : Type 0 where
  with_endpoint : Bytes → GrpcOption Tls
  with_headers : Dict Bytes → GrpcOption Tls
  with_tls_credentials : Tls → GrpcOption Tls
  with_insecure : GrpcOption Tls
  with_timeout : ℤ → GrpcOption Tls
  with_compressor : Bytes → GrpcOption Tls

pub data HttpOption (Tls : Type 0) : Type 0 where
  http_endpoint : Bytes → HttpOption Tls
  http_headers : Dict Bytes → HttpOption Tls
  http_tls : Tls → HttpOption Tls
  http_insecure : HttpOption Tls
  http_timeout : ℤ → HttpOption Tls
  http_gzip : HttpOption Tls

pub data SetupError : Type 0 where
  reading_ca appending_ca loading_pair : SetupError
  creating_grpc creating_http creating_file creating_resource : SetupError
  creating_logger : LogError → SetupError

-- `semconv.ServiceName` and `semconv.DeploymentEnvironment`
pub data ResourceAttribute : Type 0 where
  service_name : Bytes → ResourceAttribute
  deployment_environment : Bytes → ResourceAttribute

-- What the set-up takes from `os`, `crypto` and the SDK.
pub record SetupApi (Pool Cert Grpc Http Resource : Type 0) : Type 0 where
  pub read_file : Bytes → Option Bytes  -- os.ReadFile
  pub pool_from_pem : Bytes → Option Pool  -- AppendCertsFromPEM on a new pool
  pub load_key_pair : Bytes → Bytes → Option Cert  -- tls.LoadX509KeyPair
  pub new_grpc : List (GrpcOption (TlsSettings Pool Cert)) → Option Grpc  -- otlpmetricgrpc.New
  pub new_http : List (HttpOption (TlsSettings Pool Cert)) → Option Http  -- otlpmetrichttp.New
  pub default_resource : Resource  -- resource.Default
  pub with_attributes : List ResourceAttribute → Resource  -- resource.NewWithAttributes, with the schema
  pub merge : Resource → Resource → Option Resource  -- resource.Merge

-- The exporter under the logging one: `unset` is the nil interface.
pub data Transport (Grpc Http : Type 0) : Type 0 where
  over_grpc : Grpc → Transport Grpc Http
  over_http : Http → Transport Grpc Http
  to_file : Bytes → Transport Grpc Http
  unset : Transport Grpc Http

abbrev or_error : {A : Type 0} → SetupError → Option A → Result SetupError A
or_error e none = err e
or_error e (some a) = ok a

module _ {Pool Cert Grpc Http Resource : Type 0} (api : SetupApi Pool Cert Grpc Http Resource) where
  -- the pool of `newTLSConfig`, which is made if a file is named
  unfoldable pub client_pool : Bytes → Result SetupError (Option Pool)
  unfolding same
  client_pool ca_file =
      if same ca_file []
      then ok none
      else or_error reading_ca (api.read_file ca_file)
        >>= (λ pem. or_error appending_ca (api.pool_from_pem pem) >>= λ pool. ok (some pool))

  -- its certificates: one, if both files are named
  unfoldable pub own_certificates : Bytes → Bytes → Result SetupError (List Cert)
  unfolding same
  own_certificates cert_file key_file =
      if same cert_file []
      then ok []
      else if same key_file []
      then ok []
      else or_error loading_pair (api.load_key_pair cert_file key_file) >>= λ cert. ok (cert ∷ [])

  -- `newTLSConfig`
  unfoldable pub new_tls_config : TlsConfig → Result SetupError (TlsSettings Pool Cert)
  unfolding client_pool own_certificates
  new_tls_config cfg = do
    pool ← client_pool cfg.ca_file
    certificates ← own_certificates cfg.cert_file cfg.key_file
    ok (record {
      insecure_skip_verify = cfg.insecure_skip_verify;
      root_cas = none;
      client_cas = pool;
      certificates = certificates;
    })

  -- the options of `newOTLPMetricsGRPCExporter`
  unfoldable pub grpc_options :
      OpenTelemetryConfig → TlsSettings Pool Cert → List (GrpcOption (TlsSettings Pool Cert))
  unfolding seconds_duration same
  grpc_options cfg tls =
      (with_endpoint cfg.endpoint ∷ with_headers cfg.headers ∷ [])
      ++ ((if cfg.tls.insecure then with_insecure else with_tls_credentials tls) ∷ [])
      ++ (elim cfg.timeout [ none ↦ [] | some n ↦ with_timeout (seconds_duration n) ∷ [] ])
      ++ (if same cfg.compression [] then [] else with_compressor cfg.compression ∷ [])

  -- the options of `newOTLPMetricsHTTPExporter`: the one that is made for a timeout is not appended
  unfoldable pub http_options :
      OpenTelemetryConfig → TlsSettings Pool Cert → List (HttpOption (TlsSettings Pool Cert))
  unfolding same
  http_options cfg tls =
      (http_endpoint cfg.endpoint ∷ http_headers cfg.headers ∷ [])
      ++ ((if cfg.tls.insecure then http_insecure else http_tls tls) ∷ [])
      ++ (if same cfg.compression [] then [] else http_gzip ∷ [])

  unfoldable pub new_grpc_exporter : OpenTelemetryConfig → Result SetupError (Transport Grpc Http)
  unfolding new_tls_config grpc_options
  new_grpc_exporter cfg = do
    tls ← new_tls_config cfg.tls
    exporter ← or_error creating_grpc (api.new_grpc (grpc_options cfg tls))
    ok (over_grpc exporter)

  unfoldable pub new_http_exporter : OpenTelemetryConfig → Result SetupError (Transport Grpc Http)
  unfolding new_tls_config http_options
  new_http_exporter cfg = do
    tls ← new_tls_config cfg.tls
    exporter ← or_error creating_http (api.new_http (http_options cfg tls))
    ok (over_http exporter)

  module _ {W : Type 0} (files : Files W) where
    opened_file : Bytes → W × Bool → W × Result SetupError (Transport Grpc Http)
    opened_file path (w, true) = (w, ok (to_file path))
    opened_file path (w, false) = (w, err creating_file)

    -- `newFileExporter`
    unfoldable pub new_file_exporter :
        OpenTelemetryConfig → W → W × Result SetupError (Transport Grpc Http)
    unfolding opened_file
    new_file_exporter cfg w =
        let path = files.join cfg.directory (codes "lspwatch_metrics.json") in
        opened_file path (files.open_append path w)

    -- the switch on the protocol
    unfoldable pub new_transport :
        OpenTelemetryConfig → W → W × Result SetupError (Transport Grpc Http)
    unfolding new_grpc_exporter new_http_exporter new_file_exporter same
    new_transport cfg w =
        if same cfg.protocol (codes "http")
        then (w, new_http_exporter cfg)
        else if same cfg.protocol (codes "grpc")
        then (w, new_grpc_exporter cfg)
        else if same cfg.protocol (codes "file")
        then new_file_exporter cfg w
        else (w, ok unset)

    -- `newResource`
    unfoldable pub new_resource : Option Resource
    new_resource = api.merge api.default_resource (
        api.with_attributes
          (service_name (codes "lspwatch") ∷ deployment_environment (codes "production") ∷ []))

    with_logger :
        Transport Grpc Http
        → W × Result LogError Log
        → W × Result SetupError (Transport Grpc Http × Log)
    with_logger transport (w, err e) = (w, err (creating_logger e))
    with_logger transport (w, ok log) = (w, ok (transport, log))

    with_resource :
        Transport Grpc Http
        → Bytes
        → W
        → Option Resource
        → W × Result SetupError (Transport Grpc Http × Log)
    unfolding with_logger create_logger
    with_resource transport log_dir w none = (w, err creating_resource)
    with_resource transport log_dir w (some resource) =
        with_logger transport (create_logger files log_dir (codes "otel.log") w)

    with_transport :
        Bytes
        → W × Result SetupError (Transport Grpc Http)
        → W × Result SetupError (Transport Grpc Http × Log)
    unfolding with_resource new_resource
    with_transport log_dir (w, err e) = (w, err e)
    with_transport log_dir (w, ok transport) = with_resource transport log_dir w new_resource

    -- `NewMetricsOTelExporter`: what it puts into the exporter beside empty fields
    unfoldable pub new_metrics_otel_exporter :
        OpenTelemetryConfig → Bytes → W → W × Result SetupError (Transport Grpc Http × Log)
    unfolding with_transport new_transport
    new_metrics_otel_exporter cfg log_dir w = with_transport log_dir (new_transport cfg w)
