-- ===== src/Config.antt =====
-- internal/config/config.go, and `getConfig` of internal/lspwatch.go. The YAML decoder, the
-- validator, the `.env` loader and the file system are parameters: `Services`.
pub mod Valid
pub mod Rules
use lspwatch.Common.{
  ℕ, Bool, true, false, Option, none, some, List, [], ◌∷◌, if◌then◌else◌, Bytes, codes, same,
}
use lspwatch.Common.Dict.{Dict}
use lspwatch.Common.Int.{ℤ}
use lspwatch.Common.Results.{Result, ok, err, ◌>>=◌}

pub record TlsConfig : Type 0 where
  pub insecure : Bool
  pub insecure_skip_verify : Bool
  pub ca_file : Bytes
  pub cert_file : Bytes
  pub key_file : Bytes

pub record OpenTelemetryConfig : Type 0 where
  pub protocol : Bytes
  pub directory : Bytes
  pub endpoint : Bytes
  pub tls : TlsConfig
  pub compression : Bytes
  pub headers : Dict Bytes
  pub timeout : Option ℤ

pub record DatadogConfig : Type 0 where
  pub client_api_key : Bytes
  pub client_app_key : Bytes
  pub batch_size : Option ℤ
  pub batch_timeout : Option ℤ
  pub site : Bytes
  pub disable_compression : Option Bool

pub record LspwatchConfig : Type 0 where
  pub exporter : Bytes
  pub env_file_path : Bytes
  pub project : Bytes
  pub metrics : Option (List Bytes)
  pub tags : List Bytes
  pub metered_requests : Option (List Bytes)
  pub polling_interval : Option ℤ
  pub open_telemetry : Option OpenTelemetryConfig
  pub datadog : Option DatadogConfig

abbrev no_tls : TlsConfig
no_tls = record {
  insecure = false;
  insecure_skip_verify = false;
  ca_file = [];
  cert_file = [];
  key_file = [];
}

-- `GetDefaultConfig`: what is not set is the zero value of its type.
unfoldable pub get_default_config : LspwatchConfig
get_default_config = record {
  exporter = codes "opentelemetry";
  env_file_path = [];
  project = [];
  metrics = none;
  tags = [];
  metered_requests = none;
  polling_interval = none;
  open_telemetry = some (record {
    protocol = codes "file";
    directory = codes "./";
    endpoint = [];
    tls = no_tls;
    compression = [];
    headers = [];
    timeout = none;
  });
  datadog = none;
}

pub data ConfigError : Type 0 where
  loading decoding invalid env_file : ConfigError

-- What the program takes from elsewhere, with the environment of the process as its state `E`.
pub record Services (E : Type 0) : Type 0 where
  pub read_file : Bytes → Option Bytes  -- os.ReadFile
  pub unmarshal : Bytes → Option LspwatchConfig  -- yaml.Unmarshal
  pub validate : LspwatchConfig → Bool  -- validate.Struct reports no error
  pub load_env : Bytes → E → Option E  -- godotenv.Load
  pub expand_env : E → Bytes → Bytes  -- os.ExpandEnv

module _ {E : Type 0} (services : Services E) where
  open services use {read_file, unmarshal, validate, load_env, expand_env}

  expand_headers : E → Dict Bytes → Dict Bytes
  expand_headers env [] = []
  expand_headers env ((k, v) ∷ hs) = (k, expand_env env v) ∷ expand_headers env hs

  unfoldable pub expanded_keys : E → Option DatadogConfig → Option DatadogConfig
  expanded_keys env none = none
  expanded_keys env (some d) = some (record d {
    client_api_key = expand_env env d.client_api_key;
    client_app_key = expand_env env d.client_app_key;
  })

  unfoldable pub expanded_headers : E → Option OpenTelemetryConfig → Option OpenTelemetryConfig
  unfolding expand_headers
  expanded_headers env none = none
  expanded_headers env (some o) = some (record o { headers = expand_headers env o.headers })

  -- the expansion of environment variables in the two sections that allow it
  unfoldable pub expand : E → LspwatchConfig → LspwatchConfig
  unfolding expanded_keys expanded_headers
  expand env c = record c {
    datadog = expanded_keys env c.datadog;
    open_telemetry = expanded_headers env c.open_telemetry;
  }

  unfoldable pub unmarshalled : Option LspwatchConfig → Result ConfigError LspwatchConfig
  unmarshalled none = err decoding
  unmarshalled (some c) = ok c

  unfoldable pub validated : LspwatchConfig → Result ConfigError LspwatchConfig
  validated c = if validate c then ok c else err invalid

  unfoldable pub loaded : Option E → Result ConfigError E
  loaded none = err env_file
  loaded (some env) = ok env

  unfoldable pub environment : LspwatchConfig → E → Result ConfigError E
  unfolding loaded same
  environment c env =
      if same c.env_file_path [] then ok env else loaded (load_env c.env_file_path env)

  -- `ReadLspwatchConfig`
  unfoldable pub read_lspwatch_config : Bytes → E → Result ConfigError (LspwatchConfig × E)
  unfolding unmarshalled validated environment expand
  read_lspwatch_config bytes env = do
    c ← unmarshalled (unmarshal bytes)
    c' ← validated c
    env' ← environment c' env
    ok (expand env' c', env')

  unfoldable pub file_read : Option Bytes → Result ConfigError Bytes
  file_read none = err loading
  file_read (some bytes) = ok bytes

  -- `getConfig` of internal/lspwatch.go
  unfoldable pub get_config : Bytes → E → Result ConfigError (LspwatchConfig × E)
  unfolding file_read read_lspwatch_config get_default_config same
  get_config path env =
      if same path []
      then ok (get_default_config, env)
      else file_read (read_file path) >>= λ bytes. read_lspwatch_config bytes env
