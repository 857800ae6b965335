-- ===== src/Tests/Sinks.antt =====
-- Instances for the exporters under the OpenTelemetry one, and for their options.
use lspwatch.Common.{
  ◌≡◌, true, false, Option, none, some, List, [], ◌∷◌, ◌++◌, concat, length, Bytes, codes,
}
use lspwatch.Common.Int.{pos}
use lspwatch.Config.{TlsConfig, OpenTelemetryConfig}
use lspwatch.Exporters.Otel.Sinks.{not_written, FileApi}
use lspwatch.Exporters.Otel.Setup.{TlsSettings, SetupApi, grpc_options, http_options}
use lspwatch.Exporters.Otel.Setup.Options.{counterparts, http_options-grpc_options}

-- Data are the lists of their scope metrics, in JSON already; a file is its contents.
abbrev plain_files : FileApi (List Bytes) (Unit {0}) (Unit {0}) (Unit {0}) Bytes
plain_files = record {
  scope_metrics = λ d. length d;
  marshal = λ d. some (concat d);
  write = λ bytes f. (f ++ bytes, none);
  close = λ f. (f, true);
  default_aggregation = λ kind. tt;
  delta_temporality = tt;
}

abbrev broken_files : FileApi (List Bytes) (Unit {0}) (Unit {0}) (Unit {0}) Bytes
broken_files = record plain_files { write = λ bytes f. (f, some not_written) }

abbrev exports : List (List Bytes)
exports = (codes "{1}" ∷ []) ∷ [] ∷ (codes "{2}" ∷ []) ∷ []

abbrev tls : TlsConfig
tls = record {
  insecure = false;
  insecure_skip_verify = false;
  ca_file = codes "ca.pem";
  cert_file = [];
  key_file = [];
}

abbrev section : OpenTelemetryConfig
section = record {
  protocol = codes "http";
  directory = [];
  endpoint = codes "localhost:4318";
  tls = tls;
  compression = codes "gzip";
  headers = [];
  timeout = some (pos 3);
}

-- A machine on which every file can be read, with a pool that is the file's text.
abbrev pub machine : SetupApi Bytes Bytes (Unit {0}) (Unit {0}) (Unit {0})
machine = record {
  read_file = λ path. some path;
  pool_from_pem = λ pem. some pem;
  load_key_pair = λ cert key. some cert;
  new_grpc = λ options. some tt;
  new_http = λ options. some tt;
  default_resource = tt;
  with_attributes = λ attributes. tt;
  merge = λ r r'. some r;
}

abbrev settings : Option Bytes → TlsSettings Bytes Bytes
settings pool = record {
  insecure_skip_verify = false;
  root_cas = none;
  client_cas = pool;
  certificates = [];
}

http_options-grpc_options_example :
    http_options machine section (settings none)
    ≡ counterparts (grpc_options machine section (settings none))
http_options-grpc_options_example = http_options-grpc_options machine section (settings none)
