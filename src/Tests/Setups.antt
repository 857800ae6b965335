-- ===== src/Tests/Setups.antt =====
-- Instances for the start of internal/lspwatch.go: logs, rules, exporters and instances.
use lspwatch.Common.{
  not, ℕ, ◌≡◌, refl, true, false, Bool, none, some, ◌∷◌, ◌++◌, Bytes, codes, same,
}
use lspwatch.Common.Results.{ok}
use lspwatch.Config.{
  Services, get_default_config, get_config, file_read, read_lspwatch_config, unmarshalled,
  validated, environment, loaded, expand,
}
use lspwatch.Config.Rules.{is_fit, is_valid}
use lspwatch.Config.Rules.Kept.{get_config-is_fit}
use lspwatch.Io.Logs.{Files, directory, missing, Log, create_logger}
use lspwatch.Core.Buffer.{dict_buffer}
use lspwatch.Instance.{Host}
use lspwatch.Instance.Assembly.{is_ok}
use lspwatch.Instance.SetUp.{Command, set_up}
use lspwatch.Instance.SetUp.Panics.{does_panic, set_up_panics}
use lspwatch.Instance.SetUp.Builds.{is_built, starts_with, is_built-set_up}
use lspwatch.Exporters.Otel.{Sdk}
use lspwatch.Tests.Sinks.{machine}

-- A file system of directories alone: its state says whether they are there.
abbrev directories : Files Bool
directories = record {
  stat = λ path there. elim there [ true ↦ directory | false ↦ missing ];
  mkdir_all = λ path there. (true, true);
  open_append = λ path there. (there, there);
  close = λ path there. (there, true);
  join = λ a b. a ++ b'/' ∷ b;
}

abbrev pub log : Log
log = (record { output = some (codes "logs/lspwatch.log") }, some (codes "logs/lspwatch.log"))

any_path : Bytes → Bool
any_path path = true

-- A validator that reports an error exactly where the rules are broken.
abbrev strict : Services (Unit {0})
strict = record {
  read_file = λ path. some (codes "exporter: opentelemetry");
  unmarshal = λ bytes. some get_default_config;
  validate = λ c. is_valid any_path c;
  load_env = λ path env. some env;
  expand_env = λ env t. t;
}

get_config-is_fit_example : is_fit any_path (expand strict tt get_default_config) ≡ true
get_config-is_fit_example =
    get_config-is_fit any_path strict (codes "lspwatch.yaml") tt tt
      (expand strict tt get_default_config) (λ c h. h)
      (unfold get_config file_read read_lspwatch_config unmarshalled validated environment loaded
          same get_default_config is_valid expand in
        refl)

abbrev no_sdk : ℕ
no_sdk = 0

abbrev host : Host
host = record {
  os = codes "linux";
  base = λ path. path;
  total_memory = some 17_179_869_184;
  username = none;
}

-- An SDK without histograms that keeps nothing.
abbrev silent : Sdk ℕ ℕ Bytes
silent = record {
  new_meter = λ s. s;
  float64_histogram = λ name description unit s. (s, ok name);
  record_value = λ h v attributes s. s;
  shutdown_provider = λ s. s;
}

abbrev gopls : Command
gopls = record { path = codes "gopls"; stderr_pipe = true; stdout_pipe = true; stdin_pipe = true }

set_up_panics_example :
    does_panic (
      set_up strict machine directories no_sdk silent
        (λ m. m)
        (λ n. n)
        dict_buffer
        host
        (codes "lspwatch.yaml")
        (codes "logs")
        (codes "proxy")
        gopls
        tt
        false)
    ≡ not (is_ok (create_logger directories (codes "logs") (codes "lspwatch.log") false).1)
set_up_panics_example =
    set_up_panics strict machine directories no_sdk silent (λ m. m) (λ n. n) dict_buffer host
      any_path (codes "lspwatch.yaml") (codes "logs") (codes "proxy") gopls tt false (λ c h. h)

is_built-set_up_example :
    is_built (
      set_up strict machine directories no_sdk silent
        (λ m. m)
        (λ n. n)
        dict_buffer
        host
        (codes "lspwatch.yaml")
        (codes "logs")
        (codes "proxy")
        gopls
        tt
        false)
    ≡ starts_with strict machine directories no_sdk silent
        (λ m. m)
        (λ n. n)
        dict_buffer
        host
        (codes "lspwatch.yaml")
        (codes "logs")
        (codes "proxy")
        gopls
        tt
        (create_logger directories (codes "logs") (codes "lspwatch.log") false)
is_built-set_up_example =
    is_built-set_up strict machine directories no_sdk silent (λ m. m) (λ n. n) dict_buffer host
      any_path (codes "lspwatch.yaml") (codes "logs") (codes "proxy") gopls tt false (λ c h. h)
