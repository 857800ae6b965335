-- ===== src/Instance.antt =====
-- internal/lspwatch.go: the tags, the two registries and the assembly of an instance, from the
-- configuration on (`NewLspwatchInstance`). Processes, pipes and logs are left out.
pub mod Metrics
pub mod Exporter
pub mod Assembly
pub mod SetUp
pub mod Run
pub mod Loop
pub mod Stderr
use lspwatch.Common.{
  ℕ, ◌*◌, ◌/◌, Bool, true, false, Option, none, some, List, [], ◌∷◌, ◌++◌, if◌then◌else◌, Bytes,
  codes, same,
}
use lspwatch.Common.Dict.{Dict, get}
use lspwatch.Common.Results.{Result, ok, err, ◌>>=◌}
use lspwatch.Config.{LspwatchConfig}
use lspwatch.Io.Ids.{decimal}
use lspwatch.Telemetry.{
  AvailableMetric, request_duration, server_rss, histogram, MetricRegistration, Tag, new_tag,
  MetricsExporter, new_default_metrics_registry,
}
use lspwatch.Core.Buffer.{OrderedMap}
use lspwatch.Core.Proxy.{ProxyHandler, ProxyError, new_proxy_handler}
use lspwatch.Core.Watcher.{ServerWatcher, WatcherError, new_server_watcher}

abbrev pub available_lsp_metrics : Dict MetricRegistration
available_lsp_metrics =
    (
      request_duration,
      record {
        kind = histogram;
        name = codes "lspwatch.request.duration";
        description = codes "Duration of LSP request";
        otel_unit = codes "s";
        datadog_unit = codes "s";
      },
    )
    ∷ []

abbrev pub available_server_metrics : Dict MetricRegistration
available_server_metrics =
    (
      server_rss,
      record {
        kind = histogram;
        name = codes "lspwatch.server.rss";
        description = codes "RSS of the language server process";
        otel_unit = codes "By";
        datadog_unit = codes "bytes";
      },
    )
    ∷ []

-- What the machine says: runtime.GOOS, filepath.Base, mem.VirtualMemory, user.Current.
pub record Host : Type 0 where
  pub os : Bytes
  pub base : Bytes → Bytes
  pub total_memory : Option ℕ
  pub username : Option Bytes

or_empty : Option Bytes → Bytes
or_empty none = []
or_empty (some t) = t

ram_text : Option ℕ → Bytes
unfolding decimal
ram_text none = []
ram_text (some total) = decimal (total / (1024 * 1024 * 1024))

-- `globalTagGetters`, each getter with the value that it returns
unfoldable pub global_tag_getters : Host → Bytes → Dict Bytes
unfolding ram_text or_empty
global_tag_getters host server_cmd_path =
    (codes "os", host.os)
    ∷ (codes "language_server", host.base server_cmd_path)
    ∷ (codes "ram", ram_text host.total_memory)
    ∷ (codes "user", or_empty host.username)
    ∷ []

pub data InstanceError : Type 0 where
  unsupported_tag : Bytes → InstanceError
  proxy_failed : ProxyError → InstanceError
  watcher_failed : WatcherError → InstanceError

-- `getTagValues`: the loop over `cfg.Tags`, which ends at the first tag without a getter
unfoldable pub get_tag_values : List Bytes → Dict Bytes → Result InstanceError (List Tag)
unfolding get new_tag
get_tag_values [] getters = ok []
get_tag_values (tag ∷ tags) getters =
    let rest = get_tag_values tags getters in
    elim (get tag getters) [
      | none ↦ err (unsupported_tag tag)
      | some value ↦ rest >>= λ ts. ok (new_tag tag value ∷ ts)
    ]

-- the global tags of an instance: those of the configuration, and the project's
unfoldable pub collect_global_tags : LspwatchConfig → Dict Bytes → Result InstanceError (List Tag)
unfolding get_tag_values same
collect_global_tags cfg getters = do
  tags ← get_tag_values cfg.tags getters
  ok (if same cfg.project [] then tags else tags ++ new_tag (codes "project") cfg.project ∷ [])

pub record LspwatchInstance (B : OrderedMap) : Type 0 where
  pub cfg : LspwatchConfig
  pub proxy_handler : ProxyHandler B
  pub server_watcher : ServerWatcher

module _ {V X : Type 0} (exporter : MetricsExporter V X) (of_bytes : ℕ → V) (B : OrderedMap) where
  unfoldable pub with_watcher :
      LspwatchConfig
      → ProxyHandler B
      → Result WatcherError ServerWatcher × X
      → Result InstanceError (LspwatchInstance B) × X
  with_watcher cfg proxy (err e, x) = (err (watcher_failed e), x)
  with_watcher cfg proxy (ok w, x) =
      (ok (record { cfg = cfg; proxy_handler = proxy; server_watcher = w }), x)

  unfoldable pub with_proxy :
      LspwatchConfig
      → Result ProxyError (ProxyHandler B) × X
      → Result InstanceError (LspwatchInstance B) × X
  unfolding with_watcher
  with_proxy cfg (err e, x) = (err (proxy_failed e), x)
  with_proxy cfg (ok proxy, x) = with_watcher cfg proxy (
      new_server_watcher exporter of_bytes (new_default_metrics_registry available_server_metrics)
        cfg x)

  unfoldable pub with_tags :
      LspwatchConfig
      → Bytes
      → X
      → Result InstanceError (List Tag)
      → Result InstanceError (LspwatchInstance B) × X
  unfolding with_proxy
  with_tags cfg mode x (err e) = (err e, x)
  with_tags cfg mode x (ok tags) = with_proxy cfg (
      new_proxy_handler exporter B cfg (new_default_metrics_registry available_lsp_metrics) mode
        (exporter.set_global_tags tags x))

  -- `NewLspwatchInstance` from the exporter's creation on
  unfoldable pub new_lspwatch_instance :
      LspwatchConfig → Dict Bytes → Bytes → X → Result InstanceError (LspwatchInstance B) × X
  unfolding with_tags collect_global_tags
  new_lspwatch_instance cfg getters mode x = with_tags cfg mode x (collect_global_tags cfg getters)
