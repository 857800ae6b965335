-- ===== src/Core/Proxy.antt =====
-- internal/core/proxy.go: the handler's construction, and what the two listeners do with one
-- message. The request buffer is a parameter (Core/Buffer), and so is the exporter.
pub mod Listeners
pub mod Session
pub mod Metering
pub mod Forwarding
pub mod Reading
pub mod Transparency
pub mod PassThrough
use lspwatch.Common.{
  ℕ, ◌+◌, ◌-◌, ◌/◌, ◌^◌, Bool, true, false, not, Option, none, some, List, [], ◌∷◌, ◌++◌,
  if◌then◌else◌, is_some, Bytes, codes, same, contains,
}
use lspwatch.Common.Int.{ℤ}
use lspwatch.Common.Dict.{Dict, get, put}
use lspwatch.Common.Results.{Result, ok, err}
use lspwatch.Config.{LspwatchConfig}
use lspwatch.Telemetry.{
  AvailableMetric, request_duration, MetricRecording, MetricsExporter, MetricsRegistry,
  RegistryError, new_tag, new_metric_recording, is_metric_enabled, enable_metric, enable_all,
  emit_metric,
}
use lspwatch.Core.Buffer.{RequestBookmark, OrderedMap}

-- `LSPClientMessage` and `LSPServerMessage` of internal/io/io.go; `nil` is `none`, and of an
-- identifier its `Value` is kept.
pub record LspClientMessage : Type 0 where
  pub id : Option Bytes
  pub method : Option Bytes
  pub params : Option Bytes

pub record LspError : Type 0 where
  pub code : ℤ
  pub message : Bytes
  pub details : Option Bytes

pub record LspServerMessage : Type 0 where
  pub id : Option Bytes
  pub method : Option Bytes
  pub result : Option Bytes
  pub error : Option LspError

abbrev pub default_metered_requests : List Bytes
default_metered_requests =
    codes "initialize"
    ∷ codes "textDocument/references"
    ∷ codes "textDocument/hover"
    ∷ codes "textDocument/documentSymbol"
    ∷ codes "textDocument/completion"
    ∷ codes "textDocument/diagnostic"
    ∷ codes "textDocument/signatureHelp"
    ∷ []

pub data ProxyError : Type 0 where
  invalid_mode : Bytes → ProxyError
  enabling_metrics : RegistryError → ProxyError

-- The handler's data; its channels and pipes are not part of it.
pub record ProxyHandler (B : OrderedMap) : Type 0 where
  pub metered_requests : Dict (Unit {0})
  pub metrics_registry : MetricsRegistry
  pub request_buffer : OrderedMap.Map B
  pub mode : Bytes

unfoldable pub is_mode : Bytes → Bool
unfolding same
is_mode mode = contains (codes "command" ∷ codes "proxy" ∷ [] ∷ []) mode

-- `meteredRequestsMap`
metered_map : List Bytes → Dict (Unit {0}) → Dict (Unit {0})
unfolding put
metered_map [] m = m
metered_map (r ∷ rs) m = metered_map rs (put r tt m)

module _ {V X : Type 0} (exporter : MetricsExporter V X) where
  -- `enableMetrics`, which the watcher has too, with another metric by default
  unfoldable pub enable_metrics :
      AvailableMetric
      → LspwatchConfig
      → MetricsRegistry
      → X
      → MetricsRegistry × X × Option RegistryError
  unfolding enable_all
  enable_metrics by_default cfg r x = elim cfg.metrics [
    | none ↦ enable_metric exporter by_default r x
    | some metrics ↦ enable_all exporter metrics r x
  ]

  module _ (B : OrderedMap) where
    unfoldable pub built :
        (MetricsRegistry → ProxyHandler B)
        → MetricsRegistry × X × Option RegistryError
        → Result ProxyError (ProxyHandler B) × X
    built h (r, x, some e) = (err (enabling_metrics e), x)
    built h (r, x, none) = (ok (h r), x)

    -- `NewProxyHandler`
    unfoldable pub new_proxy_handler :
        LspwatchConfig → MetricsRegistry → Bytes → X → Result ProxyError (ProxyHandler B) × X
    unfolding metered_map built
    new_proxy_handler cfg registry mode x =
        if is_mode mode
        then built
            (λ enabled. record {
              metered_requests =
                  metered_map
                    (elim cfg.metered_requests [ none ↦ default_metered_requests | some rs ↦ rs ])
                    [];
              metrics_registry = enabled;
              request_buffer = OrderedMap.empty B;
              mode = mode;
            })
            (enable_metrics request_duration cfg registry x)
        else (err (invalid_mode mode), x)
