-- ===== src/Core/Watcher.antt =====
-- internal/core/watcher.go: the watcher of the server's process. Its two goroutines share
-- `processExited` under a mutex: the test of a tick is one step, and the sampling behind it
-- another.
pub mod Life
pub mod Ending
use lspwatch.Common.{
  ℕ, ◌+◌, ◌-◌, ◌*◌, ◌%◌, ◌^◌, Bool, true, false, not, ◌&&◌, Option, none, some, List, [], ◌∷◌, ltb,
  if◌then◌else◌, Bytes,
}
use lspwatch.Common.Int.{ℤ, pos, negsuc}
use lspwatch.Common.Results.{Result, ok, err}
use lspwatch.Config.{LspwatchConfig}
use lspwatch.Telemetry.{
  server_rss, MetricRecording, MetricsExporter, MetricsRegistry, RegistryError,
  new_metric_recording, is_metric_enabled, emit_metric,
}
use lspwatch.Core.Proxy.{enable_metrics}

-- An int64 from a number modulo 2^64.
abbrev pub to_int64 : ℕ → ℤ
to_int64 n = if ltb n (2 ^ 63) then pos n else negsuc (2 ^ 64 - n - 1)

-- `time.Duration(n) * time.Second`, in nanoseconds, with the wrap-around of int64
unfoldable pub seconds_duration : ℤ → ℤ
seconds_duration (pos n) = to_int64 (n * 1_000_000_000 % 2 ^ 64)
seconds_duration (negsuc n) = to_int64 ((2 ^ 64 - (n + 1) * 1_000_000_000 % 2 ^ 64) % 2 ^ 64)

abbrev pub default_polling_interval : ℤ
default_polling_interval = pos 5_000_000_000

-- `ServerWatcher`, without its channels and locks
pub record ServerWatcher : Type 0 where
  pub metrics_registry : MetricsRegistry
  pub polling_interval : ℤ
  pub process_exited : Bool
  pub shut_down : Bool  -- `incomingShutdown` is closed
  pub polling : Bool  -- the polling goroutine runs
  pub sampling : Bool  -- and has passed the test of a tick
  pub handing_over : Bool  -- the lock is held while the state of the process is offered to `Run`
  pub locked_out : Bool  -- the polling goroutine waits for that lock

pub data WatcherError : Type 0 where
  enabling_metrics : RegistryError → WatcherError

-- What happens to a watcher: its ticker fires, the polling goroutine then samples what `MemoryInfo`
-- says (an error is `none`), the process exits, `Run` learns it, `Shutdown` is called, and the
-- goroutine sees that.
pub data WatchEvent : Type 0 where
  tick : WatchEvent
  sample : (stamp : ℕ) → Option ℕ → WatchEvent
  exit : WatchEvent
  take_state : WatchEvent  -- `Run` receives the state of the process
  request_shutdown : WatchEvent
  see_shutdown : WatchEvent

module _ {V X : Type 0} (exporter : MetricsExporter V X) (of_bytes : ℕ → V) where
  unfoldable pub watcher_built :
      (MetricsRegistry → ServerWatcher)
      → MetricsRegistry × X × Option RegistryError
      → Result WatcherError ServerWatcher × X
  watcher_built w (r, x, some e) = (err (enabling_metrics e), x)
  watcher_built w (r, x, none) = (ok (w r), x)

  -- `enableMetrics`, as the proxy handler has it, with another metric by default
  abbrev pub enable_server_metrics :
      LspwatchConfig → MetricsRegistry → X → MetricsRegistry × X × Option RegistryError
  enable_server_metrics cfg r x = enable_metrics exporter server_rss cfg r x

  -- `NewServerWatcher`
  unfoldable pub new_server_watcher :
      MetricsRegistry → LspwatchConfig → X → Result WatcherError ServerWatcher × X
  unfolding watcher_built seconds_duration
  new_server_watcher registry cfg x =
      watcher_built
        (λ enabled. record {
          metrics_registry = enabled;
          polling_interval = elim cfg.polling_interval [
            | none ↦ default_polling_interval
            | some n ↦ seconds_duration n
          ];
          process_exited = false;
          shut_down = false;
          polling = false;
          sampling = false;
          handing_over = false;
          locked_out = false;
        })
        (enable_server_metrics cfg registry x)

  -- a sample, behind the test of `processExited`
  unfoldable pub poll : ℕ → Option ℕ → MetricsRegistry → X → X
  poll stamp none r x = x
  poll stamp (some rss) r x =
      (emit_metric exporter (new_metric_recording server_rss stamp (of_bytes rss) []) r x).0

  on_tick : ServerWatcher → ServerWatcher
  unfolding is_metric_enabled
  on_tick w =
      if w.handing_over
      then record w { locked_out = true }
      else if w.process_exited
      then record w { polling = false }
      else record w { sampling = is_metric_enabled server_rss w.metrics_registry }

  -- the polling goroutine is in its `select`
  unfoldable pub is_waiting : ServerWatcher → Bool
  is_waiting w = w.polling && not w.sampling && not w.locked_out

  -- One step of the watcher once `Start` was called; what its goroutine cannot do now is no step.
  unfoldable pub watch : WatchEvent → ServerWatcher → X → ServerWatcher × X
  unfolding on_tick is_waiting poll
  watch tick w x = (if is_waiting w then on_tick w else w, x)
  watch (sample stamp memory) w x =
      if w.polling && w.sampling
      then (record w { sampling = false }, poll stamp memory w.metrics_registry x)
      else (w, x)
  watch exit w x =
      (if w.process_exited then w else record w { process_exited = true; handing_over = true }, x)
  watch take_state w x = (
    if w.handing_over
        then record w {
          handing_over = false;
          polling = w.polling && not w.locked_out;
          locked_out = false;
        }
        else w,
    x,
  )
  watch request_shutdown w x = (record w { shut_down = true }, x)
  watch see_shutdown w x =
      (if is_waiting w && w.shut_down then record w { polling = false } else w, x)

  -- `Start`
  unfoldable pub start_watcher : ServerWatcher → ServerWatcher
  start_watcher w = record w { polling = true }

  unfoldable pub watch_all : List WatchEvent → ServerWatcher → X → ServerWatcher × X
  unfolding watch
  watch_all [] w x = (w, x)
  watch_all (e ∷ es) w x = let (w', x') = watch e w x in watch_all es w' x'
