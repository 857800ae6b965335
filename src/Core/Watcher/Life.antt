-- ===== src/Core/Watcher/Life.antt =====
-- The watcher's interval and the end of its polling.
use lspwatch.Common.{Bool, Bytes, ◌⊎◌, true, ◌≡◌, ℕ, ◌≤◌, Option, none, some, arith}
use lspwatch.Common.Int.{ℤ, pos, negsuc}
use lspwatch.Common.Results.{ok}
use lspwatch.Config.{LspwatchConfig}
use lspwatch.Config.Rules.{optional, in_range, is_fit}
use lspwatch.Config.Rules.Kept.{is_fit-polling_interval}
use lspwatch.Telemetry.{MetricsExporter, MetricsRegistry}
use lspwatch.Core.Watcher.{
  ServerWatcher, seconds_duration, default_polling_interval, new_server_watcher, poll,
}

-- A duration in nanoseconds between 1 s and 1000 s.
abbrev pub IsTickable : ℤ → Type 0
IsTickable (pos n) = (1_000_000_000 ≤ n) × (n ≤ 1_000_000_000_000)
IsTickable (negsuc n) = ⊥

chosen_interval : Option ℤ → ℤ
chosen_interval none = default_polling_interval
chosen_interval (some n) = seconds_duration n

interval-IsTickable :
    (o : Option ℤ) → optional (in_range 1 1000) o ≡ true → IsTickable (chosen_interval o)
unfolding chosen_interval seconds_duration optional in_range
interval-IsTickable none h = omega arith
interval-IsTickable (some (pos n)) h = ground arith
interval-IsTickable (some (negsuc n)) h = cc

module _ {V X : Type 0} (exporter : MetricsExporter V X) (of_bytes : ℕ → V) where
  watcher_interval :
      (registry : MetricsRegistry) (cfg : LspwatchConfig) (x : X) {w : ServerWatcher}
      → (new_server_watcher exporter of_bytes registry cfg x).0 ≡ ok w
      → w.polling_interval ≡ chosen_interval cfg.polling_interval
  unfolding new_server_watcher chosen_interval
  watcher_interval registry cfg x e = ground arith

  -- For a configuration that satisfies the rules of its validation, the polling interval lies
  -- between one second and a thousand, also in the arithmetic of int64: a ticker takes it.
  pub new_server_watcher-IsTickable :
      (is_filepath : Bytes → Bool) (registry : MetricsRegistry) (cfg : LspwatchConfig) (x : X)
      {w : ServerWatcher}
      → is_fit is_filepath cfg ≡ true
      → (new_server_watcher exporter of_bytes registry cfg x).0 ≡ ok w
      → IsTickable w.polling_interval
  unfolding new_server_watcher
  new_server_watcher-IsTickable is_filepath registry cfg x {w} fit e =
      rw (watcher_interval registry cfg x e)
        (interval-IsTickable cfg.polling_interval (is_fit-polling_interval is_filepath cfg fit))

  -- `x'` is `x`, or comes from it by the sample of a tick whose test was passed.
  abbrev pub AtMostOneSample : ServerWatcher → X → X → Type 0
  AtMostOneSample w x x' =
      (x' ≡ x)
      ⊎ ((w.sampling ≡ true)
          × ((stamp : ℕ) × (memory : Option ℕ) × (x'
                ≡ poll exporter of_bytes stamp memory w.metrics_registry x)))
