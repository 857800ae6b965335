-- ===== src/Core/Watcher/Ending.antt =====
-- When the polling goroutine of internal/core/watcher.go ends, so that `Wait` returns.
use lspwatch.Common.{ℕ, ◌≡◌, true, false, Option, List, [], ◌∷◌, arith}
use lspwatch.Telemetry.{MetricsExporter}
use lspwatch.Core.Watcher.{
  ServerWatcher, WatchEvent, sample, see_shutdown, is_waiting, on_tick, start_watcher, watch,
  watch_all,
}

-- The polling goroutine waits for the lock only while it is held, and then has nothing to sample.
abbrev pub IsFree : ServerWatcher → Type 0
IsFree w =
    (w.locked_out ≡ true → w.handing_over ≡ true) × (w.locked_out ≡ true → w.sampling ≡ false)

module _ {V X : Type 0} (exporter : MetricsExporter V X) (of_bytes : ℕ → V) where
  watch-IsFree :
      (e : WatchEvent) (w : ServerWatcher) (x : X)
      → IsFree w
      → IsFree (watch exporter of_bytes e w x).0
  unfolding watch on_tick is_waiting
  watch-IsFree e w x v = ground arith

  watch_all-IsFree :
      (es : List WatchEvent) (w : ServerWatcher) (x : X)
      → IsFree w
      → IsFree (watch_all exporter of_bytes es w x).0
  unfolding watch_all
  watch_all-IsFree [] w x v = v
  watch_all-IsFree (e ∷ es) w x v =
      watch_all-IsFree es (watch exporter of_bytes e w x).0 (watch exporter of_bytes e w x).1
        (watch-IsFree e w x v)

  ends_after :
      (w : ServerWatcher) (x : X) (stamp : ℕ) (memory : Option ℕ)
      → IsFree w
      → w.handing_over ≡ false
      → w.shut_down ≡ true
      → (watch_all exporter of_bytes (sample stamp memory ∷ see_shutdown ∷ []) w x).0.polling
        ≡ false
  unfolding watch_all watch is_waiting
  ends_after w x stamp memory v taken down = ground arith

  -- Whatever has happened since the watcher was started: once it is told to shut down, and `Run`
  -- has taken the state of the process if that has exited, the sample that may be under way and one
  -- more select end the polling goroutine, and `Wait` returns.
  pub watch_all_ends :
      (es : List WatchEvent) (w : ServerWatcher) (x : X) (stamp : ℕ) (memory : Option ℕ)
      → w.locked_out ≡ false
      → (watch_all exporter of_bytes es (start_watcher exporter of_bytes w) x).0.handing_over
        ≡ false
      → (watch_all exporter of_bytes es (start_watcher exporter of_bytes w) x).0.shut_down ≡ true
      → (watch_all exporter of_bytes
          (sample stamp memory ∷ see_shutdown ∷ [])
          (watch_all exporter of_bytes es (start_watcher exporter of_bytes w) x).0
          (watch_all exporter of_bytes es (start_watcher exporter of_bytes w) x).1).0.polling
        ≡ false
  unfolding start_watcher
  watch_all_ends es w x stamp memory free taken down =
      let t = watch_all exporter of_bytes es (start_watcher exporter of_bytes w) x in
      ends_after t.0 t.1 stamp memory
        (watch_all-IsFree es (start_watcher exporter of_bytes w) x
          (λ h. ground (arith, h, free), λ h. ground (arith, h, free)))
        taken down
