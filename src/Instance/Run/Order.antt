-- ===== src/Instance/Run/Order.antt =====
-- The order in which `Run` starts and stops the components.
use lspwatch.Common.{◌≡◌, ◌≢◌, ◌⊎◌, inr, true, false, some, Bytes, arith}
use lspwatch.Instance.Run.{
  starting, confirming, waiting_proxy, waiting_watcher, waiting_exporter, finished, aborted,
  returned, handling, switching, gone, idle, started, stopped, System, Move, client_message,
  client_handles, client_forwards, client_exit, client_raises, client_end, client_shutdown,
  server_emits, server_end, server_raises, server_shutdown, process_exits, watcher_samples,
  watcher_returns, main_accepts, exporter_starts, exporter_fails, main_confirms, main_shutdown,
  main_exit, main_proxy_done, main_watcher_done, main_exporter_done, begin, move, Reached, here,
  moved,
}

-- What holds at any moment of a run.
pub record IsOrdered (s : System) : Type 0 where
  pub handled_after_switch : s.client ≡ handling → s.switched ≡ true
  pub noted_after_switch : s.noted ≡ true → s.switched ≡ true
  pub started_when_switched : s.switched ≡ true → s.exporter ≢ idle
  pub started_when_confirming : s.main ≡ confirming → s.exporter ≢ idle
  pub stopped_at_end : s.exporter ≡ stopped → (s.main ≡ waiting_exporter) ⊎ (s.main ≡ finished)
  pub proxy_down :
      (s.main ≡ waiting_watcher) ⊎ (s.main ≡ waiting_exporter) ⊎ (s.main ≡ finished)
      → (s.client ≡ returned) × (s.server ≡ gone)
  pub watcher_down :
      (s.main ≡ waiting_exporter) ⊎ (s.main ≡ finished)
      → (s.watching ≡ false) × (s.exporter ≢ started)
  pub told_when_waiting : s.main ≡ waiting_proxy → (s.shut_down ≡ true) × (s.exited ≡ true)
  pub switches_with_main :
      s.client ≡ switching → (s.main ≡ starting) ⊎ (s.main ≡ confirming) ⊎ (s.main ≡ aborted)

move-IsOrdered : (m : Move) (s u : System) → IsOrdered s → move m s ≡ some u → IsOrdered u
unfolding move
move-IsOrdered client_message s u v e = ground arith
move-IsOrdered client_handles s u v e = ground arith
move-IsOrdered client_forwards s u v e = ground arith
move-IsOrdered client_exit s u v e = ground arith
move-IsOrdered client_raises s u v e = ground arith
move-IsOrdered client_end s u v e = ground arith
move-IsOrdered client_shutdown s u v e = ground arith
move-IsOrdered server_emits s u v e = ground arith
move-IsOrdered server_end s u v e = ground arith
move-IsOrdered server_raises s u v e = ground arith
move-IsOrdered server_shutdown s u v e = ground arith
move-IsOrdered process_exits s u v e = ground arith
move-IsOrdered watcher_samples s u v e = ground arith
move-IsOrdered watcher_returns s u v e = ground arith
move-IsOrdered main_accepts s u v e = ground arith
move-IsOrdered exporter_starts s u v e = ground arith
move-IsOrdered exporter_fails s u v e = ground arith
move-IsOrdered main_confirms s u v e = ground arith
move-IsOrdered main_shutdown s u v e = ground arith
move-IsOrdered main_exit s u v e = ground arith
move-IsOrdered main_proxy_done s u v e = ground arith
move-IsOrdered main_watcher_done s u v e = ground arith
move-IsOrdered main_exporter_done s u v e = ground arith

pub begin-IsOrdered : (mode : Bytes) → IsOrdered (begin mode)
unfolding begin
begin-IsOrdered mode = ground arith

pub Reached-IsOrdered : {s t : System} → IsOrdered s → Reached s t → IsOrdered t
Reached-IsOrdered v here = v
Reached-IsOrdered v (moved {t} {u} m tr e) = move-IsOrdered m t u (Reached-IsOrdered v tr) e

-- When the shutdown is complete, both listeners and the watcher have returned, and the exporter
-- does not run.
pub Reached-finished :
    (mode : Bytes) {t : System}
    → Reached (begin mode) t
    → t.main ≡ finished
    → (t.client ≡ returned) × (t.server ≡ gone) × (t.watching ≡ false) × (t.exporter ≢ started)
Reached-finished mode tr e =
    let v = Reached-IsOrdered (begin-IsOrdered mode) tr in
    let (client, server) = v.proxy_down (inr (inr e)) in
    let (watcher, exporter) = v.watcher_down (inr e) in (client, server, watcher, exporter)
