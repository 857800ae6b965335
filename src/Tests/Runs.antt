-- ===== src/Tests/Runs.antt =====
-- Instances for `Run` of internal/lspwatch.go.
use lspwatch.Common.{
  ℕ, codes, map, concat, List, false, none, ◌≡◌, ◌≢◌, ◌↔◌, refl, true, [], ◌∷◌, same,
}
use lspwatch.Instance.Run.{
  waiting_proxy, finished, offering, returned, gone, started, stopped, Exporter, start_call,
  proxy_emit, shutdown_call, System, client_message, client_handles, server_emits, main_accepts,
  exporter_starts, main_confirms, process_exits, main_exit, client_shutdown, server_shutdown,
  main_proxy_done, watcher_returns, main_watcher_done, main_exporter_done, begin, move, Reached,
  here, moved,
}
use lspwatch.Exporters.Datadog.{act, run, new_datadog_metrics_exporter, emit_metric, receive, flush}
use lspwatch.Instance.Run.Calls.{Orderly, Reached-Orderly}
use lspwatch.Instance.Run.Submitting.{
  Doing, starts, proxy_emits, shuts_down, times_out, sees_closed, action, calls_of, due, AllGoWell,
  Reached-AllGoWell, Reached-submits,
}
use lspwatch.Exporters.Otel
use lspwatch.Exporters.Otel.{
  take_calls, create_instruments, create_instrument, add_histogram, start,
}
use lspwatch.Exporters.Otel.Life.{has_histogram}
use lspwatch.Instance.Run.Recording.{Telling, told, calls_told, Reached-records}
use lspwatch.Tests.Meters.{recording, in_order, duration, registered}
use lspwatch.Tests.Batches.{by_two}
use lspwatch.Instance.Run.Order.{Reached-finished}
use lspwatch.Instance.Run.Stuck.{IsBlocked, Reached-ends}

-- After a request, its response, and the exit of the process.
abbrev ended : System
ended = record {
  main = finished;
  client = returned;
  server = gone;
  watching = false;
  exporter = stopped;
  switched = true;
  noted = true;
  requested = false;
  shut_down = true;
  exited = true;
  calls = start_call ∷ proxy_emit ∷ shutdown_call ∷ [];
}

whole_run : Reached (begin []) ended
unfolding begin move same
whole_run =
    moved main_exporter_done
      (moved main_watcher_done
        (moved watcher_returns
          (moved main_proxy_done
            (moved server_shutdown
              (moved client_shutdown
                (moved main_exit
                  (moved process_exits
                    (moved server_emits
                      (moved client_handles
                        (moved main_confirms
                          (moved exporter_starts
                            (moved main_accepts (moved client_message here refl) refl) refl)
                          refl)
                        refl)
                      refl)
                    refl)
                  refl)
                refl)
              refl)
            refl)
          refl)
        refl)
      refl

Reached-finished_example :
    (returned ≡ returned) × (gone ≡ gone) × (false ≡ false) × (stopped ≢ started)
Reached-finished_example = Reached-finished [] whole_run refl

-- The process exits between a first message and its handshake.
abbrev blocked : System
blocked = record {
  main = waiting_proxy;
  client = offering;
  server = gone;
  watching = true;
  exporter = Exporter.idle;
  switched = false;
  noted = false;
  requested = false;
  shut_down = true;
  exited = true;
  calls = [];
}

blocking_run : Reached (begin []) blocked
unfolding begin move same
blocking_run =
    moved server_shutdown
      (moved main_exit (moved process_exits (moved client_message here refl) refl) refl) refl

Reached-ends_example :
    ((t : System) × Reached blocked t × (t.main ≡ finished)) ↔ (¬ IsBlocked blocked)
Reached-ends_example = Reached-ends [] blocking_run refl

Reached-Orderly_example : Orderly (start_call ∷ proxy_emit ∷ shutdown_call ∷ []) Exporter.idle
Reached-Orderly_example = Reached-Orderly [] whole_run

abbrev doings : List (Doing ℕ)
doings =
    starts
    ∷ proxy_emits (record { name = codes "d"; timestamp = 1; value = 2; tags = [] })
    ∷ times_out
    ∷ shuts_down
    ∷ sees_closed
    ∷ []

over_again : calls_of doings ≡ ended.calls
unfolding calls_of
over_again = refl

Reached-AllGoWell_example : AllGoWell doings (new_datadog_metrics_exporter by_two)
Reached-AllGoWell_example = Reached-AllGoWell [] whole_run by_two doings over_again

goroutine_ended :
    (run (map action doings) (new_datadog_metrics_exporter by_two)).0.handler_active ≡ false
unfolding run action act new_datadog_metrics_exporter emit_metric receive flush
goroutine_ended = refl

Reached-submits_example :
    concat (run (map action doings) (new_datadog_metrics_exporter by_two)).0.submitted
    ≡ due doings Exporter.idle
Reached-submits_example = Reached-submits [] whole_run by_two doings over_again goroutine_ended

Reached-records_example :
    ((Otel.emit_metric recording in_order duration
        (take_calls recording in_order (map told (Telling.starts ∷ [])) registered)).1
      ≡ none)
    ↔ (has_histogram duration.name registered.metric_registrations ≡ true)
Reached-records_example =
    Reached-records recording in_order [] whole_run (Telling.starts ∷ [])
      (Telling.shuts_down 7 ∷ []) duration registered (unfold calls_told in refl) refl refl
      (unfold start create_instruments create_instrument add_histogram in refl)
