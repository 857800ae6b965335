-- ===== src/Tests/Commands.antt =====
-- Instances for a whole life of the program, from its arguments to its status.
use lspwatch.Common.{ℕ, ◌≡◌, ◌⊎◌, refl, true, false, some, List, [], ◌∷◌, ◌++◌, Bytes, codes}
use lspwatch.Common.Int.{pos}
use lspwatch.Config.{get_default_config}
use lspwatch.Core.Buffer.{dict_buffer}
use lspwatch.Instance.{LspwatchInstance}
use lspwatch.Instance.SetUp.{Outcome, has_built}
use lspwatch.Instance.Loop.{
  asked, killed, interrupted, received, passed_on, interrupt_comes, interrupt_taken,
  interrupt_forwarded, Happening, process_exits, requests_shutdown, switches_mode, timer_fires,
  exporter_shuts_down, run_step, begin_run, run_all, run_instance, exit_code,
}
use lspwatch.Instance.Loop.Kills.{IsPatient, run_all-IsPatient}
use lspwatch.Instance.Loop.Status.{first_code}
use lspwatch.Command.{Flags, failure, panicking, success, execute, execute_status, execute_codes}
use lspwatch.Tests.Sessions.{metering, watcher}
use lspwatch.Tests.Setups.{log}

-- The server does not heed the shutdown, is killed behind three seconds, and exits by the signal.
abbrev life : List (ℕ × Happening)
life =
    (1_000, switches_mode true)
    ∷ (5_000, requests_shutdown)
    ∷ (3_000_004_999, timer_fires true)
    ∷ (3_000_005_000, timer_fires true)
    ∷ (3_000_006_000, process_exits (some (pos 9)))
    ∷ []

killed_once : (run_all life begin_run).deeds ≡ killed 3_000_005_000 ∷ asked 5_000 ∷ []
unfolding run_all run_step begin_run
killed_once = refl

-- A second interrupt comes before the first is passed on, and a third is dropped.
abbrev interrupted_life : List (ℕ × Happening)
interrupted_life =
    (1, interrupt_comes)
    ∷ (2, interrupt_taken)
    ∷ (3, interrupt_comes)
    ∷ (4, interrupt_taken)
    ∷ (5, interrupt_forwarded true)
    ∷ (6, interrupt_comes)
    ∷ (7, interrupt_taken)
    ∷ (8, interrupt_forwarded true)
    ∷ (9, interrupt_forwarded true)
    ∷ life

interrupted_twice :
    (run_all interrupted_life begin_run).deeds
    ≡ killed 3_000_005_000
      ∷ asked 5_000
      ∷ passed_on
      ∷ received
      ∷ interrupted
      ∷ passed_on
      ∷ interrupted
      ∷ received
      ∷ interrupted
      ∷ []
unfolding run_all run_step begin_run
interrupted_twice = refl

run_all-IsPatient_example : IsPatient (run_all interrupted_life begin_run).deeds
run_all-IsPatient_example = run_all-IsPatient interrupted_life

abbrev built : LspwatchInstance dict_buffer
built = record { cfg = get_default_config; proxy_handler = metering; server_watcher = watcher }

abbrev starting : (server : Bytes) → (args : List Bytes) → Flags → Outcome dict_buffer ℕ
starting server args flags = has_built built log 0

abbrev flags : Flags
flags = record { config_file_path = []; log_dir = []; mode = [] }

execute_status_example :
    execute dict_buffer starting true true
      (life ++ (3_000_007_000, exporter_shuts_down true) ∷ [])
      (codes "gopls" ∷ [])
      flags
    ≡ some (pos 9)
execute_status_example =
    execute_status dict_buffer starting (codes "gopls") [] flags built log 0 life 3_000_007_000
      (pos 9) refl (refl, (tt, (refl, (refl, (tt, tt))))) (unfold first_code exit_code in refl)

execute_codes_example :
    (success ≡ failure)
    ⊎ (success ≡ panicking)
    ⊎ (first_code life ≡ some success)
    ⊎ ((success ≡ success) × ((false ≡ false) ⊎ (true ≡ false)))
execute_codes_example =
    execute_codes dict_buffer starting (codes "gopls") [] flags false true life success
      (unfold execute run_instance in refl)
