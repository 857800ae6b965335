-- ===== src/Instance/Loop.antt =====
-- The goroutine of `Run` in internal/lspwatch.go from the start of the process to the end of the
-- program, with its timer and the interrupt listener: what it does at what happens around it, and
-- the status it ends with. How it waits for the listeners is in Instance/Run.
pub mod Kills
pub mod Status
use lspwatch.Common.{
  ℕ, ◌+◌, Bool, true, false, not, ◌&&◌, Option, none, some, List, [], ◌∷◌, leb, if◌then◌else◌,
}
use lspwatch.Common.Int.{ℤ, pos}

-- Where `Run` is.
pub data Phase : Type 0 where
  selecting : Phase
  leaving : ℤ → Phase  -- in `shutdownAndWait`, with the exit code
  exited : ℤ → Phase  -- behind os.Exit

-- What it has done, with the time: taken a shutdown request, killed the server, been interrupted,
-- taken an interrupt from its channel, passed it on.
pub data Deed : Type 0 where
  asked : ℕ → Deed
  killed : ℕ → Deed
  interrupted : Deed
  received : Deed
  passed_on : Deed

pub record RunState : Type 0 where
  pub phase : Phase
  pub deadline : Option ℕ  -- when the timer fires, in nanoseconds
  pub signalled : Bool  -- the signal channel, which has one place, is full
  pub forwarding : Bool  -- the interrupt listener has taken a signal that it has not passed on
  pub deeds : List Deed  -- the newest first

-- What happens: the state of the process comes (none if it is nil), a listener requests a shutdown,
-- the proxy has switched its mode and the exporter starts or fails to, the timer fires and the
-- process can be killed or not, an interrupt comes, the interrupt listener takes it, and can forward
-- it or not, waiting for the process fails, and the exporter shuts down or fails to.
pub data Happening : Type 0 where
  process_exits : Option ℤ → Happening
  requests_shutdown : Happening
  switches_mode : Bool → Happening
  timer_fires : Bool → Happening
  interrupt_comes : Happening
  interrupt_taken : Happening
  interrupt_forwarded : Bool → Happening
  wait_fails : Happening
  exporter_shuts_down : Bool → Happening

abbrev pub fatal : ℤ
fatal = pos 1

abbrev pub three_seconds : ℕ
three_seconds = 3_000_000_000

unfoldable pub exit_code : Option ℤ → ℤ
exit_code none = fatal
exit_code (some code) = code

unfoldable pub take_exit : Option ℤ → Phase → RunState → RunState
unfolding exit_code
take_exit state selecting s = record s { phase = leaving (exit_code state) }
take_exit state _ s = s

unfoldable pub set_timer : ℕ → Phase → RunState → RunState
set_timer now selecting s = record s {
  deadline = some (now + three_seconds);
  deeds = asked now ∷ s.deeds;
}
set_timer now _ s = s

unfoldable pub take_switch : Bool → Phase → RunState → RunState
take_switch started selecting s = if started then s else record s { phase = exited fatal }
take_switch started _ s = s

-- the timer has fired
unfoldable pub kill : ℕ → Bool → RunState → RunState
kill now killable s =
    if killable
    then record s { deadline = none; deeds = killed now ∷ s.deeds }
    else record s { deadline = none; phase = exited fatal }

unfoldable pub take_timer : ℕ → Bool → Phase → Option ℕ → RunState → RunState
unfolding kill
take_timer now killable selecting (some at) s = if leb at now then kill now killable s else s
take_timer now killable _ _ s = s

-- `signal.Notify` drops a signal where the channel is full.
unfoldable pub note_interrupt : Phase → RunState → RunState
note_interrupt (exited code) s = s
note_interrupt _ s = record s { signalled = true; deeds = interrupted ∷ s.deeds }

-- the receive of `startInterruptListener`
unfoldable pub take_interrupt : Phase → RunState → RunState
take_interrupt (exited code) s = s
take_interrupt _ s =
    if s.signalled && not s.forwarding
    then record s { signalled = false; forwarding = true; deeds = received ∷ s.deeds }
    else s

-- its `Process.Signal`
unfoldable pub pass_interrupt : Bool → Phase → RunState → RunState
pass_interrupt passes (exited code) s = s
pass_interrupt passes _ s =
    if s.forwarding
    then (if passes
        then record s { forwarding = false; deeds = passed_on ∷ s.deeds }
        else record s { forwarding = false; phase = exited fatal })
    else s

unfoldable pub fail_waiting : Phase → RunState → RunState
fail_waiting selecting s = record s { phase = exited fatal }
fail_waiting _ s = s

-- the end of `shutdownAndWait`
unfoldable pub end_run : Bool → Phase → RunState → RunState
end_run shut (leaving code) s = record s { phase = exited (if shut then code else fatal) }
end_run shut _ s = s

unfoldable pub run_step : ℕ → Happening → RunState → RunState
unfolding take_exit set_timer take_switch take_timer note_interrupt take_interrupt pass_interrupt
    fail_waiting end_run
run_step now (process_exits state) s = take_exit state s.phase s
run_step now requests_shutdown s = set_timer now s.phase s
run_step now (switches_mode started) s = take_switch started s.phase s
run_step now (timer_fires killable) s = take_timer now killable s.phase s.deadline s
run_step now interrupt_comes s = note_interrupt s.phase s
run_step now interrupt_taken s = take_interrupt s.phase s
run_step now (interrupt_forwarded passes) s = pass_interrupt passes s.phase s
run_step now wait_fails s = fail_waiting s.phase s
run_step now (exporter_shuts_down shut) s = end_run shut s.phase s

-- The timer is stopped at first.
unfoldable pub begin_run : RunState
begin_run = record {
  phase = selecting;
  deadline = none;
  signalled = false;
  forwarding = false;
  deeds = [];
}

unfoldable pub run_all : List (ℕ × Happening) → RunState → RunState
run_all [] s = s
run_all ((now, h) ∷ hs) s = run_all hs (run_step now h s)

-- How `Run` ends.
pub data Ran : Type 0 where
  exits : ℤ → Ran  -- os.Exit
  returns_error : Ran

-- `Run` is still under way where there is none.
unfoldable pub ran : Phase → Option Ran
ran (exited code) = some (exits code)
ran _ = none

-- `Run`, by whether the process can be started, and a handle of it be had, and what happens then
unfoldable pub run_instance : Bool → Bool → List (ℕ × Happening) → Option Ran
unfolding ran
run_instance true true hs = ran (run_all hs begin_run).phase
run_instance _ _ hs = some returns_error
