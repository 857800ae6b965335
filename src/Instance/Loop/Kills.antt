-- ===== src/Instance/Loop/Kills.antt =====
-- When the loop of internal/lspwatch.go kills the server, and which interrupts it passes on.
use lspwatch.Common.{
  ℕ, ◌+◌, ◌≤◌, ◌≡◌, refl, Bool, true, false, Option, none, some, List, [], ◌∷◌, arith,
}
use lspwatch.Instance.Loop.{
  Phase, exited, Deed, asked, killed, interrupted, received, passed_on, RunState, Happening,
  process_exits, requests_shutdown, switches_mode, timer_fires, interrupt_comes, interrupt_taken,
  interrupt_forwarded, wait_fails, exporter_shuts_down, three_seconds, run_step, begin_run, run_all,
}

-- What the deeds say the timer is set to.
unfoldable pub due_at : List Deed → Option ℕ
due_at [] = none
due_at (asked now ∷ ds) = some (now + three_seconds)
due_at (killed now ∷ ds) = none
due_at (interrupted ∷ ds) = due_at ds
due_at (received ∷ ds) = due_at ds
due_at (passed_on ∷ ds) = due_at ds

-- Whether an interrupt has come since the last that was taken.
unfoldable pub unanswered : List Deed → Bool
unanswered [] = false
unanswered (asked now ∷ ds) = unanswered ds
unanswered (killed now ∷ ds) = unanswered ds
unanswered (interrupted ∷ ds) = true
unanswered (received ∷ ds) = false
unanswered (passed_on ∷ ds) = unanswered ds

-- Whether one was taken since the last that was passed on.
unfoldable pub in_hand : List Deed → Bool
in_hand [] = false
in_hand (asked now ∷ ds) = in_hand ds
in_hand (killed now ∷ ds) = in_hand ds
in_hand (interrupted ∷ ds) = in_hand ds
in_hand (received ∷ ds) = true
in_hand (passed_on ∷ ds) = false

abbrev pub IsReached : Option ℕ → ℕ → Type 0
IsReached none now = ⊥
IsReached (some at) now = at ≤ now

-- The server is killed only when three seconds have passed since the last shutdown request, and
-- once for it; an interrupt is taken only if one has come since the last, and when that was passed
-- on; one is passed on only if it was taken, and once.
unfoldable pub IsPatient : List Deed → Type 0
IsPatient [] = Unit
IsPatient (asked now ∷ ds) = IsPatient ds
IsPatient (killed now ∷ ds) = IsReached (due_at ds) now × IsPatient ds
IsPatient (interrupted ∷ ds) = IsPatient ds
IsPatient (received ∷ ds) = (unanswered ds ≡ true) × (in_hand ds ≡ false) × IsPatient ds
IsPatient (passed_on ∷ ds) = (in_hand ds ≡ true) × IsPatient ds

abbrev IsExited : Phase → Type 0
IsExited (exited code) = Unit
IsExited _ = ⊥

record IsTimed (s : RunState) : Type 0 where
  patient : IsPatient s.deeds
  timer : (¬ IsExited s.phase) → s.deadline ≡ due_at s.deeds
  signal : (¬ IsExited s.phase) → s.signalled ≡ unanswered s.deeds
  hand : (¬ IsExited s.phase) → s.forwarding ≡ in_hand s.deeds

run_step-IsTimed : (now : ℕ) (h : Happening) (s : RunState) → IsTimed s → IsTimed (run_step now h s)
unfolding run_step IsPatient due_at unanswered in_hand
run_step-IsTimed now (process_exits state) s v = ground arith
run_step-IsTimed now requests_shutdown s v = ground arith
run_step-IsTimed now (switches_mode started) s v = ground arith
run_step-IsTimed now (timer_fires killable) s v = ground arith
run_step-IsTimed now interrupt_comes s v = ground arith
run_step-IsTimed now interrupt_taken s v = ground arith
run_step-IsTimed now (interrupt_forwarded passes) s v = ground arith
run_step-IsTimed now wait_fails s v = ground arith
run_step-IsTimed now (exporter_shuts_down shut) s v = ground arith

run_all-IsTimed : (hs : List (ℕ × Happening)) (s : RunState) → IsTimed s → IsTimed (run_all hs s)
unfolding run_all
run_all-IsTimed [] s v = v
run_all-IsTimed ((now, h) ∷ hs) s v =
    run_all-IsTimed hs (run_step now h s) (run_step-IsTimed now h s v)

begin_run-IsTimed : IsTimed begin_run
unfolding begin_run IsPatient due_at unanswered in_hand
begin_run-IsTimed = record { patient = tt; timer = λ h. refl; signal = λ h. refl; hand = λ h. refl }

-- Whatever happens, the server is killed only when three seconds have passed since the last
-- shutdown request, and once for it; and an interrupt is taken only if one has come since the last
-- that was taken, which was passed on, and is passed on once.
pub run_all-IsPatient : (hs : List (ℕ × Happening)) → IsPatient (run_all hs begin_run).deeds
run_all-IsPatient hs = (run_all-IsTimed hs begin_run begin_run-IsTimed).patient
