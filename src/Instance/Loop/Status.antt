-- ===== src/Instance/Loop/Status.antt =====
-- The status that `Run` of internal/lspwatch.go ends the program with.
use lspwatch.Common.{
  ℕ, ◌≡◌, ◌⊎◌, inl, inr, refl, sym, ap, ◌∙◌, Option, none, some, true, List, [], ◌∷◌, ◌++◌, arith,
}
use lspwatch.Common.Int.{ℤ}
use lspwatch.Instance.Loop.{
  Phase, selecting, leaving, exited, RunState, Happening, process_exits, switches_mode, timer_fires,
  interrupt_forwarded, wait_fails, exporter_shuts_down, fatal, exit_code, run_step, begin_run,
  run_all, exits, ran, run_instance,
}

-- Nothing fails.
abbrev pub IsFine : Happening → Type 0
IsFine (switches_mode started) = started ≡ true
IsFine (timer_fires killable) = killable ≡ true
IsFine (interrupt_forwarded passes) = passes ≡ true
IsFine wait_fails = ⊥
IsFine (exporter_shuts_down shut) = shut ≡ true
IsFine _ = Unit

abbrev pub AreFine : List (ℕ × Happening) → Type 0
AreFine [] = Unit
AreFine ((now, h) ∷ hs) = IsFine h × AreFine hs

-- The code of the first state of the process that comes.
unfoldable pub first_code : List (ℕ × Happening) → Option ℤ
first_code [] = none
first_code ((now, process_exits state) ∷ hs) = some (exit_code state)
first_code ((now, _) ∷ hs) = first_code hs

-- The code that a run will end with, if nothing fails.
code_of : Phase → List (ℕ × Happening) → Option ℤ
code_of selecting hs = first_code hs
code_of (leaving code) hs = some code
code_of (exited code) hs = some code

run_step-code_of :
    (now : ℕ) (h : Happening) (hs : List (ℕ × Happening)) (s : RunState)
    → IsFine h
    → code_of (run_step now h s).phase hs ≡ code_of s.phase ((now, h) ∷ hs)
unfolding run_step code_of first_code
run_step-code_of now h hs s fine = ground arith

run_all-code_of :
    (hs : List (ℕ × Happening)) (s : RunState)
    → AreFine hs
    → code_of (run_all hs s).phase [] ≡ code_of s.phase hs
unfolding run_all
run_all-code_of [] s fine = refl
run_all-code_of ((now, h) ∷ hs) s (one, fine) =
    run_all-code_of hs (run_step now h s) fine ∙ run_step-code_of now h hs s one

shut_down-exited :
    (now : ℕ) (code : ℤ) (s : RunState)
    → code_of s.phase [] ≡ some code
    → (run_step now (exporter_shuts_down true) s).phase ≡ exited code
unfolding run_step code_of first_code
shut_down-exited now code s e = ground arith

run_all-snoc :
    (hs : List (ℕ × Happening)) (now : ℕ) (h : Happening) (s : RunState)
    → run_all (hs ++ (now, h) ∷ []) s ≡ run_step now h (run_all hs s)
unfolding run_all
run_all-snoc [] now h s = refl
run_all-snoc ((at, g) ∷ hs) now h s = run_all-snoc hs now h (run_step at g s)

-- If nothing fails, once the state of the process has come and the exporter has shut down, `Run`
-- has ended the program with the process's code.
pub run_instance_status :
    (hs : List (ℕ × Happening)) (now : ℕ) (code : ℤ)
    → AreFine hs
    → first_code hs ≡ some code
    → run_instance true true (hs ++ (now, exporter_shuts_down true) ∷ []) ≡ some (exits code)
unfolding run_instance
run_instance_status hs now code fine e =
    ap (λ (s : RunState). ran s.phase) (run_all-snoc hs now (exporter_shuts_down true) begin_run)
    ∙ ap ran (
        shut_down-exited now code (run_all hs begin_run)
          (run_all-code_of hs begin_run fine ∙ unfold begin_run code_of in e))
    ∙ unfold ran in refl

run_step-exited :
    (now : ℕ) (h : Happening) (hs : List (ℕ × Happening)) (s : RunState)
    → (code_of (run_step now h s).phase hs ≡ code_of s.phase ((now, h) ∷ hs))
      ⊎ ((run_step now h s).phase ≡ exited fatal)
unfolding run_step code_of first_code
run_step-exited now h hs s = ground arith

stays_exited :
    (hs : List (ℕ × Happening)) (s : RunState) (code : ℤ)
    → s.phase ≡ exited code
    → (run_all hs s).phase ≡ exited code
unfolding run_all
stays_exited [] s code e = e
stays_exited ((now, h) ∷ hs) s code e =
    stays_exited hs (run_step now h s) code (unfold run_step in ground (arith, e))

ended_with :
    (hs : List (ℕ × Happening)) (s : RunState) (code : ℤ)
    → (run_all hs s).phase ≡ exited code
    → (code ≡ fatal) ⊎ (code_of s.phase hs ≡ some code)
unfolding run_all
ended_with [] s code e = unfold code_of in ground (arith, e)
ended_with ((now, h) ∷ hs) s code e = elim (run_step-exited now h hs s) [
  | inl same ↦ elim (ended_with hs (run_step now h s) code e) [
    | inl failed ↦ inl failed
    | inr known ↦ inr (sym same ∙ known)
  ]
  | inr failed ↦ inl (ground (arith, e, stays_exited hs (run_step now h s) fatal failed))
]

-- Whatever happens, `Run` ends the program with the code of the process, or with 1.
pub run_instance_codes :
    (hs : List (ℕ × Happening)) (code : ℤ)
    → run_instance true true hs ≡ some (exits code)
    → (code ≡ fatal) ⊎ (first_code hs ≡ some code)
unfolding run_instance ran
run_instance_codes hs code e =
    unfold begin_run code_of in ended_with hs begin_run code (ground (arith, e))
