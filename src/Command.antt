-- ===== src/Command.antt =====
-- cmd/root.go: the command line, from the arguments and flags that the third-party parser has found
-- to the status of the program, with `Run` of the instance as internal/lspwatch.go has it
-- (Instance/Loop).
use lspwatch.Common.{
  ℕ, ◌≡◌, ◌⊎◌, inl, inr, refl, ap, ◌∙◌, Bool, true, false, Option, none, some, List, [], ◌∷◌, ◌++◌,
  Bytes, arith,
}
use lspwatch.Common.Int.{ℤ, pos}
use lspwatch.Io.Logs.{Log}
use lspwatch.Core.Buffer.{OrderedMap}
use lspwatch.Instance.{LspwatchInstance}
use lspwatch.Instance.SetUp.{Outcome, has_built, refuses, panics}
use lspwatch.Instance.Loop.{
  Happening, exporter_shuts_down, Ran, exits, returns_error, ran, run_instance,
}
use lspwatch.Instance.Loop.Status.{AreFine, first_code, run_instance_status, run_instance_codes}

pub record Flags : Type 0 where
  pub config_file_path : Bytes
  pub log_dir : Bytes
  pub mode : Bytes

-- The status of a program that returns from `main`, of one that ends by os.Exit(1), and of one that
-- panics.
abbrev pub success : ℤ
success = pos 0

abbrev pub failure : ℤ
failure = pos 1

abbrev pub panicking : ℤ
panicking = pos 2

module _ {X : Type 0} (B : OrderedMap)
    (start : (server : Bytes) → (args : List Bytes) → Flags → Outcome B X) (starts handled : Bool)
    (hs : List (ℕ × Happening)) where
  -- the error of `Run` is dropped; there is no status while it is under way
  after_run : Option Ran → Option ℤ
  after_run none = none
  after_run (some (exits status)) = some status
  after_run (some returns_error) = some success

  after_start : Outcome B X → Option ℤ
  unfolding after_run
  after_start (has_built i log x) = after_run (run_instance starts handled hs)
  after_start (refuses e) = some failure
  after_start panics = some panicking

  -- `Execute`, with `Run` of the root command: without an argument the parser reports an error
  unfoldable pub execute : List Bytes → Flags → Option ℤ
  unfolding after_start
  execute [] flags = some failure
  execute (server ∷ args) flags = after_start (start server args flags)

  -- When the server cannot be started, or no handle of its process be had, lspwatch still ends with
  -- the status of success.
  pub execute_unstarted :
      (server : Bytes) (args : List Bytes) (flags : Flags) (i : LspwatchInstance B) (log : Log)
      (x : X)
      → start server args flags ≡ has_built i log x
      → (starts ≡ false) ⊎ (handled ≡ false)
      → execute (server ∷ args) flags ≡ some success
  unfolding execute run_instance
  execute_unstarted server args flags i log x built failed =
      ap after_start built ∙ unfold after_start in ground (arith, failed)

module _ {X : Type 0} (B : OrderedMap)
    (start : (server : Bytes) → (args : List Bytes) → Flags → Outcome B X) (server : Bytes)
    (args : List Bytes) (flags : Flags) where
  -- lspwatch ends with the code of the server, once that has exited and the exporter has shut down,
  -- if an instance was built, the process was started, and nothing failed since.
  pub execute_status :
      (i : LspwatchInstance B) (log : Log) (x : X) (hs : List (ℕ × Happening)) (now : ℕ) (code : ℤ)
      → start server args flags ≡ has_built i log x
      → AreFine hs
      → first_code hs ≡ some code
      → execute B start true true (hs ++ (now, exporter_shuts_down true) ∷ []) (server ∷ args) flags
        ≡ some code
  unfolding execute
  execute_status i log x hs now code built fine e =
      let ended = hs ++ (now, exporter_shuts_down true) ∷ [] in
      ap (after_start B start true true ended) built
      ∙ ap (after_run B start true true ended) (run_instance_status hs now code fine e)

  exits_with :
      (starts handled : Bool) (hs : List (ℕ × Happening)) (o : Option Ran) (status : ℤ)
      → after_run B start starts handled hs o ≡ some status
      → (o ≡ some (exits status)) ⊎ (o ≡ some returns_error)
  unfolding after_run
  exits_with starts handled hs none status e = absurd (ground arith)
  exits_with starts handled hs (some (exits code)) status e = inl (ground (arith, e))
  exits_with starts handled hs (some returns_error) status e = inr refl

  started_codes :
      (starts handled : Bool) (hs : List (ℕ × Happening)) (status : ℤ)
      → after_run B start starts handled hs (run_instance starts handled hs) ≡ some status
      → (status ≡ failure)
        ⊎ (first_code hs ≡ some status)
        ⊎ ((status ≡ success) × ((starts ≡ false) ⊎ (handled ≡ false)))
  started_codes false handled hs status e = unfold run_instance after_run in ground arith
  started_codes true false hs status e = unfold run_instance after_run in ground arith
  started_codes true true hs status e =
      elim (exits_with true true hs (run_instance true true hs) status e) [
        | inl ended ↦ ground (arith, run_instance_codes hs status ended)
        | inr failed ↦ absurd (unfold run_instance ran in ground (arith, failed))
      ]

  outcome_codes :
      (starts handled : Bool) (hs : List (ℕ × Happening)) (status : ℤ) (o : Outcome B X)
      → after_start B start starts handled hs o ≡ some status
      → (status ≡ failure)
        ⊎ (status ≡ panicking)
        ⊎ (first_code hs ≡ some status)
        ⊎ ((status ≡ success) × ((starts ≡ false) ⊎ (handled ≡ false)))
  unfolding after_start
  outcome_codes starts handled hs status (has_built i log x) e =
      ground (arith, started_codes starts handled hs status e)
  outcome_codes starts handled hs status (refuses failed) e = ground arith
  outcome_codes starts handled hs status panics e = ground arith

  -- Whatever happens, lspwatch ends with no other status than 1, that of a panic, the code of the
  -- server, and that of success if the process, or its handle, was not to be had.
  pub execute_codes :
      (starts handled : Bool) (hs : List (ℕ × Happening)) (status : ℤ)
      → execute B start starts handled hs (server ∷ args) flags ≡ some status
      → (status ≡ failure)
        ⊎ (status ≡ panicking)
        ⊎ (first_code hs ≡ some status)
        ⊎ ((status ≡ success) × ((starts ≡ false) ⊎ (handled ≡ false)))
  unfolding execute
  execute_codes starts handled hs status e =
      outcome_codes starts handled hs status (start server args flags) e
