-- ===== src/Io/Diverter/Switch.antt =====
-- What the diverter pipe of internal/io/io.go delivers, around its switch and behind its source's
-- end.
use lspwatch.Common.{
  ◌≡◌, inl, inr, refl, sym, ap, ◌∙◌, true, false, List, [], ◌∷◌, ◌++◌, append-nil, append_assoc,
  Bytes, arith, Bool-cases,
}
use lspwatch.Io.Diverter.{
  SingleUseDiverterPipe, Held, nothing, got, offering_first, offering_second, ended, PipeEvent,
  chunk, source_error, look, first_takes, second_takes, give_up, close_first, close_second, switch,
  new_single_use_diverter_pipe, read_chunk, stop_reading, divert, write_first, write_second,
  fail_write, pipe_step, taken_from, run_pipe,
}

unfoldable pub held_chunk : Held → List Bytes
held_chunk (got b) = b ∷ []
held_chunk (offering_first b) = b ∷ []
held_chunk (offering_second b) = b ∷ []
held_chunk _ = []

-- Everything that was taken from the source, by where it is.
unfoldable pub all_chunks : SingleUseDiverterPipe → List Bytes
unfolding held_chunk
all_chunks p = p.first ++ (p.lost ++ (p.second ++ (p.dropped ++ held_chunk p.held)))

-- What a write that is under way says of the lists.
abbrev pub WriteFits : Held → SingleUseDiverterPipe → Type 0
WriteFits (offering_first b) p = (p.second ≡ []) × (p.dropped ≡ [])
WriteFits (offering_second b) p = p.switched ≡ true
WriteFits _ p = Unit

-- Each list is final when the next one begins.
pub record IsPhased (p : SingleUseDiverterPipe) : Type 0 where
  pub no_lost : p.first_closed ≡ false → p.lost ≡ []
  pub no_second : p.switched ≡ false → (p.second ≡ []) × (p.dropped ≡ [])
  pub no_dropped : p.second_closed ≡ false → p.dropped ≡ []
  pub write_fits : WriteFits p.held p

pub pipe_step-IsPhased :
    (e : PipeEvent) (p : SingleUseDiverterPipe) → IsPhased p → IsPhased (pipe_step e p)
unfolding pipe_step
pipe_step-IsPhased (chunk b) p v = ground arith
pipe_step-IsPhased source_error p v = ground arith
pipe_step-IsPhased look p v = ground arith
pipe_step-IsPhased first_takes p v = ground arith
pipe_step-IsPhased second_takes p v = ground arith
pipe_step-IsPhased give_up p v = ground arith
pipe_step-IsPhased close_first p v = ground arith
pipe_step-IsPhased close_second p v = ground arith
pipe_step-IsPhased switch p v = ground arith

-- A chunk moves from the goroutine's hands to the end of a list behind which there is nothing yet.
to_first :
    (first lost second dropped : List Bytes) (b : Bytes)
    → lost ≡ []
    → second ≡ []
    → dropped ≡ []
    → (first ++ b ∷ []) ++ (lost ++ (second ++ (dropped ++ [])))
      ≡ first ++ (lost ++ (second ++ (dropped ++ b ∷ [])))
to_first first lost second dropped b l s d = rw (l, s, d) (append-nil (first ++ b ∷ []))

to_lost :
    (first lost second dropped : List Bytes) (b : Bytes)
    → second ≡ []
    → dropped ≡ []
    → first ++ ((lost ++ b ∷ []) ++ (second ++ (dropped ++ [])))
      ≡ first ++ (lost ++ (second ++ (dropped ++ b ∷ [])))
to_lost first lost second dropped b s d =
    rw (s, d) (ap (λ l. first ++ l) (append-nil (lost ++ b ∷ [])))

to_second :
    (first lost second dropped : List Bytes) (b : Bytes)
    → dropped ≡ []
    → first ++ (lost ++ ((second ++ b ∷ []) ++ (dropped ++ [])))
      ≡ first ++ (lost ++ (second ++ (dropped ++ b ∷ [])))
to_second first lost second dropped b d =
    rw d (ap (λ l. first ++ (lost ++ l)) (append-nil (second ++ b ∷ [])))

add_chunk :
    (first lost second dropped : List Bytes) (b : Bytes)
    → first ++ (lost ++ (second ++ (dropped ++ b ∷ [])))
      ≡ (first ++ (lost ++ (second ++ (dropped ++ [])))) ++ b ∷ []
add_chunk first lost second dropped b = simp (append-nil, append_assoc)

read_chunk-all_chunks :
    (b : Bytes) (h : Held) (p : SingleUseDiverterPipe)
    → p.held ≡ h
    → all_chunks (read_chunk b h p) ≡ all_chunks p ++ taken_from (chunk b) h
unfolding read_chunk taken_from all_chunks
read_chunk-all_chunks b nothing p e = rw e (add_chunk p.first p.lost p.second p.dropped b)
read_chunk-all_chunks b (got c) p e = sym (append-nil _)
read_chunk-all_chunks b (offering_first c) p e = sym (append-nil _)
read_chunk-all_chunks b (offering_second c) p e = sym (append-nil _)
read_chunk-all_chunks b ended p e = sym (append-nil _)

module _ (p : SingleUseDiverterPipe) (v : IsPhased p) where
  write_first-all_chunks : (h : Held) → p.held ≡ h → all_chunks (write_first h p) ≡ all_chunks p
  unfolding write_first all_chunks
  write_first-all_chunks (offering_first b) e = elim (Bool-cases p.first_closed) [
    | inl closed ↦ rw closed refl
    | inr opened ↦
        let (s, d) : (p.second ≡ []) × (p.dropped ≡ []) = ground (arith, v.write_fits, e) in
        rw (opened, e) (to_first p.first p.lost p.second p.dropped b (v.no_lost opened) s d)
  ]
  write_first-all_chunks nothing e = refl
  write_first-all_chunks (got b) e = refl
  write_first-all_chunks (offering_second b) e = refl
  write_first-all_chunks ended e = refl

  write_second-all_chunks : (h : Held) → p.held ≡ h → all_chunks (write_second h p) ≡ all_chunks p
  unfolding write_second all_chunks
  write_second-all_chunks (offering_second b) e = elim (Bool-cases p.second_closed) [
    | inl closed ↦ rw closed refl
    | inr opened ↦
        rw (opened, e) (to_second p.first p.lost p.second p.dropped b (v.no_dropped opened))
  ]
  write_second-all_chunks nothing e = refl
  write_second-all_chunks (got b) e = refl
  write_second-all_chunks (offering_first b) e = refl
  write_second-all_chunks ended e = refl

  fail_write-all_chunks : (h : Held) → p.held ≡ h → all_chunks (fail_write h p) ≡ all_chunks p
  unfolding fail_write all_chunks
  fail_write-all_chunks (offering_first b) e = elim (Bool-cases p.first_closed) [
    | inr opened ↦ rw opened refl
    | inl closed ↦
        let (s, d) : (p.second ≡ []) × (p.dropped ≡ []) = ground (arith, v.write_fits, e) in
        rw (closed, e) (to_lost p.first p.lost p.second p.dropped b s d)
  ]
  fail_write-all_chunks (offering_second b) e = elim (Bool-cases p.second_closed) [
    | inr opened ↦ rw opened refl
    | inl closed ↦
        rw (closed, e)
          (ap (λ l. p.first ++ (p.lost ++ (p.second ++ l))) (append-nil (p.dropped ++ b ∷ [])))
  ]
  fail_write-all_chunks nothing e = refl
  fail_write-all_chunks (got b) e = refl
  fail_write-all_chunks ended e = refl

  kept :
      (h : Held) (e : PipeEvent) (q : SingleUseDiverterPipe)
      → taken_from e h ≡ []
      → all_chunks q ≡ all_chunks p
      → all_chunks q ≡ all_chunks p ++ taken_from e h
  kept h e q t same = rw t (same ∙ sym (append-nil (all_chunks p)))

  pub pipe_step-all_chunks :
      (e : PipeEvent) → all_chunks (pipe_step e p) ≡ all_chunks p ++ taken_from e p.held
  unfolding pipe_step taken_from
  pipe_step-all_chunks (chunk b) = read_chunk-all_chunks b p.held p refl
  pipe_step-all_chunks source_error =
      kept p.held source_error _ refl (unfold all_chunks stop_reading held_chunk in ground arith)
  pipe_step-all_chunks look =
      kept p.held look _ refl (unfold all_chunks divert held_chunk in ground arith)
  pipe_step-all_chunks first_takes =
      kept p.held first_takes _ refl (write_first-all_chunks p.held refl)
  pipe_step-all_chunks second_takes =
      kept p.held second_takes _ refl (write_second-all_chunks p.held refl)
  pipe_step-all_chunks give_up = kept p.held give_up _ refl (fail_write-all_chunks p.held refl)
  pipe_step-all_chunks close_first = kept p.held close_first _ refl (unfold all_chunks in refl)
  pipe_step-all_chunks close_second = kept p.held close_second _ refl (unfold all_chunks in refl)
  pipe_step-all_chunks switch = kept p.held switch _ refl (unfold all_chunks in refl)

pub run_pipe_lem :
    (es : List PipeEvent) (p : SingleUseDiverterPipe)
    → IsPhased p
    → all_chunks (run_pipe es p).0 ≡ all_chunks p ++ (run_pipe es p).1
unfolding run_pipe
run_pipe_lem [] p v = sym (append-nil (all_chunks p))
run_pipe_lem (e ∷ es) p v =
    run_pipe_lem es (pipe_step e p) (pipe_step-IsPhased e p v)
    ∙ ap (λ l. l ++ (run_pipe es (pipe_step e p)).1) (pipe_step-all_chunks p v e)
    ∙ append_assoc (all_chunks p) _ _

-- Whatever happens to the pipe and its destinations, the chunks that were taken from the source
-- are, in order: those that the first destination's reader got, those that were lost at its
-- closing, those that the second's got, those that were lost at the closing of that, and at most
-- one that is still in the pipe's hands.
run_pipe-all_chunks :
    (es : List PipeEvent)
    → all_chunks (run_pipe es new_single_use_diverter_pipe).0
      ≡ (run_pipe es new_single_use_diverter_pipe).1
run_pipe-all_chunks es =
    run_pipe_lem es new_single_use_diverter_pipe
      (unfold new_single_use_diverter_pipe in ground arith)
    ∙ unfold all_chunks held_chunk new_single_use_diverter_pipe in refl
