-- ===== src/Instance/Stderr.antt =====
-- `startStderrRecorder` of internal/lspwatch.go: `io.Copy` from the server's stderr to a
-- `MultiWriter`, which writes every chunk to the buffer and then to lspwatch's own stderr. Such a
-- copy ends at an error.
use lspwatch.Common.{
  ◌≡◌, sym, ap, ◌∙◌, Bool, true, false, List, [], ◌∷◌, ◌++◌, append-nil, Bytes, concat,
  concat-append, arith,
}

-- What was captured, what lspwatch's stderr was offered, and its state.
pub record Recorded (W : Type 0) : Type 0 where
  pub captured : Bytes
  pub offered : List Bytes
  pub stderr : W

module _ {W : Type 0} (write : Bytes → W → W × Bool) where
  -- a write to the `MultiWriter`, with whether it went well
  record_chunk : Bytes → Recorded W → Recorded W × Bool
  record_chunk b r =
      let (w, fine) = write b r.stderr in
      (record { captured = r.captured ++ b; offered = r.offered ++ b ∷ []; stderr = w }, fine)

  -- the chunks that are read, up to the end of the server's stderr or an error
  unfoldable pub record_stderr : List Bytes → Recorded W → Recorded W
  unfolding record_chunk
  record_stderr [] r = r
  record_stderr (b ∷ bs) r =
      let (r', fine) = record_chunk b r in elim fine [ true ↦ record_stderr bs r' | false ↦ r' ]

  abbrev IsFaithful : Recorded W → Type 0
  IsFaithful r = r.captured ≡ concat r.offered

  record_chunk-IsFaithful :
      (b : Bytes) (r : Recorded W) → IsFaithful r → IsFaithful (record_chunk b r).0
  unfolding record_chunk
  record_chunk-IsFaithful b r v =
      ap (λ l. l ++ b) v
      ∙ ap (λ l. concat r.offered ++ l) (sym (append-nil b))
      ∙ sym (concat-append r.offered (b ∷ []))

  -- What is captured for the log is what lspwatch's own stderr was offered, to the last chunk.
  pub record_stderr-IsFaithful :
      (bs : List Bytes) (r : Recorded W) → IsFaithful r → IsFaithful (record_stderr bs r)
  unfolding record_stderr
  record_stderr-IsFaithful [] r v = v
  record_stderr-IsFaithful (b ∷ bs) r v =
      let kept = record_chunk-IsFaithful b r v in
      let rest = record_stderr-IsFaithful bs (record_chunk b r).0 kept in ground (arith, kept, rest)
