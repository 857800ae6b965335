-- ===== src/Core/Proxy/PassThrough/Fits.antt =====
-- What holds at any moment of the server's bytes on their way to the client in
-- internal/core/proxy.go: which steps of the diverter pipe the steps make, and how far the switch
-- of mode has come.
use lspwatch.Common.{
  ◌≡◌, inl, inr, refl, sym, ap, subst, ◌∙◌, true, false, List, [], ◌∷◌, ◌++◌, append-nil,
  append_assoc, if◌then◌else◌, Bool-cases, Bytes, arith,
}
use lspwatch.Io.Diverter.{
  got, nothing, offering_second, ended, SingleUseDiverterPipe, Held, offering_first, PipeEvent,
  chunk, source_error, look, first_takes, second_takes, give_up, close_first, close_second, switch,
  pipe_step, taken_from, run_pipe,
}
use lspwatch.Io.Diverter.Switch.{IsPhased, pipe_step-IsPhased}
use lspwatch.Core.Proxy.PassThrough.{
  read_offered, Passing, reading, writing, stopped, Stage, not_yet, shaken, closed, over, Relay,
  RelayEvent, source_chunk, source_end, diverter_looks, diverter_gives_up, pass_reads, pass_writes,
  close_pass_through, switch_pipe, lsp_reads, lsp_returns, relay_step, relay_taken, write_passed,
}

-- What the pass-through has read and not yet written.
unfoldable pub in_hand : Passing → List Bytes
in_hand (writing b) = b ∷ []
in_hand _ = []

-- How far the switch has come is what it has done.
abbrev pub StageFits : Stage → SingleUseDiverterPipe → Type 0
StageFits closed p = (p.first_closed ≡ true) × (p.switched ≡ false)
StageFits over p = p.first_closed ≡ true
StageFits _ p = (p.first_closed ≡ false) × (p.switched ≡ false)

-- What a step of the relay does to the diverter pipe.
read_piped : Passing → Held → Relay → List PipeEvent
read_piped reading (offering_first b) r = if r.pipe.first_closed then [] else first_takes ∷ []
read_piped _ _ r = []

close_piped : Stage → List PipeEvent
close_piped shaken = close_first ∷ []
close_piped _ = []

switch_piped : Stage → List PipeEvent
switch_piped closed = switch ∷ []
switch_piped _ = []

pub piped : RelayEvent → Relay → List PipeEvent
unfolding read_piped close_piped switch_piped
piped (source_chunk b) r = if r.client_closed then [] else chunk b ∷ []
piped source_end r = source_error ∷ []
piped diverter_looks r = look ∷ []
piped diverter_gives_up r = give_up ∷ []
piped pass_reads r = read_piped r.passing r.pipe.held r
piped close_pass_through r = close_piped r.stage
piped switch_pipe r = switch_piped r.stage
piped lsp_reads r = second_takes ∷ []
piped lsp_returns r = if r.listens then close_second ∷ [] else []
piped _ r = []

pub relay_step-pipe :
    (e : RelayEvent) (r : Relay)
    → ((relay_step e r).pipe ≡ (run_pipe (piped e r) r.pipe).0)
      × (relay_taken e r ≡ (run_pipe (piped e r) r.pipe).1)
unfolding relay_step piped run_pipe relay_taken taken_from
relay_step-pipe (source_chunk b) r = ground (arith, append-nil (taken_from (chunk b) r.pipe.held))
relay_step-pipe e r = ground arith

pub run_pipe-IsPhased :
    (es : List PipeEvent) (p : SingleUseDiverterPipe) → IsPhased p → IsPhased (run_pipe es p).0
unfolding run_pipe
run_pipe-IsPhased [] p v = v
run_pipe-IsPhased (e ∷ es) p v = run_pipe-IsPhased es (pipe_step e p) (pipe_step-IsPhased e p v)

relay_step-IsPhased :
    (e : RelayEvent) (r : Relay) → IsPhased r.pipe → IsPhased (relay_step e r).pipe
relay_step-IsPhased e r v =
    subst IsPhased (sym (relay_step-pipe e r).0) (run_pipe-IsPhased (piped e r) r.pipe v)

-- What holds of a relay beside its pipe.
abbrev pub PassFits : Relay → Type 0
PassFits r =
    (r.pipe.first ≡ r.passed ++ (r.unwritten ++ in_hand r.passing))
    × (r.client_closed ≡ false → r.unwritten ≡ [])

write_passed-PassFits :
    (h : Passing) (r : Relay) → r.passing ≡ h → PassFits r → PassFits (write_passed h r)
unfolding write_passed in_hand
write_passed-PassFits reading r e h = h
write_passed-PassFits stopped r e h = h
write_passed-PassFits (writing b) r e (first, opened) = elim (Bool-cases r.client_closed) [
  | inl down ↦
      rw down
        (first ∙ rw e (ap (λ l. r.passed ++ l) (sym (append-nil (r.unwritten ++ b ∷ [])))), λ q. cc)
  | inr up ↦
      rw up (first ∙ rw (e, opened up) (sym (append-nil (r.passed ++ b ∷ []))), λ q. opened up)
]

read_offered-PassFits :
    (h : Passing) (k : Held) (r : Relay)
    → r.passing ≡ h
    → r.pipe.held ≡ k
    → PassFits r
    → PassFits (read_offered h k r)
unfolding read_offered in_hand pipe_step
read_offered-PassFits reading (offering_first b) r e q (first, opened) =
    elim (Bool-cases r.pipe.first_closed) [
      | inl down ↦ rw down (first, opened)
      | inr up ↦
          rw (up, q)
            (
              ap (λ l. l ++ b ∷ [])
                    (first ∙ rw e (ap (λ l. r.passed ++ l) (append-nil r.unwritten)))
                  ∙ append_assoc r.passed r.unwritten (b ∷ []),
              opened,
            )
    ]
read_offered-PassFits reading nothing r e q h = h
read_offered-PassFits reading (got b) r e q h = h
read_offered-PassFits reading (offering_second b) r e q h = h
read_offered-PassFits reading ended r e q h = h
read_offered-PassFits (writing b) k r e q h = h
read_offered-PassFits stopped k r e q h = h

relay_step-PassFits : (e : RelayEvent) (r : Relay) → PassFits r → PassFits (relay_step e r)
unfolding relay_step
relay_step-PassFits pass_writes r h = write_passed-PassFits r.passing r refl h
relay_step-PassFits pass_reads r h = read_offered-PassFits r.passing r.pipe.held r refl refl h
relay_step-PassFits e r h = unfold in_hand pipe_step in ground arith

-- The switch comes behind the closing of the pass-through, and both need a listener.
abbrev pub SwitchFits : Relay → Type 0
SwitchFits r =
    StageFits r.stage r.pipe × (r.listens ≡ false → (r.stage ≡ not_yet) × (r.client_closed ≡ false))

relay_step-SwitchFits : (e : RelayEvent) (r : Relay) → SwitchFits r → SwitchFits (relay_step e r)
unfolding relay_step pipe_step
relay_step-SwitchFits e r h = ground arith

pub record IsRelaying (r : Relay) : Type 0 where
  pub phased : IsPhased r.pipe
  pub pass_fits : PassFits r
  pub switch_fits : SwitchFits r

pub relay_step-IsRelaying :
    (e : RelayEvent) (r : Relay) → IsRelaying r → IsRelaying (relay_step e r)
relay_step-IsRelaying e r v = record {
  phased = relay_step-IsPhased e r v.phased;
  pass_fits = relay_step-PassFits e r v.pass_fits;
  switch_fits = relay_step-SwitchFits e r v.switch_fits;
}
