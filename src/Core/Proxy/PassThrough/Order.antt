-- ===== src/Core/Proxy/PassThrough/Order.antt =====
-- What the client gets before and behind the switch of mode in internal/core/proxy.go, and in which
-- order.
use lspwatch.Common.{
  ◌≡◌, ◌⊎◌, inl, inr, refl, sym, ap, ◌∙◌, true, List, [], ◌∷◌, ◌++◌, append-nil, append_assoc,
  Bool-cases, Bytes, arith,
}
use lspwatch.Io.Diverter.{SingleUseDiverterPipe, new_single_use_diverter_pipe, pipe_step}
use lspwatch.Io.Diverter.Switch.{held_chunk, all_chunks, run_pipe_lem}
use lspwatch.Core.Proxy.PassThrough.{
  Passing, reading, writing, stopped, Stage, Relay, RelayEvent, pass_writes, forwards, new_relay,
  relay_step, run_relay, write_passed, forward,
}
use lspwatch.Core.Proxy.PassThrough.Fits.{
  in_hand, StageFits, IsRelaying, relay_step-IsRelaying, relay_step-pipe, piped,
}

-- The pass-through has written what it has read whenever the listener forwards a message, which it
-- cannot before it has read anything.
abbrev pub FreeHand : RelayEvent → Relay → Type 0
FreeHand (forwards raw) r = (r.pipe.second ≡ []) ⊎ (in_hand r.passing ≡ [])
FreeHand _ r = Unit

unfoldable pub InTime : List RelayEvent → Relay → Type 0
InTime [] r = Unit
InTime (e ∷ es) r = FreeHand e r × InTime es (relay_step e r)

-- Behind the first message that was forwarded the pass-through writes nothing.
abbrev pub Arranged : Relay → Type 0
Arranged r =
    ((r.forwarded ≡ []) ⊎ ((r.pipe.first_closed ≡ true) × (in_hand r.passing ≡ [])))
    × (r.to_client ≡ r.passed ++ r.forwarded)

write_passed-Arranged :
    (h : Passing) (r : Relay) → r.passing ≡ h → Arranged r → Arranged (write_passed h r)
unfolding write_passed in_hand
write_passed-Arranged reading r e a = a
write_passed-Arranged stopped r e a = a
write_passed-Arranged (writing b) r e (inl empty, order) = elim (Bool-cases r.client_closed) [
  | inl down ↦ rw down (inl empty, order)
  | inr up ↦ rw up (
    inl empty,
    ap (λ l. l ++ b ∷ []) (order ∙ ap (λ l. r.passed ++ l) empty ∙ append-nil r.passed)
        ∙ sym (append-nil (r.passed ++ b ∷ []))
        ∙ ap (λ l. (r.passed ++ b ∷ []) ++ l) (sym empty),
  )
]
write_passed-Arranged (writing b) r e (inr (closes, hand), order) = absurd (ground (arith, e, hand))

forward-Arranged :
    (raw : Bytes) (r : Relay)
    → r.pipe.first_closed ≡ true
    → in_hand r.passing ≡ []
    → Arranged r
    → Arranged
        (record r { forwarded = r.forwarded ++ raw ∷ []; to_client = r.to_client ++ raw ∷ [] })
forward-Arranged raw r closes hand (_, order) = (
  inr (closes, hand),
  ap (λ l. l ++ raw ∷ []) order ∙ append_assoc r.passed r.forwarded (raw ∷ []),
)

switched_closed :
    (s : Stage) (p : SingleUseDiverterPipe)
    → StageFits s p
    → p.switched ≡ true
    → p.first_closed ≡ true
switched_closed s p f on = ground arith

forward_step-Arranged :
    (raw : Bytes) (bs : List Bytes) (r : Relay)
    → r.pipe.second ≡ bs
    → IsRelaying r
    → (r.pipe.second ≡ []) ⊎ (in_hand r.passing ≡ [])
    → Arranged r
    → Arranged (forward raw bs r)
unfolding forward
forward_step-Arranged raw [] r e v hand a = a
forward_step-Arranged raw (b ∷ bs) r e v (inl none_read) a = absurd (ground (arith, e, none_read))
forward_step-Arranged raw (b ∷ bs) r e v (inr hand) a = elim (Bool-cases r.client_closed) [
  | inl down ↦ rw down a
  | inr up ↦ rw up (
      forward-Arranged raw r
        (switched_closed r.stage r.pipe v.switch_fits.0 (elim (Bool-cases r.pipe.switched) [
          | inl on ↦ on
          | inr off ↦ absurd (ground (arith, e, v.phased.no_second off))
        ]))
        hand a)
]

relay_step-Arranged :
    (e : RelayEvent) (r : Relay)
    → FreeHand e r
    → IsRelaying r
    → Arranged r
    → Arranged (relay_step e r)
unfolding relay_step
relay_step-Arranged pass_writes r hand v a = write_passed-Arranged r.passing r refl a
relay_step-Arranged (forwards raw) r hand v a =
    forward_step-Arranged raw r.pipe.second r refl v hand a
relay_step-Arranged e r hand v a = unfold pipe_step in_hand in ground arith

pub new_relay-IsRelaying : (mode : Bytes) → IsRelaying (new_relay mode)
unfolding new_relay new_single_use_diverter_pipe in_hand
new_relay-IsRelaying mode = record {
  phased = ground arith;
  pass_fits = ground arith;
  switch_fits = ground arith;
}

pub new_relay-Arranged : (mode : Bytes) → Arranged (new_relay mode)
unfolding new_relay
new_relay-Arranged mode = (inl refl, refl)

pub run_relay-Arranged :
    (es : List RelayEvent) (r : Relay)
    → InTime es r
    → IsRelaying r
    → Arranged r
    → IsRelaying (run_relay es r).0 × Arranged (run_relay es r).0
unfolding run_relay InTime
run_relay-Arranged [] r o v a = (v, a)
run_relay-Arranged (e ∷ es) r (one, o) v a =
    run_relay-Arranged es (relay_step e r) o (relay_step-IsRelaying e r v)
      (relay_step-Arranged e r one v a)

pub run_relay-all_chunks :
    (es : List RelayEvent) (r : Relay)
    → IsRelaying r
    → all_chunks (run_relay es r).0.pipe ≡ all_chunks r.pipe ++ (run_relay es r).1
unfolding run_relay
run_relay-all_chunks [] r v = sym (append-nil (all_chunks r.pipe))
run_relay-all_chunks (e ∷ es) r v =
    let (pipe, taken) = relay_step-pipe e r in
    run_relay-all_chunks es (relay_step e r) (relay_step-IsRelaying e r v)
    ∙ ap (λ l. l ++ (run_relay es (relay_step e r)).1)
        (ap all_chunks pipe
          ∙ run_pipe_lem (piped e r) r.pipe v.phased
          ∙ ap (λ l. all_chunks r.pipe ++ l) (sym taken))
    ∙ append_assoc (all_chunks r.pipe) _ _

-- The chunks that were taken from the server, by where they are: written by the pass-through, read
-- by it when the client's end was closed, in its hands, lost at the closing of its pipe, got by the
-- listener's reader, lost at the closing of that one's, and in the hands of the diverter pipe.
abbrev pub placed : Relay → List Bytes
placed r =
    (r.passed ++ (r.unwritten ++ in_hand r.passing))
    ++ (r.pipe.lost ++ (r.pipe.second ++ (r.pipe.dropped ++ held_chunk r.pipe.held)))

pub run_relay_order :
    (mode : Bytes) (es : List RelayEvent)
    → InTime es (new_relay mode)
    → let t = (run_relay es (new_relay mode)).0 in
      (t.to_client ≡ t.passed ++ t.forwarded) × (placed t ≡ (run_relay es (new_relay mode)).1)
run_relay_order mode es o =
    let t = (run_relay es (new_relay mode)).0 in
    let (v, a) =
      run_relay-Arranged es (new_relay mode) o (new_relay-IsRelaying mode)
        (new_relay-Arranged mode) in
    (
      a.1,
      ap (λ l. l ++ (t.pipe.lost ++ (t.pipe.second ++ (t.pipe.dropped ++ held_chunk t.pipe.held))))
            (sym v.pass_fits.0)
          ∙ unfold all_chunks in
            run_relay-all_chunks es (new_relay mode) (new_relay-IsRelaying mode)
            ∙ unfold all_chunks held_chunk new_relay new_single_use_diverter_pipe in refl,
    )
