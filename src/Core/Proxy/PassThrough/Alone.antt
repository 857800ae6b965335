-- ===== src/Core/Proxy/PassThrough/Alone.antt =====
-- The listener for the server in proxy mode in internal/core/proxy.go, where `Start` starts no
-- pass-through, so that nothing reads the first destination of the diverter pipe.
use lspwatch.Common.{◌≡◌, refl, sym, ap, ◌∙◌, List, [], ◌∷◌, ◌++◌, codes, same, arith}
use lspwatch.Io.Diverter.{new_single_use_diverter_pipe}
use lspwatch.Io.Diverter.Switch.{held_chunk, all_chunks}
use lspwatch.Core.Proxy.PassThrough.{stopped, Relay, RelayEvent, new_relay, relay_step, run_relay}
use lspwatch.Core.Proxy.PassThrough.Fits.{in_hand, IsRelaying, relay_step-IsRelaying}
use lspwatch.Core.Proxy.PassThrough.Order.{new_relay-IsRelaying, run_relay-all_chunks}

-- There is no pass-through, and the client has got what the listener has written.
abbrev IsAlone : Relay → Type 0
IsAlone r =
    (r.passing ≡ stopped) × (r.passed ≡ []) × (r.unwritten ≡ []) × (r.to_client ≡ r.forwarded)

relay_step-IsAlone : (e : RelayEvent) (r : Relay) → IsAlone r → IsAlone (relay_step e r)
unfolding relay_step
relay_step-IsAlone e r v = ground arith

run_relay-IsAlone :
    (es : List RelayEvent) (r : Relay)
    → IsRelaying r
    → IsAlone r
    → IsRelaying (run_relay es r).0 × IsAlone (run_relay es r).0
unfolding run_relay
run_relay-IsAlone [] r v a = (v, a)
run_relay-IsAlone (e ∷ es) r v a =
    run_relay-IsAlone es (relay_step e r) (relay_step-IsRelaying e r v) (relay_step-IsAlone e r a)

none_first : (r : Relay) → IsRelaying r → IsAlone r → r.pipe.first ≡ []
unfolding in_hand
none_first r v (stops, passed, unwritten, to_client) =
    v.pass_fits.0 ∙ rw (stops, passed, unwritten) refl

-- In proxy mode, whatever happens, the client gets only what the listener for the server forwards.
-- The chunks that were taken from the server are, in order, those lost at the closing of the first
-- destination, which is at the switch of mode, those that the listener's reader got, those lost at
-- the closing of its pipe, and at most one on the way.
pub run_relay_alone :
    (es : List RelayEvent)
    → let t = (run_relay es (new_relay (codes "proxy"))).0 in
      (t.to_client ≡ t.forwarded)
      × (t.pipe.lost ++ (t.pipe.second ++ (t.pipe.dropped ++ held_chunk t.pipe.held))
          ≡ (run_relay es (new_relay (codes "proxy"))).1)
run_relay_alone es =
    let t = (run_relay es (new_relay (codes "proxy"))).0 in
    let start = new_relay-IsRelaying (codes "proxy") in
    let (v, a) =
      run_relay-IsAlone es (new_relay (codes "proxy")) start
        (unfold new_relay same in (refl, refl, refl, refl)) in
    (
      a.3,
      ap (λ l. l ++ (t.pipe.lost ++ (t.pipe.second ++ (t.pipe.dropped ++ held_chunk t.pipe.held))))
            (sym (none_first t v a))
          ∙ unfold all_chunks in
            run_relay-all_chunks es (new_relay (codes "proxy")) start
            ∙ unfold all_chunks held_chunk new_relay new_single_use_diverter_pipe in refl,
    )
