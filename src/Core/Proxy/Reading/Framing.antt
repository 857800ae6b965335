-- ===== src/Core/Proxy/Reading/Framing.antt =====
-- The reading goroutine on a stream of messages in the protocol's framing.
use lspwatch.Common.{
  ◌<◌, ◌≤◌, ◌^◌, ◌≡◌, refl, ap, ◌≢◌, some, Option, List, [], ◌∷◌, map, Bytes, length, All, concat,
  arith,
}
use lspwatch.Io.Text.{at_eof}
use lspwatch.Io.Reader.Framed.{frame, IsDecimal, read-frame}
use lspwatch.Core.Proxy.Listeners.{ReadEvent, message, classify}
use lspwatch.Core.Proxy.Reading.{
  Turn, handed, cancelled, rounds, is_cancelled, raw_bodies, read_events, read_events-Reads,
}

-- A message on the wire: the digits of its length, and its payload.
pub record Wire : Type 0 where
  pub digits : Bytes
  pub payload : Bytes

abbrev pub on_wire : Wire → Bytes
on_wire w = frame w.digits w.payload

module _ {M : Type 0} (decode : Bytes → Option M) where
  -- The length is right, positive and below 2³¹, and the payload decodes.
  pub record IsWellFramed (w : Wire) : Type 0 where
    pub decimal : IsDecimal w.digits (length w.payload)
    pub filled : w.payload ≢ []
    pub small : length w.payload < 2 ^ 31
    pub body : M
    pub decodes : decode w.payload ≡ some body

  no_bodies : (bs : List Bytes) → length bs ≤ 0 → bs ≡ []
  no_bodies [] few = refl
  no_bodies (b ∷ bs) few = absurd (omega arith)

  -- On well-framed messages and nothing else, when at least as many results are handed over, the
  -- raw bodies among them are the messages as they stood on the wire.
  pub read_events-on_wire :
      (ws : List Wire) (turns : List Turn)
      → All IsWellFramed ws
      → length ws ≤ rounds turns
      → (es : List (ReadEvent M)) × (read_events decode turns
            (record { bytes = concat (map on_wire ws); ending = at_eof })
          ≡ some (es, is_cancelled turns))
        × (raw_bodies es ≡ map on_wire ws)
  unfolding read_events raw_bodies classify rounds is_cancelled
  read_events-on_wire [] turns all enough =
      let (es, q, reads) =
        read_events-Reads decode turns (record { bytes = []; ending = at_eof }) in
      (es, q, no_bodies (raw_bodies es) reads.2)
  read_events-on_wire (w ∷ ws) [] all enough = absurd (omega arith)
  read_events-on_wire (w ∷ ws) (cancelled ∷ turns) all enough = absurd (omega arith)
  read_events-on_wire (w ∷ ws) (handed ∷ turns) (good, all) enough =
      let (es, q, bodies) = read_events-on_wire ws turns all (omega arith) in
      (
        message good.body (on_wire w) ∷ es,
        rw
            (
              read-frame decode w.digits w.payload (concat (map on_wire ws)) at_eof good.decimal
                  good.filled good.small good.decodes,
              q,
            )
            refl,
        ap (λ bs. on_wire w ∷ bs) bodies,
      )
