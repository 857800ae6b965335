-- ===== src/Core/Proxy/Reading.antt =====
-- The reading goroutines of internal/core/proxy.go: `Read` over and over, each result for the
-- listener to take, until the listener has returned. The end of the stream is a result like any
-- other here: it is the listener that returns at it (Core/Proxy/Listeners).
pub mod Framing
use lspwatch.Common.{
  ℕ, suc, Bool, true, false, ◌<◌, ◌≤◌, ◌≡◌, refl, sym, ap, subst, ◌∙◌, ◌≢◌, ◌⊎◌, inl, inr, Option,
  none, some, List, [], ◌∷◌, ◌++◌, map, Bytes, length, All, IsWithin, IsWithin-IsSuffix, IsSuffix,
  length-IsSuffix, append_assoc, append-nil, length-append, concat, ◌^◌, arith,
}
use lspwatch.Io.Text.{Stream, at_eof, broken}
use lspwatch.Io.Reader.{
  Read, Outcome, ReadError, returned, panicked, out_of_fuel, eof, read, content_length,
}
use lspwatch.Io.Reader.Total.{Sound, Accepted, read-Sound}
use lspwatch.Io.Reader.Framed.{frame, IsDecimal, read-frame}
use lspwatch.Core.Proxy.Listeners.{
  ReadEvent, message, stream_end, read_error, classify, classify_parts,
}

-- Which case of the goroutine's `select` goes on with a result: the listener takes it, or the
-- listener has returned, and `ctx.Done()` is closed.
pub data Turn : Type 0 where
  handed cancelled : Turn

-- The results that are handed over in some turns, and whether the goroutine has returned; `none`
-- would be a panic of `Read`.
module _ {M : Type 0} where
  hand_over : ReadEvent M → Option (List (ReadEvent M) × Bool) → Option (List (ReadEvent M) × Bool)
  hand_over e none = none
  hand_over e (some (es, finished)) = some (e ∷ es, finished)

  unfoldable pub after_read :
      (Stream → Option (List (ReadEvent M) × Bool))
      → Turn
      → Outcome M
      → Option (List (ReadEvent M) × Bool)
  unfolding hand_over
  after_read next handed (returned r) = hand_over (classify r) (next r.rest)
  after_read next cancelled (returned r) = some ([], true)
  after_read next _ panicked = none
  after_read next _ out_of_fuel = none

  -- The raw bytes of the messages among some events.
  unfoldable pub raw_bodies : List (ReadEvent M) → List Bytes
  raw_bodies [] = []
  raw_bodies (message m raw ∷ es) = raw ∷ raw_bodies es
  raw_bodies (_ ∷ es) = raw_bodies es

-- How many results are handed over before the goroutine returns, and whether it does.
unfoldable pub rounds : List Turn → ℕ
rounds [] = 0
rounds (handed ∷ turns) = suc (rounds turns)
rounds (cancelled ∷ turns) = 0

unfoldable pub is_cancelled : List Turn → Bool
is_cancelled [] = false
is_cancelled (handed ∷ turns) = is_cancelled turns
is_cancelled (cancelled ∷ turns) = true

-- The end of the stream is among some results.
abbrev pub HasEnd : {M : Type 0} → List (ReadEvent M) → Type 0
HasEnd [] = ⊥
HasEnd (stream_end ∷ es) = Unit
HasEnd (_ ∷ es) = HasEnd es

module _ {M : Type 0} (decode : Bytes → Option M) where
  unfoldable pub read_events : List Turn → Stream → Option (List (ReadEvent M) × Bool)
  unfolding after_read
  read_events [] s = some ([], false)
  read_events (turn ∷ turns) s = after_read (read_events turns) turn (read decode s)

  classify_error :
      (r : Read M) (e : ReadError)
      → r.result.error ≡ some e
      → ((e ≡ eof) × (classify r ≡ stream_end)) ⊎ ((e ≢ eof) × (classify r ≡ read_error))
  unfolding classify
  classify_error r eof h = inl (refl, ap (λ o. classify_parts o r.message r.result.raw_body) h)
  classify_error r e h = inr (λ q. cc, ap (λ o. classify_parts o r.message r.result.raw_body) h)

  classify-Accepted :
      (s : Stream) (r : Read M) (a : Accepted decode s r)
      → classify r ≡ message a.body (a.head ++ a.payload)
  unfolding classify
  classify-Accepted s r a = ground (arith, a.clean, a.raw, a.delivered)

  -- What one round makes of the input `s`, when it leaves `rest`.
  abbrev Round : Stream → Stream → ReadEvent M → Type 0
  Round s rest stream_end = IsSuffix rest.bytes s.bytes × (s.ending ≡ at_eof) × (s.bytes ≡ [])
  Round s rest read_error =
      IsSuffix rest.bytes s.bytes × ((length rest.bytes < length s.bytes) ⊎ (s.ending ≢ at_eof))
  Round s rest (message m raw) =
      (raw ++ rest.bytes ≡ s.bytes) × (length rest.bytes < length s.bytes)

  progress :
      (s : Stream) (r : Read M)
      → Sound decode s r
      → r.result.error ≢ some eof
      → (length r.rest.bytes < length s.bytes) ⊎ (s.ending ≢ at_eof)
  progress s r v h = elim v.shrinks [
    | inl less ↦ inl less
    | inr empty ↦ inr (λ q. h (v.ended.1 (q, empty.0)))
  ]

  judge : (s : Stream) (r : Read M) → Sound decode s r → Round s r.rest (classify r)
  judge s r v = elim v.judged [
    | inl failed ↦ elim (classify_error r failed.0 failed.1) [
      | inl last ↦
          let (ending, empty) = v.ended.0 (failed.1 ∙ ap some last.0) in
          subst (Round s r.rest) (sym last.1) (v.suffix, ending, empty)
      | inr other ↦
          subst (Round s r.rest) (sym other.1)
            (v.suffix, progress s r v (λ q. other.0 (ground (arith, failed.1, q))))
    ]
    | inr a ↦ subst (Round s r.rest) (sym (classify-Accepted s r a)) (
      a.consumed,
      (omega (
        arith,
        ap length a.consumed,
        length-append (a.head ++ a.payload) r.rest.bytes,
        length-append a.head a.payload,
        a.filled,
      )),
    )
  ]

  -- What some turns of the goroutine come to on the input `s`.
  abbrev Reads : List Turn → Stream → List (ReadEvent M) → Type 0
  Reads turns s es =
      (length es ≡ rounds turns)
      × IsWithin (raw_bodies es) s.bytes
      × (length (raw_bodies es) ≤ length s.bytes)
      × (s.ending ≡ at_eof → length s.bytes < rounds turns → HasEnd es)
      × (s.ending ≢ at_eof → ¬ HasEnd es)

  Reads-cons :
      (turns : List Turn) (s rest : Stream) (e : ReadEvent M) (es : List (ReadEvent M))
      → rest.ending ≡ s.ending
      → Round s rest e
      → Reads turns rest es
      → Reads (handed ∷ turns) s (e ∷ es)
  unfolding raw_bodies rounds
  Reads-cons turns s rest stream_end es same (suffix, at, empty) (long, within, few, seen, never) =
      (
        ap suc long,
        IsWithin-IsSuffix (raw_bodies es) rest.bytes s.bytes suffix within,
        omega (arith, few, length-IsSuffix rest.bytes s.bytes suffix),
        λ at enough. tt,
        λ other. absurd (other at),
      )
  Reads-cons turns s rest read_error es same (suffix, less) (long, within, few, seen, never) = (
    ap suc long,
    IsWithin-IsSuffix (raw_bodies es) rest.bytes s.bytes suffix within,
    omega (arith, few, length-IsSuffix rest.bytes s.bytes suffix),
    λ at enough. elim less [
      | inl shorter ↦ seen (same ∙ at) (omega (arith, shorter, enough))
      | inr other ↦ absurd (other at)
    ],
    λ other. never (λ at. other (sym same ∙ at)),
  )
  Reads-cons turns s rest (message m raw) es same (kept, less) (long, within, few, seen, never) = (
    ap suc long,
    ([], rest.bytes, kept, within),
    omega (arith, few, less),
    λ at enough. seen (same ∙ at) (omega (arith, less, enough)),
    λ other. never (λ at. other (sym same ∙ at)),
  )

  no_results : (turns : List Turn) (s : Stream) → rounds turns ≡ 0 → Reads turns s []
  unfolding raw_bodies
  no_results turns s h =
      (sym h, tt, omega arith, λ at enough. omega (arith, h, enough), λ other. λ q. q)

  -- The goroutine never stops by itself: at every turn it has a result, and it returns exactly when
  -- it is cancelled.
  read_events-Reads :
      (turns : List Turn) (s : Stream)
      → (es : List (ReadEvent M)) × (read_events turns s ≡ some (es, is_cancelled turns))
        × Reads turns s es
  unfolding read_events rounds is_cancelled
  read_events-Reads [] s = ([], refl, no_results [] s refl)
  read_events-Reads (cancelled ∷ turns) s = (
    [],
    (let (r, q, v) = read-Sound decode s in rw q refl),
    no_results (cancelled ∷ turns) s refl,
  )
  read_events-Reads (handed ∷ turns) s =
      let (r, q, v) = read-Sound decode s in
      let (es, q', reads) = read_events-Reads turns r.rest in
      (
        classify r ∷ es,
        rw (q, q') refl,
        Reads-cons turns s r.rest (classify r) es v.same_ending (judge s r v) reads,
      )

  pub raw_bodies-read_events :
      (turns : List Turn) (s : Stream)
      → (es : List (ReadEvent M)) × (read_events turns s ≡ some (es, is_cancelled turns))
        × IsWithin (raw_bodies es) s.bytes
  raw_bodies-read_events turns s =
      let (es, q, reads) = read_events-Reads turns s in (es, q, reads.1)

  -- On a source that ends, when more results are handed over than there were bytes, the end of the
  -- stream is among them. The raw bodies of the messages stand in the input in this order, without
  -- overlaps. And at every turn there is a result to hand over until the goroutine is cancelled,
  -- which is when it returns.
  pub read_events-IsWithin :
      (turns : List Turn) (s : Stream)
      → s.ending ≡ at_eof
      → length s.bytes < rounds turns
      → (es : List (ReadEvent M)) × (read_events turns s ≡ some (es, is_cancelled turns))
        × (length es ≡ rounds turns)
        × HasEnd es
        × IsWithin (raw_bodies es) s.bytes
  read_events-IsWithin turns s at enough =
      let (es, q, (long, within, few, seen, never)) = read_events-Reads turns s in
      (es, q, long, seen at enough, within)

  -- On a source that ends with an error other than EOF, the end of the stream is never among the
  -- results, however many are handed over. At most as many of them are messages as there were
  -- bytes; the others are errors, and they keep coming until the goroutine is cancelled.
  pub read_events_broken :
      (turns : List Turn) (k : ℕ) (s : Stream)
      → s.ending ≡ broken k
      → (es : List (ReadEvent M)) × (read_events turns s ≡ some (es, is_cancelled turns))
        × (length es ≡ rounds turns)
        × (¬ HasEnd es)
        × (length (raw_bodies es) ≤ length s.bytes)
  read_events_broken turns k s h =
      let (es, q, (long, within, few, seen, never)) = read_events-Reads turns s in
      (es, q, long, never (λ at. ground (arith, h, at)), few)
