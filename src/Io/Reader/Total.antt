-- ===== src/Io/Reader/Total.antt =====
-- `Read` as a whole: it returns on every input, and a message that it accepts is what the input
-- begins with.
use lspwatch.Common.{
  ℕ, zero, suc, ◌+◌, ◌<◌, ◌≤◌, ◌≡◌, refl, ap, ◌∙◌, ◌≢◌, ◌↔◌, ◌⊎◌, inl, inr, Option, none, some,
  List, [], ◌∷◌, ◌++◌, leb, leb→le, Bytes, length, take, drop, length-append, length-drop,
  length-take, take-append-drop, append_assoc, append-nil, IsSuffix, IsSuffix-trans,
  length-IsSuffix, arith, Bool-cases,
}
use lspwatch.Common.Int.{ℤ, pos, negsuc}
use lspwatch.Common.Dict.{get}
use lspwatch.Io.Text.{Stream, at_eof, parse_int}
use lspwatch.Io.Reader.{
  Headers, Read, Outcome, ReadError, returned, panicked, out_of_fuel, eof, failure, complete,
  failed, starved, HeaderScan, content_length, return_message, read_payload, check_length,
  read_body, after_headers, read,
}
use lspwatch.Io.Reader.Headers.{Fate, read_headers-Fate}

shorter :
    (rest bytes : Bytes)
    → length rest ≤ length bytes
    → (bytes ≢ [] → length rest < length bytes)
    → (length rest < length bytes) ⊎ ((bytes ≡ []) × (rest ≡ []))
shorter [] [] le lt = inr (refl, refl)
shorter (r ∷ rest) [] le lt = absurd (omega (arith, le))
shorter rest (b ∷ bytes) le lt = inl (lt (λ q. cc))

module _ {M : Type 0} (decode : Bytes → Option M) where
  -- An accepted message: `head`, the header lines, and `payload`, as long as the first
  -- `Content-Length` says, are what the input begins with, and are all of the raw body.
  pub record Accepted (s : Stream) (r : Read M) : Type 0 where
    pub head : Bytes
    pub payload : Bytes
    pub text : Bytes
    pub texts : List Bytes
    pub clean : r.result.error ≡ none
    pub raw : r.result.raw_body ≡ some (head ++ payload)
    pub consumed : (head ++ payload) ++ r.rest.bytes ≡ s.bytes
    pub declared : get content_length r.result.headers ≡ some (text ∷ texts)
    pub measured : parse_int text ≡ some (pos (length payload))
    pub filled : 0 < length payload
    pub body : M
    pub decoded : decode payload ≡ some body
    pub delivered : r.message ≡ some body

  -- What a call on `s` that returned `r` says.
  pub record Sound (s : Stream) (r : Read M) : Type 0 where
    pub same_ending : r.rest.ending ≡ s.ending
    pub ended : (r.result.error ≡ some eof) ↔ ((s.ending ≡ at_eof) × (s.bytes ≡ []))
    pub suffix : IsSuffix r.rest.bytes s.bytes
    pub shrinks : (length r.rest.bytes < length s.bytes) ⊎ ((s.bytes ≡ []) × (r.rest.bytes ≡ []))
    pub judged : ((e : ReadError) × (r.result.error ≡ some e) × (r.message ≡ none)) ⊎ Accepted s r

  abbrev pub Contract : Stream → Outcome M → Type 0
  Contract s (returned r) = Sound s r
  Contract s panicked = ⊥
  Contract s out_of_fuel = ⊥

  -- The part of `Read` behind the header lines, where `raw` has been read of the input `s`.
  module _ (s : Stream) (hs : Headers) (raw : Bytes) (t : Stream) (kept : raw ++ t.bytes ≡ s.bytes)
      (some_raw : 0 < length raw) (ending : t.ending ≡ s.ending) where
    measure : length raw + length t.bytes ≡ length s.bytes
    measure = omega (arith, ap length kept, length-append raw t.bytes)

    nonempty : s.bytes ≢ []
    nonempty q = absurd (omega (arith, ap length q, measure))

    Contract-failure :
        (e : ReadError) (b : Option Bytes) (u : Stream)
        → e ≢ eof
        → u.ending ≡ s.ending
        → IsSuffix u.bytes t.bytes
        → Contract s (failure e b u)
    Contract-failure e b u h k l = record {
      same_ending = k;
      ended = (λ q. absurd (h (ground arith)), λ q. absurd (nonempty q.1));
      suffix = IsSuffix-trans u.bytes t.bytes s.bytes l (raw, kept);
      shrinks = inl (omega (arith, measure, length-IsSuffix u.bytes t.bytes l));
      judged = inl (e, refl, refl);
    }

    module _ (text : Bytes) (texts : List Bytes)
        (here : get content_length hs ≡ some (text ∷ texts)) where
      return_message-Contract :
          (n : ℕ)
          → parse_int text ≡ some (pos (suc n))
          → suc n ≤ length t.bytes
          → (o : Option M) → decode (take (suc n) t.bytes) ≡ o
          → Contract s (
              return_message hs
                (raw ++ take (suc n) t.bytes)
                (record t { bytes = drop (suc n) t.bytes })
                o)
      unfolding return_message
      return_message-Contract n sized fits none e =
          Contract-failure _ _ _ (λ q. cc) ending
            (take (suc n) t.bytes, take-append-drop (suc n) t.bytes)
      return_message-Contract n sized fits (some m) e = record {
        same_ending = ending;
        ended = (λ q. cc, λ q. absurd (nonempty q.1));
        suffix =
            IsSuffix-trans (drop (suc n) t.bytes) t.bytes s.bytes
              (take (suc n) t.bytes, take-append-drop (suc n) t.bytes) (raw, kept);
        shrinks = inl (omega (arith, measure, length-drop (suc n) t.bytes));
        judged = inr (record {
          head = raw;
          payload = take (suc n) t.bytes;
          text = text;
          texts = texts;
          clean = refl;
          raw = refl;
          consumed =
              append_assoc raw _ _ ∙ ap (λ l. raw ++ l) (take-append-drop (suc n) t.bytes) ∙ kept;
          declared = here;
          measured = sized ∙ ap (λ k. some (pos k)) (omega (arith, length-take (suc n) t.bytes));
          filled = omega (arith, length-take (suc n) t.bytes);
          body = m;
          decoded = e;
          delivered = refl;
        });
      }

      check_length-Contract :
          (o : Option ℤ) → parse_int text ≡ o → Contract s (check_length decode hs raw text t o)
      unfolding check_length read_payload
      check_length-Contract none e = Contract-failure _ _ _ (λ q. cc) ending ([], refl)
      check_length-Contract (some (negsuc n)) e = Contract-failure _ _ _ (λ q. cc) ending ([], refl)
      check_length-Contract (some (pos zero)) e = Contract-failure _ _ _ (λ q. cc) ending ([], refl)
      check_length-Contract (some (pos (suc n))) e =
          elim (Bool-cases (leb (suc n) (length t.bytes))) [
            | inl fits ↦ rw fits (
                return_message-Contract n e (leb→le (suc n) (length t.bytes) fits)
                  (decode (take (suc n) t.bytes)) refl)
            | inr short ↦
                rw short (Contract-failure _ _ _ (λ q. cc) ending (t.bytes, append-nil t.bytes))
          ]

    read_body-Contract :
        (o : Option (List Bytes))
        → get content_length hs ≡ o
        → o ≢ some []
        → Contract s (read_body decode hs raw t o)
    unfolding read_body
    read_body-Contract none e h = Contract-failure _ _ _ (λ q. cc) ending ([], refl)
    read_body-Contract (some []) e h = absurd (h refl)
    read_body-Contract (some (text ∷ texts)) e h =
        check_length-Contract text texts e (parse_int text) refl

  after_headers-Contract :
      (s : Stream) (scan : HeaderScan) → Fate s [] scan → Contract s (after_headers decode s scan)
  unfolding after_headers
  after_headers-Contract s starved f = f
  after_headers-Contract s (failed e rest) (ended, le, lt) = record {
    same_ending = refl;
    ended = (λ q. ended.0 (ground arith), λ q. ap some (ended.1 q));
    suffix = le;
    shrinks = shorter rest s.bytes (length-IsSuffix rest s.bytes le) lt;
    judged = inl (e, refl, refl);
  }
  after_headers-Contract s (complete hs raw rest) (kept, some_raw, values) =
      read_body-Contract s hs raw (record s { bytes = rest }) kept some_raw refl
        (get content_length hs) refl (values content_length)

  read-Contract : (s : Stream) → Contract s (read decode s)
  unfolding read
  read-Contract s =
      after_headers-Contract s _
        (read_headers-Fate (suc (length s.bytes)) s [] [] (omega arith) (λ k q. unfold get in cc))

  read_returns :
      {s : Stream} (o : Outcome M) → Contract s o → (r : Read M) × (o ≡ returned r) × Sound s r
  read_returns (returned r) c = (r, refl, c)
  read_returns panicked c = elim c [ ]
  read_returns out_of_fuel c = elim c [ ]

  -- `Read` returns on every input: it neither panics nor reads on for ever. The result reports EOF
  -- exactly when the source had ended and nothing was left; a call on an input that is not empty
  -- takes at least one byte, from the front, and leaves the rest. Either there is an error and no
  -- message, or the raw body is, byte for byte, what the input began with, its payload being as
  -- long as the first Content-Length header says and decoding to the message.
  pub read-Sound : (s : Stream) → (r : Read M) × (read decode s ≡ returned r) × Sound s r
  read-Sound s = read_returns (read decode s) (read-Contract s)
