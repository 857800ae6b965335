-- ===== src/Io/Reader/Framed.antt =====
-- `Read` gets back a message that was framed as the protocol says, whatever follows it.
use lspwatch.Common.{
  ℕ, suc, ◌<◌, ◌^◌, ◌≡◌, refl, sym, ap, ◌∙◌, ◌≢◌, true, Option, none, some, [], ◌∷◌, ◌++◌, reverse,
  reverse-append, append_assoc, if◌then◌else◌, leb, le→leb, Bytes, codes, same, length,
  length-append, take, drop, take-length-append, drop-length-append, All, All-append, All-last,
  All-map, unsnoc, subst, arith,
}
use lspwatch.Common.Int.{pos}
use lspwatch.Io.Text.{
  Ending, Stream, Piece, read_string, is_digit, digits_value, parse_int, trim_space,
}
use lspwatch.Io.Text.Lines.{read_string_line}
use lspwatch.Io.Text.Trim.{IsVisible, IsTrimmed, trim_space_before, trim_space_line}
use lspwatch.Io.Reader.{
  returned, header, content_length, parse_header_line, add_header, Headers, HeaderScan, failed,
  line_error, after_line, read_headers, complete, read_body, after_headers, check_length,
  read_payload, return_message, read,
}

-- A message of the protocol, its length in the decimal digits `digits`.
abbrev pub frame : Bytes → Bytes → Bytes
frame digits payload =
    codes "Content-Length: " ++ (digits ++ b'\r' ∷ b'\n' ∷ b'\r' ∷ b'\n' ∷ payload)

-- Decimal digits, at least one, that stand for `n`.
abbrev pub IsDecimal : Bytes → ℕ → Type 0
IsDecimal [] n = ⊥
IsDecimal (c ∷ cs) n = All (λ c. is_digit c ≡ true) (c ∷ cs) × (digits_value 0 (c ∷ cs) ≡ some n)

digit-IsVisible : (c : ℕ) → is_digit c ≡ true → IsVisible c
digit-IsVisible c h = ground arith

digit-ne-newline : (c : ℕ) → is_digit c ≡ true → c ≢ b'\n'
digit-ne-newline c h = ground arith

abbrev label : Bytes
label = codes "Content-Length: "

-- Digits are trimmed text, also behind another trimmed text.
module _ (c : ℕ) (cs : Bytes) (all_digits : All (λ c. is_digit c ≡ true) (c ∷ cs)) where
  digits_end : (before : Bytes) × (last : ℕ) × (reverse (c ∷ cs) ≡ last ∷ before) × IsVisible last
  digits_end =
      let (init, last, e) = unsnoc c cs in
      (
        reverse init,
        last,
        ap reverse e ∙ reverse-append init (last ∷ []),
        digit-IsVisible last (
            All-last (λ c. is_digit c ≡ true) init last
              (subst (All (λ c. is_digit c ≡ true)) e all_digits)),
      )

  digits-IsTrimmed : IsTrimmed (c ∷ cs)
  digits-IsTrimmed =
      let (before, last, e, v) = digits_end in
      record {
        first = c;
        after = cs;
        last = last;
        before = before;
        from_front = refl;
        from_back = e;
        first_visible = digit-IsVisible c all_digits.0;
        last_visible = v;
      }

  line-IsTrimmed : IsTrimmed (label ++ c ∷ cs)
  line-IsTrimmed =
      let (before, last, e, v) = digits_end in
      record {
        first = b'C';
        after = codes "ontent-Length: " ++ c ∷ cs;
        last = last;
        before = before ++ reverse label;
        from_front = refl;
        from_back = reverse-append label (c ∷ cs) ∙ ap (λ l. l ++ reverse label) e;
        first_visible = omega arith;
        last_visible = v;
      }

  parse_line : parse_header_line (label ++ c ∷ cs) ≡ header content_length (c ∷ cs)
  unfolding parse_header_line
  parse_line = ap (header content_length) (trim_space_before digits-IsTrimmed)

  line-ne-newline : All (λ c. c ≢ b'\n') (label ++ c ∷ cs)
  line-ne-newline =
      All-append (λ c. c ≢ b'\n') (c ∷ cs) label (omega arith)
        (All-map _ _ (c ∷ cs) digit-ne-newline all_digits)

-- One round of the loop, on a line that holds a trimmed text.
module _ (text rest raw : Bytes) (hs : Headers) (ending : Ending) where
  abbrev line_of : Bytes
  line_of = text ++ b'\r' ∷ b'\n' ∷ []

  -- The body of the loop, as a function of the line.
  abbrev round : ℕ → Piece → HeaderScan
  round fuel p =
      if p.found
      then after_line p (raw ++ p.line) hs
          (λ hs'.
            read_headers fuel (record { bytes = p.rest; ending = ending }) (raw ++ p.line) hs')
          (parse_header_line (trim_space p.line))
      else failed (line_error ending (raw ++ p.line)) p.rest

  split_line :
      All (λ c. c ≢ b'\n') text
      → read_string b'\n' (text ++ b'\r' ∷ b'\n' ∷ rest)
        ≡ record { line = line_of; rest = rest; found = true }
  split_line plain =
      ap (read_string b'\n') (sym (append_assoc text (b'\r' ∷ []) (b'\n' ∷ rest)))
      ∙ read_string_line b'\n' (text ++ b'\r' ∷ []) rest
          (All-append (λ c. c ≢ b'\n') (b'\r' ∷ []) text plain (omega arith))
      ∙ ap (λ l. record { line = l; rest = rest; found = true })
          (append_assoc text (b'\r' ∷ []) (b'\n' ∷ []))

  read_headers-line :
      (fuel : ℕ)
      → trim_space line_of ≡ text
      → All (λ c. c ≢ b'\n') text
      → read_headers
          (suc fuel)
          (record { bytes = text ++ b'\r' ∷ b'\n' ∷ rest; ending = ending })
          raw
          hs
        ≡ after_line
            (record { line = line_of; rest = rest; found = true })
            (raw ++ line_of)
            hs
            (λ hs'.
              read_headers fuel (record { bytes = rest; ending = ending }) (raw ++ line_of) hs')
            (parse_header_line text)
  read_headers-line fuel trimmed plain =
      unfold read_headers in
      ap (round fuel) (split_line plain)
      ∙ ap
          (λ t.
            after_line (record { line = line_of; rest = rest; found = true }) (raw ++ line_of) hs
              (λ hs'.
                read_headers fuel (record { bytes = rest; ending = ending }) (raw ++ line_of) hs')
              (parse_header_line t))
          trimmed

-- The two lines before the payload.
module _ (c : ℕ) (cs : Bytes) (all_digits : All (λ c. is_digit c ≡ true) (c ∷ cs)) (rest : Bytes)
    (ending : Ending) where
  read_headers-frame :
      (fuel : ℕ)
      → read_headers
          (suc (suc fuel))
          (record {
            bytes = label ++ ((c ∷ cs) ++ b'\r' ∷ b'\n' ∷ b'\r' ∷ b'\n' ∷ rest);
            ending = ending;
          })
          []
          []
        ≡ complete
            ((content_length, (c ∷ cs) ∷ []) ∷ [])
            ((label ++ ((c ∷ cs) ++ b'\r' ∷ b'\n' ∷ [])) ++ b'\r' ∷ b'\n' ∷ [])
            rest
  unfolding parse_header_line after_line add_header
  read_headers-frame fuel =
      read_headers-line (label ++ c ∷ cs) (b'\r' ∷ b'\n' ∷ rest) [] [] ending (suc fuel)
        (trim_space_line (line-IsTrimmed c cs all_digits)) (line-ne-newline c cs all_digits)
      ∙ (rw (trim_space_before (digits-IsTrimmed c cs all_digits)))
      ∙ read_headers-line [] rest (label ++ ((c ∷ cs) ++ b'\r' ∷ b'\n' ∷ []))
          ((content_length, (c ∷ cs) ∷ []) ∷ []) ending fuel (unfold trim_space in refl) tt

parse_int-digits :
    (c : ℕ) (cs : Bytes) (n : ℕ)
    → is_digit c ≡ true
    → digits_value 0 (c ∷ cs) ≡ some n
    → n < 2 ^ 31
    → parse_int (c ∷ cs) ≡ some (pos n)
unfolding parse_int
parse_int-digits c cs n d e h = ground arith

module _ {M : Type 0} (decode : Bytes → Option M) where
  payload-accepted :
      (c : ℕ) (cs : Bytes) (raw payload rest : Bytes) (s : Stream) (m : M)
      → parse_int (c ∷ cs) ≡ some (pos (length payload))
      → payload ≢ []
      → decode payload ≡ some m
      → after_headers decode s
          (complete ((content_length, (c ∷ cs) ∷ []) ∷ []) raw (payload ++ rest))
        ≡ returned (record {
          result = record {
            headers = (content_length, (c ∷ cs) ∷ []) ∷ [];
            raw_body = some (raw ++ payload);
            error = none;
          };
          message = some m;
          rest = record { bytes = rest; ending = s.ending };
        })
  payload-accepted c cs raw [] rest s m sized filled good = absurd (filled refl)
  payload-accepted c cs raw (b ∷ bs) rest s m sized filled good =
      unfold after_headers read_body check_length read_payload return_message same in
      rw (sized, fits, taken, left, good)
    where
      fits : leb (length (b ∷ bs)) (length ((b ∷ bs) ++ rest)) ≡ true
      fits = le→leb _ _ (omega (arith, length-append (b ∷ bs) rest))

      taken : take (length (b ∷ bs)) ((b ∷ bs) ++ rest) ≡ b ∷ bs
      taken = take-length-append (b ∷ bs) rest

      left : drop (length (b ∷ bs)) ((b ∷ bs) ++ rest) ≡ rest
      left = drop-length-append (b ∷ bs) rest

  -- A message in the protocol's framing, its length n in decimal (0 < n < 2³¹), is read whole: the
  -- raw body is the frame, the message is the decoded payload, and what follows the frame is left.
  pub read-frame :
      (digits payload rest : Bytes) (ending : Ending) {m : M}
      → IsDecimal digits (length payload)
      → payload ≢ []
      → length payload < 2 ^ 31
      → decode payload ≡ some m
      → read decode (record { bytes = frame digits payload ++ rest; ending = ending })
        ≡ returned (record {
          result = record {
            headers = (content_length, digits ∷ []) ∷ [];
            raw_body = some (frame digits payload);
            error = none;
          };
          message = some m;
          rest = record { bytes = rest; ending = ending };
        })
  unfolding read
  read-frame [] payload rest ending d filled small good = elim d [ ]
  read-frame (c ∷ cs) payload rest ending {m} (all_digits, value) filled small good =
      let tail = payload ++ rest in
      let bytes = label ++ ((c ∷ cs) ++ b'\r' ∷ b'\n' ∷ b'\r' ∷ b'\n' ∷ tail) in
      let s : Stream = record { bytes = bytes; ending = ending } in
      ap (λ l. read decode (record { bytes = label ++ l; ending = ending }))
        (append_assoc (c ∷ cs) (b'\r' ∷ b'\n' ∷ b'\r' ∷ b'\n' ∷ payload) rest)
      ∙ ap (after_headers decode s)
          (read_headers-frame c cs all_digits tail ending (suc (length (drop 2 bytes))))
      ∙ payload-accepted c cs _ payload rest s m
          (parse_int-digits c cs (length payload) all_digits.0 value small) filled good
      ∙ (simp append_assoc)
