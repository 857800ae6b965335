-- ===== src/Io/Reader/Headers.antt =====
-- The loop over the header lines: it ends, it keeps every byte, and it makes progress.
use lspwatch.Common.{
  ◌↔◌, ℕ, zero, suc, ◌<◌, ◌≡◌, ap, ◌∙◌, ◌≢◌, inl, inr, true, false, some, List, [], ◌∷◌, ◌++◌,
  Bytes, length, length-append, append_assoc, append-nil, IsSuffix, IsSuffix-trans, length-IsSuffix,
  arith, Bool-cases, Option-cases, length_pos,
}
use lspwatch.Common.Dict.{get, get-put}
use lspwatch.Io.Text.{Stream, at_eof, Piece, read_string, trim_space}
use lspwatch.Io.Text.Lines.{
  read_string-append, length-read_string, read_string_found, read_string_missing,
}
use lspwatch.Io.Reader.{
  Headers, HeaderLine, blank, malformed, header, parse_header_line, add_header, line_error,
  HeaderScan, eof, after_line, complete, failed, starved, read_headers,
}

append-ne-nil : (xs : List Bytes) (x : Bytes) → xs ++ x ∷ [] ≢ []
append-ne-nil [] x h = cc
append-ne-nil (y ∷ ys) x h = cc

-- Every name has a value: `contentLengths[0]` is in range.
abbrev pub HasValues : Headers → Type 0
HasValues hs = (k : Bytes) → get k hs ≢ some []

add_header-HasValues :
    (name value : Bytes) (hs : Headers) → HasValues hs → HasValues (add_header name value hs)
unfolding add_header
add_header-HasValues name value hs h k q = elim (Option-cases (get name hs)) [
  | inl fresh ↦ ground (arith, fresh, get-put name k (value ∷ []) hs, h k)
  | inr (values, old) ↦
      ground (arith, old, get-put name k (values ++ value ∷ []) hs, h k, append-ne-nil values value)
]

line_error_eof :
    (s : Stream) (raw : Bytes)
    → (line_error s.ending raw ≡ eof) ↔ ((s.ending ≡ at_eof) × (raw ≡ []))
unfolding line_error
line_error_eof s [] = ground arith
line_error_eof s (c ∷ cs) = ground arith

-- What the loop may come to, with `raw` read before and `s` still to read.
abbrev pub Fate : Stream → Bytes → HeaderScan → Type 0
Fate s raw (complete hs raw' rest) =
    (raw' ++ rest ≡ raw ++ s.bytes) × (length raw < length raw') × HasValues hs
Fate s raw (failed e rest) =
    ((e ≡ eof) ↔ ((s.ending ≡ at_eof) × (raw ++ s.bytes ≡ [])))
    × IsSuffix rest s.bytes
    × (s.bytes ≢ [] → length rest < length s.bytes)
Fate s raw starved = ⊥

module _ (s : Stream) (raw : Bytes) where
  abbrev piece : Piece
  piece = read_string b'\n' s.bytes

  rejoin : (raw ++ piece.line) ++ piece.rest ≡ raw ++ s.bytes
  rejoin =
      append_assoc raw piece.line piece.rest ∙ ap (λ l. raw ++ l) (read_string-append b'\n' s.bytes)

  consumed : piece.found ≡ true → length piece.rest < length s.bytes
  consumed found =
      omega (arith, length-read_string b'\n' s.bytes, read_string_found b'\n' s.bytes found)

  -- The loop after one more line, seen from before that line.
  Fate-line :
      (scan : HeaderScan)
      → piece.found ≡ true
      → Fate (record s { bytes = piece.rest }) (raw ++ piece.line) scan
      → Fate s raw scan
  Fate-line (complete hs raw' rest) found (kept, more, values) =
      (kept ∙ rejoin, omega (arith, length-append raw piece.line), values)
  Fate-line (failed e rest) found (ended, le, lt) = (
    ground (arith, ended, rejoin),
    IsSuffix-trans rest piece.rest s.bytes le (piece.line, read_string-append b'\n' s.bytes),
    λ _. omega (arith, consumed found, length-IsSuffix rest piece.rest le),
  )
  Fate-line starved found f = f

  Fate-after_line :
      (hs : Headers) (next : Headers → HeaderScan) (line : HeaderLine)
      → HasValues hs
      → piece.found ≡ true
      → ((hs' : Headers)
          → HasValues hs'
          → Fate (record s { bytes = piece.rest }) (raw ++ piece.line) (next hs'))
      → Fate s raw (after_line piece (raw ++ piece.line) hs next line)
  unfolding after_line
  Fate-after_line hs next blank values found later = (
    rejoin,
    omega (arith, length-append raw piece.line, read_string_found b'\n' s.bytes found),
    values,
  )
  Fate-after_line hs next malformed values found later = (
    (
      λ e. cc,
      λ h. absurd (omega (arith, ap length h.1, length-append raw s.bytes, consumed found)),
    ),
    (piece.line, read_string-append b'\n' s.bytes),
    λ _. consumed found,
  )
  Fate-after_line hs next (header name value) values found later =
      Fate-line (next (add_header name value hs)) found
        (later (add_header name value hs) (add_header-HasValues name value hs values))

  Fate-unfinished :
      piece.found ≡ false → Fate s raw (failed (line_error s.ending (raw ++ piece.line)) piece.rest)
  Fate-unfinished missing =
      let (nothing, all) = read_string_missing b'\n' s.bytes missing in
      rw (all, nothing)
        (line_error_eof s (raw ++ s.bytes), (s.bytes, append-nil s.bytes), length_pos s.bytes)

-- The loop ends within its fuel, and keeps what `Fate` says.
pub read_headers-Fate :
    (fuel : ℕ) (s : Stream) (raw : Bytes) (hs : Headers)
    → length s.bytes < fuel
    → HasValues hs
    → Fate s raw (read_headers fuel s raw hs)
unfolding read_headers
read_headers-Fate zero s raw hs enough values = absurd (omega arith)
read_headers-Fate (suc fuel) s raw hs enough values = elim (Bool-cases (piece s raw).found) [
  | inl found ↦
      let later = piece s raw in
      let raw' = raw ++ later.line in
      let next = λ (hs' : Headers). read_headers fuel (record s { bytes = later.rest }) raw' hs' in
      rw found (
        Fate-after_line s raw hs next (parse_header_line (trim_space later.line)) values found
          λ hs' v.
            read_headers-Fate fuel (record s { bytes = later.rest }) raw' hs'
              (omega (arith, consumed s raw found)) v)
  | inr missing ↦ rw missing (Fate-unfinished s raw missing)
]
