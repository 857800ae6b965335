-- ===== src/Io/Reader.antt =====
-- `LSPReader.Read` of internal/io/io.go: one message framed by header lines.
pub mod Headers
pub mod Total
pub mod Framed
use lspwatch.Common.{
  ℕ, zero, suc, ◌+◌, ◌≤◌, Bool, true, false, Option, none, some, List, [], ◌∷◌, ◌++◌, leb,
  if◌then◌else◌, Bytes, codes, same, length, take, drop,
}
use lspwatch.Common.Dict.{Dict, get, put}
use lspwatch.Common.Int.{ℤ, pos, negsuc}
use lspwatch.Io.Text.{
  Ending, at_eof, broken, Stream, Piece, read_string, trim_space, index_rune, parse_int,
}

pub data ReadError : Type 0 where
  eof : ReadError
  header_line : Ending → ReadError  -- `at_eof` stands for io.ErrUnexpectedEOF
  invalid_header_line : Bytes → ReadError
  missing_content_length : ReadError
  bad_content_length : Bytes → ReadError
  nonpositive_content_length : ℤ → ReadError
  short_payload : Ending → ReadError
  bad_payload : ReadError

-- `map[string][]string`
abbrev pub Headers : Type 0
Headers = Dict (List Bytes)

-- `LSPReadResult`; `nil` is `none`, and a `nil` map is an empty one.
pub record LspReadResult : Type 0 where
  pub headers : Headers
  pub raw_body : Option Bytes
  pub error : Option ReadError

-- What a call of `Read` leaves: its result, the decoded body and the rest of the input.
pub record Read (M : Type 0) : Type 0 where
  pub result : LspReadResult
  pub message : Option M
  pub rest : Stream

pub data Outcome (M : Type 0) : Type 0 where
  returned : Read M → Outcome M
  panicked : Outcome M
  out_of_fuel : Outcome M

-- What one header line says.
pub data HeaderLine : Type 0 where
  blank : HeaderLine
  malformed : HeaderLine
  header : (name value : Bytes) → HeaderLine

unfoldable pub parse_header_line : Bytes → HeaderLine
unfolding same index_rune trim_space
parse_header_line line = if same line [] then blank else elim (index_rune line b':') [
  | none ↦ malformed
  | some i ↦ header (take i line) (trim_space (drop (i + 1) line))
]

-- `headers[name] = append(headers[name], value)`
unfoldable pub add_header : Bytes → Bytes → Headers → Headers
unfolding get put
add_header name value hs = elim (get name hs) [
  | none ↦ put name (value ∷ []) hs
  | some values ↦ put name (values ++ value ∷ []) hs
]

-- The error for a line that the input ends in; `raw` is all that was read of the message.
unfoldable pub line_error : Ending → Bytes → ReadError
line_error at_eof [] = eof
line_error at_eof (c ∷ cs) = header_line at_eof
line_error (broken e) raw = header_line (broken e)

pub data HeaderScan : Type 0 where
  complete : (headers : Headers) (raw rest : Bytes) → HeaderScan
  failed : (error : ReadError) (rest : Bytes) → HeaderScan
  starved : HeaderScan

-- What follows a line that was read: the end of the headers, an error, or the next line.
unfoldable pub after_line :
    Piece → Bytes → Headers → (Headers → HeaderScan) → HeaderLine → HeaderScan
unfolding add_header trim_space
after_line piece raw hs next blank = complete hs raw piece.rest
after_line piece raw hs next malformed =
    failed (invalid_header_line (trim_space piece.line)) piece.rest
after_line piece raw hs next (header name value) = next (add_header name value hs)

-- The loop over the header lines. One round for each line: the bytes of the input and one more are
-- enough fuel.
unfoldable pub read_headers : ℕ → Stream → Bytes → Headers → HeaderScan
unfolding read_string line_error trim_space parse_header_line after_line
read_headers zero s raw hs = starved
read_headers (suc fuel) s raw hs =
    let piece = read_string b'\n' s.bytes in
    let raw' = raw ++ piece.line in
    let next = λ (hs' : Headers). read_headers fuel (record s { bytes = piece.rest }) raw' hs' in
    if piece.found
    then after_line piece raw' hs next (parse_header_line (trim_space piece.line))
    else failed (line_error s.ending raw') piece.rest

abbrev pub content_length : Bytes
content_length = codes "Content-Length"

abbrev pub failure : {M : Type 0} → ReadError → Option Bytes → Stream → Outcome M
failure e raw rest = returned (record {
  result = record { headers = []; raw_body = raw; error = some e };
  message = none;
  rest = rest;
})

module _ {M : Type 0} where
  -- the return behind `json.Unmarshal(jsonData, jsonBody)`; `raw` ends in the payload
  unfoldable pub return_message : Headers → Bytes → Stream → Option M → Outcome M
  return_message hs raw rest none = failure bad_payload (some raw) rest
  return_message hs raw rest (some m) = returned (record {
    result = record { headers = hs; raw_body = some raw; error = none };
    message = some m;
    rest = rest;
  })

module _ {M : Type 0} (decode : Bytes → Option M) where
  -- `io.ReadFull` into a buffer of `n` bytes
  unfoldable pub read_payload : Headers → Bytes → ℕ → Stream → Outcome M
  unfolding return_message
  read_payload hs raw n s =
      if leb n (length s.bytes)
      then return_message hs (raw ++ take n s.bytes) (record s { bytes = drop n s.bytes })
          (decode (take n s.bytes))
      else failure (short_payload s.ending) (some raw) (record s { bytes = [] })

  -- the tests on the number that `ParseInt` made of `text`
  unfoldable pub check_length : Headers → Bytes → Bytes → Stream → Option ℤ → Outcome M
  unfolding read_payload
  check_length hs raw text s none = failure (bad_content_length text) (some raw) s
  check_length hs raw text s (some (negsuc n)) =
      failure (nonpositive_content_length (negsuc n)) (some raw) s
  check_length hs raw text s (some (pos zero)) =
      failure (nonpositive_content_length (pos 0)) (some raw) s
  check_length hs raw text s (some (pos (suc n))) = read_payload hs raw (suc n) s

  -- the use of the first `Content-Length` header; `contentLengths[0]` of no values would panic
  unfoldable pub read_body : Headers → Bytes → Stream → Option (List Bytes) → Outcome M
  unfolding check_length parse_int
  read_body hs raw s none = failure missing_content_length (some raw) s
  read_body hs raw s (some []) = panicked
  read_body hs raw s (some (text ∷ texts)) = check_length hs raw text s (parse_int text)

  unfoldable pub after_headers : Stream → HeaderScan → Outcome M
  unfolding read_body get
  after_headers s starved = out_of_fuel
  after_headers s (failed e rest) = failure e none (record s { bytes = rest })
  after_headers s (complete hs raw rest) =
      read_body hs raw (record s { bytes = rest }) (get content_length hs)

  unfoldable pub read : Stream → Outcome M
  unfolding read_headers after_headers
  read s = after_headers s (read_headers (suc (length s.bytes)) s [] [])
