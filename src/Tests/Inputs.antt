-- ===== src/Tests/Inputs.antt =====
-- Instances for internal/io/io.go and internal/config/config.go.
use lspwatch.Common.{
  ◌≡◌, ◌↔◌, refl, true, Option, none, some, [], ◌∷◌, ◌++◌, if◌then◌else◌, same, Bytes, codes, arith,
}
use lspwatch.Common.Int.{ℤ, pos}
use lspwatch.Config.{Services, get_default_config}
use lspwatch.Io.Text.{Stream, at_eof}
use lspwatch.Io.Reader.{Read, returned, read, content_length}
use lspwatch.Io.Reader.Total.{Sound, read-Sound}
use lspwatch.Io.Reader.Framed.{frame, read-frame}
use lspwatch.Io.Ids.{decimal, digits_onto, unmarshal_json}
use lspwatch.Io.Ids.Decimal.{decimal-IsDecimal, number, text, Confused, unmarshal_json-Confused}

-- A decoder that takes every payload as it is.
abbrev whole : Bytes → Option Bytes
whole payload = some payload

abbrev two_messages : Stream
two_messages = record {
  bytes = frame (codes "2") (codes "{}") ++ codes "Content-Length: 9";
  ending = at_eof;
}

read-Sound_example :
    (r : Read Bytes) × (read whole two_messages ≡ returned r) × Sound whole two_messages r
read-Sound_example = read-Sound whole two_messages

read-frame_example :
    read whole (record { bytes = frame (codes "2") (codes "{}") ++ codes "Con"; ending = at_eof })
    ≡ returned (record {
      result = record {
        headers = (content_length, codes "2" ∷ []) ∷ [];
        raw_body = some (frame (codes "2") (codes "{}"));
        error = none;
      };
      message = some (codes "{}");
      rest = record { bytes = codes "Con"; ending = at_eof };
    })
read-frame_example =
    read-frame whole (codes "2") (codes "{}") (codes "Con") at_eof
      (unfold decimal digits_onto in decimal-IsDecimal 2) (λ e. cc) (omega arith) refl

-- Of JSON, `1` is the only integer here and `"1"` the only string.
abbrev some_int : Bytes → Option ℤ
unfolding same
some_int a = if same a (codes "1") then some (pos 1) else none

abbrev some_string : Bytes → Option Bytes
unfolding same
some_string a = if same a (b'"' ∷ b'1' ∷ b'"' ∷ []) then some (codes "1") else none

unmarshal_json-Confused_example :
    (unmarshal_json some_int some_string (codes "1")
      ≡ unmarshal_json some_int some_string (b'"' ∷ b'1' ∷ b'"' ∷ []))
    ↔ Confused (number (pos 1)) (text (codes "1"))
unmarshal_json-Confused_example =
    unmarshal_json-Confused some_int some_string (codes "1") (b'"' ∷ b'1' ∷ b'"' ∷ [])
      (number (pos 1)) (text (codes "1")) (unfold same in refl) (unfold same in (refl, refl))

-- A file system with one file, whose text decodes to the default configuration.
abbrev one_file : Services (Unit {0})
one_file = record {
  read_file = λ path. some (codes "exporter: opentelemetry");
  unmarshal = λ bytes. some get_default_config;
  validate = λ c. true;
  load_env = λ path env. some env;
  expand_env = λ env t. t;
}
