-- ===== src/Io/Ids.antt =====
-- `StringOrInt` of internal/io/io.go: the identifier of a message, and `strconv.Itoa`.
pub mod Decimal
use lspwatch.Common.{
  ℕ, zero, suc, ◌+◌, ◌/◌, ◌%◌, Option, none, some, List, [], ◌∷◌, ltb, if◌then◌else◌, Bytes,
}
use lspwatch.Common.Int.{ℤ, pos, negsuc}

-- `strconv.Itoa`, from the last digit on; n + 1 is fuel enough for n.
unfoldable pub digits_onto : ℕ → ℕ → Bytes → Bytes
digits_onto zero n acc = acc
digits_onto (suc fuel) n acc =
    let rest = digits_onto fuel (n / 10) ((n % 10 + b'0') ∷ acc) in
    if ltb n 10 then (n + b'0') ∷ acc else rest

unfoldable pub decimal : ℕ → Bytes
unfolding digits_onto
decimal n = digits_onto (suc n) n []

unfoldable pub itoa : ℤ → Bytes
unfolding decimal
itoa (pos n) = decimal n
itoa (negsuc n) = b'-' ∷ decimal (suc n)

-- `StringOrInt.UnmarshalJSON`; `json.Unmarshal` into an `int` and into a `string` are parameters,
-- and an error is `none`.
module _ (unmarshal_int : Bytes → Option ℤ) (unmarshal_string : Bytes → Option Bytes) where
  unfoldable pub unmarshal_json : Bytes → Option Bytes
  unfolding itoa
  unmarshal_json text = elim (unmarshal_int text) [
    | some i ↦ some (itoa i)
    | none ↦ elim (unmarshal_string text) [ some s ↦ some s | none ↦ none ]
  ]
