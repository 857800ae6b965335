-- ===== src/Io/Ids/Decimal.antt =====
-- The decimal digits of a number have its value, so that different identifiers stay apart.
use lspwatch.Common.{
  ◌↔◌, ℕ, zero, suc, ◌+◌, ◌*◌, ◌-◌, ◌/◌, ◌%◌, ◌<◌, ◌≡◌, sym, ap, ◌∙◌, ◌≢◌, true, Option, none, some,
  [], ◌∷◌, ltb, Bytes, All, arith, Bool-cases, inl, inr,
}
use mathlib.Core.Option.{some_inj}
use lspwatch.Io.Reader.Framed.{IsDecimal}
use lspwatch.Common.Int.{ℤ, pos, negsuc}
use lspwatch.Io.Text.{is_digit, digits_value}
use lspwatch.Io.Ids.{digits_onto, decimal, itoa, unmarshal_json}

is_digit-add : (d : ℕ) → d < 10 → is_digit (d + b'0') ≡ true
is_digit-add d h = ground arith

add-sub_zero : (d : ℕ) → d + b'0' - b'0' ≡ d
add-sub_zero d = omega arith

-- One more digit, read and written.
digits_value_digit :
    (k d : ℕ) (acc : Bytes)
    → d < 10
    → digits_value k ((d + b'0') ∷ acc) ≡ digits_value (k * 10 + d) acc
unfolding digits_value
digits_value_digit k d acc h = rw (is_digit-add d h, add-sub_zero d)

digits_onto_value :
    (fuel n : ℕ) (acc : Bytes)
    → n < fuel
    → digits_value 0 (digits_onto fuel n acc) ≡ digits_value n acc
unfolding digits_onto
digits_onto_value zero n acc h = elim h [ ]
digits_onto_value (suc fuel) n acc h = elim (Bool-cases (ltb n 10)) [
  | inl small ↦
      rw small
        (digits_value_digit 0 n acc (ground arith) ∙ ap (λ k. digits_value k acc) (omega arith))
  | inr large ↦ rw large (
      digits_onto_value fuel (n / 10) _ (ground arith)
      ∙ digits_value_digit (n / 10) (n % 10) acc (omega arith)
      ∙ ap (λ k. digits_value k acc) (omega arith))
]

-- A run of digits, at least one.
abbrev AreDigits : Bytes → Type 0
AreDigits [] = ⊥
AreDigits (c ∷ cs) = All (λ c. is_digit c ≡ true) (c ∷ cs)

digits_onto-AreDigits :
    (fuel n : ℕ) (acc : Bytes)
    → n < fuel
    → All (λ c. is_digit c ≡ true) acc
    → AreDigits (digits_onto fuel n acc)
unfolding digits_onto
digits_onto-AreDigits zero n acc h a = elim h [ ]
digits_onto-AreDigits (suc fuel) n acc h a = elim (Bool-cases (ltb n 10)) [
  | inl small ↦ rw small (is_digit-add n (ground arith), a)
  | inr large ↦ rw large (
      digits_onto-AreDigits fuel (n / 10) _ (ground arith) (is_digit-add (n % 10) (omega arith), a))
]

decimal_value : (n : ℕ) → digits_value 0 (decimal n) ≡ some n
unfolding decimal digits_value
decimal_value n = digits_onto_value (suc n) n [] (omega arith)

decimal-AreDigits : (n : ℕ) → AreDigits (decimal n)
unfolding decimal
decimal-AreDigits n = digits_onto-AreDigits (suc n) n [] (omega arith) tt

AreDigits-IsDecimal :
    (ds : Bytes) (n : ℕ) → AreDigits ds → digits_value 0 ds ≡ some n → IsDecimal ds n
AreDigits-IsDecimal [] n a v = a
AreDigits-IsDecimal (c ∷ cs) n a v = (a, v)

-- What `Itoa` writes of a number is its decimal numeral, as the header of a message wants it.
pub decimal-IsDecimal : (n : ℕ) → IsDecimal (decimal n) n
decimal-IsDecimal n = AreDigits-IsDecimal (decimal n) n (decimal-AreDigits n) (decimal_value n)

decimal-injective : (n m : ℕ) → decimal n ≡ decimal m → n ≡ m
decimal-injective n m h =
    some_inj.0 (sym (decimal_value n) ∙ ap (digits_value 0) h ∙ decimal_value m)

AreDigits-ne-minus : (ds : Bytes) → AreDigits ds → (cs : Bytes) → ds ≢ b'-' ∷ cs
AreDigits-ne-minus [] a cs h = a
AreDigits-ne-minus (d ∷ ds) a cs h = ground arith

itoa-injective : (i j : ℤ) → itoa i ≡ itoa j → i ≡ j
unfolding itoa
itoa-injective (pos n) (pos m) h = ap pos (decimal-injective n m h)
itoa-injective (pos n) (negsuc m) h = absurd (AreDigits-ne-minus _ (decimal-AreDigits n) _ h)
itoa-injective (negsuc n) (pos m) h = absurd (AreDigits-ne-minus _ (decimal-AreDigits m) _ (sym h))
itoa-injective (negsuc n) (negsuc m) h =
    ap negsuc (omega (arith, decimal-injective (suc n) (suc m) (ground arith)))

-- An identifier as JSON has it.
pub data JsonId : Type 0 where
  number : ℤ → JsonId
  text : Bytes → JsonId

-- Two identifiers of which the program keeps the same text.
abbrev pub Confused : JsonId → JsonId → Type 0
Confused (number i) (number j) = i ≡ j
Confused (number i) (text t) = itoa i ≡ t
Confused (text s) (number j) = s ≡ itoa j
Confused (text s) (text t) = s ≡ t

module _ (unmarshal_int : Bytes → Option ℤ) (unmarshal_string : Bytes → Option Bytes) where
  -- What a piece of JSON is, by the two decoders.
  abbrev pub IsJson : Bytes → JsonId → Type 0
  IsJson a (number i) = unmarshal_int a ≡ some i
  IsJson a (text t) = (unmarshal_int a ≡ none) × (unmarshal_string a ≡ some t)

  read_id :
      (a : Bytes) (p : JsonId)
      → IsJson a p
      → unmarshal_json unmarshal_int unmarshal_string a
        ≡ elim p [ number i ↦ some (itoa i) | text t ↦ some t ]
  unfolding unmarshal_json
  read_id a (number i) h = ground (arith, h)
  read_id a (text t) h = ground (arith, h)

  -- Of two identifiers, each an integer or a string, the same text is kept exactly if they are
  -- equal or one is a string that spells the other, an integer, in decimal. So integers are told
  -- apart, and so are strings, but the integer 1 is not told from the string "1".
  pub unmarshal_json-Confused :
      (a b : Bytes) (p q : JsonId)
      → IsJson a p
      → IsJson b q
      → (unmarshal_json unmarshal_int unmarshal_string a
          ≡ unmarshal_json unmarshal_int unmarshal_string b)
        ↔ Confused p q
  unmarshal_json-Confused a b (number i) (number j) h k =
      rw (read_id a (number i) h, read_id b (number j) k)
        (λ e. itoa-injective i j (ground arith), λ e. ap (λ n. some (itoa n)) e)
  unmarshal_json-Confused a b (number i) (text t) h k =
      rw (read_id a (number i) h, read_id b (text t) k) (λ e. ground arith, λ e. ap some e)
  unmarshal_json-Confused a b (text s) (number j) h k =
      rw (read_id a (text s) h, read_id b (number j) k) (λ e. ground arith, λ e. ap some e)
  unmarshal_json-Confused a b (text s) (text t) h k =
      rw (read_id a (text s) h, read_id b (text t) k) (λ e. ground arith, λ e. ap some e)
