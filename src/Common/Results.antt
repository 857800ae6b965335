-- ===== src/Common/Results.antt =====
-- A Go pair `(value, error)`: either the value or the error, with `do` notation.
use mathlib.Core.Path.{◌≡◌, refl}

pub data Result {ℓ κ} (E : Type κ) (A : Type ℓ) : Type (ℓ ⊔ κ) where
  ok : A → Result E A
  err : E → Result E A

infixl 5 ◌>>=◌
abbrev pub ◌>>=◌ {ℓ κ ι} :
    {E : Type ι} {A : Type ℓ} {B : Type κ} → Result E A → (A → Result E B) → Result E B
ok a >>= f = f a
err e >>= f = err e

-- A chain that ends well has gone well at its first link, and at the others.
pub >>=-ok {ℓ κ ι} :
    {E : Type ι} {A : Type ℓ} {B : Type κ} (first : Result E A) (next : A → Result E B) {end : B}
    → (first >>= next) ≡ ok end
    → (between : A) × (first ≡ ok between) × (next between ≡ ok end)
>>=-ok (err failure) next q = cc
>>=-ok (ok between) next q = (between, refl, q)
