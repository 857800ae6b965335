-- ===== src/Common/Lists.antt =====
-- Lists measured by native numbers, and predicates over all their elements.
use Prim.Native.Nat.{ℕ, zero, suc, ◌+◌, ◌-◌, ◌<◌, ◌≤◌, min}
use mathlib.Core.Path.{◌≡◌, refl, sym, ap, ◌∙◌}
use mathlib.Core.Logic.{◌≢◌}
use mathlib.Core.List.{List, [], ◌∷◌, ◌++◌, append_assoc}
use native.Mathlib.Omega.{arith}

module _ {ℓ} {A : Type ℓ} where
  abbrev pub length : List A → ℕ
  length [] = 0
  length (x ∷ xs) = suc (length xs)

  abbrev pub take : ℕ → List A → List A
  take zero xs = []
  take (suc n) [] = []
  take (suc n) (x ∷ xs) = x ∷ take n xs

  abbrev pub drop : ℕ → List A → List A
  drop zero xs = xs
  drop (suc n) [] = []
  drop (suc n) (x ∷ xs) = drop n xs

  abbrev pub concat : List (List A) → List A
  concat [] = []
  concat (xs ∷ xss) = xs ++ concat xss

  pub length-append : (xs ys : List A) → length (xs ++ ys) ≡ length xs + length ys
  length-append [] ys = omega arith
  length-append (x ∷ xs) ys = omega (arith, length-append xs ys)

  pub take-append-drop : (n : ℕ) (xs : List A) → take n xs ++ drop n xs ≡ xs
  take-append-drop zero xs = refl
  take-append-drop (suc n) [] = refl
  take-append-drop (suc n) (x ∷ xs) = rw (take-append-drop n xs)

  pub length-drop : (n : ℕ) (xs : List A) → length (drop n xs) ≡ length xs - n
  length-drop zero xs = omega arith
  length-drop (suc n) [] = omega arith
  length-drop (suc n) (x ∷ xs) = omega (arith, length-drop n xs)

  pub length-take : (n : ℕ) (xs : List A) → length (take n xs) ≡ min n (length xs)
  length-take zero xs = omega arith
  length-take (suc n) [] = omega arith
  length-take (suc n) (x ∷ xs) = omega (arith, length-take n xs)

  pub take-length-append : (xs ys : List A) → take (length xs) (xs ++ ys) ≡ xs
  take-length-append [] ys = refl
  take-length-append (x ∷ xs) ys = ap (λ zs. x ∷ zs) (take-length-append xs ys)

  pub drop-length-append : (xs ys : List A) → drop (length xs) (xs ++ ys) ≡ ys
  drop-length-append [] ys = refl
  drop-length-append (x ∷ xs) ys = drop-length-append xs ys

pub concat-append {ℓ} :
    {A : Type ℓ} (xss yss : List (List A)) → concat (xss ++ yss) ≡ concat xss ++ concat yss
concat-append [] yss = refl
concat-append (xs ∷ xss) yss = ap (λ l. xs ++ l) (concat-append xss yss) ∙ sym (append_assoc xs _ _)

abbrev pub All {ℓ κ} : {A : Type ℓ} → (A → Type κ) → List A → Type κ
All Holds (first ∷ others) = Holds first × All Holds others
All Holds [] = Unit

-- What holds all over either part of a list holds all over the list.
pub All-append {ℓ κ} :
    {A : Type ℓ} (P : A → Type κ) (later : List A) (sooner : List A)
    → All P sooner
    → All P later
    → All P (sooner ++ later)
All-append P later [] none_yet rest = rest
All-append P later (a ∷ more) (first, others) rest = (first, All-append P later more others rest)

pub length_pos {ℓ} : {A : Type ℓ} (xs : List A) → xs ≢ [] → 0 < length xs
length_pos [] h = absurd (h refl)
length_pos (x ∷ xs) h = omega arith

-- The last element of a list that has one.
pub unsnoc {ℓ} :
    {A : Type ℓ} (x : A) (xs : List A) → (init : List A) × (last : A) × (x ∷ xs ≡ init ++ last ∷ [])
unsnoc x [] = ([], x, refl)
unsnoc x (y ∷ ys) = let (init, last, e) = unsnoc y ys in (x ∷ init, last, ap (λ l. x ∷ l) e)

pub All-last {ℓ κ} :
    {A : Type ℓ} (P : A → Type κ) (init : List A) (last : A) → All P (init ++ last ∷ []) → P last
All-last P [] last h = h.0
All-last P (x ∷ init) last h = All-last P init last h.1

pub All-map {ℓ κ ι} :
    {A : Type ℓ} (P : A → Type κ) (Q : A → Type ι) (xs : List A)
    → ((x : A) → P x → Q x)
    → All P xs
    → All Q xs
All-map P Q [] f h = tt
All-map P Q (x ∷ xs) f h = (f x h.0, All-map P Q xs f h.1)

-- What is left of a list behind some first part.
abbrev pub IsSuffix {ℓ} : {A : Type ℓ} → List A → List A → Type ℓ
IsSuffix {A = A} rest xs = (taken : List A) × (taken ++ rest ≡ xs)

pub IsSuffix-trans {ℓ} :
    {A : Type ℓ} (zs ys xs : List A) → IsSuffix zs ys → IsSuffix ys xs → IsSuffix zs xs
IsSuffix-trans zs ys xs (later, p) (sooner, q) =
    (sooner ++ later, append_assoc sooner later zs ∙ ap (λ l. sooner ++ l) p ∙ q)

pub length-IsSuffix {ℓ} :
    {A : Type ℓ} (rest xs : List A) → IsSuffix rest xs → length rest ≤ length xs
length-IsSuffix rest xs (taken, p) = omega (arith, ap length p, length-append taken rest)

-- The parts stand in the list in this order, with anything before, between and behind them.
abbrev pub IsWithin {ℓ} : {A : Type ℓ} → List (List A) → List A → Type ℓ
IsWithin [] xs = Unit
IsWithin {A = A} (part ∷ parts) xs =
    (skipped : List A) × (rest : List A) × (skipped ++ (part ++ rest) ≡ xs) × IsWithin parts rest

pub IsWithin-IsSuffix {ℓ} :
    {A : Type ℓ} (parts : List (List A)) (rest xs : List A)
    → IsSuffix rest xs
    → IsWithin parts rest
    → IsWithin parts xs
IsWithin-IsSuffix [] rest xs suffix within = tt
IsWithin-IsSuffix (part ∷ parts) rest xs (taken, p) (skipped, rest', q, within) = (
  taken ++ skipped,
  rest',
  append_assoc taken skipped (part ++ rest') ∙ ap (λ l. taken ++ l) q ∙ p,
  within,
)

pub IsWithin-append {ℓ} :
    {A : Type ℓ} (parts more : List (List A)) (xs : List A)
    → IsWithin (parts ++ more) xs
    → IsWithin parts xs
IsWithin-append [] more xs within = tt
IsWithin-append (part ∷ parts) more xs (skipped, rest, q, within) =
    (skipped, rest, q, IsWithin-append parts more rest within)
