-- ===== src/Io/Text/Lines.antt =====
-- Laws of `read_string`: nothing is lost, and a line that is found is not empty.
use lspwatch.Common.{
  ℕ, ◌+◌, ◌<◌, ◌≡◌, refl, true, false, [], ◌∷◌, ◌++◌, Bytes, length, All, ◌≢◌, arith, ==_iff,
}
use lspwatch.Io.Text.{read_string}

pub read_string-append : (d : ℕ) (s : Bytes) → (read_string d s).line ++ (read_string d s).rest ≡ s
unfolding read_string
read_string-append d [] = refl
read_string-append d (c ∷ cs) = ground (arith, read_string-append d cs)

pub length-read_string :
    (d : ℕ) (s : Bytes) → length (read_string d s).line + length (read_string d s).rest ≡ length s
unfolding read_string
length-read_string d [] = refl
length-read_string d (c ∷ cs) = ground (arith, length-read_string d cs)

pub read_string_found :
    (d : ℕ) (s : Bytes) → (read_string d s).found ≡ true → 0 < length (read_string d s).line
unfolding read_string
read_string_found d [] h = cc
read_string_found d (c ∷ cs) h = ground arith

-- Without a delimiter all of the input is taken.
pub read_string_missing :
    (d : ℕ) (s : Bytes)
    → (read_string d s).found ≡ false
    → ((read_string d s).rest ≡ []) × ((read_string d s).line ≡ s)
unfolding read_string
read_string_missing d [] h = (refl, refl)
read_string_missing d (c ∷ cs) h = ground (arith, read_string_missing d cs)

pub read_string_line :
    (d : ℕ) (l rest : Bytes)
    → All (λ c. c ≢ d) l
    → read_string d (l ++ d ∷ rest) ≡ record { line = l ++ d ∷ []; rest = rest; found = true }
unfolding read_string
read_string_line d [] rest h = ground (arith, ==_iff d d)
read_string_line d (c ∷ l) rest h = ground (arith, read_string_line d l rest h.1)
