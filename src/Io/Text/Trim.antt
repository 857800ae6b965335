-- ===== src/Io/Text/Trim.antt =====
-- `trim_space` on a text whose first and last characters are visible ASCII.
use lspwatch.Common.{
  ℕ, ◌<◌, ◌≡◌, refl, ◌∙◌, true, [], ◌∷◌, ◌++◌, reverse, reverse-append, reverse-reverse, Bytes,
  arith,
}
use lspwatch.Io.Text.{ascii_space, space_first, space_last, trim_front, trim_space}

-- A visible ASCII character.
abbrev pub IsVisible : ℕ → Type 0
IsVisible c = (32 < c) × (c < 127)

space_first_visible : (c : ℕ) (cs : Bytes) → IsVisible c → space_first (c ∷ cs) ≡ 0
unfolding space_first
space_first_visible c [] h = ground arith
space_first_visible c (a ∷ []) h = ground arith
space_first_visible c (a ∷ b ∷ cs) h = ground arith

space_last_visible : (c : ℕ) (cs : Bytes) → IsVisible c → space_last (c ∷ cs) ≡ 0
unfolding space_last
space_last_visible c [] h = ground arith
space_last_visible c (a ∷ []) h = ground arith
space_last_visible c (a ∷ b ∷ cs) h = ground arith

space_first_ascii : (c : ℕ) (cs : Bytes) → ascii_space c ≡ true → space_first (c ∷ cs) ≡ 1
unfolding space_first
space_first_ascii c [] h = ground arith
space_first_ascii c (a ∷ []) h = ground arith
space_first_ascii c (a ∷ b ∷ cs) h = ground arith

space_last_ascii : (c : ℕ) (cs : Bytes) → ascii_space c ≡ true → space_last (c ∷ cs) ≡ 1
unfolding space_last
space_last_ascii c [] h = ground arith
space_last_ascii c (a ∷ []) h = ground arith
space_last_ascii c (a ∷ b ∷ cs) h = ground arith

trim_front_stop :
    (width : Bytes → ℕ) (c : ℕ) (cs : Bytes)
    → width (c ∷ cs) ≡ 0
    → trim_front width 0 (c ∷ cs) ≡ c ∷ cs
unfolding trim_front
trim_front_stop width c cs h = rw h

trim_front_go :
    (width : Bytes → ℕ) (c : ℕ) (cs : Bytes)
    → width (c ∷ cs) ≡ 1
    → trim_front width 0 (c ∷ cs) ≡ trim_front width 0 cs
unfolding trim_front
trim_front_go width c cs h = rw h

-- A text that begins and ends with a visible character.
pub record IsTrimmed (s : Bytes) : Type 0 where
  pub first : ℕ
  pub after : Bytes
  pub last : ℕ
  pub before : Bytes
  pub from_front : s ≡ first ∷ after
  pub from_back : reverse s ≡ last ∷ before
  pub first_visible : IsVisible first
  pub last_visible : IsVisible last

module _ {s : Bytes} (t : IsTrimmed s) where
  open t use {first, after, last, before, from_front, from_back, first_visible, last_visible}

  trim_back : trim_front space_last 0 (reverse s) ≡ reverse s
  trim_back =
      rw from_back
        (trim_front_stop space_last last before (space_last_visible last before last_visible))

  trim_ahead : trim_front space_first 0 s ≡ s
  trim_ahead =
      rw from_front
        (trim_front_stop space_first first after (space_first_visible first after first_visible))

  -- Leading white space and a line's end go.
  pub trim_space_before : trim_space (b' ' ∷ s) ≡ s
  unfolding trim_space
  trim_space_before =
      rw (trim_front_go space_first b' ' s (space_first_ascii b' ' s refl), trim_ahead, trim_back)
        (reverse-reverse s)

  trim_ahead_line : trim_front space_first 0 (s ++ b'\r' ∷ b'\n' ∷ []) ≡ s ++ b'\r' ∷ b'\n' ∷ []
  trim_ahead_line =
      rw from_front
        (trim_front_stop space_first first _ (space_first_visible first _ first_visible))

  trim_back_line : trim_front space_last 0 (b'\n' ∷ b'\r' ∷ reverse s) ≡ reverse s
  trim_back_line =
      trim_front_go space_last b'\n' _ (space_last_ascii b'\n' _ refl)
      ∙ trim_front_go space_last b'\r' _ (space_last_ascii b'\r' _ refl)
      ∙ trim_back

  pub trim_space_line : trim_space (s ++ b'\r' ∷ b'\n' ∷ []) ≡ s
  unfolding trim_space
  trim_space_line = rw (trim_ahead_line, reverse-append, trim_back_line) (reverse-reverse s)
