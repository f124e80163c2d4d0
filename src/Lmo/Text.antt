-- ===== src/Lmo/Text.antt =====
-- What text is: the encodings of code points, defined by arithmetic on the code points.
use openwrt_extra.Common.{
  ℕ, ◌+◌, ◌/◌, ◌%◌, ◌≤◌, ◌<◌, ◌≡◌, ◌⊎◌, ltb, if◌then◌else◌, List, [], ◌∷◌, ◌++◌,
}

-- The bytes of a code point below 2 ^ 21.
unfoldable pub encode : ℕ → List ℕ
encode p =
    if ltb p 0x80
    then p ∷ []
    else if ltb p 0x800
    then (0xC0 + p / 64) ∷ (0x80 + p % 64) ∷ []
    else if ltb p 0x10000
    then (0xE0 + p / 4096) ∷ (0x80 + p / 64 % 64) ∷ (0x80 + p % 64) ∷ []
    else (0xF0 + p / 262144) ∷ (0x80 + p / 4096 % 64) ∷ (0x80 + p / 64 % 64) ∷ (0x80 + p % 64) ∷ []

-- Not zero, no surrogate, neither of U+FFFE and U+FFFF, at most 21 bits.
pub record IsPoint (p : ℕ) : Type 0 where
  pub pos : 0 < p
  pub bits : p < 0x200000
  pub no_surrogate : (p < 0xD800) ⊎ (0xE000 ≤ p)
  pub legal : (p < 0xFFFE) ⊎ (0x10000 ≤ p)

-- A sequence of encoded code points.
pub data IsText : List ℕ → Type 0 where
  empty : IsText []
  point : (p : ℕ) {s t : List ℕ} → IsPoint p → IsText s → t ≡ encode p ++ s → IsText t
