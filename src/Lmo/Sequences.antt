-- ===== src/Lmo/Sequences.antt =====
-- A sequence that `_validate_utf8` copies is the encoding of a code point.
use openwrt_extra.Common.{
  ℕ, zero, suc, ◌+◌, ◌*◌, ◌-◌, ◌/◌, ◌%◌, ◌≤◌, ◌<◌, ◌≡◌, refl, ◌⊎◌, inl, inr, ltb, ◌==◌,
  if◌then◌else◌, Bool, true, false, List, [], ◌∷◌, take, All, arith, ==_iff, ◌∙◌, sym, Bool-cases,
}
use openwrt_extra.Lmo.Utf8.{
  mb_num_chars, mb_is_cont, mb_is_shortest, mb_is_surrogate, mb_is_illegal, count_valid, is_legal,
}
use openwrt_extra.Lmo.Text.{encode, IsPoint}

abbrev pub IsBytes : List ℕ → Type 0
IsBytes s = All (λ (c : ℕ). c < 256) s

-- The length that a lead byte announces, by its range.
abbrev pub lead : ℕ → ℕ
lead c =
    if ltb c 0xC0
    then 1
    else if ltb c 0xE0
    then 2
    else if ltb c 0xF0
    then 3
    else if ltb c 0xF8
    then 4
    else if ltb c 0xFC
    then 5
    else if ltb c 0xFE
    then 6
    else 1

at_or_after : (a b : ℕ) → a ≤ b → (a ≡ b) ⊎ (a + 1 ≤ b)
at_or_after a b h = omega arith

differ : false ≡ true → ⊥
differ h = ground arith

-- Do the two agree on `count` bytes from `c` on?
agree : (count c : ℕ) → Bool
unfolding mb_num_chars
agree zero c = true
agree (suc left) c = if mb_num_chars c == lead c then agree left (c + 1) else false

every_byte : agree 256 0 ≡ true
unfolding agree
every_byte = refl

from_table :
    (count first c : ℕ)
    → first ≤ c
    → c < first + count
    → agree count first ≡ true
    → mb_num_chars c ≡ lead c
unfolding agree
from_table zero first c lo hi h = absurd (omega arith)
from_table (suc left) first c lo hi h = elim (Bool-cases (mb_num_chars first == lead first)) [
  | inl same ↦ elim (at_or_after first c lo) [
    | inl here ↦ rw (sym here) ((==_iff _ _).0 same)
    | inr later ↦ from_table left (first + 1) c later (omega arith) (rw same at h)
  ]
  | inr other ↦ absurd (differ (rw other at h))
]

-- The masks of `mb_num_chars` tell these ranges apart.
pub mb_num_chars-eq-lead : (c : ℕ) → c < 256 → mb_num_chars c ≡ lead c
mb_num_chars-eq-lead c h = from_table 256 0 c (omega arith) (omega arith) every_byte

-- These bytes start with the encoding of a code point that is `n` bytes long.
pub record StartsWithPoint (s : List ℕ) (n : ℕ) : Type 0 where
  pub code_point : ℕ
  pub is_point : IsPoint code_point
  pub encoded : take n s ≡ encode code_point

two_bytes :
    (c : ℕ) (rest : List ℕ)
    → 0xC0 ≤ c
    → c < 0xE0
    → is_legal (c ∷ rest) 2 (count_valid 2 rest 1) ≡ true
    → StartsWithPoint (c ∷ rest) 2
unfolding is_legal count_valid mb_is_cont mb_is_shortest mb_is_surrogate mb_is_illegal encode
two_bytes c [] lo hi h = ground arith
two_bytes c (c1 ∷ rest) lo hi h = record {
  code_point = (c - 0xC0) * 64 + (c1 - 0x80);
  is_point = ground arith;
  encoded = ground arith;
}

abbrev Cont : ℕ → Type 0
Cont c = (0x80 ≤ c) × (c ≤ 0xBF)

conts_three :
    (c c1 c2 : ℕ) (rest : List ℕ)
    → is_legal (c ∷ c1 ∷ c2 ∷ rest) 3 (count_valid 3 (c1 ∷ c2 ∷ rest) 1) ≡ true
    → Cont c1 × Cont c2
unfolding is_legal count_valid mb_is_cont
conts_three c c1 c2 rest h = ground arith

module _ (c c1 c2 : ℕ) (rest : List ℕ) (d1 : Cont c1) (d2 : Cont c2) where
  shortest_three :
      mb_is_shortest (c ∷ c1 ∷ c2 ∷ rest) 3 ≡ true → 0xE0 ≤ c → (0xE0 < c) ⊎ (0xA0 ≤ c1)
  unfolding mb_is_shortest
  shortest_three h lo = ground arith

  surrogate_three :
      mb_is_surrogate (c ∷ c1 ∷ c2 ∷ rest) 3 ≡ false → (c < 0xED) ⊎ ((0xED < c) ⊎ (c1 < 0xA0))
  unfolding mb_is_surrogate
  surrogate_three h = ground arith

  illegal_three :
      mb_is_illegal (c ∷ c1 ∷ c2 ∷ rest) 3 ≡ false
      → (c < 0xEF) ⊎ ((0xEF < c) ⊎ ((c1 < 0xBF) ⊎ (c2 < 0xBE)))
  unfolding mb_is_illegal
  illegal_three h = ground arith

parts_of_legal :
    (s : List ℕ) (n v : ℕ)
    → is_legal s n v ≡ true
    → (mb_is_shortest s n ≡ true) × (mb_is_surrogate s n ≡ false) × (mb_is_illegal s n ≡ false)
unfolding is_legal
parts_of_legal s n v h = ground arith

pub encode_three :
    (p : ℕ)
    → 0x800 ≤ p
    → p < 0x10000
    → encode p ≡ (0xE0 + p / 4096) ∷ (0x80 + p / 64 % 64) ∷ (0x80 + p % 64) ∷ []
unfolding encode
encode_three p lo hi = ground arith

pub list_three : {a b c d e f : ℕ} → a ≡ d → b ≡ e → c ≡ f → a ∷ b ∷ c ∷ [] ≡ d ∷ e ∷ f ∷ []
list_three p q r = cc

three_bytes :
    (c : ℕ) (rest : List ℕ)
    → 0xE0 ≤ c
    → c < 0xF0
    → is_legal (c ∷ rest) 3 (count_valid 3 rest 1) ≡ true
    → StartsWithPoint (c ∷ rest) 3
three_bytes c [] lo hi h = unfold is_legal count_valid in ground arith
three_bytes c (c1 ∷ []) lo hi h = unfold is_legal count_valid mb_is_cont in ground arith
three_bytes c (c1 ∷ c2 ∷ rest) lo hi h =
    let (d1, d2) = conts_three c c1 c2 rest h in
    let (short, plain, fine) = parts_of_legal _ _ _ h in
    let e1 = shortest_three c c1 c2 rest d1 d2 short lo in
    let e2 = surrogate_three c c1 c2 rest d1 d2 plain in
    let e3 = illegal_three c c1 c2 rest d1 d2 fine in
    let p : ℕ = (c - 0xE0) * 4096 + (c1 - 0x80) * 64 + (c2 - 0x80) in
    record {
      code_point = p;
      is_point = omega (arith, e1, e2, e3, d1, d2);
      encoded =
          rw (encode_three p (omega (arith, e1, d1, d2)) (omega (arith, d1, d2)))
            (list_three (omega (arith, d1, d2)) (omega (arith, d1, d2)) (omega (arith, d1, d2)));
    }

conts_four :
    (c c1 c2 c3 : ℕ) (rest : List ℕ)
    → is_legal (c ∷ c1 ∷ c2 ∷ c3 ∷ rest) 4 (count_valid 4 (c1 ∷ c2 ∷ c3 ∷ rest) 1) ≡ true
    → Cont c1 × Cont c2 × Cont c3
unfolding is_legal count_valid mb_is_cont
conts_four c c1 c2 c3 rest h = ground arith

shortest_four :
    (c c1 c2 c3 : ℕ) (rest : List ℕ)
    → Cont c1
    → Cont c2
    → Cont c3
    → mb_is_shortest (c ∷ c1 ∷ c2 ∷ c3 ∷ rest) 4 ≡ true
    → 0xF0 ≤ c
    → (0xF0 < c) ⊎ (0x90 ≤ c1)
unfolding mb_is_shortest
shortest_four c c1 c2 c3 rest d1 d2 d3 h lo = ground arith

pub encode_four :
    (p : ℕ)
    → 0x10000 ≤ p
    → encode p
      ≡ (0xF0 + p / 262144) ∷ (0x80 + p / 4096 % 64) ∷ (0x80 + p / 64 % 64) ∷ (0x80 + p % 64) ∷ []
unfolding encode
encode_four p lo = ground arith

pub list_four :
    {a b c d e f g h : ℕ} → a ≡ e → b ≡ f → c ≡ g → d ≡ h → a ∷ b ∷ c ∷ d ∷ [] ≡ e ∷ f ∷ g ∷ h ∷ []
list_four p q r s = cc

four_bytes :
    (c : ℕ) (rest : List ℕ)
    → 0xF0 ≤ c
    → c < 0xF8
    → is_legal (c ∷ rest) 4 (count_valid 4 rest 1) ≡ true
    → StartsWithPoint (c ∷ rest) 4
four_bytes c [] lo hi h = unfold is_legal count_valid in ground arith
four_bytes c (c1 ∷ []) lo hi h = unfold is_legal count_valid mb_is_cont in ground arith
four_bytes c (c1 ∷ c2 ∷ []) lo hi h = unfold is_legal count_valid mb_is_cont in ground arith
four_bytes c (c1 ∷ c2 ∷ c3 ∷ rest) lo hi h =
    let (d1, d2, d3) = conts_four c c1 c2 c3 rest h in
    let (short, plain, fine) = parts_of_legal _ _ _ h in
    let e1 = shortest_four c c1 c2 c3 rest d1 d2 d3 short lo in
    let p : ℕ = (c - 0xF0) * 262144 + (c1 - 0x80) * 4096 + (c2 - 0x80) * 64 + (c3 - 0x80) in
    record {
      code_point = p;
      is_point = omega (arith, e1, d1, d2, d3);
      encoded = rw (encode_four p (omega (arith, e1, d1, d2, d3))) (
          list_four (omega (arith, d1, d2, d3)) (omega (arith, d1, d2, d3))
            (omega (arith, d1, d2, d3)) (omega (arith, d1, d2, d3)));
    }

lead_range :
    (c : ℕ)
    → 1 < lead c
    → lead c < 5
    → (0xC0 ≤ c) × (c < 0xE0) × (lead c ≡ 2)
      ⊎ ((0xE0 ≤ c) × (c < 0xF0) × (lead c ≡ 3) ⊎ (0xF0 ≤ c) × (c < 0xF8) × (lead c ≡ 4))
lead_range c many few = ground arith

-- A sequence of two to four bytes that is copied starts with the encoding of a code point.
pub legal-StartsWithPoint :
    (c : ℕ) (rest : List ℕ)
    → c < 256
    → 1 < mb_num_chars c
    → mb_num_chars c < 5
    → is_legal (c ∷ rest) (mb_num_chars c) (count_valid (mb_num_chars c) rest 1) ≡ true
    → StartsWithPoint (c ∷ rest) (mb_num_chars c)
legal-StartsWithPoint c rest b many few h =
    let e = mb_num_chars-eq-lead c b in
    elim (lead_range c (rw e at many) (rw e at few)) [
      | inl (lo, hi, n) ↦ rw (e ∙ n) (two_bytes c rest lo hi (rw (e ∙ n) at h))
      | inr (inl (lo, hi, n)) ↦ rw (e ∙ n) (three_bytes c rest lo hi (rw (e ∙ n) at h))
      | inr (inr (lo, hi, n)) ↦ rw (e ∙ n) (four_bytes c rest lo hi (rw (e ∙ n) at h))
    ]
