-- ===== src/Lmo/Copies.antt =====
-- The encoding of a code point passes every test before a sequence is copied.
use openwrt_extra.Common.{
  le_or_lt, ℕ, zero, suc, ◌+◌, ◌/◌, ◌%◌, ◌≤◌, ◌<◌, ◌≡◌, refl, ◌⊎◌, inl, inr, true, false, List, [],
  ◌∷◌, ◌++◌, take, drop, arith, ap, sym, ◌∙◌,
}
use openwrt_extra.Lmo.Utf8.{
  mb_num_chars, mb_is_cont, mb_is_shortest, mb_is_surrogate, mb_is_illegal, count_valid, is_legal,
}
use openwrt_extra.Lmo.Text.{encode, IsPoint, IsText}
use openwrt_extra.Lmo.Sequences.{lead, mb_num_chars-eq-lead, encode_three, encode_four}

-- No continuation byte comes next.
abbrev pub NoCont : List ℕ → Type 0
NoCont [] = Unit
NoCont (c ∷ s) = mb_is_cont c ≡ false

encode_two : (p : ℕ) → 0x80 ≤ p → p < 0x800 → encode p ≡ (0xC0 + p / 64) ∷ (0x80 + p % 64) ∷ []
unfolding encode
encode_two p lo hi = ground arith

pub encode_one : (p : ℕ) → p < 0x80 → encode p ≡ p ∷ []
unfolding encode
encode_one p h = ground arith

no_cont : (c : ℕ) → (c < 0x80) ⊎ (0xC0 ≤ c) → mb_is_cont c ≡ false
unfolding mb_is_cont
no_cont c h = ground arith

is_cont : (c : ℕ) → 0x80 ≤ c → c < 0xC0 → mb_is_cont c ≡ true
unfolding mb_is_cont
is_cont c lo hi = ground arith

count_valid-stop : (left : ℕ) (t : List ℕ) (v : ℕ) → NoCont t → count_valid left t v ≡ v
unfolding count_valid
count_valid-stop zero t v h = refl
count_valid-stop (suc left) [] v h = refl
count_valid-stop (suc left) (c ∷ t) v h = rw h

count_valid-cont :
    (left c : ℕ) (t : List ℕ) (v : ℕ)
    → 0x80 ≤ c
    → c < 0xC0
    → count_valid (suc left) (c ∷ t) v ≡ count_valid left t (v + 1)
unfolding count_valid
count_valid-cont left c t v lo hi = rw (is_cont c lo hi)

legal_two : (c c1 : ℕ) (t : List ℕ) → 0xC2 ≤ c → is_legal (c ∷ c1 ∷ t) 2 2 ≡ true
unfolding is_legal mb_is_shortest mb_is_surrogate mb_is_illegal
legal_two c c1 t lo = ground arith

module _ (c c1 c2 : ℕ) (t : List ℕ) where
  shortest : (0xE0 < c) ⊎ (0xA0 ≤ c1) → mb_is_shortest (c ∷ c1 ∷ c2 ∷ t) 3 ≡ true
  unfolding mb_is_shortest
  shortest h = ground arith

  plain : (c < 0xED) ⊎ ((0xED < c) ⊎ (c1 < 0xA0)) → mb_is_surrogate (c ∷ c1 ∷ c2 ∷ t) 3 ≡ false
  unfolding mb_is_surrogate
  plain h = ground arith

  fine :
      (c < 0xEF) ⊎ ((0xEF < c) ⊎ ((c1 < 0xBF) ⊎ (c2 < 0xBE)))
      → mb_is_illegal (c ∷ c1 ∷ c2 ∷ t) 3 ≡ false
  unfolding mb_is_illegal
  fine h = ground arith

shortest_long :
    (c c1 c2 c3 : ℕ) (t : List ℕ)
    → (0xF0 < c) ⊎ (0x90 ≤ c1)
    → mb_is_shortest (c ∷ c1 ∷ c2 ∷ c3 ∷ t) 4 ≡ true
unfolding mb_is_shortest
shortest_long c c1 c2 c3 t h = ground arith

legal_from :
    (s : List ℕ) (n : ℕ)
    → mb_is_shortest s n ≡ true
    → mb_is_surrogate s n ≡ false
    → mb_is_illegal s n ≡ false
    → is_legal s n n ≡ true
unfolding is_legal
legal_from s n a b c = ground arith

lead_three : (c : ℕ) → 0xE0 ≤ c → c < 0xF0 → lead c ≡ 3
lead_three c lo hi = ground arith

lead_four : (c : ℕ) → 0xF0 ≤ c → c < 0xF8 → lead c ≡ 4
lead_four c lo hi = ground arith

-- What the filter finds where a code point of more than one byte comes next.
pub record IsCopied (p : ℕ) (t : List ℕ) : Type 0 where
  pub first : ℕ
  pub others : List ℕ
  pub count : ℕ
  pub starts : encode p ++ t ≡ first ∷ others
  pub high : 0x80 ≤ first
  pub chars : mb_num_chars first ≡ count
  pub many : 1 < count
  pub few : count < 5
  pub counted : count_valid count others 1 ≡ count
  pub legal : is_legal (first ∷ others) count count ≡ true
  pub taken : take count (first ∷ others) ≡ encode p
  pub dropped : drop count (first ∷ others) ≡ t

module _ (p : ℕ) (t : List ℕ) (next : NoCont t) where
  two-IsCopied : 0x80 ≤ p → p < 0x800 → IsCopied p t
  two-IsCopied lo hi = record {
    first = 0xC0 + p / 64;
    others = (0x80 + p % 64) ∷ t;
    count = 2;
    starts = ap (λ e. e ++ t) (encode_two p lo hi);
    high = omega arith;
    chars = mb_num_chars-eq-lead _ (omega arith) ∙ ground arith;
    many = omega arith;
    few = omega arith;
    counted =
        count_valid-cont 1 (0x80 + p % 64) t 1 (omega arith) (omega arith)
        ∙ count_valid-stop 1 t 2 next;
    legal = legal_two _ _ t (omega arith);
    taken = sym (encode_two p lo hi);
    dropped = refl;
  }

  three-IsCopied : IsPoint p → 0x800 ≤ p → p < 0x10000 → IsCopied p t
  three-IsCopied ok lo hi =
      let c : ℕ = 0xE0 + p / 4096 in
      let c1 : ℕ = 0x80 + p / 64 % 64 in
      let c2 : ℕ = 0x80 + p % 64 in
      record {
        first = c;
        others = c1 ∷ c2 ∷ t;
        count = 3;
        starts = ap (λ e. e ++ t) (encode_three p lo hi);
        high = omega arith;
        chars = mb_num_chars-eq-lead _ (omega arith) ∙ lead_three c (omega arith) (omega arith);
        many = omega arith;
        few = omega arith;
        counted =
            count_valid-cont 2 c1 (c2 ∷ t) 1 (omega arith) (omega arith)
            ∙ count_valid-cont 1 c2 t 2 (omega arith) (omega arith)
            ∙ count_valid-stop 1 t 3 next;
        legal =
            legal_from _ 3 (shortest c c1 c2 t (omega arith))
              (plain c c1 c2 t (omega (arith, ok.no_surrogate)))
              (fine c c1 c2 t (omega (arith, ok.legal)));
        taken = sym (encode_three p lo hi);
        dropped = refl;
      }

  four-IsCopied : IsPoint p → 0x10000 ≤ p → IsCopied p t
  unfolding mb_is_surrogate mb_is_illegal
  four-IsCopied ok lo =
      let c : ℕ = 0xF0 + p / 262144 in
      let c1 : ℕ = 0x80 + p / 4096 % 64 in
      let c2 : ℕ = 0x80 + p / 64 % 64 in
      let c3 : ℕ = 0x80 + p % 64 in
      let bits = ok.bits in
      record {
        first = c;
        others = c1 ∷ c2 ∷ c3 ∷ t;
        count = 4;
        starts = ap (λ e. e ++ t) (encode_four p lo);
        high = omega arith;
        chars = mb_num_chars-eq-lead _ (omega arith) ∙ lead_four c (omega arith) (omega arith);
        many = omega arith;
        few = omega arith;
        counted =
            count_valid-cont 3 c1 (c2 ∷ c3 ∷ t) 1 (omega arith) (omega arith)
            ∙ count_valid-cont 2 c2 (c3 ∷ t) 2 (omega arith) (omega arith)
            ∙ count_valid-cont 1 c3 t 3 (omega arith) (omega arith)
            ∙ count_valid-stop 1 t 4 next;
        legal = legal_from _ 4 (shortest_long c c1 c2 c3 t (omega arith)) refl refl;
        taken = sym (encode_four p lo);
        dropped = refl;
      }

  pub many-IsCopied : IsPoint p → 0x80 ≤ p → IsCopied p t
  many-IsCopied ok lo = elim (le_or_lt 0x800 p) [
    | inl middle ↦ elim (le_or_lt 0x10000 p) [
      | inl large ↦ four-IsCopied ok large
      | inr small ↦ three-IsCopied ok middle small
    ]
    | inr small ↦ two-IsCopied lo small
  ]

first-no_cont : (p : ℕ) → (c : ℕ) × (r : List ℕ) × (encode p ≡ c ∷ r) × (mb_is_cont c ≡ false)
first-no_cont p = elim (le_or_lt 0x80 p) [
  | inl high ↦ elim (le_or_lt 0x800 p) [
    | inl middle ↦ elim (le_or_lt 0x10000 p) [
      | inl large ↦ (_, _, encode_four p large, no_cont _ (inr (omega arith)))
      | inr small ↦ (_, _, encode_three p middle small, no_cont _ (inr (omega arith)))
    ]
    | inr small ↦ (_, _, encode_two p high small, no_cont _ (inr (omega arith)))
  ]
  | inr ascii ↦ (_, _, encode_one p ascii, no_cont p (inl ascii))
]

pub text-NoCont : (t : List ℕ) → IsText t → NoCont t
text-NoCont t IsText.empty = tt
text-NoCont t (IsText.point p {s = r} ok a e) =
    let (c, r1, starts, other) = first-no_cont p in rw (e ∙ ap (λ x. x ++ r) starts) other
