-- ===== src/StringUtil/Trim.antt =====
-- What `trim_flanking_whitespace` leaves.
use openwrt_extra.Common.{
  ℕ, zero, suc, ◌+◌, ◌-◌, ◌≤◌, ◌<◌, ◌≡◌, refl, sym, ◌∙◌, ◌⊎◌, inl, inr, leb, ◌==◌, ==_iff, Bool,
  true, false, ◌&&◌, List, [], ◌∷◌, ◌++◌, length, take, take-nil, take-drop, length-take,
  length-drop, drop, drop-nil, All, arith, Bool-cases, le_or_lt,
}
use openwrt_extra.StringUtil.Strings.{
  is_whitespace, leading, at_index, trailing, new_length, trim_flanking_whitespace,
}

abbrev pub Blank : List ℕ → Type 0
Blank s = All (λ (c : ℕ). is_whitespace c ≡ true) s

-- Nothing, or no whitespace first and none last.
abbrev pub IsTrimmed : List ℕ → Type 0
IsTrimmed s =
    (s ≡ [])
    ⊎ ((at_index is_whitespace s 0 ≡ false) × (at_index is_whitespace s (length s - 1) ≡ false))

leading_le : (s : List ℕ) → leading s ≤ length s
unfolding leading
leading_le [] = omega arith
leading_le (c ∷ s) = ground (arith, leading_le s)

leading-Blank : (s : List ℕ) → Blank (take (leading s) s)
unfolding leading
leading-Blank [] = tt
leading-Blank (c ∷ s) = elim (Bool-cases (is_whitespace c)) [
  | inl blank ↦ rw blank (blank, leading-Blank s)
  | inr other ↦ rw other tt
]

leading_stop : (s : List ℕ) → leading s < length s → at_index is_whitespace s (leading s) ≡ false
unfolding leading
leading_stop [] h = absurd (omega arith)
leading_stop (c ∷ s) h = elim (Bool-cases (is_whitespace c)) [
  | inl blank ↦ rw blank (leading_stop s (ground (arith, h, blank)))
  | inr other ↦ rw other other
]

-- Where the loop from the end stops.
record Stops (s : List ℕ) (start n e : ℕ) : Type 0 where
  below : e ≤ n
  blank : (i : ℕ) → e ≤ i → i < n → at_index is_whitespace s i ≡ true
  stop : (e ≤ start) ⊎ (at_index is_whitespace s (e - 1) ≡ false)

lt_or_eq : (i n : ℕ) → i < suc n → (i < n) ⊎ (i ≡ n)
lt_or_eq i n h = omega arith

and_right : (a b : Bool) → a && b ≡ true → b ≡ true
and_right a b h = ground arith

halts :
    (s : List ℕ) (start n : ℕ)
    → leb start n && at_index is_whitespace s n ≡ false
    → (suc n ≤ start) ⊎ (at_index is_whitespace s (suc n - 1) ≡ false)
halts s start n h = elim (Bool-cases (leb start n)) [
  | inl reached ↦ inr (rw (suc_minus_one n) (rw reached at h))
  | inr before ↦ inl (ground (arith, before))
]
  where
    suc_minus_one : (n : ℕ) → suc n - 1 ≡ n
    suc_minus_one n = omega arith

trailing-Stops : (s : List ℕ) (start n : ℕ) → Stops s start n (trailing s start n)
unfolding trailing
trailing-Stops s start zero = record {
  below = omega arith;
  blank = λ i a b. absurd (omega arith);
  stop = inl (omega arith);
}
trailing-Stops s start (suc n) = elim (Bool-cases (leb start n && at_index is_whitespace s n)) [
  | inl go ↦
      let ih = trailing-Stops s start n in
      rw go (record {
        below = omega (arith, ih.below);
        blank = λ i a b. elim (lt_or_eq i n (omega (arith, b))) [
          | inl before ↦ ih.blank i a before
          | inr here ↦ rw here (and_right (leb start n) (at_index is_whitespace s n) go)
        ];
        stop = ih.stop;
      })
  | inr halt ↦ rw halt (record {
    below = omega arith;
    blank = λ i a b. absurd (omega arith);
    stop = halts s start n halt;
  })
]

length_zero : (s : List ℕ) → length s ≡ 0 → s ≡ []
length_zero [] h = refl
length_zero (c ∷ s) h = absurd (omega arith)

module _ (p : ℕ → Bool) where
  at_index-drop : (k i j : ℕ) (s : List ℕ) → j ≡ k + i → at_index p (drop k s) i ≡ at_index p s j
  at_index-drop zero i j s e = rw (eq_of_zero_add e) refl
    where
      eq_of_zero_add : {i j : ℕ} → j ≡ 0 + i → j ≡ i
      eq_of_zero_add e = omega arith
  at_index-drop (suc k) i j [] e = refl
  at_index-drop (suc k) i zero (c ∷ s) e = absurd (omega arith)
  at_index-drop (suc k) i (suc j) (c ∷ s) e = at_index-drop k i j s (omega arith)

  at_index-take : (n i : ℕ) (s : List ℕ) → i < n → at_index p (take n s) i ≡ at_index p s i
  at_index-take zero i s h = absurd (omega arith)
  at_index-take (suc n) i [] h = refl
  at_index-take (suc n) zero (c ∷ s) h = refl
  at_index-take (suc n) (suc i) (c ∷ s) h = at_index-take n i s (omega arith)

all-Blank : (s : List ℕ) → ((i : ℕ) → i < length s → at_index is_whitespace s i ≡ true) → Blank s
all-Blank [] h = tt
all-Blank (c ∷ s) h = (h 0 (omega arith), all-Blank s (λ i b. h (suc i) (omega arith)))

-- The part that is kept, in a string with a byte that is no whitespace.
module _ (s : List ℕ) (inner : leading s < length s) where
  kept : Stops s (leading s) (length s) (trailing s (leading s) (length s))
  kept = trailing-Stops s (leading s) (length s)

  ends_after : leading s < trailing s (leading s) (length s)
  ends_after = elim (le_or_lt (trailing s (leading s) (length s)) (leading s)) [
    | inl early ↦ cc (kept.blank (leading s) early inner, leading_stop s inner)
    | inr late ↦ late
  ]

  new_length-eq : new_length s ≡ trailing s (leading s) (length s) - leading s
  unfolding new_length
  new_length-eq = let more : (length s == leading s) ≡ false = ground (arith, inner) in rw more refl

  inner_back : Blank (drop (new_length s) (drop (leading s) s))
  inner_back = all-Blank (drop (new_length s) (drop (leading s) s)) λ i h.
      let below : new_length s + i < length (drop (leading s) s) =
        omega (arith, h, length-drop (new_length s) (drop (leading s) s)) in
      at_index-drop is_whitespace (new_length s) i (new_length s + i) (drop (leading s) s) refl
      ∙ at_index-drop is_whitespace (leading s) (new_length s + i) (leading s + (new_length s + i))
          s refl
      ∙ kept.blank (leading s + (new_length s + i)) (omega (arith, new_length-eq))
          (omega (arith, below, length-drop (leading s) s))

  inner-IsTrimmed : IsTrimmed (take (new_length s) (drop (leading s) s))
  inner-IsTrimmed =
      let rest = drop (leading s) s in
      let size : new_length s ≤ length rest =
        omega (arith, new_length-eq, length-drop (leading s) s, kept.below) in
      let some_left : 0 < new_length s = omega (arith, new_length-eq, ends_after) in
      inr (
        at_index-take is_whitespace (new_length s) 0 rest some_left
            ∙ at_index-drop is_whitespace (leading s) 0 (leading s) s (omega arith)
            ∙ leading_stop s inner,
        rw (length-take (new_length s) rest size) (
            at_index-take is_whitespace (new_length s) (new_length s - 1) rest
              (omega (arith, some_left))
            ∙ at_index-drop is_whitespace (leading s) (new_length s - 1)
                (trailing s (leading s) (length s) - 1) s (omega (arith, new_length-eq, ends_after))
            ∙ last_stop kept.stop),
      )
    where
      last_stop :
          (trailing s (leading s) (length s) ≤ leading s)
            ⊎ (at_index is_whitespace s (trailing s (leading s) (length s) - 1) ≡ false)
          → at_index is_whitespace s (trailing s (leading s) (length s) - 1) ≡ false
      last_stop (inl early) = absurd (omega (arith, early, ends_after))
      last_stop (inr other) = other

-- `trim_flanking_whitespace` takes whitespace off the front and the back of a string, and nothing else:
-- what it leaves is empty or has no whitespace first and none last.
pub trim_flanking_whitespace-IsTrimmed :
    (s : List ℕ)
    → (front : List ℕ) × (back : List ℕ) × (s ≡ front ++ (trim_flanking_whitespace s ++ back))
      × Blank front
      × Blank back
      × IsTrimmed (trim_flanking_whitespace s)
unfolding trim_flanking_whitespace
trim_flanking_whitespace-IsTrimmed s =
    let whole : take (leading s) s
          ++ (take (new_length s) (drop (leading s) s) ++ drop (new_length s) (drop (leading s) s))
        ≡ s =
      rw (take-drop (new_length s) (drop (leading s) s)) (take-drop (leading s) s) in
    let (blank, trimmed) = ends s in
    (
      take (leading s) s,
      drop (new_length s) (drop (leading s) s),
      sym whole,
      leading-Blank s,
      blank,
      trimmed,
    )
  where
    nothing_left : (s : List ℕ) → leading s ≡ length s → drop (leading s) s ≡ []
    nothing_left s e =
        length_zero (drop (leading s) s) (omega (arith, e, length-drop (leading s) s))

    ends :
        (s : List ℕ)
        → Blank (drop (new_length s) (drop (leading s) s))
          × IsTrimmed (take (new_length s) (drop (leading s) s))
    ends s = elim (Bool-cases (length s == leading s)) [
      | inl all ↦
          let e = nothing_left s (sym ((==_iff (length s) (leading s)).0 all)) in
          (rw e (rw (drop-nil (new_length s)) tt), inl (rw e (take-nil (new_length s))))
      | inr part ↦
          let inner : leading s < length s = ground (arith, part, leading_le s) in
          (inner_back s inner, inner-IsTrimmed s inner)
    ]
