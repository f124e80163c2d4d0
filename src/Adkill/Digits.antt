-- ===== src/Adkill/Digits.antt =====
-- What `domain_contain_digits` counts.
use openwrt_extra.Common.{
  ℕ, zero, suc, ◌+◌, ◌≤◌, ◌<◌, ◌≡◌, refl, ◌⊎◌, inl, inr, leb, ◌==◌, if◌then◌else◌, Bool, true,
  false, some, List, [], ◌∷◌, arith, Bool-cases,
}
use openwrt_extra.Adkill.Strings.{is_digit, digits_loop, domain_contain_digits}

-- The string begins with `n` digits.
abbrev pub Leads : ℕ → List ℕ → Type 0
Leads zero s = Unit
Leads (suc n) [] = ⊥
Leads (suc n) (c ∷ s) = (is_digit c ≡ true) × Leads n s

-- Somewhere in the string there are `n` digits in a row.
abbrev pub Runs : ℕ → List ℕ → Type 0
Runs n [] = ⊥
Runs n (c ∷ s) = Leads n (c ∷ s) ⊎ Runs n s

Leads-less : (n m : ℕ) (s : List ℕ) → n ≤ m → Leads m s → Leads n s
Leads-less zero m s le h = tt
Leads-less (suc n) zero s le h = absurd (omega arith)
Leads-less (suc n) (suc m) [] le h = absurd h
Leads-less (suc n) (suc m) (c ∷ s) le (d, h) = (d, Leads-less n m s (omega arith) h)

Leads-Runs : (n : ℕ) (s : List ℕ) → 0 < n → Leads n s → Runs n s
Leads-Runs zero s pos h = absurd (omega arith)
Leads-Runs (suc n) [] pos h = h
Leads-Runs (suc n) (c ∷ s) pos h = inl h

Leads-tail :
    (n c : ℕ) (s : List ℕ)
    → 0 < n
    → Leads n (c ∷ s)
    → (m : ℕ) × (n ≡ m + 1) × (is_digit c ≡ true) × Leads m s
Leads-tail zero c s pos h = absurd (omega arith)
Leads-tail (suc n) c s pos (d, h) = (n, omega arith, d, h)

differ : (b : Bool) → b ≡ true → b ≡ false → ⊥
differ b t f = ground arith

leb-false : (n m : ℕ) → m < n → leb n m ≡ false
leb-false n m h = ground arith

leb-true : (n m : ℕ) → n ≤ m → leb n m ≡ true
leb-true n m h = ground arith

later :
    (n c k : ℕ) (s : List ℕ)
    → 0 < n
    → is_digit c ≡ false
    → Leads (suc k) (c ∷ s) ⊎ Runs n (c ∷ s)
    → Runs n s
later n c k s pos other (inl (digit, _)) = absurd (differ (is_digit c) digit other)
later n c k s pos other (inr (inl leads)) =
    let (m, _, digit, _) = Leads-tail n c s pos leads in absurd (differ (is_digit c) digit other)
later n c k s pos other (inr (inr runs)) = runs

not_zero : (n : ℕ) → (suc n == 0) ≡ false
not_zero n = ground arith

to_runs : (n : ℕ) (s : List ℕ) → Leads (suc n) s ⊎ Runs (suc n) s → Runs (suc n) s
to_runs n s (inl leads) = Leads-Runs (suc n) s (omega arith) leads
to_runs n s (inr runs) = runs

-- One more digit, with the rest of the string decided.
module _ (n t c : ℕ) (s : List ℕ) (digit : is_digit c ≡ true) where
  digit_sound :
      (k : ℕ)
      → ((j : ℕ) → n ≡ t + 1 + suc j → digits_loop n (t + 1) s ≡ true → Leads (suc j) s ⊎ Runs n s)
      → n ≡ t + suc k
      → (if leb n (t + 1) then true else digits_loop n (t + 1) s) ≡ true
      → Leads (suc k) (c ∷ s) ⊎ Runs n (c ∷ s)
  digit_sound zero ih e h = inl (digit, tt)
  digit_sound (suc k) ih e h =
      elim (ih k (omega arith) (rw (leb-false n (t + 1) (omega arith)) at h)) [
        | inl leads ↦ inl (digit, leads)
        | inr runs ↦ inr (inr runs)
      ]

  digit_complete :
      (k : ℕ)
      → ((j : ℕ) → n ≡ t + 1 + suc j → Leads (suc j) s ⊎ Runs n s → digits_loop n (t + 1) s ≡ true)
      → n ≡ t + suc k
      → Leads (suc k) (c ∷ s) ⊎ Runs n (c ∷ s)
      → (if leb n (t + 1) then true else digits_loop n (t + 1) s) ≡ true
  digit_complete zero ih e h = rw (leb-true n (t + 1) (omega arith)) refl
  digit_complete (suc k) ih e (inl (_, leads)) =
      rw (leb-false n (t + 1) (omega arith)) (ih k (omega arith) (inl leads))
  digit_complete (suc k) ih e (inr (inl leads)) =
      let (m, size, _, tail) = Leads-tail n c s (omega arith) leads in
      rw (leb-false n (t + 1) (omega arith))
        (ih k (omega arith) (inl (Leads-less (suc k) m s (omega arith) tail)))
  digit_complete (suc k) ih e (inr (inr runs)) =
      rw (leb-false n (t + 1) (omega arith)) (ih k (omega arith) (inr runs))

digits_loop_sound :
    (n : ℕ) (s : List ℕ) (k t : ℕ)
    → n ≡ t + suc k
    → digits_loop n t s ≡ true
    → Leads (suc k) s ⊎ Runs n s
unfolding digits_loop
digits_loop_sound n [] k t e h = absurd (differ false h refl)
digits_loop_sound n (c ∷ s) k t e h = elim (Bool-cases (is_digit c)) [
  | inl digit ↦ digit_sound n t c s digit k (λ j. digits_loop_sound n s j (t + 1)) e (rw digit at h)
  | inr other ↦
      let rest : digits_loop n 0 s ≡ true = rw (leb-false n 0 (omega arith)) at (rw other at h) in
      elim (digits_loop_sound n s (t + k) 0 (omega arith) rest) [
        | inl leads ↦
            inr (
              inr (Leads-Runs n s (omega arith) (Leads-less n (suc (t + k)) s (omega arith) leads)))
        | inr runs ↦ inr (inr runs)
      ]
]

digits_loop_complete :
    (n : ℕ) (s : List ℕ) (k t : ℕ)
    → n ≡ t + suc k
    → Leads (suc k) s ⊎ Runs n s
    → digits_loop n t s ≡ true
unfolding digits_loop
digits_loop_complete n [] k t e (inl h) = absurd h
digits_loop_complete n [] k t e (inr h) = absurd h
digits_loop_complete n (c ∷ s) k t e h = elim (Bool-cases (is_digit c)) [
  | inl digit ↦
      rw digit (digit_complete n t c s digit k (λ j. digits_loop_complete n s j (t + 1)) e h)
  | inr other ↦ rw other (
      rw (leb-false n 0 (omega arith)) (
        digits_loop_complete n s (t + k) 0 (omega arith)
          (inr (later n c k s (omega arith) other h))))
]

-- `domain_contain_digits` with a positive number finds exactly the domains that have so many digits
-- in a row.
domain_contain_digits-Runs :
    (domain : List ℕ) (digitnum : ℕ)
    → 0 < digitnum
    → (domain_contain_digits (some domain) digitnum ≡ true → Runs digitnum domain)
      × (Runs digitnum domain → domain_contain_digits (some domain) digitnum ≡ true)
unfolding domain_contain_digits
domain_contain_digits-Runs domain zero pos = absurd (omega arith)
domain_contain_digits-Runs domain (suc n) pos = (
  λ h. to_runs n domain (digits_loop_sound (suc n) domain n 0 (omega arith) (rw (not_zero n) at h)),
  λ r. rw (not_zero n) (digits_loop_complete (suc n) domain n 0 (omega arith) (inr r)),
)
