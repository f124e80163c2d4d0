-- ===== src/Common/Fields.antt =====
-- The longest runs in a string of bytes that a test does not hold of.
use Prim.Native.Nat.{ℕ, suc, ◌+◌, ◌≤◌, ◌<◌}
use mathlib.Core.Path.{◌≡◌, refl, ap}
use mathlib.Core.Logic.{◌⊎◌, inl, inr}
use mathlib.Core.Bool.{Bool, true, false}
use mathlib.Core.List.{List, [], ◌∷◌}
use native.Mathlib.Omega.{arith}
use openwrt_extra.Common.Tests.{if◌then◌else◌, Bool-cases}
use openwrt_extra.Common.Lists.{length, take, drop}

-- A byte before the runs of what follows it, of which it may go on with the first.
abbrev pub attach : Bool → ℕ → List (List ℕ) → List (List ℕ)
attach true c (w ∷ ws) = (c ∷ w) ∷ ws
attach _ c ws = (c ∷ []) ∷ ws

module _ (p : ℕ → Bool) where
  -- Does a run start here?
  abbrev pub starts_run : List ℕ → Bool
  starts_run [] = false
  starts_run (c ∷ s) = if p c then false else true

  unfoldable pub fields : List ℕ → List (List ℕ)
  fields [] = []
  fields (c ∷ s) = let fs = fields s in if p c then fs else attach (starts_run s) c fs

  -- What follows the bytes that the test holds of.
  unfoldable pub skip : List ℕ → List ℕ
  skip [] = []
  skip (c ∷ s) = let rest = skip s in if p c then rest else c ∷ s

  -- The length of the run that starts here.
  unfoldable pub run : List ℕ → ℕ
  run [] = 0
  run (c ∷ s) = let n = run s in if p c then 0 else suc n

  -- How many bytes the test holds of.
  unfoldable pub hits : List ℕ → ℕ
  hits [] = 0
  hits (c ∷ s) = let n = hits s in if p c then suc n else n

  pub fields-skip : (s : List ℕ) → fields (skip s) ≡ fields s
  unfolding fields skip
  fields-skip [] = refl
  fields-skip (c ∷ s) = elim (Bool-cases (p c)) [
    | inl hit ↦ rw hit (fields-skip s)
    | inr miss ↦ rw miss (rw miss refl)
  ]

  run_stop : (s : List ℕ) → starts_run s ≡ false → run s ≡ 0
  unfolding run
  run_stop [] h = refl
  run_stop (c ∷ s) h = elim (Bool-cases (p c)) [
    | inl hit ↦ rw hit refl
    | inr miss ↦ cc (rw miss at h)
  ]

  -- The first field is the run that starts here.
  pub fields-run :
      (s : List ℕ) → starts_run s ≡ true → fields s ≡ take (run s) s ∷ fields (drop (run s) s)
  unfolding fields run
  fields-run [] h = cc h
  fields-run (c ∷ s) h = elim (Bool-cases (p c)) [
    | inl hit ↦ cc (rw hit at h)
    | inr miss ↦ rw miss (elim (Bool-cases (starts_run s)) [
      | inl more ↦ rw more (rw (fields-run s more) refl)
      | inr end ↦ rw end (rw (run_stop s end) refl)
    ])
  ]

  length-attach : (b : Bool) (c : ℕ) (ws : List (List ℕ)) → length (attach b c ws) ≤ suc (length ws)
  length-attach true c [] = omega arith
  length-attach true c (w ∷ ws) = omega arith
  length-attach false c ws = omega arith

  length-attach-true :
      (c : ℕ) (ws : List (List ℕ)) (n : ℕ) → length ws ≤ suc n → length (attach true c ws) ≤ suc n
  length-attach-true c [] n h = omega arith
  length-attach-true c (w ∷ ws) n h = h

  -- One more field than bytes between fields, at most.
  abbrev pub spare : Bool → ℕ
  spare true = 1
  spare false = 0

  spare_le : (b : Bool) → spare b ≤ 1
  spare_le true = omega arith
  spare_le false = omega arith

  length-fields : (s : List ℕ) → length (fields s) ≤ hits s + spare (starts_run s)
  unfolding fields hits
  length-fields [] = omega arith
  length-fields (c ∷ s) = elim (Bool-cases (p c)) [
    | inl hit ↦ rw hit (omega (arith, length-fields s, spare_le (starts_run s)))
    | inr miss ↦ rw miss (elim (Bool-cases (starts_run s)) [
      | inl more ↦ rw more (
          omega (
            arith,
            length-attach-true c (fields s) (hits s) (omega (arith, rw more at (length-fields s))),
          ))
      | inr end ↦
          rw end (omega (arith, length-attach false c (fields s), rw end at (length-fields s)))
    ])
  ]

  pub length-fields_le : (s : List ℕ) → length (fields s) ≤ hits s + 1
  length-fields_le s = omega (arith, length-fields s, spare_le (starts_run s))

  pub length-skip : (s : List ℕ) → length (skip s) ≤ length s
  unfolding skip
  length-skip [] = omega arith
  length-skip (c ∷ s) = ground (arith, length-skip s)

  pub hits-skip : (s : List ℕ) → hits (skip s) ≤ hits s
  unfolding skip hits
  hits-skip [] = omega arith
  hits-skip (c ∷ s) = ground (arith, hits-skip s)

  -- What `skip` leaves is nothing, or starts with a run.
  pub skip-starts : (s : List ℕ) → (skip s ≡ []) ⊎ (starts_run (skip s) ≡ true)
  unfolding skip
  skip-starts [] = inl refl
  skip-starts (c ∷ s) = elim (Bool-cases (p c)) [
    | inl hit ↦ rw hit (skip-starts s)
    | inr miss ↦ rw miss (inr (rw miss refl))
  ]

  pub run_positive : (s : List ℕ) → starts_run s ≡ true → 0 < run s
  unfolding run
  run_positive [] h = cc h
  run_positive (c ∷ s) h = ground arith

  pub length-drop-run : (s : List ℕ) → length (drop (run s) s) + run s ≡ length s
  unfolding run
  length-drop-run [] = refl
  length-drop-run (c ∷ s) = elim (Bool-cases (p c)) [
    | inl hit ↦ rw hit (omega arith)
    | inr miss ↦ rw miss (omega (arith, length-drop-run s))
  ]

  -- After a run the string ends, or there is a byte that the test holds of.
  pub hits_after :
      (s : List ℕ)
      → (drop (run s) s ≡ []) × (take (run s) s ≡ s) ⊎ (hits (skip (drop (run s) s)) + 1 ≤ hits s)
  unfolding run hits skip
  hits_after [] = inl (refl, refl)
  hits_after (c ∷ s) = elim (Bool-cases (p c)) [
    | inl hit ↦ inr (rw hit (rw hit (omega (arith, hits-skip s))))
    | inr miss ↦
        rw miss (elim (hits_after s) [ inl (a, b) ↦ inl (a, ap (λ x. c ∷ x) b) | inr h ↦ inr h ])
  ]
