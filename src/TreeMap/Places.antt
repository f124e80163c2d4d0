-- ===== src/TreeMap/Places.antt =====
-- The operations on a sorted list at a place: what lies to the left of a key and to the right.
use openwrt_extra.Common.{ℕ, ◌≡◌, refl, List, [], ◌∷◌, ◌++◌, arith, ◌==◌, if◌then◌else◌}
use openwrt_extra.TreeMap.Sorted.{Below, Above, IsSorted, assoc_get, assoc_set, assoc_remove}

module _ {ℓ} {V : Type ℓ} where
  module _ (key : ℕ) where
    pub assoc_get-absent :
        (nil : V) (xs ys : List (ℕ × V))
        → Below key xs
        → Above key ys
        → assoc_get nil key (xs ++ ys) ≡ nil
    unfolding assoc_get
    assoc_get-absent nil [] [] b a = refl
    assoc_get-absent nil [] (y ∷ ys) b a = ground (arith, assoc_get-absent nil [] ys)
    assoc_get-absent nil (x ∷ xs) ys b a = ground (arith, assoc_get-absent nil xs ys)

    pub assoc_get-present :
        (nil v : V) (xs ys : List (ℕ × V))
        → Below key xs
        → assoc_get nil key (xs ++ ((key, v) ∷ ys)) ≡ v
    unfolding assoc_get
    assoc_get-present nil v [] ys b = ground arith
    assoc_get-present nil v (x ∷ xs) ys b = ground (arith, assoc_get-present nil v xs ys)

    pub assoc_set-absent :
        (v : V) (xs ys : List (ℕ × V))
        → Below key xs
        → Above key ys
        → assoc_set key v (xs ++ ys) ≡ xs ++ ((key, v) ∷ ys)
    unfolding assoc_set
    assoc_set-absent v [] [] b a = refl
    assoc_set-absent v [] (y ∷ ys) b a = ground arith
    assoc_set-absent v (x ∷ xs) ys b a = ground (arith, assoc_set-absent v xs ys)

    pub assoc_set-present :
        (v old : V) (xs ys : List (ℕ × V))
        → Below key xs
        → assoc_set key v (xs ++ ((key, old) ∷ ys)) ≡ xs ++ ((key, v) ∷ ys)
    unfolding assoc_set
    assoc_set-present v old [] ys b = ground arith
    assoc_set-present v old (x ∷ xs) ys b = ground (arith, assoc_set-present v old xs ys)

    pub assoc_remove-absent :
        (xs ys : List (ℕ × V))
        → Below key xs
        → Above key ys
        → assoc_remove key (xs ++ ys) ≡ xs ++ ys
    unfolding assoc_remove
    assoc_remove-absent [] [] b a = refl
    assoc_remove-absent [] (y ∷ ys) b a = ground (arith, assoc_remove-absent [] ys)
    assoc_remove-absent (x ∷ xs) ys b a = ground (arith, assoc_remove-absent xs ys)

    pub assoc_remove-present :
        (old : V) (xs ys : List (ℕ × V))
        → Below key xs
        → assoc_remove key (xs ++ ((key, old) ∷ ys)) ≡ xs ++ ys
    unfolding assoc_remove
    assoc_remove-present old [] ys b = ground arith
    assoc_remove-present old (x ∷ xs) ys b = ground (arith, assoc_remove-present old xs ys)

  -- What each key reads after a change.
  pub assoc_get-assoc_set :
      (nil : V) (key : ℕ) (v : V) (xs : List (ℕ × V)) (j : ℕ)
      → assoc_get nil j (assoc_set key v xs) ≡ (if key == j then v else assoc_get nil j xs)
  unfolding assoc_get assoc_set
  assoc_get-assoc_set nil key v [] j = refl
  assoc_get-assoc_set nil key v (x ∷ xs) j = ground (arith, assoc_get-assoc_set nil key v xs j)

  pub assoc_get-assoc_remove :
      (nil : V) (key : ℕ) (xs : List (ℕ × V)) (j : ℕ)
      → IsSorted xs
      → assoc_get nil j (assoc_remove key xs) ≡ (if key == j then nil else assoc_get nil j xs)
  unfolding assoc_get assoc_remove
  assoc_get-assoc_remove nil key [] j s = ground arith
  assoc_get-assoc_remove nil key (x ∷ xs) j s =
      ground (arith, assoc_get-assoc_remove nil key xs j, assoc_get-absent x.0 nil [] xs tt)
