-- ===== src/TreeMap/Sorted.antt =====
-- Association lists in ascending order of keys: what a long_map stands for, and how its operations
-- read there. A place in such a list is what lies to the left of it and what to the right.
use openwrt_extra.Common.{
  ℕ, ◌<◌, List, [], ◌∷◌, ◌++◌, All, All-append, All-append_parts, All-imp, length, ◌+◌, ◌≤◌, arith,
  ltb, ◌==◌, if◌then◌else◌,
}

module _ {ℓ} {V : Type ℓ} where
  abbrev pub Below : ℕ → List (ℕ × V) → Type 0
  Below key xs = All (λ (e : ℕ × V). e.0 < key) xs

  abbrev pub Above : ℕ → List (ℕ × V) → Type 0
  Above key xs = All (λ (e : ℕ × V). key < e.0) xs

  abbrev pub IsSorted : List (ℕ × V) → Type 0
  IsSorted [] = Unit
  IsSorted (e ∷ xs) = Above e.0 xs × IsSorted xs

  -- The value under a key, or `nil`.
  unfoldable pub assoc_get : V → ℕ → List (ℕ × V) → V
  assoc_get nil key [] = nil
  assoc_get nil key ((k, v) ∷ xs) = if k == key then v else assoc_get nil key xs

  -- The list with the key set to a value.
  unfoldable pub assoc_set : ℕ → V → List (ℕ × V) → List (ℕ × V)
  assoc_set key value [] = (key, value) ∷ []
  assoc_set key value ((k, v) ∷ xs) =
      let rest = assoc_set key value xs in
      if ltb key k
      then (key, value) ∷ (k, v) ∷ xs
      else if k == key
      then (key, value) ∷ xs
      else (k, v) ∷ rest

  -- The list without the key.
  unfoldable pub assoc_remove : ℕ → List (ℕ × V) → List (ℕ × V)
  assoc_remove key [] = []
  assoc_remove key ((k, v) ∷ xs) = if k == key then xs else (k, v) ∷ assoc_remove key xs

  -- A sorted list, cut at an entry.
  pub IsSorted-append_parts :
      (xs : List (ℕ × V)) (e : ℕ × V) (ys : List (ℕ × V))
      → IsSorted (xs ++ (e ∷ ys))
      → Below e.0 xs × Above e.0 ys × IsSorted xs × IsSorted ys
  IsSorted-append_parts [] e ys s = (tt, s.0, tt, s.1)
  IsSorted-append_parts (x ∷ xs) e ys s =
      let rest = IsSorted-append_parts xs e ys s.1 in
      let cut = All-append_parts _ xs (e ∷ ys) s.0 in
      ((cut.1.0, rest.0), rest.1, (cut.0, rest.2), rest.3)

  pub Below-trans : (a b : ℕ) (xs : List (ℕ × V)) → a < b → Below a xs → Below b xs
  Below-trans a b xs h p = All-imp xs (λ e q. omega arith) p

  pub Above-trans : (a b : ℕ) (xs : List (ℕ × V)) → a < b → Above b xs → Above a xs
  Above-trans a b xs h p = All-imp xs (λ e q. omega arith) p

  pub IsSorted-append :
      (xs : List (ℕ × V)) (e : ℕ × V) (ys : List (ℕ × V))
      → IsSorted xs
      → IsSorted ys
      → Below e.0 xs
      → Above e.0 ys
      → IsSorted (xs ++ (e ∷ ys))
  IsSorted-append [] e ys s t b a = (a, t)
  IsSorted-append (x ∷ xs) e ys s t b a = (
    All-append _ xs (e ∷ ys) s.0 (b.0, Above-trans x.0 e.0 ys b.0 a),
    IsSorted-append xs e ys s.1 t b.1 a,
  )

  Above-assoc_set :
      (a key : ℕ) (v : V) (xs : List (ℕ × V)) → a < key → Above a xs → Above a (assoc_set key v xs)
  unfolding assoc_set
  Above-assoc_set a key v [] h p = (h, tt)
  Above-assoc_set a key v (x ∷ xs) h p = ground (arith, Above-assoc_set a key v xs)

  -- Setting a key keeps the list sorted.
  pub assoc_set-IsSorted :
      (key : ℕ) (v : V) (xs : List (ℕ × V)) → IsSorted xs → IsSorted (assoc_set key v xs)
  unfolding assoc_set
  assoc_set-IsSorted key v [] s = (tt, tt)
  assoc_set-IsSorted key v (x ∷ xs) s =
      ground
        (arith, assoc_set-IsSorted key v xs, Above-assoc_set x.0 key v xs, Above-trans key x.0 xs)

  Above-assoc_remove : (a key : ℕ) (xs : List (ℕ × V)) → Above a xs → Above a (assoc_remove key xs)
  unfolding assoc_remove
  Above-assoc_remove a key [] p = tt
  Above-assoc_remove a key (x ∷ xs) p = ground (arith, Above-assoc_remove a key xs)

  -- Removing a key keeps the list sorted.
  pub assoc_remove-IsSorted :
      (key : ℕ) (xs : List (ℕ × V)) → IsSorted xs → IsSorted (assoc_remove key xs)
  unfolding assoc_remove
  assoc_remove-IsSorted key [] s = tt
  assoc_remove-IsSorted key (x ∷ xs) s =
      ground (arith, assoc_remove-IsSorted key xs, Above-assoc_remove x.0 key xs)

  pub length-assoc_set :
      (key : ℕ) (v : V) (xs : List (ℕ × V)) → length (assoc_set key v xs) ≤ length xs + 1
  unfolding assoc_set
  length-assoc_set key v [] = omega arith
  length-assoc_set key v (x ∷ xs) = ground (arith, length-assoc_set key v xs)

  pub length-assoc_remove : (key : ℕ) (xs : List (ℕ × V)) → length (assoc_remove key xs) ≤ length xs
  unfolding assoc_remove
  length-assoc_remove key [] = omega arith
  length-assoc_remove key (x ∷ xs) = ground (arith, length-assoc_remove key xs)
