-- ===== src/TreeMap/Ends.antt =====
-- The first and the last entry of a long_map, and their removal.
use openwrt_extra.Common.{
  ℕ, ◌<◌, ◌≡◌, refl, ◌∙◌, sym, List, [], ◌∷◌, ◌++◌, arith, length, some, ◌==◌, true,
}
use openwrt_extra.TreeMap.{Tree, null, node}
use openwrt_extra.TreeMap.Maps.{
  LongMap, ulong_bound, smallest, largest, get_smallest_long_map_element,
  get_largest_long_map_element, remove_smallest_long_map_element,
}
use openwrt_extra.TreeMap.Contents.{to_list}
use openwrt_extra.TreeMap.Laws.{entries, IsValid}
use openwrt_extra.TreeMap.Steps.{remove_long_map_element-IsStep}
use openwrt_extra.TreeMap.Sorted.{assoc_get, assoc_remove}

head_test : (k : ℕ) → (k == k) ≡ true
head_test k = ground arith

module _ {ℓ} {V : Type ℓ} where
  -- The value and key of the first entry, or `nil` and the key that was there.
  abbrev pub first_entry : V → ℕ → List (ℕ × V) → V × ℕ
  first_entry nil key [] = (nil, key)
  first_entry nil key ((k, v) ∷ xs) = (v, k)

  abbrev pub last_entry : V → ℕ → List (ℕ × V) → V × ℕ
  last_entry nil key [] = (nil, key)
  last_entry nil key ((k, v) ∷ xs) = last_entry v k xs

  first_entry-append :
      (nil : V) (key : ℕ) (xs : List (ℕ × V)) (e : ℕ × V) (ys zs : List (ℕ × V))
      → first_entry nil key ((xs ++ (e ∷ ys)) ++ zs) ≡ first_entry nil key (xs ++ (e ∷ ys))
  first_entry-append nil key [] e ys zs = refl
  first_entry-append nil key (x ∷ xs) e ys zs = refl

  last_entry-append :
      (nil : V) (key : ℕ) (xs : List (ℕ × V)) (e : ℕ × V) (ys : List (ℕ × V))
      → last_entry nil key (xs ++ (e ∷ ys)) ≡ last_entry e.1 e.0 ys
  last_entry-append nil key [] e ys = refl
  last_entry-append nil key (x ∷ xs) e ys = last_entry-append x.1 x.0 xs e ys

  smallest-eq :
      (nil : V) (t : Tree V) (key : ℕ) → smallest nil t key ≡ first_entry nil key (to_list t)
  unfolding smallest
  smallest-eq nil null key = refl
  smallest-eq nil (node k v b null r) key = refl
  smallest-eq nil (node k v b (node lk lv lb ll lr) r) key =
      smallest-eq nil (node lk lv lb ll lr) key
      ∙ sym (first_entry-append nil key (to_list ll) (lk, lv) (to_list lr) ((k, v) ∷ to_list r))

  largest-eq : (nil : V) (t : Tree V) (key : ℕ) → largest nil t key ≡ last_entry nil key (to_list t)
  unfolding largest
  largest-eq nil null key = refl
  largest-eq nil (node k v b l null) key = sym (last_entry-append nil key (to_list l) (k, v) [])
  largest-eq nil (node k v b l (node rk rv rb rl rr)) key =
      largest-eq nil (node rk rv rb rl rr) key
      ∙ last_entry-append nil key (to_list rl) (rk, rv) (to_list rr)
      ∙ sym (last_entry-append v k (to_list rl) (rk, rv) (to_list rr))
      ∙ sym (last_entry-append nil key (to_list l) (k, v) (to_list (node rk rv rb rl rr)))

  -- The smallest and the largest element are the first and the last of the sorted entries; of an
  -- empty map NULL is returned and the caller's key is left alone.
  get_ends :
      (nil : V) (m : LongMap V) (key : ℕ)
      → (get_smallest_long_map_element nil m key ≡ first_entry nil key (entries m))
        × (get_largest_long_map_element nil m key ≡ last_entry nil key (entries m))
  unfolding get_smallest_long_map_element get_largest_long_map_element
  get_ends nil m key = (smallest-eq nil m.root key, largest-eq nil m.root key)

  -- Removing the smallest element of a valid map that has one returns its value and key, and leaves
  -- a valid map of the other entries.
  pub remove_smallest-eq :
      (nil : V) (m : LongMap V) (key k : ℕ) (v : V) (xs : List (ℕ × V))
      → IsValid m
      → length (entries m) < ulong_bound
      → entries m ≡ (k, v) ∷ xs
      → (m' : LongMap V) × (remove_smallest_long_map_element nil m key ≡ some (v, k, m'))
        × IsValid m'
        × (entries m' ≡ xs)
  unfolding remove_smallest_long_map_element
  remove_smallest-eq nil m key k v xs ok room e =
      let z = remove_long_map_element-IsStep nil k m ok room in
      let got : assoc_get nil k (entries m) ≡ v = rw e (unfold assoc_get in rw (head_test k)) in
      (
        z.map,
        rw ((get_ends nil m key).0) (rw e (rw (z.returns) (rw got))),
        z.valid,
        z.same ∙ rw e (unfold assoc_remove in rw (head_test k)),
      )
