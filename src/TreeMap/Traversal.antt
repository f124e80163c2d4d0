-- ===== src/TreeMap/Traversal.antt =====
-- The ordered traversals of a tree, and its first and last entries.
use openwrt_extra.Common.{
  ℕ, suc, ◌<◌, ◌≡◌, refl, sym, ap, List, [], ◌∷◌, ◌++◌, map, length, append_assoc, append-nil, All,
}
use mathlib.Core.List.{map-append}
use openwrt_extra.TreeMap.{Tree, null, node}
use openwrt_extra.TreeMap.Maps.{
  LongMap, get_sorted_node_keys, get_sorted_node_values, get_sorted_long_map_keys,
  get_sorted_long_map_values, apply_to_every_long_map_node, apply_to_every_long_map_value,
}
use openwrt_extra.TreeMap.Contents.{to_list}
use openwrt_extra.TreeMap.Laws.{entries, IsValid}
use openwrt_extra.TreeMap.Sorted.{IsSorted, Above}

-- Strictly ascending.
abbrev pub IsAscending : List ℕ → Type 0
IsAscending [] = Unit
IsAscending (k ∷ ks) = All (λ j. k < j) ks × IsAscending ks

module _ {ℓ} {V : Type ℓ} where
  abbrev pub key_of : ℕ × V → ℕ
  key_of e = e.0

  abbrev pub value_of : ℕ × V → V
  value_of e = e.1

  get_sorted_node_keys-eq :
      (t : Tree V) (out : List ℕ) → get_sorted_node_keys t out ≡ out ++ map key_of (to_list t)
  unfolding get_sorted_node_keys
  get_sorted_node_keys-eq null out = sym (append-nil out)
  get_sorted_node_keys-eq (node k v b l r) out =
      simp (get_sorted_node_keys-eq l out, get_sorted_node_keys-eq r, map-append, append_assoc)

  get_sorted_node_values-eq :
      (t : Tree V) (out : List V) → get_sorted_node_values t out ≡ out ++ map value_of (to_list t)
  unfolding get_sorted_node_values
  get_sorted_node_values-eq null out = sym (append-nil out)
  get_sorted_node_values-eq (node k v b l r) out =
      simp (get_sorted_node_values-eq l out, get_sorted_node_values-eq r, map-append, append_assoc)

  All-map_key : (k : ℕ) (xs : List (ℕ × V)) → Above k xs → All (λ j. k < j) (map key_of xs)
  All-map_key k [] a = tt
  All-map_key k (x ∷ xs) a = (a.0, All-map_key k xs a.1)

  map_key-IsAscending : (xs : List (ℕ × V)) → IsSorted xs → IsAscending (map key_of xs)
  map_key-IsAscending [] s = tt
  map_key-IsAscending (x ∷ xs) s = (All-map_key x.0 xs s.0, map_key-IsAscending xs s.1)

  length-map_key : (xs : List (ℕ × V)) → length (map key_of xs) ≡ length xs
  length-map_key [] = refl
  length-map_key (x ∷ xs) = ap suc (length-map_key xs)

  -- The key array of a valid map holds the keys in strictly ascending order, and the number
  -- returned, which is also the size that the array was allocated with, is its length.
  get_sorted_long_map_keys-IsAscending :
      (m : LongMap V)
      → IsValid m
      → ((get_sorted_long_map_keys m).0 ≡ map key_of (entries m))
        × IsAscending (get_sorted_long_map_keys m).0
        × (length (get_sorted_long_map_keys m).0 ≡ (get_sorted_long_map_keys m).1)
  unfolding get_sorted_long_map_keys
  get_sorted_long_map_keys-IsAscending m ok =
      let e = get_sorted_node_keys-eq m.root [] in
      (
        e,
        rw e (map_key-IsAscending (entries m) ok.sorted),
        rw (e, ok.counted) (length-map_key (entries m)),
      )

  -- The value array of a valid map holds the values in the order of their keys, and then NULL.
  pub get_sorted_long_map_values-eq :
      (nil : V) (m : LongMap V)
      → IsValid m
      → get_sorted_long_map_values nil m
        ≡ (map value_of (entries m) ++ nil ∷ [], length (entries m))
  unfolding get_sorted_long_map_values
  get_sorted_long_map_values-eq nil m ok = cc (get_sorted_node_values-eq m.root [], ok.counted)

  -- A fold over the entries, from the first.
  unfoldable pub fold_entries {κ} : {S : Type κ} → (ℕ → V → S → S) → List (ℕ × V) → S → S
  fold_entries f [] s = s
  fold_entries f ((k, v) ∷ xs) s = fold_entries f xs (f k v s)

  pub fold_entries-append {κ} :
      {S : Type κ} (f : ℕ → V → S → S) (xs ys : List (ℕ × V)) (s : S)
      → fold_entries f (xs ++ ys) s ≡ fold_entries f ys (fold_entries f xs s)
  unfolding fold_entries
  fold_entries-append f [] ys s = refl
  fold_entries-append f (x ∷ xs) ys s = fold_entries-append f xs ys (f x.0 x.1 s)

  apply_to_every-eq {κ} :
      {S : Type κ} (f : ℕ → V → S → S) (t : Tree V) (s : S)
      → apply_to_every_long_map_node f t s ≡ fold_entries f (to_list t) s
  unfolding apply_to_every_long_map_node fold_entries
  apply_to_every-eq f null s = refl
  apply_to_every-eq f (node k v b l r) s =
      rw (fold_entries-append f (to_list l) ((k, v) ∷ to_list r) s, apply_to_every-eq f l s)
        (apply_to_every-eq f r _)

  -- `apply_to_every_long_map_value` calls the function on each entry, in the order of the keys.
  apply_to_every_long_map_value-eq {κ} :
      {S : Type κ} (m : LongMap V) (f : ℕ → V → S → S) (s : S)
      → apply_to_every_long_map_value m f s ≡ fold_entries f (entries m) s
  unfolding apply_to_every_long_map_value
  apply_to_every_long_map_value-eq m f s = apply_to_every-eq f m.root s
