-- ===== src/TreeMap/Laws.antt =====
-- The invariant of a long_map and the list of entries that it stands for.
use openwrt_extra.Common.{
  ℕ, ◌≡◌, refl, ◌∙◌, Option, some, List, [], ◌∷◌, ◌++◌, All-append, append_assoc, length,
}
use openwrt_extra.Common.Int.{ℤ}
use openwrt_extra.TreeMap.{Tree, node, Frame, rebuild}
use openwrt_extra.TreeMap.Maps.{LongMap, initialize_long_map}
use openwrt_extra.TreeMap.Contents.{to_list, lefts, rights}
use openwrt_extra.TreeMap.Height.{IsAvl}
use openwrt_extra.TreeMap.Walk.{IsPlace, IsPlace-to_list}
use openwrt_extra.TreeMap.Sorted.{Below, Above, IsSorted, IsSorted-append_parts}

module _ {ℓ} {V : Type ℓ} where
  -- The list of entries that a map stands for.
  abbrev pub entries : LongMap V → List (ℕ × V)
  entries m = to_list m.root

  pub record IsValid (m : LongMap V) : Type ℓ where
    pub avl : IsAvl m.root
    pub sorted : IsSorted (entries m)
    pub counted : m.num_elements ≡ length (entries m)

  pub whole-IsPlace : (m : LongMap V) (key : ℕ) → IsValid m → IsPlace key m.root [] m.root
  unfolding rebuild
  whole-IsPlace m key v = record {
    whole_tree = refl;
    avl_path = tt;
    avl = v.avl;
    sorted = v.sorted;
    below = tt;
    above = tt;
  }

  -- The entries of the whole tree, cut at the node with the key.
  pub record IsCut (key : ℕ) (old : V) (whole : Tree V) (xs ys : List (ℕ × V)) : Type ℓ where
    pub listed : to_list whole ≡ xs ++ ((key, old) ∷ ys)
    pub below : Below key xs
    pub above : Above key ys

  pub node-IsCut :
      (key k : ℕ) (old : V) (b : ℤ) (l r : Tree V) {whole : Tree V} (path : List (Frame V))
      → IsPlace key whole path (node k old b l r)
      → k ≡ key
      → IsCut key old whole (lefts path ++ to_list l) (to_list r ++ rights path)
  node-IsCut key k old b l r path p e =
      let cut = IsSorted-append_parts (to_list l) (k, old) (to_list r) p.sorted in
      record {
        listed = IsPlace-to_list p ∙ rw e (simp append_assoc);
        below = All-append _ (lefts path) (to_list l) p.below (rw e at cut.0);
        above = All-append _ (to_list r) (rights path) (rw e at cut.1) p.above;
      }

  -- A step that returns this value and a valid map of these entries.
  pub record IsStep (value : V) (xs : List (ℕ × V)) (r : Option (V × LongMap V)) : Type ℓ where
    pub map : LongMap V
    pub returns : r ≡ some (value, map)
    pub valid : IsValid map
    pub same : entries map ≡ xs

  pub initialize_long_map-IsValid : IsValid initialize_long_map
  unfolding initialize_long_map
  initialize_long_map-IsValid = record { avl = tt; sorted = tt; counted = refl }
