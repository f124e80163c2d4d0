-- ===== src/TreeMap/Reading.antt =====
-- What reading a key of a valid long_map gives.
use openwrt_extra.Common.{ℕ, ◌≡◌, refl, sym, ◌∙◌, List, [], ◌∷◌, arith}
use openwrt_extra.TreeMap.{Tree, null, node, Frame, descend, go_left, go_right}
use openwrt_extra.TreeMap.Maps.{LongMap, find_value, get_long_map_element}
use openwrt_extra.TreeMap.Contents.{to_list, lefts, rights}
use openwrt_extra.TreeMap.Walk.{EndsAt, IsPlace, descend-IsPlace, IsPlace-to_list}
use openwrt_extra.TreeMap.Sorted.{assoc_get}
use openwrt_extra.TreeMap.Places.{assoc_get-absent, assoc_get-present}
use openwrt_extra.TreeMap.Laws.{entries, IsValid, whole-IsPlace, node-IsCut}

module _ {ℓ} {V : Type ℓ} where
  module _ (nil : V) (key : ℕ) where
    value_at : Tree V → V
    value_at null = nil
    value_at (node k v b l r) = v

    find_value-descend :
        (t : Tree V) (path : List (Frame V))
        → find_value nil key t ≡ value_at (descend key t path).1
    unfolding find_value descend value_at
    find_value-descend null path = refl
    find_value-descend (node k v b l r) path = ground (
      arith,
      find_value-descend l (go_left k v b r ∷ path),
      find_value-descend r (go_right k v b l ∷ path),
    )

    value_at-IsPlace :
        {whole : Tree V} {path : List (Frame V)} (t : Tree V)
        → IsPlace key whole path t
        → EndsAt key t
        → value_at t ≡ assoc_get nil key (to_list whole)
    unfolding value_at
    value_at-IsPlace {path} null p ends =
        rw (IsPlace-to_list p)
          (sym (assoc_get-absent key nil (lefts path) (rights path) p.below p.above))
    value_at-IsPlace {path} (node k v b l r) p ends =
        let c = node-IsCut key k v b l r path p ends in
        rw (c.listed) (sym (assoc_get-present key nil v _ _ c.below))

    -- The walk of `get_long_map_element` down a valid map finds what the sorted list of entries has
    -- under the key, and NULL for a key that is not there.
    pub get_long_map_element-eq-assoc_get :
        (m : LongMap V) → IsValid m → get_long_map_element nil m key ≡ assoc_get nil key (entries m)
    unfolding get_long_map_element
    get_long_map_element-eq-assoc_get m ok =
        let (p, ends) = descend-IsPlace key m.root [] (whole-IsPlace m key ok) in
        find_value-descend m.root [] ∙ value_at-IsPlace _ p ends
