-- ===== src/TreeMap/Steps.antt =====
-- What setting and removing do to the sorted list of entries that a valid long_map stands for.
use openwrt_extra.Common.{
  ℕ, ◌+◌, ◌-◌, ◌%◌, ◌<◌, ◌≡◌, refl, sym, ap, ◌∙◌, List, [], ◌∷◌, ◌++◌, inl, arith, append_assoc,
  length, length-append,
}
use openwrt_extra.Common.Int.{pos}
use openwrt_extra.TreeMap.{Tree, null, node, Frame, rebuild}
use openwrt_extra.TreeMap.Maps.{
  LongMap, ulong_bound, put_at, take_at, set_long_map_element, remove_long_map_element,
}
use openwrt_extra.TreeMap.Contents.{to_list, lefts, rights, to_list-rebuild}
use openwrt_extra.TreeMap.Paths.{insert_up-IsTree, rebuild-IsAvl}
use openwrt_extra.TreeMap.Walk.{EndsAt, IsPlace, descend-IsPlace, IsPlace-to_list}
use openwrt_extra.TreeMap.Unlink.{unlink-IsTree}
use openwrt_extra.TreeMap.Sorted.{
  assoc_get, assoc_set, assoc_remove, assoc_set-IsSorted, assoc_remove-IsSorted,
}
use openwrt_extra.TreeMap.Places.{
  assoc_get-absent, assoc_get-present, assoc_set-absent, assoc_set-present, assoc_remove-absent,
  assoc_remove-present,
}
use openwrt_extra.TreeMap.Laws.{entries, IsValid, whole-IsPlace, node-IsCut, IsStep}

module _ {ℓ} {V : Type ℓ} where
  module _ (nil : V) (key : ℕ) where
    put_at-IsStep :
        (m : LongMap V) (value : V) (path : List (Frame V)) (t : Tree V)
        → IsValid m
        → length (entries m) + 1 < ulong_bound
        → IsPlace key m.root path t
        → EndsAt key t
        → IsStep
            (assoc_get nil key (entries m))
            (assoc_set key value (entries m))
            (put_at nil m key value path t)
    unfolding put_at
    put_at-IsStep m value path null ok room p ends =
        let e = IsPlace-to_list p in
        let z =
          insert_up-IsTree path (node key value (pos 0) null null) 0 p.avl_path (omega arith) refl
            (inl refl) in
        let same =
          z.same
          ∙ sym (
              ap (assoc_set key value) e
              ∙ assoc_set-absent key value (lefts path) (rights path) p.below p.above) in
        record {
          map = record { root = z.tree; num_elements = (m.num_elements + 1) % ulong_bound };
          returns =
              rw (z.returns)
                (rw e (rw (assoc_get-absent key nil (lefts path) (rights path) p.below p.above)));
          valid = record {
            avl = z.avl;
            sorted = rw same (assoc_set-IsSorted key value (entries m) ok.sorted);
            counted = omega (
              arith,
              ok.counted,
              ap length e,
              ap length z.same,
              length-append (lefts path) (rights path),
              length-append (lefts path) ((key, value) ∷ rights path),
            );
          };
          same = same;
        }
    put_at-IsStep m value path (node k old b l r) ok room p ends =
        let c = node-IsCut key k old b l r path p ends in
        let xs = lefts path ++ to_list l in
        let ys = to_list r ++ rights path in
        let put : to_list (rebuild path (node k value b l r)) ≡ xs ++ ((key, value) ∷ ys) =
          to_list-rebuild path (node k value b l r) ∙ rw ends (simp append_assoc) in
        let same =
          put
          ∙ sym
              (ap (assoc_set key value) c.listed ∙ assoc_set-present key value old xs ys c.below) in
        record {
          map = record m { root = rebuild path (node k value b l r) };
          returns = rw (c.listed) (rw (assoc_get-present key nil old xs ys c.below));
          valid = record {
            avl = rebuild-IsAvl path (node k value b l r) p.avl_path p.avl;
            sorted = rw same (assoc_set-IsSorted key value (entries m) ok.sorted);
            counted = omega (
              arith,
              ok.counted,
              ap length c.listed,
              ap length put,
              length-append xs ((key, old) ∷ ys),
              length-append xs ((key, value) ∷ ys),
            );
          };
          same = same;
        }

    take_at-IsStep :
        (m : LongMap V) (path : List (Frame V)) (t : Tree V)
        → IsValid m
        → length (entries m) < ulong_bound
        → IsPlace key m.root path t
        → EndsAt key t
        → IsStep
            (assoc_get nil key (entries m))
            (assoc_remove key (entries m))
            (take_at nil m path t)
    unfolding take_at
    take_at-IsStep m path null ok room p ends =
        let e = IsPlace-to_list p in
        record {
          map = m;
          returns = rw e (rw (assoc_get-absent key nil (lefts path) (rights path) p.below p.above));
          valid = ok;
          same =
              e
              ∙ sym (
                  ap (assoc_remove key) e
                  ∙ assoc_remove-absent key (lefts path) (rights path) p.below p.above);
        }
    take_at-IsStep m path (node k old b l r) ok room p ends =
        let c = node-IsCut key k old b l r path p ends in
        let xs = lefts path ++ to_list l in
        let ys = to_list r ++ rights path in
        let z = unlink-IsTree path k old b l r p.avl_path p.avl in
        let cut = z.same ∙ sym (append_assoc (lefts path) (to_list l) ys) in
        let same =
          cut ∙ sym (ap (assoc_remove key) c.listed ∙ assoc_remove-present key old xs ys c.below) in
        record {
          map = record {
            root = z.tree;
            num_elements = (m.num_elements + ulong_bound - 1) % ulong_bound;
          };
          returns =
              rw (z.returns) (rw (c.listed) (rw (assoc_get-present key nil old xs ys c.below)));
          valid = record {
            avl = z.avl;
            sorted = rw same (assoc_remove-IsSorted key (entries m) ok.sorted);
            counted = omega (
              arith,
              ok.counted,
              ap length c.listed,
              ap length cut,
              length-append xs ((key, old) ∷ ys),
              length-append xs ys,
            );
          };
          same = same;
        }

    -- Setting a key of a valid map that is not full reads nothing through NULL, returns what the
    -- sorted list of entries has under the key, and gives a valid map (an AVL tree with right
    -- balances, sorted, counted) of that list with the key set.
    pub set_long_map_element-IsStep :
        (m : LongMap V) (value : V)
        → IsValid m
        → length (entries m) + 1 < ulong_bound
        → IsStep
            (assoc_get nil key (entries m))
            (assoc_set key value (entries m))
            (set_long_map_element nil m key value)
    unfolding set_long_map_element
    set_long_map_element-IsStep m value ok room =
        let (p, ends) = descend-IsPlace key m.root [] (whole-IsPlace m key ok) in
        put_at-IsStep m value _ _ ok room p ends

    -- Removing a key of a valid map reads nothing through NULL, returns what the sorted list of
    -- entries has under the key, and gives a valid map of that list without the key.
    pub remove_long_map_element-IsStep :
        (m : LongMap V)
        → IsValid m
        → length (entries m) < ulong_bound
        → IsStep
            (assoc_get nil key (entries m))
            (assoc_remove key (entries m))
            (remove_long_map_element nil m key)
    unfolding remove_long_map_element
    remove_long_map_element-IsStep m ok room =
        let (p, ends) = descend-IsPlace key m.root [] (whole-IsPlace m key ok) in
        take_at-IsStep m _ _ ok room p ends
