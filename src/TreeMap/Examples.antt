-- ===== src/TreeMap/Examples.antt =====
-- Runs of the long_map and the string_map, and each theorem at an input.
use openwrt_extra.Common.{
  ℕ, ◌≡◌, refl, inr, some, none, List, [], ◌∷◌, arith, ◌>>=◌, ◌==◌, if◌then◌else◌, true, ◌+◌,
}
use openwrt_extra.Common.Int.{pos, negsuc}
use openwrt_extra.TreeMap.{
  null, node, left, right, insert_node, delete_node, rebalance, fix_left, fix_right, rebuild,
  descend, insert_up, delete_up, unlink, plug,
}
use openwrt_extra.TreeMap.Maps.{
  LongMap, set_long_map_element, remove_long_map_element, get_long_map_element, initialize_long_map,
  get_sorted_long_map_keys, get_sorted_node_keys, destroy_long_map, return_values, free_values,
  ignore_values,
}
use openwrt_extra.TreeMap.Height.{height}
use openwrt_extra.TreeMap.Grown.{IsGrown, insert-IsGrown}
use openwrt_extra.TreeMap.Shrunk.{IsShrunk, delete-IsShrunk}
use openwrt_extra.TreeMap.Sorted.{assoc_get, assoc_set, assoc_remove}
use openwrt_extra.TreeMap.Laws.{entries, IsValid, IsStep}
use openwrt_extra.TreeMap.Steps.{set_long_map_element-IsStep, remove_long_map_element-IsStep}
use openwrt_extra.TreeMap.Client.{set, remove, run, replay, run_refines}
use openwrt_extra.TreeMap.Destroy.{destroy_long_map-eq}
use openwrt_extra.TreeMap.Strings.{
  StringMap, absent, raw, key_value, sdbm_string_hash, initialize_string_map,
  get_string_map_element, set_string_map_element, remove_string_map_element, sdbm_loop, sdbm_round,
}
use openwrt_extra.TreeMap.Strings
use openwrt_extra.TreeMap.Strings.Laws.{
  IsStringMap, held, held-set_string_map_element, held-remove_string_map_element,
}
use openwrt_extra.TreeMap.Strings.{Stored}
use openwrt_extra.Common.{Option}

program : Unit {0}
unfolding rebalance rebuild descend insert_up delete_up unlink set_long_map_element
    remove_long_map_element get_long_map_element initialize_long_map get_sorted_long_map_keys
    get_sorted_node_keys fix_left fix_right get_string_map_element Strings.value_of sdbm_string_hash
    sdbm_loop sdbm_round
program = tt

abbrev three : LongMap ℕ
three = record {
  root = node 2 20 (pos 0) (node 1 10 (pos 0) null null) (node 5 50 (pos 0) null null);
  num_elements = 3;
}

three-IsValid : IsValid three
three-IsValid = record { avl = omega arith; sorted = omega arith; counted = refl }

-- Ascending keys do not make a list of the tree: seven of them fill three levels.
ascending :
    run {V = ℕ} 0
        (set 1 1 ∷ set 2 2 ∷ set 3 3 ∷ set 4 4 ∷ set 5 5 ∷ set 6 6 ∷ set 7 7 ∷ [])
        initialize_long_map
      >>= (λ m. some (height m.root))
    ≡ some 3
unfolding run program
ascending = refl

-- The removal of a node with two children, and a rotation on the way up.
removal :
    run 0 (remove 1 ∷ remove 2 ∷ set 9 90 ∷ set 12 1 ∷ []) three
      >>= (λ m. some (get_sorted_long_map_keys m))
    ≡ some (5 ∷ 9 ∷ 12 ∷ [], 3)
unfolding run program
removal = refl

insert-IsGrown_example :
    IsGrown {V = ℕ} left 5 50
      (negsuc 0)
      null
      (node 2 20 (negsuc 0) (node 1 10 (pos 0) null null) null)
      1
      (rebalance
        (plug left 5 50 (negsuc 0) null (node 2 20 (negsuc 0) (node 1 10 (pos 0) null null) null))
        left
        insert_node)
insert-IsGrown_example =
    insert-IsGrown 5 50 null (node 2 20 (negsuc 0) (node 1 10 (pos 0) null null) null) 1 tt
      (omega arith) left (negsuc 0) (omega arith) (omega arith) (omega arith) refl (inr (λ e. cc e))

delete-IsShrunk_example :
    IsShrunk {V = ℕ} right 5 50
      (negsuc 0)
      (node 2 20 (pos 0) (node 1 10 (pos 0) null null) (node 3 30 (pos 0) null null))
      null
      1
      (rebalance
        (plug right 5 50
          (negsuc 0)
          (node 2 20 (pos 0) (node 1 10 (pos 0) null null) (node 3 30 (pos 0) null null))
          null)
        right
        delete_node)
delete-IsShrunk_example =
    delete-IsShrunk 5 50
      (node 2 20 (pos 0) (node 1 10 (pos 0) null null) (node 3 30 (pos 0) null null)) null 1
      (omega arith) tt right (negsuc 0) (omega arith) (omega arith) (omega arith) refl

set_long_map_element-IsStep_example :
    IsStep
      (assoc_get 0 7 (entries three))
      (assoc_set 7 70 (entries three))
      (set_long_map_element 0 three 7 70)
set_long_map_element-IsStep_example =
    set_long_map_element-IsStep 0 7 three 70 three-IsValid (omega arith)

remove_long_map_element-IsStep_example :
    IsStep
      (assoc_get 0 2 (entries three))
      (assoc_remove 2 (entries three))
      (remove_long_map_element 0 three 2)
remove_long_map_element-IsStep_example =
    remove_long_map_element-IsStep 0 2 three three-IsValid (omega arith)

run_refines_example :
    (m : LongMap ℕ) × (run 0 (set 7 70 ∷ remove 2 ∷ []) three ≡ some m)
    × IsValid m
    × ((j : ℕ)
        → get_long_map_element 0 m j
          ≡ replay 0 (set 7 70 ∷ remove 2 ∷ []) (get_long_map_element 0 three) j)
run_refines_example = run_refines 0 (set 7 70 ∷ remove 2 ∷ []) three three-IsValid (omega arith)

destroy_long_map-eq_example :
    (destroy_long_map 0 4 three return_values
      ≡ some (record { values = some (10 ∷ 20 ∷ 50 ∷ 0 ∷ []); freed = []; num_destroyed = 3 }))
    × (destroy_long_map 0 4 three free_values
        ≡ some (record { values = none; freed = 10 ∷ 20 ∷ 50 ∷ []; num_destroyed = 3 }))
    × (destroy_long_map 0 4 three ignore_values
        ≡ some (record { values = none; freed = []; num_destroyed = 3 }))
destroy_long_map-eq_example =
    destroy_long_map-eq 0 4 three three-IsValid (omega arith) (omega arith)

-- Two keys of one hash: "ipigcnu" and "mgbclui".
abbrev one_key : List ℕ
one_key = b'i' ∷ b'p' ∷ b'i' ∷ b'g' ∷ b'c' ∷ b'n' ∷ b'u' ∷ []

abbrev other_key : List ℕ
other_key = b'm' ∷ b'g' ∷ b'b' ∷ b'c' ∷ b'l' ∷ b'u' ∷ b'i' ∷ []

same_hash : (sdbm_string_hash one_key == sdbm_string_hash other_key) ≡ true
unfolding program
same_hash = refl

abbrev stored_one : StringMap ℕ
stored_one = record {
  lm = record { root = node 1348824357 (key_value one_key 7) (pos 0) null null; num_elements = 1 };
  store_keys = true;
  num_elements = 1;
}

stored_one-IsStringMap : IsStringMap stored_one
stored_one-IsStringMap = record {
  valid = record { avl = omega arith; sorted = (tt, tt); counted = refl };
  kinds = (tt, tt);
  counted = refl;
}

-- A key that was never set reads the value of another with its hash, also where the map stores keys.
collision : get_string_map_element 0 stored_one other_key ≡ some (7, stored_one)
unfolding program
collision = refl

held-set_string_map_element_example :
    (m : StringMap ℕ) × (set_string_map_element 0 stored_one other_key 8
      ≡ some (held 0 stored_one other_key, m))
    × IsStringMap m
    × ((q : List ℕ)
        → held 0 m q
          ≡ (if sdbm_string_hash other_key == sdbm_string_hash q then 8 else held 0 stored_one q))
held-set_string_map_element_example =
    held-set_string_map_element 0 stored_one other_key 8 stored_one-IsStringMap (omega arith)

held-remove_string_map_element_example :
    (m : StringMap ℕ) × (remove_string_map_element 0 stored_one one_key
      ≡ some (held 0 stored_one one_key, m))
    × IsStringMap m
    × ((q : List ℕ)
        → held 0 m q
          ≡ (if sdbm_string_hash one_key == sdbm_string_hash q then 0 else held 0 stored_one q))
held-remove_string_map_element_example =
    held-remove_string_map_element 0 stored_one one_key stored_one-IsStringMap (omega arith)

abbrev add_up : Option (List ℕ) → ℕ → ℕ → ℕ
add_up key v s = v + s
