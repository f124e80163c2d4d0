-- ===== src/TreeMap/Maps.antt =====
-- The functions of tree_map.c on a whole long_map.
use openwrt_extra.Common.{
  ℕ, zero, suc, ◌+◌, ◌-◌, ◌%◌, ◌^◌, ◌==◌, ◌>>=◌, Option, none, some, List, [], ◌∷◌, ◌++◌, compare,
  Ordering, true, false, length,
}
use openwrt_extra.Common.Int.{pos}
use openwrt_extra.TreeMap.{Tree, null, node, Frame, rebuild, descend, insert_up, unlink}

-- unsigned long has 32 bits on the routers that the packages are built for.
abbrev pub ulong_bound : ℕ
ulong_bound = 2 ^ 32

pub record LongMap {ℓ} (V : Type ℓ) : Type ℓ where
  pub root : Tree V
  pub num_elements : ℕ

-- DESTROY_MODE_RETURN_VALUES, DESTROY_MODE_FREE_VALUES, DESTROY_MODE_IGNORE_VALUES
pub data DestroyMode : Type 0 where
  return_values free_values ignore_values : DestroyMode

-- The result of a destruction: the array, if one is returned, the values passed to free, and
-- *num_destroyed.
pub record Destroyed {ℓ} (V : Type ℓ) : Type ℓ where
  pub values : Option (List V)
  pub freed : List V
  pub num_destroyed : ℕ

module _ {ℓ} {V : Type ℓ} where
  unfoldable pub initialize_long_map : LongMap V
  initialize_long_map = record { root = null; num_elements = 0 }

  -- The recursion of `get_sorted_node_keys`: the array is the list of what was written so far.
  unfoldable pub get_sorted_node_keys : Tree V → List ℕ → List ℕ
  get_sorted_node_keys null key_list = key_list
  get_sorted_node_keys (node k v b l r) key_list =
      get_sorted_node_keys r (get_sorted_node_keys l key_list ++ k ∷ [])

  unfoldable pub get_sorted_node_values : Tree V → List V → List V
  get_sorted_node_values null value_list = value_list
  get_sorted_node_values (node k v b l r) value_list =
      get_sorted_node_values r (get_sorted_node_values l value_list ++ v ∷ [])

  -- The keys, and *num_keys_returned.
  unfoldable pub get_sorted_long_map_keys : LongMap V → List ℕ × ℕ
  get_sorted_long_map_keys m = (get_sorted_node_keys m.root [], m.num_elements)

  -- `apply_func` acts on a state.
  unfoldable pub apply_to_every_long_map_node {κ} : {S : Type κ} → (ℕ → V → S → S) → Tree V → S → S
  apply_to_every_long_map_node f null s = s
  apply_to_every_long_map_node f (node k v b l r) s =
      apply_to_every_long_map_node f r (f k v (apply_to_every_long_map_node f l s))

  unfoldable pub apply_to_every_long_map_value {κ} :
      {S : Type κ} → LongMap V → (ℕ → V → S → S) → S → S
  apply_to_every_long_map_value m f s = apply_to_every_long_map_node f m.root s

-- `nil` is the NULL value, which is returned for an absent key.
module _ {ℓ} {V : Type ℓ} (nil : V) where
  unfoldable pub find_value : ℕ → Tree V → V
  find_value key null = nil
  find_value key (node k v b l r) = elim (compare key k) [
    | Ordering.lt ↦ find_value key l
    | Ordering.eq ↦ v
    | Ordering.gt ↦ find_value key r
  ]

  unfoldable pub get_long_map_element : LongMap V → ℕ → V
  unfolding find_value
  get_long_map_element m key = find_value key m.root

  -- The value, and what *smallest_key holds after the call.
  unfoldable pub smallest : Tree V → ℕ → V × ℕ
  smallest null key = (nil, key)
  smallest (node k v b null r) key = (v, k)
  smallest (node k v b (node lk lv lb ll lr) r) key = smallest (node lk lv lb ll lr) key

  unfoldable pub get_smallest_long_map_element : LongMap V → ℕ → V × ℕ
  unfolding smallest
  get_smallest_long_map_element m key = smallest m.root key

  unfoldable pub largest : Tree V → ℕ → V × ℕ
  largest null key = (nil, key)
  largest (node k v b l null) key = (v, k)
  largest (node k v b l (node rk rv rb rl rr)) key = largest (node rk rv rb rl rr) key

  unfoldable pub get_largest_long_map_element : LongMap V → ℕ → V × ℕ
  unfolding largest
  get_largest_long_map_element m key = largest m.root key

  -- The end of `set_long_map_element`, at the place where the walk ended.
  unfoldable pub put_at : LongMap V → ℕ → V → List (Frame V) → Tree V → Option (V × LongMap V)
  put_at m key value path null = do
    t ← insert_up path (node key value (pos 0) null null)
    some (nil, record { root = t; num_elements = (m.num_elements + 1) % ulong_bound })
  put_at m key value path (node k old b l r) =
      some (old, record m { root = rebuild path (node k value b l r) })

  unfoldable pub set_long_map_element : LongMap V → ℕ → V → Option (V × LongMap V)
  unfolding put_at
  set_long_map_element m key value =
      let (path, t) = descend key m.root [] in put_at m key value path t

  -- The end of `remove_long_map_element`.
  unfoldable pub take_at : LongMap V → List (Frame V) → Tree V → Option (V × LongMap V)
  take_at m path null = some (nil, m)
  take_at m path (node k v b l r) = do
    t ← unlink path b l r
    some (v, record { root = t; num_elements = (m.num_elements + ulong_bound - 1) % ulong_bound })

  unfoldable pub remove_long_map_element : LongMap V → ℕ → Option (V × LongMap V)
  unfolding take_at
  remove_long_map_element m key = let (path, t) = descend key m.root [] in take_at m path t

  unfoldable pub remove_smallest_long_map_element : LongMap V → ℕ → Option (V × ℕ × LongMap V)
  remove_smallest_long_map_element m key =
      let (_, k) = get_smallest_long_map_element m key in
      remove_long_map_element m k >>= λ r. some (r.0, k, r.1)

  unfoldable pub remove_largest_long_map_element : LongMap V → ℕ → Option (V × ℕ × LongMap V)
  remove_largest_long_map_element m key =
      let (_, k) = get_largest_long_map_element m key in
      remove_long_map_element m k >>= λ r. some (r.0, k, r.1)

  -- while(map->num_elements > 0); the values in the order of their removal. `none` is also the end
  -- of the fuel.
  unfoldable pub drain : ℕ → LongMap V → Option (List V)
  drain zero m = none
  drain (suc fuel) m = elim (m.num_elements == 0) [
    | true ↦ some []
    | false ↦ remove_smallest_long_map_element m 0 >>= λ r. drain fuel r.2 >>= λ vs. some (r.0 ∷ vs)
  ]

  -- The array of returned values ends in NULL.
  unfoldable pub hand_out : DestroyMode → List V → ℕ → Destroyed V
  hand_out return_values vs n = record {
    values = some (vs ++ nil ∷ []);
    freed = [];
    num_destroyed = n;
  }
  hand_out free_values vs n = record { values = none; freed = vs; num_destroyed = n }
  hand_out ignore_values vs n = record { values = none; freed = []; num_destroyed = n }

  -- The loop ends with the map empty, or runs out of fuel; the struct itself is then freed.
  unfoldable pub destroy_long_map : ℕ → LongMap V → DestroyMode → Option (Destroyed V)
  unfolding drain hand_out
  destroy_long_map fuel m mode = do vs ← drain fuel m; some (hand_out mode vs (length vs))

  -- The values and the closing NULL, and *num_values_returned.
  unfoldable pub get_sorted_long_map_values : LongMap V → List V × ℕ
  get_sorted_long_map_values m = (get_sorted_node_values m.root [] ++ nil ∷ [], m.num_elements)
