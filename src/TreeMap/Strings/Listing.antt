-- ===== src/TreeMap/Strings/Listing.antt =====
-- The traversals of a string_map in packages/gargoyle/libericstools/src/tree_map.c. `none` is a
-- pointer followed at the wrong type.
use openwrt_extra.Common.{
  ℕ, zero, suc, ltb, if◌then◌else◌, ◌>>=◌, Option, none, some, List, [], ◌∷◌, Bool, true, false,
  ◌&&◌,
}
use openwrt_extra.TreeMap.{Tree, null, node}
use openwrt_extra.TreeMap.Maps.{get_sorted_long_map_values}
use openwrt_extra.TreeMap.Strings.{Stored, absent, raw, key_value, StringMap}

module _ {ℓ} {V : Type ℓ} where
  -- The loop that copies the keys of the first values.
  unfoldable pub read_keys : ℕ → List (Stored V) → Option (List (List ℕ))
  read_keys zero vs = some []
  read_keys (suc n) (key_value k v ∷ vs) = read_keys n vs >>= λ ks. some (k ∷ ks)
  read_keys (suc n) _ = none

  -- The keys without the closing NULL, and *num_keys_returned.
  unfoldable pub get_string_map_keys : StringMap V → Option (List (List ℕ) × ℕ)
  unfolding read_keys
  get_string_map_keys m =
      let (vs, n) = get_sorted_long_map_values absent m.lm in
      if m.store_keys && ltb 0 m.num_elements
      then (read_keys n vs >>= λ ks. some (ks, n))
      else some ([], 0)

  -- The arguments of the call for a node: the key or NULL, and the value.
  unfoldable pub call_arguments : Bool → Stored V → Option (Option (List ℕ) × V)
  call_arguments true (key_value k v) = some (some k, v)
  call_arguments false (raw v) = some (none, v)
  call_arguments _ _ = none

  -- `apply_func` acts on a state.
  unfoldable pub apply_to_every_string_map_node {κ} :
      {S : Type κ} → (Option (List ℕ) → V → S → S) → Tree (Stored V) → Bool → S → Option S
  unfolding call_arguments
  apply_to_every_string_map_node f null has_key s = some s
  apply_to_every_string_map_node f (node k v b l r) has_key s =
      apply_to_every_string_map_node f l has_key s >>= λ s1.
      call_arguments has_key v >>= λ a. apply_to_every_string_map_node f r has_key (f a.0 a.1 s1)

  unfoldable pub apply_to_every_string_map_value {κ} :
      {S : Type κ} → StringMap V → (Option (List ℕ) → V → S → S) → S → Option S
  unfolding apply_to_every_string_map_node
  apply_to_every_string_map_value m f s = apply_to_every_string_map_node f m.lm.root m.store_keys s
