-- ===== src/TreeMap/Strings.antt =====
-- The string_map of packages/gargoyle/libericstools/src/tree_map.c: a long_map under the sdbm hash of
-- the key. A key is the list of its bytes without the closing zero; char is signed, as on MIPS and
-- x86, and unsigned long has 32 bits.
pub mod Laws
pub mod Listing
pub mod ListingLaws
use openwrt_extra.Common.{
  ℕ, ◌+◌, ◌-◌, ◌*◌, ◌%◌, ◌^◌, ltb, if◌then◌else◌, ◌>>=◌, Option, none, some, List, [], ◌∷◌, ◌++◌,
  Bool, true, false, length,
}
use openwrt_extra.TreeMap.{null}
use openwrt_extra.TreeMap.Maps.{
  LongMap, ulong_bound, get_long_map_element, set_long_map_element, remove_long_map_element,
  get_sorted_long_map_values, drain, DestroyMode, return_values, free_values, ignore_values,
  Destroyed, hand_out,
}

-- nextch = key[index]: a char is widened with its sign.
unfoldable pub widen : ℕ → ℕ
widen c = if ltb c 128 then c else c + 2 ^ 32 - 256

unfoldable pub sdbm_round : ℕ → ℕ → ℕ
unfolding widen
sdbm_round hash c =
    (widen c + hash * 2 ^ 6 % ulong_bound + hash * 2 ^ 16 % ulong_bound + ulong_bound - hash)
    % ulong_bound

-- The loop over the bytes of the key.
unfoldable pub sdbm_loop : ℕ → List ℕ → ℕ
sdbm_loop hash [] = hash
sdbm_loop hash (c ∷ key) = sdbm_loop (sdbm_round hash c) key

unfoldable pub sdbm_string_hash : List ℕ → ℕ
sdbm_string_hash key = sdbm_loop 0 key

-- A value of the long_map: NULL, the caller's pointer, or a `string_map_key_value`.
pub data Stored {ℓ} (V : Type ℓ) : Type ℓ where
  absent : Stored V
  raw : (value : V) → Stored V
  key_value : (key : List ℕ) (value : V) → Stored V

pub record StringMap {ℓ} (V : Type ℓ) : Type ℓ where
  pub lm : LongMap (Stored V)
  pub store_keys : Bool
  pub num_elements : ℕ

module _ {ℓ} {V : Type ℓ} where
  -- What is stored for a key and a value.
  unfoldable pub stored : Bool → List ℕ → V → Stored V
  stored true key v = key_value key v
  stored false key v = raw v

  unfoldable pub initialize_string_map : Bool → StringMap V
  initialize_string_map keys = record {
    lm = record { root = null; num_elements = 0 };
    store_keys = keys;
    num_elements = 0;
  }

  -- map->num_elements = map->lm.num_elements
  abbrev pub with_lm : StringMap V → LongMap (Stored V) → StringMap V
  with_lm m lm = record m { lm = lm; num_elements = lm.num_elements }

module _ {ℓ} {V : Type ℓ} (nil : V) where
  -- return_value->value if there is one and the map stores keys; `none` is a pointer followed at the
  -- wrong type.
  unfoldable pub value_of : Bool → Stored V → Option V
  value_of keys absent = some nil
  value_of true (raw v) = none
  value_of true (key_value k v) = some v
  value_of false (raw v) = some v
  value_of false (key_value k v) = none

  unfoldable pub get_string_map_element : StringMap V → List ℕ → Option (V × StringMap V)
  get_string_map_element m key =
      value_of m.store_keys (get_long_map_element absent m.lm (sdbm_string_hash key)) >>= λ v.
      some (v, with_lm m m.lm)

  unfoldable pub set_string_map_element : StringMap V → List ℕ → V → Option (V × StringMap V)
  set_string_map_element m key value = do
    (old, lm) ←
        set_long_map_element absent m.lm (sdbm_string_hash key) (stored m.store_keys key value)
    v ← value_of m.store_keys old
    some (v, with_lm m lm)

  unfoldable pub remove_string_map_element : StringMap V → List ℕ → Option (V × StringMap V)
  remove_string_map_element m key = do
    (old, lm) ← remove_long_map_element absent m.lm (sdbm_string_hash key)
    v ← value_of m.store_keys old
    some (v, with_lm m lm)
