-- ===== src/TreeMap/Destroy.antt =====
-- The destruction of a long_map.
use openwrt_extra.Common.{
  ℕ, zero, suc, ◌<◌, ◌≡◌, refl, ◌∙◌, ap, List, [], ◌∷◌, ◌++◌, map, arith, length, none, some, ◌==◌,
  true, false,
}
use openwrt_extra.TreeMap.Maps.{
  LongMap, ulong_bound, drain, destroy_long_map, return_values, free_values, ignore_values,
}
use openwrt_extra.TreeMap.Laws.{entries, IsValid}
use openwrt_extra.TreeMap.Traversal.{value_of}
use openwrt_extra.TreeMap.Ends.{remove_smallest-eq}

zero_test : (n : ℕ) → n ≡ 0 → (n == 0) ≡ true
zero_test n h = ground arith

suc_test : (n k : ℕ) → n ≡ suc k → (n == 0) ≡ false
suc_test n k h = ground arith

module _ {ℓ} {V : Type ℓ} (nil : V) where
  length-map_value : (xs : List (ℕ × V)) → length (map value_of xs) ≡ length xs
  length-map_value [] = refl
  length-map_value (x ∷ xs) = ap suc (length-map_value xs)

  drain-eq :
      (fuel : ℕ) (m : LongMap V) (xs : List (ℕ × V))
      → IsValid m
      → entries m ≡ xs
      → length xs < fuel
      → length xs < ulong_bound
      → drain nil fuel m ≡ some (map value_of xs)
  unfolding drain
  drain-eq zero m xs ok e enough room = absurd (omega arith)
  drain-eq (suc fuel) m [] ok e enough room =
      rw (zero_test m.num_elements (ok.counted ∙ ap length e), drain)
  drain-eq (suc fuel) m (x ∷ xs) ok e enough room =
      let (m', removed, ok', rest) = remove_smallest-eq nil m 0 x.0 x.1 xs ok (rw e room) e in
      rw (suc_test m.num_elements (length xs) (ok.counted ∙ ap length e), drain)
        (rw removed (rw (drain-eq fuel m' xs ok' rest (omega arith) (omega arith))))

  -- With more rounds than the valid map has elements the loop of `destroy_long_map` ends. It hands
  -- out every value once, in the order of the keys: as an array that ends in NULL, to free, or not
  -- at all; and *num_destroyed is the number of elements.
  pub destroy_long_map-eq :
      (fuel : ℕ) (m : LongMap V)
      → IsValid m
      → length (entries m) < fuel
      → length (entries m) < ulong_bound
      → (destroy_long_map nil fuel m return_values
          ≡ some (record {
            values = some (map value_of (entries m) ++ nil ∷ []);
            freed = [];
            num_destroyed = length (entries m);
          }))
        × (destroy_long_map nil fuel m free_values
            ≡ some (record {
              values = none;
              freed = map value_of (entries m);
              num_destroyed = length (entries m);
            }))
        × (destroy_long_map nil fuel m ignore_values
            ≡ some (record { values = none; freed = []; num_destroyed = length (entries m) }))
  unfolding destroy_long_map
  destroy_long_map-eq fuel m ok enough room =
      let e = drain-eq fuel m (entries m) ok refl enough room in
      let n = length-map_value (entries m) in (rw e (rw n), rw e (rw n), rw e (rw n))
