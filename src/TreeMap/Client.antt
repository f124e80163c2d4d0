-- ===== src/TreeMap/Client.antt =====
-- What a caller of a long_map observes over any sequence of calls.
use openwrt_extra.Common.{
  ℕ, ◌+◌, ◌<◌, ◌≤◌, ◌≡◌, refl, ◌∙◌, Option, some, List, [], ◌∷◌, arith, ◌>>=◌, ◌==◌, if◌then◌else◌,
  length, ap, fun_ext,
}
use openwrt_extra.TreeMap.Maps.{
  LongMap, ulong_bound, set_long_map_element, remove_long_map_element, get_long_map_element,
}
use openwrt_extra.TreeMap.Sorted.{assoc_set, assoc_remove, length-assoc_set, length-assoc_remove}
use openwrt_extra.TreeMap.Places.{assoc_get-assoc_set, assoc_get-assoc_remove}
use openwrt_extra.TreeMap.Laws.{entries, IsValid, IsStep}
use openwrt_extra.TreeMap.Steps.{set_long_map_element-IsStep, remove_long_map_element-IsStep}
use openwrt_extra.TreeMap.Reading.{get_long_map_element-eq-assoc_get}

pub data MapCall {ℓ} (V : Type ℓ) : Type ℓ where
  set : (key : ℕ) (value : V) → MapCall V
  remove : (key : ℕ) → MapCall V

module _ {ℓ} {V : Type ℓ} (nil : V) where
  -- The calls in turn; `none` is a read through NULL.
  unfoldable pub run : List (MapCall V) → LongMap V → Option (LongMap V)
  run [] m = some m
  run (set k v ∷ calls) m = set_long_map_element nil m k v >>= λ r. run calls r.1
  run (remove k ∷ calls) m = remove_long_map_element nil m k >>= λ r. run calls r.1

  -- The same calls on a function from keys to values.
  unfoldable pub replay : List (MapCall V) → (ℕ → V) → ℕ → V
  replay [] f j = f j
  replay (set k v ∷ calls) f j = replay calls (λ i. if k == i then v else f i) j
  replay (remove k ∷ calls) f j = replay calls (λ i. if k == i then nil else f i) j

  set_reads :
      (m : LongMap V) (k : ℕ) (v : V) {old : V} {r : Option (V × LongMap V)}
      → IsValid m
      → (z : IsStep old (assoc_set k v (entries m)) r) → (j : ℕ)
      → get_long_map_element nil z.map j ≡ (if k == j then v else get_long_map_element nil m j)
  set_reads m k v ok z j =
      rw
        (
          get_long_map_element-eq-assoc_get nil j z.map z.valid,
          z.same,
          get_long_map_element-eq-assoc_get nil j m ok,
        )
        (assoc_get-assoc_set nil k v (entries m) j)

  remove_reads :
      (m : LongMap V) (k : ℕ) {old : V} {r : Option (V × LongMap V)}
      → IsValid m
      → (z : IsStep old (assoc_remove k (entries m)) r) → (j : ℕ)
      → get_long_map_element nil z.map j ≡ (if k == j then nil else get_long_map_element nil m j)
  remove_reads m k ok z j =
      rw
        (
          get_long_map_element-eq-assoc_get nil j z.map z.valid,
          z.same,
          get_long_map_element-eq-assoc_get nil j m ok,
        )
        (assoc_get-assoc_remove nil k (entries m) j ok.sorted)

  -- Setting a key of a valid map reads nothing through NULL, returns what the key read before, and
  -- gives a valid map in which this key reads the value and each other key what it read before.
  pub get-set :
      (m : LongMap V) (k : ℕ) (v : V)
      → IsValid m
      → length (entries m) + 1 < ulong_bound
      → (m' : LongMap V) × (set_long_map_element nil m k v
          ≡ some (get_long_map_element nil m k, m'))
        × IsValid m'
        × ((j : ℕ)
            → get_long_map_element nil m' j ≡ (if k == j then v else get_long_map_element nil m j))
  get-set m k v ok room =
      let z = set_long_map_element-IsStep nil k m v ok room in
      (
        z.map,
        rw (get_long_map_element-eq-assoc_get nil k m ok) (z.returns),
        z.valid,
        set_reads m k v ok z,
      )

  -- Removing a key reads nothing through NULL, returns what the key read before, and gives a valid
  -- map in which this key reads NULL and each other key what it read before.
  pub get-remove :
      (m : LongMap V) (k : ℕ)
      → IsValid m
      → length (entries m) < ulong_bound
      → (m' : LongMap V) × (remove_long_map_element nil m k
          ≡ some (get_long_map_element nil m k, m'))
        × IsValid m'
        × ((j : ℕ)
            → get_long_map_element nil m' j
              ≡ (if k == j then nil else get_long_map_element nil m j))
  get-remove m k ok room =
      let z = remove_long_map_element-IsStep nil k m ok room in
      (
        z.map,
        rw (get_long_map_element-eq-assoc_get nil k m ok) (z.returns),
        z.valid,
        remove_reads m k ok z,
      )

  -- From a valid map, calls that cannot fill the address space run without a read through NULL and
  -- give a valid map in which each key reads what the same calls on a function give.
  pub run_refines :
      (calls : List (MapCall V)) (m : LongMap V)
      → IsValid m
      → length calls + length (entries m) + 1 < ulong_bound
      → (m' : LongMap V) × (run calls m ≡ some m')
        × IsValid m'
        × ((j : ℕ) → get_long_map_element nil m' j ≡ replay calls (get_long_map_element nil m) j)
  unfolding run replay
  run_refines [] m ok room = (m, refl, ok, λ j. refl)
  run_refines (set k v ∷ calls) m ok room =
      let z = set_long_map_element-IsStep nil k m v ok (omega arith) in
      let fits : length (entries z.map) ≤ length (entries m) + 1 =
        rw z.same (length-assoc_set k v (entries m)) in
      let (m', ran, ok', reads) = run_refines calls z.map z.valid (omega (arith, fits)) in
      (
        m',
        rw (z.returns) ran,
        ok',
        λ j. reads j ∙ ap (λ f. replay calls f j) (fun_ext (set_reads m k v ok z)),
      )
  run_refines (remove k ∷ calls) m ok room =
      let z = remove_long_map_element-IsStep nil k m ok (omega arith) in
      let fits : length (entries z.map) ≤ length (entries m) =
        rw z.same (length-assoc_remove k (entries m)) in
      let (m', ran, ok', reads) = run_refines calls z.map z.valid (omega (arith, fits)) in
      (
        m',
        rw (z.returns) ran,
        ok',
        λ j. reads j ∙ ap (λ f. replay calls f j) (fun_ext (remove_reads m k ok z)),
      )
