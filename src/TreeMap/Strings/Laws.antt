-- ===== src/TreeMap/Strings/Laws.antt =====
-- A string_map reads like a function of the hash of the key.
use openwrt_extra.Common.{
  ℕ, ◌+◌, ◌<◌, ◌≡◌, refl, sym, ◌==◌, if◌then◌else◌, some, List, [], ◌∷◌, Bool, true, false, length,
  All, arith,
}
use openwrt_extra.TreeMap.Maps.{ulong_bound}
use openwrt_extra.TreeMap.Sorted.{assoc_get, assoc_set, assoc_remove}
use openwrt_extra.TreeMap.Places.{assoc_get-assoc_set, assoc_get-assoc_remove}
use openwrt_extra.TreeMap.Laws.{entries, IsValid}
use openwrt_extra.TreeMap.Steps.{set_long_map_element-IsStep, remove_long_map_element-IsStep}
use openwrt_extra.TreeMap.Reading.{get_long_map_element-eq-assoc_get}
use openwrt_extra.TreeMap.Strings.{
  Stored, absent, raw, key_value, StringMap, value_of, stored, sdbm_string_hash, with_lm,
  get_string_map_element, set_string_map_element, remove_string_map_element,
}

-- The values that a map with this flag stores.
abbrev pub IsKind {ℓ} : {V : Type ℓ} → Bool → Stored V → Type 0
IsKind keys absent = ⊥
IsKind true (raw v) = ⊥
IsKind true (key_value k v) = Unit
IsKind false (raw v) = Unit
IsKind false (key_value k v) = ⊥

module _ {ℓ} {V : Type ℓ} where
  abbrev pub AllKind : Bool → List (ℕ × Stored V) → Type 0
  AllKind keys xs = All (λ (e : ℕ × Stored V). IsKind keys e.1) xs

  -- A valid map: the long_map is, its values are of the one kind, and the two counters agree.
  pub record IsStringMap (m : StringMap V) : Type ℓ where
    pub valid : IsValid m.lm
    pub kinds : AllKind m.store_keys (entries m.lm)
    pub counted : m.num_elements ≡ m.lm.num_elements

  AllKind-set :
      (keys : Bool) (k : ℕ) (s : Stored V) (xs : List (ℕ × Stored V))
      → IsKind keys s
      → AllKind keys xs
      → AllKind keys (assoc_set k s xs)
  unfolding assoc_set
  AllKind-set keys k s [] h a = (h, tt)
  AllKind-set keys k s (x ∷ xs) h a = ground (arith, AllKind-set keys k s xs)

  AllKind-remove :
      (keys : Bool) (k : ℕ) (xs : List (ℕ × Stored V))
      → AllKind keys xs
      → AllKind keys (assoc_remove k xs)
  unfolding assoc_remove
  AllKind-remove keys k [] a = tt
  AllKind-remove keys k (x ∷ xs) a = ground (arith, AllKind-remove keys k xs)

  stored-IsKind : (keys : Bool) (key : List ℕ) (v : V) → IsKind keys (stored keys key v)
  unfolding stored
  stored-IsKind true key v = tt
  stored-IsKind false key v = tt

module _ {ℓ} {V : Type ℓ} (nil : V) where
  -- The caller's value in what is stored.
  abbrev pub content : Stored V → V
  content absent = nil
  content (raw v) = v
  content (key_value k v) = v

  -- What a map holds for a key: the value of the entry under its hash, or NULL.
  abbrev pub held : StringMap V → List ℕ → V
  held m key = content (assoc_get absent (sdbm_string_hash key) (entries m.lm))

  content-stored : (keys : Bool) (key : List ℕ) (v : V) → content (stored keys key v) ≡ v
  unfolding stored
  content-stored true key v = refl
  content-stored false key v = refl

  value_of-assoc_get :
      (keys : Bool) (k : ℕ) (xs : List (ℕ × Stored V))
      → AllKind keys xs
      → value_of nil keys (assoc_get absent k xs) ≡ some (content (assoc_get absent k xs))
  unfolding value_of assoc_get
  value_of-assoc_get true k [] a = refl
  value_of-assoc_get false k [] a = refl
  value_of-assoc_get keys k ((j, absent) ∷ xs) a = absurd a.0
  value_of-assoc_get true k ((j, raw v) ∷ xs) a = absurd a.0
  value_of-assoc_get false k ((j, raw v) ∷ xs) a = ground (arith, value_of-assoc_get false k xs)
  value_of-assoc_get true k ((j, key_value q v) ∷ xs) a =
      ground (arith, value_of-assoc_get true k xs)
  value_of-assoc_get false k ((j, key_value q v) ∷ xs) a = absurd a.0

  -- Reading a key of a valid map follows no pointer of the wrong kind, gives what the map holds for
  -- the key, and leaves the map as it was.
  get_string_map_element-eq :
      (m : StringMap V) (key : List ℕ)
      → IsStringMap m
      → get_string_map_element nil m key ≡ some (held m key, m)
  unfolding get_string_map_element
  get_string_map_element-eq m key ok =
      rw (get_long_map_element-eq-assoc_get absent (sdbm_string_hash key) m.lm ok.valid) (
        rw (value_of-assoc_get m.store_keys (sdbm_string_hash key) (entries m.lm) ok.kinds)
          (rw (sym ok.counted)))

  -- Setting a key of a valid map returns what the map held for it, and gives a valid map that holds
  -- the value for the keys with the same hash and for each other key what it held before.
  pub held-set_string_map_element :
      (m : StringMap V) (key : List ℕ) (v : V)
      → IsStringMap m
      → length (entries m.lm) + 1 < ulong_bound
      → (m' : StringMap V) × (set_string_map_element nil m key v ≡ some (held m key, m'))
        × IsStringMap m'
        × ((q : List ℕ)
            → held m' q ≡ (if sdbm_string_hash key == sdbm_string_hash q then v else held m q))
  unfolding set_string_map_element
  held-set_string_map_element m key v ok room =
      let s = stored m.store_keys key v in
      let z = set_long_map_element-IsStep absent (sdbm_string_hash key) m.lm s ok.valid room in
      (
        with_lm m z.map,
        rw (z.returns)
            (rw (value_of-assoc_get m.store_keys (sdbm_string_hash key) (entries m.lm) ok.kinds)),
        record {
          valid = z.valid;
          kinds = rw z.same (
              AllKind-set m.store_keys _ s (entries m.lm) (stored-IsKind m.store_keys key v)
                ok.kinds);
          counted = refl;
        },
        λ q.
            rw
              (
                z.same,
                assoc_get-assoc_set absent (sdbm_string_hash key) s (entries m.lm)
                    (sdbm_string_hash q),
              )
              (ground (arith, content-stored m.store_keys key v)),
      )

  -- Removing a key of a valid map returns what the map held for it, and gives a valid map that holds
  -- nothing for the keys with the same hash and for each other key what it held before.
  pub held-remove_string_map_element :
      (m : StringMap V) (key : List ℕ)
      → IsStringMap m
      → length (entries m.lm) < ulong_bound
      → (m' : StringMap V) × (remove_string_map_element nil m key ≡ some (held m key, m'))
        × IsStringMap m'
        × ((q : List ℕ)
            → held m' q ≡ (if sdbm_string_hash key == sdbm_string_hash q then nil else held m q))
  unfolding remove_string_map_element
  held-remove_string_map_element m key ok room =
      let z = remove_long_map_element-IsStep absent (sdbm_string_hash key) m.lm ok.valid room in
      (
        with_lm m z.map,
        rw (z.returns)
            (rw (value_of-assoc_get m.store_keys (sdbm_string_hash key) (entries m.lm) ok.kinds)),
        record {
          valid = z.valid;
          kinds = rw z.same (AllKind-remove m.store_keys _ (entries m.lm) ok.kinds);
          counted = refl;
        },
        λ q.
            rw
              (
                z.same,
                assoc_get-assoc_remove absent (sdbm_string_hash key) (entries m.lm)
                    (sdbm_string_hash q) ok.valid.sorted,
              )
              (ground arith),
      )
