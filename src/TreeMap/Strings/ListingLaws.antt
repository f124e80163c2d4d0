-- ===== src/TreeMap/Strings/ListingLaws.antt =====
-- What the traversals of a valid string_map give.
use openwrt_extra.Common.{
  ℕ, ◌≡◌, refl, ltb, Option, none, some, List, [], ◌∷◌, ◌++◌, map, length, All-append_parts, Bool,
  true, false, Bool-cases, inl, inr, arith, ap, sym, ◌∙◌,
}
use openwrt_extra.TreeMap.{Tree, null, node}
use openwrt_extra.TreeMap.Contents.{to_list}
use openwrt_extra.TreeMap.Laws.{entries}
use openwrt_extra.TreeMap.Traversal.{
  value_of, fold_entries, fold_entries-append, get_sorted_long_map_values-eq,
}
use openwrt_extra.TreeMap.Strings.{Stored, absent, raw, key_value, StringMap}
use openwrt_extra.TreeMap.Strings.Laws.{IsStringMap, AllKind, IsKind, content}
use openwrt_extra.TreeMap.Strings.Listing.{
  read_keys, get_string_map_keys, call_arguments, apply_to_every_string_map_node,
  apply_to_every_string_map_value,
}

module _ {ℓ} {V : Type ℓ} where
  -- The key that is stored with an entry.
  abbrev pub key_text : Stored V → List ℕ
  key_text (key_value k v) = k
  key_text _ = []

  read_keys-eq :
      (xs : List (ℕ × Stored V)) (vs : List (Stored V))
      → AllKind true xs
      → read_keys (length xs) (map value_of xs ++ vs) ≡ some (map (λ e. key_text e.1) xs)
  unfolding read_keys
  read_keys-eq [] vs h = refl
  read_keys-eq ((j, key_value k v) ∷ xs) vs (h, hs) = rw (read_keys-eq xs vs hs) refl
  read_keys-eq ((j, raw v) ∷ xs) vs (h, hs) = absurd h
  read_keys-eq ((j, absent) ∷ xs) vs (h, hs) = absurd h

  abbrev listed : List (ℕ × Stored V) → ℕ → Option (List (List ℕ) × ℕ)
  listed xs n = some (map (λ e. key_text e.1) xs, n)

  no_entries :
      (xs : List (ℕ × Stored V)) (n : ℕ)
      → n ≡ length xs
      → ltb 0 n ≡ false
      → listed [] 0 ≡ listed xs n
  no_entries [] n e h = ap (listed []) (sym e)
  no_entries (x ∷ xs) n e h = absurd (ground arith)

  -- On a valid map that stores keys `get_string_map_keys` gives the key that is stored with each
  -- entry, in the order of the hashes, and their number, which is num_elements.
  get_string_map_keys-eq :
      (m : StringMap V)
      → IsStringMap m
      → m.store_keys ≡ true
      → get_string_map_keys m ≡ some (map (λ e. key_text e.1) (entries m.lm), m.num_elements)
  unfolding get_string_map_keys
  get_string_map_keys-eq m ok keys =
      let n = ok.counted ∙ ok.valid.counted in
      elim (Bool-cases (ltb 0 m.num_elements)) [
        | inl some_in ↦ rw keys (
            rw some_in (
              rw (get_sorted_long_map_values-eq absent m.lm ok.valid) (
                rw (read_keys-eq (entries m.lm) (absent ∷ []) (rw keys at ok.kinds))
                  (ap (listed (entries m.lm)) (sym n)))))
        | inr no_more ↦ rw keys (rw no_more (no_entries (entries m.lm) m.num_elements n no_more))
      ]

  -- What a valid map passes to the function for an entry: the key, where the map stores it.
  abbrev pub key_argument : Stored V → Option (List ℕ)
  key_argument (key_value k v) = some k
  key_argument _ = none

  module _ {κ} {S : Type κ} (nil : V) (f : Option (List ℕ) → V → S → S) where
    abbrev pub visit : ℕ → Stored V → S → S
    visit k v s = f (key_argument v) (content nil v) s

    call_arguments-eq :
        (keys : Bool) (v : Stored V)
        → IsKind keys v
        → call_arguments keys v ≡ some (key_argument v, content nil v)
    unfolding call_arguments
    call_arguments-eq true (key_value k v) h = refl
    call_arguments-eq true (raw v) h = absurd h
    call_arguments-eq true absent h = absurd h
    call_arguments-eq false (key_value k v) h = absurd h
    call_arguments-eq false (raw v) h = refl
    call_arguments-eq false absent h = absurd h

    apply_to_every-eq :
        (keys : Bool) (t : Tree (Stored V)) (s : S)
        → AllKind keys (to_list t)
        → apply_to_every_string_map_node f t keys s ≡ some (fold_entries visit (to_list t) s)
    unfolding apply_to_every_string_map_node fold_entries
    apply_to_every-eq keys null s h = refl
    apply_to_every-eq keys (node k v b l r) s h =
        let (hl, (hv, hr)) =
          All-append_parts (λ (e : ℕ × Stored V). IsKind keys e.1) (to_list l) _ h in
        rw (fold_entries-append visit (to_list l) ((k, v) ∷ to_list r) s) (
          rw (apply_to_every-eq keys l s hl)
            (rw (call_arguments-eq keys v hv) (apply_to_every-eq keys r _ hr)))

    -- On a valid map `apply_to_every_string_map_value` calls the function on each entry in the order
    -- of the hashes, with the value, and with the key if the map stores keys or else NULL.
    apply_to_every_string_map_value-eq :
        (m : StringMap V) (s : S)
        → IsStringMap m
        → apply_to_every_string_map_value m f s ≡ some (fold_entries visit (entries m.lm) s)
    unfolding apply_to_every_string_map_value
    apply_to_every_string_map_value-eq m s ok = apply_to_every-eq m.store_keys m.lm.root s ok.kinds
