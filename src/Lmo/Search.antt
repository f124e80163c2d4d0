-- ===== src/Lmo/Search.antt =====
-- The search for an entry finds it if it is there.
use openwrt_extra.Common.{
  le_or_lt, ℕ, zero, suc, ◌+◌, ◌-◌, ◌%◌, ◌^◌, ◌>>=◌, ◌≤◌, ◌<◌, ◌≡◌, ◌≢◌, refl, ◌⊎◌, inl, inr, ltb,
  ◌==◌, ==_iff, Option, none, some, List, [], ◌∷◌, length, ◌++◌, All, get_elem?, arith, sym, ap,
  Bool-cases,
}
use openwrt_extra.Lmo.Catalog.{
  Entry, Archive, uint_bound, middle, find_loop, lmo_find_entry, Text, translate_hash,
}

-- An index sorted by key, as po2lmo writes it, that is not empty; an int holds its length.
pub record IsIndex (index : List Entry) : Type 0 where
  pub nonempty : 0 < length index
  pub bounded : length index < 2 ^ 31
  pub sorted :
      (i j : ℕ) (d e : Entry)
      → i ≤ j
      → get_elem? index i ≡ some d
      → get_elem? index j ≡ some e
      → d.key_id ≤ e.key_id

-- The result of a search: a position with that key, or none where no position has it.
pub record IsFound (index : List Entry) (hash m : ℕ) : Type 0 where
  pub entry : Entry
  pub at : get_elem? index m ≡ some entry
  pub key : entry.key_id ≡ hash

abbrev pub Absent : List Entry → ℕ → Type 0
Absent index hash = (i : ℕ) (e : Entry) → get_elem? index i ≡ some e → e.key_id ≢ hash

abbrev pub Found : List Entry → ℕ → Option (Option ℕ) → Type 0
Found index hash w =
    ((m : ℕ) × (w ≡ some (some m)) × IsFound index hash m) ⊎ (w ≡ some none) × Absent index hash

abbrev Between : List Entry → ℕ → ℕ → ℕ → Type 0
Between index hash l r =
    (i : ℕ) (e : Entry) → get_elem? index i ≡ some e → e.key_id ≡ hash → (l ≤ i) × (i ≤ r)

get_elem?-in :
    (index : List Entry) (m : ℕ) → m < length index → (e : Entry) × (get_elem? index m ≡ some e)
get_elem?-in [] m h = absurd (omega arith)
get_elem?-in (e ∷ index) zero h = (e, refl)
get_elem?-in (e ∷ index) (suc m) h = get_elem?-in index m (omega arith)

none_not_some : (e : Entry) → some e ≢ none
none_not_some e h = ground arith

get_elem?-bound :
    (index : List Entry) (i : ℕ) (e : Entry) → get_elem? index i ≡ some e → i < length index
get_elem?-bound [] i e h = absurd (none_not_some e (sym h))
get_elem?-bound (d ∷ index) zero e h = ground arith
get_elem?-bound (d ∷ index) (suc i) e h = ground (arith, get_elem?-bound index i e h)

middle_bounds : (l r : ℕ) → l ≤ r → r < 2 ^ 31 → (l ≤ middle l r) × (middle l r ≤ r)
middle_bounds l r h b = omega arith

small : (m : ℕ) → m < 2 ^ 31 → (m + 1) % uint_bound ≡ m + 1
small m h = omega arith

module _ (index : List Entry) (ok : IsIndex index) (hash : ℕ) where
  -- No entry from `m` on, and none up to it, has the key, by the order.
  none_after :
      (m : ℕ) (e : Entry)
      → get_elem? index m ≡ some e
      → hash < e.key_id
      → (i : ℕ) (d : Entry) → get_elem? index i ≡ some d
      → d.key_id ≡ hash
      → i < m
  none_after m e at above i d here key = elim (le_or_lt m i) [
    | inl after ↦ absurd (omega (arith, ok.sorted m i e d after at here))
    | inr before ↦ before
  ]

  none_before :
      (m : ℕ) (e : Entry)
      → get_elem? index m ≡ some e
      → e.key_id < hash
      → (i : ℕ) (d : Entry) → get_elem? index i ≡ some d
      → d.key_id ≡ hash
      → m < i
  none_before m e at below i d here key = elim (le_or_lt i m) [
    | inl before ↦ absurd (omega (arith, ok.sorted i m d e before here at))
    | inr after ↦ after
  ]

  find_loop-Found :
      (fuel l r : ℕ)
      → r < length index
      → l ≤ r + 1
      → r + 1 < l + fuel
      → Between index hash l r
      → Found index hash (find_loop fuel index hash l r)
  unfolding find_loop
  find_loop-Found zero l r h o f b = absurd (omega arith)
  find_loop-Found (suc fuel) l r h o f b = elim (Bool-cases (ltb r l)) [
    | inl past ↦
        inr (rw (past, find_loop) refl, λ i e at key. absurd (ground (arith, b i e at key, past)))
    | inr inside ↦
        let m : ℕ = middle l r in
        let (low, high) = middle_bounds l r (ground (arith, inside)) (omega (arith, ok.bounded)) in
        let (e, at) = get_elem?-in index m (omega (arith, high)) in
        elim (Bool-cases (e.key_id == hash)) [
          | inl same ↦ inl (
            m,
            rw (inside, find_loop) (rw at (rw (same, ◌>>=◌) refl)),
            record { entry = e; at = at; key = (==_iff _ _).0 same },
          )
          | inr other ↦ elim (Bool-cases (ltb hash e.key_id)) [
            | inl above ↦
                let limit = none_after m e at (ground (arith, above)) in
                elim (Bool-cases (m == 0)) [
                  | inl first ↦ inr (
                    rw (inside, find_loop) (rw at (rw (other, ◌>>=◌) (rw (above) (rw first refl)))),
                    λ i d here key.
                        absurd (omega (arith, limit i d here key, (==_iff m 0).0 first)),
                  )
                  | inr later ↦
                      let pos : 0 < m = ground (arith, later) in
                      rw (inside, find_loop)
                        (rw at (
                          rw (other, ◌>>=◌)
                            (rw (above) (
                              rw later (
                                find_loop-Found fuel l (m - 1) (omega (arith, high))
                                  (omega (arith, low)) (omega (arith, high, pos))
                                  (λ i d here key.
                                    ((b i d here key).0, omega (arith, limit i d here key))))))))
                ]
            | inr below ↦
                let limit = none_before m e at (ground (arith, other, below)) in
                rw (inside, find_loop)
                  (rw at (
                    rw (other, ◌>>=◌)
                      (rw (below) (
                        rw (small m (omega (arith, high, ok.bounded))) (
                          find_loop-Found fuel (m + 1) r h (omega (arith, high))
                            (omega (arith, low))
                            (λ i d here key.
                              (omega (arith, limit i d here key), (b i d here key).1)))))))
          ]
        ]
  ]

-- `lmo_find_entry` on a sorted index that is not empty, with fuel above its length, reads nothing
-- outside the index and ends: with the position of an entry that has the key, or with NULL, and then
-- no entry has the key.
pub lmo_find_entry-Found :
    (fuel : ℕ) (ar : Archive) (hash : ℕ)
    → IsIndex ar.index
    → length ar.index < fuel
    → Found ar.index hash (lmo_find_entry fuel ar hash)
unfolding lmo_find_entry
lmo_find_entry-Found fuel ar hash ok enough =
    let bounded = ok.bounded in
    let nonempty = ok.nonempty in
    find_loop-Found ar.index ok hash fuel 0 ((length ar.index + uint_bound - 1) % uint_bound)
      (omega arith) (omega arith) (omega arith)
      (λ i e at key. (omega arith, omega (arith, get_elem?-bound ar.index i e at)))

-- The first archive that has the key, with what is read from its entry.
pub record IsFirst (archives : List Archive) (hash : ℕ) (text : Text) : Type 0 where
  pub before : List Archive
  pub after : List Archive
  pub split : archives ≡ before ++ text.archive ∷ after
  pub none_before_it : All (λ (ar : Archive). Absent ar.index hash) before
  pub place : ℕ
  pub found : IsFound text.archive.index hash place
  pub offset : text.out ≡ found.entry.offset
  pub length_of : text.outlen ≡ found.entry.length_of

abbrev pub Ready : ℕ → Archive → Type 0
Ready fuel ar = IsIndex ar.index × (length ar.index < fuel)

abbrev pub Translated : List Archive → ℕ → Option (Option Text) → Type 0
Translated archives hash w =
    ((text : Text) × (w ≡ some (some text)) × IsFirst archives hash text)
    ⊎ (w ≡ some none) × All (λ (ar : Archive). Absent ar.index hash) archives

-- The archives of a catalog are searched in their order: where each has a sorted index that is not
-- empty and shorter than the fuel, the text comes from an entry with the key in the first archive
-- that has one, and there is none exactly if no archive has the key.
pub translate_hash-Translated :
    (fuel : ℕ) (archives : List Archive) (hash : ℕ)
    → All (Ready fuel) archives
    → Translated archives hash (translate_hash fuel archives hash)
unfolding translate_hash
translate_hash-Translated fuel [] hash ready = inr (refl, tt)
translate_hash-Translated fuel (ar ∷ next) hash ((ok, enough), ready) =
    elim (lmo_find_entry-Found fuel ar hash ok enough) [
      | inl (m, e, found) ↦ inl (
        record { archive = ar; out = found.entry.offset; outlen = found.entry.length_of },
        rw (e, translate_hash) (rw (found.at) refl),
        record {
          before = [];
          after = next;
          split = refl;
          none_before_it = tt;
          place = m;
          found = found;
          offset = refl;
          length_of = refl;
        },
      )
      | inr (e, absent) ↦ elim (translate_hash-Translated fuel next hash ready) [
        | inl (text, given, first) ↦ inl (
          text,
          rw (e, translate_hash) given,
          record {
            before = ar ∷ first.before;
            after = first.after;
            split = ap (λ x. ar ∷ x) first.split;
            none_before_it = (absent, first.none_before_it);
            place = first.place;
            found = first.found;
            offset = first.offset;
            length_of = first.length_of;
          },
        )
        | inr (given, all_absent) ↦ inr (rw (e, translate_hash) given, (absent, all_absent))
      ]
    ]
