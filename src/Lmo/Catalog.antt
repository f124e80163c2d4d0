-- ===== src/Lmo/Catalog.antt =====
-- The search of luci/libs/lmo/src/template_lmo.c in the archives of the active catalog. An index is
-- a list of entries, with the numbers in the order of the machine's bytes; a pointer into it is a
-- position. `none` is a read past its end, or the end of the fuel.
use openwrt_extra.Common.{
  ℕ, zero, suc, ◌+◌, ◌-◌, ◌/◌, ◌%◌, ◌^◌, ◌>>=◌, ltb, ◌==◌, true, false, Option, none, some, List,
  [], ◌∷◌, length, get_elem?,
}

-- An `lmo_entry`.
pub record Entry : Type 0 where
  pub key_id : ℕ
  pub val_id : ℕ
  pub offset : ℕ
  pub length_of : ℕ

-- An `lmo_archive` less its file; its length field is the number of entries, an int.
pub record Archive : Type 0 where
  pub index : List Entry

abbrev pub uint_bound : ℕ
uint_bound = 2 ^ 32

-- m = l + ((r - l) / 2)
abbrev pub middle : ℕ → ℕ → ℕ
middle l r = (l + (r + uint_bound - l) % uint_bound / 2) % uint_bound

-- The loop, with l and r.
unfoldable pub find_loop : ℕ → List Entry → ℕ → ℕ → ℕ → Option (Option ℕ)
find_loop zero index hash l r = none
find_loop (suc fuel) index hash l r =
    let m = middle l r in
    elim (ltb r l) [
      | true ↦ some none
      | false ↦ get_elem? index m >>= λ e. elim (e.key_id == hash) [
        | true ↦ some (some m)
        | false ↦ elim (ltb hash e.key_id) [
          | true ↦ elim (m == 0) [ true ↦ some none | false ↦ find_loop fuel index hash l (m - 1) ]
          | false ↦ find_loop fuel index hash ((m + 1) % uint_bound) r
        ]
      ]
    ]

-- The inner option is the NULL of an absent entry.
unfoldable pub lmo_find_entry : ℕ → Archive → ℕ → Option (Option ℕ)
unfolding find_loop
lmo_find_entry fuel ar hash =
    find_loop fuel ar.index hash 0 ((length ar.index + uint_bound - 1) % uint_bound)

-- What `lmo_translate` gives: the archive, and where the text is in it.
pub record Text : Type 0 where
  pub archive : Archive
  pub out : ℕ
  pub outlen : ℕ

-- The loop over the archives, after the key is hashed.
unfoldable pub translate_hash : ℕ → List Archive → ℕ → Option (Option Text)
unfolding lmo_find_entry
translate_hash fuel [] hash = some none
translate_hash fuel (ar ∷ next) hash = lmo_find_entry fuel ar hash >>= λ found. elim found [
  | some m ↦ get_elem? ar.index m >>= λ e.
      some (some (record { archive = ar; out = e.offset; outlen = e.length_of }))
  | none ↦ translate_hash fuel next hash
]
