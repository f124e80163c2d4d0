-- ===== src/Lmo/Samples.antt =====
-- Runs of the search for a translation and of its hash, and the theorems at concrete inputs.
use openwrt_extra.Common.{
  ℕ, ◌≡◌, refl, ◌⊎◌, if◌then◌else◌, leb, none, some, List, [], ◌∷◌, All, length, arith,
}
use openwrt_extra.Lmo.Catalog.{Entry, Archive, Text, lmo_find_entry}
use openwrt_extra.Lmo.Hash.{lmo_canon_hash, lmo_translate, translated, not_found, sfh_hash, isspace}
use openwrt_extra.Lmo.Search.{IsIndex, Found, IsFirst, Absent, lmo_find_entry-Found}
use openwrt_extra.Lmo.Translate.{lmo_translate-IsFirst}
use openwrt_extra.Lmo.Canon.{words, join, lmo_canon_hash-eq}
use openwrt_extra.Lmo.Ascending.{ascending-IsIndex}

abbrev spaced : List ℕ
spaced = 0x20 ∷ 0x59 ∷ 0x20 ∷ 0x09 ∷ 0x65 ∷ 0x73 ∷ 0x0A ∷ []

lmo_canon_hash_test : lmo_canon_hash (some spaced) ≡ sfh_hash (0x59 ∷ 0x20 ∷ 0x65 ∷ 0x73 ∷ [])
unfolding lmo_canon_hash isspace
lmo_canon_hash_test = refl

sfh_hash_test :
    (sfh_hash (0x59 ∷ 0x20 ∷ 0x65 ∷ 0x73 ∷ []) ≡ 3565286801)
    × (sfh_hash (0x59 ∷ 0x20 ∷ 0x65 ∷ 0x73 ∷ 1 ∷ 2 ∷ 0xE9 ∷ []) ≡ 867588957)
    × (sfh_hash (0xE9 ∷ []) ≡ 1776944832)
unfolding sfh_hash
sfh_hash_test = (refl, refl, refl)

abbrev entry : ℕ → ℕ → Entry
entry key at = record { key_id = key; val_id = 1; offset = at; length_of = 4 }

abbrev small_archive : Archive
small_archive = record { index = entry 5 0 ∷ entry 9 4 ∷ entry 9 8 ∷ entry 3565286801 12 ∷ [] }

small_archive-IsIndex : IsIndex small_archive.index
small_archive-IsIndex =
    ascending-IsIndex small_archive.index (ground arith) (omega arith) (omega arith)

lmo_find_entry_test :
    (lmo_find_entry 5 small_archive 3565286801 ≡ some (some 3))
    × (lmo_find_entry 5 small_archive 4 ≡ some none)
    × (lmo_find_entry 5 small_archive 9 ≡ some (some 1))
unfolding lmo_find_entry
lmo_find_entry_test = (refl, refl, refl)

-- With no entries the index is read out of range.
lmo_find_entry_empty : lmo_find_entry 5 (record { index = [] }) 4 ≡ none
unfolding lmo_find_entry
lmo_find_entry_empty = refl

lmo_find_entry-Found_example : Found small_archive.index 9 (lmo_find_entry 5 small_archive 9)
lmo_find_entry-Found_example =
    lmo_find_entry-Found 5 small_archive 9 small_archive-IsIndex (omega arith)

lmo_translate-IsFirst_example :
    ((text : Text) × (lmo_translate 5 (some (small_archive ∷ [])) (some spaced)
        ≡ some (translated text))
      × IsFirst (small_archive ∷ []) (lmo_canon_hash (some spaced)) text)
    ⊎ (lmo_translate 5 (some (small_archive ∷ [])) (some spaced) ≡ some not_found)
      × All (λ (ar : Archive). Absent ar.index (lmo_canon_hash (some spaced))) (small_archive ∷ [])
lmo_translate-IsFirst_example =
    lmo_translate-IsFirst 5 (small_archive ∷ []) spaced ((small_archive-IsIndex, omega arith), tt)

lmo_canon_hash-eq_example :
    lmo_canon_hash (some spaced)
    ≡ (if leb 4096 (length spaced) then 0 else sfh_hash (join (words spaced)))
lmo_canon_hash-eq_example = lmo_canon_hash-eq spaced
