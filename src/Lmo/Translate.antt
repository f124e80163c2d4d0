-- ===== src/Lmo/Translate.antt =====
-- What a caller of lmo_translate gets.
use openwrt_extra.Common.{ℕ, ◌≡◌, ◌⊎◌, inl, inr, some, List, All}
use openwrt_extra.Lmo.Catalog.{Archive, Text}
use openwrt_extra.Lmo.Hash.{lmo_canon_hash, lmo_translate, translated, not_found}
use openwrt_extra.Lmo.Search.{Ready, IsFirst, Absent, translate_hash-Translated}

-- `lmo_translate` on an active catalog whose archives have sorted indexes that are not empty and
-- shorter than the fuel: it returns 0 and the text of an entry under the key's hash, in the first
-- archive that has one; or -1, and then no archive has one. It reads nothing outside the indexes.
pub lmo_translate-IsFirst :
    (fuel : ℕ) (archives : List Archive) (key : List ℕ)
    → All (Ready fuel) archives
    → ((text : Text) × (lmo_translate fuel (some archives) (some key) ≡ some (translated text))
        × IsFirst archives (lmo_canon_hash (some key)) text)
      ⊎ (lmo_translate fuel (some archives) (some key) ≡ some not_found)
        × All (λ (ar : Archive). Absent ar.index (lmo_canon_hash (some key))) archives
unfolding lmo_translate
lmo_translate-IsFirst fuel archives key ready =
    elim (translate_hash-Translated fuel archives (lmo_canon_hash (some key)) ready) [
      | inl (text, e, first) ↦ inl (text, rw e, first)
      | inr (e, absent) ↦ inr (rw e, absent)
    ]
