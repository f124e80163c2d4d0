-- ===== src/Lmo/Ascending.antt =====
-- An index that ascends entry by entry is sorted.
use openwrt_extra.Common.{
  ℕ, zero, suc, ◌≤◌, ◌<◌, ◌^◌, ◌≡◌, Option, none, some, List, [], ◌∷◌, All, length, get_elem?,
  arith, ap,
}
use openwrt_extra.Lmo.Catalog.{Entry}
use openwrt_extra.Lmo.Search.{IsIndex}

abbrev pub IsAscending : List Entry → Type 0
IsAscending [] = Unit
IsAscending (e ∷ index) = All (λ (d : Entry). e.key_id ≤ d.key_id) index × IsAscending index

abbrev key_of : Option Entry → ℕ
key_of none = 0
key_of (some e) = e.key_id

All-get_elem? :
    (k : ℕ) (index : List Entry) (j : ℕ) (e : Entry)
    → All (λ (d : Entry). k ≤ d.key_id) index
    → get_elem? index j ≡ some e
    → k ≤ e.key_id
All-get_elem? k [] j e h at = absurd (ground arith)
All-get_elem? k (d ∷ index) zero e (h, hs) at = omega (arith, ap key_of at)
All-get_elem? k (d ∷ index) (suc j) e (h, hs) at = All-get_elem? k index j e hs at

ascending_sorted :
    (index : List Entry)
    → IsAscending index
    → (i j : ℕ) (d e : Entry) → i ≤ j
    → get_elem? index i ≡ some d
    → get_elem? index j ≡ some e
    → d.key_id ≤ e.key_id
ascending_sorted [] h i j d e le a b = absurd (ground arith)
ascending_sorted (x ∷ index) (h, hs) zero zero d e le a b = omega (arith, ap key_of a, ap key_of b)
ascending_sorted (x ∷ index) (h, hs) zero (suc j) d e le a b =
    omega (arith, ap key_of a, All-get_elem? x.key_id index j e h b)
ascending_sorted (x ∷ index) (h, hs) (suc i) zero d e le a b = absurd (omega arith)
ascending_sorted (x ∷ index) (h, hs) (suc i) (suc j) d e le a b =
    ascending_sorted index hs i j d e (omega arith) a b

pub ascending-IsIndex :
    (index : List Entry)
    → IsAscending index
    → 0 < length index
    → length index < 2 ^ 31
    → IsIndex index
ascending-IsIndex index h nonempty bounded = record {
  nonempty = nonempty;
  bounded = bounded;
  sorted = ascending_sorted index h;
}
