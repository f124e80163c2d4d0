-- ===== src/TreeMap/Depth.antt =====
-- How deep the tree of a long_map is.
use openwrt_extra.Common.{
  ℕ, zero, suc, ◌+◌, ◌^◌, ◌<◌, ◌≤◌, max, ◌≡◌, ◌∷◌, arith, length, length-append, ◌⊎◌, inl, inr, ap,
  ◌-◌,
}
use native.Mathlib.Decide.{dec_lt}
use native.Mathlib.Nat.{pow-suc}
use Prim.Native.Nat.add
use openwrt_extra.TreeMap.{Tree, null, node}
use openwrt_extra.TreeMap.Contents.{to_list}
use openwrt_extra.TreeMap.Height.{height, IsAvl}
use openwrt_extra.TreeMap.Laws.{entries, IsValid}
use openwrt_extra.TreeMap.Maps.{LongMap}

-- The least number of nodes of an AVL tree of this height.
min_nodes : ℕ → ℕ
min_nodes zero = 0
min_nodes (suc zero) = 1
min_nodes (suc (suc h)) = min_nodes (suc h) + min_nodes h + 1

min_nodes-le-suc : (h : ℕ) → min_nodes h ≤ min_nodes (suc h)
unfolding min_nodes
min_nodes-le-suc zero = omega arith
min_nodes-le-suc (suc h) = omega arith

min_nodes-suc-le : (h : ℕ) → min_nodes (suc h) ≤ min_nodes h + min_nodes h + 1
unfolding min_nodes
min_nodes-suc-le zero = omega arith
min_nodes-suc-le (suc h) = omega (arith, min_nodes-le-suc h)

near : (h j : ℕ) → h ≤ j + 1 → j ≤ h + 1 → (h ≡ j) ⊎ ((h ≡ suc j) ⊎ (j ≡ suc h))
near h j p q = ground arith

-- A node over subtrees whose heights differ by one at most.
min_nodes_step :
    (h j : ℕ) → h ≤ j + 1 → j ≤ h + 1 → min_nodes (suc (max h j)) ≤ min_nodes h + min_nodes j + 1
min_nodes_step h j p q = elim (near h j p q) [
  | inl e ↦ let m : max h j ≡ h = omega arith in rw (m, ← e) (min_nodes-suc-le h)
  | inr (inl e) ↦
      let m : max h j ≡ suc j = omega arith in rw (m, e) (unfold min_nodes in omega arith)
  | inr (inr e) ↦
      let m : max h j ≡ suc h = omega arith in rw (m, e) (unfold min_nodes in omega arith)
]

min_nodes_mono : (d h : ℕ) → min_nodes h ≤ min_nodes (d + h)
min_nodes_mono zero h = rw (add.zero h) (omega arith)
min_nodes_mono (suc d) h =
    rw (add.suc d h) (omega (arith, min_nodes_mono d h, min_nodes-le-suc (d + h)))

pow-le-min_nodes : (k : ℕ) → 2 ^ k ≤ min_nodes (k + k) + 1
unfolding min_nodes
pow-le-min_nodes zero = omega arith
pow-le-min_nodes (suc k) =
    let e : suc k + suc k ≡ suc (suc (k + k)) = omega arith in
    rw (e, min_nodes)
      (rw (pow-suc 2 k) (omega (arith, pow-le-min_nodes k, min_nodes-le-suc (k + k))))

split : (a b : ℕ) → (a < b) ⊎ ((d : ℕ) × (a ≡ d + b))
split a b = elim (dec_lt a b) [ yes h ↦ inl h | no h ↦ inr (a - b, omega arith) ]

module _ {ℓ} {V : Type ℓ} where
  min_nodes-le-length : (t : Tree V) → IsAvl t → min_nodes (height t) ≤ length (to_list t)
  min_nodes-le-length null a = unfold min_nodes in omega arith
  min_nodes-le-length (node k v b l r) a = omega (
    arith,
    min_nodes_step (height l) (height r) (omega arith) (omega arith),
    min_nodes-le-length l a.3,
    min_nodes-le-length r a.4,
    length-append (to_list l) ((k, v) ∷ to_list r),
  )

  -- A valid map of fewer than 2 ^ k - 1 elements is less than 2 * k levels deep.
  height-lt :
      (m : LongMap V) (k : ℕ) → IsValid m → length (entries m) + 1 < 2 ^ k → height m.root < k + k
  height-lt m k ok few = elim (split (height m.root) (k + k)) [
    | inl h ↦ h
    | inr (d, e) ↦ absurd (
        omega (
          arith,
          pow-le-min_nodes k,
          min_nodes_mono d (k + k),
          min_nodes-le-length m.root ok.avl,
          ap min_nodes e,
        ))
  ]
