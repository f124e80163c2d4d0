-- ===== src/TreeMap/Height.antt =====
-- The AVL condition on heights and balances, and the two outcomes of a rotation.
use openwrt_extra.Common.{ℕ, suc, ◌+◌, ◌≤◌, ◌<◌, max, ◌≡◌, ◌≢◌, refl, ◌⊎◌, Option, some, arith}
use openwrt_extra.Common.Int.{ℤ, pos, pos_part, neg_part}
use openwrt_extra.TreeMap.{Tree, null, node, balance_of, Direction}
use openwrt_extra.TreeMap.Contents.{to_list}

-- The balance is the height of the right subtree less that of the left.
abbrev pub Tells : ℕ → ℕ → ℤ → Type 0
Tells h j b = h + pos_part b ≡ j + neg_part b

-- The same with the subtree of height `h` on this side.
abbrev pub TellsAt : Direction → ℕ → ℕ → ℤ → Type 0
TellsAt Direction.left h j b = Tells h j b
TellsAt Direction.right h j b = Tells j h b

module _ {ℓ} {V : Type ℓ} where
  abbrev pub height : Tree V → ℕ
  height null = 0
  height (node k v b l r) = suc (max (height l) (height r))

  abbrev pub IsAvl : Tree V → Type 0
  IsAvl null = Unit
  IsAvl (node k v b l r) =
      Tells (height l) (height r) b × (pos_part b ≤ 1) × (neg_part b ≤ 1) × IsAvl l × IsAvl r

  abbrev pub node_balance : Tree V → ℤ
  node_balance null = pos 0
  node_balance (node k v b l r) = b

  -- `r` is a tree that may stand for `n`, whose child `heavy` was too high: one level lower and
  -- even, or, if the child was even, as high and not even.
  pub record IsSettled (n heavy : Tree V) (r : Option (Tree V)) : Type ℓ where
    pub tree : Tree V
    pub returns : r ≡ some tree
    pub avl : IsAvl tree
    pub same : to_list tree ≡ to_list n
    pub level :
        (node_balance tree ≡ pos 0) × (height tree + 1 ≡ height n)
        ⊎ (node_balance heavy ≡ pos 0) × (node_balance tree ≢ pos 0) × (height tree ≡ height n)

  pub balance_of-eq_some : (t : Tree V) → 0 < height t → balance_of t ≡ some (node_balance t)
  balance_of-eq_some null h = absurd (omega arith)
  balance_of-eq_some (node k v b l r) h = refl
