-- ===== src/TreeMap/Shrunk.antt =====
-- `rebalance` after one of the subtrees of a balanced node shrank by a level.
use openwrt_extra.Common.{
  ℕ, zero, suc, ◌+◌, ◌≤◌, max, ◌≡◌, ◌≢◌, refl, ◌⊎◌, inl, inr, Option, some, arith,
}
use openwrt_extra.Common.Int.{ℤ, pos, negsuc, pos_part, neg_part}
use openwrt_extra.TreeMap.{
  Tree, node, left, right, Direction, delete_node, plug, rebalance, balance_step,
}
use openwrt_extra.TreeMap.Contents.{to_list}
use openwrt_extra.TreeMap.Height.{height, IsAvl, node_balance, TellsAt}
use openwrt_extra.TreeMap.Rebalance.{rebalance_low, rebalance_high}

module _ {ℓ} {V : Type ℓ} where
  -- An AVL tree of the same entries, a level lower than the node was if it is even, and else as high.
  pub record IsShrunk (d : Direction) (k : ℕ) (v : V) (b : ℤ) (s t : Tree V) (h : ℕ)
      (r : Option (Tree V)) : Type ℓ where
    pub tree : Tree V
    pub returns : r ≡ some tree
    pub avl : IsAvl tree
    pub same : to_list tree ≡ to_list (plug d k v b s t)
    pub level :
        (node_balance tree ≡ pos 0) × (height tree ≡ max h (height s))
        ⊎ (node_balance tree ≢ pos 0) × (height tree ≡ suc (max h (height s)))

  module _ (k : ℕ) (v : V) (s t : Tree V) (h : ℕ) (fine : IsAvl s) (ft : IsAvl t) where
    -- `rebalance` at a node of an AVL tree of which one subtree shrank by a level: it reads nothing
    -- through NULL and gives an AVL tree with the same entries in order, a level lower than the node
    -- was if its balance is 0, and as high if it is not.
    pub delete-IsShrunk :
        (d : Direction) (b : ℤ)
        → TellsAt d h (height s) b
        → pos_part b ≤ 1
        → neg_part b ≤ 1
        → height t + 1 ≡ h
        → IsShrunk d k v b s t h (rebalance (plug d k v b s t) d delete_node)
    unfolding rebalance
    delete-IsShrunk left (negsuc zero) e p n g = record {
      tree = node k v (pos 0) t s;
      returns = refl;
      avl = ground arith;
      same = refl;
      level = inl (refl, omega arith);
    }
    delete-IsShrunk left (pos zero) e p n g = record {
      tree = node k v (pos 1) t s;
      returns = refl;
      avl = ground arith;
      same = refl;
      level = inr ((λ x. cc x), omega arith);
    }
    delete-IsShrunk left (pos (suc zero)) e p n g =
        let z =
          rebalance_high k v t s left delete_node (unfold balance_step in refl) ft fine
            (omega arith) in
        record {
          tree = z.tree;
          returns = z.returns;
          avl = z.avl;
          same = z.same;
          level = ground (arith, z.level);
        }
    delete-IsShrunk right (negsuc zero) e p n g =
        let z =
          rebalance_low k v s t right delete_node (unfold balance_step in refl) fine ft
            (omega arith) in
        record {
          tree = z.tree;
          returns = z.returns;
          avl = z.avl;
          same = z.same;
          level = ground (arith, z.level);
        }
    delete-IsShrunk right (pos zero) e p n g = record {
      tree = node k v (negsuc 0) s t;
      returns = refl;
      avl = ground arith;
      same = refl;
      level = inr ((λ x. cc x), omega arith);
    }
    delete-IsShrunk right (pos (suc zero)) e p n g = record {
      tree = node k v (pos 0) s t;
      returns = refl;
      avl = ground arith;
      same = refl;
      level = inl (refl, omega arith);
    }
    delete-IsShrunk d (negsuc (suc b)) e p n g = absurd (omega arith)
    delete-IsShrunk d (pos (suc (suc b))) e p n g = absurd (omega arith)
