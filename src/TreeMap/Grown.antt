-- ===== src/TreeMap/Grown.antt =====
-- `rebalance` after one of the subtrees of a balanced node grew by a level.
use openwrt_extra.Common.{
  ℕ, zero, suc, ◌≤◌, max, ◌≡◌, ◌≢◌, refl, ◌⊎◌, inl, inr, Option, some, arith,
}
use openwrt_extra.Common.Int.{ℤ, pos, negsuc, pos_part, neg_part}
use openwrt_extra.TreeMap.{
  Tree, node, left, right, Direction, insert_node, plug, rebalance, balance_step,
}
use openwrt_extra.TreeMap.Contents.{to_list}
use openwrt_extra.TreeMap.Height.{height, IsAvl, node_balance, TellsAt}
use openwrt_extra.TreeMap.Rebalance.{rebalance_low, rebalance_high}

module _ {ℓ} {V : Type ℓ} where
  -- An AVL tree of the same entries, as high as the node was if it is even, and else a level higher.
  pub record IsGrown (d : Direction) (k : ℕ) (v : V) (b : ℤ) (s t : Tree V) (h : ℕ)
      (r : Option (Tree V)) : Type ℓ where
    pub tree : Tree V
    pub returns : r ≡ some tree
    pub avl : IsAvl tree
    pub same : to_list tree ≡ to_list (plug d k v b s t)
    pub level :
        (node_balance tree ≡ pos 0) × (height tree ≡ suc (max h (height s)))
        ⊎ (node_balance tree ≢ pos 0) × (height tree ≡ suc (suc (max h (height s))))

  module _ (k : ℕ) (v : V) (s t : Tree V) (h : ℕ) (fine : IsAvl s) (ft : IsAvl t) where
    -- `rebalance` at a node of an AVL tree of which one subtree grew by a level to a new or uneven
    -- tree: it reads nothing through NULL and gives an AVL tree with the same entries in order, as
    -- high as the node was if its balance is 0, and a level higher if it is not.
    pub insert-IsGrown :
        (d : Direction) (b : ℤ)
        → TellsAt d h (height s) b
        → pos_part b ≤ 1
        → neg_part b ≤ 1
        → height t ≡ suc h
        → (h ≡ 0) ⊎ (node_balance t ≢ pos 0)
        → IsGrown d k v b s t h (rebalance (plug d k v b s t) d insert_node)
    unfolding rebalance
    insert-IsGrown left (negsuc zero) e p n g u =
        let z =
          rebalance_low k v t s left insert_node (unfold balance_step in refl) ft fine
            (omega arith) in
        record {
          tree = z.tree;
          returns = z.returns;
          avl = z.avl;
          same = z.same;
          level = ground (arith, z.level);
        }
    insert-IsGrown left (pos zero) e p n g u = record {
      tree = node k v (negsuc 0) t s;
      returns = refl;
      avl = ground arith;
      same = refl;
      level = inr ((λ x. cc x), omega arith);
    }
    insert-IsGrown left (pos (suc zero)) e p n g u = record {
      tree = node k v (pos 0) t s;
      returns = refl;
      avl = ground arith;
      same = refl;
      level = inl (refl, omega arith);
    }
    insert-IsGrown right (negsuc zero) e p n g u = record {
      tree = node k v (pos 0) s t;
      returns = refl;
      avl = ground arith;
      same = refl;
      level = inl (refl, omega arith);
    }
    insert-IsGrown right (pos zero) e p n g u = record {
      tree = node k v (pos 1) s t;
      returns = refl;
      avl = ground arith;
      same = refl;
      level = inr ((λ x. cc x), omega arith);
    }
    insert-IsGrown right (pos (suc zero)) e p n g u =
        let z =
          rebalance_high k v s t right insert_node (unfold balance_step in refl) fine ft
            (omega arith) in
        record {
          tree = z.tree;
          returns = z.returns;
          avl = z.avl;
          same = z.same;
          level = ground (arith, z.level);
        }
    insert-IsGrown d (negsuc (suc b)) e p n g u = absurd (omega arith)
    insert-IsGrown d (pos (suc (suc b))) e p n g u = absurd (omega arith)
