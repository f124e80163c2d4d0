-- ===== src/TreeMap/Rebalance.antt =====
-- `rebalance` where the balance of the node leaves -1 .. 1.
use openwrt_extra.Common.{ℕ, ◌+◌, ◌<◌, ◌≡◌, Option, some, ◌>>=◌, if◌then◌else◌, arith}
use openwrt_extra.Common.Int.{pos, negsuc, ltb_ℤ}
use openwrt_extra.TreeMap.{
  Tree, null, node, Direction, UpdateOp, balance_of, fix_right, rebalance, balance_step,
}
use openwrt_extra.TreeMap.Height.{height, IsAvl, IsSettled}
use openwrt_extra.TreeMap.FixLeft.{fix_left-IsSettled}
use openwrt_extra.TreeMap.FixRight.{fix_right-IsSettled}

module _ {ℓ} {V : Type ℓ} where
  -- The second test of `rebalance` does nothing to an AVL tree.
  keep_right :
      (t : Tree V)
      → IsAvl t
      → 0 < height t
      → (balance_of t >>= λ d. if ltb_ℤ (pos 1) d then fix_right t else some t) ≡ some t
  keep_right null a h = absurd (omega arith)
  keep_right (node k v b l r) a h = ground arith

  settled-pos :
      {n heavy : Tree V} {o : Option (Tree V)} (s : IsSettled n heavy o)
      → 1 < height n
      → 0 < height s.tree
  settled-pos s h = omega (arith, s.level)

  -- A left subtree two levels higher.
  pub rebalance_low :
      (k : ℕ) (v : V) (l r : Tree V) (d : Direction) (op : UpdateOp)
      → balance_step op d ≡ negsuc 0
      → IsAvl l
      → IsAvl r
      → height l ≡ height r + 2
      → IsSettled (node k v (negsuc 1) l r) l (rebalance (node k v (negsuc 0) l r) d op)
  unfolding rebalance
  rebalance_low k v l r d op e a c h =
      let s = fix_left-IsSettled k v l r a c h in
      record {
        tree = s.tree;
        returns = rw e (rw s.returns (keep_right s.tree s.avl (settled-pos s (omega arith))));
        avl = s.avl;
        same = s.same;
        level = s.level;
      }

  -- A right subtree two levels higher.
  pub rebalance_high :
      (k : ℕ) (v : V) (l r : Tree V) (d : Direction) (op : UpdateOp)
      → balance_step op d ≡ pos 1
      → IsAvl l
      → IsAvl r
      → height r ≡ height l + 2
      → IsSettled (node k v (pos 2) l r) r (rebalance (node k v (pos 1) l r) d op)
  unfolding rebalance
  rebalance_high k v l r d op e a c h =
      let s = fix_right-IsSettled k v l r a c h in
      record {
        tree = s.tree;
        returns = rw e s.returns;
        avl = s.avl;
        same = s.same;
        level = s.level;
      }
