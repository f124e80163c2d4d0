-- ===== src/TreeMap/FixRight.antt =====
-- The rotations of `rebalance` at a node whose right subtree is two levels higher.
use openwrt_extra.Common.{zero, suc, ◌+◌, ◌≡◌, refl, inl, inr, ℕ, append_assoc, arith}
use openwrt_extra.Common.Int.{ℤ, pos, negsuc}
use openwrt_extra.TreeMap.{Tree, null, node, fix_right}
use openwrt_extra.TreeMap.Height.{height, IsAvl, IsSettled}

module _ {ℓ} {V : Type ℓ} where
  -- The double rotation; `b` is the balance of the node that comes to the top.
  double_right-IsSettled :
      (k : ℕ) (v : V) (l : Tree V) (rk : ℕ) (rv : V) (rr : Tree V) (mk : ℕ) (mv : V) (b : ℤ)
      (ml mr : Tree V)
      → let r = node rk rv (negsuc 0) (node mk mv b ml mr) rr in
        IsAvl l
        → IsAvl r
        → height r ≡ height l + 2
        → IsSettled (node k v (pos 2) l r) r (fix_right (node k v (pos 2) l r))
  unfolding fix_right
  double_right-IsSettled k v l rk rv rr mk mv (negsuc zero) ml mr a c h = record {
    tree = node mk mv (pos 0) (node k v (pos 0) l ml) (node rk rv (pos 1) mr rr);
    returns = refl;
    avl = ground arith;
    same = simp append_assoc;
    level = inl (refl, omega arith);
  }
  double_right-IsSettled k v l rk rv rr mk mv (pos zero) ml mr a c h = record {
    tree = node mk mv (pos 0) (node k v (pos 0) l ml) (node rk rv (pos 0) mr rr);
    returns = refl;
    avl = ground arith;
    same = simp append_assoc;
    level = inl (refl, omega arith);
  }
  double_right-IsSettled k v l rk rv rr mk mv (pos (suc zero)) ml mr a c h = record {
    tree = node mk mv (pos 0) (node k v (negsuc 0) l ml) (node rk rv (pos 0) mr rr);
    returns = refl;
    avl = ground arith;
    same = simp append_assoc;
    level = inl (refl, omega arith);
  }
  double_right-IsSettled k v l rk rv rr mk mv b ml mr a c h = absurd (omega arith)

  pub fix_right-IsSettled :
      (k : ℕ) (v : V) (l r : Tree V)
      → IsAvl l
      → IsAvl r
      → height r ≡ height l + 2
      → IsSettled (node k v (pos 2) l r) r (fix_right (node k v (pos 2) l r))
  unfolding fix_right
  fix_right-IsSettled k v l null a c h = absurd (omega arith)
  fix_right-IsSettled k v l (node rk rv (pos (suc zero)) rl rr) a c h = record {
    tree = node rk rv (pos 0) (node k v (pos 0) l rl) rr;
    returns = refl;
    avl = ground arith;
    same = simp append_assoc;
    level = inl (refl, omega arith);
  }
  fix_right-IsSettled k v l (node rk rv (pos zero) rl rr) a c h = record {
    tree = node rk rv (negsuc 0) (node k v (pos 1) l rl) rr;
    returns = refl;
    avl = ground arith;
    same = simp append_assoc;
    level = inr (refl, (λ e. cc e), omega arith);
  }
  fix_right-IsSettled k v l (node rk rv (negsuc zero) null rr) a c h = absurd (omega arith)
  fix_right-IsSettled k v l (node rk rv (negsuc zero) (node mk mv b ml mr) rr) a c h =
      double_right-IsSettled k v l rk rv rr mk mv b ml mr a c h
  fix_right-IsSettled k v l (node rk rv (pos (suc (suc b))) rl rr) a c h = absurd (omega arith)
  fix_right-IsSettled k v l (node rk rv (negsuc (suc b)) rl rr) a c h = absurd (omega arith)
