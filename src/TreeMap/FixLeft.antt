-- ===== src/TreeMap/FixLeft.antt =====
-- The rotations of `rebalance` at a node whose left subtree is two levels higher.
use openwrt_extra.Common.{zero, suc, ◌+◌, ◌≡◌, refl, inl, inr, ℕ, append_assoc, arith}
use openwrt_extra.Common.Int.{ℤ, pos, negsuc}
use openwrt_extra.TreeMap.{Tree, null, node, fix_left}
use openwrt_extra.TreeMap.Height.{height, IsAvl, IsSettled}

module _ {ℓ} {V : Type ℓ} where
  -- The double rotation; `b` is the balance of the node that comes to the top.
  double_left-IsSettled :
      (k : ℕ) (v : V) (r : Tree V) (lk : ℕ) (lv : V) (ll : Tree V) (mk : ℕ) (mv : V) (b : ℤ)
      (ml mr : Tree V)
      → let l = node lk lv (pos 1) ll (node mk mv b ml mr) in
        IsAvl l
        → IsAvl r
        → height l ≡ height r + 2
        → IsSettled (node k v (negsuc 1) l r) l (fix_left (node k v (negsuc 1) l r))
  unfolding fix_left
  double_left-IsSettled k v r lk lv ll mk mv (negsuc zero) ml mr a c h = record {
    tree = node mk mv (pos 0) (node lk lv (pos 0) ll ml) (node k v (pos 1) mr r);
    returns = refl;
    avl = grind arith;
    same = simp append_assoc;
    level = inl (refl, omega arith);
  }
  double_left-IsSettled k v r lk lv ll mk mv (pos zero) ml mr a c h = record {
    tree = node mk mv (pos 0) (node lk lv (pos 0) ll ml) (node k v (pos 0) mr r);
    returns = refl;
    avl = ground arith;
    same = simp append_assoc;
    level = inl (refl, omega arith);
  }
  double_left-IsSettled k v r lk lv ll mk mv (pos (suc zero)) ml mr a c h = record {
    tree = node mk mv (pos 0) (node lk lv (negsuc 0) ll ml) (node k v (pos 0) mr r);
    returns = refl;
    avl = ground arith;
    same = simp append_assoc;
    level = inl (refl, omega arith);
  }
  double_left-IsSettled k v r lk lv ll mk mv b ml mr a c h = absurd (omega arith)

  pub fix_left-IsSettled :
      (k : ℕ) (v : V) (l r : Tree V)
      → IsAvl l
      → IsAvl r
      → height l ≡ height r + 2
      → IsSettled (node k v (negsuc 1) l r) l (fix_left (node k v (negsuc 1) l r))
  unfolding fix_left
  fix_left-IsSettled k v null r a c h = absurd (omega arith)
  fix_left-IsSettled k v (node lk lv (negsuc zero) ll lr) r a c h = record {
    tree = node lk lv (pos 0) ll (node k v (pos 0) lr r);
    returns = refl;
    avl = ground arith;
    same = simp append_assoc;
    level = inl (refl, omega arith);
  }
  fix_left-IsSettled k v (node lk lv (pos zero) ll lr) r a c h = record {
    tree = node lk lv (pos 1) ll (node k v (negsuc 0) lr r);
    returns = refl;
    avl = ground arith;
    same = simp append_assoc;
    level = inr (refl, (λ e. cc e), omega arith);
  }
  fix_left-IsSettled k v (node lk lv (pos (suc zero)) ll null) r a c h = absurd (omega arith)
  fix_left-IsSettled k v (node lk lv (pos (suc zero)) ll (node mk mv b ml mr)) r a c h =
      double_left-IsSettled k v r lk lv ll mk mv b ml mr a c h
  fix_left-IsSettled k v (node lk lv (pos (suc (suc b))) ll lr) r a c h = absurd (omega arith)
  fix_left-IsSettled k v (node lk lv (negsuc (suc b)) ll lr) r a c h = absurd (omega arith)
