-- ===== src/TreeMap/Paths.antt =====
-- Places in an AVL tree: the stack of parents, and the two loops that go up along it.
use openwrt_extra.Common.{
  ℕ, suc, ◌≤◌, max, ◌≡◌, ◌≢◌, refl, sym, ◌∙◌, ◌⊎◌, inl, inr, Option, some, List, [], ◌∷◌, ◌++◌,
  arith, subst, false, append-nil,
}
use openwrt_extra.Common.Int.{ℤ, pos, pos_part, neg_part, ◌==ℤ◌}
use openwrt_extra.TreeMap.{
  Tree, left, right, Direction, Frame, fill, rebuild, insert_up, delete_up, plug,
}
use openwrt_extra.TreeMap.Contents.{to_list, lefts, rights, to_list-fill, to_list-rebuild}
use openwrt_extra.TreeMap.Height.{height, IsAvl, node_balance, TellsAt, balance_of-eq_some}
use openwrt_extra.TreeMap.Grown.{insert-IsGrown}
use openwrt_extra.TreeMap.Shrunk.{delete-IsShrunk}

zero_test : (b : ℤ) → b ≢ pos 0 → (b ==ℤ pos 0) ≡ false
zero_test b h = ground (arith, h)

module _ {ℓ} {V : Type ℓ} where
  -- The nodes on the stack are those of an AVL tree with a subtree of height `h` in the hole.
  abbrev pub IsAvlPath : List (Frame V) → ℕ → Type 0
  IsAvlPath [] h = Unit
  IsAvlPath (f ∷ path) h =
      IsAvl f.sibling
      × TellsAt f.direction h (height f.sibling) f.balance
      × (pos_part f.balance ≤ 1)
      × (neg_part f.balance ≤ 1)
      × IsAvlPath path (suc (max h (height f.sibling)))

  -- An AVL tree with these entries.
  pub record IsTree (xs : List (ℕ × V)) (r : Option (Tree V)) : Type ℓ where
    pub tree : Tree V
    pub returns : r ≡ some tree
    pub avl : IsAvl tree
    pub same : to_list tree ≡ xs

  pub IsTree-cast :
      {xs ys : List (ℕ × V)} {r : Option (Tree V)} → IsTree xs r → xs ≡ ys → IsTree ys r
  IsTree-cast {r} z e = subst (λ zs. IsTree zs r) e z

  plug_lem :
      (d : Direction) (k : ℕ) (v : V) (b : ℤ) (s t : Tree V)
      → IsAvl s
      → IsAvl t
      → TellsAt d (height t) (height s) b
      → pos_part b ≤ 1
      → neg_part b ≤ 1
      → IsAvl (plug d k v b s t) × (height (plug d k v b s t) ≡ suc (max (height t) (height s)))
  plug_lem left k v b s t a c e p n = ground arith
  plug_lem right k v b s t a c e p n = ground arith

  pub rebuild-IsAvl :
      (path : List (Frame V)) (t : Tree V)
      → IsAvlPath path (height t)
      → IsAvl t
      → IsAvl (rebuild path t)
  unfolding rebuild
  rebuild-IsAvl [] t p a = a
  rebuild-IsAvl (f ∷ path) t p a =
      let z = plug_lem f.direction f.key f.value f.balance f.sibling t p.0 a p.1 p.2 p.3 in
      rebuild-IsAvl path (fill f t) (rw z.1 p.4) z.0

  module _ (f : Frame V) (path : List (Frame V)) (h : ℕ) (p : IsAvlPath (f ∷ path) h) where
    -- A loop that stops: the rest of the tree is as it was.
    stop-IsTree :
        (t n : Tree V)
        → IsAvl n
        → height n ≡ suc (max h (height f.sibling))
        → to_list n ≡ to_list (fill f t)
        → IsTree (lefts (f ∷ path) ++ (to_list t ++ rights (f ∷ path))) (some (rebuild path n))
    stop-IsTree t n a e same = record {
      tree = rebuild path n;
      returns = refl;
      avl = rebuild-IsAvl path n (rw e p.4) a;
      same = to_list-rebuild path n ∙ rw same (to_list-fill f path t);
    }

  -- The loop after an insertion: the subtree in the hole grew by a level.
  pub insert_up-IsTree :
      (path : List (Frame V)) (t : Tree V) (h : ℕ)
      → IsAvlPath path h
      → IsAvl t
      → height t ≡ suc h
      → (h ≡ 0) ⊎ (node_balance t ≢ pos 0)
      → IsTree (lefts path ++ (to_list t ++ rights path)) (insert_up path t)
  unfolding insert_up
  insert_up-IsTree [] t h p a g u = record {
    tree = t;
    returns = refl;
    avl = a;
    same = sym (append-nil _);
  }
  insert_up-IsTree (f ∷ path) t h p a g u =
      let z =
        insert-IsGrown f.key f.value f.sibling t h p.0 a f.direction f.balance p.1 p.2 p.3 g u in
      let e = balance_of-eq_some z.tree (omega (arith, z.level)) in
      elim z.level [
        | inl (even, level) ↦
            rw (z.returns) (rw e (rw even (stop-IsTree f path h p t z.tree z.avl level z.same)))
        | inr (odd, level) ↦ rw (z.returns) (
            rw e (
              rw (zero_test _ odd) (
                subst (λ xs. IsTree xs (insert_up path z.tree)) (rw z.same (to_list-fill f path t))
                  (insert_up-IsTree path z.tree (suc (max h (height f.sibling))) p.4 z.avl level
                    (inr odd)))))
      ]

  -- The loop after a deletion: the subtree in the hole shrank by a level.
  pub delete_up-IsTree :
      (path : List (Frame V)) (t : Tree V)
      → IsAvlPath path (suc (height t))
      → IsAvl t
      → IsTree (lefts path ++ (to_list t ++ rights path)) (delete_up path t)
  unfolding delete_up
  delete_up-IsTree [] t p a = record {
    tree = t;
    returns = refl;
    avl = a;
    same = sym (append-nil _);
  }
  delete_up-IsTree (f ∷ path) t p a =
      let z =
        delete-IsShrunk f.key f.value f.sibling t (suc (height t)) p.0 a f.direction f.balance p.1
          p.2 p.3 (omega arith) in
      let e = balance_of-eq_some z.tree (omega (arith, z.level)) in
      elim z.level [
        | inl (even, level) ↦ rw (z.returns) (
            rw e (
              rw even (
                (subst (λ xs. IsTree xs (delete_up path z.tree)) (rw z.same (to_list-fill f path t))
                  (delete_up-IsTree path z.tree (rw level p.4) z.avl)))))
        | inr (odd, level) ↦
            rw (z.returns)
              (rw e (rw (zero_test _ odd) (stop-IsTree f path _ p t z.tree z.avl level z.same)))
      ]
