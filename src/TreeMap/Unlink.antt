-- ===== src/TreeMap/Unlink.antt =====
-- The removal of a node at a place.
use openwrt_extra.Common.{ℕ, ◌≡◌, ap, ◌∙◌, List, [], ◌∷◌, ◌++◌, arith, subst, append_assoc}
use openwrt_extra.Common.Int.{ℤ}
use openwrt_extra.TreeMap.{Tree, null, node, Frame, unlink, least, go_right, delete_up}
use openwrt_extra.TreeMap.Contents.{to_list, lefts, rights}
use openwrt_extra.TreeMap.Height.{height, IsAvl}
use openwrt_extra.TreeMap.Paths.{IsAvlPath, IsTree, IsTree-cast, delete_up-IsTree}
use openwrt_extra.TreeMap.Walk.{push_left-IsLeast}

module _ {ℓ} {V : Type ℓ} where
  regroup :
      (xs ys : List (ℕ × V)) (e : ℕ × V) {rest zs : List (ℕ × V)}
      → e ∷ rest ≡ zs
      → (xs ++ (ys ++ (e ∷ []))) ++ rest ≡ xs ++ (ys ++ zs)
  regroup xs ys e h = simp append_assoc (ap (λ t. xs ++ (ys ++ t)) h)

  -- The tree without the node at the place is an AVL tree of the other entries.
  pub unlink-IsTree :
      (path : List (Frame V)) (k : ℕ) (v : V) (b : ℤ) (l r : Tree V)
      → IsAvlPath path (height (node k v b l r))
      → IsAvl (node k v b l r)
      → IsTree (lefts path ++ (to_list l ++ (to_list r ++ rights path))) (unlink path b l r)
  unfolding unlink
  unlink-IsTree path k v b l null p a =
      delete_up-IsTree path l (subst (IsAvlPath path) (omega arith) p) a.3
  unlink-IsTree path k v b l (node rk rv rb null rr) p a =
      subst (λ xs. IsTree xs (delete_up (go_right rk rv b l ∷ path) rr)) (simp append_assoc)
        (delete_up-IsTree (go_right rk rv b l ∷ path) rr
          (a.3, omega arith, a.1, a.2, subst (IsAvlPath path) (omega arith) p) a.4.4)
  unlink-IsTree path k v b l (node rk rv rb (node lk lv lb ll lr) rr) p a =
      let mk = (least lk lv ll).0 in
      let mv = (least lk lv ll).1 in
      let z =
        push_left-IsLeast rk rv rb (node lk lv lb ll lr) rr (go_right mk mv b l ∷ path)
          (a.3, a.0, a.1, a.2, subst (IsAvlPath path) (omega arith) p) a.4 in
      IsTree-cast (delete_up-IsTree _ _ z.avl_path z.avl)
        (rw z.same_lefts (regroup (lefts path) (to_list l) (mk, mv) z.entries ∙ simp append_assoc))
