-- ===== src/TreeMap/Walk.antt =====
-- The walk down a sorted AVL tree: where it ends, and that it moves through the same tree.
use openwrt_extra.Common.{
  ℕ, suc, ◌<◌, ◌≡◌, refl, sym, ap, ◌∙◌, ◌⊎◌, inl, inr, List, [], ◌∷◌, ◌++◌, arith, subst,
  append_assoc, All-append,
}
use openwrt_extra.Common.Int.{ℤ}
use openwrt_extra.TreeMap.{
  Tree, null, node, Frame, rebuild, descend, least, push_left, go_left, go_right,
}
use openwrt_extra.TreeMap.Contents.{to_list, lefts, rights, to_list-rebuild}
use openwrt_extra.TreeMap.Height.{height, IsAvl}
use openwrt_extra.TreeMap.Sorted.{
  Below, Above, IsSorted, IsSorted-append_parts, Below-trans, Above-trans,
}
use openwrt_extra.TreeMap.Paths.{IsAvlPath}

three_ways : (a b : ℕ) → (a < b) ⊎ ((a ≡ b) ⊎ (b < a))
three_ways a b = ground arith

module _ {ℓ} {V : Type ℓ} where
  -- The walk ends at NULL, or at the node with the key.
  abbrev pub EndsAt : ℕ → Tree V → Type 0
  EndsAt key null = Unit
  EndsAt key (node k v b l r) = k ≡ key

  -- A place where `key` is or would be, in the tree that `whole` is the root of.
  pub record IsPlace (key : ℕ) (whole : Tree V) (path : List (Frame V)) (t : Tree V) : Type ℓ where
    pub whole_tree : rebuild path t ≡ whole
    pub avl_path : IsAvlPath path (height t)
    pub avl : IsAvl t
    pub sorted : IsSorted (to_list t)
    pub below : Below key (lefts path)
    pub above : Above key (rights path)

  module _ (key k : ℕ) (v : V) (b : ℤ) (l r : Tree V) (path : List (Frame V)) where
    descend-lt :
        key < k → descend key (node k v b l r) path ≡ descend key l (go_left k v b r ∷ path)
    unfolding descend
    descend-lt h = ground arith

    descend-gt :
        k < key → descend key (node k v b l r) path ≡ descend key r (go_right k v b l ∷ path)
    unfolding descend
    descend-gt h = ground arith

    descend-eq : key ≡ k → descend key (node k v b l r) path ≡ (path, node k v b l r)
    unfolding descend
    descend-eq h = ground arith

    IsPlace-go_left :
        {whole : Tree V}
        → key < k
        → IsPlace key whole path (node k v b l r)
        → IsPlace key whole (go_left k v b r ∷ path) l
    unfolding rebuild
    IsPlace-go_left h p =
        let cut = IsSorted-append_parts (to_list l) (k, v) (to_list r) p.sorted in
        record {
          whole_tree = p.whole_tree;
          avl_path = (p.avl.4, p.avl.0, p.avl.1, p.avl.2, p.avl_path);
          avl = p.avl.3;
          sorted = cut.2;
          below = p.below;
          above = (
            h,
            All-append _ (to_list r) (rights path) (Above-trans key k (to_list r) h cut.1) p.above,
          );
        }

    IsPlace-go_right :
        {whole : Tree V}
        → k < key
        → IsPlace key whole path (node k v b l r)
        → IsPlace key whole (go_right k v b l ∷ path) r
    unfolding rebuild
    IsPlace-go_right h p =
        let cut = IsSorted-append_parts (to_list l) (k, v) (to_list r) p.sorted in
        record {
          whole_tree = p.whole_tree;
          avl_path =
              (p.avl.3, p.avl.0, p.avl.1, p.avl.2, subst (IsAvlPath path) (omega arith) p.avl_path);
          avl = p.avl.4;
          sorted = cut.3;
          below = All-append _ (lefts path) (to_list l ++ ((k, v) ∷ [])) p.below (
              All-append _ (to_list l) ((k, v) ∷ []) (Below-trans k key (to_list l) h cut.0)
                (h, tt));
          above = p.above;
        }

  -- The walk keeps to such places, and ends at NULL or at the node with the key.
  pub descend-IsPlace :
      (key : ℕ) {whole : Tree V} (t : Tree V) (path : List (Frame V))
      → IsPlace key whole path t
      → IsPlace key whole (descend key t path).0 (descend key t path).1
        × EndsAt key (descend key t path).1
  unfolding descend
  descend-IsPlace key null path p = (p, tt)
  descend-IsPlace key (node k v b l r) path p = elim (three_ways key k) [
    | inl h ↦
        rw (descend-lt key k v b l r path h)
          (descend-IsPlace key l (go_left k v b r ∷ path) (IsPlace-go_left key k v b l r path h p))
    | inr (inl h) ↦ rw (descend-eq key k v b l r path h) (p, sym h)
    | inr (inr h) ↦
        rw (descend-gt key k v b l r path h) (
          descend-IsPlace key r (go_right k v b l ∷ path) (IsPlace-go_right key k v b l r path h p))
  ]

  -- The entries of the whole tree, cut at a place.
  pub IsPlace-to_list :
      {key : ℕ} {whole t : Tree V} {path : List (Frame V)}
      → IsPlace key whole path t
      → to_list whole ≡ lefts path ++ (to_list t ++ rights path)
  IsPlace-to_list {t} {path} p = ap to_list (sym p.whole_tree) ∙ to_list-rebuild path t

  -- The walk to the leftmost node of a right subtree.
  pub record IsLeast (k : ℕ) (v : V) (l r : Tree V) (path : List (Frame V)) (e : ℕ × V)
      (path' : List (Frame V)) (rest : Tree V) : Type ℓ where
    pub avl_path : IsAvlPath path' (suc (height rest))
    pub avl : IsAvl rest
    pub same_lefts : lefts path' ≡ lefts path
    pub entries :
        e ∷ (to_list rest ++ rights path') ≡ to_list l ++ ((k, v) ∷ (to_list r ++ rights path))

  pub push_left-IsLeast :
      (k : ℕ) (v : V) (b : ℤ) (l r : Tree V) (path : List (Frame V))
      → IsAvlPath path (height (node k v b l r))
      → IsAvl (node k v b l r)
      → IsLeast k v l r path (least k v l) (push_left k v b l r path).0 (push_left k v b l r path).1
  unfolding least push_left
  push_left-IsLeast k v b null r path p a = record {
    avl_path = subst (IsAvlPath path) (omega arith) p;
    avl = a.4;
    same_lefts = refl;
    entries = refl;
  }
  push_left-IsLeast k v b (node lk lv lb ll lr) r path p a =
      let z =
        push_left-IsLeast lk lv lb ll lr (go_left k v b r ∷ path) (a.4, a.0, a.1, a.2, p) a.3 in
      record {
        avl_path = z.avl_path;
        avl = z.avl;
        same_lefts = z.same_lefts;
        entries = z.entries ∙ simp append_assoc;
      }
