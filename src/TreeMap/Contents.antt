-- ===== src/TreeMap/Contents.antt =====
-- The entries of a tree in order, and those on each side of a place in it.
use openwrt_extra.Common.{◌≡◌, ◌∙◌, List, [], ◌∷◌, ◌++◌, append_assoc, append-nil, ℕ}
use openwrt_extra.TreeMap.{Tree, null, node, left, right, Frame, fill, rebuild, Direction, plug}
use openwrt_extra.Common.Int.{ℤ}

module _ {ℓ} {V : Type ℓ} where
  abbrev pub to_list : Tree V → List (ℕ × V)
  to_list null = []
  to_list (node k v b l r) = to_list l ++ ((k, v) ∷ to_list r)

  abbrev pub before : Direction → ℕ → V → Tree V → List (ℕ × V) → List (ℕ × V)
  before left k v sibling outer = outer
  before right k v sibling outer = outer ++ (to_list sibling ++ ((k, v) ∷ []))

  abbrev pub after : Direction → ℕ → V → Tree V → List (ℕ × V) → List (ℕ × V)
  after left k v sibling outer = (k, v) ∷ (to_list sibling ++ outer)
  after right k v sibling outer = outer

  -- What stands to the left of the hole, and to the right.
  abbrev pub lefts : List (Frame V) → List (ℕ × V)
  lefts [] = []
  lefts (f ∷ path) = before f.direction f.key f.value f.sibling (lefts path)

  abbrev pub rights : List (Frame V) → List (ℕ × V)
  rights [] = []
  rights (f ∷ path) = after f.direction f.key f.value f.sibling (rights path)

  to_list-plug :
      (d : Direction) (k : ℕ) (v : V) (b : ℤ) (s t : Tree V) (xs ys : List (ℕ × V))
      → xs ++ (to_list (plug d k v b s t) ++ ys)
        ≡ before d k v s xs ++ (to_list t ++ after d k v s ys)
  to_list-plug left k v b s t xs ys = simp append_assoc
  to_list-plug right k v b s t xs ys = simp append_assoc

  pub to_list-fill :
      (f : Frame V) (path : List (Frame V)) (t : Tree V)
      → lefts path ++ (to_list (fill f t) ++ rights path)
        ≡ lefts (f ∷ path) ++ (to_list t ++ rights (f ∷ path))
  to_list-fill f path t =
      to_list-plug f.direction f.key f.value f.balance f.sibling t (lefts path) (rights path)

  -- The entries of a tree that is seen from a place in it.
  pub to_list-rebuild :
      (path : List (Frame V)) (t : Tree V)
      → to_list (rebuild path t) ≡ lefts path ++ (to_list t ++ rights path)
  unfolding rebuild
  to_list-rebuild [] t = simp append-nil
  to_list-rebuild (f ∷ path) t = to_list-rebuild path (fill f t) ∙ to_list-fill f path t
