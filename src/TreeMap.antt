-- ===== src/TreeMap.antt =====
-- The long_map of packages/gargoyle/libericstools/src/tree_map.c: an AVL tree that is walked with an
-- explicit stack of parents. A tree is a value, the stack of pointers to parents is a list of
-- frames, each a node with a hole where the walk went on, and `none` is a read through NULL.
-- The balance is a signed char; it never leaves -2 .. 2 in a valid map, so it is an integer here.
pub mod Maps
pub mod Contents
pub mod Height
pub mod FixLeft
pub mod FixRight
pub mod Rebalance
pub mod Grown
pub mod Shrunk
pub mod Paths
pub mod Sorted
pub mod Places
pub mod Walk
pub mod Unlink
pub mod Laws
pub mod Steps
pub mod Reading
pub mod Client
pub mod Traversal
pub mod Ends
pub mod Destroy
pub mod Depth
pub mod Strings
mod Examples
use openwrt_extra.Common.{
  ℕ, ltb, ◌==◌, if◌then◌else◌, ◌>>=◌, Option, none, some, List, [], ◌∷◌, compare, Ordering,
}
use openwrt_extra.Common.Int.{ℤ, pos, negsuc, ◌+ℤ◌, ltb_ℤ, ◌==ℤ◌}

-- `long_map_node`; `null` is the NULL pointer.
pub data Tree {ℓ} (V : Type ℓ) : Type ℓ where
  null : Tree V
  node : (key : ℕ) (value : V) (balance : ℤ) (left right : Tree V) → Tree V

-- The arguments -1 and 1 of `rebalance`: which subtree changed, and by what.
pub data Direction : Type 0 where
  left right : Direction

pub data UpdateOp : Type 0 where
  delete_node insert_node : UpdateOp

-- update_op * direction
unfoldable pub balance_step : UpdateOp → Direction → ℤ
balance_step insert_node left = negsuc 0
balance_step insert_node right = pos 1
balance_step delete_node left = pos 1
balance_step delete_node right = negsuc 0

-- A `stack_node`: the node it points to, less the child on the side of `direction`.
pub record Frame {ℓ} (V : Type ℓ) : Type ℓ where
  pub direction : Direction
  pub key : ℕ
  pub value : V
  pub balance : ℤ
  pub sibling : Tree V

module _ {ℓ} {V : Type ℓ} where
  abbrev pub balance_of : Tree V → Option ℤ
  balance_of null = none
  balance_of (node k v b l r) = some b

  abbrev pub set_balance : ℤ → Tree V → Option (Tree V)
  set_balance b null = none
  set_balance b (node k v _ l r) = some (node k v b l r)

  -- An update through the pointer `&((*n)->left)`, and through `&((*n)->right)`.
  abbrev pub on_left : (Tree V → Option (Tree V)) → Tree V → Option (Tree V)
  on_left f null = none
  on_left f (node k v b l r) = f l >>= λ l'. some (node k v b l' r)

  abbrev pub on_right : (Tree V → Option (Tree V)) → Tree V → Option (Tree V)
  on_right f null = none
  on_right f (node k v b l r) = f r >>= λ r'. some (node k v b l r')

  abbrev pub left_balance : Tree V → Option ℤ
  left_balance null = none
  left_balance (node k v b l r) = balance_of l

  abbrev pub right_balance : Tree V → Option ℤ
  right_balance null = none
  right_balance (node k v b l r) = balance_of r

  unfoldable pub rotate_right : Tree V → Option (Tree V)
  rotate_right (node k v b (node pk pv pb pl pr) r) = some (node pk pv pb pl (node k v b pr r))
  rotate_right _ = none

  unfoldable pub rotate_left : Tree V → Option (Tree V)
  rotate_left (node k v b l (node pk pv pb pl pr)) = some (node pk pv pb (node k v b l pl) pr)
  rotate_left _ = none

  -- The three assignments after a double rotation.
  unfoldable pub spread_balance : Tree V → Option (Tree V)
  spread_balance n = do
    b ← balance_of n
    m ← on_left (set_balance (if ltb_ℤ (pos 0) b then negsuc 0 else pos 0)) n
    o ← on_right (set_balance (if ltb_ℤ b (pos 0) then pos 1 else pos 0)) m
    set_balance (pos 0) o

  -- The branch `(*n)->balance < -1`.
  unfoldable pub fix_left : Tree V → Option (Tree V)
  unfolding rotate_right rotate_left spread_balance
  fix_left n = do
    b ← left_balance n
    if ltb_ℤ b (pos 0)
        then rotate_right n >>= on_right (set_balance (pos 0)) >>= set_balance (pos 0)
        else if b ==ℤ pos 0
        then rotate_right n >>= on_right (set_balance (negsuc 0)) >>= set_balance (pos 1)
        else if ltb_ℤ (pos 0) b
        then on_left rotate_left n >>= rotate_right >>= spread_balance
        else some n

  -- The branch `(*n)->balance > 1`.
  unfoldable pub fix_right : Tree V → Option (Tree V)
  unfolding rotate_right rotate_left spread_balance
  fix_right n = do
    b ← right_balance n
    if ltb_ℤ (pos 0) b
        then rotate_left n >>= on_left (set_balance (pos 0)) >>= set_balance (pos 0)
        else if b ==ℤ pos 0
        then rotate_left n >>= on_left (set_balance (pos 1)) >>= set_balance (negsuc 0)
        else if ltb_ℤ b (pos 0)
        then on_right rotate_right n >>= rotate_left >>= spread_balance
        else some n

  unfoldable pub rebalance : Tree V → Direction → UpdateOp → Option (Tree V)
  unfolding balance_step
  rebalance n direction op = do
    b ← balance_of n
    m ← set_balance (b +ℤ balance_step op direction) n
    c ← balance_of m
    o ← if ltb_ℤ c (negsuc 0) then fix_left m else some m
    d ← balance_of o
    if ltb_ℤ (pos 1) d then fix_right o else some o

  abbrev pub plug : Direction → ℕ → V → ℤ → Tree V → Tree V → Tree V
  plug left k v b sibling t = node k v b t sibling
  plug right k v b sibling t = node k v b sibling t

  -- The node that a frame points to, with `t` in the hole.
  abbrev pub fill : Frame V → Tree V → Tree V
  fill f t = plug f.direction f.key f.value f.balance f.sibling t

  -- The root, seen from a place in the tree.
  unfoldable pub rebuild : List (Frame V) → Tree V → Tree V
  rebuild [] t = t
  rebuild (f ∷ path) t = rebuild path (fill f t)

  abbrev pub go_left : ℕ → V → ℤ → Tree V → Frame V
  go_left k v b r = record { direction = left; key = k; value = v; balance = b; sibling = r }

  abbrev pub go_right : ℕ → V → ℤ → Tree V → Frame V
  go_right k v b l = record { direction = right; key = k; value = v; balance = b; sibling = l }

  -- The walk down to a key, or to the NULL where it would be, which pushes the parents.
  unfoldable pub descend : ℕ → Tree V → List (Frame V) → List (Frame V) × Tree V
  descend key null path = (path, null)
  descend key (node k v b l r) path = elim (compare key k) [
    | Ordering.lt ↦ descend key l (go_left k v b r ∷ path)
    | Ordering.eq ↦ (path, node k v b l r)
    | Ordering.gt ↦ descend key r (go_right k v b l ∷ path)
  ]

  -- while(previous_parent != NULL && new_balance != 0), after an insertion
  unfoldable pub insert_up : List (Frame V) → Tree V → Option (Tree V)
  insert_up [] t = some t
  insert_up (f ∷ path) t = do
    n ← rebalance (fill f t) f.direction insert_node
    b ← balance_of n
    if b ==ℤ pos 0 then some (rebuild path n) else insert_up path n

  -- while(previous_parent != NULL && new_balance == 0), after a deletion
  unfoldable pub delete_up : List (Frame V) → Tree V → Option (Tree V)
  delete_up [] t = some t
  delete_up (f ∷ path) t = do
    n ← rebalance (fill f t) f.direction delete_node
    b ← balance_of n
    if b ==ℤ pos 0 then delete_up path n else some (rebuild path n)

  -- The leftmost node of the tree with this root.
  unfoldable pub least : ℕ → V → Tree V → ℕ × V
  least k v null = (k, v)
  least k v (node lk lv lb ll lr) = least lk lv ll

  -- The walk to the leftmost node, which pushes its parents and ends at its right subtree.
  unfoldable pub push_left : ℕ → V → ℤ → Tree V → Tree V → List (Frame V) → List (Frame V) × Tree V
  push_left k v b null r path = (path, r)
  push_left k v b (node lk lv lb ll lr) r path = push_left lk lv lb ll lr (go_left k v b r ∷ path)

  -- A node with this balance and these subtrees goes: its replacement, and the rebalancing. In the
  -- last case the frame of the replacement is pushed first and its pointer is set when it is found.
  unfoldable pub unlink : List (Frame V) → ℤ → Tree V → Tree V → Option (Tree V)
  unfolding least push_left
  unlink path b l null = delete_up path l
  unlink path b l (node k v _ null r) = delete_up (go_right k v b l ∷ path) r
  unlink path b l (node k v rb (node lk lv lb ll lr) r) =
      let (mk, mv) = least lk lv ll in
      let (path', rest) = push_left k v rb (node lk lv lb ll lr) r (go_right mk mv b l ∷ path) in
      delete_up path' rest
