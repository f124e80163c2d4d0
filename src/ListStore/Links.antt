-- ===== src/ListStore/Links.antt =====
-- What it is for a store to hold a doubly linked list of nodes.
use openwrt_extra.Common.{ℕ, ◌≤◌, Option, some, ◌≡◌, ◌≢◌, sym, ◌∙◌, List, [], ◌∷◌, ◌++◌}
use openwrt_extra.ListStore.Store.{ListNode, Store, put, put-other}

-- The address of a node and its value.
abbrev pub Cell : Type 0
Cell = ℕ × ℕ

abbrev pub first : List Cell → ℕ → ℕ
first [] after = after
first ((p, v) ∷ cells) after = p

abbrev pub last : ℕ → List Cell → ℕ
last before [] = before
last before ((p, v) ∷ cells) = last p cells

-- A segment between the addresses before and after it.
unfoldable pub Links : Store → ℕ → List Cell → ℕ → Type 0
Links h before [] after = Unit
Links h before ((p, v) ∷ cells) after =
    (1 ≤ p)
    × (h p ≡ some (record { next = first cells after; previous = before; value = v }))
    × Links h p cells after

-- No cell at the address.
unfoldable pub Off : ℕ → List Cell → Type 0
Off q [] = Unit
Off q ((p, v) ∷ cells) = (q ≢ p) × Off q cells

unfoldable pub Distinct : List Cell → Type 0
unfolding Off
Distinct [] = Unit
Distinct ((p, v) ∷ cells) = Off p cells × Distinct cells

-- The two stores have the same nodes in the cells.
unfoldable pub Agree : Store → Store → List Cell → Type 0
Agree h h' [] = Unit
Agree h h' ((p, v) ∷ cells) = (h' p ≡ h p) × Agree h h' cells

pub Links-Agree :
    (h h' : Store) (before after : ℕ) (cells : List Cell)
    → Agree h h' cells
    → Links h before cells after
    → Links h' before cells after
unfolding Links Agree
Links-Agree h h' before after [] same links = tt
Links-Agree h h' before after ((p, v) ∷ cells) (here, same) (a, b, links) =
    (a, here ∙ b, Links-Agree h h' p after cells same links)

pub put-Agree :
    (p : ℕ) (content : Option ListNode) (h : Store) (cells : List Cell)
    → Off p cells
    → Agree h (put p content h) cells
unfolding Agree Off
put-Agree p content h [] off = tt
put-Agree p content h ((q, v) ∷ cells) (other, off) =
    (put-other p q content h (λ e. other (sym e)), put-Agree p content h cells off)

pub Links-append :
    (h : Store) (before after : ℕ) (a b : List Cell)
    → Links h before (a ++ b) after
    → Links h before a (first b after) × Links h (last before a) b after
unfolding Links
Links-append h before after [] b links = (tt, links)
Links-append h before after ((p, v) ∷ []) b (x, y, links) = ((x, y, tt), links)
Links-append h before after ((p, v) ∷ (q, w) ∷ a) b (x, y, links) =
    let (l, r) = Links-append h p after ((q, w) ∷ a) b links in ((x, y, l), r)

pub append-Links :
    (h : Store) (before after : ℕ) (a b : List Cell)
    → Links h before a (first b after)
    → Links h (last before a) b after
    → Links h before (a ++ b) after
unfolding Links
append-Links h before after [] b l r = r
append-Links h before after ((p, v) ∷ []) b (x, y, l) r = (x, y, r)
append-Links h before after ((p, v) ∷ (q, w) ∷ a) b (x, y, l) r =
    (x, y, append-Links h p after ((q, w) ∷ a) b l r)
