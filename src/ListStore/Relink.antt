-- ===== src/ListStore/Relink.antt =====
-- Writing the link of the node at the end of a segment.
use openwrt_extra.Common.{ℕ, some, ◌≡◌, ◌≢◌, refl, sym, ◌∙◌, List, [], ◌∷◌, ◌++◌}
use openwrt_extra.ListStore.Store.{
  ListNode, Store, put, put-same, put-other, set_next, set_previous,
}
use openwrt_extra.ListStore.Links.{
  Cell, first, last, Links, Off, Distinct, Agree, Links-Agree, put-Agree,
}

-- A write that only changes nodes of the cells.
abbrev pub Elsewhere : Store → Store → List Cell → Type 0
Elsewhere h h' cells = (q : ℕ) → Off q cells → h' q ≡ h q

-- The node after the last one of a segment is another.
pub set_next-last :
    (h : Store) (before p v after y : ℕ) (cells : List Cell)
    → Links h before ((p, v) ∷ cells) after
    → Distinct ((p, v) ∷ cells)
    → (h' : Store) × (set_next (last p cells) y h ≡ some h')
      × Links h' before ((p, v) ∷ cells) y
      × Elsewhere h h' ((p, v) ∷ cells)
unfolding Links Distinct set_next Off
set_next-last h before p v after y [] (low, here, _) _ = (
  put p (some (record { next = y; previous = before; value = v })) h,
  rw here refl,
  (low, put-same p _ h, tt),
  λ q (other, _). put-other p q _ h other,
)
set_next-last h before p v after y ((p2, v2) ∷ cells) (low, here, links) (off, distinct) =
    let (h', done, linked, elsewhere) = set_next-last h p p2 v2 after y cells links distinct in
    (h', done, (low, elsewhere p off ∙ here, linked), λ q (_, rest). elsewhere q rest)

-- The node before the first one of a segment is another.
pub set_previous-first :
    (h : Store) (before p v after y : ℕ) (cells : List Cell)
    → Links h before ((p, v) ∷ cells) after
    → Distinct ((p, v) ∷ cells)
    → (h' : Store) × (set_previous p y h ≡ some h')
      × Links h' y ((p, v) ∷ cells) after
      × Elsewhere h h' ((p, v) ∷ cells)
unfolding Links Distinct set_previous Off
set_previous-first h before p v after y cells (low, here, links) (off, _) =
    let node : ListNode = record { next = first cells after; previous = y; value = v } in
    (
      put p (some node) h,
      rw here refl,
      (
        low,
        put-same p (some node) h,
        Links-Agree h (put p (some node) h) p after cells (put-Agree p (some node) h cells off)
            links,
      ),
      λ q (other, _). put-other p q (some node) h other,
    )

-- A write to the node at one address.
pub record Wrote (h h' : Store) (p : ℕ) (node : ListNode) : Type 0 where
  pub there : h' p ≡ some node
  pub others : (q : ℕ) → q ≢ p → h' q ≡ h q

pub set_next-Wrote :
    (p y : ℕ) (h : Store) (node : ListNode)
    → h p ≡ some node
    → (h' : Store) × (set_next p y h ≡ some h') × Wrote h h' p (record node { next = y })
unfolding set_next
set_next-Wrote p y h node here =
    let written : ListNode = record node { next = y } in
    (
      put p (some written) h,
      rw here refl,
      record {
        there = put-same p (some written) h;
        others = λ q other. put-other p q (some written) h other;
      },
    )

pub set_previous-Wrote :
    (p y : ℕ) (h : Store) (node : ListNode)
    → h p ≡ some node
    → (h' : Store) × (set_previous p y h ≡ some h') × Wrote h h' p (record node { previous = y })
unfolding set_previous
set_previous-Wrote p y h node here =
    let written : ListNode = record node { previous = y } in
    (
      put p (some written) h,
      rw here refl,
      record {
        there = put-same p (some written) h;
        others = λ q other. put-other p q (some written) h other;
      },
    )

-- What a write elsewhere leaves.
pub Off-Agree :
    (h h' : Store) (p : ℕ) (cells : List Cell)
    → ((q : ℕ) → q ≢ p → h' q ≡ h q)
    → Off p cells
    → Agree h h' cells
unfolding Off Agree
Off-Agree h h' p [] others off = tt
Off-Agree h h' p ((q, v) ∷ cells) others (other, off) =
    (others q (λ e. other (sym e)), Off-Agree h h' p cells others off)

-- No cell of the one list is at an address of the other.
unfoldable pub Apart : List Cell → List Cell → Type 0
unfolding Off
Apart a [] = Unit
Apart a ((q, w) ∷ b) = Off q a × Apart a b

pub Apart-Agree : (h h' : Store) (a b : List Cell) → Elsewhere h h' a → Apart a b → Agree h h' b
unfolding Apart Agree
Apart-Agree h h' a [] elsewhere apart = tt
Apart-Agree h h' a ((q, w) ∷ b) elsewhere (off, apart) =
    (elsewhere q off, Apart-Agree h h' a b elsewhere apart)

pub Off-append : (q : ℕ) (a b : List Cell) → Off q (a ++ b) → Off q a × Off q b
unfolding Off
Off-append q [] b off = (tt, off)
Off-append q ((p, v) ∷ a) b (other, off) = let (l, r) = Off-append q a b off in ((other, l), r)

pub append-Off : (q : ℕ) (a b : List Cell) → Off q a → Off q b → Off q (a ++ b)
unfolding Off
append-Off q [] b l r = r
append-Off q ((p, v) ∷ a) b (other, l) r = (other, append-Off q a b l r)

Apart-cons : (p v : ℕ) (a b : List Cell) → Off p b → Apart a b → Apart ((p, v) ∷ a) b
unfolding Apart Off
Apart-cons p v a [] off apart = tt
Apart-cons p v a ((q, w) ∷ b) (other, off) (l, apart) =
    (((λ e. other (sym e)), l), Apart-cons p v a b off apart)

pub nothing-Apart : (b : List Cell) → Apart [] b
unfolding Apart Off
nothing-Apart [] = tt
nothing-Apart ((q, w) ∷ b) = (tt, nothing-Apart b)

pub Apart-sym : (a b : List Cell) → Apart a b → Apart b a
unfolding Apart Off
Apart-sym a [] apart = nothing-Apart a
Apart-sym a ((q, w) ∷ b) (off, apart) = Apart-cons q w b a off (Apart-sym a b apart)

pub Distinct-append : (a b : List Cell) → Distinct (a ++ b) → Distinct a × Distinct b × Apart a b
unfolding Distinct
Distinct-append [] b distinct = (tt, distinct, nothing-Apart b)
Distinct-append ((p, v) ∷ a) b (off, distinct) =
    let (l, r, apart) = Distinct-append a b distinct in
    let (off_a, off_b) = Off-append p a b off in ((off_a, l), r, Apart-cons p v a b off_b apart)

Apart-Off : (p v : ℕ) (a b : List Cell) → Apart ((p, v) ∷ a) b → Off p b
unfolding Apart Off
Apart-Off p v a [] apart = tt
Apart-Off p v a ((q, w) ∷ b) ((other, _), apart) = ((λ e. other (sym e)), Apart-Off p v a b apart)

Apart-rest : (p v : ℕ) (a b : List Cell) → Apart ((p, v) ∷ a) b → Apart a b
unfolding Apart Off
Apart-rest p v a [] apart = tt
Apart-rest p v a ((q, w) ∷ b) ((_, off), apart) = (off, Apart-rest p v a b apart)

pub append-Distinct : (a b : List Cell) → Distinct a → Distinct b → Apart a b → Distinct (a ++ b)
unfolding Distinct Apart Off
append-Distinct [] b l r apart = r
append-Distinct ((p, v) ∷ a) b (off, l) r apart = (
  append-Off p a b off (Apart-Off p v a b apart),
  append-Distinct a b l r (Apart-rest p v a b apart),
)
