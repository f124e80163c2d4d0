-- ===== src/ListStore/Removal.antt =====
-- Taking a node out of a list.
use openwrt_extra.Common.{
  ℕ, ◌-◌, ◌≤◌, ◌==◌, if◌then◌else◌, false, some, ◌≡◌, ◌≢◌, refl, sym, ◌∙◌, List, [], ◌∷◌, ◌++◌,
  length, arith, length-append,
}
use openwrt_extra.ListStore.Store.{ListNode, Store}
use openwrt_extra.ListStore.Nodes.{LinkedList, join_sides, unhook, remove_internal_list_node}
use openwrt_extra.ListStore.Links.{
  Cell, first, last, Links, Off, Distinct, Links-Agree, Links-append, append-Links,
}
use openwrt_extra.ListStore.Relink.{
  set_next-last, set_previous-first, set_next-Wrote, set_previous-Wrote, Off-Agree, Apart,
  Apart-Agree, Apart-sym, append-Off, Distinct-append, append-Distinct,
}

-- A list in a store: its nodes in order, none twice, its ends and its length.
pub record IsList (h : Store) (l : LinkedList) (cells : List Cell) : Type 0 where
  pub linked : Links h 0 cells 0
  pub distinct : Distinct cells
  pub at_head : l.head ≡ first cells 0
  pub at_tail : l.tail ≡ last 0 cells
  pub counted : l.length ≡ length cells

pub last-positive :
    (h : Store) (before p v after : ℕ) (cells : List Cell)
    → Links h before ((p, v) ∷ cells) after
    → 1 ≤ last p cells
unfolding Links
last-positive h before p v after [] (low, _, _) = low
last-positive h before p v after ((q, w) ∷ cells) (_, _, links) =
    last-positive h p q w after cells links

pub nonzero : (n : ℕ) → 1 ≤ n → (n == 0) ≡ false
nonzero n low = ground arith

pub join_sides-Links :
    (h : Store) (p v : ℕ) (a b : List Cell)
    → Links h 0 a p
    → Links h p b 0
    → Distinct a
    → Distinct b
    → Apart a b
    → Off p a
    → Off p b
    → (h' : Store) × (join_sides (last 0 a) (first b 0) h ≡ some h')
      × Links h' 0 (a ++ b) 0
      × (h' p ≡ h p)
unfolding join_sides Links
join_sides-Links h p v [] [] _ _ _ _ _ _ _ = (h, refl, tt, refl)
join_sides-Links h p v [] ((q, w) ∷ b) _ right _ distinct _ _ off =
    let (h', done, linked, elsewhere) = set_previous-first h p q w 0 0 b right distinct in
    (h', rw (nonzero q right.0, done) refl, linked, elsewhere p off)
join_sides-Links h p v ((q, w) ∷ a) [] left _ distinct _ _ off _ =
    let (h', done, linked, elsewhere) = set_next-last h 0 q w p 0 a left distinct in
    (
      h',
      rw (nonzero (last q a) (last-positive h 0 q w p a left), done) refl,
      append-Links h' 0 0 ((q, w) ∷ a) [] linked tt,
      elsewhere p off,
    )
join_sides-Links h p v ((q, w) ∷ a) ((r, x) ∷ b) left right distinct_a distinct_b apart off_a
      off_b =
    let (h1, done1, linked1, elsewhere1) = set_next-last h 0 q w p r a left distinct_a in
    let right1 =
      Links-Agree h h1 p 0 ((r, x) ∷ b)
        (Apart-Agree h h1 ((q, w) ∷ a) ((r, x) ∷ b) elsewhere1 apart) right in
    let (h2, done2, linked2, elsewhere2) =
      set_previous-first h1 p r x 0 (last q a) b right1 distinct_b in
    (
      h2,
      rw (nonzero (last q a) (last-positive h 0 q w p a left), nonzero r right.0, done1, done2)
          refl,
      append-Links h2 0 0 ((q, w) ∷ a) ((r, x) ∷ b)
          (Links-Agree h1 h2 0 r ((q, w) ∷ a)
            (Apart-Agree h1 h2 ((r, x) ∷ b) ((q, w) ∷ a) elsewhere2
              (Apart-sym ((q, w) ∷ a) ((r, x) ∷ b) apart))
            linked1)
          linked2,
      elsewhere2 p off_b ∙ elsewhere1 p off_a,
    )

pub unhook-Elsewhere :
    (h : Store) (p : ℕ) (node : ListNode)
    → h p ≡ some node
    → (h' : Store) × (unhook p h ≡ some h')
      × ((q : ℕ) → q ≢ p → h' q ≡ h q)
      × (h' p ≡ some (record { next = 0; previous = 0; value = node.value }))
unfolding unhook
unhook-Elsewhere h p node here =
    let (h1, done1, wrote1) = set_previous-Wrote p 0 h node here in
    let (h2, done2, wrote2) = set_next-Wrote p 0 h1 (record node { previous = 0 }) wrote1.there in
    (
      h2,
      rw (done1, done2) refl,
      λ q other. wrote2.others q other ∙ wrote1.others q other,
      wrote2.there,
    )

pub last-append : (before : ℕ) (a b : List Cell) → last before (a ++ b) ≡ last (last before a) b
last-append before [] b = refl
last-append before ((p, v) ∷ a) b = last-append p a b

new_head :
    (h : Store) (p v head : ℕ) (a b : List Cell)
    → Links h 0 a p
    → head ≡ first (a ++ ((p, v) ∷ b)) 0
    → (if last 0 a == 0 then first b 0 else head) ≡ first (a ++ b) 0
new_head h p v head [] b left at_head = refl
new_head h p v head ((q, w) ∷ a) b left at_head =
    rw (nonzero (last q a) (last-positive h 0 q w p a left)) at_head

new_tail :
    (h : Store) (p v tail : ℕ) (a b : List Cell)
    → Links h p b 0
    → tail ≡ last 0 (a ++ ((p, v) ∷ b))
    → (if first b 0 == 0 then last 0 a else tail) ≡ last 0 (a ++ b)
unfolding Links
new_tail h p v tail a [] right at_tail = sym (last-append 0 a [])
new_tail h p v tail a ((r, x) ∷ b) right at_tail =
    rw (nonzero r right.0)
      (at_tail ∙ (last-append 0 a ((p, v) ∷ (r, x) ∷ b) ∙ sym (last-append 0 a ((r, x) ∷ b))))

-- A node of the list is taken out: the rest of the list is in order, and the node has its value and no links.
pub remove_internal_list_node-IsList :
    (h : Store) (l : LinkedList) (a b : List Cell) (p v : ℕ)
    → IsList h l (a ++ ((p, v) ∷ b))
    → (h' : Store) × (l' : LinkedList) × (remove_internal_list_node p h l ≡ some (h', l'))
      × IsList h' l' (a ++ b)
      × (h' p ≡ some (record { next = 0; previous = 0; value = v }))
unfolding remove_internal_list_node Links Distinct Apart
remove_internal_list_node-IsList h l a b p v ok =
    let (left, (low, here, right)) = Links-append h 0 0 a ((p, v) ∷ b) ok.linked in
    let (distinct_a, (off_b, distinct_b), (off_a, apart)) =
      Distinct-append a ((p, v) ∷ b) ok.distinct in
    let (h1, done1, linked1, same) =
      join_sides-Links h p v a b left right distinct_a distinct_b apart off_a off_b in
    let (h2, done2, others, gone) =
      unhook-Elsewhere h1 p (record { next = first b 0; previous = last 0 a; value = v })
        (same ∙ here) in
    (
      h2,
      record {
        length = l.length - 1;
        head = if last 0 a == 0 then first b 0 else l.head;
        tail = if first b 0 == 0 then last 0 a else l.tail;
      },
      rw (nonzero p low, here, done1, done2) refl,
      record {
        linked =
            Links-Agree h1 h2 0 0 (a ++ b)
              (Off-Agree h1 h2 p (a ++ b) others (append-Off p a b off_a off_b)) linked1;
        distinct = append-Distinct a b distinct_a distinct_b apart;
        at_head = new_head h p v l.head a b left ok.at_head;
        at_tail = new_tail h p v l.tail a b right ok.at_tail;
        counted =
            let c = ok.counted in
            let m = length-append a ((p, v) ∷ b) in let n = length-append a b in omega arith;
      },
      gone,
    )
