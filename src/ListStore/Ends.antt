-- ===== src/ListStore/Ends.antt =====
-- Nodes leave and enter a list at its ends.
use openwrt_extra.Common.{
  ℕ, ◌+◌, ◌-◌, ◌≤◌, ◌==◌, true, false, some, ◌≡◌, ◌≢◌, refl, sym, ◌∙◌, List, [], ◌∷◌, ◌++◌, arith,
  length-append,
}
use openwrt_extra.ListStore.Store.{ListNode, Store, put, put-same, put-other}
use openwrt_extra.ListStore.Nodes.{
  LinkedList, create_list_node, shift_list_node, pop_list_node, push_list_node, unshift_list_node,
  push_list, unshift_list,
}
use openwrt_extra.ListStore.Links.{
  Cell, last, Links, Off, Distinct, Links-Agree, Links-append, append-Links,
}
use openwrt_extra.ListStore.Relink.{
  set_next-last, set_previous-first, set_next-Wrote, set_previous-Wrote, Off-Agree, Apart,
  append-Distinct, Distinct-append,
}
use openwrt_extra.ListStore.Removal.{IsList, last-positive, last-append, nonzero, unhook-Elsewhere}

-- The value of a node that has left the list.
abbrev pub Free : Store → ℕ → ℕ → Type 0
Free h p v = h p ≡ some (record { next = 0; previous = 0; value = v })

same_address : (p : ℕ) → (p == p) ≡ true
same_address p = ground arith

other_address : (p q : ℕ) → p ≢ q → (p == q) ≡ false
other_address p q other = ground arith

last-Off : (p q w : ℕ) (cells : List Cell) → Off p ((q, w) ∷ cells) → (last q cells == p) ≡ false
unfolding Off
last-Off p q w [] (other, _) = other_address q p (λ e. other (sym e))
last-Off p q w ((r, x) ∷ cells) (_, off) = last-Off p r x cells off

pub shift_list_node-IsList :
    (h : Store) (l : LinkedList) (p v : ℕ) (cells : List Cell)
    → IsList h l ((p, v) ∷ cells)
    → (h' : Store) × (l' : LinkedList) × (shift_list_node h l ≡ some (p, h', l'))
      × IsList h' l' cells
      × Free h' p v
unfolding shift_list_node Links Distinct Off
shift_list_node-IsList h l p v [] ok =
    let (low, here, _) = ok.linked in
    let (h2, done, others, gone) =
      unhook-Elsewhere h p (record { next = 0; previous = 0; value = v }) here in
    (
      h2,
      record { length = l.length - 1; head = 0; tail = 0 },
      rw (ok.at_head, ok.at_tail, nonzero p low, here, done, same_address p) refl,
      record {
        linked = tt;
        distinct = tt;
        at_head = refl;
        at_tail = refl;
        counted = let c = ok.counted in omega arith;
      },
      gone,
    )
shift_list_node-IsList h l p v ((q, w) ∷ cells) ok =
    let (low, here, links) = ok.linked in
    let (off, distinct) = ok.distinct in
    let (h1, done1, linked1, elsewhere) = set_previous-first h p q w 0 0 cells links distinct in
    let (h2, done2, others, gone) =
      unhook-Elsewhere h1 p (record { next = q; previous = 0; value = v })
        (elsewhere p off ∙ here) in
    (
      h2,
      record { length = l.length - 1; head = q; tail = l.tail },
      rw
          (
            ok.at_head,
            ok.at_tail,
            nonzero p low,
            here,
            nonzero q links.0,
            done1,
            done2,
            last-Off p q w cells off,
          )
          refl,
      record {
        linked =
            Links-Agree h1 h2 0 0 ((q, w) ∷ cells) (Off-Agree h1 h2 p ((q, w) ∷ cells) others off)
              linked1;
        distinct = distinct;
        at_head = refl;
        at_tail = ok.at_tail;
        counted = let c = ok.counted in omega arith;
      },
      gone,
    )

pub pop_list_node-IsList :
    (h : Store) (l : LinkedList) (cells : List Cell) (p v : ℕ)
    → IsList h l (cells ++ ((p, v) ∷ []))
    → (h' : Store) × (l' : LinkedList) × (pop_list_node h l ≡ some (p, h', l'))
      × IsList h' l' cells
      × Free h' p v
unfolding pop_list_node Links Distinct Apart Off
pop_list_node-IsList h l [] p v ok =
    let (low, here, _) = ok.linked in
    let (h2, done, others, gone) =
      unhook-Elsewhere h p (record { next = 0; previous = 0; value = v }) here in
    (
      h2,
      record { length = l.length - 1; head = 0; tail = 0 },
      rw (ok.at_head, ok.at_tail, nonzero p low, here, done, same_address p) refl,
      record {
        linked = tt;
        distinct = tt;
        at_head = refl;
        at_tail = refl;
        counted = let c = ok.counted in omega arith;
      },
      gone,
    )
pop_list_node-IsList h l ((q, w) ∷ cells) p v ok =
    let (left, (low, here, _)) = Links-append h 0 0 ((q, w) ∷ cells) ((p, v) ∷ []) ok.linked in
    let (distinct, _, (off, _)) = Distinct-append ((q, w) ∷ cells) ((p, v) ∷ []) ok.distinct in
    let (h1, done1, linked1, elsewhere) = set_next-last h 0 q w p 0 cells left distinct in
    let (h2, done2, others, gone) =
      unhook-Elsewhere h1 p (record { next = 0; previous = last q cells; value = v })
        (elsewhere p off ∙ here) in
    let at_tail = ok.at_tail ∙ last-append q cells ((p, v) ∷ []) in
    (
      h2,
      record { length = l.length - 1; head = q; tail = last q cells },
      rw
          (
            at_tail,
            ok.at_head,
            nonzero p low,
            here,
            nonzero (last q cells) (last-positive h 0 q w p cells left),
            done1,
            done2,
            other_address q p (λ e. off.0 (sym e)),
          )
          refl,
      record {
        linked =
            Links-Agree h1 h2 0 0 ((q, w) ∷ cells) (Off-Agree h1 h2 p ((q, w) ∷ cells) others off)
              linked1;
        distinct = distinct;
        at_head = refl;
        at_tail = refl;
        counted = let c = ok.counted in let m = length-append cells ((p, v) ∷ []) in omega arith;
      },
      gone,
    )

pub push_list-IsList :
    (h : Store) (l : LinkedList) (cells : List Cell) (p v : ℕ)
    → 1 ≤ p
    → Off p cells
    → IsList h l cells
    → (h' : Store) × (l' : LinkedList) × (push_list p v h l ≡ some (h', l'))
      × IsList h' l' (cells ++ ((p, v) ∷ []))
unfolding push_list create_list_node push_list_node Links Distinct Apart Off
push_list-IsList h l [] p v low off ok =
    let node : ListNode = record { next = 0; previous = 0; value = v } in
    let (h1, done1, wrote1) =
      set_next-Wrote p 0 (put p (some node) h) node (put-same p (some node) h) in
    let (h2, done2, wrote2) = set_previous-Wrote p 0 h1 node wrote1.there in
    (
      h2,
      record { length = l.length + 1; head = p; tail = p },
      rw (nonzero p low, done1, ok.at_tail, done2) refl,
      record {
        linked = (low, wrote2.there, tt);
        distinct = (tt, tt);
        at_head = refl;
        at_tail = refl;
        counted = let c = ok.counted in omega arith;
      },
    )
push_list-IsList h l ((q, w) ∷ cells) p v low off ok =
    let node : ListNode = record { next = 0; previous = 0; value = v } in
    let last_node : ListNode = record { next = 0; previous = last q cells; value = v } in
    let (h1, done1, wrote1) =
      set_next-Wrote p 0 (put p (some node) h) node (put-same p (some node) h) in
    let (h2, done2, wrote2) = set_previous-Wrote p (last q cells) h1 node wrote1.there in
    let left =
      Links-Agree h h2 0 0 ((q, w) ∷ cells)
        (Off-Agree h h2 p ((q, w) ∷ cells)
          (λ r other.
            wrote2.others r other ∙ (wrote1.others r other ∙ put-other p r (some node) h other))
          off)
        ok.linked in
    let (h3, done3, linked3, elsewhere) = set_next-last h2 0 q w 0 p cells left ok.distinct in
    (
      h3,
      record { length = l.length + 1; head = q; tail = p },
      rw
          (
            nonzero p low,
            done1,
            ok.at_tail,
            nonzero (last q cells) (last-positive h 0 q w 0 cells ok.linked),
            done2,
            done3,
            ok.at_head,
          )
          refl,
      record {
        linked =
            append-Links h3 0 0 ((q, w) ∷ cells) ((p, v) ∷ []) linked3
              (low, elsewhere p off ∙ wrote2.there, tt);
        distinct = append-Distinct ((q, w) ∷ cells) ((p, v) ∷ []) ok.distinct (tt, tt) (off, tt);
        at_head = refl;
        at_tail = sym (last-append q cells ((p, v) ∷ []));
        counted = let c = ok.counted in let m = length-append cells ((p, v) ∷ []) in omega arith;
      },
    )

pub unshift_list-IsList :
    (h : Store) (l : LinkedList) (cells : List Cell) (p v : ℕ)
    → 1 ≤ p
    → Off p cells
    → IsList h l cells
    → (h' : Store) × (l' : LinkedList) × (unshift_list p v h l ≡ some (h', l'))
      × IsList h' l' ((p, v) ∷ cells)
unfolding unshift_list create_list_node unshift_list_node Links Distinct Off
unshift_list-IsList h l [] p v low off ok =
    let node : ListNode = record { next = 0; previous = 0; value = v } in
    let (h1, done1, wrote1) =
      set_previous-Wrote p 0 (put p (some node) h) node (put-same p (some node) h) in
    let (h2, done2, wrote2) = set_next-Wrote p 0 h1 node wrote1.there in
    (
      h2,
      record { length = l.length + 1; head = p; tail = p },
      rw (nonzero p low, done1, ok.at_head, done2) refl,
      record {
        linked = (low, wrote2.there, tt);
        distinct = (tt, tt);
        at_head = refl;
        at_tail = refl;
        counted = let c = ok.counted in omega arith;
      },
    )
unshift_list-IsList h l ((q, w) ∷ cells) p v low off ok =
    let node : ListNode = record { next = 0; previous = 0; value = v } in
    let (h1, done1, wrote1) =
      set_previous-Wrote p 0 (put p (some node) h) node (put-same p (some node) h) in
    let (h2, done2, wrote2) = set_next-Wrote p q h1 node wrote1.there in
    let right =
      Links-Agree h h2 0 0 ((q, w) ∷ cells)
        (Off-Agree h h2 p ((q, w) ∷ cells)
          (λ r other.
            wrote2.others r other ∙ (wrote1.others r other ∙ put-other p r (some node) h other))
          off)
        ok.linked in
    let (h3, done3, linked3, elsewhere) = set_previous-first h2 0 q w 0 p cells right ok.distinct in
    (
      h3,
      record { length = l.length + 1; head = p; tail = l.tail },
      rw (nonzero p low, done1, ok.at_head, nonzero q ok.linked.0, done2, done3) refl,
      record {
        linked = (low, elsewhere p off ∙ wrote2.there, linked3);
        distinct = (off, ok.distinct);
        at_head = refl;
        at_tail = ok.at_tail;
        counted = let c = ok.counted in omega arith;
      },
    )
