-- ===== src/ListStore/Client.antt =====
-- Sequences of calls on a list, against a plain list of values.
use openwrt_extra.Common.{
  ℕ, ◌≤◌, Option, none, some, ◌≡◌, ◌≢◌, refl, sym, ap, ◌∙◌, ◌⊎◌, inl, inr, List, [], ◌∷◌, ◌++◌, map,
  arith, ◌>>=◌,
}
use openwrt_extra.ListStore.Store.{ListNode, Store, put}
use openwrt_extra.ListStore.Nodes.{
  LinkedList, initialize_list, free_list_node, shift_list_node, pop_list_node, shift_list, pop_list,
  push_list, unshift_list,
}
use openwrt_extra.ListStore.Links.{Cell, Links, Off, Distinct, Links-Agree, Links-append, put-Agree}
use openwrt_extra.ListStore.Relink.{Apart, Distinct-append}
use openwrt_extra.ListStore.Removal.{IsList, nonzero}
use openwrt_extra.ListStore.Ends.{
  Free, shift_list_node-IsList, pop_list_node-IsList, push_list-IsList, unshift_list-IsList,
}

-- A call, with the address that malloc gives, and the value.
pub data Call : Type 0 where
  push unshift : ℕ → ℕ → Call
  shift pop : Call

abbrev pub values : List Cell → List ℕ
values cells = map (λ (cell : Cell). cell.1) cells

-- The calls on a list of values: the result, 0 for NULL and for no result, and the list after.
unfoldable pub pop_value : List ℕ → ℕ × List ℕ
pop_value [] = (0, [])
pop_value (v ∷ []) = (v, [])
pop_value (v ∷ w ∷ vs) = let (x, rest) = pop_value (w ∷ vs) in (x, v ∷ rest)

unfoldable pub call_values : Call → List ℕ → ℕ × List ℕ
unfolding pop_value
call_values (push p v) vs = (0, vs ++ (v ∷ []))
call_values (unshift p v) vs = (0, v ∷ vs)
call_values shift [] = (0, [])
call_values shift (v ∷ vs) = (v, vs)
call_values pop vs = pop_value vs

unfoldable pub run_values : List Call → List ℕ → List ℕ × List ℕ
unfolding call_values
run_values [] vs = ([], vs)
run_values (call ∷ calls) vs =
    let (result, next) = call_values call vs in
    let (results, end) = run_values calls next in (result ∷ results, end)

-- free_list_node of a node that has left the list.
pub free_list_node-IsList :
    (h : Store) (l : LinkedList) (cells : List Cell) (p v : ℕ)
    → 1 ≤ p
    → Off p cells
    → Free h p v
    → IsList h l cells
    → (h' : Store) × (free_list_node p h ≡ some (v, h')) × IsList h' l cells
unfolding free_list_node
free_list_node-IsList h l cells p v low off free ok = (
  put p none h,
  rw (nonzero p low, free) refl,
  record {
    linked = Links-Agree h (put p none h) 0 0 cells (put-Agree p none h cells off) ok.linked;
    distinct = ok.distinct;
    at_head = ok.at_head;
    at_tail = ok.at_tail;
    counted = ok.counted;
  },
)

pub snoc-cases :
    (cells : List Cell)
    → (cells ≡ []) ⊎ ((rest : List Cell) × (p : ℕ) × (v : ℕ) × (cells ≡ rest ++ ((p, v) ∷ [])))
snoc-cases [] = inl refl
snoc-cases ((p, v) ∷ cells) = elim (snoc-cases cells) [
  | inl none_left ↦ inr ([], p, v, ap (λ (cs : List Cell). (p, v) ∷ cs) none_left)
  | inr (rest, q, w, eq) ↦ inr ((p, v) ∷ rest, q, w, ap (λ (cs : List Cell). (p, v) ∷ cs) eq)
]

pop_value-snoc : (vs : List ℕ) (v : ℕ) → pop_value (vs ++ (v ∷ [])) ≡ (v, vs)
unfolding pop_value
pop_value-snoc [] v = refl
pop_value-snoc (w ∷ []) v = refl
pop_value-snoc (w ∷ x ∷ vs) v = rw (pop_value-snoc (x ∷ vs) v) refl

values-append : (a b : List Cell) → values (a ++ b) ≡ values a ++ values b
values-append [] b = refl
values-append ((p, v) ∷ a) b = ap (λ vs. v ∷ vs) (values-append a b)

-- A call on a list.
unfoldable pub call_list : Call → Store → LinkedList → Option (ℕ × Store × LinkedList)
unfolding push_list unshift_list shift_list pop_list
call_list (push p v) h l = push_list p v h l >>= λ (h1, l1). some (0, h1, l1)
call_list (unshift p v) h l = unshift_list p v h l >>= λ (h1, l1). some (0, h1, l1)
call_list shift h l = shift_list h l
call_list pop h l = pop_list h l

unfoldable pub run_list : List Call → Store → LinkedList → Option (List ℕ × Store × LinkedList)
unfolding call_list
run_list [] h l = some ([], h, l)
run_list (call ∷ calls) h l = call_list call h l >>= λ (result, h1, l1).
    run_list calls h1 l1 >>= λ (results, h2, l2). some (result ∷ results, h2, l2)

-- malloc gives an address that is not NULL and has no node.
abbrev pub IsGiven : Call → Store → Type 0
IsGiven (push p v) h = (1 ≤ p) × (h p ≡ none)
IsGiven (unshift p v) h = (1 ≤ p) × (h p ≡ none)
IsGiven shift h = Unit
IsGiven pop h = Unit

-- And so at every call of a sequence, in the store of that time.
unfoldable pub AreGiven : List Call → Store → LinkedList → Type 0
unfolding call_list
AreGiven [] h l = Unit
AreGiven (call ∷ calls) h l =
    IsGiven call h
    × (elim (call_list call h l) [ none ↦ Unit | some (result, h1, l1) ↦ AreGiven calls h1 l1 ])

-- What a call does, as a list of values.
abbrev Does : ℕ × List ℕ → Option (ℕ × Store × LinkedList) → Type 0
Does expected outcome =
    (h' : Store) × (l' : LinkedList) × (cells : List Cell) × (outcome ≡ some (expected.0, h', l'))
    × IsList h' l' cells
    × (values cells ≡ expected.1)

no_node : (node : ListNode) → some node ≢ none
no_node node e = ground arith

unused-Off :
    (h : Store) (q : ℕ) (before : ℕ) (cells : List Cell)
    → h q ≡ none
    → Links h before cells 0
    → Off q cells
unfolding Links Off
unused-Off h q before [] unused links = tt
unused-Off h q before ((p, v) ∷ cells) unused (low, here, links) =
    ((λ e. no_node _ (sym (sym unused ∙ (ap h e ∙ here)))), unused-Off h q p cells unused links)

shift_nothing : (h : Store) (l : LinkedList) → l.head ≡ 0 → shift_list h l ≡ some (0, h, l)
unfolding shift_list shift_list_node free_list_node
shift_nothing h l at_head = rw at_head refl

pop_nothing : (h : Store) (l : LinkedList) → l.tail ≡ 0 → pop_list h l ≡ some (0, h, l)
unfolding pop_list pop_list_node free_list_node
pop_nothing h l at_tail = rw at_tail refl

pop_empty-Does :
    (h : Store) (l : LinkedList) → IsList h l [] → Does (call_values pop []) (call_list pop h l)
unfolding call_list call_values pop_value
pop_empty-Does h l ok = (h, l, [], pop_nothing h l ok.at_tail, ok, refl)

shift-Does :
    (h : Store) (l : LinkedList) (cells : List Cell)
    → IsList h l cells
    → Does (call_values shift (values cells)) (call_list shift h l)
unfolding call_list call_values shift_list Distinct Links
shift-Does h l [] ok = (h, l, [], shift_nothing h l ok.at_head, ok, refl)
shift-Does h l ((p, v) ∷ cells) ok =
    let (h1, l1, done1, ok1, gone) = shift_list_node-IsList h l p v cells ok in
    let (h2, done2, ok2) =
      free_list_node-IsList h1 l1 cells p v ok.linked.0 ok.distinct.0 gone ok1 in
    (h2, l1, cells, rw (done1, done2) refl, ok2, refl)

pop_last-Does :
    (h : Store) (l : LinkedList) (rest : List Cell) (p v : ℕ)
    → IsList h l (rest ++ ((p, v) ∷ []))
    → Does (call_values pop (values (rest ++ ((p, v) ∷ [])))) (call_list pop h l)
unfolding call_list call_values pop_list Distinct Links Apart
pop_last-Does h l rest p v ok =
    let (h1, l1, done1, ok1, gone) = pop_list_node-IsList h l rest p v ok in
    let (_, _, (off, _)) = Distinct-append rest ((p, v) ∷ []) ok.distinct in
    let (_, (low, _, _)) = Links-append h 0 0 rest ((p, v) ∷ []) ok.linked in
    let (h2, done2, ok2) = free_list_node-IsList h1 l1 rest p v low off gone ok1 in
    rw (values-append rest ((p, v) ∷ []), pop_value-snoc (values rest) v)
      (h2, l1, rest, rw (done1, done2) refl, ok2, refl)

pop-Does :
    (h : Store) (l : LinkedList) (cells : List Cell)
    → IsList h l cells
    → Does (call_values pop (values cells)) (call_list pop h l)
pop-Does h l cells ok = elim (snoc-cases cells) [
  | inl nothing ↦ rw nothing (pop_empty-Does h l (rw nothing at ok))
  | inr (rest, p, v, eq) ↦ rw eq (pop_last-Does h l rest p v (rw eq at ok))
]

call-Does :
    (call : Call) (h : Store) (l : LinkedList) (cells : List Cell)
    → IsGiven call h
    → IsList h l cells
    → Does (call_values call (values cells)) (call_list call h l)
unfolding call_list call_values
call-Does (push p v) h l cells (low, free) ok =
    let (h1, l1, done, ok1) =
      push_list-IsList h l cells p v low (unused-Off h p 0 cells free ok.linked) ok in
    (h1, l1, cells ++ ((p, v) ∷ []), rw done refl, ok1, values-append cells ((p, v) ∷ []))
call-Does (unshift p v) h l cells (low, free) ok =
    let (h1, l1, done, ok1) =
      unshift_list-IsList h l cells p v low (unused-Off h p 0 cells free ok.linked) ok in
    (h1, l1, (p, v) ∷ cells, rw done refl, ok1, refl)
call-Does shift h l cells _ ok = shift-Does h l cells ok
call-Does pop h l cells _ ok = pop-Does h l cells ok

run_from-IsList :
    (calls : List Call) (h : Store) (l : LinkedList) (cells : List Cell)
    → AreGiven calls h l
    → IsList h l cells
    → (h' : Store) × (l' : LinkedList) × (cells' : List Cell) × (run_list calls h l
        ≡ some ((run_values calls (values cells)).0, h', l'))
      × IsList h' l' cells'
      × (values cells' ≡ (run_values calls (values cells)).1)
unfolding run_list run_values AreGiven
run_from-IsList [] h l cells _ ok = (h, l, cells, refl, ok, refl)
run_from-IsList (call ∷ calls) h l cells (given, later) ok =
    let (h1, l1, cells1, done1, ok1, eq1) = call-Does call h l cells given ok in
    let (h2, l2, cells2, done2, ok2, eq2) =
      run_from-IsList calls h1 l1 cells1 (rw done1 at later) ok1 in
    (h2, l2, cells2, rw (done1, done2, eq1) refl, ok2, rw⁻¹ eq1 eq2)

-- A sequence of push, unshift, shift and pop calls on an empty list meets no NULL and no freed node, and
-- gives the results that it gives on a list of values; the nodes at its end are a list with the values
-- that are left, linked both ways; where malloc gives addresses that are not NULL and have no node then.
pub run_list-run_values :
    (calls : List Call) (h : Store)
    → AreGiven calls h initialize_list
    → (h' : Store) × (l' : LinkedList) × (cells : List Cell) × (run_list calls h initialize_list
        ≡ some ((run_values calls []).0, h', l'))
      × IsList h' l' cells
      × (values cells ≡ (run_values calls []).1)
unfolding Links Distinct
run_list-run_values calls h given =
    run_from-IsList calls h initialize_list [] given
      (record { linked = tt; distinct = tt; at_head = refl; at_tail = refl; counted = refl })
