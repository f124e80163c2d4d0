-- ===== src/ListStore/ReadingLaws.antt =====
-- The values of a list, all of them and at an index.
use openwrt_extra.Common.{
  ℕ, zero, suc, ◌+◌, ◌-◌, ◌^◌, ◌≤◌, ◌<◌, ltb, ◌==◌, if◌then◌else◌, true, false, some, ◌≡◌, refl,
  sym, ap, ◌∙◌, ◌⊎◌, inl, inr, List, [], ◌∷◌, ◌++◌, length, arith, Bool-cases, le_or_lt,
  length-append, append_assoc,
}
use openwrt_extra.ListStore.Store.{Store}
use openwrt_extra.ListStore.Nodes.{LinkedList, shift_list}
use openwrt_extra.ListStore.Links.{Cell, first, last, Links, Distinct, Links-append}
use openwrt_extra.ListStore.Removal.{IsList, nonzero, last-append}
use openwrt_extra.ListStore.Ends.{shift_list_node-IsList}
use openwrt_extra.ListStore.Client.{values, snoc-cases, free_list_node-IsList}
use openwrt_extra.ListStore.Reading.{
  values_loop, get_list_values, element_loop, start_index, list_element_at, destroy_loop,
  destroy_list,
}

values_loop-eq :
    (h : Store) (before : ℕ) (cells : List Cell)
    → Links h before cells 0
    → values_loop (length cells) (first cells 0) h ≡ some (values cells)
unfolding values_loop Links
values_loop-eq h before [] links = refl
values_loop-eq h before ((p, v) ∷ cells) (low, here, links) =
    rw (here, values_loop-eq h p cells links) refl

get_list_values-eq :
    (h : Store) (l : LinkedList) (cells : List Cell)
    → IsList h l cells
    → get_list_values h l ≡ some (values cells)
unfolding get_list_values
get_list_values-eq h l cells ok = rw (ok.counted, ok.at_head) (values_loop-eq h 0 cells ok.linked)

-- The value at an index; NULL past the end.
abbrev pub value_at : List Cell → ℕ → ℕ
value_at [] i = 0
value_at ((p, v) ∷ cells) zero = v
value_at ((p, v) ∷ cells) (suc i) = value_at cells i

value_at-left : (a b : List Cell) (i : ℕ) → i < length a → value_at (a ++ b) i ≡ value_at a i
value_at-left [] b i small = absurd (omega arith)
value_at-left ((p, v) ∷ a) b zero small = refl
value_at-left ((p, v) ∷ a) b (suc i) small = value_at-left a b i (omega arith)

value_at-right : (a b : List Cell) (i : ℕ) → value_at (a ++ b) (length a + i) ≡ value_at b i
value_at-right [] b i = let e : 0 + i ≡ i = omega arith in rw e refl
value_at-right ((p, v) ∷ a) b i =
    let e : suc (length a) + i ≡ suc (length a + i) = omega arith in rw e (value_at-right a b i)

-- Towards the tail.
forward :
    (fuel index current : ℕ) (h : Store) (before : ℕ) (cells : List Cell)
    → Links h before cells 0
    → current ≤ index
    → length cells < fuel
    → element_loop fuel index current (first cells 0) h ≡ some (value_at cells (index - current))
unfolding element_loop Links
forward zero index current h before cells links le enough = absurd (omega arith)
forward (suc fuel) index current h before [] links le enough = refl
forward (suc fuel) index current h before ((p, v) ∷ cells) (low, here, links) le enough =
    elim (Bool-cases (current == index)) [
      | inl there ↦
          let e : index - current ≡ 0 = ground (arith, there) in
          rw (nonzero p low, here, there, e) refl
      | inr further ↦
          let less : current < index = ground (arith, further) in
          let goes : ltb index current ≡ false = ground arith in
          let e : index - current ≡ suc (index - (current + 1)) = omega arith in
          rw (nonzero p low, here, further, goes, e)
            (forward fuel index (current + 1) h p cells links (omega arith) (omega arith))
    ]

here_value :
    (cells rest : List Cell) (p v index : ℕ)
    → length cells ≡ index
    → value_at (cells ++ ((p, v) ∷ rest)) index ≡ v
here_value cells rest p v index eq =
    let e : index ≡ length cells + 0 = omega arith in rw e (value_at-right cells ((p, v) ∷ rest) 0)

-- Towards the head.
backward :
    (fuel index : ℕ) (h : Store) (cells rest : List Cell) (p v : ℕ)
    → Links h 0 (cells ++ ((p, v) ∷ rest)) 0
    → index ≤ length cells
    → length cells < fuel
    → element_loop fuel index (length cells) p h ≡ some (value_at (cells ++ ((p, v) ∷ rest)) index)
unfolding element_loop Links
backward zero index h cells rest p v links le enough = absurd (omega arith)
backward (suc fuel) index h cells rest p v links le enough =
    let (_, (low, here, _)) = Links-append h 0 0 cells ((p, v) ∷ rest) links in
    elim (Bool-cases (length cells == index)) [
      | inl there ↦
          rw (nonzero p low, here, there)
            (ap some (sym (here_value cells rest p v index (ground (arith, there)))))
      | inr further ↦
          let goes : ltb index (length cells) ≡ true = ground (arith, further) in
          elim (snoc-cases cells) [
            | inl nothing ↦
                let n : length cells ≡ 0 = rw nothing refl in absurd (ground (arith, goes))
            | inr (front, q, w, eq) ↦
                let size : length cells ≡ length front + 1 =
                  rw eq (length-append front ((q, w) ∷ [])) in
                let before : last 0 cells ≡ q = rw eq (last-append 0 front ((q, w) ∷ [])) in
                let whole : cells ++ ((p, v) ∷ rest) ≡ front ++ ((q, w) ∷ (p, v) ∷ rest) =
                  rw eq (append_assoc front ((q, w) ∷ []) ((p, v) ∷ rest)) in
                let e : length cells - 1 ≡ length front = omega arith in
                let less : index < length cells = ground (arith, goes) in
                rw (nonzero p low, here, further, goes, before, whole, e)
                  (backward fuel index h front ((p, v) ∷ rest) q w (rw whole at links) (omega arith)
                    (omega arith))
          ]
    ]

from_head :
    (fuel index : ℕ) (h : Store) (cells : List Cell)
    → Links h 0 cells 0
    → length cells < fuel
    → element_loop fuel index 0 (first cells 0) h ≡ some (value_at cells index)
from_head fuel index h cells links enough =
    let e : index - 0 ≡ index = omega arith in
    forward fuel index 0 h 0 cells links (omega arith) enough ∙ ap (λ i. some (value_at cells i)) e

start-cases :
    (length index : ℕ)
    → 1 ≤ length
    → length < 2 ^ 32
    → (start_index length index ≡ 0) ⊎ (start_index length index ≡ length - 1)
unfolding start_index
start-cases length index low small = ground arith

-- From the last node.
from_tail :
    (fuel index : ℕ) (h : Store) (cells : List Cell) (p v : ℕ)
    → Links h 0 (cells ++ ((p, v) ∷ [])) 0
    → length cells + 1 < fuel
    → element_loop fuel index (length cells) p h ≡ some (value_at (cells ++ ((p, v) ∷ [])) index)
from_tail fuel index h cells p v links enough = elim (le_or_lt index (length cells)) [
  | inl le ↦ backward fuel index h cells [] p v links le (omega arith)
  | inr past ↦
      let right = (Links-append h 0 0 cells ((p, v) ∷ []) links).1 in
      let e : index ≡ length cells + (index - length cells) = omega arith in
      forward fuel index (length cells) h (last 0 cells) ((p, v) ∷ []) right (omega arith)
        (omega arith)
      ∙ ap some (
          sym (value_at-right cells ((p, v) ∷ []) (index - length cells))
          ∙ ap (value_at (cells ++ ((p, v) ∷ []))) (sym e))
]

-- The end that list_element_at begins at.
abbrev entry : LinkedList → ℕ → ℕ
entry l current = if current == 0 then l.head else l.tail

from_start :
    (fuel index : ℕ) (h : Store) (l : LinkedList) (cells : List Cell) (p v : ℕ)
    → IsList h l (cells ++ ((p, v) ∷ []))
    → length cells + 1 < fuel
    → (start_index l.length index ≡ 0) ⊎ (start_index l.length index ≡ length cells)
    → element_loop fuel index (start_index l.length index) (entry l (start_index l.length index)) h
      ≡ some (value_at (cells ++ ((p, v) ∷ [])) index)
from_start fuel index h l cells p v ok enough (inl zero_start) =
    let n = length-append cells ((p, v) ∷ []) in
    rw (zero_start, ok.at_head)
      (from_head fuel index h (cells ++ ((p, v) ∷ [])) ok.linked (omega arith))
from_start fuel index h l [] p v ok enough (inr at_end) =
    rw (at_end, ok.at_head) (from_head fuel index h ((p, v) ∷ []) ok.linked (omega arith))
from_start fuel index h l ((q, w) ∷ cells) p v ok enough (inr at_end) =
    rw
      (
        at_end,
        nonzero (suc (length cells)) (omega arith),
        ok.at_tail,
        last-append 0 ((q, w) ∷ cells) ((p, v) ∷ []),
      )
      (from_tail fuel index h ((q, w) ∷ cells) p v ok.linked enough)

nothing_at :
    (fuel index : ℕ) (h : Store) (l : LinkedList)
    → IsList h l []
    → 1 ≤ fuel
    → element_loop fuel index (start_index l.length index) (entry l (start_index l.length index)) h
      ≡ some 0
unfolding element_loop
nothing_at zero index h l ok enough = absurd (omega arith)
nothing_at (suc fuel) index h l ok enough = elim (Bool-cases (start_index l.length index == 0)) [
  | inl yes_head ↦ rw (yes_head, ok.at_head) refl
  | inr at_end ↦ rw (at_end, ok.at_tail) refl
]

-- In a list of fewer than 2 ^ 32 values, list_element_at gives the value at every index, and NULL for an
-- index past the end, after at most as many rounds as there are values, and two.
list_element_at-value_at :
    (fuel index : ℕ) (h : Store) (l : LinkedList) (cells : List Cell)
    → IsList h l cells
    → length cells < 2 ^ 32
    → length cells + 1 < fuel
    → list_element_at fuel index h l ≡ some (value_at cells index)
unfolding list_element_at
list_element_at-value_at fuel index h l cells ok small enough = elim (snoc-cases cells) [
  | inl nothing ↦ rw nothing (nothing_at fuel index h l (rw nothing at ok) (omega arith))
  | inr (front, p, v, eq) ↦
      let n = length-append front ((p, v) ∷ []) in
      let size : length cells ≡ length front + 1 = rw eq n in
      let m : l.length - 1 ≡ length front = let c = ok.counted in omega arith in
      rw eq (
        from_start fuel index h l front p v (rw eq at ok) (omega arith)
          (elim (start-cases l.length index (let c = ok.counted in omega arith)
            (let c = ok.counted in omega arith)) [ inl a ↦ inl a | inr b ↦ inr (b ∙ m) ]))
]

destroy_loop-values :
    (fuel : ℕ) (h : Store) (l : LinkedList) (cells : List Cell)
    → IsList h l cells
    → length cells < fuel
    → (h' : Store) × (destroy_loop fuel h l ≡ some (values cells, h'))
unfolding destroy_loop shift_list Links Distinct
destroy_loop-values zero h l cells ok enough = absurd (omega arith)
destroy_loop-values (suc fuel) h l [] ok enough = (h, rw ok.counted refl)
destroy_loop-values (suc fuel) h l ((p, v) ∷ cells) ok enough =
    let (h1, l1, done1, ok1, gone) = shift_list_node-IsList h l p v cells ok in
    let (h2, done2, ok2) =
      free_list_node-IsList h1 l1 cells p v ok.linked.0 ok.distinct.0 gone ok1 in
    let (h3, done3) = destroy_loop-values fuel h2 l1 cells ok2 (omega arith) in
    let more : ltb 0 l.length ≡ true = let c = ok.counted in ground arith in
    (h3, rw (more, destroy_loop) (rw (done1, done2, done3) refl))

-- destroy_list takes as many rounds as the list has values, and one, meets no NULL and no freed node, and gives
-- the values in the order in which get_list_values gives them.
destroy_list-values :
    (fuel : ℕ) (h : Store) (l : LinkedList) (cells : List Cell)
    → IsList h l cells
    → length cells < fuel
    → (h' : Store) × (destroy_list fuel h l ≡ some (values cells, h'))
      × (get_list_values h l ≡ some (values cells))
unfolding destroy_list
destroy_list-values fuel h l cells ok enough =
    let (h', done) = destroy_loop-values fuel h l cells ok enough in
    (h', done, get_list_values-eq h l cells ok)
