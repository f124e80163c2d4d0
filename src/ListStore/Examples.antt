-- ===== src/ListStore/Examples.antt =====
-- Runs on lists in a store, and the theorems about them at concrete inputs.
use openwrt_extra.Common.{◌==◌, if◌then◌else◌, none, some, ◌≡◌, refl, List, [], ◌∷◌, arith}
use openwrt_extra.ListStore.Store.{Store}
use openwrt_extra.ListStore.Nodes.{LinkedList, initialize_list, remove_internal_list_node}
use openwrt_extra.ListStore.Links.{Cell, Links, Off, Distinct}
use openwrt_extra.ListStore.Removal.{IsList, remove_internal_list_node-IsList}
use openwrt_extra.ListStore.Client.{
  Call, push, unshift, shift, pop, values, run_values, run_list, AreGiven, run_list-run_values,
}
use openwrt_extra.ListStore.Reading.{list_element_at}

-- Nodes at 8, 16 and 24 with the values 5, 6 and 7.
abbrev cells : List Cell
cells = (8, 5) ∷ (16, 6) ∷ (24, 7) ∷ []

abbrev store : Store
store = λ p.
    if p == 8
    then some (record { next = 16; previous = 0; value = 5 })
    else if p == 16
    then some (record { next = 24; previous = 8; value = 6 })
    else if p == 24
    then some (record { next = 0; previous = 16; value = 7 })
    else none

abbrev header : LinkedList
header = record { length = 3; head = 8; tail = 24 }

-- Different literals.
apart_8_16 : Off 8 ((16, 6) ∷ (24, 7) ∷ [])
unfolding Off
apart_8_16 = ground arith

apart_16_24 : Off 16 ((24, 7) ∷ [])
unfolding Off
apart_16_24 = ground arith

header-IsList : IsList store header cells
unfolding Links Distinct Off
header-IsList = record {
  linked = (omega arith, refl, (omega arith, refl, (omega arith, refl, tt)));
  distinct = (apart_8_16, (apart_16_24, (tt, tt)));
  at_head = refl;
  at_tail = refl;
  counted = refl;
}

element_test :
    (list_element_at 6 1 store header ≡ some 6) × (list_element_at 6 3 store header ≡ some 0)
unfolding list_element_at
element_test = (refl, refl)

remove_internal_list_node-IsList_example :
    (h' : Store) × (l' : LinkedList) × (remove_internal_list_node 16 store header ≡ some (h', l'))
    × IsList h' l' ((8, 5) ∷ (24, 7) ∷ [])
    × (h' 16 ≡ some (record { next = 0; previous = 0; value = 6 }))
remove_internal_list_node-IsList_example =
    remove_internal_list_node-IsList store header ((8, 5) ∷ []) ((24, 7) ∷ []) 16 6 header-IsList

-- The node that shift frees is given again.
abbrev calls : List Call
calls = push 8 5 ∷ unshift 16 6 ∷ push 24 7 ∷ shift ∷ push 16 9 ∷ pop ∷ pop ∷ pop ∷ pop ∷ []

abbrev empty : Store
empty = λ p. none

calls-AreGiven : AreGiven calls empty initialize_list
unfolding AreGiven
calls-AreGiven = (
  (omega arith, refl),
  (
    (omega arith, refl),
    ((omega arith, refl), (tt, ((omega arith, refl), (tt, (tt, (tt, (tt, tt))))))),
  ),
)

run_test : (run_values calls []).0 ≡ 0 ∷ 0 ∷ 0 ∷ 6 ∷ 0 ∷ 9 ∷ 7 ∷ 5 ∷ 0 ∷ []
unfolding run_values
run_test = refl

run_list-run_values_example :
    (h' : Store) × (l' : LinkedList) × (left : List Cell) × (run_list calls empty initialize_list
      ≡ some ((run_values calls []).0, h', l'))
    × IsList h' l' left
    × (values left ≡ (run_values calls []).1)
run_list-run_values_example = run_list-run_values calls empty calls-AreGiven
