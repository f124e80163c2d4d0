-- ===== src/ListStore/Reading.antt =====
-- The functions of packages/gargoyle/libericstools/src/list.c that read a list, and destroy_list. An
-- unsigned long has 32 bits.
use openwrt_extra.Common.{
  ℕ, zero, suc, ◌+◌, ◌-◌, ◌/◌, ◌%◌, ◌^◌, ltb, ◌==◌, if◌then◌else◌, true, false, Option, none, some,
  List, [], ◌∷◌, ◌>>=◌,
}
use openwrt_extra.ListStore.Store.{Store}
use openwrt_extra.ListStore.Nodes.{LinkedList, shift_list}

-- The loop of get_list_values, with the number of values that are left.
unfoldable pub values_loop : ℕ → ℕ → Store → Option (List ℕ)
values_loop zero current_node h = some []
values_loop (suc left) current_node h =
    h current_node >>= λ node. values_loop left node.next h >>= λ values. some (node.value ∷ values)

-- The values; *num_values is their number.
unfoldable pub get_list_values : Store → LinkedList → Option (List ℕ)
unfolding values_loop
get_list_values h l = values_loop l.length l.head h

-- The loop of list_element_at; `none` is the end of the fuel, or a bad address.
unfoldable pub element_loop : ℕ → ℕ → ℕ → ℕ → Store → Option ℕ
element_loop zero index current_index current_node h = none
element_loop (suc fuel) index current_index current_node h =
    if current_node == 0
    then some 0
    else h current_node >>= λ node. elim (current_index == index) [
      | true ↦ some node.value
      | false ↦ elim (ltb index current_index) [
        | true ↦ element_loop fuel index (current_index - 1) node.previous h
        | false ↦ element_loop fuel index (current_index + 1) node.next h
      ]
    ]

-- The test that picks an end is on unsigned numbers, so that it is whether index is not length / 2.
unfoldable pub start_index : ℕ → ℕ → ℕ
start_index length index =
    if ltb 0 ((index + 2 ^ 32 - length / 2) % 2 ^ 32) then (length + 2 ^ 32 - 1) % 2 ^ 32 else 0

unfoldable pub list_element_at : ℕ → ℕ → Store → LinkedList → Option ℕ
unfolding element_loop start_index
list_element_at fuel index h l =
    let current_index = start_index l.length index in
    element_loop fuel index current_index (if current_index == 0 then l.head else l.tail) h

-- The loop of destroy_list; the values are returned, or given to free, or neither.
unfoldable pub destroy_loop : ℕ → Store → LinkedList → Option (List ℕ × Store)
unfolding shift_list
destroy_loop zero h l = none
destroy_loop (suc fuel) h l = elim (ltb 0 l.length) [
  | false ↦ some ([], h)
  | true ↦ shift_list h l >>= λ (value, h1, l1).
      destroy_loop fuel h1 l1 >>= λ (values, h2). some (value ∷ values, h2)
]

unfoldable pub destroy_list : ℕ → Store → LinkedList → Option (List ℕ × Store)
unfolding destroy_loop
destroy_list fuel h l = destroy_loop fuel h l
