-- ===== src/ListStore/Nodes.antt =====
-- The functions of packages/gargoyle/libericstools/src/list.c on nodes and values. A call that changes the
-- list gives the store and the list after it; `none` is a read or a write through an address without a
-- node. The address that malloc gives is an argument.
use openwrt_extra.Common.{ℕ, ◌+◌, ◌-◌, ◌==◌, if◌then◌else◌, not, ◌&&◌, Option, none, some, ◌>>=◌}
use openwrt_extra.ListStore.Store.{Store, put, set_next, set_previous}

-- struct list
pub record LinkedList : Type 0 where
  pub length : ℕ
  pub head : ℕ
  pub tail : ℕ

abbrev pub initialize_list : LinkedList
initialize_list = record { length = 0; head = 0; tail = 0 }

unfoldable pub create_list_node : ℕ → ℕ → Store → Store
create_list_node p value h = put p (some (record { next = 0; previous = 0; value = value })) h

-- The value of a node, which is freed; NULL for NULL.
unfoldable pub free_list_node : ℕ → Store → Option (ℕ × Store)
free_list_node p h = if p == 0 then some (0, h) else h p >>= λ node. some (node.value, put p none h)

-- The links of a node that has left the list.
unfoldable pub unhook : ℕ → Store → Option Store
unfolding set_next set_previous
unhook p h = set_previous p 0 h >>= λ h1. set_next p 0 h1

unfoldable pub shift_list_node : Store → LinkedList → Option (ℕ × Store × LinkedList)
unfolding set_previous unhook
shift_list_node h l =
    if l.head == 0
    then some (0, h, l)
    else h l.head >>= λ node.
        (if node.next == 0 then some h else set_previous node.next 0 h) >>= λ h1.
        unhook l.head h1 >>= λ h2. some (
          l.head,
          h2,
          record {
            length = l.length - 1;
            head = node.next;
            tail = if l.tail == l.head then 0 else l.tail;
          },
        )

unfoldable pub unshift_list_node : ℕ → Store → LinkedList → Option (Store × LinkedList)
unfolding set_next set_previous
unshift_list_node p h l =
    if p == 0
    then some (h, l)
    else set_previous p 0 h >>= λ h1.
        if l.head == 0
        then (set_next p 0 h1 >>= λ h2.
            some (h2, record { length = l.length + 1; head = p; tail = p }))
        else set_next p l.head h1 >>= λ h2. set_previous l.head p h2 >>= λ h3.
            some (h3, record { length = l.length + 1; head = p; tail = l.tail })

unfoldable pub pop_list_node : Store → LinkedList → Option (ℕ × Store × LinkedList)
unfolding set_next unhook
pop_list_node h l =
    if l.tail == 0
    then some (0, h, l)
    else h l.tail >>= λ node.
        (if node.previous == 0 then some h else set_next node.previous 0 h) >>= λ h1.
        unhook l.tail h1 >>= λ h2. some (
          l.tail,
          h2,
          record {
            length = l.length - 1;
            head = if l.head == l.tail then 0 else l.head;
            tail = node.previous;
          },
        )

unfoldable pub push_list_node : ℕ → Store → LinkedList → Option (Store × LinkedList)
unfolding set_next set_previous
push_list_node p h l =
    if p == 0
    then some (h, l)
    else set_next p 0 h >>= λ h1.
        if l.tail == 0
        then (set_previous p 0 h1 >>= λ h2.
            some (h2, record { length = l.length + 1; head = p; tail = p }))
        else set_previous p l.tail h1 >>= λ h2. set_next l.tail p h2 >>= λ h3.
            some (h3, record { length = l.length + 1; head = l.head; tail = p })

unfoldable pub shift_list : Store → LinkedList → Option (ℕ × Store × LinkedList)
unfolding shift_list_node free_list_node
shift_list h l = shift_list_node h l >>= λ (p, h1, l1).
    free_list_node p h1 >>= λ (value, h2). some (value, h2, l1)

unfoldable pub pop_list : Store → LinkedList → Option (ℕ × Store × LinkedList)
unfolding pop_list_node free_list_node
pop_list h l =
    pop_list_node h l >>= λ (p, h1, l1). free_list_node p h1 >>= λ (value, h2). some (value, h2, l1)

unfoldable pub unshift_list : ℕ → ℕ → Store → LinkedList → Option (Store × LinkedList)
unfolding create_list_node unshift_list_node
unshift_list p value h l = unshift_list_node p (create_list_node p value h) l

unfoldable pub push_list : ℕ → ℕ → Store → LinkedList → Option (Store × LinkedList)
unfolding create_list_node push_list_node
push_list p value h l = push_list_node p (create_list_node p value h) l

-- The writes that join the two sides of a node.
unfoldable pub join_sides : ℕ → ℕ → Store → Option Store
unfolding set_next set_previous
join_sides previous next h =
    (if previous == 0 && not (next == 0) then set_previous next 0 h else some h) >>= λ h1.
    (if next == 0 && not (previous == 0) then set_next previous 0 h1 else some h1) >>= λ h2.
    if not (previous == 0) && not (next == 0)
    then (set_next previous next h2 >>= λ h3. set_previous next previous h3)
    else some h2

-- A node in the list is taken out.
unfoldable pub remove_internal_list_node : ℕ → Store → LinkedList → Option (Store × LinkedList)
unfolding join_sides unhook
remove_internal_list_node p h l =
    if p == 0
    then some (h, l)
    else h p >>= λ node. join_sides node.previous node.next h >>= λ h1. unhook p h1 >>= λ h2. some (
      h2,
      record {
        length = l.length - 1;
        head = if node.previous == 0 then node.next else l.head;
        tail = if node.next == 0 then node.previous else l.tail;
      },
    )
