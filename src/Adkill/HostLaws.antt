-- ===== src/Adkill/HostLaws.antt =====
-- The hash table of packages/adkill/src/advhash.c against the nodes of each host.
use openwrt_extra.Common.{
  ℕ, ◌==◌, ◌<◌, ==_iff, ltb, if◌then◌else◌, Bool, true, false, Option, none, some, ◌≡◌, refl, sym,
  ap, ◌∙◌, inl, inr, List, [], ◌∷◌, All, length, arith, Bool-cases, ◌>>=◌,
}
use openwrt_extra.Adkill.Hosts.{
  HashNode, HashTable, host_bkdr_hash, same_string, except_part, node_index, advconf_hashtable_init,
  fits_tmphost, adv_max_shost_len, advconf_hashnode_add, is_match, first_match,
  advconf_hashnode_find_by_host, drop_first, has_match, advconf_hashnode_del_by_host,
}

-- A call on a table: a node is added, or a host deleted, or looked up without a referer.
pub data Request : Type 0 where
  add : HashNode → Request
  del find : List ℕ → Request

pub data Answer : Type 0 where
  added : Answer
  deleted : Bool → Answer
  found : Option HashNode → Answer

-- `none` is a fault.
unfoldable pub serve : Request → HashTable → Option (Answer × HashTable)
unfolding advconf_hashnode_add advconf_hashnode_del_by_host advconf_hashnode_find_by_host
serve (add node) table = advconf_hashnode_add node table >>= λ next. some (added, next)
serve (del host) table =
    let (ok, next) = advconf_hashnode_del_by_host host table in some (deleted ok, next)
serve (find host) table = some (found (advconf_hashnode_find_by_host table host none), table)

unfoldable pub serve_all : List Request → HashTable → Option (List Answer)
unfolding serve
serve_all [] table = some []
serve_all (request ∷ requests) table = serve request table >>= λ (answer, next).
    serve_all requests next >>= λ answers. some (answer ∷ answers)

-- The nodes that have a host, the last one added first.
abbrev pub NodesOf : Type 0
NodesOf = List ℕ → List HashNode

abbrev pub head_of : List HashNode → Option HashNode
head_of [] = none
head_of (node ∷ nodes) = some node

abbrev pub tail_of : List HashNode → List HashNode
tail_of [] = []
tail_of (node ∷ nodes) = nodes

abbrev pub some_nodes : List HashNode → Bool
some_nodes [] = false
some_nodes (node ∷ nodes) = true

pub same_string-eq : (a b : List ℕ) → same_string a b ≡ true → a ≡ b
unfolding same_string
same_string-eq [] [] same = refl
same_string-eq [] (d ∷ b) same = ground arith
same_string-eq (c ∷ a) [] same = ground arith
same_string-eq (c ∷ a) (d ∷ b) same = elim (Bool-cases (same_string a b)) [
  | inl tails ↦ let e : c ≡ d = ground (arith, same) in cc (e, same_string-eq a b tails)
  | inr other ↦ ground (arith, same, other)
]

pub same_string_refl : (a : List ℕ) → same_string a a ≡ true
unfolding same_string
same_string_refl [] = refl
same_string_refl (c ∷ a) = rw ((==_iff c c).1 refl, same_string_refl a) refl

pub same_string-neq : (a b : List ℕ) → same_string a b ≡ false → ¬ (a ≡ b)
same_string-neq a b differs e =
    let same : same_string a b ≡ true = rw e (same_string_refl b) in ground (arith, differs, same)

abbrev pub decide_by : (a b : List ℕ) (is_same : Bool) → same_string a b ≡ is_same → Dec (a ≡ b)
decide_by a b true same = yes (same_string-eq a b same)
decide_by a b false differs = no (same_string-neq a b differs)

unfoldable pub hosts_discrete : (a b : List ℕ) → Dec (a ≡ b)
hosts_discrete a b = decide_by a b (same_string a b) refl

-- The first of two lists where the decision is positive.
abbrev pub choose : {P : Type 0} → Dec P → List HashNode → List HashNode → List HashNode
choose (yes p) nodes others = nodes
choose (no not_p) nodes others = others

eq-choose :
    {P : Type 0} (decision : Dec P) (nodes others result : List HashNode)
    → (P → result ≡ nodes)
    → (¬ P → result ≡ others)
    → result ≡ choose decision nodes others
eq-choose (yes p) nodes others result first second = first p
eq-choose (no not_p) nodes others result first second = second not_p

-- The nodes of one host are changed.
abbrev pub update : NodesOf → List ℕ → (List HashNode → List HashNode) → NodesOf
update nodes_of host change =
    λ other. choose (hosts_discrete other host) (change (nodes_of other)) (nodes_of other)

abbrev pub serve_nodes : Request → NodesOf → Answer × NodesOf
serve_nodes (add node) nodes_of = (added, update nodes_of node.s_host (λ nodes. node ∷ nodes))
serve_nodes (del host) nodes_of =
    (deleted (some_nodes (nodes_of host)), update nodes_of host tail_of)
serve_nodes (find host) nodes_of = (found (head_of (nodes_of host)), nodes_of)

abbrev pub serve_all_nodes : List Request → NodesOf → List Answer
serve_all_nodes [] nodes_of = []
serve_all_nodes (request ∷ requests) nodes_of =
    let (answer, next) = serve_nodes request nodes_of in answer ∷ serve_all_nodes requests next

-- What is before the '!' of a host is shorter than tmphost.
abbrev pub IsShort : Option (List ℕ × List ℕ) → Type 0
IsShort none = Unit
IsShort (some (before, after)) = length before < adv_max_shost_len

-- What is before the '!' of a node that is added is short, and a host that is deleted or looked up has no '!'.
abbrev pub IsPlain : Request → Type 0
IsPlain (add node) = IsShort (except_part node.s_host)
IsPlain (del host) = except_part host ≡ none
IsPlain (find host) = except_part host ≡ none

abbrev has_host : List ℕ → HashNode → Bool
has_host host node = same_string node.s_host host

-- A node with the host is in the host's chain.
host_index :
    (host : List ℕ) (node : HashNode)
    → except_part host ≡ none
    → has_host host node ≡ true
    → (host_bkdr_hash host == node_index node.s_host) ≡ true
unfolding node_index
host_index host node plain same =
    rw (same_string-eq node.s_host host same) (rw (plain, node_index) (ground arith))

fits-IsShort :
    (part : Option (List ℕ × List ℕ))
    → IsShort part
    → elim part [ none ↦ true | some (before, after) ↦ ltb (length before) adv_max_shost_len ]
      ≡ true
fits-IsShort none short = refl
fits-IsShort (some (before, after)) short = ground (arith, short)

-- The nodes of a chain that have a host.
unfoldable with_host : List ℕ → List HashNode → List HashNode
with_host host [] = []
with_host host (node ∷ chain) =
    let rest = with_host host chain in if has_host host node then node ∷ rest else rest

first_match-with_host :
    (host : List ℕ) (chain : List HashNode)
    → first_match (has_host host) chain ≡ head_of (with_host host chain)
unfolding first_match with_host
first_match-with_host host [] = refl
first_match-with_host host (node ∷ chain) = elim (Bool-cases (has_host host node)) [
  | inl stops ↦ rw stops refl
  | inr goes_on ↦ rw goes_on (first_match-with_host host chain)
]

has_match-with_host :
    (host : List ℕ) (chain : List HashNode)
    → has_match (has_host host) chain ≡ some_nodes (with_host host chain)
unfolding has_match with_host
has_match-with_host host [] = refl
has_match-with_host host (node ∷ chain) = elim (Bool-cases (has_host host node)) [
  | inl stops ↦ rw stops refl
  | inr goes_on ↦ rw goes_on (has_match-with_host host chain)
]

drop_first-with_host :
    (host : List ℕ) (chain : List HashNode)
    → with_host host (drop_first (has_host host) chain) ≡ tail_of (with_host host chain)
unfolding drop_first with_host
drop_first-with_host host [] = refl
drop_first-with_host host (node ∷ chain) = elim (Bool-cases (has_host host node)) [
  | inl stops ↦ rw stops refl
  | inr goes_on ↦ rw goes_on (rw goes_on (drop_first-with_host host chain))
]

has_other_host :
    (host other : List ℕ) (node : HashNode)
    → ¬ (other ≡ host)
    → has_host host node ≡ true
    → has_host other node ≡ false
has_other_host host other node differs has = elim (Bool-cases (has_host other node)) [
  | inl too ↦
      absurd
        (differs (sym (same_string-eq node.s_host other too) ∙ same_string-eq node.s_host host has))
  | inr not_too ↦ not_too
]

drop_first-with_other :
    (host other : List ℕ) (chain : List HashNode)
    → ¬ (other ≡ host)
    → with_host other (drop_first (has_host host) chain) ≡ with_host other chain
unfolding drop_first with_host
drop_first-with_other host other [] differs = refl
drop_first-with_other host other (node ∷ chain) differs =
    let ih = drop_first-with_other host other chain differs in
    elim (Bool-cases (has_host host node)) [
      | inl stops ↦ rw (stops, has_other_host host other node differs stops) refl
      | inr goes_on ↦ elim (Bool-cases (has_host other node)) [
        | inl kept ↦ rw (goes_on, kept) (ap (λ (ns : List HashNode). node ∷ ns) ih)
        | inr left ↦ rw (goes_on, left) ih
      ]
    ]

-- A table has the nodes of each host in the host's chain.
record Refines (table : HashTable) (nodes_of : NodesOf) : Type 0 where
  same :
      (host : List ℕ)
      → except_part host ≡ none
      → with_host host (table (host_bkdr_hash host)) ≡ nodes_of host

-- The answer of a request, and a table that it leaves.
record Serves (request : Request) (table : HashTable) (nodes_of : NodesOf) : Type 0 where
  next : HashTable
  answers : serve request table ≡ some ((serve_nodes request nodes_of).0, next)
  refines : Refines next (serve_nodes request nodes_of).1

module _ (table : HashTable) (nodes_of : NodesOf) (ok : Refines table nodes_of) where
  add-with_host :
      (node : HashNode) (host : List ℕ)
      → except_part host ≡ none
      → with_host host (
          if host_bkdr_hash host == node_index node.s_host
          then node ∷ table (host_bkdr_hash host)
          else table (host_bkdr_hash host))
        ≡ update nodes_of node.s_host (λ nodes. node ∷ nodes) host
  unfolding with_host
  add-with_host node host plain =
      eq-choose (hosts_discrete host node.s_host) _ _ _
        (λ e.
          let has : has_host host node ≡ true = rw (sym e) (same_string_refl host) in
          rw (host_index host node plain has, has, ok.same host plain) refl)
        (λ differs.
          let has_not : has_host host node ≡ false = elim (Bool-cases (has_host host node)) [
            | inl has ↦ absurd (differs (sym (same_string-eq node.s_host host has)))
            | inr has_not ↦ has_not
          ] in
          elim (Bool-cases (host_bkdr_hash host == node_index node.s_host)) [
            | inl here ↦ rw (here, has_not) (ok.same host plain)
            | inr elsewhere ↦ rw elsewhere (ok.same host plain)
          ])

  del-with_host :
      (host other : List ℕ)
      → except_part other ≡ none
      → with_host other (
          if host_bkdr_hash other == host_bkdr_hash host
          then drop_first (has_host host) (table (host_bkdr_hash other))
          else table (host_bkdr_hash other))
        ≡ update nodes_of host tail_of other
  del-with_host host other plain =
      eq-choose (hosts_discrete other host) _ _ _
        (λ e.
          let here : (host_bkdr_hash other == host_bkdr_hash host) ≡ true =
            (==_iff _ _).1 (ap host_bkdr_hash e) in
          rw here (
            ap (λ h. with_host other (drop_first (has_host h) (table (host_bkdr_hash other))))
              (sym e)
            ∙ drop_first-with_host other (table (host_bkdr_hash other))
            ∙ ap tail_of (ok.same other plain)))
        (λ differs. elim (Bool-cases (host_bkdr_hash other == host_bkdr_hash host)) [
          | inl here ↦ rw here (
              drop_first-with_other host other (table (host_bkdr_hash other)) differs
              ∙ ok.same other plain)
          | inr elsewhere ↦ rw elsewhere (ok.same other plain)
        ])

  serve-Serves : (request : Request) → IsPlain request → Serves request table nodes_of
  unfolding serve advconf_hashnode_add advconf_hashnode_del_by_host advconf_hashnode_find_by_host
      is_match fits_tmphost
  serve-Serves (add node) short = record {
    next = λ index. if index == node_index node.s_host then node ∷ table index else table index;
    answers = rw (fits-IsShort (except_part node.s_host) short) refl;
    refines = record { same = add-with_host node };
  }
  serve-Serves (del host) plain = record {
    next = λ i. if i == host_bkdr_hash host then drop_first (has_host host) (table i) else table i;
    answers = rw (has_match-with_host host (table (host_bkdr_hash host)), ok.same host plain) refl;
    refines = record { same = del-with_host host };
  }
  serve-Serves (find host) plain = record {
    next = table;
    answers =
        rw (first_match-with_host host (table (host_bkdr_hash host)), ok.same host plain) refl;
    refines = ok;
  }

serve_all_from :
    (requests : List Request) (table : HashTable) (nodes_of : NodesOf)
    → Refines table nodes_of
    → All IsPlain requests
    → serve_all requests table ≡ some (serve_all_nodes requests nodes_of)
unfolding serve_all
serve_all_from [] table nodes_of ok plain = refl
serve_all_from (request ∷ requests) table nodes_of ok (plain, rest) =
    let served = serve-Serves table nodes_of ok request plain in
    rw (served.answers, ◌>>=◌)
      (rw (serve_all_from requests served.next (serve_nodes request nodes_of).1 served.refines rest)
        refl)

-- What the answers are to any calls on a table that begins empty which add nodes, delete hosts, and look up hosts
-- without a referer. Each host has the nodes that were added with it and not deleted: looking it up gives the last
-- one added, or NULL if there is none; deleting it takes the last one away and returns ADV_KILL_OK, or
-- ADV_KILL_FAIL if there is none, where the comments in the source have it the other way round. No call reads or
-- writes past tmphost, and calls for one host do not change what is found for another. A host that is deleted or
-- looked up has no '!', and what is before the '!' in that of a node is shorter than tmphost.
pub serve_all-serve_all_nodes :
    (requests : List Request)
    → All IsPlain requests
    → serve_all requests advconf_hashtable_init ≡ some (serve_all_nodes requests (λ host. []))
unfolding with_host
serve_all-serve_all_nodes requests plain =
    serve_all_from requests advconf_hashtable_init (λ host. [])
      (record { same = λ host plain. refl }) plain
