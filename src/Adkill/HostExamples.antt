-- ===== src/Adkill/HostExamples.antt =====
-- Runs of the hash table, and the theorem about it at a concrete input.
use openwrt_extra.Common.{ℕ, zero, suc, arith, ◌≡◌, refl, true, false, none, some, List, [], ◌∷◌}
use openwrt_extra.Adkill.Hosts.{
  HashNode, HashTable, advconf_hashtable_init, advconf_hashnode_add, advconf_hashnode_find_by_host,
  except_part, same_string,
}
use openwrt_extra.Adkill.HostLaws.{
  Request, add, del, find, added, deleted, found, serve_all, serve_all_nodes,
  serve_all-serve_all_nodes, hosts_discrete,
}

abbrev host_a : List ℕ
host_a = b'a' ∷ b'.' ∷ b'c' ∷ []

abbrev node_a : ℕ → HashNode
node_a target = record { s_host = host_a; d_host = target ∷ []; map = [] }

-- "ab" but where the referer has "x".
abbrev node_except : HashNode
node_except = record { s_host = b'a' ∷ b'b' ∷ b'!' ∷ b'x' ∷ []; d_host = []; map = [] }

one_node : HashTable
unfolding advconf_hashnode_add
one_node = elim (advconf_hashnode_add node_except advconf_hashtable_init) [
  | none ↦ advconf_hashtable_init
  | some table ↦ table
]

-- A host that begins with "ab" and is in the same chain is taken for it.
except_test :
    (advconf_hashnode_find_by_host one_node (b'a' ∷ b'b' ∷ []) (some (b'y' ∷ []))
      ≡ some node_except)
    × (advconf_hashnode_find_by_host one_node (b'a' ∷ b'b' ∷ []) (some (b'x' ∷ [])) ≡ none)
    × (advconf_hashnode_find_by_host one_node (b'a' ∷ b'b' ∷ b'l' ∷ []) (some (b'y' ∷ []))
        ≡ some node_except)
unfolding advconf_hashnode_find_by_host one_node
except_test = (refl, refl, refl)

abbrev requests : List Request
requests =
    add (node_a 1)
    ∷ add node_except
    ∷ add (node_a 2)
    ∷ find host_a
    ∷ del host_a
    ∷ find host_a
    ∷ del host_a
    ∷ del host_a
    ∷ []

answers_test :
    serve_all_nodes requests (λ host. [])
    ≡ added
      ∷ added
      ∷ added
      ∷ found (some (node_a 2))
      ∷ deleted true
      ∷ found (some (node_a 1))
      ∷ deleted true
      ∷ deleted false
      ∷ []
unfolding hosts_discrete same_string
answers_test = refl

plain_a : except_part host_a ≡ none
unfolding except_part
plain_a = refl

serve_all-serve_all_nodes_example :
    serve_all requests advconf_hashtable_init ≡ some (serve_all_nodes requests (λ host. []))
unfolding except_part
serve_all-serve_all_nodes_example =
    serve_all-serve_all_nodes requests
      (tt, (omega arith, (tt, (plain_a, (plain_a, (plain_a, (plain_a, (plain_a, tt))))))))

-- A host with 128 bytes before the '!'.
abbrev long_host : ℕ → List ℕ
long_host zero = b'!' ∷ []
long_host (suc n) = b'a' ∷ long_host n

long_test :
    advconf_hashnode_add (record node_except { s_host = long_host 128 }) advconf_hashtable_init
    ≡ none
unfolding advconf_hashnode_add
long_test = refl
