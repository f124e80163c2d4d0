-- ===== src/Adkill/Hosts.antt =====
-- The hash table of packages/adkill/src/advhash.c. A chain of the table is the list of its nodes, a string is
-- the list of its bytes without the closing zero, and a pointer that may be NULL is an option. The table has
-- 32 chains; the tests for NULL and for an empty chain are not repeated. ADV_KILL_OK is true, and `none` is a write or
-- a read past tmphost.
use openwrt_extra.Common.{
  ℕ, ◌+◌, ◌*◌, ◌%◌, ◌^◌, bit_and, ltb, ◌==◌, if◌then◌else◌, Bool, true, false, not, ◌&&◌, ◌||◌,
  Option, none, some, List, [], ◌∷◌, length,
}
use openwrt_extra.StringUtil.Strings.{begins_with}

-- The source and the target of a URL.
pub record HostMap : Type 0 where
  pub surl : List ℕ
  pub durl : List ℕ

-- struct advconf_hashnode, without the fields that the table does not read.
pub record HashNode : Type 0 where
  pub s_host : List ℕ
  pub d_host : List ℕ
  pub map : List HostMap

abbrev pub HashTable : Type 0
HashTable = ℕ → List HashNode

unfoldable pub hash_loop : ℕ → List ℕ → ℕ
hash_loop hash [] = hash
hash_loop hash (c ∷ str) = hash_loop ((hash * 13 + c) % 2 ^ 32) str

unfoldable pub host_bkdr_hash : List ℕ → ℕ
unfolding hash_loop
host_bkdr_hash str = bit_and (hash_loop 0 str) 31

-- strcmp(a, b) == 0
unfoldable pub same_string : List ℕ → List ℕ → Bool
same_string [] [] = true
same_string (c ∷ a) (d ∷ b) = c == d && same_string a b
same_string _ _ = false

-- strstr(str, part) != NULL
unfoldable pub contains : List ℕ → List ℕ → Bool
unfolding begins_with
contains [] part = begins_with part []
contains (c ∷ str) part = begins_with part (c ∷ str) || contains str part

-- strchr(s_host, '!'): what is before it, and after it.
unfoldable pub except_part : List ℕ → Option (List ℕ × List ℕ)
except_part [] = none
except_part (c ∷ host) =
    let rest = except_part host in
    if c == b'!'
    then some ([], host)
    else elim rest [ none ↦ none | some (before, after) ↦ some (c ∷ before, after) ]

-- The index of the chain of a node.
unfoldable pub node_index : List ℕ → ℕ
unfolding except_part host_bkdr_hash
node_index s_host = elim (except_part s_host) [
  | none ↦ host_bkdr_hash s_host
  | some (before, after) ↦ host_bkdr_hash before
]

abbrev pub advconf_hashtable_init : HashTable
advconf_hashtable_init = λ index. []

-- ADV_MAX_SHOST_LEN
abbrev pub adv_max_shost_len : ℕ
adv_max_shost_len = 128

-- Whether what is copied to tmphost leaves a zero at its end.
unfoldable pub fits_tmphost : List ℕ → Bool
unfolding except_part
fits_tmphost s_host = elim (except_part s_host) [
  | none ↦ true
  | some (before, after) ↦ ltb (length before) adv_max_shost_len
]

unfoldable pub advconf_hashnode_add : HashNode → HashTable → Option HashTable
unfolding node_index fits_tmphost
advconf_hashnode_add node table =
    if fits_tmphost node.s_host
    then some (λ index. if index == node_index node.s_host then node ∷ table index else table index)
    else none

-- Whether the walk along a chain stops at a node.
unfoldable pub is_match : List ℕ → Option (List ℕ) → HashNode → Bool
unfolding same_string contains except_part begins_with
is_match host referer info = elim referer [
  | none ↦ same_string info.s_host host
  | some r ↦ elim (except_part info.s_host) [
    | some (before, after) ↦ begins_with before host && not (contains r after)
    | none ↦ same_string info.s_host host
  ]
]

unfoldable pub first_match : (HashNode → Bool) → List HashNode → Option HashNode
first_match p [] = none
first_match p (node ∷ chain) = let rest = first_match p chain in if p node then some node else rest

unfoldable pub advconf_hashnode_find_by_host :
    HashTable → List ℕ → Option (List ℕ) → Option HashNode
unfolding first_match is_match host_bkdr_hash
advconf_hashnode_find_by_host table host referer =
    first_match (is_match host referer) (table (host_bkdr_hash host))

-- A chain without the first node that satisfies the test, and whether there is one.
unfoldable pub drop_first : (HashNode → Bool) → List HashNode → List HashNode
drop_first p [] = []
drop_first p (node ∷ chain) = let rest = drop_first p chain in if p node then chain else node ∷ rest

unfoldable pub has_match : (HashNode → Bool) → List HashNode → Bool
has_match p [] = false
has_match p (node ∷ chain) = p node || has_match p chain

unfoldable pub advconf_hashnode_del_by_host : List ℕ → HashTable → Bool × HashTable
unfolding same_string drop_first has_match host_bkdr_hash
advconf_hashnode_del_by_host host table =
    let is_host : HashNode → Bool = λ info. same_string info.s_host host in
    let index = host_bkdr_hash host in
    (
      has_match is_host (table index),
      λ i. if i == index then drop_first is_host (table i) else table i,
    )

unfoldable pub advconf_hostmap_find_by_url : HashNode → List ℕ → Option HostMap
unfolding contains
advconf_hostmap_find_by_url node surl = find_map node.map
  where
    find_map : List HostMap → Option HostMap
    find_map [] = none
    find_map (map ∷ maps) =
        let rest = find_map maps in if contains surl map.surl then some map else rest

unfoldable pub advconf_hashtable_empty : ℕ → HashTable → HashTable
advconf_hashtable_empty tablenum table = λ index. if ltb index tablenum then [] else table index
