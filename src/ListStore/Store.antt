-- ===== src/ListStore/Store.antt =====
-- The nodes of list.c in a store: an address has a node or none, and NULL is 0. A read or a write
-- through an address without a node is `none`.
use openwrt_extra.Common.{ℕ, ◌==◌, if◌then◌else◌, Option, some, ◌≡◌, ◌≢◌, ◌>>=◌, arith}

-- list_node
pub record ListNode : Type 0 where
  pub next : ℕ
  pub previous : ℕ
  pub value : ℕ

abbrev pub Store : Type 0
Store = ℕ → Option ListNode

abbrev pub put : ℕ → Option ListNode → Store → Store
put p content h = λ q. if q == p then content else h q

unfoldable pub set_next : ℕ → ℕ → Store → Option Store
set_next p next h = h p >>= λ node. some (put p (some (record node { next = next })) h)

unfoldable pub set_previous : ℕ → ℕ → Store → Option Store
set_previous p previous h =
    h p >>= λ node. some (put p (some (record node { previous = previous })) h)

pub put-same : (p : ℕ) (content : Option ListNode) (h : Store) → put p content h p ≡ content
put-same p content h = ground arith

pub put-other : (p q : ℕ) (content : Option ListNode) (h : Store) → q ≢ p → put p content h q ≡ h q
put-other p q content h other = ground arith
