-- ===== src/Lmo/Buffer.antt =====
-- The growing buffer of luci/libs/lmo/src/template_utils.c. The bytes before `dptr` are a list, so
-- that `dptr` is its length; `none` is a write outside the allocation. Whether malloc and realloc
-- give a block of some size is a parameter. The sizes are below the bound of int.
use openwrt_extra.Common.{
  ℕ, ◌+◌, ltb, leb, ◌==◌, if◌then◌else◌, Bool, Option, none, some, List, [], ◌∷◌, ◌++◌, length,
  ◌>>=◌,
}

pub record Buffer : Type 0 where
  pub size : ℕ
  pub fill : ℕ
  pub bytes : List ℕ

-- size <= 0 means 1024.
abbrev pub block_size : ℕ → ℕ
block_size size = if size == 0 then 1024 else size

-- The stores through `dptr`, the closing zero included.
unfoldable pub store : Buffer → List ℕ → Option Buffer
store buf s =
    if ltb (length buf.bytes + length s) buf.size
    then some (record buf { fill = buf.fill + length s; bytes = buf.bytes ++ s })
    else none

module _ (alloc : ℕ → Bool) where
  -- `none` is the NULL that is returned where malloc fails.
  unfoldable pub buf_init : ℕ → Option Buffer
  buf_init size =
      if alloc (block_size size)
      then some (record { size = block_size size; fill = 0; bytes = [] })
      else none

  -- The new size, or 0.
  unfoldable pub buf_grow : Buffer → ℕ → ℕ × Buffer
  buf_grow buf size =
      if alloc (buf.size + block_size size)
      then (buf.size + block_size size, record buf { size = buf.size + block_size size })
      else (0, buf)

  -- Growing where `room` bytes do not fit: 0 if that failed.
  unfoldable pub make_room : Buffer → ℕ → ℕ → ℕ × Buffer
  unfolding buf_grow
  make_room buf room size = if leb buf.size (buf.fill + room) then buf_grow buf size else (1, buf)

  unfoldable pub buf_putchar : Buffer → ℕ → Option (ℕ × Buffer)
  buf_putchar buf c =
      let (grown, b) = make_room buf 1 0 in
      if grown == 0 then some (0, b) else (store b (c ∷ []) >>= λ d. some (1, d))

  unfoldable pub buf_append : Buffer → List ℕ → Option (ℕ × Buffer)
  buf_append buf s =
      let (grown, b) = make_room buf (length s + 1) (length s + 1) in
      if grown == 0 then some (0, b) else (store b s >>= λ d. some (length s, d))
