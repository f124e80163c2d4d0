-- ===== src/Lmo/Utf8.antt =====
-- The UTF-8 filter of luci/libs/lmo/src/template_utils.c. A pointer with the number of bytes left is
-- the list of those bytes; `none` is a read or a write outside, or the end of the fuel.
use Prim.Native.Nat.{bit_and}
use openwrt_extra.Common.{
  ℕ, zero, suc, ◌+◌, ◌/◌, ◌^◌, ltb, leb, ◌==◌, if◌then◌else◌, Bool, true, false, not, ◌&&◌, Option,
  none, some, List, [], ◌∷◌, take, drop, length, ◌>>=◌,
}
use openwrt_extra.Lmo.Buffer.{Buffer, buf_init, buf_putchar, buf_append}

unfoldable pub mb_num_chars : ℕ → ℕ
mb_num_chars c =
    if bit_and c 0xE0 == 0xC0
    then 2
    else if bit_and c 0xF0 == 0xE0
    then 3
    else if bit_and c 0xF8 == 0xF0
    then 4
    else if bit_and c 0xFC == 0xF8
    then 5
    else if bit_and c 0xFE == 0xFC
    then 6
    else 1

unfoldable pub mb_is_cont : ℕ → Bool
mb_is_cont c = leb 0x80 c && leb c 0xBF

-- *(s+i) >> k == v; the callers have the n bytes of the sequence, so the read past the list, which is
-- false here, is not made.
abbrev pub top_is : List ℕ → ℕ → ℕ → ℕ → Bool
top_is [] i k v = false
top_is (c ∷ s) zero k v = c / 2 ^ k == v
top_is (c ∷ s) (suc i) k v = top_is s i k v

unfoldable pub mb_is_shortest : List ℕ → ℕ → Bool
mb_is_shortest s n =
    if n == 2
    then not (top_is s 0 1 0x60 && top_is s 1 6 0x02)
    else if n == 3
    then not (top_is s 0 0 0xE0 && (top_is s 1 5 0x04 && top_is s 2 6 0x02))
    else if n == 4
    then not (top_is s 0 0 0xF0 && (top_is s 1 4 0x08 && (top_is s 2 6 0x02 && top_is s 3 6 0x02)))
    else if n == 5
    then not (
        top_is s 0 0 0xF8
        && (top_is s 1 3 0x10 && (top_is s 2 6 0x02 && (top_is s 3 6 0x02 && top_is s 4 6 0x02))))
    else if n == 6
    then not (
        top_is s 0 0 0xF8
        && (top_is s 1 2 0x20
            && (top_is s 2 6 0x02
                && (top_is s 3 6 0x02 && (top_is s 4 6 0x02 && top_is s 5 6 0x02)))))
    else true

-- lo <= *(s+i) <= hi
abbrev pub within : List ℕ → ℕ → ℕ → ℕ → Bool
within [] i lo hi = false
within (c ∷ s) zero lo hi = leb lo c && leb c hi
within (c ∷ s) (suc i) lo hi = within s i lo hi

unfoldable pub mb_is_surrogate : List ℕ → ℕ → Bool
mb_is_surrogate s n = n == 3 && (within s 0 0xED 0xED && within s 1 0xA0 0xBF)

unfoldable pub mb_is_illegal : List ℕ → ℕ → Bool
mb_is_illegal s n =
    n == 3 && (within s 0 0xEF 0xEF && (within s 1 0xBF 0xBF && within s 2 0xBE 0xBF))

-- The loop that counts valid characters, with the rounds left until v > n.
unfoldable pub count_valid : ℕ → List ℕ → ℕ → ℕ
count_valid (suc left) (c ∷ rest) v = if mb_is_cont c then count_valid left rest (v + 1) else v
count_valid _ _ v = v

-- The test before a sequence is copied.
unfoldable pub is_legal : List ℕ → ℕ → ℕ → Bool
is_legal s n v =
    v == n && (mb_is_shortest s n && (not (mb_is_surrogate s n) && not (mb_is_illegal s n)))

module _ (alloc : ℕ → Bool) where
  -- The switch over n: what is written for a multi byte sequence.
  unfoldable pub write_sequence : Buffer → List ℕ → ℕ → ℕ → Option (ℕ × Buffer)
  write_sequence buf s n v =
      if leb 5 n
      then buf_putchar alloc buf b'?'
      else if is_legal s n v
      then buf_append alloc buf (take n s)
      else buf_putchar alloc buf b'?'

  -- The number of bytes read, or 0 if a write failed; the pointer after them; the buffer.
  unfoldable pub validate_utf8 : List ℕ → Buffer → Option (ℕ × List ℕ × Buffer)
  unfolding count_valid write_sequence
  validate_utf8 [] buf = none
  validate_utf8 (c ∷ rest) buf =
      if leb 0x01 c && leb c 0x7F
      then buf_putchar alloc buf c
        >>= (λ w. if w.0 == 0 then some (0, c ∷ rest, w.1) else some (1, rest, w.1))
      else if ltb 1 (mb_num_chars c)
      then (let v = count_valid (mb_num_chars c) rest 1 in
          write_sequence buf (c ∷ rest) (mb_num_chars c) v
          >>= (λ w. if w.0 == 0 then some (0, c ∷ rest, w.1) else some (v, drop v (c ∷ rest), w.1)))
      else buf_putchar alloc buf b'?'
        >>= (λ w. if w.0 == 0 then some (0, c ∷ rest, w.1) else some (1, rest, w.1))

  -- The loop of `utf8`; a failed write ends it.
  unfoldable pub utf8_loop : ℕ → List ℕ → Buffer → Option Buffer
  utf8_loop zero s buf = none
  utf8_loop (suc fuel) [] buf = some buf
  utf8_loop (suc fuel) (c ∷ rest) buf = elim (leb 0x01 c && leb c 0x7F) [
    | true ↦ buf_putchar alloc buf c >>= λ w. elim (w.0 == 0) [
      | true ↦ some w.1
      | false ↦ utf8_loop fuel rest w.1
    ]
    | false ↦ validate_utf8 (c ∷ rest) buf >>= λ w. elim (w.0 == 0) [
      | true ↦ some w.2
      | false ↦ utf8_loop fuel w.1 w.2
    ]
  ]

  -- The outer option is the NULL that is returned where the buffer cannot be allocated.
  unfoldable pub utf8 : ℕ → List ℕ → Option (Option Buffer)
  utf8 fuel s = elim (buf_init alloc (length s)) [
    | none ↦ some none
    | some buf ↦ utf8_loop fuel s buf >>= λ b. some (some b)
  ]
