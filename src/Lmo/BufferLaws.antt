-- ===== src/Lmo/BufferLaws.antt =====
-- The writes to a buffer stay inside its allocation.
use openwrt_extra.Common.{
  ℕ, ◌+◌, ◌<◌, ◌≡◌, refl, ◌⊎◌, Bool, true, false, some, List, [], ◌∷◌, ◌++◌, length, length-append,
  arith, ltb, leb, ◌==◌, ◌≤◌, ap, sym, ◌∙◌, inl, inr, Bool-cases,
}
use openwrt_extra.Lmo.Buffer.{Buffer, block_size, store, make_room, buf_putchar, buf_append}

-- The counter is the number of bytes, and the closing zero has its place.
pub record IsBuffer (b : Buffer) : Type 0 where
  pub counted : b.fill ≡ length b.bytes
  pub room : b.fill < b.size

-- What `make_room` gives: room, with the same bytes; or a refusal.
record RoomMade (alloc : ℕ → Bool) (b : Buffer) (room size : ℕ) : Type 0 where
  grown : ℕ
  buffer : Buffer
  made : make_room alloc b room size ≡ (grown, buffer)
  outcome :
      (0 < grown)
        × (buffer.bytes ≡ b.bytes)
        × (buffer.fill ≡ b.fill)
        × (b.fill + room < buffer.size)
      ⊎ (grown ≡ 0) × (buffer ≡ b) × (alloc (b.size + block_size size) ≡ false)

pos_test : (n : ℕ) → 0 < n → (n == 0) ≡ false
pos_test n h = ground arith

lt_test : (m n : ℕ) → m < n → ltb m n ≡ true
lt_test m n h = ground arith

module _ (alloc : ℕ → Bool) (b : Buffer) (ok : IsBuffer b) where
  make_room-RoomMade : (room size : ℕ) → room ≤ block_size size → RoomMade alloc b room size
  unfolding make_room
  make_room-RoomMade room size h = elim (Bool-cases (leb b.size (b.fill + room))) [
    | inl full ↦ elim (Bool-cases (alloc (b.size + block_size size))) [
      | inl given ↦ record {
        grown = b.size + block_size size;
        buffer = record b { size = b.size + block_size size };
        made = rw full (rw given);
        outcome = inl (omega (arith, ok.room), refl, refl, omega (arith, ok.room));
      }
      | inr refused ↦ record {
        grown = 0;
        buffer = b;
        made = rw full (rw refused);
        outcome = inr (refl, refl, refused);
      }
    ]
    | inr fits ↦ record {
      grown = 1;
      buffer = b;
      made = rw fits;
      outcome = inl (omega arith, refl, refl, ground (arith, fits));
    }
  ]

  store-IsBuffer :
      (c : Buffer) (s : List ℕ)
      → c.bytes ≡ b.bytes
      → c.fill ≡ b.fill
      → b.fill + length s < c.size
      → (d : Buffer) × (store c s ≡ some d) × IsBuffer d × (d.bytes ≡ b.bytes ++ s)
  unfolding store
  store-IsBuffer c s same_bytes same_fill fits =
      let e : length c.bytes ≡ c.fill = ap length same_bytes ∙ sym ok.counted ∙ sym same_fill in
      (
        record c { fill = c.fill + length s; bytes = c.bytes ++ s },
        rw (lt_test (length c.bytes + length s) c.size (omega (arith, e, same_fill))),
        record {
          counted = omega (arith, e, length-append c.bytes s);
          room = omega (arith, same_fill);
        },
        rw same_bytes,
      )

  -- `buf_append` to a valid buffer writes nothing outside the allocation and gives a valid buffer:
  -- with the bytes appended, and their number returned; or, if realloc refuses the larger block,
  -- with the bytes that it had, and 0 returned.
  pub buf_append-IsBuffer :
      (s : List ℕ)
      → (r : ℕ) × (c : Buffer) × (buf_append alloc b s ≡ some (r, c))
        × IsBuffer c
        × ((r ≡ length s) × (c.bytes ≡ b.bytes ++ s)
            ⊎ (r ≡ 0) × (c.bytes ≡ b.bytes) × (alloc (b.size + (length s + 1)) ≡ false))
  unfolding buf_append
  buf_append-IsBuffer s =
      let z = make_room-RoomMade (length s + 1) (length s + 1) (ground arith) in
      elim z.outcome [
        | inl (grown, same_bytes, same_fill, fits) ↦
            let (d, stored, valid, bytes) =
              store-IsBuffer z.buffer s same_bytes same_fill (omega arith) in
            (
              length s,
              d,
              rw (z.made) (rw (pos_test z.grown grown) (rw stored)),
              valid,
              inl (refl, bytes),
            )
        | inr (zero, same, refused) ↦ (
          0,
          z.buffer,
          rw (z.made) (rw zero),
          rw same ok,
          inr (refl, ap (λ (c : Buffer). c.bytes) same, ground (arith, refused)),
        )
      ]

  -- `buf_putchar` to a valid buffer writes nothing outside the allocation and gives a valid buffer:
  -- with the byte appended, and 1 returned; or, if realloc refuses the larger block, with the bytes
  -- that it had, and 0 returned.
  pub buf_putchar-IsBuffer :
      (x : ℕ)
      → (r : ℕ) × (c : Buffer) × (buf_putchar alloc b x ≡ some (r, c))
        × IsBuffer c
        × ((r ≡ 1) × (c.bytes ≡ b.bytes ++ x ∷ [])
            ⊎ (r ≡ 0) × (c.bytes ≡ b.bytes) × (alloc (b.size + 1024) ≡ false))
  unfolding buf_putchar
  buf_putchar-IsBuffer x =
      let z = make_room-RoomMade 1 0 (omega arith) in
      elim z.outcome [
        | inl (grown, same_bytes, same_fill, fits) ↦
            let (d, stored, valid, bytes) =
              store-IsBuffer z.buffer (x ∷ []) same_bytes same_fill (omega arith) in
            (1, d, rw (z.made) (rw (pos_test z.grown grown) (rw stored)), valid, inl (refl, bytes))
        | inr (zero, same, refused) ↦ (
          0,
          z.buffer,
          rw (z.made) (rw zero),
          rw same ok,
          inr (refl, ap (λ (c : Buffer). c.bytes) same, refused),
        )
      ]
