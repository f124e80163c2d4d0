-- ===== src/Lmo/RoundTrip.antt =====
-- `utf8` copies text.
use openwrt_extra.Common.{
  le_or_lt, ℕ, zero, suc, ◌≤◌, ◌<◌, ◌≡◌, refl, inl, inr, ltb, leb, ◌==◌, Bool, true, false, ◌&&◌,
  Option, some, List, [], ◌∷◌, ◌++◌, take, drop, length, length-append, append_assoc, append-nil,
  arith, ap, sym, ◌∙◌, ◌>>=◌,
}
use openwrt_extra.Lmo.Buffer.{Buffer, buf_init, buf_putchar, buf_append, block_size}
use openwrt_extra.Lmo.BufferLaws.{IsBuffer, buf_append-IsBuffer, buf_putchar-IsBuffer}
use openwrt_extra.Lmo.Utf8.{
  mb_num_chars, count_valid, is_legal, write_sequence, validate_utf8, utf8_loop, utf8,
}
use openwrt_extra.Lmo.Text.{encode, IsText}
use openwrt_extra.Lmo.Copies.{IsCopied, many-IsCopied, text-NoCont, encode_one}

-- A write that appends.
abbrev pub Appends : Buffer → List ℕ → ℕ → Option (ℕ × Buffer) → Type 0
Appends b s n w = (d : Buffer) × (w ≡ some (n, d)) × IsBuffer d × (d.bytes ≡ b.bytes ++ s)

true_not_false : true ≡ false → ⊥
true_not_false h = ground arith

module _ (alloc : ℕ → Bool) (given : (n : ℕ) → alloc n ≡ true) (b : Buffer) (ok : IsBuffer b) where
  pub buf_putchar-Appends : (c : ℕ) → Appends b (c ∷ []) 1 (buf_putchar alloc b c)
  buf_putchar-Appends c =
      let (r, d, e, valid, cases) = buf_putchar-IsBuffer alloc b ok c in
      elim cases [
        | inl (one, bytes) ↦ (d, rw one at e, valid, bytes)
        | inr (_, _, refused) ↦ absurd (true_not_false (sym (given _) ∙ refused))
      ]

  pub buf_append-Appends : (s : List ℕ) → Appends b s (length s) (buf_append alloc b s)
  buf_append-Appends s =
      let (r, d, e, valid, cases) = buf_append-IsBuffer alloc b ok s in
      elim cases [
        | inl (all, bytes) ↦ (d, rw all at e, valid, bytes)
        | inr (_, _, refused) ↦ absurd (true_not_false (sym (given _) ∙ refused))
      ]

  validate_utf8-copies :
      (c : ℕ) (rest : List ℕ) (n : ℕ)
      → 0x80 ≤ c
      → 1 < n
      → n < 5
      → mb_num_chars c ≡ n
      → count_valid n rest 1 ≡ n
      → is_legal (c ∷ rest) n n ≡ true
      → 0 < length (take n (c ∷ rest))
      → (d : Buffer) × (validate_utf8 alloc (c ∷ rest) b ≡ some (n, drop n (c ∷ rest), d))
        × IsBuffer d
        × (d.bytes ≡ b.bytes ++ take n (c ∷ rest))
  unfolding validate_utf8 write_sequence
  validate_utf8-copies c rest n high many few chars counted legal some_bytes =
      let (d, e, valid, bytes) = buf_append-Appends (take n (c ∷ rest)) in
      let not_ascii : (leb 0x01 c && leb c 0x7F) ≡ false = ground arith in
      let is_many : ltb 1 n ≡ true = ground arith in
      let is_few : leb 5 n ≡ false = ground arith in
      let wrote : (length (take n (c ∷ rest)) == 0) ≡ false = ground arith in
      (
        d,
        rw not_ascii (rw chars (rw is_many (rw counted (rw is_few (rw legal (rw e (rw wrote))))))),
        valid,
        bytes,
      )

encode-nonempty : (p : ℕ) → 0 < length (encode p)
unfolding encode
encode-nonempty p = ground arith

-- A run of the loop that appends `s`.
abbrev Copies : Buffer → List ℕ → Option Buffer → Type 0
Copies b s w = (d : Buffer) × (w ≡ some d) × IsBuffer d × (d.bytes ≡ b.bytes ++ s)

module _ (alloc : ℕ → Bool) (given : (n : ℕ) → alloc n ≡ true) where
  module _ (fuel : ℕ) (r : List ℕ)
      (next : (d : Buffer) → IsBuffer d → Copies d r (utf8_loop alloc fuel r d)) where
    ascii-Copies :
        (p : ℕ)
        → 0 < p
        → p < 0x80
        → (b : Buffer) → IsBuffer b
        → Copies b (p ∷ r) (utf8_loop alloc (suc fuel) (p ∷ r) b)
    unfolding utf8_loop
    ascii-Copies p pos ascii b ok =
        let (d, e, valid, bytes) = buf_putchar-Appends alloc given b ok p in
        let (z, done, last, total) = next d valid in
        let is_ascii : (leb 0x01 p && leb p 0x7F) ≡ true = ground arith in
        (
          z,
          rw (is_ascii, utf8_loop) (rw e done),
          last,
          total ∙ ap (λ x. x ++ r) bytes ∙ append_assoc b.bytes (p ∷ []) r,
        )

    many-Copies :
        (p : ℕ)
        → IsCopied p r
        → (b : Buffer) → IsBuffer b
        → Copies b (encode p ++ r) (utf8_loop alloc (suc fuel) (encode p ++ r) b)
    unfolding utf8_loop
    many-Copies p h b ok =
        let some_bytes : 0 < length (take h.count (h.first ∷ h.others)) =
          rw (h.taken) (encode-nonempty p) in
        let (d, e, valid, bytes) =
          validate_utf8-copies alloc given b ok h.first h.others h.count h.high h.many h.few h.chars
            h.counted h.legal some_bytes in
        let (z, done, last, total) = next d valid in
        let not_ascii : (leb 0x01 h.first && leb h.first 0x7F) ≡ false = ground (arith, h.high) in
        let wrote : (h.count == 0) ≡ false = ground (arith, h.many) in
        (
          z,
          rw (h.starts)
              (rw (not_ascii, utf8_loop) (rw e (rw (wrote, ◌>>=◌) (rw (h.dropped) done)))),
          last,
          total
              ∙ ap (λ x. x ++ r) (bytes ∙ ap (λ x. b.bytes ++ x) h.taken)
              ∙ append_assoc b.bytes (encode p) r,
        )

  utf8_loop-Copies :
      (fuel : ℕ) (s : List ℕ)
      → IsText s
      → length s < fuel
      → (b : Buffer) → IsBuffer b
      → Copies b s (utf8_loop alloc fuel s b)
  utf8_loop-Copies zero s text h b ok = absurd (omega arith)
  utf8_loop-Copies (suc fuel) s IsText.empty h b ok =
      unfold utf8_loop in (b, refl, ok, sym (append-nil b.bytes))
  utf8_loop-Copies (suc fuel) s (IsText.point p {s = r} point text e) h b ok =
      let shorter : length r < fuel =
        omega (arith, ap length e, length-append (encode p) r, encode-nonempty p) in
      let next = utf8_loop-Copies fuel r text shorter in
      elim (le_or_lt 0x80 p) [
        | inl high ↦
            rw e
              (many-Copies fuel r next p (many-IsCopied p r (text-NoCont r text) point high) b ok)
        | inr ascii ↦
            rw e (rw (encode_one p ascii) (ascii-Copies fuel r next p point.pos ascii b ok))
      ]

  -- Where memory is given, `utf8` returns text as it is: for any fuel above its length the result is
  -- not NULL, and its bytes are the input's. Text has the code points below 2 ^ 21 other than zero, the surrogates,
  -- U+FFFE and U+FFFF: those from 0x110000 on are among them, which no UTF-8
  -- has, so that the comment on `utf8`, that every invalid sequence becomes a question mark, does not hold for them.
  pub utf8-copies :
      (fuel : ℕ) (s : List ℕ)
      → IsText s
      → length s < fuel
      → (b : Buffer) × (utf8 alloc fuel s ≡ some (some b)) × (b.bytes ≡ s)
  unfolding utf8 buf_init
  utf8-copies fuel s text h =
      let start : Buffer = record { size = block_size (length s); fill = 0; bytes = [] } in
      let ok : IsBuffer start = record { counted = refl; room = ground arith } in
      let (d, e, valid, bytes) = utf8_loop-Copies fuel s text h start ok in
      (d, rw (given (block_size (length s)), utf8) (rw e), bytes)
