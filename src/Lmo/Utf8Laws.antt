-- ===== src/Lmo/Utf8Laws.antt =====
-- What `utf8` returns is text, whatever bytes it gets.
use openwrt_extra.Common.{
  ℕ, zero, suc, ◌+◌, ◌≤◌, ◌<◌, ◌≡◌, refl, ◌⊎◌, inl, inr, ltb, leb, ◌==◌, if◌then◌else◌, Bool, true,
  false, ◌&&◌, Option, none, some, List, [], ◌∷◌, take, drop, length, arith, Bool-cases, ◌>>=◌,
}
use openwrt_extra.Lmo.Buffer.{Buffer, buf_init, buf_putchar, buf_append, block_size}
use openwrt_extra.Lmo.BufferLaws.{IsBuffer, buf_append-IsBuffer, buf_putchar-IsBuffer}
use openwrt_extra.Lmo.Utf8.{
  mb_num_chars, count_valid, is_legal, write_sequence, validate_utf8, utf8_loop, utf8,
}
use openwrt_extra.Lmo.Text.{IsText}
use openwrt_extra.Lmo.Texts.{IsText-append, ascii-IsText, point-IsText}
use openwrt_extra.Lmo.Sequences.{IsBytes, legal-StartsWithPoint}

-- A buffer whose bytes are text.
pub record IsTextBuffer (b : Buffer) : Type 0 where
  pub valid : IsBuffer b
  pub text : IsText b.bytes

-- A write that gives text: what it returns is not wrong, and the buffer holds text.
abbrev pub Writes : Option (ℕ × Buffer) → Type 0
Writes w = (r : ℕ) × (d : Buffer) × (w ≡ some (r, d)) × IsTextBuffer d

module _ (alloc : ℕ → Bool) (b : Buffer) (ok : IsTextBuffer b) where
  pub buf_putchar-Writes : (c : ℕ) → 0 < c → c < 0x80 → Writes (buf_putchar alloc b c)
  buf_putchar-Writes c lo hi =
      let (r, d, e, valid, cases) = buf_putchar-IsBuffer alloc b ok.valid c in
      (
        r,
        d,
        e,
        record {
          valid = valid;
          text = elim cases [
            | inl (_, bytes) ↦
                rw bytes (IsText-append b.bytes (c ∷ []) ok.text (ascii-IsText c lo hi))
            | inr (_, bytes, _) ↦ rw bytes (ok.text)
          ];
        },
      )

  pub buf_append-Writes : (s : List ℕ) → IsText s → Writes (buf_append alloc b s)
  buf_append-Writes s is_text =
      let (r, d, e, valid, cases) = buf_append-IsBuffer alloc b ok.valid s in
      (
        r,
        d,
        e,
        record {
          valid = valid;
          text = elim cases [
            | inl (_, bytes) ↦ rw bytes (IsText-append b.bytes s ok.text is_text)
            | inr (_, bytes, _) ↦ rw bytes (ok.text)
          ];
        },
      )

  write_sequence-Writes :
      (c : ℕ) (rest : List ℕ)
      → c < 256
      → 1 < mb_num_chars c
      → Writes
          (write_sequence alloc b (c ∷ rest) (mb_num_chars c) (count_valid (mb_num_chars c) rest 1))
  unfolding write_sequence
  write_sequence-Writes c rest byte many = elim (Bool-cases (leb 5 (mb_num_chars c))) [
    | inl long ↦ rw long (buf_putchar-Writes b'?' (omega arith) (omega arith))
    | inr short ↦
        elim (Bool-cases
          (is_legal (c ∷ rest) (mb_num_chars c) (count_valid (mb_num_chars c) rest 1))) [
            | inl legal ↦ rw short (
                rw legal (
                  buf_append-Writes (take (mb_num_chars c) (c ∷ rest)) (
                    point-IsText (c ∷ rest) (mb_num_chars c)
                      (legal-StartsWithPoint c rest byte many (ground (arith, short)) legal))))
            | inr illegal ↦
                rw short (rw illegal (buf_putchar-Writes b'?' (omega arith) (omega arith)))
          ]
  ]

-- What a step of the filter does: a return of 0, with the buffer as it is; or progress.
abbrev pub Steps : List ℕ → Option (ℕ × List ℕ × Buffer) → Type 0
Steps s w =
    (r : ℕ) × (t : List ℕ) × (d : Buffer) × (w ≡ some (r, t, d))
    × IsTextBuffer d
    × ((r == 0) ≡ true ⊎ ((r == 0) ≡ false) × (length t < length s) × IsBytes t)

drop-IsBytes : (n : ℕ) (s : List ℕ) → IsBytes s → IsBytes (drop n s)
drop-IsBytes zero s h = h
drop-IsBytes (suc n) [] h = h
drop-IsBytes (suc n) (c ∷ s) (h, hs) = drop-IsBytes n s hs

length-drop : (n : ℕ) (s : List ℕ) → length (drop n s) ≤ length s
length-drop zero s = ground arith
length-drop (suc n) [] = ground arith
length-drop (suc n) (c ∷ s) = ground (arith, length-drop n s)

length-drop_less : (n : ℕ) → 0 < n → (c : ℕ) (s : List ℕ) → length (drop n (c ∷ s)) < length (c ∷ s)
length-drop_less zero h c s = absurd (omega arith)
length-drop_less (suc n) h c s = ground (arith, length-drop n s)

count_valid-grows : (left : ℕ) (s : List ℕ) (v : ℕ) → v ≤ count_valid left s v
unfolding count_valid
count_valid-grows zero s v = ground arith
count_valid-grows (suc left) [] v = ground arith
count_valid-grows (suc left) (c ∷ s) v = ground (arith, count_valid-grows left s (v + 1))

-- A write, followed by a move to the rest `t`.
move-Steps :
    (s t : List ℕ) (n : ℕ) (w : Option (ℕ × Buffer))
    → Writes w
    → 0 < n
    → length t < length s
    → IsBytes t
    → Steps s (w >>= λ w. if w.0 == 0 then some (0, s, w.1) else some (n, t, w.1))
move-Steps s t n w (r, d, e, ok) pos less bytes = elim (Bool-cases (r == 0)) [
  | inl failed ↦ (0, s, d, rw e (rw (failed, ◌>>=◌)), ok, inl refl)
  | inr many ↦ (n, t, d, rw e (rw many), ok, inr (ground (arith, pos), less, bytes))
]

module _ (alloc : ℕ → Bool) (b : Buffer) (ok : IsTextBuffer b) where
  pub validate_utf8-Steps :
      (c : ℕ) (rest : List ℕ)
      → IsBytes (c ∷ rest)
      → Steps (c ∷ rest) (validate_utf8 alloc (c ∷ rest) b)
  unfolding validate_utf8
  validate_utf8-Steps c rest (byte, bytes) = elim (Bool-cases (leb 0x01 c && leb c 0x7F)) [
    | inl ascii ↦ rw ascii (
        move-Steps (c ∷ rest) rest 1 _
          (buf_putchar-Writes alloc b ok c (ground (arith, ascii)) (ground (arith, ascii)))
          (omega arith) (ground arith) bytes)
    | inr other ↦ elim (Bool-cases (ltb 1 (mb_num_chars c))) [
      | inl many ↦
          let v : ℕ = count_valid (mb_num_chars c) rest 1 in
          rw other (
            rw many (
              move-Steps (c ∷ rest) (drop v (c ∷ rest)) v _
                (write_sequence-Writes alloc b ok c rest byte (ground (arith, many)))
                (count_valid-grows (mb_num_chars c) rest 1)
                (length-drop_less v (count_valid-grows (mb_num_chars c) rest 1) c rest)
                (drop-IsBytes v (c ∷ rest) (byte, bytes))))
      | inr one ↦ rw other (
          rw one (
            move-Steps (c ∷ rest) rest 1 _
              (buf_putchar-Writes alloc b ok b'?' (omega arith) (omega arith)) (omega arith)
              (ground arith) bytes))
    ]
  ]

  buf_putchar-Steps :
      (c : ℕ)
      → 0 < c
      → c < 0x80
      → (r : ℕ) × (d : Buffer) × (buf_putchar alloc b c ≡ some (r, d))
        × IsTextBuffer d
        × ((r == 0) ≡ true ⊎ (r == 0) ≡ false)
  buf_putchar-Steps c lo hi =
      let (r, d, e, text) = buf_putchar-Writes alloc b ok c lo hi in
      (r, d, e, text, Bool-cases (r == 0))

-- The loop ends, with text.
abbrev pub GivesText : Option Buffer → Type 0
GivesText w = (d : Buffer) × (w ≡ some d) × IsTextBuffer d

utf8_loop-GivesText :
    (alloc : ℕ → Bool) (fuel : ℕ) (s : List ℕ) (b : Buffer)
    → IsTextBuffer b
    → IsBytes s
    → length s < fuel
    → GivesText (utf8_loop alloc fuel s b)
unfolding utf8_loop
utf8_loop-GivesText alloc zero s b ok bytes h = absurd (omega arith)
utf8_loop-GivesText alloc (suc fuel) [] b ok bytes h = (b, refl, ok)
utf8_loop-GivesText alloc (suc fuel) (c ∷ rest) b ok bytes h =
    elim (Bool-cases (leb 0x01 c && leb c 0x7F)) [
      | inl ascii ↦
          let (r, d, e, text, cases) =
            buf_putchar-Steps alloc b ok c (ground (arith, ascii)) (ground (arith, ascii)) in
          elim cases [
            | inl failed ↦ (d, rw (ascii, utf8_loop) (rw e (rw (failed, ◌>>=◌))), text)
            | inr wrote ↦
                let (z, done, final) =
                  utf8_loop-GivesText alloc fuel rest d text bytes.1 (omega arith) in
                (z, rw (ascii, utf8_loop) (rw e (rw (wrote, ◌>>=◌) done)), final)
          ]
      | inr other ↦
          let (r, t, d, e, text, cases) = validate_utf8-Steps alloc b ok c rest bytes in
          elim cases [
            | inl failed ↦ (d, rw (other, utf8_loop) (rw e (rw (failed, ◌>>=◌))), text)
            | inr (wrote, less, left) ↦
                let (z, done, final) =
                  utf8_loop-GivesText alloc fuel t d text left (omega (arith, less)) in
                (z, rw (other, utf8_loop) (rw e (rw (wrote, ◌>>=◌) done)), final)
          ]
    ]

-- For any bytes and any fuel above their number, whatever malloc and realloc refuse: `utf8` ends and
-- makes no access outside the input or the allocation. It returns NULL, which it does only if the
-- buffer cannot be allocated, or a string that is a sequence of encoded code points with none of
-- zero, the surrogates, U+FFFE and U+FFFF.
pub utf8-IsText :
    (alloc : ℕ → Bool) (fuel : ℕ) (s : List ℕ)
    → IsBytes s
    → length s < fuel
    → (utf8 alloc fuel s ≡ some none) × (alloc (block_size (length s)) ≡ false)
      ⊎ (b : Buffer) × (utf8 alloc fuel s ≡ some (some b)) × IsText b.bytes
unfolding utf8 buf_init
utf8-IsText alloc fuel s bytes h = elim (Bool-cases (alloc (block_size (length s)))) [
  | inl given ↦
      let start : Buffer = record { size = block_size (length s); fill = 0; bytes = [] } in
      let (d, e, text) =
        utf8_loop-GivesText alloc fuel s start
          (record { valid = record { counted = refl; room = ground arith }; text = IsText.empty })
          bytes h in
      inr (d, rw (given, utf8) (rw e), text.text)
  | inr refused ↦ inl (rw (refused, utf8), refused)
]
