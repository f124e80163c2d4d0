-- ===== src/Lmo/Pcdata.antt =====
-- What `pcdata` returns is text, whatever bytes it gets.
use openwrt_extra.Common.{
  ℕ, zero, suc, ◌+◌, ◌/◌, ◌%◌, ◌<◌, ◌≡◌, refl, ◌⊎◌, inl, inr, leb, ◌==◌, Bool, true, false, none,
  some, List, [], ◌∷◌, length, arith, Bool-cases, ◌>>=◌,
}
use openwrt_extra.Lmo.Buffer.{Buffer, buf_init, block_size}
use openwrt_extra.Lmo.Text.{IsText}
use openwrt_extra.Lmo.Texts.{IsText-append, ascii-IsText}
use openwrt_extra.Lmo.Sequences.{IsBytes}
use openwrt_extra.Lmo.Utf8Laws.{
  IsTextBuffer, GivesText, buf_append-Writes, buf_putchar-Writes, validate_utf8-Steps,
}
use openwrt_extra.Lmo.Markup.{is_dropped, is_escaped, entity, pcdata_loop, pcdata}

entity-IsText : (c : ℕ) → c < 128 → IsText (entity c)
entity-IsText c h = IsText-append (b'&' ∷ []) _ (ascii-IsText b'&' (omega arith) (omega arith)) (
    IsText-append (b'#' ∷ []) _ (ascii-IsText b'#' (omega arith) (omega arith)) (
      IsText-append ((b'0' + c / 10) ∷ []) _
        (ascii-IsText (b'0' + c / 10) (omega arith) (omega arith))
        (IsText-append ((b'0' + c % 10) ∷ []) _
          (ascii-IsText (b'0' + c % 10) (omega arith) (omega arith))
          (ascii-IsText b';' (omega arith) (omega arith)))))

escaped_ascii : (c : ℕ) → is_escaped c ≡ true → c < 128
escaped_ascii c h = ground arith

kept_positive : (c : ℕ) → is_dropped c ≡ false → 0 < c
kept_positive c h = ground arith

module _ (alloc : ℕ → Bool) where
  pcdata_loop-GivesText :
      (fuel : ℕ) (s : List ℕ) (b : Buffer)
      → IsTextBuffer b
      → IsBytes s
      → length s < fuel
      → GivesText (pcdata_loop alloc fuel s b)
  unfolding pcdata_loop
  pcdata_loop-GivesText zero s b ok bytes h = absurd (omega arith)
  pcdata_loop-GivesText (suc fuel) [] b ok bytes h = (b, refl, ok)
  pcdata_loop-GivesText (suc fuel) (c ∷ rest) b ok bytes h = elim (Bool-cases (is_dropped c)) [
    | inl dropped ↦
        let (z, done, final) = pcdata_loop-GivesText fuel rest b ok bytes.1 (omega arith) in
        (z, rw (dropped, pcdata_loop) done, final)
    | inr kept ↦ elim (Bool-cases (is_escaped c)) [
      | inl escaped ↦
          let (r, d, e, text) =
            buf_append-Writes alloc b ok (entity c) (entity-IsText c (escaped_ascii c escaped)) in
          elim (Bool-cases (r == 0)) [
            | inl failed ↦
                (d, rw (kept, pcdata_loop) (rw escaped (rw e (rw (failed, ◌>>=◌)))), text)
            | inr wrote ↦
                let (z, done, final) =
                  pcdata_loop-GivesText fuel rest d text bytes.1 (omega arith) in
                (z, rw (kept, pcdata_loop) (rw escaped (rw e (rw (wrote, ◌>>=◌) done))), final)
          ]
      | inr plain ↦ elim (Bool-cases (leb c 0x7F)) [
        | inl ascii ↦
            let (r, d, e, text) =
              buf_putchar-Writes alloc b ok c (kept_positive c kept) (ground (arith, ascii)) in
            let (z, done, final) = pcdata_loop-GivesText fuel rest d text bytes.1 (omega arith) in
            (z, rw (kept, pcdata_loop) (rw plain (rw ascii (rw e done))), final)
        | inr high ↦
            let (r, t, d, e, text, cases) = validate_utf8-Steps alloc b ok c rest bytes in
            elim cases [
              | inl failed ↦
                  (d, rw (kept, pcdata_loop) (rw plain (rw high (rw e (rw (failed, ◌>>=◌))))), text)
              | inr (wrote, less, left) ↦
                  let (z, done, final) =
                    pcdata_loop-GivesText fuel t d text left (omega (arith, less)) in
                  (
                    z,
                    rw (kept, pcdata_loop) (rw plain (rw high (rw e (rw (wrote, ◌>>=◌) done)))),
                    final,
                  )
            ]
      ]
    ]
  ]

  -- For any bytes and any fuel above their number, whatever malloc and realloc refuse: `pcdata` ends and
  -- makes no access outside the input or the allocation. It returns NULL, which it does only if the
  -- buffer cannot be allocated, or a string that is a sequence of encoded code points with none of
  -- zero, the surrogates, U+FFFE and U+FFFF.
  pub pcdata-IsText :
      (fuel : ℕ) (s : List ℕ)
      → IsBytes s
      → length s < fuel
      → (pcdata alloc fuel s ≡ some none) × (alloc (block_size (length s)) ≡ false)
        ⊎ (b : Buffer) × (pcdata alloc fuel s ≡ some (some b)) × IsText b.bytes
  unfolding pcdata buf_init
  pcdata-IsText fuel s bytes h = elim (Bool-cases (alloc (block_size (length s)))) [
    | inl given ↦
        let start : Buffer = record { size = block_size (length s); fill = 0; bytes = [] } in
        let ok : IsTextBuffer start = record {
          valid = record { counted = refl; room = ground arith };
          text = IsText.empty;
        } in
        let (d, e, text) = pcdata_loop-GivesText fuel s start ok bytes h in
        inr (d, rw (given, pcdata) (rw e), text.text)
    | inr refused ↦ inl (rw (refused, pcdata), refused)
  ]
