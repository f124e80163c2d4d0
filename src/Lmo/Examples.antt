-- ===== src/Lmo/Examples.antt =====
-- Runs of the buffer and of the UTF-8 filter, and the theorems at concrete inputs.
use openwrt_extra.Common.{
  ℕ, ◌≡◌, refl, ◌⊎◌, ltb, Bool, true, false, Option, none, some, List, [], ◌∷◌, ◌++◌, arith,
}
use openwrt_extra.Lmo.Buffer.{Buffer, buf_init, buf_putchar, buf_append, make_room, store}
use openwrt_extra.Lmo.BufferLaws.{IsBuffer, buf_append-IsBuffer}
use openwrt_extra.Lmo.Utf8.{
  utf8, utf8_loop, validate_utf8, mb_num_chars, is_legal, mb_is_cont, mb_is_shortest,
  mb_is_surrogate, mb_is_illegal,
}
use openwrt_extra.Lmo.Text.{encode, IsText}
use openwrt_extra.Lmo.Sequences.{IsBytes}
use openwrt_extra.Lmo.Utf8Laws.{utf8-IsText}
use openwrt_extra.Lmo.RoundTrip.{utf8-copies}

abbrev always : ℕ → Bool
always n = true

-- Memory for blocks below 16 bytes.
abbrev scarce : ℕ → Bool
scarce n = ltb n 16

abbrev three_left : Buffer
three_left = record { size = 6; fill = 2; bytes = 0x61 ∷ 0x62 ∷ [] }

three_left-IsBuffer : IsBuffer three_left
three_left-IsBuffer = record { counted = refl; room = omega arith }

-- "a", an e with an acute accent, a zero byte, an overlong slash, a surrogate, the euro sign, a
-- sequence that is cut off.
abbrev mixed : List ℕ
mixed =
    0x61 ∷ 0xC3 ∷ 0xA9 ∷ 0x00 ∷ 0xC0 ∷ 0xAF ∷ 0xED ∷ 0xA0 ∷ 0x80 ∷ 0xE2 ∷ 0x82 ∷ 0xAC ∷ 0xF0 ∷ 0x9F
    ∷ []

mixed-IsBytes : IsBytes mixed
mixed-IsBytes = ground arith

abbrev bytes_of : Option (Option Buffer) → List ℕ
bytes_of (some (some b)) = b.bytes
bytes_of _ = []

filtered :
    bytes_of (utf8 always 20 mixed)
    ≡ 0x61 ∷ 0xC3 ∷ 0xA9 ∷ b'?' ∷ b'?' ∷ b'?' ∷ 0xE2 ∷ 0x82 ∷ 0xAC ∷ b'?' ∷ []
unfolding utf8 buf_init utf8_loop buf_putchar make_room store validate_utf8 mb_num_chars is_legal
    mb_is_cont mb_is_shortest mb_is_surrogate mb_is_illegal buf_append
filtered = refl

scarce_memory : utf8 scarce 20 (0 ∷ 0 ∷ 0 ∷ mixed) ≡ some none
unfolding utf8 buf_init
scarce_memory = refl

buf_append-IsBuffer_example :
    (r : ℕ) × (c : Buffer) × (buf_append scarce three_left (0x63 ∷ 0x64 ∷ 0x65 ∷ []) ≡ some (r, c))
    × IsBuffer c
    × ((r ≡ 3) × (c.bytes ≡ 0x61 ∷ 0x62 ∷ 0x63 ∷ 0x64 ∷ 0x65 ∷ [])
        ⊎ (r ≡ 0) × (c.bytes ≡ 0x61 ∷ 0x62 ∷ []) × (scarce 10 ≡ false))
buf_append-IsBuffer_example =
    buf_append-IsBuffer scarce three_left three_left-IsBuffer (0x63 ∷ 0x64 ∷ 0x65 ∷ [])

utf8-IsText_example :
    (utf8 scarce 20 mixed ≡ some none) × (scarce 14 ≡ false)
    ⊎ (b : Buffer) × (utf8 scarce 20 mixed ≡ some (some b)) × IsText b.bytes
utf8-IsText_example = utf8-IsText scarce 20 mixed mixed-IsBytes (omega arith)

-- The euro sign, then "a".
abbrev euro : List ℕ
euro = 0xE2 ∷ 0x82 ∷ 0xAC ∷ 0x61 ∷ []

encode-a : 0x61 ∷ [] ≡ encode 0x61 ++ []
unfolding encode
encode-a = refl

encode-euro : euro ≡ encode 0x20AC ++ 0x61 ∷ []
unfolding encode
encode-euro = refl

euro-IsText : IsText euro
euro-IsText =
    IsText.point 0x20AC
      (record {
        pos = omega arith;
        bits = omega arith;
        no_surrogate = omega arith;
        legal = omega arith;
      })
      (IsText.point 0x61
        (record {
          pos = omega arith;
          bits = omega arith;
          no_surrogate = omega arith;
          legal = omega arith;
        })
        IsText.empty encode-a)
      encode-euro

utf8-copies_example : (b : Buffer) × (utf8 always 5 euro ≡ some (some b)) × (b.bytes ≡ euro)
utf8-copies_example = utf8-copies always (λ n. refl) 5 euro euro-IsText (omega arith)
