-- ===== src/Lmo/MarkupSamples.antt =====
-- Runs of the escaping functions, and the theorems about them at concrete inputs.
use openwrt_extra.Common.{
  ℕ, ◌≡◌, ◌≢◌, refl, ◌⊎◌, Bool, true, false, ltb, Option, none, some, List, All, [], ◌∷◌, ◌++◌,
  arith,
}
use openwrt_extra.Lmo.Buffer.{Buffer, buf_init, buf_append, buf_putchar, make_room, store}
use openwrt_extra.Lmo.BufferLaws.{IsBuffer}
use openwrt_extra.Lmo.Text.{IsText}
use openwrt_extra.Lmo.Sequences.{IsBytes}
use openwrt_extra.Lmo.Utf8.{validate_utf8, mb_num_chars, is_legal, mb_is_cont, mb_is_shortest}
use openwrt_extra.Lmo.Markup.{pcdata, luastr_escape}
use openwrt_extra.Lmo.Pcdata.{pcdata-IsText}
use openwrt_extra.Lmo.LuaString.{lua_string, shown, luastr_escape-reads}

abbrev plenty : ℕ → Bool
plenty n = true

-- Memory for blocks below 8 bytes.
abbrev little : ℕ → Bool
little n = ltb n 8

-- a<b, a bell, an overlong zero.
abbrev tagged : List ℕ
tagged = 0x61 ∷ 0x3C ∷ 0x62 ∷ 0x07 ∷ 0xC0 ∷ 0x80 ∷ []

tagged-IsBytes : IsBytes tagged
tagged-IsBytes = ground arith

abbrev bytes_in : Option (Option Buffer) → List ℕ
bytes_in (some (some b)) = b.bytes
bytes_in _ = []

pcdata_test :
    bytes_in (pcdata plenty 7 tagged) ≡ b'a' ∷ b'&' ∷ b'#' ∷ b'6' ∷ b'0' ∷ b';' ∷ b'b' ∷ b'?' ∷ []
unfolding pcdata buf_init buf_append buf_putchar make_room store validate_utf8 mb_num_chars is_legal
    mb_is_cont mb_is_shortest
pcdata_test = refl

pcdata-IsText_example :
    (pcdata little 7 tagged ≡ some none) × (little 6 ≡ false)
    ⊎ (b : Buffer) × (pcdata little 7 tagged ≡ some (some b)) × IsText b.bytes
pcdata-IsText_example = pcdata-IsText little 7 tagged tagged-IsBytes (omega arith)

-- "<", a backslash, the end of a line.
abbrev quoted : List ℕ
quoted = b'"' ∷ b'<' ∷ b'"' ∷ b'\\' ∷ b'\n' ∷ []

abbrev empty_buffer : Buffer
empty_buffer = record { size = 8; fill = 0; bytes = [] }

empty_buffer-IsBuffer : IsBuffer empty_buffer
empty_buffer-IsBuffer = record { counted = refl; room = omega arith }

quoted-All : All (λ (c : ℕ). c ≢ 13) quoted
quoted-All = ground arith

shown_test :
    shown true quoted
    ≡ b'&' ∷ b'#' ∷ b'3' ∷ b'4' ∷ b';' ∷ b'&' ∷ b'#' ∷ b'6' ∷ b'0' ∷ b';' ∷ b'&' ∷ b'#' ∷ b'3'
      ∷ b'4' ∷ b';' ∷ b'\\' ∷ b'\n' ∷ []
unfolding shown
shown_test = refl

luastr_escape-reads_example :
    (d : Buffer) × (e : List ℕ) × (luastr_escape plenty true empty_buffer quoted ≡ some d)
    × (d.bytes ≡ e)
    × ((rest : List ℕ) → lua_string false (e ++ b'"' ∷ rest) ≡ some (shown true quoted, rest))
luastr_escape-reads_example =
    luastr_escape-reads plenty (λ n. refl) true quoted empty_buffer empty_buffer-IsBuffer quoted-All
