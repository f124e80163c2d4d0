-- ===== src/Lmo/Markup.antt =====
-- The escaping of luci/libs/lmo/src/template_utils.c: pcdata and luastr_escape. A pointer with the
-- number of bytes left is the list of those bytes; `none` is a read or a write outside, or the end of
-- the fuel.
use openwrt_extra.Common.{
  ℕ, zero, suc, ◌+◌, ◌/◌, ◌%◌, leb, ◌==◌, if◌then◌else◌, Bool, true, false, ◌&&◌, ◌||◌, Option,
  none, some, List, [], ◌∷◌, length, ◌>>=◌,
}
use openwrt_extra.Lmo.Buffer.{Buffer, buf_init, buf_putchar, buf_append}
use openwrt_extra.Lmo.Utf8.{validate_utf8}

-- The invalid XML bytes.
abbrev pub is_dropped : ℕ → Bool
is_dropped c = leb c 0x08 || (leb 0x0B c && leb c 0x0C || (leb 0x0E c && leb c 0x1F || c == 0x7F))

abbrev pub is_escaped : ℕ → Bool
is_escaped c = c == 0x26 || (c == 0x27 || (c == 0x22 || (c == 0x3C || c == 0x3E)))

-- snprintf with "&#%i;" for one of these five bytes, which have two decimal digits.
abbrev pub entity : ℕ → List ℕ
entity c = b'&' ∷ b'#' ∷ (b'0' + c / 10) ∷ (b'0' + c % 10) ∷ b';' ∷ []

module _ (alloc : ℕ → Bool) where
  unfoldable pub pcdata_loop : ℕ → List ℕ → Buffer → Option Buffer
  pcdata_loop zero s buf = none
  pcdata_loop (suc fuel) [] buf = some buf
  pcdata_loop (suc fuel) (c ∷ rest) buf = elim (is_dropped c) [
    | true ↦ pcdata_loop fuel rest buf
    | false ↦ elim (is_escaped c) [
      | true ↦ buf_append alloc buf (entity c) >>= λ w. elim (w.0 == 0) [
        | true ↦ some w.1
        | false ↦ pcdata_loop fuel rest w.1
      ]
      | false ↦ elim (leb c 0x7F) [
        | true ↦ buf_putchar alloc buf c >>= λ w. pcdata_loop fuel rest w.1
        | false ↦ validate_utf8 alloc (c ∷ rest) buf >>= λ w. elim (w.0 == 0) [
          | true ↦ some w.2
          | false ↦ pcdata_loop fuel w.1 w.2
        ]
      ]
    ]
  ]

  -- The outer option is the NULL that is returned where the buffer cannot be allocated.
  unfoldable pub pcdata : ℕ → List ℕ → Option (Option Buffer)
  unfolding pcdata_loop
  pcdata fuel s = elim (buf_init alloc (length s)) [
    | none ↦ some none
    | some buf ↦ pcdata_loop fuel s buf >>= λ b. some (some b)
  ]

  -- The switch over a byte: what is appended for it. A failed write is not noticed.
  unfoldable pub luastr_byte : Bool → Buffer → ℕ → Option (ℕ × Buffer)
  luastr_byte escape_xml out c =
      if c == b'\\'
      then buf_append alloc out (b'\\' ∷ b'\\' ∷ [])
      else if c == b'"'
      then (if escape_xml
          then buf_append alloc out (entity b'"')
          else buf_append alloc out (b'\\' ∷ b'"' ∷ []))
      else if c == b'\n'
      then buf_append alloc out (b'\\' ∷ b'n' ∷ [])
      else if is_escaped c && escape_xml
      then buf_append alloc out (entity c)
      else buf_putchar alloc out c

  unfoldable pub luastr_escape : Bool → Buffer → List ℕ → Option Buffer
  unfolding luastr_byte
  luastr_escape escape_xml out [] = some out
  luastr_escape escape_xml out (c ∷ s) =
      luastr_byte escape_xml out c >>= λ w. luastr_escape escape_xml w.1 s
