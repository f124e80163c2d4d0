-- ===== src/Bandwidth/Layout.antt =====
-- How the machine lays out an integer in memory, and reading from a file or a buffer that holds such integers.
use openwrt_extra.Common.{
  ℕ, zero, suc, ◌+◌, ◌*◌, ◌/◌, ◌%◌, ◌^◌, ◌<◌, ◌≡◌, refl, ap, ltb, if◌then◌else◌, false, Option,
  none, some, List, [], ◌∷◌, ◌++◌, length, take, drop, take-append, drop-append, length-append,
  ◌>>=◌, arith,
}
use native.Mathlib.Nat.{pow-suc, div-lt_iff_lt-mul}

-- The bytes of an integer of a width, and the integer that bytes are.
pub record Layout : Type 0 where
  pub bytes : ℕ → ℕ → List ℕ
  pub word : List ℕ → ℕ

pub record IsLayout (m : Layout) : Type 0 where
  pub length-bytes : (width v : ℕ) → length (m.bytes width v) ≡ width
  pub word-bytes : (width v : ℕ) → v < 256 ^ width → m.word (m.bytes width v) ≡ v

-- The lowest byte first.
abbrev pub little_bytes : ℕ → ℕ → List ℕ
little_bytes zero v = []
little_bytes (suc width) v = v % 256 ∷ little_bytes width (v / 256)

abbrev pub little_word : List ℕ → ℕ
little_word [] = 0
little_word (b ∷ bs) = b + 256 * little_word bs

abbrev pub little : Layout
little = record { bytes = little_bytes; word = little_word }

length-little_bytes : (width v : ℕ) → length (little_bytes width v) ≡ width
length-little_bytes zero v = refl
length-little_bytes (suc width) v = ap suc (length-little_bytes width (v / 256))

pub little_word-little_bytes :
    (width v : ℕ) → v < 256 ^ width → little_word (little_bytes width v) ≡ v
little_word-little_bytes zero v small = omega arith
little_word-little_bytes (suc width) v small =
    let fits : v / 256 < 256 ^ width =
      (div-lt_iff_lt-mul {k = 256} (omega arith)).1 (rw⁻¹ (pow-suc 256 width) small) in
    let ih = little_word-little_bytes width (v / 256) fits in omega arith

pub little-IsLayout : IsLayout little
little-IsLayout = record {
  length-bytes = length-little_bytes;
  word-bytes = little_word-little_bytes;
}

-- fread of one item; `none` is a read past the end.
unfoldable pub read_bytes : ℕ → List ℕ → Option (List ℕ × List ℕ)
read_bytes n file = if ltb (length file) n then none else some (take n file, drop n file)

module _ (m : Layout) where
  unfoldable pub read_word : ℕ → List ℕ → Option (ℕ × List ℕ)
  unfolding read_bytes
  read_word width file = read_bytes width file >>= λ (bytes, rest). some (m.word bytes, rest)

  pub read_word-bytes :
      IsLayout m
      → (width v : ℕ) (rest : List ℕ) → v < 256 ^ width
      → read_word width (m.bytes width v ++ rest) ≡ some (v, rest)
  unfolding read_word read_bytes
  read_word-bytes laws width v rest small =
      let bytes = m.bytes width v in
      let size = laws.length-bytes width v in
      let whole = length-append bytes rest in
      let enough : ltb (length (bytes ++ rest)) width ≡ false = ground arith in
      rw
        (
          enough,
          take-append width bytes rest size,
          drop-append width bytes rest size,
          laws.word-bytes width v small,
        )
        refl
