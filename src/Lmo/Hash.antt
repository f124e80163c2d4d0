-- ===== src/Lmo/Hash.antt =====
-- The hash of a translation's key in luci/libs/lmo/src/template_lmo.c: sfh_hash over the key with its
-- blanks reduced. A string with its length is the list of its bytes; char is signed, and isspace is
-- that of the C locale.
use Prim.Native.Nat.{bit_xor}
use openwrt_extra.Common.{
  ℕ, ◌+◌, ◌-◌, ◌*◌, ◌/◌, ◌%◌, ◌^◌, ltb, leb, ◌==◌, if◌then◌else◌, Bool, ◌&&◌, ◌||◌, Option, none,
  some, List, [], ◌∷◌, length, ◌>>=◌,
}
use openwrt_extra.Lmo.Catalog.{uint_bound, Archive, Text, translate_hash}

-- A char in an expression of unsigned arithmetic.
abbrev pub char_value : ℕ → ℕ
char_value c = if ltb c 128 then c else c + uint_bound - 256

abbrev pub sfh_get16 : ℕ → ℕ → ℕ
sfh_get16 d0 d1 = d1 * 2 ^ 8 + d0

-- hash << k
abbrev pub shl : ℕ → ℕ → ℕ
shl x k = x * 2 ^ k % uint_bound

-- hash ^= hash << k
abbrev pub xor_shl : ℕ → ℕ → ℕ
xor_shl k hash = bit_xor hash (shl hash k)

-- hash += hash >> k
abbrev pub add_shr : ℕ → ℕ → ℕ
add_shr k hash = (hash + hash / 2 ^ k) % uint_bound

-- The body of the main loop.
unfoldable pub sfh_round : ℕ → ℕ → ℕ → ℕ → ℕ → ℕ
sfh_round hash d0 d1 d2 d3 =
    let first = (hash + sfh_get16 d0 d1) % uint_bound in
    let tmp = bit_xor (shl (sfh_get16 d2 d3) 11) first in add_shr 11 (bit_xor (shl first 16) tmp)

-- The switch over the 1 to 3 bytes that are left.
unfoldable pub sfh_end : ℕ → List ℕ → ℕ
sfh_end hash (d0 ∷ d1 ∷ d2 ∷ _) =
    add_shr 11
      (bit_xor (xor_shl 16 ((hash + sfh_get16 d0 d1) % uint_bound)) (shl (char_value d2) 18))
sfh_end hash (d0 ∷ d1 ∷ []) = add_shr 17 (xor_shl 11 ((hash + sfh_get16 d0 d1) % uint_bound))
sfh_end hash (d0 ∷ []) = add_shr 1 (xor_shl 10 ((hash + char_value d0) % uint_bound))
sfh_end hash [] = hash

-- The main loop and the end cases.
unfoldable pub sfh_loop : ℕ → List ℕ → ℕ
unfolding sfh_round sfh_end
sfh_loop hash (d0 ∷ d1 ∷ d2 ∷ d3 ∷ data_left) = sfh_loop (sfh_round hash d0 d1 d2 d3) data_left
sfh_loop hash data_left = sfh_end hash data_left

unfoldable pub avalanche : ℕ → ℕ
avalanche hash = add_shr 6 (xor_shl 25 (add_shr 17 (xor_shl 4 (add_shr 5 (xor_shl 3 hash)))))

unfoldable pub sfh_hash : List ℕ → ℕ
unfolding sfh_loop avalanche
sfh_hash bytes =
    if length bytes == 0 then 0 else avalanche (sfh_loop (length bytes % uint_bound) bytes)

unfoldable pub isspace : ℕ → Bool
isspace c = c == 32 || leb 9 c && leb c 13

-- What the loop of `lmo_canon_hash` writes to `res` from here on.
unfoldable pub canon_loop : ℕ → List ℕ → List ℕ
canon_loop prev [] = []
canon_loop prev (c ∷ str) =
    let written = canon_loop c str in
    if isspace c then (if isspace prev then written else 32 ∷ written) else c ∷ written

-- A blank at the end is taken off.
unfoldable pub cut_blank : List ℕ → List ℕ
cut_blank [] = []
cut_blank (c ∷ []) = if isspace c then [] else c ∷ []
cut_blank (c ∷ d ∷ res) = c ∷ cut_blank (d ∷ res)

-- `none` is a NULL string.
unfoldable pub lmo_canon_hash : Option (List ℕ) → ℕ
unfolding cut_blank canon_loop sfh_hash
lmo_canon_hash none = 0
lmo_canon_hash (some str) =
    if leb 4096 (length str) then 0 else sfh_hash (cut_blank (canon_loop 32 str))

-- The return value -2, -1 or 0, the last with the text. The active catalog is the list of its
-- archives, or NULL.
pub data Result : Type 0 where
  no_catalog not_found : Result
  translated : (text : Text) → Result

abbrev pub result_of : Option Text → Result
result_of none = not_found
result_of (some text) = translated text

unfoldable pub lmo_translate : ℕ → Option (List Archive) → Option (List ℕ) → Option Result
unfolding lmo_canon_hash
lmo_translate fuel (some archives) (some key) =
    translate_hash fuel archives (lmo_canon_hash (some key)) >>= λ r. some (result_of r)
lmo_translate fuel _ _ = some no_catalog
