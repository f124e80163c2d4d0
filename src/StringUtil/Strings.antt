-- ===== src/StringUtil/Strings.antt =====
-- The functions of packages/gargoyle/libericstools/src/string_util.c on single strings. A C string is
-- the list of its bytes without the closing zero; `none` is NULL, except where a function says else.
use openwrt_extra.Common.{
  ℕ, zero, suc, ◌+◌, ◌-◌, ltb, leb, ◌==◌, if◌then◌else◌, Bool, true, false, ◌&&◌, ◌||◌, Option,
  none, some, List, [], ◌∷◌, ◌++◌, length, take, drop,
}

-- strstr(s, prefix) == s
unfoldable pub begins_with : List ℕ → List ℕ → Bool
begins_with [] s = true
begins_with (c ∷ prefix) [] = false
begins_with (c ∷ prefix) (d ∷ s) = c == d && begins_with prefix s

unfoldable pub replace_prefix :
    Option (List ℕ) → Option (List ℕ) → Option (List ℕ) → Option (List ℕ)
unfolding begins_with
replace_prefix (some original) (some old_prefix) (some new_prefix) =
    if begins_with old_prefix original
    then some (new_prefix ++ drop (length old_prefix) original)
    else none
replace_prefix _ _ _ = none

abbrev pub is_whitespace : ℕ → Bool
is_whitespace c = c == b' ' || (c == b'\t' || (c == b'\n' || c == b'\r'))

-- new_start
unfoldable pub leading : List ℕ → ℕ
leading [] = 0
leading (c ∷ str) = let rest = leading str in if is_whitespace c then suc rest else 0

-- A test of str[index].
abbrev pub at_index : (ℕ → Bool) → List ℕ → ℕ → Bool
at_index p [] index = false
at_index p (c ∷ str) zero = p c
at_index p (c ∷ str) (suc index) = at_index p str index

-- The loop from the end; it counts index + 1.
unfoldable pub trailing : List ℕ → ℕ → ℕ → ℕ
trailing str new_start zero = zero
trailing str new_start (suc index) =
    let rest = trailing str new_start index in
    if leb new_start index && at_index is_whitespace str index then rest else suc index

unfoldable pub new_length : List ℕ → ℕ
unfolding leading trailing
new_length str =
    if length str == leading str then 0 else trailing str (leading str) (length str) - leading str

unfoldable pub trim_flanking_whitespace : List ℕ → List ℕ
unfolding leading new_length
trim_flanking_whitespace str = take (new_length str) (drop (leading str) str)

-- strcmp, of which the callers use the sign.
pub data Sign : Type 0 where
  negative null positive : Sign

unfoldable pub strcmp : List ℕ → List ℕ → Sign
strcmp [] [] = null
strcmp [] (d ∷ b) = negative
strcmp (c ∷ a) [] = positive
strcmp (c ∷ a) (d ∷ b) =
    let rest = strcmp a b in if ltb c d then negative else if ltb d c then positive else rest

unfoldable pub safe_strcmp : Option (List ℕ) → Option (List ℕ) → Sign
unfolding strcmp
safe_strcmp none none = null
safe_strcmp none (some str2) = positive
safe_strcmp (some str1) none = negative
safe_strcmp (some str1) (some str2) = strcmp str1 str2

-- tolower and toupper of the C locale.
abbrev pub tolower : ℕ → ℕ
tolower c = if leb b'A' c && leb c b'Z' then c + 32 else c

abbrev pub toupper : ℕ → ℕ
toupper c = if leb b'a' c && leb c b'z' then c - 32 else c

unfoldable pub to_lowercase : List ℕ → List ℕ
to_lowercase [] = []
to_lowercase (c ∷ str) = tolower c ∷ to_lowercase str

unfoldable pub to_uppercase : List ℕ → List ℕ
to_uppercase [] = []
to_uppercase (c ∷ str) = toupper c ∷ to_uppercase str
