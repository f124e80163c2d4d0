-- ===== src/Firewall/Text.antt =====
-- What make_iptables_rules.c uses of strings. A C string is the list of its bytes without the closing zero.
use Prim.Native.Char.{code}
use Prim.Native.String.{String}
use openwrt_extra.Common.{
  ℕ, zero, suc, ◌+◌, ◌-◌, ◌/◌, ◌%◌, ltb, ◌==◌, ◌||◌, if◌then◌else◌, Bool, true, false, some, List,
  [], ◌∷◌, ◌++◌, map,
}
use openwrt_extra.StringUtil.Strings.{strcmp, negative, null, positive, begins_with}
use openwrt_extra.StringUtil.Splitting.{dynamic_strcat}

abbrev pub Text : Type 0
Text = List ℕ

-- The bytes of a literal.
abbrev pub codes : String → Text
codes String.[] = []
codes (String.◌∷◌ c s) = code c ∷ codes s

-- strcmp(a, b) == 0
unfoldable pub same_text : Text → Text → Bool
unfolding strcmp
same_text a b = elim (strcmp a b) [ negative ↦ false | null ↦ true | positive ↦ false ]

-- dynamic_strcat of strings that are not NULL.
unfoldable pub cat : List Text → Text
unfolding dynamic_strcat
cat parts = dynamic_strcat (map some parts)

-- strstr(text, part) != NULL
unfoldable pub occurs_in : Text → Text → Bool
unfolding begins_with
occurs_in part [] = begins_with part []
occurs_in part (c ∷ text) = begins_with part (c ∷ text) || occurs_in part text

-- %lX, of at most 16 digits.
unfoldable pub hex_loop : ℕ → ℕ → Text → Text
hex_loop zero n digits = digits
hex_loop (suc fuel) n digits =
    let digit = if ltb (n % 16) 10 then b'0' + n % 16 else b'A' - 10 + n % 16 in
    let more = hex_loop fuel (n / 16) (digit ∷ digits) in
    if n / 16 == 0 then digit ∷ digits else more

-- The format "0x%lX".
unfoldable pub hex : ℕ → Text
unfolding hex_loop
hex n = codes "0x" ++ hex_loop 16 n []
