-- ===== src/Adkill/Strings.antt =====
-- The functions of packages/adkill/src/strcmd.c on hosts, domains and HTTP headers. A C string is the
-- list of its bytes without the closing zero, a pointer that may be NULL is an option, and
-- ADV_KILL_OK is true.
use openwrt_extra.Common.{
  ℕ, ◌+◌, ◌-◌, ltb, leb, ◌==◌, if◌then◌else◌, Bool, true, false, ◌&&◌, ◌||◌, Option, none, some,
  List, [], ◌∷◌, length, take, drop, ◌>>=◌,
}

-- The loop of `is_digit_host`.
unfoldable pub host_loop : List ℕ → Bool
host_loop [] = true
host_loop (c ∷ host) = let rest = host_loop host in if ltb c b'.' || ltb b'9' c then false else rest

unfoldable pub is_digit_host : Option (List ℕ) → Bool
unfolding host_loop
is_digit_host none = false
is_digit_host (some host) = host_loop host

abbrev pub is_digit : ℕ → Bool
is_digit c = leb b'0' c && leb c b'9'

-- The loop of `domain_contain_digits`, with tmpnum.
unfoldable pub digits_loop : ℕ → ℕ → List ℕ → Bool
digits_loop digitnum tmpnum [] = false
digits_loop digitnum tmpnum (c ∷ domain) =
    let counted = if is_digit c then tmpnum + 1 else 0 in
    let rest = digits_loop digitnum counted domain in if leb digitnum counted then true else rest

unfoldable pub domain_contain_digits : Option (List ℕ) → ℕ → Bool
unfolding digits_loop
domain_contain_digits none digitnum = false
domain_contain_digits (some domain) digitnum =
    if digitnum == 0 then false else digits_loop digitnum 0 domain

-- strstr: the text from the first occurrence on.
unfoldable pub starts_with : List ℕ → List ℕ → Bool
starts_with [] s = true
starts_with (c ∷ flag) [] = false
starts_with (c ∷ flag) (d ∷ s) = c == d && starts_with flag s

unfoldable pub strstr : List ℕ → List ℕ → Option (List ℕ)
unfolding starts_with
strstr [] flag = if length flag == 0 then some [] else none
strstr (c ∷ s) flag =
    let rest = strstr s flag in if starts_with flag (c ∷ s) then some (c ∷ s) else rest

-- The bytes before the carriage return.
unfoldable pub line_of : List ℕ → List ℕ
line_of [] = []
line_of (c ∷ s) = let rest = line_of s in if c == b'\r' then [] else c ∷ rest

-- The field's bytes; *realfieldlen is their number. The header ends where the string does, and
-- `maxfieldlen` is positive.
unfoldable pub get_http_field : List ℕ → List ℕ → ℕ → Option (List ℕ)
unfolding strstr line_of
get_http_field httpstr fieldflag maxfieldlen = do
  found ← strstr httpstr fieldflag
  let line = line_of (drop (length fieldflag) found) in
      if length line == 0
      then none
      else some (if ltb (maxfieldlen - 1) (length line) then take (maxfieldlen - 1) line else line)
