-- ===== src/Adkill/Examples.antt =====
-- Runs of the string tests of the advertisement filter, and the theorem at an input.
use openwrt_extra.Common.{ℕ, ◌≡◌, refl, true, false, none, some, List, [], ◌∷◌}
use openwrt_extra.Adkill.Strings.{is_digit_host, domain_contain_digits, get_http_field, starts_with}

-- ad12b345
abbrev domain : List ℕ
domain = b'a' ∷ b'd' ∷ b'1' ∷ b'2' ∷ b'b' ∷ b'3' ∷ b'4' ∷ b'5' ∷ []

digits_test :
    (domain_contain_digits (some domain) 3 ≡ true) × (domain_contain_digits (some domain) 4 ≡ false)
unfolding domain_contain_digits
digits_test = (refl, refl)

-- A slash counts as part of an address.
is_digit_host_test :
    (is_digit_host (some (b'1' ∷ b'.' ∷ b'/' ∷ [])) ≡ true) × (is_digit_host (some domain) ≡ false)
unfolding is_digit_host
is_digit_host_test = (refl, refl)

-- "Host: ad" up to the end of the line, in a field of two bytes and the closing zero, and of one.
abbrev header : List ℕ
header = b'H' ∷ b':' ∷ b'a' ∷ b'd' ∷ b'\r' ∷ b'x' ∷ []

get_http_field_test :
    (get_http_field header (b'H' ∷ b':' ∷ []) 3 ≡ some (b'a' ∷ b'd' ∷ []))
    × (get_http_field header (b'H' ∷ b':' ∷ []) 2 ≡ some (b'a' ∷ []))
    × (get_http_field header (b'Z' ∷ []) 3 ≡ none)
unfolding get_http_field starts_with
get_http_field_test = (refl, refl, refl)
