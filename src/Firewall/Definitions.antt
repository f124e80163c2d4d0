-- ===== src/Firewall/Definitions.antt =====
-- What is known of a section in packages/gargoyle/gargoyle-firewall-util/src/make_iptables_rules.c.
-- The string_map of the options is an association list here; a value of another type than the one that
-- parse_option stores under a name reads as none.
use openwrt_extra.Common.{if◌then◌else◌, Option, none, some, List, [], ◌∷◌, ◌>>=◌}
use openwrt_extra.Firewall.Text.{Text, same_text}

-- The lists that parse_ips_and_macs returns, in the order of MATCH_IP_INDEX and the others.
pub record Addresses : Type 0 where
  pub ips : List Text
  pub ip_ranges : List Text
  pub macs : List Text

pub data Value : Type 0 where
  string : Text → Value
  strings : List Text → Value
  parsed : Addresses → Value
  -- NULL
  missing : Value

abbrev pub Definition : Type 0
Definition = List (Text × Value)

unfoldable pub get_map_element : Text → Definition → Option Value
unfolding same_text
get_map_element name [] = none
get_map_element name ((key, value) ∷ definition) =
    let rest = get_map_element name definition in if same_text key name then some value else rest

unfoldable pub set_map_element : Text → Value → Definition → Definition
unfolding same_text
set_map_element name value [] = (name, value) ∷ []
set_map_element name value ((key, old) ∷ definition) =
    let rest = set_map_element name value definition in
    if same_text key name then (key, value) ∷ definition else (key, old) ∷ rest

-- A value as text, as a list of strings, and as addresses.
unfoldable pub text_element : Text → Definition → Option Text
unfolding get_map_element
text_element name definition = get_map_element name definition >>= λ value. elim value [
  | string t ↦ some t
  | strings _ ↦ none
  | parsed _ ↦ none
  | missing ↦ none
]

unfoldable pub texts_element : Text → Definition → Option (List Text)
unfolding get_map_element
texts_element name definition = get_map_element name definition >>= λ value. elim value [
  | string _ ↦ none
  | strings ts ↦ some ts
  | parsed _ ↦ none
  | missing ↦ none
]

unfoldable pub addresses_element : Text → Definition → Option Addresses
unfolding get_map_element
addresses_element name definition = get_map_element name definition >>= λ value. elim value [
  | string _ ↦ none
  | strings _ ↦ none
  | parsed a ↦ some a
  | missing ↦ none
]
