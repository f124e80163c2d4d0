-- ===== src/Firewall/Options.antt =====
-- The options of a section in packages/gargoyle/gargoyle-firewall-util/src/make_iptables_rules.c. sscanf
-- is a parameter.
use openwrt_extra.Common.{
  ℕ, ◌+◌, ◌==◌, ◌&&◌, ◌||◌, if◌then◌else◌, Bool, true, false, Option, none, some, List, [], ◌∷◌,
  ◌++◌, map, length, take, bit_and, ◌>>=◌,
}
use openwrt_extra.StringUtil.Strings.{to_lowercase, trim_flanking_whitespace, begins_with}
use openwrt_extra.StringUtil.Splitting.{split_on_separators}
use openwrt_extra.Firewall.Text.{Text, codes, same_text, cat, hex}
use openwrt_extra.Firewall.Quoted.{parse_quoted_list}
use openwrt_extra.Firewall.Definitions.{
  Addresses, Value, set_map_element, Definition, texts_element, string, strings, parsed, missing,
}

abbrev pub comma : Text
comma = codes ","

-- strchr(str, c) != NULL
unfoldable pub has_char : ℕ → Text → Bool
has_char c [] = false
has_char c (d ∷ str) = d == c || has_char c str

-- Every dash is made a colon.
unfoldable pub colons : Text → Text
colons [] = []
colons (c ∷ port) = (if c == b'-' then b':' else c) ∷ colons port

unfoldable pub parse_ports : Text → Option (List Text)
unfolding split_on_separators trim_flanking_whitespace colons
parse_ports port_str = split_on_separators (some port_str) comma none false >>= λ ports.
    some (map (λ port. trim_flanking_whitespace (colons port)) ports)

-- The text up to a slash, with it.
unfoldable pub through_slash : Text → Text
through_slash [] = []
through_slash (c ∷ m) = if c == b'/' then c ∷ [] else c ∷ through_slash m

-- The text after the first slash.
unfoldable pub after_slash : Text → Text
after_slash [] = []
after_slash (c ∷ m) = if c == b'/' then m else after_slash m

-- The names of the other options.
abbrev pub text_names : List Text
text_names =
    codes "proto"
    ∷ codes "layer7"
    ∷ codes "ipp2p"
    ∷ codes "max_pkt_size"
    ∷ codes "min_pkt_size"
    ∷ []

abbrev pub time_names : List Text
time_names = codes "active_hours" ∷ codes "active_weekly_ranges" ∷ codes "active_weekdays" ∷ []

abbrev pub mark_names : List Text
mark_names = codes "mark" ∷ codes "connmark" ∷ codes "not_mark" ∷ codes "not_connmark" ∷ []

abbrev pub address_names : List Text
address_names =
    codes "remote_addr" ∷ codes "local_addr" ∷ codes "not_remote_addr" ∷ codes "not_local_addr" ∷ []

abbrev pub port_names : List Text
port_names =
    codes "remote_port" ∷ codes "local_port" ∷ codes "not_remote_port" ∷ codes "not_local_port" ∷ []

-- The first two pieces; `none` is a NULL for one of them.
abbrev pub two_pieces : List Text → Option (Text × Text)
two_pieces [] = none
two_pieces (start ∷ []) = none
two_pieces (start ∷ end ∷ rest) = some (start, end)

-- Whether the string starts with the prefix, to which it is then cut.
unfoldable pub truncate_if_starts_with : Text → Text → Bool × Text
unfolding begins_with
truncate_if_starts_with test_str prefix =
    if begins_with prefix test_str then (true, take (length prefix) test_str) else (false, test_str)

-- The names of the options with URLs, in the order in which they are tried.
abbrev pub url_names : List Text
url_names =
    codes "url_contains"
    ∷ codes "url_regex"
    ∷ codes "url_exact"
    ∷ codes "url_domain_contains"
    ∷ codes "url_domain_regex"
    ∷ codes "url_domain_exact"
    ∷ codes "not_url_contains"
    ∷ codes "not_url_regex"
    ∷ codes "not_url_exact"
    ∷ codes "not_url_domain_contains"
    ∷ codes "not_url_domain_regex"
    ∷ codes "not_url_domain_exact"
    ∷ []

-- The name that the option has after the calls of truncate_if_starts_with, if one of them matches.
unfoldable pub url_option : Text → List Text → Option Text
unfolding truncate_if_starts_with
url_option option_name [] = none
url_option option_name (prefix ∷ prefixes) =
    let (matches, truncated) = truncate_if_starts_with option_name prefix in
    let rest = url_option option_name prefixes in if matches then some truncated else rest

unfoldable pub one_of : Text → List Text → Bool
unfolding same_text
one_of name [] = false
one_of name (other ∷ others) = same_text name other || one_of name others

abbrev pub added_to : Option (List Text) → List Text → List Text
added_to none parsed_quoted = parsed_quoted
added_to (some old_parsed) parsed_quoted = old_parsed ++ parsed_quoted

-- The URLs of an option, added to those that are there.
unfoldable pub url_values : Text → Text → Definition → Option (Bool × Definition)
unfolding parse_quoted_list texts_element set_map_element
url_values name option_value definition =
    parse_quoted_list b'"' b'\\' option_value false >>= λ parsed_quoted.
    let urls = added_to (texts_element name definition) parsed_quoted in
    some (
      if length urls == 0
      then (false, definition)
      else (true, set_map_element name (strings urls) definition))

unfoldable pub with_urls : Option Text → Text → Definition → Option (Bool × Definition)
unfolding url_values
with_urls none option_value definition = some (false, definition)
with_urls (some name) option_value definition = url_values name option_value definition

-- The addresses of an option; it makes no sense to match a remote MAC address.
unfoldable pub with_addresses : Text → Option Addresses → Definition → Bool × Definition
unfolding one_of set_map_element
with_addresses option_name none definition = (false, definition)
with_addresses option_name (some lists) definition = (
  true,
  set_map_element option_name
      (parsed (
        if one_of option_name (codes "not_remote_addr" ∷ codes "remote_addr" ∷ [])
        then record lists { macs = [] }
        else lists))
      definition,
)

-- get_option_value_string: an option of UCI that is a string is here a list of one; `none` is NULL.
unfoldable pub get_option_value_string : Option Text → List Text → Option Text
get_option_value_string opt_str [] = opt_str
get_option_value_string none (name ∷ names) = get_option_value_string (some name) names
get_option_value_string (some opt_str) (name ∷ names) =
    get_option_value_string (some (cat (opt_str ∷ codes " " ∷ name ∷ []))) names

-- What sscanf reads as %lX, if anything; and how many numbers it reads as %d.%d.%d.%d.
module _ (scan_hex : Text → Option ℕ) (scan_ip : Text → ℕ) where
  -- What is put for a mark.
  unfoldable pub masked : ℕ → Text → Text
  unfolding has_char through_slash after_slash
  masked max_mask m =
      if max_mask == 0xFFFFFFFF
      then m
      else if has_char b'/' m
      then cat (
          through_slash m
          ∷ hex (
              bit_and (elim (scan_hex (after_slash m)) [ none ↦ 0xFFFFFFFF | some mask ↦ mask ])
                max_mask)
          ∷ [])
      else cat (m ∷ codes "/" ∷ hex max_mask ∷ [])

  -- NULL where there are no marks.
  unfoldable pub parse_marks : Text → ℕ → Option Value
  unfolding masked split_on_separators trim_flanking_whitespace
  parse_marks list_str max_mask = split_on_separators (some list_str) comma none false >>= λ marks.
      some (
        if length marks == 0
        then missing
        else strings (map (λ m. masked max_mask (trim_flanking_whitespace m)) marks))

  -- A part: pushed to one of the lists, or to none of them.
  unfoldable pub push_address : Text → Addresses → Option Addresses
  unfolding has_char split_on_separators trim_flanking_whitespace
  push_address next_str lists =
      let trimmed = trim_flanking_whitespace next_str in
      if has_char b':' next_str
      then some (
          if length trimmed == 17
          then record lists { macs = lists.macs ++ (trimmed ∷ []) }
          else lists)
      else if has_char b'-' next_str
      then (split_on_separators (some next_str) (codes "-") (some 2) true >>= λ range_parts.
          two_pieces range_parts >>= λ (start, end). some (
            if scan_ip (trim_flanking_whitespace start) == 4
              && scan_ip (trim_flanking_whitespace end) == 4
            then record lists { ip_ranges = lists.ip_ranges ++ (trimmed ∷ []) }
            else lists))
      else some (
          if scan_ip next_str == 4
          then record lists { ips = lists.ips ++ (trimmed ∷ []) }
          else lists)

  unfoldable pub push_addresses : List Text → Addresses → Option Addresses
  unfolding push_address
  push_addresses [] lists = some lists
  push_addresses (next_str ∷ rest) lists =
      push_address next_str lists >>= λ pushed. push_addresses rest pushed

  -- NULL where all lists are empty; `none` is a read through NULL.
  unfoldable pub parse_ips_and_macs : Text → Option (Option Addresses)
  unfolding push_addresses split_on_separators
  parse_ips_and_macs addr_str =
      split_on_separators (some addr_str) comma none false >>= λ addr_parts.
      push_addresses addr_parts (record { ips = []; ip_ranges = []; macs = [] }) >>= λ lists. some (
        if length lists.ips + length lists.ip_ranges + length lists.macs == 0
        then none
        else some lists)

  -- Whether the option is valid, and the definition with it.
  unfoldable pub parse_option : Text → Text → Definition → Option (Bool × Definition)
  unfolding one_of url_option with_urls with_addresses parse_ports parse_marks parse_ips_and_macs
      set_map_element
  parse_option option_name option_value definition =
      let lower = to_lowercase option_value in
      if one_of option_name text_names
      then some (true, set_map_element option_name (string option_value) definition)
      else if one_of option_name time_names
      then some (
          if same_text lower (codes "all")
          then (false, definition)
          else (true, set_map_element option_name (string lower) definition))
      else if one_of option_name mark_names
      then (parse_marks option_value 0xFFFFFFFF >>= λ marks.
          some (true, set_map_element option_name marks definition))
      else if one_of option_name address_names
      then (parse_ips_and_macs option_value >>= λ parsed_addr.
          some (with_addresses option_name parsed_addr definition))
      else if one_of option_name port_names
      then (parse_ports option_value >>= λ ports.
          some (true, set_map_element option_name (strings ports) definition))
      else with_urls (url_option option_name url_names) option_value definition

  -- The loop of get_rule_definition over the options of a section; an option with no value at all is a fault.
  unfoldable pub get_rule_definition : List (Text × List Text) → Definition → Option Definition
  unfolding parse_option get_option_value_string
  get_rule_definition [] definition = some definition
  get_rule_definition ((name, values) ∷ options) definition =
      get_option_value_string none values >>= λ option_value.
      parse_option (to_lowercase name) option_value definition >>= λ (valid, extended).
      get_rule_definition options extended
