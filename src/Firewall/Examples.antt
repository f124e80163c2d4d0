-- ===== src/Firewall/Examples.antt =====
-- The theorems on make_iptables_rules.c at examples, and runs.
use openwrt_extra.Common.{
  ℕ, ◌+◌, ◌/◌, ◌<◌, ◌≤◌, ◌≡◌, refl, true, false, Option, none, some, List, [], ◌∷◌, length, All,
}
use openwrt_extra.Common.Fields.{fields}
use openwrt_extra.StringUtil.Strings.{to_lowercase, to_uppercase}
use openwrt_extra.StringUtil.Splitting.{is_separator}
use openwrt_extra.Firewall.Text.{Text, codes, cat, hex, occurs_in}
use openwrt_extra.Firewall.Quoted.{num_quotes, parse_quoted_list}
use openwrt_extra.Firewall.QuotedLaws.{
  quoted_list, parse_quoted_list-bound, parse_quoted_list-quoted_list,
}
use openwrt_extra.Firewall.Definitions.{Definition}
use openwrt_extra.Firewall.Options.{comma, parse_ports, get_rule_definition}
use openwrt_extra.Firewall.OptionLaws.{ArePorts, parse_ports-ArePorts}
use openwrt_extra.Firewall.Commands.{prefix_of, compute_rules}
use openwrt_extra.Firewall.RuleLaws.{Begins, compute_rules-Begins}

abbrev escaped : Text
escaped = codes "a\\\"b"

parse_quoted_list-bound_example :
    (strings : List Text) × (parse_quoted_list b'"' b'\\' (codes "x \"a\" \"b") true ≡ some strings)
    × (0 < length strings)
    × (length strings ≤ num_quotes b'"' b'\\' false (codes "x \"a\" \"b") / 2 + 1)
parse_quoted_list-bound_example = parse_quoted_list-bound b'"' b'\\' (codes "x \"a\" \"b") true

parse_quoted_list-quoted_list_example :
    parse_quoted_list b'"' b'\\' (quoted_list b'"' b'\\' (escaped ∷ codes "c" ∷ [])) false
    ≡ some (escaped ∷ codes "c" ∷ [])
parse_quoted_list-quoted_list_example =
    parse_quoted_list-quoted_list b'"' b'\\' refl refl refl escaped (codes "c" ∷ []) false
      ((refl, (refl, (refl, (refl, refl)))), ((refl, refl), tt))

abbrev port_str : Text
port_str = codes "80, 90-99"

parse_ports-ArePorts_example :
    (ports : List Text) × (parse_ports port_str ≡ some ports)
    × ArePorts (fields (is_separator comma) port_str) ports
parse_ports-ArePorts_example = parse_ports-ArePorts port_str

ports_test : parse_ports port_str ≡ some (codes "80" ∷ codes "90:99" ∷ [])
unfolding parse_ports is_separator
ports_test = refl

-- Stand-ins for sscanf: no hexadecimal number, and four numbers in every string.
abbrev no_hex : Text → Option ℕ
no_hex str = none

abbrev four : Text → ℕ
four str = 4

-- A section with two ports and a URL that is to be rejected.
abbrev options : List (Text × List Text)
options = (codes "proto", codes "TCP" ∷ []) ∷ (codes "remote_port", codes "80,443" ∷ []) ∷ []

abbrev definition : Definition
definition = elim (get_rule_definition no_hex four options []) [ none ↦ [] | some def ↦ def ]

compute_rules-Begins_example :
    All
      (Begins (prefix_of (codes "filter") (codes "out")))
      (compute_rules definition (codes "filter") (codes "out") false (codes "reject") [])
compute_rules-Begins_example =
    compute_rules-Begins definition (codes "filter") (codes "out") false (codes "reject") []

-- The two rules for the ports, one for the target, and the one that resets the mark.
rules_test :
    compute_rules definition (codes "t") (codes "c") false (codes "reject") []
    ≡ codes "iptables -t t -A c  -p tcp  --dport   80  -j CONNMARK --set-mark 0x10000000/0x10000000"
      ∷ codes
          "iptables -t t -A c  -p tcp  --dport   443  -j CONNMARK --set-mark 0x10000000/0x10000000"
      ∷ codes
          "iptables -t t -A c  -p tcp  -m connmark --mark 0x10000000/0xFF000000 -j REJECT --reject-with tcp-reset "
      ∷ codes "iptables -t t -A c  -j CONNMARK --set-mark 0x0/0xFF000000"
      ∷ []
unfolding compute_rules get_rule_definition to_lowercase to_uppercase is_separator cat hex occurs_in
rules_test = refl
