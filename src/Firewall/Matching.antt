-- ===== src/Firewall/Matching.antt =====
-- The blocks of compute_rules in packages/gargoyle/gargoyle-firewall-util/src/make_iptables_rules.c
-- that add the rules of a dimension.
use openwrt_extra.Common.{
  ℕ, ◌+◌, ltb, ◌==◌, ◌&&◌, ◌||◌, if◌then◌else◌, Bool, true, false, Option, none, some, List, [],
  ◌∷◌, ◌++◌, length,
}
use openwrt_extra.Firewall.Text.{Text, codes}
use openwrt_extra.Firewall.Definitions.{Definition, Addresses, texts_element}
use openwrt_extra.Firewall.Rules.{Computed, compute_multi_rules, push_masks}

-- The matches on URLs: the name of an option and the test of its rules.
abbrev pub url_match_vars : List (Text × Text)
url_match_vars =
    (codes "url_contains", codes " -m weburl --contains ")
    ∷ (codes "url_regex", codes " -m weburl --contains_regex ")
    ∷ (codes "url_exact", codes " -m weburl --matches_exactly ")
    ∷ (codes "url_domain_contains", codes " -m weburl --domain_only --contains ")
    ∷ (codes "url_domain_regex", codes " -m weburl --domain_only --contains_regex ")
    ∷ (codes "url_domain_exact", codes " -m weburl --domain_only --matches_exactly ")
    ∷ []

unfoldable pub url_lists : Bool → Definition → List (Text × Text) → List (List Text × Text)
unfolding texts_element
url_lists url_is_negated def [] = []
url_lists url_is_negated def ((name, prefix) ∷ vars) =
    (
      elim (texts_element (if url_is_negated then codes "not_" ++ name else name) def) [
        | none ↦ []
        | some url_list ↦ url_list
      ],
      prefix,
    )
    ∷ url_lists url_is_negated def vars

unfoldable pub url_count : List (List Text × Text) → ℕ
url_count [] = 0
url_count ((url_list, prefix) ∷ lists) = length url_list + url_count lists

-- The loop over tests with values for one dimension; a test without values is passed over.
unfoldable pub tests_loop :
    Bool → Text → Bool → Text → Bool → Bool → List (List Text × Text × Text) → Computed → Computed
unfolding compute_multi_rules
tests_loop is_multi rule_prefix is_negated proto requires_proto quoted_args [] c = c
tests_loop is_multi rule_prefix is_negated proto requires_proto quoted_args
      ((values, prefix1, prefix2) ∷ tests) c =
    let (parse_type, next) =
      compute_multi_rules (some values) c is_multi rule_prefix prefix1 prefix2 is_negated
        c.mask_byte_index proto requires_proto quoted_args in
    tests_loop is_multi rule_prefix is_negated proto requires_proto quoted_args tests
      (if length values == 0 then c else next)

unfoldable pub with_no_prefix : List (List Text × Text) → List (List Text × Text × Text)
with_no_prefix [] = []
with_no_prefix ((values, prefix) ∷ lists) = (values, prefix, []) ∷ with_no_prefix lists

-- A match under a name or, negated, under another one: its values, and whether it is negated.
unfoldable pub or_negated : Option (List Text) → Option (List Text) → Option (List Text) × Bool
or_negated (some def) not_def = (some def, false)
or_negated none (some not_def) = (some not_def, true)
or_negated none none = (none, false)

-- A dimension of one match: `negated_is_multi` where a negated match is never a part of the single test.
unfoldable pub match_dimension :
    Bool → Text → Text → Text → Text → Bool → Option (List Text) × Bool → Computed → Computed
unfolding compute_multi_rules push_masks
match_dimension negated_is_multi rule_prefix test_prefix1 test_prefix2 proto requires_proto
      (def, is_negated) c =
    let (parse_type, next) =
      compute_multi_rules def c (negated_is_multi && is_negated) rule_prefix test_prefix1
        test_prefix2 is_negated c.mask_byte_index proto requires_proto false in
    push_masks is_negated (parse_type == 2) next

-- The lists of addresses with their tests: ips, ranges, and MAC addresses where there is a test for them.
abbrev pub source_tests : Addresses → List (List Text × Text × Text)
source_tests addrs =
    (addrs.ips, codes " -s ", [])
    ∷ (addrs.ip_ranges, codes " -m iprange ", codes " --src-range ")
    ∷ (addrs.macs, codes " -m mac --mac-source ", [])
    ∷ []

abbrev pub destination_tests : Addresses → List (List Text × Text × Text)
destination_tests addrs =
    (addrs.ips, codes " -d", [])
    ∷ (addrs.ip_ranges, codes "-m iprange ", codes " --dst-range ")
    ∷ []

unfoldable pub total_rules : List (List Text × Text × Text) → ℕ
total_rules [] = 0
total_rules ((values, prefix1, prefix2) ∷ tests) = length values + total_rules tests

-- A dimension of addresses.
unfoldable pub address_tests :
    Text → Text → Bool → Bool → List (List Text × Text × Text) → Computed → Computed
unfolding tests_loop push_masks total_rules
address_tests rule_prefix proto include_proto is_negated tests c =
    let is_multi = ltb 1 (total_rules tests) in
    push_masks is_negated is_multi
      (tests_loop is_multi rule_prefix is_negated proto include_proto false tests c)

unfoldable pub address_dimension :
    Text
    → Text
    → Bool
    → (Addresses → List (List Text × Text × Text))
    → Option Addresses
    → Option Addresses
    → Computed
    → Computed
unfolding address_tests
address_dimension rule_prefix proto include_proto tests none none c = c
address_dimension rule_prefix proto include_proto tests none (some not_addrs) c =
    address_tests rule_prefix proto include_proto true (tests not_addrs) c
address_dimension rule_prefix proto include_proto tests (some addrs) not_addrs c =
    address_tests rule_prefix proto include_proto false (tests addrs) c

-- The dimension of the URLs.
unfoldable pub url_dimension :
    Text → Text → Bool → Bool → Bool → List (List Text × Text) → Computed → Computed
unfolding tests_loop with_no_prefix push_masks
url_dimension rule_prefix proto include_proto is_negated is_multi urls c =
    push_masks is_negated is_multi
      (tests_loop is_multi rule_prefix is_negated proto include_proto true (with_no_prefix urls) c)

-- A dimension: of URLs, of the values under a name, which may need a protocol, or of addresses.
pub data Dimension : Type 0 where
  url_values : (is_negated is_multi : Bool) (urls : List (List Text × Text)) → Dimension
  named_values :
      (negated_is_multi : Bool) (test_prefix1 test_prefix2 : Text) (port : Bool)
      (values : Option (List Text) × Bool)
      → Dimension
  address_values :
      (tests : Addresses → List (List Text × Text × Text)) (addrs not_addrs : Option Addresses)
      → Dimension

unfoldable pub run_dimension : Text → Text → Bool → Dimension → Computed → Computed
unfolding url_dimension match_dimension address_dimension
run_dimension rule_prefix proto include_proto (url_values is_negated is_multi urls) c =
    url_dimension rule_prefix proto include_proto is_negated is_multi urls c
run_dimension rule_prefix proto include_proto
      (named_values negated_is_multi test_prefix1 test_prefix2 port values) c =
    match_dimension negated_is_multi rule_prefix test_prefix1 test_prefix2 proto
      (port || include_proto) values c
run_dimension rule_prefix proto include_proto (address_values tests addrs not_addrs) c =
    address_dimension rule_prefix proto include_proto tests addrs not_addrs c

-- One dimension after another.
unfoldable pub run_dimensions : Text → Text → Bool → List Dimension → Computed → Computed
unfolding run_dimension
run_dimensions rule_prefix proto include_proto [] c = c
run_dimensions rule_prefix proto include_proto (dimension ∷ rest) c =
    run_dimensions rule_prefix proto include_proto rest
      (run_dimension rule_prefix proto include_proto dimension c)
