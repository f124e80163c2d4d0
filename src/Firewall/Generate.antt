-- ===== src/Firewall/Generate.antt =====
-- compute_rules of packages/gargoyle/gargoyle-firewall-util/src/make_iptables_rules.c up to the
-- marks: its dimensions, and what they come to.
use openwrt_extra.Common.{
  ℕ, ◌+◌, ltb, ◌==◌, not, ◌&&◌, ◌||◌, if◌then◌else◌, Bool, true, false, Option, none, some, List,
  [], ◌∷◌, ◌++◌, length,
}
use openwrt_extra.Firewall.Text.{Text, codes, same_text}
use openwrt_extra.Firewall.Definitions.{Definition, text_element, texts_element, addresses_element}
use openwrt_extra.Firewall.Rules.{Computed, compute_multi_rules}
use openwrt_extra.Firewall.Checks.{first_check, proto_of}
use openwrt_extra.Firewall.Matching.{
  Dimension, url_count, url_match_vars, run_dimensions, destination_tests, or_negated, source_tests,
  url_lists, url_values, named_values, address_values,
}

-- The matches on URLs: those that are not negated, if there are any, and else the negated ones.
pub record UrlMatches : Type 0 where
  pub urls : List (List Text × Text)
  pub is_negated : Bool

unfoldable pub url_matches : Definition → UrlMatches
unfolding url_lists url_count
url_matches def =
    let plain_urls = url_lists false def url_match_vars in
    if url_count plain_urls == 0
    then record { urls = url_lists true def url_match_vars; is_negated = true }
    else record { urls = plain_urls; is_negated = false }

-- The protocol of the rules.
unfoldable pub rules_proto : Definition → Text
unfolding proto_of url_matches url_count text_element
rules_proto def =
    if ltb 0 (url_count (url_matches def).urls)
    then codes "tcp"
    else proto_of (text_element (codes "proto") def)

-- The name of an option for a direction.
abbrev pub side : Bool → Text → Text → Text → Text
side is_ingress for_ingress for_egress name =
    (if is_ingress then for_ingress else for_egress) ++ name

-- The values under a name, or negated ones.
unfoldable pub named_match : Definition → Text → Option (List Text) × Bool
unfolding or_negated texts_element
named_match def name =
    or_negated (texts_element name def) (texts_element (codes "not_" ++ name) def)

abbrev pub source_side : Bool → Text → Text
source_side is_ingress name = side is_ingress (codes "remote") (codes "local") name

abbrev pub destination_side : Bool → Text → Text
destination_side is_ingress name = side is_ingress (codes "local") (codes "remote") name

-- The dimensions in their order.
unfoldable pub dimensions : Definition → Bool → List Dimension
unfolding url_count url_matches named_match addresses_element
dimensions def is_ingress =
    let matches = url_matches def in
    let source = source_side is_ingress (codes "_addr") in
    let destination = destination_side is_ingress (codes "_addr") in
    url_values matches.is_negated (ltb 1 (url_count matches.urls)) matches.urls
    ∷ named_values true (codes " -m mark ") (codes " --mark ") false
        (named_match def (codes "mark"))
    ∷ named_values false (codes " -m connmark ") (codes " --mark ") false
        (named_match def (codes "connmark"))
    ∷ address_values source_tests (addresses_element source def)
        (addresses_element (codes "not_" ++ source) def)
    ∷ address_values destination_tests (addresses_element destination def)
        (addresses_element (codes "not_" ++ destination) def)
    ∷ named_values false (codes " --sport ") [] true
        (named_match def (source_side is_ingress (codes "_port")))
    ∷ named_values false (codes " --dport ") [] true
        (named_match def (destination_side is_ingress (codes "_port")))
    ∷ []

-- What the matches come to: the rules, the protocol, whether a port is matched, the number of URLs, and whether
-- they are negated and have a mark.
pub record Matches : Type 0 where
  pub computed : Computed
  pub proto : Text
  pub has_port : Bool
  pub url_rule_count : ℕ
  pub url_is_negated : Bool
  pub url_is_multi : Bool

abbrev is_some {ℓ} : {A : Type ℓ} → Option A → Bool
is_some none = false
is_some (some a) = true

-- The part of compute_rules up to the ports.
unfoldable pub compute_matches : Definition → Text → Bool → Matches
unfolding first_check url_matches url_count proto_of rules_proto named_match dimensions
    run_dimensions text_element
compute_matches def rule_prefix is_ingress =
    let matches = url_matches def in
    let include_proto =
      not (same_text (proto_of (text_element (codes "proto") def)) (codes "both")) in
    record {
      computed =
          run_dimensions rule_prefix (rules_proto def) include_proto (dimensions def is_ingress)
            (record {
              multi_rules = [];
              single_check = first_check def;
              masks = [];
              mask_byte_index = 0;
            });
      proto = rules_proto def;
      has_port =
          is_some (named_match def (source_side is_ingress (codes "_port"))).0
          || is_some (named_match def (destination_side is_ingress (codes "_port"))).0;
      url_rule_count = url_count matches.urls;
      url_is_negated = matches.is_negated;
      url_is_multi = ltb 1 (url_count matches.urls);
    }

-- The single test as a dimension of its own, where there are rules with marks.
unfoldable pub single_dimension : Text → Matches → Computed
unfolding compute_multi_rules
single_dimension rule_prefix matches =
    let c = matches.computed in
    let requires_proto = not (same_text matches.proto (codes "both") && not matches.has_port) in
    let (parse_type, next) =
      compute_multi_rules (some (c.single_check ∷ [])) c true rule_prefix (codes " ") [] false
        c.mask_byte_index matches.proto requires_proto false in
    if length c.single_check == 0
    then c
    else record next { mask_byte_index = c.mask_byte_index + 1 }
