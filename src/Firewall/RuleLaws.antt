-- ===== src/Firewall/RuleLaws.antt =====
-- Where the rules of compute_rules go.
use openwrt_extra.Common.{
  ℕ, ◌≡◌, refl, ◌==◌, not, ◌&&◌, ◌||◌, if◌then◌else◌, Bool, true, false, Option, none, some, List,
  [], ◌∷◌, ◌++◌, length, All, All-append,
}
use openwrt_extra.StringUtil.Splitting.{dynamic_strcat}
use openwrt_extra.StringUtil.Strings.{to_uppercase}
use openwrt_extra.Firewall.Text.{Text, codes, same_text, cat}
use openwrt_extra.Firewall.Definitions.{Definition, Addresses}
use openwrt_extra.Firewall.Rules.{
  Computed, proto_rules, value_rules, connmark_part, compute_multi_rules, push_masks,
}
use openwrt_extra.Firewall.Matching.{
  tests_loop, match_dimension, address_tests, address_dimension, url_dimension, with_no_prefix,
  Dimension, url_values, named_values, address_values, run_dimension, run_dimensions,
}
use openwrt_extra.Firewall.Generate.{
  dimensions, rules_proto, Matches, compute_matches, single_dimension,
}
use openwrt_extra.Firewall.Commands.{
  main_mark_rule, url_mark_rule, target_rules, marked_rules, plain_rules, accept_rules, options_for,
  accepts_urls, prefix_of, compute_rules,
}

-- The rule begins with the prefix.
abbrev pub Begins : Text → Text → Type 0
Begins rule_prefix rule = (rest : Text) × (rule ≡ rule_prefix ++ rest)

module _ (rule_prefix : Text) where
  cat-Begins : (parts : List Text) → Begins rule_prefix (cat (rule_prefix ∷ parts))
  unfolding cat dynamic_strcat
  cat-Begins parts = (cat parts, refl)

  -- All of the rules begin with the prefix.
  record Sound (rules : List Text) : Type 0 where
    holds : All (Begins rule_prefix) rules

  none_Sound : Sound []
  none_Sound = record { holds = tt }

  one_Sound : (parts : List Text) → Sound (cat (rule_prefix ∷ parts) ∷ [])
  one_Sound parts = record { holds = (cat-Begins parts, tt) }

  two_Sound :
      (parts others : List Text)
      → Sound (cat (rule_prefix ∷ parts) ∷ cat (rule_prefix ∷ others) ∷ [])
  two_Sound parts others = record { holds = (cat-Begins parts, (cat-Begins others, tt)) }

  Sound-append : (xs ys : List Text) → Sound xs → Sound ys → Sound (xs ++ ys)
  Sound-append xs ys a b = record { holds = All-append (Begins rule_prefix) xs ys a.holds b.holds }

  Sound-if : (b : Bool) (xs ys : List Text) → Sound xs → Sound ys → Sound (if b then xs else ys)
  Sound-if true xs ys a b = a
  Sound-if false xs ys a b = b

  proto_rules-Sound :
      (proto : Text) (requires : Bool) (common : Text)
      → Sound (proto_rules rule_prefix proto requires common)
  unfolding proto_rules
  proto_rules-Sound proto requires common =
      Sound-if (same_text proto (codes "both")) _ _
        (Sound-if requires _ _ (two_Sound _ _) (one_Sound _)) (one_Sound _)

  value_rules-Sound :
      (prefix1 prefix2 connmark proto : Text) (requires quoted : Bool) (values : List Text)
      → Sound (value_rules rule_prefix prefix1 prefix2 connmark proto requires quoted values)
  unfolding value_rules
  value_rules-Sound p1 p2 connmark proto requires quoted [] = none_Sound
  value_rules-Sound p1 p2 connmark proto requires quoted (value ∷ values) =
      Sound-append _ _ (proto_rules-Sound proto requires _)
        (value_rules-Sound p1 p2 connmark proto requires quoted values)

  -- All rules so far begin with the prefix.
  record Good (c : Computed) : Type 0 where
    rules : Sound c.multi_rules

  made : (c : Computed) → Sound c.multi_rules → Good c
  made c ok = record { rules = ok }

  Good-if : (b : Bool) (c d : Computed) → Good c → Good d → Good (if b then c else d)
  Good-if true c d a b = a
  Good-if false c d a b = b

  Good-if_pair : (b : Bool) (c d : ℕ × Computed) → Good c.1 → Good d.1 → Good (if b then c else d).1
  Good-if_pair true c d a b = a
  Good-if_pair false c d a b = b

  compute_multi_rules-Good :
      (def : Option (List Text)) (c : Computed) (never_single : Bool) (prefix1 prefix2 : Text)
      (negated : Bool) (index : ℕ) (proto : Text) (requires quoted : Bool)
      → Good c
      → Good
          (compute_multi_rules def c never_single rule_prefix prefix1 prefix2 negated index proto
            requires quoted).1
  unfolding compute_multi_rules
  compute_multi_rules-Good none c single p1 p2 negated index proto requires quoted ok = ok
  compute_multi_rules-Good (some def) c single p1 p2 negated index proto requires quoted ok =
      Good-if_pair (length def == 1 && not single) _ _ (made _ ok.rules) (
        made _ (
          Sound-append _ _ ok.rules
            (value_rules-Sound p1 p2 (connmark_part negated index) proto requires quoted def)))

  tests_loop-Good :
      (multi negated : Bool) (proto : Text) (include quoted : Bool)
      (tests : List (List Text × Text × Text)) (c : Computed)
      → Good c
      → Good (tests_loop multi rule_prefix negated proto include quoted tests c)
  unfolding tests_loop
  tests_loop-Good multi negated proto include quoted [] c ok = ok
  tests_loop-Good multi negated proto include quoted ((values, p1, p2) ∷ tests) c ok =
      tests_loop-Good multi negated proto include quoted tests _ (
        Good-if (length values == 0) c _ ok (
          compute_multi_rules-Good (some values) c multi p1 p2 negated c.mask_byte_index proto
            include quoted ok))

  match_dimension-Good :
      (single : Bool) (p1 p2 proto : Text) (requires : Bool) (match_def : Option (List Text) × Bool)
      (c : Computed)
      → Good c
      → Good (match_dimension single rule_prefix p1 p2 proto requires match_def c)
  unfolding match_dimension push_masks
  match_dimension-Good single p1 p2 proto requires (def, negated) c ok =
      made _
        (compute_multi_rules-Good def c (single && negated) p1 p2 negated c.mask_byte_index proto
          requires false ok).rules

  address_dimension-Good :
      (proto : Text) (include : Bool) (tests : Addresses → List (List Text × Text × Text))
      (addrs not_addrs : Option Addresses) (c : Computed)
      → Good c
      → Good (address_dimension rule_prefix proto include tests addrs not_addrs c)
  unfolding address_dimension address_tests push_masks
  address_dimension-Good proto include tests none none c ok = ok
  address_dimension-Good proto include tests none (some not_addrs) c ok =
      made _ (tests_loop-Good _ true proto include false (tests not_addrs) c ok).rules
  address_dimension-Good proto include tests (some addrs) not_addrs c ok =
      made _ (tests_loop-Good _ false proto include false (tests addrs) c ok).rules

  url_dimension-Good :
      (proto : Text) (include negated multi : Bool) (urls : List (List Text × Text)) (c : Computed)
      → Good c
      → Good (url_dimension rule_prefix proto include negated multi urls c)
  unfolding url_dimension push_masks
  url_dimension-Good proto include negated multi urls c ok =
      made _ (tests_loop-Good multi negated proto include true (with_no_prefix urls) c ok).rules

  run_dimension-Good :
      (proto : Text) (include : Bool) (dimension : Dimension) (c : Computed)
      → Good c
      → Good (run_dimension rule_prefix proto include dimension c)
  unfolding run_dimension
  run_dimension-Good proto include (url_values negated multi urls) c ok =
      url_dimension-Good proto include negated multi urls c ok
  run_dimension-Good proto include (named_values single p1 p2 port values) c ok =
      match_dimension-Good single p1 p2 proto (port || include) values c ok
  run_dimension-Good proto include (address_values tests addrs not_addrs) c ok =
      address_dimension-Good proto include tests addrs not_addrs c ok

  run_dimensions-Good :
      (proto : Text) (include : Bool) (dims : List Dimension) (c : Computed)
      → Good c
      → Good (run_dimensions rule_prefix proto include dims c)
  unfolding run_dimensions
  run_dimensions-Good proto include [] c ok = ok
  run_dimensions-Good proto include (dimension ∷ dims) c ok =
      run_dimensions-Good proto include dims (run_dimension rule_prefix proto include dimension c)
        (run_dimension-Good proto include dimension c ok)

  compute_matches-Good :
      (def : Definition) (ingress : Bool) → Good (compute_matches def rule_prefix ingress).computed
  unfolding compute_matches
  compute_matches-Good def ingress =
      run_dimensions-Good (rules_proto def) _ (dimensions def ingress) _ (made _ none_Sound)

  single_dimension-Good :
      (matches : Matches) → Good matches.computed → Good (single_dimension rule_prefix matches)
  unfolding single_dimension
  single_dimension-Good matches ok =
      let c = matches.computed in
      Good-if (length c.single_check == 0) c _ ok (
        made _
          (compute_multi_rules-Good (some (c.single_check ∷ [])) c true (codes " ") [] false
            c.mask_byte_index matches.proto _ false ok).rules)

  main_mark_rule-Sound : (mark : ℕ) → Sound (main_mark_rule rule_prefix mark)
  unfolding main_mark_rule
  main_mark_rule-Sound mark = Sound-if (mark == 0) _ _ none_Sound (one_Sound _)

  url_mark_rule-Sound : (has_mark : Bool) → Sound (url_mark_rule rule_prefix has_mark)
  unfolding url_mark_rule
  url_mark_rule-Sound has_mark = Sound-if has_mark _ _ (one_Sound _) none_Sound

  target_rules-Sound :
      (target options proto final : Text)
      → Sound (target_rules rule_prefix target options proto final)
  unfolding target_rules
  target_rules-Sound target options proto final = Sound-if _ _ _ (two_Sound _ _) (one_Sound _)

  marked_rules-Sound :
      (target options : Text) (matches : Matches)
      → Good matches.computed
      → Sound (marked_rules rule_prefix target options matches)
  unfolding marked_rules
  marked_rules-Sound target options matches ok = Sound-append _ _ (main_mark_rule-Sound _) (
      Sound-append _ _ (url_mark_rule-Sound _) (
        Sound-append _ _ (single_dimension-Good matches ok).rules
          (Sound-append _ _ (target_rules-Sound target options matches.proto _) (one_Sound _))))

  plain_rules-Sound :
      (target options : Text) (matches : Matches)
      → Sound (plain_rules rule_prefix target options matches)
  unfolding plain_rules
  plain_rules-Sound target options matches =
      let rejects = same_text target (codes "REJECT") && same_text options [] in
      Sound-if (same_text matches.proto (codes "both")) _ _
        (Sound-if (not matches.has_port) _ _ (Sound-if rejects _ _ (two_Sound _ _) (one_Sound _))
          (Sound-if rejects _ _ (two_Sound _ _) (two_Sound _ _)))
        (one_Sound _)

  accept_rules-Sound : Sound (accept_rules rule_prefix)
  unfolding accept_rules
  accept_rules-Sound = record { holds = (cat-Begins _, (cat-Begins _, (cat-Begins _, tt))) }

compute_rules-Sound :
    (def : Definition) (table chain : Text) (ingress : Bool) (target options : Text)
    → Sound (prefix_of table chain) (compute_rules def table chain ingress target options)
unfolding compute_rules
compute_rules-Sound def table chain ingress target given_options =
    let prefix = prefix_of table chain in
    let matches = compute_matches def prefix ingress in
    let upper = to_uppercase target in
    let options = options_for matches.proto upper given_options in
    Sound-append prefix _ _
      (Sound-if prefix (length matches.computed.multi_rules == 0) _ _
        (plain_rules-Sound prefix upper options matches)
        (marked_rules-Sound prefix upper options matches (compute_matches-Good prefix def ingress)))
      (Sound-if prefix (accepts_urls matches upper ingress) _ _ (accept_rules-Sound prefix)
        (none_Sound prefix))

-- Every command of compute_rules adds to the given table and chain: it begins with "iptables -t", the table, "-A"
-- and the chain, for all options of the section, directions, targets and target options.
pub compute_rules-Begins :
    (def : Definition) (table chain : Text) (ingress : Bool) (target options : Text)
    → All (Begins (prefix_of table chain)) (compute_rules def table chain ingress target options)
compute_rules-Begins def table chain ingress target options =
    (compute_rules-Sound def table chain ingress target options).holds
