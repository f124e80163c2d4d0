-- ===== src/Firewall/Commands.antt =====
-- compute_rules of packages/gargoyle/gargoyle-firewall-util/src/make_iptables_rules.c from the
-- marks on.
use openwrt_extra.Common.{ℕ, ltb, ◌==◌, not, ◌&&◌, if◌then◌else◌, Bool, List, [], ◌∷◌, ◌++◌, length}
use openwrt_extra.StringUtil.Strings.{to_uppercase}
use openwrt_extra.Firewall.Text.{Text, codes, same_text, cat, occurs_in, hex}
use openwrt_extra.Firewall.Definitions.{Definition}
use openwrt_extra.Firewall.Rules.{mask_loop}
use openwrt_extra.Firewall.Generate.{single_dimension, compute_matches, Matches}

-- The rule that sets the marks to begin with, where there are any, and the one for the mark of the URLs.
unfoldable pub main_mark_rule : Text → ℕ → List Text
main_mark_rule rule_prefix initial_main_mark =
    if initial_main_mark == 0
    then []
    else cat (
        rule_prefix
        ∷ codes " -j CONNMARK --set-mark "
        ∷ hex initial_main_mark
        ∷ codes "/0xFF000000"
        ∷ [])
      ∷ []

unfoldable pub url_mark_rule : Text → Bool → List Text
url_mark_rule rule_prefix has_mark =
    let mark = hex 0x01000000 in
    if has_mark
    then cat (
        rule_prefix
        ∷ codes " -p tcp  -m weburl --contains http -j CONNMARK --set-mark "
        ∷ mark
        ∷ codes "/"
        ∷ mark
        ∷ [])
      ∷ []
    else []

-- The rules for the target, where the mark is the one to match.
unfoldable pub target_rules : Text → Text → Text → Text → Text → List Text
target_rules rule_prefix target target_options proto final_match_str =
    if same_text target (codes "REJECT")
      && (same_text target_options [] && not (same_text proto (codes "both")))
    then cat (
        rule_prefix
        ∷ codes " -p tcp -m connmark --mark "
        ∷ final_match_str
        ∷ codes "/0xFF000000 -j REJECT --reject-with tcp-reset"
        ∷ [])
      ∷ cat (
          rule_prefix
          ∷ codes " -m connmark --mark "
          ∷ final_match_str
          ∷ codes "/0xFF000000 -j REJECT"
          ∷ [])
      ∷ []
    else cat (
        rule_prefix
        ∷ (if occurs_in (codes "tcp-reset") target_options then codes " -p tcp " else [])
        ∷ codes " -m connmark --mark "
        ∷ final_match_str
        ∷ codes "/0xFF000000 -j "
        ∷ target
        ∷ target_options
        ∷ [])
      ∷ []

-- The rules where a dimension has a mark: the marks to begin with, the rules that set them, the rules for the
-- target, and the rule that resets the mark.
unfoldable pub marked_rules : Text → Text → Text → Matches → List Text
unfolding single_dimension mask_loop main_mark_rule url_mark_rule target_rules
marked_rules rule_prefix target target_options matches =
    let c = single_dimension rule_prefix matches in
    let (final_match, initial_main_mark) = mask_loop c.mask_byte_index 0 c.masks in
    main_mark_rule rule_prefix initial_main_mark
    ++ (url_mark_rule rule_prefix (matches.url_is_negated && matches.url_is_multi)
        ++ (c.multi_rules
            ++ (target_rules rule_prefix target target_options matches.proto (hex final_match)
                ++ (cat (rule_prefix ∷ codes " -j CONNMARK --set-mark 0x0/0xFF000000" ∷ []) ∷ []))))

-- The rules where no dimension has a mark.
unfoldable pub plain_rules : Text → Text → Text → Matches → List Text
plain_rules rule_prefix target target_options matches =
    let proto = matches.proto in
    let single_check = matches.computed.single_check in
    let rejects = same_text target (codes "REJECT") && same_text target_options [] in
    let reset_rule = cat (
      rule_prefix
      ∷ codes " -p tcp "
      ∷ single_check
      ∷ codes " -j REJECT --reject-with tcp-reset"
      ∷ []) in
    if same_text proto (codes "both")
    then (if not matches.has_port
        then (if rejects
            then reset_rule
              ∷ cat (rule_prefix ∷ single_check ∷ codes " -j " ∷ target ∷ target_options ∷ [])
              ∷ []
            else cat (rule_prefix ∷ single_check ∷ codes " -j " ∷ target ∷ target_options ∷ [])
              ∷ [])
        else (if rejects
            then reset_rule
              ∷ cat (
                  rule_prefix
                  ∷ codes " -p udp "
                  ∷ single_check
                  ∷ codes " -j "
                  ∷ target
                  ∷ target_options
                  ∷ [])
              ∷ []
            else cat (
                rule_prefix
                ∷ codes " -p tcp "
                ∷ single_check
                ∷ codes " -j "
                ∷ target
                ∷ target_options
                ∷ [])
              ∷ cat (
                  rule_prefix
                  ∷ codes " -p udp "
                  ∷ single_check
                  ∷ codes " -j "
                  ∷ target
                  ∷ target_options
                  ∷ [])
              ∷ []))
    else cat (
        rule_prefix
        ∷ codes " -p "
        ∷ proto
        ∷ codes " "
        ∷ single_check
        ∷ codes " -j "
        ∷ target
        ∷ target_options
        ∷ [])
      ∷ []

-- The rules that let the rest of an HTTP connection through.
unfoldable pub accept_rules : Text → List Text
accept_rules rule_prefix =
    cat (
      rule_prefix
      ∷ codes " -p tcp -m weburl --contains  http -j CONNMARK --set-mark 0xFF000000/0xFF000000"
      ∷ [])
    ∷ cat (
        rule_prefix
        ∷ codes " -p tcp --dport 80 -m connmark ! --mark 0xFF000000/0xFF000000 -j ACCEPT "
        ∷ [])
    ∷ cat (rule_prefix ∷ codes " -j CONNMARK --set-mark 0x0/0xFF000000" ∷ [])
    ∷ []

abbrev pub prefix_of : Text → Text → Text
prefix_of table chain = cat (codes "iptables -t " ∷ table ∷ codes " -A " ∷ chain ∷ codes " " ∷ [])

-- target_options, where none are the empty string: a rejected TCP packet is answered with a reset.
unfoldable pub options_for : Text → Text → Text → Text
options_for proto target given_options =
    if length given_options == 0
      && (same_text proto (codes "tcp") && same_text target (codes "REJECT"))
    then codes " --reject-with tcp-reset "
    else given_options

-- Whether URLs are accepted on the way out.
unfoldable pub accepts_urls : Matches → Text → Bool → Bool
accepts_urls matches target is_ingress =
    ltb 0 matches.url_rule_count && (same_text target (codes "ACCEPT") && not is_ingress)

unfoldable pub compute_rules : Definition → Text → Text → Bool → Text → Text → List Text
unfolding compute_matches marked_rules plain_rules accept_rules options_for accepts_urls
compute_rules rule_def table chain is_ingress given_target given_options =
    let rule_prefix = prefix_of table chain in
    let target = to_uppercase given_target in
    let matches = compute_matches rule_def rule_prefix is_ingress in
    let target_options = options_for matches.proto target given_options in
    (if length matches.computed.multi_rules == 0
      then plain_rules rule_prefix target target_options matches
      else marked_rules rule_prefix target target_options matches)
    ++ (if accepts_urls matches target is_ingress then accept_rules rule_prefix else [])
