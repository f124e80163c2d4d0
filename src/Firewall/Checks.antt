-- ===== src/Firewall/Checks.antt =====
-- The tests that have no marks, and the protocol, in compute_rules of
-- packages/gargoyle/gargoyle-firewall-util/src/make_iptables_rules.c.
use openwrt_extra.Common.{◌||◌, if◌then◌else◌, Option, none, some, [], ◌∷◌}
use openwrt_extra.StringUtil.Strings.{to_lowercase}
use openwrt_extra.Firewall.Text.{Text, codes, same_text, cat}
use openwrt_extra.Firewall.Definitions.{Definition, text_element}

-- The test for the time.
unfoldable pub time_check : Option Text → Option Text → Option Text → Text
time_check (some weekly_ranges) hours weekdays =
    cat (codes " -m timerange --weekly_ranges \"" ∷ weekly_ranges ∷ codes "\" " ∷ [])
time_check none (some hours) (some weekdays) = cat (
    codes " -m timerange --hours \""
    ∷ hours
    ∷ codes "\" --weekdays \""
    ∷ weekdays
    ∷ codes "\" "
    ∷ [])
time_check none (some hours) none =
    cat (codes " -m timerange --hours \"" ∷ hours ∷ codes "\" " ∷ [])
time_check none none (some weekdays) =
    cat (codes " -m timerange --weekdays \"" ∷ weekdays ∷ codes "\" " ∷ [])
time_check none none none = []

-- The test for the layer 7 protocol, for peer to peer traffic, and for the length.
unfoldable pub layer7_check : Option Text → Text
layer7_check none = []
layer7_check (some layer7_def) = cat (codes " -m layer7 --l7proto " ∷ layer7_def ∷ [])

unfoldable pub ipp2p_check : Option Text → Text
ipp2p_check none = []
ipp2p_check (some ipp2p_def) = cat (codes " -m ipp2p --" ∷ ipp2p_def ∷ [])

unfoldable pub length_check : Option Text → Option Text → Text
length_check (some min_def) (some max_def) =
    cat (codes " -m length --length " ∷ min_def ∷ codes ":" ∷ max_def ∷ codes " " ∷ [])
length_check _ _ = []

unfoldable pub first_check : Definition → Text
unfolding time_check layer7_check ipp2p_check length_check text_element
first_check def = cat (
    time_check (text_element (codes "active_weekly_ranges") def)
      (text_element (codes "active_hours") def) (text_element (codes "active_weekdays") def)
    ∷ layer7_check (text_element (codes "layer7") def)
    ∷ ipp2p_check (text_element (codes "ipp2p") def)
    ∷ length_check (text_element (codes "min_pkt_size") def)
        (text_element (codes "max_pkt_size") def)
    ∷ [])

-- proto
unfoldable pub proto_of : Option Text → Text
proto_of none = codes "both"
proto_of (some text) =
    let proto = to_lowercase text in
    if same_text proto (codes "udp")
      || (same_text proto (codes "tcp") || same_text proto (codes "both"))
    then proto
    else codes "both"
