-- ===== src/Firewall/Rules.antt =====
-- compute_multi_rules of packages/gargoyle/gargoyle-firewall-util/src/make_iptables_rules.c, and the marks that its
-- rules set. unsigned long has 32 bits. An array of strings that ends in NULL is a list; a list of strings is the
-- list of them.
use openwrt_extra.Common.{
  ℕ, zero, suc, ◌+◌, ◌*◌, ◌^◌, ◌%◌, ◌==◌, not, ◌&&◌, if◌then◌else◌, Bool, Option, none, some, List,
  [], ◌∷◌, ◌++◌, length,
}
use openwrt_extra.Firewall.Text.{Text, codes, same_text, cat, hex}

-- The rules so far: those with marks, the test of the rule without, and for each dimension whether it is negated
-- and whether it has a mark, the values of initial_mask_list and final_mask_list.
pub record Computed : Type 0 where
  pub multi_rules : List Text
  pub single_check : Text
  pub masks : List (Bool × Bool)
  pub mask_byte_index : ℕ

-- The mark of a dimension.
unfoldable pub mask_of : ℕ → ℕ
mask_of mask_byte_index = 0x01000000 * 2 ^ mask_byte_index % 2 ^ 32

-- The value and the mask that a rule of a dimension sets.
unfoldable pub connmark_part : Bool → ℕ → Text
unfolding mask_of
connmark_part is_negation mask_byte_index =
    let mask_str = hex (mask_of mask_byte_index) in
    cat (
      codes " -j CONNMARK --set-mark "
      ∷ (if is_negation then codes "0x0" else mask_str)
      ∷ codes "/"
      ∷ mask_str
      ∷ [])

-- What stands around a value.
abbrev pub quote_open : Bool → Text
quote_open quoted_args = if quoted_args then codes " \"" else codes " "

abbrev pub quote_close : Bool → Text
quote_close quoted_args = if quoted_args then codes "\" " else codes " "

-- The rules for a value.
unfoldable pub proto_rules : Text → Text → Bool → Text → List Text
proto_rules rule_prefix proto requires_proto common_part =
    if same_text proto (codes "both")
    then (if requires_proto
        then cat (rule_prefix ∷ codes " -p tcp " ∷ common_part ∷ [])
          ∷ cat (rule_prefix ∷ codes " -p udp " ∷ common_part ∷ [])
          ∷ []
        else cat (rule_prefix ∷ codes " " ∷ common_part ∷ []) ∷ [])
    else cat (rule_prefix ∷ codes " -p " ∷ proto ∷ codes " " ∷ common_part ∷ []) ∷ []

-- The loop over the values.
unfoldable pub value_rules : Text → Text → Text → Text → Text → Bool → Bool → List Text → List Text
unfolding proto_rules
value_rules rule_prefix test_prefix1 test_prefix2 connmark proto requires_proto quoted_args [] = []
value_rules rule_prefix test_prefix1 test_prefix2 connmark proto requires_proto quoted_args
      (value ∷ values) =
    proto_rules rule_prefix proto requires_proto (
      cat (
        test_prefix1
        ∷ codes " "
        ∷ test_prefix2
        ∷ quote_open quoted_args
        ∷ value
        ∷ quote_close quoted_args
        ∷ connmark
        ∷ []))
    ++ value_rules rule_prefix test_prefix1 test_prefix2 connmark proto requires_proto quoted_args
        values

-- def[0]
abbrev pub first_value : List Text → Text
first_value [] = []
first_value (value ∷ values) = value

-- The rules for the values, and parse_type; the masks stay.
unfoldable pub compute_multi_rules :
    Option (List Text)
    → Computed
    → Bool
    → Text
    → Text
    → Text
    → Bool
    → ℕ
    → Text
    → Bool
    → Bool
    → ℕ × Computed
unfolding value_rules connmark_part
compute_multi_rules none c never_single rule_prefix test_prefix1 test_prefix2 is_negation
      mask_byte_index proto requires_proto quoted_args =
    (0, c)
compute_multi_rules (some def) c never_single rule_prefix test_prefix1 test_prefix2 is_negation
      mask_byte_index proto requires_proto quoted_args =
    if length def == 1 && not never_single
    then (
      1,
      record c {
        single_check = cat (
            cat (
              codes " "
              ∷ test_prefix1
              ∷ (if is_negation then codes " ! " else codes " ")
              ∷ test_prefix2
              ∷ quote_open quoted_args
              ∷ first_value def
              ∷ quote_close quoted_args
              ∷ [])
            ∷ c.single_check
            ∷ []);
      },
    )
    else (
      2,
      record c {
        multi_rules =
            c.multi_rules
            ++ value_rules rule_prefix test_prefix1 test_prefix2
                (connmark_part is_negation mask_byte_index) proto requires_proto quoted_args def;
      },
    )

-- The dimension is done.
unfoldable pub push_masks : Bool → Bool → Computed → Computed
push_masks is_negated is_multi c = record c {
  masks = c.masks ++ ((is_negated, is_multi) ∷ []);
  mask_byte_index = c.mask_byte_index + 1;
}

-- The loop over the masks from an index on: final_match and initial_main_mark. Past the lists a dimension has a
-- mark and is not negated.
unfoldable pub mask_loop : ℕ → ℕ → List (Bool × Bool) → ℕ × ℕ
unfolding mask_of
mask_loop zero next_mask_index masks = (0, 0)
mask_loop (suc left) next_mask_index [] =
    let (final_match, initial_main_mark) = mask_loop left (next_mask_index + 1) [] in
    (mask_of next_mask_index + final_match, initial_main_mark)
mask_loop (suc left) next_mask_index ((is_negation, is_multi) ∷ masks) =
    let (final_match, initial_main_mark) = mask_loop left (next_mask_index + 1) masks in
    let next_mark_bit = if is_multi then mask_of next_mask_index else 0 in
    (
      next_mark_bit + final_match,
      if is_negation && not (next_mask_index == 0)
          then next_mark_bit + initial_main_mark
          else initial_main_mark,
    )
