-- ===== src/Firewall/GroupedRules.antt =====
-- The dimensions of compute_rules, one after another, keep their rules in groups.
use openwrt_extra.Common.{
  ℕ, ◌+◌, ◌≤◌, ◌≡◌, refl, ap, sym, ◌∙◌, ◌⊎◌, inl, inr, ltb, ◌==◌, not, ◌&&◌, ◌||◌, Bool, true,
  false, Bool-cases, none, some, List, [], ◌∷◌, ◌++◌, length, length-append, All, subst, arith,
}
use openwrt_extra.Firewall.Text.{Text, codes, same_text}
use openwrt_extra.Firewall.Definitions.{Definition}
use openwrt_extra.Firewall.Rules.{Computed, compute_multi_rules}
use openwrt_extra.Firewall.Matching.{
  tests_loop, match_dimension, total_rules, address_tests, address_dimension, url_dimension,
  with_no_prefix, url_count, Dimension, url_values, named_values, address_values, run_dimension,
  run_dimensions,
}
use openwrt_extra.Firewall.Generate.{dimensions, rules_proto, compute_matches, single_dimension}
use openwrt_extra.Firewall.Groups.{Group, AreGroups, rules_of, Adds, Adds-nothing, Adds-two}
use openwrt_extra.Firewall.Grouping.{
  value_of, tail_of, IsGrouped, rules_of-append, AreGroups-last, added-IsGroup,
  push_masks-IsGrouped, value_rules-Adds, compute_multi_rules-Adds,
}

-- There is a mark, or at most one value.
abbrev IsFew : Bool → ℕ → Type 0
IsFew is_multi count = (is_multi ≡ true) ⊎ (count ≤ 1)

-- The test of a dimension of URLs for more than one.
abbrev IsCountedDimension : Dimension → Type 0
IsCountedDimension (url_values negated multi urls) = IsFew multi (url_count urls)
IsCountedDimension (named_values single p1 p2 port values) = Unit
IsCountedDimension (address_values tests addrs not_addrs) = Unit

IsFew-ltb : (n : ℕ) → IsFew (ltb 1 n) n
IsFew-ltb n = ground arith

total_rules-with_no_prefix :
    (urls : List (List Text × Text)) → total_rules (with_no_prefix urls) ≡ url_count urls
unfolding total_rules with_no_prefix url_count
total_rules-with_no_prefix [] = refl
total_rules-with_no_prefix ((values, prefix) ∷ urls) =
    ap (λ n. length values + n) (total_rules-with_no_prefix urls)

module _ (rule_prefix : Text) where
  -- A test with values adds rules if there is a mark.
  some_values-Adds :
      (values : List Text) (c : Computed) (multi : Bool) (p1 p2 : Text) (negated : Bool) (index : ℕ)
      (proto : Text) (requires quoted : Bool)
      → (length values == 0) ≡ false
      → IsFew multi (length values)
      → Adds
          (tail_of negated index)
          multi
          c
          (compute_multi_rules
            (some values)
            c
            multi
            rule_prefix
            p1
            p2
            negated
            index
            proto
            requires
            quoted).1
  unfolding compute_multi_rules
  some_values-Adds values c true p1 p2 negated index proto requires quoted filled few =
      let many : (length values == 1 && false) ≡ false = ground arith in
      rw many (
        value_rules-Adds rule_prefix negated index c _ p1 p2 proto requires quoted values refl refl
          refl)
  some_values-Adds values c false p1 p2 negated index proto requires quoted filled few =
      let one : (length values == 1 && true) ≡ true = ground (arith, filled, few) in
      rw one (Adds-nothing _ false c _ refl refl refl)

  tests_loop-Adds :
      (multi negated : Bool) (proto : Text) (include quoted : Bool)
      (tests : List (List Text × Text × Text)) (c : Computed) (index : ℕ)
      → c.mask_byte_index ≡ index
      → IsFew multi (total_rules tests)
      → Adds
          (tail_of negated index)
          multi
          c
          (tests_loop multi rule_prefix negated proto include quoted tests c)
  unfolding tests_loop total_rules
  tests_loop-Adds multi negated proto include quoted [] c index at few =
      Adds-nothing _ multi c c refl refl refl
  tests_loop-Adds multi negated proto include quoted ((values, p1, p2) ∷ tests) c index at few =
      let here : IsFew multi (length values) = elim few [
        | inl is ↦ inl is
        | inr small ↦ inr (omega arith)
      ] in
      let later : IsFew multi (total_rules tests) = elim few [
        | inl is ↦ inl is
        | inr small ↦ inr (omega arith)
      ] in
      elim (Bool-cases (length values == 0)) [
        | inl empty ↦
            rw empty (tests_loop-Adds multi negated proto include quoted tests c index at later)
        | inr filled ↦
            let adds =
              some_values-Adds values c multi p1 p2 negated c.mask_byte_index proto include quoted
                filled here in
            let first : Adds (tail_of negated index) multi c
                (compute_multi_rules (some values) c multi rule_prefix p1 p2 negated
                  c.mask_byte_index proto include quoted).1 =
              subst
                (λ i.
                  Adds (tail_of negated i) multi c
                    (compute_multi_rules (some values) c multi rule_prefix p1 p2 negated
                      c.mask_byte_index proto include quoted).1)
                at adds in
            rw filled (
              Adds-two _ multi c _ _ first (
                tests_loop-Adds multi negated proto include quoted tests _ index
                  (first.same_index ∙ at) later))
      ]

  run_dimension-IsGrouped :
      (proto : Text) (include : Bool) (dimension : Dimension) (c : Computed)
      → IsCountedDimension dimension
      → IsGrouped c
      → IsGrouped (run_dimension rule_prefix proto include dimension c)
  unfolding run_dimension url_dimension match_dimension address_dimension address_tests
  run_dimension-IsGrouped proto include (url_values negated multi urls) c few ok =
      push_masks-IsGrouped negated multi c _ ok (
        tests_loop-Adds multi negated proto include true (with_no_prefix urls) c c.mask_byte_index
          refl (rw (total_rules-with_no_prefix urls) few))
  run_dimension-IsGrouped proto include (named_values single p1 p2 port (def, negated)) c few ok =
      push_masks-IsGrouped negated _ c _ ok (
        compute_multi_rules-Adds rule_prefix def c (single && negated) p1 p2 negated
          c.mask_byte_index proto (port || include) false)
  run_dimension-IsGrouped proto include (address_values tests none none) c few ok = ok
  run_dimension-IsGrouped proto include (address_values tests none (some addrs)) c few ok =
      push_masks-IsGrouped true _ c _ ok (
        tests_loop-Adds _ true proto include false (tests addrs) c c.mask_byte_index refl
          (IsFew-ltb (total_rules (tests addrs))))
  run_dimension-IsGrouped proto include (address_values tests (some addrs) not_addrs) c few ok =
      push_masks-IsGrouped false _ c _ ok (
        tests_loop-Adds _ false proto include false (tests addrs) c c.mask_byte_index refl
          (IsFew-ltb (total_rules (tests addrs))))

  run_dimensions-IsGrouped :
      (proto : Text) (include : Bool) (dims : List Dimension) (c : Computed)
      → All IsCountedDimension dims
      → IsGrouped c
      → IsGrouped (run_dimensions rule_prefix proto include dims c)
  unfolding run_dimensions
  run_dimensions-IsGrouped proto include [] c few ok = ok
  run_dimensions-IsGrouped proto include (dimension ∷ dims) c (here, few) ok =
      run_dimensions-IsGrouped proto include dims _ few
        (run_dimension-IsGrouped proto include dimension c here ok)

  dimensions-IsCountedDimension :
      (def : Definition) (ingress : Bool) → All IsCountedDimension (dimensions def ingress)
  unfolding dimensions
  dimensions-IsCountedDimension def ingress = (IsFew-ltb _, (tt, (tt, (tt, (tt, (tt, (tt, tt)))))))

  compute_matches-IsGrouped :
      (def : Definition) (ingress : Bool)
      → IsGrouped (compute_matches def rule_prefix ingress).computed
  unfolding compute_matches
  compute_matches-IsGrouped def ingress =
      run_dimensions-IsGrouped (rules_proto def) _ (dimensions def ingress) _
        (dimensions-IsCountedDimension def ingress)
        (record { groups = []; rules = refl; are = tt; counted = refl; masked = refl })

  -- The groups of all dimensions, the single test among them.
  pub record HasGroups (c : Computed) : Type 0 where
    pub groups : List Group
    pub rules : c.multi_rules ≡ rules_of groups
    pub are : AreGroups 0 c.masks groups
    pub counted : length groups ≡ c.mask_byte_index

  pub single_dimension-HasGroups :
      (def : Definition) (ingress : Bool)
      → HasGroups (single_dimension rule_prefix (compute_matches def rule_prefix ingress))
  unfolding single_dimension
  single_dimension-HasGroups def ingress =
      let matches = compute_matches def rule_prefix ingress in
      let c = matches.computed in
      let ok = compute_matches-IsGrouped def ingress in
      elim (Bool-cases (length c.single_check == 0)) [
        | inl nothing ↦
            rw nothing
              (record { groups = ok.groups; rules = ok.rules; are = ok.are; counted = ok.counted })
        | inr some_test ↦
            let adds =
              some_values-Adds (c.single_check ∷ []) c true (codes " ") [] false c.mask_byte_index
                matches.proto (not (same_text matches.proto (codes "both") && not matches.has_port))
                false refl (inl refl) in
            let group : Group = record {
              rules = adds.rules;
              value = value_of false c.mask_byte_index;
            } in
            rw some_test (record {
              groups = ok.groups ++ (group ∷ []);
              rules =
                  adds.added
                  ∙ ap (λ (rs : List Text). rs ++ adds.rules) ok.rules
                  ∙ sym (rules_of-append ok.groups group);
              are =
                  subst (λ masks. AreGroups 0 masks (ok.groups ++ (group ∷ [])))
                    (sym adds.same_masks)
                    (AreGroups-last 0 c.mask_byte_index c.masks ok.groups group
                      (ok.masked ∙ sym ok.counted) (omega (arith, ok.masked)) ok.are
                      (added-IsGroup false true c _ adds));
              counted = length-append ok.groups (group ∷ []) ∙ ap (λ n. n + 1) ok.counted;
            })
      ]
