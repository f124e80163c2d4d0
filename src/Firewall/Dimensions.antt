-- ===== src/Firewall/Dimensions.antt =====
-- The number of the dimensions of compute_rules.
use openwrt_extra.Common.{
  ℕ, ◌+◌, ◌≤◌, ◌==◌, not, ◌&&◌, ◌||◌, if◌then◌else◌, Bool, true, false, Option, none, some, List,
  [], ◌∷◌, length, arith,
}
use openwrt_extra.Firewall.Text.{Text}
use openwrt_extra.Firewall.Definitions.{Definition}
use openwrt_extra.Firewall.Rules.{Computed, compute_multi_rules, push_masks}
use openwrt_extra.Firewall.Matching.{
  tests_loop, match_dimension, address_tests, address_dimension, url_dimension, with_no_prefix,
  Dimension, url_values, named_values, address_values, run_dimension, run_dimensions,
}
use openwrt_extra.Firewall.Generate.{dimensions, rules_proto, compute_matches, single_dimension}

-- The marks of at most so many dimensions are used.
record Counted (bound : ℕ) (c : Computed) : Type 0 where
  below : c.mask_byte_index ≤ bound

Counted-if_pair :
    (bound : ℕ) (b : Bool) (c d : ℕ × Computed)
    → Counted bound c.1
    → Counted bound d.1
    → Counted bound (if b then c else d).1
Counted-if_pair bound true c d a b = a
Counted-if_pair bound false c d a b = b

Counted-if :
    (bound : ℕ) (b : Bool) (c d : Computed)
    → Counted bound c
    → Counted bound d
    → Counted bound (if b then c else d)
Counted-if bound true c d a b = a
Counted-if bound false c d a b = b

more : (bound n : ℕ) (c : Computed) → bound ≤ n → Counted bound c → Counted n c
more bound n c le ok = record { below = omega (arith, le, ok.below) }

push_masks-Counted :
    (bound : ℕ) (negated multi : Bool) (c : Computed)
    → Counted bound c
    → Counted (bound + 1) (push_masks negated multi c)
unfolding push_masks
push_masks-Counted bound negated multi c ok = record { below = omega (arith, ok.below) }

module _ (rule_prefix : Text) where
  compute_multi_rules-Counted :
      (bound : ℕ) (def : Option (List Text)) (c : Computed) (never_single : Bool)
      (prefix1 prefix2 : Text) (negated : Bool) (index : ℕ) (proto : Text) (requires quoted : Bool)
      → Counted bound c
      → Counted bound
          (compute_multi_rules def c never_single rule_prefix prefix1 prefix2 negated index proto
            requires quoted).1
  unfolding compute_multi_rules
  compute_multi_rules-Counted bound none c single p1 p2 negated index proto requires quoted ok = ok
  compute_multi_rules-Counted bound (some def) c single p1 p2 negated index proto requires quoted
        ok =
      Counted-if_pair bound (length def == 1 && not single) _ _ (record { below = ok.below })
        (record { below = ok.below })

  tests_loop-Counted :
      (bound : ℕ) (multi negated : Bool) (proto : Text) (include quoted : Bool)
      (tests : List (List Text × Text × Text)) (c : Computed)
      → Counted bound c
      → Counted bound (tests_loop multi rule_prefix negated proto include quoted tests c)
  unfolding tests_loop
  tests_loop-Counted bound multi negated proto include quoted [] c ok = ok
  tests_loop-Counted bound multi negated proto include quoted ((values, p1, p2) ∷ tests) c ok =
      tests_loop-Counted bound multi negated proto include quoted tests _ (
        Counted-if bound (length values == 0) c _ ok (
          compute_multi_rules-Counted bound (some values) c multi p1 p2 negated c.mask_byte_index
            proto include quoted ok))

  run_dimension-Counted :
      (bound : ℕ) (proto : Text) (include : Bool) (dimension : Dimension) (c : Computed)
      → Counted bound c
      → Counted (bound + 1) (run_dimension rule_prefix proto include dimension c)
  unfolding run_dimension url_dimension match_dimension address_dimension address_tests
  run_dimension-Counted bound proto include (url_values negated multi urls) c ok =
      push_masks-Counted bound negated multi _
        (tests_loop-Counted bound multi negated proto include true (with_no_prefix urls) c ok)
  run_dimension-Counted bound proto include (named_values single p1 p2 port (def, negated)) c ok =
      push_masks-Counted bound negated _ _ (
        compute_multi_rules-Counted bound def c (single && negated) p1 p2 negated c.mask_byte_index
          proto (port || include) false ok)
  run_dimension-Counted bound proto include (address_values tests none none) c ok =
      more bound (bound + 1) c (omega arith) ok
  run_dimension-Counted bound proto include (address_values tests none (some addrs)) c ok =
      push_masks-Counted bound true _ _
        (tests_loop-Counted bound _ true proto include false (tests addrs) c ok)
  run_dimension-Counted bound proto include (address_values tests (some addrs) not_addrs) c ok =
      push_masks-Counted bound false _ _
        (tests_loop-Counted bound _ false proto include false (tests addrs) c ok)

  run_dimensions-Counted :
      (bound : ℕ) (proto : Text) (include : Bool) (dims : List Dimension) (c : Computed)
      → Counted bound c
      → Counted (length dims + bound) (run_dimensions rule_prefix proto include dims c)
  unfolding run_dimensions
  run_dimensions-Counted bound proto include [] c ok = more bound (0 + bound) c (omega arith) ok
  run_dimensions-Counted bound proto include (dimension ∷ dims) c ok =
      let rest =
        run_dimensions-Counted (bound + 1) proto include dims _
          (run_dimension-Counted bound proto include dimension c ok) in
      more (length dims + (bound + 1)) (length (dimension ∷ dims) + bound) _ (omega arith) rest

  compute_matches-Counted :
      (def : Definition) (ingress : Bool)
      → Counted 7 (compute_matches def rule_prefix ingress).computed
  unfolding compute_matches
  compute_matches-Counted def ingress =
      more (length (dimensions def ingress) + 0) 7 _ (unfold dimensions in omega arith) (
        run_dimensions-Counted 0 (rules_proto def) _ (dimensions def ingress) _
          (record { below = omega arith }))

  -- There are at most eight dimensions, as many as the bits of the last byte of a mark.
  pub single_dimension_le :
      (def : Definition) (ingress : Bool)
      → (single_dimension rule_prefix (compute_matches def rule_prefix ingress)).mask_byte_index ≤ 8
  unfolding single_dimension
  single_dimension_le def ingress =
      let matches = compute_matches def rule_prefix ingress in
      let counted = compute_matches-Counted def ingress in
      (Counted-if 8 (length matches.computed.single_check == 0) _ _
        (more 7 8 _ (omega arith) counted) (record { below = omega (arith, counted.below) })).below
