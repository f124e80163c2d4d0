-- ===== src/Firewall/Grouping.antt =====
-- compute_rules keeps the rules of its dimensions in groups.
use openwrt_extra.Common.{
  ℕ, ◌+◌, ◌≡◌, refl, ap, sym, ◌∙◌, inl, inr, ◌==◌, not, ◌&&◌, if◌then◌else◌, Bool, true, false,
  Bool-cases, Option, none, some, List, [], ◌∷◌, ◌++◌, append_assoc, append-nil, length,
  length-append, arith,
}
use openwrt_extra.Firewall.Text.{Text}
use openwrt_extra.Firewall.Rules.{
  Computed, mask_of, value_rules, connmark_part, compute_multi_rules, push_masks,
}
use openwrt_extra.Firewall.Groups.{
  set_mark, Group, IsGroup, AreGroups, rules_of, connmark_part-Ends, value_rules-AllEnd, Adds,
  Adds-nothing,
}

-- What a dimension sets under its mask.
abbrev pub value_of : Bool → ℕ → ℕ
value_of is_negated index = if is_negated then 0 else mask_of index

abbrev pub tail_of : Bool → ℕ → Text
tail_of is_negated index = set_mark (value_of is_negated index) (mask_of index)

-- The rules so far are in groups, one for each dimension.
pub record IsGrouped (c : Computed) : Type 0 where
  pub groups : List Group
  pub rules : c.multi_rules ≡ rules_of groups
  pub are : AreGroups 0 c.masks groups
  pub counted : length groups ≡ c.mask_byte_index
  pub masked : length c.masks ≡ c.mask_byte_index

pub rules_of-append :
    (xs : List Group) (group : Group) → rules_of (xs ++ (group ∷ [])) ≡ rules_of xs ++ group.rules
rules_of-append [] group = append-nil group.rules
rules_of-append (x ∷ xs) group =
    ap (λ (rs : List Text). x.rules ++ rs) (rules_of-append xs group)
    ∙ sym (append_assoc x.rules (rules_of xs) group.rules)

-- One more group, with its masks.
AreGroups-append :
    (index last : ℕ) (masks : List (Bool × Bool)) (groups : List Group) (negated multi : Bool)
    (group : Group)
    → length masks ≡ length groups
    → index + length masks ≡ last
    → AreGroups index masks groups
    → IsGroup last negated multi group
    → AreGroups index (masks ++ ((negated, multi) ∷ [])) (groups ++ (group ∷ []))
AreGroups-append index last [] [] negated multi group same at are is =
    let e : index ≡ last = omega arith in (rw e is, tt)
AreGroups-append index last [] (g ∷ groups) negated multi group same at are is =
    absurd (omega arith)
AreGroups-append index last (mask ∷ masks) [] negated multi group same at are is = absurd are
AreGroups-append index last ((n, m) ∷ masks) (g ∷ groups) negated multi group same at (here, are)
      is =
    (
      here,
      AreGroups-append (index + 1) last masks groups negated multi group (omega arith) (omega arith)
          are is,
    )

-- The single test as the last group.
pub AreGroups-last :
    (index last : ℕ) (masks : List (Bool × Bool)) (groups : List Group) (group : Group)
    → length masks ≡ length groups
    → index + length masks ≡ last
    → AreGroups index masks groups
    → IsGroup last false true group
    → AreGroups index masks (groups ++ (group ∷ []))
AreGroups-last index last [] [] group same at are is =
    let e : index ≡ last = omega arith in (rw e is, tt)
AreGroups-last index last [] (g ∷ groups) group same at are is = absurd (omega arith)
AreGroups-last index last (mask ∷ masks) [] group same at are is = absurd are
AreGroups-last index last ((n, m) ∷ masks) (g ∷ groups) group same at (here, are) is =
    (here, AreGroups-last (index + 1) last masks groups group (omega arith) (omega arith) are is)

-- The rules that were added are a group.
pub added-IsGroup :
    (negated multi : Bool) (c d : Computed)
    (adds : Adds (tail_of negated c.mask_byte_index) multi c d)
    → IsGroup c.mask_byte_index negated multi
        (record { rules = adds.rules; value = value_of negated c.mask_byte_index })
added-IsGroup negated multi c d adds = record {
  sets = adds.ends.holds;
  negated = refl;
  single = adds.single;
}

pub push_masks-IsGrouped :
    (negated multi : Bool) (c d : Computed)
    → IsGrouped c
    → Adds (tail_of negated c.mask_byte_index) multi c d
    → IsGrouped (push_masks negated multi d)
unfolding push_masks
push_masks-IsGrouped negated multi c d ok adds =
    let group : Group = record { rules = adds.rules; value = value_of negated c.mask_byte_index } in
    let masks = c.masks ++ ((negated, multi) ∷ []) in
    let are =
      AreGroups-append 0 c.mask_byte_index c.masks ok.groups negated multi group
        (ok.masked ∙ sym ok.counted) (omega (arith, ok.masked)) ok.are
        (added-IsGroup negated multi c d adds) in
    record {
      groups = ok.groups ++ (group ∷ []);
      rules =
          adds.added
          ∙ ap (λ (rs : List Text). rs ++ adds.rules) ok.rules
          ∙ sym (rules_of-append ok.groups group);
      are = rw (adds.same_masks) are;
      counted =
          length-append ok.groups (group ∷ []) ∙ ap (λ n. n + 1) (ok.counted ∙ sym adds.same_index);
      masked =
          length-append d.masks ((negated, multi) ∷ [])
          ∙ ap (λ n. n + 1) (ap length adds.same_masks ∙ ok.masked ∙ sym adds.same_index);
    }

module _ (rule_prefix : Text) where
  pub value_rules-Adds :
      (negated : Bool) (index : ℕ) (c d : Computed) (p1 p2 proto : Text) (requires quoted : Bool)
      (values : List Text)
      → d.multi_rules
        ≡ c.multi_rules
          ++ value_rules rule_prefix p1 p2
              (connmark_part negated index)
              proto
              requires
              quoted
              values
      → d.masks ≡ c.masks
      → d.mask_byte_index ≡ c.mask_byte_index
      → Adds (tail_of negated index) true c d
  value_rules-Adds negated index c d p1 p2 proto requires quoted values e f g = record {
    rules =
        value_rules rule_prefix p1 p2 (connmark_part negated index) proto requires quoted values;
    added = e;
    ends =
        value_rules-AllEnd (tail_of negated index) rule_prefix p1 p2 (connmark_part negated index)
          proto requires quoted values (connmark_part-Ends negated index);
    single = inl refl;
    same_masks = f;
    same_index = g;
  }

  -- A match adds rules if parse_type is 2.
  pub compute_multi_rules-Adds :
      (def : Option (List Text)) (c : Computed) (single : Bool) (p1 p2 : Text) (negated : Bool)
      (index : ℕ) (proto : Text) (requires quoted : Bool)
      → let (parse_type, next) =
          compute_multi_rules def c single rule_prefix p1 p2 negated index proto requires quoted in
        Adds (tail_of negated index) (parse_type == 2) c next
  unfolding compute_multi_rules
  compute_multi_rules-Adds none c single p1 p2 negated index proto requires quoted =
      Adds-nothing _ false c c refl refl refl
  compute_multi_rules-Adds (some def) c single p1 p2 negated index proto requires quoted =
      elim (Bool-cases (length def == 1 && not single)) [
        | inl one ↦ rw one (Adds-nothing _ false c _ refl refl refl)
        | inr many ↦
            rw many
              (value_rules-Adds negated index c _ p1 p2 proto requires quoted def refl refl refl)
      ]
