-- ===== src/Firewall/Groups.antt =====
-- The rules that compute_rules emits for its dimensions, dimension by dimension, and the values that they set.
use openwrt_extra.Common.{
  ℕ, ◌+◌, ◌≡◌, refl, ap, sym, ◌∙◌, ◌⊎◌, inl, inr, if◌then◌else◌, Bool, true, false, List, [], ◌∷◌,
  ◌++◌, append_assoc, append-nil, All, All-append,
}
use openwrt_extra.StringUtil.Splitting.{dynamic_strcat}
use openwrt_extra.Firewall.Text.{Text, codes, same_text, cat, hex}
use openwrt_extra.Firewall.Rules.{Computed, mask_of, proto_rules, value_rules, connmark_part}

-- The end of a rule that sets a value under a mask.
abbrev pub set_mark : ℕ → ℕ → Text
set_mark value mask = codes " -j CONNMARK --set-mark " ++ (hex value ++ (codes "/" ++ hex mask))

pub record Ends (tail rule : Text) : Type 0 where
  pub front : Text
  pub whole : rule ≡ front ++ tail

-- The rules of a dimension, and the value that they set.
pub record Group : Type 0 where
  pub rules : List Text
  pub value : ℕ

-- Each rule of a dimension sets its value under the mask of the dimension: zero where it is negated, and else the
-- mask. A dimension without a mark has no rules.
pub record IsGroup (index : ℕ) (is_negated is_multi : Bool) (group : Group) : Type 0 where
  pub sets : All (Ends (set_mark group.value (mask_of index))) group.rules
  pub negated : group.value ≡ (if is_negated then 0 else mask_of index)
  pub single : (is_multi ≡ true) ⊎ (group.rules ≡ [])

-- The groups of the dimensions from an index on; the single test, which is behind the last one, is not negated and
-- has a mark.
abbrev pub AreGroups : ℕ → List (Bool × Bool) → List Group → Type 0
AreGroups index [] [] = Unit
AreGroups index (mask ∷ masks) [] = ⊥
AreGroups index [] (group ∷ groups) =
    IsGroup index false true group × AreGroups (index + 1) [] groups
AreGroups index ((is_negated, is_multi) ∷ masks) (group ∷ groups) =
    IsGroup index is_negated is_multi group × AreGroups (index + 1) masks groups

-- The rules of all groups.
abbrev pub rules_of : List Group → List Text
rules_of [] = []
rules_of (group ∷ groups) = group.rules ++ rules_of groups

Ends-skip :
    (tail part : Text) (parts : List Text) → Ends tail (cat parts) → Ends tail (cat (part ∷ parts))
unfolding cat dynamic_strcat
Ends-skip tail part parts ends = record {
  front = part ++ ends.front;
  whole = ap (λ (rest : Text). part ++ rest) ends.whole ∙ sym (append_assoc part ends.front tail);
}

Ends-last : (tail part : Text) → Ends tail part → Ends tail (cat (part ∷ []))
unfolding cat dynamic_strcat
Ends-last tail part ends = record { front = ends.front; whole = append-nil part ∙ ends.whole }

pub connmark_part-Ends :
    (negated : Bool) (index : ℕ)
    → Ends
        (set_mark (if negated then 0 else mask_of index) (mask_of index))
        (connmark_part negated index)
unfolding connmark_part cat dynamic_strcat hex
connmark_part-Ends true index = record {
  front = [];
  whole = rw (append-nil (hex (mask_of index))) refl;
}
connmark_part-Ends false index = record {
  front = [];
  whole = rw (append-nil (hex (mask_of index))) refl;
}

module _ (tail : Text) where
  pub record AllEnd (rules : List Text) : Type 0 where
    pub holds : All (Ends tail) rules

  AllEnd-append : (xs ys : List Text) → AllEnd xs → AllEnd ys → AllEnd (xs ++ ys)
  AllEnd-append xs ys a b = record { holds = All-append (Ends tail) xs ys a.holds b.holds }

  AllEnd-if : (b : Bool) (xs ys : List Text) → AllEnd xs → AllEnd ys → AllEnd (if b then xs else ys)
  AllEnd-if true xs ys a b = a
  AllEnd-if false xs ys a b = b

  module _ (rule_prefix : Text) where
    proto_rules-AllEnd :
        (proto : Text) (requires : Bool) (common : Text)
        → Ends tail common
        → AllEnd (proto_rules rule_prefix proto requires common)
    unfolding proto_rules
    proto_rules-AllEnd proto requires common ends =
        let last = Ends-last tail common ends in
        AllEnd-if (same_text proto (codes "both")) _ _
          (AllEnd-if requires _ _
            (record {
              holds = (
                Ends-skip tail _ _ (Ends-skip tail _ _ last),
                (Ends-skip tail _ _ (Ends-skip tail _ _ last), tt),
              );
            })
            (record { holds = (Ends-skip tail _ _ (Ends-skip tail _ _ last), tt) }))
          (record {
            holds = (
              Ends-skip tail _ _
                  (Ends-skip tail _ _ (Ends-skip tail _ _ (Ends-skip tail _ _ last))),
              tt,
            );
          })

    pub value_rules-AllEnd :
        (p1 p2 connmark proto : Text) (requires quoted : Bool) (values : List Text)
        → Ends tail connmark
        → AllEnd (value_rules rule_prefix p1 p2 connmark proto requires quoted values)
    unfolding value_rules
    value_rules-AllEnd p1 p2 connmark proto requires quoted [] ends = record { holds = tt }
    value_rules-AllEnd p1 p2 connmark proto requires quoted (value ∷ values) ends =
        AllEnd-append _ _
          (proto_rules-AllEnd proto requires _ (
            Ends-skip tail _ _ (
              Ends-skip tail _ _ (
                Ends-skip tail _ _ (
                  Ends-skip tail _ _
                    (Ends-skip tail _ _ (Ends-skip tail _ _ (Ends-last tail connmark ends))))))))
          (value_rules-AllEnd p1 p2 connmark proto requires quoted values ends)

-- What a step adds: rules that end so, and no marks.
pub record Adds (tail : Text) (is_multi : Bool) (c d : Computed) : Type 0 where
  pub rules : List Text
  pub added : d.multi_rules ≡ c.multi_rules ++ rules
  pub ends : AllEnd tail rules
  pub single : (is_multi ≡ true) ⊎ (rules ≡ [])
  pub same_masks : d.masks ≡ c.masks
  pub same_index : d.mask_byte_index ≡ c.mask_byte_index

module _ (tail : Text) where
  pub Adds-nothing :
      (multi : Bool) (c d : Computed)
      → d.multi_rules ≡ c.multi_rules
      → d.masks ≡ c.masks
      → d.mask_byte_index ≡ c.mask_byte_index
      → Adds tail multi c d
  Adds-nothing multi c d e f g = record {
    rules = [];
    added = e ∙ sym (append-nil c.multi_rules);
    ends = record { holds = tt };
    single = inr refl;
    same_masks = f;
    same_index = g;
  }

  pub Adds-two :
      (multi : Bool) (c d e : Computed)
      → Adds tail multi c d
      → Adds tail multi d e
      → Adds tail multi c e
  Adds-two multi c d e a b = record {
    rules = a.rules ++ b.rules;
    added =
        b.added
        ∙ ap (λ (rs : List Text). rs ++ b.rules) a.added
        ∙ append_assoc c.multi_rules a.rules b.rules;
    ends = AllEnd-append tail _ _ a.ends b.ends;
    single = elim a.single [
      | inl is ↦ inl is
      | inr no_first ↦ elim b.single [
        | inl is ↦ inl is
        | inr no_second ↦ inr (rw (no_first, no_second) refl)
      ]
    ];
    same_masks = b.same_masks ∙ a.same_masks;
    same_index = b.same_index ∙ a.same_index;
  }
