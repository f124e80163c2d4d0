-- ===== src/Firewall/MarkLaws.antt =====
-- The marks of compute_rules: what the rules of the dimensions leave in the mark of a connection, against the mark
-- that the rule for the target asks for.
use openwrt_extra.Common.{
  ℕ, ◌+◌, ◌==◌, not, ◌&&◌, ◌||◌, if◌then◌else◌, Bool, true, false, List, [], ◌∷◌, length,
}
use openwrt_extra.Firewall.Text.{Text}
use openwrt_extra.Firewall.Rules.{mask_of, mask_loop}
use openwrt_extra.Firewall.Groups.{Group}

-- What is left of a dimension: what its rules set, if one of them matches the packet, and else what it began with.
-- A negated dimension begins with its mark; that of the URLs does so only for an HTTP request.
abbrev pub left_bit : Bool → ℕ → Bool → Bool → Bool → ℕ
left_bit begins mask is_negated is_multi hit =
    if is_multi
    then (if hit
        then (if is_negated then 0 else mask)
        else (if is_negated && begins then mask else 0))
    else 0

-- Whether a packet meets a dimension: none of the rules of a negated one matches, or one of those of another one.
abbrev pub meets_bit : Bool → Bool → Bool → Bool → Bool
meets_bit begins is_negated is_multi hit =
    if is_multi then (if is_negated then not hit && begins else hit) else true

abbrev pub begins_at : Bool → ℕ → Bool
begins_at http mask_byte_index = not (mask_byte_index == 0) || http

-- The mark that is left, where `hits` says of each dimension whether one of its rules matches the packet, and
-- whether the packet meets all dimensions.
unfoldable pub left_mark : Bool → ℕ → List (Bool × Bool) → List Bool → ℕ
unfolding mask_of
left_mark http index masks [] = 0
left_mark http index [] (hit ∷ hits) =
    left_bit true (mask_of index) false true hit + left_mark http (index + 1) [] hits
left_mark http index ((is_negated, is_multi) ∷ masks) (hit ∷ hits) =
    left_bit (begins_at http index) (mask_of index) is_negated is_multi hit
    + left_mark http (index + 1) masks hits

unfoldable pub meets : Bool → ℕ → List (Bool × Bool) → List Bool → Bool
meets http index masks [] = true
meets http index [] (hit ∷ hits) = hit && meets http (index + 1) [] hits
meets http index ((is_negated, is_multi) ∷ masks) (hit ∷ hits) =
    meets_bit (begins_at http index) is_negated is_multi hit && meets http (index + 1) masks hits

-- The mark of a dimension that is asked for.
abbrev final_bit : Bool → ℕ → ℕ
final_bit is_multi mask = if is_multi then mask else 0

module _ (http : Bool) where
  abbrev final_mark : List Bool → ℕ → List (Bool × Bool) → ℕ
  final_mark hits index masks = (mask_loop (length hits) index masks).0

-- No rule matches.
abbrev no_hits : List Bool → List Bool
no_hits [] = []
no_hits (hit ∷ hits) = false ∷ no_hits hits

-- Whether some rule matches a packet, where `matches` says of each rule whether the packet passes its tests.
abbrev pub any_match : (Text → Bool) → List Text → Bool
any_match matches [] = false
any_match matches (rule ∷ rules) = matches rule || any_match matches rules

abbrev pub hits_of : (Text → Bool) → List Group → List Bool
hits_of matches [] = []
hits_of matches (group ∷ groups) = any_match matches group.rules ∷ hits_of matches groups

-- The mark that the rules leave: of each dimension the value that its rules set, if one of them matches, and else
-- what the mark began with.
abbrev pub left_by : (Text → Bool) → Bool → ℕ → List (Bool × Bool) → List Group → ℕ
left_by matches http index masks [] = 0
left_by matches http index [] (group ∷ groups) =
    (if any_match matches group.rules then group.value else 0)
    + left_by matches http (index + 1) [] groups
left_by matches http index ((is_negated, is_multi) ∷ masks) (group ∷ groups) =
    (if any_match matches group.rules
      then group.value
      else (if is_multi
          then (if is_negated && begins_at http index then mask_of index else 0)
          else 0))
    + left_by matches http (index + 1) masks groups
