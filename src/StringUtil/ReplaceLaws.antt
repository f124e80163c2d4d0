-- ===== src/StringUtil/ReplaceLaws.antt =====
-- What `dynamic_replace` gives.
use openwrt_extra.Common.{
  ℕ, zero, suc, ◌+◌, ◌*◌, ◌<◌, ◌≡◌, refl, sym, ap, ◌∙◌, ◌⊎◌, inl, inr, ltb, ◌==◌, ==_iff, true,
  false, some, List, [], ◌∷◌, ◌++◌, append-nil, length, length-append, drop, All, arith, Bool-cases,
}
use openwrt_extra.StringUtil.Strings.{begins_with}
use openwrt_extra.StringUtil.Replacing.{count_loop, replace_loop, replaced_size, dynamic_replace}

-- Strings with another between each two.
unfoldable pub between : List ℕ → List ℕ → List (List ℕ) → List ℕ
between sep q [] = q
between sep q (r ∷ rs) = q ++ (sep ++ between sep r rs)

-- `old` is somewhere in the string.
abbrev pub Occurs : List ℕ → List ℕ → Type 0
Occurs old [] = ⊥
Occurs old (c ∷ s) = (begins_with old (c ∷ s) ≡ true) ⊎ Occurs old s

begins_with-split : (old s : List ℕ) → begins_with old s ≡ true → s ≡ old ++ drop (length old) s
unfolding begins_with
begins_with-split [] s h = refl
begins_with-split (c ∷ old) [] h = cc h
begins_with-split (c ∷ old) (d ∷ s) h = elim (Bool-cases (c == d)) [
  | inl same ↦
      let rest = begins_with-split old s (rw same at h) in
      let e = (==_iff c d).0 same in rw e (ap (λ x. d ∷ x) rest)
  | inr other ↦ cc (rw other at h)
]

begins_with-append : (old s t : List ℕ) → begins_with old s ≡ true → begins_with old (s ++ t) ≡ true
unfolding begins_with
begins_with-append [] s t h = refl
begins_with-append (c ∷ old) [] t h = cc h
begins_with-append (c ∷ old) (d ∷ s) t h = elim (Bool-cases (c == d)) [
  | inl same ↦ rw same (begins_with-append old s t (rw same at h))
  | inr other ↦ cc (rw other at h)
]

between-starts : (sep q : List ℕ) (rs : List (List ℕ)) → (t : List ℕ) × (between sep q rs ≡ q ++ t)
unfolding between
between-starts sep q [] = ([], sym (append-nil q))
between-starts sep q (r ∷ rs) = (sep ++ between sep r rs, refl)

between-cons :
    (sep q : List ℕ) (c : ℕ) (rs : List (List ℕ)) → between sep (c ∷ q) rs ≡ c ∷ between sep q rs
unfolding between
between-cons sep q c [] = refl
between-cons sep q c (r ∷ rs) = refl

-- What the two loops find: the pieces between the occurrences.
record IsCut (old new s : List ℕ) (fuel : ℕ) : Type 0 where
  piece : List ℕ
  pieces : List (List ℕ)
  template : s ≡ between old piece pieces
  apart : All (λ (q : List ℕ). Occurs old q → ⊥) (piece ∷ pieces)
  counted : count_loop old fuel s ≡ some (length pieces)
  replaced : replace_loop old new fuel s ≡ some (between new piece pieces)

module _ (old new : List ℕ) (nonempty : 0 < length old) where
  loops-IsCut : (fuel : ℕ) (s : List ℕ) → length s < fuel → IsCut old new s fuel
  unfolding count_loop replace_loop between
  loops-IsCut zero s h = absurd (omega arith)
  loops-IsCut (suc fuel) [] h = record {
    piece = [];
    pieces = [];
    template = refl;
    apart = ((λ x. x), tt);
    counted = refl;
    replaced = refl;
  }
  loops-IsCut (suc fuel) (c ∷ s) h = elim (Bool-cases (begins_with old (c ∷ s))) [
    | inl hit ↦
        let rest = drop (length old) (c ∷ s) in
        let whole = begins_with-split old (c ∷ s) hit in
        let cut = loops-IsCut fuel rest (omega (arith, ap length whole, length-append old rest)) in
        record {
          piece = [];
          pieces = cut.piece ∷ cut.pieces;
          template = whole ∙ ap (λ x. old ++ x) cut.template;
          apart = ((λ x. x), cut.apart);
          counted = rw (hit, count_loop) (rw (cut.counted) refl);
          replaced = rw (hit, replace_loop) (rw (cut.replaced) refl);
        }
    | inr miss ↦
        let cut = loops-IsCut fuel s (omega arith) in
        record {
          piece = c ∷ cut.piece;
          pieces = cut.pieces;
          template = ap (λ x. c ∷ x) cut.template ∙ sym (between-cons old cut.piece c cut.pieces);
          apart = (not_here s cut.piece cut.pieces cut.template miss cut.apart.0, cut.apart.1);
          counted = rw (miss, count_loop) (cut.counted);
          replaced =
              rw (miss, replace_loop)
                (rw (cut.replaced) (ap some (sym (between-cons new cut.piece c cut.pieces))));
        }
  ]
    where
      not_here :
          (s q : List ℕ) (rs : List (List ℕ))
          → s ≡ between old q rs
          → begins_with old (c ∷ s) ≡ false
          → (Occurs old q → ⊥)
          → Occurs old (c ∷ q)
          → ⊥
      not_here s q rs e miss none_in (inr later) = none_in later
      not_here s q rs e miss none_in (inl here) =
          let (t, split) = between-starts old q rs in
          cc (begins_with-append old (c ∷ q) t here, miss, e, split)

suc_mul : (n m : ℕ) → suc n * m ≡ m + n * m
suc_mul n m = omega arith

total : List (List ℕ) → ℕ
total [] = 0
total (q ∷ qs) = length q + total qs

length-between :
    (sep q : List ℕ) (qs : List (List ℕ))
    → length (between sep q qs) ≡ length q + total qs + length qs * length sep
unfolding between total
length-between sep q [] = omega arith
length-between sep q (r ∷ rs) = omega (
  arith,
  length-append q (sep ++ between sep r rs),
  length-append sep (between sep r rs),
  length-between sep r rs,
  suc_mul (length rs) (length sep),
)

-- For an `old` that is not empty `dynamic_replace` ends and writes nothing outside the block that it
-- allocates, of which it uses every byte, the closing zero included. The template is pieces without
-- `old` and `old` between each two; the result is the same pieces with `new` between them.
pub dynamic_replace-between :
    (template old new : List ℕ)
    → 0 < length old
    → (ret : List ℕ) × (piece : List ℕ) × (pieces : List (List ℕ)) × (dynamic_replace template old
          new
        ≡ some (ret, length ret + 1))
      × (template ≡ between old piece pieces)
      × (ret ≡ between new piece pieces)
      × All (λ (q : List ℕ). Occurs old q → ⊥) (piece ∷ pieces)
unfolding dynamic_replace
dynamic_replace-between template old new nonempty =
    let cut = loops-IsCut old new nonempty (length template + 1) template (omega arith) in
    let ret = between new cut.piece cut.pieces in
    let size : replaced_size template old new (length cut.pieces) ≡ length ret + 1 = omega (
      arith,
      ap length cut.template,
      length-between old cut.piece cut.pieces,
      length-between new cut.piece cut.pieces,
    ) in
    (
      ret,
      cut.piece,
      cut.pieces,
      rw (cut.counted) (rw (cut.replaced) (rw size (rw (ltb_self (length ret + 1)) refl))),
      cut.template,
      refl,
      cut.apart,
    )
  where
    ltb_self : (n : ℕ) → ltb n n ≡ false
    ltb_self n = ground arith
