-- ===== src/StringUtil/RoundTrip.antt =====
-- Splitting undoes joining.
use openwrt_extra.Common.{
  ℕ, ◌<◌, ◌≡◌, refl, ap, ◌∙◌, Bool, true, false, none, some, List, [], ◌∷◌, ◌++◌, append-nil,
  length, All, arith, ◌>>=◌,
}
use openwrt_extra.Common.Fields.{fields}
use openwrt_extra.StringUtil.Splitting.{
  is_separator, split_on_separators, join_strs, join_loop, dynamic_strcat,
}
use openwrt_extra.StringUtil.SplitLaws.{split_on_separators-fields}

-- A part that a separator can set off: not empty, and without the test's bytes.
abbrev pub IsPart : (ℕ → Bool) → List ℕ → Type 0
IsPart p w = (0 < length w) × All (λ (c : ℕ). p c ≡ false) w

module _ (p : ℕ → Bool) where
  fields-part : (w : List ℕ) → IsPart p w → fields p w ≡ w ∷ []
  unfolding fields
  fields-part [] h = absurd (omega (arith, h.0))
  fields-part (x ∷ []) (h, (a, _)) = rw a refl
  fields-part (x ∷ y ∷ w) (h, (a, (b, c))) =
      rw a (rw (fields-part (y ∷ w) (omega arith, (b, c))) (rw b refl))

  pub fields-part_append :
      (w : List ℕ) (c : ℕ) (s : List ℕ)
      → IsPart p w
      → p c ≡ true
      → fields p (w ++ c ∷ s) ≡ w ∷ fields p s
  unfolding fields
  fields-part_append [] c s h sep = absurd (omega (arith, h.0))
  fields-part_append (x ∷ []) c s (h, (a, _)) sep = rw a (rw sep refl)
  fields-part_append (x ∷ y ∷ w) c s (h, (a, (b, r))) sep =
      rw a (rw (fields-part_append (y ∷ w) c s (omega arith, (b, r)) sep) (rw b refl))

  join_loop-fields :
      (sep : ℕ) (part : List ℕ) (parts : List (List ℕ))
      → p sep ≡ true
      → All (IsPart p) (part ∷ parts)
      → (joined : List ℕ) × (join_loop (sep ∷ []) (part ∷ parts) ≡ some joined)
        × (fields p joined ≡ part ∷ parts)
  unfolding join_loop dynamic_strcat
  join_loop-fields sep part [] is_sep (h, _) = (part, refl, fields-part part h)
  join_loop-fields sep part (next ∷ parts) is_sep (h, hs) =
      let (joined, e, f) = join_loop-fields sep next parts is_sep hs in
      (
        part ++ sep ∷ joined,
        rw (e, ◌>>=◌) (ap (λ x. some (part ++ sep ∷ x)) (append-nil joined)),
        fields-part_append part sep joined h is_sep ∙ ap (λ fs. part ∷ fs) f,
      )

-- Parts that are not empty and do not contain the byte `sep`, joined with `sep` and split at it, are
-- the parts, whether the remainder is asked for or not.
pub split_on_separators-join_strs :
    (sep : ℕ) (part : List ℕ) (parts : List (List ℕ)) (include : Bool)
    → All (IsPart (is_separator (sep ∷ []))) (part ∷ parts)
    → (join_strs (sep ∷ []) (part ∷ parts) none >>= λ joined.
        split_on_separators (some joined) (sep ∷ []) none include)
      ≡ some (part ∷ parts)
unfolding join_strs
split_on_separators-join_strs sep part parts include h =
    let (joined, e, f) = join_loop-fields (is_separator (sep ∷ [])) sep part parts (itself sep) h in
    rw (e, ◌>>=◌) ((split_on_separators-fields sep [] joined 0 include).1 ∙ ap some f)
  where
    itself : (sep : ℕ) → is_separator (sep ∷ []) sep ≡ true
    itself sep = unfold is_separator in ground arith
