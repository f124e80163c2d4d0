-- ===== src/StringUtil/SplitLaws.antt =====
-- What splitting gives: the longest runs without a separator.
use openwrt_extra.Common.{
  ℕ, zero, suc, ◌+◌, ◌-◌, ◌≤◌, ◌<◌, ◌≡◌, refl, sym, ap, ◌∙◌, ◌⊎◌, inl, inr, ltb, ◌==◌,
  if◌then◌else◌, Bool, true, false, not, ◌||◌, none, some, List, [], ◌∷◌, length, take, drop,
  take-nil, take-length, ◌>>=◌, arith, Bool-cases, ltb→lt,
}
use openwrt_extra.Common.Fields.{
  starts_run, fields, skip, run, hits, fields-skip, fields-run, length-fields_le, length-skip,
  hits-skip, skip-starts, run_positive, length-drop-run, hits_after,
}
use openwrt_extra.StringUtil.Splitting.{
  is_separator, separator_count, skip_separators, separator_index, first_separator_index,
  next_piece, split_loop, pieces_bound, split_on_separators,
}

separator_count-eq : (seps s : List ℕ) → separator_count seps s ≡ hits (is_separator seps) s
unfolding separator_count hits
separator_count-eq seps [] = refl
separator_count-eq seps (c ∷ s) = rw (separator_count-eq seps s) refl

skip_separators-eq : (seps s : List ℕ) → skip_separators seps s ≡ skip (is_separator seps) s
unfolding skip_separators skip
skip_separators-eq seps [] = refl
skip_separators-eq seps (c ∷ s) = rw (skip_separators-eq seps s) refl

separator_index-eq : (seps s : List ℕ) → separator_index seps s ≡ run (is_separator seps) s
unfolding separator_index run
separator_index-eq seps [] = refl
separator_index-eq seps (c ∷ s) = rw (separator_index-eq seps s) refl

less : (max i : ℕ) → i < max → max - i ≡ suc (max - (i + 1))
less max i h = omega arith

minus_zero : (n : ℕ) → n - 0 ≡ n
minus_zero n = omega arith

either : (b : Bool) (s : List ℕ) → (if b then s else s) ≡ s
either true s = refl
either false s = refl

module _ (sep : ℕ) (others : List ℕ) where
  abbrev separators : List ℕ
  separators = sep ∷ others

  abbrev p : ℕ → Bool
  p = is_separator separators

  first_separator_index-eq : (s : List ℕ) → first_separator_index separators s ≡ some (run p s)
  unfolding first_separator_index
  first_separator_index-eq s = ap some (separator_index-eq separators s)

  module _ (include : Bool) (max : ℕ) where
    -- Where the remainder is asked for, as many pieces as there can still be have their places.
    Fits : List ℕ → ℕ → Type 0
    Fits s i = (include ≡ false) ⊎ ((s ≡ []) ⊎ (i + hits p s + 1 ≤ max))

    piece-eq :
        (s : List ℕ) (i : ℕ)
        → starts_run p s ≡ true
        → Fits s i
        → next_piece include max i (run p s) s ≡ take (run p s) s
    unfolding next_piece Fits
    piece-eq s i starts fits = elim (Bool-cases (ltb (i + 1) max)) [
      | inl before ↦ rw before refl
      | inr last ↦ elim fits [
        | inl off ↦ rw last (rw off refl)
        | inr (inl none_left) ↦ cc (rw none_left at starts)
        | inr (inr room) ↦ elim (hits_after p s) [
          | inl (_, all) ↦ rw all (either (ltb (i + 1) max || not include) s)
          | inr more ↦ absurd (ground (arith, last))
        ]
      ]
    ]

    Fits-next :
        (s : List ℕ) (i : ℕ)
        → starts_run p s ≡ true
        → Fits s i
        → Fits (skip p (drop (run p s) s)) (i + 1)
    unfolding Fits
    Fits-next s i starts (inl off) = inl off
    Fits-next s i starts (inr (inl none_left)) = cc (rw none_left at starts)
    Fits-next s i starts (inr (inr room)) = elim (hits_after p s) [
      | inl (end, _) ↦ inr (inl (rw end (unfold skip in refl)))
      | inr more ↦ inr (inr (omega arith))
    ]

    split_loop-eq :
        (fuel : ℕ) (s : List ℕ) (i : ℕ)
        → length s < fuel
        → (s ≡ []) ⊎ (starts_run p s ≡ true)
        → Fits s i
        → split_loop separators include max fuel s i ≡ some (take (max - i) (fields p s))
    unfolding split_loop
    split_loop-eq zero s i h starts fits = absurd (omega arith)
    split_loop-eq (suc fuel) [] i h starts fits =
        ap some (sym (unfold fields in take-nil (max - i)))
    split_loop-eq (suc fuel) (c ∷ s) i h (inl e) fits = absurd (ground arith)
    split_loop-eq (suc fuel) (c ∷ s) i h (inr starts) fits = elim (Bool-cases (ltb i max)) [
      | inl room ↦
          let start = c ∷ s in
          let positive : (run p start == 0) ≡ false = ground (arith, run_positive p start starts) in
          let shorter : length (skip p (drop (run p start) start)) < fuel = omega (
            arith,
            length-skip p (drop (run p start) start),
            length-drop-run p start,
            run_positive p start starts,
          ) in
          let rest =
            split_loop-eq fuel (skip p (drop (run p start) start)) (i + 1) shorter
              (skip-starts p (drop (run p start) start)) (Fits-next start i starts fits) in
          rw (room, split_loop)
            (rw (first_separator_index-eq start) (
              rw (positive, ◌>>=◌)
                (rw (skip_separators-eq separators (drop (run p start) start)) (
                  rw rest (
                    rw (piece-eq start i starts fits) (
                      rw (fields-skip p (drop (run p start) start)) (
                        rw (fields-run p start starts)
                          (rw (less max i (ltb→lt i max room)) refl))))))))
      | inr full ↦
          let nothing : max - i ≡ 0 = ground (arith, full) in
          rw (full, split_loop) (rw nothing refl)
    ]

  -- With at least one separator and for any line, `split_on_separators` reads nothing outside it and
  -- ends. Without the remainder and with a bound on the pieces it gives the first fields of the line,
  -- as many as the bound; with a negative bound it gives all, whether the remainder is asked for or not. The
  -- fields are the longest runs of bytes that are no separators.
  pub split_on_separators-fields :
      (line : List ℕ) (max_pieces : ℕ) (include : Bool)
      → (split_on_separators (some line) separators (some max_pieces) false
          ≡ some (take max_pieces (fields (is_separator separators) line)))
        × (split_on_separators (some line) separators none include
            ≡ some (fields (is_separator separators) line))
  unfolding split_on_separators pieces_bound Fits
  split_on_separators-fields line m include =
      let enough : length (skip p line) < length line + 1 = omega (arith, length-skip p line) in
      let start = skip-starts p line in
      (
        rw (skip_separators-eq separators line) (
            split_loop-eq false m (length line + 1) (skip p line) 0 enough start (inl refl)
            ∙ rw (fields-skip p line) (rw (minus_zero m) refl)),
        rw (skip_separators-eq separators line) (
            rw (separator_count-eq separators line) (
              split_loop-eq include (hits p line + 1) (length line + 1) (skip p line) 0 enough start
                (inr (inr (omega (arith, hits-skip p line))))
              ∙ rw (fields-skip p line) (
                  rw (minus_zero (hits p line + 1)) (
                    ap some
                      (take-length (hits p line + 1) (fields p line) (length-fields_le p line)))))),
      )
