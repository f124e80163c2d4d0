-- ===== src/Firewall/QuotedLaws.antt =====
-- What parse_quoted_list reads.
use openwrt_extra.Common.{
  ℕ, ◌+◌, ◌*◌, ◌-◌, ◌/◌, ◌<◌, ◌≤◌, ◌≡◌, refl, sym, ap, ◌∙◌, inl, inr, Bool-cases, ltb, ◌==◌,
  if◌then◌else◌, Bool, true, false, Option, none, some, List, [], ◌∷◌, ◌++◌, append-nil,
  append_assoc, length, length-append, take-append, drop-append, All, arith,
}
use openwrt_extra.Firewall.Quoted.{
  is_quote, escapes, num_quotes, copied, pieces_loop, remainder, or_whole, parse_quoted_list,
}

module _ (quote_char escape_char : ℕ) where
  -- Whether a piece has begun.
  abbrev opened : Option ℕ → ℕ
  opened none = 0
  opened (some start) = 1

  -- Two quotes make a piece, but for one that has begun.
  num_quotes-pieces :
      (list_str rest : List ℕ) (list_index : ℕ) (start : Option ℕ) (previous : Bool)
      → let loop = pieces_loop quote_char escape_char list_str rest list_index start previous in
        num_quotes quote_char escape_char previous rest + opened start
        ≡ 2 * length loop.0 + opened loop.1
  unfolding num_quotes pieces_loop
  num_quotes-pieces list_str [] i start previous = omega arith
  num_quotes-pieces list_str (c ∷ rest) i none previous =
      elim (Bool-cases (is_quote quote_char escape_char previous c)) [
        | inl quote ↦
            rw (quote, pieces_loop)
              (omega (
                arith,
                num_quotes-pieces list_str rest (i + 1) (some (i + 1))
                    (escapes quote_char escape_char previous c),
              ))
        | inr other ↦
            rw (other, pieces_loop)
              (omega (
                arith,
                num_quotes-pieces list_str rest (i + 1) none
                    (escapes quote_char escape_char previous c),
              ))
      ]
  num_quotes-pieces list_str (c ∷ rest) i (some start) previous =
      elim (Bool-cases (is_quote quote_char escape_char previous c)) [
        | inl quote ↦
            rw (quote, pieces_loop)
              (omega (
                arith,
                num_quotes-pieces list_str rest (i + 1) none
                    (escapes quote_char escape_char previous c),
              ))
        | inr other ↦
            rw (other, pieces_loop)
              (omega (
                arith,
                num_quotes-pieces list_str rest (i + 1) (some start)
                    (escapes quote_char escape_char previous c),
              ))
      ]

  opened_le : (start : Option ℕ) → opened start ≤ 1
  opened_le none = omega arith
  opened_le (some start) = omega arith

  remainder_le :
      (list_str : List ℕ) (add : Bool) (start : Option ℕ)
      → length (remainder quote_char escape_char list_str add start) ≤ opened start
  unfolding remainder
  remainder_le list_str add none = omega arith
  remainder_le list_str true (some start) = omega arith
  remainder_le list_str false (some start) = omega arith

  or_whole_size :
      (list_str : List ℕ) (pieces : List (List ℕ)) (bound : ℕ)
      → length pieces ≤ bound
      → 0 < bound
      → (0 < length (or_whole quote_char escape_char list_str pieces))
        × (length (or_whole quote_char escape_char list_str pieces) ≤ bound)
  or_whole_size list_str [] bound small some_room = (omega arith, omega arith)
  or_whole_size list_str (piece ∷ pieces) bound small some_room = (omega arith, small)

  -- For every string, parse_quoted_list writes nothing outside the array of the pieces, which has two elements more
  -- than half of the quotes that are not escaped. It gives one string at least, and at most one more than half of
  -- these quotes, whether the remainder is asked for or not.
  pub parse_quoted_list-bound :
      (list_str : List ℕ) (add_remainder : Bool)
      → (strings : List (List ℕ)) × (parse_quoted_list quote_char escape_char list_str add_remainder
          ≡ some strings)
        × (0 < length strings)
        × (length strings ≤ num_quotes quote_char escape_char false list_str / 2 + 1)
  unfolding parse_quoted_list
  parse_quoted_list-bound list_str add =
      let loop = pieces_loop quote_char escape_char list_str list_str 0 none false in
      let counted = num_quotes-pieces list_str list_str 0 none false in
      let rest = remainder quote_char escape_char list_str add loop.1 in
      let extra = remainder_le list_str add loop.1 in
      let size = length-append loop.0 rest in
      let small : length (loop.0 ++ rest)
          ≤ num_quotes quote_char escape_char false list_str / 2 + 1 =
        omega (arith, counted, extra, size, opened_le loop.1) in
      let room : ltb (length (loop.0 ++ rest))
            (num_quotes quote_char escape_char false list_str / 2 + 2)
          ≡ true =
        ground (arith, small) in
      let (positive, bound) =
        or_whole_size list_str (loop.0 ++ rest)
          (num_quotes quote_char escape_char false list_str / 2 + 1) small (omega arith) in
      (or_whole quote_char escape_char list_str (loop.0 ++ rest), rw room refl, positive, bound)

-- A string that can stand between quotes: none of its characters is a quote that is not escaped, and its last one
-- escapes nothing.
module _ (quote_char escape_char : ℕ) where
  abbrev pub IsQuotable : Bool → List ℕ → Type 0
  IsQuotable previous [] = previous ≡ false
  IsQuotable previous (c ∷ rest) =
      (is_quote quote_char escape_char previous c ≡ false)
      × IsQuotable (escapes quote_char escape_char previous c) rest

  -- The strings between quotes, with a blank after each.
  abbrev pub quoted_list : List (List ℕ) → List ℕ
  quoted_list [] = []
  quoted_list (text ∷ texts) = quote_char ∷ (text ++ (quote_char ∷ b' ' ∷ quoted_list texts))

module _ (quote_char escape_char : ℕ) (differ : (quote_char == escape_char) ≡ false)
    (plain : (b' ' == quote_char) ≡ false) (unescaped : (b' ' == escape_char) ≡ false) where
  abbrev loop : List ℕ → List ℕ → ℕ → Option ℕ → Bool → List (List ℕ) × Option ℕ
  loop = pieces_loop quote_char escape_char

  inside :
      (list_str text tail : List ℕ) (i start : ℕ) (previous : Bool)
      → IsQuotable quote_char escape_char previous text
      → let later = loop list_str tail (i + length text + 1) none false in
        loop list_str (text ++ quote_char ∷ tail) i (some start) previous
        ≡ (copied quote_char escape_char list_str start (i + length text) ∷ later.0, later.1)
  unfolding pieces_loop
  inside list_str [] tail i start previous ok =
      let closes : is_quote quote_char escape_char false quote_char ≡ true = ground arith in
      let at_end : i + 0 ≡ i = omega arith in rw (ok, closes, differ, at_end, pieces_loop) refl
  inside list_str (c ∷ text) tail i start previous (no_quote, ok) =
      let e : i + length (c ∷ text) ≡ i + 1 + length text = omega arith in
      rw (no_quote, pieces_loop, e)
        (inside list_str text tail (i + 1) start (escapes quote_char escape_char previous c) ok)

  after_blank :
      (list_str rest : List ℕ) (i : ℕ)
      → loop list_str (b' ' ∷ rest) i none false ≡ loop list_str rest (i + 1) none false
  unfolding pieces_loop
  after_blank list_str rest i = rw (plain, unescaped) refl

  copied-text :
      (front text rest : List ℕ) (start : ℕ)
      → start ≡ length front + 1
      → copied quote_char escape_char
          (front ++ quote_char ∷ (text ++ rest))
          start
          (start + length text)
        ≡ text
  copied-text front text rest start e =
      let regroup : front ++ quote_char ∷ (text ++ rest)
          ≡ (front ++ quote_char ∷ []) ++ (text ++ rest) =
        sym (append_assoc front (quote_char ∷ []) (text ++ rest)) in
      let size : length (front ++ quote_char ∷ []) ≡ start =
        length-append front (quote_char ∷ []) ∙ sym e in
      let span : start + length text - start ≡ length text = omega arith in
      rw (regroup, drop-append start (front ++ quote_char ∷ []) (text ++ rest) size, span)
        (take-append (length text) text rest refl)

  pieces_loop-quoted_list :
      (front : List ℕ) (texts : List (List ℕ)) (i : ℕ)
      → i ≡ length front
      → All (IsQuotable quote_char escape_char false) texts
      → loop
          (front ++ quoted_list quote_char escape_char texts)
          (quoted_list quote_char escape_char texts)
          i
          none
          false
        ≡ (texts, none)
  unfolding pieces_loop
  pieces_loop-quoted_list front [] i e ok = refl
  pieces_loop-quoted_list front (text ∷ texts) i e (here, ok) =
      let closes : is_quote quote_char escape_char false quote_char ≡ true = ground arith in
      let later = quoted_list quote_char escape_char texts in
      let whole = front ++ quote_char ∷ (text ++ (quote_char ∷ b' ' ∷ later)) in
      let passed = front ++ (quote_char ∷ (text ++ (quote_char ∷ b' ' ∷ []))) in
      let regroup : whole ≡ passed ++ later = simp append_assoc refl in
      let size : i + 1 + length text + 1 + 1 ≡ length passed = omega (
        arith,
        e,
        length-append front (quote_char ∷ (text ++ (quote_char ∷ b' ' ∷ []))),
        length-append text (quote_char ∷ b' ' ∷ []),
      ) in
      rw (closes, differ, pieces_loop)
        (inside whole text (b' ' ∷ later) (i + 1) (i + 1) false here
          ∙ rw
              (
                copied-text front text (quote_char ∷ b' ' ∷ later) (i + 1) (omega (arith, e)),
                after_blank whole later (i + 1 + length text + 1),
                regroup,
                pieces_loop-quoted_list passed texts (i + 1 + length text + 1 + 1) size ok,
              )
              refl)

  kept :
      {strings : List (List ℕ)} (b : Bool)
      → b ≡ true
      → (if b then some strings else none) ≡ some strings
  kept b yes_b = rw yes_b refl

  -- The strings that parse_quoted_list gives for a list of quoted strings, one at least, with a blank after each:
  -- the strings themselves, whether the remainder is asked for or not, where each of them has no quote that is not
  -- escaped and does not end in an escape character that is itself not escaped, and the quote, the escape character
  -- and the blank are three characters.
  pub parse_quoted_list-quoted_list :
      (text : List ℕ) (texts : List (List ℕ)) (add_remainder : Bool)
      → All (IsQuotable quote_char escape_char false) (text ∷ texts)
      → parse_quoted_list quote_char escape_char
          (quoted_list quote_char escape_char (text ∷ texts))
          add_remainder
        ≡ some (text ∷ texts)
  unfolding parse_quoted_list remainder
  parse_quoted_list-quoted_list text texts add ok =
      let list_str = quoted_list quote_char escape_char (text ∷ texts) in
      let run = pieces_loop-quoted_list [] (text ∷ texts) 0 refl ok in
      let counted = num_quotes-pieces quote_char escape_char list_str list_str 0 none false in
      let enough = rw run at counted in
      let room : ltb (length ((text ∷ texts) ++ []))
            (num_quotes quote_char escape_char false list_str / 2 + 2)
          ≡ true =
        ground (arith, enough, ap length (append-nil texts)) in
      rw run (kept _ room ∙ ap (λ strings. some (text ∷ strings)) (append-nil texts))
