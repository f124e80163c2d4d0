-- ===== src/Firewall/Quoted.antt =====
-- parse_quoted_list of packages/gargoyle/gargoyle-firewall-util/src/make_iptables_rules.c. A C string is the list of
-- its bytes without the closing zero; `none` is a write outside the array of the pieces.
use openwrt_extra.Common.{
  ℕ, ◌+◌, ◌-◌, ◌/◌, ltb, ◌==◌, not, ◌&&◌, if◌then◌else◌, Bool, false, Option, none, some, List, [],
  ◌∷◌, ◌++◌, length, take, drop,
}

module _ (quote_char escape_char : ℕ) where
  -- A quote character that is not escaped.
  abbrev pub is_quote : Bool → ℕ → Bool
  is_quote previous_is_quoted c = c == quote_char && not previous_is_quoted

  -- previous_is_quoted after a character.
  abbrev pub escapes : Bool → ℕ → Bool
  escapes previous_is_quoted c = c == escape_char && not previous_is_quoted

  -- The first loop.
  unfoldable pub num_quotes : Bool → List ℕ → ℕ
  num_quotes previous_is_quoted [] = 0
  num_quotes previous_is_quoted (c ∷ rest) =
      (if is_quote previous_is_quoted c then 1 else 0)
      + num_quotes (escapes previous_is_quoted c) rest

  abbrev pub copied : List ℕ → ℕ → ℕ → List ℕ
  copied list_str next_start_index list_index =
      take (list_index - next_start_index) (drop next_start_index list_str)

  -- The second loop over the rest of the string, from list_index on: the pieces, and next_start_index at the end,
  -- where `none` is a negative one.
  unfoldable pub pieces_loop : List ℕ → List ℕ → ℕ → Option ℕ → Bool → List (List ℕ) × Option ℕ
  pieces_loop list_str [] list_index next_start_index previous_is_quoted = ([], next_start_index)
  pieces_loop list_str (c ∷ rest) list_index none previous_is_quoted =
      pieces_loop list_str rest (list_index + 1)
        (if is_quote previous_is_quoted c then some (list_index + 1) else none)
        (escapes previous_is_quoted c)
  pieces_loop list_str (c ∷ rest) list_index (some start) previous_is_quoted =
      let closes = is_quote previous_is_quoted c in
      let (pieces, end) =
        pieces_loop list_str rest (list_index + 1) (if closes then none else some start)
          (escapes previous_is_quoted c) in
      (if closes then copied list_str start list_index ∷ pieces else pieces, end)

  -- The remainder, with the closing zero of the string, which ends it.
  unfoldable pub remainder : List ℕ → Bool → Option ℕ → List (List ℕ)
  remainder list_str add_remainder none = []
  remainder list_str add_remainder (some start) =
      if add_remainder then drop start list_str ∷ [] else []

  -- The pieces, or the string if there are none.
  abbrev pub or_whole : List ℕ → List (List ℕ) → List (List ℕ)
  or_whole list_str [] = list_str ∷ []
  or_whole list_str (piece ∷ pieces) = piece ∷ pieces

  -- The array has room for the pieces and NULL.
  unfoldable pub parse_quoted_list : List ℕ → Bool → Option (List (List ℕ))
  unfolding num_quotes pieces_loop remainder
  parse_quoted_list list_str add_remainder =
      let (pieces, next_start_index) = pieces_loop list_str list_str 0 none false in
      let all_pieces = pieces ++ remainder list_str add_remainder next_start_index in
      if ltb (length all_pieces) (num_quotes false list_str / 2 + 2)
      then some (or_whole list_str all_pieces)
      else none
