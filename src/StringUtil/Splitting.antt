-- ===== src/StringUtil/Splitting.antt =====
-- Splitting and joining in packages/gargoyle/libericstools/src/string_util.c. A C string is the list of
-- its bytes without the closing zero, an array of strings that ends in NULL is a list, and `none` is
-- a read outside a string, or the end of the fuel.
use openwrt_extra.Common.{
  ℕ, zero, suc, ◌+◌, ltb, ◌==◌, if◌then◌else◌, Bool, true, false, not, ◌||◌, Option, none, some,
  List, [], ◌∷◌, ◌++◌, length, take, drop, ◌>>=◌,
}

-- The loops over the separators; none of them is zero.
unfoldable pub is_separator : List ℕ → ℕ → Bool
is_separator [] c = false
is_separator (sep ∷ separators) c = let rest = is_separator separators c in sep == c || rest

-- separator_count
unfoldable pub separator_count : List ℕ → List ℕ → ℕ
separator_count separators [] = 0
separator_count separators (c ∷ line) =
    let count = separator_count separators line in
    if is_separator separators c then suc count else count

-- The loop that moves `start` to the next byte that is no separator, or to the end.
unfoldable pub skip_separators : List ℕ → List ℕ → List ℕ
skip_separators separators [] = []
skip_separators separators (c ∷ start) =
    let rest = skip_separators separators start in
    if is_separator separators c then rest else c ∷ start

-- The index of the next separator, or of the end.
unfoldable pub separator_index : List ℕ → List ℕ → ℕ
separator_index separators [] = 0
separator_index separators (c ∷ start) =
    let index = separator_index separators start in
    if is_separator separators c then 0 else suc index

-- first_separator_index. The end is only noticed in the loop over the separators, so that without
-- any the search runs past it.
unfoldable pub first_separator_index : List ℕ → List ℕ → Option ℕ
unfolding separator_index
first_separator_index [] start = none
first_separator_index (sep ∷ separators) start = some (separator_index (sep ∷ separators) start)

-- The piece that is copied.
unfoldable pub next_piece : Bool → ℕ → ℕ → ℕ → List ℕ → List ℕ
next_piece include_remainder_at_max max_pieces split_index index start =
    if ltb (split_index + 1) max_pieces || not include_remainder_at_max
    then take index start
    else start

-- The main loop, with `start` and `split_index`.
unfoldable pub split_loop : List ℕ → Bool → ℕ → ℕ → List ℕ → ℕ → Option (List (List ℕ))
unfolding first_separator_index skip_separators next_piece
split_loop separators include max_pieces zero start split_index = none
split_loop separators include max_pieces (suc fuel) [] split_index = some []
split_loop separators include max_pieces (suc fuel) (c ∷ start) split_index =
    elim (ltb split_index max_pieces) [
      | false ↦ some []
      | true ↦ first_separator_index separators (c ∷ start) >>= λ index. elim (index == 0) [
        | true ↦
            split_loop separators include max_pieces fuel
              (skip_separators separators (drop index (c ∷ start))) split_index
        | false ↦
            split_loop separators include max_pieces fuel
              (skip_separators separators (drop index (c ∷ start))) (split_index + 1)
            >>= λ pieces.
                some (next_piece include max_pieces split_index index (c ∷ start) ∷ pieces)
      ]
    ]

-- The bound on the pieces; `none` is a negative one.
unfoldable pub pieces_bound : List ℕ → List ℕ → Option ℕ → ℕ
unfolding separator_count
pieces_bound separators line none = separator_count separators line + 1
pieces_bound separators line (some max_pieces) = max_pieces

-- The pieces; *num_pieces is their number. `none` is a NULL line.
unfoldable pub split_on_separators :
    Option (List ℕ) → List ℕ → Option ℕ → Bool → Option (List (List ℕ))
unfolding split_loop skip_separators pieces_bound
split_on_separators none separators max_pieces include = some []
split_on_separators (some line) separators max_pieces include =
    split_loop separators include (pieces_bound separators line max_pieces) (length line + 1)
      (skip_separators separators line) 0

-- The strings that are not NULL, one after another.
unfoldable pub dynamic_strcat : List (Option (List ℕ)) → List ℕ
dynamic_strcat [] = []
dynamic_strcat (none ∷ strs) = dynamic_strcat strs
dynamic_strcat (some s ∷ strs) = s ++ dynamic_strcat strs

-- The loop of `join_strs`, which goes from the last part to the first; `none` is NULL.
unfoldable pub join_loop : List ℕ → List (List ℕ) → Option (List ℕ)
unfolding dynamic_strcat
join_loop separator [] = none
join_loop separator (part ∷ []) = some part
join_loop separator (part ∷ next ∷ parts) = join_loop separator (next ∷ parts) >>= λ joined.
    some (dynamic_strcat (some part ∷ some separator ∷ some joined ∷ []))

-- `none` as `max_parts` is a negative number.
unfoldable pub join_strs : List ℕ → List (List ℕ) → Option ℕ → Option (List ℕ)
unfolding join_loop
join_strs separator parts none = join_loop separator parts
join_strs separator parts (some max_parts) = join_loop separator (take max_parts parts)
