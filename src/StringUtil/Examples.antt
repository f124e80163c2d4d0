-- ===== src/StringUtil/Examples.antt =====
-- Runs of the string functions, and the theorems about them at concrete inputs.
use openwrt_extra.Common.{
  ℕ, ◌+◌, ◌≡◌, refl, true, false, none, some, List, [], ◌∷◌, ◌++◌, length, take, All, arith, ◌>>=◌,
}
use openwrt_extra.Common.Fields.{fields}
use openwrt_extra.StringUtil.Strings.{
  trim_flanking_whitespace, replace_prefix, begins_with, safe_strcmp, negative, positive,
  to_uppercase,
}
use openwrt_extra.StringUtil.Splitting.{is_separator, split_on_separators, join_strs}
use openwrt_extra.StringUtil.SplitLaws.{split_on_separators-fields}
use openwrt_extra.StringUtil.RoundTrip.{IsPart, split_on_separators-join_strs}
use openwrt_extra.StringUtil.Trim.{Blank, IsTrimmed, trim_flanking_whitespace-IsTrimmed}
use openwrt_extra.StringUtil.Replacing.{dynamic_replace}
use openwrt_extra.StringUtil.ReplaceLaws.{between, Occurs, dynamic_replace-between}
use openwrt_extra.StringUtil.Reading.{dynamic_read, read_entire_file}
use openwrt_extra.StringUtil.ReadLaws.{read_entire_file-eq}

-- " a, b,,c"
abbrev line : List ℕ
line = b' ' ∷ b'a' ∷ b',' ∷ b' ' ∷ b'b' ∷ b',' ∷ b',' ∷ b'c' ∷ []

abbrev commas : List ℕ
commas = b',' ∷ b' ' ∷ []

split_test :
    (split_on_separators (some line) commas none true
      ≡ some ((b'a' ∷ []) ∷ (b'b' ∷ []) ∷ (b'c' ∷ []) ∷ []))
    × (split_on_separators (some line) commas (some 2) true
        ≡ some ((b'a' ∷ []) ∷ (b'b' ∷ b',' ∷ b',' ∷ b'c' ∷ []) ∷ []))
    × (split_on_separators none commas none true ≡ some [])
    × (split_on_separators (some line) [] none true ≡ none)
unfolding split_on_separators is_separator
split_test = (refl, refl, refl, refl)

trim_test :
    trim_flanking_whitespace (b' ' ∷ b'a' ∷ b' ' ∷ b'b' ∷ b'\n' ∷ []) ≡ b'a' ∷ b' ' ∷ b'b' ∷ []
unfolding trim_flanking_whitespace
trim_test = refl

strings_test :
    (replace_prefix (some (b'a' ∷ b'b' ∷ [])) (some (b'a' ∷ [])) (some (b'c' ∷ b'd' ∷ []))
      ≡ some (b'c' ∷ b'd' ∷ b'b' ∷ []))
    × (safe_strcmp none (some []) ≡ positive)
    × (safe_strcmp (some (b'a' ∷ [])) (some (b'b' ∷ [])) ≡ negative)
    × (to_uppercase (b'a' ∷ b'Z' ∷ b'1' ∷ []) ≡ b'A' ∷ b'Z' ∷ b'1' ∷ [])
unfolding replace_prefix safe_strcmp to_uppercase
strings_test = (refl, refl, refl, refl)

replace_test :
    (dynamic_replace (b'a' ∷ b'a' ∷ b'a' ∷ []) (b'a' ∷ b'a' ∷ []) (b'b' ∷ [])
      ≡ some (b'b' ∷ b'a' ∷ [], 3))
    × (dynamic_replace (b'a' ∷ []) [] (b'b' ∷ []) ≡ none)
unfolding dynamic_replace begins_with
replace_test = (refl, refl)

read_test :
    (dynamic_read (b'\n' ∷ []) (b'a' ∷ b'\n' ∷ b'b' ∷ []) ≡ (b'a' ∷ [], some b'\n', b'b' ∷ []))
    × (read_entire_file 4 (b'a' ∷ b'b' ∷ b'c' ∷ []) 2 ≡ some (b'a' ∷ b'b' ∷ b'c' ∷ []))
unfolding dynamic_read read_entire_file
read_test = (refl, refl)

split_on_separators-fields_example :
    (split_on_separators (some line) commas (some 2) false
      ≡ some (take 2 (fields (is_separator commas) line)))
    × (split_on_separators (some line) commas none true ≡ some (fields (is_separator commas) line))
split_on_separators-fields_example = split_on_separators-fields b',' (b' ' ∷ []) line 2 true

abbrev two_parts : List (List ℕ)
two_parts = (b'a' ∷ b'b' ∷ []) ∷ (b'c' ∷ []) ∷ []

two_parts-IsPart : All (IsPart (is_separator (b',' ∷ []))) two_parts
unfolding is_separator
two_parts-IsPart = ground arith

split_on_separators-join_strs_example :
    (join_strs (b',' ∷ []) two_parts none >>= λ joined.
    split_on_separators (some joined) (b',' ∷ []) none true)
    ≡ some two_parts
split_on_separators-join_strs_example =
    split_on_separators-join_strs b',' (b'a' ∷ b'b' ∷ []) ((b'c' ∷ []) ∷ []) true two_parts-IsPart

trim_flanking_whitespace-IsTrimmed_example :
    (front : List ℕ) × (back : List ℕ) × (line ≡ front ++ (trim_flanking_whitespace line ++ back))
    × Blank front
    × Blank back
    × IsTrimmed (trim_flanking_whitespace line)
trim_flanking_whitespace-IsTrimmed_example = trim_flanking_whitespace-IsTrimmed line

dynamic_replace-between_example :
    (ret : List ℕ) × (piece : List ℕ) × (pieces : List (List ℕ)) × (dynamic_replace line
        (b',' ∷ [])
        commas
      ≡ some (ret, length ret + 1))
    × (line ≡ between (b',' ∷ []) piece pieces)
    × (ret ≡ between commas piece pieces)
    × All (λ (q : List ℕ). Occurs (b',' ∷ []) q → ⊥) (piece ∷ pieces)
dynamic_replace-between_example = dynamic_replace-between line (b',' ∷ []) commas (omega arith)

read_entire_file-eq_example : read_entire_file 9 line 3 ≡ some line
read_entire_file-eq_example = read_entire_file-eq 3 (omega arith) line
