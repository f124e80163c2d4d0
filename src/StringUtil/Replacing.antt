-- ===== src/StringUtil/Replacing.antt =====
-- dynamic_replace of packages/gargoyle/libericstools/src/string_util.c.
use openwrt_extra.Common.{
  ℕ, zero, suc, ◌+◌, ◌-◌, ◌*◌, ltb, if◌then◌else◌, true, false, Option, none, some, List, [], ◌∷◌,
  ◌++◌, length, drop, ◌>>=◌,
}
use openwrt_extra.StringUtil.Strings.{begins_with}

-- The loop that counts, with the rest of the template; `none` is the end of the fuel.
unfoldable pub count_loop : List ℕ → ℕ → List ℕ → Option ℕ
count_loop old zero s = none
count_loop old (suc fuel) [] = some 0
count_loop old (suc fuel) (c ∷ s) = elim (begins_with old (c ∷ s)) [
  | true ↦ count_loop old fuel (drop (length old) (c ∷ s)) >>= λ count. some (suc count)
  | false ↦ count_loop old fuel s
]

-- The loop that writes: what it appends to `ret`.
unfoldable pub replace_loop : List ℕ → List ℕ → ℕ → List ℕ → Option (List ℕ)
replace_loop old new zero s = none
replace_loop old new (suc fuel) [] = some []
replace_loop old new (suc fuel) (c ∷ s) = elim (begins_with old (c ∷ s)) [
  | true ↦ replace_loop old new fuel (drop (length old) (c ∷ s)) >>= λ ret. some (new ++ ret)
  | false ↦ replace_loop old new fuel s >>= λ ret. some (c ∷ ret)
]

-- The size that is allocated: i + 1 + count * (newlen - oldlen), where i is the template's length.
abbrev pub replaced_size : List ℕ → List ℕ → List ℕ → ℕ → ℕ
replaced_size template old new count = length template + 1 + count * length new - count * length old

-- The result with the size of its block; `none` is also a write past the block.
unfoldable pub dynamic_replace : List ℕ → List ℕ → List ℕ → Option (List ℕ × ℕ)
unfolding count_loop replace_loop
dynamic_replace template old new = do
  count ← count_loop old (length template + 1) template
  ret ← replace_loop old new (length template + 1) template
  if ltb (replaced_size template old new count) (length ret + 1)
      then none
      else some (ret, replaced_size template old new count)
