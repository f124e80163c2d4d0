-- ===== src/StringUtil/Reading.antt =====
-- Reading files in packages/gargoyle/libericstools/src/string_util.c. An open file is the list of the
-- bytes from its position on.
use openwrt_extra.Common.{
  ℕ, zero, suc, ◌+◌, ◌-◌, ltb, ◌==◌, if◌then◌else◌, Bool, true, false, ◌||◌, Option, none, some,
  List, [], ◌∷◌, ◌++◌, length, take, drop,
}

abbrev pub is_terminator : List ℕ → ℕ → Bool
is_terminator [] c = false
is_terminator (t ∷ terminators) c = c == t || is_terminator terminators c

-- The first loop: size_to_read and the terminator, of which `none` is EOF. The terminators are ASCII.
unfoldable pub read_to : List ℕ → List ℕ → ℕ × Option ℕ
read_to terminators [] = (0, none)
read_to terminators (c ∷ file) =
    let next = read_to terminators file in
    if is_terminator terminators c then (0, some c) else (suc next.0, next.1)

-- str and terminator, with the file after the call. The second pass goes back to the start, copies,
-- and reads the terminator; with nothing to copy the position is where the first pass ended.
unfoldable pub dynamic_read : List ℕ → List ℕ → List ℕ × Option ℕ × List ℕ
unfolding read_to
dynamic_read terminators file =
    let (size, terminator) = read_to terminators file in
    if ltb 0 size
    then (take size file, terminator, drop 1 (drop size file))
    else ([], terminator, drop 1 file)

unfoldable pub dyn_read_line : List ℕ → List ℕ × Option ℕ × List ℕ
dyn_read_line file = dynamic_read (b'\r' ∷ b'\n' ∷ []) file

-- The outer loop of `read_entire_file`, with what is read so far and max_read_size; `none` is the end of
-- the fuel.
unfoldable pub read_blocks : ℕ → List ℕ → ℕ → ℕ → List ℕ → Option (List ℕ)
read_blocks zero file block max_read_size read_string = none
read_blocks (suc fuel) file block max_read_size read_string =
    let room = max_read_size - length read_string in
    elim (ltb (length file) room) [
      | true ↦ some (read_string ++ take room file)
      | false ↦
          read_blocks fuel (drop room file) block (max_read_size + block)
            (read_string ++ take room file)
    ]

unfoldable pub read_entire_file : ℕ → List ℕ → ℕ → Option (List ℕ)
unfolding read_blocks
read_entire_file fuel file block = read_blocks fuel file block block []
