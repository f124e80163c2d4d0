-- ===== src/StringUtil/ReadLaws.antt =====
-- What the functions that read files return.
use openwrt_extra.Common.{
  ℕ, zero, suc, ◌+◌, ◌-◌, ◌≤◌, ◌<◌, ◌≡◌, refl, ap, ◌∙◌, inl, inr, ltb, if◌then◌else◌, true, false,
  Option, none, some, List, [], ◌∷◌, ◌++◌, append_assoc, length, length-append, take, take-length,
  take-drop, length-take, length-drop, drop, All, arith, Bool-cases,
}
use openwrt_extra.StringUtil.Reading.{
  is_terminator, read_to, dynamic_read, read_blocks, read_entire_file,
}

-- What a read found after the string: a terminator and the rest of the file, or the end.
abbrev pub Tail : List ℕ → Option ℕ → List ℕ → List ℕ → Type 0
Tail terminators none rest tail = (tail ≡ []) × (rest ≡ [])
Tail terminators (some c) rest tail = (is_terminator terminators c ≡ true) × (tail ≡ c ∷ rest)

abbrev pub Free : List ℕ → List ℕ → Type 0
Free terminators str = All (λ (c : ℕ). is_terminator terminators c ≡ false) str

take-append : (xs ys : List ℕ) → take (length xs) (xs ++ ys) ≡ xs
take-append [] ys = refl
take-append (x ∷ xs) ys = ap (λ zs. x ∷ zs) (take-append xs ys)

drop-append : (xs ys : List ℕ) → drop (length xs) (xs ++ ys) ≡ ys
drop-append [] ys = refl
drop-append (x ∷ xs) ys = drop-append xs ys

record IsScan (terminators file : List ℕ) : Type 0 where
  str : List ℕ
  terminator : Option ℕ
  rest : List ℕ
  tail : List ℕ
  scanned : read_to terminators file ≡ (length str, terminator)
  whole : file ≡ str ++ tail
  free : Free terminators str
  ends : Tail terminators terminator rest tail

module _ (terminators : List ℕ) where
  read_to-IsScan : (file : List ℕ) → IsScan terminators file
  unfolding read_to
  read_to-IsScan [] = record {
    str = [];
    terminator = none;
    rest = [];
    tail = [];
    scanned = refl;
    whole = refl;
    free = tt;
    ends = (refl, refl);
  }
  read_to-IsScan (c ∷ file) = elim (Bool-cases (is_terminator terminators c)) [
    | inl stop ↦ record {
      str = [];
      terminator = some c;
      rest = file;
      tail = c ∷ file;
      scanned = rw stop refl;
      whole = refl;
      free = tt;
      ends = (stop, refl);
    }
    | inr go ↦
        let scan = read_to-IsScan file in
        record {
          str = c ∷ scan.str;
          terminator = scan.terminator;
          rest = scan.rest;
          tail = scan.tail;
          scanned = rw go (rw (scan.scanned) refl);
          whole = ap (λ f. c ∷ f) scan.whole;
          free = (go, scan.free);
          ends = scan.ends;
        }
  ]

  after : (t : Option ℕ) (rest tail : List ℕ) → Tail terminators t rest tail → drop 1 tail ≡ rest
  after none rest tail (e, r) = rw (e, r) refl
  after (some c) rest tail (_, e) = rw e refl

  -- `dynamic_read` reads up to the first terminator and takes it: the file was the string, which has no
  -- terminator, then that terminator and what is left; or the string alone, with nothing left, at its end.
  dynamic_read-Tail :
      (file : List ℕ)
      → (str : List ℕ) × (terminator : Option ℕ) × (rest : List ℕ) × (tail : List ℕ) × (dynamic_read
            terminators file
          ≡ (str, terminator, rest))
        × (file ≡ str ++ tail)
        × Free terminators str
        × Tail terminators terminator rest tail
  unfolding dynamic_read
  dynamic_read-Tail file =
      let scan = read_to-IsScan file in
      (
        scan.str,
        scan.terminator,
        scan.rest,
        scan.tail,
        rw (scan.scanned) (
            both file scan.str scan.terminator scan.rest scan.tail scan.whole
              (after scan.terminator scan.rest scan.tail scan.ends)),
        scan.whole,
        scan.free,
        scan.ends,
      )
    where
      both :
          (file str : List ℕ) (t : Option ℕ) (rest tail : List ℕ)
          → file ≡ str ++ tail
          → drop 1 tail ≡ rest
          → ◌≡◌ {A = List ℕ × Option ℕ × List ℕ}
              (if ltb 0 (length str)
                then (take (length str) file, t, drop 1 (drop (length str) file))
                else ([], t, drop 1 file))
              (str, t, rest)
      both file [] t rest tail w e = rw w (rw e refl)
      both file (c ∷ str) t rest tail w e =
          let more : ltb 0 (suc (length str)) ≡ true = ground arith in
          rw w (rw more (rw (take-append str tail) (rw (drop-append str tail) (rw e refl))))

take_all : (n : ℕ) (file : List ℕ) → length file < n → take n file ≡ file
take_all n file h = take-length n file (omega arith)

module _ (block : ℕ) (pos : 0 < block) where
  read_blocks-all :
      (fuel : ℕ) (file : List ℕ) (max : ℕ) (got : List ℕ)
      → length got < max
      → length file < fuel
      → read_blocks fuel file block max got ≡ some (got ++ file)
  unfolding read_blocks
  read_blocks-all zero file max got room h = absurd (omega arith)
  read_blocks-all (suc fuel) file max got room h =
      elim (Bool-cases (ltb (length file) (max - length got))) [
        | inl end ↦
            rw (end, read_blocks) (rw (take_all (max - length got) file (ground (arith, end))) refl)
        | inr full ↦
            let n = max - length got in
            let size : n ≤ length file = ground (arith, full) in
            rw (full, read_blocks)
              (read_blocks-all fuel (drop n file) (max + block) (got ++ take n file)
                  (omega (arith, length-append got (take n file), length-take n file size))
                  (omega (arith, length-drop n file))
                ∙ ap some (
                    append_assoc got (take n file) (drop n file)
                    ∙ ap (λ x. got ++ x) (take-drop n file)))
      ]

  -- With blocks that are not empty `read_entire_file` ends after at most as many rounds as the file has
  -- bytes, and one, and returns the file.
  pub read_entire_file-eq :
      (file : List ℕ) → read_entire_file (length file + 1) file block ≡ some file
  unfolding read_entire_file
  read_entire_file-eq file = read_blocks-all (length file + 1) file block [] pos (omega arith)
