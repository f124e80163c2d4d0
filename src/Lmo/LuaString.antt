-- ===== src/Lmo/LuaString.antt =====
-- What `luastr_escape` writes, read as the inside of a Lua string literal.
use openwrt_extra.Common.{
  ℕ, ◌≡◌, ◌≢◌, refl, ◌⊎◌, inl, inr, ◌==◌, ==_iff, if◌then◌else◌, Bool, true, false, ◌&&◌, ◌||◌,
  Option, none, some, List, [], ◌∷◌, ◌++◌, append_assoc, append-nil, All, arith, ap, sym, ◌∙◌,
  Bool-cases,
}
use openwrt_extra.Lmo.Buffer.{Buffer}
use openwrt_extra.Lmo.BufferLaws.{IsBuffer}
use openwrt_extra.Lmo.RoundTrip.{Appends, buf_append-Appends, buf_putchar-Appends}
use openwrt_extra.Lmo.Markup.{is_escaped, entity, luastr_byte, luastr_escape}

prepend : ℕ → Option (List ℕ × List ℕ) → Option (List ℕ × List ℕ)
prepend c none = none
prepend c (some (s, rest)) = some (c ∷ s, rest)

prepend_all : List ℕ → Option (List ℕ × List ℕ) → Option (List ℕ × List ℕ)
unfolding prepend
prepend_all [] r = r
prepend_all (c ∷ s) r = prepend c (prepend_all s r)

-- Reading a Lua string up to its closing quote: the string, and what follows. A bare end of line is
-- an error, and of the escapes only those of the backslash, the quote and the end of line are read.
-- The flag says that a backslash came before.
unfoldable pub lua_string : Bool → List ℕ → Option (List ℕ × List ℕ)
unfolding prepend
lua_string _ [] = none
lua_string true (c ∷ s) =
    let rest = lua_string false s in
    if c == b'n' then prepend 10 rest else if c == b'\\' || c == b'"' then prepend c rest else none
lua_string false (c ∷ s) =
    let rest = lua_string false s in
    let escaped = lua_string true s in
    if c == b'"'
    then some ([], s)
    else if c == b'\\'
    then escaped
    else if c == 10 || c == 13
    then none
    else prepend c rest

-- The text that the literal stands for: as it is, or with entities.
unfoldable pub shown : Bool → List ℕ → List ℕ
shown escape_xml [] = []
shown escape_xml (c ∷ s) =
    let rest = shown escape_xml s in
    if is_escaped c && escape_xml then entity c ++ rest else c ∷ rest

shown_byte : Bool → ℕ → List ℕ
shown_byte escape_xml c = if is_escaped c && escape_xml then entity c else c ∷ []

piece : Bool → ℕ → List ℕ
piece escape_xml c =
    if c == b'\\'
    then b'\\' ∷ b'\\' ∷ []
    else if c == b'"'
    then (if escape_xml then entity b'"' else b'\\' ∷ b'"' ∷ [])
    else if c == 10
    then b'\\' ∷ b'n' ∷ []
    else if is_escaped c && escape_xml
    then entity c
    else c ∷ []

module _ (alloc : ℕ → Bool) (given : (n : ℕ) → alloc n ≡ true) (out : Buffer)
    (ok : IsBuffer out) where
  luastr_byte-piece :
      (escape_xml : Bool) (c : ℕ)
      → (r : ℕ) × Appends out (piece escape_xml c) r (luastr_byte alloc escape_xml out c)
  unfolding luastr_byte piece
  luastr_byte-piece escape_xml c = elim (Bool-cases (c == b'\\')) [
    | inl e1 ↦ rw e1 (_, buf_append-Appends alloc given out ok _)
    | inr n1 ↦ elim (Bool-cases (c == b'"')) [
      | inl e2 ↦ elim (Bool-cases escape_xml) [
        | inl x ↦ rw n1 (rw e2 (rw x (_, buf_append-Appends alloc given out ok _)))
        | inr x ↦ rw n1 (rw e2 (rw x (_, buf_append-Appends alloc given out ok _)))
      ]
      | inr n2 ↦ elim (Bool-cases (c == 10)) [
        | inl e3 ↦ rw n1 (rw n2 (rw e3 (_, buf_append-Appends alloc given out ok _)))
        | inr n3 ↦ elim (Bool-cases (is_escaped c && escape_xml)) [
          | inl e4 ↦ rw e4 (rw n1 (rw n2 (rw n3 (_, buf_append-Appends alloc given out ok _))))
          | inr n4 ↦ rw n4 (rw n1 (rw n2 (rw n3 (_, buf_putchar-Appends alloc given out ok c))))
        ]
      ]
    ]
  ]

no_quote : (c : ℕ) → is_escaped c ≡ false → (c == 0x22) ≡ false
no_quote c h = ground arith

which_escaped :
    (c : ℕ)
    → is_escaped c ≡ true
    → (c ≡ 0x26) ⊎ ((c ≡ 0x27) ⊎ ((c ≡ 0x22) ⊎ ((c ≡ 0x3C) ⊎ (c ≡ 0x3E))))
which_escaped c h = ground arith

ReadsAs : Bool → ℕ → Type 0
ReadsAs x c =
    (t : List ℕ)
    → lua_string false (piece x c ++ t) ≡ prepend_all (shown_byte x c) (lua_string false t)

special-ReadsAs :
    (x : Bool) (c : ℕ)
    → (c ≡ 0x5C)
      ⊎ ((c ≡ 0x0A) ⊎ ((c ≡ 0x26) ⊎ ((c ≡ 0x27) ⊎ ((c ≡ 0x22) ⊎ ((c ≡ 0x3C) ⊎ (c ≡ 0x3E))))))
    → ReadsAs x c
unfolding ReadsAs piece shown_byte lua_string prepend_all
special-ReadsAs true c (inl e) t = rw e refl
special-ReadsAs true c (inr (inl e)) t = rw e refl
special-ReadsAs true c (inr (inr (inl e))) t = rw e refl
special-ReadsAs true c (inr (inr (inr (inl e)))) t = rw e refl
special-ReadsAs true c (inr (inr (inr (inr (inl e))))) t = rw e refl
special-ReadsAs true c (inr (inr (inr (inr (inr (inl e)))))) t = rw e refl
special-ReadsAs true c (inr (inr (inr (inr (inr (inr e)))))) t = rw e refl
special-ReadsAs false c (inl e) t = rw e refl
special-ReadsAs false c (inr (inl e)) t = rw e refl
special-ReadsAs false c (inr (inr (inl e))) t = rw e refl
special-ReadsAs false c (inr (inr (inr (inl e)))) t = rw e refl
special-ReadsAs false c (inr (inr (inr (inr (inl e))))) t = rw e refl
special-ReadsAs false c (inr (inr (inr (inr (inr (inl e)))))) t = rw e refl
special-ReadsAs false c (inr (inr (inr (inr (inr (inr e)))))) t = rw e refl

tests_false : (c k : ℕ) → c ≢ k → (c == k) ≡ false
tests_false c k h = ground arith

piece-ReadsAs : (x : Bool) (c : ℕ) → c ≢ 13 → ReadsAs x c
unfolding ReadsAs piece shown_byte lua_string prepend_all
piece-ReadsAs x c no_return = elim (Bool-cases (c == 0x5C)) [
  | inl e1 ↦ special-ReadsAs x c (inl ((==_iff _ _).0 e1))
  | inr n1 ↦ elim (Bool-cases (c == 10)) [
    | inl e2 ↦ special-ReadsAs x c (inr (inl ((==_iff _ _).0 e2)))
    | inr n2 ↦ elim (Bool-cases (is_escaped c)) [
      | inl e3 ↦ special-ReadsAs x c (inr (inr (which_escaped c e3)))
      | inr n3 ↦ λ t. rw n3 (
          rw n1 (
            rw n2 (
              rw (no_quote c n3)
                (rw n1 (rw n2 (rw (tests_false c 13 no_return) (rw (no_quote c n3) refl)))))))
    ]
  ]
]

shown-read :
    (x : Bool) (c : ℕ) (s rest : List ℕ)
    → prepend_all (shown_byte x c) (some (shown x s, rest)) ≡ some (shown x (c ∷ s), rest)
unfolding prepend_all shown shown_byte
shown-read x c s rest = elim (Bool-cases (is_escaped c && x)) [
  | inl e ↦ rw e refl
  | inr n ↦ rw n refl
]

-- What is written for `s`, and how a literal that goes on with it is read.
pieces : Bool → List ℕ → List ℕ
unfolding piece
pieces x [] = []
pieces x (c ∷ s) = piece x c ++ pieces x s

lua_string-pieces :
    (x : Bool) (s rest : List ℕ)
    → All (λ (c : ℕ). c ≢ 13) s
    → lua_string false (pieces x s ++ b'"' ∷ rest) ≡ some (shown x s, rest)
unfolding pieces lua_string shown ReadsAs
lua_string-pieces x [] rest h = refl
lua_string-pieces x (c ∷ s) rest (h, hs) =
    ap (lua_string false) (append_assoc (piece x c) (pieces x s) (b'"' ∷ rest))
    ∙ piece-ReadsAs x c h (pieces x s ++ b'"' ∷ rest)
    ∙ ap (prepend_all (shown_byte x c)) (lua_string-pieces x s rest hs)
    ∙ shown-read x c s rest

module _ (alloc : ℕ → Bool) (given : (n : ℕ) → alloc n ≡ true) where
  luastr_escape-pieces :
      (x : Bool) (s : List ℕ) (out : Buffer)
      → IsBuffer out
      → (d : Buffer) × (luastr_escape alloc x out s ≡ some d)
        × IsBuffer d
        × (d.bytes ≡ out.bytes ++ pieces x s)
  unfolding luastr_escape pieces
  luastr_escape-pieces x [] out ok = (out, refl, ok, sym (append-nil out.bytes))
  luastr_escape-pieces x (c ∷ s) out ok =
      let (r, (d, e, valid, bytes)) = luastr_byte-piece alloc given out ok x c in
      let (z, done, last, total) = luastr_escape-pieces x s d valid in
      (
        z,
        rw (e, luastr_escape) done,
        last,
        total ∙ ap (λ b. b ++ pieces x s) bytes ∙ append_assoc out.bytes (piece x c) (pieces x s),
      )

  -- Where memory is given and no carriage return is in `s`, `luastr_escape` appends bytes that stand
  -- for `s` inside a Lua string literal: if a quote comes after them, reading the literal ends at that
  -- quote and gives `s`, or, with `escape_xml`, `s` with entities for & ' " < and >.
  pub luastr_escape-reads :
      (escape_xml : Bool) (s : List ℕ) (out : Buffer)
      → IsBuffer out
      → All (λ (c : ℕ). c ≢ 13) s
      → (d : Buffer) × (e : List ℕ) × (luastr_escape alloc escape_xml out s ≡ some d)
        × (d.bytes ≡ out.bytes ++ e)
        × ((rest : List ℕ) → lua_string false (e ++ b'"' ∷ rest) ≡ some (shown escape_xml s, rest))
  luastr_escape-reads x s out ok h =
      let (d, e, _, bytes) = luastr_escape-pieces x s out ok in
      (d, pieces x s, e, bytes, λ rest. lua_string-pieces x s rest h)
