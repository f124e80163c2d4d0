-- ===== src/Lmo/Canon.antt =====
-- The key of a translation is hashed by its words.
use openwrt_extra.Common.{
  ℕ, ◌≡◌, refl, ◌⊎◌, inl, inr, if◌then◌else◌, Bool, true, false, some, List, [], ◌∷◌, ◌++◌, length,
  leb, ap, sym, ◌∙◌, Bool-cases, arith,
}
use openwrt_extra.Lmo.Hash.{isspace, canon_loop, cut_blank, lmo_canon_hash, sfh_hash}

-- Does a word go on here?
abbrev continues : List ℕ → Bool
continues [] = false
continues (c ∷ s) = if isspace c then false else true

-- A byte before the words of what follows it.
abbrev attach : Bool → ℕ → List (List ℕ) → List (List ℕ)
attach true c (w ∷ ws) = (c ∷ w) ∷ ws
attach _ c ws = (c ∷ []) ∷ ws

-- The words of a string: its longest runs without a blank.
unfoldable pub words : List ℕ → List (List ℕ)
words [] = []
words (c ∷ s) = let ws = words s in if isspace c then ws else attach (continues s) c ws

-- Words with single blanks between them.
unfoldable pub join : List (List ℕ) → List ℕ
join [] = []
join (w ∷ []) = w
join (w ∷ v ∷ ws) = w ++ 32 ∷ join (v ∷ ws)

-- A list of words that is not empty.
IsSome : List (List ℕ) → Type 0
IsSome ws = (v : List ℕ) × (vs : List (List ℕ)) × (ws ≡ v ∷ vs)

attach-IsSome : (b : Bool) (c : ℕ) (ws : List (List ℕ)) → IsSome (attach b c ws)
unfolding IsSome
attach-IsSome true c [] = (c ∷ [], [], refl)
attach-IsSome true c (w ∷ ws) = (c ∷ w, ws, refl)
attach-IsSome false c ws = (c ∷ [], ws, refl)

join-attach : (p : ℕ) (ws : List (List ℕ)) → IsSome ws → join (attach true p ws) ≡ p ∷ join ws
unfolding join IsSome
join-attach p [] (v, vs, e) = ground arith
join-attach p (w ∷ []) h = refl
join-attach p (w ∷ v ∷ ws) h = refl

join-apart : (p : ℕ) (ws : List (List ℕ)) → IsSome ws → join ((p ∷ []) ∷ ws) ≡ p ∷ 32 ∷ join ws
unfolding join IsSome
join-apart p [] (v, vs, e) = ground arith
join-apart p (w ∷ ws) h = refl

-- After a blank either nothing more is written, and no word follows, or something is, and one does.
after_blank :
    (p : ℕ) (s : List ℕ)
    → isspace p ≡ true
    → (canon_loop p s ≡ []) × (words s ≡ [])
      ⊎ ((d : ℕ) × (r : List ℕ) × (canon_loop p s ≡ d ∷ r)) × IsSome (words s)
unfolding canon_loop words
after_blank p [] h = inl (refl, refl)
after_blank p (c ∷ s) h = elim (Bool-cases (isspace c)) [
  | inl blank ↦ elim (after_blank c s blank) [
    | inl (a, b) ↦ inl (rw blank (rw h a), rw blank b)
    | inr ((d, r, a), b) ↦ inr ((d, r, rw blank (rw h a)), rw blank b)
  ]
  | inr letter ↦
      inr ((c, canon_loop c s, rw letter refl), rw letter (attach-IsSome (continues s) c (words s)))
]

cut_end : (p : ℕ) → cut_blank (p ∷ 32 ∷ []) ≡ p ∷ []
unfolding cut_blank isspace
cut_end p = refl

-- What the loop writes, less a blank at the end, after a blank and after another byte.
record IsJoined (s : List ℕ) : Type 0 where
  blank : (p : ℕ) → isspace p ≡ true → cut_blank (canon_loop p s) ≡ join (words s)
  letter :
      (p : ℕ)
      → isspace p ≡ false
      → cut_blank (p ∷ canon_loop p s) ≡ join (attach (continues s) p (words s))

module _ (c : ℕ) (s : List ℕ) (ih : IsJoined s) where
  joined_after_blank :
      (p : ℕ) → isspace p ≡ true → cut_blank (canon_loop p (c ∷ s)) ≡ join (words (c ∷ s))
  unfolding canon_loop words
  joined_after_blank p h = elim (Bool-cases (isspace c)) [
    | inl blank ↦ rw blank (rw h (ih.blank c blank))
    | inr letter ↦ rw letter (ih.letter c letter)
  ]

  joined_after_letter :
      (p : ℕ)
      → isspace p ≡ false
      → cut_blank (p ∷ canon_loop p (c ∷ s)) ≡ join (attach (continues (c ∷ s)) p (words (c ∷ s)))
  unfolding canon_loop words cut_blank join
  joined_after_letter p h = elim (Bool-cases (isspace c)) [
    | inl blank ↦ elim (after_blank c s blank) [
      | inl (a, b) ↦ rw blank (rw h (rw a (rw b (cut_end p))))
      | inr ((d, r, a), b) ↦ rw blank (
          rw h (
            rw a
              (ap (λ x. p ∷ 32 ∷ x) (rw a at (ih.blank c blank)) ∙ sym (join-apart p (words s) b))))
    ]
    | inr letter ↦ rw letter (
        ap (λ x. p ∷ x) (ih.letter c letter)
        ∙ sym (
            join-attach p (attach (continues s) c (words s))
              (attach-IsSome (continues s) c (words s))))
  ]

joined : (s : List ℕ) → IsJoined s
unfolding canon_loop words cut_blank join
joined [] = record { blank = λ p h. refl; letter = λ p h. rw h }
joined (c ∷ s) =
    let ih = joined s in
    record { blank = joined_after_blank c s ih; letter = joined_after_letter c s ih }

starts_blank : isspace 32 ≡ true
unfolding isspace
starts_blank = refl

-- A key below 4096 bytes is hashed as its words, the longest runs without blanks, with a single
-- space between each two; so keys with the same words are the same key. A longer key gives 0.
pub lmo_canon_hash-eq :
    (key : List ℕ)
    → lmo_canon_hash (some key) ≡ (if leb 4096 (length key) then 0 else sfh_hash (join (words key)))
unfolding lmo_canon_hash
lmo_canon_hash-eq key = rw ((joined key).blank 32 starts_blank)
