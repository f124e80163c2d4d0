-- ===== src/Bandwidth/UsageLaws.antt =====
-- Loading a saved file of usages.
use openwrt_extra.Common.{
  ℕ, zero, suc, ◌-◌, ◌≡◌, refl, ap, ◌∙◌, Bool, true, false, none, some, List, [], ◌∷◌, ◌++◌,
  append_assoc, length, Option, ◌^◌, ◌<◌, ◌⊎◌, inl, inr, sym, All, if◌then◌else◌, arith,
}
use openwrt_extra.Common.Fields.{fields}
use openwrt_extra.StringUtil.Splitting.{is_separator}
use openwrt_extra.StringUtil.SplitLaws.{split_on_separators-fields}
use openwrt_extra.StringUtil.RoundTrip.{IsPart, fields-part_append}
use openwrt_extra.Bandwidth.Usage.{
  Format, IpBw, spaces, padded, whitespace, backup_of, save_ips, save_usage_to_file, parts_loop,
  load_usage_from_file,
}

abbrev pub is_blank : ℕ → Bool
is_blank = is_separator whitespace

-- The numbers that are considered: where inet_aton takes a number alone, those that it takes, and else those of
-- the format %lld.
abbrev pub number_bound : Bool → ℕ
number_bound true = 2 ^ 32
number_bound false = 2 ^ 63

abbrev pub is_some : Option ℕ → Bool
is_some none = false
is_some (some n) = true

-- What is written has no whitespace, and is read as what was written. The inet_aton of POSIX takes a number alone
-- below 2 ^ 32 for an address; that of uClibc refuses every text without three dots.
pub record IsFormat (m : Format) (takes_numbers : Bool) : Type 0 where
  pub ntoa_part : (ip : ℕ) → ip < 2 ^ 32 → IsPart is_blank (m.inet_ntoa ip)
  pub number_part : (n : ℕ) → n < 2 ^ 63 → IsPart is_blank (m.print_number n)
  pub aton-ntoa : (ip : ℕ) → ip < 2 ^ 32 → m.inet_aton (m.inet_ntoa ip) ≡ some ip
  pub scan-print : (n : ℕ) → n < 2 ^ 63 → m.scan_number (m.print_number n) ≡ some n
  pub aton-number :
      (n : ℕ)
      → n < number_bound takes_numbers
      → is_some (m.inet_aton (m.print_number n)) ≡ takes_numbers

-- The fields of a usage have room for its values.
abbrev pub IsUsage : Bool → IpBw → Type 0
IsUsage takes_numbers next = (next.ip < 2 ^ 32) × (next.bw < number_bound takes_numbers)

within_format : (takes_numbers : Bool) (n : ℕ) → n < number_bound takes_numbers → n < 2 ^ 63
within_format true n small = omega arith
within_format false n small = small

Option-cases :
    (o : Option ℕ) (b : Bool)
    → is_some o ≡ b
    → (o ≡ none) × (b ≡ false) ⊎ ((n : ℕ) × (o ≡ some n) × (b ≡ true))
Option-cases none b e = inl (refl, sym e)
Option-cases (some n) b e = inr (n, refl, sym e)

fields-blank :
    (c : ℕ) (s : List ℕ) → is_blank c ≡ true → fields is_blank (c ∷ s) ≡ fields is_blank s
unfolding fields
fields-blank c s blank = rw blank refl

fields-spaces :
    (n c : ℕ) (s : List ℕ)
    → is_blank c ≡ true
    → fields is_blank (spaces n ++ c ∷ s) ≡ fields is_blank s
unfolding spaces is_separator
fields-spaces zero c s blank = fields-blank c s blank
fields-spaces (suc n) c s blank =
    fields-blank b' ' (spaces n ++ c ∷ s) refl ∙ fields-spaces n c s blank

-- The first field of a line that begins with a field and blanks.
fields-followed :
    (w : List ℕ) (n c : ℕ) (s : List ℕ)
    → IsPart is_blank w
    → is_blank c ≡ true
    → fields is_blank (w ++ (spaces n ++ c ∷ s)) ≡ w ∷ fields is_blank s
unfolding spaces is_separator
fields-followed w zero c s part blank = fields-part_append is_blank w c s part blank
fields-followed w (suc n) c s part blank =
    fields-part_append is_blank w b' ' (spaces n ++ c ∷ s) part refl
    ∙ ap (λ fs. w ∷ fs) (fields-spaces n c s blank)

fields-padded :
    (w : List ℕ) (c : ℕ) (s : List ℕ)
    → IsPart is_blank w
    → is_blank c ≡ true
    → fields is_blank (padded w ++ c ∷ s) ≡ w ∷ fields is_blank s
unfolding padded
fields-padded w c s part blank =
    rw (append_assoc w (spaces (15 - length w)) (c ∷ s))
      (fields-followed w (15 - length w) c s part blank)

tab_blank : is_blank b'\t' ≡ true
unfolding is_separator
tab_blank = refl

newline_blank : is_blank b'\n' ≡ true
unfolding is_separator
newline_blank = refl

module _ (m : Format) where
  abbrev parts : List IpBw → List (List ℕ)
  parts [] = []
  parts (next ∷ rest) = m.inet_ntoa next.ip ∷ m.print_number next.bw ∷ parts rest

module _ (m : Format) (takes_numbers : Bool) (laws : IsFormat m takes_numbers) where
  fields-save_ips :
      (ips : List IpBw)
      → All (IsUsage takes_numbers) ips
      → fields is_blank (save_ips m ips) ≡ parts m ips
  unfolding save_ips fields
  fields-save_ips [] ok = refl
  fields-save_ips (next ∷ rest) ((ip_small, bw_small), ok) =
      fields-padded (m.inet_ntoa next.ip) b'\t'
        (m.print_number next.bw ++ (b'\n' ∷ save_ips m rest)) (laws.ntoa_part next.ip ip_small)
        tab_blank
      ∙ ap (λ fs. m.inet_ntoa next.ip ∷ fs)
          (fields-part_append is_blank (m.print_number next.bw) b'\n' (save_ips m rest)
              (laws.number_part next.bw (within_format takes_numbers next.bw bw_small))
              newline_blank
            ∙ ap (λ fs. m.print_number next.bw ∷ fs) (fields-save_ips rest ok))

  parts_loop-parts :
      (ips : List IpBw) (last_backup : ℕ)
      → All (IsUsage takes_numbers) ips
      → parts_loop m (parts m ips) last_backup ≡ some (ips, last_backup)
  unfolding parts_loop
  parts_loop-parts [] last_backup ok = refl
  parts_loop-parts (next ∷ rest) last_backup ((ip_small, bw_small), ok) =
      rw
        (
          laws.aton-ntoa next.ip ip_small,
          parts_loop-parts rest last_backup ok,
          laws.scan-print next.bw (within_format takes_numbers next.bw bw_small),
        )
        refl

  after_number :
      (next : IpBw) (rest : List IpBw) (number : List ℕ)
      → m.inet_aton number ≡ none
      → parts_loop m (number ∷ parts m (next ∷ rest)) 0
        ≡ parts_loop m (parts m (next ∷ rest)) (backup_of (m.scan_number number) 0)
  unfolding parts_loop
  after_number next rest number no_address = rw (no_address, parts_loop) refl

  -- The time is skipped where it is no address.
  parts_loop-number :
      (now : ℕ) (ips : List IpBw)
      → now < 2 ^ 63
      → All (IsUsage takes_numbers) ips
      → m.inet_aton (m.print_number now) ≡ none
      → parts_loop m (m.print_number now ∷ parts m ips) 0 ≡ some (ips, now)
  unfolding parts_loop
  parts_loop-number now [] small ok refused = rw (refused, laws.scan-print now small) refl
  parts_loop-number now (next ∷ rest) small ok refused =
      after_number next rest (m.print_number now) refused
      ∙ ap (λ scanned. parts_loop m (parts m (next ∷ rest)) (backup_of scanned 0))
          (laws.scan-print now small)
      ∙ parts_loop-parts (next ∷ rest) now ok

  -- Where a number is an address, the last one has no part after it.
  parts_loop-shifted :
      (number : ℕ) (ips : List IpBw) (last_backup : ℕ)
      → takes_numbers ≡ true
      → number < number_bound takes_numbers
      → All (IsUsage takes_numbers) ips
      → parts_loop m (m.print_number number ∷ parts m ips) last_backup ≡ none
  unfolding parts_loop
  parts_loop-shifted number [] last_backup takes small ok =
      elim (Option-cases _ _ (laws.aton-number number small)) [
        | inl (_, refuses) ↦ absurd (ground (arith, sym takes ∙ refuses))
        | inr (n, taken, _) ↦ rw taken refl
      ]
  parts_loop-shifted number (next ∷ rest) last_backup takes small ((_, bw_small), ok) =
      elim (Option-cases _ _ (laws.aton-number number small)) [
        | inl (_, refuses) ↦ absurd (ground (arith, sym takes ∙ refuses))
        | inr (n, taken, _) ↦
            rw (taken, parts_loop-shifted next.bw rest last_backup takes bw_small ok) refl
      ]

  -- What load_usage_from_file reads in a file that save_usage_to_file wrote. Where inet_aton takes no number alone
  -- for an address: every address with its bandwidth, in order, and the time of the backup. Where it takes the
  -- numbers below 2 ^ 32 for addresses: nothing, as the time is then the first address, and sscanf is called with
  -- NULL after the last number. Addresses are below 2 ^ 32, and the time and the bandwidths below 2 ^ 63, or below
  -- 2 ^ 32 in the second case; such addresses and numbers are written without whitespace and are read as what was
  -- written.
  pub load_usage_from_file-save_usage_to_file :
      (now : ℕ) (ips : List IpBw)
      → now < number_bound takes_numbers
      → All (IsUsage takes_numbers) ips
      → load_usage_from_file m (save_usage_to_file m now ips)
        ≡ (if takes_numbers then none else some (ips, now))
  unfolding load_usage_from_file save_usage_to_file
  load_usage_from_file-save_usage_to_file now ips small ok =
      let number = m.print_number now in
      let file_data = padded number ++ (b'\n' ∷ save_ips m ips) in
      let now_small = within_format takes_numbers now small in
      rw
        (
          (split_on_separators-fields b'\n' (b'\r' ∷ b'\t' ∷ b' ' ∷ []) file_data 0 false).1,
          fields-padded number b'\n' (save_ips m ips) (laws.number_part now now_small)
              newline_blank,
          fields-save_ips ips ok,
        )
        (elim (Option-cases _ _ (laws.aton-number now small)) [
          | inl (refused, refuses) ↦
              rw (refuses, parts_loop-number now ips now_small ok refused) refl
          | inr (_, _, takes) ↦ parts_loop-shifted now ips 0 takes small ok ∙ rw takes refl
        ])
