-- ===== src/Bandwidth/Usage.antt =====
-- save_usage_to_file and load_usage_from_file of packages/gargoyle/libiptbwctl/src/ipt_bwctl.c. How addresses and
-- numbers are written and read is a parameter; a file is the list of its bytes, none of them zero. `none` is a read
-- through NULL.
use openwrt_extra.Common.{
  ℕ, zero, suc, ◌-◌, Option, none, some, List, [], ◌∷◌, ◌++◌, length, false, ◌>>=◌,
}
use openwrt_extra.StringUtil.Splitting.{split_on_separators}

-- inet_ntoa, inet_aton, the formats %ld and %lld of numbers that are not negative, and what sscanf reads as such.
pub record Format : Type 0 where
  pub inet_ntoa : ℕ → List ℕ
  pub inet_aton : List ℕ → Option ℕ
  pub print_number : ℕ → List ℕ
  pub scan_number : List ℕ → Option ℕ

-- ip_bw
pub record IpBw : Type 0 where
  pub ip : ℕ
  pub bw : ℕ

unfoldable pub spaces : ℕ → List ℕ
spaces zero = []
spaces (suc n) = b' ' ∷ spaces n

-- The format of at least 15 characters, on the left.
unfoldable pub padded : List ℕ → List ℕ
unfolding spaces
padded s = s ++ spaces (15 - length s)

abbrev pub whitespace : List ℕ
whitespace = b'\n' ∷ b'\r' ∷ b'\t' ∷ b' ' ∷ []

-- A time that is read, where there is one.
abbrev pub backup_of : Option ℕ → ℕ → ℕ
backup_of none last_backup = last_backup
backup_of (some time) last_backup = time

module _ (m : Format) where
  -- The lines for the ips.
  unfoldable pub save_ips : List IpBw → List ℕ
  unfolding padded
  save_ips [] = []
  save_ips (next ∷ rest) =
      padded (m.inet_ntoa next.ip) ++ (b'\t' ∷ (m.print_number next.bw ++ (b'\n' ∷ save_ips rest)))

  unfoldable pub save_usage_to_file : ℕ → List IpBw → List ℕ
  unfolding save_ips padded
  save_usage_to_file now ips = padded (m.print_number now) ++ (b'\n' ∷ save_ips ips)

  abbrev with_item : ℕ → Option ℕ → List IpBw × ℕ → List IpBw × ℕ
  with_item ip none result = result
  with_item ip (some bw) (items, last_backup) = (record { ip = ip; bw = bw } ∷ items, last_backup)

  -- The loop over the parts: an address with the number after it, or else a time.
  unfoldable pub parts_loop : List (List ℕ) → ℕ → Option (List IpBw × ℕ)
  parts_loop [] last_backup = some ([], last_backup)
  parts_loop (part ∷ []) last_backup = elim (m.inet_aton part) [
    | none ↦ some ([], backup_of (m.scan_number part) last_backup)
    | some ip ↦ none
  ]
  parts_loop (part ∷ next ∷ rest) last_backup =
      let skipped = parts_loop (next ∷ rest) (backup_of (m.scan_number part) last_backup) in
      let taken = parts_loop rest last_backup in
      elim (m.inet_aton part) [
        | none ↦ skipped
        | some ip ↦ taken >>= λ result. some (with_item ip (m.scan_number next) result)
      ]

  -- The data, and last_backup.
  unfoldable pub load_usage_from_file : List ℕ → Option (List IpBw × ℕ)
  unfolding parts_loop split_on_separators
  load_usage_from_file file_data =
      split_on_separators (some file_data) whitespace none false >>= λ data_parts.
      parts_loop data_parts 0
