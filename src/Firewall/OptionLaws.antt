-- ===== src/Firewall/OptionLaws.antt =====
-- The options of a section.
use openwrt_extra.Common.{
  ◌≡◌, refl, ◌==◌, ==_iff, false, Bool-cases, ◌⊎◌, inl, inr, none, some, List, [], ◌∷◌, ◌++◌, map,
  subst, arith,
}
use openwrt_extra.Common.Fields.{fields}
use openwrt_extra.StringUtil.Strings.{trim_flanking_whitespace}
use openwrt_extra.StringUtil.Splitting.{is_separator, split_on_separators}
use openwrt_extra.StringUtil.SplitLaws.{split_on_separators-fields}
use openwrt_extra.StringUtil.Trim.{Blank, IsTrimmed, trim_flanking_whitespace-IsTrimmed}
use openwrt_extra.Firewall.Text.{Text}
use openwrt_extra.Firewall.Options.{comma, colons, parse_ports}

-- The second text has a colon for every dash of the first, and the other bytes of the first.
abbrev pub IsTranslated : Text → Text → Type 0
IsTranslated [] [] = Unit
IsTranslated [] (d ∷ t) = ⊥
IsTranslated (c ∷ s) [] = ⊥
IsTranslated (c ∷ s) (d ∷ t) =
    (((c ≡ b'-') × (d ≡ b':')) ⊎ ((¬ (c ≡ b'-')) × (d ≡ c))) × IsTranslated s t

-- A port, or a range of ports, of a field: the field without the whitespace around it, with colons for dashes.
pub record IsPort (field port : Text) : Type 0 where
  pub front : Text
  pub back : Text
  pub translated : IsTranslated field (front ++ (port ++ back))
  pub front_blank : Blank front
  pub back_blank : Blank back
  pub trimmed : IsTrimmed port

-- As many ports as fields, in order.
abbrev pub ArePorts : List Text → List Text → Type 0
ArePorts [] [] = Unit
ArePorts [] (port ∷ ports) = ⊥
ArePorts (field ∷ fields) [] = ⊥
ArePorts (field ∷ fields) (port ∷ ports) = IsPort field port × ArePorts fields ports

colons-IsTranslated : (field : Text) → IsTranslated field (colons field)
unfolding colons
colons-IsTranslated [] = tt
colons-IsTranslated (c ∷ field) = elim (Bool-cases (c == b'-')) [
  | inl dash ↦ rw dash (inl ((==_iff c b'-').0 dash, refl), colons-IsTranslated field)
  | inr other ↦ rw other (inr (λ e. ground (arith, other, e), refl), colons-IsTranslated field)
]

trimmed-IsPort : (field : Text) → IsPort field (trim_flanking_whitespace (colons field))
trimmed-IsPort field =
    let (front, back, whole, front_blank, back_blank, trimmed) =
      trim_flanking_whitespace-IsTrimmed (colons field) in
    record {
      front = front;
      back = back;
      translated = subst (IsTranslated field) whole (colons-IsTranslated field);
      front_blank = front_blank;
      back_blank = back_blank;
      trimmed = trimmed;
    }

trimmed-ArePorts :
    (parts : List Text)
    → ArePorts parts (map (λ port. trim_flanking_whitespace (colons port)) parts)
trimmed-ArePorts [] = tt
trimmed-ArePorts (part ∷ parts) = (trimmed-IsPort part, trimmed-ArePorts parts)

split_comma :
    (line : Text)
    → split_on_separators (some line) comma none false ≡ some (fields (is_separator comma) line)
split_comma line = (split_on_separators-fields b',' [] line 0 false).1

-- For every string parse_ports ends and gives one text for each field between commas, in order: it has no whitespace
-- at its ends, and with the whitespace taken off it is the field with every dash made a colon and every other byte
-- as it was. That a field is a number or a range of numbers is not tested.
pub parse_ports-ArePorts :
    (port_str : Text)
    → (ports : List Text) × (parse_ports port_str ≡ some ports)
      × ArePorts (fields (is_separator comma) port_str) ports
unfolding parse_ports
parse_ports-ArePorts port_str =
    let parts = fields (is_separator comma) port_str in
    (
      map (λ port. trim_flanking_whitespace (colons port)) parts,
      rw (split_comma port_str) refl,
      trimmed-ArePorts parts,
    )
