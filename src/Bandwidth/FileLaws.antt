-- ===== src/Bandwidth/FileLaws.antt =====
-- Loading a saved file of histories.
use openwrt_extra.Common.{
  ℕ, ◌^◌, ◌<◌, ◌%◌, ◌≡◌, refl, ◌⊎◌, inl, inr, Bool-cases, ltb, ◌==◌, if◌then◌else◌, false, some,
  List, [], ◌∷◌, ◌++◌, map, length, All, append_assoc, arith,
}
use openwrt_extra.Bandwidth.Layout.{Layout, IsLayout, read_word-bytes}
use openwrt_extra.Bandwidth.Files.{
  History, int32_max, bw_bits, save_bws, save_history, save_histories, save_history_to_file,
  load_bws, load_history, load_histories, load_history_from_file,
}

-- The values fit in their types.
pub record IsStored (h : History) : Type 0 where
  pub ip_small : h.ip < 2 ^ 32
  pub nodes_small : length h.history_bws < 2 ^ 32
  pub interval_small : h.reset_interval < 2 ^ 64
  pub time_small : h.reset_time < 2 ^ 64
  pub constant_small : h.is_constant_interval < 256
  pub start_small : h.first_start < 2 ^ 64
  pub first_small : h.first_end < 2 ^ 64
  pub last_small : h.last_end < 2 ^ 64
  pub bws_small : All (λ (bw : ℕ). bw < 2 ^ 64) h.history_bws

-- What a history is after it is saved with others, of which `first` is the first: it has the interval of
-- that one, and without nodes no times.
unfoldable pub restored : History → History → History
restored first h =
    let none_left = length h.history_bws == 0 in
    record h {
      reset_interval = first.reset_interval;
      reset_time = first.reset_time;
      is_constant_interval = first.is_constant_interval;
      first_start = if none_left then 0 else h.first_start;
      first_end = if none_left then 0 else h.first_end;
      last_end = if none_left then 0 else h.last_end;
    }

bw_bits-cases : (bws : List ℕ) → (bw_bits bws ≡ 32) ⊎ (bw_bits bws ≡ 64)
unfolding bw_bits
bw_bits-cases [] = inl refl
bw_bits-cases (bw ∷ bws) = let rest = bw_bits-cases bws in ground arith

bw_bits-small : (bws : List ℕ) → bw_bits bws ≡ 32 → All (λ (bw : ℕ). bw < 2 ^ 32) bws
unfolding bw_bits
bw_bits-small [] narrow = tt
bw_bits-small (bw ∷ bws) narrow = elim (Bool-cases (ltb bw int32_max)) [
  | inl fits ↦ (ground (arith, fits), bw_bits-small bws (rw fits at narrow))
  | inr large ↦ absurd (ground (arith, large, narrow))
]

module _ (m : Layout) (laws : IsLayout m) where
  load_bws-narrow :
      (bws : List ℕ) (tail : List ℕ)
      → All (λ (bw : ℕ). bw < 2 ^ 32) bws
      → load_bws m 32 (length bws) (save_bws m 32 bws ++ tail) ≡ some (bws, tail)
  unfolding load_bws save_bws
  load_bws-narrow [] tail small = refl
  load_bws-narrow (bw ∷ bws) tail (here, small) =
      let e : bw % 2 ^ 32 ≡ bw = omega arith in
      rw
        (
          e,
          append_assoc (m.bytes 4 bw) (save_bws m 32 bws) tail,
          read_word-bytes m laws 4 bw (save_bws m 32 bws ++ tail) here,
          load_bws-narrow bws tail small,
        )
        refl

  load_bws-wide :
      (bws : List ℕ) (tail : List ℕ)
      → All (λ (bw : ℕ). bw < 2 ^ 64) bws
      → load_bws m 64 (length bws) (save_bws m 64 bws ++ tail) ≡ some (bws, tail)
  unfolding load_bws save_bws
  load_bws-wide [] tail small = refl
  load_bws-wide (bw ∷ bws) tail (here, small) =
      rw
        (
          append_assoc (m.bytes 8 bw) (save_bws m 64 bws) tail,
          read_word-bytes m laws 8 bw (save_bws m 64 bws ++ tail) here,
          load_bws-wide bws tail small,
        )
        refl

  load_bws-save_bws :
      (bws : List ℕ) (tail : List ℕ)
      → All (λ (bw : ℕ). bw < 2 ^ 64) bws
      → load_bws m (bw_bits bws) (length bws) (save_bws m (bw_bits bws) bws ++ tail)
        ≡ some (bws, tail)
  load_bws-save_bws bws tail small = elim (bw_bits-cases bws) [
    | inl narrow ↦ rw narrow (load_bws-narrow bws tail (bw_bits-small bws narrow))
    | inr wide ↦ rw wide (load_bws-wide bws tail small)
  ]

  -- The parts of a history, one after another.
  abbrev parts : ℕ → ℕ → ℕ → ℕ → ℕ → ℕ → List ℕ → List ℕ
  parts ip nodes start first last bits rest =
      m.bytes 4 ip
      ++ (m.bytes 4 nodes
          ++ (m.bytes 8 start ++ (m.bytes 8 first ++ (m.bytes 8 last ++ (m.bytes 1 bits ++ rest)))))

  load_history-parts :
      (first : History) (ip nodes start end last bits : ℕ) (rest tail bws : List ℕ)
      → ip < 2 ^ 32
      → nodes < 2 ^ 32
      → start < 2 ^ 64
      → end < 2 ^ 64
      → last < 2 ^ 64
      → bits < 256
      → load_bws m bits nodes rest ≡ some (bws, tail)
      → load_history m first.reset_interval first.reset_time first.is_constant_interval
          (parts ip nodes start end last bits rest)
        ≡ some (
          record {
            ip = ip;
            reset_interval = first.reset_interval;
            reset_time = first.reset_time;
            is_constant_interval = first.is_constant_interval;
            first_start = start;
            first_end = end;
            last_end = last;
            history_bws = bws;
          },
          tail,
        )
  unfolding load_history
  load_history-parts first ip nodes start end last bits rest tail bws a b c d e f loaded =
      rw
        (
          read_word-bytes m laws 4 ip _ a,
          read_word-bytes m laws 4 nodes _ b,
          read_word-bytes m laws 8 start _ c,
          read_word-bytes m laws 8 end _ d,
          read_word-bytes m laws 8 last _ e,
          read_word-bytes m laws 1 bits _ f,
          loaded,
        )
        refl

  bits_small : (bws : List ℕ) → bw_bits bws < 256
  bits_small bws = let c = bw_bits-cases bws in ground arith

  no_nodes : (bws : List ℕ) → length bws ≡ 0 → bws ≡ []
  no_nodes [] e = refl
  no_nodes (bw ∷ bws) e = absurd (omega arith)

  load_history-save_history :
      (first h : History) (tail : List ℕ)
      → IsStored h
      → load_history m first.reset_interval first.reset_time first.is_constant_interval
          (save_history m h ++ tail)
        ≡ some (restored first h, tail)
  unfolding save_history restored load_bws
  load_history-save_history first h tail ok = elim (Bool-cases (length h.history_bws == 0)) [
    | inl empty ↦
        let e : length h.history_bws ≡ 0 = ground (arith, empty) in
        rw empty (
          simp append_assoc (
            load_history-parts first h.ip (length h.history_bws) 0 0 0 32 tail tail h.history_bws
              ok.ip_small ok.nodes_small (omega arith) (omega arith) (omega arith) (omega arith)
              (rw (e, no_nodes h.history_bws e) refl)))
    | inr nodes ↦ rw nodes (
        simp append_assoc (
          load_history-parts first h.ip (length h.history_bws) h.first_start h.first_end h.last_end
            (bw_bits h.history_bws) (save_bws m (bw_bits h.history_bws) h.history_bws ++ tail) tail
            h.history_bws ok.ip_small ok.nodes_small ok.start_small ok.first_small ok.last_small
            (bits_small h.history_bws) (load_bws-save_bws h.history_bws tail ok.bws_small)))
  ]

  load_histories-save_histories :
      (first : History) (histories : List History)
      → All IsStored histories
      → load_histories m first.reset_interval first.reset_time first.is_constant_interval
          (length histories)
          (save_histories m histories)
        ≡ some (map (restored first) histories)
  unfolding load_histories save_histories
  load_histories-save_histories first [] ok = refl
  load_histories-save_histories first (h ∷ histories) (here, ok) =
      rw
        (
          load_history-save_history first h (save_histories m histories) here,
          load_histories-save_histories first histories ok,
        )
        refl

  -- What load_history_from_file reads in a file that save_history_to_file wrote: every history, in order, with
  -- its ip and its nodes, whether they were written in 32 or in 64 bits; with the interval of the first one,
  -- and with its times unless it has no nodes; where the values fit in their types, and bytes are laid out so
  -- that the bytes of a number are read as that number.
  pub load_history_from_file-save_history_to_file :
      (first : History) (histories : List History)
      → length (first ∷ histories) < 2 ^ 32
      → All IsStored (first ∷ histories)
      → load_history_from_file m (save_history_to_file m (first ∷ histories))
        ≡ some (map (restored first) (first ∷ histories))
  unfolding load_history_from_file save_history_to_file
  load_history_from_file-save_history_to_file first histories small ok =
      let more : (length (first ∷ histories) == 0) ≡ false = ground arith in
      rw
        (
          read_word-bytes m laws 4 (length (first ∷ histories)) _ small,
          more,
          read_word-bytes m laws 8 first.reset_interval _ ok.0.interval_small,
          read_word-bytes m laws 8 first.reset_time _ ok.0.time_small,
          read_word-bytes m laws 1 first.is_constant_interval _ ok.0.constant_small,
        )
        (load_histories-save_histories first (first ∷ histories) ok)
