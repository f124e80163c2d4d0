-- ===== src/Bandwidth/BlockLaws.antt =====
-- The buffers of set_bandwidth_data in packages/gargoyle/libiptbwctl/src/ipt_bwctl.c, and reading their blocks.
use openwrt_extra.Common.{
  ℕ, zero, suc, ◌+◌, ◌*◌, ◌<◌, ◌≤◌, ◌≡◌, refl, ap, inl, inr, Bool-cases, ltb, false, Option, some,
  List, [], ◌∷◌, ◌++◌, length, length-append, All, All-append_parts, subst, arith,
}
use openwrt_extra.Bandwidth.Layout.{Layout, IsLayout}
use openwrt_extra.Bandwidth.Blocks.{
  IpData, usage, history, query_length, set_header, block_length, put_bws, block_bytes,
  set_ip_block, fill_loop, Batch, send_more, send_loop, set_bandwidth_data,
}

-- A block that fits in an empty buffer.
abbrev pub Fits : IpData → Type 0
Fits block = set_header + block_length block ≤ query_length

module _ (m : Layout) (minutes_west : ℕ → ℕ) (now : ℕ) where
  abbrev pub blocks_bytes : List IpData → List ℕ
  blocks_bytes [] = []
  blocks_bytes (block ∷ blocks) = block_bytes m minutes_west now block ++ blocks_bytes blocks

  -- Buffers that carry the blocks from an index on, of a total number: in each the index of its first block, the
  -- number of its blocks, and their bytes, which fit in it.
  pub data Carries (total : ℕ) : ℕ → List IpData → List Batch → Type 0 where
    done : {index : ℕ} → Carries total index [] []
    send :
        (sent rest : List IpData) {index : ℕ} {blocks : List IpData} {batch : Batch}
        {batches : List Batch}
        → batch.total_ips ≡ total
        → batch.next_ip_index ≡ index
        → batch.num_ips_in_buffer ≡ length sent
        → batch.payload ≡ blocks_bytes sent
        → set_header + length batch.payload ≤ query_length
        → blocks ≡ sent ++ rest
        → Carries total (index + length sent) rest batches
        → Carries total index blocks (batch ∷ batches)

module _ (m : Layout) (laws : IsLayout m) (minutes_west : ℕ → ℕ) (now : ℕ) where
  length-put_bws : (bws : List ℕ) → length (put_bws m minutes_west now bws) ≡ 8 * length bws
  unfolding put_bws
  length-put_bws [] = refl
  length-put_bws (bw ∷ bws) =
      let whole = length-append (m.bytes 8 bw) (put_bws m minutes_west now bws) in
      let here = laws.length-bytes 8 bw in let there = length-put_bws bws in omega arith

  length-block_bytes :
      (block : IpData) → length (block_bytes m minutes_west now block) ≡ block_length block
  unfolding block_bytes block_length
  length-block_bytes (usage ip bw) = rw (length-append, laws.length-bytes, laws.length-bytes) refl
  length-block_bytes (history h) =
      let nodes = length-put_bws h.history_bws in
      simp (length-append, laws.length-bytes, nodes, arith) (omega arith)

  -- The inner loop puts a first part of the blocks in the buffer.
  abbrev Filled : List IpData → ℕ → List ℕ × ℕ × List IpData → Type 0
  Filled blocks index (payload, count, left) =
      (sent : List IpData) × (blocks ≡ sent ++ left)
      × (count ≡ length sent)
      × (payload ≡ blocks_bytes m minutes_west now sent)
      × (index ≤ query_length → index + length payload ≤ query_length)

  fill_loop-Filled :
      (blocks : List IpData) (index : ℕ)
      → Filled blocks index (fill_loop m minutes_west now blocks index)
  unfolding fill_loop set_ip_block
  fill_loop-Filled [] index = ([], refl, refl, refl, λ h. omega arith)
  fill_loop-Filled (block ∷ blocks) index =
      elim (Bool-cases (ltb query_length (index + block_length block))) [
        | inl full ↦ rw (full, fill_loop) ([], refl, refl, refl, λ h. omega arith)
        | inr room ↦
            let (sent, all, count, bytes, fits) =
              fill_loop-Filled blocks (index + block_length block) in
            let size =
              length-append (block_bytes m minutes_west now block)
                (fill_loop m minutes_west now blocks (index + block_length block)).0 in
            let here = length-block_bytes block in
            rw (room, fill_loop)
              (
                block ∷ sent,
                ap (λ bs. block ∷ bs) all,
                ap suc count,
                ap (λ bs. block_bytes m minutes_west now block ++ bs) bytes,
                λ h. ground (arith, room, fits, size, here),
              )
      ]

  -- The first block of an empty buffer is put in it, where it fits.
  fill_loop-lt :
      (block : IpData) (blocks : List IpData)
      → Fits block
      → length (fill_loop m minutes_west now (block ∷ blocks) set_header).2
        < length (block ∷ blocks)
  unfolding fill_loop set_ip_block
  fill_loop-lt block blocks fits =
      let room : ltb query_length (set_header + block_length block) ≡ false =
        ground (arith, fits) in
      let (sent, all, count, bytes, size_fits) =
        fill_loop-Filled blocks (set_header + block_length block) in
      let size =
        length-append sent
          (fill_loop m minutes_west now blocks (set_header + block_length block)).2 in
      rw (room, fill_loop) (omega (arith, ap length all, size))

  send_more-Carries :
      (total index next : ℕ) (blocks left : List IpData) (batch : Batch)
      (rest : Option (List Batch))
      → ((batches : List Batch)
          → Carries m minutes_west now total next left batches
          → Carries m minutes_west now total index blocks (batch ∷ batches))
      → (batches : List Batch) × (rest ≡ some batches)
        × Carries m minutes_west now total next left batches
      → (batches : List Batch) × (send_more batch left rest ≡ some batches)
        × Carries m minutes_west now total index blocks batches
  unfolding send_more
  send_more-Carries total index next blocks [] batch rest with_batch later =
      (batch ∷ [], refl, with_batch [] done)
  send_more-Carries total index next blocks (_ ∷ _) batch rest with_batch
        (batches, sends, carried) =
      (batch ∷ batches, rw sends refl, with_batch batches carried)

  send_loop-Carries :
      (fuel total index : ℕ) (blocks : List IpData)
      → length blocks < fuel
      → All Fits blocks
      → (batches : List Batch) × (send_loop m minutes_west now fuel total index blocks
          ≡ some batches)
        × Carries m minutes_west now total index blocks batches
  unfolding send_loop
  send_loop-Carries zero total index blocks enough fits = absurd (omega arith)
  send_loop-Carries (suc fuel) total index [] enough fits =
      (_, refl, send [] [] refl refl refl refl (omega arith) refl done)
  send_loop-Carries (suc fuel) total index (block ∷ blocks) enough fits =
      let filled = fill_loop m minutes_west now (block ∷ blocks) set_header in
      let (sent, all, count, bytes, size_fits) = fill_loop-Filled (block ∷ blocks) set_header in
      let less = fill_loop-lt block blocks fits.0 in
      let left_fits = (All-append_parts Fits sent filled.2 (subst (All Fits) all fits)).1 in
      let next = index + filled.1 in
      send_more-Carries total index next (block ∷ blocks) filled.2
        (record {
          total_ips = total;
          next_ip_index = index;
          num_ips_in_buffer = filled.1;
          payload = filled.0;
        })
        _
        (λ batches carried. send sent filled.2 refl refl count bytes (size_fits (omega arith)) all (
          subst (λ (at : ℕ). Carries m minutes_west now total at filled.2 batches)
            (ap (λ n. index + n) count) carried))
        (send_loop-Carries fuel total next filled.2 (omega arith) left_fits)

  -- The buffers that set_bandwidth_data sends, where every block fits in an empty buffer: it ends, within one more
  -- turn of the outer loop than there are blocks, and the buffers carry the blocks, each once and in order. In each
  -- stand the total number of the blocks, the index of its first one, how many it has, and their bytes, which do
  -- not go past its end.
  pub set_bandwidth_data-Carries :
      (fuel : ℕ) (blocks : List IpData)
      → length blocks < fuel
      → All Fits blocks
      → (batches : List Batch) × (set_bandwidth_data m minutes_west now fuel blocks ≡ some batches)
        × Carries m minutes_west now (length blocks) 0 blocks batches
  unfolding set_bandwidth_data
  set_bandwidth_data-Carries fuel blocks enough fits =
      send_loop-Carries fuel (length blocks) 0 blocks enough fits
