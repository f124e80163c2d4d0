-- ===== src/Bandwidth/Blocks.antt =====
-- The blocks that packages/gargoyle/libiptbwctl/src/ipt_bwctl.c writes to a buffer for the kernel, and reads from
-- one. The part of a buffer that is written is a list of bytes; `none` is a read past it. A time_t has 32 bits, as on
-- the targets, and stands as the number of its bits: it is signed, and what is computed with it wraps around.
use openwrt_extra.Common.{
  ℕ, zero, suc, ◌+◌, ◌*◌, ◌-◌, ◌^◌, ◌%◌, ltb, if◌then◌else◌, Bool, true, false, Option, none, some,
  List, [], ◌∷◌, ◌++◌, length, ◌>>=◌,
}
use openwrt_extra.Bandwidth.Layout.{Layout, read_word}
use openwrt_extra.Bandwidth.Files.{History}

-- What is exchanged of an ip: its usage, or its history.
pub data IpData : Type 0 where
  usage : ℕ → ℕ → IpData
  history : History → IpData

-- BANDWIDTH_QUERY_LENGTH and BANDWIDTH_MAX_ID_LENGTH
abbrev pub query_length : ℕ
query_length = 16384

abbrev pub max_id_length : ℕ
max_id_length = 50

-- The index of the first block: the fields before it and the id.
abbrev pub set_header : ℕ
set_header = 3 * 4 + 2 * 1 + 8 + max_id_length

unfoldable pub block_length : IpData → ℕ
block_length (usage ip bw) = 12
block_length (history h) = 2 * 4 + 3 * 8 + 8 * length h.history_bws

-- A buffer that is sent.
pub record Batch : Type 0 where
  pub total_ips : ℕ
  pub next_ip_index : ℕ
  pub num_ips_in_buffer : ℕ
  pub payload : List ℕ

-- What is sent with a first buffer and the blocks left after it, where the rest would send these.
unfoldable pub send_more : Batch → List IpData → Option (List Batch) → Option (List Batch)
send_more batch [] rest = some (batch ∷ [])
send_more batch (_ ∷ _) rest = rest >>= λ batches. some (batch ∷ batches)

-- The conversion of a uint64_t to time_t.
abbrev pub time_t : ℕ → ℕ
time_t v = v % 2 ^ 32

-- A time_t with one amount added and another one taken away.
abbrev pub shifted : ℕ → ℕ → ℕ → ℕ
shifted time more less = (time + more + (2 ^ 32 - less % 2 ^ 32)) % 2 ^ 32

-- The conversion of a time_t to uint64_t, which repeats the sign.
abbrev pub extended : ℕ → ℕ
extended time = if ltb time (2 ^ 31) then time else time + (2 ^ 64 - 2 ^ 32)

-- The layout of integers; the minutes west of UTC at a time, counted from a day east; and the time.
module _ (m : Layout) (minutes_west : ℕ → ℕ) (now : ℕ) where
  -- The adjustment for a change of the offset from UTC.
  abbrev pub to_kernel : ℕ → ℕ
  to_kernel time = extended (shifted (time_t time) (minutes_west (time_t time)) (minutes_west now))

  unfoldable pub put_bws : List ℕ → List ℕ
  put_bws [] = []
  put_bws (bw ∷ bws) = m.bytes 8 bw ++ put_bws bws

  unfoldable pub block_bytes : IpData → List ℕ
  unfolding put_bws
  block_bytes (usage ip bw) = m.bytes 4 ip ++ m.bytes 8 bw
  block_bytes (history h) =
      m.bytes 4 h.ip
      ++ (m.bytes 4 (length h.history_bws)
          ++ (m.bytes 8 (to_kernel h.first_start)
              ++ (m.bytes 8 (to_kernel h.first_end)
                  ++ (m.bytes 8 (to_kernel h.last_end) ++ put_bws h.history_bws))))

  -- The bytes that are added at the index; `none` is a full buffer.
  unfoldable pub set_ip_block : IpData → ℕ → Option (List ℕ)
  unfolding block_length block_bytes
  set_ip_block block index =
      if ltb query_length (index + block_length block) then none else some (block_bytes block)

  -- The inner loop: the bytes, their blocks counted, and the blocks that are left.
  unfoldable pub fill_loop : List IpData → ℕ → List ℕ × ℕ × List IpData
  unfolding set_ip_block
  fill_loop [] index = ([], 0, [])
  fill_loop (block ∷ blocks) index =
      let (payload, count, left) = fill_loop blocks (index + block_length block) in
      elim (set_ip_block block index) [
        | none ↦ ([], 0, block ∷ blocks)
        | some bytes ↦ (bytes ++ payload, suc count, left)
      ]

  -- The outer loop; `none` is the end of the fuel.
  unfoldable pub send_loop : ℕ → ℕ → ℕ → List IpData → Option (List Batch)
  unfolding fill_loop send_more
  send_loop zero total index blocks = none
  send_loop (suc fuel) total index [] = some (
      record { total_ips = total; next_ip_index = index; num_ips_in_buffer = 0; payload = [] } ∷ [])
  send_loop (suc fuel) total index (block ∷ blocks) =
      let (payload, count, left) = fill_loop (block ∷ blocks) set_header in
      let batch : Batch = record {
        total_ips = total;
        next_ip_index = index;
        num_ips_in_buffer = count;
        payload = payload;
      } in
      send_more batch left (send_loop fuel total (index + count) left)

  -- The buffers that set_bandwidth_data sends.
  unfoldable pub set_bandwidth_data : ℕ → List IpData → Option (List Batch)
  unfolding send_loop
  set_bandwidth_data fuel blocks = send_loop fuel (length blocks) 0 blocks

  -- The adjustment of a time that is read.
  abbrev pub from_kernel : ℕ → ℕ
  from_kernel time = shifted (time_t time) (60 * minutes_west (time_t time)) (60 * minutes_west now)

  unfoldable pub get_bws : ℕ → List ℕ → Option (List ℕ × List ℕ)
  unfolding read_word
  get_bws zero buf = some ([], buf)
  get_bws (suc nodes) buf = read_word m 8 buf >>= λ (bw, buf1).
      get_bws nodes buf1 >>= λ (bws, buf2). some (bw ∷ bws, buf2)

  -- A block of a response that has these intervals.
  unfoldable pub parse_returned_ip_data : Bool → ℕ → ℕ → ℕ → List ℕ → Option (IpData × List ℕ)
  unfolding get_bws read_word
  parse_returned_ip_data false reset_interval reset_time is_constant_interval buf =
      read_word m 4 buf >>= λ (ip, buf1).
      read_word m 8 buf1 >>= λ (bw, buf2). some (usage ip bw, buf2)
  parse_returned_ip_data true reset_interval reset_time is_constant_interval buf =
      read_word m 4 buf >>= λ (ip, buf1). read_word m 4 buf1 >>= λ (num_nodes, buf2).
      read_word m 8 buf2 >>= λ (first_start, buf3). read_word m 8 buf3 >>= λ (first_end, buf4).
      read_word m 8 buf4 >>= λ (last_end, buf5). get_bws num_nodes buf5 >>= λ (bws, buf6). some (
        history (record {
          ip = ip;
          reset_interval = reset_interval;
          reset_time = reset_time;
          is_constant_interval = is_constant_interval;
          first_start = from_kernel first_start;
          first_end = from_kernel first_end;
          last_end = from_kernel last_end;
          history_bws = bws;
        }),
        buf6,
      )

  -- The loop over the blocks of a response.
  unfoldable pub parse_response : Bool → ℕ → ℕ → ℕ → ℕ → List ℕ → Option (List IpData)
  unfolding parse_returned_ip_data
  parse_response get_history reset_interval reset_time is_constant_interval zero buf = some []
  parse_response get_history reset_interval reset_time is_constant_interval (suc count) buf =
      parse_returned_ip_data get_history reset_interval reset_time is_constant_interval buf
      >>= λ (next, buf1).
          parse_response get_history reset_interval reset_time is_constant_interval count buf1
          >>= λ rest. some (next ∷ rest)
