-- ===== src/Bandwidth/Files.antt =====
-- save_history_to_file and load_history_from_file of packages/gargoyle/libiptbwctl/src/ipt_bwctl.c. A time is
-- not negative; num_nodes is the length of history_bws; a file is the list of its bytes, and `none` is a read
-- past its end, which leaves a variable without a value.
use openwrt_extra.Common.{
  ℕ, zero, suc, ◌^◌, ◌-◌, ◌%◌, ltb, ◌==◌, if◌then◌else◌, Option, some, List, [], ◌∷◌, ◌++◌, length,
  ◌>>=◌,
}
use openwrt_extra.Bandwidth.Layout.{Layout, read_word}

pub record History : Type 0 where
  pub ip : ℕ
  pub reset_interval : ℕ
  pub reset_time : ℕ
  pub is_constant_interval : ℕ
  pub first_start : ℕ
  pub first_end : ℕ
  pub last_end : ℕ
  pub history_bws : List ℕ

-- INT32_MAX
abbrev pub int32_max : ℕ
int32_max = 2 ^ 31 - 1

-- The loop over the nodes that sets bw_bits.
unfoldable pub bw_bits : List ℕ → ℕ
bw_bits [] = 32
bw_bits (bw ∷ bws) = let rest = bw_bits bws in if ltb bw int32_max then rest else 64

module _ (m : Layout) where
  -- The nodes; a node that is written in 32 bits is cut to them.
  unfoldable pub save_bws : ℕ → List ℕ → List ℕ
  save_bws bits [] = []
  save_bws bits (bw ∷ bws) =
      (if bits == 32 then m.bytes 4 (bw % 2 ^ 32) else m.bytes 8 bw) ++ save_bws bits bws

  -- The data of an ip.
  unfoldable pub save_history : History → List ℕ
  unfolding bw_bits save_bws
  save_history next =
      m.bytes 4 next.ip
      ++ (m.bytes 4 (length next.history_bws)
          ++ (if length next.history_bws == 0
              then m.bytes 8 0 ++ (m.bytes 8 0 ++ (m.bytes 8 0 ++ m.bytes 1 32))
              else m.bytes 8 next.first_start
                ++ (m.bytes 8 next.first_end
                    ++ (m.bytes 8 next.last_end
                        ++ (m.bytes 1 (bw_bits next.history_bws)
                            ++ save_bws (bw_bits next.history_bws) next.history_bws)))))

  unfoldable pub save_histories : List History → List ℕ
  unfolding save_history
  save_histories [] = []
  save_histories (next ∷ rest) = save_history next ++ save_histories rest

  -- What save_history_to_file writes to the file.
  unfoldable pub save_history_to_file : List History → List ℕ
  unfolding save_histories
  save_history_to_file [] = m.bytes 4 0
  save_history_to_file (first ∷ rest) =
      m.bytes 4 (length (first ∷ rest))
      ++ (m.bytes 8 first.reset_interval
          ++ (m.bytes 8 first.reset_time
              ++ (m.bytes 1 first.is_constant_interval ++ save_histories (first ∷ rest))))

  unfoldable pub load_bws : ℕ → ℕ → List ℕ → Option (List ℕ × List ℕ)
  unfolding read_word
  load_bws bits zero file = some ([], file)
  load_bws bits (suc nodes) file = read_word m (if bits == 32 then 4 else 8) file >>= λ (bw, file1).
      load_bws bits nodes file1 >>= λ (bws, file2). some (bw ∷ bws, file2)

  unfoldable pub load_history : ℕ → ℕ → ℕ → List ℕ → Option (History × List ℕ)
  unfolding load_bws read_word
  load_history reset_interval reset_time is_constant_interval file =
      read_word m 4 file >>= λ (ip, file1). read_word m 4 file1 >>= λ (num_nodes, file2).
      read_word m 8 file2 >>= λ (first_start, file3). read_word m 8 file3 >>= λ (first_end, file4).
      read_word m 8 file4 >>= λ (last_end, file5). read_word m 1 file5 >>= λ (bits, file6).
      load_bws bits num_nodes file6 >>= λ (bws, file7). some (
        record {
          ip = ip;
          reset_interval = reset_interval;
          reset_time = reset_time;
          is_constant_interval = is_constant_interval;
          first_start = first_start;
          first_end = first_end;
          last_end = last_end;
          history_bws = bws;
        },
        file7,
      )

  unfoldable pub load_histories : ℕ → ℕ → ℕ → ℕ → List ℕ → Option (List History)
  unfolding load_history
  load_histories reset_interval reset_time is_constant_interval zero file = some []
  load_histories reset_interval reset_time is_constant_interval (suc num_ips) file =
      load_history reset_interval reset_time is_constant_interval file >>= λ (next, file1).
      load_histories reset_interval reset_time is_constant_interval num_ips file1 >>= λ rest.
      some (next ∷ rest)

  unfoldable pub load_history_from_file : List ℕ → Option (List History)
  unfolding load_histories read_word
  load_history_from_file file = read_word m 4 file >>= λ (num_ips, file1).
      if num_ips == 0
      then some []
      else read_word m 8 file1 >>= λ (reset_interval, file2).
          read_word m 8 file2 >>= λ (reset_time, file3).
          read_word m 1 file3 >>= λ (is_constant_interval, file4).
          load_histories reset_interval reset_time is_constant_interval num_ips file4
