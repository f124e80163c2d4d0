-- ===== src/Bandwidth/ResponseLaws.antt =====
-- Reading the blocks of a response of the kernel.
use openwrt_extra.Common.{
  ℕ, suc, ◌+◌, ◌^◌, ◌-◌, ◌<◌, ◌≡◌, refl, ◌%◌, ◌/◌, ltb, Bool, true, false, some, List, [], ◌∷◌,
  ◌++◌, map, length, All, append_assoc, arith, ◌≤◌, ◌*◌,
}
use openwrt_extra.Bandwidth.Layout.{
  Layout, IsLayout, little, little_bytes, little_word-little_bytes, little-IsLayout,
  read_word-bytes,
}
use openwrt_extra.Bandwidth.Files.{History}
use openwrt_extra.Bandwidth.FileLaws.{IsStored}
use openwrt_extra.Bandwidth.Blocks.{
  IpData, usage, history, put_bws, query_length, get_bws, from_kernel, parse_returned_ip_data,
  parse_response,
}
use openwrt_extra.Bandwidth.Responses.{
  zeroed, put_items, word_at, request, take_response, next_request, overwrite, get_loop,
  get_bandwidth_data,
}

-- A time with room for two days on either side.
abbrev pub IsTime : ℕ → Type 0
IsTime time = (172800 ≤ time) × (time < 2 ^ 31 - 172800)

-- An item that a response has: of the kind that was asked for, with values that fit in their fields.
abbrev pub IsItem : Bool → IpData → Type 0
IsItem false (usage ip bw) = (ip < 2 ^ 32) × (bw < 2 ^ 64)
IsItem false (history h) = ⊥
IsItem true (usage ip bw) = ⊥
IsItem true (history h) = IsStored h × IsTime h.first_start × IsTime h.first_end × IsTime h.last_end

module _ (minutes_west : ℕ → ℕ) (now : ℕ) (reset_interval reset_time is_constant_interval : ℕ) where
  -- A time that is returned differs from the kernel's by as many seconds as the offset from UTC then and now.
  abbrev pub IsMoved : ℕ → ℕ → Type 0
  IsMoved time moved = moved + 60 * minutes_west now ≡ time + 60 * minutes_west time

  -- A history that is returned: its times are moved, and it has the interval of the response.
  pub record IsReturned (h result : History) : Type 0 where
    pub first_start : IsMoved h.first_start result.first_start
    pub first_end : IsMoved h.first_end result.first_end
    pub last_end : IsMoved h.last_end result.last_end
    pub same_ip : result.ip ≡ h.ip
    pub same_bws : result.history_bws ≡ h.history_bws
    pub interval : result.reset_interval ≡ reset_interval
    pub time : result.reset_time ≡ reset_time
    pub constant : result.is_constant_interval ≡ is_constant_interval

  -- The items of a response and what is returned for them, in the same order.
  abbrev pub AreReturned : List IpData → List IpData → Type 0
  AreReturned [] [] = Unit
  AreReturned (usage ip bw ∷ items) (usage ip' bw' ∷ results) =
      (ip' ≡ ip) × (bw' ≡ bw) × AreReturned items results
  AreReturned (history h ∷ items) (history result ∷ results) =
      IsReturned h result × AreReturned items results
  AreReturned _ _ = ⊥

module _ (m : Layout) where
  -- A block that the kernel writes.
  abbrev pub kernel_block : IpData → List ℕ
  kernel_block (usage ip bw) = m.bytes 4 ip ++ m.bytes 8 bw
  kernel_block (history h) =
      m.bytes 4 h.ip
      ++ (m.bytes 4 (length h.history_bws)
          ++ (m.bytes 8 h.first_start
              ++ (m.bytes 8 h.first_end
                  ++ (m.bytes 8 h.last_end ++ put_bws m (λ time. 0) 0 h.history_bws))))

  abbrev pub kernel_blocks : List IpData → List ℕ
  kernel_blocks [] = []
  kernel_blocks (item ∷ items) = kernel_block item ++ kernel_blocks items

module _ (m : Layout) (minutes_west : ℕ → ℕ) (now : ℕ) where
  -- What an item is for the caller, with the interval of the response.
  abbrev returned : ℕ → ℕ → ℕ → IpData → IpData
  returned reset_interval reset_time is_constant_interval (usage ip bw) = usage ip bw
  returned reset_interval reset_time is_constant_interval (history h) = history (record h {
    reset_interval = reset_interval;
    reset_time = reset_time;
    is_constant_interval = is_constant_interval;
    first_start = from_kernel m minutes_west now h.first_start;
    first_end = from_kernel m minutes_west now h.first_end;
    last_end = from_kernel m minutes_west now h.last_end;
  })

module _ (m : Layout) (minutes_west : ℕ → ℕ) (now : ℕ)
    (a_day : (time : ℕ) → minutes_west time ≤ 2880) where
  from_kernel-IsMoved :
      (r t c time : ℕ)
      → IsTime time
      → IsMoved minutes_west now r t c time (from_kernel m minutes_west now time)
  from_kernel-IsMoved r t c time (late, early) =
      let same : time % 2 ^ 32 ≡ time = omega arith in
      let there = a_day time in let here = a_day now in rw same (omega (arith, there, here))

  returned-AreReturned :
      (get_history : Bool) (r t c : ℕ) (items : List IpData)
      → All (IsItem get_history) items
      → AreReturned minutes_west now r t c items (map (returned m minutes_west now r t c) items)
  returned-AreReturned get_history r t c [] ok = tt
  returned-AreReturned false r t c (usage ip bw ∷ items) (here, ok) =
      (refl, refl, returned-AreReturned false r t c items ok)
  returned-AreReturned false r t c (history h ∷ items) (here, ok) = absurd here
  returned-AreReturned true r t c (usage ip bw ∷ items) (here, ok) = absurd here
  returned-AreReturned true r t c (history h ∷ items) ((stored, start, first, last), ok) = (
    record {
      first_start = from_kernel-IsMoved r t c h.first_start start;
      first_end = from_kernel-IsMoved r t c h.first_end first;
      last_end = from_kernel-IsMoved r t c h.last_end last;
      same_ip = refl;
      same_bws = refl;
      interval = refl;
      time = refl;
      constant = refl;
    },
    returned-AreReturned true r t c items ok,
  )

module _ (m : Layout) (laws : IsLayout m) (minutes_west : ℕ → ℕ) (now : ℕ) where
  get_bws-put_bws :
      (bws tail : List ℕ)
      → All (λ (bw : ℕ). bw < 2 ^ 64) bws
      → get_bws m minutes_west now (length bws) (put_bws m (λ time. 0) 0 bws ++ tail)
        ≡ some (bws, tail)
  unfolding get_bws put_bws
  get_bws-put_bws [] tail small = refl
  get_bws-put_bws (bw ∷ bws) tail (here, small) =
      rw
        (
          append_assoc (m.bytes 8 bw) (put_bws m (λ time. 0) 0 bws) tail,
          read_word-bytes m laws 8 bw (put_bws m (λ time. 0) 0 bws ++ tail) here,
          get_bws-put_bws bws tail small,
        )
        refl

  parse_returned_ip_data-kernel_block :
      (get_history : Bool) (reset_interval reset_time is_constant_interval : ℕ) (block : IpData)
      (tail : List ℕ)
      → IsItem get_history block
      → parse_returned_ip_data m minutes_west now get_history reset_interval reset_time
          is_constant_interval
          (kernel_block m block ++ tail)
        ≡ some
            (returned m minutes_west now reset_interval reset_time is_constant_interval block, tail)
  unfolding parse_returned_ip_data
  parse_returned_ip_data-kernel_block false r t c (usage ip bw) tail (ip_small, bw_small) =
      rw
        (
          append_assoc (m.bytes 4 ip) (m.bytes 8 bw) tail,
          read_word-bytes m laws 4 ip _ ip_small,
          read_word-bytes m laws 8 bw _ bw_small,
        )
        refl
  parse_returned_ip_data-kernel_block false r t c (history h) tail ok = absurd ok
  parse_returned_ip_data-kernel_block true r t c (usage ip bw) tail ok = absurd ok
  parse_returned_ip_data-kernel_block true r t c (history h) tail (stored, _, _, _) =
      simp append_assoc (
        rw
          (
            read_word-bytes m laws 4 h.ip _ stored.ip_small,
            read_word-bytes m laws 4 (length h.history_bws) _ stored.nodes_small,
            read_word-bytes m laws 8 h.first_start _ stored.start_small,
            read_word-bytes m laws 8 h.first_end _ stored.first_small,
            read_word-bytes m laws 8 h.last_end _ stored.last_small,
            get_bws-put_bws h.history_bws tail stored.bws_small,
          )
          refl)

  parse_response-kernel_blocks :
      (get_history : Bool) (reset_interval reset_time is_constant_interval : ℕ)
      (items : List IpData) (tail : List ℕ)
      → All (IsItem get_history) items
      → parse_response m minutes_west now get_history reset_interval reset_time is_constant_interval
          (length items)
          (kernel_blocks m items ++ tail)
        ≡ some
            (map (returned m minutes_west now reset_interval reset_time is_constant_interval) items)
  unfolding parse_response
  parse_response-kernel_blocks get_history r t c [] tail ok = refl
  parse_response-kernel_blocks get_history r t c (item ∷ items) tail (here, ok) =
      rw
        (
          append_assoc (kernel_block m item) (kernel_blocks m items) tail,
          parse_returned_ip_data-kernel_block get_history r t c item (kernel_blocks m items ++ tail)
              here,
          parse_response-kernel_blocks get_history r t c items tail ok,
        )
        refl

put_items-all :
    (get_history : Bool) (f : IpData → IpData) (items : List IpData)
    → put_items 0 (map f items) (zeroed get_history (suc (length items)))
      ≡ some (map f items ++ zeroed get_history 1)
unfolding put_items zeroed
put_items-all get_history f [] = refl
put_items-all get_history f (item ∷ items) = rw (put_items-all get_history f items) refl

-- A response: the number of all the ips, an index, the number of ips in it, the interval, and the rest.
abbrev pub response : ℕ → ℕ → ℕ → ℕ → ℕ → ℕ → List ℕ → List ℕ
response total_ips index response_ips reset_interval reset_time is_constant_interval payload =
    0
    ∷ (little_bytes 4 total_ips
        ++ (little_bytes 4 index
            ++ (little_bytes 4 response_ips
                ++ (little_bytes 8 reset_interval
                    ++ (little_bytes 8 reset_time
                        ++ (little_bytes 1 is_constant_interval ++ payload))))))

module _ (minutes_west : ℕ → ℕ) (now : ℕ) (kernel : List ℕ → List ℕ) where
  take_response-response :
      (get_history : Bool) (reset_interval reset_time is_constant_interval : ℕ)
      (items : List IpData) (filler : List ℕ)
      → reset_interval < 2 ^ 31
      → reset_time < 2 ^ 31
      → is_constant_interval < 2 ^ 8
      → length items < 2 ^ 24
      → All (IsItem get_history) items
      → take_response little minutes_west now kernel get_history 0 (
          response
            (length items)
            0
            (length items)
            reset_interval
            reset_time
            is_constant_interval
            (kernel_blocks little items ++ filler))
        ≡ some (
            map
              (returned little minutes_west now reset_interval reset_time is_constant_interval)
              items
            ++ zeroed get_history 1)
  unfolding take_response word_at
  take_response-response get_history r t c items filler r_small t_small c_small few ok =
      let r_whole : r % 2 ^ 32 ≡ r = omega arith in
      let t_whole : t % 2 ^ 32 ≡ t = omega arith in
      rw
        (
          little_word-little_bytes 4 (length items) (omega arith),
          little_word-little_bytes 8 r (omega arith),
          little_word-little_bytes 8 t (omega arith),
          r_whole,
          t_whole,
          little_word-little_bytes 1 c c_small,
          parse_response-kernel_blocks little little-IsLayout minutes_west now get_history r t c
              items filler ok,
        )
        (put_items-all get_history _ items)

  -- The index that is asked for next: all the ips were in the response to the first request.
  next_request-response :
      (total reset_interval reset_time is_constant_interval : ℕ) (payload : List ℕ)
      → total < 2 ^ 24
      → word_at little minutes_west now kernel 4 4 (
          next_request little minutes_west now kernel
            (response total 0 total reset_interval reset_time is_constant_interval payload))
        ≡ total
  unfolding next_request word_at overwrite
  next_request-response total r t c payload few =
      let top : total / 256 / 256 / 256 % 256 ≡ 0 = omega arith in
      let sum : (0 + 0 + total) % 4294967296 ≡ total = omega arith in
      let word = little_word-little_bytes 4 total (omega arith) in
      let lower = rw top at word in rw (top, lower, sum, top) lower

  -- What get_bandwidth_data returns when the kernel answers its request without an error and with all the items
  -- at once: it returns success, the number of the items, and every item in order. A usage is as it was. A history
  -- has the interval of the response, and each of its three times and sixty times the minutes that the offset from
  -- UTC is now are together what the kernel's time and sixty times the minutes at it are. The conditions: the buffer
  -- has query_length bytes; there are fewer than 2 ^ 24 items of the kind that was asked for; the values fit in
  -- their fields; the times are at least two days and at least two days below 2 ^ 31, and the interval and its time
  -- below 2 ^ 31; the minutes, which count from a day east, are at most those of two days; and the lowest byte of a
  -- number comes first.
  pub get_bandwidth_data-response :
      ((time : ℕ) → minutes_west time ≤ 2880)
      → (fuel : ℕ) (get_history : Bool) (ip reset_interval reset_time is_constant_interval : ℕ)
        (id filler : List ℕ) (items : List IpData)
      → reset_interval < 2 ^ 31
      → reset_time < 2 ^ 31
      → is_constant_interval < 2 ^ 8
      → length items < 2 ^ 24
      → All (IsItem get_history) items
      → 30 + length (kernel_blocks little items ++ filler) ≡ query_length
      → kernel (request little minutes_west now kernel get_history ip id)
        ≡ response
            (length items)
            0
            (length items)
            reset_interval
            reset_time
            is_constant_interval
            (kernel_blocks little items ++ filler)
      → (results : List IpData) × (get_bandwidth_data little minutes_west now kernel
            (suc fuel)
            get_history
            ip
            id
          ≡ some (record {
            success = true;
            num_ips = length items;
            data_items = results ++ zeroed get_history 1;
          }))
        × AreReturned minutes_west now reset_interval reset_time is_constant_interval items results
  unfolding get_bandwidth_data get_loop
  get_bandwidth_data-response a_day fuel get_history ip r t c id filler items r_small t_small
        c_small few ok whole answered =
      let payload = kernel_blocks little items ++ filler in
      let total : word_at little minutes_west now kernel 4 1
            (response (length items) 0 (length items) r t c payload)
          ≡ length items =
        little_word-little_bytes 4 (length items) (omega arith) in
      let last : ltb (length items) (length items) ≡ false = ground arith in
      (
        map (returned little minutes_west now r t c) items,
        rw
            (
              answered,
              take_response-response get_history r t c items filler r_small t_small c_small few ok,
              next_request-response (length items) r t c payload few,
              total,
              last,
            )
            refl,
        returned-AreReturned little minutes_west now a_day get_history r t c items ok,
      )
