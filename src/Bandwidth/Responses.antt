-- ===== src/Bandwidth/Responses.antt =====
-- get_bandwidth_data of packages/gargoyle/libiptbwctl/src/ipt_bwctl.c. The kernel is a parameter: what it leaves in
-- the buffer that a getsockopt is called with. The lock and the socket are taken as got. A buffer is the list of its
-- bytes; `none` is a read past it, a write past the data, or the end of the fuel.
use openwrt_extra.Common.{
  ℕ, zero, suc, ◌+◌, ◌^◌, ◌-◌, ◌%◌, ltb, ◌==◌, not, if◌then◌else◌, Bool, true, false, Option, none,
  some, List, [], ◌∷◌, ◌++◌, length, take, drop, ◌>>=◌,
}
use openwrt_extra.Bandwidth.Layout.{Layout}
use openwrt_extra.Bandwidth.Blocks.{IpData, usage, history, query_length, time_t, parse_response}

-- What a caller gets: whether there was no error, and the data with its number of items. There is one more item of
-- the data, which ends it.
pub record Received : Type 0 where
  pub success : Bool
  pub num_ips : ℕ
  pub data_items : List IpData

unfoldable pub overwrite : ℕ → List ℕ → List ℕ → List ℕ
overwrite offset bytes buf = take offset buf ++ (bytes ++ drop (offset + length bytes) buf)

unfoldable pub zeros : ℕ → List ℕ
zeros zero = []
zeros (suc n) = 0 ∷ zeros n

-- The data that memset leaves.
unfoldable pub zeroed : Bool → ℕ → List IpData
zeroed get_history zero = []
zeroed get_history (suc n) =
    (if get_history
      then history (record {
        ip = 0;
        reset_interval = 0;
        reset_time = 0;
        is_constant_interval = 0;
        first_start = 0;
        first_end = 0;
        last_end = 0;
        history_bws = [];
      })
      else usage 0 0)
    ∷ zeroed get_history n

-- The items written over the data from an index on.
unfoldable pub put_items : ℕ → List IpData → List IpData → Option (List IpData)
put_items index [] items = some items
put_items index (next ∷ rest) [] = none
put_items zero (next ∷ rest) (item ∷ items) =
    put_items zero rest items >>= λ written. some (next ∷ written)
put_items (suc index) (next ∷ rest) (item ∷ items) =
    put_items index (next ∷ rest) items >>= λ written. some (item ∷ written)

module _ (m : Layout) (minutes_west : ℕ → ℕ) (now : ℕ) (kernel : List ℕ → List ℕ) where
  unfoldable pub word_at : ℕ → ℕ → List ℕ → ℕ
  word_at width offset buf = m.word (take width (drop offset buf))

  -- The request: the ip, an index, whether the history is wanted, and the id, which ends in a null, in a
  -- zeroed buffer.
  unfoldable pub request : Bool → ℕ → List ℕ → List ℕ
  unfolding zeros
  request get_history ip id =
      m.bytes 4 ip
      ++ (m.bytes 4 0
          ++ ((if get_history then 1 else 0) ∷ (id ++ zeros (query_length - (9 + length id)))))

  -- What is done with a response: the data it leaves. The data is allocated again with every response.
  unfoldable pub take_response : Bool → ℕ → List ℕ → Option (List IpData)
  unfolding zeroed put_items word_at
  take_response get_history data_index buf =
      let total_ips = word_at 4 1 buf in
      parse_response m minutes_west now get_history (time_t (word_at 8 13 buf))
        (time_t (word_at 8 21 buf)) (word_at 1 29 buf) (word_at 4 9 buf) (drop 30 buf)
      >>= λ items. put_items data_index items (zeroed get_history (suc total_ips))

  -- The next index of the request, which stands in the buffer that has the response.
  unfoldable pub next_request : List ℕ → List ℕ
  unfolding word_at overwrite
  next_request buf = overwrite 4 (m.bytes 4 ((word_at 4 4 buf + word_at 4 9 buf) % 2 ^ 32)) buf

  unfoldable pub get_loop : ℕ → Bool → ℕ → ℕ → List IpData → List ℕ → Option Received
  unfolding word_at take_response next_request
  get_loop zero get_history data_index num_ips items buf = none
  get_loop (suc fuel) get_history data_index num_ips items buf =
      let response = kernel buf in
      let total_ips = word_at 4 1 response in
      let next = next_request response in
      if not (word_at 1 0 response == 0)
      then some (record { success = false; num_ips = num_ips; data_items = items })
      else take_response get_history data_index response >>= λ written.
          (if ltb (word_at 4 4 next) total_ips
            then get_loop fuel get_history (data_index + word_at 4 9 response) total_ips written
                next
            else some (record { success = true; num_ips = total_ips; data_items = written }))

  unfoldable pub get_bandwidth_data : ℕ → Bool → ℕ → List ℕ → Option Received
  unfolding get_loop request
  get_bandwidth_data fuel get_history ip id =
      get_loop fuel get_history 0 0 [] (request get_history ip id)
