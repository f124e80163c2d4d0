-- ===== src/Bandwidth/Examples.antt =====
-- The theorems on the bandwidth library at examples, and tests.
use openwrt_extra.Common.{
  ltb, length, length-append, ap, ◌-◌, ℕ, zero, suc, ◌+◌, ◌*◌, ◌^◌, ◌%◌, ◌/◌, ◌≡◌, refl, inr, ◌==◌,
  if◌then◌else◌, true, false, none, some, List, [], ◌∷◌, ◌++◌, map, arith,
}
use openwrt_extra.Bandwidth.Layout.{little, little-IsLayout}
use openwrt_extra.Bandwidth.Files.{History, save_history_to_file, load_history_from_file}
use openwrt_extra.Bandwidth.FileLaws.{
  IsStored, restored, load_history_from_file-save_history_to_file,
}
use openwrt_extra.Bandwidth.Blocks.{
  IpData, usage, history, Batch, put_bws, block_length, set_bandwidth_data, parse_response,
}
use openwrt_extra.Bandwidth.BlockLaws.{Carries, set_bandwidth_data-Carries}
use openwrt_extra.Bandwidth.Responses.{zeros, zeroed, word_at, get_bandwidth_data}
use openwrt_extra.Bandwidth.ResponseLaws.{
  kernel_blocks, AreReturned, response, get_bandwidth_data-response,
}
use openwrt_extra.Bandwidth.Intervals.{
  Tm, bandwidth_never, bandwidth_week, get_next_node_start_time, get_interval_starts_for_history,
  evenly, successive,
}
use openwrt_extra.Bandwidth.Calendar.{seconds, next_start}
use openwrt_extra.Bandwidth.IntervalLaws.{get_interval_starts_for_history-evenly}
use openwrt_extra.StringUtil.Splitting.{is_separator}
use openwrt_extra.Bandwidth.Usage.{Format, save_usage_to_file, load_usage_from_file}
use openwrt_extra.Bandwidth.UsageLaws.{IsFormat, load_usage_from_file-save_usage_to_file}

abbrev small_history : History
small_history = record {
  ip = 7;
  reset_interval = 80;
  reset_time = 0;
  is_constant_interval = 0;
  first_start = 100000;
  first_end = 100020;
  last_end = 100080;
  history_bws = 5 ∷ 2 ^ 31 ∷ [];
}

abbrev empty_history : History
empty_history = record small_history { ip = 8; history_bws = [] }

small_IsStored : IsStored small_history
small_IsStored = record {
  ip_small = omega arith;
  nodes_small = omega arith;
  interval_small = omega arith;
  time_small = omega arith;
  constant_small = omega arith;
  start_small = omega arith;
  first_small = omega arith;
  last_small = omega arith;
  bws_small = (omega arith, (omega arith, tt));
}

empty_IsStored : IsStored empty_history
empty_IsStored = record {
  ip_small = omega arith;
  nodes_small = omega arith;
  interval_small = omega arith;
  time_small = omega arith;
  constant_small = omega arith;
  start_small = omega arith;
  first_small = omega arith;
  last_small = omega arith;
  bws_small = tt;
}

load_history_from_file-save_history_to_file_example :
    load_history_from_file little (save_history_to_file little (small_history ∷ empty_history ∷ []))
    ≡ some (map (restored small_history) (small_history ∷ empty_history ∷ []))
load_history_from_file-save_history_to_file_example =
    load_history_from_file-save_history_to_file little little-IsLayout small_history
      (empty_history ∷ []) (omega arith) (small_IsStored, (empty_IsStored, tt))

-- An offset from UTC that is the same at all times.
abbrev no_change : ℕ → ℕ
no_change time = 1440

abbrev two_blocks : List IpData
two_blocks = history small_history ∷ usage 9 12 ∷ []

set_bandwidth_data-Carries_example :
    (batches : List Batch) × (set_bandwidth_data little no_change 500000 3 two_blocks
      ≡ some batches)
    × Carries little no_change 500000 2 0 two_blocks batches
unfolding block_length
set_bandwidth_data-Carries_example =
    set_bandwidth_data-Carries little little-IsLayout no_change 500000 3 two_blocks (omega arith)
      (omega arith, (omega arith, tt))

-- An offset from UTC that is two hours west, and an hour from a time on.
abbrev summer : ℕ → ℕ
summer time = if ltb time 300000 then 1560 else 1500

abbrev late_history : History
late_history = record small_history { first_start = 200000; first_end = 200020; last_end = 400000 }

late_IsStored : IsStored late_history
late_IsStored = record {
  ip_small = omega arith;
  nodes_small = omega arith;
  interval_small = omega arith;
  time_small = omega arith;
  constant_small = omega arith;
  start_small = omega arith;
  first_small = omega arith;
  last_small = omega arith;
  bws_small = (omega arith, (omega arith, tt));
}

length-zeros : (n : ℕ) → length (zeros n) ≡ n
unfolding zeros
length-zeros zero = refl
length-zeros (suc n) = ap suc (length-zeros n)

-- A kernel that has one ip.
abbrev one_ip : List ℕ → List ℕ
one_ip buf = response 1 0 1 80 0 0 (kernel_blocks little (history late_history ∷ []) ++ zeros 16306)

get_bandwidth_data-response_example :
    (results : List IpData) × (get_bandwidth_data little summer 500000 one_ip 1 true 0 (b'a' ∷ [])
      ≡ some (record { success = true; num_ips = 1; data_items = results ++ zeroed true 1 }))
    × AreReturned summer 500000 80 0 0 (history late_history ∷ []) results
unfolding put_bws
get_bandwidth_data-response_example =
    get_bandwidth_data-response summer 500000 one_ip (λ time. ground arith) 0 true 0 80 0 0
      (b'a' ∷ []) (zeros 16306) (history late_history ∷ []) (omega arith) (omega arith)
      (omega arith) (omega arith)
      (
        (
          late_IsStored,
          (omega arith, omega arith),
          (omega arith, omega arith),
          (omega arith, omega arith),
        ),
        tt,
      )
      (rw
        (
          length-append (kernel_blocks little (history late_history ∷ [])) (zeros 16306),
          length-zeros 16306,
        )
        refl)
      refl

-- A calendar without months: the day is a number of days.
abbrev days_localtime : ℕ → Tm
days_localtime time = record {
  tm_sec = time % 60;
  tm_min = time / 60;
  tm_hour = 0;
  tm_mday = 0;
  tm_mon = 0;
  tm_year = 0;
  tm_wday = 0;
  tm_isdst = some false;
}

abbrev days_mktime : Tm → ℕ
days_mktime tm = tm.tm_sec + 60 * tm.tm_min + 3600 * tm.tm_hour + 86400 * tm.tm_mday

get_interval_starts_for_history-evenly_example :
    get_interval_starts_for_history days_localtime days_mktime 1
      (record small_history { reset_time = 30 })
    ≡ some (evenly 30 2 100000)
get_interval_starts_for_history-evenly_example =
    get_interval_starts_for_history-evenly days_localtime days_mktime 0
      (record small_history { reset_time = 30 }) (inr (omega arith))

-- A calendar in which every month has thirty days, and a year twelve months.
abbrev thirty_localtime : ℕ → Tm
thirty_localtime time = record {
  tm_sec = time % 60;
  tm_min = time / 60 % 60;
  tm_hour = time / 3600 % 24;
  tm_mday = time / 86400 % 30 + 1;
  tm_mon = time / 2592000 % 12;
  tm_year = time / 31104000;
  tm_wday = time / 86400 % 7;
  tm_isdst = some false;
}

abbrev thirty_month : ℕ → ℕ → ℕ
thirty_month year mon = 86400 + 31104000 * year + 2592000 * mon

abbrev thirty_mktime : Tm → ℕ
thirty_mktime tm = seconds thirty_month tm - 86400

abbrev weekly_history : History
weekly_history = record small_history { reset_interval = bandwidth_week }

weeks_test :
    successive (next_start thirty_month thirty_localtime bandwidth_week) 3 100000
    ≡ 100000 ∷ 604800 ∷ 1209600 ∷ []
unfolding successive
weeks_test = refl

-- The loop over the time for an interval that is none of the five.
never_test : get_next_node_start_time days_localtime days_mktime 9 100000 bandwidth_never 0 0 ≡ none
unfolding get_next_node_start_time
never_test = refl

-- A block with more nodes than an empty buffer has room for is tried without end.
abbrev some_bws : ℕ → List ℕ
some_bws zero = []
some_bws (suc n) = 1 ∷ some_bws n

large_test :
    set_bandwidth_data little no_change 500000 4
      (history (record small_history { history_bws = some_bws 2040 }) ∷ [])
    ≡ none
unfolding set_bandwidth_data
large_test = refl

-- A kernel that has three ips, and gives two with an index of zero in a response and else one.
abbrev three_ips : List ℕ → List ℕ
three_ips buf =
    if word_at little no_change 500000 (λ b. b) 4 4 buf == 0
    then response 3 0 2 80 0 0 (kernel_blocks little (usage 5 50 ∷ usage 6 60 ∷ []))
    else response 3 2 1 80 0 0 (kernel_blocks little (usage 7 70 ∷ []))

two_responses_test :
    get_bandwidth_data little no_change 500000 three_ips 2 false 0 (b'a' ∷ [])
    ≡ some (record {
      success = true;
      num_ips = 3;
      data_items = usage 0 0 ∷ usage 0 0 ∷ usage 7 70 ∷ usage 0 0 ∷ [];
    })
unfolding get_bandwidth_data parse_response
two_responses_test = refl

-- Stand-ins for the C library: a number is a byte that no text has, and an address two.
abbrev stand_in : Format
stand_in = record {
  inet_ntoa = λ ip. b'.' ∷ (b'a' + ip) ∷ [];
  inet_aton =
      λ s. elim s [ [] ↦ none | c ∷ rest ↦ elim rest [ [] ↦ none | d ∷ _ ↦ some (d - b'a') ] ];
  print_number = λ n. (b'0' + n) ∷ [];
  scan_number = λ s. elim s [ [] ↦ none | c ∷ _ ↦ some (c - b'0') ];
}

stand_in-IsFormat : IsFormat stand_in false
unfolding is_separator
stand_in-IsFormat = record {
  ntoa_part = λ ip small. (omega arith, (refl, (ground arith, tt)));
  number_part = λ n small. (omega arith, (ground arith, tt));
  aton-ntoa = λ ip small. ap some (omega arith);
  scan-print = λ n small. ap some (omega arith);
  aton-number = λ n small. refl;
}

load_usage_from_file-save_usage_to_file_example :
    load_usage_from_file stand_in
      (save_usage_to_file stand_in 5 (record { ip = 1; bw = 7 } ∷ record { ip = 2; bw = 0 } ∷ []))
    ≡ some (record { ip = 1; bw = 7 } ∷ record { ip = 2; bw = 0 } ∷ [], 5)
load_usage_from_file-save_usage_to_file_example =
    load_usage_from_file-save_usage_to_file stand_in false stand_in-IsFormat 5
      (record { ip = 1; bw = 7 } ∷ record { ip = 2; bw = 0 } ∷ []) (omega arith)
      ((omega arith, omega arith), ((omega arith, omega arith), tt))

-- A stand-in that takes a number alone for an address.
abbrev posix : Format
posix = record stand_in {
  inet_aton = λ s. elim s [
    | [] ↦ none
    | c ∷ rest ↦ elim rest [ [] ↦ some (c - b'0') | d ∷ _ ↦ some (d - b'a') ]
  ];
}

posix_test :
    load_usage_from_file posix (save_usage_to_file posix 5 (record { ip = 1; bw = 7 } ∷ [])) ≡ none
unfolding load_usage_from_file save_usage_to_file is_separator
posix_test = refl
