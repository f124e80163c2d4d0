-- ===== src/Bandwidth/Intervals.antt =====
-- get_next_node_start_time and get_interval_starts_for_history of packages/gargoyle/libiptbwctl/src/ipt_bwctl.c.
-- localtime and mktime are parameters. A time is not negative; `none` is the end of the fuel.
use openwrt_extra.Common.{
  ℕ, zero, suc, ◌+◌, ltb, ◌==◌, if◌then◌else◌, Bool, Option, none, some, List, [], ◌∷◌, length,
  ◌>>=◌,
}
use openwrt_extra.Bandwidth.Files.{History}

-- struct tm
pub record Tm : Type 0 where
  pub tm_sec : ℕ
  pub tm_min : ℕ
  pub tm_hour : ℕ
  pub tm_mday : ℕ
  pub tm_mon : ℕ
  pub tm_year : ℕ
  pub tm_wday : ℕ
  -- Whether daylight saving time is in effect; `none` is -1, which is not known.
  pub tm_isdst : Option Bool

-- BANDWIDTH_MINUTE and the other intervals
abbrev pub bandwidth_minute : ℕ
bandwidth_minute = 80

abbrev pub bandwidth_hour : ℕ
bandwidth_hour = 81

abbrev pub bandwidth_day : ℕ
bandwidth_day = 82

abbrev pub bandwidth_week : ℕ
bandwidth_week = 83

abbrev pub bandwidth_month : ℕ
bandwidth_month = 84

abbrev pub bandwidth_never : ℕ
bandwidth_never = 85

module _ (localtime : ℕ → Tm) (mktime : Tm → ℕ) where
  -- The loop that goes on by a day until it is Sunday.
  unfoldable pub week_loop : ℕ → Tm → Option ℕ
  week_loop zero curr = none
  week_loop (suc fuel) curr =
      let rest = week_loop fuel (localtime (mktime (record curr { tm_mday = curr.tm_mday + 1 }))) in
      if curr.tm_wday == 0 then some (mktime curr) else rest

  -- The time that one turn of the loop sets.
  unfoldable pub next_period : ℕ → ℕ → ℕ → ℕ → Option ℕ
  unfolding week_loop
  next_period fuel reset_interval current_start_time next =
      let curr = record (localtime current_start_time) { tm_isdst = none } in
      let midnight = record curr { tm_sec = 0; tm_min = 0; tm_hour = 0 } in
      if reset_interval == bandwidth_minute
      then some (mktime (record curr { tm_sec = 0; tm_min = curr.tm_min + 1 }))
      else if reset_interval == bandwidth_hour
      then some (mktime (record curr { tm_sec = 0; tm_min = 0; tm_hour = curr.tm_hour + 1 }))
      else if reset_interval == bandwidth_day
      then some (mktime (record midnight { tm_mday = curr.tm_mday + 1 }))
      else if reset_interval == bandwidth_week
      then week_loop fuel (localtime (mktime (record midnight { tm_mday = curr.tm_mday + 1 })))
      else if reset_interval == bandwidth_month
      then some (mktime (record midnight { tm_mday = 1; tm_mon = curr.tm_mon + 1 }))
      else some next

  unfoldable pub next_loop : ℕ → ℕ → ℕ → ℕ → ℕ → Option ℕ
  unfolding next_period
  next_loop zero reset_interval reset_time current_start_time next = none
  next_loop (suc fuel) reset_interval reset_time current_start_time next =
      if ltb current_start_time (next + reset_time)
      then some (next + reset_time)
      else next_period fuel reset_interval current_start_time next >>= λ time.
          next_loop fuel reset_interval reset_time current_start_time time

  unfoldable pub get_next_node_start_time : ℕ → ℕ → ℕ → ℕ → ℕ → Option ℕ
  unfolding next_loop
  get_next_node_start_time fuel current_start_time reset_interval reset_time is_constant_interval =
      if is_constant_interval == 0
      then next_loop fuel reset_interval reset_time current_start_time current_start_time
      else some (current_start_time + reset_interval)

  -- The loop over the nodes.
  unfoldable pub starts_loop : ℕ → History → ℕ → ℕ → ℕ → Option (List ℕ)
  unfolding get_next_node_start_time
  starts_loop fuel h zero next_start next_end = some []
  starts_loop fuel h (suc nodes) next_start next_end =
      get_next_node_start_time fuel next_end h.reset_interval h.reset_time h.is_constant_interval
      >>= λ end. starts_loop fuel h nodes next_end end >>= λ starts. some (next_start ∷ starts)

  -- The start of every node; without nodes there are none.
  unfoldable pub get_interval_starts_for_history : ℕ → History → Option (List ℕ)
  unfolding starts_loop
  get_interval_starts_for_history fuel h =
      if length h.history_bws == 0
      then some []
      else get_next_node_start_time fuel h.first_start h.reset_interval h.reset_time
          h.is_constant_interval
        >>= λ next_end. starts_loop fuel h (length h.history_bws) h.first_start next_end

-- So many times, one after another by a step.
unfoldable pub evenly : ℕ → ℕ → ℕ → List ℕ
evenly step zero start = []
evenly step (suc n) start = start ∷ evenly step n (start + step)

-- So many times, where each is the one that the step leads to from the time before.
unfoldable pub successive : (ℕ → ℕ) → ℕ → ℕ → List ℕ
successive step zero start = []
successive step (suc n) start = start ∷ successive step n (step start)
