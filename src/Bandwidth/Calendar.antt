-- ===== src/Bandwidth/Calendar.antt =====
-- get_next_node_start_time of packages/gargoyle/libiptbwctl/src/ipt_bwctl.c by the calendar: what localtime and
-- mktime are where the offset from UTC is always the same, and where a period ends.
use openwrt_extra.Common.{
  ℕ, zero, suc, ◌+◌, ◌*◌, ◌-◌, ◌^◌, ◌%◌, ◌<◌, ◌≤◌, ◌≡◌, refl, sym, ap, ◌∙◌, ◌==◌, ==_iff,
  if◌then◌else◌, Bool-cases, inl, inr, Option, none, some, Bool, true, false, arith,
}
use openwrt_extra.Bandwidth.Intervals.{
  Tm, bandwidth_minute, bandwidth_hour, bandwidth_day, bandwidth_week, bandwidth_month, week_loop,
  next_period,
}

abbrev pub is_saving : Option Bool → Bool
is_saving none = false
is_saving (some saving) = saving

-- The seconds of a day that have gone.
abbrev pub time_of_day : Tm → ℕ
time_of_day tm = 3600 * tm.tm_hour + 60 * tm.tm_min + tm.tm_sec

module _ (month : ℕ → ℕ → ℕ) where
  -- The seconds from a day before 1970 on, where `month` has those of the first midnight of a month of a year.
  abbrev pub seconds : Tm → ℕ
  seconds tm =
      month tm.tm_year tm.tm_mon
      + 86400 * (tm.tm_mday - 1)
      + 3600 * tm.tm_hour
      + 60 * tm.tm_min
      + tm.tm_sec

  -- localtime splits a time of 31 bits into its fields, and mktime goes back from fields, also from those that are
  -- out of their range; days have 86400 seconds.
  pub record IsCalendar (localtime : ℕ → Tm) (mktime : Tm → ℕ) : Type 0 where
    pub sec_small : (time : ℕ) → time < 2 ^ 31 → (localtime time).tm_sec < 60
    pub min_small : (time : ℕ) → time < 2 ^ 31 → (localtime time).tm_min < 60
    pub hour_small : (time : ℕ) → time < 2 ^ 31 → (localtime time).tm_hour < 24
    pub mday_pos : (time : ℕ) → time < 2 ^ 31 → 1 ≤ (localtime time).tm_mday
    pub wday_small : (time : ℕ) → time < 2 ^ 31 → (localtime time).tm_wday < 7
    pub no_saving : (time : ℕ) → time < 2 ^ 31 → is_saving (localtime time).tm_isdst ≡ false
    pub localtime-eq : (time : ℕ) → time < 2 ^ 31 → time + 86400 ≡ seconds (localtime time)
    pub mktime-eq :
        (tm : Tm)
        → is_saving tm.tm_isdst ≡ false
        → 1 ≤ tm.tm_mday
        → 86400 ≤ seconds tm
        → seconds tm < 2 ^ 31 + 86400
        → mktime tm + 86400 ≡ seconds tm
    pub month_end :
        (time : ℕ)
        → time < 2 ^ 31
        → time + 86400 < month (localtime time).tm_year ((localtime time).tm_mon + 1)
    pub next_midnight :
        (time : ℕ)
        → time + 86400 - time_of_day (localtime time) < 2 ^ 31
        → time_of_day (localtime (time + 86400 - time_of_day (localtime time))) ≡ 0
    pub next_weekday :
        (time : ℕ)
        → time + 86400 - time_of_day (localtime time) < 2 ^ 31
        → (localtime (time + 86400 - time_of_day (localtime time))).tm_wday
          ≡ ((localtime time).tm_wday + 1) % 7

  -- The first second after the minute, hour, day, week or month of a time.
  abbrev pub next_start : (ℕ → Tm) → ℕ → ℕ → ℕ
  next_start localtime interval time =
      let tm = localtime time in
      if interval == bandwidth_minute
      then time + 60 - tm.tm_sec
      else if interval == bandwidth_hour
      then time + 3600 - (60 * tm.tm_min + tm.tm_sec)
      else if interval == bandwidth_day
      then time + 86400 - time_of_day tm
      else if interval == bandwidth_week
      then time + 86400 * (7 - tm.tm_wday) - time_of_day tm
      else month tm.tm_year (tm.tm_mon + 1) - 86400

module _ (month : ℕ → ℕ → ℕ) (localtime : ℕ → Tm) (mktime : Tm → ℕ)
    (laws : IsCalendar month localtime mktime) where
  abbrev tomorrow : Tm → Tm
  tomorrow tm = record tm { tm_mday = tm.tm_mday + 1 }

  mktime-localtime : (time : ℕ) → time < 2 ^ 31 → mktime (localtime time) ≡ time
  mktime-localtime time small =
      let tm = localtime time in
      let here = laws.localtime-eq time small in
      let a =
        laws.mktime-eq tm (laws.no_saving time small) (laws.mday_pos time small)
          (omega (arith, here)) (omega (arith, here)) in
      omega (arith, a, here)

  mktime-tomorrow :
      (time : ℕ) → time + 86400 < 2 ^ 31 → mktime (tomorrow (localtime time)) ≡ time + 86400
  mktime-tomorrow time later =
      let small : time < 2 ^ 31 = omega arith in
      let here = laws.localtime-eq time small in
      let day = laws.mday_pos time small in
      let a =
        laws.mktime-eq (tomorrow (localtime time)) (laws.no_saving time small) (omega arith)
          (omega (arith, here, day)) (omega (arith, here, day)) in
      omega (arith, a, here, day)

  -- With a turn for each day that is left and one more, the loop comes to the next Sunday.
  week_loop-days :
      (days fuel time : ℕ)
      → days < 7
      → days < fuel
      → time + 86400 * days < 2 ^ 31
      → (localtime time).tm_wday ≡ (7 - days) % 7
      → time_of_day (localtime time) ≡ 0
      → week_loop localtime mktime fuel (localtime time) ≡ some (time + 86400 * days)
  unfolding week_loop
  week_loop-days days zero time few enough small sunday midnight = absurd (omega arith)
  week_loop-days zero (suc fuel) time few enough small sunday midnight =
      let here : ((localtime time).tm_wday == 0) ≡ true = ground (arith, sunday) in
      let same : time + 86400 * 0 ≡ time = omega arith in
      rw (here, mktime-localtime time (omega arith), same) refl
  week_loop-days (suc days) (suc fuel) time few enough small sunday midnight =
      let other : ((localtime time).tm_wday == 0) ≡ false = ground (arith, sunday) in
      let day : time + 86400 - time_of_day (localtime time) ≡ time + 86400 = omega arith in
      let next = rw day at (laws.next_weekday time (omega arith)) in
      let next_day = rw day at (laws.next_midnight time (omega arith)) in
      let same : time + 86400 + 86400 * days ≡ time + 86400 * suc days = omega arith in
      rw (other, mktime-tomorrow time (omega arith), sym same)
        (week_loop-days days fuel (time + 86400) (omega arith) (omega arith) (omega arith)
          (omega (arith, next, sunday)) next_day)

  -- A step of the loop over the time leads to the next start, which is later.
  pub record Leads (fuel interval time : ℕ) : Type 0 where
    pub next :
        next_period localtime mktime fuel interval time time
        ≡ some (next_start month localtime interval time)
    pub later : time < next_start month localtime interval time

  module _ (fuel time : ℕ) (small : time < 2 ^ 31) where
    abbrev curr : Tm
    curr = record (localtime time) { tm_isdst = none }

    minute-Leads :
        next_start month localtime bandwidth_minute time < 2 ^ 31 → Leads fuel bandwidth_minute time
    unfolding next_period
    minute-Leads bound =
        let here = laws.localtime-eq time small in
        let day = laws.mday_pos time small in
        let sec = laws.sec_small time small in
        let a =
          laws.mktime-eq (record curr { tm_sec = 0; tm_min = curr.tm_min + 1 }) refl day
            (omega (arith, here, sec)) (omega (arith, here, sec, bound)) in
        record { next = ap some (omega (arith, a, here, sec)); later = omega (arith, sec) }

    hour-Leads :
        next_start month localtime bandwidth_hour time < 2 ^ 31 → Leads fuel bandwidth_hour time
    unfolding next_period
    hour-Leads bound =
        let here = laws.localtime-eq time small in
        let day = laws.mday_pos time small in
        let sec = laws.sec_small time small in
        let min = laws.min_small time small in
        let a =
          laws.mktime-eq (record curr { tm_sec = 0; tm_min = 0; tm_hour = curr.tm_hour + 1 }) refl
            day (omega (arith, here, sec, min)) (omega (arith, here, sec, min, bound)) in
        record {
          next = ap some (omega (arith, a, here, sec, min));
          later = omega (arith, sec, min);
        }

    -- The next midnight.
    midnight-eq :
        time + 86400 - time_of_day (localtime time) < 2 ^ 31
        → mktime (record curr { tm_sec = 0; tm_min = 0; tm_hour = 0; tm_mday = curr.tm_mday + 1 })
          ≡ time + 86400 - time_of_day (localtime time)
    midnight-eq bound =
        let here = laws.localtime-eq time small in
        let day = laws.mday_pos time small in
        let sec = laws.sec_small time small in
        let min = laws.min_small time small in
        let hour = laws.hour_small time small in
        let a =
          laws.mktime-eq
            (record curr { tm_sec = 0; tm_min = 0; tm_hour = 0; tm_mday = curr.tm_mday + 1 }) refl
            (omega arith) (omega (arith, here, day, sec, min, hour))
            (omega (arith, here, day, sec, min, hour, bound)) in
        omega (arith, a, here, day, sec, min, hour)

    day-Leads :
        next_start month localtime bandwidth_day time < 2 ^ 31 → Leads fuel bandwidth_day time
    unfolding next_period
    day-Leads bound =
        let sec = laws.sec_small time small in
        let min = laws.min_small time small in
        let hour = laws.hour_small time small in
        record { next = ap some (midnight-eq bound); later = omega (arith, sec, min, hour) }

    week-Leads :
        7 ≤ fuel
        → next_start month localtime bandwidth_week time < 2 ^ 31
        → Leads fuel bandwidth_week time
    unfolding next_period
    week-Leads enough bound =
        let tm = localtime time in
        let sec = laws.sec_small time small in
        let min = laws.min_small time small in
        let hour = laws.hour_small time small in
        let wday = laws.wday_small time small in
        let soon : time + 86400 - time_of_day tm < 2 ^ 31 = omega (arith, wday, bound) in
        let whole : time + 86400 - time_of_day tm + 86400 * (6 - tm.tm_wday)
            ≡ time + 86400 * (7 - tm.tm_wday) - time_of_day tm =
          omega (arith, sec, min, hour, wday) in
        let weekday = laws.next_weekday time soon in
        record {
          next = rw (midnight-eq soon) (
              week_loop-days (6 - tm.tm_wday) fuel (time + 86400 - time_of_day tm) (omega arith)
                (omega (arith, enough)) (omega (arith, whole, bound)) (omega (arith, weekday, wday))
                (laws.next_midnight time soon)
              ∙ ap some whole);
          later = omega (arith, sec, min, hour, wday);
        }

    month-Leads :
        next_start month localtime bandwidth_month time < 2 ^ 31 → Leads fuel bandwidth_month time
    unfolding next_period
    month-Leads bound =
        let end = laws.month_end time small in
        let a =
          laws.mktime-eq
            (record curr {
              tm_sec = 0;
              tm_min = 0;
              tm_hour = 0;
              tm_mday = 1;
              tm_mon = curr.tm_mon + 1;
            })
            refl (omega arith) (omega (arith, end)) (omega (arith, end, bound)) in
        record { next = ap some (omega (arith, a, end)); later = omega (arith, end) }

    pub interval-Leads :
        (interval : ℕ)
        → 7 ≤ fuel
        → bandwidth_minute ≤ interval
        → interval ≤ bandwidth_month
        → next_start month localtime interval time < 2 ^ 31
        → Leads fuel interval time
    interval-Leads interval enough least greatest bound =
        elim (Bool-cases (interval == bandwidth_minute)) [
          | inl is ↦ at bandwidth_minute is minute-Leads
          | inr not_minute ↦ elim (Bool-cases (interval == bandwidth_hour)) [
            | inl is ↦ at bandwidth_hour is hour-Leads
            | inr not_hour ↦ elim (Bool-cases (interval == bandwidth_day)) [
              | inl is ↦ at bandwidth_day is day-Leads
              | inr not_day ↦ elim (Bool-cases (interval == bandwidth_week)) [
                | inl is ↦ at bandwidth_week is (week-Leads enough)
                | inr not_week ↦
                    at bandwidth_month
                      (ground (arith, not_minute, not_hour, not_day, not_week, least, greatest))
                      month-Leads
              ]
            ]
          ]
        ]
      where
        at :
            (known : ℕ)
            → (interval == known) ≡ true
            → (next_start month localtime known time < 2 ^ 31 → Leads fuel known time)
            → Leads fuel interval time
        at known is leads =
            let e : interval ≡ known = (==_iff interval known).0 is in
            let kept : next_start month localtime known time < 2 ^ 31 = rw (sym e) bound in
            rw e (leads kept)
