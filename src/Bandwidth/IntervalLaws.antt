-- ===== src/Bandwidth/IntervalLaws.antt =====
-- The start times of the nodes of a history.
use openwrt_extra.Common.{
  ℕ, zero, suc, ◌+◌, ◌<◌, ◌≡◌, refl, sym, ◌⊎◌, inl, inr, Bool-cases, ltb, ◌==◌, if◌then◌else◌, true,
  false, some, length, arith,
}
use openwrt_extra.Bandwidth.Files.{History}
use openwrt_extra.Bandwidth.Intervals.{
  Tm, next_loop, get_next_node_start_time, starts_loop, get_interval_starts_for_history, evenly,
  successive,
}

module _ (localtime : ℕ → Tm) (mktime : Tm → ℕ) where
  -- Where the next start is always some function of the one before, that function makes the list.
  starts_loop-successive :
      (fuel : ℕ) (h : History) (step : ℕ → ℕ) (nodes start : ℕ)
      → ((time : ℕ)
          → get_next_node_start_time localtime mktime fuel time h.reset_interval h.reset_time
              h.is_constant_interval
            ≡ some (step time))
      → starts_loop localtime mktime fuel h nodes start (step start)
        ≡ some (successive step nodes start)
  unfolding starts_loop successive
  starts_loop-successive fuel h step zero start next = refl
  starts_loop-successive fuel h step (suc nodes) start next =
      rw (next (step start), starts_loop-successive fuel h step nodes (step start) next) refl

  starts-successive :
      (fuel : ℕ) (h : History) (step : ℕ → ℕ)
      → ((time : ℕ)
          → get_next_node_start_time localtime mktime fuel time h.reset_interval h.reset_time
              h.is_constant_interval
            ≡ some (step time))
      → get_interval_starts_for_history localtime mktime fuel h
        ≡ some (successive step (length h.history_bws) h.first_start)
  unfolding get_interval_starts_for_history successive
  starts-successive fuel h step next = elim (Bool-cases (length h.history_bws == 0)) [
    | inl empty ↦ let e : length h.history_bws ≡ 0 = ground (arith, empty) in rw (empty, e) refl
    | inr nodes ↦
        rw (nodes, next h.first_start)
          (starts_loop-successive fuel h step (length h.history_bws) h.first_start next)
  ]

  successive-evenly :
      (step n start : ℕ) → successive (λ time. time + step) n start ≡ evenly step n start
  unfolding successive evenly
  successive-evenly step zero start = refl
  successive-evenly step (suc n) start = rw (successive-evenly step n (start + step)) refl

  -- The start times of the nodes of a history with a constant interval, or with a reset time that is not zero: one
  -- after another from the first start, by the interval where it is constant, and else by the reset time, whatever
  -- the interval is.
  pub get_interval_starts_for_history-evenly :
      (fuel : ℕ) (h : History)
      → ((h.is_constant_interval == 0) ≡ false) ⊎ (0 < h.reset_time)
      → get_interval_starts_for_history localtime mktime (suc fuel) h
        ≡ some (
            evenly
              (if h.is_constant_interval == 0 then h.reset_time else h.reset_interval)
              (length h.history_bws)
              h.first_start)
  unfolding get_next_node_start_time next_loop
  get_interval_starts_for_history-evenly fuel h kind =
      elim (Bool-cases (h.is_constant_interval == 0)) [
        | inl calendar ↦
            let later : 0 < h.reset_time = elim kind [
              | inl constant ↦ absurd (ground (arith, constant, calendar))
              | inr some_time ↦ some_time
            ] in
            let past : (time : ℕ) → ltb time (time + h.reset_time) ≡ true =
              λ time. ground (arith, later) in
            rw (calendar, sym (successive-evenly h.reset_time (length h.history_bws) h.first_start))
              (starts-successive (suc fuel) h (λ time. time + h.reset_time)
                (λ time. rw (calendar, past time) refl))
        | inr constant ↦
            rw
              (
                constant,
                sym (successive-evenly h.reset_interval (length h.history_bws) h.first_start),
              )
              (starts-successive (suc fuel) h (λ time. time + h.reset_interval)
                (λ time. rw constant refl))
      ]
