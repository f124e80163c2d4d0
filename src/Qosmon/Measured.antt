-- ===== src/Qosmon/Measured.antt =====
-- The ping limit of packages/gargoyle/qos-gargoyle/src/qosmon.c is not zero when the limit is adjusted by it.
use openwrt_extra.Common.{
  ℕ, ◌^◌, ◌<◌, ◌≡◌, refl, ◌∙◌, inl, inr, ltb, ◌||◌, if◌then◌else◌, Bool, true, false, arith,
  Bool-cases,
}
use openwrt_extra.Qosmon.Machine.{
  QState, check, init, active, realtime, idle, Config, Floats, Monitor, Sample, tc_class_modify,
  sane, on_check, on_init, choose_mode, save_limit, adjust, on_active, on_idle, on_state, gather,
  filter_ping, is_restart, round, start,
}

-- Whether the ping limit may not be known yet.
abbrev is_measuring : QState → Bool
is_measuring check = true
is_measuring init = true
is_measuring active = false
is_measuring realtime = false
is_measuring idle = false

-- There is a ping limit, or it is being measured.
pub record IsMeasured (m : Monitor) : Type 0 where
  pub measured : (is_measuring m.qstate || ltb 0 m.pinglimit) ≡ true

-- A ping limit that is not being measured is not zero.
pub limit_of :
    (m : Monitor) (state : QState)
    → m.qstate ≡ state
    → is_measuring state ≡ false
    → IsMeasured m
    → 0 < m.pinglimit
limit_of m state at known ok =
    let here : is_measuring m.qstate ≡ false = rw at known in ground (arith, here, ok.measured)

module _ (config : Config) (floats : Floats) where
  modify-kept :
      (rate : ℕ) (m : Monitor)
      → ((tc_class_modify rate m).pinglimit ≡ m.pinglimit)
        × ((tc_class_modify rate m).qstate ≡ m.qstate)
        × ((tc_class_modify rate m).plimit ≡ m.plimit)
  unfolding tc_class_modify
  modify-kept rate m = ground arith

  pub save_limit-pinglimit : (m : Monitor) → (save_limit config floats m).pinglimit ≡ m.pinglimit
  unfolding save_limit
  save_limit-pinglimit m = ground arith

  pub choose_mode-plimit :
      (sample : Sample) (m : Monitor)
      → ((choose_mode config floats sample m).pinglimit ≡ m.pinglimit)
        × (0 < m.pinglimit → 0 < (choose_mode config floats sample m).plimit)
  unfolding choose_mode tc_class_modify
  choose_mode-plimit sample m = ground arith

  adjust-pinglimit :
      (sample : Sample) (m : Monitor) → (adjust config floats sample m).pinglimit ≡ m.pinglimit
  unfolding adjust tc_class_modify
  adjust-pinglimit sample m = ground arith

  active-pinglimit :
      (sample : Sample) (m : Monitor) → (on_active config floats sample m).pinglimit ≡ m.pinglimit
  unfolding on_active
  active-pinglimit sample m =
      let on = record m { pingon = true } in
      let saved = save_limit config floats on in
      let next = choose_mode config floats sample saved in
      adjust-pinglimit sample
        (if floats.below_tenth sample.dbw_fil then record next { qstate = idle } else next)
      ∙ elim (Bool-cases (floats.below_tenth sample.dbw_fil)) [
        | inl low ↦ rw low ((choose_mode-plimit sample saved).0 ∙ save_limit-pinglimit on)
        | inr high ↦ rw high ((choose_mode-plimit sample saved).0 ∙ save_limit-pinglimit on)
      ]

  idle-pinglimit :
      (sample : Sample) (m : Monitor) → (on_idle config floats sample m).pinglimit ≡ m.pinglimit
  unfolding on_idle
  idle-pinglimit sample m = elim (Bool-cases (floats.below_idle sample.dbw_fil)) [
    | inl low ↦ rw low refl
    | inr high ↦ rw high (active-pinglimit sample (record m { pingon = false }))
  ]

  limited-IsMeasured : (m : Monitor) → 0 < m.pinglimit → IsMeasured m
  limited-IsMeasured m some_limit = record { measured = ground (arith, some_limit) }

  check-IsMeasured :
      (sample : Sample) (m : Monitor)
      → is_measuring m.qstate ≡ true
      → IsMeasured (on_check config floats sample m)
  unfolding on_check tc_class_modify
  check-IsMeasured sample m unknown = record { measured = ground (arith, unknown) }

  init-IsMeasured :
      (sample : Sample) (m : Monitor)
      → is_measuring m.qstate ≡ true
      → IsMeasured (on_init config floats sample m)
  unfolding on_init tc_class_modify sane
  init-IsMeasured sample m unknown = record { measured = ground (arith, unknown) }

  state-IsMeasured :
      (sample : Sample) (m : Monitor)
      → (state : QState) → m.qstate ≡ state
      → IsMeasured m
      → IsMeasured (on_state config floats state sample m)
  unfolding on_state
  state-IsMeasured sample m check at ok = check-IsMeasured sample m (rw at refl)
  state-IsMeasured sample m init at ok = init-IsMeasured sample m (rw at refl)
  state-IsMeasured sample m active at ok =
      limited-IsMeasured _ (rw (active-pinglimit sample m) (limit_of m active at refl ok))
  state-IsMeasured sample m realtime at ok =
      limited-IsMeasured _ (rw (active-pinglimit sample m) (limit_of m realtime at refl ok))
  state-IsMeasured sample m idle at ok =
      limited-IsMeasured _ (rw (idle-pinglimit sample m) (limit_of m idle at refl ok))

  pub round-IsMeasured :
      (sample : Sample) (m : Monitor) → IsMeasured m → IsMeasured (round config floats sample m)
  unfolding round gather filter_ping
  round-IsMeasured sample m ok = elim (Bool-cases (is_restart config floats sample m)) [
    | inl restart ↦ rw restart (record { measured = refl })
    | inr goes_on ↦
        let next = filter_ping config floats sample (gather config floats sample m) in
        let kept = state-IsMeasured sample next m.qstate refl (record { measured = ok.measured }) in
        rw goes_on (record { measured = kept.measured })
  ]

  pub start-IsMeasured : (classes : ℕ) → IsMeasured (start config floats classes)
  unfolding start
  start-IsMeasured classes = record { measured = refl }

  pub start-nreceived : (classes : ℕ) → (start config floats classes).nreceived < 2 ^ 16
  unfolding start
  start-nreceived classes = omega arith

  save_limit-nreceived : (m : Monitor) → (save_limit config floats m).nreceived ≡ m.nreceived
  unfolding save_limit
  save_limit-nreceived m = ground arith

  choose_mode-nreceived :
      (sample : Sample) (m : Monitor) → (choose_mode config floats sample m).nreceived ≡ m.nreceived
  unfolding choose_mode tc_class_modify
  choose_mode-nreceived sample m = ground arith

  adjust-nreceived :
      (sample : Sample) (m : Monitor) → (adjust config floats sample m).nreceived ≡ m.nreceived
  unfolding adjust tc_class_modify
  adjust-nreceived sample m = ground arith

  active-nreceived :
      (sample : Sample) (m : Monitor) → (on_active config floats sample m).nreceived ≡ m.nreceived
  unfolding on_active
  active-nreceived sample m =
      let on = record m { pingon = true } in
      let saved = save_limit config floats on in
      let next = choose_mode config floats sample saved in
      let kept = choose_mode-nreceived sample saved ∙ save_limit-nreceived on in
      adjust-nreceived sample
        (if floats.below_tenth sample.dbw_fil then record next { qstate = idle } else next)
      ∙ elim (Bool-cases (floats.below_tenth sample.dbw_fil)) [
        | inl low ↦ rw low kept
        | inr high ↦ rw high kept
      ]

  state-nreceived :
      (sample : Sample) (m : Monitor) (state : QState)
      → m.nreceived < 2 ^ 16
      → (on_state config floats state sample m).nreceived < 2 ^ 16
  unfolding on_state on_check on_init on_idle tc_class_modify
  state-nreceived sample m check small = ground (arith, small)
  state-nreceived sample m init small = ground (arith, small)
  state-nreceived sample m active small = rw (active-nreceived sample m) small
  state-nreceived sample m realtime small = rw (active-nreceived sample m) small
  state-nreceived sample m idle small = elim (Bool-cases (floats.below_idle sample.dbw_fil)) [
    | inl low ↦ rw low small
    | inr high ↦ rw (high, active-nreceived sample (record m { pingon = false })) small
  ]

  pub round-nreceived :
      (sample : Sample) (m : Monitor) → (round config floats sample m).nreceived < 2 ^ 16
  unfolding round gather filter_ping
  round-nreceived sample m = elim (Bool-cases (is_restart config floats sample m)) [
    | inl restart ↦ rw restart (omega arith)
    | inr goes_on ↦
        let next = filter_ping config floats sample (gather config floats sample m) in
        rw goes_on (state-nreceived sample next m.qstate (omega arith))
  ]
