-- ===== src/Qosmon/Limits.antt =====
-- The limits that the monitor sets stay in their range.
use openwrt_extra.Common.{
  ℕ, ◌+◌, ◌-◌, ◌*◌, ◌^◌, ◌<◌, ◌≤◌, refl, ◌≡◌, ◌⊎◌, inl, inr, min, ltb, ◌==◌, if◌then◌else◌, true,
  false, List, All, arith, Bool-cases,
}
use openwrt_extra.Qosmon.Machine.{
  QState, check, init, active, realtime, idle, Config, Floats, Monitor, Sample, tc_class_modify,
  on_check, on_init, choose_mode, save_limit, adjust, on_active, on_idle, on_state, gather,
  filter_ping, is_restart, round, start,
}
use openwrt_extra.Qosmon.Measured.{IsMeasured, limit_of, save_limit-pinglimit, choose_mode-plimit}

-- What the products with floating point numbers satisfy: 0.15 * DBW_UL and 0.9 * DBW_UL are in order
-- and at most DBW_UL; the greatest factor leaves the limit in an int; and a factor of at least 1 does not make a
-- limit in the range smaller, nor one of at most 1 larger, where the code divides by no zero and the error is as the
-- code bounds it.
pub record AreRounded (config : Config) (floats : Floats) : Type 0 where
  pub floor_low : floats.floor_limit ≤ floats.fair_start
  pub start_low : floats.fair_start ≤ config.link_limit
  pub no_overflow : config.link_limit * (250000 + config.period) < 2 ^ 31 * 250000
  pub raises :
      (limit err plimit : ℕ)
      → limit ≤ config.link_limit
      → 0 < plimit
      → err ≤ plimit
      → limit ≤ floats.raised limit err plimit
  pub lowers :
      (limit err plimit : ℕ)
      → limit ≤ config.link_limit
      → 0 < plimit
      → err ≤ 2 * plimit
      → floats.lowered limit err plimit ≤ limit

module _ (config : Config) (floats : Floats) where
  -- Between 0.15 * DBW_UL and DBW_UL.
  abbrev pub Within : ℕ → Type 0
  Within limit = (floats.floor_limit ≤ limit) × (limit ≤ config.link_limit)

  abbrev pub IsRate : ℕ → Type 0
  IsRate rate = (rate ≡ 1000) ⊎ Within rate

  pub record AreLimits (new saved_active saved_realtime : ℕ) (rates : List ℕ) : Type 0 where
    pub new_limit : Within new
    pub active_limit : Within saved_active
    pub realtime_limit : Within saved_realtime
    pub sent : All IsRate rates

  abbrev pub IsLimited : Monitor → Type 0
  IsLimited m = AreLimits m.new_dbw_ul m.saved_active m.saved_realtime m.rates

  modify-IsLimited :
      (rate : ℕ) (m : Monitor) → IsRate rate → IsLimited m → IsLimited (tc_class_modify rate m)
  unfolding tc_class_modify
  modify-IsLimited rate m ok h = elim (Bool-cases (m.dbw_ul == rate)) [
    | inl same ↦ rw same h
    | inr other ↦ rw other (record {
      new_limit = h.new_limit;
      active_limit = h.active_limit;
      realtime_limit = h.realtime_limit;
      sent = (ok, h.sent);
    })
  ]

  module _ (laws : AreRounded config floats) where
    check-IsLimited :
        (sample : Sample) (m : Monitor) → IsLimited m → IsLimited (on_check config floats sample m)
    unfolding on_check
    check-IsLimited sample m h =
        ground (arith, h.new_limit, h.active_limit, h.realtime_limit, h.sent)

    init-IsLimited :
        (sample : Sample) (m : Monitor) → IsLimited m → IsLimited (on_init config floats sample m)
    unfolding on_init
    init-IsLimited sample m h =
        ground (arith, h.new_limit, h.active_limit, h.realtime_limit, h.sent)

    save-IsLimited : (m : Monitor) → IsLimited m → IsLimited (save_limit config floats m)
    unfolding save_limit
    save-IsLimited m h = ground (arith, h.new_limit, h.active_limit, h.realtime_limit, h.sent)

    choose-IsLimited :
        (sample : Sample) (m : Monitor)
        → IsLimited m
        → IsLimited (choose_mode config floats sample m)
    unfolding choose_mode
    choose-IsLimited sample m h =
        ground (arith, h.new_limit, h.active_limit, h.realtime_limit, h.sent)

    set-IsLimited :
        (limit : ℕ) (m : Monitor)
        → Within limit
        → IsLimited m
        → IsLimited (tc_class_modify limit (record m { new_dbw_ul = limit }))
    set-IsLimited limit m ok h =
        modify-IsLimited limit (record m { new_dbw_ul = limit }) (inr ok)
          (record {
            new_limit = ok;
            active_limit = h.active_limit;
            realtime_limit = h.realtime_limit;
            sent = h.sent;
          })

    up-Within : (raised : ℕ) → floats.floor_limit ≤ raised → Within (min raised config.link_limit)
    up-Within raised low = let a = laws.floor_low in let b = laws.start_low in ground arith

    down-Within :
        (lowered : ℕ)
        → lowered ≤ config.link_limit
        → Within (if ltb lowered floats.floor_limit then floats.floor_limit else lowered)
    down-Within lowered high = let a = laws.floor_low in let b = laws.start_low in ground arith

    adjust-IsLimited :
        (sample : Sample) (m : Monitor)
        → 0 < m.plimit
        → IsLimited m
        → IsLimited (adjust config floats sample m)
    unfolding adjust
    adjust-IsLimited sample m some_limit h = elim (Bool-cases (ltb m.fil_triptime m.plimit)) [
      | inl low ↦ elim (Bool-cases (floats.below_use sample.dbw_fil m.dbw_ul)) [
        | inl below ↦ rw (low, below) h
        | inr above ↦
            rw (low, above)
              (set-IsLimited _ m
                (up-Within _ (
                  let a =
                    laws.raises m.new_dbw_ul (m.plimit - m.fil_triptime) m.plimit h.new_limit.1
                      some_limit (omega arith) in
                  let b = h.new_limit.0 in omega arith))
                h)
      ]
      | inr high ↦ rw high (
          set-IsLimited _ m
            (down-Within _ (
              let a =
                laws.lowers m.new_dbw_ul (min (m.fil_triptime - m.plimit) (2 * m.plimit)) m.plimit
                  h.new_limit.1 some_limit (omega arith) in
              let b = h.new_limit.1 in omega arith))
            h)
    ]

    active-IsLimited :
        (sample : Sample) (m : Monitor)
        → 0 < m.pinglimit
        → IsLimited m
        → IsLimited (on_active config floats sample m)
    unfolding on_active
    active-IsLimited sample m limit h =
        let on = record m { pingon = true } in
        let saved = save-IsLimited on h in
        let chosen = choose-IsLimited sample (save_limit config floats on) saved in
        let saved_on = save_limit config floats on in
        let next = choose_mode config floats sample saved_on in
        let some_limit =
          (choose_mode-plimit config floats sample saved_on).1
            (rw (save_limit-pinglimit config floats on) limit) in
        adjust-IsLimited sample
          (if floats.below_tenth sample.dbw_fil then record next { qstate = idle } else next)
          (elim (Bool-cases (floats.below_tenth sample.dbw_fil)) [
            | inl low ↦ rw low some_limit
            | inr high ↦ rw high some_limit
          ])
          (elim (Bool-cases (floats.below_tenth sample.dbw_fil)) [
            | inl low ↦ rw low chosen
            | inr high ↦ rw high chosen
          ])

    idle-IsLimited :
        (sample : Sample) (m : Monitor)
        → 0 < m.pinglimit
        → IsLimited m
        → IsLimited (on_idle config floats sample m)
    unfolding on_idle
    idle-IsLimited sample m limit h = elim (Bool-cases (floats.below_idle sample.dbw_fil)) [
      | inl low ↦ rw low h
      | inr high ↦ rw high (active-IsLimited sample (record m { pingon = false }) limit h)
    ]

    state-IsLimited :
        (state : QState) (sample : Sample) (m : Monitor)
        → m.qstate ≡ state
        → IsMeasured m
        → IsLimited m
        → IsLimited (on_state config floats state sample m)
    unfolding on_state
    state-IsLimited check sample m at ok h = check-IsLimited sample m h
    state-IsLimited init sample m at ok h = init-IsLimited sample m h
    state-IsLimited active sample m at ok h =
        active-IsLimited sample m (limit_of m active at refl ok) h
    state-IsLimited realtime sample m at ok h =
        active-IsLimited sample m (limit_of m realtime at refl ok) h
    state-IsLimited idle sample m at ok h = idle-IsLimited sample m (limit_of m idle at refl ok) h

    pub round-IsLimited :
        (sample : Sample) (m : Monitor)
        → IsMeasured m
        → IsLimited m
        → IsLimited (round config floats sample m)
    unfolding round gather filter_ping
    round-IsLimited sample m ok h = elim (Bool-cases (is_restart config floats sample m)) [
      | inl restart ↦ rw restart h
      | inr goes_on ↦ rw goes_on (
          state-IsLimited m.qstate sample
            (filter_ping config floats sample (gather config floats sample m)) refl
            (record { measured = ok.measured }) h)
    ]

    pub start-IsLimited : (classes : ℕ) → IsLimited (start config floats classes)
    unfolding start
    start-IsLimited classes =
        let ok : Within floats.fair_start = (laws.floor_low, laws.start_low) in
        record { new_limit = ok; active_limit = ok; realtime_limit = ok; sent = tt }
