-- ===== src/Qosmon/Startup.antt =====
-- How the monitor comes from its start to the idle state.
use openwrt_extra.Common.{
  ℕ, zero, suc, ◌+◌, ◌-◌, ◌*◌, ◌/◌, ◌%◌, ◌^◌, ◌≤◌, ◌<◌, ◌≡◌, refl, inl, inr, ◌==◌, if◌then◌else◌,
  Bool, true, false, not, ◌&&◌, ◌||◌, List, [], ◌∷◌, All, length, arith, Bool-cases, le_or_lt, ◌∙◌,
}
use native.Mathlib.Nat.{div-le_of_le-mul}
use openwrt_extra.Qosmon.Machine.{
  QState, check, init, idle, Config, Floats, Monitor, Sample, on_check, on_init, on_state, gather,
  filter_ping, is_restart, round, start, rounds,
}

-- A round with so many pongs and no change of the classes.
pub record IsSteady (pongs classes : ℕ) (sample : Sample) : Type 0 where
  pub no_error : sample.error ≡ false
  pub same : sample.classes ≡ classes
  pub counted : sample.pongs ≡ pongs

-- The state, the pongs counted and the limit in use; a change of the classes is not seen in the next round.
pub record IsIn (state : QState) (classes received limit pinglimit : ℕ) (m : Monitor) : Type 0 where
  pub at_state : m.qstate ≡ state
  pub at_classes : not m.first_pass && not (m.class_count == classes) ≡ false
  pub at_received : m.nreceived ≡ received
  pub at_limit : m.new_dbw_ul ≡ limit
  pub at_pinglimit : m.pinglimit ≡ pinglimit

no_more : (samples : List Sample) → length samples ≡ 0 → samples ≡ []
no_more [] h = refl
no_more (sample ∷ samples) h = ground arith

-- Idle, with the limit given sent to the kernel.
abbrev pub Settled : ℕ → Monitor → Type 0
Settled limit m = (m.qstate ≡ idle) × (m.dbw_ul ≡ limit)

module _ (config : Config) (floats : Floats) where
  is_restart-steady :
      (state : QState) (pongs classes received limit pinglimit : ℕ) (sample : Sample) (m : Monitor)
      → IsSteady pongs classes sample
      → IsIn state classes received limit pinglimit m
      → is_restart config floats sample m ≡ false
  unfolding is_restart
  is_restart-steady state pongs classes received limit pinglimit sample m steady h =
      rw (steady.no_error, steady.same) h.at_classes

  init_stays :
      (sample : Sample) (m : Monitor)
      → m.nreceived ≤ 15000 / config.period + 1
      → let next = on_init config floats sample m in
        (next.qstate ≡ m.qstate)
        × (next.class_count ≡ m.class_count)
        × (next.nreceived ≡ m.nreceived)
        × (next.new_dbw_ul ≡ m.new_dbw_ul)
        × (next.pinglimit ≡ m.pinglimit)
  unfolding on_init
  init_stays sample m h = ground arith

  init_ends :
      (sample : Sample) (m : Monitor)
      → 15000 / config.period + 1 < m.nreceived
      → let next = on_init config floats sample m in
        (next.qstate ≡ idle) × (next.dbw_ul ≡ m.new_dbw_ul)
  unfolding on_init
  init_ends sample m h = ground arith

  check_stays :
      (sample : Sample) (m : Monitor)
      → m.nreceived < 2
      → let next = on_check config floats sample m in
        (next.qstate ≡ m.qstate)
        × (next.class_count ≡ m.class_count)
        × (next.nreceived ≡ m.nreceived)
        × (next.new_dbw_ul ≡ m.new_dbw_ul)
        × (next.pinglimit ≡ m.pinglimit)
  unfolding on_check
  check_stays sample m h = ground arith

  -- The ping limit is to be measured.
  unfoldable is_measured : ℕ → Bool
  is_measured pinglimit = pinglimit == 0 || config.add_entitlement

  check_measures :
      (sample : Sample) (m : Monitor)
      → 2 ≤ m.nreceived
      → is_measured m.pinglimit ≡ true
      → let next = on_check config floats sample m in
        (next.qstate ≡ init)
        × (next.class_count ≡ m.class_count)
        × (next.nreceived ≡ 0)
        × (next.new_dbw_ul ≡ m.new_dbw_ul)
        × (next.pinglimit ≡ m.pinglimit)
  unfolding on_check is_measured
  check_measures sample m h measured = ground arith

  check_ends :
      (sample : Sample) (m : Monitor)
      → 2 ≤ m.nreceived
      → is_measured m.pinglimit ≡ false
      → let next = on_check config floats sample m in
        (next.qstate ≡ idle) × (next.dbw_ul ≡ m.new_dbw_ul)
  unfolding on_check is_measured
  check_ends sample m h measured = ground arith

  unfoldable entered : QState → Sample → Monitor → Monitor
  entered state sample m =
      record (on_state config floats state sample
        (filter_ping config floats sample (gather config floats sample m))) { first_pass = false }

  round-entered :
      (state : QState) (pongs classes received limit pinglimit : ℕ) (sample : Sample) (m : Monitor)
      → IsSteady pongs classes sample
      → IsIn state classes received limit pinglimit m
      → round config floats sample m ≡ entered state sample m
  unfolding round gather entered
  round-entered state pongs classes received limit pinglimit sample m steady h =
      rw
        (
          is_restart-steady state pongs classes received limit pinglimit sample m steady h,
          h.at_state,
        )
        refl

  rounds_bound : 100 ≤ config.period → 15000 / config.period < 65000
  rounds_bound long_enough =
      let a =
        div-le_of_le-mul config.period (let b : 15000 ≤ config.period * 150 = omega arith in b) in
      omega arith

  -- The monitor as the switch sees it.
  abbrev ready : Sample → Monitor → Monitor
  ready sample m = filter_ping config floats sample (gather config floats sample m)

  ready-received :
      (state : QState) (pongs classes received limit pinglimit : ℕ) (sample : Sample) (m : Monitor)
      → received + pongs < 65536
      → IsSteady pongs classes sample
      → IsIn state classes received limit pinglimit m
      → ((ready sample m).nreceived ≡ received + pongs)
        × ((ready sample m).class_count ≡ classes)
        × ((ready sample m).new_dbw_ul ≡ limit)
        × ((ready sample m).pinglimit ≡ pinglimit)
  unfolding gather filter_ping
  ready-received state pongs classes received limit pinglimit sample m small steady h =
      let a = steady.counted in
      let b = h.at_received in
      (
        (let c : (m.nreceived + sample.pongs) % 2 ^ 16 ≡ received + pongs = omega arith in c),
        steady.same,
        h.at_limit,
        h.at_pinglimit,
      )

  after_pass :
      (state next : QState) (classes received limit pinglimit : ℕ) (sample : Sample) (m : Monitor)
      → ((on_state config floats state sample (ready sample m)).qstate ≡ next)
        × ((on_state config floats state sample (ready sample m)).class_count ≡ classes)
        × ((on_state config floats state sample (ready sample m)).nreceived ≡ received)
        × ((on_state config floats state sample (ready sample m)).new_dbw_ul ≡ limit)
        × ((on_state config floats state sample (ready sample m)).pinglimit ≡ pinglimit)
      → IsIn next classes received limit pinglimit (entered state sample m)
  unfolding entered
  after_pass state next classes received limit pinglimit sample m (a, b, c, d, e) = record {
    at_state = a;
    at_classes = rw b (ground arith);
    at_received = c;
    at_limit = d;
    at_pinglimit = e;
  }

  init_round :
      (classes received limit pinglimit : ℕ) (sample : Sample) (m : Monitor)
      → received < 65535
      → received + 1 ≤ 15000 / config.period + 1
      → IsSteady 1 classes sample
      → IsIn init classes received limit pinglimit m
      → IsIn init classes (received + 1) limit pinglimit (round config floats sample m)
  unfolding on_state gather filter_ping
  init_round classes received limit pinglimit sample m small less steady h =
      let (a, b, c, d) =
        ready-received init 1 classes received limit pinglimit sample m (omega arith) steady h in
      let (p, q, r, s, t) = init_stays sample (ready sample m) (rw a less) in
      rw (round-entered init 1 classes received limit pinglimit sample m steady h) (
        after_pass init init classes (received + 1) limit pinglimit sample m
          (p ∙ h.at_state, q ∙ b, r ∙ a, s ∙ c, t ∙ d))

  init_last :
      (classes received limit pinglimit : ℕ) (sample : Sample) (m : Monitor)
      → received < 65535
      → 15000 / config.period + 1 < received + 1
      → IsSteady 1 classes sample
      → IsIn init classes received limit pinglimit m
      → Settled limit (round config floats sample m)
  unfolding on_state entered
  init_last classes received limit pinglimit sample m small more steady h =
      let (a, b, c, d) =
        ready-received init 1 classes received limit pinglimit sample m (omega arith) steady h in
      let (p, q) = init_ends sample (ready sample m) (rw a more) in
      rw (round-entered init 1 classes received limit pinglimit sample m steady h) (p, q ∙ c)

  init-Settled :
      (samples : List Sample) (classes received limit pinglimit : ℕ) (m : Monitor)
      → 15000 / config.period < 65000
      → received ≤ 15000 / config.period + 1
      → length samples + received ≡ 15000 / config.period + 2
      → All (IsSteady 1 classes) samples
      → IsIn init classes received limit pinglimit m
      → Settled limit (rounds config floats samples m)
  unfolding rounds
  init-Settled [] classes received limit pinglimit m small less long steady h = ground arith
  init-Settled (sample ∷ samples) classes received limit pinglimit m small less long (steady, rest)
        h =
      elim (le_or_lt (received + 1) (15000 / config.period + 1)) [
        | inl goes_on ↦
            init-Settled samples classes (received + 1) limit pinglimit
              (round config floats sample m) small goes_on (omega arith) rest
              (init_round classes received limit pinglimit sample m (omega arith) goes_on steady h)
        | inr ends ↦
            rw (no_more samples (omega arith))
              (init_last classes received limit pinglimit sample m (omega arith) ends steady h)
      ]

  check_round :
      (pongs classes received limit pinglimit : ℕ) (sample : Sample) (m : Monitor)
      → received + pongs < 2
      → IsSteady pongs classes sample
      → IsIn check classes received limit pinglimit m
      → IsIn check classes (received + pongs) limit pinglimit (round config floats sample m)
  unfolding on_state gather filter_ping
  check_round pongs classes received limit pinglimit sample m less steady h =
      let (a, b, c, d) =
        ready-received check pongs classes received limit pinglimit sample m (omega arith) steady
          h in
      let (p, q, r, s, t) = check_stays sample (ready sample m) (rw a less) in
      rw (round-entered check pongs classes received limit pinglimit sample m steady h) (
        after_pass check check classes (received + pongs) limit pinglimit sample m
          (p ∙ h.at_state, q ∙ b, r ∙ a, s ∙ c, t ∙ d))

  check_measure :
      (pongs classes received limit pinglimit : ℕ) (sample : Sample) (m : Monitor)
      → 2 ≤ received + pongs
      → received + pongs < 65536
      → is_measured pinglimit ≡ true
      → IsSteady pongs classes sample
      → IsIn check classes received limit pinglimit m
      → IsIn init classes 0 limit pinglimit (round config floats sample m)
  unfolding on_state
  check_measure pongs classes received limit pinglimit sample m two small measured steady h =
      let (a, b, c, d) =
        ready-received check pongs classes received limit pinglimit sample m small steady h in
      let (p, q, r, s, t) =
        check_measures sample (ready sample m) (rw a (omega arith)) (rw d measured) in
      rw (round-entered check pongs classes received limit pinglimit sample m steady h)
        (after_pass check init classes 0 limit pinglimit sample m (p, q ∙ b, r, s ∙ c, t ∙ d))

  check_last :
      (pongs classes received limit pinglimit : ℕ) (sample : Sample) (m : Monitor)
      → 2 ≤ received + pongs
      → received + pongs < 65536
      → is_measured pinglimit ≡ false
      → IsSteady pongs classes sample
      → IsIn check classes received limit pinglimit m
      → Settled limit (round config floats sample m)
  unfolding on_state entered
  check_last pongs classes received limit pinglimit sample m two small measured steady h =
      let (a, b, c, d) =
        ready-received check pongs classes received limit pinglimit sample m small steady h in
      let (p, q) = check_ends sample (ready sample m) (rw a (omega arith)) (rw d measured) in
      rw (round-entered check pongs classes received limit pinglimit sample m steady h) (p, q ∙ c)

  -- The rounds that a measurement takes, and those from the state QMON_CHK on.
  unfoldable pub measure_rounds : ℕ → ℕ
  unfolding is_measured
  measure_rounds pinglimit = if is_measured pinglimit then 15000 / config.period + 2 else 0

  one_pong-Settled :
      (samples : List Sample) (classes received limit pinglimit : ℕ) (m : Monitor)
      → 15000 / config.period < 65000
      → 1 ≤ received
      → received < 65535
      → length samples ≡ 1 + measure_rounds pinglimit
      → All (IsSteady 1 classes) samples
      → IsIn check classes received limit pinglimit m
      → Settled limit (rounds config floats samples m)
  unfolding rounds measure_rounds
  one_pong-Settled [] classes received limit pinglimit m small one less long steady h =
      absurd (omega arith)
  one_pong-Settled (sample ∷ samples) classes received limit pinglimit m small one less long
        (steady, rest) h =
      elim (Bool-cases (is_measured pinglimit)) [
        | inl with_it ↦
            init-Settled samples classes 0 limit pinglimit (round config floats sample m) small
              (omega arith)
              (let n : measure_rounds pinglimit ≡ 15000 / config.period + 2 = rw with_it refl in
                omega arith)
              rest
              (check_measure 1 classes received limit pinglimit sample m (omega arith) (omega arith)
                with_it steady h)
        | inr without ↦
            rw
              (no_more samples
                (let n : measure_rounds pinglimit ≡ 0 = rw without refl in omega arith))
              (check_last 1 classes received limit pinglimit sample m (omega arith) (omega arith)
                without steady h)
      ]

  check-Settled :
      (samples : List Sample) (classes received limit pinglimit : ℕ) (m : Monitor)
      → 15000 / config.period < 65000
      → received < 65535
      → length samples ≡ (1 - received) + 1 + measure_rounds pinglimit
      → All (IsSteady 1 classes) samples
      → IsIn check classes received limit pinglimit m
      → Settled limit (rounds config floats samples m)
  unfolding rounds
  check-Settled [] classes received limit pinglimit m small less long steady h =
      absurd (omega arith)
  check-Settled (sample ∷ samples) classes zero limit pinglimit m small less long (steady, rest) h =
      one_pong-Settled samples classes 1 limit pinglimit (round config floats sample m) small
        (omega arith) (omega arith) (omega arith) rest
        (check_round 1 classes 0 limit pinglimit sample m (omega arith) steady h)
  check-Settled (sample ∷ samples) classes (suc received) limit pinglimit m small less long steady
        h =
      one_pong-Settled (sample ∷ samples) classes (suc received) limit pinglimit m small
        (omega arith) less (omega arith) steady h

  -- A round without a pong, as the ping is off when the wait begins, then rounds with one.
  silent-Settled :
      (silent : Sample) (samples : List Sample) (classes received limit pinglimit : ℕ) (m : Monitor)
      → 15000 / config.period < 65000
      → received < 65535
      → length samples ≡ (2 - received) + measure_rounds pinglimit
      → IsSteady 0 classes silent
      → All (IsSteady 1 classes) samples
      → IsIn check classes received limit pinglimit m
      → Settled limit (rounds config floats (silent ∷ samples) m)
  unfolding rounds measure_rounds
  silent-Settled silent samples classes received limit pinglimit m small less long quiet steady h =
      elim (le_or_lt 2 received) [
        | inr few ↦
            check-Settled samples classes (received + 0) limit pinglimit
              (round config floats silent m) small (omega arith) (omega arith) steady
              (check_round 0 classes received limit pinglimit silent m (omega arith) quiet h)
        | inl enough ↦ elim (Bool-cases (is_measured pinglimit)) [
          | inl with_it ↦
              init-Settled samples classes 0 limit pinglimit (round config floats silent m) small
                (omega arith)
                (let n : measure_rounds pinglimit ≡ 15000 / config.period + 2 = rw with_it refl in
                  omega arith)
                steady
                (check_measure 0 classes received limit pinglimit silent m (omega arith)
                  (omega arith) with_it quiet h)
          | inr without ↦
              rw
                (no_more samples
                  (let n : measure_rounds pinglimit ≡ 0 = rw without refl in omega arith))
                (check_last 0 classes received limit pinglimit silent m (omega arith) (omega arith)
                  without quiet h)
        ]
      ]

  -- When the period is at least 100 ms, as the command line must have it, and the first round, with the ping
  -- off, has no pong, and each round after it one, all without an error and with the same number of classes, the
  -- monitor is idle after that round, two more, and those of the measurement, 15000 / period + 2 when no ping
  -- limit is given or the flag -a is, else none, and the link has the starting limit again.
  pub start-Settled :
      (silent : Sample) (samples : List Sample) (classes listed : ℕ)
      → 100 ≤ config.period
      → length samples ≡ 2 + measure_rounds config.pinglimit_cl
      → IsSteady 0 classes silent
      → All (IsSteady 1 classes) samples
      → Settled floats.fair_start
          (rounds config floats (silent ∷ samples) (start config floats listed))
  unfolding start
  start-Settled silent samples classes listed long_enough long quiet steady =
      silent-Settled silent samples classes 0 floats.fair_start config.pinglimit_cl
        (start config floats listed) (rounds_bound long_enough) (omega arith) (omega arith) quiet
        steady
        (record {
          at_state = refl;
          at_classes = refl;
          at_received = refl;
          at_limit = refl;
          at_pinglimit = refl;
        })

  abbrev restarted : Sample → Monitor → Monitor
  restarted failed m = record m {
    nreceived = (m.nreceived + failed.pongs) % 2 ^ 16;
    class_count = failed.classes;
    first_pass = true;
    pingon = false;
    qstate = check;
  }

  error_round :
      (failed : Sample) (m : Monitor)
      → failed.error ≡ true
      → round config floats failed m ≡ restarted failed m
  unfolding round gather is_restart
  error_round failed m error = rw error refl

  -- After a round with an error, in any state, the ping is off, no limit was sent, and the monitor waits; when
  -- the period is at least 100 ms, the count of the pongs is not about to wrap around, a round without a pong
  -- follows, and then rounds with one, all without an error and with the same number of classes, it is idle again
  -- after that round, as many as the count is below 2, and those of a measurement, with the limit it had before
  -- the error.
  pub error-Settled :
      (failed silent : Sample) (samples : List Sample) (classes : ℕ) (m : Monitor)
      → 100 ≤ config.period
      → failed.error ≡ true
      → (m.nreceived + failed.pongs) % 2 ^ 16 < 65535
      → length samples ≡ (2 - (m.nreceived + failed.pongs) % 2 ^ 16) + measure_rounds m.pinglimit
      → IsSteady 0 classes silent
      → All (IsSteady 1 classes) samples
      → ((round config floats failed m).qstate ≡ check)
        × ((round config floats failed m).pingon ≡ false)
        × ((round config floats failed m).rates ≡ m.rates)
        × Settled m.new_dbw_ul
            (rounds config floats (silent ∷ samples) (round config floats failed m))
  error-Settled failed silent samples classes m long_enough error less long quiet steady =
      rw (error_round failed m error) (
        refl,
        refl,
        refl,
        silent-Settled silent samples classes ((m.nreceived + failed.pongs) % 2 ^ 16) m.new_dbw_ul
            m.pinglimit (restarted failed m) (rounds_bound long_enough) less long quiet steady
            (record {
              at_state = refl;
              at_classes = refl;
              at_received = refl;
              at_limit = refl;
              at_pinglimit = refl;
            }),
      )
