-- ===== src/Qosmon/Machine.antt =====
-- The state machine in the main loop of packages/gargoyle/qos-gargoyle/src/qosmon.c. The numbers are not
-- negative and below the bounds of their types, except nreceived, which wraps around. Products with a
-- floating point number are parameters.
use openwrt_extra.Common.{
  ℕ, ◌+◌, ◌-◌, ◌*◌, ◌/◌, ◌%◌, ◌^◌, min, ltb, leb, ◌==◌, if◌then◌else◌, Bool, true, false, not, ◌&&◌,
  ◌||◌, List, [], ◌∷◌,
}

pub data QState : Type 0 where
  check init active realtime idle : QState

-- What the command line sets: ping interval in ms, absolute limit of the link in bps (DBW_UL), ping
-- limit in us (pinglimit_cl), and the flag -a.
pub record Config : Type 0 where
  pub period : ℕ
  pub link_limit : ℕ
  pub pinglimit_cl : ℕ
  pub add_entitlement : Bool

-- Products with constants and tests against them, converted as the code does: .9 * DBW_UL, .15 * DBW_UL,
-- fil_triptime * 1.1 and * 2.0, dbw_fil < 0.15 * DBW_UL, dbw_fil < 0.1 * DBW_UL, dbw_fil < dbw_ul * 0.85,
-- and the new limit from the old one, the size of the error, and the ping limit; a new limit below zero, which the
-- code then raises to .15 * DBW_UL, counts as zero.
pub record Floats : Type 0 where
  pub fair_start : ℕ
  pub floor_limit : ℕ
  pub more_than : ℕ → ℕ
  pub twice : ℕ → ℕ
  pub below_idle : ℕ → Bool
  pub below_tenth : ℕ → Bool
  pub below_use : ℕ → ℕ → Bool
  pub raised : ℕ → ℕ → ℕ → ℕ
  pub lowered : ℕ → ℕ → ℕ → ℕ

-- The variables that the loop keeps. `rates` are the limits sent to the kernel, the last one first.
pub record Monitor : Type 0 where
  pub qstate : QState
  pub first_pass : Bool
  pub pingon : Bool
  pub class_count : ℕ
  pub nreceived : ℕ
  pub pinglimit : ℕ
  pub plimit : ℕ
  pub fil_triptime : ℕ
  pub dbw_ul : ℕ
  pub new_dbw_ul : ℕ
  pub saved_active : ℕ
  pub saved_realtime : ℕ
  pub rates : List ℕ

-- What a round observes: the pongs counted and the last trip time, then the classes, whether their
-- listing failed, the active realtime classes, and the filtered load.
pub record Sample : Type 0 where
  pub pongs : ℕ
  pub rawfltime : ℕ
  pub classes : ℕ
  pub error : Bool
  pub rtdca : ℕ
  pub dbw_fil : ℕ

-- A rate that the kernel has already is not sent again.
unfoldable pub tc_class_modify : ℕ → Monitor → Monitor
tc_class_modify rate m =
    if m.dbw_ul == rate then m else record m { dbw_ul = rate; rates = rate ∷ m.rates }

-- alpha is 200: period * 1000 / (period * 4 + period).
unfoldable pub filter : ℕ → ℕ → ℕ
filter fil raw =
    if leb fil (raw * 1000)
    then fil + (raw * 1000 - fil) * 200 / 1000
    else fil - (fil - raw * 1000) * 200 / 1000

-- Sanity checks on the measured ping limit.
unfoldable pub sane : ℕ → ℕ
sane limit = if ltb limit 10000 then 10000 else if ltb 800000 limit then 800000 else limit

module _ (config : Config) (floats : Floats) where
  -- case QMON_CHK
  unfoldable pub on_check : Sample → Monitor → Monitor
  unfolding tc_class_modify
  on_check sample m =
      let on = record m { pingon = true } in
      if ltb on.nreceived 2
      then on
      else if not (on.pinglimit == 0) && not config.add_entitlement
      then (let sent = tc_class_modify on.new_dbw_ul (record on { dbw_ul = 0 }) in
          record sent { fil_triptime = sample.rawfltime * 1000; qstate = idle })
      else record (tc_class_modify 1000 on) { nreceived = 0; qstate = init }

  -- case QMON_INIT
  unfoldable pub on_init : Sample → Monitor → Monitor
  unfolding tc_class_modify sane
  on_init sample m =
      let fil =
        if ltb m.nreceived (10000 / config.period + 1)
        then sample.rawfltime * 1000
        else m.fil_triptime in
      let kept = record m { fil_triptime = fil } in
      if ltb (15000 / config.period + 1) kept.nreceived
      then (let sent = tc_class_modify kept.new_dbw_ul (record kept { qstate = idle }) in
          record sent {
            pinglimit = sane (
                if config.add_entitlement
                then sent.pinglimit + floats.more_than fil
                else floats.twice fil);
          })
      else kept

  -- The choice between the active and the realtime mode.
  unfoldable pub choose_mode : Sample → Monitor → Monitor
  unfolding tc_class_modify
  choose_mode sample m =
      if sample.rtdca == 0 && config.add_entitlement
      then (let limited = record m { plimit = 135 * config.pinglimit_cl / 100 + m.pinglimit } in
          elim m.qstate [
            | active ↦ limited
            | _ ↦
                tc_class_modify m.saved_active
                  (record limited { qstate = active; new_dbw_ul = m.saved_active })
          ])
      else (let limited = record m { plimit = m.pinglimit } in
          elim m.qstate [
            | realtime ↦ limited
            | _ ↦
                tc_class_modify m.saved_realtime
                  (record limited { qstate = realtime; new_dbw_ul = m.saved_realtime })
          ])

  -- Saving the limit of the mode.
  unfoldable pub save_limit : Monitor → Monitor
  save_limit m = elim m.qstate [
    | realtime ↦ record m { saved_realtime = m.new_dbw_ul }
    | active ↦ record m { saved_active = m.new_dbw_ul }
    | _ ↦ m
  ]

  -- The new limit from the ping error.
  unfoldable pub adjust : Sample → Monitor → Monitor
  unfolding tc_class_modify
  adjust sample m =
      if ltb m.fil_triptime m.plimit
      then (if floats.below_use sample.dbw_fil m.dbw_ul
          then m
          else (let up =
                min (floats.raised m.new_dbw_ul (m.plimit - m.fil_triptime) m.plimit)
                  config.link_limit in
              tc_class_modify up (record m { new_dbw_ul = up })))
      else (let err = min (m.fil_triptime - m.plimit) (2 * m.plimit) in
          let down = floats.lowered m.new_dbw_ul err m.plimit in
          let kept = if ltb down floats.floor_limit then floats.floor_limit else down in
          tc_class_modify kept (record m { new_dbw_ul = kept }))

  -- case QMON_ACTIVE and case QMON_REALTIME
  unfoldable pub on_active : Sample → Monitor → Monitor
  unfolding choose_mode save_limit adjust
  on_active sample m =
      let chosen = choose_mode sample (save_limit (record m { pingon = true })) in
      adjust sample
        (if floats.below_tenth sample.dbw_fil then record chosen { qstate = idle } else chosen)

  -- case QMON_IDLE, which goes on with the case of the other two
  unfoldable pub on_idle : Sample → Monitor → Monitor
  unfolding on_active
  on_idle sample m =
      let off = record m { pingon = false } in
      if floats.below_idle sample.dbw_fil then off else on_active sample off

  -- The switch on the state.
  unfoldable pub on_state : QState → Sample → Monitor → Monitor
  unfolding on_check on_init on_active on_idle
  on_state check sample m = on_check sample m
  on_state init sample m = on_init sample m
  on_state active sample m = on_active sample m
  on_state realtime sample m = on_active sample m
  on_state idle sample m = on_idle sample m

  -- The round begins with the pongs and the new statistics.
  unfoldable pub gather : Sample → Monitor → Monitor
  gather sample m = record m {
    nreceived = (m.nreceived + sample.pongs) % 2 ^ 16;
    class_count = sample.classes;
  }

  -- The filtered ping time, left alone while the ping is off.
  unfoldable pub filter_ping : Sample → Monitor → Monitor
  unfolding filter
  filter_ping sample m = record m {
    fil_triptime = if m.pingon then filter m.fil_triptime sample.rawfltime else m.fil_triptime;
  }

  -- An error, or another number of classes after the first pass.
  unfoldable pub is_restart : Sample → Monitor → Bool
  is_restart sample m = sample.error || not m.first_pass && not (m.class_count == sample.classes)

  -- A round of the loop after the ping is sent and the pongs are read.
  unfoldable pub round : Sample → Monitor → Monitor
  unfolding gather filter_ping is_restart on_state
  round sample m =
      let counted = gather sample m in
      if is_restart sample m
      then record counted { first_pass = true; pingon = false; qstate = check }
      else record (on_state counted.qstate sample (filter_ping sample counted)) {
        first_pass = false;
      }

  -- The state at the start of the loop; the variables of the mode are not yet used.
  unfoldable pub start : ℕ → Monitor
  start classes = record {
    qstate = check;
    first_pass = true;
    pingon = false;
    class_count = classes;
    nreceived = 0;
    pinglimit = config.pinglimit_cl;
    plimit = 0;
    fil_triptime = 0;
    dbw_ul = config.link_limit;
    new_dbw_ul = floats.fair_start;
    saved_active = floats.fair_start;
    saved_realtime = floats.fair_start;
    rates = [];
  }

  unfoldable pub rounds : List Sample → Monitor → Monitor
  unfolding round
  rounds [] m = m
  rounds (sample ∷ samples) m = rounds samples (round sample m)
