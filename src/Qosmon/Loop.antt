-- ===== src/Qosmon/Loop.antt =====
-- The main loop of packages/gargoyle/qos-gargoyle/src/qosmon.c: a round sends a ping, reads the pongs, lists
-- the classes, and runs the state machine on what it saw.
use openwrt_extra.Common.{
  ℕ, ◌+◌, ◌%◌, ◌^◌, ◌<◌, ◌≡◌, refl, Option, some, ◌>>=◌, All, if◌then◌else◌, List, [], ◌∷◌, arith,
}
use openwrt_extra.Qosmon.Ping.{
  Timeval, Packet, Pinger, IsTimely, read_pongs, own_count, read_pongs-IsCounting,
}
use openwrt_extra.Qosmon.Measured.{
  IsMeasured, round-IsMeasured, start-IsMeasured, round-nreceived, start-nreceived,
}
use openwrt_extra.Qosmon.Classes.{Message, Listing, class_list, IsCounted, class_list-IsCounted}
use openwrt_extra.Qosmon.Machine.{Config, Floats, Monitor, Sample, round, start}
use openwrt_extra.Qosmon.Limits.{AreRounded, IsLimited, round-IsLimited, start-IsLimited}

-- The variables of the three parts; nreceived is the monitor's.
pub record Daemon : Type 0 where
  pub ntransmitted : ℕ
  pub ident : ℕ
  pub listing : Listing
  pub monitor : Monitor

-- What arrives in a round: packets with the time they are read at, and the messages of the kernel.
pub record Input : Type 0 where
  pub packets : List (Timeval × Packet)
  pub messages : List Message

module _ (config : Config) (floats : Floats) (filter_load : ℕ → ℕ → ℕ) where
  -- The pinger when the pongs are read: rawfltime begins as the period, and a ping was sent if pingon is set.
  unfoldable pub sent : Daemon → Pinger
  sent d = record {
    ntransmitted = if d.monitor.pingon then (d.ntransmitted + 1) % 2 ^ 16 else d.ntransmitted;
    ident = d.ident;
    nreceived = d.monitor.nreceived;
    rawfltime = config.period;
  }

  -- What a round sees, where the trip time of its pongs is one that the model follows.
  unfoldable pub observe : Input → Daemon → Option Sample
  unfolding sent
  observe input d =
      let listing =
        class_list config.period filter_load d.monitor.first_pass input.messages d.listing in
      read_pongs config.period input.packets (sent d) >>= λ pinger. some (record {
        pongs = own_count d.ident input.packets;
        rawfltime = pinger.rawfltime;
        classes = listing.classcnt;
        error = listing.errorflg;
        rtdca = listing.rtdca;
        dbw_fil = listing.dbw_fil;
      })

  -- A round of the loop.
  unfoldable pub turn : Input → Daemon → Option Daemon
  unfolding sent observe
  turn input d = observe input d >>= λ sample. some (record {
    ntransmitted = (sent d).ntransmitted;
    ident = d.ident;
    listing = class_list config.period filter_load d.monitor.first_pass input.messages d.listing;
    monitor = round config floats sample d.monitor;
  })

  unfoldable pub turns : List Input → Daemon → Option Daemon
  unfolding turn
  turns [] d = some d
  turns (input ∷ inputs) d = turn input d >>= λ next. turns inputs next

  -- What arrives in a round echoes times that make a trip time.
  abbrev pub IsInTime : Input → Type 0
  IsInTime input = All IsTimely input.packets

  -- The limits are in their range, there is a ping limit unless it is being measured, and the listing is in its
  -- array.
  abbrev pub IsSafe : Daemon → Type 0
  IsSafe d =
      IsLimited config floats d.monitor
      × IsMeasured d.monitor
      × IsCounted config.period filter_load d.listing
      × (d.monitor.nreceived < 2 ^ 16)

  -- What a round leaves, with the sample that it sees.
  record IsObserved (input : Input) (d : Daemon) : Type 0 where
    sample : Sample
    next : Daemon
    turned : turn input d ≡ some next
    monitor : next.monitor ≡ round config floats sample d.monitor
    listing :
        next.listing
        ≡ class_list config.period filter_load d.monitor.first_pass input.messages d.listing

  turn-IsObserved :
      (input : Input) (d : Daemon)
      → IsInTime input
      → d.monitor.nreceived < 2 ^ 16
      → IsObserved input d
  unfolding turn observe
  turn-IsObserved input d timely small =
      let pongs =
        read_pongs-IsCounting config.period input.packets (sent d) timely (unfold sent in small)
          (unfold sent in omega arith) in
      let classes =
        class_list config.period filter_load d.monitor.first_pass input.messages d.listing in
      let sample : Sample = record {
        pongs = own_count d.ident input.packets;
        rawfltime = pongs.next.rawfltime;
        classes = classes.classcnt;
        error = classes.errorflg;
        rtdca = classes.rtdca;
        dbw_fil = classes.dbw_fil;
      } in
      record {
        sample = sample;
        next = record {
          ntransmitted = (sent d).ntransmitted;
          ident = d.ident;
          listing = classes;
          monitor = round config floats sample d.monitor;
        };
        turned = rw (pongs.read) refl;
        monitor = refl;
        listing = refl;
      }

  turns_from-IsSafe :
      AreRounded config floats
      → (inputs : List Input) (d : Daemon) → All IsInTime inputs
      → IsSafe d
      → (e : Daemon) × (turns inputs d ≡ some e) × IsSafe e
  unfolding turns
  turns_from-IsSafe laws [] d timely safe = (d, refl, safe)
  turns_from-IsSafe laws (input ∷ inputs) d (timely, rest) (limited, measured, counted, small) =
      let t = turn-IsObserved input d timely small in
      let (e, reached, safe) = turns_from-IsSafe laws inputs t.next rest (
        rw (t.monitor) (round-IsLimited config floats laws t.sample d.monitor measured limited),
        rw (t.monitor) (round-IsMeasured config floats t.sample d.monitor measured),
        rw (t.listing)
            (class_list-IsCounted config.period filter_load d.monitor.first_pass input.messages
              d.listing).0,
        rw (t.monitor) (round-nreceived config floats t.sample d.monitor),
      ) in
      (e, rw (t.turned, ◌>>=◌) reached, safe)

  -- From the start of the loop on, the limit in use, the saved limits and the rates sent to the kernel are between
  -- 0.15 * DBW_UL and DBW_UL, or the rate is the 1000 of the measurement; the ping limit that the code divides by is
  -- not zero when a limit is adjusted; and the classes counted are at most 30, the active ones among them, and the
  -- realtime ones among those. This holds after any rounds, whatever messages of the kernel and packets arrive, if
  -- the time that a packet echoes is not later than the time it is read at and less than 2147483 seconds before it,
  -- with microseconds below a million; where the classes are so counted at the start, and the products with floating
  -- point numbers are in order and fit in an int.
  pub turns-IsSafe :
      AreRounded config floats
      → (inputs : List Input) (d : Daemon) (classes : ℕ) → All IsInTime inputs
      → d.monitor ≡ start config floats classes
      → IsCounted config.period filter_load d.listing
      → (e : Daemon) × (turns inputs d ≡ some e) × IsSafe e
  turns-IsSafe laws inputs d classes timely begun counted = turns_from-IsSafe laws inputs d timely (
    rw begun (start-IsLimited config floats laws classes),
    rw begun (start-IsMeasured config floats classes),
    counted,
    rw begun (start-nreceived config floats classes),
  )
