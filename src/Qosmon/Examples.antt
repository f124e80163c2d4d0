-- ===== src/Qosmon/Examples.antt =====
-- Runs of the monitor, and the theorems about it at concrete inputs.
use openwrt_extra.Common.{
  none, ℕ, zero, suc, ◌+◌, ◌-◌, ◌*◌, ◌/◌, ◌≡◌, refl, sym, ltb, true, false, some, List, [], ◌∷◌,
  ◌++◌, All, arith,
}
use openwrt_extra.Qosmon.Ping.{Timeval, Packet, Pinger, IsTimely, pr_pack}
use openwrt_extra.Qosmon.Checksum.{in_cksum, word_sum, in_cksum-verifies}
use openwrt_extra.Qosmon.Classes.{Message, new_class, hfsc, Listing, ClassStats, class_list}
use openwrt_extra.Qosmon.Machine.{
  check, idle, realtime, Config, Floats, Monitor, Sample, round, start, rounds,
}
use openwrt_extra.Qosmon.Limits.{AreRounded}
use openwrt_extra.Qosmon.Startup.{IsSteady, Settled, measure_rounds, start-Settled, error-Settled}
use openwrt_extra.Qosmon.Loop.{Daemon, Input, turns, IsSafe, turns-IsSafe}

-- A ping every two seconds on a link of 1000 kbps, without a limit.
abbrev config : Config
config = record { period = 2000; link_limit = 1000000; pinglimit_cl = 0; add_entitlement = false }

-- Fractions in place of the floating point numbers.
abbrev floats : Floats
floats = record {
  fair_start = 900000;
  floor_limit = 150000;
  more_than = λ fil. fil * 11 / 10;
  twice = λ fil. fil * 2;
  below_idle = λ load. ltb load 150000;
  below_tenth = λ load. ltb load 100000;
  below_use = λ load limit. ltb (load * 100) (limit * 85);
  raised = λ limit err plimit. limit + limit * 8 * err / (plimit * 1000);
  lowered = λ limit err plimit. limit - limit * 10 * err / (plimit * 1000);
}

floats-AreRounded : AreRounded config floats
floats-AreRounded = record {
  floor_low = omega arith;
  start_low = omega arith;
  no_overflow = omega arith;
  raises = λ limit err plimit small some_limit bound. omega arith;
  lowers = λ limit err plimit small some_limit bound. omega arith;
}

abbrev quiet : Sample
quiet = record { pongs = 1; rawfltime = 20; classes = 3; error = false; rtdca = 0; dbw_fil = 0 }

abbrev busy : ℕ → Sample
busy time = record {
  pongs = 1;
  rawfltime = time;
  classes = 3;
  error = false;
  rtdca = 0;
  dbw_fil = 900000;
}

abbrev failed : Sample
failed = record { pongs = 1; rawfltime = 20; classes = 0; error = true; rtdca = 0; dbw_fil = 0 }

abbrev repeat : ℕ → Sample → List Sample
repeat zero sample = []
repeat (suc n) sample = sample ∷ repeat n sample

quiet-IsSteady : (n : ℕ) → All (IsSteady 1 3) (repeat n quiet)
quiet-IsSteady zero = tt
quiet-IsSteady (suc n) = (record { no_error = refl; same = refl; counted = refl }, quiet-IsSteady n)

-- After the measurement a busy link goes to the realtime mode, and a slow ping lowers the limit.
rounds_test :
    ((rounds config floats (repeat 11 quiet) (start config floats 3)).qstate ≡ idle)
    × ((rounds config floats (repeat 11 quiet) (start config floats 3)).pinglimit ≡ 40000)
    × ((rounds config floats (repeat 11 quiet) (start config floats 3)).rates
        ≡ (900000 ∷ 1000 ∷ []))
    × ((rounds config floats (repeat 11 quiet ++ (busy 20 ∷ [])) (start config floats 3)).qstate
        ≡ realtime)
    × (ltb
          (rounds config floats
            (repeat 11 quiet ++ (busy 20 ∷ busy 2000 ∷ []))
            (start config floats 3)).new_dbw_ul
          900000
        ≡ true)
unfolding rounds start
rounds_test = (refl, refl, refl, refl, refl)

rounds_measured : measure_rounds config floats 0 ≡ 9
unfolding measure_rounds
rounds_measured = refl

-- The ping is off.
abbrev silent : Sample
silent = record { pongs = 0; rawfltime = 2000; classes = 3; error = false; rtdca = 0; dbw_fil = 0 }

silent-IsSteady : IsSteady 0 3 silent
silent-IsSteady = record { no_error = refl; same = refl; counted = refl }

start-Settled_example :
    Settled 900000 (rounds config floats (silent ∷ repeat 11 quiet) (start config floats 7))
start-Settled_example =
    start-Settled config floats silent (repeat 11 quiet) 3 7 (omega arith)
      (omega (arith, rounds_measured)) silent-IsSteady (quiet-IsSteady 11)

-- Idle after the measurement, when an error comes.
abbrev settled : Monitor
settled = record {
  qstate = idle;
  first_pass = false;
  pingon = false;
  class_count = 3;
  nreceived = 9;
  pinglimit = 40000;
  plimit = 0;
  fil_triptime = 20000;
  dbw_ul = 900000;
  new_dbw_ul = 900000;
  saved_active = 900000;
  saved_realtime = 900000;
  rates = 900000 ∷ 1000 ∷ [];
}

rounds_unmeasured : measure_rounds config floats 40000 ≡ 0
unfolding measure_rounds
rounds_unmeasured = refl

error-Settled_example :
    ((round config floats failed settled).qstate ≡ check)
    × ((round config floats failed settled).pingon ≡ false)
    × ((round config floats failed settled).rates ≡ (900000 ∷ 1000 ∷ []))
    × Settled 900000 (rounds config floats (silent ∷ []) (round config floats failed settled))
error-Settled_example =
    error-Settled config floats failed silent [] 3 settled (omega arith) refl (omega arith)
      (omega (arith, rounds_unmeasured)) silent-IsSteady (quiet-IsSteady 0)

-- A ping sent at 1.9 s and answered at 2.1 s.
abbrev pinged : Timeval
pinged = record { tv_sec = 1; tv_usec = 900000 }

abbrev answered : Timeval
answered = record { tv_sec = 2; tv_usec = 100000 }

abbrev pong : Packet
pong = record { cc = 84; hlen = 20; icmp_type = 0; icmp_id = 77; icmp_seq = 5; sent_at = pinged }

abbrev pinger : Pinger
pinger = record { ntransmitted = 5; ident = 77; nreceived = 4; rawfltime = 2000 }

pong-IsTimely : IsTimely (answered, pong)
pong-IsTimely = record {
  usec = omega arith;
  sent_usec = omega arith;
  later = omega arith;
  soon = omega arith;
}

pr_pack_test :
    (pr_pack 2000 answered pong pinger ≡ some (record pinger { nreceived = 5; rawfltime = 200 }))
    × (pr_pack 100 answered pong pinger ≡ some (record pinger { nreceived = 5; rawfltime = 100 }))
    × (pr_pack 100 pinged (record pong { sent_at = answered }) pinger ≡ none)
unfolding pr_pack
pr_pack_test = (refl, refl, refl)

-- The words of a little-endian machine; an echo request with type 8, its number, and a byte of data.
abbrev little : ℕ → ℕ → ℕ
little a b = a + 256 * b

cksum_sent :
    (in_cksum little (8 ∷ 0 ∷ 0 ∷ 0 ∷ 5 ∷ 0 ∷ 255 ∷ []) ≡ 65267)
    × (word_sum little (8 ∷ 0 ∷ 243 ∷ 254 ∷ 5 ∷ 0 ∷ 255 ∷ []) ≡ 65535)
unfolding in_cksum word_sum
cksum_sent = (refl, refl)

in_cksum-verifies_example : in_cksum little (8 ∷ 0 ∷ 243 ∷ 254 ∷ 5 ∷ 0 ∷ 255 ∷ []) ≡ 0
in_cksum-verifies_example =
    in_cksum-verifies little (8 ∷ 0 ∷ []) (5 ∷ 0 ∷ 255 ∷ []) 1 243 254 refl refl (sym cksum_sent.0)
      (omega (arith, cksum_sent.1))

abbrev filter_load : ℕ → ℕ → ℕ
filter_load old new = old + (new - old) * 210 / 1000

abbrev no_class : ClassStats
no_class = record {
  id = some 0;
  bytes = 0;
  rtclass = false;
  backlog = 0;
  actflg = false;
  cbw_flt = 0;
  bwtime = 0;
}

abbrev no_listing : Listing
no_listing = record {
  stats = λ i. no_class;
  classcnt = 0;
  errorflg = false;
  dca = 0;
  rtdca = 0;
  dbw_fil = 0;
}

-- A parent, and a leaf with 100000 bytes.
abbrev messages : List Message
messages =
    record {
      nlmsg_type = new_class;
      too_short = false;
      kind = hfsc;
      at_root = false;
      tcm_info = 0;
      counters = some (record { work = 100000; qlen = 0; two_part = false });
      tv_nsec = 0;
    }
    ∷ record {
      nlmsg_type = new_class;
      too_short = false;
      kind = hfsc;
      at_root = false;
      tcm_info = 131072;
      counters = some (record { work = 100000; qlen = 1; two_part = true });
      tv_nsec = 0;
    }
    ∷ []

class_list_test :
    ((class_list 2000 filter_load true messages no_listing).classcnt ≡ 2)
    × ((class_list 2000 filter_load false messages no_listing).errorflg ≡ true)
    × (((class_list 2000 filter_load true messages no_listing).stats 1).id ≡ some 2)
unfolding class_list
class_list_test = (refl, refl, refl)

abbrev daemon : Daemon
daemon = record {
  ntransmitted = 4;
  ident = 77;
  listing = no_listing;
  monitor = start config floats 2;
}

abbrev input : Input
input = record { packets = (answered, pong) ∷ []; messages = messages }

turns-IsSafe_example :
    (e : Daemon) × (turns config floats filter_load (input ∷ input ∷ []) daemon ≡ some e)
    × IsSafe config floats filter_load e
turns-IsSafe_example =
    turns-IsSafe config floats filter_load floats-AreRounded (input ∷ input ∷ []) daemon 2
      ((pong-IsTimely, tt), ((pong-IsTimely, tt), tt)) refl (omega arith, omega arith, omega arith)
