-- ===== src/Qosmon/Ping.antt =====
-- The pongs and their trip times in packages/gargoyle/qos-gargoyle/src/qosmon.c. The numbers are not
-- negative.
use openwrt_extra.Common.{
  ℕ, suc, ◌+◌, ◌-◌, ◌*◌, ◌/◌, ◌%◌, ◌^◌, ◌≤◌, ◌<◌, ◌≡◌, refl, ◌∙◌, inl, inr, Bool-cases, ltb, leb,
  Option, none, some, true, false, All, ap, ◌>>=◌, ◌==◌, if◌then◌else◌, Bool, ◌&&◌, not, min, List,
  [], ◌∷◌, arith,
}

-- struct timeval
pub record Timeval : Type 0 where
  pub tv_sec : ℕ
  pub tv_usec : ℕ

-- `out` is assumed to be at least `before`, as in the source, and what is lent to the microseconds is not negative
-- then.
unfoldable pub tvsub : Timeval → Timeval → Timeval
tvsub out before =
    if ltb out.tv_usec before.tv_usec
    then record {
      tv_sec = out.tv_sec - 1 - before.tv_sec;
      tv_usec = out.tv_usec + 1000000 - before.tv_usec;
    }
    else record { tv_sec = out.tv_sec - before.tv_sec; tv_usec = out.tv_usec - before.tv_usec }

-- What pr_pack reads in a packet: its length, the length of the IP header, and the fields of the ICMP part.
pub record Packet : Type 0 where
  pub cc : ℕ
  pub hlen : ℕ
  pub icmp_type : ℕ
  pub icmp_id : ℕ
  pub icmp_seq : ℕ
  pub sent_at : Timeval

-- The variables of the pinger.
pub record Pinger : Type 0 where
  pub ntransmitted : ℕ
  pub ident : ℕ
  pub nreceived : ℕ
  pub rawfltime : ℕ

-- Microseconds.
abbrev pub micros : Timeval → ℕ
micros tv = tv.tv_sec * 1000000 + tv.tv_usec

-- Whether a time that is echoed makes a trip time that is not negative and fits in an int: the microseconds are
-- below a million, and the trip is not negative and shorter than 2 ^ 31 milliseconds.
abbrev pub is_timely : Timeval → Timeval → Bool
is_timely tv sent_at =
    ltb tv.tv_usec 1000000
    && ltb sent_at.tv_usec 1000000
    && leb (micros sent_at) (micros tv)
    && ltb (micros tv) (micros sent_at + 2147483 * 1000000)

-- ICMP_MINLEN is 8 and ICMP_ECHOREPLY is 0. `none` is a trip time that is negative or too long, which the model
-- does not follow.
unfoldable pub pr_pack : ℕ → Timeval → Packet → Pinger → Option Pinger
unfolding tvsub
pr_pack period tv packet p =
    if ltb packet.cc (packet.hlen + 8)
    then some p
    else if not (packet.icmp_type == 0)
    then some p
    else if not (packet.icmp_id == p.ident)
    then some p
    else (let counted = record p { nreceived = (p.nreceived + 1) % 2 ^ 16 } in
        if not (packet.icmp_seq == p.ntransmitted)
        then some counted
        else if is_timely tv packet.sent_at
        then (let trip = tvsub tv packet.sent_at in
            let triptime = trip.tv_sec * 1000 + trip.tv_usec / 1000 in
            some (record counted { rawfltime = if ltb period triptime then period else triptime }))
        else none)

-- For times whose microseconds are below a million, the later one first, the difference is the number of
-- microseconds between them, written with its microseconds below a million.
pub tvsub-micros :
    (out before : Timeval)
    → out.tv_usec < 1000000
    → before.tv_usec < 1000000
    → micros before ≤ micros out
    → (micros (tvsub out before) ≡ micros out - micros before)
      × ((tvsub out before).tv_usec < 1000000)
unfolding tvsub
tvsub-micros out before a b later = ground arith

-- An echo reply to this process, long enough to be read.
abbrev pub is_own : ℕ → Packet → Bool
is_own ident packet =
    leb (packet.hlen + 8) packet.cc && (packet.icmp_type == 0) && (packet.icmp_id == ident)

-- The time of the answer to the last ping, in milliseconds and at most the period.
unfoldable trip_time : ℕ → Timeval → Packet → ℕ
trip_time period tv packet = min period ((micros tv - micros packet.sent_at) / 1000)

tvsub-trip :
    (out before : Timeval)
    → out.tv_usec < 1000000
    → before.tv_usec < 1000000
    → micros before ≤ micros out
    → (tvsub out before).tv_sec * 1000 + (tvsub out before).tv_usec / 1000
      ≡ (micros out - micros before) / 1000
tvsub-trip out before a b later = let (c, d) = tvsub-micros out before a b later in omega arith

-- A packet with the time it is read at: the time that it echoes is not later, and less than 2147483 seconds before.
pub record IsTimely (packet : Timeval × Packet) : Type 0 where
  pub usec : packet.0.tv_usec < 1000000
  pub sent_usec : packet.1.sent_at.tv_usec < 1000000
  pub later : micros packet.1.sent_at ≤ micros packet.0
  pub soon : micros packet.0 < micros packet.1.sent_at + 2147483 * 1000000

-- The pinger after a packet.
abbrev after_packet : ℕ → Timeval → Packet → Pinger → Pinger
after_packet period tv packet p =
    let own = is_own p.ident packet in
    record p {
      nreceived = if own then (p.nreceived + 1) % 2 ^ 16 else p.nreceived;
      rawfltime =
          if own && (packet.icmp_seq == p.ntransmitted)
          then trip_time period tv packet
          else p.rawfltime;
    }

pr_pack-eq :
    (period : ℕ) (tv : Timeval) (packet : Packet) (p : Pinger)
    → IsTimely (tv, packet)
    → pr_pack period tv packet p ≡ some (after_packet period tv packet p)
unfolding pr_pack trip_time
pr_pack-eq period tv packet p timely =
    let t = tvsub-trip tv packet.sent_at timely.usec timely.sent_usec timely.later in
    let ok : is_timely tv packet.sent_at ≡ true =
      ground (arith, timely.usec, timely.sent_usec, timely.later, timely.soon) in
    elim (Bool-cases (ltb packet.cc (packet.hlen + 8))) [
      | inl short ↦
          let other : leb (packet.hlen + 8) packet.cc ≡ false = ground (arith, short) in
          rw (short, other) refl
      | inr long ↦
          let whole : leb (packet.hlen + 8) packet.cc ≡ true = ground (arith, long) in
          elim (Bool-cases (packet.icmp_type == 0)) [
            | inr other ↦ rw (long, whole, other) refl
            | inl reply ↦ elim (Bool-cases (packet.icmp_id == p.ident)) [
              | inr other ↦ rw (long, whole, reply, other) refl
              | inl own ↦ elim (Bool-cases (packet.icmp_seq == p.ntransmitted)) [
                | inr earlier ↦ rw (long, whole, reply, own, earlier) refl
                | inl last ↦
                    rw (long, whole, reply, own, last, ok, t)
                      (ap
                        (λ time.
                          some
                            (record p { nreceived = (p.nreceived + 1) % 2 ^ 16; rawfltime = time }))
                        (ground arith))
              ]
            ]
          ]
    ]

-- The packets that are there before the period ends.
unfoldable pub read_pongs : ℕ → List (Timeval × Packet) → Pinger → Option Pinger
unfolding pr_pack
read_pongs period [] p = some p
read_pongs period ((tv, packet) ∷ packets) p =
    pr_pack period tv packet p >>= λ next. read_pongs period packets next

unfoldable pub own_count : ℕ → List (Timeval × Packet) → ℕ
own_count ident [] = 0
own_count ident ((tv, packet) ∷ packets) =
    let rest = own_count ident packets in if is_own ident packet then suc rest else rest

-- What is known of the pinger after the packets of a period.
pub record IsCounting (period : ℕ) (packets : List (Timeval × Packet)) (p : Pinger) : Type 0 where
  pub next : Pinger
  pub read : read_pongs period packets p ≡ some next
  pub counted : next.nreceived ≡ (p.nreceived + own_count p.ident packets) % 2 ^ 16
  pub low : next.rawfltime ≤ period

-- The packets that are read in a period raise the count of the pongs, a u_short, by the number of those that
-- are echo replies to this process, and the raw trip time that begins at most at the period stays so; where the
-- clock is not set back and the times that are echoed are those that were sent.
pub read_pongs-IsCounting :
    (period : ℕ) (packets : List (Timeval × Packet)) (p : Pinger)
    → All IsTimely packets
    → p.nreceived < 2 ^ 16
    → p.rawfltime ≤ period
    → IsCounting period packets p
unfolding read_pongs own_count trip_time
read_pongs-IsCounting period [] p timely small low = record {
  next = p;
  read = refl;
  counted = omega arith;
  low = low;
}
read_pongs-IsCounting period ((tv, packet) ∷ packets) p (timely, rest) small low =
    let after = after_packet period tv packet p in
    let pongs =
      read_pongs-IsCounting period packets after rest (ground (arith, small))
        (ground (arith, low)) in
    record {
      next = pongs.next;
      read = rw (pr_pack-eq period tv packet p timely) (pongs.read);
      counted = pongs.counted ∙ elim (Bool-cases (is_own p.ident packet)) [
        | inl own ↦ rw own (omega arith)
        | inr other ↦ rw other refl
      ];
      low = pongs.low;
    }
