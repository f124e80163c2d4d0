-- ===== src/Qosmon/Classes.antt =====
-- The statistics of the classes in packages/gargoyle/qos-gargoyle/src/qosmon.c. classptr stands at the slot
-- of classcnt, as both are set and raised together. The numbers are not negative and below the bounds of
-- their types; the filter of the load with a floating point constant is a parameter.
use openwrt_extra.Common.{
  ℕ, suc, ◌+◌, ◌-◌, ◌*◌, ◌/◌, ◌^◌, ◌≤◌, ◌≡◌, refl, ltb, leb, ◌==◌, if◌then◌else◌, Bool, true, false,
  not, ◌&&◌, ◌⊎◌, inl, inr, ◌∙◌, Option, none, some, List, [], ◌∷◌, arith,
}

-- struct CLASS_STATS; an ID of -1, that of a parent, is `none`.
pub record ClassStats : Type 0 where
  pub id : Option ℕ
  pub bytes : ℕ
  pub rtclass : Bool
  pub backlog : ℕ
  pub actflg : Bool
  pub cbw_flt : ℕ
  pub bwtime : ℕ

pub data MessageType : Type 0 where
  new_class deleted_class other_type : MessageType

pub data Kind : Type 0 where
  missing hfsc other_kind : Kind

-- The counters that a message carries: its bytes, its queue, and a service curve of two parts.
pub record Counters : Type 0 where
  pub work : ℕ
  pub qlen : ℕ
  pub two_part : Bool

-- What print_class reads of a netlink message, and of the clock.
pub record Message : Type 0 where
  pub nlmsg_type : MessageType
  pub too_short : Bool
  pub kind : Kind
  pub at_root : Bool
  pub tcm_info : ℕ
  pub counters : Option Counters
  pub tv_nsec : ℕ

pub record Listing : Type 0 where
  pub stats : ℕ → ClassStats
  pub classcnt : ℕ
  pub errorflg : Bool
  pub dca : ℕ
  pub rtdca : ℕ
  pub dbw_fil : ℕ

abbrev pub statcnt : ℕ
statcnt = 30

-- A message is skipped, ends the dump, or tells of a class.
pub data Verdict : Type 0 where
  skipped aborted listed : Verdict

unfoldable pub judge : Message → Verdict
judge msg = elim msg.nlmsg_type [
  | other_type ↦ skipped
  | new_class ↦ if msg.too_short then aborted else elim msg.kind [
    | missing ↦ aborted
    | hfsc ↦ if msg.at_root then skipped else listed
    | other_kind ↦ skipped
  ]
  | deleted_class ↦
      if msg.too_short then aborted else elim msg.kind [ missing ↦ aborted | _ ↦ skipped ]
]

unfoldable pub leafid : Message → Option ℕ
leafid msg = if msg.tcm_info == 0 then none else some (msg.tcm_info / 2 ^ 16)

unfoldable pub same_id : Option ℕ → Option ℕ → Bool
same_id none none = true
same_id (some a) (some b) = a == b
same_id _ _ = false

unfoldable pub put_slot : ClassStats → Listing → Listing
put_slot slot l = record l { stats = λ i. if i == l.classcnt then slot else l.stats i }

module _ (period : ℕ) (filter_load : ℕ → ℕ → ℕ) where
  -- The load of a class in bps * 1000; a clock that went back gives a period too short, as 0 is.
  unfoldable pub load : ℕ → ℕ → ClassStats → ℕ
  load work tv_nsec slot =
      let bperiod = (tv_nsec - slot.bwtime) / 1000000 in
      (work - slot.bytes) * 8000 / (if ltb bperiod (period / 2) then period else bperiod)

  -- The update of the filtered bandwidth, of the counts of active classes and of the whole load.
  unfoldable pub update : ℕ → Option ℕ → ℕ → ClassStats → Listing → Listing
  unfolding load put_slot
  update work leaf tv_nsec slot l =
      if leb slot.bytes work
      then (let cbw = filter_load slot.cbw_flt (load work tv_nsec slot) in
          let active = not (same_id leaf none) && ltb 4000 cbw in
          let kept =
            put_slot
              (record slot { cbw_flt = cbw; actflg = active; bwtime = tv_nsec; bytes = work }) l in
          record kept {
            dca = if active then suc l.dca else l.dca;
            rtdca = if active && slot.rtclass then suc l.rtdca else l.rtdca;
            dbw_fil = elim leaf [ none ↦ 0 | some _ ↦ l.dbw_fil + cbw ];
            classcnt = suc l.classcnt;
          })
      else record (put_slot (record slot { actflg = false; bwtime = tv_nsec; bytes = work }) l) {
        classcnt = suc l.classcnt;
      }

  -- A class, from the test of errorflg on.
  unfoldable pub list_class : Bool → Message → Listing → Listing
  unfolding leafid same_id put_slot update
  list_class first_pass msg l =
      if l.errorflg
      then l
      else if leb statcnt l.classcnt
      then record l { errorflg = true }
      else if not first_pass && not (same_id (leafid msg) (l.stats l.classcnt).id)
      then record l { errorflg = true }
      else (let slot = l.stats l.classcnt in
          let named = if first_pass then record slot { id = leafid msg } else slot in
          elim msg.counters [
            | none ↦ record (put_slot named l) { errorflg = true }
            | some c ↦
                update c.work (leafid msg) msg.tv_nsec
                  (if first_pass
                    then record named { backlog = c.qlen; rtclass = c.two_part; bytes = c.work }
                    else record named { backlog = c.qlen })
                  l
          ])

  -- print_class on the messages of a dump; a negative result ends the dump.
  unfoldable pub dump : Bool → List Message → Listing → Listing
  unfolding judge list_class
  dump first_pass [] l = l
  dump first_pass (msg ∷ msgs) l = elim (judge msg) [
    | skipped ↦ dump first_pass msgs l
    | aborted ↦ l
    | listed ↦ dump first_pass msgs (list_class first_pass msg l)
  ]

  -- The statistics of a round: the start of the gathering in main, then class_list.
  unfoldable pub class_list : Bool → List Message → Listing → Listing
  unfolding dump
  class_list first_pass msgs l =
      dump first_pass msgs (record l { classcnt = 0; errorflg = false; dca = 0; rtdca = 0 })

  -- The classes that a dump tells of, up to a message that ends it.
  unfoldable pub listed_count : List Message → ℕ
  unfolding judge
  listed_count [] = 0
  listed_count (msg ∷ msgs) =
      let rest = listed_count msgs in
      elim (judge msg) [ skipped ↦ rest | aborted ↦ 0 | listed ↦ suc rest ]

  -- The slots of the array only, and no count above that of the classes.
  abbrev pub IsCounted : Listing → Type 0
  IsCounted l = (l.rtdca ≤ l.dca) × (l.dca ≤ l.classcnt) × (l.classcnt ≤ statcnt)

  list_class-IsCounted :
      (first_pass : Bool) (msg : Message) (l : Listing)
      → IsCounted l
      → IsCounted (list_class first_pass msg l)
  unfolding list_class update put_slot
  list_class-IsCounted first_pass msg l ok = ground arith

  list_class-count :
      (first_pass : Bool) (msg : Message) (l : Listing)
      → ((list_class first_pass msg l).errorflg ≡ true)
        ⊎ (((list_class first_pass msg l).errorflg ≡ false)
            × ((list_class first_pass msg l).classcnt ≡ suc l.classcnt))
  unfolding list_class update put_slot
  list_class-count first_pass msg l = ground arith

  judge-cases :
      (msg : Message) → (judge msg ≡ skipped) ⊎ ((judge msg ≡ aborted) ⊎ (judge msg ≡ listed))
  judge-cases msg = elim (judge msg) as (λ v. (v ≡ skipped) ⊎ ((v ≡ aborted) ⊎ (v ≡ listed))) [
    | skipped ↦ inl refl
    | aborted ↦ inr (inl refl)
    | listed ↦ inr (inr refl)
  ]

  list_class-stats :
      (first_pass : Bool) (msg : Message) (l : Listing) (i : ℕ)
      → statcnt ≤ i
      → (list_class first_pass msg l).stats i ≡ l.stats i
  unfolding list_class update put_slot
  list_class-stats first_pass msg l i past = ground arith

  dump-IsCounted :
      (first_pass : Bool) (msgs : List Message) (l : Listing)
      → IsCounted l
      → IsCounted (dump first_pass msgs l)
  unfolding dump
  dump-IsCounted first_pass [] l ok = ok
  dump-IsCounted first_pass (msg ∷ msgs) l ok = elim (judge-cases msg) [
    | inl skip ↦ rw (skip, dump) (dump-IsCounted first_pass msgs l ok)
    | inr (inl stop) ↦ rw (stop, dump) ok
    | inr (inr tells) ↦
        rw (tells, dump)
          (dump-IsCounted first_pass msgs (list_class first_pass msg l)
            (list_class-IsCounted first_pass msg l ok))
  ]

  dump-stats :
      (first_pass : Bool) (msgs : List Message) (l : Listing) (i : ℕ)
      → statcnt ≤ i
      → (dump first_pass msgs l).stats i ≡ l.stats i
  unfolding dump
  dump-stats first_pass [] l i past = refl
  dump-stats first_pass (msg ∷ msgs) l i past = elim (judge-cases msg) [
    | inl skip ↦ rw (skip, dump) (dump-stats first_pass msgs l i past)
    | inr (inl stop) ↦ rw (stop, dump) refl
    | inr (inr tells) ↦
        rw (tells, dump)
          (dump-stats first_pass msgs (list_class first_pass msg l) i past
            ∙ list_class-stats first_pass msg l i past)
  ]

  -- Whatever the kernel sends, the statistics of a round count at most 30 classes, no more active ones than
  -- classes and no more active realtime ones than active ones, and no slot past the array is written.
  pub class_list-IsCounted :
      (first_pass : Bool) (msgs : List Message) (l : Listing)
      → IsCounted (class_list first_pass msgs l)
        × ((i : ℕ) → statcnt ≤ i → (class_list first_pass msgs l).stats i ≡ l.stats i)
  unfolding class_list
  class_list-IsCounted first_pass msgs l =
      let begun = record l { classcnt = 0; errorflg = false; dca = 0; rtdca = 0 } in
      (
        dump-IsCounted first_pass msgs begun (ground arith),
        λ i past. dump-stats first_pass msgs begun i past,
      )

  list_class-failed :
      (first_pass : Bool) (msg : Message) (l : Listing)
      → l.errorflg ≡ true
      → (list_class first_pass msg l).errorflg ≡ true
  unfolding list_class
  list_class-failed first_pass msg l failed = rw failed refl

  dump-failed :
      (first_pass : Bool) (msgs : List Message) (l : Listing)
      → l.errorflg ≡ true
      → (dump first_pass msgs l).errorflg ≡ true
  unfolding dump
  dump-failed first_pass [] l failed = failed
  dump-failed first_pass (msg ∷ msgs) l failed = elim (judge-cases msg) [
    | inl skip ↦ rw (skip, dump) (dump-failed first_pass msgs l failed)
    | inr (inl stop) ↦ rw (stop, dump) failed
    | inr (inr tells) ↦
        rw (tells, dump)
          (dump-failed first_pass msgs (list_class first_pass msg l)
            (list_class-failed first_pass msg l failed))
  ]

  dump-count :
      (first_pass : Bool) (msgs : List Message) (l : Listing)
      → ((dump first_pass msgs l).errorflg ≡ true)
        ⊎ ((dump first_pass msgs l).classcnt ≡ l.classcnt + listed_count msgs)
  unfolding dump listed_count
  dump-count first_pass [] l = inr (omega arith)
  dump-count first_pass (msg ∷ msgs) l = elim (judge-cases msg) [
    | inl skip ↦ rw (skip, dump, listed_count) (dump-count first_pass msgs l)
    | inr (inl stop) ↦ inr (rw (stop, dump, listed_count) (omega arith))
    | inr (inr tells) ↦
        rw (tells, dump, listed_count)
          (elim (list_class-count first_pass msg l) [
            | inl failed ↦ inl (dump-failed first_pass msgs (list_class first_pass msg l) failed)
            | inr (goes_on, one_more) ↦
                elim (dump-count first_pass msgs (list_class first_pass msg l)) [
                  | inl failed ↦ inl failed
                  | inr counts ↦ inr (omega (arith, counts, one_more))
                ]
          ])
  ]

  -- After the statistics of a round, either the error flag is set, or the count of the classes is the number of
  -- the messages that tell of one, up to a message that ends the dump.
  class_list-listed_count :
      (first_pass : Bool) (msgs : List Message) (l : Listing)
      → ((class_list first_pass msgs l).errorflg ≡ true)
        ⊎ ((class_list first_pass msgs l).classcnt ≡ listed_count msgs)
  unfolding class_list
  class_list-listed_count first_pass msgs l =
      elim (dump-count first_pass msgs
        (record l { classcnt = 0; errorflg = false; dca = 0; rtdca = 0 })) [
          | inl failed ↦ inl failed
          | inr counts ↦ inr (omega (arith, counts))
        ]
