-- ===== src/Event/Clock.antt =====
-- `timeout_correct` when the clock went back, and the time to wait that `timeout_next` gives.
use libevent_1_4_3_stable_le.Base.{
  ℕ, zero, suc, ◌+◌, ◌≡◌, refl, sym, ap, ◌∙◌, update, ◌&&◌, ◌||◌, ◌==◌, ltb, leb, Bool, true, false,
  if◌then◌else◌, arith, inl, inr, Bool-cases, ℕ_discrete,
}
use libevent_1_4_3_stable_le.MinHeap.{Heap}
use libevent_1_4_3_stable_le.MinHeap.Order.{IsHeap, In}
use libevent_1_4_3_stable_le.Event.Time.{
  Timeval, timersub, time_le, IsNormal, timersub-IsNormal, time_lt-timersub, timersub-timersub,
}
use libevent_1_4_3_stable_le.Event.{Event, EventBase, greater}
use libevent_1_4_3_stable_le.Event.Timeouts.{shift_timeouts, timeout_correct}
use libevent_1_4_3_stable_le.Event.Invariant.{IsBase, external_cong, external_all_cong}
use libevent_1_4_3_stable_le.Event.Agree.{IsHeap-cong}
use libevent_1_4_3_stable_le.Event.Expire.{in_heap_timed}

-- The event with its timeout moved.
abbrev shifted : Timeval → Event → Event
shifted off v = record v { ev_timeout = timersub v.ev_timeout off }

-- The event stands in the heap, at the place `i` or behind it.
abbrev in_range : Heap → ℕ → ℕ → Bool
in_range s i x = leb i (s.idx x) && ltb (s.idx x) s.n && (s.p (s.idx x) == x)

-- The loop moves the timeouts of the events that are still to come, each once.
shift_timeouts_lem :
    (greater : ℕ → ℕ → Bool) (s : Heap) (off : Timeval) (left i : ℕ) (f : ℕ → Event) (x : ℕ)
    → IsHeap greater s
    → i + left ≡ s.n
    → shift_timeouts off s.p left i f x ≡ (if in_range s i x then shifted off (f x) else f x)
unfolding shift_timeouts
shift_timeouts_lem greater s off zero i f x h end = ground arith
shift_timeouts_lem greater s off (suc left) i f x h end =
    let g : ℕ → Event = update f (s.p i) (shifted off (f (s.p i))) in
    let rest = shift_timeouts_lem greater s off left (i + 1) g x h (omega arith) in
    rest ∙ elim (ℕ_discrete x (s.p i)) [
      | yes same ↦
          let index : s.idx x ≡ i = ground (arith, h.indexed i) in
          let done : in_range s (i + 1) x ≡ false = ground arith in
          let now : in_range s i x ≡ true = ground arith in
          let here : g x ≡ shifted off (f x) = ground arith in rw (done, now) here
      | no ne ↦
          let still : in_range s (i + 1) x ≡ in_range s i x = ground arith in
          let kept : g x ≡ f x = ground arith in rw (still, kept) refl
    ]

-- What the structures of a base depend on in an event, besides its timeout.
record SameEvent (v w : Event) : Type 0 where
  same_flags : w.ev_flags ≡ v.ev_flags
  same_pri : w.ev_pri ≡ v.ev_pri
  same_ncalls : w.ev_ncalls ≡ v.ev_ncalls
  same_pncalls : w.ev_pncalls ≡ v.ev_pncalls

module _ {E : Type 0} where
  -- Timeouts may be written if their order stays.
  retimed-IsBase :
      {b : EventBase E} (f : ℕ → Event)
      → IsBase b
      → ((x : ℕ) → SameEvent (b.events x) (f x))
      → ((x y : ℕ) → In b.timeheap x → In b.timeheap y → greater b.events x y ≡ greater f x y)
      → IsBase (record b { events = f })
  retimed-IsBase {b} f v h order = record {
    heap = IsHeap-cong (greater b.events) (greater f) b.timeheap order v.heap;
    timed = λ x. ground (arith, v.timed x, h x);
    untimed = λ x. ground (arith, v.untimed x, h x);
    inserted = λ x. ground (arith, v.inserted x, h x);
    signalled = λ x. ground (arith, v.signalled x, h x);
    active = λ x i. ground (arith, v.active x i, h x);
    total_active = v.total_active;
    timed_external = λ x. ground (arith, v.timed_external x, h x);
    total =
        rw
          (
            external_cong f b.events b.eventqueue (λ x. ap (λ g. g.internal) (h x).same_flags),
            external_cong f b.events b.signalqueue (λ x. ap (λ g. g.internal) (h x).same_flags),
            external_all_cong f b.events b.activequeues
                (λ x. ap (λ g. g.internal) (h x).same_flags),
          )
          v.total;
    idle = λ none' x. ground (arith, v.idle none' x, h x);
  }

  -- The clock and the timeouts of the base are proper times.
  pub record Normal (b : EventBase E) : Type 0 where
    pub clock : IsNormal b.event_tv
    pub waiting : (x : ℕ) → (b.events x).ev_flags.timeout ≡ true → IsNormal (b.events x).ev_timeout

  -- `c` is `b` after the clock gave the time `tv`.
  pub record Corrected (use_monotonic : Bool) (tv : Timeval) (b c : EventBase E) : Type 0 where
    pub valid : IsBase c
    -- The clock went on, or it cannot go back: nothing moves.
    pub forward : use_monotonic || time_le b.event_tv tv ≡ true → c.events ≡ b.events
    -- The clock went back: every timeout moves with it.
    pub back :
        use_monotonic || time_le b.event_tv tv ≡ false
        → (x : ℕ) → (b.events x).ev_flags.timeout ≡ true
        → timersub (c.events x).ev_timeout tv ≡ timersub (b.events x).ev_timeout b.event_tv
    pub untimed : (x : ℕ) → (b.events x).ev_flags.timeout ≡ false → c.events x ≡ b.events x

  -- All events of the heap are moved.
  all_shifted :
      {b : EventBase E} (off : Timeval)
      → IsBase b
      → (x : ℕ)
      → ((b.events x).ev_flags.timeout ≡ true
          → shift_timeouts off b.timeheap.p b.timeheap.n 0 b.events x ≡ shifted off (b.events x))
        × ((b.events x).ev_flags.timeout ≡ false
            → shift_timeouts off b.timeheap.p b.timeheap.n 0 b.events x ≡ b.events x)
  all_shifted {b} off v x =
      let by_range =
        shift_timeouts_lem (greater b.events) b.timeheap off b.timeheap.n 0 b.events x v.heap
          (omega arith) in
      let in_heap = in_range b.timeheap 0 x in
      (
        λ on. let inside : in_heap ≡ true = ground (arith, v.timed x on) in rw inside at by_range,
        λ off'.
            let outside : in_heap ≡ false = ground (arith, v.untimed x off', v.heap.small) in
            rw outside at by_range,
      )

  -- Only the clock is set.
  clocked : {b : EventBase E} (tv : Timeval) → IsBase b → IsBase (record b { event_tv = tv })
  clocked tv v = record {
    heap = v.heap;
    timed = v.timed;
    untimed = v.untimed;
    inserted = v.inserted;
    signalled = v.signalled;
    active = v.active;
    total_active = v.total_active;
    timed_external = v.timed_external;
    total = v.total;
    idle = v.idle;
  }

  -- `timeout_correct` keeps a base well formed whose clock and timeouts are proper times. If the clock went back
  -- and can go back, the time that is left for each timeout is what it was on the old clock; else no event
  -- changes. Events without a timeout never change.
  pub timeout_correct-Corrected :
      (use_monotonic : Bool) (b : EventBase E) (tv : Timeval)
      → IsBase b
      → Normal b
      → IsNormal tv
      → Corrected use_monotonic tv b (timeout_correct use_monotonic b tv)
  unfolding timeout_correct
  timeout_correct-Corrected true b tv v n m = record {
    valid = v;
    forward = λ h. refl;
    back = λ h. absurd (ground arith);
    untimed = λ x off. refl;
  }
  timeout_correct-Corrected false b tv v n m = elim (Bool-cases (time_le b.event_tv tv)) [
    | inl on ↦ rw on (record {
      valid = clocked tv v;
      forward = λ h. refl;
      back = λ h. absurd (cc (h, on));
      untimed = λ x off. refl;
    })
    | inr went_back ↦
        let off = timersub b.event_tv tv in
        let f = shift_timeouts off b.timeheap.p b.timeheap.n 0 b.events in
        let at = all_shifted off v in
        let k = timersub-IsNormal b.event_tv tv n.clock m in
        rw went_back (record {
          valid =
              retimed-IsBase f v
                (λ x. elim (Bool-cases (b.events x).ev_flags.timeout) [
                  | inl on ↦ rw ((at x).0 on) (record {
                    same_flags = refl;
                    same_pri = refl;
                    same_ncalls = refl;
                    same_pncalls = refl;
                  })
                  | inr off' ↦ rw ((at x).1 off') (record {
                    same_flags = refl;
                    same_pri = refl;
                    same_ncalls = refl;
                    same_pncalls = refl;
                  })
                ])
                (λ x y hx hy.
                  let on = in_heap_timed v x hx in
                  let on' = in_heap_timed v y hy in
                  rw ((at x).0 on, (at y).0 on')
                    (sym (
                      time_lt-timersub (b.events y).ev_timeout (b.events x).ev_timeout off
                        (n.waiting y on') (n.waiting x on) k)));
          forward = λ h. absurd (cc (h, went_back));
          back = λ h x timed. rw ((at x).0 timed) (
              timersub-timersub (b.events x).ev_timeout b.event_tv tv (n.waiting x timed) n.clock
                m);
          untimed = λ x off'. (at x).1 off';
        })
  ]
