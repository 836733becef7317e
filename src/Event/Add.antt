-- ===== src/Event/Add.antt =====
-- `event_add`: the timeout is set anew.
use libevent_1_4_3_stable_le.Base.{
  ℕ, suc, ◌+◌, ◌^◌, ◌≤◌, ◌<◌, ◌≡◌, ◌⊎◌, refl, sym, ap, not, ◌&&◌, ◌||◌, Bool, true, false,
  if◌then◌else◌, Option, none, some, arith, inl, inr,
}
use libevent_1_4_3_stable_le.Base.Int.{ℤ, pos, minus_one, eqb_ℤ}
use libevent_1_4_3_stable_le.Base.Run.{Returns, returns, Returns-map, Returns-bind, Returns-if}
use libevent_1_4_3_stable_le.Base.Words.{add_u32}
use libevent_1_4_3_stable_le.MinHeap.Insert.{reserve_cases, new_size}
use libevent_1_4_3_stable_le.Event.Time.{Timeval, timeradd}
use libevent_1_4_3_stable_le.Event.{
  Event, EventBase, timeouts, inserted, signals, actives, reflag, make_room, cancel_timeout,
  schedule, add_timeout,
}
use libevent_1_4_3_stable_le.Event.Invariant.{IsBase, Updated, Updated-step, Updated-eq}
use libevent_1_4_3_stable_le.Event.Remove.{queue_remove-Updated}
use libevent_1_4_3_stable_le.Event.Insert.{insert_timeout}
use libevent_1_4_3_stable_le.Event.Put.{put-Updated}
use libevent_1_4_3_stable_le.Event.Changes.{
  reflag_same, Changed, Changed-refl, Changed-eq, Changed-step, Updated-Changed,
  abort_calls-Changed,
}

-- An event that is active because of a timeout is no longer so.
abbrev pub uncalled : Event → Event
uncalled v =
    let f = v.ev_flags in
    record v { ev_flags = record f { active = f.active && not v.ev_res.timeout } }

-- The event with a timeout at this time.
abbrev pub timed_at : Timeval → Event → Event
timed_at at v =
    reflag timeouts true (record (uncalled (reflag timeouts false v)) { ev_timeout = at })

-- The event for which the kernel interface returns `r` on a call that adds it.
abbrev pub on_evsel : ℤ → Event → Event
on_evsel r v =
    let f = v.ev_flags in
    let io = if eqb_ℤ r minus_one then v else reflag inserted true v in
    let signal = if eqb_ℤ r minus_one then v else reflag signals true v in
    if (v.ev_events.read || v.ev_events.write) && not (f.inserted || f.active)
    then io
    else if v.ev_events.signal && not f.signal
    then signal
    else v

-- The event with its timeout, if one is given.
abbrev pub timed : Timeval → Option Timeval → Event → Event
timed now none v = v
timed now (some tv) v = timed_at (timeradd now tv) v

module _ {E : Type 0} where
  -- The heap's array may grow.
  pub grown-Updated :
      {b : EventBase E} (e a : ℕ)
      → IsBase b
      → b.timeheap.a ≤ a
      → Updated b e (b.events e) (record b { timeheap = record b.timeheap { a = a } })
  grown-Updated {b} e a v grows = record {
    valid = record {
      heap = record {
        ordered = v.heap.ordered;
        indexed = v.heap.indexed;
        allocated = omega (arith, v.heap.allocated);
        small = v.heap.small;
      };
      timed = v.timed;
      untimed = v.untimed;
      inserted = v.inserted;
      signalled = v.signalled;
      active = v.active;
      total_active = v.total_active;
      timed_external = v.timed_external;
      total = v.total;
      idle = v.idle;
    };
    here = refl;
    others = λ x ne. refl;
    timers = refl;
    same_calls = refl;
    same_queues = refl;
    room = grows;
  }

  -- What `make_room` and `add_timeout` do if the heap cannot grow for an event that is not in it: they
  -- return -1, and nothing has changed.
  abbrev pub Refused : (ℕ → Bool) → EventBase E → ℕ → ℤ × EventBase E → Type 0
  Refused granted b e (r, c) =
      (r ≡ minus_one)
      × (c ≡ b)
      × ((b.events e).ev_flags.timeout ≡ false)
      × (granted (new_size b.timeheap (b.timeheap.n + 1)) ≡ false)

module _ {E : Type 0} (granted : ℕ → Bool) {b : EventBase E} (v : IsBase b) (e : ℕ) where
  pub cancel_timeout-Changed :
      Returns (Changed b e (uncalled (b.events e))) (cancel_timeout granted b e)
  unfolding cancel_timeout
  cancel_timeout-Changed =
      let w = b.events e in
      let active : Bool → Event = λ t. reflag actives t w in
      Returns-if (w.ev_flags.active && w.ev_res.timeout)
        (λ both.
          let on : w.ev_flags.active ≡ true = ground arith in
          let off : false ≡ w.ev_flags.active && not w.ev_res.timeout = ground arith in
          Returns-bind (abort_calls-Changed b e v) λ c u.
            Returns-map (queue_remove-Updated u.valid e actives (rw u.here on)) λ d t.
              Changed-eq (ap active off)
                (Changed-step (reflag actives false) u (Updated-Changed t)))
        (λ else'.
          let same : w.ev_flags.active ≡ w.ev_flags.active && not w.ev_res.timeout = ground arith in
          returns b (Changed-eq (ap active same) (Changed-refl e v)))

  pub schedule-Updated :
      (at : Timeval)
      → (b.events e).ev_flags.timeout ≡ false
      → (b.events e).ev_flags.internal ≡ false
      → suc b.timeheap.n < 2 ^ 31
      → b.timeheap.n + 1 ≤ b.timeheap.a
      → Returns
          (Updated b e (reflag timeouts true (record (b.events e) { ev_timeout = at })))
          (schedule granted b e at)
  unfolding schedule
  schedule-Updated at off user small room =
      let w : Event = record (b.events e) { ev_timeout = at } in
      let u =
        put-Updated v e w refl (λ on. absurd (cc (on, off))) (λ t. refl) (λ idle. v.idle idle e) in
      Returns-map (insert_timeout granted u.valid e (rw u.here off) (rw u.here user) small room)
        λ c t. Updated-step (reflag timeouts true) u t

  -- Room for one event, which is not in the heap.
  pub make_room_cases :
      suc b.timeheap.n < 2 ^ 31
      → Returns
          (λ (r, c).
            ((r ≡ pos 0)
              × Updated b e (reflag timeouts false (b.events e)) c
              × (c.timeheap.n + 1 ≤ c.timeheap.a))
            ⊎ Refused granted b e (r, c))
          (make_room granted b e)
  unfolding make_room
  make_room_cases small =
      let plus : add_u32 1 b.timeheap.n ≡ b.timeheap.n + 1 = omega arith in
      Returns-if (b.events e).ev_flags.timeout
        (λ on. Returns-bind (queue_remove-Updated v e timeouts on) λ c u.
          returns (pos 0, c) (inl (refl, u, ground (arith, u.timers, u.room, v.heap.allocated))))
        (λ off. elim (reserve_cases granted b.timeheap (b.timeheap.n + 1)) [
          | inl (a, done, more, grows) ↦
              rw (plus, done)
                (returns _ (
                  inl (
                    refl,
                    Updated-eq (sym (reflag_same timeouts false (b.events e) off))
                        (grown-Updated e a v grows),
                    more,
                  )))
          | inr (refused, full, memory) ↦
              rw (plus, refused) (returns _ (inr (refl, refl, off, memory)))
        ])

module _ {E : Type 0} (granted : ℕ → Bool) {b : EventBase E} (v : IsBase b) (e : ℕ) where
  pub add_timeout_cases :
      (now tv : Timeval)
      → (b.events e).ev_flags.internal ≡ false
      → suc b.timeheap.n < 2 ^ 31
      → Returns
          (λ (r, c).
            ((r ≡ pos 0) × Changed b e (timed now (some tv) (b.events e)) c)
            ⊎ Refused granted b e (r, c))
          (add_timeout granted now b e tv)
  unfolding add_timeout
  add_timeout_cases now tv user small =
      Returns-bind (make_room_cases granted v e small) λ (r, c) cases. elim cases [
        | inr (at, same, off, memory) ↦ rw at (returns _ (inr (refl, same, off, memory)))
        | inl (at, u, room) ↦ rw at (
            Returns-bind (cancel_timeout-Changed granted u.valid e) λ d t.
              let off : (d.events e).ev_flags.timeout ≡ false = rw (t.here, u.here) refl in
              let user' : (d.events e).ev_flags.internal ≡ false = rw (t.here, u.here) user in
              let fewer : d.timeheap.n ≤ b.timeheap.n =
                ground (arith, t.timers, u.timers, u.here) in
              let room' : d.timeheap.n + 1 ≤ d.timeheap.a =
                ground (arith, t.timers, t.room, u.here) in
              Returns-bind
                (schedule-Updated granted t.valid e (timeradd now tv) off user' (omega arith) room')
                λ d' s. returns _ (
                  inl (
                    refl,
                    Changed-step
                        (λ w. reflag timeouts true (record w { ev_timeout = timeradd now tv }))
                        (Changed-step uncalled (Updated-Changed u) t) (Updated-Changed s),
                  )))
      ]
