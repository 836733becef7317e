-- ===== src/Event/Fresh.antt =====
-- A new base, and events that are set up in it: `event_base_new`, `event_set`, `event_base_set` and
-- `event_priority_set`. An event that was never set up is taken to be cleared memory.
use libevent_1_4_3_stable_le.Base.{
  ℕ, zero, suc, ◌/◌, ◌≡◌, refl, sym, List, [], ◌∷◌, length, get_or, update, ◌||◌, Bool, true, false,
  if◌then◌else◌, Option, some, arith, inl, inr, Bool-cases,
}
use libevent_1_4_3_stable_le.Base.Int.{minus_one, ℤ, pos, ltb_ℤ, leb_ℤ, pos_part}
use libevent_1_4_3_stable_le.Base.Run.{ok, fault, Returns, returns}
use libevent_1_4_3_stable_le.MinHeap.{no_index, ctor, elem_init}
use libevent_1_4_3_stable_le.Event.Time.{Timeval}
use libevent_1_4_3_stable_le.Event.{put, Mask, Event, EventBase}
use libevent_1_4_3_stable_le.Event.Setup.{
  no_flags, no_mask, first_init, priority_init, base_new, event_set, base_set, priority_set,
  only_init,
}
use libevent_1_4_3_stable_le.Event.Invariant.{
  IsBase, Updated, Updated-refl, occurs, external_cong, external_all_cong,
}
use libevent_1_4_3_stable_le.Event.Agree.{heap_same, internal_same}
use libevent_1_4_3_stable_le.Event.Put.{put-Updated}

-- An event on no queue, with no calls to make, that the program may set up.
pub record IsOff (v : Event) : Type 0 where
  pub timeout : v.ev_flags.timeout ≡ false
  pub inserted : v.ev_flags.inserted ≡ false
  pub signal : v.ev_flags.signal ≡ false
  pub active : v.ev_flags.active ≡ false
  pub internal : v.ev_flags.internal ≡ false

-- Memory in which no event has been set up.
pub record IsCleared (v : Event) : Type 0 where
  pub off : IsOff v
  pub idle : v.ev_pncalls ≡ false
  pub no_base : v.ev_base ≡ false

-- The event as `event_set` leaves it, in a base with `npriorities` queues.
abbrev pub set_up : ℕ → ℤ → Mask → Event → Event
set_up npriorities fd events v = record v {
  ev_base = true;
  ev_fd = fd;
  ev_events = events;
  ev_res = no_mask;
  ev_flags = record no_flags { init = true };
  ev_ncalls = 0;
  ev_pncalls = false;
  ev_pri = npriorities / 2;
}

one_empty : (x i : ℕ) → occurs x (get_or ([] ∷ []) i []) ≡ 0
one_empty x zero = refl
one_empty x (suc i) = refl

-- Two tests that fail in the same way.
if_or :
    {A : Type 0} (a c t : Bool) (x y : A)
    → t ≡ true
    → (if a then ok x else (if t then ok (if c then x else y) else fault))
      ≡ ok (if a || c then x else y)
if_or true c t x y on = refl
if_or false c t x y on = rw on refl

-- The event after `event_base_set` and `event_priority_set`.
abbrev pub based : ℕ → Event → Event
based npriorities v =
    if only_init v.ev_flags then record v { ev_base = true; ev_pri = npriorities / 2 } else v

abbrev pub bad_priority : ℕ → ℤ → Event → Bool
bad_priority npriorities pri v =
    (v.ev_flags.active || ltb_ℤ pri (pos 0)) || leb_ℤ (pos npriorities) pri

abbrev pub prioritised : ℕ → ℤ → Event → Event
prioritised npriorities pri v =
    if bad_priority npriorities pri v then v else record v { ev_pri = pos_part pri }

module _ {E : Type 0} where
  -- A new base is well formed, has one queue of active events and no events.
  pub record IsNew (events : ℕ → Event) (b : EventBase E) : Type 0 where
    pub valid : IsBase b
    pub cleared : (x : ℕ) → IsCleared (b.events x)
    pub one_queue : length b.activequeues ≡ 1
    pub empty : b.event_count ≡ pos 0

  pub base_new-IsNew :
      (evbase : E) (inits : List (Option E)) (events : ℕ → Event) (p idx : ℕ → ℕ) (now : Timeval)
      → first_init inits ≡ some evbase
      → ((x : ℕ) → IsCleared (events x))
      → ((x : ℕ) → idx x ≡ no_index)
      → Returns (IsNew events) (base_new inits events p idx now)
  unfolding base_new ctor priority_init
  base_new-IsNew evbase inits events p idx now found cleared no_idx =
      rw (base_new, found)
        (returns _ (record {
          valid = record {
            heap = record {
              ordered = λ c more less. absurd (omega arith);
              indexed = λ c less. absurd (omega arith);
              allocated = omega arith;
              small = omega arith;
            };
            timed = λ x on. absurd (cc (on, (cleared x).off.timeout));
            untimed = λ x off. no_idx x;
            inserted = λ x. rw (cleared x).off.inserted refl;
            signalled = λ x. rw (cleared x).off.signal refl;
            active = λ x i. ground (arith, (cleared x).off.active, one_empty x i);
            total_active = refl;
            timed_external = λ x on. absurd (cc (on, (cleared x).off.timeout));
            total = refl;
            idle = λ none' x. inl (cleared x).idle;
          };
          cleared = cleared;
          one_queue = refl;
          empty = refl;
        }))

  pub event_set-Updated :
      {b : EventBase E} (v : IsBase b) (e : ℕ) (fd : ℤ) (events : Mask)
      → IsOff (b.events e)
      → Updated b e
          (set_up (length b.activequeues) fd events (b.events e))
          (event_set b e fd events)
  unfolding event_set elem_init
  event_set-Updated {b} v e fd events off =
      let w = set_up (length b.activequeues) fd events (b.events e) in
      let f = update b.events e w in
      let same = internal_same v e w (sym off.internal) in
      let index = v.untimed e off.timeout in
      let h = heap_same v e w b.timeheap refl v.heap in
      record {
        valid = record {
          heap = record {
            ordered = h.ordered;
            indexed = λ c lt. ground (arith, v.heap.indexed c, index, v.heap.small);
            allocated = h.allocated;
            small = h.small;
          };
          timed = λ x. ground (arith, v.timed x, off);
          untimed = λ x. ground (arith, v.untimed x, off);
          inserted = λ x. ground (arith, v.inserted x, off);
          signalled = λ x. ground (arith, v.signalled x, off);
          active = λ x i. ground (arith, v.active x i, off);
          total_active = v.total_active;
          timed_external = λ x. ground (arith, v.timed_external x, off);
          total =
              rw
                (
                  external_cong f b.events b.eventqueue same,
                  external_cong f b.events b.signalqueue same,
                  external_all_cong f b.events b.activequeues same,
                )
                v.total;
          idle = λ none' x. ground (arith, v.idle none' x);
        };
        here = ground arith;
        others = λ x ne. ground arith;
        timers = rw off.timeout refl;
        same_calls = refl;
        same_queues = refl;
        room = omega arith;
      }

  pub base_set-Updated :
      {b : EventBase E} (v : IsBase b) (e : ℕ)
      → Updated b e (based (length b.activequeues) (b.events e)) (base_set b e).1
  unfolding base_set
  base_set-Updated {b} v e =
      let w = b.events e in
      elim (Bool-cases (only_init w.ev_flags)) [
        | inl fresh ↦
            let off : w.ev_flags.active ≡ false = ground arith in
            rw fresh (
              put-Updated v e _ refl (λ on. refl) (λ on. absurd (cc (on, off)))
                (λ idle. v.idle idle e))
        | inr used ↦ rw used (Updated-refl e v)
      ]

  pub priority_set-Updated :
      {b : EventBase E} (v : IsBase b) (e : ℕ) (pri : ℤ)
      → (b.events e).ev_base ≡ true
      → Returns
          (λ (r, c). Updated b e (prioritised (length b.activequeues) pri (b.events e)) c)
          (priority_set b e pri)
  unfolding priority_set
  priority_set-Updated {b} v e pri base =
      let w = b.events e in
      let early = w.ev_flags.active || ltb_ℤ pri (pos 0) in
      let big = leb_ℤ (pos (length b.activequeues)) pri in
      let failed : ℤ × EventBase E = (minus_one, b) in
      let set : ℤ × EventBase E = (pos 0, put b e (record w { ev_pri = pos_part pri })) in
      rw (if_or early big w.ev_base failed set base) (
        returns _ (elim (Bool-cases (bad_priority (length b.activequeues) pri w)) [
          | inl bad ↦ rw bad (Updated-refl e v)
          | inr good ↦
              let off : w.ev_flags.active ≡ false = ground arith in
              rw good (
                put-Updated v e _ refl (λ on. refl) (λ on. absurd (cc (on, off)))
                  (λ idle. v.idle idle e))
        ]))
