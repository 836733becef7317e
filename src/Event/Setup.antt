-- ===== src/Event/Setup.antt =====
-- event.c: making a base, setting an event up before it is added, and asking for its state.
use libevent_1_4_3_stable_le.Base.{
  ℕ, ◌/◌, List, [], ◌∷◌, length, replicate, not, ◌&&◌, ◌||◌, Bool, true, false, if◌then◌else◌,
  Option, none, some,
}
use libevent_1_4_3_stable_le.Base.Int.{ℤ, pos, minus_one, ltb_ℤ, leb_ℤ, eqb_ℤ, pos_part}
use libevent_1_4_3_stable_le.Base.Run.{fault, Run, ok, exits}
use libevent_1_4_3_stable_le.MinHeap.{ctor, elem_init}
use libevent_1_4_3_stable_le.Event.Time.{Timeval, timeradd, timersub}
use libevent_1_4_3_stable_le.Event.{Mask, Flags, Event, EventBase, put}

abbrev pub no_flags : Flags
no_flags = record {
  timeout = false;
  inserted = false;
  signal = false;
  active = false;
  internal = false;
  init = false;
}

abbrev pub no_mask : Mask
no_mask = record { timeout = false; read = false; write = false; signal = false; persist = false }

-- `ev_flags == EVLIST_INIT`
abbrev pub only_init : Flags → Bool
only_init f = f.init && not (f.timeout || f.inserted || f.signal || f.active || f.internal)

module _ {E : Type 0} where
  -- `event_base_priority_init`. What `calloc` and `malloc` refuse exits; they grant it here.
  unfoldable pub priority_init : EventBase E → ℕ → ℤ × EventBase E
  priority_init b npriorities =
      if eqb_ℤ b.event_count_active (pos 0)
      then (pos 0, record b { activequeues = replicate npriorities [] })
      else (minus_one, b)

  -- What the first kernel interface that can be initialised gives.
  unfoldable pub first_init : List (Option E) → Option E
  first_init [] = none
  first_init (none ∷ inits) = first_init inits
  first_init (some evbase ∷ inits) = some evbase

  -- `event_base_new`. `events` and `p` are what stands in the memory, and `now` is what `gettime` gives.
  unfoldable pub base_new :
      List (Option E) → (ℕ → Event) → (ℕ → ℕ) → (ℕ → ℕ) → Timeval → Run (EventBase E)
  unfolding priority_init first_init
  base_new inits events p idx now = elim (first_init inits) [
    | none ↦ exits
    | some evbase ↦
        ok
          (priority_init
            (record {
              events = events;
              evbase = evbase;
              event_count = pos 0;
              event_count_active = pos 0;
              event_gotterm = false;
              event_break = false;
              event_gotsig = false;
              activequeues = [];
              signalqueue = [];
              eventqueue = [];
              event_tv = now;
              timeheap = ctor p idx;
              ncalls = none;
            })
            1).1
  ]

  -- `event_set`, where the current base is this one.
  unfoldable pub event_set : EventBase E → ℕ → ℤ → Mask → EventBase E
  event_set b e fd events =
      let v = b.events e in
      let c = put b e (record v {
        ev_base = true;
        ev_fd = fd;
        ev_events = events;
        ev_res = no_mask;
        ev_flags = record no_flags { init = true };
        ev_ncalls = 0;
        ev_pncalls = false;
        ev_pri = length b.activequeues / 2;
      }) in
      record c { timeheap = elem_init b.timeheap e }

  -- `event_base_set`
  unfoldable pub base_set : EventBase E → ℕ → ℤ × EventBase E
  base_set b e =
      let v = b.events e in
      if only_init v.ev_flags
      then (pos 0, put b e (record v { ev_base = true; ev_pri = length b.activequeues / 2 }))
      else (minus_one, b)

  -- The number of priorities is read from the event's base.
  unfoldable pub priority_set : EventBase E → ℕ → ℤ → Run (ℤ × EventBase E)
  priority_set b e pri =
      let v = b.events e in
      let failed : ℤ × EventBase E = (minus_one, b) in
      let set : ℤ × EventBase E = (pos 0, put b e (record v { ev_pri = pos_part pri })) in
      let checked = ok (if leb_ℤ (pos (length b.activequeues)) pri then failed else set) in
      if v.ev_flags.active || ltb_ℤ pri (pos 0)
      then ok failed
      else if v.ev_base
      then checked
      else fault

  -- The bits of `flags & event` in `event_pending`.
  unfoldable pub pending_mask : EventBase E → ℕ → Mask → Mask
  pending_mask b e event =
      let v = b.events e in
      let f = v.ev_flags in
      record {
        timeout = event.timeout && ((f.active && v.ev_res.timeout) || f.timeout);
        read = event.read && ((f.inserted && v.ev_events.read) || (f.active && v.ev_res.read));
        write = event.write && ((f.inserted && v.ev_events.write) || (f.active && v.ev_res.write));
        signal = event.signal && ((f.active && v.ev_res.signal) || f.signal);
        persist = false;
      }

  -- `event_pending`, and what it stores through `tv`, if that is not null, for an event with a timeout. `now` is
  -- the time of `gettime`, `real` that of `gettimeofday`.
  unfoldable pub event_pending :
      Timeval → Timeval → EventBase E → ℕ → Mask → Bool → Mask × Option Timeval
  unfolding pending_mask
  event_pending now real b e event has_tv =
      let mask = pending_mask b e event in
      (
        mask,
        if has_tv && mask.timeout
            then some (timeradd real (timersub (b.events e).ev_timeout now))
            else none,
      )

  unfoldable pub haveevents : EventBase E → Bool
  haveevents b = ltb_ℤ (pos 0) b.event_count

  -- `event_base_loopbreak` and `event_loopexit_cb`
  unfoldable pub loopbreak : EventBase E → EventBase E
  loopbreak b = record b { event_break = true }

  unfoldable pub loopexit_cb : EventBase E → EventBase E
  loopexit_cb b = record b { event_gotterm = true }
