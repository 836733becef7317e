-- ===== src/Event/Samples.antt =====
-- A base with one event and select.c for its kernel interface, on a system that refuses every signal.
use libevent_1_4_3_stable_le.Base.{
  ℕ, ◌≡◌, refl, List, [], ◌∷◌, Bool, true, false, Option, none, some, arith,
}
use libevent_1_4_3_stable_le.Base.Int.{pos, minus_one, ◌+ℤ◌, ◌-ℤ◌}
use libevent_1_4_3_stable_le.Base.Run.{ok, value_or, Returns-made}
use libevent_1_4_3_stable_le.MinHeap.{
  no_index, ctor, elem_init, reserve, push, top, erase, is_empty, shift_down,
}
use libevent_1_4_3_stable_le.Event.{
  Mask, Event, EventBase, Evsel, event_add, add_based, event_del, event_active, add_timeout,
  make_room, cancel_timeout, schedule, register, add_to_evsel, queue_insert, add_to, queue_remove,
  remove_if_on, abort_calls, del_from_evsel,
}
use libevent_1_4_3_stable_le.Event.Time.{
  time_lt, time_le, Timeval, IsNormal, timeradd, timersub, timeradd-IsNormal,
}
use libevent_1_4_3_stable_le.Event.Setup.{
  no_mask, no_flags, first_init, priority_init, base_new, event_set,
}
use libevent_1_4_3_stable_le.Event.Timeouts.{
  wait_until, process_loop, timeout_next, timeout_process,
}
use libevent_1_4_3_stable_le.Event.Changes.{IsEvsel}
use libevent_1_4_3_stable_le.Event.Select.{
  Selectop, widen, needed, reach_fd, select_add, select_del, mark_read, mark_write,
}
use libevent_1_4_3_stable_le.Event.Selecting.{Fitted, select_evsel, select_evsel-IsEvsel}
use libevent_1_4_3_stable_le.Event.Expire.{Ready}
use libevent_1_4_3_stable_le.Event.Clock.{Normal}
use libevent_1_4_3_stable_le.Event.Calls.{Call, set, add, process, run_call, Allowed, IsSound}
use libevent_1_4_3_stable_le.Event.Reach.{Reach, start, next, Reach-IsSound, run_call-Reach}

-- The state that `select_init` leaves.
abbrev pub new_sop : Selectop
new_sop = record {
  event_fds = 0;
  event_fdsz = 8;
  event_readset_in = λ i. false;
  event_writeset_in = λ i. false;
  event_r_by_fd = λ i. none;
  event_w_by_fd = λ i. none;
}

abbrev pub new_fitted : Fitted
new_fitted = record {
  sop = new_sop;
  fits = record { some_words = omega arith; words = refl; highest = omega arith };
}

abbrev pub no_signals : Evsel Fitted
no_signals = record {
  accepts = λ fd events. false;
  add = λ b e. ok (minus_one, b);
  del = λ b e. ok (minus_one, b);
  dispatch = λ b tv. ok (pos 0, b);
}

abbrev pub selects : Evsel Fitted
selects = select_evsel (λ k len. true) no_signals

pub selects-IsEvsel : IsEvsel selects
selects-IsEvsel = select_evsel-IsEvsel (λ k len. true) no_signals

abbrev pub all_granted : ℕ → Bool
all_granted k = true

abbrev pub seconds : ℕ → Timeval
seconds n = record { tv_sec = pos n; tv_usec = pos 0 }

abbrev pub cleared_event : Event
cleared_event = record {
  ev_base = false;
  ev_fd = pos 0;
  ev_events = no_mask;
  ev_ncalls = 0;
  ev_pncalls = false;
  ev_timeout = seconds 0;
  ev_pri = 0;
  ev_res = no_mask;
  ev_flags = no_flags;
}

abbrev pub inits : List (Option Fitted)
inits = none ∷ some new_fitted ∷ []

-- Made at the time 100.
abbrev pub new_base : EventBase Fitted
new_base = record {
  events = λ x. cleared_event;
  evbase = new_fitted;
  event_count = pos 0;
  event_count_active = pos 0;
  event_gotterm = false;
  event_break = false;
  event_gotsig = false;
  activequeues = [] ∷ [];
  signalqueue = [];
  eventqueue = [];
  event_tv = seconds 100;
  timeheap = ctor (λ i. 0) (λ x. no_index);
  ncalls = none;
}

pub new_base-Reach : Reach all_granted selects new_base
unfolding base_new priority_init first_init
new_base-Reach =
    start new_fitted inits (λ x. cleared_event) (λ i. 0) (λ x. no_index) (seconds 100) new_base refl
      (λ x. record {
        off = record {
          timeout = refl;
          inserted = refl;
          signal = refl;
          active = refl;
          internal = refl;
        };
        idle = refl;
        no_base = refl;
      })
      (λ x. refl) refl

-- The event 3 waits to read from the descriptor 5.
abbrev pub reading : Mask
reading = record no_mask { read = true }

abbrev pub set_base : EventBase Fitted
set_base = event_set new_base 3 (pos 5) reading

pub set_base-Reach : Reach all_granted selects set_base
unfolding run_call select_evsel
set_base-Reach =
    next new_base set_base (set 3 (pos 5) reading) new_base-Reach
      (
        record { timeout = refl; inserted = refl; signal = refl; active = refl; internal = refl },
        refl,
      )
      refl

-- It waits no longer than 10 seconds from 101 on.
abbrev pub add_call : Call
add_call = add (seconds 101) 3 (some (seconds 10))

pub add_call-Allowed : Allowed selects set_base add_call
unfolding event_set elem_init ctor
add_call-Allowed = (refl, refl, omega arith)

abbrev pub added_base : EventBase Fitted
added_base = value_or set_base (run_call all_granted selects add_call set_base)

pub added_base-Reach : Reach all_granted selects added_base
added_base-Reach = next set_base added_base add_call set_base-Reach add_call-Allowed (
    Returns-made set_base (
      run_call-Reach all_granted selects selects-IsEvsel set_base add_call set_base-Reach
        add_call-Allowed))

pub added_base-IsSound : IsSound selects added_base
added_base-IsSound = Reach-IsSound all_granted selects selects-IsEvsel added_base added_base-Reach

-- The event as it has been added.
pub waiting_event : (added_base.events 3).ev_flags.timeout ≡ true
unfolding run_call select_evsel select_add reach_fd needed widen mark_read mark_write event_add
    add_based add_timeout make_room cancel_timeout schedule register add_to_evsel queue_insert
    add_to push event_set elem_init ctor reserve timeradd
waiting_event = refl

pub seconds-IsNormal : (n : ℕ) → IsNormal (seconds n)
seconds-IsNormal n = record { low = omega arith; high = omega arith }

pub added_base-Ready : Ready selects added_base
added_base-Ready x on =
    let user = added_base-IsSound.valid.timed_external x on in
    let base = added_base-IsSound.attached x user on in
    (base, added_base-IsSound.in_table x user base, added_base-IsSound.accepted x user base)

pub added_base-Normal : Normal added_base
unfolding run_call select_evsel select_add reach_fd needed widen mark_read mark_write event_add
    add_based add_timeout make_room cancel_timeout schedule register add_to_evsel queue_insert
    add_to push event_set elem_init ctor reserve timeradd
added_base-Normal = record {
  clock = seconds-IsNormal 100;
  waiting = λ x on. ground (
    arith,
    timeradd-IsNormal (seconds 101) (seconds 10) (seconds-IsNormal 101) (seconds-IsNormal 10),
  );
}

pub next_wait :
    timeout_next added_base (some (seconds 105)) (seconds 0) ≡ ok (pos 0, some (seconds 6))
unfolding run_call select_evsel select_add reach_fd needed widen mark_read mark_write event_add
    add_based add_timeout make_room cancel_timeout schedule register add_to_evsel queue_insert
    add_to push event_set elem_init ctor reserve timeradd timersub timeout_next top time_le
    wait_until ◌+ℤ◌ ◌-ℤ◌
next_wait = refl

pub wait_is_over : time_lt (seconds 111) (timeradd (seconds 105) (seconds 6)) ≡ false
unfolding time_lt timeradd ◌+ℤ◌ ◌-ℤ◌
wait_is_over = refl

-- Its timeout has made the event active.
abbrev pub active_call : Call
active_call = process (seconds 111)

pub active_base-Reach :
    Reach all_granted selects
      (value_or added_base (run_call all_granted selects active_call added_base))
active_base-Reach = next added_base _ active_call added_base-Reach tt (
    Returns-made added_base (
      run_call-Reach all_granted selects selects-IsEvsel added_base active_call added_base-Reach
        tt))

abbrev pub active_base : EventBase Fitted
active_base = value_or added_base (run_call all_granted selects active_call added_base)

pub active_base_count : active_base.event_count_active ≡ pos 1
unfolding run_call select_evsel select_add reach_fd needed widen mark_read mark_write event_add
    add_based add_timeout make_room cancel_timeout schedule register add_to_evsel queue_insert
    add_to push event_set elem_init ctor reserve timeradd timersub top time_lt timeout_process
    process_loop event_del event_active remove_if_on queue_remove abort_calls del_from_evsel
    select_del erase is_empty shift_down ◌+ℤ◌ ◌-ℤ◌
active_base_count = refl
