-- ===== src/Event/Timeouts.antt =====
-- event.c: how long to wait for the next timeout, the timeouts that are over, and a clock that goes back.
use libevent_1_4_3_stable_le.Base.{
  ℕ, zero, suc, ◌+◌, update, ◌&&◌, Bool, true, false, if◌then◌else◌, Option, none, some,
}
use libevent_1_4_3_stable_le.Base.Int.{ℤ, pos, minus_one, leb_ℤ}
use libevent_1_4_3_stable_le.Base.Run.{Run, ok, exits, diverges, ◌>>=◌}
use libevent_1_4_3_stable_le.MinHeap.{top, is_empty}
use libevent_1_4_3_stable_le.Event.Time.{Timeval, timersub, time_lt, time_le, zero_time}
use libevent_1_4_3_stable_le.Event.{Mask, Event, EventBase, Evsel, event_del, event_active}
use libevent_1_4_3_stable_le.Event.Setup.{no_mask}

abbrev pub timeout_mask : Mask
timeout_mask = record no_mask { timeout = true }

-- How long to wait for an event with this timeout. The `assert`s are on the result.
unfoldable pub wait_until : Timeval → Timeval → Run Timeval
wait_until at now =
    let tv = timersub at now in
    let checked = if leb_ℤ (pos 0) tv.tv_sec && leb_ℤ (pos 0) tv.tv_usec then ok tv else exits in
    if time_le at now then ok zero_time else checked

-- The timeouts of the `left` events from the place `i` of the heap's array on, with `off` taken off.
unfoldable pub shift_timeouts : Timeval → (ℕ → ℕ) → ℕ → ℕ → (ℕ → Event) → ℕ → Event
shift_timeouts off p zero i events = events
shift_timeouts off p (suc left) i events =
    let v = events (p i) in
    shift_timeouts off p left (i + 1)
      (update events (p i) (record v { ev_timeout = timersub v.ev_timeout off }))

module _ {E : Type 0} where
  -- `timeout_next`, with what the time is that `tv_p` points to, or `none` for a null pointer. `now` is
  -- `none` if `gettime` fails, which leaves `tv`.
  unfoldable pub timeout_next : EventBase E → Option Timeval → Timeval → Run (ℤ × Option Timeval)
  unfolding wait_until
  timeout_next b now tv = do
    first ← top b.timeheap
    elim first [
      | none ↦ ok (pos 0, none)
      | some e ↦ elim now [
        | none ↦ ok (minus_one, some tv)
        | some at ↦ wait_until (b.events e).ev_timeout at >>= λ w. ok (pos 0, some w)
      ]
    ]

  -- `timeout_correct`, where `tv` is what `gettime` gives.
  unfoldable pub timeout_correct : Bool → EventBase E → Timeval → EventBase E
  unfolding shift_timeouts
  timeout_correct use_monotonic b tv =
      let off = timersub b.event_tv tv in
      let shifted = shift_timeouts off b.timeheap.p b.timeheap.n 0 b.events in
      if use_monotonic
      then b
      else if time_le b.event_tv tv
      then record b { event_tv = tv }
      else record b { events = shifted }

module _ {E : Type 0} (granted : ℕ → Bool) (evsel : Evsel E) where
  -- The `while` loop of `timeout_process`.
  unfoldable pub process_loop : ℕ → EventBase E → Timeval → Run (EventBase E)
  process_loop zero b now = diverges
  process_loop (suc fuel) b now = do
    first ← top b.timeheap
    elim first [
      | none ↦ ok b
      | some e ↦ elim (time_lt now (b.events e).ev_timeout) [
        | true ↦ ok b
        | false ↦ event_del evsel b e >>= λ (r, c).
            event_active granted c e timeout_mask 1 >>= λ d. process_loop fuel d now
      ]
    ]

  -- Each round takes an event out of the heap.
  unfoldable pub timeout_process : EventBase E → Timeval → Run (EventBase E)
  timeout_process b now =
      if is_empty b.timeheap then ok b else process_loop (suc b.timeheap.n) b now
