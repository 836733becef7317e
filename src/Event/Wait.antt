-- ===== src/Event/Wait.antt =====
-- `timeout_next`: how long the kernel interface may wait.
use libevent_1_4_3_stable_le.Base.{
  ℕ, Bool, ◌≡◌, ◌⊎◌, refl, true, false, none, some, arith, inl, inr, Bool-cases,
}
use libevent_1_4_3_stable_le.Base.Int.{pos}
use libevent_1_4_3_stable_le.Base.Run.{
  ok, Returns, returns, Returns-map, Returns-value, Returns-bind, Returns-if,
}
use libevent_1_4_3_stable_le.MinHeap.Remove.{root_least, top_cases}
use libevent_1_4_3_stable_le.Event.Time.{
  Timeval, timersub, timeradd, time_lt, time_le, zero_time, IsNormal, time-IsOrder,
  time_le-eq-not-lt, timersub_later, timeradd-timersub, timeradd-zero_time, time_trans,
}
use libevent_1_4_3_stable_le.Event.{EventBase, Evsel, greater}
use libevent_1_4_3_stable_le.Event.Timeouts.{wait_until, timeout_next, timeout_process}
use libevent_1_4_3_stable_le.Event.Invariant.{IsBase}
use libevent_1_4_3_stable_le.Event.Expire.{in_heap_timed, Ready, expired, timeout_process-Processed}
use libevent_1_4_3_stable_le.Event.Clock.{Normal}
use libevent_1_4_3_stable_le.Event.Changes.{IsEvsel}

-- The wait from `now` to the time `at` of an event: none at all if that has come, and else just so much.
abbrev WaitFor : Timeval → Timeval → Timeval → Type 0
WaitFor now at w =
    ((time_lt now at ≡ false) × (w ≡ zero_time)) ⊎ ((time_lt now at ≡ true) × (timeradd now w ≡ at))

wait_until-WaitFor :
    (at now : Timeval) → IsNormal at → IsNormal now → Returns (WaitFor now at) (wait_until at now)
unfolding wait_until
wait_until-WaitFor at now n m =
    Returns-if (time_le at now)
      (λ come. returns zero_time (inl (ground (arith, time_le-eq-not-lt at now), refl)))
      (λ later. rw (timersub_later at now n m later) (
        returns (timersub at now)
          (inr (ground (arith, time_le-eq-not-lt at now), timeradd-timersub at now n m))))

-- When the wait is over, the time of the event has come.
wait_over :
    (at now later w : Timeval)
    → IsNormal now
    → WaitFor now at w
    → time_lt later (timeradd now w) ≡ false
    → time_lt later at ≡ false
wait_over at now later w m (inl (come, none')) over =
    time_trans at now later come (rw (none', timeradd-zero_time now m) at over)
wait_over at now later w m (inr (_, same)) over = rw same at over

module _ {E : Type 0} where
  -- The wait is for the event `e`, and none has an earlier timeout.
  pub record NextTimeout (b : EventBase E) (now w : Timeval) (e : ℕ) : Type 0 where
    pub waits : (b.events e).ev_flags.timeout ≡ true
    pub wait : WaitFor now (b.events e).ev_timeout w
    pub earliest :
        (x : ℕ)
        → (b.events x).ev_flags.timeout ≡ true
        → time_lt (b.events x).ev_timeout (b.events e).ev_timeout ≡ false

  -- In a well-formed base whose timeouts are proper times, and with a proper time from the clock,
  -- `timeout_next` returns 0. If no event has a timeout, the wait is without limit. Else it is the time to the
  -- earliest of the timeouts, or 0 if that has come.
  pub timeout_next_lem :
      (b : EventBase E) (now tv : Timeval)
      → IsBase b
      → Normal b
      → IsNormal now
      → Returns
          (λ (r, wait).
            (r ≡ pos 0)
            × (((wait ≡ none) × ((x : ℕ) → (b.events x).ev_flags.timeout ≡ false))
                ⊎ ((e : ℕ) × (w : Timeval) × (wait ≡ some w) × NextTimeout b now w e)))
          (timeout_next b (some now) tv)
  unfolding timeout_next
  timeout_next_lem b now tv v n m = elim (top_cases (greater b.events) b.timeheap v.heap) [
    | inl (empty, none') ↦ rw none' (
        returns (pos 0, none)
          (
            refl,
            inl (
              refl,
              λ x. elim (Bool-cases (b.events x).ev_flags.timeout) [
                | inl on ↦ absurd (omega (arith, v.timed x on))
                | inr off ↦ off
              ],
            ),
          ))
    | inr (some', first) ↦
        let e = b.timeheap.p 0 in
        let index : b.timeheap.idx e ≡ 0 = v.heap.indexed 0 some' in
        let on = in_heap_timed v e (rw index (some', refl)) in
        rw first (
          Returns-bind (wait_until-WaitFor (b.events e).ev_timeout now (n.waiting e on) m) λ w h.
            returns (pos 0, some w)
              (
                refl,
                inr (
                  e,
                  w,
                  refl,
                  record {
                    waits = on;
                    wait = h;
                    earliest = λ x on'.
                        root_least (time-IsOrder λ y. (b.events y).ev_timeout) v.heap x
                          (v.timed x on');
                  },
                ),
              ))
  ]

module _ {E : Type 0} (granted : ℕ → Bool) (evsel : Evsel E) (law : IsEvsel evsel) where
  -- With a kernel interface that meets `IsEvsel` and accepts the events that have a timeout, a wait that
  -- `timeout_next` gave at the time `now` is long enough: at any time from its end on,
  -- `timeout_process` makes an event active that was waiting for its timeout.
  pub timeout_next-timeout_process :
      (b : EventBase E) (now later tv w : Timeval)
      → IsBase b
      → Ready evsel b
      → Normal b
      → IsNormal now
      → timeout_next b (some now) tv ≡ ok (pos 0, some w)
      → time_lt later (timeradd now w) ≡ false
      → Returns
          (λ c.
            (e : ℕ) × ((b.events e).ev_flags.timeout ≡ true) × (c.events e ≡ expired (b.events e)))
          (timeout_process granted evsel b later)
  timeout_next-timeout_process b now later tv w v ready n m given over =
      let (returned, cases) =
        Returns-value (pos 0, some w) given (timeout_next_lem b now tv v n m) in
      elim cases [
        | inl (none', _) ↦ absurd (ground arith)
        | inr (e, w', same, next) ↦
            Returns-map (timeout_process-Processed granted evsel law later b v ready) λ c p.
              let same' : w ≡ w' = cc same in
              let come =
                wait_over (b.events e).ev_timeout now later w m (rw same' next.wait) over in
              (
                e,
                next.waits,
                rw (next.waits, come) at (p.outcome e (v.timed_external e next.waits)),
              )
      ]
