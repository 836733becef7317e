-- ===== src/Event/Loop.antt =====
-- event.c: the calls of the callbacks of the active events, and the loop. `evsignal_base`, which only signal.c
-- reads, is not in the model.
use libevent_1_4_3_stable_le.Base.{
  ℕ, zero, suc, ◌+◌, List, [], ◌∷◌, get_or, not, ◌&&◌, ◌||◌, Bool, true, false, if◌then◌else◌,
  Option, none, some,
}
use libevent_1_4_3_stable_le.Base.Int.{ℤ, pos, minus_one, eqb_ℤ}
use libevent_1_4_3_stable_le.Base.Run.{Run, ok, fault, exits, diverges, ◌>>=◌}
use libevent_1_4_3_stable_le.Event.Time.{Timeval, zero_time}
use libevent_1_4_3_stable_le.Event.{actives, EventBase, Evsel, put, queue_remove, event_del}
use libevent_1_4_3_stable_le.Event.Setup.{haveevents}
use libevent_1_4_3_stable_le.Event.Timeouts.{timeout_next, timeout_correct, timeout_process}

-- The first queue that is not empty, counted from `i`.
unfoldable pub first_active : List (List ℕ) → ℕ → Option ℕ
first_active [] i = none
first_active ([] ∷ queues) i = first_active queues (i + 1)
first_active ((e ∷ q) ∷ queues) i = some i

module _ {E : Type 0} (callback : ℕ → EventBase E → Run (EventBase E)) where
  -- The `while (ncalls)` loop: whether `event_process_active` returns at once, and the base.
  unfoldable pub run_calls : ℕ → EventBase E → ℕ → Run (Bool × EventBase E)
  run_calls zero b e = diverges
  run_calls (suc fuel) b e = elim b.ncalls [
    | none ↦ fault
    | some zero ↦ ok (false, b)
    | some (suc n) ↦
        callback e (put (record b { ncalls = some n }) e (record (b.events e) { ev_ncalls = n }))
        >>= λ c. elim (c.event_gotsig || c.event_break) [
          | true ↦ ok (true, c)
          | false ↦ run_calls fuel c e
        ]
  ]

  -- The event is taken off the active ones, or deleted unless it persists; then it is called.
  unfoldable pub run_event : Evsel E → EventBase E → ℕ → Run (Bool × EventBase E)
  unfolding run_calls
  run_event evsel b e = do
    c ←
        if (b.events e).ev_events.persist
        then queue_remove b e actives
        else (event_del evsel b e >>= λ (r, d). ok d)
    let v = c.events e
    run_calls (suc v.ev_ncalls)
        (put (record c { ncalls = some v.ev_ncalls }) e (record v { ev_pncalls = true })) e

  -- The `for` loop over the queue `i`. It goes on while callbacks make events active.
  unfoldable pub run_queue : Evsel E → ℕ → EventBase E → ℕ → Run (EventBase E)
  unfolding run_event
  run_queue evsel zero b i = diverges
  run_queue evsel (suc fuel) b i = elim (get_or b.activequeues i []) [
    | [] ↦ ok b
    | e ∷ q ↦ run_event evsel b e >>= λ (stop, c). elim stop [
      | true ↦ ok c
      | false ↦ run_queue evsel fuel c i
    ]
  ]

  -- The variable `ncalls` is gone when `event_process_active` returns.
  unfoldable pub process_active : Evsel E → ℕ → EventBase E → Run (EventBase E)
  unfolding run_queue first_active
  process_active evsel fuel b = elim (first_active b.activequeues 0) [
    | none ↦ exits
    | some i ↦ run_queue evsel fuel b i >>= λ c. ok (record c { ncalls = none })
  ]

-- What one round of the loop meets outside: the times that `gettime` gives to `timeout_correct`,
-- `timeout_next` and `timeout_process`, and what `event_sigcb` returns, if it is set. No signal arrives while that runs.
pub record Round : Type 0 where
  pub correct_now : Timeval
  pub next_now : Option Timeval
  pub process_now : Timeval
  pub sigcb : Option ℤ

-- EVLOOP_ONCE and EVLOOP_NONBLOCK
pub record LoopFlags : Type 0 where
  pub once : Bool
  pub nonblock : Bool

module _ {E : Type 0} (granted : ℕ → Bool) (evsel : Evsel E)
    (callback : ℕ → EventBase E → Run (EventBase E)) (use_monotonic : Bool)
    (flags : LoopFlags) where
  -- After `dispatch`: the loop's result if it ends here, or `none` if it goes on.
  unfoldable pub after_dispatch : ℕ → Round → ℤ × EventBase E → Run (Option ℤ × EventBase E)
  after_dispatch fuel round (res, b) =
      let process : Run (Option ℤ × EventBase E) = do
        c ← timeout_process granted evsel b round.process_now
        let idle = eqb_ℤ c.event_count_active (pos 0)
        let active : Run (Option ℤ × EventBase E) = do
          d ← process_active callback evsel fuel c
          let done = eqb_ℤ d.event_count_active (pos 0) && flags.once
          ok (if done then some (pos 0) else none, d)
        if idle then ok (if flags.nonblock then some (pos 0) else none, c) else active
      in if eqb_ℤ res minus_one then ok (some minus_one, b) else process

  -- From `timeout_correct` to the end of the round.
  unfoldable pub wait_round : ℕ → Round → EventBase E → Run (Option ℤ × EventBase E)
  unfolding after_dispatch
  wait_round fuel round b = do
    let c = timeout_correct use_monotonic b round.correct_now
    let blocks = eqb_ℤ c.event_count_active (pos 0) && not flags.nonblock
    (r, tv) ←
        if blocks
        then timeout_next c round.next_now round.correct_now
        else ok (pos 0, some zero_time)
    let polled = evsel.dispatch c tv >>= after_dispatch fuel round
    if haveevents c then polled else ok (some (pos 1), c)

  -- The tests at the start of a round.
  unfoldable pub loop_round : ℕ → Round → EventBase E → Run (Option ℤ × EventBase E)
  unfolding wait_round
  loop_round fuel round b =
      let quiet = record b { event_gotsig = false } in
      let failed : Bool = elim round.sigcb [ none ↦ false | some r ↦ eqb_ℤ r minus_one ] in
      let signalled = if failed then ok (some minus_one, quiet) else wait_round fuel round quiet in
      let checked = if b.event_gotsig then signalled else wait_round fuel round b in
      if b.event_gotterm
      then ok (some (pos 0), record b { event_gotterm = false })
      else if b.event_break
      then ok (some (pos 0), record b { event_break = false })
      else checked

  -- `event_base_loop` for as many rounds as are given: its result, or `none` if it still runs.
  unfoldable pub base_loop : ℕ → List Round → EventBase E → Run (Option ℤ × EventBase E)
  unfolding loop_round
  base_loop fuel [] b = ok (none, b)
  base_loop fuel (round ∷ rounds) b = loop_round fuel round b >>= λ (r, c). elim r [
    | some result ↦ ok (some result, c)
    | none ↦ base_loop fuel rounds c
  ]
