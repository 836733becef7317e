-- ===== src/Event/Priorities.antt =====
-- `event_process_active` takes the queue of the highest priority that has active events.
use libevent_1_4_3_stable_le.Base.{
  ℕ, zero, suc, ◌+◌, ◌<◌, ◌≡◌, ◌≢◌, refl, List, [], ◌∷◌, length, get_or, none, some, arith,
}
use libevent_1_4_3_stable_le.Base.Int.{pos}
use libevent_1_4_3_stable_le.Base.Run.{Run, ok, ◌>>=◌}
use libevent_1_4_3_stable_le.Event.{EventBase, Evsel}
use libevent_1_4_3_stable_le.Event.Loop.{first_active, run_queue, process_active}
use libevent_1_4_3_stable_le.Event.Invariant.{IsBase, length_all}

-- The first of the queues that has events is the one of the priority `i`.
pub record FirstQueue (queues : List (List ℕ)) (i : ℕ) : Type 0 where
  pub inside : i < length queues
  pub some_event : 0 < length (get_or queues i [])
  pub none_before : (j : ℕ) → j < i → get_or queues j [] ≡ []

-- One empty queue more in front.
behind_empty :
    (queues : List (List ℕ)) (i : ℕ) → FirstQueue queues i → FirstQueue ([] ∷ queues) (suc i)
behind_empty queues i f = record {
  inside = omega (arith, f.inside);
  some_event = f.some_event;
  none_before = before;
}
  where
    before : (j : ℕ) → j < suc i → get_or ([] ∷ queues) j [] ≡ []
    before zero lt = refl
    before (suc j) lt = f.none_before j (omega arith)

first_active-FirstQueue :
    (queues : List (List ℕ)) (from : ℕ)
    → 0 < length_all queues
    → (i : ℕ) × (first_active queues from ≡ some (from + i)) × FirstQueue queues i
unfolding first_active
first_active-FirstQueue [] from more = absurd (omega arith)
first_active-FirstQueue ([] ∷ queues) from more =
    let (i, found, f) = first_active-FirstQueue queues (from + 1) (omega arith) in
    let next : from + 1 + i ≡ from + suc i = omega arith in
    (suc i, rw (found, next) refl, behind_empty queues i f)
first_active-FirstQueue ((e ∷ q) ∷ queues) from more =
    let same : from ≡ from + 0 = omega arith in
    (
      0,
      ground arith,
      record {
        inside = omega arith;
        some_event = omega arith;
        none_before = λ j lt. absurd (omega arith);
      },
    )

module _ {E : Type 0} (callback : ℕ → EventBase E → Run (EventBase E)) (evsel : Evsel E) where
  -- In a well-formed base that counts active events, the `assert` of `event_process_active` holds: the queue
  -- that it works through has events, and no queue of a smaller number, which is a higher priority, has any.
  pub process_active-FirstQueue :
      (fuel : ℕ) (b : EventBase E)
      → IsBase b
      → b.event_count_active ≢ pos 0
      → (i : ℕ) × FirstQueue b.activequeues i
        × (process_active callback evsel fuel b
            ≡ (run_queue callback evsel fuel b i >>= λ c. ok (record c { ncalls = none })))
  unfolding process_active
  process_active-FirstQueue fuel b v some' =
      let more : length_all b.activequeues ≢ 0 = λ e. some' (rw (v.total_active, e) refl) in
      let (i, found, f) = first_active-FirstQueue b.activequeues 0 (omega arith) in
      let at : first_active b.activequeues 0 ≡ some i = ground arith in
      (i, f, rw (process_active, at) refl)
