-- ===== src/Event/Put.antt =====
-- Writing to an event what the queues do not depend on, and counting an event more.
use libevent_1_4_3_stable_le.Base.{
  ℕ, ◌+◌, ◌≡◌, ◌⊎◌, inl, inr, refl, ap, update, Bool, true, false, if◌then◌else◌, none, arith,
  Bool-cases,
}
use libevent_1_4_3_stable_le.Base.Int.{ℤ, pos, ◌+ℤ◌, +ℤ_parts, eq_of_parts}
use libevent_1_4_3_stable_le.MinHeap.Order.{In}
use libevent_1_4_3_stable_le.Event.{Event, EventBase, greater, put}
use libevent_1_4_3_stable_le.Event.Invariant.{
  IsBase, Updated, external_cong, external_all_cong, SameInternal,
}
use libevent_1_4_3_stable_le.Event.Agree.{IsHeap-cong, internal_same}

-- One event more, unless it is internal.
pub count_up :
    (t : Bool) (c : ℤ) (n m : ℕ)
    → c ≡ pos n
    → m ≡ n + (if t then 0 else 1)
    → (if t then c else c +ℤ pos 1) ≡ pos m
count_up t c n m e h = ground (arith, +ℤ_parts c (pos 1), eq_of_parts (c +ℤ pos 1) (pos m))

module _ {E : Type 0} {b : EventBase E} (v : IsBase b) (e : ℕ) where
  -- Writing to an event what the queues do not depend on.
  pub put-Updated :
      (w : Event)
      → w.ev_flags ≡ (b.events e).ev_flags
      → (w.ev_flags.timeout ≡ true → w.ev_timeout ≡ (b.events e).ev_timeout)
      → (w.ev_flags.active ≡ true → w.ev_pri ≡ (b.events e).ev_pri)
      → (b.ncalls ≡ none → (w.ev_pncalls ≡ false) ⊎ (w.ev_ncalls ≡ 0))
      → Updated b e w (put b e w)
  put-Updated w flags time pri idle = record {
    valid = record {
      heap =
          IsHeap-cong (greater b.events) (greater f) b.timeheap
            (λ x y hx hy. rw (at x hx, at y hy) refl) v.heap;
      timed = λ x. ground (arith, v.timed x, flags);
      untimed = λ x. ground (arith, v.untimed x, flags);
      inserted = λ x. ground (arith, v.inserted x, flags);
      signalled = λ x. ground (arith, v.signalled x, flags);
      active = λ x i. ground (arith, v.active x i, flags, pri);
      total_active = v.total_active;
      timed_external = λ x. ground (arith, v.timed_external x, flags);
      total =
          rw
            (
              external_cong f b.events b.eventqueue same,
              external_cong f b.events b.signalqueue same,
              external_all_cong f b.events b.activequeues same,
            )
            v.total;
      idle = λ none' x. ground (arith, v.idle none' x, idle none');
    };
    here = ground arith;
    others = λ x ne. ground arith;
    timers = rw flags refl;
    same_calls = refl;
    same_queues = refl;
    room = omega arith;
  }
    where
      f : ℕ → Event
      f = update b.events e w

      same : SameInternal f b.events
      same = internal_same v e w (ap (λ g. g.internal) flags)

      at : (x : ℕ) → In b.timeheap x → (f x).ev_timeout ≡ (b.events x).ev_timeout
      at x (lt, place) = elim (Bool-cases (b.events x).ev_flags.timeout) [
        | inl on ↦ ground (arith, time, flags)
        | inr off ↦ ground (arith, v.untimed x off, v.heap.small)
      ]
