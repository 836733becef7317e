-- ===== src/Event/Agree.antt =====
-- What the heap and the counts see of the events, and counting an event less.
use libevent_1_4_3_stable_le.Base.{
  ℕ, zero, suc, ◌+◌, ◌-◌, ◌/◌, ◌<◌, ◌≡◌, refl, sym, ◌∙◌, List, [], ◌∷◌, length, get_or, update,
  Bool, if◌then◌else◌, arith,
}
use libevent_1_4_3_stable_le.Base.Int.{ℤ, pos, minus_one, ◌+ℤ◌, +ℤ_parts, eq_of_parts}
use libevent_1_4_3_stable_le.MinHeap.{Heap}
use libevent_1_4_3_stable_le.MinHeap.Order.{IsHeap, In}
use libevent_1_4_3_stable_le.Event.{Event, EventBase, greater}
use libevent_1_4_3_stable_le.Event.Invariant.{IsBase, occurs, SameInternal}

-- A heap stays one under another comparison that agrees on its events.
pub IsHeap-cong :
    (g g' : ℕ → ℕ → Bool) (s : Heap)
    → ((x y : ℕ) → In s x → In s y → g x y ≡ g' x y)
    → IsHeap g s
    → IsHeap g' s
IsHeap-cong g g' s same h = record {
  ordered = λ c pos' lt.
      sym (same (s.p ((c - 1) / 2)) (s.p c) (place ((c - 1) / 2) (omega arith)) (place c lt))
      ∙ h.ordered c pos' lt;
  indexed = h.indexed;
  allocated = h.allocated;
  small = h.small;
}
  where
    place : (i : ℕ) → i < s.n → In s (s.p i)
    place i lt = ground (arith, h.indexed i)

module _ {E : Type 0} {b : EventBase E} (v : IsBase b) (e : ℕ) where
  -- What looks at the comparison or at the internal events only does not see a change of the flags.
  pub heap_same :
      (w : Event) (s : Heap)
      → w.ev_timeout ≡ (b.events e).ev_timeout
      → IsHeap (greater b.events) s
      → IsHeap (greater (update b.events e w)) s
  heap_same w s same h =
      IsHeap-cong (greater b.events) (greater (update b.events e w)) s (λ x y hx hy. ap₂' x y) h
    where
      at : (x : ℕ) → (update b.events e w x).ev_timeout ≡ (b.events x).ev_timeout
      at x = ground (arith, same)

      ap₂' : (x y : ℕ) → greater b.events x y ≡ greater (update b.events e w) x y
      ap₂' x y = rw (at x, at y) refl

  pub internal_same :
      (w : Event)
      → w.ev_flags.internal ≡ (b.events e).ev_flags.internal
      → SameInternal (update b.events e w) b.events
  internal_same w same x = ground (arith, same)

-- A queue that an event stands on is in the table.
pub get_or_inside :
    (queues : List (List ℕ)) (i e : ℕ) → 0 < occurs e (get_or queues i []) → i < length queues
get_or_inside [] i e h = absurd (omega arith)
get_or_inside (q ∷ queues) zero e h = omega arith
get_or_inside (q ∷ queues) (suc i) e h = omega (arith, get_or_inside queues i e h)

-- One event less, unless it is internal.
pub count_down :
    (t : Bool) (c : ℤ) (n m : ℕ)
    → c ≡ pos n
    → m + (if t then 0 else 1) ≡ n
    → (if t then c else c +ℤ minus_one) ≡ pos m
count_down t c n m e h = ground (arith, +ℤ_parts c minus_one, eq_of_parts (c +ℤ minus_one) (pos m))
