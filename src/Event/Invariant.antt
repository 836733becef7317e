-- ===== src/Event/Invariant.antt =====
-- When a base is well formed: the flags of every event say on which queues it stands, and the counts say
-- how many stand there.
use libevent_1_4_3_stable_le.Base.{
  ℕ, zero, suc, ◌+◌, ◌≤◌, ◌<◌, ◌≡◌, ◌≢◌, ◌⊎◌, refl, ap, ◌∙◌, List, [], ◌∷◌, ◌++◌, length, get_or,
  set, ◌==◌, Bool, true, false, if◌then◌else◌, none, arith,
}
use libevent_1_4_3_stable_le.Base.Int.{pos}
use libevent_1_4_3_stable_le.MinHeap.{no_index}
use libevent_1_4_3_stable_le.MinHeap.Order.{IsHeap, In}
use libevent_1_4_3_stable_le.Event.{Event, EventBase, unlink, greater}

-- How often the event stands in the queue.
abbrev pub occurs : ℕ → List ℕ → ℕ
occurs e [] = 0
occurs e (x ∷ q) = (if x == e then 1 else 0) + occurs e q

abbrev pub bit : Bool → ℕ
bit true = 1
bit false = 0

-- How many events of the queue are not internal.
abbrev pub external : (ℕ → Event) → List ℕ → ℕ
external events [] = 0
external events (x ∷ q) = (if (events x).ev_flags.internal then 0 else 1) + external events q

abbrev pub external_all : (ℕ → Event) → List (List ℕ) → ℕ
external_all events [] = 0
external_all events (q ∷ queues) = external events q + external_all events queues

abbrev pub length_all : List (List ℕ) → ℕ
length_all [] = 0
length_all (q ∷ queues) = length q + length_all queues

pub occurs-append : (e : ℕ) (p q : List ℕ) → occurs e (p ++ q) ≡ occurs e p + occurs e q
occurs-append e [] q = omega arith
occurs-append e (x ∷ p) q = ground (arith, occurs-append e p q)

pub external-append :
    (events : ℕ → Event) (p q : List ℕ)
    → external events (p ++ q) ≡ external events p + external events q
external-append events [] q = omega arith
external-append events (x ∷ p) q = ground (arith, external-append events p q)

-- Of an event that stands in the queue, one place goes.
pub occurs-unlink :
    (x e : ℕ) (q : List ℕ)
    → 0 < occurs e q
    → occurs x (unlink e q) + (if e == x then 1 else 0) ≡ occurs x q
unfolding unlink
occurs-unlink x e [] h = absurd (omega arith)
occurs-unlink x e (y ∷ q) h = ground (arith, occurs-unlink x e q)

pub length-unlink : (e : ℕ) (q : List ℕ) → 0 < occurs e q → length (unlink e q) + 1 ≡ length q
unfolding unlink
length-unlink e [] h = absurd (omega arith)
length-unlink e (y ∷ q) h = ground (arith, length-unlink e q)

pub external-unlink :
    (events : ℕ → Event) (e : ℕ) (q : List ℕ)
    → 0 < occurs e q
    → external events (unlink e q) + (if (events e).ev_flags.internal then 0 else 1)
      ≡ external events q
unfolding unlink
external-unlink events e [] h = absurd (omega arith)
external-unlink events e (y ∷ q) h = ground (arith, external-unlink events e q)

-- One queue of the table is put in the place of another.
pub length_all-set :
    (queues : List (List ℕ)) (i : ℕ) (q : List ℕ)
    → i < length queues
    → length_all (set queues i q) + length (get_or queues i []) ≡ length_all queues + length q
length_all-set [] i q h = absurd (omega arith)
length_all-set (p ∷ queues) zero q h = omega arith
length_all-set (p ∷ queues) (suc i) q h = omega (arith, length_all-set queues i q (omega arith))

pub external_all-set :
    (events : ℕ → Event) (queues : List (List ℕ)) (i : ℕ) (q : List ℕ)
    → i < length queues
    → external_all events (set queues i q) + external events (get_or queues i [])
      ≡ external_all events queues + external events q
external_all-set events [] i q h = absurd (omega arith)
external_all-set events (p ∷ queues) zero q h = omega arith
external_all-set events (p ∷ queues) (suc i) q h =
    omega (arith, external_all-set events queues i q (omega arith))

-- The counts look only at which events are internal.
abbrev pub SameInternal : (ℕ → Event) → (ℕ → Event) → Type 0
SameInternal f g = (x : ℕ) → (f x).ev_flags.internal ≡ (g x).ev_flags.internal

pub external_cong : (f g : ℕ → Event) (q : List ℕ) → SameInternal f g → external f q ≡ external g q
external_cong f g [] h = refl
external_cong f g (x ∷ q) h = rw (h x, external_cong f g q h) refl

pub external_all_cong :
    (f g : ℕ → Event) (queues : List (List ℕ))
    → SameInternal f g
    → external_all f queues ≡ external_all g queues
external_all_cong f g [] h = refl
external_all_cong f g (q ∷ queues) h =
    rw (external_cong f g q h, external_all_cong f g queues h) refl

module _ {E : Type 0} where
  pub record IsBase (b : EventBase E) : Type 0 where
    pub heap : IsHeap (greater b.events) b.timeheap
    pub timed : (e : ℕ) → (b.events e).ev_flags.timeout ≡ true → In b.timeheap e
    pub untimed : (e : ℕ) → (b.events e).ev_flags.timeout ≡ false → b.timeheap.idx e ≡ no_index
    pub inserted : (e : ℕ) → occurs e b.eventqueue ≡ bit (b.events e).ev_flags.inserted
    pub signalled : (e : ℕ) → occurs e b.signalqueue ≡ bit (b.events e).ev_flags.signal
    pub active :
        (e i : ℕ)
        → occurs e (get_or b.activequeues i [])
          ≡ (if (b.events e).ev_pri == i then bit (b.events e).ev_flags.active else 0)
    pub total_active : b.event_count_active ≡ pos (length_all b.activequeues)
    -- Timeouts are set for events of the program only, which are not internal.
    pub timed_external :
        (e : ℕ) → (b.events e).ev_flags.timeout ≡ true → (b.events e).ev_flags.internal ≡ false
    pub total :
        b.event_count
        ≡ pos (
            b.timeheap.n
            + external b.events b.eventqueue
            + external b.events b.signalqueue
            + external_all b.events b.activequeues)
    -- No event has calls left to make, but while `event_process_active` runs.
    pub idle :
        b.ncalls ≡ none → (e : ℕ) → ((b.events e).ev_pncalls ≡ false) ⊎ ((b.events e).ev_ncalls ≡ 0)

  -- `c` is the well-formed base `b` with `v` for what the event `e` was.
  pub record Updated (b : EventBase E) (e : ℕ) (v : Event) (c : EventBase E) : Type 0 where
    pub valid : IsBase c
    pub here : c.events e ≡ v
    pub others : (x : ℕ) → x ≢ e → c.events x ≡ b.events x
    pub timers :
        c.timeheap.n + bit (b.events e).ev_flags.timeout ≡ b.timeheap.n + bit v.ev_flags.timeout
    pub same_calls : c.ncalls ≡ b.ncalls
    pub same_queues : length c.activequeues ≡ length b.activequeues
    pub room : b.timeheap.a ≤ c.timeheap.a

  pub Updated-trans :
      {b c d : EventBase E} {e : ℕ} {v w : Event}
      → Updated b e v c
      → Updated c e w d
      → Updated b e w d
  Updated-trans {e = e} u t = record {
    valid = t.valid;
    here = t.here;
    others = λ x ne. t.others x ne ∙ u.others x ne;
    timers = ground (arith, t.timers, u.timers, u.here);
    same_calls = t.same_calls ∙ u.same_calls;
    same_queues = t.same_queues ∙ u.same_queues;
    room = omega (arith, u.room, t.room);
  }

  pub Updated-refl : {b : EventBase E} (e : ℕ) → IsBase b → Updated b e (b.events e) b
  Updated-refl e v = record {
    valid = v;
    here = refl;
    others = λ x ne. refl;
    timers = refl;
    same_calls = refl;
    same_queues = refl;
    room = omega arith;
  }

  pub Updated-eq :
      {b c : EventBase E} {e : ℕ} {v w : Event} → v ≡ w → Updated b e v c → Updated b e w c
  Updated-eq same u = rw same at u

  -- A second operation, that does `f` to the event.
  pub Updated-step :
      {b c d : EventBase E} {e : ℕ} {v : Event} (f : Event → Event)
      → Updated b e v c
      → Updated c e (f (c.events e)) d
      → Updated b e (f v) d
  Updated-step f u t = Updated-trans u (Updated-eq (ap f u.here) t)
