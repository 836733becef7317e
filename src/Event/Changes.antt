-- ===== src/Event/Changes.antt =====
-- What an operation may change besides its event: the events that the kernel interface keeps for itself,
-- which are internal.
use libevent_1_4_3_stable_le.Base.{
  ℕ, ◌+◌, ◌≤◌, ◌≡◌, ◌≢◌, inl, inr, refl, sym, ap, ◌∙◌, length, ◌==◌, not, ◌&&◌, Bool, true, false,
  Option, none, some, arith, Bool-cases,
}
use libevent_1_4_3_stable_le.Base.Run.{ok, fault, Returns, returns, Returns-map}
use libevent_1_4_3_stable_le.Event.{
  Event, EventBase, Queue, timeouts, inserted, signals, actives, reflag, flag, Evsel, abort_calls,
  remove_if_on,
}
use libevent_1_4_3_stable_le.Event.Invariant.{IsBase, Updated, Updated-refl, bit}
use libevent_1_4_3_stable_le.Event.Remove.{queue_remove-Updated}

pub reflag_same : (q : Queue) (t : Bool) (v : Event) → flag q v.ev_flags ≡ t → reflag q t v ≡ v
reflag_same timeouts t v e = ap (λ s. reflag timeouts s v) (sym e)
reflag_same inserted t v e = ap (λ s. reflag inserted s v) (sym e)
reflag_same signals t v e = ap (λ s. reflag signals s v) (sym e)
reflag_same actives t v e = ap (λ s. reflag actives s v) (sym e)

-- `event_process_active` runs.
abbrev pub is_some {ℓ} : {A : Type ℓ} → Option A → Bool
is_some none = false
is_some (some x) = true

module _ {E : Type 0} where
  -- `c` is the well-formed base `b` with `v` for what the event `e` was, and other internal events.
  pub record Changed (b : EventBase E) (e : ℕ) (v : Event) (c : EventBase E) : Type 0 where
    pub valid : IsBase c
    pub here : c.events e ≡ v
    pub others : (x : ℕ) → x ≢ e → (b.events x).ev_flags.internal ≡ false → c.events x ≡ b.events x
    pub same_internal :
        (x : ℕ) → x ≢ e → (c.events x).ev_flags.internal ≡ (b.events x).ev_flags.internal
    pub timers :
        c.timeheap.n + bit (b.events e).ev_flags.timeout ≡ b.timeheap.n + bit v.ev_flags.timeout
    pub same_frame : is_some c.ncalls ≡ is_some b.ncalls
    pub same_queues : length c.activequeues ≡ length b.activequeues
    pub room : b.timeheap.a ≤ c.timeheap.a

  pub Updated-Changed : {b c : EventBase E} {e : ℕ} {v : Event} → Updated b e v c → Changed b e v c
  Updated-Changed u = record {
    valid = u.valid;
    here = u.here;
    others = λ x ne user. u.others x ne;
    same_internal = λ x ne. ap (λ v. v.ev_flags.internal) (u.others x ne);
    timers = u.timers;
    same_frame = ap is_some u.same_calls;
    same_queues = u.same_queues;
    room = u.room;
  }

  pub Changed-trans :
      {b c d : EventBase E} {e : ℕ} {v w : Event}
      → Changed b e v c
      → Changed c e w d
      → Changed b e w d
  Changed-trans {e = e} u t = record {
    valid = t.valid;
    here = t.here;
    others = λ x ne user. t.others x ne (rw (u.others x ne user) user) ∙ u.others x ne user;
    same_internal = λ x ne. t.same_internal x ne ∙ u.same_internal x ne;
    timers = ground (arith, t.timers, u.timers, u.here);
    same_frame = t.same_frame ∙ u.same_frame;
    same_queues = t.same_queues ∙ u.same_queues;
    room = omega (arith, u.room, t.room);
  }

  pub Changed-eq :
      {b c : EventBase E} {e : ℕ} {v w : Event} → v ≡ w → Changed b e v c → Changed b e w c
  Changed-eq {b = b} {c = c} {e = e} same u = rw same at u

  -- A second operation, that does `f` to the event.
  pub Changed-step :
      {b c d : EventBase E} {e : ℕ} {v : Event} (f : Event → Event)
      → Changed b e v c
      → Changed c e (f (c.events e)) d
      → Changed b e (f v) d
  Changed-step f u t = Changed-trans u (Changed-eq (ap f u.here) t)

  pub Changed-refl : {b : EventBase E} (e : ℕ) → IsBase b → Changed b e (b.events e) b
  Changed-refl e v = Updated-Changed (Updated-refl e v)

  -- The event is one that the kernel interface accepts.
  abbrev pub IsAccepted : Evsel E → Event → Type 0
  IsAccepted evsel v = evsel.accepts v.ev_fd v.ev_events ≡ true

  -- What the core relies on of a kernel interface: a call for an event that it accepts returns, and changes
  -- internal events only.
  pub record IsEvsel (evsel : Evsel E) : Type 0 where
    pub add_lem :
        (b : EventBase E) (e : ℕ)
        → IsBase b
        → IsAccepted evsel (b.events e)
        → Returns (λ (r, c). Changed b e (b.events e) c) (evsel.add b e)
    pub del_lem :
        (b : EventBase E) (e : ℕ)
        → IsBase b
        → IsAccepted evsel (b.events e)
        → Returns (λ (r, c). Changed b e (b.events e) c) (evsel.del b e)

  pub abort_calls-Changed :
      (b : EventBase E) (e : ℕ) → IsBase b → Returns (Changed b e (b.events e)) (abort_calls b e)
  unfolding abort_calls
  abort_calls-Changed b e v =
      elim (Bool-cases ((b.events e).ev_pncalls && not ((b.events e).ev_ncalls == 0))) [
        | inr quiet ↦ rw quiet (returns b (Changed-refl e v))
        | inl calls ↦ rw calls (aborted b.ncalls refl calls)
      ]
    where
      aborted :
          (frame : Option ℕ)
          → b.ncalls ≡ frame
          → ((b.events e).ev_pncalls && not ((b.events e).ev_ncalls == 0)) ≡ true
          → Returns
              (Changed b e (b.events e))
              (elim b.ncalls [ none ↦ fault | some n ↦ ok (record b { ncalls = some 0 }) ])
      aborted none at calls = absurd (ground (arith, v.idle at e))
      aborted (some n) at calls = rw at (
          returns _ (record {
            valid = record {
              heap = v.heap;
              timed = v.timed;
              untimed = v.untimed;
              inserted = v.inserted;
              signalled = v.signalled;
              active = v.active;
              total_active = v.total_active;
              timed_external = v.timed_external;
              total = v.total;
              idle = λ none'. cc;
            };
            here = refl;
            others = λ x ne user. refl;
            same_internal = λ x ne. refl;
            timers = refl;
            same_frame = refl;
            same_queues = refl;
            room = omega arith;
          }))

  pub remove_if_on-Changed :
      (b : EventBase E) (e : ℕ) (q : Queue)
      → IsBase b
      → Returns (Changed b e (reflag q false (b.events e))) (remove_if_on b e q)
  unfolding remove_if_on
  remove_if_on-Changed b e q v = elim (Bool-cases (flag q (b.events e).ev_flags)) [
    | inl on ↦ rw on (Returns-map (queue_remove-Updated v e q on) λ c u. Updated-Changed u)
    | inr off ↦ rw (off, reflag_same q false (b.events e) off) (returns b (Changed-refl e v))
  ]
