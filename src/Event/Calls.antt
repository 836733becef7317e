-- ===== src/Event/Calls.antt =====
-- The program's calls, and what each may rely on.
use libevent_1_4_3_stable_le.Base.{
  ℕ, suc, ◌^◌, ◌<◌, ◌≡◌, sym, ◌∙◌, length, Bool, true, false, Option, arith, ℕ_discrete, Bool-cases,
  inl, inr,
}
use libevent_1_4_3_stable_le.Base.Int.{ℤ}
use libevent_1_4_3_stable_le.Base.Run.{Run, ok, ◌>>=◌}
use libevent_1_4_3_stable_le.Event.Time.{Timeval}
use libevent_1_4_3_stable_le.Event.{
  Mask, Event, EventBase, Evsel, event_add, event_del, event_active,
}
use libevent_1_4_3_stable_le.Event.Setup.{event_set, base_set, priority_set}
use libevent_1_4_3_stable_le.Event.Timeouts.{timeout_process}
use libevent_1_4_3_stable_le.Event.Invariant.{IsBase}
use libevent_1_4_3_stable_le.Event.Changes.{Changed, IsAccepted}
use libevent_1_4_3_stable_le.Event.Expire.{is_due, expired, Processed}
use libevent_1_4_3_stable_le.Event.Fresh.{IsOff}

-- A call that changes nothing of an event but its queues.
pub record Requeued (v w : Event) : Type 0 where
  pub same_internal : w.ev_flags.internal ≡ v.ev_flags.internal
  pub same_base : w.ev_base ≡ v.ev_base
  pub same_pri : w.ev_pri ≡ v.ev_pri
  pub same_fd : w.ev_fd ≡ v.ev_fd
  pub same_events : w.ev_events ≡ v.ev_events
  pub still : w.ev_flags.timeout ≡ true → v.ev_flags.timeout ≡ true

-- A call, with what it is given and with the time that `gettime` gives to it.
pub data Call : Type 0 where
  set : ℕ → ℤ → Mask → Call
  to_base : ℕ → Call
  priority : ℕ → ℤ → Call
  add : Timeval → ℕ → Option Timeval → Call
  del : ℕ → Call
  active : ℕ → Mask → ℕ → Call
  process : Timeval → Call

module _ {E : Type 0} (granted : ℕ → Bool) (evsel : Evsel E) where
  unfoldable pub run_call : Call → EventBase E → Run (EventBase E)
  run_call (set e fd events) b = ok (event_set b e fd events)
  run_call (to_base e) b = ok (base_set b e).1
  run_call (priority e pri) b = priority_set b e pri >>= λ (r, c). ok c
  run_call (add now e tv) b = event_add granted evsel now b e tv >>= λ (r, c). ok c
  run_call (del e) b = event_del evsel b e >>= λ (r, c). ok c
  run_call (active e res ncalls) b = event_active granted b e res ncalls
  run_call (process now) b = timeout_process granted evsel b now

module _ {E : Type 0} (evsel : Evsel E) where
  -- What the program owes: it sets up an event of its own that is on no queue, for a descriptor and a mask that
  -- the kernel interface accepts, and gives the other calls an
  -- event that has been set up. The heap does not take 2^31 events.
  abbrev pub Allowed : EventBase E → Call → Type 0
  Allowed b (set e fd events) = IsOff (b.events e) × (evsel.accepts fd events ≡ true)
  Allowed b (to_base e) = ((b.events e).ev_flags.internal ≡ false) × IsAccepted evsel (b.events e)
  Allowed b (priority e pri) =
      ((b.events e).ev_base ≡ true) × ((b.events e).ev_flags.internal ≡ false)
  Allowed b (add now e tv) =
      ((b.events e).ev_base ≡ true)
      × ((b.events e).ev_flags.internal ≡ false)
      × (suc b.timeheap.n < 2 ^ 31)
  Allowed b (del e) = (b.events e).ev_flags.internal ≡ false
  Allowed b (active e res ncalls) =
      ((b.events e).ev_base ≡ true) × ((b.events e).ev_flags.internal ≡ false)
  Allowed b (process now) = Unit

  -- A base in which every call is possible.
  pub record IsSound (b : EventBase E) : Type 0 where
    pub valid : IsBase b
    pub attached :
        (x : ℕ)
        → (b.events x).ev_flags.internal ≡ false
        → (b.events x).ev_flags.timeout ≡ true
        → (b.events x).ev_base ≡ true
    pub in_table :
        (x : ℕ)
        → (b.events x).ev_flags.internal ≡ false
        → (b.events x).ev_base ≡ true
        → (b.events x).ev_pri < length b.activequeues
    pub some_queue : 0 < length b.activequeues
    pub accepted :
        (x : ℕ)
        → (b.events x).ev_flags.internal ≡ false
        → (b.events x).ev_base ≡ true
        → IsAccepted evsel (b.events x)

  -- It stays so if the event that changes has a base and a priority of the table where it needs them.
  pub Changed-IsSound :
      {b c : EventBase E} (e : ℕ) (v : Event)
      → IsSound b
      → Changed b e v c
      → v.ev_flags.internal ≡ false
      → (v.ev_flags.timeout ≡ true → v.ev_base ≡ true)
      → (v.ev_base ≡ true → v.ev_pri < length b.activequeues)
      → (v.ev_base ≡ true → IsAccepted evsel v)
      → IsSound c
  Changed-IsSound {b} {c} e v s u user base pri known = record {
    valid = u.valid;
    attached = λ x user' on. elim (ℕ_discrete x e) [
      | yes same ↦ rw (same, u.here) (base (rw (same, u.here) at on))
      | no ne ↦
          let before = sym (u.same_internal x ne) ∙ user' in
          let kept = u.others x ne before in rw kept (s.attached x before (rw kept at on))
    ];
    in_table = λ x user' on. elim (ℕ_discrete x e) [
      | yes same ↦ rw (same, u.here, u.same_queues) (pri (rw (same, u.here) at on))
      | no ne ↦
          let before = sym (u.same_internal x ne) ∙ user' in
          let kept = u.others x ne before in
          rw (kept, u.same_queues) (s.in_table x before (rw kept at on))
    ];
    some_queue = rw u.same_queues s.some_queue;
    accepted = λ x user' on. elim (ℕ_discrete x e) [
      | yes same ↦ rw (same, u.here) (known (rw (same, u.here) at on))
      | no ne ↦
          let before = sym (u.same_internal x ne) ∙ user' in
          let kept = u.others x ne before in rw kept (s.accepted x before (rw kept at on))
    ];
  }

  pub Requeued-IsSound :
      {b c : EventBase E} (e : ℕ) (v : Event)
      → IsSound b
      → Changed b e v c
      → (b.events e).ev_flags.internal ≡ false
      → Requeued (b.events e) v
      → IsSound c
  Requeued-IsSound {b} e v s u user r =
      Changed-IsSound e v s u (r.same_internal ∙ user)
        (λ on. r.same_base ∙ s.attached e user (r.still on))
        (λ on. rw r.same_pri (s.in_table e user (sym r.same_base ∙ on)))
        (λ on. rw (r.same_fd, r.same_events) (s.accepted e user (sym r.same_base ∙ on)))

  -- An event keeps its descriptor and its mask when its time has come.
  Processed-IsAccepted :
      {b c : EventBase E} (now : Timeval)
      → IsSound b
      → Processed now b c
      → (x : ℕ) → (b.events x).ev_flags.internal ≡ false
      → (c.events x).ev_base ≡ true
      → IsAccepted evsel (c.events x)
  Processed-IsAccepted {b} {c} now s p x user on = elim (Bool-cases (is_due now (b.events x))) [
    | inl come ↦
        let out : c.events x ≡ expired (b.events x) = rw come at (p.outcome x user) in
        rw out (s.accepted x user (rw out at on))
    | inr not_come ↦
        let out : c.events x ≡ b.events x = rw not_come at (p.outcome x user) in
        rw out (s.accepted x user (rw out at on))
  ]

  pub Processed-IsSound :
      {b c : EventBase E} (now : Timeval) → IsSound b → Processed now b c → IsSound c
  Processed-IsSound {b} {c} now s p = record {
    valid = p.valid;
    attached = λ x user on.
        let before = sym (p.same_internal x) ∙ user in
        ground (arith, p.outcome x before, s.attached x before);
    in_table = λ x user on.
        let before = sym (p.same_internal x) ∙ user in
        ground (arith, p.outcome x before, s.in_table x before, p.same_queues);
    some_queue = rw p.same_queues s.some_queue;
    accepted = λ x user on. Processed-IsAccepted now s p x (sym (p.same_internal x) ∙ user) on;
  }
