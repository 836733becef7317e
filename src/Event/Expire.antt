-- ===== src/Event/Expire.antt =====
-- `timeout_process` makes the events active whose time has come, and no others.
use libevent_1_4_3_stable_le.Base.{
  ℕ, zero, suc, ◌+◌, ◌<◌, ◌≡◌, refl, sym, ◌∙◌, length, not, ◌&&◌, Bool, true, false, if◌then◌else◌,
  arith, inl, inr, Bool-cases, ℕ_discrete, ◌==◌,
}
use libevent_1_4_3_stable_le.Base.Run.{
  Run, Returns, returns, Returns-map, Returns-bind, Returns-if, Returns-elim, ◌>>=◌,
}
use libevent_1_4_3_stable_le.MinHeap.{is_empty}
use libevent_1_4_3_stable_le.MinHeap.Order.{In}
use libevent_1_4_3_stable_le.MinHeap.Remove.{root_least, top_cases}
use libevent_1_4_3_stable_le.Event.Time.{Timeval, time_lt, time-IsOrder, time_trans}
use libevent_1_4_3_stable_le.Event.{Event, EventBase, Evsel, greater, event_del, event_active}
use libevent_1_4_3_stable_le.Event.Timeouts.{timeout_mask, process_loop, timeout_process}
use libevent_1_4_3_stable_le.Event.Invariant.{IsBase}
use libevent_1_4_3_stable_le.Event.Changes.{
  Changed, Changed-step, Updated-Changed, IsEvsel, IsAccepted,
}
use libevent_1_4_3_stable_le.Event.Delete.{deleted, event_del-Changed}
use libevent_1_4_3_stable_le.Event.Activate.{activated, event_active-Updated}

-- The event is waiting for a time that has come.
abbrev pub is_due : Timeval → Event → Bool
is_due now v = v.ev_flags.timeout && not (time_lt now v.ev_timeout)

-- An event whose time has come is deleted and made active, with one call to make.
abbrev pub expired : Event → Event
expired v = activated (deleted v) timeout_mask 1

module _ {E : Type 0} where
  -- The events with a timeout have a base and a priority of the table, and the kernel interface accepts them.
  abbrev pub Ready : Evsel E → EventBase E → Type 0
  Ready evsel b =
      (x : ℕ)
      → (b.events x).ev_flags.timeout ≡ true
      → ((b.events x).ev_base ≡ true)
        × ((b.events x).ev_pri < length b.activequeues)
        × IsAccepted evsel (b.events x)

  -- Only an event with a timeout is in the heap.
  pub in_heap_timed :
      {b : EventBase E}
      → IsBase b
      → (x : ℕ) → In b.timeheap x
      → (b.events x).ev_flags.timeout ≡ true
  in_heap_timed {b} v x (lt, at) = elim (Bool-cases (b.events x).ev_flags.timeout) [
    | inl on ↦ on
    | inr off ↦ absurd (omega (arith, v.untimed x off, v.heap.small))
  ]

  -- `c` is `b` after all events are through whose time has come.
  pub record Processed (now : Timeval) (b c : EventBase E) : Type 0 where
    pub valid : IsBase c
    pub outcome :
        (x : ℕ)
        → (b.events x).ev_flags.internal ≡ false
        → c.events x ≡ (if is_due now (b.events x) then expired (b.events x) else b.events x)
    pub same_internal : (x : ℕ) → (c.events x).ev_flags.internal ≡ (b.events x).ev_flags.internal
    pub none_due : (x : ℕ) → is_due now (c.events x) ≡ false
    pub same_queues : length c.activequeues ≡ length b.activequeues

  -- If the first of the heap is not due, none is.
  none_due_below :
      {b : EventBase E} (now : Timeval)
      → IsBase b
      → time_lt now (b.events (b.timeheap.p 0)).ev_timeout ≡ true
      → (x : ℕ) → is_due now (b.events x) ≡ false
  none_due_below {b} now v first x = elim (Bool-cases (b.events x).ev_flags.timeout) [
    | inr off ↦ rw off refl
    | inl on ↦
        let least : time_lt (b.events x).ev_timeout (b.events (b.timeheap.p 0)).ev_timeout ≡ false =
          root_least (time-IsOrder λ y. (b.events y).ev_timeout) v.heap x (v.timed x on) in
        elim (Bool-cases (time_lt now (b.events x).ev_timeout)) [
          | inl later ↦ rw (on, later) refl
          | inr come ↦ absurd (
              cc (
                time_trans (b.events (b.timeheap.p 0)).ev_timeout (b.events x).ev_timeout now least
                  come))
        ]
  ]

  -- In an empty heap none is.
  empty_none_due :
      {b : EventBase E} (now : Timeval)
      → IsBase b
      → b.timeheap.n ≡ 0
      → (x : ℕ) → is_due now (b.events x) ≡ false
  empty_none_due {b} now v empty x = elim (Bool-cases (b.events x).ev_flags.timeout) [
    | inr off ↦ rw off refl
    | inl on ↦ absurd (omega (arith, v.timed x on))
  ]

  -- Where no event is due, the base is as it should be.
  nothing_due :
      {b : EventBase E} (now : Timeval)
      → IsBase b
      → ((x : ℕ) → is_due now (b.events x) ≡ false)
      → Processed now b b
  nothing_due now v h = record {
    valid = v;
    outcome = λ x user. rw (h x) refl;
    same_internal = λ x. refl;
    none_due = h;
    same_queues = refl;
  }

  -- After the first event, the rest is as before.
  after_first :
      {b d c : EventBase E} (now : Timeval) (e : ℕ)
      → IsBase b
      → is_due now (b.events e) ≡ true
      → Changed b e (expired (b.events e)) d
      → Processed now d c
      → Processed now b c
  after_first {b} {d} {c} now e v come u t = record {
    valid = t.valid;
    outcome = λ x user. elim (ℕ_discrete x e) [
      | yes same ↦
          let user' : (d.events e).ev_flags.internal ≡ false = rw u.here (rw same at user) in
          let out : c.events e ≡ expired (b.events e) = rw u.here at (t.outcome e user') in
          rw (same, come) out
      | no ne ↦
          let same : d.events x ≡ b.events x = u.others x ne user in
          rw same at (t.outcome x (rw same user))
    ];
    same_internal = λ x. t.same_internal x ∙ elim (ℕ_discrete x e) [
      | yes same ↦ rw (same, u.here) refl
      | no ne ↦ u.same_internal x ne
    ];
    none_due = t.none_due;
    same_queues = t.same_queues ∙ u.same_queues;
  }

module _ {E : Type 0} (granted : ℕ → Bool) (evsel : Evsel E) (law : IsEvsel evsel)
    (now : Timeval) where
  -- The other events stay ready.
  still-Ready :
      {b d : EventBase E} (e : ℕ)
      → Ready evsel b
      → Changed b e (expired (b.events e)) d
      → Ready evsel d
  still-Ready {b} {d} e ready u x on = elim (ℕ_discrete x e) [
    | yes same ↦ absurd (ground (arith, u.here))
    | no ne ↦
        let user = u.same_internal x ne in
        let kept : d.events x ≡ b.events x =
          u.others x ne (sym user ∙ u.valid.timed_external x on) in
        rw (kept, u.same_queues) (ready x (rw kept at on))
  ]

  -- A round that finds the first event due, where `rest` is what the rounds after it are known to do.
  first_due :
      (b : EventBase E) (rest : EventBase E → Run (EventBase E)) (e : ℕ)
      → IsBase b
      → Ready evsel b
      → is_due now (b.events e) ≡ true
      → ((d : EventBase E)
          → IsBase d
          → Ready evsel d
          → d.timeheap.n + 1 ≡ b.timeheap.n
          → Returns (Processed now d) (rest d))
      → Returns
          (Processed now b)
          (event_del evsel b e >>= λ (r, c). event_active granted c e timeout_mask 1 >>= rest)
  first_due b rest e v ready come on_rest =
      let on : (b.events e).ev_flags.timeout ≡ true = ground arith in
      let (base, inside, known) = ready e on in
      Returns-bind (event_del-Changed evsel law b e v known base) λ (r, c) u.
        Returns-bind
          (event_active-Updated granted u.valid e timeout_mask 1 (rw u.here base)
            (rw (u.here, u.same_queues) inside))
          λ d t.
            let both : Changed b e (expired (b.events e)) d =
              Changed-step (λ w. activated w timeout_mask 1) u (Updated-Changed t) in
            let fewer : d.timeheap.n + 1 ≡ b.timeheap.n = ground (arith, both.timers) in
            Returns-map (on_rest d both.valid (still-Ready e ready both) fewer)
              λ c' r. after_first now e v come both r

  process_loop-Processed :
      (fuel : ℕ) (b : EventBase E)
      → IsBase b
      → Ready evsel b
      → b.timeheap.n < fuel
      → Returns (Processed now b) (process_loop granted evsel fuel b now)
  unfolding process_loop
  process_loop-Processed zero b v ready enough = absurd (omega arith)
  process_loop-Processed (suc fuel) b v ready enough =
      elim (top_cases (greater b.events) b.timeheap v.heap) [
        | inl (empty, none') ↦ rw none' (returns b (nothing_due now v (empty_none_due now v empty)))
        | inr (some', first) ↦
            let e = b.timeheap.p 0 in
            let index : b.timeheap.idx e ≡ 0 = v.heap.indexed 0 some' in
            let on = in_heap_timed v e (rw index (some', refl)) in
            rw first (
              Returns-elim (time_lt now (b.events e).ev_timeout)
                (λ later. returns b (nothing_due now v (none_due_below now v later)))
                (λ come.
                  first_due b (λ d. process_loop granted evsel fuel d now) e v ready
                    (rw (on, come) refl)
                    λ d v' ready' fewer. process_loop-Processed fuel d v' ready' (omega arith)))
      ]

  -- In a well-formed base whose events with a timeout have a base and a priority of the table and are accepted by
  -- the kernel interface, which meets `IsEvsel`,
  -- `timeout_process` returns. Every event of the program that waited for a time that has come is then as
  -- `event_del` and `event_active` leave it, active because of the timeout; no other event of the program has
  -- changed. The base is well formed, and no event is waiting for a time that has come.
  pub timeout_process-Processed :
      (b : EventBase E)
      → IsBase b
      → Ready evsel b
      → Returns (Processed now b) (timeout_process granted evsel b now)
  unfolding timeout_process is_empty
  timeout_process-Processed b v ready =
      Returns-if (0 == b.timeheap.n)
        (λ empty. returns b (nothing_due now v (empty_none_due now v (ground arith))))
        (λ some'. process_loop-Processed (suc b.timeheap.n) b v ready (omega arith))
