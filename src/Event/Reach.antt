-- ===== src/Event/Reach.antt =====
-- The program's calls, in any order, from a new base on.
use libevent_1_4_3_stable_le.Base.{
  ℕ, ◌≡◌, refl, ◌∙◌, List, Bool, Option, none, some, arith, inl, inr, Bool-cases,
}
use libevent_1_4_3_stable_le.Base.Int.{ℤ}
use libevent_1_4_3_stable_le.Base.Run.{
  ok, Returns, returns, Returns-map, Returns-bind, Returns-inv, Returns-value, with_value,
}
use libevent_1_4_3_stable_le.MinHeap.{no_index}
use libevent_1_4_3_stable_le.Event.Time.{Timeval}
use libevent_1_4_3_stable_le.Event.{Event, EventBase, Evsel}
use libevent_1_4_3_stable_le.Event.Setup.{first_init, base_new}
use libevent_1_4_3_stable_le.Event.Changes.{Updated-Changed, IsEvsel}
use libevent_1_4_3_stable_le.Event.Delete.{event_del-Changed, event_del-no_base}
use libevent_1_4_3_stable_le.Event.Activate.{event_active-Updated}
use libevent_1_4_3_stable_le.Event.Add.{timed, on_evsel}
use libevent_1_4_3_stable_le.Event.Register.{event_add-Changed}
use libevent_1_4_3_stable_le.Event.Expire.{timeout_process-Processed}
use libevent_1_4_3_stable_le.Event.Fresh.{
  IsCleared, base_new-IsNew, event_set-Updated, base_set-Updated, priority_set-Updated,
}
use libevent_1_4_3_stable_le.Event.Calls.{
  Call, set, to_base, priority, add, del, active, process, run_call, Allowed, IsSound,
  Changed-IsSound, Requeued-IsSound, Processed-IsSound,
}

module _ {E : Type 0} (granted : ℕ → Bool) (evsel : Evsel E) where
  -- The bases that the program's calls lead to, from a new one.
  pub data Reach : EventBase E → Type 0 where
    start :
        (evbase : E) (inits : List (Option E)) (events : ℕ → Event) (p idx : ℕ → ℕ) (now : Timeval)
        (b : EventBase E)
        → first_init inits ≡ some evbase
        → ((x : ℕ) → IsCleared (events x))
        → ((x : ℕ) → idx x ≡ no_index)
        → base_new inits events p idx now ≡ ok b
        → Reach b
    next :
        (b c : EventBase E) (call : Call)
        → Reach b
        → Allowed evsel b call
        → run_call granted evsel call b ≡ ok c
        → Reach c

added_base :
    (now : Timeval) (tv : Option Timeval) (r : ℤ) (v : Event)
    → ((on_evsel r (timed now tv v)).ev_base ≡ v.ev_base)
      × ((on_evsel r (timed now tv v)).ev_pri ≡ v.ev_pri)
      × ((on_evsel r (timed now tv v)).ev_flags.internal ≡ v.ev_flags.internal)
      × ((on_evsel r (timed now tv v)).ev_fd ≡ v.ev_fd)
      × ((on_evsel r (timed now tv v)).ev_events ≡ v.ev_events)
added_base now none r v = ground arith
added_base now (some tv) r v = ground arith

module _ {E : Type 0} (granted : ℕ → Bool) (evsel : Evsel E) (law : IsEvsel evsel) where
  -- From a sound base every call that the program may make returns, and leaves a sound base.
  run_call-IsSound :
      (b : EventBase E) (call : Call)
      → IsSound evsel b
      → Allowed evsel b call
      → Returns (IsSound evsel) (run_call granted evsel call b)
  unfolding run_call
  run_call-IsSound b (set e fd events) s (off, known) = returns _ (
      Changed-IsSound evsel e _ s (Updated-Changed (event_set-Updated s.valid e fd events off)) refl
        (λ on. refl) (λ on. let some' = s.some_queue in omega arith) (λ on. known))
  run_call-IsSound b (to_base e) s (user, known) =
      let some' = s.some_queue in
      returns _ (
        Changed-IsSound evsel e _ s (Updated-Changed (base_set-Updated s.valid e)) (ground arith)
          (λ on. ground (arith, s.attached e user)) (λ on. ground (arith, s.in_table e user))
          (λ on. ground (arith, known)))
  run_call-IsSound b (priority e pri) s (base, user) =
      Returns-bind (priority_set-Updated s.valid e pri base) λ (r, c) u. returns c (
        Changed-IsSound evsel e _ s (Updated-Changed u) (ground arith)
          (λ on. ground (arith, s.attached e user)) (λ on. ground (arith, s.in_table e user))
          (λ on. ground (arith, s.accepted e user)))
  run_call-IsSound b (add now e tv) s (base, user, small) =
      Returns-bind
        (event_add-Changed granted evsel law s.valid e (s.accepted e user base) now tv base
          (inr (user, small)))
        λ (r, c) cases. elim cases [
          | inl u ↦
              let (same_base, same_pri, same_internal, same_fd, same_events) =
                added_base now tv r (b.events e) in
              returns c (
                Changed-IsSound evsel e _ s u (same_internal ∙ user) (λ on. same_base ∙ base)
                  (λ on. rw same_pri (s.in_table e user base))
                  (λ on. rw (same_fd, same_events) (s.accepted e user base)))
          | inr (_, same, _, _) ↦ returns c (rw same s)
        ]
  run_call-IsSound b (del e) s user = elim (Bool-cases (b.events e).ev_base) [
    | inl base ↦
        Returns-bind (event_del-Changed evsel law b e s.valid (s.accepted e user base) base)
          λ (r, c) u. returns c (
            Requeued-IsSound evsel e _ s u user (record {
              same_internal = refl;
              same_base = refl;
              same_pri = refl;
              same_fd = refl;
              same_events = refl;
              still = λ on. absurd (ground arith);
            }))
    | inr none' ↦ rw (event_del-no_base evsel b e none') (returns b s)
  ]
  run_call-IsSound b (active e res ncalls) s (base, user) =
      Returns-map (event_active-Updated granted s.valid e res ncalls base (s.in_table e user base))
        λ c u. Requeued-IsSound evsel e _ s (Updated-Changed u) user (ground arith)
  run_call-IsSound b (process now) s _ =
      Returns-map
        (timeout_process-Processed granted evsel law now b s.valid (λ x on.
          let user = s.valid.timed_external x on in
          let base = s.attached x user on in
          (base, s.in_table x user base, s.accepted x user base)))
        λ c p. Processed-IsSound evsel now s p

  -- With a kernel interface that meets `IsEvsel`, every base that the calls lead to, on events that it accepts, is
  -- sound.
  pub Reach-IsSound : (b : EventBase E) → Reach granted evsel b → IsSound evsel b
  Reach-IsSound b (start evbase inits events p idx now b' found cleared no_idx made) =
      let new =
        Returns-value b made (base_new-IsNew evbase inits events p idx now found cleared no_idx) in
      record {
        valid = new.valid;
        attached = λ x user on. absurd (cc (on, (new.cleared x).off.timeout));
        in_table = λ x user on. absurd (cc (on, (new.cleared x).no_base));
        some_queue = omega (arith, new.one_queue);
        accepted = λ x user on. absurd (cc (on, (new.cleared x).no_base));
      }
  Reach-IsSound c (next b c' call reached allowed made) =
      Returns-value c made (run_call-IsSound b call (Reach-IsSound b reached) allowed)

  -- With a kernel interface that meets `IsEvsel`, and in a base that calls have led to, the next call, which sets up
  -- events only that the interface accepts, returns: it does not exit, does not run on for ever, and
  -- accesses no memory that is not the program's. The base that it leaves is one that calls lead to.
  pub run_call-Reach :
      (b : EventBase E) (call : Call)
      → Reach granted evsel b
      → Allowed evsel b call
      → Returns (Reach granted evsel) (run_call granted evsel call b)
  run_call-Reach b call reached allowed =
      let (c, made, sound) =
        Returns-inv (run_call-IsSound b call (Reach-IsSound b reached) allowed) in
      with_value c made (next b c call reached allowed made)
