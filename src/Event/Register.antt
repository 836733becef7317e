-- ===== src/Event/Register.antt =====
-- `event_add`: the kernel interface is told of the event, which goes onto its queue.
use libevent_1_4_3_stable_le.Base.{
  ℕ, suc, ◌^◌, ◌<◌, ◌≡◌, ◌⊎◌, refl, not, ◌&&◌, ◌||◌, Bool, true, false, if◌then◌else◌, Option, none,
  some, arith, inl, inr, Bool-cases,
}
use libevent_1_4_3_stable_le.Base.Int.{pos, minus_one, eqb_ℤ}
use libevent_1_4_3_stable_le.Base.Run.{Returns, returns, Returns-map, Returns-bind, Returns-if}
use libevent_1_4_3_stable_le.Event.Time.{Timeval}
use libevent_1_4_3_stable_le.Event.{
  Event, EventBase, Queue, inserted, signals, reflag, Evsel, queue_insert, register, add_to_evsel,
  add_based, event_add,
}
use libevent_1_4_3_stable_le.Event.Invariant.{IsBase, Updated}
use libevent_1_4_3_stable_le.Event.Insert.{insert_inserted, insert_signal}
use libevent_1_4_3_stable_le.Event.Changes.{
  Changed, Changed-refl, Changed-step, Updated-Changed, IsEvsel, IsAccepted,
}
use libevent_1_4_3_stable_le.Event.Add.{on_evsel, timed, Refused, add_timeout_cases}

module _ {E : Type 0} (granted : ℕ → Bool) (evsel : Evsel E) (law : IsEvsel evsel) {b : EventBase E}
    (v : IsBase b) (e : ℕ) (known : IsAccepted evsel (b.events e)) where
  -- The event goes onto the queue `q` if the kernel interface takes it.
  register-Changed :
      (q : Queue)
      → ((c : EventBase E)
          → IsBase c
          → c.events e ≡ b.events e
          → Returns (Updated c e (reflag q true (c.events e))) (queue_insert granted c e q))
      → Returns
          (λ (r, c).
            Changed b e (if eqb_ℤ r minus_one then b.events e else reflag q true (b.events e)) c)
          (register granted evsel b e q)
  unfolding register
  register-Changed q insert = Returns-bind (law.add_lem b e v known) λ (r, c) u.
      Returns-if (eqb_ℤ r minus_one) (λ failed. returns (r, c) (rw failed u))
        (λ taken.
          Returns-bind (insert c u.valid u.here)
            λ d t. returns (r, d) (rw taken (Changed-step (reflag q true) u (Updated-Changed t))))

  add_to_evsel-Changed :
      Returns (λ (r, c). Changed b e (on_evsel r (b.events e)) c) (add_to_evsel granted evsel b e)
  unfolding add_to_evsel
  add_to_evsel-Changed =
      let w = b.events e in
      let f = w.ev_flags in
      elim (Bool-cases ((w.ev_events.read || w.ev_events.write) && not (f.inserted || f.active))) [
        | inl io ↦
            let off : f.inserted ≡ false = ground arith in
            rw io
              (register-Changed inserted λ c v' same. insert_inserted granted v' e (rw same off))
        | inr no_io ↦ rw no_io (elim (Bool-cases (w.ev_events.signal && not f.signal)) [
          | inl signal ↦
              let off : f.signal ≡ false = ground arith in
              rw signal
                (register-Changed signals λ c v' same. insert_signal granted v' e (rw same off))
          | inr neither ↦ rw neither (returns (pos 0, b) (Changed-refl e v))
        ])
      ]

-- A timeout does not change what the kernel interface looks at.
timed-IsAccepted :
    {E : Type 0} (evsel : Evsel E) (v : Event) {w : Event} (now : Timeval) (tv : Option Timeval)
    → w ≡ timed now tv v
    → IsAccepted evsel v
    → IsAccepted evsel w
timed-IsAccepted evsel v now none same known = rw same known
timed-IsAccepted evsel v now (some tv) same known = rw same known

module _ {E : Type 0} (granted : ℕ → Bool) (evsel : Evsel E) (law : IsEvsel evsel) {b : EventBase E}
    (v : IsBase b) (e : ℕ) (known : IsAccepted evsel (b.events e)) where
  add_based-Changed :
      (now : Timeval) (tv : Option Timeval)
      → (tv ≡ none) ⊎ (((b.events e).ev_flags.internal ≡ false) × (suc b.timeheap.n < 2 ^ 31))
      → Returns
          (λ (r, c).
            Changed b e (on_evsel r (timed now tv (b.events e))) c ⊎ Refused granted b e (r, c))
          (add_based granted evsel now b e tv)
  unfolding add_based
  add_based-Changed now none h =
      Returns-map (add_to_evsel-Changed granted evsel law v e known) λ p u. inl u
  add_based-Changed now (some tv) (inl none') = absurd (ground arith)
  add_based-Changed now (some tv) (inr (user, small)) =
      Returns-bind (add_timeout_cases granted v e now tv user small) λ (r, c) cases. elim cases [
        | inr (at, same, off, memory) ↦ rw at (returns _ (inr (refl, same, off, memory)))
        | inl (at, u) ↦ rw at (
            Returns-map
              (add_to_evsel-Changed granted evsel law u.valid e
                (timed-IsAccepted evsel (b.events e) now (some tv) u.here known))
              λ (r', d) t. inl (Changed-step (on_evsel r') u t))
      ]

module _ {E : Type 0} (granted : ℕ → Bool) (evsel : Evsel E) (law : IsEvsel evsel) {b : EventBase E}
    (v : IsBase b) (e : ℕ) (known : IsAccepted evsel (b.events e)) where
  pub event_add-Changed :
      (now : Timeval) (tv : Option Timeval)
      → (b.events e).ev_base ≡ true
      → (tv ≡ none) ⊎ (((b.events e).ev_flags.internal ≡ false) × (suc b.timeheap.n < 2 ^ 31))
      → Returns
          (λ (r, c).
            Changed b e (on_evsel r (timed now tv (b.events e))) c ⊎ Refused granted b e (r, c))
          (event_add granted evsel now b e tv)
  unfolding event_add
  event_add-Changed now tv base h =
      Returns-if (b.events e).ev_base (λ on. add_based-Changed granted evsel law v e known now tv h)
        (λ off. absurd (cc (base, off)))
