-- ===== src/Event/Delete.antt =====
-- `event_del` takes the event off all queues.
use libevent_1_4_3_stable_le.Base.{ℕ, ◌≡◌, refl, sym, ap, ◌∙◌, ◌&&◌, Bool, true, false}
use libevent_1_4_3_stable_le.Base.Int.{minus_one}
use libevent_1_4_3_stable_le.Base.Run.{
  ok, Returns, returns, Returns-map, Returns-bind, Returns-if, ◌>>=◌,
}
use libevent_1_4_3_stable_le.Event.{
  Event, EventBase, Queue, timeouts, inserted, signals, actives, reflag, flag, Evsel, queue_remove,
  del_from_evsel, event_del,
}
use libevent_1_4_3_stable_le.Event.Invariant.{IsBase}
use libevent_1_4_3_stable_le.Event.Remove.{queue_remove-Updated}
use libevent_1_4_3_stable_le.Event.Changes.{
  reflag_same, Changed, Changed-refl, Changed-eq, Changed-step, Updated-Changed, IsEvsel,
  abort_calls-Changed, remove_if_on-Changed, IsAccepted,
}

-- The event as the kernel interface leaves it. One that is both inserted and waits for a signal keeps the
-- signal.
abbrev off_evsel : Event → Event
off_evsel v =
    let f = v.ev_flags in
    record v { ev_flags = record f { inserted = false; signal = f.inserted && f.signal } }

-- The event without its queues.
abbrev pub deleted : Event → Event
deleted v = off_evsel (reflag actives false (reflag timeouts false v))

off_inserted : (v : Event) → v.ev_flags.inserted ≡ true → off_evsel v ≡ reflag inserted false v
off_inserted v on =
    ap
      (λ (t : Bool). record v {
        ev_flags = record v.ev_flags { inserted = false; signal = t && v.ev_flags.signal };
      })
      on

off_signal : (v : Event) → v.ev_flags.inserted ≡ false → off_evsel v ≡ reflag signals false v
off_signal v off =
    ap
      (λ (t : Bool). record v {
        ev_flags = record v.ev_flags { inserted = false; signal = t && v.ev_flags.signal };
      })
      off
    ∙ ap (λ (t : Bool). record v { ev_flags = record v.ev_flags { inserted = t; signal = false } })
        (sym off)

module _ {E : Type 0} (evsel : Evsel E) (law : IsEvsel evsel) where
  -- The queue is left, and then the kernel interface is told.
  leave :
      (b : EventBase E) (e : ℕ) (q : Queue)
      → IsBase b
      → IsAccepted evsel (b.events e)
      → flag q (b.events e).ev_flags ≡ true
      → Returns
          (λ (r, c). Changed b e (reflag q false (b.events e)) c)
          (queue_remove b e q >>= λ c. evsel.del c e)
  leave b e q v known on = Returns-bind (queue_remove-Updated v e q on) λ c u.
      Returns-map (law.del_lem c e u.valid (rw u.here known))
        λ (r, d) t. Changed-step (λ w. w) (Updated-Changed u) t

  del_from_evsel-Changed :
      (b : EventBase E) (e : ℕ)
      → IsBase b
      → IsAccepted evsel (b.events e)
      → Returns (λ (r, c). Changed b e (off_evsel (b.events e)) c) (del_from_evsel evsel b e)
  unfolding del_from_evsel
  del_from_evsel-Changed b e v known =
      let w = b.events e in
      Returns-if w.ev_flags.inserted
        (λ on.
          Returns-map (leave b e inserted v known on) λ p u. Changed-eq (sym (off_inserted w on)) u)
        (λ off.
          Returns-if w.ev_flags.signal
            (λ on.
              Returns-map (leave b e signals v known on)
                λ p u. Changed-eq (sym (off_signal w off)) u)
            (λ none'. returns _ (
              Changed-eq (sym (off_signal w off ∙ reflag_same signals false w none'))
                (Changed-refl e v))))

  -- In a well-formed base, and with a kernel interface that accepts the event and meets `IsEvsel`, deleting an event
  -- that has a base returns, takes the event out of the heap and off the
  -- queues of active and of inserted events, and off that of signals if it was not inserted. No other event of the
  -- program has changed, and the base is well formed.
  pub event_del-Changed :
      (b : EventBase E) (e : ℕ)
      → IsBase b
      → IsAccepted evsel (b.events e)
      → (b.events e).ev_base ≡ true
      → Returns (λ (r, c). Changed b e (deleted (b.events e)) c) (event_del evsel b e)
  unfolding event_del
  event_del-Changed b e v known base =
      Returns-if (b.events e).ev_base
        (λ on. Returns-bind (abort_calls-Changed b e v) λ c u.
          Returns-bind (remove_if_on-Changed c e timeouts u.valid) λ d u'.
            Returns-bind (remove_if_on-Changed d e actives u'.valid) λ d' u''.
              let all =
                Changed-step (reflag actives false) (Changed-step (reflag timeouts false) u u')
                  u'' in
              Returns-map (del_from_evsel-Changed d' e u''.valid (rw all.here known))
                λ (r, g) t. Changed-step off_evsel all t)
        (λ off. absurd (cc off))

-- An event without a base is let be.
pub event_del-no_base :
    {E : Type 0} (evsel : Evsel E) (b : EventBase E) (e : ℕ)
    → (b.events e).ev_base ≡ false
    → event_del evsel b e ≡ ok (minus_one, b)
unfolding event_del
event_del-no_base evsel b e none' = rw none' refl
