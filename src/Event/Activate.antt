-- ===== src/Event/Activate.antt =====
-- `event_active` makes an event active, or adds to the reasons for which it is.
use libevent_1_4_3_stable_le.Base.{◌≡◌, ℕ, ◌<◌, refl, length, Bool, true, false, if◌then◌else◌, inl}
use libevent_1_4_3_stable_le.Base.Run.{Returns, returns, Returns-map, Returns-if, Returns-if_both}
use libevent_1_4_3_stable_le.Event.{Mask, Event, EventBase, actives, reflag, or_mask, event_active}
use libevent_1_4_3_stable_le.Event.Invariant.{IsBase, Updated, Updated-step}
use libevent_1_4_3_stable_le.Event.Insert.{insert_active}
use libevent_1_4_3_stable_le.Event.Put.{put-Updated}

-- The event with new reasons, and calls to make.
abbrev due : Event → Mask → ℕ → Event
due v res ncalls = record v { ev_res = res; ev_ncalls = ncalls; ev_pncalls = false }

-- The event after the call.
abbrev pub activated : Event → Mask → ℕ → Event
activated v res ncalls =
    if v.ev_flags.active
    then record v { ev_res = or_mask v.ev_res res }
    else reflag actives true (due v res ncalls)

module _ {E : Type 0} (granted : ℕ → Bool) {b : EventBase E} (v : IsBase b) (e : ℕ) where
  -- An event with a base and a priority of the table becomes active; an active one keeps its calls and gets the
  -- reasons. No other event has changed, and the base is well formed.
  pub event_active-Updated :
      (res : Mask) (ncalls : ℕ)
      → (b.events e).ev_base ≡ true
      → (b.events e).ev_pri < length b.activequeues
      → Returns
          (Updated b e (activated (b.events e) res ncalls))
          (event_active granted b e res ncalls)
  unfolding event_active
  event_active-Updated res ncalls base inside =
      let w = b.events e in
      let again : Event = record w { ev_res = or_mask w.ev_res res } in
      let first : Event = due w res ncalls in
      let u = put-Updated v e first refl (λ t. refl) (λ t. refl) (λ idle. inl refl) in
      Returns-if_both (Updated b e) w.ev_flags.active
        (λ on.
          returns _ (put-Updated v e again refl (λ t. refl) (λ t. refl) (λ idle. v.idle idle e)))
        (λ off.
          Returns-if w.ev_base
            (λ on.
              Returns-map (insert_active granted u.valid e (rw u.here off) (rw u.here inside))
                λ c t. Updated-step (reflag actives true) u t)
            (λ none'. absurd (cc (base, none'))))
