-- ===== src/Event/Selecting.antt =====
-- select.c as a kernel interface: it meets what event.c relies on. The calls return whatever `realloc` answers.
use libevent_1_4_3_stable_le.Base.{ℕ, ◌≡◌, refl, Bool, true, false, if◌then◌else◌, arith}
use libevent_1_4_3_stable_le.Base.Int.{ℤ}
use libevent_1_4_3_stable_le.Base.Run.{
  Run, ok, fault, exits, diverges, Returns, returns, Returns-if, Returns-value, with_value, ◌>>=◌,
}
use libevent_1_4_3_stable_le.Event.{EventBase, Evsel}
use libevent_1_4_3_stable_le.Event.Select.{Selectop, select_add, select_del}
use libevent_1_4_3_stable_le.Event.Invariant.{IsBase}
use libevent_1_4_3_stable_le.Event.Changes.{Changed, IsEvsel}
use libevent_1_4_3_stable_le.Event.Fitted.{select_accepts, Fits, select_add-Fits, select_del-Fits}

-- `evbase` of select.c, which stays as the calls need it.
pub record Fitted : Type 0 where
  pub sop : Selectop
  pub fits : Fits sop

-- The result of a call, with what is known of it.
abbrev fitted : (r : Run (ℤ × Selectop)) → Returns (λ (z, s). Fits s) r → Run (ℤ × Fitted)
fitted (ok (z, s)) law = ok (z, record { sop = s; fits = Returns-value (z, s) refl law })
fitted fault law = fault
fitted exits law = exits
fitted diverges law = diverges

-- `f` of a test that came out true.
abbrev if_true : {A : Type 0} (t : Bool) → (t ≡ true → Run A) → Run A
if_true true f = f refl
if_true false f = fault

abbrev with_sop : EventBase Fitted → Run (ℤ × Fitted) → Run (ℤ × EventBase Fitted)
with_sop b r = r >>= λ (z, s). ok (z, record b { evbase = s })

-- `selectops`. An event that is not accepted and is no signal has a descriptor out of bounds. What the calls do
-- for a signal, and the wait, are those of `others`.
unfoldable pub select_evsel : (ℕ → ℕ → Bool) → Evsel Fitted → Evsel Fitted
unfolding select_add select_del
select_evsel grants others = record {
  accepts = select_accepts;
  add = λ b e.
      let v = b.events e in
      let own = if_true (select_accepts v.ev_fd v.ev_events) λ known. with_sop b (
        fitted (select_add grants b.evbase.sop e v)
          (select_add-Fits grants b.evbase.sop e v b.evbase.fits known)) in
      if v.ev_events.signal then others.add b e else own;
  del = λ b e.
      let v = b.events e in
      let own = if_true (select_accepts v.ev_fd v.ev_events) λ known.
        with_sop b (
          fitted (select_del b.evbase.sop v)
            (select_del-Fits b.evbase.sop v b.evbase.fits known)) in
      if v.ev_events.signal then others.del b e else own;
  dispatch = others.dispatch;
}

-- The base is as it was but for `evbase`.
resop-Changed :
    (b : EventBase Fitted) (e : ℕ) (s : Fitted)
    → IsBase b
    → Changed b e (b.events e) (record b { evbase = s })
resop-Changed b e s v = record {
  valid = record {
    heap = v.heap;
    timed = v.timed;
    untimed = v.untimed;
    inserted = v.inserted;
    signalled = v.signalled;
    active = v.active;
    total_active = v.total_active;
    timed_external = v.timed_external;
    total = v.total;
    idle = v.idle;
  };
  here = refl;
  others = λ x ne user. refl;
  same_internal = λ x ne. refl;
  timers = refl;
  same_frame = refl;
  same_queues = refl;
  room = omega arith;
}

own-Changed :
    (b : EventBase Fitted) (e : ℕ) (t : Bool) (r : Run (ℤ × Selectop))
    (law : t ≡ true → Returns (λ (z, s). Fits s) r)
    → IsBase b
    → t ≡ true
    → Returns
        (λ (z, c). Changed b e (b.events e) c)
        (if_true t λ known. with_sop b (fitted r (law known)))
own-Changed b e false r law v known = absurd (cc known)
own-Changed b e true r law v known = made r (law refl)
  where
    made :
        (r : Run (ℤ × Selectop)) (law : Returns (λ (z, s). Fits s) r)
        → Returns (λ (z, c). Changed b e (b.events e) c) (with_sop b (fitted r law))
    made (ok (z, s)) law = returns _ (resop-Changed b e _ v)
    made fault (with_value p at h) = absurd (cc at)
    made exits (with_value p at h) = absurd (cc at)
    made diverges (with_value p at h) = absurd (cc at)

pub select_evsel-IsEvsel :
    (grants : ℕ → ℕ → Bool) (others : Evsel Fitted) → IsEvsel (select_evsel grants others)
unfolding select_evsel
select_evsel-IsEvsel grants others = record {
  add_lem = λ b e v known.
      let w = b.events e in
      Returns-if w.ev_events.signal (λ signal. absurd (ground arith))
        (λ own.
          own-Changed b e (select_accepts w.ev_fd w.ev_events) (select_add grants b.evbase.sop e w)
            (select_add-Fits grants b.evbase.sop e w b.evbase.fits) v known);
  del_lem = λ b e v known.
      let w = b.events e in
      Returns-if w.ev_events.signal (λ signal. absurd (ground arith))
        (λ own.
          own-Changed b e (select_accepts w.ev_fd w.ev_events) (select_del b.evbase.sop w)
            (select_del-Fits b.evbase.sop w b.evbase.fits) v known);
}
