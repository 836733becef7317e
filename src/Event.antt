-- ===== src/Event.antt =====
-- event.c: the events that are registered, and those that are due. An event is a number, and `events` is what
-- the structures hold. The tail queues of <sys/queue.h> are lists. The masks `ev_events`, `ev_res` and
-- `ev_flags` are records of their bits. The event base is one, so `ev_base` says only whether an event has it.
-- `E` is the state of the kernel interface, `evbase`.
pub mod Time
pub mod Setup
pub mod Timeouts
pub mod Loop
pub mod Invariant
pub mod Agree
pub mod Put
pub mod Remove
pub mod Insert
pub mod Changes
pub mod Delete
pub mod Activate
pub mod Expire
pub mod Clock
pub mod Wait
pub mod Priorities
pub mod Fresh
pub mod Calls
pub mod Reach
pub mod Samples
mod Tests
pub mod Add
pub mod Register
pub mod Select
pub mod Fitted
pub mod Selecting
pub mod Registering
use libevent_1_4_3_stable_le.Base.{
  ℕ, zero, suc, ◌+◌, ◌≡◌, List, [], ◌∷◌, ◌++◌, length, get_or, set, update, ltb, ◌==◌, not, ◌&&◌,
  ◌||◌, Bool, true, false, if◌then◌else◌, Option, none, some,
}
use libevent_1_4_3_stable_le.Base.Int.{ℤ, pos, negsuc, minus_one, ◌+ℤ◌, eqb_ℤ}
use libevent_1_4_3_stable_le.Base.Run.{Run, ok, fault, exits, ◌>>=◌}
use libevent_1_4_3_stable_le.Base.Words.{add_u32}
use libevent_1_4_3_stable_le.MinHeap.{Heap, reserve, push, erase}
use libevent_1_4_3_stable_le.Event.Time.{Timeval, timeradd, time_lt}

-- EV_TIMEOUT, EV_READ, EV_WRITE, EV_SIGNAL and EV_PERSIST
pub record Mask : Type 0 where
  pub timeout : Bool
  pub read : Bool
  pub write : Bool
  pub signal : Bool
  pub persist : Bool

-- EVLIST_TIMEOUT, EVLIST_INSERTED, EVLIST_SIGNAL, EVLIST_ACTIVE, EVLIST_INTERNAL and EVLIST_INIT
pub record Flags : Type 0 where
  pub timeout : Bool
  pub inserted : Bool
  pub signal : Bool
  pub active : Bool
  pub internal : Bool
  pub init : Bool

-- `min_heap_idx` is in the heap. `ev_pncalls` says whether the pointer is set: all that it points to is
-- the variable `ncalls` of `event_process_active`.
pub record Event : Type 0 where
  pub ev_base : Bool
  pub ev_fd : ℤ
  pub ev_events : Mask
  pub ev_ncalls : ℕ
  pub ev_pncalls : Bool
  pub ev_timeout : Timeval
  pub ev_pri : ℕ
  pub ev_res : Mask
  pub ev_flags : Flags

-- `ncalls` is the variable of `event_process_active`, while that runs. `event_gotsig` is a global variable.
pub record EventBase (E : Type 0) : Type 0 where
  pub events : ℕ → Event
  pub evbase : E
  pub event_count : ℤ
  pub event_count_active : ℤ
  pub event_gotterm : Bool
  pub event_break : Bool
  pub event_gotsig : Bool
  pub activequeues : List (List ℕ)
  pub signalqueue : List ℕ
  pub eventqueue : List ℕ
  pub event_tv : Timeval
  pub timeheap : Heap
  pub ncalls : Option ℕ

-- The four queues that `event_queue_insert` and `event_queue_remove` know.
pub data Queue : Type 0 where
  timeouts inserted signals actives : Queue

abbrev pub flag : Queue → Flags → Bool
flag timeouts f = f.timeout
flag inserted f = f.inserted
flag signals f = f.signal
flag actives f = f.active

abbrev pub with_flag : Queue → Bool → Flags → Flags
with_flag timeouts t f = record f { timeout = t }
with_flag inserted t f = record f { inserted = t }
with_flag signals t f = record f { signal = t }
with_flag actives t f = record f { active = t }

abbrev pub reflag : Queue → Bool → Event → Event
reflag q t v = record v { ev_flags = with_flag q t v.ev_flags }

abbrev pub or_mask : Mask → Mask → Mask
or_mask a b = record {
  timeout = a.timeout || b.timeout;
  read = a.read || b.read;
  write = a.write || b.write;
  signal = a.signal || b.signal;
  persist = a.persist || b.persist;
}

-- `TAILQ_REMOVE`, of an element of the queue
unfoldable pub unlink : ℕ → List ℕ → List ℕ
unlink e [] = []
unlink e (x ∷ q) = let rest = unlink e q in if x == e then q else x ∷ rest

-- `min_heap_elem_greater`
abbrev pub greater : (ℕ → Event) → ℕ → ℕ → Bool
greater events x y = time_lt (events y).ev_timeout (events x).ev_timeout

module _ {E : Type 0} where
  abbrev pub put : EventBase E → ℕ → Event → EventBase E
  put b e v = record b { events = update b.events e v }

  abbrev pub set_flag : EventBase E → ℕ → Queue → Bool → EventBase E
  set_flag b e q t = put b e (reflag q t (b.events e))

  -- The count goes by `delta`, unless the event is internal.
  abbrev pub count_event : EventBase E → ℕ → ℤ → EventBase E
  count_event b e delta = record b {
    event_count = if (b.events e).ev_flags.internal then b.event_count else b.event_count +ℤ delta;
  }

  -- The queue of the event's priority, with `f` done to it.
  abbrev pub on_active : EventBase E → ℕ → (List ℕ → List ℕ) → ℤ → Run (EventBase E)
  on_active b e f delta =
      let pri = (b.events e).ev_pri in
      if ltb pri (length b.activequeues)
      then ok (record b {
        event_count_active = b.event_count_active +ℤ delta;
        activequeues = set b.activequeues pri (f (get_or b.activequeues pri []));
      })
      else fault

  -- The `switch` of `event_queue_remove`.
  unfoldable pub take_from : Queue → EventBase E → ℕ → Run (EventBase E)
  unfolding unlink
  take_from actives b e = on_active b e (unlink e) minus_one
  take_from signals b e = ok (record b { signalqueue = unlink e b.signalqueue })
  take_from timeouts b e =
      erase (greater b.events) b.timeheap e >>= λ (r, h). ok (record b { timeheap = h })
  take_from inserted b e = ok (record b { eventqueue = unlink e b.eventqueue })

  unfoldable pub queue_remove : EventBase E → ℕ → Queue → Run (EventBase E)
  unfolding take_from
  queue_remove b e q =
      if flag q (b.events e).ev_flags
      then take_from q (set_flag (count_event b e minus_one) e q false) e
      else exits

  -- `*ev->ev_pncalls = 0` if `ev_ncalls` and the pointer are set
  unfoldable pub abort_calls : EventBase E → ℕ → Run (EventBase E)
  abort_calls b e =
      let v = b.events e in
      let aborted : Run (EventBase E) = elim b.ncalls [
        | none ↦ fault
        | some n ↦ ok (record b { ncalls = some 0 })
      ] in
      if v.ev_pncalls && not (v.ev_ncalls == 0) then aborted else ok b

  -- What `event_add`, `event_del` and `event_active` do if the flag is set.
  unfoldable pub remove_if_on : EventBase E → ℕ → Queue → Run (EventBase E)
  remove_if_on b e q = if flag q (b.events e).ev_flags then queue_remove b e q else ok b

-- What a kernel interface does to the base when an event is added to it or deleted from it. For a signal it
-- may register an event of its own. `accepts` says for which descriptors and masks of events its calls are
-- defined: evsignal_add, say, ends the process if an event waits both for a signal and to read.
pub record Evsel (E : Type 0) : Type 0 where
  pub accepts : ℤ → Mask → Bool
  pub add : EventBase E → ℕ → Run (ℤ × EventBase E)
  pub del : EventBase E → ℕ → Run (ℤ × EventBase E)
  pub dispatch : EventBase E → Option Timeval → Run (ℤ × EventBase E)

-- `granted` is what `realloc` grants to the heap.
module _ {E : Type 0} (granted : ℕ → Bool) where
  -- The `switch` of `event_queue_insert`. What the push returns is not looked at.
  unfoldable pub add_to : Queue → EventBase E → ℕ → Run (EventBase E)
  add_to actives b e = on_active b e (λ q. q ++ (e ∷ [])) (pos 1)
  add_to signals b e = ok (record b { signalqueue = b.signalqueue ++ (e ∷ []) })
  add_to timeouts b e =
      push (greater b.events) granted b.timeheap e >>= λ (r, h). ok (record b { timeheap = h })
  add_to inserted b e = ok (record b { eventqueue = b.eventqueue ++ (e ∷ []) })

  -- A second insertion is let pass for the active events only.
  unfoldable pub queue_insert : EventBase E → ℕ → Queue → Run (EventBase E)
  unfolding add_to
  queue_insert b e q =
      let twice : Run (EventBase E) = elim q [ actives ↦ ok b | _ ↦ exits ] in
      if flag q (b.events e).ev_flags
      then twice
      else add_to q (set_flag (count_event b e (pos 1)) e q true) e

  -- The timeout that is in the heap is taken out, or room is made for one.
  unfoldable pub make_room : EventBase E → ℕ → Run (ℤ × EventBase E)
  make_room b e =
      let (r, h) = reserve granted b.timeheap (add_u32 1 b.timeheap.n) in
      if (b.events e).ev_flags.timeout
      then (queue_remove b e timeouts >>= λ c. ok (pos 0, c))
      else ok (r, record b { timeheap = h })

  -- An event that is active because of a timeout is taken off the active ones.
  unfoldable pub cancel_timeout : EventBase E → ℕ → Run (EventBase E)
  cancel_timeout b e =
      let v = b.events e in
      let cancelled = abort_calls b e >>= λ c. queue_remove c e actives in
      if v.ev_flags.active && v.ev_res.timeout then cancelled else ok b

  -- The timeout is set and put into the heap.
  unfoldable pub schedule : EventBase E → ℕ → Timeval → Run (EventBase E)
  schedule b e at = queue_insert (put b e (record (b.events e) { ev_timeout = at })) e timeouts

  -- The part of `event_add` under `tv != NULL`, where `now` is what `gettime` gives.
  unfoldable pub add_timeout : Timeval → EventBase E → ℕ → Timeval → Run (ℤ × EventBase E)
  add_timeout now b e tv = do
    (r, c) ← make_room b e
    let timed : Run (ℤ × EventBase E) = do
      d ← cancel_timeout c e
      scheduled ← schedule d e (timeradd now tv)
      ok (pos 0, scheduled)
    elim r [ pos _ ↦ timed | negsuc _ ↦ ok (minus_one, c) ]

  -- `evsel->add`, and the insertion unless that returned -1.
  unfoldable pub register : Evsel E → EventBase E → ℕ → Queue → Run (ℤ × EventBase E)
  register evsel b e q = do
    (r, c) ← evsel.add b e
    let done = queue_insert c e q >>= λ d. ok (r, d)
    if eqb_ℤ r minus_one then ok (r, c) else done

  -- The part of `event_add` behind the timeout.
  unfoldable pub add_to_evsel : Evsel E → EventBase E → ℕ → Run (ℤ × EventBase E)
  add_to_evsel evsel b e =
      let v = b.events e in
      let f = v.ev_flags in
      if (v.ev_events.read || v.ev_events.write) && not (f.inserted || f.active)
      then register evsel b e inserted
      else if v.ev_events.signal && not f.signal
      then register evsel b e signals
      else ok (pos 0, b)

  -- `event_add` of an event with a base.
  unfoldable pub add_based :
      Evsel E → Timeval → EventBase E → ℕ → Option Timeval → Run (ℤ × EventBase E)
  add_based evsel now b e none = add_to_evsel evsel b e
  add_based evsel now b e (some tv) = do
    (r, c) ← add_timeout now b e tv
    elim r [ pos _ ↦ add_to_evsel evsel c e | negsuc _ ↦ ok (minus_one, c) ]

  unfoldable pub event_add :
      Evsel E → Timeval → EventBase E → ℕ → Option Timeval → Run (ℤ × EventBase E)
  event_add evsel now b e tv = if (b.events e).ev_base then add_based evsel now b e tv else fault

  unfoldable pub event_active : EventBase E → ℕ → Mask → ℕ → Run (EventBase E)
  event_active b e res ncalls =
      let v = b.events e in
      let again = put b e (record v { ev_res = or_mask v.ev_res res }) in
      let first = put b e (record v { ev_res = res; ev_ncalls = ncalls; ev_pncalls = false }) in
      if v.ev_flags.active
      then ok again
      else if v.ev_base
      then queue_insert first e actives
      else fault

module _ {E : Type 0} where
  -- `evsel->del` of an event that was inserted or waited for a signal.
  unfoldable pub del_from_evsel : Evsel E → EventBase E → ℕ → Run (ℤ × EventBase E)
  del_from_evsel evsel b e =
      let f = (b.events e).ev_flags in
      if f.inserted
      then (queue_remove b e inserted >>= λ c. evsel.del c e)
      else if f.signal
      then (queue_remove b e signals >>= λ c. evsel.del c e)
      else ok (pos 0, b)

  unfoldable pub event_del : Evsel E → EventBase E → ℕ → Run (ℤ × EventBase E)
  event_del evsel b e =
      let deleted : Run (ℤ × EventBase E) = do
        c ← abort_calls b e
        d ← remove_if_on c e timeouts
        d' ← remove_if_on d e actives
        del_from_evsel evsel d' e
      in if (b.events e).ev_base then deleted else ok (minus_one, b)
