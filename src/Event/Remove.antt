-- ===== src/Event/Remove.antt =====
-- `event_queue_remove`: the event leaves the queue, and no other does.
use libevent_1_4_3_stable_le.Base.{
  ℕ, ◌<◌, ◌≡◌, refl, [], length, length-set, get_or, set, update, lt→ltb, true, false, arith,
}
use libevent_1_4_3_stable_le.Base.Slices.{get_or-set}
use libevent_1_4_3_stable_le.Base.Run.{Returns, returns, Returns-bind}
use libevent_1_4_3_stable_le.MinHeap.Remove.{erase-Removed}
use libevent_1_4_3_stable_le.Event.{
  EventBase, Queue, timeouts, inserted, signals, actives, reflag, flag, unlink, queue_remove,
}
use libevent_1_4_3_stable_le.Event.Time.{time-IsOrder}
use libevent_1_4_3_stable_le.Event.Invariant.{
  IsBase, Updated, occurs, occurs-unlink, length-unlink, external-unlink, length_all-set,
  external_all-set, external_cong, external_all_cong,
}
use libevent_1_4_3_stable_le.Event.Agree.{heap_same, internal_same, get_or_inside, count_down}

module _ {E : Type 0} {b : EventBase E} (v : IsBase b) (e : ℕ) where
  remove_inserted :
      (b.events e).ev_flags.inserted ≡ true
      → Returns (Updated b e (reflag inserted false (b.events e))) (queue_remove b e inserted)
  unfolding queue_remove
  remove_inserted on =
      let w = reflag inserted false (b.events e) in
      let f = update b.events e w in
      let same = internal_same v e w refl in
      let there : 0 < occurs e b.eventqueue = ground (arith, v.inserted e) in
      rw on (
        returns _ (record {
          valid = record {
            heap = heap_same v e w b.timeheap refl v.heap;
            timed = λ x. ground (arith, v.timed x);
            untimed = λ x. ground (arith, v.untimed x);
            inserted = λ x. ground (arith, v.inserted x, occurs-unlink x e b.eventqueue);
            signalled = λ x. ground (arith, v.signalled x);
            active = λ x i. ground (arith, v.active x i);
            total_active = v.total_active;
            timed_external = λ x. ground (arith, v.timed_external x);
            total =
                rw
                  (
                    external_cong f b.events (unlink e b.eventqueue) same,
                    external_cong f b.events b.signalqueue same,
                    external_all_cong f b.events b.activequeues same,
                  )
                  (count_down _ b.event_count _ _ v.total
                    (omega (arith, external-unlink b.events e b.eventqueue there)));
            idle = λ none' x. ground (arith, v.idle none' x);
          };
          here = ground arith;
          others = λ x ne. ground arith;
          timers = refl;
          same_calls = refl;
          same_queues = refl;
          room = omega arith;
        }))

  remove_signal :
      (b.events e).ev_flags.signal ≡ true
      → Returns (Updated b e (reflag signals false (b.events e))) (queue_remove b e signals)
  unfolding queue_remove
  remove_signal on =
      let w = reflag signals false (b.events e) in
      let f = update b.events e w in
      let same = internal_same v e w refl in
      let there : 0 < occurs e b.signalqueue = ground (arith, v.signalled e) in
      rw on (
        returns _ (record {
          valid = record {
            heap = heap_same v e w b.timeheap refl v.heap;
            timed = λ x. ground (arith, v.timed x);
            untimed = λ x. ground (arith, v.untimed x);
            inserted = λ x. ground (arith, v.inserted x);
            signalled = λ x. ground (arith, v.signalled x, occurs-unlink x e b.signalqueue);
            active = λ x i. ground (arith, v.active x i);
            total_active = v.total_active;
            timed_external = λ x. ground (arith, v.timed_external x);
            total =
                rw
                  (
                    external_cong f b.events b.eventqueue same,
                    external_cong f b.events (unlink e b.signalqueue) same,
                    external_all_cong f b.events b.activequeues same,
                  )
                  (count_down _ b.event_count _ _ v.total
                    (omega (arith, external-unlink b.events e b.signalqueue there)));
            idle = λ none' x. ground (arith, v.idle none' x);
          };
          here = ground arith;
          others = λ x ne. ground arith;
          timers = refl;
          same_calls = refl;
          same_queues = refl;
          room = omega arith;
        }))

  remove_active :
      (b.events e).ev_flags.active ≡ true
      → Returns (Updated b e (reflag actives false (b.events e))) (queue_remove b e actives)
  unfolding queue_remove
  remove_active on =
      let w = reflag actives false (b.events e) in
      let f = update b.events e w in
      let same = internal_same v e w refl in
      let pri = (b.events e).ev_pri in
      let there : 0 < occurs e (get_or b.activequeues pri []) = ground (arith, v.active e pri) in
      let inside : pri < length b.activequeues = get_or_inside b.activequeues pri e there in
      let q = unlink e (get_or b.activequeues pri []) in
      let here' : update b.events e w e ≡ w = ground arith in
      rw (on, here', lt→ltb pri (length b.activequeues) inside)
        (returns _ (record {
          valid = record {
            heap = heap_same v e w b.timeheap refl v.heap;
            timed = λ x. ground (arith, v.timed x);
            untimed = λ x. ground (arith, v.untimed x);
            inserted = λ x. ground (arith, v.inserted x);
            signalled = λ x. ground (arith, v.signalled x);
            active = λ x i. ground (
              arith,
              v.active x i,
              v.active e pri,
              occurs-unlink x e (get_or b.activequeues pri []),
              get_or-set b.activequeues pri i q [],
            );
            total_active = count_down false b.event_count_active _ _ v.total_active (
                omega (
                  arith,
                  length_all-set b.activequeues pri q inside,
                  length-unlink e (get_or b.activequeues pri []) there,
                ));
            timed_external = λ x. ground (arith, v.timed_external x);
            total =
                rw
                  (
                    external_cong f b.events b.eventqueue same,
                    external_cong f b.events b.signalqueue same,
                    external_all_cong f b.events (set b.activequeues pri q) same,
                  )
                  (count_down _ b.event_count _ _ v.total (
                    omega (
                      arith,
                      external_all-set b.events b.activequeues pri q inside,
                      external-unlink b.events e (get_or b.activequeues pri []) there,
                    )));
            idle = λ none' x. ground (arith, v.idle none' x);
          };
          here = ground arith;
          others = λ x ne. ground arith;
          timers = refl;
          same_calls = refl;
          same_queues = length-set b.activequeues pri q;
          room = omega arith;
        }))

  remove_timeout :
      (b.events e).ev_flags.timeout ≡ true
      → Returns (Updated b e (reflag timeouts false (b.events e))) (queue_remove b e timeouts)
  unfolding queue_remove
  remove_timeout on =
      let w = reflag timeouts false (b.events e) in
      let f = update b.events e w in
      let same = internal_same v e w refl in
      rw on (
        Returns-bind
          (erase-Removed (time-IsOrder (λ x. (f x).ev_timeout))
            (heap_same v e w b.timeheap refl v.heap) e (v.timed e on))
          λ (r, h) (done, gone). returns _ (record {
            valid = record {
              heap = gone.heap;
              timed = λ x. ground (arith, v.timed x, gone.keeps x);
              untimed = λ x. ground (arith, v.untimed x, gone.cleared, gone.frame x, v.heap.small);
              inserted = λ x. ground (arith, v.inserted x);
              signalled = λ x. ground (arith, v.signalled x);
              active = λ x i. ground (arith, v.active x i);
              total_active = v.total_active;
              timed_external = λ x. ground (arith, v.timed_external x);
              total =
                  rw
                    (
                      external_cong f b.events b.eventqueue same,
                      external_cong f b.events b.signalqueue same,
                      external_all_cong f b.events b.activequeues same,
                    )
                    (count_down _ b.event_count _ _ v.total
                      (ground (arith, gone.size, v.timed_external e)));
              idle = λ none' x. ground (arith, v.idle none' x);
            };
            here = ground arith;
            others = λ x ne. ground arith;
            timers = ground (arith, gone.size);
            same_calls = refl;
            same_queues = refl;
            room = gone.room;
          }))

  -- `event_queue_remove` of an event that stands on the queue returns.
  pub queue_remove-Updated :
      (q : Queue)
      → flag q (b.events e).ev_flags ≡ true
      → Returns (Updated b e (reflag q false (b.events e))) (queue_remove b e q)
  queue_remove-Updated timeouts on = remove_timeout on
  queue_remove-Updated inserted on = remove_inserted on
  queue_remove-Updated signals on = remove_signal on
  queue_remove-Updated actives on = remove_active on
