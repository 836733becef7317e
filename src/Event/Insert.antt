-- ===== src/Event/Insert.antt =====
-- `event_queue_insert`: the event comes onto the queue, and all else stays.
use libevent_1_4_3_stable_le.Base.{
  ℕ, suc, ◌+◌, ◌^◌, ◌≤◌, ◌<◌, ◌≡◌, refl, [], ◌∷◌, ◌++◌, length, length-append, length-set, get_or,
  set, update, lt→ltb, Bool, true, false, arith,
}
use libevent_1_4_3_stable_le.Base.Slices.{get_or-set}
use libevent_1_4_3_stable_le.Base.Run.{Returns, returns, Returns-bind}
use libevent_1_4_3_stable_le.MinHeap.Insert.{push-Added_room}
use libevent_1_4_3_stable_le.Event.{
  EventBase, timeouts, inserted, signals, actives, reflag, queue_insert,
}
use libevent_1_4_3_stable_le.Event.Time.{time-IsOrder}
use libevent_1_4_3_stable_le.Event.Invariant.{
  IsBase, Updated, occurs-append, external-append, length_all-set, external_all-set, external_cong,
  external_all_cong,
}
use libevent_1_4_3_stable_le.Event.Agree.{heap_same, internal_same}
use libevent_1_4_3_stable_le.Event.Put.{count_up}

module _ {E : Type 0} (granted : ℕ → Bool) {b : EventBase E} (v : IsBase b) (e : ℕ) where
  pub insert_inserted :
      (b.events e).ev_flags.inserted ≡ false
      → Returns
          (Updated b e (reflag inserted true (b.events e)))
          (queue_insert granted b e inserted)
  unfolding queue_insert
  insert_inserted off =
      let w = reflag inserted true (b.events e) in
      let f = update b.events e w in
      let same = internal_same v e w refl in
      let q = b.eventqueue ++ (e ∷ []) in
      rw off (
        returns _ (record {
          valid = record {
            heap = heap_same v e w b.timeheap refl v.heap;
            timed = λ x. ground (arith, v.timed x);
            untimed = λ x. ground (arith, v.untimed x);
            inserted = λ x. ground (arith, v.inserted x, occurs-append x b.eventqueue (e ∷ []));
            signalled = λ x. ground (arith, v.signalled x);
            active = λ x i. ground (arith, v.active x i);
            total_active = v.total_active;
            timed_external = λ x. ground (arith, v.timed_external x);
            total =
                rw
                  (
                    external_cong f b.events q same,
                    external_cong f b.events b.signalqueue same,
                    external_all_cong f b.events b.activequeues same,
                  )
                  (count_up _ b.event_count _ _ v.total
                    (omega (arith, external-append b.events b.eventqueue (e ∷ []))));
            idle = λ none' x. ground (arith, v.idle none' x);
          };
          here = ground arith;
          others = λ x ne. ground arith;
          timers = refl;
          same_calls = refl;
          same_queues = refl;
          room = omega arith;
        }))

  pub insert_signal :
      (b.events e).ev_flags.signal ≡ false
      → Returns (Updated b e (reflag signals true (b.events e))) (queue_insert granted b e signals)
  unfolding queue_insert
  insert_signal off =
      let w = reflag signals true (b.events e) in
      let f = update b.events e w in
      let same = internal_same v e w refl in
      let q = b.signalqueue ++ (e ∷ []) in
      rw off (
        returns _ (record {
          valid = record {
            heap = heap_same v e w b.timeheap refl v.heap;
            timed = λ x. ground (arith, v.timed x);
            untimed = λ x. ground (arith, v.untimed x);
            inserted = λ x. ground (arith, v.inserted x);
            signalled = λ x. ground (arith, v.signalled x, occurs-append x b.signalqueue (e ∷ []));
            active = λ x i. ground (arith, v.active x i);
            total_active = v.total_active;
            timed_external = λ x. ground (arith, v.timed_external x);
            total =
                rw
                  (
                    external_cong f b.events b.eventqueue same,
                    external_cong f b.events q same,
                    external_all_cong f b.events b.activequeues same,
                  )
                  (count_up _ b.event_count _ _ v.total
                    (omega (arith, external-append b.events b.signalqueue (e ∷ []))));
            idle = λ none' x. ground (arith, v.idle none' x);
          };
          here = ground arith;
          others = λ x ne. ground arith;
          timers = refl;
          same_calls = refl;
          same_queues = refl;
          room = omega arith;
        }))

  pub insert_active :
      (b.events e).ev_flags.active ≡ false
      → (b.events e).ev_pri < length b.activequeues
      → Returns (Updated b e (reflag actives true (b.events e))) (queue_insert granted b e actives)
  unfolding queue_insert
  insert_active off inside =
      let w = reflag actives true (b.events e) in
      let f = update b.events e w in
      let same = internal_same v e w refl in
      let pri = (b.events e).ev_pri in
      let old = get_or b.activequeues pri [] in
      let q = old ++ (e ∷ []) in
      let here' : update b.events e w e ≡ w = ground arith in
      rw (off, here', lt→ltb pri (length b.activequeues) inside)
        (returns _ (record {
          valid = record {
            heap = heap_same v e w b.timeheap refl v.heap;
            timed = λ x. ground (arith, v.timed x);
            untimed = λ x. ground (arith, v.untimed x);
            inserted = λ x. ground (arith, v.inserted x);
            signalled = λ x. ground (arith, v.signalled x);
            active = λ x i. ground (
              arith,
              v.active x i,
              v.active e pri,
              occurs-append x old (e ∷ []),
              get_or-set b.activequeues pri i q [],
            );
            total_active = count_up false b.event_count_active _ _ v.total_active (
                omega
                  (arith, length_all-set b.activequeues pri q inside, length-append old (e ∷ [])));
            timed_external = λ x. ground (arith, v.timed_external x);
            total =
                rw
                  (
                    external_cong f b.events b.eventqueue same,
                    external_cong f b.events b.signalqueue same,
                    external_all_cong f b.events (set b.activequeues pri q) same,
                  )
                  (count_up _ b.event_count _ _ v.total (
                    omega (
                      arith,
                      external_all-set b.events b.activequeues pri q inside,
                      external-append b.events old (e ∷ []),
                    )));
            idle = λ none' x. ground (arith, v.idle none' x);
          };
          here = ground arith;
          others = λ x ne. ground arith;
          timers = refl;
          same_calls = refl;
          same_queues = length-set b.activequeues pri q;
          room = omega arith;
        }))

  pub insert_timeout :
      (b.events e).ev_flags.timeout ≡ false
      → (b.events e).ev_flags.internal ≡ false
      → suc b.timeheap.n < 2 ^ 31
      → b.timeheap.n + 1 ≤ b.timeheap.a
      → Returns
          (Updated b e (reflag timeouts true (b.events e)))
          (queue_insert granted b e timeouts)
  unfolding queue_insert
  insert_timeout off user small room =
      let w = reflag timeouts true (b.events e) in
      let f = update b.events e w in
      let same = internal_same v e w refl in
      rw off (
        Returns-bind
          (push-Added_room (time-IsOrder (λ x. (f x).ev_timeout)) granted b.timeheap e
            (heap_same v e w b.timeheap refl v.heap) (v.untimed e off) small room)
          λ (r, h) (done, new). returns _ (record {
            valid = record {
              heap = new.heap;
              timed = λ x. ground (arith, v.timed x, new.keeps x, new.holds);
              untimed = λ x. ground (arith, v.untimed x, new.frame x, v.heap.small);
              inserted = λ x. ground (arith, v.inserted x);
              signalled = λ x. ground (arith, v.signalled x);
              active = λ x i. ground (arith, v.active x i);
              total_active = v.total_active;
              timed_external = λ x. ground (arith, v.timed_external x);
              total =
                  rw
                    (
                      external_cong f b.events b.eventqueue same,
                      external_cong f b.events b.signalqueue same,
                      external_all_cong f b.events b.activequeues same,
                    )
                    (count_up _ b.event_count _ _ v.total (ground (arith, new.size)));
              idle = λ none' x. ground (arith, v.idle none' x);
            };
            here = ground arith;
            others = λ x ne. ground arith;
            timers = ground (arith, new.size);
            same_calls = refl;
            same_queues = refl;
            room = new.room;
          }))
