-- ===== src/MinHeap/Up.antt =====
-- `min_heap_shift_up_` restores the heap from a hole whose children may stay.
use libevent_1_4_3_stable_le.Base.{
  ℕ, zero, suc, ◌/◌, ◌≤◌, ◌<◌, ◌≡◌, Bool, true, false, arith, update, ◌==◌,
}
use libevent_1_4_3_stable_le.Base.Run.{ok, fault, Returns, returns, Returns-map, Returns-if}
use libevent_1_4_3_stable_le.Base.Words.{sub_u32}
use libevent_1_4_3_stable_le.MinHeap.{Heap, load, place, shift_up}
use libevent_1_4_3_stable_le.MinHeap.Order.{
  IsOrder, parent, IsHoled, Settled, moved, Settled-moved, placed-Settled,
}

pub load-ok : (s : Heap) (i : ℕ) → i < s.a → load s i ≡ ok (s.p i)
unfolding load
load-ok s i h = ground arith

pub load-fault : (s : Heap) (i : ℕ) → s.a ≤ i → load s i ≡ fault
unfolding load
load-fault s i h = ground arith

pub place-ok :
    (s : Heap) (i e : ℕ)
    → i < s.a
    → place s i e ≡ ok (record s { p = update s.p i e; idx = update s.idx e i })
unfolding place
place-ok s i e h = ground arith

module _ {greater : ℕ → ℕ → Bool} (order : IsOrder greater) where
  module _ {s : Heap} {i e : ℕ} (v : IsHoled greater s i e) where
    rise-IsHoled :
        0 < i
        → greater (s.p (parent i)) e ≡ true
        → IsHoled greater (moved s i (parent i)) (parent i) e
    rise-IsHoled pos above = record {
      edges = λ c p lt ne ne'. ground (arith, v.edges c, v.bridged c);
      bridged = λ c p lt p' at. ground (
        arith,
        v.edges c,
        v.edges (parent i),
        order.trans (s.p (parent (parent i))) (s.p (parent i)) (s.p c),
      );
      indexed = λ c lt ne. ground (arith, v.indexed c, v.indexed (parent i));
      absent = λ c lt ne. ground (arith, v.absent c, v.absent (parent i));
      allocated = v.allocated;
      small = v.small;
      inside = omega (arith, v.inside);
    }

    rise_below :
        0 < i
        → greater (s.p (parent i)) e ≡ true
        → (c : ℕ) → 0 < c
        → c < s.n
        → parent c ≡ parent i
        → greater e (update s.p i (s.p (parent i)) c) ≡ false
    rise_below pos above c p lt at = ground (
      arith,
      order.asym (s.p (parent i)) e above,
      v.edges c,
      order.trans e (s.p (parent i)) (s.p c),
    )

  pub shift_up-Settled :
      (k : ℕ) (s : Heap) (i e : ℕ)
      → i < k
      → IsHoled greater s i e
      → ((c : ℕ) → 0 < c → c < s.n → parent c ≡ i → greater e (s.p c) ≡ false)
      → Returns (Settled greater s i e) (shift_up greater k s i e)
  unfolding shift_up
  shift_up-Settled zero s i e f v below = absurd (omega arith)
  shift_up-Settled (suc k) s i e f v below =
      let put = place-ok s i e (omega (arith, v.inside, v.allocated)) in
      Returns-if (i == 0)
        (λ root. rw put (returns _ (placed-Settled v (λ pos. ground arith) below)))
        (λ inner.
          let pos : 0 < i = ground arith in
          let up : sub_u32 i 1 / 2 ≡ parent i = omega (arith, v.inside, v.small) in
          rw (up, load-ok s (parent i) (omega (arith, v.inside, v.allocated)))
            (Returns-if (greater (s.p (parent i)) e)
              (λ above. rw (place-ok s i (s.p (parent i)) (omega (arith, v.inside, v.allocated))) (
                Returns-map
                  (shift_up-Settled k (moved s i (parent i)) (parent i) e (omega arith)
                    (rise-IsHoled v pos above) (rise_below v pos above))
                  λ t r. Settled-moved v (omega arith) (omega (arith, v.inside)) r))
              (λ settled. rw put (returns _ (placed-Settled v (λ _. settled) below)))))
