-- ===== src/MinHeap/Down.antt =====
-- `min_heap_shift_down_` restores the heap from a hole anywhere in it.
use libevent_1_4_3_stable_le.Base.{
  ℕ, zero, suc, ◌+◌, ◌*◌, ◌≤◌, ◌<◌, ◌≡◌, ◌⊎◌, Bool, false, arith, ◌==◌, leb,
}
use libevent_1_4_3_stable_le.Base.Run.{
  Returns, returns, Returns-map, Returns-bind, Returns-if, Returns-ok_if,
}
use libevent_1_4_3_stable_le.Base.Words.{sub_u32, add_u32, mul_u32}
use libevent_1_4_3_stable_le.MinHeap.{Heap, min_child, shift_down}
use libevent_1_4_3_stable_le.MinHeap.Order.{IsOrder, parent, IsHoled, Settled, moved, Settled-moved}
use libevent_1_4_3_stable_le.MinHeap.Up.{load-ok, place-ok, shift_up-Settled}

module _ {greater : ℕ → ℕ → Bool} (order : IsOrder greater) where
  -- `c` is a child of `i`, and no child is smaller.
  record IsMinChild (s : Heap) (i c : ℕ) : Type 0 where
    inside : c < s.n
    child : parent c ≡ i
    later : i < c
    least : (d : ℕ) → 0 < d → d < s.n → parent d ≡ i → greater (s.p c) (s.p d) ≡ false

  child_cases : {i : ℕ} (d : ℕ) → 0 < d → parent d ≡ i → (d ≡ 2 * i + 1) ⊎ (d ≡ 2 * (i + 1))
  child_cases d p at = omega arith

  module _ {s : Heap} {i e : ℕ} (v : IsHoled greater s i e) where
    min_child-IsMinChild :
        2 * (i + 1) ≤ s.n → Returns (IsMinChild s i) (min_child greater s (2 * (i + 1)))
    unfolding min_child
    min_child-IsMinChild h =
        let left : sub_u32 (2 * (i + 1)) 1 ≡ 2 * i + 1 = omega (arith, v.small) in
        rw left (
          Returns-if (2 * (i + 1) == s.n)
            (λ only. returns (2 * i + 1) (record {
              inside = ground arith;
              child = omega arith;
              later = omega arith;
              least = λ d p lt at.
                  let same : d ≡ 2 * i + 1 = ground arith in
                  ground (arith, order.asym (s.p d) (s.p d));
            }))
            (λ both.
              let in_n : 2 * (i + 1) < s.n = ground arith in
              rw
                (
                  load-ok s (2 * (i + 1)) (omega (arith, v.allocated)),
                  load-ok s (2 * i + 1) (omega (arith, v.allocated)),
                )
                (Returns-ok_if _ _ (greater (s.p (2 * (i + 1))) (s.p (2 * i + 1)))
                  (λ above. record {
                    inside = omega arith;
                    child = omega arith;
                    later = omega arith;
                    least = λ d p lt at. ground (
                      arith,
                      order.asym (s.p (2 * (i + 1))) (s.p (2 * i + 1)) above,
                      order.asym (s.p d) (s.p d),
                      child_cases d p at,
                    );
                  })
                  (λ below. record {
                    inside = omega arith;
                    child = omega arith;
                    later = omega arith;
                    least = λ d p lt at.
                        ground (arith, below, order.asym (s.p d) (s.p d), child_cases d p at);
                  }))))

    sink-IsHoled : {c : ℕ} → IsMinChild s i c → IsHoled greater (moved s i c) c e
    sink-IsHoled {c} m = record {
      edges = λ d p lt ne ne'.
          ground (arith, v.edges d, v.bridged c, m.least d, m.child, m.inside, m.later, v.inside);
      bridged = λ d p lt p' at. ground (arith, v.edges d, m.child, m.inside, m.later);
      indexed = λ d lt ne. ground (arith, v.indexed d, v.indexed c, m.inside, m.later);
      absent = λ d lt ne. ground (arith, v.absent d, v.absent c, m.inside, m.later);
      allocated = v.allocated;
      small = v.small;
      inside = m.inside;
    }

  pub shift_down-Settled :
      (k : ℕ) (s : Heap) (i e : ℕ)
      → s.n < i + k
      → IsHoled greater s i e
      → Returns (Settled greater s i e) (shift_down greater k s i e)
  unfolding shift_down
  shift_down-Settled zero s i e f v = absurd (omega (arith, v.inside))
  shift_down-Settled (suc k) s i e f v =
      let right : mul_u32 2 (add_u32 i 1) ≡ 2 * (i + 1) = omega (arith, v.inside, v.small) in
      let settle = shift_up-Settled order (suc i) s i e (omega arith) v in
      rw right (
        Returns-if (leb (2 * (i + 1)) s.n)
          (λ more. Returns-bind (min_child-IsMinChild v (ground arith)) λ c m.
            rw (load-ok s c (omega (arith, m.inside, v.allocated))) (
              Returns-if (greater e (s.p c))
                (λ above. rw (place-ok s i (s.p c) (omega (arith, v.inside, v.allocated))) (
                  Returns-map
                    (shift_down-Settled k (moved s i c) c e (omega (arith, m.later))
                      (sink-IsHoled v m))
                    λ t r. Settled-moved v (omega (arith, m.later)) m.inside r))
                (λ below.
                  settle (λ d p lt at. order.trans e (s.p c) (s.p d) below (m.least d p lt at)))))
          (λ done. settle (λ d p lt at. absurd (ground arith))))
