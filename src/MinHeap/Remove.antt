-- ===== src/MinHeap/Remove.antt =====
-- `min_heap_top`, `min_heap_pop` and `min_heap_erase`.
use libevent_1_4_3_stable_le.Base.{
  ℕ, zero, suc, ◌-◌, ◌+◌, ◌*◌, ◌/◌, ◌^◌, ◌≤◌, ◌<◌, ◌≡◌, ◌≢◌, ◌⊎◌, ◌∙◌, Bool, false, arith, inl, inr,
  none, refl, some, update, ℕ_discrete, leb, eq→==, ne→==, lt→ltb,
}
use libevent_1_4_3_stable_le.Base.Run.{ok, fault, Returns, returns, Returns-bind}
use libevent_1_4_3_stable_le.Base.Int.{pos}
use libevent_1_4_3_stable_le.Base.Words.{add_u32, sub_u32, mul_u32}
use libevent_1_4_3_stable_le.MinHeap.{
  Heap, no_index, pop, erase, shift_up, shift_down, set_index, top, load,
}
use libevent_1_4_3_stable_le.MinHeap.Order.{IsOrder, parent, In, InHole, IsHeap, IsHoled, Settled}
use libevent_1_4_3_stable_le.MinHeap.Up.{load-ok, load-fault, place-ok}
use libevent_1_4_3_stable_le.MinHeap.Down.{shift_down-Settled}

-- The heap's first event, if it has one.
pub top_cases :
    (greater : ℕ → ℕ → Bool) (s : Heap)
    → IsHeap greater s
    → ((s.n ≡ 0) × (top s ≡ ok none)) ⊎ ((0 < s.n) × (top s ≡ ok (some (s.p 0))))
unfolding top load
top_cases greater s h = elim (ℕ_discrete s.n 0) [
  | yes none' ↦ inl (none', rw none' refl)
  | no some' ↦
      inr (omega arith, rw (ne→== s.n 0 some', lt→ltb 0 s.a (omega (arith, h.allocated))) refl)
]

module _ (greater : ℕ → ℕ → Bool) where
  -- `t` is `s` without `e`, and `e` knows that it is in no heap.
  pub record Removed (s : Heap) (e : ℕ) (t : Heap) : Type 0 where
    pub heap : IsHeap greater t
    pub size : t.n + 1 ≡ s.n
    pub cleared : t.idx e ≡ no_index
    pub keeps : (x : ℕ) → x ≢ e → In s x → In t x
    pub only : (x : ℕ) → In t x → (x ≢ e) × In s x
    pub frame : (x : ℕ) → x ≢ e → (t.idx x ≡ s.idx x) ⊎ In s x
    pub room : s.a ≤ t.a

-- An empty heap is searched behind its array.
erase-empty :
    (greater : ℕ → ℕ → Bool) (t : Heap) (e : ℕ)
    → t.n ≡ 0
    → t.idx e ≡ 0
    → t.a < 2 ^ 32 - 1
    → erase greater t e ≡ fault
unfolding erase
erase-empty greater t e none' zero' bound =
    let wrapped : sub_u32 t.n 1 ≡ no_index = omega arith in
    rw (zero', wrapped, load-fault t no_index (omega arith))

module _ {greater : ℕ → ℕ → Bool} (order : IsOrder greater) {s : Heap} (h : IsHeap greater s) where
  root_least_below : (k i : ℕ) → i < k → i < s.n → greater (s.p 0) (s.p i) ≡ false
  root_least_below zero i f lt = absurd (omega arith)
  root_least_below (suc k) zero f lt = ground (arith, order.asym (s.p 0) (s.p 0))
  root_least_below (suc k) (suc i) f lt =
      let up : parent (suc i) < suc i = omega arith in
      order.trans (s.p 0) (s.p (parent (suc i))) (s.p (suc i))
        (root_least_below k (parent (suc i)) (omega arith) (omega arith))
        (h.ordered (suc i) (omega arith) lt)

  -- No event of a heap is smaller than the root.
  pub root_least : (x : ℕ) → In s x → greater (s.p 0) x ≡ false
  root_least x (lt, at) = rw at at (root_least_below (suc (s.idx x)) (s.idx x) (omega arith) lt)

  -- The place `i` is emptied, for the last event to come to it. Only the event of `i` may have another
  -- index by then.
  emptied-IsHoled :
      (i : ℕ) (ix : ℕ → ℕ)
      → i + 1 < s.n
      → ((x : ℕ) → x ≢ s.p i → ix x ≡ s.idx x)
      → IsHoled greater (record s { n = s.n - 1; idx = ix }) i (s.p (s.n - 1))
  emptied-IsHoled i ix lt same = record {
    edges = λ c p lt' ne ne'. h.ordered c p (omega arith);
    bridged = λ c p lt' pos at.
        order.trans (s.p (parent i)) (s.p i) (s.p c) (h.ordered i pos (omega arith))
          (ground (arith, h.ordered c));
    indexed = λ c lt' ne. ground (arith, same (s.p c), h.indexed c, h.indexed i);
    absent = λ c lt' ne. λ e. ground (arith, h.indexed c, h.indexed (s.n - 1));
    allocated = omega (arith, h.allocated);
    small = omega (arith, h.small);
    inside = omega arith;
  }

  -- Once the hole is settled, and the index of the event that left is cleared.
  module _ (i : ℕ) (ix : ℕ → ℕ) (t : Heap) (ix' : ℕ → ℕ) (lt : i + 1 < s.n)
      (same : (x : ℕ) → x ≢ s.p i → ix x ≡ s.idx x)
      (left : (ix (s.p i) ≡ i) ⊎ (ix (s.p i) ≡ no_index))
      (r : Settled greater (record s { n = s.n - 1; idx = ix }) i (s.p (s.n - 1)) t)
      (same' : (x : ℕ) → x ≢ s.p i → ix' x ≡ t.idx x) (cleared' : ix' (s.p i) ≡ no_index) where
    gone : (c : ℕ) → c < t.n → t.p c ≢ s.p i
    gone c lt' at =
        let holds : t.idx (s.p i) < t.n = ground (arith, r.heap.indexed c) in
        let where_at : t.p (t.idx (s.p i)) ≡ s.p i = ground (arith, r.heap.indexed c) in
        elim (r.only (s.p i) (holds, where_at)) [
          | inl last ↦ ground (arith, h.indexed i, h.indexed (s.n - 1))
          | inr (a, b, c') ↦ omega (arith, left, h.small)
        ]

    from_hole : (x : ℕ) → x ≢ s.p i → InHole (record s { n = s.n - 1; idx = ix }) i x → In s x
    from_hole x ne (a, b, c) = ground (arith, same x ne)

    hole_keeps : (x : ℕ) → x ≢ s.p i → In s x → In (record t { idx = ix' }) x
    hole_keeps x ne (lt', at) = elim (ℕ_discrete x (s.p (s.n - 1))) [
      | yes last ↦ rw (same' x ne, last) r.holds
      | no other ↦
          let inner : InHole (record s { n = s.n - 1; idx = ix }) i x = ground (arith, same x ne) in
          rw (same' x ne) (r.keeps x other inner)
    ]

    hole_only : (x : ℕ) → In (record t { idx = ix' }) x → (x ≢ s.p i) × In s x
    hole_only x (lt', at) =
        let ne : x ≢ s.p i = λ e. ground (arith, cleared', r.same_n, h.small) in
        let there : In t x = ground (arith, same' x ne) in
        (
          ne,
          elim (r.only x there) [
            | inl last ↦ ground (arith, h.indexed (s.n - 1))
            | inr other ↦ from_hole x ne other
          ],
        )

    hole-Removed : Removed greater s (s.p i) (record t { idx = ix' })
    hole-Removed = record {
      heap = record {
        ordered = r.heap.ordered;
        indexed = λ c lt'. ground (arith, gone c, same' (t.p c), r.heap.indexed c);
        allocated = r.heap.allocated;
        small = r.heap.small;
      };
      size = omega (arith, r.same_n);
      cleared = cleared';
      keeps = hole_keeps;
      only = hole_only;
      room = omega (arith, r.same_a);
      frame = λ x ne. elim (ℕ_discrete x (s.p (s.n - 1))) [
        | yes last ↦ inr (ground (arith, h.indexed (s.n - 1)))
        | no other ↦ elim (r.frame x other) [
          | inl kept ↦ inl (same' x ne ∙ kept ∙ same x ne)
          | inr inner ↦ inr (from_hole x ne inner)
        ]
      ];
    }

  -- The last event of the array is taken away: nothing moves.
  module _ (ix : ℕ → ℕ) (some' : 0 < s.n) (same : (x : ℕ) → x ≢ s.p (s.n - 1) → ix x ≡ s.idx x)
      (cleared' : ix (s.p (s.n - 1)) ≡ no_index) where
    last-Removed :
        (q : ℕ → ℕ)
        → ((c : ℕ) → c < s.n → q c ≡ s.p c)
        → Removed greater s (s.p (s.n - 1)) (record s { p = q; n = s.n - 1; idx = ix })
    last-Removed q kept = record {
      heap = record {
        ordered = λ c p lt. ground (arith, kept c, kept (parent c), h.ordered c);
        indexed = λ c lt. ground (arith, kept c, same (s.p c), h.indexed c, h.indexed (s.n - 1));
        allocated = omega (arith, h.allocated);
        small = omega (arith, h.small);
      };
      size = omega arith;
      cleared = cleared';
      keeps = λ x ne (lt, at). ground (arith, same x ne, kept (s.idx x));
      only = λ x (lt, at).
          let ne : x ≢ s.p (s.n - 1) = λ e. ground (arith, cleared', h.small) in
          (ne, ground (arith, same x ne, kept (ix x)));
      frame = λ x ne. inl (same x ne);
      room = omega arith;
    }

  -- What `shift_down` does at the place behind the last one, with the event that stands there.
  shift_down_past :
      (k m : ℕ)
      → m + 1 ≡ s.n
      → shift_down greater (suc k) (record s { n = m }) m (s.p m)
        ≡ ok (record s { p = update s.p m (s.p m); n = m; idx = update s.idx (s.p m) m })
  unfolding shift_down shift_up
  shift_down_past k m last =
      let right : mul_u32 2 (add_u32 m 1) ≡ 2 * (m + 1) = omega (arith, h.small) in
      let past : leb (2 * (m + 1)) m ≡ false = ground arith in
      let room : m < s.a = omega (arith, h.allocated) in
      rw (right, past, shift_up, place-ok (record s { n = m }) m (s.p m) room)
        (elim (ℕ_discrete m 0) [
          | yes root ↦ rw (eq→== m 0 root)
          | no inner ↦
              let up : sub_u32 m 1 / 2 ≡ parent m = omega (arith, h.small) in
              rw (
                ne→== m 0 inner,
                up,
                load-ok (record s { n = m }) (parent m) (omega arith),
                h.ordered m (omega arith) (omega arith),
              )
        ])

  erase_at :
      (i : ℕ)
      → i < s.n
      → Returns (λ (r, t). (r ≡ pos 0) × Removed greater s (s.p i) t) (erase greater s (s.p i))
  unfolding erase
  erase_at i lt =
      let at : s.idx (s.p i) ≡ i = h.indexed i lt in
      let n' : sub_u32 s.n 1 ≡ s.n - 1 = omega (arith, h.small) in
      rw
        (
          at,
          ne→== i no_index (omega (arith, h.small)),
          n',
          load-ok s (s.n - 1) (omega (arith, h.allocated)),
        )
        (elim (ℕ_discrete (i + 1) s.n) [
          | yes last ↦
              let here : i ≡ s.n - 1 = omega arith in
              rw (here, shift_down_past (s.n - 1) (s.n - 1) (omega arith))
                (returns _ (
                  refl,
                  last-Removed _ (omega arith) (λ x ne. ground arith) (ground arith)
                      (update s.p (s.n - 1) (s.p (s.n - 1))) (λ c lt'. ground arith),
                ))
          | no inner ↦
              Returns-bind
                (shift_down-Settled order (suc (s.n - 1)) (record s { n = s.n - 1 }) i
                  (s.p (s.n - 1)) (omega arith)
                  (emptied-IsHoled i s.idx (omega arith) (λ x ne. refl)))
                λ t r. returns _ (
                  refl,
                  hole-Removed i s.idx t _ (omega arith) (λ x ne. refl) (inl at) r
                      (λ x ne. ground arith) (ground arith),
                )
        ])

  -- Erasing an event of the heap takes out that event and no other.
  pub erase-Removed :
      (e : ℕ) → In s e → Returns (λ (r, t). (r ≡ pos 0) × Removed greater s e t) (erase greater s e)
  erase-Removed e (lt, at) = rw at at (erase_at (s.idx e) lt)

  -- With two events at least, pop returns the root, takes out that event and no other.
  pub pop-Removed :
      2 ≤ s.n → Returns (λ (o, t). (o ≡ some (s.p 0)) × Removed greater s (s.p 0) t) (pop greater s)
  unfolding pop
  pop-Removed two =
      let e = s.p 0 in
      let n' : sub_u32 s.n 1 ≡ s.n - 1 = omega (arith, h.small) in
      let start = set_index s e no_index in
      rw
        (
          ne→== s.n 0 (omega arith),
          load-ok s 0 (omega (arith, h.allocated)),
          n',
          load-ok start (s.n - 1) (omega (arith, h.allocated)),
        )
        (Returns-bind
          (shift_down-Settled order (suc (s.n - 1)) (record start { n = s.n - 1 }) 0 (s.p (s.n - 1))
            (omega arith) (emptied-IsHoled 0 start.idx (omega arith) (λ x ne. ground arith)))
          λ t r. returns _ (
            refl,
            hole-Removed 0 start.idx t t.idx (omega arith) (λ x ne. ground arith)
                (inr (ground arith)) r (λ x ne. refl) (popped_index t r),
          ))
    where
      popped_index :
          (t : Heap)
          → Settled greater
              (record s { n = s.n - 1; idx = update s.idx (s.p 0) no_index })
              0
              (s.p (s.n - 1))
              t
          → t.idx (s.p 0) ≡ no_index
      popped_index t r = ground (arith, r.frame (s.p 0), h.indexed 0, h.indexed (s.n - 1), h.small)

  -- Popping the only event leaves it with the index 0, and not -1.
  pub pop_last :
      s.n ≡ 1
      → pop greater s
        ≡ ok (
          some (s.p 0),
          record s {
            p = update s.p 0 (s.p 0);
            n = 0;
            idx = update (update s.idx (s.p 0) no_index) (s.p 0) 0;
          },
        )
  unfolding pop shift_down shift_up
  pop_last one = rw (one, lt→ltb 0 s.a (omega (arith, h.allocated)))

  -- So a later erase of that event, on the empty heap, reads outside the array.
  pub pop_last-erase :
      s.n ≡ 1
      → s.a < 2 ^ 32 - 1
      → Returns
          (λ (o, t).
            (o ≡ some (s.p 0))
            × (t.n ≡ 0)
            × (t.idx (s.p 0) ≡ 0)
            × (erase greater t (s.p 0) ≡ fault))
          (pop greater s)
  pop_last-erase one bound = rw (pop_last one) (
      returns _ (refl, refl, ground arith, erase-empty greater _ (s.p 0) refl (ground arith) bound))
