-- ===== src/MinHeap/Order.antt =====
-- What a heap is: the order of the tree, and the events' own record of where they stand.
use libevent_1_4_3_stable_le.Base.{
  ℕ, ◌-◌, ◌/◌, ◌^◌, ◌≤◌, ◌<◌, ◌≡◌, ◌≢◌, ◌⊎◌, Bool, true, false, arith, update, inl, inr, refl,
  ℕ_discrete,
}
use libevent_1_4_3_stable_le.MinHeap.{Heap}

-- The laws of `greater` that the heap needs: not both ways, and its negation is transitive.
pub record IsOrder (greater : ℕ → ℕ → Bool) : Type 0 where
  pub asym : (a b : ℕ) → greater a b ≡ true → greater b a ≡ false
  pub trans : (a b c : ℕ) → greater a b ≡ false → greater b c ≡ false → greater a c ≡ false

abbrev pub parent : ℕ → ℕ
parent c = (c - 1) / 2

-- The event `x` is in the heap, at the place that it says.
abbrev pub In : Heap → ℕ → Type 0
In s x = (s.idx x < s.n) × (s.p (s.idx x) ≡ x)

-- The same, where the place `i` counts as free.
abbrev pub InHole : Heap → ℕ → ℕ → Type 0
InHole s i x = (s.idx x < s.n) × (s.idx x ≢ i) × (s.p (s.idx x) ≡ x)

module _ (greater : ℕ → ℕ → Bool) where
  pub record IsHeap (s : Heap) : Type 0 where
    pub ordered : (c : ℕ) → 0 < c → c < s.n → greater (s.p (parent c)) (s.p c) ≡ false
    pub indexed : (c : ℕ) → c < s.n → s.idx (s.p c) ≡ c
    pub allocated : s.n ≤ s.a
    -- so that 2 * (i + 1) does not wrap for an index i
    pub small : s.n < 2 ^ 31

  -- A heap but for the place `i`, which is to hold `e`.
  pub record IsHoled (s : Heap) (i e : ℕ) : Type 0 where
    pub edges :
        (c : ℕ) → 0 < c → c < s.n → c ≢ i → parent c ≢ i → greater (s.p (parent c)) (s.p c) ≡ false
    pub bridged :
        (c : ℕ) → 0 < c → c < s.n → 0 < i → parent c ≡ i → greater (s.p (parent i)) (s.p c) ≡ false
    pub indexed : (c : ℕ) → c < s.n → c ≢ i → s.idx (s.p c) ≡ c
    pub absent : (c : ℕ) → c < s.n → c ≢ i → s.p c ≢ e
    pub allocated : s.n ≤ s.a
    pub small : s.n < 2 ^ 31
    pub inside : i < s.n

  -- `t` is a heap of the events that `s` holds outside `i`, and of `e`. Other events keep their index.
  pub record Settled (s : Heap) (i e : ℕ) (t : Heap) : Type 0 where
    pub heap : IsHeap t
    pub same_n : t.n ≡ s.n
    pub same_a : t.a ≡ s.a
    pub holds : In t e
    pub keeps : (x : ℕ) → x ≢ e → InHole s i x → In t x
    pub only : (x : ℕ) → In t x → (x ≡ e) ⊎ InHole s i x
    pub frame : (x : ℕ) → x ≢ e → (t.idx x ≡ s.idx x) ⊎ InHole s i x

-- The place `j` gives its event to the hole `i`, and is the hole from then on.
abbrev pub moved : Heap → ℕ → ℕ → Heap
moved s i j = record s { p = update s.p i (s.p j); idx = update s.idx (s.p j) i }

module _ {greater : ℕ → ℕ → Bool} {s : Heap} {i j e : ℕ} (v : IsHoled greater s i e) where
  moved-InHole : (x : ℕ) → i ≢ j → j < s.n → InHole s i x → InHole (moved s i j) j x
  moved-InHole x d hj (a, b, c) = ground (arith, v.indexed j)

  moved-InHole_inv : (x : ℕ) → i ≢ j → j < s.n → InHole (moved s i j) j x → InHole s i x
  moved-InHole_inv x d hj (a, b, c) = ground (arith, v.indexed j)

  -- What is settled from the new hole is settled from the old one.
  pub Settled-moved :
      {t : Heap} → i ≢ j → j < s.n → Settled greater (moved s i j) j e t → Settled greater s i e t
  Settled-moved {t} d hj r = record {
    heap = r.heap;
    same_n = r.same_n;
    same_a = r.same_a;
    holds = r.holds;
    keeps = λ x ne h. r.keeps x ne (moved-InHole x d hj h);
    only = λ x h. elim (r.only x h) [
      | inl same ↦ inl same
      | inr other ↦ inr (moved-InHole_inv x d hj other)
    ];
    frame = λ x ne. elim (r.frame x ne) [
      | inl same ↦ elim (ℕ_discrete (s.p j) x) [
        | yes at ↦ inr (ground (arith, v.indexed j))
        | no other ↦ inl (ground arith)
      ]
      | inr other ↦ inr (moved-InHole_inv x d hj other)
    ];
  }

module _ {greater : ℕ → ℕ → Bool} {s : Heap} {i e : ℕ} (v : IsHoled greater s i e) where
  -- Putting `e` into the hole, where it is in order with the parent and the children of the hole.
  pub placed-Settled :
      (0 < i → greater (s.p (parent i)) e ≡ false)
      → ((c : ℕ) → 0 < c → c < s.n → parent c ≡ i → greater e (s.p c) ≡ false)
      → Settled greater s i e (record s { p = update s.p i e; idx = update s.idx e i })
  placed-Settled above below = record {
    heap = record {
      ordered = λ c pos lt. ground (arith, v.edges c, above, below c, v.inside);
      indexed = λ c lt. ground (arith, v.indexed c, v.absent c);
      allocated = v.allocated;
      small = v.small;
    };
    same_n = refl;
    same_a = refl;
    holds = ground (arith, v.inside);
    keeps = λ x ne h. ground (arith, h);
    only = λ x h. ground (arith, h);
    frame = λ x ne. inl (ground arith);
  }
