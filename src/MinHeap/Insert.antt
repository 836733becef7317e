-- ===== src/MinHeap/Insert.antt =====
-- `min_heap_reserve` and `min_heap_push`.
use libevent_1_4_3_stable_le.Base.{
  ℕ, suc, ◌+◌, ◌^◌, ◌≤◌, ◌<◌, ◌≡◌, ◌≢◌, ◌⊎◌, Bool, true, false, arith, inl, inr, refl, Bool-cases,
  ltb, lt→ltb, ◌==◌, if◌then◌else◌,
}
use libevent_1_4_3_stable_le.Base.Run.{ok, Returns, returns, Returns-bind}
use libevent_1_4_3_stable_le.Base.Int.{pos, minus_one}
use libevent_1_4_3_stable_le.Base.Words.{add_u32, mul_u32}
use libevent_1_4_3_stable_le.MinHeap.{Heap, no_index, reserve, push_reserved, push}
use libevent_1_4_3_stable_le.MinHeap.Order.{IsOrder, In, IsHeap, IsHoled, Settled}
use libevent_1_4_3_stable_le.MinHeap.Up.{shift_up-Settled}

-- The size that `reserve` asks `realloc` for.
unfoldable pub new_size : Heap → ℕ → ℕ
new_size s n =
    let doubled = if s.a == 0 then 8 else mul_u32 s.a 2 in if ltb doubled n then n else doubled

-- `reserve` makes room for `n` pointers and changes nothing else, or changes nothing at all.
pub reserve_cases :
    (granted : ℕ → Bool) (s : Heap) (n : ℕ)
    → ((a : ℕ) × (reserve granted s n ≡ (pos 0, record s { a = a })) × (n ≤ a) × (s.a ≤ a))
      ⊎ ((reserve granted s n ≡ (minus_one, s)) × (s.a < n) × (granted (new_size s n) ≡ false))
unfolding reserve new_size
reserve_cases granted s n = elim (Bool-cases (ltb s.a n)) [
  | inr enough ↦ inl (s.a, ground arith, ground arith, omega arith)
  | inl short ↦ elim (Bool-cases (granted (unfold new_size in new_size s n))) [
    | inl yes' ↦ inl (unfold new_size in new_size s n, rw (short, yes'), ground arith, ground arith)
    | inr no' ↦ inr (rw (short, no'), ground arith, no')
  ]
]

reserve-refused :
    (granted : ℕ → Bool) (s : Heap) (n : ℕ)
    → s.a < n
    → granted (new_size s n) ≡ false
    → reserve granted s n ≡ (minus_one, s)
unfolding reserve new_size
reserve-refused granted s n short no' = rw (lt→ltb s.a n short, no')

module _ (greater : ℕ → ℕ → Bool) where
  -- `t` is `s` with `e` added.
  pub record Added (s : Heap) (e : ℕ) (t : Heap) : Type 0 where
    pub heap : IsHeap greater t
    pub size : t.n ≡ s.n + 1
    pub holds : In t e
    pub keeps : (x : ℕ) → In s x → In t x
    pub only : (x : ℕ) → In t x → (x ≡ e) ⊎ In s x
    pub frame : (x : ℕ) → x ≢ e → (t.idx x ≡ s.idx x) ⊎ In s x
    pub room : s.a ≤ t.a

  -- Without memory for a full array, push fails and leaves the heap as it was.
  pub push-refused :
      (granted : ℕ → Bool) (s : Heap) (e : ℕ)
      → s.a ≡ s.n
      → suc s.n < 2 ^ 31
      → granted (new_size s (s.n + 1)) ≡ false
      → push greater granted s e ≡ ok (minus_one, s)
  unfolding push push_reserved
  push-refused granted s e full room no' =
      let one : add_u32 s.n 1 ≡ s.n + 1 = omega arith in
      rw (one, reserve-refused granted s (s.n + 1) (omega arith) no', push_reserved)

module _ {greater : ℕ → ℕ → Bool} (order : IsOrder greater) where
  grown-IsHoled :
      (s : Heap) (a e : ℕ)
      → IsHeap greater s
      → s.idx e ≡ no_index
      → suc s.n < 2 ^ 31
      → s.n + 1 ≤ a
      → IsHoled greater (record s { n = s.n + 1; a = a }) s.n e
  grown-IsHoled s a e h fresh room more = record {
    edges = λ c p lt ne ne'. h.ordered c p (omega arith);
    bridged = λ c p lt pos at. absurd (omega arith);
    indexed = λ c lt ne. h.indexed c (omega arith);
    absent = λ c lt ne. λ same. ground (arith, h.indexed c (omega arith));
    allocated = more;
    small = omega arith;
    inside = omega arith;
  }

  grown-Added :
      (s t : Heap) (a e : ℕ)
      → s.idx e ≡ no_index
      → suc s.n < 2 ^ 31
      → s.a ≤ a
      → Settled greater (record s { n = s.n + 1; a = a }) s.n e t
      → Added greater s e t
  grown-Added s t a e fresh room grows r = record {
    room = omega (arith, r.same_a);
    heap = r.heap;
    size = r.same_n;
    holds = r.holds;
    keeps = λ x (lt, at). r.keeps x (λ same. ground arith) (omega arith, omega arith, at);
    only =
        λ x h. elim (r.only x h) [ inl same ↦ inl same | inr (lt, ne, at) ↦ inr (omega arith, at) ];
    frame = λ x ne. elim (r.frame x ne) [
      | inl same ↦ inl same
      | inr (lt, ne', at) ↦ inr (omega arith, at)
    ];
  }

  push-Added_reserved :
      (granted : ℕ → Bool) (s : Heap) (e a : ℕ)
      → IsHeap greater s
      → s.idx e ≡ no_index
      → suc s.n < 2 ^ 31
      → reserve granted s (s.n + 1) ≡ (pos 0, record s { a = a })
      → s.n + 1 ≤ a
      → s.a ≤ a
      → Returns (λ (r, t). (r ≡ pos 0) × Added greater s e t) (push greater granted s e)
  unfolding push push_reserved
  push-Added_reserved granted s e a h fresh room done more grows =
      let one : add_u32 s.n 1 ≡ s.n + 1 = omega arith in
      rw (one, done, one, push_reserved)
        (Returns-bind
          (shift_up-Settled order (suc s.n) _ s.n e (omega arith)
            (grown-IsHoled s a e h fresh room more) (λ c p lt at. absurd (omega arith)))
          λ t r. returns _ (refl, grown-Added s t a e fresh room grows r))

  -- With memory granted, push adds exactly the event.
  pub push-Added :
      (granted : ℕ → Bool) (s : Heap) (e : ℕ)
      → ((k : ℕ) → granted k ≡ true)
      → IsHeap greater s
      → s.idx e ≡ no_index
      → suc s.n < 2 ^ 31
      → Returns (λ (r, t). (r ≡ pos 0) × Added greater s e t) (push greater granted s e)
  push-Added granted s e all h fresh room = elim (reserve_cases granted s (s.n + 1)) [
    | inl (a, done, more, grows) ↦ push-Added_reserved granted s e a h fresh room done more grows
    | inr (_, _, refused) ↦ absurd (cc (all (new_size s (s.n + 1))))
  ]

  -- So it does where a place is free, whatever memory is granted.
  pub push-Added_room :
      (granted : ℕ → Bool) (s : Heap) (e : ℕ)
      → IsHeap greater s
      → s.idx e ≡ no_index
      → suc s.n < 2 ^ 31
      → s.n + 1 ≤ s.a
      → Returns (λ (r, t). (r ≡ pos 0) × Added greater s e t) (push greater granted s e)
  push-Added_room granted s e h fresh room free = elim (reserve_cases granted s (s.n + 1)) [
    | inl (a, done, more, grows) ↦ push-Added_reserved granted s e a h fresh room done more grows
    | inr (_, full, _) ↦ absurd (omega arith)
  ]
