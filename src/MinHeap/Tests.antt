-- ===== src/MinHeap/Tests.antt =====
-- Runs of the heap on small arrays, and its theorems at such inputs.
use libevent_1_4_3_stable_le.Base.{
  ℕ, zero, suc, ◌-◌, ◌/◌, ◌<◌, ◌≡◌, refl, List, [], ◌∷◌, get_or, arith, ltb, true, false, some,
  Bool, map,
}
use libevent_1_4_3_stable_le.Base.Run.{Run, ok, fault, ◌>>=◌, Returns}
use libevent_1_4_3_stable_le.Base.Int.{pos}
use libevent_1_4_3_stable_le.MinHeap.{Heap, no_index, push, pop, erase, shift_down}
use libevent_1_4_3_stable_le.MinHeap.Order.{IsOrder, IsHeap}
use libevent_1_4_3_stable_le.MinHeap.Insert.{Added, push-Added}
use libevent_1_4_3_stable_le.MinHeap.Remove.{Removed, erase-Removed, pop_last-erase}

-- Pointers stand for themselves as keys.
abbrev later : ℕ → ℕ → Bool
later a b = ltb b a

later-IsOrder : IsOrder later
later-IsOrder = record { asym = λ a b h. ground arith; trans = λ a b c h k. ground arith }

abbrev cells : List ℕ → ℕ → ℕ
cells l i = get_or l i 0

abbrev sample_index : ℕ → ℕ
sample_index x = elim (ltb x 3) [
  | true ↦ no_index
  | false ↦ elim (ltb x 6) [
    | true ↦ 0
    | false ↦ elim (ltb x 8) [ true ↦ 1 | false ↦ elim (ltb x 10) [ true ↦ 2 | false ↦ no_index ] ]
  ]
]

abbrev sample : Heap
sample = record { p = cells (5 ∷ 7 ∷ 9 ∷ []); n = 3; a = 8; idx = sample_index }

sample-IsHeap : IsHeap later sample
sample-IsHeap = record {
  ordered = ordered;
  indexed = indexed;
  allocated = omega arith;
  small = omega arith;
}
  where
    ordered : (c : ℕ) → 0 < c → c < 3 → later (sample.p ((c - 1) / 2)) (sample.p c) ≡ false
    ordered zero q h = absurd (omega arith)
    ordered (suc zero) q h = refl
    ordered (suc (suc zero)) q h = refl
    ordered (suc (suc (suc c))) q h = absurd (omega arith)

    indexed : (c : ℕ) → c < 3 → sample_index (sample.p c) ≡ c
    indexed zero h = refl
    indexed (suc zero) h = refl
    indexed (suc (suc zero)) h = refl
    indexed (suc (suc (suc c))) h = absurd (omega arith)

abbrev single : Heap
single = record { p = cells (5 ∷ []); n = 1; a = 8; idx = sample_index }

single-IsHeap : IsHeap later single
single-IsHeap = record {
  ordered = λ c q h. absurd (omega arith);
  indexed = indexed;
  allocated = omega arith;
  small = omega arith;
}
  where
    indexed : (c : ℕ) → c < 1 → sample_index (single.p c) ≡ c
    indexed zero h = refl
    indexed (suc c) h = absurd (omega arith)

abbrev full : Heap
full = record sample { a = 3 }

-- The array of three events pushed in another order, and what is left of it after the root is erased.
abbrev session : Run (List ℕ)
session = do
  (_, s) ← push later (λ k. true) (record { p = λ i. 0; n = 0; a = 0; idx = λ x. no_index }) 9
  (_, s) ← push later (λ k. true) s 7
  (_, s) ← push later (λ k. true) s 5
  (_, t) ← erase later s 5
  ok (map s.p (0 ∷ 1 ∷ 2 ∷ []))

session_result : session ≡ ok (5 ∷ 9 ∷ 7 ∷ [])
unfolding push erase shift_down
session_result = refl

push-Added_example :
    Returns (λ (r, t). (r ≡ pos 0) × Added later sample 2 t) (push later (λ k. true) sample 2)
push-Added_example =
    push-Added later-IsOrder (λ k. true) sample 2 (λ k. refl) sample-IsHeap refl (omega arith)

erase-Removed_example :
    Returns (λ (r, t). (r ≡ pos 0) × Removed later sample 7 t) (erase later sample 7)
erase-Removed_example = erase-Removed later-IsOrder sample-IsHeap 7 (omega arith, refl)

pop_last-erase_example :
    Returns
      (λ (o, t). (o ≡ some 5) × (t.n ≡ 0) × (t.idx 5 ≡ 0) × (erase later t 5 ≡ fault))
      (pop later single)
pop_last-erase_example = pop_last-erase later-IsOrder single-IsHeap refl (omega arith)
