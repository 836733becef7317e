-- ===== src/MinHeap.antt =====
-- min_heap.h: the array of `struct event *` that keeps the registered timeouts, smallest first.
-- A pointer is a number. `p` is the array, `a` its allocated size, and `idx` the `min_heap_idx` field
-- of every event. The comparison `min_heap_elem_greater` reads the events, so it is the parameter
-- `greater` here, and is the comparison of their `ev_timeout` where event.c uses the heap.
pub mod Order
pub mod Up
pub mod Down
pub mod Insert
pub mod Remove
mod Tests
use libevent_1_4_3_stable_le.Base.{
  ℕ, zero, suc, ◌+◌, ◌-◌, ◌/◌, Bool, true, false, update, ltb, leb, ◌==◌, if◌then◌else◌, Option,
  none, some,
}
use libevent_1_4_3_stable_le.Base.Int.{ℤ, pos, minus_one}
use libevent_1_4_3_stable_le.Base.Run.{Run, ok, fault, diverges, ◌>>=◌}
use libevent_1_4_3_stable_le.Base.Words.{u32_mod, add_u32, sub_u32, mul_u32}

pub record Heap : Type 0 where
  pub p : ℕ → ℕ
  pub n : ℕ
  pub a : ℕ
  pub idx : ℕ → ℕ

-- (unsigned)-1, the index of an event that is in no heap.
abbrev pub no_index : ℕ
no_index = u32_mod - 1

-- `s->p[i]`
pub load : Heap → ℕ → Run ℕ
load s i = if ltb i s.a then ok (s.p i) else fault

-- `(s->p[i] = e)->min_heap_idx = i`
pub place : Heap → ℕ → ℕ → Run Heap
place s i e =
    if ltb i s.a then ok (record s { p = update s.p i e; idx = update s.idx e i }) else fault

-- `e->min_heap_idx = i`
abbrev pub set_index : Heap → ℕ → ℕ → Heap
set_index s e i = record s { idx = update s.idx e i }

unfoldable pub ctor : (ℕ → ℕ) → (ℕ → ℕ) → Heap
ctor p idx = record { p = p; n = 0; a = 0; idx = idx }

unfoldable pub elem_init : Heap → ℕ → Heap
elem_init s e = set_index s e no_index

unfoldable pub is_empty : Heap → Bool
is_empty s = 0 == s.n

unfoldable pub size : Heap → ℕ
size s = s.n

-- `none` is the null pointer. An array that is not empty has been allocated.
unfoldable pub top : Heap → Run (Option ℕ)
unfolding load
top s = if s.n == 0 then ok none else (do e ← load s 0; ok (some e))

-- `realloc` is not code of the program: `granted` says whether it returns memory for this many
-- pointers. It keeps the old contents.
unfoldable pub reserve : (ℕ → Bool) → Heap → ℕ → ℤ × Heap
reserve granted s n =
    let doubled = if s.a == 0 then 8 else mul_u32 s.a 2 in
    let a' = if ltb doubled n then n else doubled in
    if ltb s.a n
    then (if granted a' then (pos 0, record s { a = a' }) else (minus_one, s))
    else (pos 0, s)

module _ (greater : ℕ → ℕ → Bool) where
  unfoldable pub shift_up : ℕ → Heap → ℕ → ℕ → Run Heap
  unfolding load place
  shift_up zero s hole e = diverges
  shift_up (suc k) s hole e =
      let parent = sub_u32 hole 1 / 2 in
      let rise = λ (q : ℕ). place s hole q >>= λ t. shift_up k t parent e in
      let step = load s parent >>= λ q. if greater q e then rise q else place s hole e in
      if hole == 0 then place s hole e else step

  -- The smaller child, where `right` is the index of the right one. The test is by `||`: the right
  -- child is read only if there is one.
  unfoldable pub min_child : Heap → ℕ → Run ℕ
  unfolding load
  min_child s right =
      let compared : Run ℕ = do
        r ← load s right
        l ← load s (sub_u32 right 1)
        ok (if greater r l then sub_u32 right 1 else right)
      in if right == s.n then ok (sub_u32 right 1) else compared

  unfoldable pub shift_down : ℕ → Heap → ℕ → ℕ → Run Heap
  unfolding shift_up min_child load place
  shift_down zero s hole e = diverges
  shift_down (suc k) s hole e =
      let right = mul_u32 2 (add_u32 hole 1) in
      let settle = shift_up (suc hole) s hole e in
      let sink = λ (c x : ℕ). place s hole x >>= λ t. shift_down k t c e in
      let step : Run Heap = do
        c ← min_child s right
        x ← load s c
        if greater e x then sink c x else settle
      in if leb right s.n then step else settle

  -- The rest of `push`, by what `reserve` returned: any value but 0 is a failure.
  unfoldable pub push_reserved : ℕ → ℤ × Heap → Run (ℤ × Heap)
  unfolding shift_up
  push_reserved e (pos zero, t) = do
    u ← shift_up (suc t.n) (record t { n = add_u32 t.n 1 }) t.n e
    ok (pos 0, u)
  push_reserved e (r, t) = ok (minus_one, t)

  unfoldable pub push : (ℕ → Bool) → Heap → ℕ → Run (ℤ × Heap)
  unfolding reserve push_reserved
  push granted s e = push_reserved e (reserve granted s (add_u32 s.n 1))

  unfoldable pub pop : Heap → Run (Option ℕ × Heap)
  unfolding shift_down load
  pop s = if s.n == 0 then ok (none, s) else do
    e ← load s 0
    let t = set_index s e no_index
    let n' = sub_u32 t.n 1
    last ← load t n'
    u ← shift_down (suc n') (record t { n = n' }) 0 last
    ok (some e, u)

  unfoldable pub erase : Heap → ℕ → Run (ℤ × Heap)
  erase s e = if s.idx e == no_index then ok (minus_one, s) else do
    let n' = sub_u32 s.n 1
    last ← load s n'
    u ← shift_down (suc n') (record s { n = n' }) (s.idx e) last
    ok (pos 0, set_index u e no_index)
