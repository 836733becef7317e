-- ===== src/Buffer/Grow.antt =====
-- The doubling loop of `evbuffer_expand`.
use libevent_1_4_3_stable_le.Base.{
  ℕ, zero, suc, ◌*◌, ◌%◌, ◌^◌, ◌≤◌, ◌<◌, ◌≡◌, refl, ◌⊎◌, inl, inr, lt→ltb, le→ltb, arith, dec_lt,
}
use libevent_1_4_3_stable_le.Base.Run.{diverges, Returns, returns, Returns-map}
use libevent_1_4_3_stable_le.Base.Words.{size_mod}
use libevent_1_4_3_stable_le.Buffer.{grow}

-- `len` doubled `k` times.
abbrev pub doubled : ℕ → ℕ → ℕ
doubled zero len = len
doubled (suc k) len = doubled k (len * 2)

pub doubled_mono : (k a b : ℕ) → a ≤ b → doubled k a ≤ doubled k b
doubled_mono zero a b h = h
doubled_mono (suc k) a b h = doubled_mono k (a * 2) (b * 2) (omega arith)

le-doubled : (k a : ℕ) → a ≤ doubled k a
le-doubled zero a = omega arith
le-doubled (suc k) a = omega (arith, le-doubled k (a * 2))

-- What the loop ends with: the start itself, or less than twice the need.
abbrev pub Grown : ℕ → ℕ → ℕ → Type 0
Grown len need len' = (need ≤ len') × (len ≤ len') × ((len' ≡ len) ⊎ (len' < 2 * need))

-- With fuel for the doublings that are needed, the loop ends, and does not wrap.
pub grow-Grown :
    (k len need : ℕ)
    → need ≤ doubled k len
    → need ≤ 2 ^ 63
    → Returns (Grown len need) (grow (suc k) len need)
unfolding grow
grow-Grown zero len need h small = rw (le→ltb len need h) (returns len (omega arith))
grow-Grown (suc k) len need h small = elim (dec_lt len need) [
  | yes short ↦
      let plain : len * 2 % size_mod ≡ len * 2 = omega arith in
      rw (lt→ltb len need short, plain)
        (Returns-map (grow-Grown k (len * 2) need h small) λ len' r. grown len' r short)
  | no enough ↦ rw (le→ltb len need (omega arith)) (returns len (omega arith))
]
  where
    grown : (len' : ℕ) → Grown (len * 2) need len' → len < need → Grown len need len'
    grown len' (a, b, inl same) short = (a, omega arith, inr (omega arith))
    grown len' (a, b, inr less) short = (a, omega arith, inr less)

grow_zero : (fuel need : ℕ) → 0 < need → grow fuel 0 need ≡ diverges
unfolding grow
grow_zero zero need h = refl
grow_zero (suc fuel) need h = rw (lt→ltb 0 need h) (grow_zero fuel need h)

-- No fuel is enough for a need above half of the range of a size, from a start that is a power of two:
-- the length wraps to 0 and stays there.
pub grow-diverges :
    (fuel k len need : ℕ)
    → doubled (suc k) len ≡ 2 ^ 64
    → 2 ^ 63 < need
    → grow fuel len need ≡ diverges
unfolding grow
grow-diverges zero k len need e h = refl
grow-diverges (suc fuel) zero len need e h =
    let wrapped : len * 2 % size_mod ≡ 0 = omega arith in
    rw (lt→ltb len need (omega arith), wrapped) (grow_zero fuel need (omega arith))
grow-diverges (suc fuel) (suc k) len need e h =
    let bound : len * 2 * 2 ≤ 2 ^ 64 = omega (arith, le-doubled k (len * 2 * 2)) in
    let plain : len * 2 % size_mod ≡ len * 2 = omega arith in
    rw (lt→ltb len need (omega arith), plain) (grow-diverges fuel k (len * 2) need e h)
