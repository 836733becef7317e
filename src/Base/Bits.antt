-- ===== src/Base/Bits.antt =====
-- C's `|` on numbers that share no binary digit, and its masks of low bits. `x & (2 ^ k - 1)` is written
-- `x % 2 ^ k` in the models.
use Prim.Native.Nat.{max, digits, bit_or, bit_or-bitwise}
use libevent_1_4_3_stable_le.Base.{
  ℕ, zero, suc, ◌+◌, ◌*◌, ◌/◌, ◌%◌, ◌^◌, ◌≤◌, ◌<◌, ◌≡◌, refl, sym, ap, ◌∙◌, arith, ℕ_discrete,
}

abbrev pub or : ℕ → ℕ → ℕ
or = bit_or

-- The run of `|` on `n` digits.
abbrev or_digits : ℕ → ℕ → ℕ → ℕ
or_digits n a b = digits (λ y. y) max n a b

or_digits_more : (n a b : ℕ) → a ≤ n → or_digits (suc n) a b ≡ or_digits n a b
or_digits_more zero zero b h = refl
or_digits_more zero (suc a) b h = absurd (omega arith)
or_digits_more (suc n) zero b h = refl
or_digits_more (suc n) (suc a) b h =
    ap (λ (r : ℕ). r * 2 + max (suc a % 2) (b % 2))
      (or_digits_more n (suc a / 2) (b / 2) (omega arith))

-- As many digits as the first number says are enough.
or_digits_eq : (n a b : ℕ) → a ≤ n → or_digits n a b ≡ or a b
or_digits_eq n a b h = elim (ℕ_discrete n a) [
  | yes same ↦ rw same (sym (bit_or-bitwise a b))
  | no more ↦ below n more h
]
  where
    below : (n : ℕ) → ¬ (n ≡ a) → a ≤ n → or_digits n a b ≡ or a b
    below zero ne le = absurd (ne (omega arith))
    below (suc n) ne le = elim (ℕ_discrete n a) [
      | yes same ↦ or_digits_more n a b (omega arith) ∙ rw same (sym (bit_or-bitwise a b))
      | no more ↦ or_digits_more n a b (omega arith) ∙ below n more (omega arith)
    ]

-- One digit of `|`.
pub or_halves : (a b : ℕ) → or a b ≡ or (a / 2) (b / 2) * 2 + max (a % 2) (b % 2)
or_halves zero b =
    let first : or 0 b ≡ b = bit_or-bitwise 0 b in
    let later : or (0 / 2) (b / 2) ≡ b / 2 = bit_or-bitwise 0 (b / 2) in omega arith
or_halves (suc a) b =
    bit_or-bitwise (suc a) b
    ∙ ap (λ (r : ℕ). r * 2 + max (suc a % 2) (b % 2))
        (or_digits_eq a (suc a / 2) (b / 2) (omega arith))

zero-or : (b : ℕ) → or 0 b ≡ b
zero-or b = bit_or-bitwise 0 b

-- Where the second number ends in `k` zeros and the first has `k` digits, `|` is the sum.
pub or-eq-add : (k a b : ℕ) → a < 2 ^ k → or a (b * 2 ^ k) ≡ a + b * 2 ^ k
or-eq-add zero a b h =
    let none' : a ≡ 0 = omega (arith, h) in rw none' (omega (arith, zero-or (b * 2 ^ zero)))
or-eq-add (suc k) a b h =
    let double : 2 ^ suc k ≡ 2 ^ k * 2 = omega arith in
    let half : b * 2 ^ suc k / 2 ≡ b * 2 ^ k = omega (arith, ap (λ (t : ℕ). b * t) double) in
    let even : b * 2 ^ suc k % 2 ≡ 0 = omega (arith, ap (λ (t : ℕ). b * t) double) in
    let rest = or-eq-add k (a / 2) b (omega arith) in
    omega (arith, or_halves a (b * 2 ^ suc k), ap (or (a / 2)) half, ap (λ (t : ℕ). b * t) double)
