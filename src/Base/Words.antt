-- ===== src/Base/Words.antt =====
-- Unsigned C integers as natural numbers below a power of two, with the wrap-around written out.
use libevent_1_4_3_stable_le.Base.{ℕ, ◌+◌, ◌-◌, ◌*◌, ◌%◌, ◌^◌, ◌<◌, ltb, if◌then◌else◌}

abbrev pub u32_mod : ℕ
u32_mod = 2 ^ 32

abbrev pub size_mod : ℕ
size_mod = 2 ^ 64

-- A number of bytes as an `int`, by its last 32 bits. A negative one counts no bytes.
abbrev pub int_size : ℕ → ℕ
int_size n = if ltb (n % u32_mod) (2 ^ 31) then n % u32_mod else 0

-- `unsigned` a + b, a - b and a * b.
abbrev pub add_u32 : ℕ → ℕ → ℕ
add_u32 a b = (a + b) % u32_mod

abbrev pub sub_u32 : ℕ → ℕ → ℕ
sub_u32 a b = (a + u32_mod - b) % u32_mod

abbrev pub mul_u32 : ℕ → ℕ → ℕ
mul_u32 a b = a * b % u32_mod

-- `size_t` a + b and a - b.
abbrev pub add_size : ℕ → ℕ → ℕ
add_size a b = (a + b) % size_mod

abbrev pub sub_size : ℕ → ℕ → ℕ
sub_size a b = (a + size_mod - b) % size_mod

abbrev pub IsByte : ℕ → Type 0
IsByte b = b < 256
