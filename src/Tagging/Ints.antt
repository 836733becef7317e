-- ===== src/Tagging/Ints.antt =====
-- `encode_int` and `decode_int_internal`: an integer by its nibbles, lowest first, behind a nibble that
-- counts them. `x & 0x0f` is written `x % 16`, and `x & 0xf0` of a byte `x / 16 % 16 * 16`.
pub mod RoundTrip
use libevent_1_4_3_stable_le.Base.{
  ℕ, zero, suc, ◌+◌, ◌-◌, ◌*◌, ◌/◌, ◌%◌, ◌^◌, ◌≤◌, ◌<◌, ◌≡◌, refl, sym, ap, ◌∙◌, ◌⊎◌, inl, inr,
  List, [], ◌∷◌, ◌++◌, take, length, length-set, length-append, get_or, set, arith, ltb, ◌==◌, ◌||◌,
  Bool, true, false, if◌then◌else◌, Bool-cases, Option, none, some, ℕ_discrete,
}
use libevent_1_4_3_stable_le.Base.Bits.{or, or-eq-add}
use libevent_1_4_3_stable_le.Base.Slices.{get_or-set, get_or-take, get_or-append_lt, length-take_le}
use libevent_1_4_3_stable_le.Base.Run.{
  Run, ok, diverges, Returns, returns, Returns-map, Returns-bind, ◌>>=◌,
}
use libevent_1_4_3_stable_le.Base.Words.{u32_mod, int_size, IsByte}

-- The nibble `off` of the encoding: the low half of `data[off/2]` if `off` is odd, else the high half.
unfoldable pub nibble : List ℕ → ℕ → ℕ
nibble data' off =
    if off % 2 == 1 then get_or data' (off / 2) 0 % 16 else get_or data' (off / 2) 0 / 16 % 16

-- The two assignments to `data[off/2]`.
unfoldable pub put_nibble : List ℕ → ℕ → ℕ → List ℕ
put_nibble data' off number =
    let old = get_or data' (off / 2) 0 in
    let low = or (number % 16) (old / 16 % 16 * 16) in
    let high = or (old % 16) (number % 16 * 16) in
    set data' (off / 2) (if off % 2 == 1 then low else high)

-- The `while (number)` loop, to the array and `off`.
unfoldable pub encode_loop : ℕ → ℕ → ℕ → List ℕ → Run (List ℕ × ℕ)
encode_loop zero number off data' = diverges
encode_loop (suc fuel) number off data' =
    let more = encode_loop fuel (number / 16) (off + 1) (put_nibble data' off number) in
    if number == 0 then ok (data', off) else more

-- The array with the count of nibbles put into `data[0]`, and cut to the bytes that are added.
unfoldable pub finish_int : List ℕ × ℕ → List ℕ
finish_int (data', off) =
    let nibbles = if ltb 2 off then off - 2 else 0 in
    take ((off + 1) / 2) (set data' 0 (or (get_or data' 0 0 % 16) (nibbles % 16 * 16)))

-- The bytes that `encode_int` adds to the buffer. The loop ends after 8 rounds at most.
unfoldable pub encode_int : ℕ → Run (List ℕ)
encode_int number = do
  result ← encode_loop 9 number 1 (0 ∷ 0 ∷ 0 ∷ 0 ∷ 0 ∷ [])
  ok (finish_int result)

-- The `while (nibbles > 0)` loop.
unfoldable pub decode_loop : ℕ → List ℕ → ℕ → ℕ
unfolding nibble
decode_loop zero data' number = number
decode_loop (suc k) data' number =
    decode_loop k data' (or (nibble data' (suc k)) (number * 16 % u32_mod))

-- The number and its length in bytes, or `none` for -1. The length of the buffer is put into an `int`.
unfoldable pub decode_int : List ℕ → Option (ℕ × ℕ)
unfolding decode_loop
decode_int [] = none
decode_int (d ∷ rest) =
    let nibbles = d / 16 % 16 + 1 in
    let len = nibbles / 2 + 1 in
    if ltb 8 nibbles || ltb (int_size (length (d ∷ rest))) len
    then none
    else some (decode_loop nibbles (d ∷ rest) 0, len)

encode_300 : encode_int 300 ≡ ok (0x2c ∷ 0x21 ∷ [])
unfolding encode_int encode_loop finish_int put_nibble
encode_300 = refl

decode_300 : decode_int (0x2c ∷ 0x21 ∷ 7 ∷ []) ≡ some (300, 2)
unfolding decode_int
decode_300 = refl
