-- ===== src/Tagging/Ints/RoundTrip.antt =====
-- `decode_int_internal` reads back what `encode_int` writes.
use libevent_1_4_3_stable_le.Base.{
  ℕ, zero, suc, ◌+◌, ◌-◌, ◌*◌, ◌/◌, ◌%◌, ◌^◌, ◌≤◌, ◌<◌, ◌≡◌, refl, ap, ◌∙◌, List, [], ◌∷◌, ◌++◌,
  take, length, length-set, length-append, get_or, set, arith, ltb, le→ltb, eq→==, ne→==, ◌==◌,
  if◌then◌else◌, some, ℕ_discrete,
}
use libevent_1_4_3_stable_le.Base.Bits.{or, or-eq-add}
use libevent_1_4_3_stable_le.Base.Slices.{get_or-set, get_or-take, get_or-append_lt, length-take_le}
use libevent_1_4_3_stable_le.Base.Run.{Returns, returns, Returns-bind}
use libevent_1_4_3_stable_le.Base.Words.{int_size, u32_mod}
use libevent_1_4_3_stable_le.Tagging.Ints.{
  nibble, put_nibble, encode_loop, finish_int, encode_int, decode_loop, decode_int,
}

-- `n` with its `k` lowest nibbles cut off.
abbrev pub shifted : ℕ → ℕ → ℕ
shifted zero n = n
shifted (suc k) n = shifted k n / 16

-- The first `k` nibbles of `n` stand in the array.
pub record Filled (n : ℕ) (data' : List ℕ) (k : ℕ) : Type 0 where
  pub size : length data' ≡ 5
  pub held : (i : ℕ) → i < k → nibble data' (suc i) ≡ shifted i n % 16

nibble-put :
    (data' : List ℕ) (off n j : ℕ)
    → off / 2 < length data'
    → nibble (put_nibble data' off n) j ≡ (if off == j then n % 16 else nibble data' j)
unfolding nibble put_nibble
nibble-put data' off n j h =
    let old = get_or data' (off / 2) 0 in
    let v =
      if off % 2 == 1 then or (n % 16) (old / 16 % 16 * 16) else or (old % 16) (n % 16 * 16) in
    ground (
      arith,
      get_or-set data' (off / 2) (j / 2) v 0,
      or-eq-add 4 (n % 16) (old / 16 % 16),
      or-eq-add 4 (old % 16) (n % 16),
    )

put-Filled :
    (n : ℕ) (data' : List ℕ) (k : ℕ)
    → k < 8
    → Filled n data' k
    → Filled n (put_nibble data' (k + 1) (shifted k n)) (suc k)
put-Filled n data' k h f = record {
  size = unfold put_nibble in length-set data' ((k + 1) / 2) _ ∙ f.size;
  held = λ i lt.
      let put = nibble-put data' (k + 1) (shifted k n) (suc i) (omega (arith, f.size)) in
      elim (ℕ_discrete i k) [
        | yes last ↦ rw last (rw last at put ∙ rw (eq→== (k + 1) (suc k) (omega arith)))
        | no before ↦ put ∙ rw (ne→== (k + 1) (suc i) (omega arith)) (f.held i (omega arith))
      ];
}

-- Where the loop stops: at the first `k` with nothing left of `n`.
Encoded : ℕ → List ℕ × ℕ → Type 0
Encoded n (data', off) = (k : ℕ) × (off ≡ k + 1) × (k ≤ 8) × Filled n data' k × (shifted k n ≡ 0)

encode_loop-Encoded :
    (fuel n : ℕ) (data' : List ℕ) (k : ℕ)
    → n < 2 ^ 32
    → k + fuel ≡ 9
    → k ≤ 8
    → Filled n data' k
    → Returns (Encoded n) (encode_loop fuel (shifted k n) (k + 1) data')
unfolding encode_loop Encoded
encode_loop-Encoded zero n data' k small f top filled = absurd (omega arith)
encode_loop-Encoded (suc fuel) n data' k small f top filled = elim (ℕ_discrete (shifted k n) 0) [
  | yes done ↦ rw (eq→== (shifted k n) 0 done) (returns _ (k, refl, top, filled, done))
  | no more ↦
      let below : k < 8 = not_last k (omega arith) more in
      let next : k + 1 + 1 ≡ suc k + 1 = omega arith in
      rw (ne→== (shifted k n) 0 more, next)
        (encode_loop-Encoded fuel n (put_nibble data' (k + 1) (shifted k n)) (suc k) small
          (omega arith) (omega arith) (put-Filled n data' k below filled))
]
  where
    not_last : (j : ℕ) → j ≤ 8 → ¬ (shifted j n ≡ 0) → j < 8
    not_last j h ne = elim (ℕ_discrete j 8) [
      | yes eight ↦ absurd (ne (rw eight (omega arith)))
      | no other ↦ omega arith
    ]

decode_loop-shifted :
    (k n : ℕ) (data' : List ℕ)
    → n < 2 ^ 32
    → ((i : ℕ) → i < k → nibble data' (suc i) ≡ shifted i n % 16)
    → decode_loop k data' (shifted k n) ≡ n
unfolding decode_loop
decode_loop-shifted zero n data' small held = refl
decode_loop-shifted (suc k) n data' small held =
    let below : shifted k n ≤ n = shifted-le k in
    let back : or (nibble data' (suc k)) (shifted k n / 16 * 16 % u32_mod) ≡ shifted k n =
      rw (held k (omega arith))
        (ground (arith, or-eq-add 4 (shifted k n % 16) (shifted k n / 16))) in
    ap (decode_loop k data') back
    ∙ decode_loop-shifted k n data' small (λ i lt. held i (omega arith))
  where
    shifted-le : (j : ℕ) → shifted j n ≤ n
    shifted-le zero = omega arith
    shifted-le (suc j) = omega (arith, shifted-le j)

decode_int_at :
    (l : List ℕ) (d nibbles len : ℕ)
    → get_or l 0 0 ≡ d
    → nibbles ≡ d / 16 % 16 + 1
    → len ≡ nibbles / 2 + 1
    → nibbles ≤ 8
    → len ≤ length l
    → length l < 2 ^ 31
    → decode_int l ≡ some (decode_loop nibbles l 0, len)
unfolding decode_int
decode_int_at [] d nibbles len hd hn hl few fits small = absurd (omega arith)
decode_int_at (x ∷ rest) d nibbles len hd hn hl few fits small =
    let count : x / 16 % 16 + 1 ≡ nibbles = omega arith in
    rw (count, ← hl, le→ltb 8 nibbles few, le→ltb (int_size (length (x ∷ rest))) len (ground arith))

module _ (n k : ℕ) (data' : List ℕ) (rest : List ℕ) (low : 1 ≤ k) (high : k ≤ 8)
    (f : Filled n data' k) where
  -- The first byte with the count of nibbles in its high half.
  header : ℕ
  header = or (get_or data' 0 0 % 16) ((k - 1) % 16 * 16)

  out : List ℕ
  out = take ((k + 1 + 1) / 2) (set data' 0 header)

  finish_int-out : finish_int (data', k + 1) ≡ out
  unfolding finish_int out header
  finish_int-out =
      let count : (if ltb 2 (k + 1) then k + 1 - 2 else 0) ≡ k - 1 = ground arith in rw count

  length-out : length out ≡ k / 2 + 1
  unfolding out
  length-out =
      length-take_le ((k + 1 + 1) / 2) (set data' 0 header)
        (omega (arith, length-set data' 0 header, f.size))
      ∙ omega arith

  get_or-out :
      (i : ℕ)
      → i < k / 2 + 1
      → get_or (out ++ rest) i 0 ≡ (if 0 == i then header else get_or data' i 0)
  unfolding out
  get_or-out i h =
      get_or-append_lt out rest i 0 (omega (arith, length-out))
      ∙ get_or-take ((k + 1 + 1) / 2) (set data' 0 header) i 0 (omega arith)
      ∙ get_or-set data' 0 i header 0 (omega (arith, f.size))

  nibble-out : (i : ℕ) → i < k → nibble (out ++ rest) (suc i) ≡ shifted i n % 16
  unfolding nibble header
  nibble-out i h = ground (
    arith,
    get_or-out (suc i / 2) (omega arith),
    or-eq-add 4 (get_or data' 0 0 % 16) ((k - 1) % 16),
    f.held i h,
  )

  decode_int-out :
      n < 2 ^ 32
      → shifted k n ≡ 0
      → length (out ++ rest) < 2 ^ 31
      → decode_int (out ++ rest) ≡ some (n, length out)
  unfolding header
  decode_int-out small done short =
      let count : k ≡ header / 16 % 16 + 1 =
        omega (arith, or-eq-add 4 (get_or data' 0 0 % 16) ((k - 1) % 16) (omega arith)) in
      decode_int_at (out ++ rest) header k (length out) (get_or-out 0 (omega arith)) count
        length-out high (omega (arith, length-append out rest)) short
      ∙ ap (λ (v : ℕ). some (v, length out))
          (rw done at (decode_loop-shifted k n (out ++ rest) small nibble-out))

-- The decoder reads back the number and its length, whatever follows in a buffer of less than 2^31 bytes.
abbrev pub Decodes : ℕ → List ℕ → Type 0
Decodes n bytes =
    (rest : List ℕ)
    → length (bytes ++ rest) < 2 ^ 31
    → decode_int (bytes ++ rest) ≡ some (n, length bytes)

decode_int_zero : Decodes 0 (0 ∷ [])
unfolding decode_int
decode_int_zero rest short = rw (le→ltb (int_size (suc (length rest))) 1 (ground arith))

-- What `encode_int` adds: one to five bytes.
abbrev pub IntBytes : ℕ → List ℕ → Type 0
IntBytes n bytes = (length bytes ≤ 5) × (1 ≤ length bytes) × Decodes n bytes

finish_int-IntBytes :
    (n : ℕ) (result : List ℕ × ℕ)
    → 0 < n
    → n < 2 ^ 32
    → Encoded n result
    → IntBytes n (finish_int result)
unfolding Encoded out header
finish_int-IntBytes n (data', off) some' small (k, at, top, f, done) =
    let low : 1 ≤ k = not_none k done in
    let size = length-out n k data' [] low top f in
    rw (at, finish_int-out n k data' [] low top f)
      (
        omega arith,
        omega arith,
        λ rest short. decode_int-out n k data' rest low top f small done short,
      )
  where
    not_none : (j : ℕ) → shifted j n ≡ 0 → 1 ≤ j
    not_none zero e = absurd (omega arith)
    not_none (suc j) e = omega arith

-- Encoding an integer of 32 bits ends, and makes one to five bytes that decode to the integer and their
-- number, whatever bytes follow in a buffer of less than 2^31 bytes.
pub encode_int-IntBytes : (n : ℕ) → n < 2 ^ 32 → Returns (IntBytes n) (encode_int n)
unfolding encode_int
encode_int-IntBytes zero small =
    unfold encode_loop finish_int in returns _ (omega arith, omega arith, decode_int_zero)
encode_int-IntBytes (suc m) small =
    Returns-bind
      (encode_loop-Encoded 9 (suc m) (0 ∷ 0 ∷ 0 ∷ 0 ∷ 0 ∷ []) 0 small refl (omega arith)
        (record { size = refl; held = λ i lt. absurd (omega arith) }))
      λ result e. returns _ (finish_int-IntBytes (suc m) result (omega arith) small e)
