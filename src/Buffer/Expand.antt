-- ===== src/Buffer/Expand.antt =====
-- `evbuffer_expand` makes room and keeps the bytes.
use libevent_1_4_3_stable_le.Base.{
  ℕ, zero, suc, ◌+◌, ◌-◌, ◌%◌, ◌^◌, ◌≤◌, ◌<◌, ◌≡◌, refl, ap, sym, ◌∙◌, ◌⊎◌, inl, inr, take, drop,
  length, length-append, arith, ltb, leb, ◌==◌, le→leb, lt→leb, leb→le, Bool, true, false,
  if◌then◌else◌,
}
use libevent_1_4_3_stable_le.Base.Slices.{take-append_le}
use libevent_1_4_3_stable_le.Base.Int.{ℤ, pos, minus_one}
use libevent_1_4_3_stable_le.Base.Run.{
  ok, diverges, Returns, returns, Returns-map, Returns-bind, Returns-if, Returns-ok_if, ◌>>=◌,
}
use libevent_1_4_3_stable_le.Base.Words.{size_mod}
use libevent_1_4_3_stable_le.Buffer.{
  Evbuffer, Allocator, junk_bytes, align, reallocate, grow, expand,
}
use libevent_1_4_3_stable_le.Buffer.Memory.{content, IsValid, align_lem}
use libevent_1_4_3_stable_le.Buffer.Grow.{doubled, doubled_mono, grow-Grown, grow-diverges}

-- `c` holds what `b` holds, and its bytes begin no later in the block.
pub record SameBytes (b c : Evbuffer) : Type 0 where
  pub valid : IsValid c
  pub bytes : content c ≡ content b
  pub same_off : c.off ≡ b.off
  pub earlier : c.misalign ≤ b.misalign
  pub same_cb : c.cb ≡ b.cb
  pub same_calls : c.calls ≡ b.calls

-- `expand` returns 0 and there is room for `n` more bytes, or it returns -1 since memory was refused.
abbrev pub Expanded : Allocator → Evbuffer → ℕ → ℤ × Evbuffer → Type 0
Expanded m b n (r, c) =
    SameBytes b c
    × ((r ≡ pos 0) × (c.misalign + c.off + n ≤ c.totallen)
        ⊎ (r ≡ minus_one) × ((len : ℕ) × (m.grants len ≡ false)))

pub SameBytes-refl : (b : Evbuffer) → IsValid b → SameBytes b b
SameBytes-refl b v = record {
  valid = v;
  bytes = refl;
  same_off = refl;
  earlier = omega arith;
  same_cb = refl;
  same_calls = refl;
}

length-junk_bytes : (m : Allocator) (i n : ℕ) → length (junk_bytes m i n) ≡ n
unfolding junk_bytes
length-junk_bytes m i zero = refl
length-junk_bytes m i (suc n) = ap suc (length-junk_bytes m (i + 1) n)

align-SameBytes :
    (b : Evbuffer)
    → IsValid b
    → Returns (λ c. SameBytes b c × (c.misalign ≡ 0) × (c.totallen ≡ b.totallen)) (align b)
align-SameBytes b v = Returns-map (align_lem b v) λ c (v', bytes, zero', off, total, cb, calls). (
  record {
    valid = v';
    bytes = bytes;
    same_off = off;
    earlier = omega arith;
    same_cb = cb;
    same_calls = calls;
  },
  zero',
  total,
)

-- More memory behind the block.
reallocate-SameBytes :
    (m : Allocator) (b c : Evbuffer) (len : ℕ)
    → SameBytes b c
    → c.misalign ≡ 0
    → c.totallen ≤ len
    → len < 2 ^ 63
    → SameBytes b (reallocate m c len)
unfolding reallocate content
reallocate-SameBytes m b c len s zero' more small =
    let more_bytes = junk_bytes m c.totallen (len - c.totallen) in
    let at_zero : c.buffer ≡ 0 = s.valid.placed ∙ zero' in
    let kept : take c.off c.block ≡ content b =
      rw (← ap (λ (k : ℕ). take c.off (drop k c.block)) at_zero) s.bytes in
    record {
      valid = record {
        placed = sym zero';
        sized =
            rw (length-append c.block more_bytes, length-junk_bytes m c.totallen (len - c.totallen))
              (omega (arith, s.valid.sized));
        fits = omega (arith, s.valid.fits);
        bounded = small;
      };
      bytes =
          take-append_le c.off c.block more_bytes (omega (arith, s.valid.sized, s.valid.fits))
          ∙ kept;
      same_off = s.same_off;
      earlier = omega arith;
      same_cb = s.same_cb;
      same_calls = s.same_calls;
    }

-- The case of `expand` that asks for a larger block.
module _ (m : Allocator) (b : Evbuffer) (n : ℕ) (v : IsValid b)
    (small : b.misalign + b.off + n ≤ 2 ^ 62) where
  start_at : ℕ
  start_at = if ltb b.totallen 256 then 256 else b.totallen

  enough_fuel : b.misalign + b.off + n ≤ doubled 64 start_at
  unfolding start_at
  enough_fuel =
      let first : 256 ≤ start_at = ground arith in omega (arith, doubled_mono 64 256 start_at first)

  enlarge-Expanded :
      b.totallen < b.misalign + b.off + n
      → Returns (Expanded m b n) (
          grow 65 start_at (b.misalign + b.off + n) >>= λ len.
          (if b.buffer == 0 then ok b else align b) >>= λ c.
          ok (if m.grants len then (pos 0, reallocate m c len) else (minus_one, c)))
  enlarge-Expanded short =
      Returns-bind (grow-Grown 64 start_at (b.misalign + b.off + n) enough_fuel (omega arith))
        λ len grown.
          let start : start_at ≤ 256 ⊎ start_at ≤ b.totallen = unfold start_at in ground arith in
          let len_small : len < 2 ^ 63 = omega (arith, v.bounded) in
          Returns-bind (moved_to_front (b.buffer == 0) refl) λ c (s, zero', total).
            let kept = reallocate-SameBytes m b c len s zero' (omega arith) len_small in
            Returns-ok_if _ _ (m.grants len)
              (λ granted. (kept, inl (refl, unfold reallocate in omega (arith, s.same_off))))
              (λ refused. (s, inr (refl, (len, refused))))
    where
      moved_to_front :
          (t : Bool)
          → (b.buffer == 0) ≡ t
          → Returns
              (λ c. SameBytes b c × (c.misalign ≡ 0) × (c.totallen ≡ b.totallen))
              (if t then ok b else align b)
      moved_to_front true e = returns b (SameBytes-refl b v, ground (arith, v.placed), refl)
      moved_to_front false e = align-SameBytes b v

-- For a valid buffer and sizes that add up to 2 ^ 62 at most, expanding returns. It keeps the bytes, and
-- returns 0 with room for `n` more, or -1 after a refused `realloc`.
pub expand-Expanded :
    (m : Allocator) (b : Evbuffer) (n : ℕ)
    → IsValid b
    → b.misalign + b.off + n ≤ 2 ^ 62
    → Returns (Expanded m b n) (expand m b n)
unfolding expand
expand-Expanded m b n v small =
    let plain : (b.misalign + b.off + n) % size_mod ≡ b.misalign + b.off + n = omega arith in
    rw plain (
      Returns-if (leb (b.misalign + b.off + n) b.totallen)
        (λ fits. returns (pos 0, b) (SameBytes-refl b v, inl (refl, ground arith)))
        (λ short.
          Returns-if (leb n b.misalign)
            (λ slack. Returns-bind (align-SameBytes b v) λ c (s, zero', total).
              returns (pos 0, c)
                (s, inl (refl, omega (arith, s.same_off, v.fits, leb→le n b.misalign slack))))
            (λ none'. unfold start_at in enlarge-Expanded m b n v small (ground arith))))

-- When the sizes of a valid buffer and the new length add up to 2 ^ 64 or more, `expand` returns 0 and
-- changes nothing, and there is no room for the length.
pub expand-wraps :
    (m : Allocator) (b : Evbuffer) (n : ℕ)
    → IsValid b
    → n < 2 ^ 64
    → 2 ^ 64 ≤ b.misalign + b.off + n
    → (expand m b n ≡ ok (pos 0, b)) × (b.totallen < b.misalign + b.off + n)
unfolding expand
expand-wraps m b n v size over =
    let need : (b.misalign + b.off + n) % size_mod + 2 ^ 64 ≡ b.misalign + b.off + n =
      omega (arith, v.fits, v.bounded) in
    (
      rw (le→leb ((b.misalign + b.off + n) % size_mod) b.totallen (omega (arith, v.fits))),
      omega (arith, v.bounded),
    )

-- When the size that doubling starts from is a power of two, and the sizes of a valid buffer and the new
-- length add up to more than 2 ^ 63 without wrapping, and the length is more than the misalignment, the
-- doubling never ends.
pub expand-diverges :
    (m : Allocator) (b : Evbuffer) (n k : ℕ)
    → IsValid b
    → doubled (suc k) (if ltb b.totallen 256 then 256 else b.totallen) ≡ 2 ^ 64
    → 2 ^ 63 < b.misalign + b.off + n
    → b.misalign + b.off + n < 2 ^ 64
    → b.misalign < n
    → expand m b n ≡ diverges
unfolding expand
expand-diverges m b n k v power above fits less =
    let plain : (b.misalign + b.off + n) % size_mod ≡ b.misalign + b.off + n = omega arith in
    rw (
      plain,
      lt→leb (b.misalign + b.off + n) b.totallen (omega (arith, v.bounded)),
      lt→leb n b.misalign less,
      grow-diverges 65 k (if ltb b.totallen 256 then 256 else b.totallen) (b.misalign + b.off + n)
          power above,
    )
