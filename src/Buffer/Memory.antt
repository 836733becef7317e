-- ===== src/Buffer/Memory.antt =====
-- When a buffer is well formed, the bytes that it holds, and the effect on them of moving memory.
use libevent_1_4_3_stable_le.Base.{
  Bool, if◌then◌else◌, ◌&&◌, ◌∷◌, [], ℕ, ◌+◌, ◌-◌, ◌^◌, ◌≤◌, ◌<◌, ◌≡◌, refl, ap, sym, ◌∙◌, List,
  ◌++◌, take, drop, length, length-append, length-drop, arith, le→leb,
}
use libevent_1_4_3_stable_le.Base.Slices.{
  drop-append_le, take-append_add, take-append_length, take-take, drop-take, length-take_le,
}
use libevent_1_4_3_stable_le.Base.Run.{ok, Returns, returns}
use libevent_1_4_3_stable_le.Buffer.{Evbuffer, read_at, write_at, call_if, align}

-- `EVBUFFER_DATA(buf)`, `EVBUFFER_LENGTH(buf)` bytes of it.
unfoldable pub content : Evbuffer → List ℕ
content b = take b.off (drop b.buffer b.block)

pub record IsValid (b : Evbuffer) : Type 0 where
  pub placed : b.buffer ≡ b.misalign
  pub sized : length b.block ≡ b.totallen
  pub fits : b.misalign + b.off ≤ b.totallen
  pub bounded : b.totallen < 2 ^ 63

pub length-content : (b : Evbuffer) → IsValid b → length (content b) ≡ b.off
unfolding content
length-content b v =
    length-take_le b.off (drop b.buffer b.block)
      (omega (arith, length-drop b.buffer b.block, v.placed, v.sized, v.fits))

pub read_at-ok :
    (block : List ℕ) (i n : ℕ)
    → i + n ≤ length block
    → read_at block i n ≡ ok (take n (drop i block))
unfolding read_at
read_at-ok block i n h = rw (le→leb (i + n) (length block) h)

pub write_at-ok :
    (block : List ℕ) (i : ℕ) (bytes : List ℕ)
    → i + length bytes ≤ length block
    → write_at block i bytes ≡ ok (take i block ++ (bytes ++ drop (i + length bytes) block))
unfolding write_at
write_at-ok block i bytes h = rw (le→leb (i + length bytes) (length block) h)

pub length-write :
    (block : List ℕ) (i : ℕ) (bytes : List ℕ)
    → i + length bytes ≤ length block
    → length (take i block ++ (bytes ++ drop (i + length bytes) block)) ≡ length block
length-write block i bytes h =
    rw
      (
        length-append (take i block) (bytes ++ drop (i + length bytes) block),
        length-append bytes (drop (i + length bytes) block),
      )
      (omega (arith, length-take_le i block (omega arith), length-drop (i + length bytes) block))

-- Writing right behind a slice extends the slice.
pub slice-write :
    (block : List ℕ) (i n : ℕ) (bytes : List ℕ)
    → i + n + length bytes ≤ length block
    → take
        (n + length bytes)
        (drop i (take (i + n) block ++ (bytes ++ drop (i + n + length bytes) block)))
      ≡ take n (drop i block) ++ bytes
slice-write block i n bytes h =
    let front = length-take_le (i + n) block (omega arith) in
    let slice = length-take_le n (drop i block) (omega (arith, length-drop i block)) in
    let rest = drop (i + n + length bytes) block in
    let count : i + n - i ≡ n = omega arith in
    rw (
      drop-append_le i (take (i + n) block) (bytes ++ rest) (omega arith),
      drop-take i (i + n) block,
      count,
      take-append_add n (length bytes) (take n (drop i block)) (bytes ++ rest) slice,
      take-append_length (length bytes) bytes rest refl,
    )

-- A callback sees the buffer as it is, and only the log changes.
pub content-call_if :
    (t : Bool) (b : Evbuffer) (oldoff : ℕ) → content (call_if t b oldoff) ≡ content b
unfolding content call_if
content-call_if t b oldoff = ground arith

pub call_if-IsValid :
    (t : Bool) (b : Evbuffer) (oldoff : ℕ) → IsValid b → IsValid (call_if t b oldoff)
unfolding call_if
call_if-IsValid t b oldoff v = ground arith

pub call_if_fields :
    (t : Bool) (b : Evbuffer) (oldoff : ℕ)
    → ((call_if t b oldoff).off ≡ b.off)
      × ((call_if t b oldoff).misalign ≡ b.misalign)
      × ((call_if t b oldoff).totallen ≡ b.totallen)
      × ((call_if t b oldoff).cb ≡ b.cb)
      × ((call_if t b oldoff).calls
          ≡ (if t && b.cb then b.calls ++ ((oldoff, b.off) ∷ []) else b.calls))
unfolding call_if
call_if_fields t b oldoff = ground arith

pub align_lem :
    (b : Evbuffer)
    → IsValid b
    → Returns
        (λ c.
          IsValid c
          × (content c ≡ content b)
          × (c.misalign ≡ 0)
          × (c.off ≡ b.off)
          × (c.totallen ≡ b.totallen)
          × (c.cb ≡ b.cb)
          × (c.calls ≡ b.calls))
        (align b)
unfolding align content
align_lem b v =
    let bytes = take b.off (drop b.buffer b.block) in
    let size : length bytes ≡ b.off = unfold content in length-content b v in
    let room : 0 + length bytes ≤ length b.block = omega (arith, v.sized, v.fits) in
    rw
      (
        read_at-ok b.block b.buffer b.off (omega (arith, v.placed, v.sized, v.fits)),
        write_at-ok b.block 0 bytes room,
      )
      (returns _ (
        record {
          placed = refl;
          sized = length-write b.block 0 bytes room ∙ v.sized;
          fits = omega (arith, v.fits);
          bounded = v.bounded;
        },
        take-append_length b.off bytes _ size,
        refl,
        refl,
        refl,
        refl,
        refl,
      ))

-- Bytes are written behind those that `b` holds, and the first `k` of them are counted in.
unfoldable pub extended : Evbuffer → List ℕ → ℕ → Evbuffer
extended b bytes k =
    let i = b.buffer + b.off in
    record b {
      block = take i b.block ++ (bytes ++ drop (i + length bytes) b.block);
      off = b.off + k;
    }

module _ (b : Evbuffer) (bytes : List ℕ) (k : ℕ) (v : IsValid b)
    (room : b.misalign + b.off + length bytes ≤ b.totallen) (some_of : k ≤ length bytes) where
  inside : b.buffer + b.off + length bytes ≤ length b.block
  inside = omega (arith, v.placed, v.sized)

  pub write-extended : write_at b.block (b.buffer + b.off) bytes ≡ ok (extended b bytes k).block
  unfolding extended
  write-extended = write_at-ok b.block (b.buffer + b.off) bytes inside

  pub extended-IsValid : IsValid (extended b bytes k)
  unfolding extended
  extended-IsValid = record {
    placed = v.placed;
    sized = length-write b.block (b.buffer + b.off) bytes inside ∙ v.sized;
    fits = omega arith;
    bounded = v.bounded;
  }

  pub content-extended : content (extended b bytes k) ≡ content b ++ take k bytes
  unfolding extended content
  content-extended =
      let i = b.buffer + b.off in
      let block' = take i b.block ++ (bytes ++ drop (i + length bytes) b.block) in
      let size = length-content b v in
      sym (take-take (b.off + k) (b.off + length bytes) (drop b.buffer block') (omega arith))
      ∙ ap (take (b.off + k)) (slice-write b.block b.buffer b.off bytes inside)
      ∙ take-append_add b.off k (content b) bytes size
