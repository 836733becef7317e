-- ===== src/Buffer.antt =====
-- buffer.c: `struct evbuffer`, a byte queue in one allocated block.
-- `block` holds the `totallen` bytes at `orig_buffer`, and `buffer` is the offset of `buf->buffer` from
-- there. A null block is the empty one. `calls` logs the calls of the callback that `cb` says is set,
-- each with the old and the new length; what such a callback does is not part of the model.
-- Reads and writes of the block that leave it are a `fault`. A size is below 2 ^ 64 and wraps.
pub mod Memory
pub mod Expand
pub mod Grow
pub mod Add
pub mod Drain
pub mod Move
pub mod Line
pub mod Search
pub mod Io
pub mod Print
pub mod Queue
mod Tests
use libevent_1_4_3_stable_le.Base.{
  ℕ, zero, suc, ◌+◌, ◌-◌, ◌*◌, ◌%◌, ◌^◌, List, [], ◌∷◌, ◌++◌, take, drop, length, ltb, leb, ◌==◌,
  not, ◌&&◌, Bool, true, false, if◌then◌else◌, Option, none, some,
}
use libevent_1_4_3_stable_le.Base.Int.{ℤ, pos, minus_one}
use libevent_1_4_3_stable_le.Base.Run.{Run, ok, fault, diverges, ◌>>=◌}
use libevent_1_4_3_stable_le.Base.Words.{size_mod, add_size}

pub record Evbuffer : Type 0 where
  pub block : List ℕ
  pub buffer : ℕ
  pub misalign : ℕ
  pub totallen : ℕ
  pub off : ℕ
  pub cb : Bool
  pub calls : List (ℕ × ℕ)

-- The memory that the C library hands out: whether a request for this many bytes is granted, and
-- what the bytes hold that no one has written yet.
pub record Allocator : Type 0 where
  pub grants : ℕ → Bool
  pub junk : ℕ → ℕ

-- The `n` bytes from `i` on.
pub junk_bytes : Allocator → ℕ → ℕ → List ℕ
junk_bytes m i zero = []
junk_bytes m i (suc n) = m.junk i ∷ junk_bytes m (i + 1) n

-- `evbuffer_new`; `none` is the null pointer.
unfoldable pub new_buffer : Bool → Option Evbuffer
new_buffer granted =
    if granted
    then some (record {
      block = [];
      buffer = 0;
      misalign = 0;
      totallen = 0;
      off = 0;
      cb = false;
      calls = [];
    })
    else none

-- `memcpy(data, block + i, n)`
pub read_at : List ℕ → ℕ → ℕ → Run (List ℕ)
read_at block i n = if leb (i + n) (length block) then ok (take n (drop i block)) else fault

-- `memcpy(block + i, data, n)` for the n bytes of `data`
pub write_at : List ℕ → ℕ → List ℕ → Run (List ℕ)
write_at block i data' =
    if leb (i + length data') (length block)
    then ok (take i block ++ (data' ++ drop (i + length data') block))
    else fault

-- `if (test && buf->cb != NULL) (*buf->cb)(buf, oldoff, buf->off, buf->cbarg)`
pub call_if : Bool → Evbuffer → ℕ → Evbuffer
call_if test b oldoff =
    if test && b.cb then record b { calls = b.calls ++ ((oldoff, b.off) ∷ []) } else b

-- The same, where the test is `buf->off != oldoff`.
pub notify : Evbuffer → ℕ → Evbuffer
unfolding call_if
notify b oldoff = call_if (not (b.off == oldoff)) b oldoff

unfoldable pub align : Evbuffer → Run Evbuffer
unfolding read_at write_at
align b = do
  data' ← read_at b.block b.buffer b.off
  block' ← write_at b.block 0 data'
  ok (record b { block = block'; buffer = 0; misalign = 0 })

-- `while (length < need) length <<= 1`. With 65 rounds of fuel a start of 1 at least has passed every
-- power of two that a size can hold, and stays 0 from then on.
unfoldable pub grow : ℕ → ℕ → ℕ → Run ℕ
grow zero len need = diverges
grow (suc fuel) len need =
    let more = grow fuel (len * 2 % size_mod) need in if ltb len need then more else ok len

-- `realloc` to `len` bytes, which are more than before
unfoldable pub reallocate : Allocator → Evbuffer → ℕ → Evbuffer
unfolding junk_bytes
reallocate m b len = record b {
  block = b.block ++ junk_bytes m b.totallen (len - b.totallen);
  buffer = 0;
  totallen = len;
}

unfoldable pub expand : Allocator → Evbuffer → ℕ → Run (ℤ × Evbuffer)
unfolding align grow reallocate
expand m b datlen =
    let need = (b.misalign + b.off + datlen) % size_mod in
    let start = if ltb b.totallen 256 then 256 else b.totallen in
    let enlarge : Run (ℤ × Evbuffer) = do
      len ← grow 65 start need
      c ← if b.buffer == 0 then ok b else align b
      ok (if m.grants len then (pos 0, reallocate m c len) else (minus_one, c))
    in let realigned : Run (ℤ × Evbuffer) = align b >>= λ c. ok (pos 0, c) in
      if leb need b.totallen
      then ok (pos 0, b)
      else if leb datlen b.misalign
      then realigned
      else enlarge

-- The `memcpy` of `add`, after the space has been made or refused.
unfoldable pub store : ℕ → List ℕ → ℤ × Evbuffer → Run (ℤ × Evbuffer)
unfolding write_at call_if
store oldoff data' (pos zero, b) = do
  block' ← write_at b.block (b.buffer + b.off) data'
  let b' = record b { block = block'; off = b.off + length data' }
  ok (pos 0, call_if (not (length data' == 0)) b' oldoff)
store oldoff data' (r, b) = ok (minus_one, b)

unfoldable pub add : Allocator → Evbuffer → List ℕ → Run (ℤ × Evbuffer)
add m b data' =
    let need = (b.misalign + b.off + length data') % size_mod in
    let room = if ltb b.totallen need then expand m b (length data') else ok (pos 0, b) in
    room >>= store b.off data'

unfoldable pub drain : Evbuffer → ℕ → Evbuffer
unfolding notify
drain b len =
    if leb b.off len
    then notify (record b { off = 0; buffer = 0; misalign = 0 }) b.off
    else notify
        (record b { buffer = b.buffer + len; misalign = b.misalign + len; off = b.off - len }) b.off

-- `evbuffer_setcb`, by whether the callback is a null pointer.
unfoldable set_cb : Evbuffer → Bool → Evbuffer
set_cb b cb = record b { cb = cb }
