-- ===== src/Tagging/Reading.antt =====
-- The functions of event_tagging.c that read from buffers, over any byte queue. `scratch` stands for
-- `_buf`. What the source reads of `*ptag`, `*pnumber` and the like only after success is part of the
-- success; `none` is the result -1.
pub mod Read
pub mod Fields
use libevent_1_4_3_stable_le.Base.{
  ℕ, zero, suc, ◌+◌, ◌%◌, ◌≡◌, List, [], ◌∷◌, ◌++◌, take, drop, length, ltb, ◌==◌, not, Bool, true,
  false, if◌then◌else◌, Option, none, some,
}
use libevent_1_4_3_stable_le.Base.Int.{ℤ, pos}
use libevent_1_4_3_stable_le.Base.Run.{Run, ok, fault, ◌>>=◌}
use libevent_1_4_3_stable_le.Base.Words.{u32_mod, add_u32}
use libevent_1_4_3_stable_le.Buffer.Queue.{ByteQueue}
use libevent_1_4_3_stable_le.Tagging.Ints.{decode_int}
use libevent_1_4_3_stable_le.Tagging.Tags.{decode_tag}
use libevent_1_4_3_stable_le.Tagging.Messages.{clear}

-- `evtag_peek`: the tag and the number of its bytes.
unfoldable pub peek : (Q : ByteQueue) → Q.Buf → Run (Option (ℕ × ℕ))
peek Q evbuf = decode_tag (Q.content evbuf)

length_found : (ℕ → ℕ → ℕ) → ℕ → Option (ℕ × ℕ) → Option ℕ
length_found f len none = none
length_found f len (some (number, res)) = some (f number (res + len))

-- The integer behind the `len` bytes of a tag, with `f` of the number and the bytes of both encodings.
unfoldable pub length_behind : (ℕ → ℕ → ℕ) → List ℕ → Option (ℕ × ℕ) → Option ℕ
unfolding length_found
length_behind f bytes none = none
length_behind f bytes (some (tag, len)) = length_found f len (decode_int (drop len bytes))

-- `evtag_peek_length`: the length of the whole message.
unfoldable pub peek_length : (Q : ByteQueue) → Q.Buf → Run (Option ℕ)
unfolding length_behind
peek_length Q evbuf = do
  found ← decode_tag (Q.content evbuf)
  ok (length_behind (λ number used. add_u32 number used) (Q.content evbuf) found)

-- `evtag_payload_length`
unfoldable pub payload_length : (Q : ByteQueue) → Q.Buf → Run (Option ℕ)
unfolding length_behind
payload_length Q evbuf = do
  found ← decode_tag (Q.content evbuf)
  ok (length_behind (λ number used. number) (Q.content evbuf) found)

module _ (Q : ByteQueue) where
  -- The drain of `decode_tag_internal` and `decode_int_internal` with `dodrain`.
  unfoldable pub drain_found : Q.Buf → Option (ℕ × ℕ) → Option ℕ × Q.Buf
  drain_found evbuf none = (none, evbuf)
  drain_found evbuf (some (number, len)) = (some number, Q.drain evbuf len)

  -- `evtag_decode_tag`
  unfoldable pub get_tag : Q.Buf → Run (Option ℕ × Q.Buf)
  unfolding drain_found
  get_tag evbuf = do found ← decode_tag (Q.content evbuf); ok (drain_found evbuf found)

  -- `evtag_decode_int`
  unfoldable pub get_int : Q.Buf → Option ℕ × Q.Buf
  unfolding drain_found
  get_int evbuf = drain_found evbuf (decode_int (Q.content evbuf))

  -- `evtag_consume`, after the tag and after the length.
  unfoldable pub consume_payload : Option ℕ × Q.Buf → Bool × Q.Buf
  consume_payload (none, evbuf) = (false, evbuf)
  consume_payload (some len, evbuf) = (true, Q.drain evbuf len)

  unfoldable pub consume_rest : Option ℕ × Q.Buf → Bool × Q.Buf
  unfolding get_int consume_payload
  consume_rest (none, evbuf) = (false, evbuf)
  consume_rest (some tag, evbuf) = consume_payload (get_int evbuf)

  -- Whether it returned 0, and the buffer.
  unfoldable pub consume : Q.Buf → Run (Bool × Q.Buf)
  unfolding get_tag consume_rest
  consume evbuf = do found ← get_tag evbuf; ok (consume_rest found)

  -- `evtag_unmarshal`, after `evbuffer_add`: the tag and the length, the source and the target.
  unfoldable pub unmarshal_done : ℕ → ℕ → Q.Buf → ℤ × Q.Buf → Option (ℕ × ℕ) × Q.Buf × Q.Buf
  unmarshal_done tag len src (pos zero, dst) = (some (tag, len), Q.drain src len, dst)
  unmarshal_done tag len src (r, dst) = (none, src, dst)

  -- After the length.
  unfoldable pub unmarshal_payload :
      ℕ → Option ℕ × Q.Buf → Q.Buf → Run (Option (ℕ × ℕ) × Q.Buf × Q.Buf)
  unfolding unmarshal_done
  unmarshal_payload tag (none, src) dst = ok (none, src, dst)
  unmarshal_payload tag (some len, src) dst =
      let added =
        Q.add dst (take len (Q.content src)) >>= λ result. ok (unmarshal_done tag len src result) in
      if ltb (length (Q.content src)) len then ok (none, src, dst) else added

  -- After the tag.
  unfoldable pub unmarshal_length : Option ℕ × Q.Buf → Q.Buf → Run (Option (ℕ × ℕ) × Q.Buf × Q.Buf)
  unmarshal_length (none, src) dst = ok (none, src, dst)
  unmarshal_length (some tag, src) dst = unmarshal_payload tag (get_int src) dst

  unfoldable pub unmarshal : Q.Buf → Q.Buf → Run (Option (ℕ × ℕ) × Q.Buf × Q.Buf)
  unmarshal src dst = do found ← get_tag src; unmarshal_length found dst

  -- `evtag_unmarshal` into the scratch buffer, with the test of the tag.
  unfoldable pub check_tag : ℕ → Option (ℕ × ℕ) × Q.Buf × Q.Buf → Bool × Q.Buf × Q.Buf
  check_tag need_tag (none, src, scratch) = (false, src, scratch)
  check_tag need_tag (some (tag, len), src, scratch) = (tag == need_tag, src, scratch)

  unfoldable pub unmarshal_needed : Q.Buf → Q.Buf → ℕ → Run (Bool × Q.Buf × Q.Buf)
  unfolding check_tag clear
  unmarshal_needed scratch evbuf need_tag = do
    result ← unmarshal evbuf (clear Q scratch)
    ok (check_tag need_tag result)

  -- `evtag_unmarshal_fixed`: the `len` bytes that go to `data`.
  unfoldable pub fixed_bytes : ℕ → Bool × Q.Buf × Q.Buf → Option (List ℕ) × Q.Buf × Q.Buf
  fixed_bytes len (false, src, scratch) = (none, src, scratch)
  fixed_bytes len (true, src, scratch) =
      (if length (Q.content scratch) == len then some (Q.content scratch) else none, src, scratch)

  unfoldable pub unmarshal_fixed : Q.Buf → Q.Buf → ℕ → ℕ → Run (Option (List ℕ) × Q.Buf × Q.Buf)
  unfolding fixed_bytes
  unmarshal_fixed scratch src need_tag len = do
    result ← unmarshal_needed scratch src need_tag
    ok (fixed_bytes len result)

  -- `evtag_unmarshal_string`: the string with its NUL. A failed `calloc` exits; it is granted here.
  unfoldable pub string_bytes : Bool × Q.Buf × Q.Buf → Option (List ℕ) × Q.Buf × Q.Buf
  string_bytes (false, src, scratch) = (none, src, scratch)
  string_bytes (true, src, scratch) = (some (Q.content scratch ++ (0 ∷ [])), src, clear Q scratch)

  unfoldable pub unmarshal_string : Q.Buf → Q.Buf → ℕ → Run (Option (List ℕ) × Q.Buf × Q.Buf)
  unfolding string_bytes
  unmarshal_string scratch evbuf need_tag = do
    result ← unmarshal_needed scratch evbuf need_tag
    ok (string_bytes result)

  -- `evtag_unmarshal_timeval`: the seconds, then the microseconds.
  unfoldable pub time_usec : ℕ → Option ℕ × Q.Buf → Option (ℕ × ℕ) × Q.Buf
  time_usec sec (none, scratch) = (none, scratch)
  time_usec sec (some usec, scratch) = (some (sec, usec), scratch)

  unfoldable pub time_sec : Option ℕ × Q.Buf → Option (ℕ × ℕ) × Q.Buf
  unfolding time_usec
  time_sec (none, scratch) = (none, scratch)
  time_sec (some sec, scratch) = time_usec sec (get_int scratch)

  unfoldable pub time_fields : Bool × Q.Buf × Q.Buf → Option (ℕ × ℕ) × Q.Buf × Q.Buf
  unfolding time_sec
  time_fields (false, src, scratch) = (none, src, scratch)
  time_fields (true, src, scratch) = let read = time_sec (get_int scratch) in (read.0, src, read.1)

  unfoldable pub unmarshal_timeval : Q.Buf → Q.Buf → ℕ → Run (Option (ℕ × ℕ) × Q.Buf × Q.Buf)
  unfolding time_fields
  unmarshal_timeval scratch evbuf need_tag = do
    result ← unmarshal_needed scratch evbuf need_tag
    ok (time_fields result)

  -- `evtag_unmarshal_int`, after `evbuffer_add`.
  unfoldable pub int_done : ℕ → Q.Buf → ℤ × Q.Buf → Option ℕ × Q.Buf × Q.Buf
  int_done len evbuf (pos zero, scratch) =
      let read = get_int scratch in (read.0, Q.drain evbuf len, read.1)
  int_done len evbuf (r, scratch) = (none, evbuf, scratch)

  -- After the length.
  unfoldable pub int_payload : Q.Buf → Option ℕ × Q.Buf → Run (Option ℕ × Q.Buf × Q.Buf)
  unfolding int_done clear
  int_payload scratch (none, evbuf) = ok (none, evbuf, scratch)
  int_payload scratch (some len, evbuf) =
      let added = Q.add (clear Q scratch) (take len (Q.content evbuf)) >>= λ result.
      ok (int_done len evbuf result) in
      if ltb (length (Q.content evbuf)) len then ok (none, evbuf, scratch) else added

  -- After the tag.
  unfoldable pub int_length : Q.Buf → ℕ → Option ℕ × Q.Buf → Run (Option ℕ × Q.Buf × Q.Buf)
  int_length scratch need_tag (none, evbuf) = ok (none, evbuf, scratch)
  int_length scratch need_tag (some tag, evbuf) =
      if need_tag == tag then int_payload scratch (get_int evbuf) else ok (none, evbuf, scratch)

  unfoldable pub unmarshal_int : Q.Buf → Q.Buf → ℕ → Run (Option ℕ × Q.Buf × Q.Buf)
  unmarshal_int scratch evbuf need_tag = do found ← get_tag evbuf; int_length scratch need_tag found
