-- ===== src/Tagging/Messages.antt =====
-- The functions of event_tagging.c that write to buffers, over any byte queue. `scratch` stands for `_buf`,
-- the buffer that the file keeps between calls.
pub mod Written
use libevent_1_4_3_stable_le.Base.{
  ℕ, zero, suc, ◌+◌, ◌%◌, ◌≡◌, List, [], ◌∷◌, take, drop, length, ltb, ◌==◌, Bool, true, false,
  if◌then◌else◌, Option, none, some,
}
use libevent_1_4_3_stable_le.Base.Int.{ℤ, pos}
use libevent_1_4_3_stable_le.Base.Run.{Run, ok, fault, ◌>>=◌}
use libevent_1_4_3_stable_le.Base.Words.{u32_mod}
use libevent_1_4_3_stable_le.Buffer.Queue.{ByteQueue}
use libevent_1_4_3_stable_le.Tagging.Ints.{encode_int, decode_int}
use libevent_1_4_3_stable_le.Tagging.Tags.{encode_tag, decode_tag}

module _ (Q : ByteQueue) where
  -- `evtag_encode_tag` on a buffer: the number of bytes. What `evbuffer_add` returns is ignored, here and
  -- in the other functions that write.
  unfoldable pub put_tag : Q.Buf → ℕ → Run (ℕ × Q.Buf)
  put_tag evbuf tag = do
    bytes ← encode_tag tag
    result ← Q.add evbuf bytes
    ok (length bytes, result.1)

  -- `encode_int` on a buffer.
  unfoldable pub put_int : Q.Buf → ℕ → Run Q.Buf
  put_int evbuf number = do bytes ← encode_int number; result ← Q.add evbuf bytes; ok result.1

  -- `data` is the `len` bytes that the call is given.
  unfoldable pub marshal : Q.Buf → ℕ → List ℕ → Run Q.Buf
  marshal evbuf tag data' = do
    tagged ← put_tag evbuf tag
    sized ← put_int tagged.1 (length data')
    result ← Q.add sized data'
    ok result.1

  -- `evbuffer_drain(_buf, EVBUFFER_LENGTH(_buf))`
  unfoldable pub clear : Q.Buf → Q.Buf
  clear scratch = Q.drain scratch (length (Q.content scratch))

  -- The buffer, then the scratch buffer.
  unfoldable pub marshal_int : Q.Buf → Q.Buf → ℕ → ℕ → Run (Q.Buf × Q.Buf)
  unfolding clear
  marshal_int scratch evbuf tag integer = do
    filled ← put_int (clear scratch) integer
    tagged ← put_tag evbuf tag
    sized ← put_int tagged.1 (length (Q.content filled) % u32_mod)
    result ← Q.move sized filled
    ok (result.1, result.2)

  -- `string` is the bytes before its NUL.
  unfoldable pub marshal_string : Q.Buf → ℕ → List ℕ → Run Q.Buf
  marshal_string buf tag string = marshal buf tag (take (length string % u32_mod) string)

  -- Of a time that is not negative.
  unfoldable pub marshal_timeval : Q.Buf → Q.Buf → ℕ → ℕ × ℕ → Run (Q.Buf × Q.Buf)
  unfolding clear
  marshal_timeval scratch evbuf tag (tv_sec, tv_usec) = do
    with_sec ← put_int (clear scratch) (tv_sec % u32_mod)
    with_usec ← put_int with_sec (tv_usec % u32_mod)
    result ← marshal evbuf tag (Q.content with_usec)
    ok (result, with_usec)
