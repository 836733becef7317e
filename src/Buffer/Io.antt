-- ===== src/Buffer/Io.antt =====
-- `evbuffer_read` and `evbuffer_write` move bytes between a buffer and a file descriptor.
-- What the kernel answers is passed in: the number of bytes that FIONREAD reports, the bytes that `read` returns, and what `write`
-- returns. `none` is an answer of -1.
use libevent_1_4_3_stable_le.Base.{
  ℕ, zero, suc, ◌+◌, ◌*◌, ◌%◌, ◌^◌, ◌≤◌, ◌<◌, ◌≡◌, refl, sym, ◌∙◌, ◌⊎◌, inl, inr, List, [], ◌∷◌,
  ◌++◌, drop, length, arith, ltb, ◌==◌, ◌&&◌, ◌||◌, true, if◌then◌else◌, Option, none, some,
}
use libevent_1_4_3_stable_le.Base.Int.{ℤ, pos, minus_one, pos_part, ltb_ℤ, ◌≤ℤ◌}
use libevent_1_4_3_stable_le.Base.Run.{Run, ok, Returns, returns, Returns-bind, ◌>>=◌}
use libevent_1_4_3_stable_le.Base.Words.{size_mod}
use libevent_1_4_3_stable_le.Buffer.{Evbuffer, Allocator, write_at, notify, expand, drain}
use libevent_1_4_3_stable_le.Base.Slices.{take_all}
use mathlib.Core.Path.{ap₂}
use mathlib.Core.List.{append-nil}
use mathlib.Core.Option
use libevent_1_4_3_stable_le.Buffer.Drain.{drain-Drained}
use libevent_1_4_3_stable_le.Buffer.Memory.{
  content, IsValid, content-call_if, call_if-IsValid, extended, write-extended, extended-IsValid,
  content-extended,
}
use libevent_1_4_3_stable_le.Buffer.Expand.{SameBytes, Expanded, expand-Expanded}

abbrev pub max_read : ℕ
max_read = 4096

-- How many bytes FIONREAD makes `read` ask for at most.
unfoldable pub available : Option ℕ → ℤ → ℕ → ℕ
available none howmuch totallen = max_read
available (some n) howmuch totallen =
    let quadruple = totallen * 4 % size_mod in
    let capped = if ltb quadruple n then quadruple else n in
    let limited = if ltb capped max_read then max_read else capped in
    if n == 0 then max_read else if ltb max_read n && ltb_ℤ howmuch (pos n) then limited else n

-- The number of bytes that `read` is called with.
unfoldable pub read_size : Option ℕ → ℤ → ℕ → ℕ
unfolding available
read_size pending howmuch totallen =
    let n = available pending howmuch totallen in
    if ltb_ℤ howmuch (pos 0) || ltb_ℤ (pos n) howmuch then n else pos_part howmuch

-- The end of `evbuffer_read`, by what `expand` and `read` returned.
unfoldable pub receive : ℕ → Option (List ℕ) → ℤ × Evbuffer → Run (ℤ × Evbuffer)
receive oldoff none (pos zero, b) = ok (minus_one, b)
receive oldoff (some []) (pos zero, b) = ok (pos 0, b)
receive oldoff (some (x ∷ bytes)) (pos zero, b) = do
  block' ← write_at b.block (b.buffer + b.off) (x ∷ bytes)
  let b' = record b { block = block'; off = b.off + length (x ∷ bytes) }
  ok (pos (length (x ∷ bytes)), notify b' oldoff)
receive oldoff received (r, b) = ok (minus_one, b)

unfoldable pub read : Allocator → Option ℕ → Option (List ℕ) → Evbuffer → ℤ → Run (ℤ × Evbuffer)
read m pending received b howmuch =
    expand m b (read_size pending howmuch b.totallen) >>= receive b.off received

unfoldable pub write : Option ℕ → Evbuffer → ℤ × Evbuffer
write none b = (minus_one, b)
write (some zero) b = (pos 0, b)
write (some (suc n)) b = (pos (suc n), drain b (suc n))

-- The number of bytes that are asked for: never more than the caller asks for; never more than 4096
-- and than what is pending; and, if the caller sets no limit, never more than 4096 and than four times
-- the block, but 4096 at least if that many are pending.
pub read_size_bounds :
    (n : ℕ) (howmuch : ℤ) (totallen : ℕ)
    → totallen < 2 ^ 62
    → ((read_size (some n) howmuch totallen ≤ 4096) ⊎ (read_size (some n) howmuch totallen ≤ n))
      × (pos 0 ≤ℤ howmuch → pos (read_size (some n) howmuch totallen) ≤ℤ howmuch)
      × (ltb_ℤ howmuch (pos 0) ≡ true
          → (read_size (some n) howmuch totallen ≤ 4096)
            ⊎ (read_size (some n) howmuch totallen ≤ totallen * 4))
      × (ltb_ℤ howmuch (pos 0) ≡ true → 4096 ≤ n → 4096 ≤ read_size (some n) howmuch totallen)
unfolding read_size
read_size_bounds n howmuch totallen fits = ground arith

-- A buffer that holds what `b` holds and then `bytes`.
abbrev pub Received : Evbuffer → List ℕ → ℤ × Evbuffer → Type 0
Received b bytes (r, c) = (r ≡ pos (length bytes)) × IsValid c × (content c ≡ content b ++ bytes)

receive-Received :
    (b c : Evbuffer) (bytes : List ℕ)
    → SameBytes b c
    → c.misalign + c.off + length bytes ≤ c.totallen
    → Returns (Received b bytes) (receive b.off (some bytes) (pos 0, c))
unfolding receive
receive-Received b c [] s room = returns _ (refl, s.valid, s.bytes ∙ sym (append-nil (content b)))
receive-Received b c (x ∷ bytes) s room =
    let got = x ∷ bytes in
    let n = length got in
    let d = extended c got n in
    let whole : content d ≡ content b ++ got =
      content-extended c got n s.valid room (omega arith)
      ∙ ap₂ (λ (l k : List ℕ). l ++ k) s.bytes (take_all n got (omega arith)) in
    rw (write-extended c got n s.valid room (omega arith)) (
      unfold notify in
      unfold extended in
      returns _ (
        refl,
        call_if-IsValid _ d b.off (extended-IsValid c got n s.valid room (omega arith)),
        content-call_if _ d b.off ∙ whole,
      ))

-- When memory is granted, the sizes of a valid buffer and the read add up to 2 ^ 62 at most, and the kernel
-- returns no more bytes than it is asked for, they are appended.
pub read-Received :
    (m : Allocator) (pending : Option ℕ) (bytes : List ℕ) (b : Evbuffer) (howmuch : ℤ)
    → ((len : ℕ) → m.grants len ≡ true)
    → IsValid b
    → b.misalign + b.off + read_size pending howmuch b.totallen ≤ 2 ^ 62
    → length bytes ≤ read_size pending howmuch b.totallen
    → Returns (Received b bytes) (read m pending (some bytes) b howmuch)
unfolding read
read-Received m pending bytes b howmuch all v small few =
    Returns-bind (expand-Expanded m b (read_size pending howmuch b.totallen) v small)
      λ (r, c) e. received r c e
  where
    received :
        (r : ℤ) (c : Evbuffer)
        → Expanded m b (read_size pending howmuch b.totallen) (r, c)
        → Returns (Received b bytes) (receive b.off (some bytes) (r, c))
    received r c (s, inl (done, room)) = rw done (receive-Received b c bytes s (omega arith))
    received r c (s, inr (failed, (len, refused))) = absurd (cc (all len))

-- From a valid buffer, `write` takes as many bytes off the front as the kernel took, and none after an error.
pub write-Drained :
    (sent : Option ℕ) (b : Evbuffer)
    → IsValid b
    → IsValid (write sent b).1
      × (content (write sent b).1 ≡ drop (Option.get_or sent 0) (content b))
      × ((write sent b).0 ≡ elim sent [ none ↦ minus_one | some n ↦ pos n ])
unfolding write
write-Drained none b v = (v, refl, refl)
write-Drained (some zero) b v = (v, refl, refl)
write-Drained (some (suc n)) b v = let d = drain-Drained b (suc n) v in (d.valid, d.bytes, refl)
