-- ===== src/Buffer/Drain.antt =====
-- `evbuffer_drain` and `evbuffer_remove` take bytes from the front.
use libevent_1_4_3_stable_le.Base.{
  ℕ, ◌+◌, ◌-◌, ◌≤◌, ◌<◌, ◌≡◌, refl, sym, ◌∙◌, List, [], ◌∷◌, ◌++◌, take, drop, length, arith, leb,
  ◌==◌, not, ◌&&◌, Bool-cases, leb→le, le→leb, if◌then◌else◌, inl, inr, length-drop,
}
use libevent_1_4_3_stable_le.Base.Slices.{
  drop-drop, drop-take, drop_all, take-take, take_all, length-take_le,
}
use libevent_1_4_3_stable_le.Base.Run.{Run, ok, Returns, returns, ◌>>=◌}
use libevent_1_4_3_stable_le.Buffer.{Evbuffer, read_at, notify, drain}
use libevent_1_4_3_stable_le.Buffer.Memory.{
  content, IsValid, length-content, read_at-ok, content-call_if, call_if-IsValid, call_if_fields,
}

-- `evbuffer_remove`: the bytes, their number and the buffer after the call. The `int` returned is that
-- number for less than 2 ^ 31 bytes.
unfoldable pub remove : Evbuffer → ℕ → Run (List ℕ × ℕ × Evbuffer)
unfolding read_at
remove b datlen = do
  let nread = if leb b.off datlen then b.off else datlen
  bytes ← read_at b.block b.buffer nread
  ok (bytes, nread, drain b nread)

-- `c` is `b` without its first `n` bytes, and the callback has been told if that is a change.
pub record Drained (b : Evbuffer) (n : ℕ) (c : Evbuffer) : Type 0 where
  pub valid : IsValid c
  pub bytes : content c ≡ drop n (content b)
  pub less : c.off ≡ b.off - n
  pub earlier : c.misalign + c.off ≤ b.misalign + b.off
  pub same_cb : c.cb ≡ b.cb
  pub told :
      c.calls ≡ (if not (c.off == b.off) && b.cb then b.calls ++ ((b.off, c.off) ∷ []) else b.calls)

notify-Drained :
    (b c : Evbuffer) (n : ℕ)
    → IsValid c
    → content c ≡ drop n (content b)
    → c.off ≡ b.off - n
    → c.misalign + c.off ≤ b.misalign + b.off
    → c.cb ≡ b.cb
    → c.calls ≡ b.calls
    → Drained b n (notify c b.off)
unfolding notify
notify-Drained b c n v bytes less earlier cb calls =
    let (off, mis, total, cb', calls') = call_if_fields (not (c.off == b.off)) c b.off in
    record {
      valid = call_if-IsValid _ c b.off v;
      bytes = content-call_if _ c b.off ∙ bytes;
      less = off ∙ less;
      earlier = omega arith;
      same_cb = cb' ∙ cb;
      told = rw (off, ← cb, ← calls) calls';
    }

-- Draining a valid buffer drops the bytes, whether fewer or more are asked for than there are, keeps the
-- buffer valid, and tells the callback if the length changes.
pub drain-Drained : (b : Evbuffer) (n : ℕ) → IsValid b → Drained b n (drain b n)
unfolding drain content
drain-Drained b n v = elim (Bool-cases (leb b.off n)) [
  | inl all ↦
      let most = leb→le b.off n all in
      let size = length-content b v in
      rw all (
        notify-Drained b (record b { off = 0; buffer = 0; misalign = 0 }) n
          (record { placed = refl; sized = v.sized; fits = omega arith; bounded = v.bounded })
          (sym (drop_all n (content b) (omega (arith, size)))) (omega arith) (omega arith) refl
          refl)
  | inr part ↦
      let less : n < b.off = ground arith in
      rw part (
        notify-Drained b
          (record b { buffer = b.buffer + n; misalign = b.misalign + n; off = b.off - n }) n
          (record {
            placed = omega (arith, v.placed);
            sized = v.sized;
            fits = omega (arith, v.fits);
            bounded = v.bounded;
          })
          (drop_front (omega arith)) refl (omega arith) refl refl)
]
  where
    drop_front :
        n ≤ b.off
        → take (b.off - n) (drop (b.buffer + n) b.block)
          ≡ drop n (take b.off (drop b.buffer b.block))
    drop_front h = rw (drop-take n b.off (drop b.buffer b.block), drop-drop n b.buffer b.block)

-- A buffer that is emptied starts at the front of its block again.
pub drained_front :
    (b : Evbuffer) (n : ℕ) → b.off ≤ n → ((drain b n).misalign ≡ 0) × ((drain b n).off ≡ 0)
unfolding drain notify
drained_front b n h =
    let c = record b { off = 0; buffer = 0; misalign = 0 } in
    let (off, mis, total, cb, calls) = call_if_fields (not (c.off == b.off)) c b.off in
    rw (le→leb b.off n h) (mis, off)

drain_all : (b : Evbuffer) (n : ℕ) → b.off ≤ n → drain b b.off ≡ drain b n
unfolding drain
drain_all b n h = rw (le→leb b.off n h, le→leb b.off b.off (omega arith))

-- Removing from a valid buffer returns the first bytes, as many as were asked for or all there are, and
-- their number, and drains them.
pub remove_lem :
    (b : Evbuffer) (n : ℕ)
    → IsValid b
    → Returns
        (λ (bytes, k, c). (bytes ≡ take n (content b)) × (k ≡ length bytes) × Drained b n c)
        (remove b n)
unfolding remove content
remove_lem b n v = elim (Bool-cases (leb b.off n)) [
  | inl all ↦
      let most = leb→le b.off n all in
      rw (all, read_at-ok b.block b.buffer b.off inside)
        (returns _ (
          sym (take_all n (content b) (omega (arith, length-content b v))),
          sym (length-content b v),
          rw (drain_all b n most) (drain-Drained b n v),
        ))
  | inr part ↦
      let less : n < b.off = ground arith in
      rw (part, read_at-ok b.block b.buffer n (omega (arith, inside)))
        (returns _ (
          unfold content in sym (take-take n b.off (drop b.buffer b.block) (omega arith)),
          sym (
              length-take_le n (drop b.buffer b.block)
                (omega (arith, inside, length-drop b.buffer b.block))),
          drain-Drained b n v,
        ))
]
  where
    inside : b.buffer + b.off ≤ length b.block
    inside = omega (arith, v.placed, v.sized, v.fits)
