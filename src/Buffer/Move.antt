-- ===== src/Buffer/Move.antt =====
-- `evbuffer_add_buffer` moves what one buffer holds behind what another holds. The two are not the
-- same object.
use libevent_1_4_3_stable_le.Base.{
  ℕ, zero, suc, ◌+◌, ◌^◌, ◌≤◌, ◌≡◌, refl, ap, sym, ◌∙◌, ◌⊎◌, inl, inr, List, [], ◌++◌, take, drop,
  length, arith, ◌==◌, not, false, if◌then◌else◌, Bool-cases,
}
use libevent_1_4_3_stable_le.Base.Slices.{drop_all}
use libevent_1_4_3_stable_le.Base.Int.{ℤ, pos, negsuc, minus_one}
use libevent_1_4_3_stable_le.Base.Run.{Run, ok, Returns, returns, Returns-bind, ◌>>=◌}
use libevent_1_4_3_stable_le.Buffer.{Evbuffer, Allocator, read_at, call_if, add, drain}
use libevent_1_4_3_stable_le.Buffer.Memory.{
  content, IsValid, length-content, read_at-ok, content-call_if, call_if-IsValid,
}
use libevent_1_4_3_stable_le.Buffer.Add.{AddResult, add-AddResult}
use libevent_1_4_3_stable_le.Buffer.Drain.{drain-Drained}

-- `SWAP(x, y)`: all fields of `y` but the callback.
unfoldable pub swap_in : Evbuffer → Evbuffer → Evbuffer
swap_in x y = record x {
  block = y.block;
  buffer = y.buffer;
  misalign = y.misalign;
  totallen = y.totallen;
  off = y.off;
}

-- The end of `add_buffer`: the input is drained if the bytes were added.
unfoldable pub settle_move : Evbuffer → ℤ × Evbuffer → ℤ × Evbuffer × Evbuffer
settle_move inbuf (pos zero, outbuf) = (pos 0, outbuf, drain inbuf inbuf.off)
settle_move inbuf (r, outbuf) = (r, outbuf, inbuf)

-- The result, the output buffer and the input buffer after the call.
unfoldable pub add_buffer : Allocator → Evbuffer → Evbuffer → Run (ℤ × Evbuffer × Evbuffer)
unfolding read_at settle_move swap_in call_if
add_buffer m outbuf inbuf =
    let oldoff = inbuf.off in
    let out' = swap_in outbuf inbuf in
    let in' = swap_in inbuf outbuf in
    let swapped : ℤ × Evbuffer × Evbuffer =
      (pos 0, call_if (not (oldoff == 0)) out' 0, call_if (not (in'.off == oldoff)) in' oldoff) in
    let copied : Run (ℤ × Evbuffer × Evbuffer) = do
      bytes ← read_at inbuf.block inbuf.buffer inbuf.off
      result ← add m outbuf bytes
      ok (settle_move inbuf result)
    in if outbuf.off == 0 then ok swapped else copied

-- The call moves all the bytes and returns 0, or returns -1 after a refused `realloc` and moves none.
abbrev pub Moved : Allocator → Evbuffer → Evbuffer → ℤ × Evbuffer × Evbuffer → Type 0
Moved m outbuf inbuf (r, out', in') =
    IsValid out'
    × IsValid in'
    × (((r ≡ pos 0) × (content out' ≡ content outbuf ++ content inbuf) × (content in' ≡ []))
        ⊎ ((r ≡ minus_one)
            × (content out' ≡ content outbuf)
            × (in' ≡ inbuf)
            × ((len : ℕ) × (m.grants len ≡ false))))

swap_in-IsValid : (x y : Evbuffer) → IsValid y → IsValid (swap_in x y)
unfolding swap_in
swap_in-IsValid x y v = record {
  placed = v.placed;
  sized = v.sized;
  fits = v.fits;
  bounded = v.bounded;
}

content-swap_in : (x y : Evbuffer) → content (swap_in x y) ≡ content y
unfolding content swap_in
content-swap_in x y = refl

content_none : (b : Evbuffer) → b.off ≡ 0 → content b ≡ []
unfolding content
content_none b e = rw e

drained_none : (b : Evbuffer) → IsValid b → (content (drain b b.off) ≡ []) × IsValid (drain b b.off)
drained_none b v =
    let d = drain-Drained b b.off v in
    (d.bytes ∙ drop_all b.off (content b) (omega (arith, length-content b v)), d.valid)

settle_move-Moved :
    (m : Allocator) (outbuf inbuf : Evbuffer) (result : ℤ × Evbuffer)
    → IsValid inbuf
    → AddResult m outbuf (content inbuf) result
    → Moved m outbuf inbuf (settle_move inbuf result)
unfolding settle_move
settle_move-Moved m outbuf inbuf (pos zero, c) v (inl (done, a)) =
    let (empty, valid) = drained_none inbuf v in (a.valid, valid, inl (refl, a.held, empty))
settle_move-Moved m outbuf inbuf (pos zero, c) v (inr (failed, _, _)) = absurd (cc failed)
settle_move-Moved m outbuf inbuf (pos (suc n), c) v (inl (done, _)) = absurd (ground arith)
settle_move-Moved m outbuf inbuf (pos (suc n), c) v (inr (failed, _, _)) = absurd (cc failed)
settle_move-Moved m outbuf inbuf (negsuc n, c) v (inl (done, _)) = absurd (cc done)
settle_move-Moved m outbuf inbuf (negsuc n, c) v (inr (failed, s, refused)) =
    (s.valid, v, inr (failed, s.bytes, refl, refused))

-- For two valid buffers and sizes that add up to 2 ^ 62 at most, `add_buffer` returns and keeps both valid.
-- It moves all the bytes behind those of the first and returns 0, or returns -1 after a refused `realloc`
-- and both hold what they held.
pub add_buffer-Moved :
    (m : Allocator) (outbuf inbuf : Evbuffer)
    → IsValid outbuf
    → IsValid inbuf
    → outbuf.misalign + outbuf.off + inbuf.off ≤ 2 ^ 62
    → Returns (Moved m outbuf inbuf) (add_buffer m outbuf inbuf)
unfolding add_buffer content
add_buffer-Moved m outbuf inbuf v w small = elim (Bool-cases (outbuf.off == 0)) [
  | inl none' ↦
      let moved = swap_in-IsValid outbuf inbuf w in
      let emptied = swap_in-IsValid inbuf outbuf v in
      let empty = content_none outbuf (ground arith) in
      rw none' (
        returns _ (
          call_if-IsValid _ (swap_in outbuf inbuf) 0 moved,
          call_if-IsValid _ (swap_in inbuf outbuf) inbuf.off emptied,
          inl (
            refl,
            content-call_if _ (swap_in outbuf inbuf) 0
                ∙ ap (λ (l : List ℕ). l ++ content inbuf) (sym empty),
            content-call_if _ (swap_in inbuf outbuf) inbuf.off ∙ empty,
          ),
        ))
  | inr some' ↦
      let inside : inbuf.buffer + inbuf.off ≤ length inbuf.block =
        omega (arith, w.placed, w.sized, w.fits) in
      let size : length (take inbuf.off (drop inbuf.buffer inbuf.block)) ≡ inbuf.off =
        length-content inbuf w in
      rw (some', read_at-ok inbuf.block inbuf.buffer inbuf.off inside)
        (Returns-bind (add-AddResult m outbuf _ v (omega (arith, size)))
          λ result r. returns _ (settle_move-Moved m outbuf inbuf result w r))
]
