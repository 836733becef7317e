-- ===== src/Buffer/Add.antt =====
-- `evbuffer_add` appends, and `evbuffer_add_buffer` moves what another buffer holds.
use libevent_1_4_3_stable_le.Base.{
  ℕ, ◌+◌, ◌%◌, ◌^◌, ◌≤◌, ◌≡◌, refl, ap, ◌∙◌, ◌⊎◌, inl, inr, List, [], ◌∷◌, ◌++◌, length, arith, ltb,
  ◌==◌, not, ◌&&◌, true, false, if◌then◌else◌,
}
use libevent_1_4_3_stable_le.Base.Int.{ℤ, pos, minus_one}
use libevent_1_4_3_stable_le.Base.Run.{Returns, returns, Returns-map, Returns-bind, Returns-if}
use libevent_1_4_3_stable_le.Base.Words.{size_mod}
use libevent_1_4_3_stable_le.Buffer.{Evbuffer, Allocator, store, add}
use libevent_1_4_3_stable_le.Base.Slices.{take_all}
use libevent_1_4_3_stable_le.Buffer.Memory.{
  content, IsValid, content-call_if, call_if-IsValid, call_if_fields, extended, write-extended,
  extended-IsValid, content-extended,
}
use libevent_1_4_3_stable_le.Buffer.Expand.{SameBytes, SameBytes-refl, Expanded, expand-Expanded}

-- `c` is `b` with the bytes behind its own, and the callback has been told unless there are none.
pub record Appended (b : Evbuffer) (bytes : List ℕ) (c : Evbuffer) : Type 0 where
  pub valid : IsValid c
  pub held : content c ≡ content b ++ bytes
  pub more : c.off ≡ b.off + length bytes
  pub earlier : c.misalign ≤ b.misalign
  pub same_cb : c.cb ≡ b.cb
  pub told :
      c.calls
      ≡ (if not (length bytes == 0) && b.cb then b.calls ++ ((b.off, c.off) ∷ []) else b.calls)

store-Appended :
    (b c : Evbuffer) (bytes : List ℕ)
    → SameBytes b c
    → c.misalign + c.off + length bytes ≤ c.totallen
    → Returns (λ (r, d). (r ≡ pos 0) × Appended b bytes d) (store b.off bytes (pos 0, c))
unfolding store extended
store-Appended b c bytes s room =
    let n = length bytes in
    let d = extended c bytes n in
    let whole : content d ≡ content c ++ bytes =
      content-extended c bytes n s.valid room (omega arith)
      ∙ ap (λ (l : List ℕ). content c ++ l) (take_all n bytes (omega arith)) in
    let (off, mis, total, cb, calls) = call_if_fields (not (n == 0)) d b.off in
    rw (write-extended c bytes n s.valid room (omega arith)) (
      returns _ (
        refl,
        record {
          valid = call_if-IsValid _ d b.off (extended-IsValid c bytes n s.valid room (omega arith));
          held = content-call_if _ d b.off ∙ whole ∙ ap (λ (l : List ℕ). l ++ bytes) s.bytes;
          more = off ∙ ap (λ (k : ℕ). k + n) s.same_off;
          earlier = omega (arith, s.earlier);
          same_cb = cb ∙ s.same_cb;
          told = rw (off, ← s.same_cb, ← s.same_calls) calls;
        },
      ))

-- What `add` does: it appends and returns 0, or returns -1 after a refused `realloc` and holds what it
-- held.
abbrev pub AddResult : Allocator → Evbuffer → List ℕ → ℤ × Evbuffer → Type 0
AddResult m b bytes (r, c) =
    ((r ≡ pos 0) × Appended b bytes c)
    ⊎ ((r ≡ minus_one) × SameBytes b c × ((len : ℕ) × (m.grants len ≡ false)))

store-AddResult :
    (m : Allocator) (b : Evbuffer) (bytes : List ℕ) (r : ℤ) (c : Evbuffer)
    → Expanded m b (length bytes) (r, c)
    → Returns (AddResult m b bytes) (store b.off bytes (r, c))
store-AddResult m b bytes r c (s, inl (done, room)) =
    rw done (Returns-map (store-Appended b c bytes s room) λ p h. inl h)
store-AddResult m b bytes r c (s, inr (failed, refused)) =
    rw failed (unfold store in returns _ (inr (refl, s, refused)))

-- For a valid buffer and sizes that add up to 2 ^ 62 at most, `add` returns. It appends the bytes, tells
-- the callback and returns 0, or it returns -1 after a refused `realloc` and the buffer holds what it held.
pub add-AddResult :
    (m : Allocator) (b : Evbuffer) (bytes : List ℕ)
    → IsValid b
    → b.misalign + b.off + length bytes ≤ 2 ^ 62
    → Returns (AddResult m b bytes) (add m b bytes)
unfolding add
add-AddResult m b bytes v small =
    let plain : (b.misalign + b.off + length bytes) % size_mod ≡ b.misalign + b.off + length bytes =
      omega arith in
    rw plain (
      Returns-bind
        (Returns-if {P = Expanded m b (length bytes)}
          (ltb b.totallen (b.misalign + b.off + length bytes))
          (λ short. expand-Expanded m b (length bytes) v small)
          (λ enough. returns (pos 0, b) (SameBytes-refl b v, inl (refl, ground arith))))
        λ (r, c) e. store-AddResult m b bytes r c e)

-- With memory granted, `add` appends the bytes and returns 0.
pub add-Appended :
    (m : Allocator) (b : Evbuffer) (bytes : List ℕ)
    → ((len : ℕ) → m.grants len ≡ true)
    → IsValid b
    → b.misalign + b.off + length bytes ≤ 2 ^ 62
    → Returns (λ (r, c). (r ≡ pos 0) × Appended b bytes c) (add m b bytes)
add-Appended m b bytes all v small = Returns-map (add-AddResult m b bytes v small) λ (r, c) result.
    elim result [ inl done ↦ done | inr (_, _, (len, refused)) ↦ absurd (cc (all len)) ]
