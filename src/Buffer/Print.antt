-- ===== src/Buffer/Print.antt =====
-- `evbuffer_add_vprintf` appends formatted text. `text` is what the format and its arguments make, as
-- `vsnprintf` of the C library returns its length and writes it, cut to the space, with a final 0;
-- `none` says that it returns an error.
use libevent_1_4_3_stable_le.Base.{
  ℕ, zero, suc, ◌+◌, ◌-◌, ◌^◌, ◌≤◌, ◌<◌, ◌≡◌, ◌≢◌, refl, ap, ◌∙◌, inl, inr, List, [], ◌∷◌, ◌++◌,
  take, drop, length, length-append, length-take, arith, ltb, le→ltb, lt→ltb, ◌==◌, ne→==, true,
  if◌then◌else◌, Bool-cases, Option, none, some, dec_lt,
}
use libevent_1_4_3_stable_le.Base.Slices.{take_all, take-append_length}
use libevent_1_4_3_stable_le.Base.Int.{ℤ, pos, negsuc, minus_one}
use libevent_1_4_3_stable_le.Base.Run.{
  Run, ok, exits, diverges, Returns, returns, Returns-map, Returns-bind, ◌>>=◌,
}
use libevent_1_4_3_stable_le.Buffer.{Evbuffer, Allocator, write_at, call_if, expand}
use libevent_1_4_3_stable_le.Buffer.Memory.{
  content, IsValid, content-call_if, call_if-IsValid, extended, write-extended, extended-IsValid,
  content-extended,
}
use libevent_1_4_3_stable_le.Buffer.Expand.{Expanded, expand-Expanded}
use mathlib.Core.List.{append-nil}

-- What `vsnprintf` writes into `space` bytes.
unfoldable pub printed : ℕ → List ℕ → List ℕ
printed space text = if space == 0 then [] else take (space - 1) text ++ (0 ∷ [])

-- The `for (;;)` loop; `oldoff` is the length before the call.
unfoldable pub print_loop : ℕ → Allocator → ℕ → List ℕ → Evbuffer → Run (ℤ × Evbuffer)
print_loop zero m oldoff text b = diverges
print_loop (suc fuel) m oldoff text b =
    let used = b.misalign + b.off in
    let space = b.totallen - used in
    let attempt : Run (ℤ × Evbuffer) = do
      block' ← write_at b.block (b.buffer + b.off) (printed space text)
      let done = call_if true (record b { block = block'; off = b.off + length text }) oldoff
      let again = expand m (record b { block = block' }) (length text + 1) >>= λ (r, c). elim r [
        | pos n ↦ print_loop fuel m oldoff text c
        | negsuc n ↦ ok (minus_one, c)
      ]
      if ltb (length text) space then ok (pos (length text), done) else again
    in if ltb b.totallen used then exits else attempt

-- The result of the first `expand` is not looked at. Two rounds are enough where the second finds the
-- space that it needs.
unfoldable pub add_vprintf : Allocator → Option (List ℕ) → Evbuffer → Run (ℤ × Evbuffer)
add_vprintf m none b = expand m b 64 >>= λ (_, c). ok (minus_one, c)
add_vprintf m (some text) b = expand m b 64 >>= λ (_, c). print_loop 2 m b.off text c

-- `evbuffer_add_printf`
unfoldable add_printf : Allocator → Option (List ℕ) → Evbuffer → Run (ℤ × Evbuffer)
unfolding add_vprintf
add_printf m text b = add_vprintf m text b

-- A buffer that holds what `b` holds and then the text.
abbrev pub Printed : Evbuffer → List ℕ → ℤ × Evbuffer → Type 0
Printed b text (r, c) = (r ≡ pos (length text)) × IsValid c × (content c ≡ content b ++ text)

length-printed : (space : ℕ) (text : List ℕ) → length (printed space text) ≤ space
unfolding printed
length-printed space text = elim (Bool-cases (space == 0)) [
  | inl e ↦ rw e (omega arith)
  | inr e ↦
      let least : space ≢ 0 = ground arith in
      rw e (
        omega (arith, length-append (take (space - 1) text) (0 ∷ []), length-take (space - 1) text))
]

printed_whole :
    (space : ℕ) (text : List ℕ) → length text < space → printed space text ≡ text ++ (0 ∷ [])
unfolding printed
printed_whole space text h =
    rw (ne→== space 0 (omega arith), take_all (space - 1) text (omega arith))

module _ (m : Allocator) (b : Evbuffer) (oldoff : ℕ) (text : List ℕ) (v : IsValid b) where
  -- The round that finds the space.
  print_fits :
      (fuel : ℕ)
      → b.misalign + b.off + length text < b.totallen
      → Returns (Printed b text) (print_loop (suc fuel) m oldoff text b)
  unfolding print_loop extended
  print_fits fuel room =
      let space = b.totallen - (b.misalign + b.off) in
      let out = text ++ (0 ∷ []) in
      let n = length text in
      let size = length-append text (0 ∷ []) in
      let fits : b.misalign + b.off + length out ≤ b.totallen = omega arith in
      let part : n ≤ length out = omega arith in
      rw
        (
          le→ltb b.totallen (b.misalign + b.off) v.fits,
          printed_whole space text (omega arith),
          write-extended b out n v fits part,
          lt→ltb n space (omega arith),
        )
        (returns _ (
          refl,
          call_if-IsValid true (extended b out n) oldoff (extended-IsValid b out n v fits part),
          content-call_if true (extended b out n) oldoff
              ∙ content-extended b out n v fits part
              ∙ ap (λ (l : List ℕ). content b ++ l) (take-append_length n text (0 ∷ []) refl),
        ))

  -- The round that does not: what it wrote is not counted in.
  truncated : Evbuffer
  truncated = extended b (printed (b.totallen - (b.misalign + b.off)) text) 0

  truncated-SameBytes :
      IsValid truncated
      × (content truncated ≡ content b)
      × (truncated.off ≡ b.off + 0)
      × (truncated.misalign ≡ b.misalign)
      × (truncated.totallen ≡ b.totallen)
  unfolding truncated extended
  truncated-SameBytes =
      let out = printed (b.totallen - (b.misalign + b.off)) text in
      let fits : b.misalign + b.off + length out ≤ b.totallen =
        omega (arith, v.fits, length-printed (b.totallen - (b.misalign + b.off)) text) in
      (
        extended-IsValid b out 0 v fits (omega arith),
        content-extended b out 0 v fits (omega arith) ∙ append-nil (content b),
        refl,
        refl,
        refl,
      )

  print_grows :
      (fuel : ℕ)
      → b.totallen ≤ b.misalign + b.off + length text
      → print_loop (suc fuel) m oldoff text b ≡ (
          expand m truncated (length text + 1) >>= λ (r, c). elim r [
            | pos n ↦ print_loop fuel m oldoff text c
            | negsuc n ↦ ok (minus_one, c)
          ])
  unfolding print_loop truncated extended
  print_grows fuel short =
      let space = b.totallen - (b.misalign + b.off) in
      let out = printed space text in
      let fits : b.misalign + b.off + length out ≤ b.totallen =
        omega (arith, v.fits, length-printed space text) in
      let same : b.off ≡ b.off + 0 = omega arith in
      rw
        (
          le→ltb b.totallen (b.misalign + b.off) v.fits,
          write-extended b out 0 v fits (omega arith),
          le→ltb (length text) space (omega arith),
        )
        (ap
          (λ (k : ℕ).
            expand m
              (record b {
                block =
                    take (b.buffer + b.off) b.block
                    ++ (out ++ drop (b.buffer + b.off + length out) b.block);
                off = k;
              })
              (length text + 1)
            >>= λ (r, c). elim r [
              | pos n ↦ print_loop fuel m oldoff text c
              | negsuc n ↦ ok (minus_one, c)
            ])
          same)

-- Two rounds append the text, when memory is granted.
print_loop-Printed :
    (m : Allocator) (b : Evbuffer) (oldoff : ℕ) (text : List ℕ)
    → ((len : ℕ) → m.grants len ≡ true)
    → IsValid b
    → b.misalign + b.off + length text < 2 ^ 62
    → Returns (Printed b text) (print_loop 2 m oldoff text b)
print_loop-Printed m b oldoff text all v small =
    elim (dec_lt (b.misalign + b.off + length text) b.totallen) [
      | yes room ↦ print_fits m b oldoff text v 1 room
      | no short ↦ rw (print_grows m b oldoff text v 1 (omega arith)) (
          let (v', bytes, off, mis, total) = truncated-SameBytes m b oldoff text v in
          Returns-bind
            (expand-Expanded m (truncated m b oldoff text v) (length text + 1) v' (omega arith))
            λ (r, c) e. second r c e)
    ]
  where
    second :
        (r : ℤ) (c : Evbuffer)
        → Expanded m (truncated m b oldoff text v) (length text + 1) (r, c)
        → Returns
            (Printed b text)
            (elim r [ pos n ↦ print_loop 1 m oldoff text c | negsuc n ↦ ok (minus_one, c) ])
    second r c (s, inl (done, room)) =
        let (_, bytes, _, _, _) = truncated-SameBytes m b oldoff text v in
        rw done (
          Returns-map (print_fits m c oldoff text s.valid 0 (omega arith))
            λ (r', d) (a, v', e). (a, v', e ∙ ap (λ (l : List ℕ). l ++ text) (s.bytes ∙ bytes)))
    second r c (s, inr (failed, (len, refused))) = absurd (cc (all len))

-- When memory is granted and the sizes of a valid buffer and the text stay below 2 ^ 62, the call returns
-- the length of the text, and appends the text without its final 0.
pub add_vprintf-Printed :
    (m : Allocator) (b : Evbuffer) (text : List ℕ)
    → ((len : ℕ) → m.grants len ≡ true)
    → IsValid b
    → b.misalign + b.off + length text + 64 < 2 ^ 62
    → Returns (Printed b text) (add_vprintf m (some text) b)
unfolding add_vprintf
add_vprintf-Printed m b text all v small =
    Returns-bind (expand-Expanded m b 64 v (omega arith)) λ (r, c) (s, _).
      Returns-map
        (print_loop-Printed m c b.off text all s.valid (omega (arith, s.earlier, s.same_off)))
        λ (r', d) (a, v', e). (a, v', e ∙ ap (λ (l : List ℕ). l ++ text) s.bytes)
