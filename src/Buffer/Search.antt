-- ===== src/Buffer/Search.antt =====
-- `evbuffer_find` looks for a byte string in the buffer.
use libevent_1_4_3_stable_le.Base.{
  ℕ, zero, suc, ◌+◌, ◌<◌, ◌≡◌, refl, ap, inl, inr, List, [], ◌∷◌, take, drop, length, length-take,
  length-drop, arith, ltb, ◌==◌, ◌&&◌, Bool, true, false, if◌then◌else◌, Bool-cases, Option, none,
  some,
}
use libevent_1_4_3_stable_le.Base.Run.{Run, ok, fault, Returns, returns, ◌>>=◌}
use libevent_1_4_3_stable_le.Buffer.{Evbuffer, read_at}
use libevent_1_4_3_stable_le.Buffer.Memory.{content, IsValid, read_at-ok}

-- `memcmp(p, q, len) == 0`
unfoldable pub bytes_eq : List ℕ → List ℕ → Bool
bytes_eq [] [] = true
bytes_eq [] (y ∷ ys) = false
bytes_eq (x ∷ xs) [] = false
bytes_eq (x ∷ xs) (y ∷ ys) = x == y && bytes_eq xs ys

-- The `while` loop, from the offset `i` on. `memchr` goes to the next byte that is the first one of
-- `what`; a match that would pass the end stops the search.
unfoldable pub find_loop : ℕ → List ℕ → List ℕ → ℕ → Option ℕ
find_loop first what [] i = none
find_loop first what (x ∷ rest) i =
    let next = find_loop first what rest (i + 1) in
    let here = if bytes_eq (take (length what) (x ∷ rest)) what then some i else next in
    let candidate = if ltb (length (x ∷ rest)) (length what) then none else here in
    if x == first then candidate else next

-- The offset of the match from `buffer->buffer`, or `none` for a null pointer. The first byte of `what`
-- is read whenever the buffer holds anything.
unfoldable pub find : Evbuffer → List ℕ → Run (Option ℕ)
unfolding read_at find_loop
find b [] = if b.off == 0 then ok none else fault
find b (first ∷ more) = do
  bytes ← read_at b.block b.buffer b.off
  ok (find_loop first (first ∷ more) bytes 0)

-- The bytes begin with `what`.
abbrev pub Begins : List ℕ → List ℕ → Type 0
Begins what bytes = take (length what) bytes ≡ what

-- `some j` is the first place where `what` stands in `bytes`, counted from `i`; `none` says that it
-- stands nowhere.
abbrev pub FirstAt : List ℕ → List ℕ → ℕ → Option ℕ → Type 0
FirstAt what bytes i (some j) =
    (d : ℕ) × (j ≡ i + d)
    × (d < length bytes)
    × Begins what (drop d bytes)
    × ((k : ℕ) → k < d → ¬ Begins what (drop k bytes))
FirstAt what bytes i none = (k : ℕ) → k < length bytes → ¬ Begins what (drop k bytes)

bytes_eq→eq : (xs ys : List ℕ) → bytes_eq xs ys ≡ true → xs ≡ ys
unfolding bytes_eq
bytes_eq→eq [] [] h = refl
bytes_eq→eq [] (y ∷ ys) h = cc
bytes_eq→eq (x ∷ xs) [] h = cc
bytes_eq→eq (x ∷ xs) (y ∷ ys) h = ground (arith, bytes_eq→eq xs ys)

bytes_eq_refl : (xs : List ℕ) → bytes_eq xs xs ≡ true
unfolding bytes_eq
bytes_eq_refl [] = refl
bytes_eq_refl (x ∷ xs) = ground (arith, bytes_eq_refl xs)

FirstAt-cons :
    (what : List ℕ) (x : ℕ) (rest : List ℕ) (i : ℕ) (r : Option ℕ)
    → ¬ Begins what (x ∷ rest)
    → FirstAt what rest (i + 1) r
    → FirstAt what (x ∷ rest) i r
FirstAt-cons what x rest i (some j) miss (d, e, lt, at, before) =
    (suc d, omega arith, omega arith, at, earlier)
  where
    earlier : (k : ℕ) → k < suc d → ¬ Begins what (drop k (x ∷ rest))
    earlier zero lt' = miss
    earlier (suc k) lt' = before k (omega arith)
FirstAt-cons what x rest i none miss nowhere = anywhere
  where
    anywhere : (k : ℕ) → k < suc (length rest) → ¬ Begins what (drop k (x ∷ rest))
    anywhere zero lt = miss
    anywhere (suc k) lt = nowhere k (omega arith)

too_short : (what bytes : List ℕ) (i : ℕ) → length bytes < length what → FirstAt what bytes i none
too_short what bytes i short k lt at =
    omega (arith, ap length at, length-take (length what) (drop k bytes), length-drop k bytes)

find_loop-FirstAt :
    (first : ℕ) (more bytes : List ℕ) (i : ℕ)
    → FirstAt (first ∷ more) bytes i (find_loop first (first ∷ more) bytes i)
unfolding find_loop
find_loop-FirstAt first more [] i = λ k lt. absurd (omega arith)
find_loop-FirstAt first more (x ∷ rest) i =
    let later = find_loop-FirstAt first more rest (i + 1) in
    elim (Bool-cases (x == first)) [
      | inl same ↦ elim (Bool-cases (ltb (length (x ∷ rest)) (length (first ∷ more)))) [
        | inl short ↦ rw (same, short) (too_short (first ∷ more) (x ∷ rest) i (ground arith))
        | inr long ↦
            elim (Bool-cases (bytes_eq (take (length (first ∷ more)) (x ∷ rest)) (first ∷ more))) [
              | inl match ↦
                  rw (same, long, match)
                    (
                      0,
                      omega arith,
                      omega arith,
                      bytes_eq→eq _ _ match,
                      λ k lt. absurd (omega arith),
                    )
              | inr differ ↦
                  rw (same, long, differ)
                    (FirstAt-cons (first ∷ more) x rest i _
                      (λ at. cc (
                        ap (λ (l : List ℕ). bytes_eq l (first ∷ more)) at,
                        bytes_eq_refl (first ∷ more),
                      ))
                      later)
            ]
      ]
      | inr other ↦ rw other (
          FirstAt-cons (first ∷ more) x rest i _ (λ at. let same : x ≡ first = cc in ground arith)
            later)
    ]

-- In a valid buffer, the search finds the first place of a byte string that is not empty, and finds none
-- only if there is none.
pub find-FirstAt :
    (b : Evbuffer) (first : ℕ) (more : List ℕ)
    → IsValid b
    → Returns (FirstAt (first ∷ more) (content b) 0) (find b (first ∷ more))
unfolding find content
find-FirstAt b first more v =
    rw (read_at-ok b.block b.buffer b.off (omega (arith, v.placed, v.sized, v.fits)))
      (returns _ (find_loop-FirstAt first more _ 0))
