-- ===== src/Dns/Encoded.antt =====
-- When a name stands in a packet: as labels, or as a pointer to where the rest of it stands.
use libevent_1_4_3_stable_le.Base.{
  ℕ, zero, suc, ◌+◌, ◌*◌, ◌≤◌, ◌<◌, ◌≡◌, refl, ◌∙◌, List, [], ◌∷◌, ◌++◌, length, arith,
}
use libevent_1_4_3_stable_le.Dns.{Memory, bytes_at, with_dot}

-- The labels `ls` stand from `p` on, all below `limit`, with `n` pointers at most; the name ends before `e`.
pub data Encodes (mem : Memory) (limit : ℕ) : ℕ → List (List ℕ) → ℕ → ℕ → Type 0 where
  done : {p n e : ℕ} → mem p ≡ 0 → p < limit → e ≡ p + 1 → Encodes mem limit p [] n e
  label :
      {p n e : ℕ} (l : List ℕ) {ls : List (List ℕ)}
      → mem p ≡ length l
      → 0 < length l
      → length l ≤ 63
      → bytes_at mem (p + 1) (length l) ≡ l
      → p + 1 + length l ≤ limit
      → Encodes mem limit (p + 1 + length l) ls n e
      → Encodes mem limit p (l ∷ ls) n e
  pointer :
      {p n e e' : ℕ} {ls : List (List ℕ)} (high low : ℕ)
      → mem p ≡ 192 + high
      → high < 64
      → mem (p + 1) ≡ low
      → low < 256
      → p + 1 < limit
      → Encodes mem limit (high * 256 + low) ls n e'
      → e ≡ p + 2
      → Encodes mem limit p ls (suc n) e

-- Two packets agree below a place.
abbrev pub SameBelow : ℕ → Memory → Memory → Type 0
SameBelow limit mem mem' = (i : ℕ) → i < limit → mem' i ≡ mem i

pub bytes_at-SameBelow :
    (limit : ℕ) (mem mem' : Memory) (j n : ℕ)
    → SameBelow limit mem mem'
    → j + n ≤ limit
    → bytes_at mem' j n ≡ bytes_at mem j n
bytes_at-SameBelow limit mem mem' j zero same h = refl
bytes_at-SameBelow limit mem mem' j (suc n) same h =
    rw (same j (omega arith), bytes_at-SameBelow limit mem mem' (j + 1) n same (omega arith)) refl

-- What stands there stays, whatever comes behind it.
pub Encodes-SameBelow :
    (limit limit' : ℕ) (mem mem' : Memory) {p n e : ℕ} {ls : List (List ℕ)}
    → SameBelow limit mem mem'
    → limit ≤ limit'
    → Encodes mem limit p ls n e
    → Encodes mem' limit' p ls n e
Encodes-SameBelow limit limit' mem mem' same more (done {p} zero' lt end) =
    done (same p lt ∙ zero') (omega arith) end
Encodes-SameBelow limit limit' mem mem' same more (label {p} l len some' few bytes lt rest) =
    label l (same p (omega arith) ∙ len) some' few
      (bytes_at-SameBelow limit mem mem' (p + 1) (length l) same lt ∙ bytes) (omega arith)
      (Encodes-SameBelow limit limit' mem mem' same more rest)
Encodes-SameBelow limit limit' mem mem' same more
      (pointer {p} high low at few at' few' lt rest end) =
    pointer high low (same p (omega arith) ∙ at) few (same (p + 1) lt ∙ at') few' (omega arith)
      (Encodes-SameBelow limit limit' mem mem' same more rest) end

-- A name starts inside the packet.
pub Encodes-lt :
    {mem : Memory} {limit p n e : ℕ} {ls : List (List ℕ)} → Encodes mem limit p ls n e → p < limit
Encodes-lt (done zero' lt end) = lt
Encodes-lt (label l len some' few bytes lt rest) = omega arith
Encodes-lt (pointer high low at few at' few' lt rest end) = omega arith

-- More pointers may be allowed.
pub Encodes-more :
    {mem : Memory} {limit p n m e : ℕ} {ls : List (List ℕ)}
    → n ≤ m
    → Encodes mem limit p ls n e
    → Encodes mem limit p ls m e
Encodes-more h (done zero' lt end) = done zero' lt end
Encodes-more h (label l len some' few bytes lt rest) =
    label l len some' few bytes lt (Encodes-more h rest)
Encodes-more {m = zero} h (pointer high low at few at' few' lt rest end) = absurd (omega arith)
Encodes-more {m = suc m} h (pointer high low at few at' few' lt rest end) =
    pointer high low at few at' few' lt (Encodes-more {m = m} (omega arith) rest) end

-- The name of the labels, behind what has been read of it.
abbrev pub joined : List ℕ → List (List ℕ) → List ℕ
joined out [] = out
joined out (l ∷ ls) = joined (with_dot out ++ l) ls

-- The name of the labels `l ∷ ls`.
abbrev pub dotted : List ℕ → List (List ℕ) → List ℕ
dotted l [] = l
dotted l (m ∷ ls) = l ++ (b'.' ∷ dotted m ls)
