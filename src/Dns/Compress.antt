-- ===== src/Dns/Compress.antt =====
-- When a name that `dnsname_to_labels` may point to stands in the packet, and what stands behind a label.
use libevent_1_4_3_stable_le.Base.{ℕ, ◌+◌, ◌≤◌, ◌≡◌, sym, ◌∙◌, List, ◌∷◌, length, arith, true}
use libevent_1_4_3_stable_le.Dns.{Memory}
use libevent_1_4_3_stable_le.Dns.Encoded.{
  Encodes, label, SameBelow, bytes_at-SameBelow, Encodes-SameBelow, Encodes-lt, Encodes-more,
  dotted,
}
use libevent_1_4_3_stable_le.Dns.Labels.{Entry, write_bytes}
use libevent_1_4_3_stable_le.Dns.Writing.{
  is_label, is_label-inv, bytes_at-inv, bytes_at-write_bytes,
}

-- The name stands from `p` on, below `limit`, with `n` pointers at most, and ends before `e`.
abbrev pub Stands : Memory → ℕ → ℕ → List ℕ → ℕ → ℕ → Type 0
Stands buf limit p name n e =
    (l : List ℕ) × (ls : List (List ℕ)) × (dotted l ls ≡ name) × Encodes buf limit p (l ∷ ls) n e

-- An entry of the table is right: its name stands at its position.
abbrev pub Placed : Memory → ℕ → Entry → Type 0
Placed buf j e = (end : ℕ) × Stands buf j e.pos e.v j end

pub Stands-SameBelow :
    {limit limit' : ℕ} (buf buf' : Memory) {p n m e : ℕ} {name : List ℕ}
    → SameBelow limit buf buf'
    → limit ≤ limit'
    → n ≤ m
    → Stands buf limit p name n e
    → Stands buf' limit' p name m e
Stands-SameBelow {limit} {limit'} buf buf' same more pointers (l, ls, named, enc) =
    (l, ls, named, Encodes-more pointers (Encodes-SameBelow limit limit' buf buf' same more enc))

pub Placed-SameBelow :
    {j j' : ℕ} (buf buf' : Memory) (e : Entry)
    → SameBelow j buf buf'
    → j ≤ j'
    → Placed buf j e
    → Placed buf' j' e
Placed-SameBelow buf buf' e same more (end, stands) =
    (end, Stands-SameBelow buf buf' same more more stands)

pub SameBelow-trans :
    {j k : ℕ} (a b c : Memory) → j ≤ k → SameBelow j a b → SameBelow k b c → SameBelow j a c
SameBelow-trans a b c h first second i lt = second i (omega arith) ∙ first i lt

-- The length byte of a label and its bytes are written, and are still there.
pub label_written :
    (buf buf' : Memory) (j : ℕ) (l : List ℕ) {limit n e : ℕ} {ls : List (List ℕ)}
    → is_label l ≡ true
    → SameBelow (j + length l + 1) (write_bytes buf j (length l ∷ l)) buf'
    → Encodes buf' limit (j + length l + 1) ls n e
    → Encodes buf' limit j (l ∷ ls) n e
label_written buf buf' j l {limit} {n} {e} {ls} ok_label same rest =
    let (some', short, no_dot) = is_label-inv l ok_label in
    let written : Memory = write_bytes buf j (length l ∷ l) in
    let (first, chars) =
      bytes_at-inv written j (length l) l (bytes_at-write_bytes buf j (length l ∷ l)) in
    let place : j + length l + 1 ≡ j + 1 + length l = omega arith in
    label l (same j (omega arith) ∙ first) some' short
      (bytes_at-SameBelow (j + length l + 1) written buf' (j + 1) (length l) same (omega arith)
        ∙ chars)
      (let inside = Encodes-lt rest in omega arith) (rw (sym place) rest)
