-- ===== src/Dns/Writing.antt =====
-- What the parts of `dnsname_to_labels` do: labels of a name, bytes that are written, the table of names.
use libevent_1_4_3_stable_le.Base.{
  ℕ, suc, ◌+◌, ◌-◌, ◌≤◌, ◌<◌, ◌≡◌, ◌≢◌, ◌⊎◌, inl, inr, refl, sym, ap, ◌∙◌, List, [], ◌∷◌, ◌++◌,
  length, length-append, arith, ltb, leb, ◌==◌, ◌&&◌, not, Bool, true, false, if◌then◌else◌, Option,
  none, some, ne→==, eq→==, Bool-cases, search_hit, search_miss,
}
use mathlib.Core.List.Memᴰ
use mathlib.Core.List.{Memᴰ, append_assoc}
use libevent_1_4_3_stable_le.Dns.{Memory, bytes_at, with_dot}
use libevent_1_4_3_stable_le.Dns.Encoded.{joined, dotted}
use libevent_1_4_3_stable_le.Dns.Labels.{
  Entry, same_name, get_pos, table_add, strchr_dot, write_bytes, add_label, max_labels,
}

-- No dot and no NUL.
abbrev pub plain : List ℕ → Bool
plain [] = true
plain (c ∷ l) = not (c == b'.') && not (c == 0) && plain l

abbrev pub is_label : List ℕ → Bool
is_label l = ltb 0 (length l) && leb (length l) 63 && plain l

-- The name `dotted l ls` has labels that a packet can hold.
abbrev pub is_name : List ℕ → List (List ℕ) → Bool
is_name l [] = is_label l
is_name l (m ∷ ls) = is_label l && is_name m ls

pub plain-inv :
    (c : ℕ) (l : List ℕ) → plain (c ∷ l) ≡ true → ((c == b'.') ≡ false) × (c ≢ 0) × (plain l ≡ true)
plain-inv c l h = ground arith

pub is_name-inv :
    (l m : List ℕ) (ls : List (List ℕ))
    → is_name l (m ∷ ls) ≡ true
    → (is_label l ≡ true) × (is_name m ls ≡ true)
is_name-inv l m ls h = ground arith

pub is_label-inv :
    (l : List ℕ) → is_label l ≡ true → (0 < length l) × (length l ≤ 63) × (plain l ≡ true)
is_label-inv l h = ground arith

-- Before the dot and behind it.
pub strchr_dot-plain : (l : List ℕ) → plain l ≡ true → strchr_dot l ≡ (l, none)
unfolding strchr_dot
strchr_dot-plain [] h = refl
strchr_dot-plain (c ∷ l) h =
    let (no_dot, no_nul, rest) = plain-inv c l h in rw (no_dot, strchr_dot-plain l rest) refl

pub strchr_dot-dot :
    (l rest : List ℕ) → plain l ≡ true → strchr_dot (l ++ (b'.' ∷ rest)) ≡ (l, some rest)
unfolding strchr_dot
strchr_dot-dot [] rest h = refl
strchr_dot-dot (c ∷ l) rest h =
    let (no_dot, no_nul, later) = plain-inv c l h in rw (no_dot, strchr_dot-dot l rest later) refl

-- Writing leaves what stands before, and what is written can be read.
pub write_bytes-below :
    (buf : Memory) (j : ℕ) (bytes : List ℕ) (i : ℕ) → i < j → write_bytes buf j bytes i ≡ buf i
write_bytes-below buf j [] i h = refl
write_bytes-below buf j (c ∷ bytes) i h =
    rw
      (
        write_bytes-below (λ k. if k == j then c else buf k) (j + 1) bytes i (omega arith),
        ne→== i j (omega arith),
      )
      refl

pub bytes_at-write_bytes :
    (buf : Memory) (j : ℕ) (bytes : List ℕ)
    → bytes_at (write_bytes buf j bytes) j (length bytes) ≡ bytes
bytes_at-write_bytes buf j [] = refl
bytes_at-write_bytes buf j (c ∷ bytes) =
    rw
      (
        write_bytes-below (λ k. if k == j then c else buf k) (j + 1) bytes j (omega arith),
        eq→== j j refl,
      )
      (ap (λ rest. c ∷ rest)
        (bytes_at-write_bytes (λ k. if k == j then c else buf k) (j + 1) bytes))

pub bytes_at-inv :
    (mem : Memory) (j c : ℕ) (l : List ℕ)
    → bytes_at mem j (length (c ∷ l)) ≡ c ∷ l
    → (mem j ≡ c) × (bytes_at mem (j + 1) (length l) ≡ l)
bytes_at-inv mem j c l h = (cc h, cc h)

-- The test of names finds equal ones only.
pub same_name_sound : (v w : List ℕ) → same_name v w ≡ true → v ≡ w
same_name_sound [] [] h = refl
same_name_sound [] (d ∷ w) h = absurd (cc h)
same_name_sound (c ∷ v) [] h = absurd (cc h)
same_name_sound (c ∷ v) (d ∷ w) h =
    let (first, later) = both h in rw (first, same_name_sound v w later) refl
  where
    both : (c == d && same_name v w) ≡ true → (c ≡ d) × (same_name v w ≡ true)
    both h = ground arith

-- A position that the table gives is that of an entry with the name.
pub get_pos-Memᴰ :
    (table : List Entry) (label : List ℕ) (p : ℕ)
    → get_pos table label ≡ some p
    → (e : Entry) × Memᴰ e table × (e.v ≡ label) × (e.pos ≡ p)
unfolding get_pos
get_pos-Memᴰ [] label p h = absurd (cc h)
get_pos-Memᴰ (e ∷ table) label p h = elim (Bool-cases (same_name label e.v)) [
  | inl same ↦ (
    e,
    Memᴰ.head refl,
    sym (same_name_sound label e.v same),
    search_hit (get_pos table label) (same_name label e.v) same h,
  )
  | inr other ↦
      let (e', at', name, pos') =
        get_pos-Memᴰ table label p
          (search_miss (some e.pos) (get_pos table label) (same_name label e.v) other h) in
      (e', Memᴰ.tail at', name, pos')
]

-- An entry of the longer table is the new one, or was there.
pub table_add-Memᴰ :
    (table : List Entry) (label : List ℕ) (j : ℕ) (e : Entry)
    → Memᴰ e (table_add table label j)
    → Memᴰ e table ⊎ (e ≡ record { v = label; pos = j })
unfolding table_add
table_add-Memᴰ table label j e = split (length table == max_labels)
  where
    split :
        (full : Bool)
        → Memᴰ e (if full then table else table ++ (record { v = label; pos = j } ∷ []))
        → Memᴰ e table ⊎ (e ≡ record { v = label; pos = j })
    split true there = inl there
    split false there = elim (Memᴰ.append_cases table there) [
      | inl before ↦ inl before
      | inr last ↦ inr (Memᴰ.eq_of_singleton last)
    ]

abbrev pub entries : Option (List Entry) → List Entry
entries none = []
entries (some table) = table

pub add_label-Memᴰ :
    (table : Option (List Entry)) (label : List ℕ) (j : ℕ) (e : Entry)
    → Memᴰ e (entries (add_label table label j))
    → Memᴰ e (entries table) ⊎ (e ≡ record { v = label; pos = j })
add_label-Memᴰ none label j e there = inl there
add_label-Memᴰ (some table) label j e there = table_add-Memᴰ table label j e there

joined-with_dot :
    (c : ℕ) (out m : List ℕ) (ls : List (List ℕ))
    → joined (with_dot (c ∷ out) ++ m) ls ≡ (c ∷ out) ++ (b'.' ∷ dotted m ls)
joined-with_dot c out m [] = append_assoc (c ∷ out) (b'.' ∷ []) m
joined-with_dot c out m (m' ∷ ls) =
    joined-with_dot c ((out ++ (b'.' ∷ [])) ++ m) m' ls
    ∙ (append_assoc (c ∷ (out ++ (b'.' ∷ []))) m (b'.' ∷ dotted m' ls)
        ∙ append_assoc (c ∷ out) (b'.' ∷ []) (m ++ (b'.' ∷ dotted m' ls)))

pub joined-dotted :
    (l : List ℕ) (ls : List (List ℕ)) → 0 < length l → joined [] (l ∷ ls) ≡ dotted l ls
joined-dotted l [] h = refl
joined-dotted [] (m ∷ ls) h = absurd (omega arith)
joined-dotted (c ∷ l) (m ∷ ls) h = joined-with_dot c l m ls

pub length-dotted_rest :
    (l m : List ℕ) (ls : List (List ℕ))
    → length (dotted l (m ∷ ls)) ≡ length l + 1 + length (dotted m ls)
length-dotted_rest l m ls = let split = length-append l (b'.' ∷ dotted m ls) in omega arith

last_byte :
    (buf : Memory) (j c : ℕ) (l : List ℕ)
    → plain (c ∷ l) ≡ true
    → write_bytes buf j (c ∷ l) (j + length l) ≢ 0
last_byte buf j c [] h =
    let (no_dot, no_nul, more) = plain-inv c [] h in rw (eq→== (j + 0) j (omega arith)) no_nul
last_byte buf j c (d ∷ l) h =
    let (no_dot, no_nul, more) = plain-inv c (d ∷ l) h in
    let place : j + suc (length l) ≡ j + 1 + length l = omega arith in
    rw place (last_byte (λ k. if k == j then c else buf k) (j + 1) d l more)

-- The last byte that is written of a label is not the NUL.
pub last-plain :
    (buf : Memory) (j : ℕ) (l : List ℕ)
    → 0 < length l
    → plain l ≡ true
    → write_bytes buf j l (j + length l - 1) ≢ 0
last-plain buf j [] some' h = absurd (omega arith)
last-plain buf j (c ∷ l) some' h =
    let place : j + suc (length l) - 1 ≡ j + length l = omega arith in
    rw place (last_byte buf j c l h)
