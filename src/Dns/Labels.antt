-- ===== src/Dns/Labels.antt =====
-- evdns.c: writing a name into a packet, with the table of the names that stand there already.
use libevent_1_4_3_stable_le.Base.{
  ℕ, zero, suc, ◌+◌, ◌-◌, ◌/◌, ◌%◌, List, [], ◌∷◌, ◌++◌, length, ltb, ◌==◌, ◌&&◌, ◌||◌, not, Bool,
  true, false, if◌then◌else◌, Option, none, some,
}
use libevent_1_4_3_stable_le.Base.Int.{ℤ, pos, negsuc, minus_one}
use libevent_1_4_3_stable_le.Base.Bits.{or}
use libevent_1_4_3_stable_le.Base.Run.{Run, ok, fault, diverges}
use libevent_1_4_3_stable_le.Dns.{Memory}

-- `struct dnslabel_entry`
pub record Entry : Type 0 where
  pub v : List ℕ
  pub pos : ℕ

-- The buffer, and the table, if there is one.
pub record Output : Type 0 where
  pub buf : Memory
  pub table : Option (List Entry)

abbrev pub max_labels : ℕ
max_labels = 128

-- `strcmp` finds no difference
abbrev pub same_name : List ℕ → List ℕ → Bool
same_name [] [] = true
same_name [] (d ∷ w) = false
same_name (c ∷ v) [] = false
same_name (c ∷ v) (d ∷ w) = c == d && same_name v w

unfoldable pub get_pos : List Entry → List ℕ → Option ℕ
get_pos [] label = none
get_pos (e ∷ table) label =
    let later = get_pos table label in if same_name label e.v then some e.pos else later

-- `dnslabel_table_add`. What `strdup` asks for is granted.
unfoldable pub table_add : List Entry → List ℕ → ℕ → List Entry
table_add table label j =
    if length table == max_labels then table else table ++ (record { v = label; pos = j } ∷ [])

-- `strchr(name, '.')`: what stands before the dot, and what behind it, if there is one.
unfoldable pub strchr_dot : List ℕ → List ℕ × Option (List ℕ)
strchr_dot [] = ([], none)
strchr_dot (c ∷ name) =
    let (label, rest) = strchr_dot name in if c == b'.' then ([], some name) else (c ∷ label, rest)

abbrev pub write_bytes : Memory → ℕ → List ℕ → Memory
write_bytes buf j [] = buf
write_bytes buf j (c ∷ bytes) = write_bytes (λ i. if i == j then c else buf i) (j + 1) bytes

-- `APPEND16` and `memcpy` into the buffer
abbrev pub bytes16 : ℕ → List ℕ
bytes16 x = x / 256 % 256 ∷ x % 256 ∷ []

abbrev pub find_label : Option (List Entry) → List ℕ → Option ℕ
find_label none name = none
find_label (some table) name = get_pos table name

abbrev pub add_label : Option (List Entry) → List ℕ → ℕ → Option (List Entry)
add_label none name j = none
add_label (some table) name j = some (table_add table name j)

module _ (buf_len : ℕ) where
  -- The zero behind the last label, for which no room is checked.
  unfoldable pub terminate : Output → ℕ → Run (ℤ × Output)
  terminate out j =
      let done = record out { buf = write_bytes out.buf j (0 ∷ []) } in
      let write = if ltb j buf_len then ok (pos (j + 1), done) else fault in
      if j == 0 || not (out.buf (j - 1) == 0) then write else ok (pos j, out)

  -- A label, up to the dot that `strchr` found, and `again` for what stands behind it.
  unfoldable pub write_label :
      (Output → ℕ → List ℕ → Run (ℤ × Output))
      → Output
      → ℕ
      → List ℕ
      → List ℕ × Option (List ℕ)
      → Run (ℤ × Output)
  unfolding terminate
  write_label again out j name (label, rest) =
      let n = length label in
      let next : Output = record {
        buf = write_bytes out.buf j (n ∷ label);
        table = add_label out.table name j;
      } in
      let go_on : Run (ℤ × Output) = elim rest [
        | none ↦ terminate next (j + n + 1)
        | some more ↦ again next (j + n + 1) more
      ] in
      if ltb 63 n
      then ok (minus_one, out)
      else if ltb buf_len (j + n + 1)
      then ok (negsuc 1, out)
      else go_on

  -- A pointer to where the rest of the name stands.
  unfoldable pub write_pointer : Output → ℕ → ℕ → Run (ℤ × Output)
  write_pointer out j ref =
      if ltb buf_len (j + 2)
      then ok (negsuc 1, out)
      else ok (pos (j + 2), record out { buf = write_bytes out.buf j (bytes16 (or ref 0xc000)) })

  -- The `for` loop of `dnsname_to_labels`.
  unfoldable pub labels_loop : ℕ → Output → ℕ → List ℕ → Run (ℤ × Output)
  unfolding write_label write_pointer strchr_dot
  labels_loop zero out j name = diverges
  labels_loop (suc fuel) out j name = elim (find_label out.table name) [
    | some ref ↦ write_pointer out j ref
    | none ↦ write_label (λ next k more. labels_loop fuel next k more) out j name (strchr_dot name)
  ]

  -- Each round takes a dot off the name.
  unfoldable pub to_labels : Output → ℕ → List ℕ → Run (ℤ × Output)
  unfolding labels_loop
  to_labels out j name =
      if ltb 255 (length name) then ok (negsuc 1, out) else labels_loop (length name + 1) out j name
