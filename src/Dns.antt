-- ===== src/Dns.antt =====
-- evdns.c: names in packets. A packet is a function from places to bytes: `size` bytes may be read, of which
-- `len` have been received. A name is the list of its bytes before the NUL. The children have the other parts of
-- the resolver: what is written, requests, replies, nameservers and queues.
pub mod Labels
pub mod Encoded
pub mod Parsing
pub mod Reading
pub mod Writing
pub mod Compress
pub mod Named
pub mod Loop
pub mod RoundTrip
pub mod Request
pub mod Query
pub mod Served
pub mod Asked
pub mod Reply
pub mod Replied
pub mod Answers
pub mod Unterminated
pub mod Servers
pub mod Picking
pub mod Failing
pub mod Queues
pub mod Pumping
mod Tests
use libevent_1_4_3_stable_le.Base.{
  ℕ, zero, suc, ◌+◌, ◌*◌, ◌/◌, ◌%◌, List, [], ◌∷◌, ◌++◌, length, update, ltb, leb, ◌==◌, not, Bool,
  if◌then◌else◌, Option, none, some,
}
use libevent_1_4_3_stable_le.Base.Run.{Run, ok, fault, diverges, ◌>>=◌}

abbrev pub Memory : Type 0
Memory = ℕ → ℕ

-- `packet[j]`
abbrev pub byte_at : Memory → ℕ → ℕ → Run ℕ
byte_at mem size j = if ltb j size then ok (mem j) else fault

abbrev pub bytes_at : Memory → ℕ → ℕ → List ℕ
bytes_at mem j zero = []
bytes_at mem j (suc n) = mem j ∷ bytes_at mem (j + 1) n

-- `memcpy` from the packet
abbrev pub copy_from : Memory → ℕ → ℕ → ℕ → Run (List ℕ)
copy_from mem size j n = if leb (j + n) size then ok (bytes_at mem j n) else fault

abbrev pub or_else : Option ℕ → ℕ → ℕ
or_else none j = j
or_else (some e) j = e

-- Bytes that are written behind `out`, in a buffer of `out_len` bytes
abbrev pub store : ℕ → List ℕ → List ℕ → Run (List ℕ)
store out_len out chars =
    if leb (length out + length chars) out_len then ok (out ++ chars) else fault

-- `*cp++ = '.'` behind another label
abbrev pub with_dot : List ℕ → List ℕ
with_dot [] = []
with_dot (c ∷ out) = (c ∷ out) ++ (b'.' ∷ [])

module _ (mem : Memory) (size len out_len : ℕ) where
  -- The `for` loop of `name_parse`, from its test of `j` on: `out` is what stands between `name_out` and `cp`.
  -- `none` is -1; else `*idx` and the name. A write past the `out_len` bytes of `name_out` is a `fault`.
  unfoldable pub name_loop : ℕ → ℕ → Option ℕ → ℕ → List ℕ → Run (Option (ℕ × List ℕ))
  name_loop zero j name_end ptr_count out = diverges
  name_loop (suc fuel) j name_end ptr_count out =
      let failed : Run (Option (ℕ × List ℕ)) = ok none in
      let finished =
        if leb out_len (length out)
        then failed
        else if ltb (length out) out_len
        then ok (some (or_else name_end (j + 1), out))
        else fault in
      let jump : ℕ → Run (Option (ℕ × List ℕ)) = λ label. do
        ptr_low ← byte_at mem size (j + 1)
        let target = label % 64 * 256 + ptr_low
        let again = name_loop fuel target (some (or_else name_end (j + 2))) (ptr_count + 1) out
        if leb len target then failed else if ltb len (ptr_count + 1) then failed else again
      in let pointer = λ (label : ℕ). if leb len (j + 1) then failed else jump label in
        let copy : ℕ → Run (Option (ℕ × List ℕ)) = λ label. do
          chars ← copy_from mem size (j + 1) label
          out' ← store out_len (with_dot out) chars
          name_loop fuel (j + 1 + label) name_end ptr_count out'
        in let append = λ (label : ℕ).
          if leb out_len (length (with_dot out) + label) then failed else copy label in
          let dotted = λ (label : ℕ).
            if not (length out == 0)
            then (if leb out_len (length out + 1)
                then failed
                else if ltb (length out) out_len
                then append label
                else fault)
            else append label in
          let plain = λ (label : ℕ). if ltb 63 label then failed else dotted label in
          let read : Run (Option (ℕ × List ℕ)) = do
            label ← byte_at mem size j
            if label == 0
                then finished
                else if not (label / 64 % 4 == 0)
                then pointer label
                else plain label
          in if leb len j then failed else read

  -- Each round makes the name longer or counts a pointer.
  unfoldable pub name_parse : ℕ → Run (Option (ℕ × List ℕ))
  unfolding name_loop
  name_parse idx = name_loop (len + out_len + 2) idx none 0 []
