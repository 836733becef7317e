-- ===== src/Dns/Reading.antt =====
-- `name_parse` reads back a name that stands in the packet.
use libevent_1_4_3_stable_le.Base.{
  ℕ, zero, suc, ◌+◌, ◌*◌, ◌/◌, ◌%◌, ◌≤◌, ◌<◌, ◌≡◌, ◌≢◌, refl, ◌∙◌, List, [], ◌∷◌, ◌++◌, length,
  length-append, arith, ◌==◌, leb, ltb, not, Bool, true, false, if◌then◌else◌, Option, none, some,
  lt→ltb, lt→leb, le→leb, le→ltb, ne→==,
}
use libevent_1_4_3_stable_le.Base.Run.{fault, ok}
use libevent_1_4_3_stable_le.Dns.{Memory, or_else, with_dot, name_loop, name_parse}
use libevent_1_4_3_stable_le.Dns.Encoded.{Encodes, done, label, pointer, Encodes-lt, joined}
use libevent_1_4_3_stable_le.Dns.Parsing.{length-with_dot}

length-joined : (out : List ℕ) (ls : List (List ℕ)) → length out ≤ length (joined out ls)
length-joined out [] = omega arith
length-joined out (l ∷ ls) =
    let later = length-joined (with_dot out ++ l) ls in
    let split = length-append (with_dot out) l in let more = length-with_dot out in omega arith

room_for_dot :
    (out l : List ℕ) {out_len : ℕ}
    → length (with_dot out) + length l < out_len
    → length out ≢ 0
    → leb out_len (length out + 1) ≡ false
room_for_dot [] l grown some' = absurd (some' refl)
room_for_dot (c ∷ out) l grown some' =
    let split = length-append (c ∷ out) (b'.' ∷ []) in lt→leb _ _ (omega arith)

dot_written :
    {A : Type 0} (stop outside run : A) (out : List ℕ) (full in_place : Bool)
    → (length out ≢ 0 → full ≡ false)
    → (length out ≢ 0 → in_place ≡ true)
    → (if not (length out == 0)
        then (if full then stop else if in_place then run else outside)
        else run)
      ≡ run
dot_written stop outside run [] full in_place room place = refl
dot_written stop outside run (c ∷ out) full in_place room place =
    rw
      (
        room (λ no. absurd (omega arith)),
        place (λ no. absurd (omega arith)),
        ne→== (length (c ∷ out)) 0 (λ no. absurd (omega arith)),
      )
      refl

module _ (mem : Memory) (size len out_len limit : ℕ) (received : limit ≤ len)
    (readable : len ≤ size) where
  name_loop-Encodes :
      (fuel : ℕ) {p n e : ℕ} {ls : List (List ℕ)} (name_end : Option ℕ) (ptr_count : ℕ)
      (out : List ℕ)
      → Encodes mem limit p ls n e
      → length ls + n < fuel
      → ptr_count + n ≤ len
      → length (joined out ls) < out_len
      → name_loop mem size len out_len fuel p name_end ptr_count out
        ≡ ok (some (or_else name_end e, joined out ls))
  unfolding name_loop
  name_loop-Encodes zero name_end ptr_count out enc enough few fits = absurd (omega arith)
  name_loop-Encodes (suc fuel) name_end ptr_count out (done {p} zero' lt end) enough few fits =
      rw
        (
          lt→leb len p (omega arith),
          lt→ltb p size (omega arith),
          zero',
          lt→leb out_len (length out) fits,
          lt→ltb (length out) out_len fits,
          end,
        )
        refl
  name_loop-Encodes (suc fuel) name_end ptr_count out
        (label {p} l {ls} len' some' short bytes lt rest) enough few fits =
      let grown : length (with_dot out) + length l < out_len =
        (let later = length-joined (with_dot out ++ l) ls in
          let split = length-append (with_dot out) l in omega arith) in
      let no_tag : length l / 64 % 4 ≡ 0 = omega arith in
      rw
        (
          lt→leb len p (omega arith),
          lt→ltb p size (omega arith),
          len',
          ne→== (length l) 0 (omega arith),
          no_tag,
          le→ltb 63 (length l) short,
          lt→leb out_len (length (with_dot out) + length l) grown,
          le→leb (p + 1 + length l) size (omega arith),
          bytes,
          le→leb (length (with_dot out) + length l) out_len (omega arith),
        )
        (dot_written _ _ _ out (leb out_len (length out + 1)) (ltb (length out) out_len)
            (room_for_dot out l grown)
            (λ some'. lt→ltb (length out) out_len (let more = length-with_dot out in omega arith))
          ∙ name_loop-Encodes fuel name_end ptr_count (with_dot out ++ l) rest (omega arith) few
              fits)
  name_loop-Encodes (suc fuel) name_end ptr_count out
        (pointer {p} high low at' few' at2 few2 lt rest end) enough few fits =
      let tag : (192 + high) / 64 % 4 ≡ 3 = omega arith in
      let rest_of : (192 + high) % 64 ≡ high = omega arith in
      let inside = Encodes-lt rest in
      rw
        (
          lt→leb len p (omega arith),
          lt→ltb p size (omega arith),
          at',
          ne→== (192 + high) 0 (omega arith),
          tag,
          rest_of,
          lt→leb len (p + 1) (omega arith),
          lt→ltb (p + 1) size (omega arith),
          at2,
          lt→leb len (high * 256 + low) (omega arith),
          le→ltb len (ptr_count + 1) (omega arith),
          end,
        )
        (name_loop-Encodes fuel (some (or_else name_end (p + 2))) (ptr_count + 1) out rest
          (omega arith) (omega arith) fits)

-- A label is a byte of the name at least.
length-joined_labels :
    {mem : Memory} {limit p n e : ℕ} {ls : List (List ℕ)} (out : List ℕ)
    → Encodes mem limit p ls n e
    → length out + length ls ≤ length (joined out ls)
length-joined_labels out (done zero' lt end) = omega arith
length-joined_labels out (label l len some' few bytes lt rest) =
    let later = length-joined_labels (with_dot out ++ l) rest in
    let split = length-append (with_dot out) l in let more = length-with_dot out in omega arith
length-joined_labels out (pointer high low at' few at2 few2 lt rest end) =
    length-joined_labels out rest

-- Where a name stands in the received packet, with no more pointers than the packet has bytes, `name_parse` reads
-- its labels with dots between them, if that fits the buffer, and leaves the index behind it.
pub name_parse-Encodes :
    {mem : Memory} {size len out_len p n e : ℕ} {ls : List (List ℕ)}
    → Encodes mem len p ls n e
    → n ≤ len
    → len ≤ size
    → length (joined [] ls) < out_len
    → name_parse mem size len out_len p ≡ ok (some (e, joined [] ls))
unfolding name_parse
name_parse-Encodes {mem} {size} {len} {out_len} {ls = ls} enc few readable fits =
    let labels = length-joined_labels [] enc in
    name_loop-Encodes mem size len out_len len (omega arith) readable (len + out_len + 2) none 0 []
      enc (omega arith) (omega arith) fits

loop_over_read :
    (mem : Memory) (size len out_len fuel idx : ℕ)
    → 0 < fuel
    → idx < len
    → len ≤ size
    → 0 < mem idx
    → mem idx ≤ 63
    → mem idx < out_len
    → size < idx + 1 + mem idx
    → name_loop mem size len out_len fuel idx none 0 [] ≡ fault
unfolding name_loop
loop_over_read mem size len out_len zero idx fuelled inside readable some' short fits past =
    absurd (omega arith)
loop_over_read mem size len out_len (suc fuel) idx fuelled inside readable some' short fits past =
    let no_tag : mem idx / 64 % 4 ≡ 0 = omega arith in
    rw
      (
        lt→leb len idx inside,
        lt→ltb idx size (omega arith),
        ne→== (mem idx) 0 (omega arith),
        no_tag,
        le→ltb 63 (mem idx) short,
        lt→leb out_len (0 + mem idx) (omega arith),
        lt→leb (idx + 1 + mem idx) size past,
      )
      refl

-- A first label that fits the name's buffer but ends behind the readable memory is copied all the same.
pub name_parse_over_read :
    (mem : Memory) (size len out_len idx : ℕ)
    → idx < len
    → len ≤ size
    → 0 < mem idx
    → mem idx ≤ 63
    → mem idx < out_len
    → size < idx + 1 + mem idx
    → name_parse mem size len out_len idx ≡ fault
unfolding name_parse
name_parse_over_read mem size len out_len idx inside readable some' short fits past =
    loop_over_read mem size len out_len (len + out_len + 2) idx (omega arith) inside readable some'
      short fits past
