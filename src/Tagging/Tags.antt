-- ===== src/Tagging/Tags.antt =====
-- `evtag_encode_tag` and `decode_tag_internal`: a tag by groups of seven bits, lowest first, where the
-- high bit of a byte says that another follows. `x & 0x7f` is written `x % 128`. A shift of a 32-bit
-- integer by 32 places or more, which C leaves undefined, is a `fault`.
pub mod RoundTrip
use libevent_1_4_3_stable_le.Base.{
  ℕ, zero, suc, ◌+◌, ◌*◌, ◌/◌, ◌%◌, ◌^◌, ◌≡◌, refl, List, [], ◌∷◌, take, length, leb, ◌==◌, Bool,
  true, false, if◌then◌else◌, Option, none, some,
}
use libevent_1_4_3_stable_le.Base.Bits.{or}
use libevent_1_4_3_stable_le.Base.Run.{Run, ok, fault, ◌>>=◌}
use libevent_1_4_3_stable_le.Base.Words.{u32_mod, int_size}

-- The rounds of the `do` loop, with the places of `data` that are left. A write past them is a `fault`.
unfoldable pub encode_tag_loop : ℕ → ℕ → Run (List ℕ)
encode_tag_loop zero tag = fault
encode_tag_loop (suc left) tag =
    let lower = tag % 128 in
    let more = encode_tag_loop left (tag / 128) >>= λ bytes. ok (or lower (1 * 2 ^ 7) ∷ bytes) in
    if tag / 128 == 0 then ok (lower ∷ []) else more

-- The bytes that `evtag_encode_tag` adds to the buffer. It returns their number.
unfoldable pub encode_tag : ℕ → Run (List ℕ)
encode_tag tag = encode_tag_loop 5 tag

-- The `while` loop over the bytes: `number` and `count` at its end, or `none` if it ends without `done`.
unfoldable pub decode_tag_loop : List ℕ → ℕ → ℕ → ℕ → Run (Option (ℕ × ℕ))
decode_tag_loop [] number shift count = ok none
decode_tag_loop (lower ∷ rest) number shift count =
    let number' = or number (lower % 128 * 2 ^ shift % u32_mod) in
    let more = decode_tag_loop rest number' (shift + 7) (count + 1) in
    if leb 32 shift
    then fault
    else if lower / 128 % 2 == 0
    then ok (some (number', count + 1))
    else more

-- The tag and its length in bytes, or `none` for -1. The length of the buffer is put into an `int`.
unfoldable pub decode_tag : List ℕ → Run (Option (ℕ × ℕ))
decode_tag data' = decode_tag_loop (take (int_size (length data')) data') 0 0 0

encode_300 : encode_tag 300 ≡ ok (0xac ∷ 0x02 ∷ [])
unfolding encode_tag encode_tag_loop
encode_300 = refl

decode_300 : decode_tag (0xac ∷ 0x02 ∷ 9 ∷ []) ≡ ok (some (300, 2))
unfolding decode_tag decode_tag_loop
decode_300 = refl
