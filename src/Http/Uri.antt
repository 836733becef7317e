-- ===== src/Http/Uri.antt =====
-- `evhttp_encode_uri` and `evhttp_decode_uri`. A string is its bytes before the NUL, and a character is
-- its byte. The buffer that `evhttp_encode_uri` fills is the list of the bytes that it adds, and memory is
-- granted: a failed `malloc` exits.
pub mod RoundTrip
use libevent_1_4_3_stable_le.Base.{
  ℕ, zero, suc, ◌+◌, ◌-◌, ◌*◌, ◌/◌, ◌%◌, ◌^◌, ◌≡◌, refl, List, [], ◌∷◌, ◌++◌, drop, length, get_or,
  ltb, leb, ◌==◌, not, ◌&&◌, ◌||◌, Bool, true, false, if◌then◌else◌,
}
use libevent_1_4_3_stable_le.Base.Run.{Run, ok, fault, diverges, ◌>>=◌}

abbrev pub uri_chars : List ℕ
uri_chars =
    0 ∷ 0 ∷ 0 ∷ 0 ∷ 0 ∷ 0 ∷ 0 ∷ 0 ∷ 0 ∷ 0 ∷ 0 ∷ 0 ∷ 0 ∷ 0 ∷ 0 ∷ 0 ∷ 0 ∷ 0 ∷ 0 ∷ 0 ∷ 0 ∷ 0 ∷ 0 ∷ 0
    ∷ 0 ∷ 0 ∷ 0 ∷ 0 ∷ 0 ∷ 0 ∷ 0 ∷ 0 ∷ 0 ∷ 1 ∷ 0 ∷ 0 ∷ 1 ∷ 0 ∷ 0 ∷ 1 ∷ 1 ∷ 1 ∷ 1 ∷ 1 ∷ 1 ∷ 1 ∷ 1 ∷ 1
    ∷ 1 ∷ 1 ∷ 1 ∷ 1 ∷ 1 ∷ 1 ∷ 1 ∷ 1 ∷ 1 ∷ 1 ∷ 1 ∷ 0 ∷ 0 ∷ 1 ∷ 0 ∷ 0 ∷ 1 ∷ 1 ∷ 1 ∷ 1 ∷ 1 ∷ 1 ∷ 1 ∷ 1
    ∷ 1 ∷ 1 ∷ 1 ∷ 1 ∷ 1 ∷ 1 ∷ 1 ∷ 1 ∷ 1 ∷ 1 ∷ 1 ∷ 1 ∷ 1 ∷ 1 ∷ 1 ∷ 1 ∷ 1 ∷ 1 ∷ 1 ∷ 0 ∷ 0 ∷ 0 ∷ 0 ∷ 1
    ∷ 0 ∷ 1 ∷ 1 ∷ 1 ∷ 1 ∷ 1 ∷ 1 ∷ 1 ∷ 1 ∷ 1 ∷ 1 ∷ 1 ∷ 1 ∷ 1 ∷ 1 ∷ 1 ∷ 1 ∷ 1 ∷ 1 ∷ 1 ∷ 1 ∷ 1 ∷ 1 ∷ 1
    ∷ 1 ∷ 1 ∷ 1 ∷ 0 ∷ 0 ∷ 0 ∷ 1 ∷ 0 ∷ 0 ∷ 0 ∷ 0 ∷ 0 ∷ 0 ∷ 0 ∷ 0 ∷ 0 ∷ 0 ∷ 0 ∷ 0 ∷ 0 ∷ 0 ∷ 0 ∷ 0 ∷ 0
    ∷ 0 ∷ 0 ∷ 0 ∷ 0 ∷ 0 ∷ 0 ∷ 0 ∷ 0 ∷ 0 ∷ 0 ∷ 0 ∷ 0 ∷ 0 ∷ 0 ∷ 0 ∷ 0 ∷ 0 ∷ 0 ∷ 0 ∷ 0 ∷ 0 ∷ 0 ∷ 0 ∷ 0
    ∷ 0 ∷ 0 ∷ 0 ∷ 0 ∷ 0 ∷ 0 ∷ 0 ∷ 0 ∷ 0 ∷ 0 ∷ 0 ∷ 0 ∷ 0 ∷ 0 ∷ 0 ∷ 0 ∷ 0 ∷ 0 ∷ 0 ∷ 0 ∷ 0 ∷ 0 ∷ 0 ∷ 0
    ∷ 0 ∷ 0 ∷ 0 ∷ 0 ∷ 0 ∷ 0 ∷ 0 ∷ 0 ∷ 0 ∷ 0 ∷ 0 ∷ 0 ∷ 0 ∷ 0 ∷ 0 ∷ 0 ∷ 0 ∷ 0 ∷ 0 ∷ 0 ∷ 0 ∷ 0 ∷ 0 ∷ 0
    ∷ 0 ∷ 0 ∷ 0 ∷ 0 ∷ 0 ∷ 0 ∷ 0 ∷ 0 ∷ 0 ∷ 0 ∷ 0 ∷ 0 ∷ 0 ∷ 0 ∷ 0 ∷ 0 ∷ 0 ∷ 0 ∷ 0 ∷ 0 ∷ 0 ∷ 0 ∷ 0 ∷ 0
    ∷ 0 ∷ 0 ∷ 0 ∷ 0 ∷ 0 ∷ 0 ∷ 0 ∷ 0 ∷ 0 ∷ 0 ∷ 0 ∷ 0 ∷ 0 ∷ 0 ∷ 0 ∷ 0 ∷ []

-- Whether the character stands for itself in a URI.
unfoldable pub in_uri : ℕ → Bool
in_uri c = not (get_or uri_chars c 0 == 0)

-- A digit of `%02X`.
unfoldable pub hex_digit : ℕ → ℕ
hex_digit n = if ltb n 10 then 48 + n else 55 + n

unfoldable pub encode_char : ℕ → List ℕ
unfolding in_uri hex_digit
encode_char c = if in_uri c then c ∷ [] else 37 ∷ hex_digit (c / 16) ∷ hex_digit (c % 16) ∷ []

unfoldable pub encode_uri : List ℕ → List ℕ
encode_uri [] = []
encode_uri (c ∷ uri) = encode_char c ++ encode_uri uri

unfoldable pub isxdigit : ℕ → Bool
isxdigit c = (leb 48 c && leb c 57) || (leb 65 c && leb c 70) || (leb 97 c && leb c 102)

-- What a hexadecimal digit counts in `strtol`.
unfoldable pub hex_value : ℕ → ℕ
hex_value c = if leb c 57 then c - 48 else if leb c 70 then c - 55 else c - 87

-- Whether the next two characters are hexadecimal digits, and the number that they write.
unfoldable pub has_pair : List ℕ → Bool
unfolding isxdigit
has_pair (a ∷ b ∷ rest) = isxdigit a && isxdigit b
has_pair rest = false

unfoldable pub pair_value : List ℕ → ℕ
unfolding hex_value
pair_value (a ∷ b ∷ rest) = hex_value a * 16 + hex_value b
pair_value rest = 0

-- The loop, on what is left of the string. Each round takes a character at least.
unfoldable pub decode_loop : ℕ → Bool → List ℕ → Run (List ℕ)
decode_loop zero in_query uri = diverges
decode_loop (suc fuel) in_query [] = ok []
decode_loop (suc fuel) in_query (c ∷ rest) =
    let query = decode_loop fuel true rest >>= λ out. ok (c ∷ out) in
    let space = decode_loop fuel in_query rest >>= λ out. ok (32 ∷ out) in
    let pair = decode_loop fuel in_query (drop 2 rest) >>= λ out. ok (pair_value rest ∷ out) in
    let plain = decode_loop fuel in_query rest >>= λ out. ok (c ∷ out) in
    if c == 63
    then query
    else if c == 43 && in_query
    then space
    else if c == 37 && has_pair rest
    then pair
    else plain

-- The index is an `int` that comes to the length of the string.
unfoldable pub decode_uri : List ℕ → Run (List ℕ)
decode_uri uri =
    if ltb (length uri) (2 ^ 31) then decode_loop (suc (length uri)) false uri else fault

-- "a b?" and back
encode_result : encode_uri (97 ∷ 32 ∷ 98 ∷ 63 ∷ []) ≡ 97 ∷ 37 ∷ 50 ∷ 48 ∷ 98 ∷ 37 ∷ 51 ∷ 70 ∷ []
unfolding encode_uri encode_char
encode_result = refl

decode_result :
    decode_uri (63 ∷ 97 ∷ 43 ∷ 37 ∷ 50 ∷ 48 ∷ 37 ∷ []) ≡ ok (63 ∷ 97 ∷ 32 ∷ 32 ∷ 37 ∷ [])
unfolding decode_uri decode_loop has_pair pair_value
decode_result = refl
