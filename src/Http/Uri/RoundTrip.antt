-- ===== src/Http/Uri/RoundTrip.antt =====
-- Decoding ends and stays inside the memory for its result, and takes back what encoding does.
use libevent_1_4_3_stable_le.Base.{
  ℕ, zero, suc, ◌+◌, ◌*◌, ◌/◌, ◌%◌, ◌^◌, ◌≤◌, ◌<◌, ◌≡◌, refl, sym, ap, ◌∙◌, List, [], ◌∷◌, map,
  drop, length, length-drop, arith, lt→ltb, ◌==◌, ne→==, ◌&&◌, Bool, true, false, Bool-cases,
  if◌then◌else◌, inl, inr,
}
use libevent_1_4_3_stable_le.Base.Run.{
  ok, Returns, returns, Returns-bind, Returns-if, Returns-inv, ◌>>=◌,
}
use libevent_1_4_3_stable_le.Http.Uri.{
  in_uri, hex_digit, encode_char, encode_uri, isxdigit, hex_value, has_pair, pair_value,
  decode_loop, decode_uri,
}

decode_loop-le :
    (fuel : ℕ) (in_query : Bool) (uri : List ℕ)
    → length uri < fuel
    → Returns (λ out. length out ≤ length uri) (decode_loop fuel in_query uri)
unfolding decode_loop
decode_loop-le zero q uri h = absurd (omega arith)
decode_loop-le (suc fuel) q [] h = returns [] (omega arith)
decode_loop-le (suc fuel) q (c ∷ rest) h =
    let next = λ (t : Bool). decode_loop-le fuel t rest (omega arith) in
    Returns-if (c == 63) (λ query. Returns-bind (next true) λ out le. returns _ (omega arith))
      (λ other.
        Returns-if (c == 43 && q) (λ space. Returns-bind (next q) λ out le. returns _ (omega arith))
          (λ more.
            Returns-if (c == 37 && has_pair rest)
              (λ pair.
                Returns-bind
                  (decode_loop-le fuel q (drop 2 rest) (omega (arith, length-drop 2 rest)))
                  λ out le. returns _ (omega (arith, length-drop 2 rest)))
              (λ plain. Returns-bind (next q) λ out le. returns _ (omega arith))))

-- Decoding a string of less than 2^31 bytes ends, and its result is no longer than the string.
pub decode_uri-le :
    (uri : List ℕ) → length uri < 2 ^ 31 → Returns (λ out. length out ≤ length uri) (decode_uri uri)
unfolding decode_uri
decode_uri-le uri small =
    rw (lt→ltb (length uri) (2 ^ 31) small)
      (decode_loop-le (suc (length uri)) false uri (omega arith))

-- What a character becomes: a plus sign in a query is a space.
abbrev pub decoded : Bool → ℕ → ℕ
decoded q c = if c == 43 && q then 32 else c

abbrev pub IsString : List ℕ → Type 0
IsString [] = Unit
IsString (c ∷ s) = (c < 256) × IsString s

xdigit-hex : (n : ℕ) → n < 16 → isxdigit (hex_digit n) ≡ true
unfolding isxdigit hex_digit
xdigit-hex n h = ground arith

value-hex : (n : ℕ) → n < 16 → hex_value (hex_digit n) ≡ n
unfolding hex_value hex_digit
value-hex n h = ground arith

kept_apart : (c d : ℕ) → in_uri c ≡ true → in_uri d ≡ false → ¬ (c ≡ d)
kept_apart c d kept escaped same = absurd (cc (ap in_uri same))

encode_kept : (c : ℕ) → in_uri c ≡ true → encode_char c ≡ c ∷ []
unfolding encode_char
encode_kept c kept = rw kept refl

encode_escaped :
    (c : ℕ) → in_uri c ≡ false → encode_char c ≡ 37 ∷ hex_digit (c / 16) ∷ hex_digit (c % 16) ∷ []
unfolding encode_char
encode_escaped c escaped = rw escaped refl

specials : (in_uri 63 ≡ false) × (in_uri 37 ≡ false) × (in_uri 43 ≡ true)
unfolding in_uri
specials = (refl, refl, refl)

decode_loop-encode :
    (fuel : ℕ) (q : Bool) (s : List ℕ)
    → length (encode_uri s) < fuel
    → IsString s
    → Returns (λ out. out ≡ map (decoded q) s) (decode_loop fuel q (encode_uri s))
unfolding decode_loop encode_uri has_pair pair_value
decode_loop-encode zero q s h all = absurd (omega arith)
decode_loop-encode (suc fuel) q [] h all = returns [] refl
decode_loop-encode (suc fuel) q (c ∷ s) h (byte, all) = elim (Bool-cases (in_uri c)) [
  | inl kept ↦
      let shorter : length (encode_uri s) < fuel = omega (arith, rw (encode_kept c kept) at h) in
      let next = decode_loop-encode fuel q s shorter all in
      let query = ne→== c 63 (kept_apart c 63 kept specials.0) in
      let percent = ne→== c 37 (kept_apart c 37 kept specials.1) in
      rw (encode_kept c kept, query, percent)
        (elim (Bool-cases (c == 43 && q)) [
          | inl plus ↦
              rw plus (Returns-bind next λ out e. returns _ (ap (λ (l : List ℕ). 32 ∷ l) e))
          | inr other ↦
              rw other (Returns-bind next λ out e. returns _ (ap (λ (l : List ℕ). c ∷ l) e))
        ])
  | inr escaped ↦
      let shorter : length (encode_uri s) < fuel =
        omega (arith, rw (encode_escaped c escaped) at h) in
      let next = decode_loop-encode fuel q s shorter all in
      let plus = ne→== c 43 (λ same. kept_apart 43 c specials.2 escaped (sym same)) in
      let value : c / 16 * 16 + c % 16 ≡ c = omega arith in
      rw
        (
          encode_escaped c escaped,
          xdigit-hex (c / 16) (omega arith),
          xdigit-hex (c % 16) (omega arith),
          value-hex (c / 16) (omega arith),
          value-hex (c % 16) (omega arith),
          value,
          plus,
        )
        (Returns-bind next λ out e. returns _ (ap (λ (l : List ℕ). c ∷ l) e))
]

map_id : (s : List ℕ) → map (decoded false) s ≡ s
map_id [] = refl
map_id (c ∷ s) = elim (Bool-cases (c == 43)) [
  | inl plus ↦ rw (plus, map_id s) refl
  | inr other ↦ rw (other, map_id s) refl
]

-- A character takes three bytes at most.
length-encode_uri : (s : List ℕ) → length (encode_uri s) ≤ 3 * length s
unfolding encode_uri
length-encode_uri [] = omega arith
length-encode_uri (c ∷ s) =
    let later = length-encode_uri s in
    elim (Bool-cases (in_uri c)) [
      | inl kept ↦ rw (encode_kept c kept) (omega arith)
      | inr escaped ↦ rw (encode_escaped c escaped) (omega arith)
    ]

-- Decoding the encoding of any string of less than 2^29 bytes gives the string.
pub decode_uri-encode_uri :
    (s : List ℕ) → IsString s → length s < 2 ^ 29 → decode_uri (encode_uri s) ≡ ok s
unfolding decode_uri
decode_uri-encode_uri s all small =
    let short = lt→ltb (length (encode_uri s)) (2 ^ 31) (omega (arith, length-encode_uri s)) in
    let (out, e, same) =
      Returns-inv (decode_loop-encode (suc (length (encode_uri s))) false s (omega arith) all) in
    rw short (e ∙ ap (λ (l : List ℕ). ok l) (same ∙ map_id s))

decode_query :
    (fuel : ℕ) (uri : List ℕ)
    → decode_loop (suc fuel) false (63 ∷ uri) ≡ (decode_loop fuel true uri >>= λ out. ok (63 ∷ out))
unfolding decode_loop
decode_query fuel uri = refl

-- Behind a question mark, decoding the encoding of any string of less than 2^29 bytes gives the string with a space for each
-- plus sign.
pub decode_query-encode_uri :
    (s : List ℕ)
    → IsString s
    → length s < 2 ^ 29
    → decode_uri (63 ∷ encode_uri s) ≡ ok (63 ∷ map (decoded true) s)
unfolding decode_uri
decode_query-encode_uri s all small =
    let short =
      lt→ltb (suc (length (encode_uri s))) (2 ^ 31) (omega (arith, length-encode_uri s)) in
    let (out, e, same) =
      Returns-inv (decode_loop-encode (suc (length (encode_uri s))) true s (omega arith) all) in
    rw short (decode_query (suc (length (encode_uri s))) (encode_uri s) ∙ rw (e, same) refl)
