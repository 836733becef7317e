-- ===== src/Tagging/Tags/RoundTrip.antt =====
-- `decode_tag_internal` reads back what `evtag_encode_tag` writes, and leaves what C defines when too many
-- bytes say that another follows.
use libevent_1_4_3_stable_le.Base.{
  ℕ, zero, suc, ◌+◌, ◌*◌, ◌/◌, ◌%◌, ◌^◌, ◌≤◌, ◌<◌, ◌≡◌, refl, ap, ◌∙◌, List, [], ◌∷◌, ◌++◌, take,
  length, arith, eq→==, ne→==, lt→leb, some, ℕ_discrete,
}
use libevent_1_4_3_stable_le.Base.Bits.{or, or-eq-add}
use libevent_1_4_3_stable_le.Base.Run.{ok, fault, Returns, returns, Returns-bind, Returns-map}
use libevent_1_4_3_stable_le.Base.Words.{int_size, u32_mod}
use libevent_1_4_3_stable_le.Tagging.Tags.{encode_tag_loop, encode_tag, decode_tag_loop, decode_tag}

-- From the place `shift` on, the bytes decode to `tag`, whatever follows.
abbrev Continues : ℕ → ℕ → List ℕ → Type 0
Continues shift tag bytes =
    (rest : List ℕ) (number count : ℕ)
    → number < 2 ^ shift
    → decode_tag_loop (bytes ++ rest) number shift count
      ≡ ok (some (number + tag * 2 ^ shift, count + length bytes))

-- A sum of a multiple of a power and of what is below the power.
mul-below : (p x y : ℕ) → x ≤ y → x * p ≤ y * p
mul-below zero x y h = omega arith
mul-below (suc p) x y h = omega (arith, mul-below p x y h)

power_7 : (shift : ℕ) → 2 ^ (shift + 7) ≡ 128 * 2 ^ shift
power_7 zero = refl
power_7 (suc shift) =
    let left : 2 ^ suc (shift + 7) ≡ 2 ^ (shift + 7) * 2 = omega arith in
    let right : 2 ^ suc shift ≡ 2 ^ shift * 2 = omega arith in
    ap (λ (k : ℕ). 2 ^ k) (omega arith) ∙ left ∙ omega (arith, power_7 shift)

last-Continues :
    (shift tag : ℕ)
    → shift ≤ 28
    → tag < 128
    → tag * 2 ^ shift < 2 ^ 32
    → Continues shift tag (tag % 128 ∷ [])
unfolding decode_tag_loop
last-Continues shift tag near below fits rest number count small =
    let plain : tag % 128 % 128 ≡ tag = omega arith in
    let whole : tag * 2 ^ shift % u32_mod ≡ tag * 2 ^ shift = omega arith in
    rw
      (
        lt→leb 32 shift (omega arith),
        eq→== (tag % 128 / 128 % 2) 0 (omega arith),
        plain,
        whole,
        or-eq-add shift number tag small,
      )
      refl

more-Continues :
    (shift tag : ℕ) (bytes : List ℕ)
    → shift ≤ 28
    → tag * 2 ^ shift < 2 ^ 32
    → Continues (shift + 7) (tag / 128) bytes
    → Continues shift tag (or (tag % 128) (1 * 2 ^ 7) ∷ bytes)
unfolding decode_tag_loop
more-Continues shift tag bytes near fits later rest number count small =
    let low = tag % 128 in
    let p = 2 ^ shift in
    let parts : (low + tag / 128 * 128) * p ≡ tag * p = ap (λ (t : ℕ). t * p) (omega arith) in
    let marked : or low (1 * 2 ^ 7) ≡ low + 128 = omega (arith, or-eq-add 7 low 1 (omega arith)) in
    let plain : (low + 128) % 128 ≡ low = omega arith in
    let whole : low * p % u32_mod ≡ low * p = omega (arith, mul-below p low tag (omega arith)) in
    let room : number + low * p < 2 ^ (shift + 7) =
      omega (arith, small, power_7 shift, mul-below p low 127 (omega arith)) in
    let sum : number + low * p + tag / 128 * 2 ^ (shift + 7) ≡ number + tag * p =
      omega (arith, parts, ap (λ (t : ℕ). tag / 128 * t) (power_7 shift)) in
    rw
      (
        marked,
        lt→leb 32 shift (omega arith),
        ne→== ((low + 128) / 128 % 2) 0 (omega arith),
        plain,
        whole,
        or-eq-add shift number low small,
      )
      (later rest (number + low * p) (count + 1) room
        ∙ rw (sum) (ap (λ (c : ℕ). ok (some (number + tag * p, c))) (omega arith)))

encode_tag_loop-Continues :
    (left shift tag : ℕ)
    → shift + 7 * left ≡ 35
    → 1 ≤ left
    → tag * 2 ^ shift < 2 ^ 32
    → Returns
        (λ bytes. (length bytes ≤ left) × (1 ≤ length bytes) × Continues shift tag bytes)
        (encode_tag_loop left tag)
unfolding encode_tag_loop
encode_tag_loop-Continues zero shift tag place some' fits = absurd (omega arith)
encode_tag_loop-Continues (suc left) shift tag place some' fits = elim (ℕ_discrete (tag / 128) 0) [
  | yes last ↦ rw (eq→== (tag / 128) 0 last) (
      returns _
        (omega arith, omega arith, last-Continues shift tag (omega arith) (omega arith) fits))
  | no more ↦
      let p = 2 ^ shift in
      let parts : (tag % 128 + tag / 128 * 128) * p ≡ tag * p =
        ap (λ (t : ℕ). t * p) (omega arith) in
      let next : tag / 128 * 2 ^ (shift + 7) < 2 ^ 32 =
        omega (arith, parts, ap (λ (t : ℕ). tag / 128 * t) (power_7 shift)) in
      rw (ne→== (tag / 128) 0 more) (
        Returns-bind
          (encode_tag_loop-Continues left (shift + 7) (tag / 128) (omega arith)
            (not_last left place more) next)
          λ bytes (few, some'', later).
            returns _
              (omega arith, omega arith, more-Continues shift tag bytes (omega arith) fits later))
]
  where
    not_last : (left : ℕ) → shift + 7 * suc left ≡ 35 → ¬ (tag / 128 ≡ 0) → 1 ≤ left
    not_last zero place more =
        let near : shift ≡ 28 = omega arith in absurd (more (omega (arith, rw near at fits)))
    not_last (suc left) place more = omega arith

whole : (bytes : List ℕ) → take (length bytes) bytes ≡ bytes
whole [] = refl
whole (c ∷ bytes) = ap (λ (l : List ℕ). c ∷ l) (whole bytes)

-- An `int` holds the length of a buffer of less than 2^31 bytes.
counted : (bytes : List ℕ) → length bytes < 2 ^ 31 → take (int_size (length bytes)) bytes ≡ bytes
counted bytes small =
    let same : int_size (length bytes) ≡ length bytes = ground arith in rw same (whole bytes)

-- The decoder reads back the tag and its length, whatever follows in a buffer of less than 2^31 bytes.
abbrev pub DecodesTag : ℕ → List ℕ → Type 0
DecodesTag tag bytes =
    (rest : List ℕ)
    → length (bytes ++ rest) < 2 ^ 31
    → decode_tag (bytes ++ rest) ≡ ok (some (tag, length bytes))

-- What `evtag_encode_tag` adds: one to five bytes.
abbrev pub TagBytes : ℕ → List ℕ → Type 0
TagBytes tag bytes = (length bytes ≤ 5) × (1 ≤ length bytes) × DecodesTag tag bytes

-- Encoding a tag of 32 bits stays inside the array of five bytes, and makes one to five bytes that decode
-- to the tag and their number, whatever bytes follow in a buffer of less than 2^31 bytes.
pub encode_tag-TagBytes : (tag : ℕ) → tag < 2 ^ 32 → Returns (TagBytes tag) (encode_tag tag)
unfolding encode_tag decode_tag
encode_tag-TagBytes tag small =
    Returns-map (encode_tag_loop-Continues 5 0 tag refl (omega arith) (omega arith))
      λ bytes (few, some', c).
        let none_yet : 0 + tag * 2 ^ 0 ≡ tag = omega arith in
        let count : 0 + length bytes ≡ length bytes = omega arith in
        (
          few,
          some',
          λ rest short.
              rw (counted (bytes ++ rest) short)
                (rw (none_yet, count) at (c rest 0 0 (omega arith))),
        )

-- When the first five bytes say that another follows and there is one, in a buffer of less than 2^31 bytes, decoding a tag shifts a 32-bit
-- integer by 35 places, which C leaves undefined.
pub decode_tag-overlong :
    (a b c d e f : ℕ) (rest : List ℕ)
    → a / 128 % 2 ≡ 1
    → b / 128 % 2 ≡ 1
    → c / 128 % 2 ≡ 1
    → d / 128 % 2 ≡ 1
    → e / 128 % 2 ≡ 1
    → length rest + 6 < 2 ^ 31
    → decode_tag (a ∷ b ∷ c ∷ d ∷ e ∷ f ∷ rest) ≡ fault
unfolding decode_tag decode_tag_loop
decode_tag-overlong a b c d e f rest ha hb hc hd he small =
    rw (counted (a ∷ b ∷ c ∷ d ∷ e ∷ f ∷ rest) (omega arith), ha, hb, hc, hd, he) refl
