-- ===== src/Http/Query.antt =====
-- `evhttp_parse_query`: the arguments behind the question mark of a URI, as headers.
use libevent_1_4_3_stable_le.Base.{
  ℕ, zero, suc, ◌^◌, ◌≤◌, ◌<◌, ◌≡◌, refl, List, [], ◌∷◌, length, arith, ◌==◌, true, if◌then◌else◌,
  Bool-cases, inl, inr, Option, none, some,
}
use libevent_1_4_3_stable_le.Base.Run.{Run, ok, diverges, Returns, returns, Returns-bind, ◌>>=◌}
use libevent_1_4_3_stable_le.Http.Uri.{decode_uri}
use libevent_1_4_3_stable_le.Http.Uri.RoundTrip.{decode_uri-le}
use libevent_1_4_3_stable_le.Http.Headers.{Evkeyval, add_header, AllLegal, add_header-AllLegal}

-- `strsep` on a string: what stands in front of the separator, and what behind it, if there is one.
put_front : ℕ → List ℕ × Option (List ℕ) → List ℕ × Option (List ℕ)
put_front c (token, rest) = (c ∷ token, rest)

unfoldable pub strsep : ℕ → List ℕ → List ℕ × Option (List ℕ)
unfolding put_front
strsep sep [] = ([], none)
strsep sep (c ∷ s) =
    let later = strsep sep s in if c == sep then ([], some s) else put_front c later

-- The bytes before the first NUL, which a decoded value may hold.
unfoldable pub c_string : List ℕ → List ℕ
c_string [] = []
c_string (c ∷ s) = let rest = c_string s in if c == 0 then [] else c ∷ rest

-- The loop over the arguments. One without an equals sign ends it. Each round takes a character at least.
unfoldable pub query_loop : ℕ → Option (List ℕ) → List Evkeyval → Run (List Evkeyval)
unfolding strsep c_string
query_loop zero p headers = diverges
query_loop (suc fuel) none headers = ok headers
query_loop (suc fuel) (some []) headers = ok headers
query_loop (suc fuel) (some (c ∷ s)) headers =
    let argument = strsep 38 (c ∷ s) in
    let pair = strsep 61 argument.0 in
    elim pair.1 [
      | none ↦ ok headers
      | some value ↦ decode_uri value >>= λ decoded.
          query_loop fuel argument.1 (add_header true headers pair.0 (c_string decoded)).1
    ]

unfoldable pub parse_query : List ℕ → Run (List Evkeyval)
unfolding strsep query_loop
parse_query uri = elim (strsep 63 uri).1 [
  | none ↦ ok []
  | some p ↦ query_loop (suc (length p)) (some p) []
]

-- What is left is shorter.
abbrev Left : ℕ → Option (List ℕ) → Type 0
Left fuel none = 0 < fuel
Left fuel (some s) = length s < fuel

put_front_rest : (c : ℕ) (r : List ℕ × Option (List ℕ)) → (put_front c r).1 ≡ r.1
unfolding put_front
put_front_rest c (token, rest) = refl

strsep-Left :
    (sep : ℕ) (s : List ℕ) (fuel : ℕ) → length s < suc fuel → 0 < fuel → Left fuel (strsep sep s).1
unfolding strsep
strsep-Left sep [] fuel h some' = some'
strsep-Left sep (c ∷ s) fuel h some' = elim (Bool-cases (c == sep)) [
  | inl here ↦ rw here (omega arith)
  | inr later ↦
      rw (later, put_front_rest c (strsep sep s)) (strsep-Left sep s fuel (omega arith) some')
]

length-strsep : (sep : ℕ) (s : List ℕ) → length (strsep sep s).0 ≤ length s
unfolding strsep put_front
length-strsep sep [] = omega arith
length-strsep sep (c ∷ s) =
    let later = length-strsep sep s in
    elim (Bool-cases (c == sep)) [
      | inl here ↦ rw here (omega arith)
      | inr more ↦ rw more (omega arith)
    ]

query_loop-AllLegal :
    (fuel : ℕ) (p : Option (List ℕ)) (headers : List Evkeyval)
    → Left fuel p
    → fuel ≤ 2 ^ 31
    → AllLegal headers
    → Returns AllLegal (query_loop fuel p headers)
unfolding query_loop
query_loop-AllLegal zero none headers left small all = absurd (omega arith)
query_loop-AllLegal zero (some s) headers left small all = absurd (omega arith)
query_loop-AllLegal (suc fuel) none headers left small all = returns headers all
query_loop-AllLegal (suc fuel) (some []) headers left small all = returns headers all
query_loop-AllLegal (suc fuel) (some (c ∷ s)) headers left small all =
    rest (strsep 61 (strsep 38 (c ∷ s)).0).1
      (strsep-Left 61 (strsep 38 (c ∷ s)).0 (2 ^ 31) (omega (arith, length-strsep 38 (c ∷ s)))
        (omega arith))
      λ more legal.
        query_loop-AllLegal fuel (strsep 38 (c ∷ s)).1 more
          (strsep-Left 38 (c ∷ s) fuel (omega arith) (omega arith)) (omega arith) legal
  where
    rest :
        (value : Option (List ℕ))
        → Left (2 ^ 31) value
        → ((more : List Evkeyval)
            → AllLegal more
            → Returns AllLegal (query_loop fuel (strsep 38 (c ∷ s)).1 more))
        → Returns AllLegal (elim value [
          | none ↦ ok headers
          | some v ↦ decode_uri v >>= λ decoded.
              query_loop fuel
                (strsep 38 (c ∷ s)).1
                (add_header true headers (strsep 61 (strsep 38 (c ∷ s)).0).0 (c_string decoded)).1
        ])
    rest none left' next = returns headers all
    rest (some v) left' next =
        Returns-bind (decode_uri-le v (omega arith))
          λ decoded le. next _ (add_header-AllLegal true headers _ (c_string decoded) all)

-- Parsing the arguments of any URI of less than 2^31 bytes ends, and no key and no value that it stores holds a line break.
pub parse_query-AllLegal : (uri : List ℕ) → length uri < 2 ^ 31 → Returns AllLegal (parse_query uri)
unfolding parse_query
parse_query-AllLegal uri small =
    start (strsep 63 uri).1 (strsep-Left 63 uri (2 ^ 31) (omega arith) (omega arith))
  where
    start :
        (p : Option (List ℕ))
        → Left (2 ^ 31) p
        → Returns AllLegal
            (elim p [ none ↦ ok [] | some q ↦ query_loop (suc (length q)) (some q) [] ])
    start none left = returns [] tt
    start (some q) left =
        query_loop-AllLegal (suc (length q)) (some q) [] (omega arith) (omega arith) tt
