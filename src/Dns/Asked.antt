-- ===== src/Dns/Asked.antt =====
-- A server port reads back the request that a client built.
use libevent_1_4_3_stable_le.Base.{
  ℕ, ◌+◌, ◌*◌, ◌≤◌, ◌≡◌, refl, sym, ap, ◌∙◌, List, [], ◌∷◌, ◌++◌, length, arith, true, Option, some,
  le→ltb, ne→==,
}
use mathlib.Core.List.{append-nil}
use libevent_1_4_3_stable_le.Base.Int.{ℤ, pos}
use libevent_1_4_3_stable_le.Base.Run.{Run, ok, Returns, Returns-map}
use libevent_1_4_3_stable_le.Dns.{Memory, name_parse}
use libevent_1_4_3_stable_le.Dns.Encoded.{dotted}
use libevent_1_4_3_stable_le.Dns.Writing.{plain, is_name, is_name-inv, is_label-inv, plain-inv}
use libevent_1_4_3_stable_le.Dns.Compress.{Stands, Stands-SameBelow}
use libevent_1_4_3_stable_le.Dns.RoundTrip.{name_parse-Stands}
use libevent_1_4_3_stable_le.Dns.Request.{
  Question, called, until_nul, read_question, questions_loop, deliver, finish, request_header,
  request_len, request_data_build, request_parse,
}
use libevent_1_4_3_stable_le.Dns.Query.{words_at, all_16, all_16-inv, request_data_build-Built}

until_nul-plain : (l rest : List ℕ) → plain l ≡ true → until_nul (l ++ rest) ≡ l ++ until_nul rest
unfolding until_nul
until_nul-plain [] rest h = refl
until_nul-plain (c ∷ l) rest h =
    let (no_dot, no_nul, more) = plain-inv c l h in
    rw (ne→== c 0 no_nul, until_nul-plain l rest more) refl

-- A name of good labels has no NUL.
until_nul-dotted :
    (l : List ℕ) (ls : List (List ℕ)) → is_name l ls ≡ true → until_nul (dotted l ls) ≡ dotted l ls
unfolding until_nul
until_nul-dotted l [] h =
    let (some', short, good) = is_label-inv l h in
    ap until_nul (sym (append-nil l)) ∙ (until_nul-plain l [] good ∙ append-nil l)
until_nul-dotted l (m ∷ ls) h =
    let (first, rest) = is_name-inv l m ls h in
    let (some', short, good) = is_label-inv l first in
    until_nul-plain l (b'.' ∷ dotted m ls) good
    ∙ ap (λ (name : List ℕ). l ++ (b'.' ∷ name)) (until_nul-dotted m ls rest)

-- The packet holds a request with one question, and nothing behind it.
read_question_lem :
    (packet : Memory) (size mid type class : ℕ) (again : ℕ → Run (Option (List Question)))
    (name : List ℕ)
    → mid + 4 ≤ size
    → words_at packet mid 2 ≡ type ∷ class ∷ []
    → until_nul name ≡ name
    → again (mid + 4) ≡ ok (some [])
    → read_question packet size (mid + 4) again mid name
      ≡ ok (some (record { name = name; type = type; dns_question_class = class } ∷ []))
unfolding read_question
read_question_lem packet size mid type class again name readable words clean go =
    let first : packet mid * 256 + packet (mid + 1) ≡ type = cc words in
    let second : packet (mid + 2) * 256 + packet (mid + 2 + 1) ≡ class = cc words in
    rw
      (
        le→ltb (mid + 4) (mid + 2) (omega arith),
        le→ltb size (mid + 2) (omega arith),
        le→ltb (mid + 4) (mid + 2 + 2) (omega arith),
        le→ltb size (mid + 2 + 2) (omega arith),
        go,
        first,
        second,
        clean,
      )
      refl

module _ (packet : Memory) (size mid trans_id type class : ℕ) (l : List ℕ) (ls : List (List ℕ))
    (ok_name : is_name l ls ≡ true) (short : length (dotted l ls) ≤ 255) (readable : mid + 4 ≤ size)
    (long : 14 ≤ mid) (header : words_at packet 0 6 ≡ request_header trans_id)
    (stands : Stands packet mid 12 (dotted l ls) mid mid)
    (footer : words_at packet mid 2 ≡ type ∷ class ∷ []) where
  abbrev asked : Question
  asked = record { name = dotted l ls; type = type; dns_question_class = class }

  questions_loop-asked : questions_loop packet size (mid + 4) 1 12 ≡ ok (some (asked ∷ []))
  unfolding questions_loop
  questions_loop-asked =
      let there : Stands packet (mid + 4) 12 (dotted l ls) mid mid =
        Stands-SameBelow packet packet {m = mid} (λ i lt. refl) (omega arith) (omega arith)
          stands in
      let parsed : name_parse packet size (mid + 4) 256 12 ≡ ok (some (mid, dotted l ls)) =
        name_parse-Stands there (omega arith) readable (omega arith) in
      rw parsed (
        read_question_lem packet size mid type class (λ next. ok (some [])) (dotted l ls) readable
          footer (until_nul-dotted l ls ok_name) refl)

  request_parse-asked :
      request_parse packet size (mid + 4)
      ≡ ok (called (record { trans_id = trans_id; flags = 256; questions = asked ∷ [] }))
  unfolding request_parse finish deliver
  request_parse-asked =
      let id : packet 0 * 256 + packet 1 ≡ trans_id = cc header in
      let flags : packet 2 * 256 + packet 3 ≡ 256 = cc header in
      let count : packet 4 * 256 + packet 5 ≡ 1 = cc header in
      rw
        (
          le→ltb (mid + 4) 2 (omega arith),
          le→ltb size 2 (omega arith),
          le→ltb (mid + 4) 4 (omega arith),
          le→ltb size 4 (omega arith),
          le→ltb (mid + 4) 6 (omega arith),
          le→ltb size 6 (omega arith),
          le→ltb (mid + 4) 8 (omega arith),
          le→ltb size 8 (omega arith),
          le→ltb (mid + 4) 10 (omega arith),
          le→ltb size 10 (omega arith),
          le→ltb (mid + 4) 12 (omega arith),
          le→ltb size 12 (omega arith),
          id,
          flags,
          count,
          questions_loop-asked,
        )
        refl

-- A server port's answer to a request that was built.
abbrev pub ReadBack : ℕ → List ℕ → ℕ → ℕ → ℕ → ℤ × Memory → Type 0
ReadBack size name trans_id type class r =
    (end : ℕ) × (r.0 ≡ pos end)
    × (end ≤ request_len (length name))
    × (request_parse r.1 size end
        ≡ ok (
            called (record {
              trans_id = trans_id;
              flags = 256;
              questions = record { name = name; type = type; dns_question_class = class } ∷ [];
            })))

-- `evdns_request_data_build` returns the length of a request for a name of good labels, if the buffer has room for it,
-- no more than `evdns_request_len` says; and `request_parse` reads the request back and hands it to the callback: the
-- id, recursion desired, and one question with the name, the type and the class.
pub request_parse-request_data_build :
    (buf_len : ℕ) (l : List ℕ) (ls : List (List ℕ)) (trans_id type class : ℕ) (buf : Memory)
    (size : ℕ)
    → buf_len ≤ 16384
    → is_name l ls ≡ true
    → length (dotted l ls) ≤ 255
    → length (dotted l ls) + 18 ≤ buf_len
    → all_16 (trans_id ∷ type ∷ class ∷ []) ≡ true
    → buf_len ≤ size
    → Returns
        (ReadBack size (dotted l ls) trans_id type class)
        (request_data_build buf_len (dotted l ls) trans_id type class buf)
request_parse-request_data_build buf_len l ls trans_id type class buf size small ok_name short room
      words readable =
    let (id_small, rest) = all_16-inv trans_id (type ∷ class ∷ []) words in
    Returns-map
      (request_data_build-Built buf_len l ls trans_id type class small ok_name short room rest buf
        id_small)
      λ r built.
        let few = built.bounded in
        (
          built.mid + 4,
          built.is_end,
          omega arith,
          request_parse-asked r.1 size built.mid trans_id type class l ls ok_name short
              (omega arith) built.longer built.header built.stands built.footer,
        )
