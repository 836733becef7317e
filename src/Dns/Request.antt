-- ===== src/Dns/Request.antt =====
-- evdns.c: a request as a client builds it, and as a server port reads it. What `malloc` asks for is granted.
use libevent_1_4_3_stable_le.Base.{
  ℕ, zero, suc, ◌+◌, ◌*◌, ◌/◌, ◌%◌, List, [], ◌∷◌, ltb, ◌==◌, not, if◌then◌else◌, Option, none,
  some,
}
use libevent_1_4_3_stable_le.Base.Int.{ℤ, pos, negsuc, minus_one}
use libevent_1_4_3_stable_le.Base.Run.{Run, ok, fault, ◌>>=◌}
use libevent_1_4_3_stable_le.Dns.{Memory, name_parse}
use libevent_1_4_3_stable_le.Dns.Labels.{write_bytes, bytes16, to_labels}

-- `APPEND16` of each of the numbers, then `next` with the buffer and the index behind them.
abbrev pub append_all : ℕ → List ℕ → Memory → ℕ → (Memory → ℕ → Run (ℤ × Memory)) → Run (ℤ × Memory)
append_all buf_len [] buf j next = next buf j
append_all buf_len (x ∷ xs) buf j next =
    if ltb buf_len (j + 2)
    then ok (minus_one, buf)
    else append_all buf_len xs (write_bytes buf j (bytes16 x)) (j + 2) next

abbrev pub request_len : ℕ → ℕ
request_len name_len = 96 + name_len + 2 + 4

-- `evdns_request_data_build` behind the header.
unfoldable pub build_question : ℕ → List ℕ → ℕ → ℕ → Memory → ℕ → Run (ℤ × Memory)
unfolding to_labels
build_question buf_len name type class buf j = do
  written ← to_labels buf_len (record { buf = buf; table = none }) j name
  elim written.0 [
    | pos end ↦
        append_all buf_len (type ∷ class ∷ []) written.1.buf end (λ built k. ok (pos k, built))
    | negsuc n ↦ ok (negsuc n, written.1.buf)
  ]

abbrev pub request_header : ℕ → List ℕ
request_header trans_id = trans_id ∷ 0x0100 ∷ 1 ∷ 0 ∷ 0 ∷ 0 ∷ []

unfoldable pub request_data_build : ℕ → List ℕ → ℕ → ℕ → ℕ → Memory → Run (ℤ × Memory)
unfolding build_question
request_data_build buf_len name trans_id type class buf =
    append_all buf_len (request_header trans_id) buf 0 (build_question buf_len name type class)

-- `struct evdns_server_question`
pub record Question : Type 0 where
  pub name : List ℕ
  pub type : ℕ
  pub dns_question_class : ℕ

-- What `request_parse` keeps in `struct server_request`.
pub record ServerRequest : Type 0 where
  pub trans_id : ℕ
  pub flags : ℕ
  pub questions : List Question

-- How `request_parse` ends: -1 without an answer, an answer that the request is not implemented, or the callback.
pub data Outcome : Type 0 where
  dropped : Outcome
  refused called : ServerRequest → Outcome

-- `strlen` and `memcpy` keep a name up to its first NUL.
unfoldable pub until_nul : List ℕ → List ℕ
until_nul [] = []
until_nul (c ∷ name) = let rest = until_nul name in if c == 0 then [] else c ∷ rest

abbrev pub add_question : Question → Option (List Question) → Option (List Question)
add_question question none = none
add_question question (some questions) = some (question ∷ questions)

-- Only standard queries are supported.
unfoldable pub deliver : ServerRequest → Outcome
deliver request = if not (request.flags / 2048 % 16 == 0) then refused request else called request

-- `request_parse` behind the questions: `flags &= 0x0110`, and the request is handed on.
unfoldable pub finish : ℕ → ℕ → Option (List Question) → Outcome
unfolding deliver
finish trans_id flags none = dropped
finish trans_id flags (some read) = deliver (record {
  trans_id = trans_id;
  flags = flags / 256 % 2 * 256 + flags / 16 % 2 * 16;
  questions = read;
})

module _ (packet : Memory) (size len : ℕ) where
  -- `GET16`, with what its `goto err` does and what comes after it.
  abbrev pub get16 {ℓ} : {A : Type ℓ} → ℕ → Run A → (ℕ → Run A) → Run A
  get16 j err next =
      if ltb len (j + 2)
      then err
      else if ltb size (j + 2)
      then fault
      else next (packet j * 256 + packet (j + 1))

  -- Type and class behind the name of a question, and the questions that `again` reads behind them.
  unfoldable pub read_question :
      (ℕ → Run (Option (List Question))) → ℕ → List ℕ → Run (Option (List Question))
  unfolding until_nul
  read_question again k name = get16 k (ok none) λ type. get16 (k + 2) (ok none) λ class. do
    more ← again (k + 4)
    let question : Question = record {
      name = until_nul name;
      type = type;
      dns_question_class = class;
    }
    ok (add_question question more)

  -- The loop over the questions, of which `n` are left; `none` is `goto err`.
  unfoldable pub questions_loop : ℕ → ℕ → Run (Option (List Question))
  unfolding name_parse read_question
  questions_loop zero j = ok (some [])
  questions_loop (suc n) j = do
    parsed ← name_parse packet size len 256 j
    elim parsed [
      | none ↦ ok none
      | some (k, name) ↦ read_question (λ next. questions_loop n next) k name
    ]

  unfoldable pub request_parse : Run Outcome
  unfolding questions_loop finish
  request_parse =
      let err : Run Outcome = ok dropped in
      get16 0 err λ trans_id. get16 2 err λ flags. get16 4 err λ questions. get16 6 err λ answers.
        get16 8 err λ authority. get16 10 err λ additional.
          if not (flags / 32768 % 2 == 0)
          then err
          else do found ← questions_loop questions 12; ok (finish trans_id flags found)
