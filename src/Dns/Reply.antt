-- ===== src/Dns/Reply.antt =====
-- evdns.c: a nameserver's reply, as `reply_parse` reads it, up to its call of `reply_handle`.
use libevent_1_4_3_stable_le.Base.{
  ℕ, zero, suc, ◌+◌, ◌-◌, ◌*◌, ◌/◌, ◌%◌, List, [], ◌∷◌, ◌++◌, min, ltb, ◌==◌, ◌&&◌, ◌||◌, not, Bool,
  true, false, if◌then◌else◌, Option, none, some,
}
use libevent_1_4_3_stable_le.Base.Run.{Run, ok, fault, ◌>>=◌}
use libevent_1_4_3_stable_le.Dns.{Memory, copy_from, name_parse}
use libevent_1_4_3_stable_le.Dns.Request.{get16}

abbrev pub type_a : ℕ
type_a = 1

abbrev pub type_ptr : ℕ
type_ptr = 12

abbrev pub type_aaaa : ℕ
type_aaaa = 28

abbrev pub class_inet : ℕ
class_inet = 1

abbrev pub max_addrs : ℕ
max_addrs = 32

-- A request in flight: what `reply_parse` reads of `struct request`.
pub record Inflight : Type 0 where
  pub trans_id : ℕ
  pub request_type : ℕ

-- The requests in flight, from `req_head` on.
unfoldable pub request_find_from_trans_id : List Inflight → ℕ → Option Inflight
request_find_from_trans_id [] trans_id = none
request_find_from_trans_id (req ∷ inflight) trans_id =
    let later = request_find_from_trans_id inflight trans_id in
    if req.trans_id == trans_id then some req else later

-- `struct reply`: the bytes of the addresses that were copied, or the name.
pub record Reply : Type 0 where
  pub have_answer : Bool
  pub addrcount : ℕ
  pub addresses : List ℕ
  pub name : List ℕ

-- What one answer leads to: `goto err`, the next answer at its index, or the end of the loop.
pub data Step : Type 0 where
  failed : Step
  next_answer : ℕ → ℕ → Reply → Step
  last_answer : ℕ → Reply → Step

-- How `reply_parse` ends: -1 with no request touched, or `reply_handle` with flags, a time to live and a reply, if any.
pub data Handled : Type 0 where
  ignored : Handled
  handled : Inflight → ℕ → ℕ → Option Reply → Handled

-- The call of `reply_handle`, at the end or at `err`.
unfoldable pub hand_over : Inflight → ℕ → Option (ℕ × Reply) → Handled
hand_over req flags none = handled req flags 0 none
hand_over req flags (some (ttl, reply)) = handled req flags ttl (some reply)

-- `host_name_max` is the platform's HOST_NAME_MAX.
module _ (packet : Memory) (size len host_name_max : ℕ) where
  abbrev pub get32 {ℓ} : {A : Type ℓ} → ℕ → Run A → (ℕ → Run A) → Run A
  get32 j err next =
      if ltb len (j + 4)
      then err
      else if ltb size (j + 4)
      then fault
      else next (((packet j * 256 + packet (j + 1)) * 256 + packet (j + 2)) * 256 + packet (j + 3))

  -- Addresses of `width` bytes each, up to the room in `addresses`, from `j` on.
  unfoldable pub copy_addresses : ℕ → ℕ → ℕ → ℕ → ℕ → Reply → Run Step
  copy_addresses width j datalength ttl_r ttl reply =
      let addrtocopy = min (max_addrs - reply.addrcount) (datalength / width) in
      let addrcount = reply.addrcount + addrtocopy in
      let k = j + width * addrtocopy in
      let after = λ (bytes : List ℕ).
        let reply' : Reply = record reply {
          have_answer = true;
          addrcount = addrcount;
          addresses = reply.addresses ++ bytes;
        } in
        if addrcount == max_addrs
        then last_answer (min ttl_r ttl) reply'
        else next_answer k (min ttl_r ttl) reply' in
      let copy : Run Step = do
        bytes ← copy_from packet size j (width * addrtocopy)
        if ltb max_addrs addrcount then fault else ok (after bytes)
      in if not (datalength % width == 0) then ok failed else if ltb len k then ok failed else copy

  -- The name that a PTR record holds, which ends the loop.
  unfoldable pub copy_name : ℕ → ℕ → ℕ → Reply → Run Step
  unfolding name_parse
  copy_name j ttl_r ttl reply = do
    parsed ← name_parse packet size len host_name_max j
    ok (elim parsed [
      | none ↦ failed
      | some (k, name) ↦
          last_answer (min ttl_r ttl) (record reply { have_answer = true; name = name })
    ])

  -- An answer behind its name and its fixed fields.
  unfoldable pub answer_data : ℕ → ℕ → ℕ → ℕ → ℕ → ℕ → ℕ → Reply → Run Step
  unfolding copy_addresses copy_name
  answer_data request_type type class j datalength ttl_r ttl reply =
      let skip : Run Step = ok (next_answer (j + datalength) ttl_r reply) in
      if type == type_a && class == class_inet
      then (if not (request_type == type_a)
          then skip
          else copy_addresses 4 j datalength ttl_r ttl reply)
      else if type == type_ptr && class == class_inet
      then (if not (request_type == type_ptr) then skip else copy_name j ttl_r ttl reply)
      else if type == type_aaaa && class == class_inet
      then (if not (request_type == type_aaaa)
          then skip
          else copy_addresses 16 j datalength ttl_r ttl reply)
      else skip

  unfoldable pub answer : ℕ → ℕ → ℕ → Reply → Run Step
  unfolding name_parse answer_data
  answer request_type j ttl_r reply = do
    parsed ← name_parse packet size len 256 j
    let err : Run Step = ok failed
    elim parsed [
      | none ↦ err
      | some (k, name) ↦ get16 packet size len k err λ type.
          get16 packet size len (k + 2) err λ class. get32 (k + 4) err λ ttl.
            get16 packet size len (k + 8) err
              λ datalength. answer_data request_type type class (k + 10) datalength ttl_r ttl reply
    ]

  -- The loop over the answers; `none` is `goto err`.
  unfoldable pub answers_loop : ℕ → ℕ → ℕ → ℕ → Reply → Run (Option (ℕ × Reply))
  unfolding answer
  answers_loop request_type zero j ttl_r reply = ok (some (ttl_r, reply))
  answers_loop request_type (suc n) j ttl_r reply = do
    step ← answer request_type j ttl_r reply
    elim step [
      | failed ↦ ok none
      | next_answer k ttl_r' reply' ↦ answers_loop request_type n k ttl_r' reply'
      | last_answer ttl_r' reply' ↦ ok (some (ttl_r', reply'))
    ]

  -- The index behind the questions.
  unfoldable pub skip_questions : ℕ → ℕ → Run (Option ℕ)
  unfolding name_parse
  skip_questions zero j = ok (some j)
  skip_questions (suc n) j = do
    parsed ← name_parse packet size len 256 j
    elim parsed [
      | none ↦ ok none
      | some (k, name) ↦ elim (ltb len (k + 4)) [
        | true ↦ ok none
        | false ↦ skip_questions n (k + 4)
      ]
    ]

  -- The answers behind the questions, with an empty reply.
  unfoldable pub answers_from : ℕ → ℕ → Option ℕ → Run (Option (ℕ × Reply))
  unfolding answers_loop
  answers_from request_type answers none = ok none
  answers_from request_type answers (some j) =
      answers_loop request_type answers j 0xffffffff
        (record { have_answer = false; addrcount = 0; addresses = []; name = [] })

  -- `reply_parse` behind the header, for a reply without an error.
  unfoldable pub read_answers : Inflight → ℕ → ℕ → ℕ → Run Handled
  unfolding skip_questions answers_from hand_over
  read_answers req flags questions answers = do
    skipped ← skip_questions questions 12
    found ← answers_from req.request_type answers skipped
    ok (hand_over req flags found)

  -- `reply_parse` with the request that the header names, and the flags.
  unfoldable pub read_reply : Option Inflight → ℕ → ℕ → ℕ → Run Handled
  unfolding read_answers
  read_reply none flags questions answers = ok ignored
  read_reply (some req) flags questions answers =
      if flags / 32768 % 2 == 0
      then ok ignored
      else if not (flags % 16 == 0) || not (flags / 512 % 2 == 0)
      then ok (handled req flags 0 none)
      else read_answers req flags questions answers

  unfoldable pub reply_parse : List Inflight → Run Handled
  unfolding request_find_from_trans_id read_reply
  reply_parse inflight =
      let err : Run Handled = ok ignored in
      get16 packet size len 0 err λ trans_id. get16 packet size len 2 err λ flags.
        get16 packet size len 4 err λ questions. get16 packet size len 6 err λ answers.
          get16 packet size len 8 err λ authority. get16 packet size len 10 err λ additional.
            read_reply (request_find_from_trans_id inflight trans_id) flags questions answers
