-- ===== src/Dns/Served.antt =====
-- `request_parse` on any packet, and on a request that `evdns_request_data_build` built.
use libevent_1_4_3_stable_le.Base.{
  ℕ, zero, suc, ◌+◌, ◌*◌, ◌/◌, ◌%◌, ◌≤◌, ◌<◌, ◌≡◌, ◌⊎◌, inl, inr, refl, ap, List, [], ◌∷◌, length,
  arith, ltb, ◌==◌, not, Bool, true, false, if◌then◌else◌, Option, none, some, le→ltb,
}
use mathlib.Core.List.Memᴰ
use mathlib.Core.List.{Memᴰ}
use libevent_1_4_3_stable_le.Base.Run.{Run, ok, Returns, returns, Returns-bind, Returns-if}
use libevent_1_4_3_stable_le.Dns.{Memory}
use libevent_1_4_3_stable_le.Dns.Parsing.{name_parse-Parsed}
use libevent_1_4_3_stable_le.Dns.Request.{
  Question, ServerRequest, Outcome, dropped, called, add_question, until_nul, get16, read_question,
  questions_loop, deliver, finish, request_parse,
}

-- `GET16` ends where what comes after it does.
pub get16-Returns :
    {A : Type 0} {P : A → Type 0} (packet : Memory) (size len j : ℕ) {err : Run A}
    {next : ℕ → Run A}
    → len ≤ size
    → Returns P err
    → (j + 2 ≤ len → (x : ℕ) → Returns P (next x))
    → Returns P (get16 packet size len j err next)
get16-Returns packet size len j {err} {next} readable failed go =
    Returns-if (ltb len (j + 2)) (λ behind. failed)
      λ inside.
        rw (le→ltb size (j + 2) (ground arith))
          (go (ground arith) (packet j * 256 + packet (j + 1)))

length-until_nul : (name : List ℕ) → length (until_nul name) ≤ length name
unfolding until_nul
length-until_nul [] = omega arith
length-until_nul (c ∷ name) = let rest = length-until_nul name in go (c == 0) rest
  where
    go :
        (end : Bool)
        → length (until_nul name) ≤ length name
        → length (if end then [] else c ∷ until_nul name) ≤ suc (length name)
    go true rest = omega arith
    go false rest = omega arith

-- Every question's name fits `tmp_name`, with its NUL.
abbrev pub Fits : List Question → Type 0
Fits questions = (q : Question) → Memᴰ q questions → length q.name < 256

abbrev pub Read : ℕ → Option (List Question) → Type 0
Read n found =
    (found ≡ none) ⊎ ((read : List Question) × (found ≡ some read) × (length read ≡ n) × Fits read)

add_question-Read :
    (q : Question) (n : ℕ) (more : Option (List Question))
    → length q.name < 256
    → Read n more
    → Read (suc n) (add_question q more)
add_question-Read q n more fits (inl failed) = rw failed (inl refl)
add_question-Read q n more fits (inr (qs, read, count, all_fit)) =
    rw read (inr (q ∷ qs, refl, ap suc count, fits_all))
  where
    fits_all : Fits (q ∷ qs)
    fits_all q' there = elim (Memᴰ.cases_cons there) [
      | inl same ↦ rw same fits
      | inr later ↦ all_fit q' later
    ]

read_question-Read :
    (packet : Memory) (size len n : ℕ) (again : ℕ → Run (Option (List Question))) (k : ℕ)
    (name : List ℕ)
    → len ≤ size
    → length name < 256
    → ((j : ℕ) → Returns (Read n) (again j))
    → Returns (Read (suc n)) (read_question packet size len again k name)
unfolding read_question
read_question-Read packet size len n again k name readable fits go =
    let short = length-until_nul name in
    let fits' : length (until_nul name) < 256 = omega arith in
    get16-Returns packet size len k readable (returns _ (inl refl)) λ in1 type.
      get16-Returns packet size len (k + 2) readable (returns _ (inl refl)) λ in2 class.
        Returns-bind (go (k + 4)) λ more is_more.
          let question : Question = record {
            name = until_nul name;
            type = type;
            dns_question_class = class;
          } in
          returns (add_question question more) (add_question-Read question n more fits' is_more)

questions_loop-Read :
    (packet : Memory) (size len n j : ℕ)
    → len + 63 ≤ size
    → Returns (Read n) (questions_loop packet size len n j)
unfolding questions_loop
questions_loop-Read packet size len zero j spare =
    returns _ (inr ([], refl, refl, λ q there. elim there [ ]))
questions_loop-Read packet size len (suc n) j spare =
    Returns-bind (name_parse-Parsed packet size len 256 j spare) λ parsed is_parsed.
      elim is_parsed [
        | inl failed ↦ rw failed (returns _ (inl refl))
        | inr (k, name, read, past, below, fits) ↦ rw read (
            read_question-Read packet size len n _ k name (omega arith) fits
              (λ next. questions_loop-Read packet size len n next spare))
      ]

-- A request is dropped, or it goes to the callback: with the two flags only, and with names that fit.
abbrev pub Accepted : Outcome → Type 0
Accepted outcome =
    (outcome ≡ dropped)
    ⊎ ((request : ServerRequest) × (outcome ≡ called request)
        × (request.flags / 256 % 2 * 256 + request.flags / 16 % 2 * 16 ≡ request.flags)
        × Fits request.questions)

masked_twice :
    (flags : ℕ)
    → (let kept = flags / 256 % 2 * 256 + flags / 16 % 2 * 16 in
        kept / 256 % 2 * 256 + kept / 16 % 2 * 16 ≡ kept)
masked_twice flags = omega arith

deliver-called :
    (request : ServerRequest)
    → request.flags / 256 % 2 * 256 + request.flags / 16 % 2 * 16 ≡ request.flags
    → deliver request ≡ called request
unfolding deliver
deliver-called request masked =
    let standard : request.flags / 2048 % 16 ≡ 0 = omega arith in rw standard refl

finish-Accepted :
    (trans_id flags n : ℕ) (found : Option (List Question))
    → Read n found
    → Accepted (finish trans_id flags found)
unfolding finish
finish-Accepted trans_id flags n found (inl failed) = rw failed (inl refl)
finish-Accepted trans_id flags n found (inr (qs, read, count, fit)) =
    let masked = masked_twice flags in
    rw read (
      inr (
        _,
        deliver-called (record { trans_id = trans_id; flags = _; questions = qs }) masked,
        masked,
        fit,
      ))

get16-Accepted :
    (packet : Memory) (size len j : ℕ) {next : ℕ → Run Outcome}
    → len ≤ size
    → ((x : ℕ) → Returns Accepted (next x))
    → Returns Accepted (get16 packet size len j (ok dropped) next)
get16-Accepted packet size len j readable go =
    get16-Returns packet size len j readable (returns _ (inl refl)) λ inside x. go x

-- With 63 readable bytes behind the packet, `request_parse` ends on any bytes: the request is dropped, or the callback
-- gets it, with no flags but RD and CD and with names that fit. That it is not implemented is never answered.
pub request_parse-Accepted :
    (packet : Memory) (size len : ℕ)
    → len + 63 ≤ size
    → Returns Accepted (request_parse packet size len)
unfolding request_parse
request_parse-Accepted packet size len spare =
    let go : len ≤ size = omega arith in
    get16-Accepted packet size len 0 go λ trans_id. get16-Accepted packet size len 2 go λ flags.
      get16-Accepted packet size len 4 go λ n. get16-Accepted packet size len 6 go λ answers.
        get16-Accepted packet size len 8 go λ authority.
          get16-Accepted packet size len 10 go λ additional.
            Returns-if (not (flags / 32768 % 2 == 0)) (λ answer. returns _ (inl refl))
              λ query.
                Returns-bind (questions_loop-Read packet size len n 12 spare)
                  λ found is_read. returns _ (finish-Accepted trans_id flags n found is_read)
