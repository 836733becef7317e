-- ===== src/Dns/Answers.antt =====
-- `reply_parse` on any packet: its loops, and what it hands to `reply_handle`.
use libevent_1_4_3_stable_le.Base.{
  ℕ, zero, suc, ◌+◌, ◌/◌, ◌%◌, ◌≤◌, ◌<◌, ◌≡◌, ◌⊎◌, inl, inr, refl, sym, ap, ◌∙◌, List, [], ◌∷◌,
  arith, ltb, ◌==◌, ◌||◌, not, Option, none, some, Bool-cases, search_hit, search_miss,
}
use mathlib.Core.List.{Memᴰ}
use libevent_1_4_3_stable_le.Base.Run.{
  Run, ok, Returns, returns, Returns-map, Returns-bind, Returns-if, Returns-elim,
}
use libevent_1_4_3_stable_le.Dns.{Memory}
use libevent_1_4_3_stable_le.Dns.Parsing.{name_parse-Parsed}
use libevent_1_4_3_stable_le.Dns.Request.{get16}
use libevent_1_4_3_stable_le.Dns.Served.{get16-Returns}
use libevent_1_4_3_stable_le.Dns.Reply.{
  Inflight, Reply, Handled, ignored, answers_loop, skip_questions, answers_from, hand_over,
  read_answers, read_reply, reply_parse, request_find_from_trans_id,
}
use libevent_1_4_3_stable_le.Dns.Replied.{Whole, answer-Whole}

-- Nothing, or a time to live no longer than the one it started with, and a reply that is whole.
abbrev pub Answered : ℕ → ℕ → ℕ → Option (ℕ × Reply) → Type 0
Answered host_name_max request_type ttl_r found =
    (found ≡ none)
    ⊎ ((ttl : ℕ) × (reply : Reply) × (found ≡ some (ttl, reply))
        × (ttl ≤ ttl_r)
        × Whole host_name_max request_type reply)

Answered-shorter :
    (host_name_max request_type ttl ttl_r : ℕ) (found : Option (ℕ × Reply))
    → ttl ≤ ttl_r
    → Answered host_name_max request_type ttl found
    → Answered host_name_max request_type ttl_r found
Answered-shorter host_name_max request_type ttl ttl_r found less (inl failed) = inl failed
Answered-shorter host_name_max request_type ttl' ttl_r found less
      (inr (ttl, reply, is, below, whole)) =
    inr (ttl, reply, is, omega arith, whole)

module _ (packet : Memory) (size len host_name_max : ℕ) (spare : len + 63 ≤ size)
    (room : 0 < host_name_max) where
  answers_loop-Answered :
      (request_type n j ttl_r : ℕ) (reply : Reply)
      → Whole host_name_max request_type reply
      → Returns
          (Answered host_name_max request_type ttl_r)
          (answers_loop packet size len host_name_max request_type n j ttl_r reply)
  unfolding answers_loop
  answers_loop-Answered request_type zero j ttl_r reply whole =
      returns _ (inr (ttl_r, reply, refl, omega arith, whole))
  answers_loop-Answered request_type (suc n) j ttl_r reply whole =
      Returns-bind
        (answer-Whole packet size len host_name_max spare request_type j ttl_r reply whole)
        λ step is_step. elim is_step [
          | inl failed ↦ rw failed (returns _ (inl refl))
          | inr (inl (k, ttl, reply', next, less, whole')) ↦ rw next (
              Returns-map (answers_loop-Answered request_type n k ttl reply' whole')
                (λ found answered.
                  Answered-shorter host_name_max request_type ttl ttl_r found less answered))
          | inr (inr (ttl, reply', last, less, whole')) ↦
              rw last (returns _ (inr (ttl, reply', refl, less, whole')))
        ]

  skip_questions-Returns :
      (n j : ℕ)
      → Returns
          (λ skipped. (skipped ≡ none) ⊎ ((k : ℕ) × (skipped ≡ some k)))
          (skip_questions packet size len host_name_max n j)
  unfolding skip_questions
  skip_questions-Returns zero j = returns _ (inr (j, refl))
  skip_questions-Returns (suc n) j =
      Returns-bind (name_parse-Parsed packet size len 256 j spare) λ parsed is_parsed.
        elim is_parsed [
          | inl no_name ↦ rw no_name (returns _ (inl refl))
          | inr (k, name, read, past, below, fits) ↦ rw read (
              Returns-elim (ltb len (k + 4)) (λ out_of. returns _ (inl refl))
                λ inside. skip_questions-Returns n (k + 4))
        ]

  answers_from-Answered :
      (request_type answers : ℕ) (skipped : Option ℕ)
      → Returns
          (Answered host_name_max request_type 0xffffffff)
          (answers_from packet size len host_name_max request_type answers skipped)
  unfolding answers_from
  answers_from-Answered request_type answers none = returns _ (inl refl)
  answers_from-Answered request_type answers (some j) =
      answers_loop-Answered request_type answers j 0xffffffff _
        (omega arith, omega arith, omega arith, λ none'. absurd (omega arith))

-- What goes to `reply_handle` is a failure, or a whole reply to a request in flight.
abbrev pub Delivered : ℕ → List Inflight → Handled → Type 0
Delivered host_name_max inflight outcome =
    (outcome ≡ ignored)
    ⊎ ((req : Inflight) × (flags : ℕ) × (found : Option (ℕ × Reply)) × (outcome
          ≡ hand_over req flags found)
        × Memᴰ req inflight
        × Answered host_name_max req.request_type 0xffffffff found)

request_find-Memᴰ :
    (inflight : List Inflight) (trans_id : ℕ) (req : Inflight)
    → request_find_from_trans_id inflight trans_id ≡ some req
    → Memᴰ req inflight × (req.trans_id ≡ trans_id)
unfolding request_find_from_trans_id
request_find-Memᴰ [] trans_id req h = absurd (cc h)
request_find-Memᴰ (first ∷ inflight) trans_id req h =
    elim (Bool-cases (first.trans_id == trans_id)) [
      | inl same ↦
          let is : first ≡ req =
            search_hit (request_find_from_trans_id inflight trans_id) (first.trans_id == trans_id)
              same h in
          (Memᴰ.head (sym is), ap (λ (r : Inflight). r.trans_id) (sym is) ∙ ground arith)
      | inr other ↦
          let (there, id) = request_find-Memᴰ inflight trans_id req (
            search_miss (some first) (request_find_from_trans_id inflight trans_id)
              (first.trans_id == trans_id) other h) in
          (Memᴰ.tail there, id)
    ]

read_reply-Delivered :
    (packet : Memory) (size len host_name_max : ℕ) (inflight : List Inflight)
    (found : Option Inflight) (flags questions answers : ℕ)
    → len + 63 ≤ size
    → 0 < host_name_max
    → ((req : Inflight) → found ≡ some req → Memᴰ req inflight)
    → Returns
        (Delivered host_name_max inflight)
        (read_reply packet size len host_name_max found flags questions answers)
unfolding read_reply read_answers
read_reply-Delivered packet size len host_name_max inflight none flags questions answers spare room
      there =
    returns _ (inl refl)
read_reply-Delivered packet size len host_name_max inflight (some req) flags questions answers spare
      room there =
    Returns-if (flags / 32768 % 2 == 0) (λ query. returns _ (inl refl))
      λ reply.
        Returns-if (not (flags % 16 == 0) || not (flags / 512 % 2 == 0))
          (λ error. returns _ (inr (req, flags, none, refl, there req refl, inl refl)))
          λ fine.
            Returns-bind
              (skip_questions-Returns packet size len host_name_max spare room questions 12)
              λ skipped is_skipped.
                Returns-bind
                  (answers_from-Answered packet size len host_name_max spare room req.request_type
                    answers skipped)
                  λ found answered.
                    returns _ (inr (req, flags, found, refl, there req refl, answered))

-- With 63 readable bytes behind the packet, `reply_parse` ends on any bytes: the reply is ignored, or a request in
-- flight gets a failure or a reply with at most 32 addresses, all copied, and a name that fits its buffer.
pub reply_parse-Delivered :
    (packet : Memory) (size len host_name_max : ℕ) (inflight : List Inflight)
    → len + 63 ≤ size
    → 0 < host_name_max
    → Returns
        (Delivered host_name_max inflight)
        (reply_parse packet size len host_name_max inflight)
unfolding reply_parse
reply_parse-Delivered packet size len host_name_max inflight spare room = header 0 λ trans_id.
    header 2 λ flags. header 4 λ questions. header 6 λ answers. header 8 λ authority.
      header 10 λ additional.
        read_reply-Delivered packet size len host_name_max inflight
          (request_find_from_trans_id inflight trans_id) flags questions answers spare room
          (λ req found. (request_find-Memᴰ inflight trans_id req found).0)
  where
    header :
        (j : ℕ) {next : ℕ → Run Handled}
        → ((x : ℕ) → Returns (Delivered host_name_max inflight) (next x))
        → Returns (Delivered host_name_max inflight) (get16 packet size len j (ok ignored) next)
    header j go =
        get16-Returns packet size len j (omega arith) (returns _ (inl refl)) λ inside x. go x
