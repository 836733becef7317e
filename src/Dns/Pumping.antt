-- ===== src/Dns/Pumping.antt =====
-- The counts of requests are right, and requests go out in their order, as soon as there is room.
use libevent_1_4_3_stable_le.Base.{
  ℕ, zero, suc, ◌+◌, ◌-◌, ◌≤◌, ◌<◌, ◌≡◌, ◌⊎◌, inl, inr, refl, ap, ◌∙◌, List, [], ◌∷◌, ◌++◌, length,
  length-append, arith, ltb, ◌==◌, ◌&&◌, not, Bool, true, false, Bool-cases,
}
use mathlib.Core.List.Memᴰ
use mathlib.Core.List.{Memᴰ, append_assoc}
use libevent_1_4_3_stable_le.Base.Run.{Returns, returns, Returns-map, Returns-elim}
use libevent_1_4_3_stable_le.Dns.Queues.{
  Queues, request_submit, pump, remove_request, request_finished,
}

abbrev pub Matched : Queues → Type 0
Matched q =
    (q.global_requests_inflight ≡ length q.inflight)
    × (q.global_requests_waiting ≡ length q.waiting)

-- The requests are the same in the same order; none waits while there is room; none has gone out beyond the room.
pub record Pumped (max : ℕ) (inflight waiting : List ℕ) (q : Queues) : Type 0 where
  pub matched : Matched q
  pub ordered : q.inflight ++ q.waiting ≡ inflight ++ waiting
  pub no_room : (q.waiting ≡ []) ⊎ (max ≤ length q.inflight)
  pub in_room : (length q.inflight ≤ max) ⊎ (q.inflight ≡ inflight)

pump-Pumped :
    (fuel max : ℕ) (inflight waiting : List ℕ) (out wait : ℕ)
    → out ≡ length inflight
    → wait ≡ length waiting
    → wait < fuel
    → Returns (Pumped max inflight waiting) (
        pump fuel max (record {
          inflight = inflight;
          waiting = waiting;
          global_requests_inflight = out;
          global_requests_waiting = wait;
        }))
unfolding pump
pump-Pumped zero max inflight waiting out wait is_out is_wait enough = absurd (omega arith)
pump-Pumped (suc fuel) max inflight [] out wait is_out is_wait enough =
    Returns-elim (ltb out max && not (wait == 0)) (λ more. absurd (ground arith))
      (λ over. returns _ record {
        matched = (is_out, is_wait);
        ordered = refl;
        no_room = inl refl;
        in_room = inr refl;
      })
pump-Pumped (suc fuel) max inflight (req ∷ waiting) out wait is_out is_wait enough =
    Returns-elim (ltb out max && not (wait == 0))
      (λ more.
        let longer = length-append inflight (req ∷ []) in
        let below : out < max = ground arith in
        Returns-map
          (pump-Pumped fuel max (inflight ++ (req ∷ [])) waiting (out + 1) (wait - 1) (omega arith)
            (omega arith) (omega arith))
          λ q p. record {
            matched = p.matched;
            ordered = p.ordered ∙ append_assoc inflight (req ∷ []) waiting;
            no_room = p.no_room;
            in_room = elim (p.in_room) [
              | inl few ↦ inl few
              | inr same ↦ let size = ap length same in inl (omega arith)
            ];
          })
      (λ over. returns _ record {
        matched = (is_out, is_wait);
        ordered = refl;
        no_room = inr (ground arith);
        in_room = inr refl;
      })

length-remove_request :
    (req : ℕ) (queue : List ℕ)
    → Memᴰ req queue
    → length (remove_request req queue) + 1 ≡ length queue
unfolding remove_request
length-remove_request req [] there = elim there [ ]
length-remove_request req (r ∷ queue) there = elim (Bool-cases (r == req)) [
  | inl same ↦ rw same (omega arith)
  | inr other ↦ elim (Memᴰ.cases_cons there) [
    | inl is ↦ absurd (ground arith)
    | inr later ↦ let rest = length-remove_request req queue later in rw other (omega arith)
  ]
]

-- When a request in flight is finished, it leaves its queue, the waiting ones follow in their order as long as there is
-- room, none waits while there is room, the counts are right, and the assertion that a counted request waits holds.
pub request_finished-Pumped :
    (max req : ℕ) (q : Queues)
    → Matched q
    → Memᴰ req q.inflight
    → Returns (Pumped max (remove_request req q.inflight) q.waiting) (request_finished max req q)
unfolding request_finished
request_finished-Pumped max req q (out, wait) there =
    let fewer = length-remove_request req q.inflight there in
    pump-Pumped (q.global_requests_waiting + 1) max (remove_request req q.inflight) q.waiting
      (q.global_requests_inflight - 1) q.global_requests_waiting (omega arith) wait (omega arith)

request_submit-Matched :
    (has_server : Bool) (req : ℕ) (q : Queues)
    → Matched q
    → Matched (request_submit has_server req q)
unfolding request_submit
request_submit-Matched true req q (out, wait) =
    let longer = length-append q.inflight (req ∷ []) in (omega arith, wait)
request_submit-Matched false req q (out, wait) =
    let longer = length-append q.waiting (req ∷ []) in (out, omega arith)
