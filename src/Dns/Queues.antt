-- ===== src/Dns/Queues.antt =====
-- evdns.c: the requests that are in flight and those that wait, as circular lists from their heads on, with the counts
-- of both. A request is a number; what it is given when it goes out, and its transmission, are not modelled here.
use libevent_1_4_3_stable_le.Base.{
  ℕ, zero, suc, ◌+◌, ◌-◌, List, [], ◌∷◌, ◌++◌, ltb, ◌==◌, ◌&&◌, not, Bool, true, false,
  if◌then◌else◌,
}
use libevent_1_4_3_stable_le.Base.Run.{Run, ok, exits, diverges}

pub record Queues : Type 0 where
  pub inflight : List ℕ
  pub waiting : List ℕ
  pub global_requests_inflight : ℕ
  pub global_requests_waiting : ℕ

-- Before the head of the circular list, which is behind its last request.
abbrev pub request_insert : ℕ → List ℕ → List ℕ
request_insert req queue = queue ++ (req ∷ [])

-- A request that has a nameserver goes out, another one waits.
unfoldable pub request_submit : Bool → ℕ → Queues → Queues
request_submit has_server req q =
    let out : Queues = record q {
      inflight = request_insert req q.inflight;
      global_requests_inflight = q.global_requests_inflight + 1;
    } in
    let waits : Queues = record q {
      waiting = request_insert req q.waiting;
      global_requests_waiting = q.global_requests_waiting + 1;
    } in
    if has_server then out else waits

-- `evdns_requests_pump_waiting_queue`, with its assertion that a request waits.
unfoldable pub pump : ℕ → ℕ → Queues → Run Queues
pump zero max q = diverges
pump (suc fuel) max q =
    let go : List ℕ → Run Queues = λ waiting. elim waiting [
      | [] ↦ exits
      | req ∷ rest ↦ pump fuel max (record {
        inflight = request_insert req q.inflight;
        waiting = rest;
        global_requests_inflight = q.global_requests_inflight + 1;
        global_requests_waiting = q.global_requests_waiting - 1;
      })
    ] in
    elim (ltb q.global_requests_inflight max && not (q.global_requests_waiting == 0)) [
      | true ↦ go q.waiting
      | false ↦ ok q
    ]

unfoldable pub remove_request : ℕ → List ℕ → List ℕ
remove_request req [] = []
remove_request req (r ∷ queue) =
    let rest = remove_request req queue in if r == req then queue else r ∷ rest

-- `request_finished` of a request in flight.
unfoldable pub request_finished : ℕ → ℕ → Queues → Run Queues
unfolding remove_request pump
request_finished max req q =
    let left : Queues = record q {
      inflight = remove_request req q.inflight;
      global_requests_inflight = q.global_requests_inflight - 1;
    } in
    pump (q.global_requests_waiting + 1) max left
