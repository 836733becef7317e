-- ===== src/Dns/Failing.antt =====
-- Servers that fail and come back: the count of the good ones stays right, and no assertion fails.
use libevent_1_4_3_stable_le.Base.{
  ℕ, suc, ◌+◌, ◌-◌, ◌≡◌, inl, inr, refl, sym, ap, ◌∙◌, List, [], ◌∷◌, length, arith, ◌==◌, ◌&&◌,
  not, Bool, true, false, if◌then◌else◌, Option, none, some, Bool-cases,
}
use libevent_1_4_3_stable_le.Base.Int.{ℤ, pos}
use libevent_1_4_3_stable_le.Base.Run.{
  ok, Returns, returns, Returns-map, Returns-bind, Returns-if, Returns-value,
}
use libevent_1_4_3_stable_le.Dns.Servers.{
  Nameserver, Servers, Sent, same_server, nameserver_pick, change, is_up, marked_down, marked_up,
  tried_again, reassign, nameserver_failed, nameserver_up, nameserver_probe_failed, present, insert,
  nameserver_add, Reached, no_servers, added, picked_one, failed, came_up, probe_failed,
}
use libevent_1_4_3_stable_le.Dns.Picking.{one_if, up_count, Counted, Picked, nameserver_pick-Picked}

-- A change of the state of a server that stands in the list changes the count by that server.
up_count-change :
    (f : Nameserver → Nameserver) (after : Bool) (id : ℕ) (ring : List Nameserver)
    → ((s : Nameserver) → (f s).state ≡ after)
    → present id ring ≡ true
    → up_count (change f id ring) + one_if (is_up id ring) ≡ up_count ring + one_if after
unfolding change is_up present
up_count-change f after id [] becomes there = absurd (cc there)
up_count-change f after id (s ∷ ring) becomes there = elim (Bool-cases (s.id == id)) [
  | inl same ↦ rw (same, becomes s) (omega arith)
  | inr other ↦
      let there' : present id ring ≡ true = ground arith in
      let rest = up_count-change f after id ring becomes there' in rw other (omega arith)
]

-- `f` that leaves the state leaves the count.
up_count-change_same :
    (f : Nameserver → Nameserver) (id : ℕ) (ring : List Nameserver)
    → ((s : Nameserver) → (f s).state ≡ s.state)
    → up_count (change f id ring) ≡ up_count ring
unfolding change
up_count-change_same f id [] keeps = refl
up_count-change_same f id (s ∷ ring) keeps = elim (Bool-cases (s.id == id)) [
  | inl same ↦ rw (same, keeps s) refl
  | inr other ↦ let rest = up_count-change_same f id ring keeps in rw other (omega arith)
]

is_up-present : (id : ℕ) (ring : List Nameserver) → is_up id ring ≡ true → present id ring ≡ true
unfolding is_up present
is_up-present id [] up = absurd (cc up)
is_up-present id (s ∷ ring) up = elim (Bool-cases (s.id == id)) [
  | inl same ↦ rw same refl
  | inr other ↦
      let up' : is_up id ring ≡ true = ground arith in rw other (is_up-present id ring up')
]

-- A server that comes back is counted once more, one that is up already is not.
pub nameserver_up-Counted :
    (id : ℕ) (servers : Servers)
    → present id servers.ring ≡ true
    → Counted servers
    → Counted (nameserver_up id servers)
unfolding nameserver_up
nameserver_up-Counted id servers there counted = elim (Bool-cases (is_up id servers.ring)) [
  | inl up ↦ rw up counted
  | inr down ↦
      let change' = up_count-change marked_up true id servers.ring (λ s. refl) there in
      let none' : one_if (is_up id servers.ring) ≡ 0 = ap one_if down in rw down (omega arith)
]

pub nameserver_probe_failed-Counted :
    (id : ℕ) (servers : Servers) → Counted servers → Counted (nameserver_probe_failed id servers)
unfolding nameserver_probe_failed
nameserver_probe_failed-Counted id servers counted = elim (Bool-cases (is_up id servers.ring)) [
  | inl up ↦ rw up counted
  | inr down ↦
      rw down (counted ∙ sym (up_count-change_same tried_again id servers.ring (λ s. refl)))
]

reassign-Counted :
    (id : ℕ) (inflight : List Sent) (servers : Servers)
    → Counted servers
    → Returns
        (λ r. Counted r.1 × (r.1.good ≡ servers.good) × (length r.0 ≡ length inflight))
        (reassign id inflight servers)
unfolding reassign
reassign-Counted id [] servers counted = returns _ (counted, refl, refl)
reassign-Counted id (req ∷ inflight) servers counted =
    Returns-bind (picks (req.tx_count == 0 && same_server req.ns (some id))) λ r picked.
      let (counted', same) = picked in
      Returns-bind (reassign-Counted id inflight r.1 counted') λ r' rest.
        let (counted'', same', len) = rest in returns _ (counted'', same' ∙ same, ap suc len)
  where
    picks :
        (move : Bool)
        → Returns
            (λ r. Counted r.1 × (r.1.good ≡ servers.good))
            (if move then nameserver_pick servers else ok (req.ns, servers))
    picks true = Returns-map (nameserver_pick-Picked servers counted) (λ r p. (p.counted, p.same))
    picks false = returns _ (counted, refl)

-- A failure is counted once, where the server was up, and the assertion that the count is not negative holds.
pub nameserver_failed-Counted :
    (id : ℕ) (inflight : List Sent) (servers : Servers)
    → Counted servers
    → Returns
        (λ r.
          Counted r.1
          × (r.1.good + one_if (is_up id servers.ring) ≡ servers.good)
          × (length r.0 ≡ length inflight))
        (nameserver_failed id inflight servers)
unfolding nameserver_failed
nameserver_failed-Counted id inflight servers counted =
    Returns-if (not (is_up id servers.ring))
      (λ down.
        let none' : one_if (is_up id servers.ring) ≡ 0 = off (is_up id servers.ring) down in
        returns _ (counted, omega arith, refl))
      λ was_up.
        let is_true : is_up id servers.ring ≡ true = ground arith in
        let change' =
          up_count-change marked_down false id servers.ring (λ s. refl)
            (is_up-present id servers.ring is_true) in
        let one' : one_if (is_up id servers.ring) ≡ 1 = ap one_if is_true in
        let down_counted : servers.good - 1 ≡ up_count (change marked_down id servers.ring) =
          omega arith in
        Returns-if (servers.good == 0)
          (λ zero'. let none_good : servers.good ≡ 0 = ground arith in absurd (omega arith))
          λ some_good.
            Returns-if (servers.good - 1 == 0) (λ last. returns _ (down_counted, omega arith, refl))
              λ others.
                Returns-map (reassign-Counted id inflight _ down_counted)
                  λ r kept. let (counted', same, len) = kept in (counted', omega arith, len)
  where
    off : (b : Bool) → not b ≡ true → one_if b ≡ 0
    off true h = absurd (cc h)
    off false h = refl

nameserver_add-Counted :
    (error : Option ℤ) (address : ℕ) (servers : Servers)
    → Counted servers
    → Counted (nameserver_add error address servers).1
unfolding nameserver_add
nameserver_add-Counted error address servers counted =
    go (present address servers.ring) error (inserted servers.ring)
  where
    new : Nameserver
    new = record { id = address; failed_times = 0; timedout = 0; state = true }

    inserted : (ring : List Nameserver) → up_count (insert new ring) ≡ up_count ring + 1
    inserted [] = refl
    inserted (s ∷ ring) = omega arith

    go :
        (found : Bool) (error' : Option ℤ)
        → up_count (insert new servers.ring) ≡ up_count servers.ring + 1
        → (let result : ℤ × Servers = if found then (pos 3, servers) else elim error' [
          | some err ↦ (err, servers)
          | none ↦ (pos 0, record { ring = insert new servers.ring; good = servers.good + 1 })
        ] in
            Counted result.1)
    go true error' more = counted
    go false (some err) more = counted
    go false none more = omega arith

-- However servers are added, picked, fail and come back, the count is the number of those that are up.
pub Reached-Counted : {servers : Servers} → Reached servers → Counted servers
Reached-Counted no_servers = refl
Reached-Counted (added error address before) =
    nameserver_add-Counted error address _ (Reached-Counted before)
Reached-Counted (picked_one made before) =
    Picked.counted (Returns-value _ made (nameserver_pick-Picked _ (Reached-Counted before)))
Reached-Counted (failed id inflight inflight' made before) =
    (Returns-value _ made (nameserver_failed-Counted id inflight _ (Reached-Counted before))).0
Reached-Counted (came_up id there before) =
    nameserver_up-Counted id _ there (Reached-Counted before)
Reached-Counted (probe_failed id before) =
    nameserver_probe_failed-Counted id _ (Reached-Counted before)
