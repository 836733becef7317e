-- ===== src/Dns/Servers.antt =====
-- evdns.c: the nameservers, which of them is asked next, and which are taken to be up.
use libevent_1_4_3_stable_le.Base.{
  ℕ, zero, suc, ◌+◌, ◌-◌, ◌≡◌, List, [], ◌∷◌, ◌++◌, length, ◌==◌, ◌&&◌, not, Bool, true, false,
  if◌then◌else◌, Option, none, some,
}
use libevent_1_4_3_stable_le.Base.Int.{ℤ, pos}
use libevent_1_4_3_stable_le.Base.Run.{Run, ok, exits, ◌>>=◌}

-- `struct nameserver`; no two have the same address, which names them here.
pub record Nameserver : Type 0 where
  pub id : ℕ
  pub failed_times : ℕ
  pub timedout : ℕ
  pub state : Bool

-- The circular list from `server_head` on, and `global_good_nameservers`.
pub record Servers : Type 0 where
  pub ring : List Nameserver
  pub good : ℕ

-- What moving a request to another server reads and writes of `struct request`.
pub record Sent : Type 0 where
  pub ns : Option ℕ
  pub tx_count : ℕ
  pub reissue_count : ℕ
  pub transmit_me : Bool

-- `server_head = server_head->next`
abbrev pub rotate : List Nameserver → List Nameserver
rotate [] = []
rotate (s ∷ ring) = ring ++ (s ∷ [])

abbrev pub head_id : List Nameserver → Option ℕ
head_id [] = none
head_id (s ∷ ring) = some s.id

-- Equal pointers to servers, of which one may be NULL.
abbrev pub same_server : Option ℕ → Option ℕ → Bool
same_server none none = true
same_server none (some b) = false
same_server (some a) none = false
same_server (some a) (some b) = a == b

-- The `for` loop of `nameserver_pick`: after `left` more steps `server_head` is `started_at` again.
unfoldable pub pick_loop : ℕ → ℕ → List Nameserver → Run (Option ℕ × List Nameserver)
pick_loop good left [] = ok (none, [])
pick_loop good zero (s ∷ ring) = if good == 0 then ok (some s.id, ring ++ (s ∷ [])) else exits
pick_loop good (suc left) (s ∷ ring) =
    let later = pick_loop good left (ring ++ (s ∷ [])) in
    if s.state then ok (some s.id, ring ++ (s ∷ [])) else later

unfoldable pub nameserver_pick : Servers → Run (Option ℕ × Servers)
unfolding pick_loop
nameserver_pick servers =
    let search : Run (Option ℕ × Servers) = do
      (picked, ring) ← pick_loop servers.good (length servers.ring) servers.ring
      ok (picked, record servers { ring = ring })
    in let turned = rotate servers.ring in
      if servers.good == 0 then ok (head_id turned, record servers { ring = turned }) else search

-- A change of one server, where it stands in the list.
unfoldable pub change : (Nameserver → Nameserver) → ℕ → List Nameserver → List Nameserver
change f id [] = []
change f id (s ∷ ring) =
    let later = change f id ring in if s.id == id then f s ∷ ring else s ∷ later

unfoldable pub is_up : ℕ → List Nameserver → Bool
is_up id [] = false
is_up id (s ∷ ring) = let later = is_up id ring in if s.id == id then s.state else later

abbrev pub marked_down : Nameserver → Nameserver
marked_down s = record s { state = false; failed_times = 1 }

abbrev pub marked_up : Nameserver → Nameserver
marked_up s = record s { state = true; failed_times = 0; timedout = 0 }

abbrev pub tried_again : Nameserver → Nameserver
tried_again s = record s { failed_times = s.failed_times + 1 }

-- The requests in flight that have not gone out move from the server to others.
unfoldable pub reassign : ℕ → List Sent → Servers → Run (List Sent × Servers)
unfolding nameserver_pick
reassign id [] servers = ok ([], servers)
reassign id (req ∷ inflight) servers = do
  (picked, servers') ←
      if req.tx_count == 0 && same_server req.ns (some id)
      then nameserver_pick servers
      else ok (req.ns, servers)
  (rest, last) ← reassign id inflight servers'
  ok (record req { ns = picked } ∷ rest, last)

-- `nameserver_failed`, without the timer of the next probe.
unfoldable pub nameserver_failed : ℕ → List Sent → Servers → Run (List Sent × Servers)
unfolding reassign change is_up
nameserver_failed id inflight servers =
    let down : Servers = record {
      ring = change marked_down id servers.ring;
      good = servers.good - 1;
    } in
    let moved = reassign id inflight down in
    if not (is_up id servers.ring)
    then ok (inflight, servers)
    else if servers.good == 0
    then exits
    else if down.good == 0
    then ok (inflight, down)
    else moved

unfoldable pub nameserver_up : ℕ → Servers → Servers
unfolding change is_up
nameserver_up id servers =
    if is_up id servers.ring
    then servers
    else record { ring = change marked_up id servers.ring; good = servers.good + 1 }

-- `nameserver_probe_failed`, without the timer of the next probe.
unfoldable pub nameserver_probe_failed : ℕ → Servers → Servers
unfolding change is_up
nameserver_probe_failed id servers =
    if is_up id servers.ring
    then servers
    else record servers { ring = change tried_again id servers.ring }

-- True where reissuing is pointless.
unfoldable pub request_reissue : Sent → Servers → Run (Bool × Sent × Servers)
unfolding nameserver_pick
request_reissue req servers = do
  (picked, servers') ← nameserver_pick servers
  let moved : Sent = record req { ns = picked }
  let again : Sent = record moved {
    reissue_count = req.reissue_count + 1;
    tx_count = 0;
    transmit_me = true;
  }
  ok (if same_server picked req.ns then (true, moved, servers') else (false, again, servers'))

-- The server stands in the list.
unfoldable pub present : ℕ → List Nameserver → Bool
present id [] = false
present id (s ∷ ring) = let later = present id ring in if s.id == id then true else later

-- Behind `server_head`.
abbrev pub insert : Nameserver → List Nameserver → List Nameserver
insert new [] = new ∷ []
insert new (s ∷ ring) = s ∷ new ∷ ring

-- `_evdns_nameserver_add_impl`, where `error` is how its calls of the system fail, if one does.
unfoldable pub nameserver_add : Option ℤ → ℕ → Servers → ℤ × Servers
unfolding present
nameserver_add error address servers =
    let new : Nameserver = record { id = address; failed_times = 0; timedout = 0; state = true } in
    let added : Servers = record { ring = insert new servers.ring; good = servers.good + 1 } in
    if present address servers.ring
    then (pos 3, servers)
    else elim error [ some err ↦ (err, servers) | none ↦ (pos 0, added) ]

-- What the resolver's callbacks do to the servers, from none on.
pub data Reached : Servers → Type 0 where
  no_servers : Reached (record { ring = []; good = 0 })
  added :
      {servers : Servers} (error : Option ℤ) (address : ℕ)
      → Reached servers
      → Reached (nameserver_add error address servers).1
  picked_one :
      {servers servers' : Servers} {picked : Option ℕ}
      → nameserver_pick servers ≡ ok (picked, servers')
      → Reached servers
      → Reached servers'
  failed :
      {servers servers' : Servers} (id : ℕ) (inflight inflight' : List Sent)
      → nameserver_failed id inflight servers ≡ ok (inflight', servers')
      → Reached servers
      → Reached servers'
  came_up :
      {servers : Servers} (id : ℕ)
      → present id servers.ring ≡ true
      → Reached servers
      → Reached (nameserver_up id servers)
  probe_failed :
      {servers : Servers} (id : ℕ) → Reached servers → Reached (nameserver_probe_failed id servers)
