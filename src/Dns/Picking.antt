-- ===== src/Dns/Picking.antt =====
-- The count of good nameservers is the number of those that are up, and the choice of a server uses it rightly.
use libevent_1_4_3_stable_le.Base.{
  ℕ, zero, suc, ◌+◌, ◌<◌, ◌≡◌, ◌≢◌, refl, sym, ap, ◌∙◌, List, [], ◌∷◌, ◌++◌, length, length-append,
  arith, ◌==◌, Bool, true, false, Option, none, some,
}
use mathlib.Core.Path.{subst}
use mathlib.Core.List.Memᴰ
use mathlib.Core.List.{Memᴰ, append_assoc, append-nil}
use libevent_1_4_3_stable_le.Base.Run.{Returns, returns, Returns-map, Returns-bind, Returns-if}
use libevent_1_4_3_stable_le.Dns.Servers.{
  Nameserver, Servers, rotate, head_id, pick_loop, nameserver_pick,
}

abbrev pub one_if : Bool → ℕ
one_if true = 1
one_if false = 0

abbrev pub up_count : List Nameserver → ℕ
up_count [] = 0
up_count (s ∷ ring) = one_if s.state + up_count ring

up_count-append : (a b : List Nameserver) → up_count (a ++ b) ≡ up_count a + up_count b
up_count-append [] b = omega arith
up_count-append (s ∷ a) b = let rest = up_count-append a b in omega arith

-- `global_good_nameservers` is the number of servers that are up.
abbrev pub Counted : Servers → Type 0
Counted servers = servers.good ≡ up_count servers.ring

up_count-turned :
    (ring : List Nameserver) (s : Nameserver) → up_count (ring ++ (s ∷ [])) ≡ up_count (s ∷ ring)
up_count-turned ring s = let split = up_count-append ring (s ∷ []) in omega arith

length-turned :
    (ring : List Nameserver) (s : Nameserver) → length (ring ++ (s ∷ [])) ≡ suc (length ring)
length-turned ring s = let split = length-append ring (s ∷ []) in omega arith

turned_head : (ring : List Nameserver) (s : Nameserver) → head_id (ring ++ (s ∷ [])) ≢ none
turned_head [] s h = cc h
turned_head (t ∷ ring) s h = cc h

-- What is picked is in the list, and up where one is; the list is only turned.
pub record Picked (servers : Servers) (r : Option ℕ × Servers) : Type 0 where
  pub counted : Counted r.1
  pub same : r.1.good ≡ servers.good
  pub length_same : length r.1.ring ≡ length servers.ring
  pub up :
      0 < servers.good → (s : Nameserver) × (r.0 ≡ some s.id) × (s.state ≡ true) × Memᴰ s r.1.ring
  pub some_server : 0 < length servers.ring → r.0 ≢ none

abbrev FoundUp : ℕ → ℕ → Option ℕ × List Nameserver → Type 0
FoundUp good n r =
    (up_count r.1 ≡ good)
    × (length r.1 ≡ n)
    × ((s : Nameserver) × (r.0 ≡ some s.id) × (s.state ≡ true) × Memᴰ s r.1)

-- `left` servers are yet to be looked at, and all that are up are among them.
pick_loop-Picked :
    (good left : ℕ) (looked unseen : List Nameserver)
    → length unseen ≡ left
    → up_count looked ≡ 0
    → good ≡ up_count unseen
    → 0 < good
    → Returns
        (FoundUp good (length unseen + length looked))
        (pick_loop good left (unseen ++ looked))
unfolding pick_loop
pick_loop-Picked good left looked [] is_left none_up counted some' = absurd (omega arith)
pick_loop-Picked good zero looked (s ∷ unseen) is_left none_up counted some' = absurd (omega arith)
pick_loop-Picked good (suc left) looked (s ∷ unseen) is_left none_up counted some' =
    let turned = up_count-turned (unseen ++ looked) s in
    let size = length-turned (unseen ++ looked) s in
    let both = up_count-append unseen looked in
    let lengths = length-append unseen looked in
    Returns-if s.state
      (λ up. returns _ (
        omega arith,
        omega arith,
        (s, refl, up, Memᴰ.append_right (unseen ++ looked) (Memᴰ.head refl)),
      ))
      λ down.
        let count : one_if s.state ≡ 0 = ap one_if down in
        let looked' : List Nameserver = looked ++ (s ∷ []) in
        let more = up_count-turned looked s in
        let longer = length-turned looked s in
        rw (append_assoc unseen looked (s ∷ [])) (
          Returns-map
            (pick_loop-Picked good left looked' unseen (omega arith) (omega arith) (omega arith)
              some')
            (λ r picked. let (counted', len, found) = picked in (counted', omega arith, found)))

pick_all :
    (good : ℕ) (ring : List Nameserver)
    → good ≡ up_count ring
    → 0 < good
    → Returns (FoundUp good (length ring + 0)) (pick_loop good (length ring) ring)
pick_all good ring counted some' =
    subst
      (λ (l : List Nameserver).
        Returns (FoundUp good (length ring + 0)) (pick_loop good (length ring) l))
      (append-nil ring) (pick_loop-Picked good (length ring) [] ring refl refl counted some')

-- With the count right, a server is picked that is up, if one is; if none is, another one than the last; and the count
-- stays right.
pub nameserver_pick-Picked :
    (servers : Servers) → Counted servers → Returns (Picked servers) (nameserver_pick servers)
unfolding nameserver_pick
nameserver_pick-Picked servers counted =
    Returns-if (servers.good == 0)
      (λ none_good. returns _ (turn servers.ring counted (ground arith)))
      λ some_good.
        Returns-bind (pick_all servers.good servers.ring counted (ground arith)) λ r picked.
          let (counted', len, (s, is, up', there)) = picked in
          returns _ record {
            counted = sym counted';
            same = refl;
            length_same = omega arith;
            up = λ some'. (s, is, up', there);
            some_server = λ some' is_none. cc (is, is_none);
          }
  where
    turn :
        (ring : List Nameserver)
        → servers.good ≡ up_count ring
        → servers.good ≡ 0
        → Picked
            (record servers { ring = ring })
            (head_id (rotate ring), record servers { ring = rotate ring })
    turn [] counted' zero' = record {
      counted = counted';
      same = refl;
      length_same = refl;
      up = λ some'. absurd (omega arith);
      some_server = λ some'. absurd (omega arith);
    }
    turn (s ∷ ring) counted' zero' = record {
      counted = counted' ∙ sym (up_count-turned ring s);
      same = refl;
      length_same = length-turned ring s;
      up = λ some'. absurd (omega arith);
      some_server = λ some'. turned_head ring s;
    }
