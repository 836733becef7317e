-- ===== src/Event/Registering.antt =====
-- `select_add` puts the event into the tables at its descriptor, and leaves the other descriptors as they were.
use libevent_1_4_3_stable_le.Base.{
  ℕ, ◌*◌, ◌<◌, ◌≡◌, ◌≢◌, ◌⊎◌, ◌==◌, Bool, true, false, if◌then◌else◌, some,
}
use libevent_1_4_3_stable_le.Base.Int.{ℤ, pos, minus_one}
use libevent_1_4_3_stable_le.Event.{Mask, Event}
use libevent_1_4_3_stable_le.Event.Select.{Selectop}
use libevent_1_4_3_stable_le.Event.Fitted.{Fits, Kept}

-- The tables of `t`, where those of `s` have the event `e` with the mask `events` at the descriptor `n`.
pub record Registered (s : Selectop) (e n : ℕ) (events : Mask) (t : Selectop) : Type 0 where
  pub fits : Fits t
  pub reach : n < t.event_fdsz * 8
  pub reads : events.read ≡ true → (t.event_r_by_fd n ≡ some e) × (t.event_readset_in n ≡ true)
  pub writes : events.write ≡ true → (t.event_w_by_fd n ≡ some e) × (t.event_writeset_in n ≡ true)
  pub others :
      (i : ℕ)
      → i ≢ n
      → i < s.event_fdsz * 8
      → (t.event_r_by_fd i ≡ s.event_r_by_fd i)
        × (t.event_w_by_fd i ≡ s.event_w_by_fd i)
        × (t.event_readset_in i ≡ s.event_readset_in i)
        × (t.event_writeset_in i ≡ s.event_writeset_in i)

-- What the two marks leave.
abbrev read_marked : Bool → ℕ → ℕ → Selectop → Selectop
read_marked false n e s = s
read_marked true n e s = record s {
  event_readset_in = λ i. if i == n then true else s.event_readset_in i;
  event_r_by_fd = λ i. if i == n then some e else s.event_r_by_fd i;
}

abbrev write_marked : Bool → ℕ → ℕ → Selectop → Selectop
write_marked false n e s = s
write_marked true n e s = record s {
  event_writeset_in = λ i. if i == n then true else s.event_writeset_in i;
  event_w_by_fd = λ i. if i == n then some e else s.event_w_by_fd i;
}

-- Where the descriptor is in the tables, or has come to be in them.
InPlace : Selectop → ℕ → ℤ × Selectop → Type 0
InPlace s n (r, t) =
    ((r ≡ minus_one) × (t ≡ s)) ⊎ ((r ≡ pos 0) × Fits t × Kept s t × (n < t.event_fdsz * 8))
