-- ===== src/Event/Select.antt =====
-- select.c: the kernel interface that waits with select(2). `add` and `del` are modelled for events that wait
-- for a descriptor: what the interface does for a signal, in signal.c, and its wait are those of `others`.
use libevent_1_4_3_stable_le.Base.{
  ℕ, zero, suc, ◌+◌, ◌*◌, ◌/◌, ◌^◌, ltb, leb, ◌==◌, ◌&&◌, Bool, true, false, if◌then◌else◌, Option,
  none, some,
}
use libevent_1_4_3_stable_le.Base.Int.{ℤ, pos, negsuc, minus_one, pos_part, ltb_ℤ}
use libevent_1_4_3_stable_le.Base.Run.{Run, ok, fault, diverges, ◌>>=◌}
use libevent_1_4_3_stable_le.Event.{Event}

-- The sets that select(2) writes are left out. The size is that of the sets, in bytes; each table has a pointer
-- for every bit.
pub record Selectop : Type 0 where
  pub event_fds : ℕ
  pub event_fdsz : ℕ
  pub event_readset_in : ℕ → Bool
  pub event_writeset_in : ℕ → Bool
  pub event_r_by_fd : ℕ → Option ℕ
  pub event_w_by_fd : ℕ → Option ℕ

-- The pointers of the tables, for sets of that size: NFDBITS for each of their words.
abbrev pub n_events : ℕ → ℕ
n_events fdsz = fdsz / 8 * 64

-- `memset` from one index on, up to another.
abbrev pub cleared {ℓ} : {A : Type ℓ} → ℕ → ℕ → A → (ℕ → A) → ℕ → A
cleared from to a f i = if leb from i && ltb i to then a else f i

-- `grants k len` says whether the call number `k` of `realloc` is granted `len` bytes.
abbrev pub all_grants : (ℕ → ℕ → Bool) → ℕ → Bool
all_grants grants fdsz =
    grants 0 fdsz
    && grants 1 fdsz
    && grants 2 fdsz
    && grants 3 fdsz
    && grants 4 (n_events fdsz * 8)
    && grants 5 (n_events fdsz * 8)

-- A block that was moved before another was refused keeps what it held. The number of pointers is an `int`.
unfoldable pub select_resize : (ℕ → ℕ → Bool) → Selectop → ℕ → Run (ℤ × Selectop)
select_resize grants s fdsz =
    let old = n_events s.event_fdsz in
    let larger : Selectop = record s {
      event_readset_in = cleared (s.event_fdsz * 8) (fdsz * 8) false s.event_readset_in;
      event_writeset_in = cleared (s.event_fdsz * 8) (fdsz * 8) false s.event_writeset_in;
      event_r_by_fd = cleared old (n_events fdsz) none s.event_r_by_fd;
      event_w_by_fd = cleared old (n_events fdsz) none s.event_w_by_fd;
      event_fdsz = fdsz;
    } in
    if ltb (n_events fdsz) (2 ^ 31)
    then ok (if all_grants grants fdsz then (pos 0, larger) else (minus_one, s))
    else fault

-- `fdsz *= 2` until the set has `need` bytes. The size is an `int`.
unfoldable pub widen : ℕ → ℕ → ℕ → Run ℕ
widen zero need fdsz = diverges
widen (suc fuel) need fdsz = elim (ltb fdsz need) [
  | false ↦ ok fdsz
  | true ↦ elim (ltb (fdsz * 2) (2 ^ 31)) [ true ↦ widen fuel need (fdsz * 2) | false ↦ fault ]
]

-- `howmany(ev->ev_fd + 1, NFDBITS) * sizeof(fd_mask)`, where the sum is an `int`
unfoldable pub needed : ℕ → Run ℕ
needed fd = if ltb (fd + 64) (2 ^ 31) then ok ((fd + 64) / 64 * 8) else fault

-- What `select_add` does for a descriptor above `event_fds`.
unfoldable pub reach_fd : (ℕ → ℕ → Bool) → Selectop → ℕ → Run (ℤ × Selectop)
unfolding select_resize
reach_fd grants s fd = do
  need ← needed fd
  fdsz ← widen 32 need (if ltb s.event_fdsz 8 then 8 else s.event_fdsz)
  (r, t) ← (if fdsz == s.event_fdsz then ok (pos 0, s) else select_resize grants s fdsz)
  ok (elim r [ pos _ ↦ (pos 0, record t { event_fds = fd }) | negsuc _ ↦ (minus_one, t) ])

-- The descriptor has a bit in the sets and a pointer in the tables.
abbrev pub within : Selectop → ℕ → Bool
within s n = ltb n (s.event_fdsz * 8) && ltb n (n_events s.event_fdsz)

-- `FD_SET` or `FD_CLR` and the table's pointer, for an event that waits to read.
unfoldable pub mark_read : Bool → ℤ → Bool → Option ℕ → Selectop → Run Selectop
mark_read false fd on e s = ok s
mark_read true (negsuc n) on e s = fault
mark_read true (pos n) on e s =
    if within s n
    then ok (record s {
      event_readset_in = λ i. if i == n then on else s.event_readset_in i;
      event_r_by_fd = λ i. if i == n then e else s.event_r_by_fd i;
    })
    else fault

-- The same for one that waits to write.
unfoldable pub mark_write : Bool → ℤ → Bool → Option ℕ → Selectop → Run Selectop
mark_write false fd on e s = ok s
mark_write true (negsuc n) on e s = fault
mark_write true (pos n) on e s =
    if within s n
    then ok (record s {
      event_writeset_in = λ i. if i == n then on else s.event_writeset_in i;
      event_w_by_fd = λ i. if i == n then e else s.event_w_by_fd i;
    })
    else fault

-- `select_add`, behind the test for a signal.
unfoldable pub select_add : (ℕ → ℕ → Bool) → Selectop → ℕ → Event → Run (ℤ × Selectop)
select_add grants s e v = do
  (r, t) ←
      (if ltb_ℤ (pos s.event_fds) v.ev_fd
        then reach_fd grants s (pos_part v.ev_fd)
        else ok (pos 0, s))
  let marked : Run (ℤ × Selectop) = do
    t' ← mark_read v.ev_events.read v.ev_fd true (some e) t
    t'' ← mark_write v.ev_events.write v.ev_fd true (some e) t'
    ok (pos 0, t'')
  elim r [ pos _ ↦ marked | negsuc _ ↦ ok (minus_one, t) ]

-- `select_del`, behind the test for a signal.
unfoldable pub select_del : Selectop → Event → Run (ℤ × Selectop)
select_del s v =
    let marked : Run (ℤ × Selectop) = do
      t ← mark_read v.ev_events.read v.ev_fd false none s
      t' ← mark_write v.ev_events.write v.ev_fd false none t
      ok (pos 0, t')
    in if ltb_ℤ (pos s.event_fds) v.ev_fd then ok (pos 0, s) else marked
