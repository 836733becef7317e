-- ===== src/Event/Fitted.antt =====
-- The calls of select.c stay inside its sets and tables, for the events that it accepts.
use libevent_1_4_3_stable_le.Base.{
  ℕ, zero, suc, ◌+◌, ◌*◌, ◌/◌, ◌%◌, ◌^◌, ◌≤◌, ◌<◌, ◌≡◌, ◌⊎◌, refl, ltb, lt→leb, ◌==◌, ◌&&◌, ◌||◌,
  not, Bool, true, false, if◌then◌else◌, Option, none, some, arith, inl, inr,
}
use libevent_1_4_3_stable_le.Base.Int.{ℤ, pos, negsuc, minus_one, pos_part, ltb_ℤ, leb_ℤ}
use libevent_1_4_3_stable_le.Base.Run.{
  Run, ok, Returns, returns, Returns-bind, Returns-map, Returns-if, Returns-ok_if, Returns-elim,
  ◌>>=◌,
}
use libevent_1_4_3_stable_le.Event.{Mask, Event}
use libevent_1_4_3_stable_le.Event.Select.{
  Selectop, n_events, cleared, select_resize, widen, needed, reach_fd, within, mark_read,
  mark_write, all_grants, select_add, select_del,
}

-- A descriptor below 2^29 of an event that waits to read or to write. Any descriptor below that will do for an
-- event that waits for a timeout only. No signals.
abbrev pub select_accepts : ℤ → Mask → Bool
select_accepts fd events =
    not events.signal
    && ltb_ℤ fd (pos (2 ^ 29))
    && (leb_ℤ (pos 0) fd || not (events.read || events.write))

-- The highest descriptor has its place in the sets and the tables.
pub record Fits (s : Selectop) : Type 0 where
  pub some_words : 8 ≤ s.event_fdsz
  pub words : s.event_fdsz % 8 ≡ 0
  pub highest : s.event_fds < s.event_fdsz * 8

-- A size that `widen` gives.
record Widened (need fdsz new : ℕ) : Type 0 where
  enough : need ≤ new
  words : new % 8 ≡ 0
  grows : fdsz ≤ new
  bounded : (new < 2 ^ 27) ⊎ (new ≡ fdsz)

abbrev doubled_by : ℕ → ℕ → ℕ
doubled_by zero fdsz = fdsz
doubled_by (suc fuel) fdsz = doubled_by fuel (fdsz * 2)

widen-Widened :
    (fuel need fdsz : ℕ)
    → need ≤ doubled_by fuel fdsz
    → fdsz % 8 ≡ 0
    → need ≤ 2 ^ 26
    → Returns (Widened need fdsz) (widen (suc fuel) need fdsz)
unfolding widen
widen-Widened zero need fdsz h words small =
    Returns-elim (ltb fdsz need) (λ less. absurd (ground arith))
      (λ reached.
        returns fdsz
          (record { enough = h; words = words; grows = omega arith; bounded = inr refl }))
widen-Widened (suc fuel) need fdsz h words small =
    Returns-elim (ltb fdsz need)
      (λ less.
        Returns-elim (ltb (fdsz * 2) (2 ^ 31))
          (λ fine. Returns-map (widen-Widened fuel need (fdsz * 2) h (omega arith) small) λ new w.
            record {
              enough = w.enough;
              words = w.words;
              grows = omega (arith, w.grows);
              bounded = elim w.bounded [ inl small' ↦ inl small' | inr same ↦ inl (ground arith) ];
            })
          (λ large. absurd (ground arith)))
      (λ reached.
        returns fdsz (record {
          enough = ground arith;
          words = words;
          grows = omega arith;
          bounded = inr refl;
        }))

-- Where there is room, the marks are set, and the sizes stay.
abbrev SameSizes : Selectop → Selectop → Type 0
SameSizes s t = (t.event_fds ≡ s.event_fds) × (t.event_fdsz ≡ s.event_fdsz)

-- The descriptor of an event that waits to read or to write is in the sets.
abbrev Placed : Selectop → Bool → ℤ → Type 0
Placed s waits fd = waits ≡ true → (n : ℕ) × (fd ≡ pos n) × (n < s.event_fdsz * 8)

mark_read-SameSizes :
    (waits : Bool) (fd : ℤ) (on : Bool) (e : Option ℕ) (s : Selectop)
    → s.event_fdsz % 8 ≡ 0
    → Placed s waits fd
    → Returns (SameSizes s) (mark_read waits fd on e s)
unfolding mark_read
mark_read-SameSizes false fd on e s words placed = returns s (refl, refl)
mark_read-SameSizes true fd on e s words placed =
    let (n, at, lt) = placed refl in
    rw at (
      Returns-if (within s n) (λ inside. returns _ (refl, refl)) (λ outside. absurd (ground arith)))

mark_write-SameSizes :
    (waits : Bool) (fd : ℤ) (on : Bool) (e : Option ℕ) (s : Selectop)
    → s.event_fdsz % 8 ≡ 0
    → Placed s waits fd
    → Returns (SameSizes s) (mark_write waits fd on e s)
unfolding mark_write
mark_write-SameSizes false fd on e s words placed = returns s (refl, refl)
mark_write-SameSizes true fd on e s words placed =
    let (n, at, lt) = placed refl in
    rw at (
      Returns-if (within s n) (λ inside. returns _ (refl, refl)) (λ outside. absurd (ground arith)))

-- `t` has the tables of `s`, which may have grown.
pub record Kept (s t : Selectop) : Type 0 where
  pub reads : (i : ℕ) → i < s.event_fdsz * 8 → t.event_r_by_fd i ≡ s.event_r_by_fd i
  pub writes : (i : ℕ) → i < s.event_fdsz * 8 → t.event_w_by_fd i ≡ s.event_w_by_fd i
  pub readset : (i : ℕ) → i < s.event_fdsz * 8 → t.event_readset_in i ≡ s.event_readset_in i
  pub writeset : (i : ℕ) → i < s.event_fdsz * 8 → t.event_writeset_in i ≡ s.event_writeset_in i

pub Kept-refl : (s : Selectop) → Kept s s
Kept-refl s = record {
  reads = λ i lt. refl;
  writes = λ i lt. refl;
  readset = λ i lt. refl;
  writeset = λ i lt. refl;
}

-- After a call for a descriptor above the highest, that is the highest, or nothing has changed.
pub reach_fd-Fits :
    (grants : ℕ → ℕ → Bool) (s : Selectop) (fd : ℕ)
    → Fits s
    → s.event_fds < fd
    → fd < 2 ^ 29
    → Returns
        (λ (r, t).
          Fits t × ((r ≡ pos 0) × (t.event_fds ≡ fd) × Kept s t ⊎ (r ≡ minus_one) × (t ≡ s)))
        (reach_fd grants s fd)
unfolding reach_fd needed select_resize
reach_fd-Fits grants s fd f above small =
    let some_words = f.some_words in
    let start : (if ltb s.event_fdsz 8 then 8 else s.event_fdsz) ≡ s.event_fdsz = ground arith in
    let fine : ltb (fd + 64) (2 ^ 31) ≡ true = ground arith in
    rw (fine, start)
      (Returns-bind
        (widen-Widened 31 ((fd + 64) / 64 * 8) s.event_fdsz (omega arith) f.words (omega arith))
        λ fdsz w.
          let placed : fd < fdsz * 8 = omega (arith, w.enough) in
          Returns-bind (resized fdsz w.words w.bounded w.grows placed) λ (r, t) cases. elim cases [
            | inl (at, size, kept) ↦ rw at (
                returns _ (
                  record {
                    some_words = rw size (omega (arith, w.grows));
                    words = rw size w.words;
                    highest = rw size placed;
                  },
                  inl (refl, refl, as_kept t kept),
                ))
            | inr (at, same) ↦ rw at (returns _ (rw same f, inr (refl, same)))
          ])
  where
    as_kept : (t : Selectop) → Kept s t → Kept s (record t { event_fds = fd })
    as_kept t k = record {
      reads = k.reads;
      writes = k.writes;
      readset = k.readset;
      writeset = k.writeset;
    }

    table : n_events s.event_fdsz ≡ s.event_fdsz * 8
    table = omega (arith, f.words)

    cleared_kept :
        {A : Type 0} (from to i : ℕ) (a : A) (g : ℕ → A) → i < from → cleared from to a g i ≡ g i
    cleared_kept from to i a g lt = rw (lt→leb from i lt) refl

    resized :
        (fdsz : ℕ)
        → fdsz % 8 ≡ 0
        → (fdsz < 2 ^ 27) ⊎ (fdsz ≡ s.event_fdsz)
        → s.event_fdsz ≤ fdsz
        → fd < fdsz * 8
        → Returns
            (λ (r, t).
              ((r ≡ pos 0) × (t.event_fdsz ≡ fdsz) × Kept s t) ⊎ ((r ≡ minus_one) × (t ≡ s)))
            (if fdsz == s.event_fdsz then ok (pos 0, s) else select_resize grants s fdsz)
    resized fdsz words bounded grows placed =
        Returns-if (fdsz == s.event_fdsz)
          (λ same. returns _ (inl (refl, ground arith, Kept-refl s)))
          (λ ne.
            Returns-if (ltb (n_events fdsz) (2 ^ 31))
              (λ int.
                Returns-ok_if _ _ (all_grants grants fdsz)
                  (λ granted. inl (
                    refl,
                    refl,
                    record {
                      reads = λ i lt. cleared_kept _ _ i none s.event_r_by_fd (rw table lt);
                      writes = λ i lt. cleared_kept _ _ i none s.event_w_by_fd (rw table lt);
                      readset = λ i lt. cleared_kept _ _ i false s.event_readset_in lt;
                      writeset = λ i lt. cleared_kept _ _ i false s.event_writeset_in lt;
                    },
                  ))
                  (λ refused. inr (refl, refl)))
              (λ large. absurd (ground arith)))

abbrev pub is_pos : ℤ → Bool
is_pos (pos n) = true
is_pos (negsuc n) = false

pub by_sign :
    {A : Type 0} {P : A → Type 0} {on_pos on_neg : Run A} (r : ℤ)
    → (is_pos r ≡ true → Returns P on_pos)
    → Returns P on_neg
    → Returns P (elim r [ pos _ ↦ on_pos | negsuc _ ↦ on_neg ])
by_sign (pos n) up down = up refl
by_sign (negsuc n) up down = down

Fits-same : (s t : Selectop) → SameSizes s t → Fits s → Fits t
Fits-same s t (fds, fdsz) f = record {
  some_words = rw fdsz f.some_words;
  words = rw fdsz f.words;
  highest = rw (fds, fdsz) f.highest;
}

-- Both marks.
marks-Fits :
    (read write : Bool) (fd : ℤ) (on : Bool) (e : Option ℕ) (s : Selectop)
    → Fits s
    → Placed s (read || write) fd
    → Returns
        (λ (r, t). Fits t)
        (mark_read read fd on e s >>= λ t. mark_write write fd on e t >>= λ t'. ok (pos 0, t'))
marks-Fits read write fd on e s f placed =
    Returns-bind (mark_read-SameSizes read fd on e s f.words λ reads. placed (ground arith))
      λ t same.
        let f' = Fits-same s t same f in
        Returns-bind
          (mark_write-SameSizes write fd on e t f'.words
            λ writes. rw (same.1) (placed (ground arith)))
          λ t' same'. returns _ (Fits-same t t' same' f')

-- For an event that is accepted, the calls return.
pub select_add-Fits :
    (grants : ℕ → ℕ → Bool) (s : Selectop) (e : ℕ) (v : Event)
    → Fits s
    → select_accepts v.ev_fd v.ev_events ≡ true
    → Returns (λ (r, t). Fits t) (select_add grants s e v)
unfolding select_add
select_add-Fits grants s e v f known = Returns-bind reached λ (r, t) (f', place).
    by_sign r
      (λ up.
        marks-Fits v.ev_events.read v.ev_events.write v.ev_fd true (some e) t f'
          λ waits. place up waits)
      (returns _ f')
  where
    InPlace : ℤ × Selectop → Type 0
    InPlace (r, t) =
        Fits t × (is_pos r ≡ true → Placed t (v.ev_events.read || v.ev_events.write) v.ev_fd)

    reached : Returns InPlace (
        if ltb_ℤ (pos s.event_fds) v.ev_fd
        then reach_fd grants s (pos_part v.ev_fd)
        else ok (pos 0, s))
    reached =
        Returns-if (ltb_ℤ (pos s.event_fds) v.ev_fd)
          (λ above.
            Returns-map (reach_fd-Fits grants s (pos_part v.ev_fd) f (ground arith) (ground arith))
              λ (r, t) (f', cases).
                (f', λ up waits. (pos_part v.ev_fd, ground arith, ground (arith, f'.highest))))
          (λ low.
            returns _ (f, λ up waits. (pos_part v.ev_fd, ground arith, ground (arith, f.highest))))

pub select_del-Fits :
    (s : Selectop) (v : Event)
    → Fits s
    → select_accepts v.ev_fd v.ev_events ≡ true
    → Returns (λ (r, t). Fits t) (select_del s v)
unfolding select_del
select_del-Fits s v f known =
    Returns-if (ltb_ℤ (pos s.event_fds) v.ev_fd) (λ above. returns _ f)
      (λ low.
        marks-Fits v.ev_events.read v.ev_events.write v.ev_fd false none s f
          λ waits. (pos_part v.ev_fd, ground (arith, f.highest), ground (arith, f.highest)))
