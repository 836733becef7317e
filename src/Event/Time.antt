-- ===== src/Event/Time.antt =====
-- `struct timeval` and the macros of evutil.h on it. The seconds are unbounded: their sums are those of a
-- `time_t` as long as that does not overflow.
use libevent_1_4_3_stable_le.Base.{
  ℕ, ◌+◌, ◌*◌, ◌≤◌, ◌≡◌, Bool, Bool-cases, inl, inr, true, false, ◌&&◌, if◌then◌else◌, arith,
}
use libevent_1_4_3_stable_le.Base.Int.{
  ℤ, pos, ◌+ℤ◌, ◌-ℤ◌, ◌≤ℤ◌, ◌<ℤ◌, ltb_ℤ, leb_ℤ, eqb_ℤ, pos_part, neg_part, +ℤ_parts, -ℤ_parts,
  eq_of_parts,
}
use libevent_1_4_3_stable_le.MinHeap.Order.{IsOrder}

pub record Timeval : Type 0 where
  pub tv_sec : ℤ
  pub tv_usec : ℤ

abbrev pub million : ℤ
million = pos 1000000

unfoldable pub timeradd : Timeval → Timeval → Timeval
timeradd t u =
    let sec = t.tv_sec +ℤ u.tv_sec in
    let usec = t.tv_usec +ℤ u.tv_usec in
    if leb_ℤ million usec
    then record { tv_sec = sec +ℤ pos 1; tv_usec = usec -ℤ million }
    else record { tv_sec = sec; tv_usec = usec }

unfoldable pub timersub : Timeval → Timeval → Timeval
timersub t u =
    let sec = t.tv_sec -ℤ u.tv_sec in
    let usec = t.tv_usec -ℤ u.tv_usec in
    if ltb_ℤ usec (pos 0)
    then record { tv_sec = sec -ℤ pos 1; tv_usec = usec +ℤ million }
    else record { tv_sec = sec; tv_usec = usec }

-- `timercmp(t, u, <)`; `>`, `<=` and `>=` are `time_lt u t`, `time_le t u` and `time_le u t`.
unfoldable pub time_lt : Timeval → Timeval → Bool
time_lt t u = if eqb_ℤ t.tv_sec u.tv_sec then ltb_ℤ t.tv_usec u.tv_usec else ltb_ℤ t.tv_sec u.tv_sec

unfoldable pub time_le : Timeval → Timeval → Bool
time_le t u = if eqb_ℤ t.tv_sec u.tv_sec then leb_ℤ t.tv_usec u.tv_usec else leb_ℤ t.tv_sec u.tv_sec

abbrev pub zero_time : Timeval
zero_time = record { tv_sec = pos 0; tv_usec = pos 0 }

-- The microseconds are a fraction of a second.
pub record IsNormal (t : Timeval) : Type 0 where
  pub low : pos 0 ≤ℤ t.tv_usec
  pub high : t.tv_usec <ℤ million

time_asym : (t u : Timeval) → time_lt t u ≡ true → time_lt u t ≡ false
unfolding time_lt
time_asym t u h = ground arith

pub time_trans : (t u v : Timeval) → time_lt u t ≡ false → time_lt v u ≡ false → time_lt v t ≡ false
unfolding time_lt
time_trans t u v h k = ground arith

-- The order in which the timer heap keeps the events of these timeouts: `greater x y`.
pub time-IsOrder : (f : ℕ → Timeval) → IsOrder (λ x y. time_lt (f y) (f x))
time-IsOrder f = record {
  asym = λ x y h. time_asym (f y) (f x) h;
  trans = λ x y z h k. time_trans (f x) (f y) (f z) h k;
}

pub time_le-eq-not-lt : (t u : Timeval) → time_le t u ≡ (if time_lt u t then false else true)
unfolding time_lt time_le
time_le-eq-not-lt t u = ground arith

pub timeradd-IsNormal : (t u : Timeval) → IsNormal t → IsNormal u → IsNormal (timeradd t u)
unfolding timeradd
timeradd-IsNormal t u n m =
    ground (arith, +ℤ_parts t.tv_usec u.tv_usec, -ℤ_parts (t.tv_usec +ℤ u.tv_usec) million)

pub timersub-IsNormal : (t u : Timeval) → IsNormal t → IsNormal u → IsNormal (timersub t u)
unfolding timersub
timersub-IsNormal t u n m =
    ground (arith, -ℤ_parts t.tv_usec u.tv_usec, +ℤ_parts (t.tv_usec -ℤ u.tv_usec) million)

-- The difference, where `s` seconds are borrowed.
record Difference (t off r : Timeval) (s : ℕ) : Type 0 where
  few : s ≤ 1
  seconds :
      pos_part r.tv_sec + neg_part t.tv_sec + pos_part off.tv_sec + s
      ≡ neg_part r.tv_sec + pos_part t.tv_sec + neg_part off.tv_sec
  micros :
      pos_part r.tv_usec + neg_part t.tv_usec + pos_part off.tv_usec
      ≡ neg_part r.tv_usec + pos_part t.tv_usec + neg_part off.tv_usec + s * 1000000
  normal : IsNormal r

timersub-Difference :
    (t off : Timeval) → IsNormal t → IsNormal off → (s : ℕ) × Difference t off (timersub t off) s
unfolding timersub
timersub-Difference t off n o = elim (Bool-cases (ltb_ℤ (t.tv_usec -ℤ off.tv_usec) (pos 0))) [
  | inl borrow ↦ rw borrow (
    1,
    ground (
      arith,
      -ℤ_parts t.tv_usec off.tv_usec,
      +ℤ_parts (t.tv_usec -ℤ off.tv_usec) million,
      -ℤ_parts t.tv_sec off.tv_sec,
      -ℤ_parts (t.tv_sec -ℤ off.tv_sec) (pos 1),
    ),
  )
  | inr plain ↦
      rw plain (0, ground (arith, -ℤ_parts t.tv_usec off.tv_usec, -ℤ_parts t.tv_sec off.tv_sec))
]

-- Taking the same time off two others keeps their order.
pub time_lt-timersub :
    (t u off : Timeval)
    → IsNormal t
    → IsNormal u
    → IsNormal off
    → time_lt (timersub t off) (timersub u off) ≡ time_lt t u
unfolding time_lt
time_lt-timersub t u off n m o =
    let (a, d) = timersub-Difference t off n o in
    let (b, e) = timersub-Difference u off m o in ground arith

-- The sum, where `s` seconds are carried.
record Sum (t u r : Timeval) (s : ℕ) : Type 0 where
  few : s ≤ 1
  seconds :
      pos_part r.tv_sec + neg_part t.tv_sec + neg_part u.tv_sec
      ≡ neg_part r.tv_sec + pos_part t.tv_sec + pos_part u.tv_sec + s
  micros :
      pos_part r.tv_usec + neg_part t.tv_usec + neg_part u.tv_usec + s * 1000000
      ≡ neg_part r.tv_usec + pos_part t.tv_usec + pos_part u.tv_usec

timeradd-Sum : (t u : Timeval) → (s : ℕ) × Sum t u (timeradd t u) s
unfolding timeradd
timeradd-Sum t u = elim (Bool-cases (leb_ℤ million (t.tv_usec +ℤ u.tv_usec))) [
  | inl carry ↦ rw carry (
    1,
    ground (
      arith,
      +ℤ_parts t.tv_usec u.tv_usec,
      -ℤ_parts (t.tv_usec +ℤ u.tv_usec) million,
      +ℤ_parts t.tv_sec u.tv_sec,
      +ℤ_parts (t.tv_sec +ℤ u.tv_sec) (pos 1),
    ),
  )
  | inr plain ↦
      rw plain (0, ground (arith, +ℤ_parts t.tv_usec u.tv_usec, +ℤ_parts t.tv_sec u.tv_sec))
]

time_ext : (t u : Timeval) → t.tv_sec ≡ u.tv_sec → t.tv_usec ≡ u.tv_usec → t ≡ u
time_ext t u e f = ground arith

-- Taking off what was added gives the time back, when the microseconds of both are fractions of a second.
pub timersub-timeradd : (t u : Timeval) → IsNormal t → IsNormal u → timersub (timeradd t u) u ≡ t
timersub-timeradd t u n m =
    let r = timersub (timeradd t u) u in
    let (a, s) = timeradd-Sum t u in
    let (b, d) = timersub-Difference (timeradd t u) u (timeradd-IsNormal t u n m) m in
    time_ext r t
      (eq_of_parts r.tv_sec t.tv_sec
        (omega (arith, s.seconds, d.seconds, s.micros, d.micros, d.normal, n, s.few, d.few)))
      (eq_of_parts r.tv_usec t.tv_usec
        (omega (arith, s.micros, d.micros, d.normal, n, s.few, d.few)))

-- When two times are moved back by the difference of two clocks, the time that is left stays as it was.
pub timersub-timersub :
    (t old new : Timeval)
    → IsNormal t
    → IsNormal old
    → IsNormal new
    → timersub (timersub t (timersub old new)) new ≡ timersub t old
timersub-timersub t old new n o m =
    let off = timersub old new in
    let moved = timersub t off in
    let k = timersub-IsNormal old new o m in
    let (a, d) = timersub-Difference old new o m in
    let (b, d') = timersub-Difference t off n k in
    let (c, r) = timersub-Difference moved new (timersub-IsNormal t off n k) m in
    let (c', r') = timersub-Difference t old n o in
    time_ext (timersub moved new) (timersub t old)
      (eq_of_parts (timersub moved new).tv_sec (timersub t old).tv_sec
        (omega (arith, d, d', r, r')))
      (eq_of_parts (timersub moved new).tv_usec (timersub t old).tv_usec
        (omega (arith, d, d', r, r')))

-- Adding what was taken off gives the time back.
pub timeradd-timersub : (t u : Timeval) → IsNormal t → IsNormal u → timeradd u (timersub t u) ≡ t
timeradd-timersub t u n m =
    let r = timeradd u (timersub t u) in
    let (b, d) = timersub-Difference t u n m in
    let (a, s) = timeradd-Sum u (timersub t u) in
    let k = timeradd-IsNormal u (timersub t u) m (timersub-IsNormal t u n m) in
    time_ext r t (eq_of_parts r.tv_sec t.tv_sec (omega (arith, s, d, n, k)))
      (eq_of_parts r.tv_usec t.tv_usec (omega (arith, s, d, n, k)))

-- The time from an earlier one to a later one is not negative.
pub timersub_later :
    (t u : Timeval)
    → IsNormal t
    → IsNormal u
    → time_le t u ≡ false
    → leb_ℤ (pos 0) (timersub t u).tv_sec && leb_ℤ (pos 0) (timersub t u).tv_usec ≡ true
unfolding time_le
timersub_later t u n m later = let (a, d) = timersub-Difference t u n m in ground (arith, d, n, m)

-- Adding no time gives the time itself.
pub timeradd-zero_time : (t : Timeval) → IsNormal t → timeradd t zero_time ≡ t
timeradd-zero_time t n =
    let r = timeradd t zero_time in
    let (a, s) = timeradd-Sum t zero_time in
    let k = timeradd-IsNormal t zero_time n (record { low = omega arith; high = omega arith }) in
    time_ext r t (eq_of_parts r.tv_sec t.tv_sec (omega (arith, s, n, k)))
      (eq_of_parts r.tv_usec t.tv_usec (omega (arith, s, n, k)))
