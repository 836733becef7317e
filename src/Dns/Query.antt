-- ===== src/Dns/Query.antt =====
-- What `evdns_request_data_build` leaves in the packet.
use libevent_1_4_3_stable_le.Base.{
  ℕ, zero, suc, ◌+◌, ◌*◌, ◌/◌, ◌%◌, ◌≤◌, ◌<◌, ◌≡◌, refl, sym, ap, ◌∙◌, List, [], ◌∷◌, length, arith,
  ltb, Bool, true, false, if◌then◌else◌, none, le→ltb,
}
use libevent_1_4_3_stable_le.Base.Int.{ℤ, pos}
use libevent_1_4_3_stable_le.Base.Run.{Run, ok, Returns, returns, Returns-bind}
use libevent_1_4_3_stable_le.Dns.{Memory}
use libevent_1_4_3_stable_le.Dns.Encoded.{SameBelow, dotted}
use libevent_1_4_3_stable_le.Dns.Labels.{Output, write_bytes, bytes16}
use libevent_1_4_3_stable_le.Dns.Writing.{is_name, write_bytes-below}
use libevent_1_4_3_stable_le.Dns.Named.{two_bytes}
use libevent_1_4_3_stable_le.Dns.Compress.{Stands, Stands-SameBelow, SameBelow-trans}
use libevent_1_4_3_stable_le.Dns.RoundTrip.{to_labels-Labelled}
use libevent_1_4_3_stable_le.Dns.Request.{
  append_all, build_question, request_header, request_data_build,
}

-- The 16-bit numbers that stand from `j` on.
abbrev pub words_at : Memory → ℕ → ℕ → List ℕ
words_at mem j zero = []
words_at mem j (suc n) = (mem j * 256 + mem (j + 1)) ∷ words_at mem (j + 2) n

pub words_at-SameBelow :
    (limit : ℕ) (mem mem' : Memory) (j n : ℕ)
    → SameBelow limit mem mem'
    → j + 2 * n ≤ limit
    → words_at mem' j n ≡ words_at mem j n
words_at-SameBelow limit mem mem' j zero same h = refl
words_at-SameBelow limit mem mem' j (suc n) same h =
    rw
      (
        same j (omega arith),
        same (j + 1) (omega arith),
        words_at-SameBelow limit mem mem' (j + 2) n same (omega arith),
      )
      refl

abbrev pub all_16 : List ℕ → Bool
all_16 [] = true
all_16 (x ∷ xs) = if ltb x 65536 then all_16 xs else false

pub all_16-inv : (x : ℕ) (xs : List ℕ) → all_16 (x ∷ xs) ≡ true → (x < 65536) × (all_16 xs ≡ true)
all_16-inv x xs h = ground arith

word_written :
    (buf : Memory) (j x : ℕ)
    → x < 65536
    → write_bytes buf j (bytes16 x) j * 256 + write_bytes buf j (bytes16 x) (j + 1) ≡ x
word_written buf j x h =
    let (first, second) = two_bytes buf j (x / 256 % 256) (x % 256) in
    rw (first, second) (omega arith)

-- Numbers that have room are appended, and the code goes on behind them.
append_all-Returns :
    {P : ℤ × Memory → Type 0} (buf_len : ℕ) (xs : List ℕ) (buf : Memory) (j : ℕ)
    (next : Memory → ℕ → Run (ℤ × Memory))
    → all_16 xs ≡ true
    → j + 2 * length xs ≤ buf_len
    → ((buf' : Memory)
        → SameBelow j buf buf'
        → words_at buf' j (length xs) ≡ xs
        → Returns P (next buf' (j + 2 * length xs)))
    → Returns P (append_all buf_len xs buf j next)
append_all-Returns buf_len [] buf j next small room go =
    let here : j + 2 * 0 ≡ j = omega arith in rw (sym here) (go buf (λ i lt. refl) refl)
append_all-Returns buf_len (x ∷ xs) buf j next small room go =
    let (first, rest) = all_16-inv x xs small in
    let written : Memory = write_bytes buf j (bytes16 x) in
    let place : j + 2 + 2 * length xs ≡ j + 2 * suc (length xs) = omega arith in
    rw (le→ltb buf_len (j + 2) (omega arith)) (
      append_all-Returns buf_len xs written (j + 2) next rest (omega arith) λ buf' same read.
        rw place (
          go buf'
            (SameBelow-trans buf written buf' (omega arith)
              (λ i lt. write_bytes-below buf j (bytes16 x) i lt) same)
            (rw (same j (omega arith), same (j + 1) (omega arith), read)
              (ap (λ (w : ℕ). w ∷ xs) (word_written buf j x first)))))

-- A request that was built: the header, one question with the name, its type and its class, and the end.
pub record Built (name : List ℕ) (trans_id type class : ℕ) (r : ℤ × Memory) : Type 0 where
  pub mid : ℕ
  pub is_end : r.0 ≡ pos (mid + 4)
  pub bounded : mid ≤ length name + 14
  pub longer : 14 ≤ mid
  pub header : words_at r.1 0 6 ≡ request_header trans_id
  pub stands : Stands r.1 mid 12 name mid mid
  pub footer : words_at r.1 mid 2 ≡ type ∷ class ∷ []

module _ (buf_len : ℕ) (l : List ℕ) (ls : List (List ℕ)) (trans_id type class : ℕ)
    (small : buf_len ≤ 16384) (ok_name : is_name l ls ≡ true) (short : length (dotted l ls) ≤ 255)
    (room : length (dotted l ls) + 18 ≤ buf_len) (words : all_16 (type ∷ class ∷ []) ≡ true) where
  build_question-Built :
      (buf : Memory)
      → words_at buf 0 6 ≡ request_header trans_id
      → Returns
          (Built (dotted l ls) trans_id type class)
          (build_question buf_len (dotted l ls) type class buf 12)
  unfolding build_question
  build_question-Built buf header' =
      let out : Output = record { buf = buf; table = none } in
      Returns-bind
        (to_labels-Labelled buf_len out 12 l ls small ok_name short (omega arith)
          (λ e there. elim there [ ]))
        λ written labelled.
          let (mid, is_mid, longer', bounded', same, stands', right) = labelled in
          rw is_mid (
            append_all-Returns buf_len (type ∷ class ∷ []) written.1.buf mid
              (λ built k. ok (pos k, built)) words (omega arith)
              λ buf' same' footer'. returns _ record {
                mid = mid;
                is_end = refl;
                bounded = omega arith;
                longer = omega arith;
                header =
                    words_at-SameBelow 12 buf buf' 0 6
                      (SameBelow-trans buf written.1.buf buf' (omega arith) same same')
                      (omega arith)
                    ∙ header';
                stands =
                    Stands-SameBelow written.1.buf buf' same' (omega arith) (omega arith) stands';
                footer = footer';
              })

  -- A name of good labels with 16-bit numbers, in a buffer with room for them, is built into a request.
  pub request_data_build-Built :
      (buf : Memory)
      → trans_id < 65536
      → Returns
          (Built (dotted l ls) trans_id type class)
          (request_data_build buf_len (dotted l ls) trans_id type class buf)
  unfolding request_data_build
  request_data_build-Built buf id_small =
      append_all-Returns buf_len (request_header trans_id) buf 0
        (build_question buf_len (dotted l ls) type class) (ground arith) (omega arith)
        λ buf' same read. build_question-Built buf' read
