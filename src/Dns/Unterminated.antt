-- ===== src/Dns/Unterminated.antt =====
-- `dnsname_to_labels` where the room ends behind the last label.
use libevent_1_4_3_stable_le.Base.{
  ℕ, zero, suc, ◌+◌, ◌-◌, ◌≤◌, ◌<◌, ◌≡◌, ◌≢◌, refl, sym, ap, ◌∙◌, List, [], ◌∷◌, length, arith,
  true, Option, none, some, ne→==, le→ltb,
}
use libevent_1_4_3_stable_le.Base.Int.{ℤ}
use libevent_1_4_3_stable_le.Base.Run.{Run, fault}
use libevent_1_4_3_stable_le.Dns.{Memory}
use libevent_1_4_3_stable_le.Dns.Encoded.{dotted}
use libevent_1_4_3_stable_le.Dns.Labels.{
  Output, write_bytes, terminate, write_label, labels_loop, to_labels,
}
use libevent_1_4_3_stable_le.Dns.Writing.{
  is_label, is_name, is_name-inv, is_label-inv, strchr_dot-plain, strchr_dot-dot,
  length-dotted_rest, last-plain,
}
use libevent_1_4_3_stable_le.Dns.Loop.{is_name-length}

module _ (buf_len : ℕ) where
  last_unterminated :
      (again : Output → ℕ → List ℕ → Run (ℤ × Output)) (buf : Memory) (j : ℕ) (l : List ℕ)
      → is_label l ≡ true
      → j + length l + 1 ≡ buf_len
      → write_label buf_len again (record { buf = buf; table = none }) j l (l, none) ≡ fault
  unfolding write_label terminate
  last_unterminated again buf j l ok_label full =
      let (some', short, no_dot) = is_label-inv l ok_label in
      let k = j + length l + 1 in
      let written : Memory = write_bytes buf j (length l ∷ l) in
      let last : written (k - 1) ≢ 0 =
        (let place : j + 1 + length l - 1 ≡ k - 1 = omega arith in
          rw (sym place) (last-plain _ (j + 1) l some' no_dot)) in
      rw
        (
          le→ltb 63 (length l) short,
          le→ltb buf_len k (omega arith),
          ne→== k 0 (omega arith),
          ne→== (written (k - 1)) 0 last,
          le→ltb k buf_len (omega arith),
        )
        refl

  more_unterminated :
      (again : Output → ℕ → List ℕ → Run (ℤ × Output)) (buf : Memory) (j : ℕ) (l m : List ℕ)
      (ls : List (List ℕ))
      → is_label l ≡ true
      → j + length l + 1 ≤ buf_len
      → again
          (record { buf = write_bytes buf j (length l ∷ l); table = none })
          (j + length l + 1)
          (dotted m ls)
        ≡ fault
      → write_label buf_len again
          (record { buf = buf; table = none })
          j
          (dotted l (m ∷ ls))
          (l, some (dotted m ls))
        ≡ fault
  unfolding write_label
  more_unterminated again buf j l m ls ok_label room rest =
      let (some', short, no_dot) = is_label-inv l ok_label in
      rw (le→ltb 63 (length l) short, le→ltb buf_len (j + length l + 1) room) rest

  labels_loop_unterminated :
      (fuel : ℕ) (buf : Memory) (j : ℕ) (l : List ℕ) (ls : List (List ℕ))
      → is_name l ls ≡ true
      → length ls < fuel
      → j + length (dotted l ls) + 1 ≡ buf_len
      → labels_loop buf_len fuel (record { buf = buf; table = none }) j (dotted l ls) ≡ fault
  unfolding labels_loop
  labels_loop_unterminated zero buf j l ls ok_name enough full = absurd (omega arith)
  labels_loop_unterminated (suc fuel) buf j l [] ok_name enough full =
      let (some', short, no_dot) = is_label-inv l ok_name in
      let again : Output → ℕ → List ℕ → Run (ℤ × Output) =
        λ next k more. labels_loop buf_len fuel next k more in
      let out : Output = record { buf = buf; table = none } in
      ap (λ (x : List ℕ × Option (List ℕ)). write_label buf_len again out j l x)
        (strchr_dot-plain l no_dot)
      ∙ last_unterminated again buf j l ok_name full
  labels_loop_unterminated (suc fuel) buf j l (m ∷ ls) ok_name enough full =
      let (ok_label, ok_rest) = is_name-inv l m ls ok_name in
      let (some', short, no_dot) = is_label-inv l ok_label in
      let size = length-dotted_rest l m ls in
      let again : Output → ℕ → List ℕ → Run (ℤ × Output) =
        λ next k more. labels_loop buf_len fuel next k more in
      let out : Output = record { buf = buf; table = none } in
      ap (λ (x : List ℕ × Option (List ℕ)). write_label buf_len again out j (dotted l (m ∷ ls)) x)
        (strchr_dot-dot l (dotted m ls) no_dot)
      ∙ more_unterminated again buf j l m ls ok_label (omega arith) (
          labels_loop_unterminated fuel _ (j + length l + 1) m ls ok_rest (omega arith)
            (omega arith))

-- A name without compression that fills the buffer up to its end, so that there is no room for the zero behind its
-- last label, is not refused: the zero is written behind the buffer.
pub to_labels_unterminated :
    (buf_len : ℕ) (buf : Memory) (j : ℕ) (l : List ℕ) (ls : List (List ℕ))
    → is_name l ls ≡ true
    → length (dotted l ls) ≤ 255
    → j + length (dotted l ls) + 1 ≡ buf_len
    → to_labels buf_len (record { buf = buf; table = none }) j (dotted l ls) ≡ fault
unfolding to_labels
to_labels_unterminated buf_len buf j l ls ok_name short full =
    rw (le→ltb 255 (length (dotted l ls)) short) (
      labels_loop_unterminated buf_len (length (dotted l ls) + 1) buf j l ls ok_name
        (is_name-length l ls ok_name) full)
