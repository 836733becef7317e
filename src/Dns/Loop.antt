-- ===== src/Dns/Loop.antt =====
-- The loop of `dnsname_to_labels` writes what stands for the name.
use libevent_1_4_3_stable_le.Base.{
  ℕ, zero, suc, ◌+◌, ◌≤◌, ◌<◌, ◌≡◌, inl, inr, sym, List, [], ◌∷◌, length, arith, true, Option, none,
  some, le→ltb,
}
use mathlib.Core.Path.{subst}
use libevent_1_4_3_stable_le.Base.Int.{ℤ}
use libevent_1_4_3_stable_le.Base.Run.{Run, Returns, returns, Returns-map, Returns-option}
use libevent_1_4_3_stable_le.Dns.Encoded.{dotted}
use libevent_1_4_3_stable_le.Dns.Labels.{
  Output, find_label, labels_loop, write_label, write_pointer,
}
use libevent_1_4_3_stable_le.Dns.Writing.{
  is_label, is_name, is_name-inv, is_label-inv, strchr_dot-plain, strchr_dot-dot, write_bytes-below,
  add_label-Memᴰ, length-dotted_rest,
}
use libevent_1_4_3_stable_le.Dns.Compress.{Placed-SameBelow}
use libevent_1_4_3_stable_le.Dns.Named.{
  Written, Ready, with_label, find_label-Placed, refer-Written, label-Written, last-Written,
}

-- Behind a label, the table is ready for the rest of the name.
Ready-with_label :
    (out : Output) (j : ℕ) (l m : List ℕ) (ls : List (List ℕ))
    → Ready out j (dotted l (m ∷ ls))
    → Ready (with_label out j l (dotted l (m ∷ ls))) (j + length l + 1) (dotted m ls)
Ready-with_label out j l m ls ready e there =
    let size = length-dotted_rest l m ls in
    elim (add_label-Memᴰ out.table (dotted l (m ∷ ls)) j e there) [
      | inl before ↦ elim (ready e before) [
        | inl placed ↦ inl (
            Placed-SameBelow out.buf _ e (λ i lt. write_bytes-below out.buf j (length l ∷ l) i lt)
              (omega arith) placed)
        | inr more ↦ inr (omega arith)
      ]
      | inr new ↦ inr (rw new (omega arith))
    ]

module _ (buf_len : ℕ) (small : buf_len ≤ 16384) where
  write_pointer-Written :
      (out : Output) (j : ℕ) (name : List ℕ) (ref : ℕ)
      → j + length name + 2 ≤ buf_len
      → Ready out j name
      → find_label out.table name ≡ some ref
      → Returns (Written out j name) (write_pointer buf_len out j ref)
  unfolding write_pointer
  write_pointer-Written out j name ref room ready found =
      let (end, stands) = find_label-Placed out j name ref ready found in
      rw (le→ltb buf_len (j + 2) (omega arith))
        (returns _ (refer-Written out j name ref (omega arith) stands))

  write_label_last :
      (again : Output → ℕ → List ℕ → Run (ℤ × Output)) (out : Output) (j : ℕ) (l : List ℕ)
      → is_label l ≡ true
      → j + length l + 2 ≤ buf_len
      → Returns (Written out j l) (write_label buf_len again out j l (l, none))
  unfolding write_label
  write_label_last again out j l ok_label room =
      let (some', short, no_dot) = is_label-inv l ok_label in
      rw (le→ltb 63 (length l) short, le→ltb buf_len (j + length l + 1) (omega arith))
        (last-Written buf_len out j l ok_label room)

  write_label_more :
      (again : Output → ℕ → List ℕ → Run (ℤ × Output)) (out : Output) (j : ℕ) (l m : List ℕ)
      (ls : List (List ℕ))
      → is_label l ≡ true
      → j + length (dotted l (m ∷ ls)) + 2 ≤ buf_len
      → (let next = with_label out j l (dotted l (m ∷ ls)) in
          Returns
            (Written next (j + length l + 1) (dotted m ls))
            (again next (j + length l + 1) (dotted m ls)))
      → Returns
          (Written out j (dotted l (m ∷ ls)))
          (write_label buf_len again out j (dotted l (m ∷ ls)) (l, some (dotted m ls)))
  unfolding write_label
  write_label_more again out j l m ls ok_label room rest =
      let (some', short, no_dot) = is_label-inv l ok_label in
      let size = length-dotted_rest l m ls in
      rw (le→ltb 63 (length l) short, le→ltb buf_len (j + length l + 1) (omega arith))
        (Returns-map rest (λ r w. label-Written out j l m ls r ok_label w))

  pub labels_loop-Written :
      (fuel : ℕ) (out : Output) (j : ℕ) (l : List ℕ) (ls : List (List ℕ))
      → is_name l ls ≡ true
      → length ls < fuel
      → j + length (dotted l ls) + 2 ≤ buf_len
      → Ready out j (dotted l ls)
      → Returns (Written out j (dotted l ls)) (labels_loop buf_len fuel out j (dotted l ls))
  unfolding labels_loop
  labels_loop-Written zero out j l ls ok_name enough room ready = absurd (omega arith)
  labels_loop-Written (suc fuel) out j l [] ok_name enough room ready =
      let (some', short, no_dot) = is_label-inv l ok_name in
      let again : Output → ℕ → List ℕ → Run (ℤ × Output) =
        λ next k more. labels_loop buf_len fuel next k more in
      Returns-option (find_label out.table l)
        (λ new.
          subst
            (λ (x : List ℕ × Option (List ℕ)).
              Returns (Written out j l) (write_label buf_len again out j l x))
            (sym (strchr_dot-plain l no_dot)) (write_label_last again out j l ok_name room))
        (λ ref found. write_pointer-Written out j l ref room ready found)
  labels_loop-Written (suc fuel) out j l (m ∷ ls) ok_name enough room ready =
      let (ok_label, ok_rest) = is_name-inv l m ls ok_name in
      let (some', short, no_dot) = is_label-inv l ok_label in
      let size = length-dotted_rest l m ls in
      let name : List ℕ = dotted l (m ∷ ls) in
      let again : Output → ℕ → List ℕ → Run (ℤ × Output) =
        λ next k more. labels_loop buf_len fuel next k more in
      Returns-option (find_label out.table name)
        (λ new.
          subst
            (λ (x : List ℕ × Option (List ℕ)).
              Returns (Written out j name) (write_label buf_len again out j name x))
            (sym (strchr_dot-dot l (dotted m ls) no_dot))
            (write_label_more again out j l m ls ok_label room (
              labels_loop-Written fuel (with_label out j l name) (j + length l + 1) m ls ok_rest
                (omega arith) (omega arith) (Ready-with_label out j l m ls ready))))
        (λ ref found. write_pointer-Written out j name ref room ready found)

pub is_name-length :
    (l : List ℕ) (ls : List (List ℕ)) → is_name l ls ≡ true → length ls < length (dotted l ls) + 1
is_name-length l [] h = omega arith
is_name-length l (m ∷ ls) h =
    let (first, rest) = is_name-inv l m ls h in
    let later = is_name-length m ls rest in let size = length-dotted_rest l m ls in omega arith
