-- ===== src/Dns/Named.antt =====
-- What `dnsname_to_labels` did with a label or a pointer: `Written`.
use libevent_1_4_3_stable_le.Base.{
  ℕ, suc, ◌+◌, ◌-◌, ◌*◌, ◌/◌, ◌%◌, ◌≤◌, ◌<◌, ◌≡◌, ◌≢◌, ◌⊎◌, inl, inr, refl, sym, ap, ◌∙◌, List, [],
  ◌∷◌, ◌++◌, length, arith, true, Option, none, some, ne→==, lt→ltb,
}
use mathlib.Core.List.{Memᴰ}
use libevent_1_4_3_stable_le.Base.Int.{ℤ, pos}
use libevent_1_4_3_stable_le.Base.Bits.{or, or-eq-add}
use libevent_1_4_3_stable_le.Base.Run.{Returns, returns}
use libevent_1_4_3_stable_le.Dns.{Memory}
use libevent_1_4_3_stable_le.Dns.Encoded.{
  Encodes, done, pointer, SameBelow, Encodes-SameBelow, Encodes-lt, Encodes-more, dotted,
}
use libevent_1_4_3_stable_le.Dns.Labels.{
  Entry, Output, write_bytes, bytes16, find_label, add_label, terminate,
}
use libevent_1_4_3_stable_le.Dns.Writing.{
  is_label, is_label-inv, bytes_at-inv, write_bytes-below, bytes_at-write_bytes, entries,
  get_pos-Memᴰ, add_label-Memᴰ, length-dotted_rest, last-plain,
}
use libevent_1_4_3_stable_le.Dns.Compress.{Stands, Placed, SameBelow-trans, label_written}

-- What a call has done that started at `j`.
pub record Written (out : Output) (j : ℕ) (name : List ℕ) (r : ℤ × Output) : Type 0 where
  pub end : ℕ
  pub is_end : r.0 ≡ pos end
  pub longer : j + 2 ≤ end
  pub bounded : end ≤ j + length name + 2
  pub same : SameBelow j out.buf r.1.buf
  pub stands : Stands r.1.buf end j name end end
  pub placed :
      (e : Entry) → Memᴰ e (entries r.1.table) → Placed r.1.buf end e ⊎ Memᴰ e (entries out.table)

-- The table before the rest of a name is written: its entries are right, or stand for longer names.
abbrev pub Ready : Output → ℕ → List ℕ → Type 0
Ready out j name =
    (e : Entry) → Memᴰ e (entries out.table) → Placed out.buf j e ⊎ (length name < length e.v)

pub find_label-Placed :
    (out : Output) (j : ℕ) (name : List ℕ) (ref : ℕ)
    → Ready out j name
    → find_label out.table name ≡ some ref
    → (end : ℕ) × Stands out.buf j ref name j end
find_label-Placed out j name ref ready found = go out.table ready found
  where
    go :
        (table : Option (List Entry))
        → ((e : Entry) → Memᴰ e (entries table) → Placed out.buf j e ⊎ (length name < length e.v))
        → find_label table name ≡ some ref
        → (end : ℕ) × Stands out.buf j ref name j end
    go none ready found = absurd (cc found)
    go (some table) ready found =
        let (e, at', named, place) = get_pos-Memᴰ table name ref found in
        elim (ready e at') [
          | inl (end, (l, ls, same_name, enc)) ↦
              (end, (l, ls, same_name ∙ named, rw (sym place) enc))
          | inr more ↦ absurd (let same_length = ap length named in omega arith)
        ]

pub two_bytes :
    (buf : Memory) (j c d : ℕ)
    → (write_bytes buf j (c ∷ d ∷ []) j ≡ c) × (write_bytes buf j (c ∷ d ∷ []) (j + 1) ≡ d)
two_bytes buf j c d =
    let written : Memory = write_bytes buf j (c ∷ d ∷ []) in
    let (first, rest) =
      bytes_at-inv written j c (d ∷ []) (bytes_at-write_bytes buf j (c ∷ d ∷ [])) in
    let (second, nothing) = bytes_at-inv written (j + 1) d [] rest in (first, second)

refer_bytes :
    (ref : ℕ) → ref < 16384 → bytes16 (or ref 0xc000) ≡ (192 + ref / 256) ∷ (ref % 256) ∷ []
refer_bytes ref below =
    let tagged : or ref 0xc000 ≡ ref + 49152 = or-eq-add 14 ref 3 (omega arith) in
    let high : (ref + 49152) / 256 % 256 ≡ 192 + ref / 256 = omega arith in
    let low : (ref + 49152) % 256 ≡ ref % 256 = omega arith in rw (tagged, high, low) refl

-- The two bytes of a pointer.
pub refer-Written :
    (out : Output) (j : ℕ) (name : List ℕ) (ref : ℕ) {end : ℕ}
    → j ≤ 16384
    → Stands out.buf j ref name j end
    → Written out j name
        (pos (j + 2), record out { buf = write_bytes out.buf j (bytes16 (or ref 0xc000)) })
refer-Written out j name ref {end} below (l, ls, named, enc) =
    let inside = Encodes-lt enc in
    let tag =
      ap (λ (bytes : List ℕ). write_bytes out.buf j bytes) (refer_bytes ref (omega arith)) in
    let bytes : List ℕ = bytes16 (or ref 0xc000) in
    let buf' : Memory = write_bytes out.buf j bytes in
    let same' : SameBelow j out.buf buf' = λ i lt. write_bytes-below out.buf j bytes i lt in
    let (first, second) = two_bytes out.buf j (192 + ref / 256) (ref % 256) in
    let moved : Encodes buf' (j + 2) ref (l ∷ ls) j end =
      Encodes-SameBelow j (j + 2) out.buf buf' same' (omega arith) enc in
    let back : ref / 256 * 256 + ref % 256 ≡ ref = omega arith in
    record {
      end = j + 2;
      is_end = refl;
      longer = omega arith;
      bounded = omega arith;
      same = same';
      stands = (
        l,
        ls,
        named,
        Encodes-more {n = suc j} (omega arith) (
            pointer {e' = end} (ref / 256) (ref % 256) (ap (λ (m : Memory). m j) tag ∙ first)
              (omega arith) (ap (λ (m : Memory). m (j + 1)) tag ∙ second) (omega arith)
              (omega arith) (rw back moved) refl),
      );
      placed = λ e at'. inr at';
    }

-- The entry that a call adds is right when the call is over.
kept :
    (out : Output) (j : ℕ) (name : List ℕ) (buf' : Memory) (end : ℕ)
    → Stands buf' end j name end end
    → (e : Entry) → Memᴰ e (entries (add_label out.table name j))
    → Placed buf' end e ⊎ Memᴰ e (entries out.table)
kept out j name buf' end stands e there = elim (add_label-Memᴰ out.table name j e there) [
  | inl before ↦ inr before
  | inr new ↦ inl (end, rw new stands)
]

-- The state behind a label and its length byte.
abbrev pub with_label : Output → ℕ → List ℕ → List ℕ → Output
with_label out j l name = record {
  buf = write_bytes out.buf j (length l ∷ l);
  table = add_label out.table name j;
}

-- What the recursive call did, behind the label that this one wrote.
pub label-Written :
    (out : Output) (j : ℕ) (l m : List ℕ) (ls : List (List ℕ)) (r : ℤ × Output)
    → is_label l ≡ true
    → Written (with_label out j l (dotted l (m ∷ ls))) (j + length l + 1) (dotted m ls) r
    → Written out j (dotted l (m ∷ ls)) r
label-Written out j l m ls r ok_label w =
    let buf' = r.1.buf in
    let (l', ls', named, enc) = w.stands in
    let written : Memory = write_bytes out.buf j (length l ∷ l) in
    let stands' : Stands buf' w.end j (dotted l (m ∷ ls)) w.end w.end = (
      l,
      l' ∷ ls',
      ap (λ (name : List ℕ). l ++ (b'.' ∷ name)) named,
      label_written out.buf buf' j l ok_label w.same enc,
    ) in
    let size = length-dotted_rest l m ls in
    let before : SameBelow j out.buf written =
      λ i lt. write_bytes-below out.buf j (length l ∷ l) i lt in
    record {
      end = w.end;
      is_end = w.is_end;
      longer = (let h = w.longer in omega arith);
      bounded = (let h = w.bounded in omega arith);
      same = SameBelow-trans out.buf written buf' (omega arith) before w.same;
      stands = stands';
      placed = λ e there. elim (w.placed e there) [
        | inl placed' ↦ inl placed'
        | inr before' ↦ kept out j (dotted l (m ∷ ls)) buf' w.end stands' e before'
      ];
    }

-- The last label and the zero.
pub last-Written :
    (buf_len : ℕ) (out : Output) (j : ℕ) (l : List ℕ)
    → is_label l ≡ true
    → j + length l + 2 ≤ buf_len
    → Returns (Written out j l) (terminate buf_len (with_label out j l l) (j + length l + 1))
unfolding terminate
last-Written buf_len out j l ok_label room =
    let (some', short, no_dot) = is_label-inv l ok_label in
    let written : Memory = write_bytes out.buf j (length l ∷ l) in
    let k = j + length l + 1 in
    let buf' : Memory = write_bytes written k (0 ∷ []) in
    let before : SameBelow j out.buf written =
      λ i lt. write_bytes-below out.buf j (length l ∷ l) i lt in
    let after : SameBelow k written buf' = λ i lt. write_bytes-below written k (0 ∷ []) i lt in
    let (zero', nothing) = bytes_at-inv buf' k 0 [] (bytes_at-write_bytes written k (0 ∷ [])) in
    let stands' : Stands buf' (k + 1) j l (k + 1) (k + 1) = (
      l,
      [],
      refl,
      label_written out.buf buf' j l ok_label after (done zero' (omega arith) refl),
    ) in
    let last : written (k - 1) ≢ 0 =
      (let place : j + 1 + length l - 1 ≡ k - 1 = omega arith in
        rw (sym place) (last-plain _ (j + 1) l some' no_dot)) in
    rw (ne→== k 0 (omega arith), ne→== (written (k - 1)) 0 last, lt→ltb k buf_len (omega arith))
      (returns _ record {
        end = k + 1;
        is_end = refl;
        longer = omega arith;
        bounded = omega arith;
        same = SameBelow-trans out.buf written buf' (omega arith) before after;
        stands = stands';
        placed = kept out j l buf' (k + 1) stands';
      })
