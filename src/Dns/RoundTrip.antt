-- ===== src/Dns/RoundTrip.antt =====
-- `dnsname_to_labels` as a whole, and `name_parse` behind it.
use libevent_1_4_3_stable_le.Base.{
  ℕ, ◌+◌, ◌≤◌, ◌<◌, ◌≡◌, inl, inr, ap, ◌∙◌, List, [], ◌∷◌, length, arith, true, some, le→ltb,
}
use mathlib.Core.List.{Memᴰ}
use libevent_1_4_3_stable_le.Base.Int.{ℤ, pos}
use libevent_1_4_3_stable_le.Base.Run.{ok, Returns, Returns-map, Returns-value}
use libevent_1_4_3_stable_le.Dns.{Memory, name_parse}
use libevent_1_4_3_stable_le.Dns.Encoded.{Encodes, label, pointer, SameBelow, joined, dotted}
use libevent_1_4_3_stable_le.Dns.Reading.{name_parse-Encodes}
use libevent_1_4_3_stable_le.Dns.Labels.{Entry, Output, to_labels}
use libevent_1_4_3_stable_le.Dns.Writing.{is_name, entries, joined-dotted}
use libevent_1_4_3_stable_le.Dns.Compress.{Stands, Stands-SameBelow, Placed, Placed-SameBelow}
use libevent_1_4_3_stable_le.Dns.Named.{Written}
use libevent_1_4_3_stable_le.Dns.Loop.{is_name-length, labels_loop-Written}

-- The names of the table stand where it says, in what has been written.
abbrev pub TablePlaced : Output → ℕ → Type 0
TablePlaced out j = (e : Entry) → Memᴰ e (entries out.table) → Placed out.buf j e

-- The index behind the name; nothing before it has changed; the name stands there, and the table is right again.
abbrev pub Labelled : Output → ℕ → List ℕ → ℤ × Output → Type 0
Labelled out j name r =
    (end : ℕ) × (r.0 ≡ pos end)
    × (j + 2 ≤ end)
    × (end ≤ j + length name + 2)
    × SameBelow j out.buf r.1.buf
    × Stands r.1.buf end j name end end
    × TablePlaced r.1 end

-- A name of labels of 1 to 63 bytes that has room with its zero, in a buffer that 14-bit pointers reach, is written
-- at `j`, whole or with a pointer to an earlier name: a reader finds it there, the bytes before `j` stay, and a right
-- table is right again for the longer packet.
pub to_labels-Labelled :
    (buf_len : ℕ) (out : Output) (j : ℕ) (l : List ℕ) (ls : List (List ℕ))
    → buf_len ≤ 16384
    → is_name l ls ≡ true
    → length (dotted l ls) ≤ 255
    → j + length (dotted l ls) + 2 ≤ buf_len
    → TablePlaced out j
    → Returns (Labelled out j (dotted l ls)) (to_labels buf_len out j (dotted l ls))
unfolding to_labels
to_labels-Labelled buf_len out j l ls small ok_name short room right =
    rw (le→ltb 255 (length (dotted l ls)) short) (
      Returns-map
        (labels_loop-Written buf_len small (length (dotted l ls) + 1) out j l ls ok_name
          (is_name-length l ls ok_name) room (λ e there. inl (right e there)))
        labelled)
  where
    labelled : (r : ℤ × Output) → Written out j (dotted l ls) r → Labelled out j (dotted l ls) r
    labelled r w = (
      w.end,
      w.is_end,
      w.longer,
      w.bounded,
      w.same,
      w.stands,
      λ e there. elim (w.placed e there) [
        | inl placed ↦ placed
        | inr before ↦
            Placed-SameBelow out.buf r.1.buf e w.same (let h = w.longer in omega arith)
              (right e before)
      ],
    )

first_label :
    {mem : Memory} {limit p n e : ℕ} {l : List ℕ} {ls : List (List ℕ)}
    → Encodes mem limit p (l ∷ ls) n e
    → 0 < length l
first_label (label l len some' short bytes lt rest) = some'
first_label (pointer high low at' few at2 few2 lt rest end) = first_label rest

pub name_parse-Stands :
    {mem : Memory} {size len out_len p n e : ℕ} {name : List ℕ}
    → Stands mem len p name n e
    → n ≤ len
    → len ≤ size
    → length name < out_len
    → name_parse mem size len out_len p ≡ ok (some (e, name))
name_parse-Stands {e = e} (l, ls, named, enc) few readable fits =
    let name : joined [] (l ∷ ls) ≡ _ = joined-dotted l ls (first_label enc) ∙ named in
    name_parse-Encodes enc few readable (rw name fits)
    ∙ ap (λ (found : List ℕ). ok (some (e, found))) name

-- What `dnsname_to_labels` wrote, `name_parse` reads back from any packet that agrees with the buffer up to the end
-- of the name, if the name fits the reader's buffer: the same name, and the same index behind it.
pub name_parse-to_labels :
    (buf_len : ℕ) (out out' : Output) (j end : ℕ) (l : List ℕ) (ls : List (List ℕ))
    (packet : Memory) (size len out_len : ℕ)
    → buf_len ≤ 16384
    → is_name l ls ≡ true
    → length (dotted l ls) ≤ 255
    → j + length (dotted l ls) + 2 ≤ buf_len
    → TablePlaced out j
    → to_labels buf_len out j (dotted l ls) ≡ ok (pos end, out')
    → SameBelow end out'.buf packet
    → end ≤ len
    → len ≤ size
    → length (dotted l ls) < out_len
    → name_parse packet size len out_len j ≡ ok (some (end, dotted l ls))
name_parse-to_labels buf_len out out' j end l ls packet size len out_len small ok_name short room
      right wrote agree received readable fits =
    let (end', is_end, longer, bounded, same, stands', right') =
      Returns-value (pos end, out') wrote
        (to_labels-Labelled buf_len out j l ls small ok_name short room right) in
    let ends : end ≡ end' = cc is_end in
    let stands : Stands out'.buf end j (dotted l ls) end end = rw ends stands' in
    let there : Stands packet len j (dotted l ls) end end =
      Stands-SameBelow out'.buf packet {m = end} agree received (omega arith) stands in
    name_parse-Stands there received readable fits
