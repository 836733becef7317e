-- ===== src/Buffer/Queue.antt =====
-- What event_tagging.c needs of a buffer, and that `struct evbuffer` has it while `realloc` succeeds.
use libevent_1_4_3_stable_le.Base.{
  ℕ, ◌+◌, ◌^◌, ◌≤◌, ◌≡◌, inl, inr, List, [], ◌++◌, drop, length, arith, true,
}
use libevent_1_4_3_stable_le.Base.Int.{ℤ, pos}
use libevent_1_4_3_stable_le.Base.Run.{Run, Returns, Returns-map}
use libevent_1_4_3_stable_le.Buffer.{Evbuffer, Allocator, add, drain}
use libevent_1_4_3_stable_le.Buffer.Memory.{content, IsValid, length-content}
use libevent_1_4_3_stable_le.Buffer.Add.{Appended, add-Appended}
use libevent_1_4_3_stable_le.Buffer.Drain.{drain-Drained, drained_front}
use libevent_1_4_3_stable_le.Buffer.Move.{Moved, add_buffer, add_buffer-Moved}

-- A byte queue: what its operations do to the bytes, while there is room. `move` is
-- `evbuffer_add_buffer`.
pub record ByteQueue : Type 1 where
  pub Buf : Type 0
  pub content : Buf → List ℕ
  pub Valid : Buf → Type 0
  pub Room : Buf → ℕ → Type 0
  pub add : Buf → List ℕ → Run (ℤ × Buf)
  pub drain : Buf → ℕ → Buf
  pub move : Buf → Buf → Run (ℤ × Buf × Buf)
  pub room-Valid : (b : Buf) (n : ℕ) → Room b n → Valid b
  pub room_less : (b : Buf) (n m : ℕ) → Room b n → m ≤ n → Room b m
  pub add_lem :
      (b : Buf) (bytes : List ℕ) (n : ℕ)
      → Room b (length bytes + n)
      → Returns (λ (r, c). (r ≡ pos 0) × (content c ≡ content b ++ bytes) × Room c n) (add b bytes)
  pub drain_lem :
      (b : Buf) (n : ℕ) → Valid b → (content (drain b n) ≡ drop n (content b)) × Valid (drain b n)
  pub drain_room : (b : Buf) (n : ℕ) → Valid b → length (content b) ≤ n → Room (drain b n) (2 ^ 62)
  pub move_lem :
      (b c : Buf)
      → Valid c
      → Room b (length (content c))
      → Returns
          (λ (r, b', c').
            (r ≡ pos 0)
            × (content b' ≡ content b ++ content c)
            × (content c' ≡ [])
            × Valid b'
            × Valid c')
          (move b c)

-- A valid buffer that can take `n` more bytes.
pub record HasRoom (b : Evbuffer) (n : ℕ) : Type 0 where
  pub valid : IsValid b
  pub small : b.misalign + b.off + n ≤ 2 ^ 62

pub Appended-HasRoom :
    (b c : Evbuffer) (bytes : List ℕ) (n : ℕ)
    → HasRoom b (length bytes + n)
    → Appended b bytes c
    → HasRoom c n
Appended-HasRoom b c bytes n room a = record {
  valid = a.valid;
  small = omega (arith, room.small, a.more, a.earlier);
}

pub drained-HasRoom :
    (b : Evbuffer) (n : ℕ) → IsValid b → length (content b) ≤ n → HasRoom (drain b n) (2 ^ 62)
drained-HasRoom b n v all =
    let (front, empty) = drained_front b n (omega (arith, length-content b v)) in
    record { valid = (drain-Drained b n v).valid; small = omega arith }

pub Moved-granted :
    (m : Allocator) (b c : Evbuffer) (r : ℤ) (b' c' : Evbuffer)
    → ((len : ℕ) → m.grants len ≡ true)
    → Moved m b c (r, b', c')
    → (r ≡ pos 0)
      × (content b' ≡ content b ++ content c)
      × (content c' ≡ [])
      × IsValid b'
      × IsValid c'
Moved-granted m b c r b' c' all (v, w, inl (done, bytes, empty)) = (done, bytes, empty, v, w)
Moved-granted m b c r b' c' all (v, w, inr (_, _, _, (len, refused))) = absurd (cc (all len))

abbrev pub evbuffer_queue : (m : Allocator) → ((len : ℕ) → m.grants len ≡ true) → ByteQueue
evbuffer_queue m all = record {
  Buf = Evbuffer;
  content = content;
  Valid = IsValid;
  Room = HasRoom;
  add = add m;
  drain = drain;
  move = add_buffer m;
  room-Valid = λ b n room. room.valid;
  room_less = λ b n m room le. record { valid = room.valid; small = omega (arith, room.small) };
  add_lem = λ b bytes n room.
      Returns-map (add-Appended m b bytes all room.valid (omega (arith, room.small)))
        λ (r, c) (done, a). (done, a.held, Appended-HasRoom b c bytes n room a);
  drain_lem = λ b n v. ((drain-Drained b n v).bytes, (drain-Drained b n v).valid);
  drain_room = drained-HasRoom;
  move_lem = λ b c v room.
      Returns-map
        (add_buffer-Moved m b c room.valid v (omega (arith, room.small, length-content c v)))
        λ (r, b', c') moved. Moved-granted m b c r b' c' all moved;
}
