-- ===== src/Tagging/Reading/Fields.antt =====
-- What is marshalled is unmarshalled: data, integers, times.
use libevent_1_4_3_stable_le.Base.{
  ℕ, ◌+◌, ◌^◌, ◌≤◌, ◌<◌, ◌≡◌, refl, ap, ◌∙◌, List, [], ◌∷◌, ◌++◌, length, arith, length-append,
  none, some, le→ltb, eq→==, Bool, true, false, if◌then◌else◌, ◌==◌,
}
use libevent_1_4_3_stable_le.Base.Slices.{take-append_length}
use libevent_1_4_3_stable_le.Base.Run.{Returns, returns, Returns-bind, Returns-map, ◌>>=◌}
use libevent_1_4_3_stable_le.Buffer.Queue.{ByteQueue}
use libevent_1_4_3_stable_le.Tagging.Ints.RoundTrip.{IntBytes}
use libevent_1_4_3_stable_le.Tagging.Messages.Written.{
  Message, clear_lem, marshal-Message, marshal_int-Message, marshal_timeval-Message,
}
use libevent_1_4_3_stable_le.Tagging.Messages.{clear, marshal, marshal_int, marshal_timeval}
use libevent_1_4_3_stable_le.Tagging.Reading.{
  unmarshal, unmarshal_int, int_length, int_payload, int_done, unmarshal_needed, check_tag,
  unmarshal_fixed, fixed_bytes, unmarshal_timeval, time_fields, time_sec, time_usec,
}
use libevent_1_4_3_stable_le.Tagging.Reading.Read.{
  Holds, get_tag_lem, get_int_lem, Message-Holds, drain-Holds, unmarshal-Message,
}

append_nil : (l : List ℕ) → l ≡ l ++ []
append_nil [] = refl
append_nil (x ∷ l) = ap (λ (r : List ℕ). x ∷ r) (append_nil l)

-- A message has ten bytes besides its payload, at most.
Message-size :
    (tag : ℕ) (payload bytes : List ℕ) (m : Message tag payload bytes)
    → (length bytes ≤ length payload + 10) × (length payload ≤ length bytes)
Message-size tag payload bytes m =
    let size : length bytes ≡ length m.tagged + (length m.sized + length payload) =
      ap (λ (l : List ℕ). length l) m.whole
      ∙ rw (length-append m.tagged (m.sized ++ payload), length-append m.sized payload) refl in
    (omega (arith, m.has_tag.0, m.has_length.0), omega arith)

module _ (Q : ByteQueue) where
  whole-Holds :
      (b : Q.Buf) (bytes : List ℕ)
      → Q.content b ≡ bytes
      → Q.Valid b
      → length bytes < 2 ^ 31
      → Holds Q b (bytes ++ [])
  whole-Holds b bytes held v short = record {
    held = held ∙ append_nil bytes;
    valid = v;
    short = rw (append_nil bytes) at short;
  }

  int_payload_lem :
      (s src : Q.Buf) (n : ℕ) (payload rest : List ℕ)
      → IntBytes n payload
      → Q.Valid s
      → Holds Q src (payload ++ rest)
      → Returns
          (λ (found, src', s'). (found ≡ some n) × Holds Q src' rest × Q.Valid s')
          (int_payload Q s (some (length payload), src))
  unfolding int_payload int_done
  int_payload_lem s src n payload rest i v h =
      let front = take-append_length (length payload) payload rest refl in
      let (empty, wide) = clear_lem Q s v in
      rw
        (
          h.held,
          le→ltb (length (payload ++ rest)) (length payload)
              (omega (arith, length-append payload rest)),
          front,
        )
        (Returns-bind
          (Q.add_lem (clear Q s) payload 0 (Q.room_less _ (2 ^ 62) _ wide (omega (arith, i.0))))
          λ (r, c) (done, held, left).
            let alone =
              whole-Holds c payload (held ∙ ap (λ (l : List ℕ). l ++ payload) empty)
                (Q.room-Valid c 0 left) (omega (arith, i.0)) in
            let (s', e, end') = get_int_lem Q c n payload [] i alone in
            rw (done, e) (returns _ (refl, drain-Holds Q src payload rest h, end'.valid)))

  -- `evtag_unmarshal_int` of a message with the encoding of an integer gives the integer and takes
  -- exactly the message.
  unmarshal_int-Message :
      (s src : Q.Buf) (tag n : ℕ) (payload bytes rest : List ℕ)
      → Message tag payload bytes
      → IntBytes n payload
      → Q.Valid s
      → Holds Q src (bytes ++ rest)
      → Returns
          (λ (found, src', s'). (found ≡ some n) × Holds Q src' rest × Q.Valid s')
          (unmarshal_int Q s src tag)
  unfolding unmarshal_int int_length
  unmarshal_int-Message s src tag n payload bytes rest m i v h =
      Returns-bind
        (get_tag_lem Q src tag m.tagged _ m.has_tag
          (Message-Holds Q src tag payload bytes rest m h))
        λ (found, b) (e, left).
          let (b', e', left') = get_int_lem Q b (length payload) m.sized _ m.has_length left in
          rw (e, eq→== tag tag refl, e') (int_payload_lem s b' n payload rest i v left')

  -- An integer of 32 bits that is marshalled into an empty buffer with room, and unmarshalled with its
  -- tag, comes back, and the buffer is empty again.
  pub unmarshal_int-marshal_int :
      (s b : Q.Buf) (tag n : ℕ)
      → tag < 2 ^ 32
      → n < 2 ^ 32
      → Q.Valid s
      → Q.Room b 15
      → Q.content b ≡ []
      → Returns
          (λ (found, b', s'). (found ≡ some n) × (Q.content b' ≡ []))
          (marshal_int Q s b tag n >>= λ (c, s'). unmarshal_int Q s' c tag)
  unmarshal_int-marshal_int s b tag n small word v room empty =
      Returns-bind (marshal_int-Message Q s b tag n small word v room) λ (c, s') (payload, i, w).
        let start =
          whole-Holds c w.bytes (w.held ∙ ap (λ (l : List ℕ). l ++ w.bytes) empty) w.valid
            (omega (arith, Message-size tag payload w.bytes w.message, i.0)) in
        Returns-map
          (unmarshal_int-Message s' c tag n payload w.bytes [] w.message i w.valid_scratch start)
          λ r (found, rest, valid). (found, rest.held)

  -- Data of less than 2^31 - 10 bytes that is marshalled into an empty buffer with room and unmarshalled into a buffer with room comes
  -- back behind what the target holds, with the tag and the length, and the first buffer is empty again.
  pub unmarshal-marshal :
      (b dst : Q.Buf) (tag : ℕ) (payload : List ℕ)
      → tag < 2 ^ 32
      → length payload + 10 < 2 ^ 31
      → Q.Room b (10 + (length payload + 0))
      → Q.Room dst (length payload)
      → Q.content b ≡ []
      → Returns
          (λ (found, b', d).
            (found ≡ some (tag, length payload))
            × (Q.content b' ≡ [])
            × (Q.content d ≡ Q.content dst ++ payload))
          (marshal Q b tag payload >>= λ c. unmarshal Q c dst)
  unmarshal-marshal b dst tag payload small short room room' empty =
      Returns-bind (marshal-Message Q b tag 0 payload small (omega arith) room) λ c (bytes, m, w).
        let start =
          whole-Holds c bytes (w.held ∙ ap (λ (l : List ℕ). l ++ bytes) empty)
            (Q.room-Valid c 0 w.room) (omega (arith, Message-size tag payload bytes m)) in
        Returns-map (unmarshal-Message Q c dst tag payload bytes [] m start room')
          λ r (found, rest, added, valid). (found, rest.held, added)

  -- Unmarshalling into the scratch buffer, with the test of the tag.
  needed-Message :
      (s src : Q.Buf) (tag need_tag : ℕ) (payload bytes rest : List ℕ)
      → Message tag payload bytes
      → length payload < 2 ^ 32
      → Q.Valid s
      → Holds Q src (bytes ++ rest)
      → Returns
          (λ (done, src', s'). (done ≡ (tag == need_tag)) × Holds Q src' rest × Holds Q s' payload)
          (unmarshal_needed Q s src need_tag)
  unfolding unmarshal_needed
  needed-Message s src tag need_tag payload bytes rest m short v h =
      let (empty, wide) = clear_lem Q s v in
      Returns-bind
        (unmarshal-Message Q src (clear Q s) tag payload bytes rest m h
          (Q.room_less _ (2 ^ 62) _ wide (omega arith)))
        λ (found, src', s') (e, left, added, valid'). rw e (
          unfold check_tag in
          returns _ (
            refl,
            left,
            record {
              held = added ∙ ap (λ (l : List ℕ). l ++ payload) empty;
              valid = valid';
              short =
                  omega
                    (arith, h.short, length-append bytes rest, Message-size tag payload bytes m);
            },
          ))

  -- When a message stands in front, `evtag_unmarshal_fixed` takes the message and gives its payload when the tag is the needed one and the
  -- length is `len`, and -1 else.
  pub unmarshal_fixed-Message :
      (s src : Q.Buf) (tag need_tag len : ℕ) (payload bytes rest : List ℕ)
      → Message tag payload bytes
      → length payload < 2 ^ 32
      → Q.Valid s
      → Holds Q src (bytes ++ rest)
      → Returns
          (λ (found, src', s').
            (found ≡ (
              if tag == need_tag
              then if length payload == len then some payload else none
              else none))
            × Holds Q src' rest)
          (unmarshal_fixed Q s src need_tag len)
  unfolding unmarshal_fixed fixed_bytes
  unmarshal_fixed-Message s src tag need_tag len payload bytes rest m short v h =
      Returns-bind (needed-Message s src tag need_tag payload bytes rest m short v h)
        λ (done, src', s') (e, left, new). rw e (
          returns _
            (fixed (tag == need_tag) src' s' new.held, fixed_source (tag == need_tag) src' s' left))
    where
      fixed :
          (t : Bool) (src' s' : Q.Buf)
          → Q.content s' ≡ payload
          → (fixed_bytes Q len (t, src', s')).0
            ≡ (if t then if length payload == len then some payload else none else none)
      fixed false src' s' e = refl
      fixed true src' s' e = rw e refl

      fixed_source :
          (t : Bool) (src' s' : Q.Buf)
          → Holds Q src' rest
          → Holds Q (fixed_bytes Q len (t, src', s')).1 rest
      fixed_source false src' s' h = h
      fixed_source true src' s' h = h

  -- A time whose fields have 32 bits that is marshalled into an empty buffer with room, and unmarshalled
  -- with its tag, comes back, and the buffer is empty again.
  pub unmarshal_timeval-marshal_timeval :
      (s b : Q.Buf) (tag tv_sec tv_usec : ℕ)
      → tag < 2 ^ 32
      → tv_sec < 2 ^ 32
      → tv_usec < 2 ^ 32
      → Q.Valid s
      → Q.Room b 20
      → Q.content b ≡ []
      → Returns
          (λ (found, b', s'). (found ≡ some (tv_sec, tv_usec)) × (Q.content b' ≡ []))
          (marshal_timeval Q s b tag (tv_sec, tv_usec) >>= λ (c, s'). unmarshal_timeval Q s' c tag)
  unfolding unmarshal_timeval
  unmarshal_timeval-marshal_timeval s b tag tv_sec tv_usec small word word' v room empty =
      Returns-bind (marshal_timeval-Message Q s b tag tv_sec tv_usec small word word' v room)
        λ (c, s') (sec, usec, i, j, w).
          let start =
            whole-Holds c w.bytes (w.held ∙ ap (λ (l : List ℕ). l ++ w.bytes) empty) w.valid (
              omega (
                arith,
                Message-size tag (sec ++ usec) w.bytes w.message,
                length-append sec usec,
                i.0,
                j.0,
              )) in
          let short : length (sec ++ usec) < 2 ^ 32 =
            omega (arith, length-append sec usec, i.0, j.0) in
          Returns-bind
            (needed-Message s' c tag tag (sec ++ usec) w.bytes [] w.message short w.valid_scratch
              start)
            λ (done, b', t) (e, left, new).
              let (t', e', left') = get_int_lem Q t tv_sec sec usec i new in
              let (t'', e'', left'') = get_int_lem Q t' tv_usec usec [] j (record {
                held = left'.held ∙ append_nil usec;
                valid = left'.valid;
                short = omega (arith, j.0, length-append usec []);
              }) in
              rw (e, eq→== tag tag refl)
                (unfold time_fields in
                  rw e'
                    (unfold time_sec in rw e'' (unfold time_usec in returns _ (refl, left.held))))
