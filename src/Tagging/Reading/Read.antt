-- ===== src/Tagging/Reading/Read.antt =====
-- The readers take one message off the front, and give back what the writers were given.
use libevent_1_4_3_stable_le.Base.{
  ℕ, ◌+◌, ◌^◌, ◌%◌, ◌<◌, ◌≡◌, refl, ap, ◌∙◌, List, ◌++◌, length, arith, length-append, some, le→ltb,
  true,
}
use libevent_1_4_3_stable_le.Base.Slices.{drop-append_length, take-append_length}
use libevent_1_4_3_stable_le.Base.Run.{ok, Returns, returns, Returns-bind}
use libevent_1_4_3_stable_le.Base.Words.{u32_mod}
use libevent_1_4_3_stable_le.Buffer.Queue.{ByteQueue}
use libevent_1_4_3_stable_le.Tagging.Ints.RoundTrip.{IntBytes}
use libevent_1_4_3_stable_le.Tagging.Tags.RoundTrip.{TagBytes}
use libevent_1_4_3_stable_le.Tagging.Messages.Written.{Message, append_assoc}
use libevent_1_4_3_stable_le.Tagging.Reading.{
  get_tag, get_int, consume, unmarshal, unmarshal_length, unmarshal_payload, peek_length,
  length_behind,
}

module _ (Q : ByteQueue) where
  -- `b` holds these bytes, less than 2^31 of them, and is valid.
  pub record Holds (b : Q.Buf) (bytes : List ℕ) : Type 0 where
    pub held : Q.content b ≡ bytes
    pub valid : Q.Valid b
    pub short : length bytes < 2 ^ 31

  -- Draining what stands in front of the rest.
  pub drain-Holds :
      (b : Q.Buf) (front rest : List ℕ)
      → Holds b (front ++ rest)
      → Holds (Q.drain b (length front)) rest
  drain-Holds b front rest h =
      let (less, valid) = Q.drain_lem b (length front) h.valid in
      record {
        held = less ∙ rw h.held (drop-append_length (length front) front rest refl);
        valid = valid;
        short = omega (arith, h.short, length-append front rest);
      }

  pub get_tag_lem :
      (src : Q.Buf) (tag : ℕ) (tagged rest : List ℕ)
      → TagBytes tag tagged
      → Holds src (tagged ++ rest)
      → Returns (λ (found, s). (found ≡ some tag) × Holds s rest) (get_tag Q src)
  unfolding get_tag
  get_tag_lem src tag tagged rest t h =
      rw (h.held, t.2 rest h.short) (returns _ (refl, drain-Holds src tagged rest h))

  pub get_int_lem :
      (src : Q.Buf) (number : ℕ) (sized rest : List ℕ)
      → IntBytes number sized
      → Holds src (sized ++ rest)
      → (s : Q.Buf) × (get_int Q src ≡ (some number, s)) × Holds s rest
  unfolding get_int
  get_int_lem src number sized rest t h =
      (Q.drain src (length sized), rw (h.held, t.2 rest h.short) refl, drain-Holds src sized rest h)

  Message-append :
      (tag : ℕ) (payload bytes rest : List ℕ) (m : Message tag payload bytes)
      → bytes ++ rest ≡ m.tagged ++ (m.sized ++ (payload ++ rest))
  Message-append tag payload bytes rest m =
      ap (λ (l : List ℕ). l ++ rest) m.whole
      ∙ append_assoc m.tagged (m.sized ++ payload) rest
      ∙ ap (λ (l : List ℕ). m.tagged ++ l) (append_assoc m.sized payload rest)

  pub Message-Holds :
      (src : Q.Buf) (tag : ℕ) (payload bytes rest : List ℕ) (m : Message tag payload bytes)
      → Holds src (bytes ++ rest)
      → Holds src (m.tagged ++ (m.sized ++ (payload ++ rest)))
  Message-Holds src tag payload bytes rest m h = record {
    held = h.held ∙ Message-append tag payload bytes rest m;
    valid = h.valid;
    short = rw (Message-append tag payload bytes rest m) at h.short;
  }

  -- When a message stands in front, `evtag_consume` returns 0 and takes exactly the message.
  pub consume-Message :
      (src : Q.Buf) (tag : ℕ) (payload bytes rest : List ℕ)
      → Message tag payload bytes
      → Holds src (bytes ++ rest)
      → Returns (λ (done, s). (done ≡ true) × Holds s rest) (consume Q src)
  unfolding consume
  consume-Message src tag payload bytes rest m h =
      Returns-bind
        (get_tag_lem src tag m.tagged _ m.has_tag (Message-Holds src tag payload bytes rest m h))
        λ (found, s) (e, left).
          let (s', e', left') = get_int_lem s (length payload) m.sized _ m.has_length left in
          rw (e, e') (returns _ (refl, drain-Holds s' payload rest left'))

  payload-Read :
      (src dst : Q.Buf) (tag : ℕ) (payload rest : List ℕ)
      → Holds src (payload ++ rest)
      → Q.Room dst (length payload)
      → Returns
          (λ (found, s, d).
            (found ≡ some (tag, length payload))
            × Holds s rest
            × (Q.content d ≡ Q.content dst ++ payload)
            × Q.Valid d)
          (unmarshal_payload Q tag (some (length payload), src) dst)
  unfolding unmarshal_payload
  payload-Read src dst tag payload rest h room =
      let front = take-append_length (length payload) payload rest refl in
      rw
        (
          h.held,
          le→ltb (length (payload ++ rest)) (length payload)
              (omega (arith, length-append payload rest)),
          front,
        )
        (Returns-bind
          (Q.add_lem dst payload 0 (Q.room_less dst (length payload) _ room (omega arith)))
          λ (r, d) (done, held, left).
            rw done (returns _ (refl, drain-Holds src payload rest h, held, Q.room-Valid d 0 left)))

  -- `evtag_unmarshal` returns the tag and the length, takes exactly the message from the source, and
  -- adds the payload to the target.
  pub unmarshal-Message :
      (src dst : Q.Buf) (tag : ℕ) (payload bytes rest : List ℕ)
      → Message tag payload bytes
      → Holds src (bytes ++ rest)
      → Q.Room dst (length payload)
      → Returns
          (λ (found, s, d).
            (found ≡ some (tag, length payload))
            × Holds s rest
            × (Q.content d ≡ Q.content dst ++ payload)
            × Q.Valid d)
          (unmarshal Q src dst)
  unfolding unmarshal unmarshal_length
  unmarshal-Message src dst tag payload bytes rest m h room =
      Returns-bind
        (get_tag_lem src tag m.tagged _ m.has_tag (Message-Holds src tag payload bytes rest m h))
        λ (found, s) (e, left).
          let (s', e', left') = get_int_lem s (length payload) m.sized _ m.has_length left in
          rw (e, e') (payload-Read s' dst tag payload rest left' room)

  -- When a message of less than 2 ^ 32 bytes stands in front, `evtag_peek_length` gives its length.
  pub peek_length-Message :
      (src : Q.Buf) (tag : ℕ) (payload bytes rest : List ℕ)
      → Message tag payload bytes
      → Holds src (bytes ++ rest)
      → length bytes < 2 ^ 32
      → peek_length Q src ≡ ok (some (length bytes))
  unfolding peek_length length_behind
  peek_length-Message src tag payload bytes rest m h small =
      let behind = m.sized ++ (payload ++ rest) in
      let here = Message-Holds src tag payload bytes rest m h in
      let after : length behind < 2 ^ 31 =
        omega (arith, here.short, length-append m.tagged behind) in
      let size : length bytes ≡ length m.tagged + (length m.sized + length payload) =
        ap (λ (l : List ℕ). length l) m.whole
        ∙ rw (length-append m.tagged (m.sized ++ payload), length-append m.sized payload) refl in
      let sum : (length payload + (length m.sized + length m.tagged)) % u32_mod ≡ length bytes =
        omega arith in
      rw
        (
          here.held,
          m.has_tag.2 behind here.short,
          drop-append_length (length m.tagged) m.tagged behind refl,
          m.has_length.2 (payload ++ rest) after,
          sum,
        )
        refl
