-- ===== src/Tagging/Messages/Written.antt =====
-- The writers add one message: the tag, the length of the data and the data.
use libevent_1_4_3_stable_le.Base.{
  ℕ, ◌+◌, ◌^◌, ◌%◌, ◌<◌, ◌≡◌, refl, ap, ◌∙◌, List, [], ◌∷◌, ◌++◌, length, arith, length-append,
}
use libevent_1_4_3_stable_le.Base.Slices.{drop_all}
use libevent_1_4_3_stable_le.Base.Run.{Returns, returns, Returns-bind}
use libevent_1_4_3_stable_le.Base.Words.{u32_mod}
use libevent_1_4_3_stable_le.Buffer.Queue.{ByteQueue}
use libevent_1_4_3_stable_le.Tagging.Ints.RoundTrip.{IntBytes, encode_int-IntBytes}
use libevent_1_4_3_stable_le.Tagging.Tags.RoundTrip.{TagBytes, encode_tag-TagBytes}
use libevent_1_4_3_stable_le.Tagging.Messages.{
  put_tag, put_int, marshal, clear, marshal_int, marshal_timeval,
}

-- The bytes of one message.
pub record Message (tag : ℕ) (payload bytes : List ℕ) : Type 0 where
  pub tagged : List ℕ
  pub sized : List ℕ
  pub has_tag : TagBytes tag tagged
  pub has_length : IntBytes (length payload) sized
  pub whole : bytes ≡ tagged ++ (sized ++ payload)

pub append_assoc : (a b c : List ℕ) → (a ++ b) ++ c ≡ a ++ (b ++ c)
append_assoc [] b c = refl
append_assoc (x ∷ a) b c = ap (λ (l : List ℕ). x ∷ l) (append_assoc a b c)

-- Three writes after another are one.
joined : (b c d e x y z : List ℕ) → c ≡ b ++ x → d ≡ c ++ y → e ≡ d ++ z → e ≡ b ++ (x ++ (y ++ z))
joined b c d e x y z first second third =
    third
    ∙ ap (λ (l : List ℕ). l ++ z) (second ∙ ap (λ (l : List ℕ). l ++ y) first)
    ∙ append_assoc (b ++ x) y z
    ∙ append_assoc b x (y ++ z)

module _ (Q : ByteQueue) where
  -- `c` is `b` with the bytes behind its own, and can take `n` more.
  pub record Wrote (b : Q.Buf) (bytes : List ℕ) (n : ℕ) (c : Q.Buf) : Type 0 where
    pub held : Q.content c ≡ Q.content b ++ bytes
    pub room : Q.Room c n

  put_tag_lem :
      (b : Q.Buf) (tag n : ℕ)
      → tag < 2 ^ 32
      → Q.Room b (5 + n)
      → Returns
          (λ (k, c). (bytes : List ℕ) × (k ≡ length bytes) × TagBytes tag bytes × Wrote b bytes n c)
          (put_tag Q b tag)
  unfolding put_tag
  put_tag_lem b tag n small room = Returns-bind (encode_tag-TagBytes tag small) λ bytes t.
      Returns-bind
        (Q.add_lem b bytes n (Q.room_less b (5 + n) (length bytes + n) room (omega (arith, t.0))))
        λ (r, c) (done, held, left). returns _ (bytes, refl, t, record { held = held; room = left })

  put_int_lem :
      (b : Q.Buf) (number n : ℕ)
      → number < 2 ^ 32
      → Q.Room b (5 + n)
      → Returns
          (λ c. (bytes : List ℕ) × IntBytes number bytes × Wrote b bytes n c)
          (put_int Q b number)
  unfolding put_int
  put_int_lem b number n small room = Returns-bind (encode_int-IntBytes number small) λ bytes t.
      Returns-bind
        (Q.add_lem b bytes n (Q.room_less b (5 + n) (length bytes + n) room (omega (arith, t.0))))
        λ (r, c) (done, held, left). returns _ (bytes, t, record { held = held; room = left })

  -- With room for it, marshalling adds one message of the tag and the data.
  pub marshal-Message :
      (b : Q.Buf) (tag n : ℕ) (payload : List ℕ)
      → tag < 2 ^ 32
      → length payload < 2 ^ 32
      → Q.Room b (10 + (length payload + n))
      → Returns
          (λ c. (bytes : List ℕ) × Message tag payload bytes × Wrote b bytes n c)
          (marshal Q b tag payload)
  unfolding marshal
  marshal-Message b tag n payload small short room =
      Returns-bind
        (put_tag_lem b tag (5 + (length payload + n)) small
          (Q.room_less b (10 + (length payload + n)) _ room (omega arith)))
        λ (k, c) (tagged, count, t, w).
          Returns-bind (put_int_lem c (length payload) (length payload + n) short w.room)
            λ d (sized, i, x).
              Returns-bind (Q.add_lem d payload n x.room) λ (r, e) (done, held, left). returns e (
                tagged ++ (sized ++ payload),
                record {
                  tagged = tagged;
                  sized = sized;
                  has_tag = t;
                  has_length = i;
                  whole = refl;
                },
                record {
                  held = joined _ _ _ _ tagged sized payload w.held x.held held;
                  room = left;
                },
              )

  pub clear_lem :
      (s : Q.Buf) → Q.Valid s → (Q.content (clear Q s) ≡ []) × Q.Room (clear Q s) (2 ^ 62)
  unfolding clear
  clear_lem s v =
      let (rest, valid) = Q.drain_lem s (length (Q.content s)) v in
      (
        rest ∙ drop_all (length (Q.content s)) (Q.content s) (omega arith),
        Q.drain_room s (length (Q.content s)) v (omega arith),
      )

  -- `c` and the scratch buffer `s` after a message with this payload has been added to `b`.
  pub record WroteBoth (b : Q.Buf) (tag : ℕ) (payload : List ℕ) (c s : Q.Buf) : Type 0 where
    pub bytes : List ℕ
    pub message : Message tag payload bytes
    pub held : Q.content c ≡ Q.content b ++ bytes
    pub valid : Q.Valid c
    pub valid_scratch : Q.Valid s

  -- Marshalling an integer adds one message whose payload is the encoding of the integer.
  pub marshal_int-Message :
      (s b : Q.Buf) (tag integer : ℕ)
      → tag < 2 ^ 32
      → integer < 2 ^ 32
      → Q.Valid s
      → Q.Room b 15
      → Returns
          (λ (c, s'). (payload : List ℕ) × IntBytes integer payload × WroteBoth b tag payload c s')
          (marshal_int Q s b tag integer)
  unfolding marshal_int
  marshal_int-Message s b tag integer small word v room =
      let (empty, wide) = clear_lem s v in
      Returns-bind
        (put_int_lem (clear Q s) integer 0 word (Q.room_less _ (2 ^ 62) 5 wide (omega arith)))
        λ f (payload, i, w).
          let filled : Q.content f ≡ payload = w.held ∙ ap (λ (l : List ℕ). l ++ payload) empty in
          let len : length (Q.content f) % u32_mod ≡ length payload =
            rw filled (omega (arith, i.0)) in
          Returns-bind (put_tag_lem b tag 10 small room) λ (k, c) (tagged, count, t, x).
            Returns-bind (put_int_lem c (length (Q.content f) % u32_mod) 5 (omega arith) x.room)
              λ d (sized, j, y).
                Returns-bind
                  (Q.move_lem d f (Q.room-Valid f 0 w.room)
                    (rw filled (Q.room_less d 5 (length payload) y.room i.0)))
                  λ (r, e, g) (done, held, none', valid, valid'). returns _ (
                    payload,
                    i,
                    record {
                      bytes = tagged ++ (sized ++ payload);
                      message = record {
                        tagged = tagged;
                        sized = sized;
                        has_tag = t;
                        has_length = rw len at j;
                        whole = refl;
                      };
                      held = joined _ _ _ _ tagged sized payload x.held y.held (rw filled at held);
                      valid = valid;
                      valid_scratch = valid';
                    },
                  )

  -- Marshalling a time adds one message whose payload is the encodings of its two fields.
  pub marshal_timeval-Message :
      (s b : Q.Buf) (tag tv_sec tv_usec : ℕ)
      → tag < 2 ^ 32
      → tv_sec < 2 ^ 32
      → tv_usec < 2 ^ 32
      → Q.Valid s
      → Q.Room b 20
      → Returns
          (λ (c, s').
            (sec : List ℕ) × (usec : List ℕ) × IntBytes tv_sec sec
            × IntBytes tv_usec usec
            × WroteBoth b tag (sec ++ usec) c s')
          (marshal_timeval Q s b tag (tv_sec, tv_usec))
  unfolding marshal_timeval
  marshal_timeval-Message s b tag tv_sec tv_usec small word word' v room =
      let (empty, wide) = clear_lem s v in
      let plain : tv_sec % u32_mod ≡ tv_sec = omega arith in
      let plain' : tv_usec % u32_mod ≡ tv_usec = omega arith in
      rw (plain, plain')
        (Returns-bind
          (put_int_lem (clear Q s) tv_sec 5 word (Q.room_less _ (2 ^ 62) 10 wide (omega arith)))
          λ f (sec, i, w). Returns-bind (put_int_lem f tv_usec 0 word' w.room) λ g (usec, j, x).
            let filled : Q.content g ≡ sec ++ usec =
              x.held
              ∙ ap (λ (l : List ℕ). l ++ usec) (w.held ∙ ap (λ (l : List ℕ). l ++ sec) empty) in
            let size = length-append sec usec in
            rw filled (
              Returns-bind
                (marshal-Message b tag 0 (sec ++ usec) small (omega (arith, i.0, j.0))
                  (Q.room_less b 20 _ room (omega (arith, i.0, j.0))))
                λ c (bytes, message, y). returns _ (
                  sec,
                  usec,
                  i,
                  j,
                  record {
                    bytes = bytes;
                    message = message;
                    held = y.held;
                    valid = Q.room-Valid c 0 y.room;
                    valid_scratch = Q.room-Valid g 0 x.room;
                  },
                )))
