-- ===== src/Tagging/Tests.antt =====
-- The theorems at concrete inputs, with a buffer whose memory is always granted.
use libevent_1_4_3_stable_le.Base.{◌≡◌, refl, [], ◌∷◌, ◌++◌, arith, true, some}
use libevent_1_4_3_stable_le.Base.Run.{fault, Returns, ◌>>=◌}
use libevent_1_4_3_stable_le.Buffer.{Evbuffer, Allocator}
use libevent_1_4_3_stable_le.Buffer.Memory.{content}
use libevent_1_4_3_stable_le.Buffer.Queue.{ByteQueue, evbuffer_queue, HasRoom}
use libevent_1_4_3_stable_le.Tagging.Tags.{decode_tag}
use libevent_1_4_3_stable_le.Tagging.Tags.RoundTrip.{decode_tag-overlong}
use libevent_1_4_3_stable_le.Tagging.Messages.{marshal}
use libevent_1_4_3_stable_le.Tagging.Reading.{unmarshal}
use libevent_1_4_3_stable_le.Tagging.Reading.Fields.{unmarshal-marshal}

decode_tag-overlong_example : decode_tag (128 ∷ 129 ∷ 130 ∷ 131 ∷ 132 ∷ 1 ∷ []) ≡ fault
decode_tag-overlong_example =
    decode_tag-overlong 128 129 130 131 132 1 [] refl refl refl refl refl (omega arith)

abbrev all_granted : Allocator
all_granted = record { grants = λ len. true; junk = λ i. 0 }

abbrev queue : ByteQueue
queue = evbuffer_queue all_granted (λ len. refl)

abbrev empty_buffer : Evbuffer
empty_buffer = record {
  block = [];
  buffer = 0;
  misalign = 0;
  totallen = 0;
  off = 0;
  cb = true;
  calls = [];
}

content-empty_buffer : content empty_buffer ≡ []
unfolding content
content-empty_buffer = refl

empty-HasRoom : HasRoom empty_buffer 100
empty-HasRoom = record {
  valid = record { placed = refl; sized = refl; fits = omega arith; bounded = omega arith };
  small = omega arith;
}

unmarshal-marshal_example :
    Returns
      (λ (found, b', d).
        (found ≡ some (7, 3))
        × (content b' ≡ [])
        × (content d ≡ content empty_buffer ++ (1 ∷ 2 ∷ 3 ∷ [])))
      (marshal queue empty_buffer 7 (1 ∷ 2 ∷ 3 ∷ []) >>= λ c. unmarshal queue c empty_buffer)
unmarshal-marshal_example =
    unmarshal-marshal queue empty_buffer empty_buffer 7 (1 ∷ 2 ∷ 3 ∷ []) (omega arith) (omega arith)
      (queue.room_less empty_buffer 100 13 empty-HasRoom (omega arith))
      (queue.room_less empty_buffer 100 3 empty-HasRoom (omega arith)) content-empty_buffer
