-- ===== src/Dns/Tests.antt =====
-- The resolver's theorems at concrete packets, names and servers.
use libevent_1_4_3_stable_le.Base.{
  ℕ, ◌≡◌, refl, List, [], ◌∷◌, get_or, arith, true, false, none, some,
}
use mathlib.Core.List.Memᴰ
use libevent_1_4_3_stable_le.Base.Int.{pos}
use libevent_1_4_3_stable_le.Base.Run.{ok, fault, Returns, value_or}
use libevent_1_4_3_stable_le.Dns.{Memory, name_parse}
use libevent_1_4_3_stable_le.Dns.Encoded.{dotted}
use libevent_1_4_3_stable_le.Dns.Labels.{Output, get_pos, table_add, to_labels}
use libevent_1_4_3_stable_le.Dns.Reading.{name_parse_over_read}
use libevent_1_4_3_stable_le.Dns.RoundTrip.{Labelled, to_labels-Labelled, name_parse-to_labels}
use libevent_1_4_3_stable_le.Dns.Unterminated.{to_labels_unterminated}
use libevent_1_4_3_stable_le.Dns.Request.{request_data_build, request_parse}
use libevent_1_4_3_stable_le.Dns.Asked.{ReadBack, request_parse-request_data_build}
use libevent_1_4_3_stable_le.Dns.Served.{Accepted, request_parse-Accepted}
use libevent_1_4_3_stable_le.Dns.Reply.{Inflight, handled, reply_parse}
use libevent_1_4_3_stable_le.Dns.Answers.{Delivered, reply_parse-Delivered}
use libevent_1_4_3_stable_le.Dns.Servers.{
  Nameserver, Servers, Sent, nameserver_pick, nameserver_add, nameserver_probe_failed, no_servers,
  added, probe_failed,
}
use libevent_1_4_3_stable_le.Dns.Queues.{Queues, remove_request, request_finished}
use libevent_1_4_3_stable_le.Dns.Pumping.{Pumped, request_finished-Pumped}
use libevent_1_4_3_stable_le.Dns.Picking.{Counted, Picked, nameserver_pick-Picked}
use libevent_1_4_3_stable_le.Dns.Failing.{Reached-Counted}

abbrev packet_of : List ℕ → Memory
packet_of bytes i = get_or bytes i 0

-- "ab.c"
abbrev ab : List ℕ
ab = 97 ∷ 98 ∷ []

abbrev just_c : List (List ℕ)
just_c = (99 ∷ []) ∷ []

-- A reply to the request 7: the question "a", and one answer for it, whose name is a pointer to the question's.
abbrev reply_packet : Memory
reply_packet = packet_of (
    0 ∷ 7 ∷ 128 ∷ 0 ∷ 0 ∷ 1 ∷ 0 ∷ 1 ∷ 0 ∷ 0 ∷ 0 ∷ 0 ∷ 1 ∷ 97 ∷ 0 ∷ 0 ∷ 1 ∷ 0 ∷ 1 ∷ 192 ∷ 12 ∷ 0 ∷ 1
    ∷ 0 ∷ 1 ∷ 0 ∷ 0 ∷ 0 ∷ 60 ∷ 0 ∷ 4 ∷ 10 ∷ 0 ∷ 0 ∷ 1 ∷ [])

abbrev asked : Inflight
asked = record { trans_id = 7; request_type = 1 }

reply_test :
    reply_parse reply_packet 100 35 64 (asked ∷ [])
    ≡ ok (
        handled asked 32768 60 (
          some (record {
            have_answer = true;
            addrcount = 1;
            addresses = 10 ∷ 0 ∷ 0 ∷ 1 ∷ [];
            name = [];
          })))
unfolding reply_parse
reply_test = refl

reply_parse-Delivered_example :
    Returns (Delivered 64 (asked ∷ [])) (reply_parse reply_packet 100 35 64 (asked ∷ []))
reply_parse-Delivered_example =
    reply_parse-Delivered reply_packet 100 35 64 (asked ∷ []) (omega arith) (omega arith)

name_parse_over_read_example : name_parse (packet_of (5 ∷ 97 ∷ [])) 2 2 256 0 ≡ fault
name_parse_over_read_example =
    name_parse_over_read (packet_of (5 ∷ 97 ∷ [])) 2 2 256 0 (omega arith) (omega arith)
      (omega arith) (omega arith) (omega arith) (omega arith)

request_parse-Accepted_example : Returns Accepted (request_parse reply_packet 100 35)
request_parse-Accepted_example = request_parse-Accepted reply_packet 100 35 (omega arith)

abbrev empty_output : Output
empty_output = record { buf = packet_of []; table = some [] }

to_labels-Labelled_example :
    Returns
      (Labelled empty_output 12 (dotted ab just_c))
      (to_labels 64 empty_output 12 (dotted ab just_c))
to_labels-Labelled_example =
    to_labels-Labelled 64 empty_output 12 ab just_c (omega arith) refl (omega arith) (omega arith)
      (λ e there. elim there [ ])

abbrev one_name : Output
unfolding to_labels
one_name = (value_or (pos 0, empty_output) (to_labels 64 empty_output 12 (dotted ab just_c))).1

one_name_made : to_labels 64 empty_output 12 (dotted ab just_c) ≡ ok (pos 18, one_name)
unfolding to_labels get_pos table_add
one_name_made = refl

-- The same name once more is a pointer of two bytes.
pointer_test : (value_or (pos 0, one_name) (to_labels 64 one_name 18 (dotted ab just_c))).0 ≡ pos 20
unfolding to_labels get_pos table_add
pointer_test = refl

name_parse-to_labels_example :
    name_parse (one_name.buf) 64 18 256 12 ≡ ok (some (18, dotted ab just_c))
name_parse-to_labels_example =
    name_parse-to_labels 64 empty_output one_name 12 18 ab just_c (one_name.buf) 64 18 256
      (omega arith) refl (omega arith) (omega arith) (λ e there. elim there [ ]) one_name_made
      (λ i lt. refl) (omega arith) (omega arith) (omega arith)

to_labels_unterminated_example :
    to_labels 17 (record { buf = packet_of []; table = none }) 12 (dotted ab just_c) ≡ fault
to_labels_unterminated_example =
    to_labels_unterminated 17 (packet_of []) 12 ab just_c refl (omega arith) refl

request_parse-request_data_build_example :
    Returns
      (ReadBack 64 (dotted ab just_c) 7 1 1)
      (request_data_build 64 (dotted ab just_c) 7 1 1 (packet_of []))
request_parse-request_data_build_example =
    request_parse-request_data_build 64 ab just_c 7 1 1 (packet_of []) 64 (omega arith) refl
      (omega arith) (omega arith) refl (omega arith)

abbrev up_server : Nameserver
up_server = record { id = 1; failed_times = 0; timedout = 0; state = true }

abbrev down_server : Nameserver
down_server = record { id = 2; failed_times = 3; timedout = 0; state = false }

abbrev two_servers : Servers
two_servers = record { ring = down_server ∷ up_server ∷ []; good = 1 }

nameserver_pick-Picked_example : Returns (Picked two_servers) (nameserver_pick two_servers)
nameserver_pick-Picked_example = nameserver_pick-Picked two_servers refl

abbrev added_servers : Servers
added_servers = (nameserver_add none 2 (nameserver_add none 1 (record { ring = []; good = 0 })).1).1

Reached-Counted_example : Counted (nameserver_probe_failed 1 added_servers)
Reached-Counted_example = Reached-Counted (probe_failed 1 (added none 2 (added none 1 no_servers)))

-- The server 1 does not implement the query, and the other one is down.
abbrev sent_to_one : Sent
sent_to_one = record { ns = some 1; tx_count = 3; reissue_count = 0; transmit_me = false }

abbrev busy : Queues
busy = record {
  inflight = 4 ∷ 5 ∷ [];
  waiting = 6 ∷ 7 ∷ [];
  global_requests_inflight = 2;
  global_requests_waiting = 2;
}

request_finished-Pumped_example :
    Returns (Pumped 2 (remove_request 4 (4 ∷ 5 ∷ [])) (6 ∷ 7 ∷ [])) (request_finished 2 4 busy)
request_finished-Pumped_example = request_finished-Pumped 2 4 busy (refl, refl) (Memᴰ.head refl)
