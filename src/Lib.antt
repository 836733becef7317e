-- ===== src/Lib.antt =====
-- libevent 1.4.3: verified models of the library's core.
--
-- The library waits for events on file descriptors, for signals and for timeouts, and calls back. A heap
-- orders the timeouts (min_heap.h). Data that is read and written goes through byte queues (buffer.c), over
-- which event_tagging.c puts messages of a tag, a length and a payload. evdns.c asks nameservers for names,
-- and helps to answer such questions.
--
-- Which file models what:
-- Base: lists, numbers, C integers, and `Run`, the results of calls that may leave their memory, end the
--   process or not terminate.
-- MinHeap: min_heap.h. The array of pointers is a list of event numbers, the `min_heap_idx` of all events
--   is a function, and the comparison of timeouts is any total order. `min_heap_push`, `min_heap_pop`,
--   `min_heap_erase` and the two sifts are `push`, `pop`, `erase`, `shift_up` and `shift_down`.
-- Buffer: buffer.c. `struct evbuffer` is a record whose allocated block is a list of bytes; `evbuffer_add`
--   is `add`, and so on for the other functions. What `realloc` grants is a parameter. Queue states what a
--   client needs of a byte queue, and that a buffer has it while memory is granted.
-- Tagging: event_tagging.c, over any such byte queue. Ints and Tags have the two encodings of numbers,
--   Messages the functions that write, Reading those that read.
-- Http: http.c, the strings. Uri has `evhttp_encode_uri` and `evhttp_decode_uri`, Headers the lists of
--   headers, Query `evhttp_parse_query`. A string is the list of its bytes before the NUL.
-- Dns: evdns.c. A packet is a function from places to bytes, of which `size` may be read and `len` were
--   received. `name_parse` stands in Dns, `dnsname_to_labels` in Labels; Encoded says when a name stands in
--   a packet. Request has `evdns_request_data_build` and `request_parse`, Reply has `reply_parse` up to its
--   call of `reply_handle`, for the list of the requests in flight. Servers has the circular list of
--   nameservers, from `server_head` on, and the functions that pick a server and mark it up or down, Queues
--   the requests in flight and those that wait. HOST_NAME_MAX is a parameter, and what `malloc` asks for is
--   granted.
-- Event: event.c, over the heap. `struct event_base` is `EventBase`, where an event is a number;
--   `queue_remove`, `queue_insert`, `event_add`, `event_del` and `event_active` are the functions of
--   event.c. Time has `struct timeval`, Setup the functions that make bases and set events up, Timeouts
--   `timeout_next`, `timeout_correct` and `timeout_process`, Loop `event_process_active` and
--   `event_base_loop`. Invariant says when a base is well formed, Calls which calls a program may make,
--   Reach where they lead. What the clock gives, what a kernel interface does (`Evsel`) and what a callback
--   does are parameters; IsEvsel is what is relied on of a kernel interface, for the events that it
--   accepts. Select has select.c, Fitted and Selecting the proof that it is such an interface, for events
--   that wait for no signal, Registering what it does to its tables; kqueue.c, which writes a flag of its
--   own into an event, is none. Samples has a base over select.c. The seconds of a `struct timeval` are
--   unbounded, so that the sum of a time and a timeout does not overflow. The heap of the timeouts is the
--   one of MinHeap, so its theorems carry those of Event.
--
-- Fuel. A sift moves at most as often as there are events. The doubling of a block in `expand` has 65
-- rounds, since a size of 64 bits is 0 after 64 doublings and stays 0. The printing loop of `add_vprintf`
-- runs twice at most when memory is granted. Encoding an integer has 9 rounds, one for each of its 8
-- nibbles and one for the test that ends the loop. Encoding a tag has 5 rounds, one for each byte of its
-- array. The loops over URIs and arguments have a round more than there are characters. A round of
-- `name_parse` counts a pointer, of which the packet's length is the limit, or makes the name longer, which
-- is limited by its buffer; a round of `dnsname_to_labels` takes a dot off the name. The queue of waiting
-- requests is pumped once for each of them. The size of the sets of select.c doubles in 32 rounds, since it
-- is an `int` of at least 8. `timeout_process` has a round more than there are events in the heap. The
-- loops over callbacks take the fuel as an argument, since callbacks may make events active for ever.
-- Theorems that say that a call returns cover all of these.
--
-- Not modelled: of event.c the release of a base, the reinitialisation after a fork and `event_once`; the
-- kernel interfaces but for the tables of select.c (poll.c, epoll.c, kqueue.c, devpoll.c, evport.c,
-- signal.c), the connections, requests and servers of http.c and `evhttp_htmlescape`, of evdns.c
-- `reply_handle`, the searches, the timers, the transaction ids and the transmission of requests, the
-- building of replies, the sockets and the reading of resolv.conf; RPC (evrpc.c), bufferevents
-- (evbuffer.c), logging and the portability layer, and what a callback does to the buffer that calls it. Of
-- the loop, a signal that arrives while event_sigcb runs is not modelled.
pub mod Base
pub mod MinHeap
pub mod Buffer
pub mod Tagging
pub mod Http
pub mod Event
pub mod Dns
