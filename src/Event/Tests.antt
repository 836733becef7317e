-- ===== src/Event/Tests.antt =====
-- The theorems about bases and events, at the bases of Samples.
use libevent_1_4_3_stable_le.Base.{ℕ, ◌≡◌, true, false, none, arith}
use libevent_1_4_3_stable_le.Base.Run.{ok, ◌>>=◌, Returns}
use libevent_1_4_3_stable_le.Base.Int.{pos}
use libevent_1_4_3_stable_le.Event.{Event, event_del}
use libevent_1_4_3_stable_le.Event.Timeouts.{timeout_correct, timeout_process}
use libevent_1_4_3_stable_le.Event.Changes.{Changed}
use libevent_1_4_3_stable_le.Event.Delete.{deleted, event_del-Changed}
use libevent_1_4_3_stable_le.Event.Expire.{expired, Processed, timeout_process-Processed}
use libevent_1_4_3_stable_le.Event.Clock.{Corrected, timeout_correct-Corrected}
use libevent_1_4_3_stable_le.Event.Priorities.{FirstQueue, process_active-FirstQueue}
use libevent_1_4_3_stable_le.Event.Loop.{run_queue, process_active}
use libevent_1_4_3_stable_le.Event.Wait.{timeout_next-timeout_process}
use libevent_1_4_3_stable_le.Event.Calls.{run_call, IsSound}
use libevent_1_4_3_stable_le.Event.Reach.{Reach, Reach-IsSound, run_call-Reach}
use libevent_1_4_3_stable_le.Event.Samples.{
  cleared_event, reading, selects, selects-IsEvsel, all_granted, seconds, set_base, set_base-Reach,
  add_call, add_call-Allowed, added_base, added_base-Reach, added_base-IsSound, waiting_event,
  seconds-IsNormal, added_base-Ready, added_base-Normal, next_wait, wait_is_over, active_base-Reach,
  active_base, active_base_count,
}

run_call-Reach_example :
    Returns (Reach all_granted selects) (run_call all_granted selects add_call set_base)
run_call-Reach_example =
    run_call-Reach all_granted selects selects-IsEvsel set_base add_call set_base-Reach
      add_call-Allowed

Reach-IsSound_example : IsSound selects added_base
Reach-IsSound_example =
    Reach-IsSound all_granted selects selects-IsEvsel added_base added_base-Reach

event_del-Changed_example :
    Returns
      (λ (r, c). Changed added_base 3 (deleted (added_base.events 3)) c)
      (event_del selects added_base 3)
event_del-Changed_example =
    event_del-Changed selects selects-IsEvsel added_base 3 added_base-IsSound.valid
      (added_base-Ready 3 waiting_event).2 (added_base-Ready 3 waiting_event).0

timeout_process-Processed_example :
    Returns
      (Processed (seconds 111) added_base)
      (timeout_process all_granted selects added_base (seconds 111))
timeout_process-Processed_example =
    timeout_process-Processed all_granted selects selects-IsEvsel (seconds 111) added_base
      added_base-IsSound.valid added_base-Ready

timeout_correct-Corrected_example :
    Corrected false (seconds 90) added_base (timeout_correct false added_base (seconds 90))
timeout_correct-Corrected_example =
    timeout_correct-Corrected false added_base (seconds 90) added_base-IsSound.valid
      added_base-Normal (seconds-IsNormal 90)

timeout_next-timeout_process_example :
    Returns
      (λ c.
        (e : ℕ) × ((added_base.events e).ev_flags.timeout ≡ true)
        × (c.events e ≡ expired (added_base.events e)))
      (timeout_process all_granted selects added_base (seconds 111))
timeout_next-timeout_process_example =
    timeout_next-timeout_process all_granted selects selects-IsEvsel added_base (seconds 105)
      (seconds 111) (seconds 0) (seconds 6) added_base-IsSound.valid added_base-Ready
      added_base-Normal (seconds-IsNormal 105) next_wait wait_is_over

process_active-FirstQueue_example :
    (i : ℕ) × FirstQueue active_base.activequeues i
    × (process_active (λ e b. ok b) selects 5 active_base ≡ (
        run_queue (λ e b. ok b) selects 5 active_base i >>= λ c. ok (record c { ncalls = none })))
process_active-FirstQueue_example =
    process_active-FirstQueue (λ e b. ok b) selects 5 active_base
      (Reach-IsSound all_granted selects selects-IsEvsel active_base active_base-Reach).valid
      (λ zero'. absurd (ground (arith, active_base_count)))

-- The descriptor 70 is beyond the first sets, which have 64 bits.
abbrev high_event : Event
high_event = record cleared_event { ev_fd = pos 70; ev_events = reading }
