-- ===== src/TimeoutTracking/Tests.antt =====
-- Runs of frontik/timeout_tracking.py, and the theorems at them.
use Prim.Native.Nat.{max}
use frontik.Prelude.{◌+◌, ◌≡◌, refl, none, some, [], ◌∷◌}
use frontik.TimeoutTracking.{
  LoggingData, get_item, Sender, new_sender, send_data, TimeoutChecker, Request, check,
  send_stats_callback, start_sending_if_needed, get_timeout_checker,
}
use frontik.TimeoutTracking.Counts.{record_all, count_of, longest_of, get_item-record_all}
use frontik.TimeoutTracking.Sending.{begin, makes_checker, checks, send_stats_callback-none}

abbrev checker : TimeoutChecker
checker = record {
  outer_caller = some "gateway";
  outer_timeout_ms = 500;
  request_start_time_ms = 1000;
  threshold_ms = 100;
}

abbrev slow : Request
slow = record { upstream_name = "resume"; request_time_left_ms = 550 }

abbrev event : LoggingData
event = record {
  outer_caller = some "gateway";
  outer_timeout_ms = 500;
  upstream = "resume";
  handler_name = none;
  request_timeout_ms = 550;
}

-- 550 ms are asked for after 50 ms of 500 ms were spent: that is within the threshold, 51 ms is not.
check_tests :
    (check new_sender checker none 1050 slow ≡ new_sender)
    × (check new_sender checker none 1051 slow ≡ send_data new_sender event 51)
unfolding check
check_tests = (refl, refl)

get_item-record_all_example :
    get_item (record_all [] ((event, 51) ∷ (event, 70) ∷ (event, 60) ∷ [])) event ≡ (
      (get_item [] event).0 + count_of event ((event, 51) ∷ (event, 70) ∷ (event, 60) ∷ []),
      max (get_item [] event).1 (longest_of event ((event, 51) ∷ (event, 70) ∷ (event, 60) ∷ [])),
    )
get_item-record_all_example =
    get_item-record_all [] ((event, 51) ∷ (event, 70) ∷ (event, 60) ∷ []) event

abbrev used : Sender
used =
    check (get_timeout_checker 60000 new_sender (some "gateway") 500 1000).0 checker none 1051 slow

send_stats_callback-none_example :
    ((send_stats_callback 60000 used).1 ≡ none) × (start_sending_if_needed 60000 used ≡ used)
send_stats_callback-none_example =
    send_stats_callback-none used 60000
      (checks checker none 1051 slow (makes_checker 60000 (some "gateway") 500 1000 begin))
