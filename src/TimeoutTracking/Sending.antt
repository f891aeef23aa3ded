-- ===== src/TimeoutTracking/Sending.antt =====
-- Whether the statistics of frontik/timeout_tracking.py are ever sent.
use frontik.Prelude.{ℕ, String, ◌≡◌, refl, Option, none, some, ◌∙◌, arith}
use frontik.TimeoutTracking.{
  LoggingData, Sender, new_sender, send_data, send_stats_callback, start_sending_if_needed,
  TimeoutChecker, Request, get_timeout_checker, check,
}

-- The senders that the module's functions can come to, from `Sender()`. The statistics are sent by
-- the callback alone, so `__send_aggregated_stats` is not among them.
pub data Reach : Sender → Type 0 where
  begin : Reach new_sender
  sends : {s : Sender} (k : LoggingData) (spent : ℕ) → Reach s → Reach (send_data s k spent)
  starts : {s : Sender} (interval_ms : ℕ) → Reach s → Reach (start_sending_if_needed interval_ms s)
  makes_checker :
      {s : Sender} (interval_ms : ℕ) (outer_caller : Option String) (outer_ms start_ms : ℕ)
      → Reach s
      → Reach (get_timeout_checker interval_ms s outer_caller outer_ms start_ms).0
  checks :
      {s : Sender} (c : TimeoutChecker) (handler : Option String) (now_ms : ℕ) (request : Request)
      → Reach s
      → Reach (check s c handler now_ms request)

start_sending-attribute :
    (interval_ms : ℕ) (s : Sender)
    → s.send_stats_attribute ≡ some none
    → (start_sending_if_needed interval_ms s).send_stats_attribute ≡ some none
unfolding start_sending_if_needed
start_sending-attribute interval_ms s h = ground arith

check-attribute :
    (s : Sender) (c : TimeoutChecker) (handler : Option String) (now_ms : ℕ) (request : Request)
    → (check s c handler now_ms request).send_stats_attribute ≡ s.send_stats_attribute
unfolding check
check-attribute s c handler now_ms request = ground arith

attribute_of_Reach : {s : Sender} → Reach s → s.send_stats_attribute ≡ some none
unfolding send_data get_timeout_checker
attribute_of_Reach begin = refl
attribute_of_Reach (sends k spent r) = attribute_of_Reach r
attribute_of_Reach (starts {s} interval_ms r) =
    start_sending-attribute interval_ms s (attribute_of_Reach r)
attribute_of_Reach (makes_checker {s} interval_ms outer_caller outer_ms start_ms r) =
    start_sending-attribute interval_ms s (attribute_of_Reach r)
attribute_of_Reach (checks {s} c handler now_ms request r) =
    check-attribute s c handler now_ms request ∙ attribute_of_Reach r

-- Since `__init__` sets the attribute that the property tests for with `hasattr`, no sender ever has
-- a callback, whatever the interval: the property returns none and starting changes nothing.
pub send_stats_callback-none :
    (s : Sender) (interval_ms : ℕ)
    → Reach s
    → ((send_stats_callback interval_ms s).1 ≡ none) × (start_sending_if_needed interval_ms s ≡ s)
unfolding start_sending_if_needed
send_stats_callback-none s interval_ms r =
    let e = attribute_of_Reach r in (ground (arith, e), ground (arith, e))
