-- ===== src/TimeoutTracking.antt =====
-- frontik/timeout_tracking.py: requests that are given more time than their caller waits.
-- Times are whole milliseconds, and the clock does not run back behind the start of the request.
pub mod Counts
pub mod Sending
mod Tests
use Prim.Native.Nat.{max}
use frontik.Prelude.{
  ℕ, ◌+◌, ◌-◌, String, Bool, true, false, ◌&&◌, List, [], ◌∷◌, Option, none, some, ltb, eqb, ◌==◌,
  if◌then◌else◌,
}

pub record LoggingData : Type 0 where
  pub outer_caller : Option String
  pub outer_timeout_ms : ℕ
  pub upstream : String
  pub handler_name : Option String
  pub request_timeout_ms : ℕ

same_text : Option String → Option String → Bool
same_text none none = true
same_text (some a) (some b) = a == b
same_text _ _ = false

-- equality of named tuples
pub same_data : LoggingData → LoggingData → Bool
unfolding same_text
same_data a b =
    same_text a.outer_caller b.outer_caller
    && (eqb a.outer_timeout_ms b.outer_timeout_ms
        && (a.upstream == b.upstream
            && (same_text a.handler_name b.handler_name
                && eqb a.request_timeout_ms b.request_timeout_ms)))

-- `TimeoutCounter`, a `UserDict` from `LoggingData` to pairs
abbrev pub TimeoutCounter : Type 0
TimeoutCounter = List (LoggingData × (ℕ × ℕ))

-- `super().__getitem__(k)`, which falls back on `__missing__`
pub get_item : TimeoutCounter → LoggingData → ℕ × ℕ
get_item [] k = (0, 0)
get_item ((j, v) ∷ counters) k = if same_data j k then v else get_item counters k

pub set_item : TimeoutCounter → LoggingData → ℕ × ℕ → TimeoutCounter
set_item [] k v = (k, v) ∷ []
set_item ((j, w) ∷ counters) k v =
    if same_data j k then (j, v) ∷ counters else (j, w) ∷ set_item counters k v

pub increment : TimeoutCounter → LoggingData → ℕ → TimeoutCounter
increment counters k already_spent_ms =
    let (count, max_already_spent_ms) = get_item counters k in
    set_item counters k (count + 1, max already_spent_ms max_already_spent_ms)

-- `PeriodicCallback` of the aggregated statistics
pub record PeriodicCallback : Type 0 where
  pub interval_ms : ℕ
  pub running : Bool

-- The attribute `_send_stats_callback` is absent, or holds `None` or a callback.
pub record Sender : Type 0 where
  pub timeout_counters : TimeoutCounter
  pub send_stats_attribute : Option (Option PeriodicCallback)

-- `Sender.__init__`
abbrev pub new_sender : Sender
new_sender = record { timeout_counters = []; send_stats_attribute = some none }

pub send_data : Sender → LoggingData → ℕ → Sender
unfolding increment
send_data s data_ already_spent_ms = record s {
  timeout_counters = increment s.timeout_counters data_ already_spent_ms;
}

-- `options.send_timeout_stats_interval_ms` is tested for truth.
make_callback : ℕ → Option PeriodicCallback
make_callback interval_ms =
    if eqb interval_ms 0 then none else some (record { interval_ms = interval_ms; running = false })

read_attribute : ℕ → Sender → Option (Option PeriodicCallback) → Sender × Option PeriodicCallback
unfolding make_callback
read_attribute interval_ms s (some callback) = (s, callback)
read_attribute interval_ms s none =
    let callback = make_callback interval_ms in
    (record s { send_stats_attribute = some callback }, callback)

-- the property `send_stats_callback`
pub send_stats_callback : ℕ → Sender → Sender × Option PeriodicCallback
unfolding read_attribute
send_stats_callback interval_ms s = read_attribute interval_ms s s.send_stats_attribute

start_callback : Sender → Option PeriodicCallback → Sender
start_callback s none = s
start_callback s (some callback) =
    if callback.running
    then s
    else record s { send_stats_attribute = some (some (record callback { running = true })) }

pub start_sending_if_needed : ℕ → Sender → Sender
unfolding send_stats_callback start_callback
start_sending_if_needed interval_ms s =
    let (s', callback) = send_stats_callback interval_ms s in start_callback s' callback

-- one line of the log: the interval, the requests counted, their data and the time spent
pub record Line : Type 0 where
  pub interval_ms : ℕ
  pub count : ℕ
  pub about : LoggingData
  pub max_already_spent_ms : ℕ

pub lines_of : ℕ → TimeoutCounter → List Line
lines_of interval_ms [] = []
lines_of interval_ms ((k, (count, spent)) ∷ counters) =
    record { interval_ms = interval_ms; count = count; about = k; max_already_spent_ms = spent }
    ∷ lines_of interval_ms counters

-- `__send_aggregated_stats`, which returns the lines that it logs
pub send_aggregated_stats : ℕ → Sender → Sender × List Line
unfolding lines_of
send_aggregated_stats interval_ms s =
    (record s { timeout_counters = [] }, lines_of interval_ms s.timeout_counters)

pub record TimeoutChecker : Type 0 where
  pub outer_caller : Option String
  pub outer_timeout_ms : ℕ
  pub request_start_time_ms : ℕ
  pub threshold_ms : ℕ

-- The parts of a `RequestBuilder` that are read.
pub record Request : Type 0 where
  pub upstream_name : String
  pub request_time_left_ms : ℕ

-- `get_timeout_checker`, with the default threshold of the call in balancing_client.py
pub get_timeout_checker : ℕ → Sender → Option String → ℕ → ℕ → Sender × TimeoutChecker
unfolding start_sending_if_needed
get_timeout_checker interval_ms s outer_caller outer_timeout_ms request_start_time_ms = (
  start_sending_if_needed interval_ms s,
  record {
    outer_caller = outer_caller;
    outer_timeout_ms = outer_timeout_ms;
    request_start_time_ms = request_start_time_ms;
    threshold_ms = 100;
  },
)

-- `diff > threshold_ms` with `diff = request_timeout_ms - (outer_timeout_ms - already_spent_ms)`
-- is read without subtraction, since the difference may be below zero.
pub check : Sender → TimeoutChecker → Option String → ℕ → Request → Sender
unfolding send_data
check s c handler_name now_ms request =
    let already_spent_ms = now_ms - c.request_start_time_ms in
    if eqb c.outer_timeout_ms 0
    then s
    else if ltb (c.threshold_ms + c.outer_timeout_ms)
        (request.request_time_left_ms + already_spent_ms)
    then send_data s
        (record {
          outer_caller = c.outer_caller;
          outer_timeout_ms = c.outer_timeout_ms;
          upstream = request.upstream_name;
          handler_name = handler_name;
          request_timeout_ms = request.request_time_left_ms;
        })
        already_spent_ms
    else s
