-- ===== src/BalancingClient/Tests.antt =====
-- Runs of frontik/balancing_client.py, and the theorems at them.
use frontik.Prelude.{
  ◌+◌, ◌-◌, ◌*◌, ◌<◌, ◌≡◌, ◌↔◌, ◌⊎◌, refl, true, none, some, parse_decimal, decimal, make_url,
}
use frontik.TimeoutTracking.{new_sender}
use frontik.BalancingClient.{
  ServerHeaders, Headers, RequestBuilder, Env, ok, out_of_request_time, int_of, header_timeout,
  remaining_ms, set_deadline, check_timeout, add_debug, modify_http_client_request,
  timeout_was_reduced, fail_fast_error_status,
}
use frontik.BalancingClient.Deadline.{
  KeepsDeadline, modify_http_client_request-KeepsDeadline, modify_http_client_request-out_of_time,
}

abbrev from_gateway : ServerHeaders
from_gateway = record {
  deadline_timeout_ms = some "300";
  outer_timeout_ms = none;
  user_agent = none;
  authorization = none;
  debug_auth = none;
}

abbrev blank : Headers
blank = record {
  x_request_id = none;
  outer_timeout_ms = none;
  deadline_timeout_ms = none;
  debug = none;
  authorization = none;
  debug_auth = none;
}

abbrev request : RequestBuilder
request = record {
  headers = blank;
  path = "/resume?id=7";
  upstream_name = "resume";
  request_timeout_ms = 500;
  connect_timeout_ms = 50;
  client_timeout = none;
  request_time_left_ms = λ t. t;
}

-- 100.5 ms after the start
abbrev env : Env
env = record {
  decrease_timeout_by_deadline = true;
  send_timeout_stats_interval_ms = 60000;
  start_time_us = 7_000_000;
  now_us = 7_100_500;
  request_id = some "rid";
  handler_name = none;
  pass_debug = true;
}

abbrev sent : RequestBuilder
sent = record request {
  headers = record blank {
    x_request_id = some "rid";
    outer_timeout_ms = some 500;
    deadline_timeout_ms = some 199;
    debug = some "true";
  };
  path = "/resume?id=7&debug_timestamp=7";
  request_timeout_ms = 199;
  client_timeout = some (199, 50);
}

all_client : Unit {0}
unfolding modify_http_client_request header_timeout set_deadline remaining_ms check_timeout
    add_debug int_of parse_decimal decimal make_url timeout_was_reduced fail_fast_error_status
all_client = tt

run : modify_http_client_request env from_gateway request new_sender ≡ ok (sent, new_sender)
unfolding all_client
run = refl

modify_http_client_request-KeepsDeadline_example :
    KeepsDeadline 300 (env.now_us - env.start_time_us) request sent
unfolding all_client
modify_http_client_request-KeepsDeadline_example =
    modify_http_client_request-KeepsDeadline env from_gateway request new_sender 300 refl sent
      new_sender refl

modify_http_client_request-out_of_time_example :
    (modify_http_client_request env from_gateway request new_sender ≡ out_of_request_time)
    ↔ ((300 * 1000 < (env.now_us - env.start_time_us) + 1000) ⊎ (request.request_timeout_ms ≡ 0))
unfolding header_timeout int_of parse_decimal
modify_http_client_request-out_of_time_example =
    modify_http_client_request-out_of_time env from_gateway request new_sender 300 refl
