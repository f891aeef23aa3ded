-- ===== src/BalancingClient.antt =====
-- frontik/balancing_client.py: the time that a page's own requests may take, and the status of a page
-- whose request has failed. Times are whole microseconds or milliseconds, as named; the clock does
-- not run back behind the start of the request; timeout headers are decimal numbers without a sign.
pub mod Deadline
pub mod Status
mod Tests
use Prim.Native.Nat.{min}
use frontik.Prelude.{
  ℕ, ◌-◌, ◌*◌, ◌/◌, String, Bool, true, false, ◌&&◌, ◌||◌, Option, none, some, eqb, ltb, leb,
  if◌then◌else◌, parse_decimal, decimal, is_empty, make_url,
}
use frontik.TimeoutTracking.{Sender, get_timeout_checker, check}

-- The headers of the page's own request that are read.
pub record ServerHeaders : Type 0 where
  pub deadline_timeout_ms : Option String
  pub outer_timeout_ms : Option String
  pub user_agent : Option String
  pub authorization : Option String
  pub debug_auth : Option String

-- The headers of the request to send that are written.
pub record Headers : Type 0 where
  pub x_request_id : Option String
  pub outer_timeout_ms : Option ℕ
  pub deadline_timeout_ms : Option ℕ
  pub debug : Option String
  pub authorization : Option String
  pub debug_auth : Option String

pub record RequestBuilder : Type 0 where
  pub headers : Headers
  pub path : String
  pub upstream_name : String
  pub request_timeout_ms : ℕ
  pub connect_timeout_ms : ℕ
  -- `aiohttp.ClientTimeout(total=..., connect=...)`
  pub client_timeout : Option (ℕ × ℕ)
  -- `request_time_left` is given by the balancer, from the timeout that is set
  pub request_time_left_ms : ℕ → ℕ

-- What the function reads of its surroundings.
pub record Env : Type 0 where
  pub decrease_timeout_by_deadline : Bool
  pub send_timeout_stats_interval_ms : ℕ
  pub start_time_us : ℕ
  pub now_us : ℕ
  pub request_id : Option String
  pub handler_name : Option String
  pub pass_debug : Bool

pub data Result (A : Type 0) : Type 0 where
  ok : A → Result A
  out_of_request_time value_error : Result A

infixl 5 ◌>>=◌
abbrev pub ◌>>=◌ : {A B : Type 0} → Result A → (A → Result B) → Result B
ok a >>= f = f a
out_of_request_time >>= f = out_of_request_time
value_error >>= f = value_error

-- `int(header)`
unfoldable pub int_of : String → Result ℕ
int_of text = elim (parse_decimal text) [ none ↦ value_error | some n ↦ ok n ]

-- `if` on the outer timeout: `OUTER_TIMEOUT_MS_HEADER in headers and int(...) > 0`
positive_outer : Option String → Result (Option ℕ)
positive_outer none = ok none
positive_outer (some text) = do n ← int_of text; ok (if ltb 0 n then some n else none)

-- the timeout that the caller has set, if the timeouts are to be decreased by it
unfoldable pub header_timeout : Env → ServerHeaders → Result (Option ℕ)
unfolding positive_outer
header_timeout env headers =
    if env.decrease_timeout_by_deadline
    then elim headers.deadline_timeout_ms [
      | some text ↦ (do n ← int_of text; ok (some n))
      | none ↦ positive_outer headers.outer_timeout_ms
    ]
    else ok none

-- `int(header_timeout - spent_time_ms)`, a negative value held as zero
unfoldable pub remaining_ms : ℕ → ℕ → ℕ
remaining_ms header_ms spent_us = (header_ms * 1000 - spent_us) / 1000

-- the branches on the caller's timeout
unfoldable pub set_deadline : ℕ → Option ℕ → RequestBuilder → Result RequestBuilder
unfolding remaining_ms
set_deadline spent_us none r =
    ok (record r {
      headers = record (r.headers) { deadline_timeout_ms = some r.request_timeout_ms };
    })
set_deadline spent_us (some header_ms) r =
    let deadline_timeout_ms = min (remaining_ms header_ms spent_us) r.request_timeout_ms in
    if eqb deadline_timeout_ms 0
    then out_of_request_time
    else ok (record r {
      headers = record (r.headers) { deadline_timeout_ms = some deadline_timeout_ms };
      request_timeout_ms = deadline_timeout_ms;
      client_timeout = some (deadline_timeout_ms, r.connect_timeout_ms);
    })

-- the call of the timeout checker, when the caller's header is not empty
unfoldable pub check_timeout : Env → ServerHeaders → RequestBuilder → Sender → Result Sender
check_timeout env headers r sender = elim headers.outer_timeout_ms [
  | none ↦ ok sender
  | some text ↦ if is_empty text then ok sender else (do
    outer_ms ← int_of text
    let (sender', checker) =
        get_timeout_checker env.send_timeout_stats_interval_ms sender headers.user_agent outer_ms
          (env.start_time_us / 1000)
    ok (
        check sender' checker env.handler_name (env.now_us / 1000) (record {
          upstream_name = r.upstream_name;
          request_time_left_ms = r.request_time_left_ms r.request_timeout_ms;
        })))
]

keep_or : Option String → Option String → Option String
keep_or none old = old
keep_or (some value) old = some value

-- the branch on `debug_mode.pass_debug`
unfoldable pub add_debug : Env → ServerHeaders → RequestBuilder → RequestBuilder
unfolding keep_or
add_debug env headers r =
    if env.pass_debug
    then record r {
      headers = record (r.headers) {
        debug = some "true";
        authorization = keep_or headers.authorization r.headers.authorization;
        debug_auth = keep_or headers.debug_auth r.headers.debug_auth;
      };
      path = make_url r.path "debug_timestamp" (decimal (env.now_us / 1000000));
    }
    else r

-- `modify_http_client_request`
unfoldable pub modify_http_client_request :
    Env → ServerHeaders → RequestBuilder → Sender → Result (RequestBuilder × Sender)
unfolding header_timeout set_deadline add_debug
modify_http_client_request env headers r sender = do
  let r₁ = record r {
    headers = record (r.headers) {
      x_request_id = env.request_id;
      outer_timeout_ms = some r.request_timeout_ms;
    };
  }
  header_ms ← header_timeout env headers
  r₂ ← set_deadline (env.now_us - env.start_time_us) header_ms r₁
  sender' ← check_timeout env headers r₂ sender
  ok (add_debug env headers r₂, sender')

-- `__check_if_timeout_was_reduced`
unfoldable pub timeout_was_reduced : ServerHeaders → Result Bool
timeout_was_reduced headers = elim headers.deadline_timeout_ms [
  | none ↦ ok false
  | some deadline ↦ elim headers.outer_timeout_ms [
    | none ↦ ok false
    | some outer ↦ (do d ← int_of deadline; o ← int_of outer; ok (ltb d o))
  ]
]

-- The two timeout statuses are the HTTP client library's.
module _ (insufficient_timeout server_timeout : ℕ) where
  -- `out_of_request_time_error_handler`: the status of the response
  pub out_of_request_time_status : ServerHeaders → Result ℕ
  unfolding timeout_was_reduced
  out_of_request_time_status headers = do
    reduced ← timeout_was_reduced headers
    ok (if reduced then insufficient_timeout else server_timeout)

  pub relayed : ℕ → Bool
  relayed status = eqb status 569 || (eqb status 404 || (eqb status 403 || eqb status 401))

  -- the ladder of `fail_fast_error_handler`
  pub fail_fast_status : Bool → ℕ → Bool → ℕ
  unfolding relayed
  fail_fast_status reduced status parsing_or_exc =
      if eqb status insufficient_timeout
      then (if reduced then insufficient_timeout else server_timeout)
      else if eqb status server_timeout
      then 504
      else if relayed status
      then status
      else if leb 400 status && ltb status 500
      then 500
      else if leb 500 status
      then 502
      else if parsing_or_exc
      then 500
      else status

  -- `fail_fast_error_handler`: the status of the response
  pub fail_fast_error_status : ServerHeaders → ℕ → Bool → Result ℕ
  unfolding fail_fast_status timeout_was_reduced
  fail_fast_error_status headers status parsing_or_exc = do
    reduced ← timeout_was_reduced headers
    ok (fail_fast_status reduced status parsing_or_exc)
