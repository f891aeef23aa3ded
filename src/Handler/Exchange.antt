-- ===== src/Handler/Exchange.antt =====
-- What an application does to the response: `FrontikResponse` (frontik/frontik_response.py), and
-- `send`, `write_start_line` and `_on_connection_close` of frontik/handler_asgi.py. Header names are
-- written as Tornado's `HTTPHeaders` does by `normalized`.
pub mod Calls
pub mod Payload
use frontik.Prelude.{
  ℕ, Bytes, String, Bool, true, false, not, Option, none, some, List, [], ◌∷◌, ◌++◌, ◌==◌, ◌+++◌,
  if◌then◌else◌, length,
}
use frontik.DebugMode.{DebugMode}

abbrev pub Headers : Type 0
Headers = List (String × String)

pub record Response : Type 0 where
  pub status_code : ℕ
  pub headers : Headers
  pub body : Bytes
  pub headers_written : Bool

-- A message of the application to `send`.
pub data Message : Type 0 where
  -- the headers up to the first that cannot be decoded, and whether there is none such
  response_start : (status : ℕ) (headers : List (List String)) (decodes : Bool) → Message
  -- `more_body` may be missing
  response_body : (body : Bytes) (more_body : Option Bool) → Message
  other_type : String → Message

-- a call on the connection
pub data Call : Type 0 where
  write_headers : (status : ℕ) (headers : Headers) (chunk : Bytes) → Call
  write : Bytes → Call

-- The application: each message that it sends may raise an error, on which it may go on; an error
-- of its own ends it. Between its messages the client may close the connection.
pub data App : Type 0 where
  done : App
  sends : Message → ((raised : Bool) → App) → App
  closed_then : App → App

-- the response that the integrations were given last
pub data Reported : Type 0 where
  nothing own_response client_closed_request : Reported

pub record Exchange : Type 0 where
  pub response : Response
  pub calls : List Call
  pub response_done : Bool
  pub canceled : Bool
  pub reported : Reported
  pub connection_finished : Bool

pub record Env : Type 0 where
  pub normalized : String → String
  pub version : String
  pub request_id : Option String
  pub method : String
  -- whether the call with this index succeeds, or raises `StreamClosedError`
  pub accepts : ℕ → Bool
  -- whether `write_headers` raises another error, before it writes anything, as Tornado does for a
  -- line break in a header or a chunk that is longer than announced
  pub refuses : (status : ℕ) (headers : Headers) (chunk : Bytes) → Bool
  -- whether `finish` ends behind these calls, or raises, as Tornado does for a body that is too short
  pub finishes : List Call → Bool
  -- the debug log, as `transform_chunk` of frontik/debug.py writes it
  pub log_document : DebugMode → Response → Bytes

-- `HTTPHeaders.add`, and `HTTPHeaders.update` for one name
add_header : Env → String → String → Headers → Headers
add_header env name value headers = headers ++ (env.normalized name, value) ∷ []

without : String → Headers → Headers
without name [] = []
without name ((n, v) ∷ headers) =
    let rest = without name headers in if n == name then rest else (n, v) ∷ rest

unfoldable pub update_headers : Env → List (String × String) → Headers → Headers
unfolding without
update_headers env [] headers = headers
update_headers env ((name, value) ∷ more) headers =
    update_headers env more
      (without (env.normalized name) headers ++ (env.normalized name, value) ∷ [])

request_id_or_empty : Option String → String
request_id_or_empty none = ""
request_id_or_empty (some id) = id

-- `FrontikResponse.__init__`, for headers that are no `HTTPHeaders`
unfoldable pub new_response : Env → ℕ → List (String × String) → Bytes → Response
unfolding update_headers request_id_or_empty
new_response env status_code headers body = record {
  status_code = status_code;
  headers = update_headers env headers (
      ("Server", "Frontik/" +++ env.version)
      ∷ ("X-Request-Id", request_id_or_empty env.request_id)
      ∷ []);
  body = body;
  headers_written = false;
}

unfoldable pub is_nil : Bytes → Bool
is_nil [] = true
is_nil (b ∷ bytes) = false

-- a call, and whether it raises
call : Env → Call → Exchange → Bool × Exchange
call env c x = (not (env.accepts (length x.calls)), record x { calls = x.calls ++ c ∷ [] })

-- the chunk that goes with the headers
abbrev pub head_chunk : Env → Bytes → Bytes
head_chunk env chunk = if env.method == "HEAD" then [] else chunk

-- the call `write_headers`, where it is not refused
unfoldable pub put_start_line : Env → Bytes → Exchange → Exchange
unfolding call
put_start_line env chunk x =
    let (closed, x') =
      call env (write_headers x.response.status_code x.response.headers (head_chunk env chunk)) x in
    if closed then record x' { response = record (x'.response) { status_code = 499 } } else x'

-- `write_start_line`: whether it raises, and what it leaves
unfoldable pub write_start_line : Env → Bytes → Exchange → Bool × Exchange
unfolding put_start_line
write_start_line env chunk x =
    if env.refuses x.response.status_code x.response.headers (head_chunk env chunk)
    then (true, x)
    else (false, put_start_line env chunk x)

add_headers : Env → List (List String) → Headers → Headers
unfolding add_header
add_headers env [] headers = headers
add_headers env ((name ∷ value ∷ []) ∷ more) headers =
    add_headers env more (add_header env name value headers)
add_headers env (h ∷ more) headers = add_headers env more headers

-- the branch of `send` on a chunk behind the headers
pub send_rest : Env → Bytes → Option Bool → Exchange → Bool × Exchange
unfolding call is_nil
send_rest env (b ∷ chunk) more_body x = call env (write (b ∷ chunk)) x
send_rest env [] (some false) x = (false, record x { response_done = true })
send_rest env [] (some true) x = call env (write []) x
send_rest env [] none x = (true, x)

-- `response.headers_written = True`, unless the start line has raised
abbrev pub after_start_line : Bool × Exchange → Bool × Exchange
after_start_line (raised, x) =
    if raised
    then (true, x)
    else (false, record x { response = record (x.response) { headers_written = true } })

-- the branches of `send` on a chunk
unfoldable pub send_body : Env → DebugMode → Bytes → Option Bool → Exchange → Bool × Exchange
unfolding write_start_line send_rest
send_body env mode chunk more_body x =
    if mode.debug_response
    then (false, record x { response = record (x.response) { body = x.response.body ++ chunk } })
    else if not x.response.headers_written
    then after_start_line (write_start_line env chunk (record x { reported = own_response }))
    else send_rest env chunk more_body x

-- `send`: whether it raises, and what it leaves
unfoldable pub send : Env → DebugMode → Message → Exchange → Bool × Exchange
unfolding send_body add_headers
send env mode (response_start status headers decodes) x = (
  not decodes,
  record x {
    response = record (x.response) {
      status_code = status;
      headers = add_headers env headers x.response.headers;
    };
  },
)
send env mode (response_body chunk more_body) x = send_body env mode chunk more_body x
send env mode (other_type type) x = (true, x)

-- `_on_connection_close`
unfoldable pub on_close : Exchange → Exchange
on_close x =
    if x.response_done then x else record x { canceled = true; reported = client_closed_request }

-- The application up to its end, or to the close that cancels its task.
unfoldable pub run_app : Env → DebugMode → App → Exchange → Exchange
unfolding send on_close
run_app env mode done x = x
run_app env mode (sends message continue) x =
    let (raised, x') = send env mode message x in run_app env mode (continue raised) x'
run_app env mode (closed_then app) x =
    if x.response_done then run_app env mode app x else on_close x
