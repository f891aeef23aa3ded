-- ===== src/Handler/Serve.antt =====
-- A request from its arrival to its response: `process_request`, `execute_asgi_page` and
-- `serve_tornado_request` of frontik/handler_asgi.py, with `transform_chunk` of frontik/debug.py.
-- The development's route manager, logs and telemetry are left out.
pub mod StartLine
pub mod Payload
pub mod Refusal
use frontik.Prelude.{
  String, Bool, true, false, not, ◌&&◌, Option, none, some, List, [], ◌∷◌, ◌++◌, ◌==◌,
  if◌then◌else◌, ◌+++◌,
}
use frontik.Auth.{Checked, checked, value_error}
use frontik.DebugMode.{DebugMode, is_truthy}
use frontik.Routing.{Matcher, Methods, Table, Scope, Found, found, index_error, assertion_error}
use frontik.Routing.Dispatch.{find_route}
use frontik.Handler.Exchange.{
  Headers, Response, App, Exchange, Env, nothing, own_response, new_response, write_start_line,
  run_app,
}

-- the values of a header, joined by commas
get_header : String → Headers → Option String
get_header name [] = none
get_header name ((n, v) ∷ headers) =
    let rest = get_header name headers in
    if n == name then elim rest [ none ↦ some v | some w ↦ some (v +++ ("," +++ w)) ] else rest

cors_header : Env → String → Headers → List (String × String)
unfolding get_header
cors_header env name headers = elim (get_header (env.normalized name) headers) [
  | none ↦ []
  | some value ↦ (name, value) ∷ []
]

-- `wrap_headers`
pub wrap_headers : Env → DebugMode → Headers → List (String × String)
unfolding cors_header
wrap_headers env mode headers =
    let cors =
      cors_header env "access-control-allow-credentials" headers
      ++ cors_header env "access-control-allow-origin" headers in
    if is_truthy mode.inherited
    then ("Content-Type", "application/xml") ∷ ("X-Hh-Debug", "true") ∷ cors
    else ("Content-Type", "text/html") ∷ cors

-- `transform_chunk`
unfoldable pub transform_chunk : Env → DebugMode → Response → Response
unfolding wrap_headers
transform_chunk env mode response =
    if mode.enabled
    then new_response env 200 (wrap_headers env mode response.headers)
        (env.log_document mode response)
    else response

-- an exchange whose response is still to be written
unfoldable pub begin : Response → Exchange
begin response = record {
  response = response;
  calls = [];
  response_done = false;
  canceled = false;
  reported = nothing;
  connection_finished = false;
}

-- `execute_asgi_page`
unfoldable pub execute_asgi_page : Env → DebugMode → App → Exchange
unfolding begin
execute_asgi_page env mode app = run_app env mode app (begin (new_response env 200 [] []))

-- the last lines of `process_request`
unfoldable pub debug_answer : Env → DebugMode → Exchange → Exchange
unfolding transform_chunk
debug_answer env mode x =
    if mode.debug_response && not x.response.headers_written
    then record x { response = transform_chunk env mode x.response }
    else x

-- the end of a task: it returns, is canceled, or raises an error
pub data Task : Type 0 where
  returns interrupted : Exchange → Task
  raises : Task

-- behind `execute_asgi_page`, through which the cancellation of the task passes
unfoldable pub end_of_page : Env → DebugMode → Exchange → Task
unfolding debug_answer
end_of_page env mode x = if x.canceled then interrupted x else returns (debug_answer env mode x)

unfoldable pub challenge_headers : Option String → List (String × String)
challenge_headers none = []
challenge_headers (some challenge) = ("WWW-Authenticate", challenge) ∷ []

unfoldable pub is_true : Option Bool → Bool
is_true none = false
is_true (some b) = b

-- the last lines of `serve_tornado_request`, unless the start line has raised
unfoldable pub finish_response : Env → Bool × Exchange → Task
finish_response env (raised, x) =
    if raised
    then raises
    else if env.finishes x.calls
    then returns (record x { reported = own_response; connection_finished = true })
    else raises

-- `serve_tornado_request` behind the await of the task
unfoldable pub respond : Env → Task → Task
unfolding write_start_line finish_response
respond env raises = raises
respond env (interrupted x) = interrupted x
respond env (returns x) =
    if x.canceled
    then returns x
    else finish_response env
        (if x.response.headers_written then (false, x) else write_start_line env x.response.body x)

module _ {Child : Type 0} (matches : Matcher Child) (frontik_app : Scope Child → App) where
  -- the page of the route that has been found
  page : Env → DebugMode → Found Child → Task
  unfolding execute_asgi_page end_of_page
  page env mode index_error = raises
  page env mode assertion_error = raises
  page env mode (found scope methods) =
      end_of_page env mode (execute_asgi_page env mode (frontik_app scope))

  -- behind `make_debug_mode`
  admitted : Env → Checked DebugMode → Found Child → Task
  unfolding page challenge_headers is_true
  admitted env value_error route = raises
  admitted env (checked mode) route =
      if is_true mode.auth_failed
      then returns (begin (new_response env 401 (challenge_headers mode.failed_auth_headers) []))
      else page env mode route

  -- `process_request`, where `limited` is whether the request limiter says no
  pub process_request :
      Env → (limited : Bool) → Checked DebugMode → Table → Methods → (path : String) → Task
  unfolding admitted begin
  process_request env limited debug_mode table methods path =
      if limited
      then returns (begin (new_response env 503 [] []))
      else admitted env debug_mode (find_route matches table methods path env.method none "")

  -- `serve_tornado_request`
  pub serve_tornado_request :
      Env → (limited : Bool) → Checked DebugMode → Table → Methods → (path : String) → Task
  unfolding process_request respond
  serve_tornado_request env limited debug_mode table methods path =
      respond env (process_request env limited debug_mode table methods path)
