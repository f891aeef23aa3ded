-- ===== src/Handler/Tests.antt =====
-- Concrete requests.
use frontik.Prelude.{
  ◌≡◌, refl, List, [], ◌∷◌, true, false, ◌++◌, ◌⊎◌, String, Option, none, some, eqb, upper,
}
use frontik.Auth.{AuthHeaders, checked, check_debug_auth}
use frontik.DebugMode.{
  DebugMode, DebugOptions, DebugRequest, create, on_auth_ok, make_debug_mode, by_challenge,
}
use frontik.Routing.{BaseRoute, other, Table, Methods, Matcher, full, Scope, found}
use frontik.Routing.Dispatch.{find_route}
use frontik.Handler.Exchange.{
  Message, response_start, response_body, App, sends, closed_then, Env, Exchange,
}
use frontik.Handler.Exchange.Payload.{IsWilling, sends_all, chunks_of, concat, body_chunks, payload}
use frontik.Handler.Serve.{returns, serve_tornado_request, is_true}
use frontik.Handler.Serve.Payload.{serve_tornado_request-payload}
use frontik.Handler.Serve.Refusal.{OnlyHeaders, serve_tornado_request-unauthorized}
use frontik.Handler.Body.{Event, arrives, ends, receives, start, run, is_eof}
use frontik.Handler.Body.Delivery.{run-delivers, run-ends}
use frontik.Handler.Body.Queue.{queued, receive_all, has_eof}

abbrev events : List Event
events =
    receives ∷ arrives (1 ∷ 2 ∷ []) ∷ receives ∷ arrives (3 ∷ []) ∷ ends ∷ receives ∷ receives ∷ []

run-delivers_example :
    ((run 2 events start).given ++ queued (run 2 events start).body.body_chunks ≡ 1 ∷ 2 ∷ 3 ∷ [])
    × ((run 2 events start).leaked ≡ false)
    × ((run 2 events start).ended ≡ false
        ⊎ ((run 2 events start).body.finished ≡ true)
          × ((run 2 events start).given ≡ 1 ∷ 2 ∷ 3 ∷ []))
unfolding run
run-delivers_example = run-delivers 2 events refl

abbrev sent : List Event
sent = arrives (1 ∷ 2 ∷ []) ∷ ends ∷ []

run-ends_example :
    (run 2 (receive_all (run 2 sent start).body.body_chunks) (run 2 sent start)).ended ≡ true
unfolding run has_eof is_eof
run-ends_example = run-ends 2 sent refl refl refl

abbrev matches : Matcher Unit
matches route methods path method = full tt

abbrev page_route : BaseRoute
page_route = other 0

abbrev table : Table
table = record {
  fastapi_routes = page_route ∷ [];
  not_found = [];
  method_not_allowed = [];
  preflight = [];
}

abbrev methods : Methods
methods i = []

-- the first call goes through, the later ones fail
abbrev env_for : String → Env
env_for method = record {
  normalized = λ name. name;
  version = "1";
  request_id = some "id";
  method = method;
  accepts = λ i. eqb i 0;
  refuses = λ status headers chunk. false;
  finishes = λ calls. true;
  log_document = λ mode response. 60 ∷ response.body;
}

abbrev willing : (method : String) → IsWilling (env_for method)
willing method = record { takes = λ status headers chunk. refl; ends = λ calls. refl }

abbrev messages : List Message
messages =
    response_start 201 (("A" ∷ "b" ∷ []) ∷ []) true
    ∷ response_body (1 ∷ []) (some true)
    ∷ response_body (2 ∷ 3 ∷ []) (some true)
    ∷ response_body [] (some false)
    ∷ []

abbrev app : Scope Unit → App
app scope = sends_all messages

abbrev closed_app : Scope Unit → App
closed_app scope = sends (response_start 200 [] true) (λ raised. closed_then (sends_all messages))

abbrev request_for : List String → DebugRequest
request_for values = record {
  debug = record { query_arguments = values; cookie = none };
  notpl = record { query_arguments = []; cookie = none };
  notrl = record { query_arguments = []; cookie = none };
  noxsl = record { query_arguments = []; cookie = none };
  debug_header = none;
}

abbrev plain : DebugMode
plain = create (request_for [])

abbrev debugged : DebugMode
debugged = on_auth_ok (create (request_for ("full" ∷ [])))

abbrev page_scope : String → Scope Unit
page_scope method = record {
  path = "/page";
  method = method;
  child = some tt;
  route = some page_route;
  allowed_methods = none;
  endpoint = none;
}

found_page :
    find_route matches table methods "/page" "GET" none "" ≡ found (page_scope "GET") methods
unfolding find_route upper
found_page = refl

found_head :
    find_route matches table methods "/page" "HEAD" none "" ≡ found (page_scope "HEAD") methods
unfolding find_route upper
found_head = refl

serve_tornado_request-payload_example :
    (x : Exchange) × (serve_tornado_request matches app
        (env_for "HEAD")
        false
        (checked plain)
        table
        methods
        "/page"
      ≡ returns x)
    × (payload x.calls ≡ 2 ∷ 3 ∷ [])
unfolding create concat body_chunks chunks_of sends_all is_true
serve_tornado_request-payload_example =
    serve_tornado_request-payload matches app (env_for "HEAD") plain table methods "/page" refl
      (page_scope "HEAD") methods found_head messages refl (willing "HEAD") refl

abbrev decode : String → Option String
decode text = none

abbrev options : DebugOptions
options = record { debug = false; debug_login = some "user"; debug_password = some "pass" }

abbrev headers : AuthHeaders
headers = record { debug_auth = none; authorization = some "Digest" }

serve_tornado_request-unauthorized_example :
    OnlyHeaders (env_for "GET") 401 (some "Basic realm=\"Secure Area\"") (
      serve_tornado_request matches app
        (env_for "GET")
        false
        (make_debug_mode decode none options headers (request_for ("full" ∷ [])))
        table
        methods
        "/page")
unfolding create check_debug_auth make_debug_mode by_challenge
serve_tornado_request-unauthorized_example =
    serve_tornado_request-unauthorized matches app (env_for "GET") table methods "/page"
      (willing "GET") decode options headers (request_for ("full" ∷ []))
      "Basic realm=\"Secure Area\"" _ refl refl refl refl
