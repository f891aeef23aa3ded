-- ===== src/Handler/Serve/Refusal.antt =====
-- Requests that do not come to a page.
use frontik.Prelude.{
  ℕ, ◌++◌, none, some, Option, String, true, false, [], ◌∷◌, ◌≡◌, refl, ap, ◌∙◌, arith, if_true,
}
use frontik.Auth.{AuthHeaders, Checked, checked, check_debug_auth}
use frontik.DebugMode.{DebugMode, DebugOptions, DebugRequest, make_debug_mode}
use frontik.DebugMode.Access.{make_debug_mode-Follows}
use frontik.Routing.{Matcher, Methods, Table, Scope}
use frontik.Routing.Dispatch.{find_route}
use frontik.Handler.Exchange.{
  App, write_headers, Headers, Exchange, Env, new_response, update_headers,
}
use frontik.Handler.Exchange.Calls.{put_start_line-calls}
use frontik.Handler.Exchange.Payload.{IsWilling}
use frontik.Handler.Serve.{
  Task, returns, begin, respond, is_true, admitted, process_request, serve_tornado_request,
  challenge_headers,
}
use frontik.Handler.Serve.StartLine.{respond-unwritten_willing}

-- The last header is the challenge, if there is one.
abbrev pub Carries : Env → Option String → Headers → Type 0
Carries env none headers = Unit
Carries env (some challenge) headers =
    (others : Headers) × (headers ≡ others ++ (env.normalized "WWW-Authenticate", challenge) ∷ [])

-- The task ends with one call, which writes the status, the challenge and no chunk.
pub record OnlyHeaders (env : Env) (status : ℕ) (challenge : Option String) (task : Task)
    : Type 0 where
  pub exchange : Exchange
  pub ends : task ≡ returns exchange
  pub headers : Headers
  pub one_call : exchange.calls ≡ write_headers status headers [] ∷ []
  pub carries : Carries env challenge headers

challenge_headers-Carries :
    (env : Env) (status : ℕ) (challenge : Option String)
    → Carries env challenge (new_response env status (challenge_headers challenge) []).headers
unfolding new_response update_headers challenge_headers
challenge_headers-Carries env status none = tt
challenge_headers-Carries env status (some challenge) = (_, refl)

respond-OnlyHeaders :
    (env : Env) (status : ℕ) (challenge : Option String) (task : Task)
    → IsWilling env
    → task
      ≡ respond env (returns (begin (new_response env status (challenge_headers challenge) [])))
    → OnlyHeaders env status challenge task
unfolding begin new_response
respond-OnlyHeaders env status challenge task willing e =
    let response = new_response env status (challenge_headers challenge) [] in
    record {
      exchange = _;
      ends = e ∙ respond-unwritten_willing env (begin response) willing refl refl;
      headers = response.headers;
      one_call =
          put_start_line-calls env [] (begin response)
          ∙ ap (λ chunk. write_headers status response.headers chunk ∷ []) (ground arith);
      carries = challenge_headers-Carries env status challenge;
    }

module _ {Child : Type 0} (matches : Matcher Child) (frontik_app : Scope Child → App) (env : Env)
    (table : Table) (methods : Methods) (path : String) (willing : IsWilling env) where
  -- A request that the limiter turns down is answered by the status 503 alone, whatever page it asks
  -- for and whatever its credentials are.
  serve_tornado_request-limited :
      (debug_mode : Checked DebugMode)
      → OnlyHeaders env 503 none
          (serve_tornado_request matches frontik_app env true debug_mode table methods path)
  unfolding serve_tornado_request process_request challenge_headers
  serve_tornado_request-limited debug_mode = respond-OnlyHeaders env 503 none _ willing refl

  -- On a connection that raises nothing but `StreamClosedError`, a request that is not limited and
  -- asks for debugging with credentials that are answered by a challenge, of a server that is not in
  -- debug mode, is answered by one call, the status 401 with the challenge in its last header and no
  -- chunk, and its page is not run, whatever page it asks for.
  pub serve_tornado_request-unauthorized :
      (decode : String → Option String) (options : DebugOptions) (headers : AuthHeaders)
      (request : DebugRequest) (challenge : String) (mode : DebugMode)
      → options.debug ≡ false
      → check_debug_auth decode headers options.debug_login options.debug_password
        ≡ checked (some challenge)
      → make_debug_mode decode none options headers request ≡ checked mode
      → mode.need_auth ≡ true
      → OnlyHeaders env 401 (some challenge) (
          serve_tornado_request matches frontik_app env false
            (make_debug_mode decode none options headers request)
            table
            methods
            path)
  unfolding serve_tornado_request process_request admitted is_true challenge_headers
  serve_tornado_request-unauthorized decode options headers request challenge mode off check made
        need =
      let follows =
        make_debug_mode-Follows decode options headers request (some challenge) mode check made in
      let failed : mode.auth_failed ≡ some true = ground (arith, follows.failed) in
      let challenged : mode.failed_auth_headers ≡ some challenge =
        ground (arith, follows.challenged) in
      respond-OnlyHeaders env 401 (some challenge) _ willing (
        ap
          (λ m. respond env (
            admitted matches frontik_app env m
              (find_route matches table methods path env.method none "")))
          made
        ∙ (ap (respond env) (if_true _ _ _ (ap is_true failed))
            ∙ ap
                (λ h. respond env (returns (begin (new_response env 401 (challenge_headers h) []))))
                challenged))
