-- ===== src/Handler/Serve/Payload.antt =====
-- The bytes of a page on their way to the client.
use frontik.Prelude.{
  none, String, true, false, not, ◌&&◌, List, [], ◌∷◌, ◌++◌, ◌≡◌, refl, ap, ◌∙◌, arith, if_true,
  if_false, inl, inr,
}
use frontik.Auth.{checked}
use frontik.DebugMode.{DebugMode}
use frontik.Routing.{Matcher, Methods, Table, Scope, found}
use frontik.Routing.Dispatch.{find_route}
use frontik.Handler.Exchange.{
  App, Message, write_headers, Exchange, Env, head_chunk, Response, Headers, new_response, run_app,
}
use frontik.Handler.Exchange.Calls.{put_start_line-calls}
use frontik.Handler.Exchange.Payload.{
  IsWilling, sends_all, chunks_of, concat, body_chunks, payload, run_unwritten, run_debug,
  sends_all-canceled,
}
use frontik.Handler.Serve.{
  returns, begin, execute_asgi_page, debug_answer, transform_chunk, end_of_page, respond, is_true,
  page, admitted, process_request, serve_tornado_request, wrap_headers,
}
use frontik.Handler.Serve.StartLine.{respond-written_willing, respond-unwritten_willing}

module _ {Child : Type 0} (matches : Matcher Child) (frontik_app : Scope Child → App) (env : Env)
    (mode : DebugMode) (table : Table) (methods : Methods) (path : String)
    (auth_failed : is_true mode.auth_failed ≡ false) (scope : Scope Child) (methods' : Methods)
    (route : find_route matches table methods path env.method none "" ≡ found scope methods')
    (messages : List Message) (app : frontik_app scope ≡ sends_all messages)
    (willing : IsWilling env) where
  -- what the application leaves
  abbrev sent : Exchange
  sent = run_app env mode (sends_all messages) (begin (new_response env 200 [] []))

  served :
      serve_tornado_request matches frontik_app env false (checked mode) table methods path
      ≡ respond env (returns (debug_answer env mode sent))
  unfolding serve_tornado_request process_request admitted page execute_asgi_page begin end_of_page
  served = ap (respond env) (
      ap (admitted matches frontik_app env (checked mode)) route
      ∙ (if_false _ _ _ auth_failed
          ∙ (ap (λ a. end_of_page env mode (execute_asgi_page env mode a)) app
              ∙ if_false _ _ _
                  (sends_all-canceled env mode messages (begin (new_response env 200 [] []))))))

  -- A request that is neither limited nor refused, whose client does not close the connection
  -- between two messages, whose page is found, whose application sends all its messages whatever
  -- becomes of them, and that is not debugged, on a connection that raises nothing but
  -- `StreamClosedError`: its task returns, and the calls on the connection, those that find it closed
  -- among them, carry the chunks that the application has sent, whole and in order, however many
  -- there are; when only the head is asked for, they carry those behind the first.
  pub serve_tornado_request-payload :
      mode.debug_response ≡ false
      → (x : Exchange) × (serve_tornado_request matches frontik_app env false
            (checked mode)
            table
            methods
            path
          ≡ returns x)
        × (payload x.calls ≡ concat (body_chunks env (chunks_of messages)))
  unfolding debug_answer begin new_response concat body_chunks payload
  serve_tornado_request-payload off =
      let same : debug_answer env mode sent ≡ sent =
        if_false _ _ _ (ap (λ b. b && not sent.response.headers_written) off) in
      let canceled = sends_all-canceled env mode messages (begin (new_response env 200 [] [])) in
      let start = served ∙ ap (λ x. respond env (returns x)) same in
      elim (run_unwritten env mode off willing messages (begin (new_response env 200 [] [])) refl
        refl refl) [
          | inl (written, bytes) ↦
              (_, start ∙ respond-written_willing env sent willing canceled written, bytes)
          | inr (unwritten, calls, body, none_sent) ↦ (
            _,
            start ∙ respond-unwritten_willing env sent willing canceled unwritten,
            rw (put_start_line-calls env sent.response.body sent, calls, body, none_sent)
                (ground arith),
          )
        ]

  -- A page that is debugged does not reach the client: one call writes the status 200 and the debug
  -- log of the response, whose body holds all chunks that the application has sent.
  serve_tornado_request-debug :
      mode.debug_response ≡ true
      → mode.enabled ≡ true
      → (x : Exchange) × (response : Response) × (headers : Headers) × (serve_tornado_request
            matches frontik_app env false
            (checked mode)
            table
            methods
            path
          ≡ returns x)
        × (response.body ≡ concat (chunks_of messages))
        × (x.calls
            ≡ write_headers 200 headers (head_chunk env (env.log_document mode response)) ∷ [])
  unfolding debug_answer transform_chunk begin new_response
  serve_tornado_request-debug on enabled =
      let (calls, unwritten, body) =
        run_debug env mode messages (begin (new_response env 200 [] [])) on in
      let headers = wrap_headers env mode sent.response.headers in
      let log = new_response env 200 headers (env.log_document mode sent.response) in
      let answered : debug_answer env mode sent ≡ record sent { response = log } =
        if_true _ _ _ (ap (λ b. b && not sent.response.headers_written) on ∙ ap not unwritten)
        ∙ ap (λ r. record sent { response = r }) (if_true _ _ _ enabled) in
      let canceled = sends_all-canceled env mode messages (begin (new_response env 200 [] [])) in
      (
        _,
        sent.response,
        log.headers,
        served
            ∙ (ap (λ x. respond env (returns x)) answered
                ∙ respond-unwritten_willing env (record sent { response = log }) willing canceled
                    refl),
        body,
        put_start_line-calls env log.body (record sent { response = log })
            ∙ ap (λ cs. cs ++ write_headers 200 log.headers (head_chunk env log.body) ∷ []) calls,
      )
