-- ===== src/Handler/Exchange/Calls.antt =====
-- The order of the calls on a connection, and the bytes that they carry.
use frontik.Prelude.{
  Bytes, Bool, true, false, not, Option, none, some, List, [], ◌∷◌, ◌++◌, if◌then◌else◌, ◌≡◌, refl,
  ap, ◌∙◌, arith, if_true, if_false, Bool-cases, inl, inr,
}
use frontik.DebugMode.{DebugMode}
use frontik.Handler.Exchange.{
  Message, response_start, response_body, other_type, Call, write_headers, write, App, done, sends,
  closed_then, Exchange, Env, call, head_chunk, put_start_line, write_start_line, after_start_line,
  send_rest, send_body, send, on_close, run_app, own_response, client_closed_request,
}

-- whether all calls write chunks
pub only_writes : List Call → Bool
only_writes [] = true
only_writes (write_headers status headers chunk ∷ calls) = false
only_writes (write chunk ∷ calls) = only_writes calls

-- The first call writes the headers, and no other one does.
unfoldable pub starts_once : List Call → Bool
unfolding only_writes
starts_once [] = false
starts_once (write_headers status headers chunk ∷ calls) = only_writes calls
starts_once (write chunk ∷ calls) = false

no_calls : List Call → Bool
no_calls [] = true
no_calls (c ∷ calls) = false

-- The headers are written, once and first, or there is no call.
unfoldable pub orderly : Exchange → Bool
unfolding no_calls
orderly x = if x.response.headers_written then starts_once x.calls else no_calls x.calls

only_writes-append :
    (calls : List Call) (chunk : Bytes)
    → only_writes calls ≡ true
    → only_writes (calls ++ write chunk ∷ []) ≡ true
unfolding only_writes
only_writes-append [] chunk h = refl
only_writes-append (write_headers status headers c ∷ calls) chunk h = cc h
only_writes-append (write c ∷ calls) chunk h = only_writes-append calls chunk h

starts_once-append :
    (calls : List Call) (chunk : Bytes)
    → starts_once calls ≡ true
    → starts_once (calls ++ write chunk ∷ []) ≡ true
unfolding starts_once
starts_once-append [] chunk h = cc h
starts_once-append (write_headers status headers c ∷ calls) chunk h =
    only_writes-append calls chunk h
starts_once-append (write c ∷ calls) chunk h = cc h

pub put_start_line-calls :
    (env : Env) (chunk : Bytes) (x : Exchange)
    → (put_start_line env chunk x).calls
      ≡ x.calls
        ++ write_headers x.response.status_code x.response.headers (head_chunk env chunk) ∷ []
unfolding put_start_line call
put_start_line-calls env chunk x = ground arith

pub no_calls_of :
    (x : Exchange) → x.response.headers_written ≡ false → orderly x ≡ true → x.calls ≡ []
unfolding orderly no_calls
no_calls_of x h o = ground arith

-- the start line on a connection without calls
pub put_start_line-starts :
    (env : Env) (chunk : Bytes) (x : Exchange)
    → x.response.headers_written ≡ false
    → orderly x ≡ true
    → starts_once (put_start_line env chunk x).calls ≡ true
unfolding starts_once only_writes
put_start_line-starts env chunk x h o =
    rw (put_start_line-calls env chunk x, no_calls_of x h o) refl

send_rest-orderly :
    (env : Env) (chunk : Bytes) (more : Option Bool) (x : Exchange)
    → x.response.headers_written ≡ true
    → orderly x ≡ true
    → orderly (send_rest env chunk more x).1 ≡ true
unfolding send_rest call orderly
send_rest-orderly env (b ∷ chunk) more x h o =
    ground (arith, starts_once-append x.calls (b ∷ chunk))
send_rest-orderly env [] (some false) x h o = o
send_rest-orderly env [] (some true) x h o = ground (arith, starts_once-append x.calls [])
send_rest-orderly env [] none x h o = o

module _ (env : Env) (mode : DebugMode) (chunk : Bytes) (more : Option Bool) (x : Exchange) where
  pub send_body-debug :
      mode.debug_response ≡ true
      → send_body env mode chunk more x
        ≡ (false, record x { response = record (x.response) { body = x.response.body ++ chunk } })
  unfolding send_body
  send_body-debug h = rw h refl

  -- what the first chunk leaves
  abbrev pub first_sent : Exchange
  first_sent =
      let x' = put_start_line env chunk (record x { reported = own_response }) in
      record x' { response = record (x'.response) { headers_written = true } }

  pub send_body-first :
      mode.debug_response ≡ false
      → x.response.headers_written ≡ false
      → env.refuses x.response.status_code x.response.headers (head_chunk env chunk) ≡ false
      → send_body env mode chunk more x ≡ (false, first_sent)
  unfolding send_body write_start_line
  send_body-first page h taken =
      if_false _ _ _ page ∙ (if_true _ _ _ (ap not h) ∙ ap after_start_line (if_false _ _ _ taken))

  -- a start line that is refused leaves no call
  send_body-refused :
      mode.debug_response ≡ false
      → x.response.headers_written ≡ false
      → env.refuses x.response.status_code x.response.headers (head_chunk env chunk) ≡ true
      → send_body env mode chunk more x ≡ (true, record x { reported = own_response })
  unfolding send_body write_start_line
  send_body-refused page h refused =
      if_false _ _ _ page ∙ (if_true _ _ _ (ap not h) ∙ ap after_start_line (if_true _ _ _ refused))

  pub send_body-rest :
      mode.debug_response ≡ false
      → x.response.headers_written ≡ true
      → send_body env mode chunk more x ≡ send_rest env chunk more x
  unfolding send_body
  send_body-rest page h = if_false _ _ _ page ∙ if_false _ _ _ (ap not h)

  send_body-orderly : orderly x ≡ true → orderly (send_body env mode chunk more x).1 ≡ true
  unfolding orderly
  send_body-orderly o = elim (Bool-cases mode.debug_response) [
    | inl debug ↦ rw (send_body-debug debug) o
    | inr page ↦ elim (Bool-cases x.response.headers_written) [
      | inl h ↦ rw (send_body-rest page h) (send_rest-orderly env chunk more x h o)
      | inr h ↦
          elim (Bool-cases
            (env.refuses x.response.status_code x.response.headers (head_chunk env chunk))) [
              | inl refused ↦ rw (send_body-refused page h refused) o
              | inr taken ↦
                  rw (send_body-first page h taken)
                    (put_start_line-starts env chunk (record x { reported = own_response }) h o)
            ]
    ]
  ]

send-orderly :
    (env : Env) (mode : DebugMode) (message : Message) (x : Exchange)
    → orderly x ≡ true
    → orderly (send env mode message x).1 ≡ true
unfolding send orderly
send-orderly env mode (response_start status headers decodes) x o = o
send-orderly env mode (response_body chunk more) x o = send_body-orderly env mode chunk more x o
send-orderly env mode (other_type type) x o = o

pub run_app-orderly :
    (env : Env) (mode : DebugMode) (app : App) (x : Exchange)
    → orderly x ≡ true
    → orderly (run_app env mode app x) ≡ true
unfolding run_app on_close orderly
run_app-orderly env mode done x o = o
run_app-orderly env mode (sends message continue) x o =
    let (raised, x') = send env mode message x in
    run_app-orderly env mode (continue raised) x' (send-orderly env mode message x o)
run_app-orderly env mode (closed_then app) x o = ground (arith, run_app-orderly env mode app x o)

send_rest-keeps :
    (env : Env) (chunk : Bytes) (more : Option Bool) (x : Exchange)
    → ((send_rest env chunk more x).1.canceled ≡ x.canceled)
      × ((send_rest env chunk more x).1.connection_finished ≡ x.connection_finished)
unfolding send_rest call
send_rest-keeps env (b ∷ chunk) more x = (refl, refl)
send_rest-keeps env [] (some false) x = (refl, refl)
send_rest-keeps env [] (some true) x = (refl, refl)
send_rest-keeps env [] none x = (refl, refl)

pub send-keeps :
    (env : Env) (mode : DebugMode) (message : Message) (x : Exchange)
    → ((send env mode message x).1.canceled ≡ x.canceled)
      × ((send env mode message x).1.connection_finished ≡ x.connection_finished)
unfolding send send_body write_start_line put_start_line call
send-keeps env mode (response_start status headers decodes) x = (refl, refl)
send-keeps env mode (response_body chunk more) x = ground (arith, send_rest-keeps env chunk more x)
send-keeps env mode (other_type type) x = (refl, refl)

-- An application that is canceled has been told to the integrations as such, and nobody else ends
-- the response.
pub run_app-canceled :
    (env : Env) (mode : DebugMode) (app : App) (x : Exchange)
    → x.canceled ≡ false
    → ((run_app env mode app x).connection_finished ≡ x.connection_finished)
      × ((run_app env mode app x).canceled ≡ true
          → (run_app env mode app x).reported ≡ client_closed_request)
unfolding run_app on_close
run_app-canceled env mode done x h = (refl, λ e. cc (h, e))
run_app-canceled env mode (sends message continue) x h =
    let (raised, x') = send env mode message x in
    let keeps = send-keeps env mode message x in
    let later = run_app-canceled env mode (continue raised) x' (keeps.0 ∙ h) in
    (later.0 ∙ keeps.1, later.1)
run_app-canceled env mode (closed_then app) x h = ground (arith, run_app-canceled env mode app x h)
