-- ===== src/Handler/Exchange/Payload.antt =====
-- The bytes that the messages of an application put on the connection.
use mathlib.Core.List.{append_assoc, append-nil}
use frontik.Prelude.{
  ℕ, none, some, Option, Bytes, Bool, true, false, List, [], ◌∷◌, ◌++◌, ◌==◌, if◌then◌else◌, ◌≡◌,
  refl, ap, sym, ◌∙◌, arith, ◌⊎◌, inl, inr,
}
use frontik.DebugMode.{DebugMode}
use frontik.Handler.Exchange.{
  App, done, sends, Message, response_start, response_body, other_type, Call, write_headers, write,
  Exchange, Env, Headers, head_chunk, own_response, run_app, send, send_body, send_rest, call,
}
use frontik.Handler.Exchange.Calls.{
  put_start_line-calls, send_body-debug, send_body-first, send_body-rest, first_sent, send-keeps,
}

-- An application that sends these messages, whatever becomes of them.
unfoldable pub sends_all : List Message → App
sends_all [] = done
sends_all (message ∷ messages) = sends message (λ raised. sends_all messages)

-- the chunks among the messages
unfoldable pub chunks_of : List Message → List Bytes
chunks_of [] = []
chunks_of (response_body chunk more ∷ messages) = chunk ∷ chunks_of messages
chunks_of (response_start status headers decodes ∷ messages) = chunks_of messages
chunks_of (other_type type ∷ messages) = chunks_of messages

unfoldable pub concat : List Bytes → Bytes
concat [] = []
concat (chunk ∷ chunks) = chunk ++ concat chunks

-- the chunks that reach the connection: a request for the head alone loses its first one
unfoldable pub body_chunks : Env → List Bytes → List Bytes
body_chunks env [] = []
body_chunks env (chunk ∷ chunks) = if env.method == "HEAD" then chunks else chunk ∷ chunks

-- the bytes behind the headers that the calls carry
unfoldable pub payload : List Call → Bytes
payload [] = []
payload (write_headers status headers chunk ∷ calls) = chunk ++ payload calls
payload (write chunk ∷ calls) = chunk ++ payload calls

payload-append : (xs ys : List Call) → payload (xs ++ ys) ≡ payload xs ++ payload ys
unfolding payload
payload-append [] ys = refl
payload-append (write_headers status headers chunk ∷ xs) ys =
    rw (payload-append xs ys) (sym (append_assoc chunk (payload xs) (payload ys)))
payload-append (write chunk ∷ xs) ys =
    rw (payload-append xs ys) (sym (append_assoc chunk (payload xs) (payload ys)))

send_rest-payload :
    (env : Env) (chunk : Bytes) (more : Option Bool) (x : Exchange)
    → payload (send_rest env chunk more x).1.calls ≡ payload x.calls ++ chunk
unfolding send_rest call payload
send_rest-payload env (b ∷ chunk) more x =
    rw (payload-append x.calls (write (b ∷ chunk) ∷ []), append-nil chunk) refl
send_rest-payload env [] (some false) x = sym (append-nil (payload x.calls))
send_rest-payload env [] (some true) x = payload-append x.calls (write [] ∷ [])
send_rest-payload env [] none x = sym (append-nil (payload x.calls))

send_rest-response :
    (env : Env) (chunk : Bytes) (more : Option Bool) (x : Exchange)
    → (send_rest env chunk more x).1.response ≡ x.response
unfolding send_rest call
send_rest-response env (b ∷ chunk) more x = refl
send_rest-response env [] (some false) x = refl
send_rest-response env [] (some true) x = refl
send_rest-response env [] none x = refl

-- the step of `send` on a chunk
pub run_app-body :
    (env : Env) (mode : DebugMode) (chunk : Bytes) (more : Option Bool) (messages : List Message)
    (x : Exchange) (raised : Bool) (x' : Exchange)
    → send_body env mode chunk more x ≡ (raised, x')
    → run_app env mode (sends_all (response_body chunk more ∷ messages)) x
      ≡ run_app env mode (sends_all messages) x'
unfolding run_app sends_all send
run_app-body env mode chunk more messages x raised x' e =
    ap (λ r. run_app env mode (sends_all messages) r.1) e

-- The connection raises nothing but `StreamClosedError`.
pub record IsWilling (env : Env) : Type 0 where
  pub takes :
      (status : ℕ) (headers : Headers) (chunk : Bytes) → env.refuses status headers chunk ≡ false
  pub ends : (calls : List Call) → env.finishes calls ≡ true

module _ (env : Env) (mode : DebugMode) (page : mode.debug_response ≡ false)
    (willing : IsWilling env) where
  -- the messages behind the first chunk
  run_written :
      (messages : List Message) (x : Exchange)
      → x.response.headers_written ≡ true
      → ((run_app env mode (sends_all messages) x).response.headers_written ≡ true)
        × (payload (run_app env mode (sends_all messages) x).calls
            ≡ payload x.calls ++ concat (chunks_of messages))
  unfolding run_app sends_all send chunks_of concat
  run_written [] x h = (h, sym (append-nil (payload x.calls)))
  run_written (response_start status headers decodes ∷ messages) x h = run_written messages _ h
  run_written (other_type type ∷ messages) x h = run_written messages x h
  run_written (response_body chunk more ∷ messages) x h =
      let x' = (send_rest env chunk more x).1 in
      let written : x'.response.headers_written ≡ true =
        ap (λ r. r.headers_written) (send_rest-response env chunk more x) ∙ h in
      let (later, bytes) = run_written messages x' written in
      rw
        (run_app-body env mode chunk more messages x _ _
          (send_body-rest env mode chunk more x page h))
        (
          later,
          bytes
              ∙ (ap (λ p. p ++ concat (chunks_of messages)) (send_rest-payload env chunk more x)
                  ∙ append_assoc (payload x.calls) chunk (concat (chunks_of messages))),
        )

  first_bytes :
      (chunk : Bytes) (chunks : List Bytes)
      → head_chunk env chunk ++ concat chunks ≡ concat (body_chunks env (chunk ∷ chunks))
  unfolding concat body_chunks
  first_bytes chunk chunks = ground arith

  first_sent-payload :
      (chunk : Bytes) (more : Option Bool) (x : Exchange)
      → x.calls ≡ []
      → payload (first_sent env mode chunk more x).calls ≡ head_chunk env chunk
  unfolding payload
  first_sent-payload chunk more x h =
      rw (put_start_line-calls env chunk (record x { reported = own_response }), h)
        (append-nil (head_chunk env chunk))

  -- the messages from the beginning on
  pub run_unwritten :
      (messages : List Message) (x : Exchange)
      → x.response.headers_written ≡ false
      → x.calls ≡ []
      → x.response.body ≡ []
      → (((run_app env mode (sends_all messages) x).response.headers_written ≡ true)
          × (payload (run_app env mode (sends_all messages) x).calls
              ≡ concat (body_chunks env (chunks_of messages))))
        ⊎ (((run_app env mode (sends_all messages) x).response.headers_written ≡ false)
            × ((run_app env mode (sends_all messages) x).calls ≡ [])
            × ((run_app env mode (sends_all messages) x).response.body ≡ [])
            × (chunks_of messages ≡ []))
  unfolding run_app sends_all send chunks_of concat body_chunks
  run_unwritten [] x h c b = inr (h, c, b, refl)
  run_unwritten (response_start status headers decodes ∷ messages) x h c b =
      run_unwritten messages _ h c b
  run_unwritten (other_type type ∷ messages) x h c b = run_unwritten messages x h c b
  run_unwritten (response_body chunk more ∷ messages) x h c b =
      let (later, bytes) = run_written messages (first_sent env mode chunk more x) refl in
      inl (
        rw
          (run_app-body env mode chunk more messages x _ _
            (send_body-first env mode chunk more x page h (willing.takes _ _ _)))
          (
            later,
            bytes
                ∙ (ap (λ p. p ++ concat (chunks_of messages)) (first_sent-payload chunk more x c)
                    ∙ first_bytes chunk (chunks_of messages)),
          ))

-- with a debug response the chunks are only collected
pub run_debug :
    (env : Env) (mode : DebugMode) (messages : List Message) (x : Exchange)
    → mode.debug_response ≡ true
    → ((run_app env mode (sends_all messages) x).calls ≡ x.calls)
      × ((run_app env mode (sends_all messages) x).response.headers_written
          ≡ x.response.headers_written)
      × ((run_app env mode (sends_all messages) x).response.body
          ≡ x.response.body ++ concat (chunks_of messages))
unfolding run_app sends_all send chunks_of concat
run_debug env mode [] x d = (refl, refl, sym (append-nil x.response.body))
run_debug env mode (response_start status headers decodes ∷ messages) x d =
    run_debug env mode messages _ d
run_debug env mode (other_type type ∷ messages) x d = run_debug env mode messages x d
run_debug env mode (response_body chunk more ∷ messages) x d =
    let x' : Exchange = record x {
      response = record (x.response) { body = x.response.body ++ chunk };
    } in
    let (calls, written, body) = run_debug env mode messages x' d in
    rw (run_app-body env mode chunk more messages x _ _ (send_body-debug env mode chunk more x d))
      (calls, written, body ∙ append_assoc x.response.body chunk (concat (chunks_of messages)))

pub sends_all-canceled :
    (env : Env) (mode : DebugMode) (messages : List Message) (x : Exchange)
    → (run_app env mode (sends_all messages) x).canceled ≡ x.canceled
unfolding run_app sends_all
sends_all-canceled env mode [] x = refl
sends_all-canceled env mode (message ∷ messages) x =
    sends_all-canceled env mode messages (send env mode message x).1
    ∙ (send-keeps env mode message x).0
