-- ===== src/Handler/Serve/StartLine.antt =====
-- Each request is answered by one start line.
use frontik.Prelude.{true, false, ◌≡◌, ap, ◌∙◌, if_true, if_false}
use frontik.DebugMode.{DebugMode}
use frontik.Handler.Exchange.{
  Exchange, Env, own_response, client_closed_request, put_start_line, write_start_line,
}
use frontik.Handler.Exchange.Calls.{starts_once, orderly}
use frontik.Handler.Exchange.Payload.{IsWilling}
use frontik.Handler.Serve.{Task, returns, interrupted, raises, finish_response, respond}

-- What holds when the task of the request ends.
IsReady : Task → Type 0
IsReady raises = Unit
IsReady (returns x) = (orderly x ≡ true) × (x.canceled ≡ false)
IsReady (interrupted x) =
    (orderly x ≡ true) × (x.connection_finished ≡ false) × (x.reported ≡ client_closed_request)

-- What holds when the request is served.
pub IsAnswered : Task → Type 0
IsAnswered raises = Unit
IsAnswered (returns x) =
    (starts_once x.calls ≡ true) × (x.connection_finished ≡ true) × (x.reported ≡ own_response)
IsAnswered (interrupted x) =
    (orderly x ≡ true) × (x.connection_finished ≡ false) × (x.reported ≡ client_closed_request)

module _ (env : Env) (x : Exchange) where
  pub respond-written :
      x.canceled ≡ false
      → x.response.headers_written ≡ true
      → respond env (returns x) ≡ finish_response env (false, x)
  unfolding respond
  respond-written h w = if_false _ _ _ h ∙ ap (finish_response env) (if_true _ _ _ w)

  pub respond-unwritten :
      x.canceled ≡ false
      → x.response.headers_written ≡ false
      → respond env (returns x) ≡ finish_response env (write_start_line env x.response.body x)
  unfolding respond
  respond-unwritten h w = if_false _ _ _ h ∙ ap (finish_response env) (if_false _ _ _ w)

-- on a connection that raises nothing but `StreamClosedError`
module _ (env : Env) (x : Exchange) (willing : IsWilling env) where
  abbrev pub answered : Exchange → Exchange
  answered y = record y { reported = own_response; connection_finished = true }

  finish_response-willing : (y : Exchange) → finish_response env (false, y) ≡ returns (answered y)
  unfolding finish_response
  finish_response-willing y = if_true _ _ _ (willing.ends y.calls)

  pub respond-written_willing :
      x.canceled ≡ false
      → x.response.headers_written ≡ true
      → respond env (returns x) ≡ returns (answered x)
  respond-written_willing h w = respond-written env x h w ∙ finish_response-willing x

  pub respond-unwritten_willing :
      x.canceled ≡ false
      → x.response.headers_written ≡ false
      → respond env (returns x) ≡ returns (answered (put_start_line env x.response.body x))
  unfolding write_start_line
  respond-unwritten_willing h w =
      respond-unwritten env x h w
      ∙ (ap (finish_response env) (if_false _ _ _ (willing.takes _ _ _))
          ∙ finish_response-willing (put_start_line env x.response.body x))
