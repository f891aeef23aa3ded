-- ===== src/ConsulClient/Events.antt =====
-- What is reported of a request to Consul, in frontik/consul_client.py.
use frontik.Prelude.{
  ℕ, String, Option, none, some, List, [], ◌∷◌, eqb, if◌then◌else◌, ◌≡◌, refl, Bool-cases, inl, inr,
}
use frontik.ConsulClient.{
  Error, consul_exception, exception, base_exception, Outcome, returns, raises, Event,
  on_http_request_success, on_http_request_invalid, on_http_request_failure, Response, timeout,
  fail, invalid, finish, async_request, sync_request,
}

-- what a request reports, from the code of the response, if there is one, and the outcome
abbrev pub reports : {A : Type 0} → String → String → Option ℕ → Outcome A → List Event
reports method path none (returns a) = []
reports method path (some code) (returns a) = on_http_request_success method path code ∷ []
reports method path code (raises (base_exception name)) = []
reports method path code (raises (exception name)) =
    on_http_request_failure method path (exception name) ∷ []
reports method path none (raises (consul_exception name)) =
    on_http_request_failure method path (consul_exception name) ∷ []
reports method path (some code) (raises (consul_exception name)) =
    on_http_request_invalid method path code
    ∷ on_http_request_failure method path (consul_exception name)
    ∷ []

abbrev pub code_of : Outcome Response → Option ℕ
code_of (returns r) = some r.code
code_of (raises error) = none

-- the outcome of a request: that of the session, or of the callback on the response
abbrev pub outcome_of : {A : Type 0} → (Response → Outcome A) → Outcome Response → Outcome A
outcome_of callback (returns r) = callback r
outcome_of callback (raises error) = raises error

-- the callback of the asynchronous client, which takes no response with the code 599
abbrev pub but_599 : {A : Type 0} → (Response → Outcome A) → Response → Outcome A
but_599 callback r = if eqb r.code 599 then raises timeout else callback r

module _ {A : Type 0} (method path : String) where
  fail-reports :
      (error : Error)
      → fail {A = A} method path [] error
        ≡ (reports {A = A} method path none (raises error), raises error)
  unfolding fail
  fail-reports (consul_exception name) = refl
  fail-reports (exception name) = refl
  fail-reports (base_exception name) = refl

  finish-reports :
      (code : ℕ) (outcome : Outcome A)
      → finish method path code outcome ≡ (reports method path (some code) outcome, outcome)
  unfolding finish invalid fail
  finish-reports code (returns a) = refl
  finish-reports code (raises (consul_exception name)) = refl
  finish-reports code (raises (exception name)) = refl
  finish-reports code (raises (base_exception name)) = refl

  -- A request of the synchronous client ends as its session does, or else as the callback does on
  -- the response, and it reports a success if and only if there is a result. If there is an
  -- exception, it reports a failure, unless it is not an `Exception`; and an exception of the kind
  -- `ConsulException` that the callback raises is reported as invalid first, and then also as a
  -- failure.
  pub sync_request-reports :
      (callback : Response → Outcome A) (session : Outcome Response)
      → sync_request method path callback session ≡ (
        reports method path (code_of session) (outcome_of callback session),
        outcome_of callback session,
      )
  unfolding sync_request
  sync_request-reports callback (raises error) = fail-reports error
  sync_request-reports callback (returns r) = finish-reports r.code (callback r)

  -- The asynchronous client does what the synchronous one does with a callback that raises
  -- `base.Timeout` on a response with the code 599, which the synchronous one hands on.
  async_request-sync_request :
      (callback : Response → Outcome A) (session : Outcome Response)
      → async_request method path callback session
        ≡ sync_request method path (but_599 callback) session
  unfolding async_request sync_request finish
  async_request-sync_request callback (raises error) = refl
  async_request-sync_request callback (returns r) = elim (Bool-cases (eqb r.code 599)) [
    | inl late ↦ rw (late, async_request, finish) refl
    | inr other ↦ rw (other, async_request) refl
  ]
