-- ===== src/BalancingClient/Deadline.antt =====
-- The deadlines that frontik/balancing_client.py passes on.
use mathlib.Core.Path.{subst}
use frontik.Prelude.{
  ℕ, ◌+◌, ◌-◌, ◌*◌, ◌≤◌, ◌<◌, ◌≡◌, ◌≢◌, ◌↔◌, ◌∙◌, refl, ap, sym, Option-cases, ◌⊎◌, inl, inr,
  String, some, arith,
}
use frontik.TimeoutTracking.{Sender}
use frontik.BalancingClient.{
  ServerHeaders, RequestBuilder, Env, Result, ok, out_of_request_time, value_error, ◌>>=◌, int_of,
  header_timeout, set_deadline, check_timeout, add_debug, modify_http_client_request,
}

-- The request ends before the caller's deadline, has time left, has no more time than before, and
-- says so in its header and to the client.
pub record KeepsDeadline (header_ms spent_us : ℕ) (r r' : RequestBuilder) : Type 0 where
  pub has_time : 0 < r'.request_timeout_ms
  pub no_longer : r'.request_timeout_ms ≤ r.request_timeout_ms
  pub in_time : r'.request_timeout_ms * 1000 + spent_us ≤ header_ms * 1000
  pub told : r'.headers.deadline_timeout_ms ≡ some r'.request_timeout_ms
  pub client : r'.client_timeout ≡ some (r'.request_timeout_ms, r.connect_timeout_ms)

set_deadline-KeepsDeadline :
    (spent_us header_ms : ℕ) (r r' : RequestBuilder)
    → set_deadline spent_us (some header_ms) r ≡ ok r'
    → KeepsDeadline header_ms spent_us r r'
unfolding set_deadline
set_deadline-KeepsDeadline spent_us header_ms r r' h = ground arith

set_deadline_out :
    (spent_us header_ms : ℕ) (r : RequestBuilder)
    → (set_deadline spent_us (some header_ms) r ≡ out_of_request_time)
      ↔ ((header_ms * 1000 < spent_us + 1000) ⊎ (r.request_timeout_ms ≡ 0))
unfolding set_deadline
set_deadline_out spent_us header_ms r = ground arith

-- what a step that succeeds has been given
pub of_bind :
    {A B : Type 0} (next : A → Result B) (first : Result A) {b : B}
    → ok b ≡ (first >>= next)
    → (a : A) × (first ≡ ok a) × (ok b ≡ next a)
of_bind next (ok a) h = (a, refl, h)
of_bind next out_of_request_time h = cc
of_bind next value_error h = cc

add_debug-KeepsDeadline :
    (header_ms spent_us : ℕ) (env : Env) (headers : ServerHeaders) (r r' : RequestBuilder)
    → KeepsDeadline header_ms spent_us r r'
    → KeepsDeadline header_ms spent_us r (add_debug env headers r')
unfolding add_debug
add_debug-KeepsDeadline header_ms spent_us env headers r r' k = ground arith

int_of-ne : (text : String) → int_of text ≢ out_of_request_time
unfolding int_of
int_of-ne text h = ground arith

check_timeout-ne :
    (env : Env) (headers : ServerHeaders) (r : RequestBuilder) (sender : Sender)
    → check_timeout env headers r sender ≢ out_of_request_time
unfolding check_timeout
check_timeout-ne env headers r sender h = elim (Option-cases headers.outer_timeout_ms) [
  | inl e ↦ ground arith
  | inr (text, e) ↦ ground (arith, int_of-ne text)
]

module _ (env : Env) (headers : ServerHeaders) (r : RequestBuilder) (sender : Sender)
    (header_ms : ℕ) (timeout : header_timeout env headers ≡ ok (some header_ms)) where
  abbrev spent_us : ℕ
  spent_us = env.now_us - env.start_time_us

  -- the request with its first two headers
  abbrev labelled : RequestBuilder
  labelled = record r {
    headers = record (r.headers) {
      x_request_id = env.request_id;
      outer_timeout_ms = some r.request_timeout_ms;
    };
  }

  abbrev last_steps : RequestBuilder → Result (RequestBuilder × Sender)
  last_steps r₂ = do
    sender' ← check_timeout env headers r₂ sender
    ok (add_debug env headers r₂, sender')

  steps :
      modify_http_client_request env headers r sender
      ≡ (set_deadline spent_us (some header_ms) labelled >>= last_steps)
  unfolding modify_http_client_request
  steps = rw timeout

  out_of_set :
      (m : Result RequestBuilder)
      → (m >>= last_steps) ≡ out_of_request_time
      → m ≡ out_of_request_time
  out_of_set (ok r₂) h = ground (arith, check_timeout-ne env headers r₂ sender)
  out_of_set out_of_request_time h = refl
  out_of_set value_error h = cc

  -- When the caller has set a timeout of `header_ms`, a request that is sent ends before it runs out,
  -- has time left and no more than was asked for; its header and the client hold the same time.
  pub modify_http_client_request-KeepsDeadline :
      (r' : RequestBuilder) (sender' : Sender)
      → modify_http_client_request env headers r sender ≡ ok (r', sender')
      → KeepsDeadline header_ms (env.now_us - env.start_time_us) r r'
  modify_http_client_request-KeepsDeadline r' sender' h =
      let (r₂, set, rest) =
        of_bind last_steps (set_deadline spent_us (some header_ms) labelled) (sym h ∙ steps) in
      let (s, checked, last) =
        of_bind (λ s. ok (add_debug env headers r₂, s)) (check_timeout env headers r₂ sender)
          rest in
      let same : add_debug env headers r₂ ≡ r' = ground arith in
      let k = set_deadline-KeepsDeadline spent_us header_ms labelled r₂ set in
      subst (KeepsDeadline header_ms spent_us r) same (
        add_debug-KeepsDeadline header_ms spent_us env headers r r₂ (record {
          has_time = k.has_time;
          no_longer = k.no_longer;
          in_time = k.in_time;
          told = k.told;
          client = k.client;
        }))

  -- It is not sent, for want of time, exactly when less than a millisecond is left of the caller's
  -- timeout, or the request has none of its own.
  pub modify_http_client_request-out_of_time :
      (modify_http_client_request env headers r sender ≡ out_of_request_time)
      ↔ ((header_ms * 1000 < (env.now_us - env.start_time_us) + 1000) ⊎ (r.request_timeout_ms ≡ 0))
  modify_http_client_request-out_of_time = (
    (λ h.
        (set_deadline_out spent_us header_ms labelled).0
          (out_of_set (set_deadline spent_us (some header_ms) labelled) (sym steps ∙ h))),
    (λ h. steps ∙ ap (λ m. m >>= last_steps) ((set_deadline_out spent_us header_ms labelled).1 h)),
  )
