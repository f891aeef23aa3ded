-- ===== src/BalancingClient/Status.antt =====
-- The status of a page whose own request has failed (frontik/balancing_client.py).
use frontik.Prelude.{sym, ℕ, ◌≤◌, ◌<◌, ◌≡◌, ◌⊎◌, Bool, true, arith, if◌then◌else◌}
use frontik.BalancingClient.{
  ServerHeaders, ok, timeout_was_reduced, relayed, fail_fast_status, fail_fast_error_status,
}
use frontik.BalancingClient.Deadline.{of_bind}

module _ (insufficient_timeout server_timeout : ℕ) where
  -- The status that a failed status of at least 400 leads to.
  abbrev pub Outcome : Bool → ℕ → ℕ → Type 0
  Outcome reduced status answer =
      ((relayed insufficient_timeout server_timeout status ≡ true) × (answer ≡ status))
      ⊎ ((status < 500) × (answer ≡ 500))
      ⊎ ((500 ≤ status) × (answer ≡ 502))
      ⊎ ((status ≡ server_timeout) × (answer ≡ 504))
      ⊎ ((status ≡ insufficient_timeout)
          × (answer ≡ (if reduced then insufficient_timeout else server_timeout)))

  fail_fast_status-Outcome :
      (reduced : Bool) (status : ℕ) (parsing_or_exc : Bool)
      → 400 ≤ status
      → Outcome reduced status
          (fail_fast_status insufficient_timeout server_timeout reduced status parsing_or_exc)
  unfolding fail_fast_status relayed
  fail_fast_status-Outcome reduced status parsing_or_exc h = ground arith

  -- When a page's request has failed with a status of at least 400, the page answers with that status
  -- only if it is 401, 403, 404 or 569, with 500 for a status below 500, 502 for one from there on,
  -- 504 when the upstream was out of time, and when the upstream had been given too little time, with
  -- the same complaint if the page's own time had been reduced, and as out of time if not.
  fail_fast_error_status-Outcome :
      (headers : ServerHeaders) (status answer : ℕ) (parsing_or_exc : Bool)
      → 400 ≤ status
      → fail_fast_error_status insufficient_timeout server_timeout headers status parsing_or_exc
        ≡ ok answer
      → (reduced : Bool) × (timeout_was_reduced headers ≡ ok reduced)
        × Outcome reduced status answer
  unfolding fail_fast_error_status
  fail_fast_error_status-Outcome headers status answer parsing_or_exc h e =
      let (reduced, checked, last) = of_bind _ (timeout_was_reduced headers) (sym e) in
      let same : fail_fast_status insufficient_timeout server_timeout reduced status parsing_or_exc
          ≡ answer =
        ground arith in
      (reduced, checked, rw (← same) (fail_fast_status-Outcome reduced status parsing_or_exc h))
