-- ===== src/ConsulClient/Tests.antt =====
-- Requests to Consul with each kind of ending, and the metrics that are counted.
use frontik.Prelude.{ℕ, String, some, [], ◌∷◌, map, eqb, if◌then◌else◌, ◌≡◌, refl, decimal}
use frontik.ConsulClient.{
  Outcome, returns, raises, consul_exception, Response, sync_request, sync_client, track, Count,
}
use frontik.ConsulClient.Events.{reports, sync_request-reports}

-- a callback that takes responses with the code 200
abbrev ok_only : Response → Outcome String
ok_only r = if eqb r.code 200 then returns r.body else raises (consul_exception "ConsulException")

abbrev response : ℕ → Outcome Response
response code = returns (record { code = code; body = "b" })

sync_request-reports_example : sync_request "GET" "/v1" ok_only (response 500) ≡ (
  reports {A = String} "GET" "/v1" (some 500) (raises (consul_exception "ConsulException")),
  raises (consul_exception "ConsulException"),
)
sync_request-reports_example = sync_request-reports "GET" "/v1" ok_only (response 500)

-- One failed request counts two failures.
abbrev counted : Count
counted = record { metric = "consul-client.request"; result = "failure"; type = "ConsulException" }

counted_twice :
    map track ((sync_client ok_only (λ method path. response 500)).get "/v1").0
    ≡ record counted { type = "500" } ∷ counted ∷ []
unfolding track sync_request sync_client decimal
counted_twice = refl
