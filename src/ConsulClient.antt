-- ===== src/ConsulClient.antt =====
-- frontik/consul_client.py: which callbacks a request to Consul makes, and the metrics that
-- service_discovery.py counts from them. The calls of aiohttp and requests, and the callback that
-- parses a response, are parameters.
mod Events
mod Tests
use frontik.Prelude.{ℕ, String, List, [], ◌∷◌, ◌++◌, eqb, if◌then◌else◌, decimal}

-- An exception: `base.ConsulException` or one of its subclasses, another `Exception`, or one that is
-- not an `Exception`, such as the cancellation of a task. It is held with the name of its type.
pub data Error : Type 0 where
  consul_exception exception base_exception : String → Error

pub data Outcome (A : Type 0) : Type 0 where
  returns : A → Outcome A
  raises : Error → Outcome A

-- the calls of a `ClientEventCallback`, with the method, the path and the code or the exception
pub data Event : Type 0 where
  on_http_request_success : (method path : String) (response_code : ℕ) → Event
  on_http_request_invalid : (method path : String) (response_code : ℕ) → Event
  on_http_request_failure : (method path : String) → Error → Event

-- `base.Response`
pub record Response : Type 0 where
  pub code : ℕ
  pub body : String

abbrev pub http_method_get : String
http_method_get = "GET"

abbrev pub http_method_post : String
http_method_post = "POST"

abbrev pub http_method_put : String
http_method_put = "PUT"

abbrev pub http_method_delete : String
http_method_delete = "DELETE"

-- `base.Timeout`, which is a `ConsulException`
abbrev pub timeout : Error
timeout = consul_exception "Timeout"

module _ {A : Type 0} (method path : String) where
  -- `except Exception as ex`, around the request and the callback
  pub fail : List Event → Error → List Event × Outcome A
  fail events (consul_exception name) = (
    events ++ on_http_request_failure method path (consul_exception name) ∷ [],
    raises (consul_exception name),
  )
  fail events (exception name) =
      (events ++ on_http_request_failure method path (exception name) ∷ [], raises (exception name))
  fail events (base_exception name) = (events, raises (base_exception name))

  -- `except base.ConsulException as ex`, within
  pub invalid : ℕ → Error → List Event × Outcome A
  unfolding fail
  invalid code (consul_exception name) =
      fail (on_http_request_invalid method path code ∷ []) (consul_exception name)
  invalid code (exception name) = fail [] (exception name)
  invalid code (base_exception name) = fail [] (base_exception name)

  -- behind the callback
  pub finish : ℕ → Outcome A → List Event × Outcome A
  unfolding invalid
  finish code (returns result) = (on_http_request_success method path code ∷ [], returns result)
  finish code (raises error) = invalid code error

  module _ (callback : Response → Outcome A) where
    -- `_AsyncConsulHttpClient._request`, for what its session gives or raises
    unfoldable pub async_request : Outcome Response → List Event × Outcome A
    unfolding fail finish invalid
    async_request (raises error) = fail [] error
    async_request (returns r) =
        if eqb r.code 599 then invalid r.code timeout else finish r.code (callback r)

    -- `_SyncConsulHttpClient._request`
    unfoldable pub sync_request : Outcome Response → List Event × Outcome A
    unfolding fail finish
    sync_request (raises error) = fail [] error
    sync_request (returns r) = finish r.code (callback r)

-- `get`, `put`, `delete` and `post` of a client, over its `_request`
pub record HttpClient (A : Type 0) : Type 0 where
  pub get : (path : String) → List Event × Outcome A
  pub put : (path : String) → List Event × Outcome A
  pub delete : (path : String) → List Event × Outcome A
  pub post : (path : String) → List Event × Outcome A

module _ {A : Type 0} (callback : Response → Outcome A)
    (session : (method path : String) → Outcome Response) where
  unfoldable pub async_client : HttpClient A
  unfolding async_request
  async_client = record {
    get = λ path. async_request http_method_get path callback (session http_method_get path);
    put = λ path. async_request http_method_put path callback (session http_method_put path);
    delete =
        λ path. async_request http_method_delete path callback (session http_method_delete path);
    post = λ path. async_request http_method_post path callback (session http_method_post path);
  }

  unfoldable pub sync_client : HttpClient A
  unfolding sync_request
  sync_client = record {
    get = λ path. sync_request http_method_get path callback (session http_method_get path);
    put = λ path. sync_request http_method_put path callback (session http_method_put path);
    delete =
        λ path. sync_request http_method_delete path callback (session http_method_delete path);
    post = λ path. sync_request http_method_post path callback (session http_method_post path);
  }

-- a call of `statsd_client.count`, by one
pub record Count : Type 0 where
  pub metric : String
  pub result : String
  pub type : String

abbrev pub consul_requests_metric : String
consul_requests_metric = "consul-client.request"

-- `type(ex).__name__`
pub type_name : Error → String
type_name (consul_exception name) = name
type_name (exception name) = name
type_name (base_exception name) = name

-- `ConsulMetricsTracker`
unfoldable pub track : Event → Count
unfolding type_name
track (on_http_request_success method path response_code) = record {
  metric = consul_requests_metric;
  result = "success";
  type = decimal response_code;
}
track (on_http_request_failure method path ex) = record {
  metric = consul_requests_metric;
  result = "failure";
  type = type_name ex;
}
track (on_http_request_invalid method path response_code) = record {
  metric = consul_requests_metric;
  result = "failure";
  type = decimal response_code;
}
