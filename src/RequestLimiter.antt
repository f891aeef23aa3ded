-- ===== src/RequestLimiter.antt =====
-- frontik/request_integrations/request_limiter.py: the limit on the handlers that run at once.
-- `count` and the calls of `statsd_client.gauge` are shared; each request has a `Limit` of its own.
pub mod Bounds
mod Tests
use frontik.Prelude.{
  ℕ, zero, suc, ◌+◌, ◌-◌, ◌*◌, ◌/◌, Bool, true, false, List, [], ◌∷◌, ◌++◌, ltb, if◌then◌else◌,
}

-- `ActiveHandlersLimit.count`, the gauges sent, and the warnings logged
pub record Shared : Type 0 where
  pub count : ℕ
  pub gauges : List ℕ
  pub dropped : ℕ
  pub watermarks : ℕ

-- one `ActiveHandlersLimit`, the request still in its `with` block or not
pub record Limit : Type 0 where
  pub acquired : Bool
  pub is_open : Bool

-- `int(options.max_active_handlers * 0.75)`
pub high_watermark : ℕ → ℕ
high_watermark max_active_handlers = max_active_handlers * 3 / 4

pub acquire : Shared → Limit → Shared × Limit
acquire s limit = if limit.acquired then (s, limit) else (
  record s { count = s.count + 1; gauges = s.gauges ++ (s.count + 1) ∷ [] },
  record limit { acquired = true },
)

pub release : Shared → Limit → Shared × Limit
release s limit =
    if limit.acquired
    then (
      record s { count = s.count - 1; gauges = s.gauges ++ (s.count - 1) ∷ [] },
      record limit { acquired = false },
    )
    else (s, limit)

-- `__init__`
pub create : ℕ → Shared → Shared × Limit
unfolding acquire high_watermark
create max_active_handlers s =
    let limit : Limit = record { acquired = false; is_open = true } in
    if ltb max_active_handlers s.count
    then (record s { dropped = s.dropped + 1 }, limit)
    else if ltb (high_watermark max_active_handlers) s.count
    then acquire (record s { watermarks = s.watermarks + 1 }) limit
    else acquire s limit

-- All requests that have entered `request_limiter`, in order of arrival.
pub record Server : Type 0 where
  pub shared : Shared
  pub limits : List Limit

abbrev pub start : Server
start = record {
  shared = record { count = 0; gauges = []; dropped = 0; watermarks = 0 };
  limits = [];
}

-- `active_limit = ActiveHandlersLimit(...)`, at the head of `request_limiter`
pub enter : ℕ → Server → Server
unfolding create
enter max_active_handlers server =
    let (shared, limit) = create max_active_handlers server.shared in
    record { shared = shared; limits = server.limits ++ limit ∷ [] }

-- the `finally` of the request with index `i`, which runs once
close : Shared → Limit → Shared × Limit
unfolding release
close s limit =
    if limit.is_open
    then (let (s', limit') = release s limit in (s', record limit' { is_open = false }))
    else (s, limit)

close_at : Shared → List Limit → ℕ → Shared × List Limit
unfolding close
close_at s [] i = (s, [])
close_at s (limit ∷ limits) zero = let (s', limit') = close s limit in (s', limit' ∷ limits)
close_at s (limit ∷ limits) (suc i) =
    let (s', limits') = close_at s limits i in (s', limit ∷ limits')

pub leave : ℕ → Server → Server
unfolding close_at
leave i server =
    let (shared, limits) = close_at server.shared server.limits i in
    record { shared = shared; limits = limits }

-- The requests of the event loop come and go in any order.
pub data Reach (max_active_handlers : ℕ) : Server → Type 0 where
  begin : Reach max_active_handlers start
  enters :
      {server : Server}
      → Reach max_active_handlers server
      → Reach max_active_handlers (enter max_active_handlers server)
  leaves :
      {server : Server} (i : ℕ)
      → Reach max_active_handlers server
      → Reach max_active_handlers (leave i server)
