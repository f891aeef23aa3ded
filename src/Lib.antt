-- ===== src/Lib.antt =====
-- Frontik: an application server that runs ASGI pages behind Tornado, in a master process with
-- worker processes.
--
-- A request comes in at frontik/tornado_connection_handler.py, which starts a task of
-- frontik/handler_asgi.py and queues the chunks of the body. The task takes a place of the
-- request limiter (frontik/request_integrations/request_limiter.py), checks who may debug
-- (frontik/debug.py, frontik/auth.py), finds the page's route (frontik/routing.py) and runs the
-- page, which takes the chunks and sends the response. The page's own requests go through
-- frontik/balancing_client.py, which hands the deadline of the page on and records requests that
-- are given too much time (frontik/timeout_tracking.py). The master (frontik/process.py) starts
-- the workers, restarts those that die, and sends them the shared data over pipes.
--
-- - Prelude: the names that all modules share, lists, texts, dictionaries and decimal numbers.
-- - Routing (frontik/routing.py): route tables with the method set of each route object, the sort
--   key and the stable sort, `_find_fastapi_route_exact` and `_find_fastapi_route_partial`;
--   Dispatch holds `find_route`. The other child modules hold the theorems on the order (Order), the
--   searches (Search), paths (Paths), answers (Answers), HEAD requests (Head), method sets (Find)
--   and the tables of callers (Own).
-- - RequestLimiter (frontik/request_integrations/request_limiter.py): `ActiveHandlersLimit` and
--   `request_limiter`, with requests that come and go in any order (Bounds).
-- - TimeoutTracking (frontik/timeout_tracking.py): `TimeoutCounter` and its summary (Counts),
--   `Sender` and its callback (Sending), `TimeoutChecker`.
-- - Process (frontik/process.py): Frames holds the bytes of a message and `_worker_listener`,
--   with whole messages (Roundtrip) and broken ones (Resync); Workers holds `WorkerState`, the
--   loop of `_supervise_workers` (Supervise, Exits) and the updates with `__resend` (Resend).
-- - BalancingClient (frontik/balancing_client.py): `modify_http_client_request` (Deadline) and
--   the error handlers (Status).
-- - Auth (frontik/auth.py): `check_debug_auth` with both schemes (Basic).
-- - DebugMode (frontik/debug.py): the state `DebugMode`, and `make_debug_mode` of
--   frontik/handler_asgi.py (Access).
-- - Handler: Body holds `TornadoConnectionHandler` (frontik/tornado_connection_handler.py) and
--   `receive` of frontik/handler_asgi.py over the queue, with the log of what has arrived and
--   what was given (Queue, Delivery). Exchange holds `send`, the calls on the connection and the close
--   by the client (Calls, Payload); Serve holds `process_request` and `serve_tornado_request`
--   over `find_route` and `DebugMode`, with theorems on the start line (StartLine), the bytes
--   (Payload) and requests that come to no page (Refusal).
-- - ServiceDiscovery (frontik/service_discovery.py): `MasterServiceDiscovery` with its listeners,
--   and `WorkerServiceDiscovery`, over an interface of `Upstream`. Views holds the laws of that
--   interface and the equality of upstreams without the order of servers, Keys the keys of
--   a service in a datacenter; Master and Worker hold what each of them knows.
--   Reported holds what the master makes of the last reports.
--   Subscriptions holds the services that the master watches, Registration the service's own entry in
--   Consul (Lifecycle), and Fork the action of frontik/server.py behind the fork of the workers,
--   with what a worker knows that was forked before it (Quiet, Copy, Follow).
-- - ConsulClient (frontik/consul_client.py): the requests of both clients with their callbacks
--   (Events), and `ConsulMetricsTracker` of frontik/service_discovery.py.
-- - Startup: the wait of `fork_workers` (frontik/process.py), the counter of `_init_app`
--   (frontik/server.py) and the status of frontik/app.py, with workers that come up and end in any
--   order (Told, Reached).
-- - Shutdown: the signals of a worker, `server_stop` and `_deinit_app` (frontik/server.py) and
--   `deinit` (frontik/app.py), with any signals and rounds of the loop (Rounds, Stops).
-- - Config (frontik/config_parser.py): `parse_command_line` and `parse_configs` (CommandLine), and
--   the types of the values (Types).
-- - CacheDiff (frontik/dev_route_manager.py): the cache of routes on disk and its comparison with the
--   files (Difference, Pages); DevRouteManager (the same file): the entries that are made of the
--   routes (Entries), a second start (Steady), and `import_route` over `find_route`
--   (ImportRoute, Wanted).
-- - Loggers (frontik/loggers/__init__.py): the set-up of loggers and handlers (Targets, Handlers),
--   and the fields of a JSON log line (Json).
-- - LogLevels (frontik/loggers/logleveloverride): the levels that are set from outside (Applied).
-- - JsonEncoding (frontik/util/json.py): `_deep_encode_value` and `_encode_value` (Plain).
-- - GcTracking (frontik/app_integrations): the time of callbacks without that of the collector
--   (Callbacks), and the metrics of the collector (Metrics).
--
-- What is taken as given: Base64, the names that Tornado gives to headers, which calls on a
-- connection fail for a closed connection or for another reason, and the text of the debug log are
-- parameters of Auth and Handler; `route.matches` of Starlette, and the statuses of the HTTP client library, are parameters, too;
-- `Upstream` of that library is an interface with laws, of which the order of servers is no part;
-- what the operating system does (process ids, exits, what a pipe takes) comes as arguments. What
-- importing a module does to the lists of routes is any function, and so are the answers of Consul
-- and the ends of its requests. A report of Consul is stored and sent before the next one is stored,
-- which frontik/service_discovery.py does not see to between its two locks; the steps are separate
-- definitions, and a test shows what happens otherwise.
-- Times are whole milliseconds or microseconds, where Python has floats. Bytes and code points
-- are numbers. `upper` is that of ASCII. Timeout headers are decimal numbers without a sign. The
-- keys that a route's match adds to the scope are held together as one value.
--
-- Fuel: `listen` counts the rounds of the listener; one more than there are messages is enough.
-- `decimal` counts digits; a number has fewer digits than its value plus one.
--
-- Not modelled: the text of the debug log, the reason phrases, and the adapters of other services
-- (telemetry, Sentry, Kafka, ScyllaDB, statsd), which are calls of their libraries; `main` and
-- `run_server`, which are calls of importlib, asyncio and Tornado; the text formatters of the
-- loggers; orjson.
pub mod Prelude
pub mod Routing
pub mod RequestLimiter
pub mod TimeoutTracking
pub mod Process
pub mod BalancingClient
pub mod Auth
pub mod DebugMode
pub mod Handler
pub mod ServiceDiscovery
pub mod Config
pub mod CacheDiff
pub mod DevRouteManager
pub mod ConsulClient
pub mod Startup
pub mod Shutdown
pub mod Loggers
pub mod LogLevels
pub mod JsonEncoding
pub mod GcTracking
