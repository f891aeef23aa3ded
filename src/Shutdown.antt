-- ===== src/Shutdown.antt =====
-- The stop of a worker: `run_server` and `_deinit_app` of frontik/server.py, with `deinit` of
-- frontik/app.py. A call that may raise, or an answer of Consul, comes as an argument; the close
-- of the HTTP client is one step, with its outcome. Times are milliseconds.
mod Rounds
mod Stops
mod Tests
use frontik.Prelude.{
  ℕ, ◌+◌, String, Bool, false, Option, none, some, List, [], ◌∷◌, ◌++◌, leb, if◌then◌else◌, ◌||◌,
}
use frontik.ServiceDiscovery.Registration.{
  RegisterOptions, Registration, Result, ends, deregister_service_and_close,
}

-- the object `service_discovery`: of a forked worker, or of an application in a single process
pub data Discovery : Type 0 where
  worker : Discovery
  master : Option Registration → Discovery

kept : Result (Option Registration) → Option Discovery
kept (ends r) = some (master r)
kept _ = none

-- `deregister_service_and_close`, which may raise
pub deregister : RegisterOptions → Bool → Discovery → Option Discovery
unfolding kept deregister_service_and_close
deregister options accepted worker = some worker
deregister options accepted (master r) = kept (deregister_service_and_close options accepted r)

-- `http_client` is the session of the client, if it was made, and whether it is open;
-- `available_integrations` are the names, each with whether its `deinitialize_app` ends;
-- `waiting` are the times at which the tasks of `_deinit_app` wake up, the last first.
pub record Server : Type 0 where
  pub running : Bool
  pub listening : Bool
  pub discovery : Discovery
  pub http_client : Option Bool
  pub available_integrations : List (String × Bool)
  pub deinitialized : List String
  pub waiting : List ℕ

-- the loop of `FrontikApplication.deinit`, up to the first integration that raises
unfoldable pub deinitialize_all : List (String × Bool) → List String
deinitialize_all [] = []
deinitialize_all ((name, passes) ∷ rest) =
    let later = deinitialize_all rest in if passes then name ∷ later else []

pub deinitialize : Server → Server
unfolding deinitialize_all
deinitialize s = record s {
  deinitialized = s.deinitialized ++ deinitialize_all s.available_integrations;
}

-- `FrontikApplication.deinit`: whether the close of the session ends within its second
unfoldable pub deinit : Bool → Server → Server
unfolding deinitialize
deinit closes s = elim s.http_client [
  | none ↦ deinitialize s
  | some is_open ↦ if closes then deinitialize (record s { http_client = some false }) else s
]

-- `ioloop_stop`
pub ioloop_stop : Server → Server
ioloop_stop s = record s { running = false }

-- the task of `_deinit_app` up to its sleep, where an exception ends the task
pub start_deinit : ℕ → Option Discovery → Server → Server
unfolding ioloop_stop
start_deinit wakes none s = ioloop_stop s
start_deinit wakes (some d) s = record s { discovery = d; waiting = wakes ∷ s.waiting }

-- a signal at a time with the answer of Consul, or a round of the loop at a time
pub data Event : Type 0 where
  sigterm : (now : ℕ) (accepted : Bool) → Event
  timer : (now : ℕ) (closes : Bool) → Event

pub due : ℕ → List ℕ → Bool
due now [] = false
due now (t ∷ ts) = leb t now || due now ts

module _ (options : RegisterOptions) (stop_timeout : ℕ) where
  pub server_stop : ℕ → Bool → Server → Server
  unfolding start_deinit deregister
  server_stop now accepted s =
      start_deinit (now + stop_timeout) (deregister options accepted s.discovery)
        (record s { listening = false })

  -- `_deinit_app` behind its sleep, and the callback of the task
  pub end_deinit : ℕ → Bool → Server → Server
  unfolding due deinit ioloop_stop
  end_deinit now closes s = if due now s.waiting then ioloop_stop (deinit closes s) else s

  -- what the loop does while it runs; behind that, a signal has no effect
  pub handle : Event → Server → Server
  unfolding server_stop end_deinit
  handle (sigterm now accepted) s = if s.running then server_stop now accepted s else s
  handle (timer now closes) s = if s.running then end_deinit now closes s else s

  unfoldable pub run : List Event → Server → Server
  unfolding handle
  run [] s = s
  run (event ∷ events) s = run events (handle event s)
