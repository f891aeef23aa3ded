-- ===== src/Shutdown/Tests.antt =====
-- An application in a single process that is told to stop twice.
use frontik.Prelude.{true, false, none, some, List, [], ◌∷◌, ◌≡◌, refl, ◌↔◌}
use frontik.ServiceDiscovery.Registration.{
  RegisterOptions, HttpCheck, deregister_service_and_close, remove,
}
use frontik.Shutdown.{master, Server, Event, sigterm, timer, run, deinit, deinitialize_all}
use frontik.Shutdown.Rounds.{Stops, IsTold}
use frontik.Shutdown.Stops.{run-Stops}

abbrev options : RegisterOptions
options = record {
  service_name = "app";
  node_name = some "host";
  port = 8080;
  consul_self_register = true;
  consul_service_address = none;
  consul_check_host = none;
  consul_http_check_interval_sec = 10;
  consul_http_check_timeout_sec = 1;
  consul_deregister_critical_timeout = "1h";
  consul_tags = [];
}

abbrev check : HttpCheck
check = record { url = "http://host/status"; interval = "10s"; deregister = "1h"; timeout = "1s" }

abbrev started : Server
started = record {
  running = true;
  listening = true;
  discovery = master (
      some (record {
        service_id = "app-host-8080";
        address = none;
        http_check = check;
        running = true;
        consul = [];
      }));
  http_client = some true;
  available_integrations = ("kafka", true) ∷ ("sentry", false) ∷ ("telemetry", true) ∷ [];
  deinitialized = [];
  waiting = [];
}

abbrev events : List Event
events =
    sigterm 100 true ∷ timer 500 true ∷ sigterm 600 false ∷ timer 1100 true ∷ timer 1700 true ∷ []

run-Stops_example :
    (((run options 1000 events started).running ≡ false) ↔ Stops 1000 events)
    × (IsTold events → (run options 1000 events started).listening ≡ false)
run-Stops_example = run-Stops options 1000 events started refl tt refl

-- The first integration that raises keeps the ones behind it from being told.
deinitialized_names : (run options 1000 events started).deinitialized ≡ "kafka" ∷ []
unfolding run deinit deregister_service_and_close remove deinitialize_all
deinitialized_names = refl
