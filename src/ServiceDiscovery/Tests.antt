-- ===== src/ServiceDiscovery/Tests.antt =====
-- Reports of Consul on concrete services, with servers and configs as numbers.
use frontik.Prelude.{
  map, values, ℕ, String, Bool, true, false, Option, ◌==◌, decimal, parse_decimal, none, some, List,
  [], ◌∷◌, ◌≡◌, ◌↔◌, refl, inl, inr, lookup, insert, elem,
}
use frontik.ServiceDiscovery.{
  UpstreamApi, Options, WorkerServiceDiscovery, Event, service, configs, handle_all, apply_all,
  combine_servers, fresh_master, MasterServiceDiscovery, service_key, store_upstream, send_updates,
  or_else,
}
use frontik.ServiceDiscovery.Views.{Has, UpstreamLaws}
use frontik.ServiceDiscovery.Reported.{last_config, all_servers, if_known, handle_all-last_servers}
use frontik.ServiceDiscovery.Worker.{Agrees, handle_all-Agrees}
use frontik.ServiceDiscovery.Fork.{send_first}
use frontik.ServiceDiscovery.Fork.Follow.{send_first-Agrees}
use frontik.ServiceDiscovery.Subscriptions.{SubscriptionOptions, subscriptions}
use frontik.ServiceDiscovery.Registration.{
  RegisterOptions, Registration, ends, init_registration, register_service,
  deregister_service_and_close, changes, get_weight_or_default,
}
use frontik.ServiceDiscovery.Registration.Lifecycle.{
  service_with, last_weight, register_service-changes, deregister_service_and_close-changes,
}

record TestUpstream : Type 0 where
  name : String
  config : ℕ
  servers : List ℕ

-- the first two servers change places
abbrev swap : List ℕ → List ℕ
swap [] = []
swap (x ∷ []) = x ∷ []
swap (x ∷ y ∷ zs) = y ∷ x ∷ zs

Has-swap : (xs : List ℕ) (s : ℕ) → Has s (swap xs) ↔ Has s xs
Has-swap [] s = (λ h. h, λ h. h)
Has-swap (x ∷ []) s = (λ h. h, λ h. h)
Has-swap (x ∷ y ∷ zs) s = (
  (λ h. elim h [ inl a ↦ inr (inl a) | inr (inl b) ↦ inl b | inr (inr c) ↦ inr (inr c) ]),
  (λ h. elim h [ inl a ↦ inr (inl a) | inr (inl b) ↦ inl b | inr (inr c) ↦ inr (inr c) ]),
)

abbrev api : UpstreamApi ℕ ℕ TestUpstream
api = record {
  make = λ name config servers. record { name = name; config = config; servers = servers };
  name = λ u. u.name;
  config = λ u. u.config;
  servers = λ u. u.servers;
  update = λ old new. record { name = old.name; config = new.config; servers = new.servers };
  set_servers = λ xs u. record u { servers = xs };
  default_config = 7;
  shuffle = λ n xs. swap xs;
}

laws : UpstreamLaws api
laws = record {
  name-make = λ n c xs. refl;
  config-make = λ n c xs. refl;
  servers-make = λ n c xs. refl;
  name-update = λ old new. refl;
  config-update = λ old new. refl;
  servers-update = λ old new s. (λ h. h, λ h. h);
  name-set_servers = λ xs u. refl;
  config-set_servers = λ xs u. refl;
  servers-set_servers = λ xs u. refl;
  has-shuffle = λ n xs s. Has-swap xs s;
}

abbrev options : Options
options = record {
  upstreams = "app" ∷ "db" ∷ [];
  datacenters = "one" ∷ "two" ∷ [];
  skip_empty_upstream_check_for_upstreams = [];
}

abbrev events : List (Event ℕ ℕ)
events =
    service "app" "one" (1 ∷ 2 ∷ [])
    ∷ configs (("app", some 5) ∷ ("db", none) ∷ ("other", some 6) ∷ [])
    ∷ service "app" "two" (3 ∷ [])
    ∷ service "app" "one" (4 ∷ [])
    ∷ []

abbrev app : TestUpstream
app = record { name = "app"; config = 5; servers = 3 ∷ 4 ∷ [] }

found : lookup "app" (handle_all api options events (fresh_master true)).upstreams ≡ some app
unfolding lookup handle_all insert elem
found = refl

handle_all-last_servers_example :
    (app.name ≡ "app")
    × (app.config ≡ or_else 7 (if_known true (last_config "app" events)))
    × ((x : ℕ) → Has x app.servers ↔ Has x (all_servers "app" options.datacenters events))
unfolding elem
handle_all-last_servers_example =
    handle_all-last_servers api laws options events true "app" app (refl, (refl, tt))
      (refl, (refl, (refl, tt))) found

abbrev worker : WorkerServiceDiscovery TestUpstream
worker = record { upstreams = []; shuffles = 0 }

handle_all-Agrees_example :
    Agrees api laws
      (apply_all api (handle_all api options events (fresh_master true)).sent worker)
      (handle_all api options events (fresh_master true)).upstreams
unfolding Agrees lookup
handle_all-Agrees_example =
    handle_all-Agrees api laws options events (fresh_master true) worker refl refl (λ key. tt)

-- Two reports that are stored in one order and sent in the other leave the worker with the older.
abbrev reported :
    ℕ → MasterServiceDiscovery ℕ ℕ TestUpstream → MasterServiceDiscovery ℕ ℕ TestUpstream
reported server s = record s {
  upstreams_servers = insert (service_key "app" "one") (server ∷ []) s.upstreams_servers;
}

abbrev first_stored : TestUpstream × MasterServiceDiscovery ℕ ℕ TestUpstream
first_stored = store_upstream api options "app" (reported 1 (fresh_master true))

abbrev second_stored : TestUpstream × MasterServiceDiscovery ℕ ℕ TestUpstream
second_stored = store_upstream api options "app" (reported 2 first_stored.1)

abbrev sent_late : MasterServiceDiscovery ℕ ℕ TestUpstream
sent_late =
    send_updates api options (some first_stored.0)
      (send_updates api options (some second_stored.0) second_stored.1)

stale :
    (map (λ u. u.servers) (values sent_late.upstreams) ≡ (2 ∷ []) ∷ [])
    × (map (λ u. u.servers) (values (apply_all api sent_late.sent worker).upstreams)
        ≡ (1 ∷ []) ∷ [])
unfolding lookup insert elem store_upstream send_updates apply_all service_key
stale = (refl, refl)

-- Two services share a key when a datacenter has a dash.
abbrev dashed_options : Options
dashed_options = record options { datacenters = "b-c" ∷ "c" ∷ [] }

collision :
    combine_servers api dashed_options "a"
      (handle_all api dashed_options
        (service "a-b" "c" (1 ∷ []) ∷ [])
        (fresh_master true)).upstreams_servers
    ≡ 1 ∷ []
unfolding combine_servers handle_all lookup insert
collision = refl

send_first-Agrees_example :
    Agrees api laws
      (apply_all api
        (handle_all api options events (
          send_first api options (
            handle_all api options
              (service "db" "one" (8 ∷ []) ∷ [])
              (handle_all api options events (fresh_master false))))).sent
        (record {
          upstreams = (handle_all api options events (fresh_master false)).upstreams;
          shuffles = 1;
        }))
      (handle_all api options events (
        send_first api options (
          handle_all api options
            (service "db" "one" (8 ∷ []) ∷ [])
            (handle_all api options events (fresh_master false))))).upstreams
send_first-Agrees_example =
    send_first-Agrees api options laws events (service "db" "one" (8 ∷ []) ∷ []) events 1

abbrev subscription_options : SubscriptionOptions
subscription_options = record {
  upstreams = "app" ∷ "db" ∷ [];
  datacenters = "one" ∷ "two" ∷ [];
  datacenter = "one";
  cross_datacenter_upstreams = "db,x";
  kafka_clusters = "log" ∷ [];
  scylla_clusters = [];
}

subscribed :
    subscriptions subscription_options
    ≡ ("app", "one")
      ∷ ("db", "one")
      ∷ ("db", "two")
      ∷ ("kafka-log", "one")
      ∷ ("kafka-log", "two")
      ∷ []
unfolding subscriptions elem
subscribed = refl

abbrev register_options : RegisterOptions
register_options = record {
  service_name = "app";
  node_name = some "node";
  port = 8080;
  consul_self_register = true;
  consul_service_address = none;
  consul_check_host = none;
  consul_http_check_interval_sec = 10;
  consul_http_check_timeout_sec = 1;
  consul_deregister_critical_timeout = "2m";
  consul_tags = [];
}

abbrev registration : Registration
registration = record {
  service_id = "app-node-8080";
  address = none;
  http_check = record {
    url = "http://127.0.0.1:8080/status";
    interval = "10s";
    deregister = "2m";
    timeout = "1s";
  };
  running = false;
  consul = [];
}

initial : init_registration register_options "10.0.0.1" [] ≡ ends (some registration)
unfolding init_registration decimal
initial = refl

-- a new weight, one that Consul refuses, and one that is no number
abbrev weights : List (Option String × Bool)
weights = (some "50", true) ∷ (some "70", false) ∷ (some "x", true) ∷ []

last : last_weight 100 weights ≡ 50
unfolding get_weight_or_default parse_decimal
last = refl

default : get_weight_or_default none ≡ some 100
unfolding get_weight_or_default
default = refl

register_service-changes_example :
    (r' : Registration) × (register_service register_options none true (some registration)
      ≡ ends (some r'))
    × (lookup "app-node-8080" (changes register_options weights r').consul
        ≡ some (service_with register_options registration (last_weight 100 weights)))
    × ((k : String)
        → ("app-node-8080" == k) ≡ false
        → lookup k (changes register_options weights r').consul ≡ lookup k registration.consul)
register_service-changes_example =
    register_service-changes register_options none 100 registration weights default

deregister_service_and_close-changes_example :
    (r' : Registration) × (deregister_service_and_close register_options true (some registration)
      ≡ ends (some r'))
    × (lookup "app-node-8080" (changes register_options weights r').consul ≡ none)
    × ((k : String)
        → ("app-node-8080" == k) ≡ false
        → lookup k (changes register_options weights r').consul ≡ lookup k registration.consul)
deregister_service_and_close-changes_example =
    deregister_service_and_close-changes register_options registration weights
