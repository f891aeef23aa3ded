-- ===== src/ServiceDiscovery/Registration.antt =====
-- frontik/service_discovery.py: the registration of the service in Consul, with its weight. Consul's
-- answers, its key-value cache and the host name are parameters.
pub mod Lifecycle
use frontik.Prelude.{
  ℕ, String, Bool, true, false, Option, none, some, List, [], ◌∷◌, ◌++◌, ◌+++◌, ◌==◌, if◌then◌else◌,
  is_empty, lower, decimal, parse_decimal, Dict, insert,
}

-- a text option that may be missing
pub record RegisterOptions : Type 0 where
  pub service_name : String
  pub node_name : Option String
  pub port : ℕ
  pub consul_self_register : Bool
  pub consul_service_address : Option String
  pub consul_check_host : Option String
  pub consul_http_check_interval_sec : ℕ
  pub consul_http_check_timeout_sec : ℕ
  pub consul_deregister_critical_timeout : String
  pub consul_tags : List String

abbrev pub default_weight : ℕ
default_weight = 100

-- `if text`, for a text that may be missing
pub given : Option String → Option String
given none = none
given (some text) = if is_empty text then none else some text

pub address_from : String → Option String → Option String
address_from resolved none = none
address_from resolved (some address) =
    if lower address == "resolve" then some resolved else some address

-- `_get_service_address`, where `resolved` is the address of the host's own name
pub get_service_address : String → RegisterOptions → Option String
unfolding given address_from
get_service_address resolved options = address_from resolved (given options.consul_service_address)

pub make_service_id : RegisterOptions → String → String
make_service_id options hostname =
    options.service_name +++ ("-" +++ (hostname +++ ("-" +++ decimal options.port)))

-- the arguments of `Check.http`
pub record HttpCheck : Type 0 where
  pub url : String
  pub interval : String
  pub deregister : String
  pub timeout : String

pub first_of : Option String → Option String → String → String
first_of (some a) b c = a
first_of none (some b) c = b
first_of none none c = c

pub create_http_check : RegisterOptions → Option String → HttpCheck
unfolding given first_of
create_http_check options address =
    let check_host = first_of (given options.consul_check_host) (given address) "127.0.0.1" in
    record {
      url = "http://" +++ (check_host +++ (":" +++ (decimal options.port +++ "/status")));
      interval = decimal options.consul_http_check_interval_sec +++ "s";
      deregister = options.consul_deregister_critical_timeout;
      timeout = decimal options.consul_http_check_timeout_sec +++ "s";
    }

-- `_get_weight_or_default`: `int` takes a text of digits here, and raises on any other
unfoldable pub get_weight_or_default : Option String → Option ℕ
get_weight_or_default none = some default_weight
get_weight_or_default (some value) = parse_decimal value

-- what `agent.service.register` is called with
pub record Service : Type 0 where
  pub name : String
  pub address : Option String
  pub port : ℕ
  pub check : HttpCheck
  pub tags : List String
  pub weight : ℕ

-- The fields that `__init__` sets for the registration, whether the cache of the weight runs, and
-- the services that Consul holds, each under its id.
pub record Registration : Type 0 where
  pub service_id : String
  pub address : Option String
  pub http_check : HttpCheck
  pub running : Bool
  pub consul : Dict Service

-- The calls end, or raise: for a field that is not set, a weight that is no number, a name of the
-- node that is missing, or the refusal of Consul.
pub data Result (A : Type 0) : Type 0 where
  ends : A → Result A
  attribute_error value_error runtime_error refused : Result A

register_as : RegisterOptions → String → Dict Service → String → Registration
unfolding make_service_id get_service_address create_http_check
register_as options resolved consul hostname = record {
  service_id = make_service_id options hostname;
  address = get_service_address resolved options;
  http_check = create_http_check options (get_service_address resolved options);
  running = false;
  consul = consul;
}

-- `_get_hostname_or_raise`, and the fields that depend on it
pub with_hostname :
    RegisterOptions → String → Dict Service → Option String → Result (Option Registration)
unfolding register_as
with_hostname options resolved consul none = runtime_error
with_hostname options resolved consul (some hostname) =
    ends (some (register_as options resolved consul hostname))

-- the part of `__init__` for the registration
unfoldable pub init_registration :
    RegisterOptions → String → Dict Service → Result (Option Registration)
unfolding with_hostname given
init_registration options resolved consul =
    if options.consul_self_register
    then with_hostname options resolved consul (given options.node_name)
    else ends none

unfoldable pub remove : String → Dict Service → Dict Service
remove key [] = []
remove key ((k, v) ∷ d) = let rest = remove key d in if k == key then rest else (k, v) ∷ rest

module _ (options : RegisterOptions) where
  -- `_sync_register`, with the answer of Consul
  unfoldable pub sync_register : ℕ → Bool → Registration → Result Registration
  sync_register weight false r = refused
  sync_register weight true r = ends (record r {
    consul =
        insert r.service_id
          (record {
            name = options.service_name;
            address = r.address;
            port = options.port;
            check = r.http_check;
            tags = options.consul_tags;
            weight = weight;
          })
          r.consul;
  })

  pub register_weight : Option ℕ → Bool → Registration → Result Registration
  unfolding sync_register
  register_weight none accepted r = value_error
  register_weight (some weight) accepted r = sync_register weight accepted r

  -- `_update_register`, which the cache calls with a new value while it runs
  unfoldable pub update_register : Option String → Bool → Registration → Result Registration
  unfolding register_weight get_weight_or_default
  update_register new_value accepted r =
      register_weight (get_weight_or_default new_value) accepted r

  start_cache : Result Registration → Result (Option Registration)
  start_cache (ends r) = ends (some (record r { running = true }))
  start_cache attribute_error = attribute_error
  start_cache value_error = value_error
  start_cache runtime_error = runtime_error
  start_cache refused = refused

  -- `register_service`, with the value that the cache has
  unfoldable pub register_service :
      Option String → Bool → Option Registration → Result (Option Registration)
  unfolding register_weight start_cache get_weight_or_default
  register_service value accepted none = attribute_error
  register_service value accepted (some r) =
      start_cache (register_weight (get_weight_or_default value) accepted r)

  -- `deregister_service_and_close`
  unfoldable pub deregister_service_and_close :
      Bool → Option Registration → Result (Option Registration)
  unfolding remove
  deregister_service_and_close accepted none = attribute_error
  deregister_service_and_close true (some r) =
      ends (some (record r { running = false; consul = remove r.service_id r.consul }))
  deregister_service_and_close false (some r) = ends (some (record r { running = false }))

  -- The changes of the weight in Consul, each with the answer to the call that it causes. Where the
  -- listener raises, nothing is changed.
  pub change : Option String → Bool → Registration → Registration
  unfolding update_register
  change value accepted r =
      if r.running then elim (update_register value accepted r) [ ends r' ↦ r' | _ ↦ r ] else r

  unfoldable pub changes : List (Option String × Bool) → Registration → Registration
  unfolding change
  changes [] r = r
  changes ((value, accepted) ∷ rest) r = changes rest (change value accepted r)
