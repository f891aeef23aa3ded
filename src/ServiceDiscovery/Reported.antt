-- ===== src/ServiceDiscovery/Reported.antt =====
-- What Consul has reported last, and what the master of frontik/service_discovery.py keeps of it.
use mathlib.Core.Path.{subst}
use frontik.Prelude.{
  String, Bool, true, false, ◌&&◌, Option, none, some, List, [], ◌∷◌, ◌++◌, ◌≡◌, ◌↔◌, refl, sym, ap,
  ◌∙◌, ◌==◌, if◌then◌else◌, lookup, insert, lookup-insert, Bool-cases, inl, inr, eq_iff, eq_refl,
  if_true, if_false, elem, has_char,
}
use frontik.ServiceDiscovery.{
  UpstreamApi, Options, MasterServiceDiscovery, Event, service, configs, service_key, or_else,
  combine_from, combine_servers, update_upstreams, update_upstreams_service, update_config,
  update_upstreams_config, handle, handle_all, fresh_master,
}
use frontik.ServiceDiscovery.Views.{Has, UpstreamLaws}
use frontik.ServiceDiscovery.Keys.{keys_differ, datacenters_differ}
use frontik.ServiceDiscovery.Master.{
  NoDash, datacenters_of, update_upstreams-keeps, handle_all-Reports,
}

-- the later of two, if it is there
abbrev pub later : {A : Type 0} → Option A → Option A → Option A
later none b = b
later (some a) b = some a

-- the servers of a service in a datacenter, as they were reported last
abbrev pub last_servers :
    {Server Config : Type 0} → (key dc : String) → List (Event Server Config) → Option (List Server)
last_servers key dc [] = none
last_servers key dc (configs values ∷ events) = last_servers key dc events
last_servers key dc (service k d servers ∷ events) =
    later (last_servers key dc events) (if k == key && d == dc then some servers else none)

-- the last config of an upstream among the values of one report
abbrev pub config_of : {Config : Type 0} → String → List (String × Option Config) → Option Config
config_of key [] = none
config_of key ((k, none) ∷ values) = config_of key values
config_of key ((k, some config) ∷ values) =
    later (config_of key values) (if k == key then some config else none)

-- the config of an upstream, as it was reported last
abbrev pub last_config :
    {Server Config : Type 0} → String → List (Event Server Config) → Option Config
last_config key [] = none
last_config key (configs values ∷ events) = later (last_config key events) (config_of key values)
last_config key (service k d servers ∷ events) = last_config key events

-- the servers that were reported last in each of the datacenters
abbrev pub all_servers :
    {Server Config : Type 0} → String → List String → List (Event Server Config) → List Server
all_servers key [] events = []
all_servers key (dc ∷ dcs) events =
    or_else [] (last_servers key dc events) ++ all_servers key dcs events

-- a config counts for the upstreams of the options only
abbrev pub if_known : {A : Type 0} → Bool → Option A → Option A
if_known true o = o
if_known false o = none

later_assoc : {A : Type 0} (a b c : Option A) → later a (later b c) ≡ later (later a b) c
later_assoc none b c = refl
later_assoc (some a) b c = refl

later_if :
    {A : Type 0} (a : A) (b : Bool) (o : Option A)
    → (if b then some a else o) ≡ later (if b then some a else none) o
later_if a true o = refl
later_if a false o = refl

if_known-later :
    {A : Type 0} (known : Bool) (a b c : Option A)
    → later (if_known known a) (later (if_known known b) c) ≡ later (if_known known (later a b)) c
if_known-later true a b c = later_assoc a b c
if_known-later false a b c = refl

if_known-none : {A : Type 0} (known : Bool) (c : Option A) → c ≡ later (if_known known none) c
if_known-none true c = refl
if_known-none false c = refl

later-none : {A : Type 0} (a : Option A) → a ≡ later a none
later-none none = refl
later-none (some a) = refl

-- a config that is stored if its own key is known, as seen under another key
stored_config :
    {A : Type 0} (a : A) (stores known same : Bool) (o : Option A)
    → (same ≡ true → stores ≡ known)
    → (if stores then if same then some a else o else o)
      ≡ later (if_known known (if same then some a else none)) o
stored_config a true true true o h = refl
stored_config a true true false o h = refl
stored_config a true false true o h = cc (h refl)
stored_config a true false false o h = refl
stored_config a false true true o h = cc (h refl)
stored_config a false true false o h = refl
stored_config a false false true o h = refl
stored_config a false false false o h = refl

config_of-cons :
    {Config : Type 0} (key k : String) (value : Option Config)
    (values : List (String × Option Config))
    → config_of key ((k, value) ∷ values)
      ≡ later (config_of key values) (config_of key ((k, value) ∷ []))
config_of-cons key k none values = later-none (config_of key values)
config_of-cons key k (some config) values = refl

same_keys :
    (k key d dc : String)
    → has_char b'-' d ≡ false
    → has_char b'-' dc ≡ false
    → (service_key k d == service_key key dc) ≡ (k == key && d == dc)
same_keys k key d dc plain plain' = elim (Bool-cases (k == key)) [
  | inr other ↦ keys_differ k key d dc other plain plain' ∙ sym (ap (λ b. b && d == dc) other)
  | inl same ↦ elim (Bool-cases (d == dc)) [
    | inl here ↦
        ap (λ x. service_key x d == service_key key dc) ((eq_iff k key).0 same)
        ∙ (ap (λ x. service_key key x == service_key key dc) ((eq_iff d dc).0 here)
            ∙ (eq_refl (service_key key dc) ∙ sym (ap (λ b. b && d == dc) same ∙ here)))
    | inr other ↦
        ap (λ x. service_key x d == service_key key dc) ((eq_iff k key).0 same)
        ∙ (datacenters_differ key d dc other ∙ sym (ap (λ b. b && d == dc) same ∙ other))
  ]
]

module _ {Server Config Upstream : Type 0} (api : UpstreamApi Server Config Upstream)
    (laws : UpstreamLaws api) (options : Options) where
  update_config-servers :
      (k : String) (value : Option Config) (s : MasterServiceDiscovery Server Config Upstream)
      → (update_config api options k value s).upstreams_servers ≡ s.upstreams_servers
  unfolding update_config
  update_config-servers k none s = refl
  update_config-servers k (some config) s = elim (Bool-cases (elem k options.upstreams)) [
    | inl h ↦
        ap (λ (t : MasterServiceDiscovery Server Config Upstream). t.upstreams_servers)
          (if_true _ _ _ h)
        ∙ (update_upstreams-keeps api laws options k _).2
    | inr h ↦
        ap (λ (t : MasterServiceDiscovery Server Config Upstream). t.upstreams_servers)
          (if_false _ _ _ h)
  ]

  configs-servers :
      (values : List (String × Option Config)) (s : MasterServiceDiscovery Server Config Upstream)
      → (update_upstreams_config api options values s).upstreams_servers ≡ s.upstreams_servers
  unfolding update_upstreams_config
  configs-servers [] s = refl
  configs-servers ((k, value) ∷ rest) s =
      configs-servers rest (update_config api options k value s) ∙ update_config-servers k value s

  service-lookup :
      (k d key dc : String) (servers : List Server)
      (s : MasterServiceDiscovery Server Config Upstream)
      → has_char b'-' d ≡ false
      → has_char b'-' dc ≡ false
      → lookup
          (service_key key dc)
          (update_upstreams_service api options k d servers s).upstreams_servers
        ≡ later
            (if k == key && d == dc then some servers else none)
            (lookup (service_key key dc) s.upstreams_servers)
  unfolding update_upstreams_service
  service-lookup k d key dc servers s plain plain' =
      ap (lookup (service_key key dc)) (update_upstreams-keeps api laws options k _).2
      ∙ (lookup-insert (service_key k d) (service_key key dc) servers s.upstreams_servers
          ∙ (ap (λ b. if b then some servers else lookup (service_key key dc) s.upstreams_servers)
                (same_keys k key d dc plain plain')
              ∙ later_if servers (k == key && d == dc) _))

  all-servers :
      (key dc : String) (events : List (Event Server Config))
      (s : MasterServiceDiscovery Server Config Upstream)
      → has_char b'-' dc ≡ false
      → NoDash (datacenters_of events)
      → lookup (service_key key dc) (handle_all api options events s).upstreams_servers
        ≡ later (last_servers key dc events) (lookup (service_key key dc) s.upstreams_servers)
  unfolding handle_all handle
  all-servers key dc [] s plain dashes = refl
  all-servers key dc (configs values ∷ events) s plain dashes =
      all-servers key dc events _ plain dashes
      ∙ ap (λ d. later (last_servers key dc events) (lookup (service_key key dc) d))
          (configs-servers values s)
  all-servers key dc (service k d servers ∷ events) s plain (dash, dashes) =
      all-servers key dc events _ plain dashes
      ∙ (ap (later (last_servers key dc events)) (service-lookup k d key dc servers s dash plain)
          ∙ later_assoc (last_servers key dc events) _ _)

  service-config :
      (k d : String) (servers : List Server) (s : MasterServiceDiscovery Server Config Upstream)
      → (update_upstreams_service api options k d servers s).upstreams_config ≡ s.upstreams_config
  unfolding update_upstreams_service
  service-config k d servers s = (update_upstreams-keeps api laws options k _).1

  stored :
      (key k : String) (config : Config) (s : MasterServiceDiscovery Server Config Upstream)
      (b : Bool)
      → lookup key
          (if b
            then update_upstreams api options k
                (record s { upstreams_config = insert k config s.upstreams_config })
            else s).upstreams_config
        ≡ (if b
            then if k == key then some config else lookup key s.upstreams_config
            else lookup key s.upstreams_config)
  stored key k config s false = refl
  stored key k config s true =
      ap (lookup key) (update_upstreams-keeps api laws options k _).1
      ∙ lookup-insert k key config s.upstreams_config

  value-config :
      (key k : String) (value : Option Config) (s : MasterServiceDiscovery Server Config Upstream)
      → lookup key (update_config api options k value s).upstreams_config
        ≡ later
            (if_known (elem key options.upstreams) (config_of key ((k, value) ∷ [])))
            (lookup key s.upstreams_config)
  unfolding update_config
  value-config key k none s = if_known-none (elem key options.upstreams) _
  value-config key k (some config) s =
      stored key k config s (elem k options.upstreams)
      ∙ stored_config config (elem k options.upstreams) (elem key options.upstreams) (k == key) _
          (λ same. ap (λ n. elem n options.upstreams) ((eq_iff k key).0 same))

  values-config :
      (key : String) (values : List (String × Option Config))
      (s : MasterServiceDiscovery Server Config Upstream)
      → lookup key (update_upstreams_config api options values s).upstreams_config
        ≡ later
            (if_known (elem key options.upstreams) (config_of key values))
            (lookup key s.upstreams_config)
  unfolding update_upstreams_config
  values-config key [] s = if_known-none (elem key options.upstreams) _
  values-config key ((k, value) ∷ rest) s =
      values-config key rest (update_config api options k value s)
      ∙ (ap (later (if_known (elem key options.upstreams) (config_of key rest)))
            (value-config key k value s)
          ∙ (if_known-later (elem key options.upstreams) (config_of key rest) _ _
              ∙ ap
                  (λ o.
                    later (if_known (elem key options.upstreams) o) (lookup key s.upstreams_config))
                  (sym (config_of-cons key k value rest))))

  all-config :
      (key : String) (events : List (Event Server Config))
      (s : MasterServiceDiscovery Server Config Upstream)
      → lookup key (handle_all api options events s).upstreams_config
        ≡ later
            (if_known (elem key options.upstreams) (last_config key events))
            (lookup key s.upstreams_config)
  unfolding handle_all handle
  all-config key [] s = if_known-none (elem key options.upstreams) _
  all-config key (service k d servers ∷ events) s =
      all-config key events _
      ∙ ap
          (λ d.
            later (if_known (elem key options.upstreams) (last_config key events)) (lookup key d))
          (service-config k d servers s)
  all-config key (configs values ∷ events) s =
      all-config key events _
      ∙ (ap (later (if_known (elem key options.upstreams) (last_config key events)))
            (values-config key values s)
          ∙ if_known-later (elem key options.upstreams) (last_config key events) _ _)

  combined :
      (key : String) (dcs : List String) (events : List (Event Server Config)) (hook : Bool)
      → NoDash dcs
      → NoDash (datacenters_of events)
      → combine_from api key dcs
          (handle_all api options events (fresh_master hook)).upstreams_servers
        ≡ all_servers key dcs events
  unfolding combine_from lookup
  combined key [] events hook plain dashes = refl
  combined key (dc ∷ dcs) events hook (here, plain) dashes =
      rw
        (
          all-servers key dc events (fresh_master hook) here dashes
              ∙ sym (later-none (last_servers key dc events)),
          combined key dcs events hook plain dashes,
        )
        refl

  -- When no datacenter has a dash in its name, and each report of Consul is stored and sent before
  -- the next one is stored: every upstream of the master has its own name; the config that was
  -- reported last for it, if it is one of the upstreams of the options and was given a config, and
  -- else the default; and exactly the servers that were reported last for it in each of the
  -- datacenters of the options.
  pub handle_all-last_servers :
      (events : List (Event Server Config)) (hook : Bool) (key : String) (u : Upstream)
      → NoDash options.datacenters
      → NoDash (datacenters_of events)
      → lookup key (handle_all api options events (fresh_master hook)).upstreams ≡ some u
      → (api.name u ≡ key)
        × (api.config u
            ≡ or_else api.default_config
                (if_known (elem key options.upstreams) (last_config key events)))
        × ((x : Server)
            → Has x (api.servers u) ↔ Has x (all_servers key options.datacenters events))
  unfolding lookup combine_servers
  handle_all-last_servers events hook key u dashes plain e =
      let (name, reports) = handle_all-Reports api laws options events hook key u dashes plain e in
      (
        name,
        reports.config
            ∙ ap (or_else api.default_config)
                (all-config key events (fresh_master hook) ∙ sym (later-none _)),
        λ x.
            subst (λ xs. Has x (api.servers u) ↔ Has x xs)
              (combined key options.datacenters events hook dashes plain) (reports.servers x),
      )
