-- ===== src/ServiceDiscovery.antt =====
-- frontik/service_discovery.py: the upstreams that the master learns from Consul and that the workers
-- learn from the master. `Upstream` is the HTTP client library's, and is the interface
-- `UpstreamApi`; the parsed values of Consul and the order of each shuffle are arguments.
pub mod Views
mod Keys
pub mod Master
pub mod Worker
mod Reported
pub mod Subscriptions
pub mod Registration
pub mod Fork
mod Tests
use frontik.Prelude.{
  ℕ, suc, String, Bool, Option, none, some, List, [], ◌∷◌, ◌++◌, ◌+++◌, if◌then◌else◌, elem, Dict,
  lookup, insert, values,
}

-- `Upstream(name, config, servers)`, its fields, `update` and a shuffle of its servers in place
pub record UpstreamApi (Server Config Upstream : Type 0) : Type 0 where
  pub make : String → Config → List Server → Upstream
  pub name : Upstream → String
  pub config : Upstream → Config
  pub servers : Upstream → List Server
  pub update : Upstream → Upstream → Upstream
  pub set_servers : List Server → Upstream → Upstream
  pub default_config : Config
  -- the order that the shuffle with this number gives to a list
  pub shuffle : ℕ → List Server → List Server

pub record Options : Type 0 where
  pub upstreams : List String
  pub datacenters : List String
  pub skip_empty_upstream_check_for_upstreams : List String

-- the key of `_upstreams_servers`
pub service_key : String → String → String
service_key key dc = key +++ ("-" +++ dc)

-- `MasterServiceDiscovery`; `sent` holds what it has sent to the workers, oldest first, since the
-- hook was set.
pub record MasterServiceDiscovery (Server Config Upstream : Type 0) : Type 0 where
  pub upstreams_config : Dict Config
  pub upstreams_servers : Dict (List Server)
  pub upstreams : Dict Upstream
  pub hook : Bool
  pub sent : List (List Upstream)
  pub shuffles : ℕ

-- the state that `__init__` sets up
abbrev pub fresh_master :
    {Server Config Upstream : Type 0} → Bool → MasterServiceDiscovery Server Config Upstream
fresh_master hook = record {
  upstreams_config = [];
  upstreams_servers = [];
  upstreams = [];
  hook = hook;
  sent = [];
  shuffles = 0;
}

-- `WorkerServiceDiscovery`
pub record WorkerServiceDiscovery (Upstream : Type 0) : Type 0 where
  pub upstreams : Dict Upstream
  pub shuffles : ℕ

-- What the listeners of Consul's caches are called with, if it is not `None`: the servers of a service
-- in a datacenter,
-- and the configs of the upstreams, each with its key, if it has a value.
pub data Event (Server Config : Type 0) : Type 0 where
  service : (key dc : String) → List Server → Event Server Config
  configs : List (String × Option Config) → Event Server Config

-- a key that may be missing
pub or_else : {A : Type 0} → A → Option A → A
or_else a none = a
or_else a (some b) = b

module _ {Server Config Upstream : Type 0} (api : UpstreamApi Server Config Upstream) where
  -- the branch on `current_upstream`, of master and worker
  unfoldable pub store : Option Upstream → String → Upstream → Dict Upstream → Dict Upstream
  store none key upstream upstreams = insert key upstream upstreams
  store (some current) key upstream upstreams = insert key (api.update current upstream) upstreams

  -- A list that is missing adds nothing, as an empty one.
  pub combine_from : String → List String → Dict (List Server) → List Server
  unfolding or_else service_key
  combine_from key [] servers = []
  combine_from key (dc ∷ dcs) servers =
      or_else [] (lookup (service_key key dc) servers) ++ combine_from key dcs servers

  module _ (options : Options) where
    -- `_combine_servers`
    pub combine_servers : String → Dict (List Server) → List Server
    unfolding combine_from
    combine_servers key servers = combine_from key options.datacenters servers

    -- `_create_upstream`
    pub create_upstream : String → MasterServiceDiscovery Server Config Upstream → Upstream
    unfolding or_else combine_servers
    create_upstream key s =
        api.make key (or_else api.default_config (lookup key s.upstreams_config))
          (api.shuffle s.shuffles (combine_servers key s.upstreams_servers))

    -- `send_updates`, for one upstream or for all
    pub send_updates :
        Option Upstream
        → MasterServiceDiscovery Server Config Upstream
        → MasterServiceDiscovery Server Config Upstream
    send_updates upstream s =
        let message : List Upstream = elim upstream [
          | none ↦ values s.upstreams
          | some u ↦ u ∷ []
        ] in
        if s.hook then record s { sent = s.sent ++ message ∷ [] } else s

    -- `_update_upstreams` under its lock: the upstream that is to be sent, and what is stored
    pub store_upstream :
        String
        → MasterServiceDiscovery Server Config Upstream
        → Upstream × MasterServiceDiscovery Server Config Upstream
    unfolding create_upstream store
    store_upstream key s =
        let upstream = create_upstream key s in
        (
          upstream,
          record s {
            upstreams = store (lookup key s.upstreams) key upstream s.upstreams;
            shuffles = suc s.shuffles;
          },
        )

    -- `_update_upstreams`, when no other listener stores or sends between its two locks
    pub update_upstreams :
        String
        → MasterServiceDiscovery Server Config Upstream
        → MasterServiceDiscovery Server Config Upstream
    unfolding store_upstream send_updates
    update_upstreams key s =
        let (upstream, s') = store_upstream key s in send_updates (some upstream) s'

    -- `_update_upstreams_service`
    pub update_upstreams_service :
        (key dc : String)
        → List Server
        → MasterServiceDiscovery Server Config Upstream
        → MasterServiceDiscovery Server Config Upstream
    unfolding update_upstreams service_key
    update_upstreams_service key dc servers s =
        update_upstreams key
          (record s { upstreams_servers = insert (service_key key dc) servers s.upstreams_servers })

    -- one round of the loop of `_update_upstreams_config`
    pub update_config :
        String
        → Option Config
        → MasterServiceDiscovery Server Config Upstream
        → MasterServiceDiscovery Server Config Upstream
    unfolding update_upstreams
    update_config key none s = s
    update_config key (some config) s =
        if elem key options.upstreams
        then update_upstreams key
            (record s { upstreams_config = insert key config s.upstreams_config })
        else s

    -- `_update_upstreams_config`
    pub update_upstreams_config :
        List (String × Option Config)
        → MasterServiceDiscovery Server Config Upstream
        → MasterServiceDiscovery Server Config Upstream
    unfolding update_config
    update_upstreams_config [] s = s
    update_upstreams_config ((key, value) ∷ rest) s =
        update_upstreams_config rest (update_config key value s)

    pub handle :
        Event Server Config
        → MasterServiceDiscovery Server Config Upstream
        → MasterServiceDiscovery Server Config Upstream
    unfolding update_upstreams_service update_upstreams_config
    handle (service key dc servers) s = update_upstreams_service key dc servers s
    handle (configs values) s = update_upstreams_config values s

    unfoldable pub handle_all :
        List (Event Server Config)
        → MasterServiceDiscovery Server Config Upstream
        → MasterServiceDiscovery Server Config Upstream
    unfolding handle
    handle_all [] s = s
    handle_all (event ∷ events) s = handle_all events (handle event s)

  -- the branches on `current_upstream` in a worker
  pub place :
      Option Upstream
      → String
      → Upstream
      → WorkerServiceDiscovery Upstream
      → WorkerServiceDiscovery Upstream
  unfolding store
  place (some current) key upstream w = record w {
    upstreams = store (some current) key upstream w.upstreams;
  }
  place none key upstream w = record w {
    upstreams =
        store none key (api.set_servers (api.shuffle w.shuffles (api.servers upstream)) upstream)
          w.upstreams;
    shuffles = suc w.shuffles;
  }

  -- `WorkerServiceDiscovery.__update_upstream`
  pub update_upstream : Upstream → WorkerServiceDiscovery Upstream → WorkerServiceDiscovery Upstream
  unfolding place
  update_upstream upstream w =
      place (lookup (api.name upstream) w.upstreams) (api.name upstream) upstream w

  -- `WorkerServiceDiscovery.update_upstreams`, for one message
  pub apply_updates :
      List Upstream → WorkerServiceDiscovery Upstream → WorkerServiceDiscovery Upstream
  unfolding update_upstream
  apply_updates [] w = w
  apply_updates (upstream ∷ upstreams) w = apply_updates upstreams (update_upstream upstream w)

  unfoldable pub apply_all :
      List (List Upstream) → WorkerServiceDiscovery Upstream → WorkerServiceDiscovery Upstream
  unfolding apply_updates
  apply_all [] w = w
  apply_all (message ∷ messages) w = apply_all messages (apply_updates message w)
