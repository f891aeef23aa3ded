-- ===== src/ServiceDiscovery/Master.antt =====
-- The master's upstreams are what Consul has reported last.
use mathlib.Core.Path.{subst}
use frontik.Prelude.{
  String, Bool, false, Option, none, some, List, [], ◌∷◌, ◌≡◌, ◌↔◌, refl, sym, ap, ◌∙◌, ◌==◌,
  if◌then◌else◌, lookup, insert, lookup-insert, Dict, Bool-cases, inl, inr, eq_iff, arith, if_true,
  if_false, elem, has_char, All,
}
use frontik.ServiceDiscovery.{
  UpstreamApi, Options, MasterServiceDiscovery, Event, service, configs, store, service_key,
  or_else, combine_from, combine_servers, create_upstream, send_updates, update_upstreams,
  update_upstreams_service, update_config, update_upstreams_config, handle, handle_all,
  fresh_master,
}
use frontik.ServiceDiscovery.Views.{Has, UpstreamLaws, stored, lookup-store}
use frontik.ServiceDiscovery.Keys.{keys_differ}

-- whether no datacenter has a dash
abbrev pub NoDash : List String → Type 0
NoDash dcs = All (λ dc. has_char b'-' dc ≡ false) dcs

-- the datacenters that an event reports on
abbrev pub datacenters_of : {Server Config : Type 0} → List (Event Server Config) → List String
datacenters_of [] = []
datacenters_of (service key dc servers ∷ events) = dc ∷ datacenters_of events
datacenters_of (configs values ∷ events) = datacenters_of events

module _ {Server Config Upstream : Type 0} (api : UpstreamApi Server Config Upstream)
    (laws : UpstreamLaws api) (options : Options) where
  -- An upstream has the config that the master has kept, or else the default, and the servers that it
  -- has kept for each of the datacenters.
  pub record Reports (s : MasterServiceDiscovery Server Config Upstream) (key : String)
      (u : Upstream) : Type 0 where
    pub config : api.config u ≡ or_else api.default_config (lookup key s.upstreams_config)
    pub servers :
        (x : Server)
        → Has x (api.servers u) ↔ Has x (combine_servers api options key s.upstreams_servers)

  -- all upstreams but those with this key
  IsCurrentBut : (String → Bool) → MasterServiceDiscovery Server Config Upstream → Type 0
  IsCurrentBut but s =
      (j : String) (u : Upstream)
      → lookup j s.upstreams ≡ some u
      → (api.name u ≡ j) × (but j ≡ false → Reports s j u)

  IsCurrent : MasterServiceDiscovery Server Config Upstream → Type 0
  IsCurrent s = IsCurrentBut (λ j. false) s

  made :
      (key : String) (s : MasterServiceDiscovery Server Config Upstream)
      → (api.name (create_upstream api options key s) ≡ key)
        × Reports s key (create_upstream api options key s)
  unfolding create_upstream
  made key s = (
    laws.name-make key _ _,
    record {
      config = laws.config-make key _ _;
      servers = λ x.
          rw
            (laws.servers-make key (or_else api.default_config (lookup key s.upstreams_config))
              (api.shuffle s.shuffles (combine_servers api options key s.upstreams_servers)))
            (laws.has-shuffle s.shuffles (combine_servers api options key s.upstreams_servers) x);
    },
  )

  created :
      (key : String) (s : MasterServiceDiscovery Server Config Upstream) (current : Option Upstream)
      → ((c : Upstream) → current ≡ some c → api.name c ≡ key)
      → (api.name (stored api current (create_upstream api options key s)) ≡ key)
        × Reports s key (stored api current (create_upstream api options key s))
  created key s none named = made key s
  created key s (some c) named =
      let u = create_upstream api options key s in
      let (name, fresh) = made key s in
      (
        laws.name-update c u ∙ named c refl,
        record {
          config = laws.config-update c u ∙ fresh.config;
          servers = λ x. (
            (λ h. (fresh.servers x).0 ((laws.servers-update c u x).0 h)),
            (λ h. (laws.servers-update c u x).1 ((fresh.servers x).1 h)),
          );
        },
      )

  -- what `update_upstreams` leaves, but for the messages
  pub updated : String → MasterServiceDiscovery Server Config Upstream → Dict Upstream
  updated key s =
      store api (lookup key s.upstreams) key (create_upstream api options key s) s.upstreams

  pub update_upstreams-keeps :
      (key : String) (s : MasterServiceDiscovery Server Config Upstream)
      → ((update_upstreams api options key s).upstreams ≡ updated key s)
        × ((update_upstreams api options key s).upstreams_config ≡ s.upstreams_config)
        × ((update_upstreams api options key s).upstreams_servers ≡ s.upstreams_servers)
  unfolding update_upstreams send_updates updated
  update_upstreams-keeps key s = ground arith

  Reports-keeps :
      (key j : String) (s : MasterServiceDiscovery Server Config Upstream) (u : Upstream)
      → Reports s j u
      → Reports (update_upstreams api options key s) j u
  Reports-keeps key j s u r =
      let (ups, cfg, srv) = update_upstreams-keeps key s in
      record {
        config = r.config ∙ ap (λ d. or_else api.default_config (lookup j d)) (sym cfg);
        servers = λ x.
            subst (λ d. Has x (api.servers u) ↔ Has x (combine_servers api options j d)) (sym srv)
              (r.servers x);
      }

  some_inj : {A : Type 0} {a b : A} → some a ≡ some b → a ≡ b
  some_inj e = cc

  updated-lookup :
      (key j : String) (s : MasterServiceDiscovery Server Config Upstream) (u : Upstream)
      → lookup j (update_upstreams api options key s).upstreams ≡ some u
      → (if key == j
          then some (stored api (lookup key s.upstreams) (create_upstream api options key s))
          else lookup j s.upstreams)
        ≡ some u
  unfolding updated
  updated-lookup key j s u e =
      sym (
        lookup-store api key j (lookup key s.upstreams) (create_upstream api options key s)
          s.upstreams)
      ∙ (ap (lookup j) (sym (update_upstreams-keeps key s).0) ∙ e)

  update_upstreams-IsCurrent :
      (key : String) (s : MasterServiceDiscovery Server Config Upstream)
      → IsCurrentBut (λ j. key == j) s
      → IsCurrent (update_upstreams api options key s)
  unfolding IsCurrent IsCurrentBut
  update_upstreams-IsCurrent key s current j u e = elim (Bool-cases (key == j)) [
    | inl h ↦
        let (name, reports) =
          created key s (lookup key s.upstreams) (λ c at. (current key c at).0) in
        let same : stored api (lookup key s.upstreams) (create_upstream api options key s) ≡ u =
          some_inj (sym (if_true _ _ _ h) ∙ updated-lookup key j s u e) in
        let at_key = (eq_iff key j).0 h in
        (
          ap api.name (sym same) ∙ (name ∙ at_key),
          λ _.
              Reports-keeps key j s u
                (subst (λ k. Reports s k u) at_key (subst (Reports s key) same reports)),
        )
    | inr h ↦
        let (name, reports) = current j u (sym (if_false _ _ _ h) ∙ updated-lookup key j s u e) in
        (name, λ _. Reports-keeps key j s u (reports h))
  ]

  combine-other :
      (key j dc : String) (xs : List Server) (d : Dict (List Server)) (dcs : List String)
      → (key == j) ≡ false
      → has_char b'-' dc ≡ false
      → NoDash dcs
      → combine_from api j dcs (insert (service_key key dc) xs d) ≡ combine_from api j dcs d
  unfolding combine_from
  combine-other key j dc xs d [] other plain dashes = refl
  combine-other key j dc xs d (dc' ∷ dcs) other plain (plain', dashes) =
      rw
        (
          lookup-insert (service_key key dc) (service_key j dc') xs d,
          keys_differ key j dc dc' other plain plain',
          combine-other key j dc xs d dcs other plain dashes,
        )
        refl

  service-IsCurrent :
      (key dc : String) (servers : List Server) (s : MasterServiceDiscovery Server Config Upstream)
      → has_char b'-' dc ≡ false
      → NoDash options.datacenters
      → IsCurrent s
      → IsCurrent (update_upstreams_service api options key dc servers s)
  unfolding update_upstreams_service IsCurrent IsCurrentBut combine_servers
  service-IsCurrent key dc servers s plain dashes current =
      update_upstreams-IsCurrent key _ (λ j u e.
        let (name, reports) = current j u e in
        (
          name,
          λ other. record {
            config = (reports refl).config;
            servers = λ x.
                subst (λ ys. Has x (api.servers u) ↔ Has x ys)
                  (sym (
                    combine-other key j dc servers s.upstreams_servers options.datacenters other
                      plain dashes))
                  ((reports refl).servers x);
          },
        ))

  config-IsCurrent :
      (key : String) (value : Option Config) (s : MasterServiceDiscovery Server Config Upstream)
      → IsCurrent s
      → IsCurrent (update_config api options key value s)
  unfolding update_config IsCurrent IsCurrentBut
  config-IsCurrent key none s current = current
  config-IsCurrent key (some config) s current = elim (Bool-cases (elem key options.upstreams)) [
    | inr h ↦ subst IsCurrent (sym (if_false _ _ _ h)) current
    | inl h ↦ subst IsCurrent (sym (if_true _ _ _ h)) (
        update_upstreams-IsCurrent key _ (λ j u e.
          let (name, reports) = current j u e in
          (
            name,
            λ other. record {
              config =
                  (reports refl).config
                  ∙ ap (or_else api.default_config)
                      (sym (lookup-insert key j config s.upstreams_config ∙ if_false _ _ _ other));
              servers = (reports refl).servers;
            },
          )))
  ]

  configs-IsCurrent :
      (values : List (String × Option Config)) (s : MasterServiceDiscovery Server Config Upstream)
      → IsCurrent s
      → IsCurrent (update_upstreams_config api options values s)
  unfolding update_upstreams_config
  configs-IsCurrent [] s current = current
  configs-IsCurrent ((key, value) ∷ rest) s current =
      configs-IsCurrent rest (update_config api options key value s)
        (config-IsCurrent key value s current)

  all-IsCurrent :
      (events : List (Event Server Config)) (s : MasterServiceDiscovery Server Config Upstream)
      → NoDash options.datacenters
      → NoDash (datacenters_of events)
      → IsCurrent s
      → IsCurrent (handle_all api options events s)
  unfolding handle_all handle
  all-IsCurrent [] s dashes plain current = current
  all-IsCurrent (service key dc servers ∷ events) s dashes (plain, rest) current =
      all-IsCurrent events _ dashes rest (service-IsCurrent key dc servers s plain dashes current)
  all-IsCurrent (configs values ∷ events) s dashes plain current =
      all-IsCurrent events _ dashes plain (configs-IsCurrent values s current)

  -- When no datacenter has a dash in its name, every upstream of the master has, after any reports in
  -- any order, its own name, and the config and exactly the servers that the master has kept for it.
  pub handle_all-Reports :
      (events : List (Event Server Config)) (hook : Bool) (key : String) (u : Upstream)
      → NoDash options.datacenters
      → NoDash (datacenters_of events)
      → lookup key (handle_all api options events (fresh_master hook)).upstreams ≡ some u
      → (api.name u ≡ key) × Reports (handle_all api options events (fresh_master hook)) key u
  unfolding IsCurrent IsCurrentBut lookup
  handle_all-Reports events hook key u dashes plain e =
      let (name, reports) =
        all-IsCurrent events (fresh_master hook) dashes plain (λ j v h. cc h) key u e in
      (name, reports refl)
