-- ===== src/ServiceDiscovery/Fork/Quiet.antt =====
-- The upstreams of a master that cannot send yet, in frontik/service_discovery.py.
use mathlib.Core.Path.{subst}
use frontik.Prelude.{
  String, false, Option, none, some, List, [], ◌∷◌, ◌≡◌, sym, ◌∙◌, lookup, insert, Dict, values,
  IsKeyed, lookup-named, Bool-cases, Option-cases, inl, inr, if_true, if_false, elem, arith,
  insert-IsKeyed,
}
use frontik.ServiceDiscovery.{
  UpstreamApi, Options, MasterServiceDiscovery, Event, service, configs, store, create_upstream,
  send_updates, update_upstreams, update_upstreams_service, update_config, update_upstreams_config,
  handle, handle_all,
}
use frontik.ServiceDiscovery.Views.{UpstreamLaws, lookup-store}

module _ {Server Config Upstream : Type 0} (api : UpstreamApi Server Config Upstream)
    (options : Options) where
  -- each upstream stands under its name
  abbrev pub IsNamed : Dict Upstream → Type 0
  IsNamed upstreams = IsKeyed api.name upstreams

  module _ (laws : UpstreamLaws api) where
    pub insert-IsNamed :
        (key : String) (u : Upstream) (d : Dict Upstream)
        → api.name u ≡ key
        → IsNamed d
        → IsNamed (insert key u d)
    insert-IsNamed key u d named h =
        subst (λ k. IsNamed (insert k u d)) named (insert-IsKeyed api.name u d h)

    store-IsNamed :
        (key : String) (u : Upstream) (d : Dict Upstream)
        → api.name u ≡ key
        → IsNamed d
        → IsNamed (store api (lookup key d) key u d)
    unfolding store insert
    store-IsNamed key u d named h = elim (Option-cases (lookup key d)) [
      | inl e ↦ rw e (insert-IsNamed key u d named h)
      | inr (c, e) ↦ rw e (
          insert-IsNamed key (api.update c u) d
            (laws.name-update c u ∙ lookup-named api.name key d h e) h)
    ]

    -- a key that is missing behind a store was missing before
    store_missing :
        (key j : String) (current : Option Upstream) (u : Upstream) (d : Dict Upstream)
        → lookup j (store api current key u d) ≡ none
        → lookup j d ≡ none
    store_missing key j current u d h = ground (arith, lookup-store api key j current u d)

    -- A master that cannot send yet has not sent, and knows all that is known in `base`.
    pub record IsQuiet (base : Dict Upstream) (s : MasterServiceDiscovery Server Config Upstream)
        : Type 0 where
      pub hook : s.hook ≡ false
      pub sent : s.sent ≡ []
      pub named : IsNamed s.upstreams
      pub known : (j : String) → lookup j s.upstreams ≡ none → lookup j base ≡ none

    module _ (base : Dict Upstream) where
      update_upstreams-IsQuiet :
          (key : String) (s : MasterServiceDiscovery Server Config Upstream)
          → IsQuiet base s
          → IsQuiet base (update_upstreams api options key s)
      unfolding update_upstreams send_updates create_upstream
      update_upstreams-IsQuiet key s q =
          let u = create_upstream api options key s in
          subst (IsQuiet base) (sym (if_false _ _ _ q.hook)) (record {
            hook = q.hook;
            sent = q.sent;
            named = store-IsNamed key u s.upstreams (laws.name-make key _ _) q.named;
            known = λ j h. q.known j (store_missing key j _ u s.upstreams h);
          })

      update_config-IsQuiet :
          (key : String) (config : Option Config)
          (s : MasterServiceDiscovery Server Config Upstream)
          → IsQuiet base s
          → IsQuiet base (update_config api options key config s)
      unfolding update_config
      update_config-IsQuiet key none s q = q
      update_config-IsQuiet key (some config) s q = elim (Bool-cases (elem key options.upstreams)) [
        | inr h ↦ subst (IsQuiet base) (sym (if_false _ _ _ h)) q
        | inl h ↦ subst (IsQuiet base) (sym (if_true _ _ _ h)) (
            update_upstreams-IsQuiet key _
              (record { hook = q.hook; sent = q.sent; named = q.named; known = q.known }))
      ]

      configs-IsQuiet :
          (values : List (String × Option Config))
          (s : MasterServiceDiscovery Server Config Upstream)
          → IsQuiet base s
          → IsQuiet base (update_upstreams_config api options values s)
      unfolding update_upstreams_config
      configs-IsQuiet [] s q = q
      configs-IsQuiet ((key, value) ∷ rest) s q =
          configs-IsQuiet rest _ (update_config-IsQuiet key value s q)

      handle-IsQuiet :
          (event : Event Server Config) (s : MasterServiceDiscovery Server Config Upstream)
          → IsQuiet base s
          → IsQuiet base (handle api options event s)
      unfolding handle update_upstreams_service
      handle-IsQuiet (service key dc servers) s q =
          update_upstreams-IsQuiet key _
            (record { hook = q.hook; sent = q.sent; named = q.named; known = q.known })
      handle-IsQuiet (configs values) s q = configs-IsQuiet values s q

      pub handle_all-IsQuiet :
          (events : List (Event Server Config)) (s : MasterServiceDiscovery Server Config Upstream)
          → IsQuiet base s
          → IsQuiet base (handle_all api options events s)
      unfolding handle_all
      handle_all-IsQuiet [] s q = q
      handle_all-IsQuiet (event ∷ events) s q =
          handle_all-IsQuiet events _ (handle-IsQuiet event s q)
