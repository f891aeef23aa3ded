-- ===== src/ServiceDiscovery/Worker.antt =====
-- A worker knows what the master knows.
use mathlib.Core.Path.{subst}
use frontik.Prelude.{
  String, true, Option, none, some, List, [], ◌∷◌, ◌++◌, ◌≡◌, refl, sym, ◌∙◌, ◌==◌, lookup, Dict,
  Bool-cases, inl, inr, if_true, if_false, elem,
}
use frontik.ServiceDiscovery.{
  UpstreamApi, Options, MasterServiceDiscovery, WorkerServiceDiscovery, Event, service, configs,
  store, create_upstream, send_updates, update_upstreams, update_upstreams_service, update_config,
  update_upstreams_config, handle, handle_all, update_upstream, place, apply_updates, apply_all,
}
use frontik.ServiceDiscovery.Views.{UpstreamLaws, Same, SameAt, stored, lookup-store}

module _ {Server Config Upstream : Type 0} (api : UpstreamApi Server Config Upstream)
    (laws : UpstreamLaws api) where
  -- a worker and a master with the same upstreams
  unfoldable pub Agrees : WorkerServiceDiscovery Upstream → Dict Upstream → Type 0
  Agrees w upstreams = (key : String) → SameAt api (lookup key w.upstreams) (lookup key upstreams)

  apply_all-append :
      (xs ys : List (List Upstream)) (w : WorkerServiceDiscovery Upstream)
      → apply_all api (xs ++ ys) w ≡ apply_all api ys (apply_all api xs w)
  unfolding apply_all
  apply_all-append [] ys w = refl
  apply_all-append (message ∷ xs) ys w = apply_all-append xs ys (apply_updates api message w)

  -- a worker's store, whether the upstream is new or known
  store-Agrees :
      (key : String) (u u' : Upstream) (ws ms : Dict Upstream) (wc mc : Option Upstream)
      (j : String)
      → Same api (stored api wc u') (stored api mc u)
      → SameAt api (lookup j ws) (lookup j ms)
      → SameAt api (lookup j (store api wc key u' ws)) (lookup j (store api mc key u ms))
  store-Agrees key u u' ws ms wc mc j same old =
      rw (lookup-store api key j wc u' ws, lookup-store api key j mc u ms)
        (elim (Bool-cases (key == j)) [ inl h ↦ rw h same | inr h ↦ rw h old ])

  place-Agrees :
      (u : Upstream) (w : WorkerServiceDiscovery Upstream) (ms : Dict Upstream)
      (wc mc : Option Upstream) (j : String)
      → SameAt api wc mc
      → SameAt api (lookup j w.upstreams) (lookup j ms)
      → SameAt api
          (lookup j (place api wc (api.name u) u w).upstreams)
          (lookup j (store api mc (api.name u) u ms))
  unfolding place
  place-Agrees u w ms none none j same old =
      store-Agrees (api.name u) u _ w.upstreams ms none none j
        (record {
          name = laws.name-set_servers _ u;
          config = laws.config-set_servers _ u;
          servers = λ s.
              rw (laws.servers-set_servers (api.shuffle w.shuffles (api.servers u)) u)
                (laws.has-shuffle w.shuffles (api.servers u) s);
        })
        old
  place-Agrees u w ms none (some m) j same old = elim same [ ]
  place-Agrees u w ms (some c) none j same old = elim same [ ]
  place-Agrees u w ms (some c) (some m) j same old =
      store-Agrees (api.name u) u u w.upstreams ms (some c) (some m) j
        (record {
          name = laws.name-update c u ∙ (same.name ∙ sym (laws.name-update m u));
          config = laws.config-update c u ∙ sym (laws.config-update m u);
          servers = λ s. (
            (λ h. (laws.servers-update m u s).1 ((laws.servers-update c u s).0 h)),
            (λ h. (laws.servers-update c u s).1 ((laws.servers-update m u s).0 h)),
          );
        })
        old

  update_upstream-Agrees :
      (u : Upstream) (w : WorkerServiceDiscovery Upstream) (ms : Dict Upstream)
      → Agrees w ms
      → Agrees (update_upstream api u w) (store api (lookup (api.name u) ms) (api.name u) u ms)
  unfolding update_upstream Agrees
  update_upstream-Agrees u w ms agrees j =
      place-Agrees u w ms (lookup (api.name u) w.upstreams) (lookup (api.name u) ms) j
        (agrees (api.name u)) (agrees j)

  module _ (options : Options) (w : WorkerServiceDiscovery Upstream) where
    -- the worker behind the messages of the master agrees with it, which sends
    unfoldable pub IsFollowed : MasterServiceDiscovery Server Config Upstream → Type 0
    IsFollowed s = (s.hook ≡ true) × Agrees (apply_all api s.sent w) s.upstreams

    update_upstreams-IsFollowed :
        (key : String) (s : MasterServiceDiscovery Server Config Upstream)
        → IsFollowed s
        → IsFollowed (update_upstreams api options key s)
    unfolding IsFollowed update_upstreams send_updates create_upstream apply_all apply_updates
    update_upstreams-IsFollowed key s (hook, agrees) =
        let u = create_upstream api options key s in
        let before = apply_all api s.sent w in
        let named : api.name u ≡ key = laws.name-make key _ _ in
        let stored_as : String → Dict Upstream =
          λ k. store api (lookup k s.upstreams) k u s.upstreams in
        let followed : Agrees (update_upstream api u before) (stored_as key) =
          subst (λ k. Agrees (update_upstream api u before) (stored_as k)) named
            (update_upstream-Agrees u before s.upstreams agrees) in
        subst IsFollowed (sym (if_true _ _ _ hook)) (
          hook,
          subst (λ worker. Agrees worker (stored_as key))
              (sym (apply_all-append s.sent ((u ∷ []) ∷ []) w)) followed,
        )

    update_config-IsFollowed :
        (key : String) (config : Option Config) (s : MasterServiceDiscovery Server Config Upstream)
        → IsFollowed s
        → IsFollowed (update_config api options key config s)
    unfolding IsFollowed update_config
    update_config-IsFollowed key none s f = f
    update_config-IsFollowed key (some config) s f =
        elim (Bool-cases (elem key options.upstreams)) [
          | inr h ↦ subst IsFollowed (sym (if_false _ _ _ h)) f
          | inl h ↦ subst IsFollowed (sym (if_true _ _ _ h)) (update_upstreams-IsFollowed key _ f)
        ]

    configs-IsFollowed :
        (values : List (String × Option Config)) (s : MasterServiceDiscovery Server Config Upstream)
        → IsFollowed s
        → IsFollowed (update_upstreams_config api options values s)
    unfolding update_upstreams_config
    configs-IsFollowed [] s f = f
    configs-IsFollowed ((key, value) ∷ rest) s f =
        configs-IsFollowed rest (update_config api options key value s)
          (update_config-IsFollowed key value s f)

    handle-IsFollowed :
        (event : Event Server Config) (s : MasterServiceDiscovery Server Config Upstream)
        → IsFollowed s
        → IsFollowed (handle api options event s)
    unfolding handle update_upstreams_service IsFollowed
    handle-IsFollowed (service key dc servers) s f = update_upstreams-IsFollowed key _ f
    handle-IsFollowed (configs values) s f = configs-IsFollowed values s f

    pub all-IsFollowed :
        (events : List (Event Server Config)) (s : MasterServiceDiscovery Server Config Upstream)
        → IsFollowed s
        → IsFollowed (handle_all api options events s)
    unfolding handle_all
    all-IsFollowed [] s f = f
    all-IsFollowed (event ∷ events) s f =
        all-IsFollowed events (handle api options event s) (handle-IsFollowed event s f)

  -- As long as each report of Consul is stored and sent before the next one is stored: a worker that is
  -- started with the upstreams of the master, or with others that hold the same, and applies the
  -- messages that the master sends from then on, in their order, has the same upstreams as the
  -- master: the same names, and under each name the same config and the same servers, whatever the
  -- reports are and however the servers are shuffled.
  pub handle_all-Agrees :
      (options : Options) (events : List (Event Server Config))
      (s : MasterServiceDiscovery Server Config Upstream) (w : WorkerServiceDiscovery Upstream)
      → s.hook ≡ true
      → s.sent ≡ []
      → Agrees w s.upstreams
      → Agrees
          (apply_all api (handle_all api options events s).sent w)
          (handle_all api options events s).upstreams
  unfolding IsFollowed apply_all
  handle_all-Agrees options events s w hook fresh agrees =
      let start : IsFollowed options w s =
        (hook, subst (λ sent. Agrees (apply_all api sent w) s.upstreams) (sym fresh) agrees) in
      (all-IsFollowed options w events s start).1
