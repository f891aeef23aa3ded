-- ===== src/ServiceDiscovery/Fork/Follow.antt =====
-- What a worker knows that is forked before the master can send to it: frontik/server.py around the
-- fork, with the service discovery of both processes.
use mathlib.Core.Path.{subst}
use frontik.Prelude.{ℕ, false, List, [], ◌∷◌, ◌++◌, refl, sym, lookup, values, IsKeyed}
use frontik.ServiceDiscovery.{
  UpstreamApi, Options, MasterServiceDiscovery, WorkerServiceDiscovery, Event, fresh_master,
  send_updates, handle_all, apply_all,
}
use frontik.ServiceDiscovery.Views.{UpstreamLaws, SameAt}
use frontik.ServiceDiscovery.Worker.{Agrees, IsFollowed, all-IsFollowed}
use frontik.ServiceDiscovery.Fork.{send_first}
use frontik.ServiceDiscovery.Fork.Quiet.{IsQuiet, handle_all-IsQuiet}
use frontik.ServiceDiscovery.Fork.Copy.{apply_updates-IsCopied, copy-SameAt}

module _ {Server Config Upstream : Type 0} (api : UpstreamApi Server Config Upstream)
    (options : Options) where
  module _ (laws : UpstreamLaws api) where
    -- a worker that is forked from the state `s`
    follow-Agrees :
        (between behind : List (Event Server Config))
        (s : MasterServiceDiscovery Server Config Upstream) (shuffles : ℕ)
        → IsQuiet api options laws s.upstreams s
        → Agrees api laws
            (apply_all api
              (handle_all api options behind
                (send_first api options (handle_all api options between s))).sent
              (record { upstreams = s.upstreams; shuffles = shuffles }))
            (handle_all api options behind
              (send_first api options (handle_all api options between s))).upstreams
    unfolding send_first send_updates IsFollowed apply_all Agrees
    follow-Agrees between behind s shuffles forked =
        let w : WorkerServiceDiscovery Upstream = record {
          upstreams = s.upstreams;
          shuffles = shuffles;
        } in
        let quiet = handle_all-IsQuiet api options laws s.upstreams between s forked in
        let s' = handle_all api options between s in
        let copied =
          apply_updates-IsCopied api options laws s'.upstreams w quiet.named forked.named in
        let start : IsFollowed api laws options w (send_first api options s') = (
          refl,
          λ j.
              subst
                (λ sent.
                  SameAt api
                    (lookup j (apply_all api (sent ++ values s'.upstreams ∷ []) w).upstreams)
                    (lookup j s'.upstreams))
                (sym quiet.sent)
                (copy-SameAt api options laws s'.upstreams w.upstreams _ j copied (quiet.known j)),
        ) in
        (all-IsFollowed api laws options w behind (send_first api options s') start).1

    -- As long as each report of Consul is stored, and sent if the hook is set, before the next one is
    -- stored and before the action behind the fork: a worker is forked with a copy of the upstreams
    -- that the master has from the reports `early` of Consul. Further reports come `between` the fork and the action of the master behind it, of
    -- which nothing is sent, and others come `behind` that action. When the worker has applied the
    -- messages of the master in their order, it has the same upstreams as the master, each with the
    -- same config and servers, whatever the reports are.
    pub send_first-Agrees :
        (early between behind : List (Event Server Config)) (shuffles : ℕ)
        → Agrees api laws
            (apply_all api
              (handle_all api options behind (
                send_first api options (
                  handle_all api options between
                    (handle_all api options early (fresh_master false))))).sent
              (record {
                upstreams = (handle_all api options early (fresh_master false)).upstreams;
                shuffles = shuffles;
              }))
            (handle_all api options behind (
              send_first api options (
                handle_all api options between
                  (handle_all api options early (fresh_master false))))).upstreams
    unfolding IsKeyed
    send_first-Agrees early between behind shuffles =
        let s = handle_all api options early (fresh_master false) in
        let q =
          handle_all-IsQuiet api options laws [] early (fresh_master false)
            (record { hook = refl; sent = refl; named = tt; known = λ j h. h }) in
        follow-Agrees between behind s shuffles
          (record { hook = q.hook; sent = q.sent; named = q.named; known = λ j h. h })
