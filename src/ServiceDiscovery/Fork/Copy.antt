-- ===== src/ServiceDiscovery/Fork/Copy.antt =====
-- What a message of all upstreams leaves in a worker, in frontik/service_discovery.py.
use mathlib.Core.Path.{subst}
use frontik.Prelude.{
  String, false, Option, none, some, [], ◌∷◌, ◌≡◌, refl, sym, ◌∙◌, ap, ◌==◌, lookup, Dict, values,
  IsKeyed, lookup-named, Bool-cases, Option-cases, inl, inr, if_true, if_false, eq_iff, eq_refl,
  some_inj,
}
use frontik.ServiceDiscovery.{
  UpstreamApi, Options, WorkerServiceDiscovery, store, update_upstream, place, apply_updates,
}
use frontik.ServiceDiscovery.Views.{UpstreamLaws, Same, SameAt, stored, lookup-store}
use frontik.ServiceDiscovery.Fork.Quiet.{insert-IsNamed}

module _ {Server Config Upstream : Type 0} (api : UpstreamApi Server Config Upstream)
    (options : Options) where
  module _ (laws : UpstreamLaws api) where
    -- what a store leaves under its key, and elsewhere
    lookup-store_here :
        (key : String) (current : Option Upstream) (u : Upstream) (d : Dict Upstream)
        → lookup key (store api current key u d) ≡ some (stored api current u)
    lookup-store_here key current u d =
        lookup-store api key key current u d ∙ if_true _ _ _ (eq_refl key)

    lookup-store_elsewhere :
        (key j : String) (current : Option Upstream) (u : Upstream) (d : Dict Upstream)
        → (key == j) ≡ false
        → lookup j (store api current key u d) ≡ lookup j d
    lookup-store_elsewhere key j current u d other =
        lookup-store api key j current u d ∙ if_false _ _ _ other

    -- a worker in which an upstream has been placed
    record IsPlaced (u : Upstream) (before after : Dict Upstream) : Type 0 where
      named : IsKeyed api.name after
      placed : (v : Upstream) × (lookup (api.name u) after ≡ some v) × Same api v u
      others : (j : String) → (api.name u == j) ≡ false → lookup j after ≡ lookup j before

    place-IsPlaced :
        (current : Option Upstream) (u : Upstream) (w : WorkerServiceDiscovery Upstream)
        → lookup (api.name u) w.upstreams ≡ current
        → IsKeyed api.name w.upstreams
        → IsPlaced u w.upstreams (place api current (api.name u) u w).upstreams
    unfolding place store
    place-IsPlaced none u w e h =
        let u' = api.set_servers (api.shuffle w.shuffles (api.servers u)) u in
        record {
          named =
              insert-IsNamed api options laws (api.name u) u' w.upstreams
                (laws.name-set_servers _ u) h;
          placed = (
            u',
            lookup-store_here (api.name u) none u' w.upstreams,
            record {
              name = laws.name-set_servers _ u;
              config = laws.config-set_servers _ u;
              servers = λ s.
                  rw (laws.servers-set_servers (api.shuffle w.shuffles (api.servers u)) u)
                    (laws.has-shuffle w.shuffles (api.servers u) s);
            },
          );
          others = λ j other. lookup-store_elsewhere (api.name u) j none u' w.upstreams other;
        }
    place-IsPlaced (some c) u w e h =
        let named = laws.name-update c u ∙ lookup-named api.name (api.name u) w.upstreams h e in
        record {
          named = insert-IsNamed api options laws (api.name u) (api.update c u) w.upstreams named h;
          placed = (
            api.update c u,
            lookup-store_here (api.name u) (some c) u w.upstreams,
            record {
              name = named;
              config = laws.config-update c u;
              servers = λ s. laws.servers-update c u s;
            },
          );
          others = λ j other. lookup-store_elsewhere (api.name u) j (some c) u w.upstreams other;
        }

    -- what a message of all the upstreams of a master leaves in a worker
    pub record IsCopied (ms before after : Dict Upstream) : Type 0 where
      pub copied :
          (j : String) (m : Upstream)
          → lookup j ms ≡ some m
          → (v : Upstream) × (lookup j after ≡ some v) × Same api v m
      pub kept : (j : String) → lookup j ms ≡ none → lookup j after ≡ lookup j before

    pub apply_updates-IsCopied :
        (ms : Dict Upstream) (w : WorkerServiceDiscovery Upstream)
        → IsKeyed api.name ms
        → IsKeyed api.name w.upstreams
        → IsCopied ms w.upstreams (apply_updates api (values ms) w).upstreams
    unfolding apply_updates update_upstream IsKeyed lookup
    apply_updates-IsCopied [] w named h = record { copied = λ j m e. cc e; kept = λ j e. refl }
    apply_updates-IsCopied ((k, u) ∷ ms) w (same, fresh, named) h =
        let p = place-IsPlaced (lookup (api.name u) w.upstreams) u w refl h in
        let w' = update_upstream api u w in
        let rest = apply_updates-IsCopied ms w' named p.named in
        record {
          copied = λ j m e. elim (Bool-cases (k == j)) [
            | inl here ↦
                let at : k ≡ j = (eq_iff k j).0 here in
                let (v, found, alike) = p.placed in
                (
                  v,
                  rest.kept j (subst (λ i. lookup i ms ≡ none) at fresh)
                      ∙ (ap (λ i. lookup i w'.upstreams) (sym (same ∙ at)) ∙ found),
                  subst (Same api v) (some_inj (sym (if_true _ _ _ here) ∙ e)) alike,
                )
            | inr other ↦ rest.copied j m (sym (if_false _ _ _ other) ∙ e)
          ];
          kept = λ j e. elim (Bool-cases (k == j)) [
            | inl here ↦ cc (sym (if_true _ _ _ here) ∙ e)
            | inr other ↦
                rest.kept j (sym (if_false _ _ _ other) ∙ e)
                ∙ p.others j (subst (λ i. (i == j) ≡ false) (sym same) other)
          ];
        }

    pub copy-SameAt :
        (ms before after : Dict Upstream) (j : String)
        → IsCopied ms before after
        → (lookup j ms ≡ none → lookup j before ≡ none)
        → SameAt api (lookup j after) (lookup j ms)
    copy-SameAt ms before after j c known = elim (Option-cases (lookup j ms)) [
      | inl e ↦ rw (c.kept j e ∙ known e, e) tt
      | inr (m, e) ↦ let (v, found, alike) = c.copied j m e in rw (found, e) alike
    ]
