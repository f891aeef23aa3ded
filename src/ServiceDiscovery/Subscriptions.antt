-- ===== src/ServiceDiscovery/Subscriptions.antt =====
-- frontik/service_discovery.py: the services and datacenters that the master watches, and the check
-- for upstreams without servers at its start.
use frontik.Prelude.{
  String, Bool, true, false, not, ◌&&◌, ◌||◌, List, [], ◌∷◌, ◌++◌, ◌+++◌, map, ◌≡◌, refl, ◌∙◌, ◌==◌,
  arith, if◌then◌else◌, elem, split_char, is_empty, Dict, eq_iff,
}
use frontik.ServiceDiscovery.{UpstreamApi, Options}

pub record SubscriptionOptions : Type 0 where
  pub upstreams : List String
  pub datacenters : List String
  pub datacenter : String
  pub cross_datacenter_upstreams : String
  pub kafka_clusters : List String
  pub scylla_clusters : List String

-- `cross_datacenter_upstreams`, as a list
unfoldable pub cross_datacenters : String → List String
cross_datacenters text = if is_empty text then [] else split_char b',' text

pub is_watched : SubscriptionOptions → String → String → Bool
unfolding cross_datacenters
is_watched options upstream dc =
    dc == options.datacenter
    || (elem "*" (cross_datacenters options.cross_datacenter_upstreams)
        || elem upstream (cross_datacenters options.cross_datacenter_upstreams))

-- one upstream with each datacenter of the product
pub watch_upstream : SubscriptionOptions → String → List String → List (String × String)
unfolding is_watched
watch_upstream options upstream [] = []
watch_upstream options upstream (dc ∷ dcs) =
    let rest = watch_upstream options upstream dcs in
    if is_watched options upstream dc then (upstream, dc) ∷ rest else rest

pub watch_upstreams : SubscriptionOptions → List String → List (String × String)
unfolding watch_upstream
watch_upstreams options [] = []
watch_upstreams options (upstream ∷ upstreams) =
    watch_upstream options upstream options.datacenters ++ watch_upstreams options upstreams

pub watch_all : List String → List String → List (String × String)
watch_all [] dcs = []
watch_all (upstream ∷ upstreams) dcs = map (λ dc. (upstream, dc)) dcs ++ watch_all upstreams dcs

-- the names of the clusters as services
unfoldable pub cluster_upstreams : SubscriptionOptions → List String
cluster_upstreams options =
    map (λ name. "kafka-" +++ name) options.kafka_clusters
    ++ map (λ name. "scylla-" +++ name) options.scylla_clusters

-- the calls of `__subscribe_to_service` in `__init__`
unfoldable pub subscriptions : SubscriptionOptions → List (String × String)
unfolding watch_upstreams watch_all cluster_upstreams
subscriptions options =
    watch_upstreams options options.upstreams
    ++ watch_all (cluster_upstreams options) options.datacenters

unfoldable pub has_subscription : String → String → List (String × String) → Bool
has_subscription upstream dc [] = false
has_subscription upstream dc ((u, d) ∷ rest) =
    (upstream == u && dc == d) || has_subscription upstream dc rest

has_subscription-append :
    (u dc : String) (xs ys : List (String × String))
    → has_subscription u dc (xs ++ ys) ≡ (has_subscription u dc xs || has_subscription u dc ys)
unfolding has_subscription
has_subscription-append u dc [] ys = refl
has_subscription-append u dc (x ∷ xs) ys = ground (arith, has_subscription-append u dc xs ys)

module _ (options : SubscriptionOptions) (u dc : String) where
  watch_upstream_lem :
      (upstream : String) (dcs : List String)
      → has_subscription u dc (watch_upstream options upstream dcs)
        ≡ (u == upstream && (elem dc dcs && is_watched options u dc))
  unfolding watch_upstream has_subscription elem
  watch_upstream_lem upstream [] = ground arith
  watch_upstream_lem upstream (d ∷ dcs) =
      ground (arith, watch_upstream_lem upstream dcs, eq_iff u upstream, eq_iff dc d)

  watch_upstreams_lem :
      (upstreams : List String)
      → has_subscription u dc (watch_upstreams options upstreams)
        ≡ (elem u upstreams && (elem dc options.datacenters && is_watched options u dc))
  unfolding watch_upstreams has_subscription elem
  watch_upstreams_lem [] = refl
  watch_upstreams_lem (upstream ∷ upstreams) =
      has_subscription-append u dc (watch_upstream options upstream options.datacenters) _
      ∙ ground
          (arith, watch_upstream_lem upstream options.datacenters, watch_upstreams_lem upstreams)

  map_lem :
      (upstream : String) (dcs : List String)
      → has_subscription u dc (map (λ d. (upstream, d)) dcs) ≡ (u == upstream && elem dc dcs)
  unfolding has_subscription elem
  map_lem upstream [] = ground arith
  map_lem upstream (d ∷ dcs) = ground (arith, map_lem upstream dcs)

  watch_all_lem :
      (upstreams dcs : List String)
      → has_subscription u dc (watch_all upstreams dcs) ≡ (elem u upstreams && elem dc dcs)
  unfolding watch_all has_subscription elem
  watch_all_lem [] dcs = refl
  watch_all_lem (upstream ∷ upstreams) dcs =
      has_subscription-append u dc (map (λ d. (upstream, d)) dcs) _
      ∙ ground (arith, map_lem upstream dcs, watch_all_lem upstreams dcs)

  -- The master watches a service in a datacenter if and only if the datacenter is one of the
  -- options, and the service is a Kafka or Scylla cluster of the options, or an upstream of the
  -- options where the datacenter is the own one or the upstream, or each upstream by a star, is
  -- listed for all datacenters.
  subscriptions_lem : has_subscription u dc (subscriptions options) ≡ (
      elem dc options.datacenters
      && ((elem u options.upstreams && is_watched options u dc)
          || elem u (cluster_upstreams options)))
  unfolding subscriptions
  subscriptions_lem =
      has_subscription-append u dc (watch_upstreams options options.upstreams) _
      ∙ ground (
        arith,
        watch_upstreams_lem options.upstreams,
        watch_all_lem (cluster_upstreams options) options.datacenters,
      )

-- `__check_empty_upstreams_on_startup`: the names that it raises for
module _ {Server Config Upstream : Type 0} (api : UpstreamApi Server Config Upstream)
    (options : Options) where
  no_servers : List Server → Bool
  no_servers [] = true
  no_servers (s ∷ servers) = false

  unfoldable pub empty_upstreams : Dict Upstream → List String
  unfolding no_servers
  empty_upstreams [] = []
  empty_upstreams ((k, v) ∷ upstreams) =
      let rest = empty_upstreams upstreams in
      if no_servers (api.servers v) && not (elem k options.skip_empty_upstream_check_for_upstreams)
      then k ∷ rest
      else rest
