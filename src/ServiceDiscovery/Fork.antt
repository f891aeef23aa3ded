-- ===== src/ServiceDiscovery/Fork.antt =====
-- frontik/server.py: the action of the master behind the fork of its workers, on the service
-- discovery of the application.
mod Quiet
mod Copy
pub mod Follow
use frontik.Prelude.{String, Bool, true, Option, none}
use frontik.ServiceDiscovery.{
  UpstreamApi, Options, MasterServiceDiscovery, WorkerServiceDiscovery, send_updates,
}
use frontik.ServiceDiscovery.Registration.{
  RegisterOptions, Registration, Result, ends, attribute_error, value_error, runtime_error, refused,
  register_service,
}

module _ {Server Config Upstream : Type 0} (api : UpstreamApi Server Config Upstream)
    (options : Options) where
  -- the `service_discovery` of an application
  pub data ServiceDiscovery : Type 0 where
    master : MasterServiceDiscovery Server Config Upstream → Option Registration → ServiceDiscovery
    worker : WorkerServiceDiscovery Upstream → ServiceDiscovery

  -- `set_update_shared_data_hook`, and `send_updates` for all upstreams
  unfoldable pub send_first :
      MasterServiceDiscovery Server Config Upstream → MasterServiceDiscovery Server Config Upstream
  unfolding send_updates
  send_first s = send_updates api options none (record s { hook = true })

  registered :
      MasterServiceDiscovery Server Config Upstream
      → Result (Option Registration)
      → Result ServiceDiscovery
  registered s (ends r) = ends (master s r)
  registered s attribute_error = attribute_error
  registered s value_error = value_error
  registered s runtime_error = runtime_error
  registered s refused = refused

  -- `_master_after_fork_action`, with the weight that the cache has and the answer of Consul
  pub master_after_fork_action :
      RegisterOptions → Option String → Bool → ServiceDiscovery → Result ServiceDiscovery
  unfolding send_first registered
  master_after_fork_action register_options value accepted (worker w) = ends (worker w)
  master_after_fork_action register_options value accepted (master s r) =
      registered (send_first s) (register_service register_options value accepted r)
