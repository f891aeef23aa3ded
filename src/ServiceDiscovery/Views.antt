-- ===== src/ServiceDiscovery/Views.antt =====
-- Upstreams without the order of their servers, and what the code relies on of the HTTP client
-- library.
use frontik.Prelude.{
  ℕ, String, Option, none, some, List, ◌≡◌, ◌↔◌, Exists, ◌==◌, if◌then◌else◌, lookup, lookup-insert,
  Dict,
}
use frontik.ServiceDiscovery.{UpstreamApi, store}

-- whether a list holds a server
abbrev pub Has : {Server : Type 0} → Server → List Server → Type 0
Has server servers = Exists (λ s. s ≡ server) servers

pub record UpstreamLaws {Server Config Upstream : Type 0} (api : UpstreamApi Server Config Upstream)
    : Type 0 where
  pub name-make :
      (name : String) (c : Config) (xs : List Server) → api.name (api.make name c xs) ≡ name
  pub config-make :
      (name : String) (c : Config) (xs : List Server) → api.config (api.make name c xs) ≡ c
  pub servers-make :
      (name : String) (c : Config) (xs : List Server) → api.servers (api.make name c xs) ≡ xs
  pub name-update : (old new : Upstream) → api.name (api.update old new) ≡ api.name old
  pub config-update : (old new : Upstream) → api.config (api.update old new) ≡ api.config new
  pub servers-update :
      (old new : Upstream) (s : Server)
      → Has s (api.servers (api.update old new)) ↔ Has s (api.servers new)
  pub name-set_servers :
      (xs : List Server) (u : Upstream) → api.name (api.set_servers xs u) ≡ api.name u
  pub config-set_servers :
      (xs : List Server) (u : Upstream) → api.config (api.set_servers xs u) ≡ api.config u
  pub servers-set_servers :
      (xs : List Server) (u : Upstream) → api.servers (api.set_servers xs u) ≡ xs
  pub has-shuffle : (n : ℕ) (xs : List Server) (s : Server) → Has s (api.shuffle n xs) ↔ Has s xs

module _ {Server Config Upstream : Type 0} (api : UpstreamApi Server Config Upstream) where
  -- two upstreams with the same name, config and servers
  pub record Same (u v : Upstream) : Type 0 where
    pub name : api.name u ≡ api.name v
    pub config : api.config u ≡ api.config v
    pub servers : (s : Server) → Has s (api.servers u) ↔ Has s (api.servers v)

  abbrev pub SameAt : Option Upstream → Option Upstream → Type 0
  SameAt none none = Unit
  SameAt none (some v) = ⊥
  SameAt (some u) none = ⊥
  SameAt (some u) (some v) = Same u v

  -- what a store leaves under its key
  abbrev pub stored : Option Upstream → Upstream → Upstream
  stored none u = u
  stored (some current) u = api.update current u

  pub lookup-store :
      (key j : String) (current : Option Upstream) (u : Upstream) (d : Dict Upstream)
      → lookup j (store api current key u d)
        ≡ (if key == j then some (stored current u) else lookup j d)
  unfolding store
  lookup-store key j none u d = lookup-insert key j u d
  lookup-store key j (some current) u d = lookup-insert key j (api.update current u) d
