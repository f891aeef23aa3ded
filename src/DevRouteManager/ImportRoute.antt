-- ===== src/DevRouteManager/ImportRoute.antt =====
-- frontik/dev_route_manager.py: `import_route`, which imports the page of a request before the
-- request is served. The fake routes are route objects of frontik/routing.py whose ids follow
-- `first_id`; the method sets of all other route objects are passed along.
pub mod Wanted
use frontik.Prelude.{
  Bool, ℕ, ◌+◌, String, Option, none, some, List, [], ◌∷◌, ◌==◌, eqb, if◌then◌else◌, upper,
}
use frontik.Routing.{
  ApiRoute, BaseRoute, api, Methods, Matcher, Scope, Table, Found, found, index_error,
  assertion_error,
}
use frontik.Routing.Dispatch.{find_route}
use frontik.DevRouteManager.{FastapiRoute, Tables, DevRouteManager, import_module, sort_tables}

-- the route that `add_fake_route` makes: its endpoint is the function of `make_route_endpoint`
unfoldable pub fake_object : ℕ → FastapiRoute → ApiRoute
fake_object id route = record {
  id = id;
  path_format = route.path_format;
  endpoint = "route_endpoint";
}

pub fake_objects : ℕ → List FastapiRoute → List BaseRoute
unfolding fake_object
fake_objects n [] = []
fake_objects n (route ∷ routes) = api (fake_object n route) ∷ fake_objects (n + 1) routes

-- the method sets, with those of the fake routes
pub held_methods : ℕ → List FastapiRoute → Methods → Methods
held_methods n [] methods i = methods i
held_methods n (route ∷ routes) methods i =
    if eqb i n then route.methods else held_methods (n + 1) routes methods i

-- the fake routes, with the methods that a search has left them
pub with_methods : ℕ → Methods → List FastapiRoute → List FastapiRoute
with_methods n methods [] = []
with_methods n methods (route ∷ routes) =
    record route { methods = methods n } ∷ with_methods (n + 1) methods routes

-- what the endpoint of the fake route `i` returns
pub module_of : ℕ → List FastapiRoute → ℕ → Option String
module_of n [] i = none
module_of n (route ∷ routes) i =
    if eqb i n then some route.module_name else module_of (n + 1) routes i

-- `scope['endpoint']()`, if `scope['endpoint'].__name__ == 'route_endpoint'`
pub endpoint_module : {Child : Type 0} → ℕ → List FastapiRoute → Scope Child → Option String
unfolding module_of
endpoint_module n routes scope = answer scope.endpoint scope.route
  where
    answer : Option String → Option BaseRoute → Option String
    answer (some name) (some (api r)) =
        if name == "route_endpoint" then module_of n routes r.id else none
    answer _ _ = none

-- `objects` makes the route objects of routing.py, which keep their methods, of its lists; `imports`
-- tells whether a module can be imported behind those that are imported, and `none` is an exception
module _ {Child : Type 0} (matches : Matcher Child) (objects : Tables → Table) (first_id : ℕ)
    (load : List String → String → Tables → Tables) (walk : String → Option (List String))
    (imports : List String → String → Bool) where
  pub import_endpoint : Option String → DevRouteManager → Option DevRouteManager
  unfolding import_module
  import_endpoint none d = some d
  import_endpoint (some name) d =
      if imports d.imported name then some (import_module load walk name d) else none

  pub sorted : Methods → Option DevRouteManager → Option (Methods × DevRouteManager)
  unfolding sort_tables
  sorted methods none = none
  sorted methods (some d) = some (methods, sort_tables load walk d)

  pub import_found : Found Child → DevRouteManager → Option (Methods × DevRouteManager)
  unfolding with_methods endpoint_module import_endpoint sorted
  import_found index_error d = none
  import_found assertion_error d = none
  import_found (found scope methods) d = sorted methods (
      import_endpoint (endpoint_module first_id d.fake_routes scope)
        (record d { fake_routes = with_methods first_id methods d.fake_routes }))

  unfoldable pub import_route :
      Methods → (path method : String) → DevRouteManager → Option (Methods × DevRouteManager)
  unfolding find_route fake_objects held_methods import_found
  import_route methods path method d =
      import_found
        (find_route matches (objects d.tables) (held_methods first_id d.fake_routes methods) path
          (upper method) (some (fake_objects first_id d.fake_routes)) "/fake")
        d
