-- ===== src/Routing.antt =====
-- frontik/routing.py: routes, their order, the route tables and the search for a request's route.
-- A route object is an `id` into `Methods`, which holds the set `route.methods` of each route, since
-- `find_route` adds methods to routes that other tables share. `route.matches` is Starlette's, and
-- is the parameter `matches`.
pub mod Paths
pub mod Order
pub mod Search
pub mod Head
pub mod Find
pub mod Answers
pub mod Dispatch
pub mod Own
mod Tests
use frontik.Prelude.{
  ℕ, String, Option, none, some, Bool, true, false, not, ◌&&◌, List, [], ◌∷◌, map, ◌==◌, ltb, eqb,
  if◌then◌else◌, length, any, has_char, ends_with_char, rstrip_char, split_char, is_empty, elem,
  add, update,
}

pub record ApiRoute : Type 0 where
  pub id : ℕ
  pub path_format : String
  pub endpoint : String

-- `isinstance(route, APIRoute)`, or a mount or another Starlette route
pub data BaseRoute : Type 0 where
  api : ApiRoute → BaseRoute
  other : ℕ → BaseRoute

pub is_param_segment : String → Bool
is_param_segment segment = has_char b'{' segment

non_empty : List String → List String
non_empty [] = []
non_empty (s ∷ ss) = let rest = non_empty ss in if is_empty s then rest else s ∷ rest

-- `[s for s in route.path_format.split('/') if s]`
pub segments_of : String → List String
unfolding non_empty
segments_of path = non_empty (split_char b'/' path)

-- The sort key `(group, -segments, flags)`; `segments` is held without its sign.
pub record SortKey : Type 0 where
  pub group : ℕ
  pub segments : ℕ
  pub flags : List Bool

unfoldable pub get_route_sort_key : BaseRoute → SortKey
unfolding is_param_segment segments_of
get_route_sort_key (other i) = record { group = 3; segments = 0; flags = [] }
get_route_sort_key (api route) =
    let segments = segments_of route.path_format in
    if any is_param_segment segments
    then record { group = 2; segments = length segments; flags = map is_param_segment segments }
    else record { group = 1; segments = length segments; flags = [] }

-- Python's `<` on tuples of Booleans
flags_lt : List Bool → List Bool → Bool
flags_lt xs [] = false
flags_lt [] (y ∷ ys) = true
flags_lt (false ∷ xs) (true ∷ ys) = true
flags_lt (true ∷ xs) (false ∷ ys) = false
flags_lt (_ ∷ xs) (_ ∷ ys) = flags_lt xs ys

-- Python's `<` on the key tuples: a longer path has the smaller second component
unfoldable pub key_lt : SortKey → SortKey → Bool
unfolding flags_lt
key_lt a b =
    if ltb a.group b.group
    then true
    else if ltb b.group a.group
    then false
    else if ltb b.segments a.segments
    then true
    else if ltb a.segments b.segments
    then false
    else flags_lt a.flags b.flags

-- `list.sort(key=get_route_sort_key)`, which is stable: a route goes in front of the first later one
-- that is not smaller
pub insert_route : BaseRoute → List BaseRoute → List BaseRoute
insert_route r [] = r ∷ []
insert_route r (s ∷ rs) =
    let rest = insert_route r rs in
    if key_lt (get_route_sort_key s) (get_route_sort_key r) then s ∷ rest else r ∷ s ∷ rs

unfoldable pub sort_routes : List BaseRoute → List BaseRoute
unfolding insert_route
sort_routes [] = []
sort_routes (r ∷ rs) = insert_route r (sort_routes rs)

-- the first lines of `add_api_route`, `add_route` and `find_route`
unfoldable pub strip_path : String → String
strip_path path =
    if ends_with_char b'/' path && not (path == "/") then rstrip_char b'/' path else path

-- `route.methods`, for each route object
abbrev pub Methods : Type 0
Methods = ℕ → List String

unfoldable pub methods_of : Methods → BaseRoute → List String
methods_of methods (api r) = methods r.id
methods_of methods (other i) = []

-- `route.methods.add(method)`
unfoldable pub allow : ApiRoute → String → Methods → Methods
allow r method methods i = if eqb i r.id then add method (methods i) else methods i

-- What `route.matches(scope)` returns, with the child scope.
pub data Match (Child : Type 0) : Type 0 where
  no_match : Match Child
  partial full : Child → Match Child

abbrev pub Matcher : Type 0 → Type 0
Matcher Child = BaseRoute → List String → (path method : String) → Match Child

-- `_fastapi_routes`, and the routes of the three routers that answer when no route fits
pub record Table : Type 0 where
  pub fastapi_routes : List BaseRoute
  pub not_found : List BaseRoute
  pub method_not_allowed : List BaseRoute
  pub preflight : List BaseRoute

-- `child` holds the keys that `scope.update(child_scope)` adds.
pub record Scope (Child : Type 0) : Type 0 where
  pub path : String
  pub method : String
  pub child : Option Child
  pub route : Option BaseRoute
  pub allowed_methods : Option (List String)
  pub endpoint : Option String

-- `find_route` returns the scope and leaves the method sets changed, or raises.
pub data Found (Child : Type 0) : Type 0 where
  found : Scope Child → Methods → Found Child
  index_error assertion_error : Found Child

-- `isinstance(route, APIRoute) and scope['method'] not in route.methods`
unfoldable pub lacks_method : Methods → String → BaseRoute → Bool
lacks_method methods method (api r) = not (elem method (methods r.id))
lacks_method methods method (other i) = false

abbrev matched : {Child : Type 0} → Scope Child → BaseRoute → Child → Scope Child
matched scope route child = record scope { child = some child; route = some route }

-- `if isinstance(route, APIRoute): scope['endpoint'] = route.endpoint`
unfoldable pub with_endpoint : {Child : Type 0} → Scope Child → BaseRoute → Scope Child
with_endpoint scope (api r) = record scope { endpoint = some r.endpoint }
with_endpoint scope (other i) = scope

module _ {Child : Type 0} (matches : Matcher Child) where
  unfoldable pub find_fastapi_route_exact :
      Methods → Scope Child → List BaseRoute → Scope Child × Option BaseRoute
  unfolding lacks_method methods_of
  find_fastapi_route_exact methods scope [] = (scope, none)
  find_fastapi_route_exact methods scope (route ∷ routes) =
      let rest = find_fastapi_route_exact methods scope routes in
      if lacks_method methods scope.method route
      then rest
      else elim (matches route (methods_of methods route) scope.path scope.method) [
        | full child ↦ (matched scope route child, some route)
        | _ ↦ rest
      ]

  -- the methods of one round of the loop of `_find_fastapi_route_partial`
  pub partial_methods : Methods → Scope Child → BaseRoute → List String
  partial_methods methods scope (other i) = []
  partial_methods methods scope (api r) =
      if elem "OPTIONS" (methods r.id)
      then []
      else elim (matches (api r) (methods r.id) scope.path scope.method) [
        | partial child ↦ methods r.id
        | _ ↦ []
      ]

  find_partial_from : List String → Methods → Scope Child → List BaseRoute → List String
  unfolding partial_methods
  find_partial_from result methods scope [] = result
  find_partial_from result methods scope (route ∷ routes) =
      find_partial_from (update result (partial_methods methods scope route)) methods scope routes

  -- `_find_fastapi_route_partial`, and `get_allowed_methods`, which lists its set
  unfoldable pub get_allowed_methods : Methods → Scope Child → List BaseRoute → List String
  unfolding find_partial_from
  get_allowed_methods methods scope routes = find_partial_from [] methods scope routes
