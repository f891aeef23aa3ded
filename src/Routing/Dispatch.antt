-- ===== src/Routing/Dispatch.antt =====
-- frontik/routing.py: `find_route`, with the routes that answer when no route of the table does.
use frontik.Prelude.{
  String, Option, none, some, List, [], ◌∷◌, ◌==◌, if◌then◌else◌, last?, elem, ◌+++◌, upper,
}
use frontik.Routing.{
  BaseRoute, api, other, Methods, Matcher, Scope, Table, Found, found, index_error, assertion_error,
  allow, with_endpoint, find_fastapi_route_exact, get_allowed_methods, strip_path,
}

module _ {Child : Type 0} (matches : Matcher Child) where
  unfoldable pub answer_preflight : Option BaseRoute → String → Scope Child → Methods → Found Child
  unfolding with_endpoint allow
  answer_preflight none method scope methods = index_error
  answer_preflight (some (other i)) method scope methods =
      found (record scope { route = some (other i) }) methods
  answer_preflight (some (api r)) method scope methods =
      found (with_endpoint (record scope { route = some (api r) }) (api r)) (allow r method methods)

  unfoldable pub answer_unmatched : Option BaseRoute → String → Scope Child → Methods → Found Child
  unfolding with_endpoint allow
  answer_unmatched none method scope methods = index_error
  answer_unmatched (some (other i)) method scope methods = assertion_error
  answer_unmatched (some (api r)) method scope methods =
      found (with_endpoint (record scope { route = some (api r) }) (api r))
        (if elem method (methods r.id) then methods else allow r method methods)

  -- the branch on `len(allowed_methods) > 0`
  unfoldable pub answer_allowed : List String → Table → String → Scope Child → Methods → Found Child
  unfolding answer_unmatched
  answer_allowed [] table method scope methods =
      answer_unmatched (last? table.not_found) method scope methods
  answer_allowed (m ∷ ms) table method scope methods =
      answer_unmatched (last? table.method_not_allowed) method
        (record scope { allowed_methods = some (m ∷ ms) }) methods

  -- the branch `if route is None` with its two routers
  unfoldable pub answer_error : Table → String → Scope Child → Methods → Found Child
  unfolding answer_allowed
  answer_error table method scope methods =
      answer_allowed (get_allowed_methods matches methods scope table.fastapi_routes) table method
        scope methods

  -- `find_route` from its OPTIONS test on
  unfoldable pub finish : Table → String → Scope Child → Option BaseRoute → Methods → Found Child
  unfolding answer_preflight answer_error with_endpoint
  finish table method scope (some route) methods = found (with_endpoint scope route) methods
  finish table method scope none methods =
      if method == "OPTIONS"
      then answer_preflight (last? table.preflight) method scope methods
      else answer_error table method scope methods

  -- The searches at the head of `find_route`: a table of its own is searched twice.
  unfoldable pub search :
      Table → Methods → Scope Child → Option (List BaseRoute) → Scope Child × Option BaseRoute
  unfolding find_fastapi_route_exact
  search table methods scope none =
      find_fastapi_route_exact matches methods scope table.fastapi_routes
  search table methods scope (some routes) =
      find_fastapi_route_exact matches methods
        (find_fastapi_route_exact matches methods scope routes).0 routes

  -- the scope of a request, whose path has been stripped
  unfoldable pub request_scope : String → String → String → Scope Child
  request_scope path method prefix = record {
    path = prefix +++ path;
    method = upper method;
    child = none;
    route = none;
    allowed_methods = none;
    endpoint = none;
  }

  -- the call `find_route(path, 'GET', fastapi_routes)`, which does not come to the HEAD branch
  unfoldable pub find_get : Table → Methods → String → Option (List BaseRoute) → Found Child
  unfolding search finish request_scope strip_path
  find_get table methods path routes =
      let (scope, route) = search table methods (request_scope (strip_path path) "GET" "") routes in
      finish table "GET" scope route methods

  -- the HEAD branch, from the scope of that call and its route
  unfoldable pub answer_head_route : Table → Scope Child → Methods → Option BaseRoute → Found Child
  unfolding finish
  answer_head_route table scope methods (some (api r)) =
      finish table "HEAD" scope (some (api r)) (allow r "HEAD" methods)
  answer_head_route table scope methods route = finish table "HEAD" scope route methods

  unfoldable pub answer_head : Table → Found Child → Found Child
  unfolding answer_head_route
  answer_head table index_error = index_error
  answer_head table assertion_error = assertion_error
  answer_head table (found scope methods) =
      answer_head_route table (record scope { method = "HEAD" }) methods scope.route

  -- the branches on `route`
  unfoldable pub dispatch :
      Table
      → Methods
      → (path method : String) → Option (List BaseRoute)
      → Scope Child
      → Option BaseRoute
      → Found Child
  unfolding find_get answer_head
  dispatch table methods path method routes scope (some r) =
      finish table method scope (some r) methods
  dispatch table methods path method routes scope none =
      if method == "HEAD"
      then answer_head table (find_get table methods path routes)
      else finish table method scope none methods

  -- `find_route` behind the lines that strip its path
  unfoldable pub find_stripped :
      Table → Methods → (path method : String) → Option (List BaseRoute) → String → Found Child
  unfolding dispatch
  find_stripped table methods path method routes prefix =
      let (scope, route) = search table methods (request_scope path method prefix) routes in
      dispatch table methods path method routes scope route

  unfoldable pub find_route :
      Table → Methods → (path method : String) → Option (List BaseRoute) → String → Found Child
  unfolding find_stripped
  find_route table methods path method routes prefix =
      find_stripped table methods (strip_path path) method routes prefix
