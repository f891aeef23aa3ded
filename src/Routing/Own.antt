-- ===== src/Routing/Own.antt =====
-- A search in a table of the caller, `find_route(..., fastapi_routes, prefix)` of
-- frontik/routing.py, which goes over the table twice.
use frontik.Prelude.{String, ◌≡◌, ◌∙◌, ap, inl, inr, some, List, [], ◌∷◌}
use frontik.Routing.{
  BaseRoute, ApiRoute, api, Methods, Matcher, Scope, Table, found, find_fastapi_route_exact,
  with_endpoint, strip_path,
}
use frontik.Routing.Dispatch.{finish, search, request_scope, dispatch, find_stripped, find_route}
use frontik.Routing.Search.{IsFirst, with_match, head_cases}

module _ {Child : Type 0} (matches : Matcher Child) where
  -- the search returns the first route that takes the request
  pub find_fastapi_route_exact-IsFirst :
      (methods : Methods) (scope : Scope Child) (route : BaseRoute) (child : Child)
      (routes : List BaseRoute)
      → IsFirst matches methods scope route child routes
      → find_fastapi_route_exact matches methods scope routes
        ≡ (with_match matches scope route child, some route)
  find_fastapi_route_exact-IsFirst methods scope route child [] h = elim h [ ]
  find_fastapi_route_exact-IsFirst methods scope route child (r ∷ rs) (inl (same, taken)) =
      unfold find_fastapi_route_exact in
      rw (same, taken.0, taken.1) (ap (λ x. (with_match matches scope x child, some x)) same)
  find_fastapi_route_exact-IsFirst methods scope route child (r ∷ rs) (inr (not_taken, later)) =
      elim (head_cases matches methods scope r rs) [
        | inl (c, taken, hit) ↦ elim (not_taken c taken) [ ]
        | inr (none_taken, skipped) ↦
            skipped ∙ find_fastapi_route_exact-IsFirst methods scope route child rs later
      ]

  -- `find_route` returns the route of the table that takes the request, and no method set changes
  pub find_route-IsFirst :
      (table : Table) (methods : Methods) (path method : String) (routes : List BaseRoute)
      (prefix : String) (r : ApiRoute) (child : Child)
      → IsFirst matches methods
          (request_scope matches (strip_path path) method prefix)
          (api r)
          child
          routes
      → find_route matches table methods path method (some routes) prefix
        ≡ found
            (with_endpoint
              (with_match matches
                (request_scope matches (strip_path path) method prefix)
                (api r)
                child)
              (api r))
            methods
  unfolding find_route find_stripped dispatch search finish
  find_route-IsFirst table methods path method routes prefix r child h = rw (
    find_fastapi_route_exact-IsFirst methods (request_scope matches (strip_path path) method prefix)
        (api r) child routes h,
    find_fastapi_route_exact-IsFirst methods
        (with_match matches (request_scope matches (strip_path path) method prefix) (api r) child)
        (api r) child routes h,
  )
