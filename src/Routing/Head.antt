-- ===== src/Routing/Head.antt =====
-- HEAD requests that no route takes, in `find_route` of frontik/routing.py.
use frontik.Prelude.{
  ◌+++◌, ◌≢◌, ℕ, true, elem, elem-add, eq_refl, eq_iff, arith, ap, ◌⊎◌, inl, inr, Bool-cases, ◌==◌,
  String, ◌≡◌, refl, sym, ◌∙◌, Option, none, some, List,
}
use frontik.Routing.{
  BaseRoute, ApiRoute, api, Methods, Matcher, Scope, Table, found, allow, with_endpoint,
  find_fastapi_route_exact, strip_path,
}
use frontik.Routing.Dispatch.{
  finish, search, request_scope, find_get, answer_head, answer_head_route, dispatch, find_stripped,
  find_route,
}
use frontik.Routing.Search.{with_match, IsFirst, NoneTakes, find_fastapi_route_exact-NoneTakes}
use frontik.Routing.Own.{find_fastapi_route_exact-IsFirst}
use frontik.Routing.Paths.{strip_path_idem}

module _ {Child : Type 0} (matches : Matcher Child) (table : Table) (methods : Methods)
    (path : String) where
  abbrev pub get_scope : Scope Child
  get_scope = request_scope matches (strip_path path) "GET" ""

  find_route_of_head_miss :
      (prefix : String) (routes : Option (List BaseRoute))
      → (search matches table methods
          (request_scope matches (strip_path path) "HEAD" prefix)
          routes).1
        ≡ none
      → find_route matches table methods path "HEAD" routes prefix
        ≡ answer_head matches table (find_get matches table methods (strip_path path) routes)
  unfolding find_route find_stripped
  find_route_of_head_miss prefix routes e = rw e (unfold dispatch in refl)

  find_route_of_head :
      (prefix : String) (r : ApiRoute) (child : Child)
      → (find_fastapi_route_exact matches methods
          (request_scope matches (strip_path path) "HEAD" prefix)
          table.fastapi_routes).1
        ≡ none
      → find_fastapi_route_exact matches methods get_scope table.fastapi_routes
        ≡ (with_match matches get_scope (api r) child, some (api r))
      → find_route matches table methods path "HEAD" none prefix
        ≡ found
            (record (with_endpoint (with_match matches get_scope (api r) child) (api r)) {
              method = "HEAD";
            })
            (allow r "HEAD" methods)
  find_route_of_head prefix r child missed hit =
      find_route_of_head_miss prefix none (unfold search in missed)
      ∙ unfold find_get search finish answer_head answer_head_route in
        rw (strip_path_idem path) (rw hit (unfold with_endpoint in refl))

  -- the method sets after HEAD has been added to those of one route
  pub record HasHead (r : ApiRoute) (new : Methods) : Type 0 where
    pub has_head : elem "HEAD" (new r.id) ≡ true
    pub keeps : (m : String) → elem m (methods r.id) ≡ true → elem m (new r.id) ≡ true
    pub no_more :
        (m : String) → elem m (new r.id) ≡ true → (m ≡ "HEAD") ⊎ (elem m (methods r.id) ≡ true)
    pub others : (i : ℕ) → i ≢ r.id → new i ≡ methods i

  allow-HasHead : (r : ApiRoute) → HasHead r (allow r "HEAD" methods)
  unfolding allow
  allow-HasHead r = record {
    has_head = ground (arith, elem-add "HEAD" "HEAD" (methods r.id), eq_refl "HEAD");
    keeps = λ m h. ground (arith, elem-add m "HEAD" (methods r.id));
    no_more = λ m h. elim (Bool-cases (m == "HEAD")) [
      | inl e ↦ inl ((eq_iff m "HEAD").0 e)
      | inr e ↦ inr (ground (arith, elem-add m "HEAD" (methods r.id)))
    ];
    others = λ i h. ground arith;
  }

  -- A HEAD request that no route of the application's table takes, and whose path, without the
  -- prefix, an API route is the first to take under GET: it is answered by that route, with the
  -- method HEAD, the route and its endpoint in the scope, and from then on HEAD is one of that
  -- route's methods, which has no other new one, and no other method set changes.
  pub find_route-head :
      (prefix : String) (r : ApiRoute) (child : Child)
      → NoneTakes matches methods
          (request_scope matches (strip_path path) "HEAD" prefix)
          table.fastapi_routes
      → IsFirst matches methods get_scope (api r) child table.fastapi_routes
      → (new : Methods) × (find_route matches table methods path "HEAD" none prefix
          ≡ found
              (record {
                path = "" +++ strip_path path;
                method = "HEAD";
                child = some child;
                route = some (api r);
                allowed_methods = none;
                endpoint = some r.endpoint;
              })
              new)
        × HasHead r new
  unfolding with_endpoint request_scope
  find_route-head prefix r child none_takes first = (
    allow r "HEAD" methods,
    find_route_of_head prefix r child
        (ap (λ x. x.1)
          (find_fastapi_route_exact-NoneTakes matches methods
            (request_scope matches (strip_path path) "HEAD" prefix) table.fastapi_routes
            none_takes))
        (find_fastapi_route_exact-IsFirst matches methods get_scope (api r) child
          table.fastapi_routes first),
    allow-HasHead r,
  )

  -- A HEAD request that no route takes loses its prefix: in a table of its own it is answered as
  -- under any other prefix for which no route takes it.
  find_route-head_prefix :
      (routes : List BaseRoute) (prefix prefix' : String)
      → (search matches table methods
          (request_scope matches (strip_path path) "HEAD" prefix)
          (some routes)).1
        ≡ none
      → (search matches table methods
          (request_scope matches (strip_path path) "HEAD" prefix')
          (some routes)).1
        ≡ none
      → find_route matches table methods path "HEAD" (some routes) prefix
        ≡ find_route matches table methods path "HEAD" (some routes) prefix'
  find_route-head_prefix routes prefix prefix' h k =
      find_route_of_head_miss prefix (some routes) h
      ∙ sym (find_route_of_head_miss prefix' (some routes) k)
