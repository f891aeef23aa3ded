-- ===== src/Routing/Answers.antt =====
-- The route that `find_route` of frontik/routing.py answers with, for every kind of request.
use frontik.Prelude.{
  ap, Exists, ◌↔◌, String, ◌≡◌, ◌≢◌, refl, ◌∙◌, inl, inr, Option, none, some, true, false, ◌==◌,
  eq_iff, eq_refl, arith, elem, elem-add, List, [], ◌∷◌, Bool-cases, last?,
}
use frontik.Routing.{
  BaseRoute, ApiRoute, api, Methods, Matcher, Scope, Table, Found, found, allow, with_endpoint,
  find_fastapi_route_exact, get_allowed_methods, strip_path,
}
use frontik.Routing.Dispatch.{
  answer_preflight, answer_unmatched, answer_error, answer_allowed, finish, search, request_scope,
  dispatch, find_stripped, find_route,
}
use frontik.Routing.Search.{
  IsFirst, with_match, find_fastapi_route_exact_lem, NoneTakes, Offers, elem-get_allowed_methods,
}

-- The call returns a scope with the API route `r`, its endpoint and the list of allowed methods, and
-- leaves `method` among the methods of `r`.
abbrev pub Answers :
    {Child : Type 0} → Found Child → ApiRoute → String → Option (List String) → Type 0
Answers {Child} result r method allowed =
    (scope : Scope Child) × (new : Methods) × (result ≡ found scope new)
    × (scope.route ≡ some (api r))
    × (scope.endpoint ≡ some r.endpoint)
    × (scope.allowed_methods ≡ allowed)
    × (elem method (new r.id) ≡ true)

-- The routers that answer when no route fits have their handlers: the last route of each.
pub record IsReady (table : Table) : Type 0 where
  pub not_found : ApiRoute
  pub not_found_last : last? table.not_found ≡ some (api not_found)
  pub method_not_allowed : ApiRoute
  pub method_not_allowed_last : last? table.method_not_allowed ≡ some (api method_not_allowed)
  pub preflight : ApiRoute
  pub preflight_last : last? table.preflight ≡ some (api preflight)

elem-allow_self :
    (r : ApiRoute) (method : String) (methods : Methods)
    → elem method (allow r method methods r.id) ≡ true
unfolding allow
elem-allow_self r method methods =
    ground (arith, elem-add method method (methods r.id), eq_refl method)

module _ {Child : Type 0} (matches : Matcher Child) where
  answer_preflight-Answers :
      (r : ApiRoute) (method : String) (scope : Scope Child) (methods : Methods)
      → Answers
          (answer_preflight matches (some (api r)) method scope methods)
          r
          method
          scope.allowed_methods
  unfolding answer_preflight with_endpoint
  answer_preflight-Answers r method scope methods =
      (_, _, refl, refl, refl, refl, elem-allow_self r method methods)

  answer_unmatched-Answers :
      (r : ApiRoute) (method : String) (scope : Scope Child) (methods : Methods)
      → Answers
          (answer_unmatched matches (some (api r)) method scope methods)
          r
          method
          scope.allowed_methods
  unfolding answer_unmatched with_endpoint
  answer_unmatched-Answers r method scope methods = (
    _,
    _,
    refl,
    refl,
    refl,
    refl,
    elim (Bool-cases (elem method (methods r.id))) [
      | inl has ↦ rw has has
      | inr new ↦ rw new (elem-allow_self r method methods)
    ],
  )

  module _ (table : Table) (ready : IsReady table) (methods : Methods)
      (path method prefix : String) where
    abbrev scope : Scope Child
    scope = request_scope matches (strip_path path) method prefix

    abbrev allowed : List String
    allowed = get_allowed_methods matches methods scope table.fastapi_routes

    abbrev result : Found Child
    result = find_route matches table methods path method none prefix

    -- What `find_route` answers, case by case.
    pub data Outcome : Type 0 where
      hit :
          (route : BaseRoute) (child : Child)
          → IsFirst matches methods scope route child table.fastapi_routes
          → result ≡ found (with_endpoint (with_match matches scope route child) route) methods
          → Outcome
      preflight :
          NoneTakes matches methods scope table.fastapi_routes
          → method ≡ "OPTIONS"
          → Answers result ready.preflight method none
          → Outcome
      not_found :
          NoneTakes matches methods scope table.fastapi_routes
          → method ≢ "OPTIONS"
          → ((m : String) → ¬ Exists (Offers matches methods scope m) table.fastapi_routes)
          → Answers result ready.not_found method none
          → Outcome
      method_not_allowed :
          NoneTakes matches methods scope table.fastapi_routes
          → method ≢ "OPTIONS"
          → (ms : List String) → ms ≢ []
          → ((m : String)
              → (elem m ms ≡ true) ↔ Exists (Offers matches methods scope m) table.fastapi_routes)
          → Answers result ready.method_not_allowed method (some ms)
          → Outcome

    -- when the search returns a route
    result_of_hit :
        (route : BaseRoute) (child : Child)
        → find_fastapi_route_exact matches methods scope table.fastapi_routes
          ≡ (with_match matches scope route child, some route)
        → result ≡ found (with_endpoint (with_match matches scope route child) route) methods
    unfolding find_route find_stripped search
    result_of_hit route child e = rw e (unfold dispatch finish in refl)

    -- when it returns none, for another method than HEAD
    result_of_miss :
        method ≢ "HEAD"
        → find_fastapi_route_exact matches methods scope table.fastapi_routes ≡ (scope, none)
        → result ≡ finish matches table method scope none methods
    unfolding find_route find_stripped search
    result_of_miss h e = rw e (unfold dispatch in ground (arith, eq_iff method "HEAD"))

    not_options : (method == "OPTIONS") ≡ false → method ≢ "OPTIONS"
    not_options h e = cc (h, (eq_iff method "OPTIONS").1 e)

    finish_options :
        (method == "OPTIONS") ≡ true
        → finish matches table method scope none methods
          ≡ answer_preflight matches (some (api ready.preflight)) method scope methods
    unfolding finish
    finish_options h = rw (h, ready.preflight_last)

    finish_not_found :
        (method == "OPTIONS") ≡ false
        → allowed ≡ []
        → finish matches table method scope none methods
          ≡ answer_unmatched matches (some (api ready.not_found)) method scope methods
    unfolding finish answer_error answer_allowed
    finish_not_found h e = rw h (rw e (rw ready.not_found_last))

    finish_not_allowed :
        (m : String) (ms : List String)
        → (method == "OPTIONS") ≡ false
        → allowed ≡ m ∷ ms
        → finish matches table method scope none methods
          ≡ answer_unmatched matches
              (some (api ready.method_not_allowed))
              method
              (record scope { allowed_methods = some allowed })
              methods
    unfolding finish answer_error answer_allowed
    finish_not_allowed m ms h e = rw h (rw e (rw ready.method_not_allowed_last))

    answers :
        {r : ApiRoute} {ms : Option (List String)} {answer : Found Child}
        → result ≡ finish matches table method scope none methods
        → finish matches table method scope none methods ≡ answer
        → Answers answer r method ms
        → Answers result r method ms
    answers {r} {ms} e k (s, new, same, route, endpoint, list, has) =
        (s, new, e ∙ k ∙ same, route, endpoint, list, has)

    offered :
        (m : String)
        → (elem m allowed ≡ true) ↔ Exists (Offers matches methods scope m) table.fastapi_routes
    offered m = elem-get_allowed_methods matches methods scope m table.fastapi_routes

    miss_outcome :
        NoneTakes matches methods scope table.fastapi_routes
        → result ≡ finish matches table method scope none methods
        → Outcome
    unfolding request_scope elem
    miss_outcome missed e = elim (Bool-cases (method == "OPTIONS")) [
      | inl options ↦ preflight missed ((eq_iff method "OPTIONS").0 options) (
          answers e (finish_options options)
            (answer_preflight-Answers ready.preflight method scope methods))
      | inr plain ↦ go plain allowed refl
    ]
      where
        go : (method == "OPTIONS") ≡ false → (ms : List String) → allowed ≡ ms → Outcome
        go plain [] empty =
            not_found missed (not_options plain) (λ m x. cc ((offered m).1 x, ap (elem m) empty))
              (answers e (finish_not_found plain empty)
                (answer_unmatched-Answers ready.not_found method scope methods))
        go plain (m ∷ ms) some_left =
            method_not_allowed missed (not_options plain) allowed (λ h. cc) offered
              (answers e (finish_not_allowed m ms plain some_left) (
                answer_unmatched-Answers ready.method_not_allowed method
                  (record scope { allowed_methods = some allowed }) methods))

    -- A request whose method is not HEAD, for the table of the application: it is answered by the first
    -- route of the table that takes it; if none takes it, by the preflight route for OPTIONS, by the
    -- not-found route when no API route without the method OPTIONS matches the path under another
    -- method, and otherwise by the method-not-allowed route, with a list of exactly the methods of
    -- those API routes in the scope. The last route of each of the three routers is its handler.
    pub find_route-Outcome : method ≢ "HEAD" → Outcome
    find_route-Outcome h =
        elim (find_fastapi_route_exact_lem matches methods scope table.fastapi_routes) [
          | inl (missed, none_takes) ↦ miss_outcome none_takes (result_of_miss h missed)
          | inr (route, child, e, first) ↦ hit route child first (result_of_hit route child e)
        ]
