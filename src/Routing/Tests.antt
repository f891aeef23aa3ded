-- ===== src/Routing/Tests.antt =====
-- A small table of routes, and the theorems on frontik/routing.py at requests to it.
use frontik.Prelude.{
  inl, inr, ℕ, String, ◌≡◌, refl, none, some, Bool, true, false, ◌||◌, ◌==◌, eq_iff, if◌then◌else◌,
  elem, List, [], ◌∷◌, All, eqb, upper,
}
use frontik.Routing.{
  BaseRoute, ApiRoute, api, other, Methods, Matcher, Match, no_match, partial, full, Scope, Table,
  found, allow, with_endpoint, find_fastapi_route_exact, get_allowed_methods, sort_routes, key_lt,
  get_route_sort_key,
}
use frontik.Routing.Dispatch.{find_route, request_scope}
use frontik.Routing.Order.{IsExactTaker, find_fastapi_route_exact-HasParams}
use frontik.Routing.Head.{find_route-head, HasHead}
use frontik.Routing.Answers.{IsReady, Outcome, find_route-Outcome}

abbrev route : ℕ → String → String → ApiRoute
route id path endpoint = record { id = id; path_format = path; endpoint = endpoint }

abbrev user : ApiRoute
user = route 1 "/user/{id}" "pages.user"

abbrev me : ApiRoute
me = route 2 "/user/me" "pages.me"

abbrev missing : ApiRoute
missing = route 7 "/404" "pages.missing"

abbrev refused : ApiRoute
refused = route 8 "/405" "pages.refused"

abbrev options : ApiRoute
options = route 9 "/options" "pages.options"

abbrev sets : Methods
sets i = if eqb i 1 then "GET" ∷ "POST" ∷ [] else if eqb i 2 then "GET" ∷ [] else []

-- Starlette's match of the two paths
abbrev fits : String → String → Bool
fits format path =
    if format == "/user/{id}" then path == "/user/me" || path == "/user/7" else format == path

abbrev answer : Bool → Bool → Match Unit
answer false has = no_match
answer true true = full tt
answer true false = partial tt

abbrev matches : Matcher Unit
matches (api r) methods path method = answer (fits r.path_format path) (elem method methods)
matches (other i) methods path method = no_match

abbrev routes : List BaseRoute
routes = api user ∷ other 3 ∷ api me ∷ []

abbrev table : Table
table = record {
  fastapi_routes = sort_routes routes;
  not_found = api missing ∷ [];
  method_not_allowed = api refused ∷ [];
  preflight = api options ∷ [];
}

all_routing : Unit {0}
unfolding find_route sort_routes key_lt get_route_sort_key allow get_allowed_methods
    find_fastapi_route_exact elem with_endpoint upper
all_routing = tt

sorted : sort_routes routes ≡ api me ∷ api user ∷ other 3 ∷ []
unfolding all_routing
sorted = refl

-- "/user/me" is taken by its exact route, "/user/7" by the route with a parameter.
get_tests :
    ((find_route matches table sets "/user/me/" "GET" none "")
      ≡ found
          (record {
            path = "/user/me";
            method = "GET";
            child = some tt;
            route = some (api me);
            allowed_methods = none;
            endpoint = some "pages.me";
          })
          sets)
    × ((find_route matches table sets "/user/7" "post" none "")
        ≡ found
            (record {
              path = "/user/7";
              method = "POST";
              child = some tt;
              route = some (api user);
              allowed_methods = none;
              endpoint = some "pages.user";
            })
            sets)
unfolding all_routing
get_tests = (refl, refl)

table-IsReady : IsReady table
table-IsReady = record {
  not_found = missing;
  not_found_last = refl;
  method_not_allowed = refused;
  method_not_allowed_last = refl;
  preflight = options;
  preflight_last = refl;
}

find_route-Outcome_example : Outcome matches table table-IsReady sets "/user/7" "DELETE" ""
find_route-Outcome_example =
    find_route-Outcome matches table table-IsReady sets "/user/7" "DELETE" ""
      (λ e. cc (e, (eq_iff "DELETE" "HEAD").1 e))

abbrev request : String → String → Scope Unit
request path method = request_scope matches path method ""

find_fastapi_route_exact-HasParams_example :
    All (λ r. ¬ IsExactTaker matches sets (request "/user/7" "POST") r) (sort_routes routes)
unfolding all_routing request_scope
find_fastapi_route_exact-HasParams_example =
    find_fastapi_route_exact-HasParams matches sets (request "/user/7" "POST") user routes refl refl

find_route-head_example :
    (new : Methods) × (find_route matches table sets "/user/7" "HEAD" none ""
      ≡ found
          (record {
            path = "/user/7";
            method = "HEAD";
            child = some tt;
            route = some (api user);
            allowed_methods = none;
            endpoint = some "pages.user";
          })
          new)
    × HasHead matches table sets "/user/7" user new
unfolding all_routing request_scope
find_route-head_example =
    find_route-head matches table sets "/user/7" "" user tt
      ((λ c t. cc (t.1)), ((λ c t. cc (t.0)), ((λ c t. cc (t.1)), tt)))
      (inr ((λ c t. cc (t.1)), inl (refl, (refl, refl))))
