-- ===== src/DevRouteManager/ImportRoute/Wanted.antt =====
-- What `import_route` of frontik/dev_route_manager.py imports.
use frontik.Prelude.{
  Bool-cases, ℕ, ◌+◌, ◌<◌, ◌≤◌, String, Bool, true, false, Option, none, some, List, [], ◌∷◌, eqb,
  if◌then◌else◌, ◌+++◌, upper, elem, ◌≡◌, refl, sym, ◌∙◌, ap, inl, inr, arith,
}
use frontik.Routing.{
  api, Methods, methods_of, lacks_method, Match, no_match, partial, full, Matcher, Scope, Table,
  strip_path, with_endpoint,
}
use frontik.Routing.Dispatch.{request_scope}
use frontik.Routing.Search.{Takes, IsFirst}
use frontik.Routing.Own.{find_route-IsFirst}
use frontik.DevRouteManager.{FastapiRoute, Tables, DevRouteManager, import_module, sort_tables}
use frontik.DevRouteManager.ImportRoute.{
  fake_object, fake_objects, held_methods, with_methods, module_of, endpoint_module,
  import_endpoint, import_found, import_route, sorted,
}

-- the first fake route that has the method and matches in full
abbrev pub wanted :
    {Child : Type 0}
    → Matcher Child
    → ℕ
    → (path method : String) → List FastapiRoute
    → Option FastapiRoute
wanted matches n path method [] = none
wanted matches n path method (route ∷ routes) =
    let rest = wanted matches (n + 1) path method routes in
    if elem method route.methods
    then elim (matches (api (fake_object n route)) route.methods path method) [
      | full child ↦ some route
      | _ ↦ rest
    ]
    else rest

-- The sets of the fake routes are those of the list.
abbrev Holds : ℕ → List FastapiRoute → Methods → Type 0
Holds n [] methods = Unit
Holds n (route ∷ routes) methods = (methods n ≡ route.methods) × Holds (n + 1) routes methods

below-Holds :
    (n m : ℕ) (routes : List FastapiRoute) (methods old : Methods)
    → n < m
    → Holds m routes methods
    → Holds m routes (λ i. if eqb i n then old i else methods i)
below-Holds n m [] methods old h held = tt
below-Holds n m (route ∷ routes) methods old h (here, held) =
    (ground arith, below-Holds n (m + 1) routes methods old (omega arith) held)

held_methods-Holds :
    (n : ℕ) (routes : List FastapiRoute) (methods : Methods)
    → Holds n routes (held_methods n routes methods)
unfolding held_methods
held_methods-Holds n [] methods = tt
held_methods-Holds n (route ∷ routes) methods = (
  ground arith,
  below-Holds n (n + 1) routes (held_methods (n + 1) routes methods) (λ i. route.methods)
      (omega arith) (held_methods-Holds (n + 1) routes methods),
)

with_methods-Holds :
    (n : ℕ) (routes : List FastapiRoute) (methods : Methods)
    → Holds n routes methods
    → with_methods n methods routes ≡ routes
unfolding with_methods
with_methods-Holds n [] methods held = refl
with_methods-Holds n (route ∷ routes) methods (here, held) =
    rw (here, with_methods-Holds (n + 1) routes methods held)

-- the search of the fake routes, where `wanted` finds one
module _ {Child : Type 0} (matches : Matcher Child) where
  abbrev pub Finds : ℕ → List FastapiRoute → Methods → Scope Child → FastapiRoute → Type 0
  Finds n routes methods scope route =
      (i : ℕ) × (child : Child) × (n ≤ i)
      × (module_of n routes i ≡ some route.module_name)
      × IsFirst matches methods scope (api (fake_object i route)) child (fake_objects n routes)

  later :
      (n : ℕ) (r : FastapiRoute) (rs : List FastapiRoute) (methods : Methods) (scope : Scope Child)
      (route : FastapiRoute)
      → ((c : Child) → ¬ Takes matches methods scope (api (fake_object n r)) c)
      → Finds (n + 1) rs methods scope route
      → Finds n (r ∷ rs) methods scope route
  unfolding module_of fake_objects
  later n r rs methods scope route not_taken (i, child, least, named, first) =
      (i, child, omega arith, ground arith, inr (not_taken, first))

  wanted-Finds :
      (n : ℕ) (routes : List FastapiRoute) (methods : Methods) (scope : Scope Child)
      (route : FastapiRoute)
      → Holds n routes methods
      → wanted matches n scope.path scope.method routes ≡ some route
      → Finds n routes methods scope route
  unfolding fake_objects fake_object lacks_method methods_of module_of
  wanted-Finds n [] methods scope route held h = ground arith
  wanted-Finds n (r ∷ rs) methods scope route (here, held) h =
      go (λ k. wanted-Finds (n + 1) rs methods scope route held k) (elem scope.method r.methods)
        refl (matches (api (fake_object n r)) r.methods scope.path scope.method) refl
    where
      go :
          (wanted matches (n + 1) scope.path scope.method rs ≡ some route
            → Finds (n + 1) rs methods scope route)
          → (b : Bool) → elem scope.method r.methods ≡ b
          → (m : Match Child)
          → matches (api (fake_object n r)) r.methods scope.path scope.method ≡ m
          → Finds n (r ∷ rs) methods scope route
      go rest false b m e = later n r rs methods scope route (λ k t. cc) (rest (ground (arith, h)))
      go rest true b no_match e =
          later n r rs methods scope route (λ k t. cc) (rest (ground (arith, h)))
      go rest true b (partial c) e =
          later n r rs methods scope route (λ k t. cc) (rest (ground (arith, h)))
      go rest true b (full c) e =
          let same : r ≡ route = ground (arith, h) in
          (
            n,
            c,
            omega arith,
            ground arith,
            inl (ap (λ x. api (fake_object n x)) same, (rw (here, b), rw (here, sym same) e)),
          )

module _ {Child : Type 0} (matches : Matcher Child) (objects : Tables → Table) (first_id : ℕ)
    (load : List String → String → Tables → Tables) (walk : String → Option (List String))
    (imports : List String → String → Bool) where
  -- When a fake route has the method of the request and matches its path below `/fake`, then
  -- `import_route` imports the module of the first such route: if the import raises, so does the
  -- call, and otherwise it returns, with the lists of routing.py as the import has left them and
  -- `_fastapi_routes` sorted, and with the fake routes, their methods, the cache and the file as they
  -- were.
  pub import_route-wanted :
      (methods : Methods) (path method : String) (d : DevRouteManager) (route : FastapiRoute)
      → wanted matches first_id ("/fake" +++ strip_path path) (upper (upper method)) d.fake_routes
        ≡ some route
      → import_route matches objects first_id load walk imports methods path method d ≡ (
          if imports d.imported route.module_name
          then some (
            held_methods first_id d.fake_routes methods,
            sort_tables load walk (import_module load walk route.module_name d),
          )
          else none)
  unfolding import_route import_found endpoint_module with_endpoint import_endpoint request_scope
      sorted
  import_route-wanted methods path method d route h =
      let all : Methods = held_methods first_id d.fake_routes methods in
      let held : Holds first_id d.fake_routes all =
        held_methods-Holds first_id d.fake_routes methods in
      let (i, child, least, named, first) =
        wanted-Finds matches first_id d.fake_routes all
          (request_scope matches (strip_path path) (upper method) "/fake") route held h in
      ap (λ answer. import_found matches objects first_id load walk imports answer d)
        (find_route-IsFirst matches (objects d.tables) all path (upper method)
          (fake_objects first_id d.fake_routes) "/fake" (fake_object i route) child first)
      ∙ rw (named, with_methods-Holds first_id d.fake_routes all held)
          (elim (Bool-cases (imports d.imported route.module_name)) [
            | inl ends ↦ rw ends refl
            | inr fails ↦ rw fails refl
          ])
