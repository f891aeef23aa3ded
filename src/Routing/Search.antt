-- ===== src/Routing/Search.antt =====
-- The searches of frontik/routing.py: the first route that takes the request, and the methods that
-- would.
use frontik.Prelude.{
  ◌∙◌, String, ◌≡◌, refl, ◌⊎◌, ◌↔◌, inl, inr, none, some, Bool, true, false, arith, elem,
  elem-update, List, [], ◌∷◌, All, Exists, update,
}
use frontik.Routing.{
  BaseRoute, ApiRoute, api, other, Methods, methods_of, Match, no_match, partial, full, Matcher,
  Scope, lacks_method, find_fastapi_route_exact, partial_methods, find_partial_from,
  get_allowed_methods,
}

module _ {Child : Type 0} (matches : Matcher Child) where
  -- The route's own answer to the request, when its methods have the request's.
  abbrev pub Takes : Methods → Scope Child → BaseRoute → Child → Type 0
  Takes methods scope route child =
      (lacks_method methods scope.method route ≡ false)
      × (matches route (methods_of methods route) scope.path scope.method ≡ full child)

  -- `route` is in the list, takes the request, and no route in front of it does.
  abbrev pub IsFirst : Methods → Scope Child → BaseRoute → Child → List BaseRoute → Type 0
  IsFirst methods scope route child [] = ⊥
  IsFirst methods scope route child (r ∷ routes) =
      ((r ≡ route) × Takes methods scope route child)
      ⊎ (((c : Child) → ¬ Takes methods scope r c) × IsFirst methods scope route child routes)

  -- The scope with what the search writes when `route` answers with `child`.
  abbrev pub with_match : Scope Child → BaseRoute → Child → Scope Child
  with_match scope route child = record scope { child = some child; route = some route }

  pub head_cases :
      (methods : Methods) (scope : Scope Child) (r : BaseRoute) (routes : List BaseRoute)
      → ((child : Child) × Takes methods scope r child
          × (find_fastapi_route_exact matches methods scope (r ∷ routes)
              ≡ (with_match scope r child, some r)))
        ⊎ (((c : Child) → ¬ Takes methods scope r c)
            × (find_fastapi_route_exact matches methods scope (r ∷ routes)
                ≡ find_fastapi_route_exact matches methods scope routes))
  unfolding find_fastapi_route_exact
  head_cases methods scope r routes =
      go (lacks_method methods scope.method r) refl
        (matches r (methods_of methods r) scope.path scope.method) refl
    where
      go :
          (b : Bool)
          → lacks_method methods scope.method r ≡ b
          → (m : Match Child) → matches r (methods_of methods r) scope.path scope.method ≡ m
          → ((child : Child) × Takes methods scope r child
              × (find_fastapi_route_exact matches methods scope (r ∷ routes)
                  ≡ (with_match scope r child, some r)))
            ⊎ (((c : Child) → ¬ Takes methods scope r c)
                × (find_fastapi_route_exact matches methods scope (r ∷ routes)
                    ≡ find_fastapi_route_exact matches methods scope routes))
      go true b m e = inr ((λ c t. cc), rw b)
      go false b no_match e = inr ((λ c t. cc), rw (b, e))
      go false b (partial c) e = inr ((λ d t. cc), rw (b, e))
      go false b (full child) e = inl (child, (b, e), rw (b, e))

  -- `_find_fastapi_route_exact` returns the first route of the list that has the request's method
  -- and matches it in full, and the scope with that route and its child scope; if there is none, it
  -- returns no route and the scope as it was.
  pub find_fastapi_route_exact_lem :
      (methods : Methods) (scope : Scope Child) (routes : List BaseRoute)
      → ((find_fastapi_route_exact matches methods scope routes ≡ (scope, none))
          × All (λ r. (c : Child) → ¬ Takes methods scope r c) routes)
        ⊎ ((route : BaseRoute) × (child : Child) × (find_fastapi_route_exact matches methods scope
                routes
              ≡ (with_match scope route child, some route))
            × IsFirst methods scope route child routes)
  find_fastapi_route_exact_lem methods scope [] = inl (unfold find_fastapi_route_exact in refl, tt)
  find_fastapi_route_exact_lem methods scope (r ∷ routes) =
      elim (head_cases methods scope r routes) [
        | inl (child, takes, e) ↦ inr (r, child, e, inl (refl, takes))
        | inr (refuses, e) ↦ elim (find_fastapi_route_exact_lem methods scope routes) [
          | inl (missed, all) ↦ inl (rw e missed, (refuses, all))
          | inr (route, child, hit, first) ↦ inr (route, child, rw e hit, inr (refuses, first))
        ]
      ]

  -- no route takes the request
  abbrev pub NoneTakes : Methods → Scope Child → List BaseRoute → Type 0
  NoneTakes methods scope routes = All (λ r. (c : Child) → ¬ Takes methods scope r c) routes

  pub find_fastapi_route_exact-NoneTakes :
      (methods : Methods) (scope : Scope Child) (routes : List BaseRoute)
      → NoneTakes methods scope routes
      → find_fastapi_route_exact matches methods scope routes ≡ (scope, none)
  find_fastapi_route_exact-NoneTakes methods scope [] h = unfold find_fastapi_route_exact in refl
  find_fastapi_route_exact-NoneTakes methods scope (r ∷ routes) (not_here, h) =
      elim (head_cases methods scope r routes) [
        | inl (child, takes, e) ↦ elim (not_here child takes) [ ]
        | inr (refuses, e) ↦ e ∙ find_fastapi_route_exact-NoneTakes methods scope routes h
      ]

  -- A route that is no OPTIONS route, that matches the path under another method, and has `m`.
  abbrev pub Offers : Methods → Scope Child → String → BaseRoute → Type 0
  Offers methods scope m route =
      (r : ApiRoute) × (child : Child) × (route ≡ api r)
      × (elem "OPTIONS" (methods r.id) ≡ false)
      × (matches (api r) (methods r.id) scope.path scope.method ≡ partial child)
      × (elem m (methods r.id) ≡ true)

  Offers-iff :
      (methods : Methods) (scope : Scope Child) (m : String) (route : BaseRoute)
      → (elem m (partial_methods matches methods scope route) ≡ true) ↔ Offers methods scope m route
  Offers-iff methods scope m (other i) =
      ((unfold partial_methods elem in λ h. cc), λ (r, child, e, _, _, _). cc)
  Offers-iff methods scope m (api r) =
      (forth (matches (api r) (methods r.id) scope.path scope.method) refl, back)
    where
      forth :
          (found : Match Child)
          → matches (api r) (methods r.id) scope.path scope.method ≡ found
          → elem m (partial_methods matches methods scope (api r)) ≡ true
          → Offers methods scope m (api r)
      forth no_match e h = unfold partial_methods elem in ground arith
      forth (full child) e h = unfold partial_methods elem in ground arith
      forth (partial child) e h = (
        r,
        child,
        refl,
        unfold partial_methods elem in ground arith,
        e,
        unfold partial_methods elem in ground arith,
      )

      back :
          Offers methods scope m (api r)
          → elem m (partial_methods matches methods scope (api r)) ≡ true
      back (r', child, same, plain, answers, has) = unfold partial_methods in ground arith

  elem-find_partial_from :
      (result : List String) (methods : Methods) (scope : Scope Child) (m : String)
      (routes : List BaseRoute)
      → (elem m (find_partial_from matches result methods scope routes) ≡ true)
        ↔ ((elem m result ≡ true) ⊎ Exists (Offers methods scope m) routes)
  unfolding find_partial_from
  elem-find_partial_from result methods scope m [] =
      ((λ h. inl h), elim [ inl h ↦ h | inr h ↦ absurd h ])
  elem-find_partial_from result methods scope m (r ∷ routes) =
      let more = update result (partial_methods matches methods scope r) in
      let ih = elem-find_partial_from more methods scope m routes in
      let here = Offers-iff methods scope m r in
      let split = elem-update m result (partial_methods matches methods scope r) in
      ground (arith, ih.0, ih.1, here.0, here.1, split)

  -- `get_allowed_methods` lists a method exactly when some API route of the table, not an OPTIONS
  -- route, matches the request's path under another method and has that method.
  pub elem-get_allowed_methods :
      (methods : Methods) (scope : Scope Child) (m : String) (routes : List BaseRoute)
      → (elem m (get_allowed_methods matches methods scope routes) ≡ true)
        ↔ Exists (Offers methods scope m) routes
  unfolding get_allowed_methods elem
  elem-get_allowed_methods methods scope m routes =
      let (forth, back) = elem-find_partial_from [] methods scope m routes in
      ((λ h. ground (arith, forth h)), λ h. back (inr h))
