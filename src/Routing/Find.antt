-- ===== src/Routing/Find.antt =====
-- What `find_route` of frontik/routing.py returns, and which method sets it changes.
use mathlib.Core.Path.{subst}
use frontik.Prelude.{
  ◌++◌, update, update-append, sym, ap, eqb_iff, ℕ, String, ◌≡◌, refl, fun_ext, ◌∙◌, ◌⊎◌, inl, inr,
  Option, none, some, ◌==◌, arith, elem, List, [], ◌∷◌, Bool-cases, last?,
}
use frontik.Routing.{
  BaseRoute, ApiRoute, api, other, Methods, Matcher, Scope, Table, Found, found, index_error,
  assertion_error, allow, with_endpoint, get_allowed_methods, strip_path,
}
use frontik.Routing.Dispatch.{
  answer_preflight, answer_unmatched, answer_error, answer_allowed, answer_head_route, finish,
  search, request_scope, find_get, answer_head, dispatch, find_stripped, find_route,
}

-- What a call may do to the method sets `old`: each set stays, or it is that of the route in the
-- scope, and methods are added to it.
abbrev pub OnlyGrows : {Child : Type 0} → Methods → Found Child → Type 0
OnlyGrows old (found scope new) =
    (i : ℕ)
    → (new i ≡ old i)
      ⊎ ((r : ApiRoute) × (scope.route ≡ some (api r))
          × (i ≡ r.id)
          × (added : List String) × (new i ≡ update (old i) added))
OnlyGrows old index_error = Unit
OnlyGrows old assertion_error = Unit

allow-update :
    (r : ApiRoute) (method : String) (methods : Methods) (i : ℕ)
    → i ≡ r.id
    → allow r method methods i ≡ update (methods i) (method ∷ [])
unfolding allow update
allow-update r method methods i h = ground (arith, eqb_iff i r.id)

allow_cases :
    (r : ApiRoute) (method : String) (methods : Methods) (i : ℕ)
    → (allow r method methods i ≡ methods i) ⊎ (i ≡ r.id)
unfolding allow
allow_cases r method methods i = ground arith

module _ {Child : Type 0} (matches : Matcher Child) where
  allow-OnlyGrows :
      (r : ApiRoute) (method : String) (scope : Scope Child) (methods : Methods)
      → scope.route ≡ some (api r)
      → OnlyGrows methods (found scope (allow r method methods))
  allow-OnlyGrows r method scope methods h i = elim (allow_cases r method methods i) [
    | inl same ↦ inl same
    | inr own ↦ inr (r, h, own, method ∷ [], allow-update r method methods i own)
  ]

  answer_preflight-OnlyGrows :
      (last : Option BaseRoute) (method : String) (scope : Scope Child) (methods : Methods)
      → OnlyGrows methods (answer_preflight matches last method scope methods)
  unfolding answer_preflight with_endpoint
  answer_preflight-OnlyGrows none method scope methods = tt
  answer_preflight-OnlyGrows (some (other i)) method scope methods = λ j. inl refl
  answer_preflight-OnlyGrows (some (api r)) method scope methods =
      allow-OnlyGrows r method (with_endpoint (record scope { route = some (api r) }) (api r))
        methods refl

  answer_unmatched-OnlyGrows :
      (last : Option BaseRoute) (method : String) (scope : Scope Child) (methods : Methods)
      → OnlyGrows methods (answer_unmatched matches last method scope methods)
  unfolding answer_unmatched with_endpoint
  answer_unmatched-OnlyGrows none method scope methods = tt
  answer_unmatched-OnlyGrows (some (other i)) method scope methods = tt
  answer_unmatched-OnlyGrows (some (api r)) method scope methods =
      elim (Bool-cases (elem method (methods r.id))) [
        | inl has ↦ λ i. inl (rw has)
        | inr new ↦ rw new (
            allow-OnlyGrows r method (with_endpoint (record scope { route = some (api r) }) (api r))
              methods refl)
      ]

  answer_allowed-OnlyGrows :
      (allowed : List String) (table : Table) (method : String) (scope : Scope Child)
      (methods : Methods)
      → OnlyGrows methods (answer_allowed matches allowed table method scope methods)
  unfolding answer_allowed
  answer_allowed-OnlyGrows [] table method scope methods =
      answer_unmatched-OnlyGrows (last? table.not_found) method scope methods
  answer_allowed-OnlyGrows (m ∷ ms) table method scope methods =
      answer_unmatched-OnlyGrows (last? table.method_not_allowed) method
        (record scope { allowed_methods = some (m ∷ ms) }) methods

  answer_error-OnlyGrows :
      (table : Table) (method : String) (scope : Scope Child) (methods : Methods)
      → OnlyGrows methods (answer_error matches table method scope methods)
  unfolding answer_error
  answer_error-OnlyGrows table method scope methods =
      answer_allowed-OnlyGrows (get_allowed_methods matches methods scope table.fastapi_routes)
        table method scope methods

  finish-OnlyGrows :
      (table : Table) (method : String) (scope : Scope Child) (route : Option BaseRoute)
      (methods : Methods)
      → OnlyGrows methods (finish matches table method scope route methods)
  unfolding finish
  finish-OnlyGrows table method scope (some r) methods = λ i. inl refl
  finish-OnlyGrows table method scope none methods = elim (Bool-cases (method == "OPTIONS")) [
    | inl options ↦
        rw options (answer_preflight-OnlyGrows (last? table.preflight) method scope methods)
    | inr other_method ↦ rw other_method (answer_error-OnlyGrows table method scope methods)
  ]

  find_get-OnlyGrows :
      (table : Table) (methods : Methods) (path : String) (routes : Option (List BaseRoute))
      → OnlyGrows methods (find_get matches table methods path routes)
  unfolding find_get
  find_get-OnlyGrows table methods path routes =
      let (scope, route) =
        search matches table methods (request_scope matches (strip_path path) "GET" "") routes in
      finish-OnlyGrows table "GET" scope route methods

  with_endpoint-route :
      (scope : Scope Child) (route : BaseRoute) → (with_endpoint scope route).route ≡ scope.route
  unfolding with_endpoint
  with_endpoint-route scope (api r) = refl
  with_endpoint-route scope (other i) = refl

  -- a scope without a route has changed no method set
  same_methods :
      (old new : Methods) (scope : Scope Child)
      → scope.route ≡ none
      → OnlyGrows old (found scope new)
      → new ≡ old
  same_methods old new scope e h =
      fun_ext λ i. elim (h i) [ inl same ↦ same | inr (r, route, _, _, _) ↦ cc ]

  answer_head_route-OnlyGrows :
      (table : Table) (old new : Methods) (scope : Scope Child) (route : Option BaseRoute)
      → scope.route ≡ route
      → OnlyGrows old (found scope new)
      → OnlyGrows old (answer_head_route matches table scope new route)
  unfolding answer_head_route finish
  answer_head_route-OnlyGrows table old new scope none e h =
      subst (λ x. OnlyGrows x (finish matches table "HEAD" scope none new))
        (same_methods old new scope e h) (finish-OnlyGrows table "HEAD" scope none new)
  answer_head_route-OnlyGrows table old new scope (some (other i)) e h =
      λ j. rw with_endpoint-route (h j)
  answer_head_route-OnlyGrows table old new scope (some (api r)) e h = λ i. elim (h i) [
    | inl same ↦ elim (allow_cases r "HEAD" new i) [
      | inl kept ↦ inl (kept ∙ same)
      | inr own ↦ inr (
        r,
        with_endpoint-route scope (api r) ∙ e,
        own,
        "HEAD" ∷ [],
        allow-update r "HEAD" new i own ∙ ap (λ x. update x ("HEAD" ∷ [])) same,
      )
    ]
    | inr (r', route, own, added, grows) ↦ elim (allow_cases r "HEAD" new i) [
      | inl kept ↦ inr (r', with_endpoint-route scope (api r) ∙ route, own, added, kept ∙ grows)
      | inr same_id ↦ inr (
        r',
        with_endpoint-route scope (api r) ∙ route,
        own,
        added ++ "HEAD" ∷ [],
        allow-update r "HEAD" new i same_id
            ∙ ap (λ x. update x ("HEAD" ∷ [])) grows
            ∙ sym (update-append (old i) added ("HEAD" ∷ [])),
      )
    ]
  ]

  answer_head-OnlyGrows :
      (table : Table) (methods : Methods) (result : Found Child)
      → OnlyGrows methods result
      → OnlyGrows methods (answer_head matches table result)
  unfolding answer_head
  answer_head-OnlyGrows table methods index_error h = tt
  answer_head-OnlyGrows table methods assertion_error h = tt
  answer_head-OnlyGrows table methods (found scope new) h =
      answer_head_route-OnlyGrows table methods new (record scope { method = "HEAD" }) scope.route
        refl h

  dispatch-OnlyGrows :
      (table : Table) (methods : Methods) (path method : String) (routes : Option (List BaseRoute))
      (scope : Scope Child) (route : Option BaseRoute)
      → OnlyGrows methods (dispatch matches table methods path method routes scope route)
  unfolding dispatch
  dispatch-OnlyGrows table methods path method routes scope (some r) =
      finish-OnlyGrows table method scope (some r) methods
  dispatch-OnlyGrows table methods path method routes scope none =
      elim (Bool-cases (method == "HEAD")) [
        | inl head ↦
            rw head
              (answer_head-OnlyGrows table methods _ (find_get-OnlyGrows table methods path routes))
        | inr other_method ↦ rw other_method (finish-OnlyGrows table method scope none methods)
      ]

  -- Whatever the request, `find_route` changes the method set of no route but the one in the scope
  -- that it returns, and takes no method away from that.
  find_route-OnlyGrows :
      (table : Table) (methods : Methods) (path method : String) (routes : Option (List BaseRoute))
      (prefix : String)
      → OnlyGrows methods (find_route matches table methods path method routes prefix)
  unfolding find_route find_stripped
  find_route-OnlyGrows table methods path method routes prefix =
      let (scope, route) =
        search matches table methods (request_scope matches (strip_path path) method prefix)
          routes in
      dispatch-OnlyGrows table methods (strip_path path) method routes scope route
