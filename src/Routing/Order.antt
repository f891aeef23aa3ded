-- ===== src/Routing/Order.antt =====
-- The order of the route table (frontik/routing.py, `get_route_sort_key` and the sort by it).
use mathlib.Core.Path.{subst}
use mathlib.Core.List.{Perm}
use mathlib.Core.List.Perm
use frontik.Prelude.{
  ℕ, ◌≡◌, refl, inl, inr, some, Bool, true, false, arith, List, [], ◌∷◌, All, Bool-cases, ◌<◌, any,
  ap, length,
}
use frontik.Routing.{
  BaseRoute, ApiRoute, api, other, Methods, Matcher, Scope, SortKey, get_route_sort_key, flags_lt,
  key_lt, insert_route, sort_routes, find_fastapi_route_exact, is_param_segment, segments_of,
}
use frontik.Routing.Search.{Takes, IsFirst, find_fastapi_route_exact_lem}

flags_lt_asymm : (xs ys : List Bool) → flags_lt xs ys ≡ true → flags_lt ys xs ≡ false
unfolding flags_lt
flags_lt_asymm xs [] h = cc
flags_lt_asymm [] (y ∷ ys) h = refl
flags_lt_asymm (false ∷ xs) (false ∷ ys) h = flags_lt_asymm xs ys h
flags_lt_asymm (false ∷ xs) (true ∷ ys) h = refl
flags_lt_asymm (true ∷ xs) (false ∷ ys) h = cc
flags_lt_asymm (true ∷ xs) (true ∷ ys) h = flags_lt_asymm xs ys h

flags_lt-trans_not :
    (xs ys zs : List Bool)
    → flags_lt xs ys ≡ false
    → flags_lt ys zs ≡ false
    → flags_lt xs zs ≡ false
unfolding flags_lt
flags_lt-trans_not xs ys [] h k = refl
flags_lt-trans_not xs [] (z ∷ zs) h k = cc
flags_lt-trans_not [] (y ∷ ys) (z ∷ zs) h k = cc
flags_lt-trans_not (false ∷ xs) (false ∷ ys) (false ∷ zs) h k = flags_lt-trans_not xs ys zs h k
flags_lt-trans_not (true ∷ xs) (true ∷ ys) (true ∷ zs) h k = flags_lt-trans_not xs ys zs h k
flags_lt-trans_not (true ∷ xs) _ (false ∷ zs) h k = refl
flags_lt-trans_not (false ∷ xs) (true ∷ ys) (z ∷ zs) h k = cc
flags_lt-trans_not (x ∷ xs) (false ∷ ys) (true ∷ zs) h k = cc

key_lt_asymm : (a b : SortKey) → key_lt a b ≡ true → key_lt b a ≡ false
unfolding key_lt
key_lt_asymm a b h = ground (arith, flags_lt_asymm a.flags b.flags)

key_lt-trans_not : (a b c : SortKey) → key_lt a b ≡ false → key_lt b c ≡ false → key_lt a c ≡ false
unfolding key_lt
key_lt-trans_not a b c h k = ground (arith, flags_lt-trans_not a.flags b.flags c.flags)

-- `s` may stand behind `r`: its key is not smaller.
abbrev pub NotBefore : BaseRoute → BaseRoute → Type 0
NotBefore r s = key_lt (get_route_sort_key s) (get_route_sort_key r) ≡ false

abbrev pub IsSorted : List BaseRoute → Type 0
IsSorted [] = Unit
IsSorted (r ∷ routes) = All (NotBefore r) routes × IsSorted routes

All-NotBefore :
    (r s : BaseRoute) (routes : List BaseRoute)
    → NotBefore r s
    → All (NotBefore s) routes
    → All (NotBefore r) routes
All-NotBefore r s [] h k = tt
All-NotBefore r s (t ∷ routes) h (k, ks) =
    (key_lt-trans_not _ (get_route_sort_key s) _ k h, All-NotBefore r s routes h ks)

module _ (P : BaseRoute → Type 0) where
  All-insert_route :
      (r : BaseRoute) (routes : List BaseRoute) → P r → All P routes → All P (insert_route r routes)
  unfolding insert_route
  All-insert_route r [] h hs = (h, tt)
  All-insert_route r (s ∷ routes) h (k, ks) = ground (arith, All-insert_route r routes h ks)

insert_route-IsSorted :
    (r : BaseRoute) (routes : List BaseRoute) → IsSorted routes → IsSorted (insert_route r routes)
unfolding insert_route
insert_route-IsSorted r [] h = (tt, tt)
insert_route-IsSorted r (s ∷ routes) (h, hs) =
    elim (Bool-cases (key_lt (get_route_sort_key s) (get_route_sort_key r))) [
      | inl before ↦
          let later = key_lt_asymm (get_route_sort_key s) (get_route_sort_key r) before in
          rw before
            (All-insert_route (NotBefore s) r routes later h, insert_route-IsSorted r routes hs)
      | inr after ↦ rw after ((after, All-NotBefore r s routes after h), (h, hs))
    ]

sort_routes-IsSorted : (routes : List BaseRoute) → IsSorted (sort_routes routes)
unfolding sort_routes
sort_routes-IsSorted [] = tt
sort_routes-IsSorted (r ∷ routes) =
    insert_route-IsSorted r (sort_routes routes) (sort_routes-IsSorted routes)

insert_route-perm :
    (r : BaseRoute) (routes : List BaseRoute) → Perm (insert_route r routes) (r ∷ routes)
unfolding insert_route
insert_route-perm r [] = Perm.refl (r ∷ [])
insert_route-perm r (s ∷ routes) =
    elim (Bool-cases (key_lt (get_route_sort_key s) (get_route_sort_key r))) [
      | inl before ↦
          rw before (Perm.trans (Perm.cons s (insert_route-perm r routes)) (Perm.swap r s routes))
      | inr after ↦ rw after (Perm.refl (r ∷ s ∷ routes))
    ]

sort_routes-perm : (routes : List BaseRoute) → Perm (sort_routes routes) routes
unfolding sort_routes
sort_routes-perm [] = Perm.refl []
sort_routes-perm (r ∷ routes) =
    Perm.trans (insert_route-perm r (sort_routes routes)) (Perm.cons r (sort_routes-perm routes))

-- Sorting the table keeps its routes, each as often as it stood there, and leaves no route in front
-- of one whose key is smaller.
sort_routes-IsSorted_perm :
    (routes : List BaseRoute) → IsSorted (sort_routes routes) × Perm (sort_routes routes) routes
sort_routes-IsSorted_perm routes = (sort_routes-IsSorted routes, sort_routes-perm routes)

module _ {Child : Type 0} (matches : Matcher Child) (methods : Methods) (scope : Scope Child) where
  -- `route`'s key is not above that of `s`, if `s` takes the request.
  abbrev pub Precedes : BaseRoute → BaseRoute → Type 0
  Precedes route s = (c : Child) → Takes matches methods scope s c → NotBefore route s

  All-Precedes :
      (r : BaseRoute) (routes : List BaseRoute) → All (NotBefore r) routes → All (Precedes r) routes
  All-Precedes r [] h = tt
  All-Precedes r (s ∷ routes) (h, hs) = ((λ c takes. h), All-Precedes r routes hs)

  key_lt_irrefl : (k : SortKey) → key_lt k k ≡ false
  key_lt_irrefl k = elim (Bool-cases (key_lt k k)) [ inl h ↦ cc (key_lt_asymm k k h) | inr h ↦ h ]

  IsFirst-Precedes :
      (route : BaseRoute) (child : Child) (routes : List BaseRoute)
      → IsSorted routes
      → IsFirst matches methods scope route child routes
      → All (Precedes route) routes
  IsFirst-Precedes route child [] h first = absurd first
  IsFirst-Precedes route child (r ∷ routes) (h, hs) (inl (same, takes)) =
      subst (λ x. All (Precedes x) (r ∷ routes)) same
        ((λ c _. key_lt_irrefl (get_route_sort_key r)), All-Precedes r routes h)
  IsFirst-Precedes route child (r ∷ routes) (h, hs) (inr (refuses, first)) =
      ((λ c takes. absurd (refuses c takes)), IsFirst-Precedes route child routes hs first)

  -- In the sorted table, no route that takes the request has a smaller key than the route that the
  -- search returns.
  pub find_fastapi_route_exact-sort_routes :
      (route : BaseRoute) (routes : List BaseRoute)
      → (find_fastapi_route_exact matches methods scope (sort_routes routes)).1 ≡ some route
      → All (Precedes route) (sort_routes routes)
  find_fastapi_route_exact-sort_routes route routes h =
      elim (find_fastapi_route_exact_lem matches methods scope (sort_routes routes)) [
        | inl (missed, _) ↦ cc (h, ap (λ p. p.1) missed)
        | inr (r, child, hit, first) ↦
            let same : r ≡ route = cc (h, ap (λ p. p.1) hit) in
            rw (← same)
              (IsFirst-Precedes r child (sort_routes routes) (sort_routes-IsSorted routes) first)
      ]

abbrev pub HasParams : ApiRoute → Type 0
HasParams r = any is_param_segment (segments_of r.path_format) ≡ true

abbrev pub IsExact : ApiRoute → Type 0
IsExact r = any is_param_segment (segments_of r.path_format) ≡ false

-- A route without parameters stands before every route with parameters, and both before a route
-- that is no API route. Of two routes of the same kind the one with more segments stands first.
pub key_lt-get_route_sort_key :
    (r s : ApiRoute) (i : ℕ)
    → (IsExact r
        → HasParams s
        → key_lt (get_route_sort_key (api r)) (get_route_sort_key (api s)) ≡ true)
      × (key_lt (get_route_sort_key (api s)) (get_route_sort_key (other i)) ≡ true)
      × (any is_param_segment (segments_of r.path_format)
            ≡ any is_param_segment (segments_of s.path_format)
          → length (segments_of s.path_format) < length (segments_of r.path_format)
          → key_lt (get_route_sort_key (api r)) (get_route_sort_key (api s)) ≡ true)
unfolding key_lt get_route_sort_key
key_lt-get_route_sort_key r s i = (ground arith, ground arith, ground arith)

-- A route without parameters that takes the request.
abbrev pub IsExactTaker :
    {Child : Type 0} → Matcher Child → Methods → Scope Child → BaseRoute → Type 0
IsExactTaker {Child} matches methods scope r =
    (exact : ApiRoute) × (child : Child) × (r ≡ api exact)
    × IsExact exact
    × Takes matches methods scope r child

module _ {Child : Type 0} (matches : Matcher Child) (methods : Methods) (scope : Scope Child)
    (s : ApiRoute) (params : HasParams s) where
  not_exact :
      (routes : List BaseRoute)
      → All (Precedes matches methods scope (api s)) routes
      → All (λ r. ¬ IsExactTaker matches methods scope r) routes
  not_exact [] _ = tt
  not_exact (r ∷ routes) (p, ps) = (
    (λ (exact, child, same, plain, takes).
        let smaller = (key_lt-get_route_sort_key exact s 0).0 plain params in
        let larger : key_lt (get_route_sort_key (api exact)) (get_route_sort_key (api s)) ≡ false =
          rw (← same) (p child takes) in
        cc (smaller, larger)),
    not_exact routes ps,
  )

-- When the search in the sorted table returns a route with parameters, no route of the table
-- without parameters takes the request.
pub find_fastapi_route_exact-HasParams :
    {Child : Type 0} (matches : Matcher Child) (methods : Methods) (scope : Scope Child)
    (s : ApiRoute) (routes : List BaseRoute)
    → (find_fastapi_route_exact matches methods scope (sort_routes routes)).1 ≡ some (api s)
    → HasParams s
    → All (λ r. ¬ IsExactTaker matches methods scope r) (sort_routes routes)
find_fastapi_route_exact-HasParams matches methods scope s routes h params =
    not_exact matches methods scope s params (sort_routes routes)
      (find_fastapi_route_exact-sort_routes matches methods scope (api s) routes h)
