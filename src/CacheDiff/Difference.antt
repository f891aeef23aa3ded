-- ===== src/CacheDiff/Difference.antt =====
-- What get_diff_cache_and_fs of frontik/dev_route_manager.py finds.
use frontik.Prelude.{
  ℕ, String, Bool, true, not, ◌&&◌, ◌||◌, Option, none, some, List, [], ◌∷◌, map, any, ◌≡◌, refl,
  ◌∙◌, ◌==◌, eq_refl, Dict, lookup, insert, lookup-insert, is_some, arith, Bool-cases, inl, inr,
}
use frontik.CacheDiff.{
  RouteCache, PageMtime, Pair, empty_fs_path, has_pair, page_pair, cache_pair, cache_mtimes,
  page_mtimes, difference, add_page, need_pages, get_diff_cache_and_fs,
}

-- a pair of this endpoint that stands for a file, and is not among the others
abbrev pub stands_for : String → List Pair → Pair → Bool
stands_for endpoint others pair =
    (pair.0 == endpoint && not (pair.1 == empty_fs_path)) && not (has_pair pair others)

-- each endpoint has its time
abbrev IsTimed : Dict ℕ → List Pair → Type 0
IsTimed mtimes [] = Unit
IsTimed mtimes (pair ∷ pairs) = (is_some (lookup pair.0 mtimes) ≡ true) × IsTimed mtimes pairs

any-difference :
    (endpoint : String) (xs ys : List Pair)
    → any (stands_for endpoint []) (difference xs ys) ≡ any (stands_for endpoint ys) xs
unfolding difference has_pair
any-difference endpoint [] ys = refl
any-difference endpoint (x ∷ xs) ys = ground (arith, any-difference endpoint xs ys)

any-difference_twice :
    (endpoint : String) (xs ys zs : List Pair)
    → any (stands_for endpoint zs) (difference xs ys)
      ≡ any (λ x. stands_for endpoint ys x && not (has_pair x zs)) xs
unfolding difference has_pair
any-difference_twice endpoint [] ys zs = refl
any-difference_twice endpoint (x ∷ xs) ys zs =
    ground (arith, any-difference_twice endpoint xs ys zs)

difference-IsTimed :
    (mtimes : Dict ℕ) (xs ys : List Pair) → IsTimed mtimes xs → IsTimed mtimes (difference xs ys)
unfolding difference
difference-IsTimed mtimes [] ys h = tt
difference-IsTimed mtimes (x ∷ xs) ys (timed, h) = elim (Bool-cases (has_pair x ys)) [
  | inl e ↦ rw e (difference-IsTimed mtimes xs ys h)
  | inr e ↦ rw e (timed, difference-IsTimed mtimes xs ys h)
]

add_page-lookup :
    (endpoint e fs : String) (time : Option ℕ) (d : Dict PageMtime)
    → is_some time ≡ true
    → is_some (lookup endpoint (add_page time (e, fs) d))
      ≡ ((e == endpoint) || is_some (lookup endpoint d))
unfolding add_page
add_page-lookup endpoint e fs none d h = cc h
add_page-lookup endpoint e fs (some t) d h =
    ground (arith, lookup-insert e endpoint (record { endpoint = e; mtime = t; fs_path = fs }) d)

need_pages-lookup :
    (endpoint : String) (mtimes : Dict ℕ) (pairs : List Pair) (d : Dict PageMtime)
    → IsTimed mtimes pairs
    → is_some (lookup endpoint (need_pages mtimes pairs d))
      ≡ (is_some (lookup endpoint d) || any (stands_for endpoint []) pairs)
unfolding need_pages has_pair
need_pages-lookup endpoint mtimes [] d h = ground arith
need_pages-lookup endpoint mtimes ((e, fs) ∷ pairs) d (timed, h) =
    elim (Bool-cases (fs == empty_fs_path)) [
      | inl same ↦ rw (same, need_pages-lookup endpoint mtimes pairs d h) (ground arith)
      | inr other ↦
          rw
            (
              other,
              need_pages-lookup endpoint mtimes pairs (add_page (lookup e mtimes) (e, fs) d) h,
            )
            (ground (arith, add_page-lookup endpoint e fs (lookup e mtimes) d timed))
    ]

page_mtimes-keeps :
    (e : String) (pages : List PageMtime) (d : Dict ℕ)
    → is_some (lookup e d) ≡ true
    → is_some (lookup e (page_mtimes pages d)) ≡ true
unfolding page_mtimes
page_mtimes-keeps e [] d h = h
page_mtimes-keeps e (p ∷ ps) d h =
    page_mtimes-keeps e ps (insert p.endpoint p.mtime d)
      (ground (arith, lookup-insert p.endpoint e p.mtime d))

page_mtimes-IsTimed :
    (pages : List PageMtime) (d : Dict ℕ) → IsTimed (page_mtimes pages d) (map page_pair pages)
unfolding page_mtimes
page_mtimes-IsTimed [] d = tt
page_mtimes-IsTimed (p ∷ ps) d = (
  page_mtimes-keeps p.endpoint ps (insert p.endpoint p.mtime d)
      (ground (arith, lookup-insert p.endpoint p.endpoint p.mtime d, eq_refl p.endpoint)),
  page_mtimes-IsTimed ps (insert p.endpoint p.mtime d),
)

cache_mtimes-keeps :
    (e : String) (routes : List RouteCache) (d : Dict ℕ)
    → is_some (lookup e d) ≡ true
    → is_some (lookup e (cache_mtimes routes d)) ≡ true
unfolding cache_mtimes
cache_mtimes-keeps e [] d h = h
cache_mtimes-keeps e (r ∷ rs) d h =
    cache_mtimes-keeps e rs (insert r.endpoint r.mtime d)
      (ground (arith, lookup-insert r.endpoint e r.mtime d))

cache_mtimes-IsTimed :
    (routes : List RouteCache) (d : Dict ℕ)
    → IsTimed (cache_mtimes routes d) (map cache_pair routes)
unfolding cache_mtimes
cache_mtimes-IsTimed [] d = tt
cache_mtimes-IsTimed (r ∷ rs) d = (
  cache_mtimes-keeps r.endpoint rs (insert r.endpoint r.mtime d)
      (ground (arith, lookup-insert r.endpoint r.endpoint r.mtime d, eq_refl r.endpoint)),
  cache_mtimes-IsTimed rs (insert r.endpoint r.mtime d),
)

-- An endpoint is to be deleted if and only if a route of the cache has it, with the path of a file,
-- and no page has both; and it is to be added if and only if a page has it, with a path that is not
-- the mark of a missing file, and neither a route of the cache nor an excluded page has both. The
-- times do not matter to either.
pub get_diff_cache_and_fs-lookup :
    (routes_map : List RouteCache) (pages excluded : List PageMtime) (endpoint : String)
    → (is_some (lookup endpoint (get_diff_cache_and_fs routes_map pages excluded).need_delete)
        ≡ any (stands_for endpoint (map page_pair pages)) (map cache_pair routes_map))
      × (is_some (lookup endpoint (get_diff_cache_and_fs routes_map pages excluded).need_add)
          ≡ any
              (λ pair.
                stands_for endpoint (map cache_pair routes_map) pair
                && not (has_pair pair (map page_pair excluded)))
              (map page_pair pages))
unfolding get_diff_cache_and_fs lookup
get_diff_cache_and_fs-lookup routes_map pages excluded endpoint =
    let cached = map cache_pair routes_map in
    let paged = map page_pair pages in
    (
      need_pages-lookup endpoint (cache_mtimes routes_map []) (difference cached paged) []
            (difference-IsTimed _ cached paged (cache_mtimes-IsTimed routes_map []))
          ∙ any-difference endpoint cached paged,
      need_pages-lookup endpoint (page_mtimes pages [])
            (difference (difference paged cached) (map page_pair excluded)) []
            (difference-IsTimed _ (difference paged cached) (map page_pair excluded)
              (difference-IsTimed _ paged cached (page_mtimes-IsTimed pages [])))
          ∙ (any-difference endpoint (difference paged cached) (map page_pair excluded)
              ∙ any-difference_twice endpoint paged cached (map page_pair excluded)),
    )
