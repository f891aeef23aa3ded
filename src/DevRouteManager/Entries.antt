-- ===== src/DevRouteManager/Entries.antt =====
-- The entries that frontik/dev_route_manager.py makes of the routes of FastAPI, and what a second
-- start finds out of date in them.
use mathlib.Core.Path.{subst}
use frontik.Prelude.{
  String, true, false, not, ◌&&◌, Option, none, some, List, [], ◌∷◌, ◌+++◌, map, any, All, ◌≡◌,
  refl, sym, ◌∙◌, ap, eq_iff, eq_refl, eqb_iff, Dict, lookup, values, is_some, arith, Option-cases,
  inl, inr, IsKeyed, insert-IsKeyed, lookup-named, lookup-All, some_inj, All-values-insert,
}
use frontik.CacheDiff.{
  RouteCache, PageMtime, Pair, has_pair, page_pair, cache_pair, empty_fs_path,
  get_diff_cache_and_fs, difference, page_mtimes,
}
use frontik.DevRouteManager.{
  FastapiRoute, Tables, DevRouteManager, cache_entry, add_entries, add_fake_route, route_key,
  proccess_fastapi_routes_to_dev_route, import_module, import_modules, import_pages, sort_tables,
  is_changed, sift,
}
use frontik.CacheDiff.Difference.{stands_for, get_diff_cache_and_fs-lookup}
use frontik.CacheDiff.Pages.{
  page_key, dict_empty, any-false, any-true, All-of_has_pair, difference-All, has_pair-of_lookup,
  lookup-of_has_pair, need_pages-IsKeyed, need_pages-All,
}

-- An entry tells what the page of its endpoint is now, or that there is none.
abbrev pub IsCurrentAt : Option PageMtime → RouteCache → Type 0
IsCurrentAt none route = route.fs_path ≡ empty_fs_path
IsCurrentAt (some page) route = (page.fs_path ≡ route.fs_path) × (page.mtime ≡ route.mtime)

abbrev pub IsCurrent : Dict PageMtime → RouteCache → Type 0
IsCurrent py route = IsCurrentAt (lookup route.endpoint py) route

cache_entry-IsCurrent :
    (route : FastapiRoute) (page : Option PageMtime) → IsCurrentAt page (cache_entry route page)
unfolding cache_entry
cache_entry-IsCurrent route none = refl
cache_entry-IsCurrent route (some page) = (refl, refl)

cache_entry_named :
    (route : FastapiRoute) (page : Option PageMtime)
    → (cache_entry route page).endpoint ≡ route.module_name
unfolding cache_entry
cache_entry_named route none = refl
cache_entry_named route (some page) = refl

unfoldable pub add_fake_routes : List RouteCache → DevRouteManager → DevRouteManager
add_fake_routes [] d = d
add_fake_routes (route ∷ routes) d = add_fake_routes routes (add_fake_route route d)

-- the pages are those of `py`, and the entries are current
pub record IsMade (py : Dict PageMtime) (d : DevRouteManager) : Type 0 where
  pub pages : d.py_files_mtime ≡ py
  pub keyed : IsKeyed route_key d.routes_map_module
  pub current : All (IsCurrent py) (values d.routes_map_module)

module _ (py : Dict PageMtime) where
  add_entry-IsMade :
      (route : FastapiRoute) (d : DevRouteManager)
      → IsMade py d
      → IsMade py (add_fake_route (cache_entry route (lookup route.module_name py)) d)
  unfolding add_fake_route
  add_entry-IsMade route d m =
      let entry = cache_entry route (lookup route.module_name py) in
      record {
        pages = m.pages;
        keyed = insert-IsKeyed route_key entry d.routes_map_module m.keyed;
        current =
            All-values-insert (IsCurrent py) (route_key entry) entry d.routes_map_module m.current (
              subst (λ e. IsCurrentAt (lookup e py) entry) (sym (cache_entry_named route _))
                (cache_entry-IsCurrent route (lookup route.module_name py)));
      }

  add_entries-IsMade :
      (routes : List FastapiRoute) (d : DevRouteManager)
      → IsMade py d
      → IsMade py (add_entries py routes d)
  unfolding add_entries
  add_entries-IsMade [] d m = m
  add_entries-IsMade (route ∷ routes) d m = add_entries-IsMade routes _ (add_entry-IsMade route d m)

  pub process-IsMade :
      (d : DevRouteManager) → IsMade py d → IsMade py (proccess_fastapi_routes_to_dev_route py d)
  unfolding proccess_fastapi_routes_to_dev_route
  process-IsMade d m = add_entries-IsMade d.tables.fastapi_routes d m

  module _ (load : List String → String → Tables → Tables)
      (walk : String → Option (List String)) where
    pub import_modules-IsMade :
        (names : List String) (d : DevRouteManager)
        → IsMade py d
        → IsMade py (import_modules load walk names d)
    unfolding import_modules import_module
    import_modules-IsMade [] d m = m
    import_modules-IsMade (name ∷ names) d m =
        import_modules-IsMade names _
          (record { pages = m.pages; keyed = m.keyed; current = m.current })

    pub import_pages-IsMade :
        (app_module : String) (d : DevRouteManager)
        → IsMade py d
        → IsMade py (import_pages load walk app_module d)
    unfolding import_pages sort_tables
    import_pages-IsMade app_module d m = elim (Option-cases (walk (app_module +++ ".pages"))) [
      | inl e ↦ rw (e, import_pages) m
      | inr (names, e) ↦
          let m' = import_modules-IsMade ((app_module +++ ".pages") ∷ names) d m in
          rw (e, import_pages) (record { pages = m'.pages; keyed = m'.keyed; current = m'.current })
    ]

  module _ (keyed : IsKeyed page_key py) where
    current_stands :
        (endpoint : String) (route : RouteCache)
        → IsCurrent py route
        → stands_for endpoint (map page_pair (values py)) (cache_pair route) ≡ false
    current_stands endpoint route h = elim (Option-cases (lookup route.endpoint py)) [
      | inl e ↦
          let gone : route.fs_path ≡ empty_fs_path = subst (λ o. IsCurrentAt o route) e h in
          ground (arith, eq_iff route.fs_path empty_fs_path)
      | inr (page, e) ↦
          let same : IsCurrentAt (some page) route = subst (λ o. IsCurrentAt o route) e h in
          let held : has_pair (cache_pair route) (map page_pair (values py)) ≡ true =
            subst (λ fs. has_pair (route.endpoint, fs) (map page_pair (values py)) ≡ true) (same.0)
              (has_pair-of_lookup py route.endpoint page keyed e) in
          ground (arith, held)
    ]

    -- nothing is to be deleted
    pub need_delete-empty :
        (routes : List RouteCache) (excluded : List PageMtime)
        → All (IsCurrent py) routes
        → (get_diff_cache_and_fs routes (values py) excluded).need_delete ≡ []
    need_delete-empty routes excluded h = dict_empty _ (λ e.
        (get_diff_cache_and_fs-lookup routes (values py) excluded e).0 ∙ none_stands e routes h)
      where
        none_stands :
            (e : String) (rs : List RouteCache)
            → All (IsCurrent py) rs
            → any (stands_for e (map page_pair (values py))) (map cache_pair rs) ≡ false
        none_stands e [] hs = refl
        none_stands e (r ∷ rs) (hr, hs) = ground (arith, current_stands e r hr, none_stands e rs hs)

    module _ (routes : List RouteCache) where
      abbrev found : Dict PageMtime
      found = (get_diff_cache_and_fs routes (values py) []).need_add

      found-IsKeyed : IsKeyed page_key found
      unfolding get_diff_cache_and_fs IsKeyed
      found-IsKeyed =
          need_pages-IsKeyed (page_mtimes (values py) [])
            (difference (difference (map page_pair (values py)) (map cache_pair routes)) []) [] tt

      found-All :
          All (λ page. has_pair (page_pair page) (map page_pair (values py)) ≡ true) (values found)
      unfolding get_diff_cache_and_fs
      found-All =
          let pages = map page_pair (values py) in
          need_pages-All (λ pair. has_pair pair pages ≡ true) _ _ []
            (difference-All _ (difference pages (map cache_pair routes)) [] (
              difference-All _ pages (map cache_pair routes)
                (All-of_has_pair (λ pair. has_pair pair pages ≡ true) pages (λ x h. h))))
            tt

      -- a page of the file system that is not in the cache is found
      found-lookup :
          (pair : Pair)
          → has_pair pair (map page_pair (values py)) ≡ true
          → stands_for (pair.0) (map cache_pair routes) pair ≡ true
          → is_some (lookup (pair.0) found) ≡ true
      unfolding has_pair
      found-lookup pair held stands =
          (get_diff_cache_and_fs-lookup routes (values py) [] (pair.0)).1
          ∙ any-true _ pair (map page_pair (values py)) held (ground arith)

      found-has_pair :
          (pair : Pair)
          → has_pair pair (map page_pair (values py)) ≡ true
          → stands_for (pair.0) (map cache_pair routes) pair ≡ true
          → has_pair pair (map page_pair (values found)) ≡ true
      found-has_pair (e, fs) held stands = elim (Option-cases (lookup e found)) [
        | inl gone ↦ cc (gone, found-lookup (e, fs) held stands)
        | inr (page, here) ↦
            let named = lookup-named page_key e found found-IsKeyed here in
            let (p, at, path) =
              lookup-of_has_pair py page.endpoint page.fs_path keyed
                (lookup-All _ e found found-All here) in
            let (p', at', path') = lookup-of_has_pair py e fs keyed held in
            let same_page : p ≡ p' = some_inj (sym at ∙ (ap (λ k. lookup k py) named ∙ at')) in
            let same : page.fs_path ≡ fs = sym path ∙ (ap (λ q. q.fs_path) same_page ∙ path') in
            subst (λ text. has_pair (e, text) (map page_pair (values found)) ≡ true) same
              (has_pair-of_lookup found e page found-IsKeyed here)
      ]

      -- nothing that was to be added is to be added once it is excluded
      pub need_add-empty : (get_diff_cache_and_fs routes (values py) (values found)).need_add ≡ []
      need_add-empty = dict_empty _ (λ e.
          (get_diff_cache_and_fs-lookup routes (values py) (values found) e).1
          ∙ any-false _ (map page_pair (values py)) (λ pair held. excluded e pair held))
        where
          excluded :
              (e : String) (pair : Pair)
              → has_pair pair (map page_pair (values py)) ≡ true
              → (stands_for e (map cache_pair routes) pair
                  && not (has_pair pair (map page_pair (values found))))
                ≡ false
          excluded e pair held =
              ground (arith, found-has_pair pair held, eq_iff (pair.0) e, eq_refl (pair.0))

  unchanged : (route : RouteCache) → IsCurrent py route → is_changed py route ≡ false
  unfolding is_changed
  unchanged route h = elim (Option-cases (lookup route.endpoint py)) [
    | inl e ↦ rw (e, is_changed) refl
    | inr (page, e) ↦
        let same : IsCurrentAt (some page) route = subst (λ o. IsCurrentAt o route) e h in
        rw (e, is_changed) (ground (arith, eqb_iff page.mtime route.mtime, same.1))
  ]

  -- the loop over the routes of a current cache makes a fake route of each
  pub sift_current :
      (routes : List RouteCache) (d : DevRouteManager)
      → d.py_files_mtime ≡ py
      → All (IsCurrent py) routes
      → sift [] routes d ≡ ([], add_fake_routes routes d)
  unfolding sift lookup add_fake_routes add_fake_route
  sift_current [] d same h = refl
  sift_current (route ∷ routes) d same (hr, hs) =
      rw (subst (λ p. is_changed p route ≡ false) (sym same) (unchanged route hr))
        (sift_current routes (add_fake_route route d) same hs)
