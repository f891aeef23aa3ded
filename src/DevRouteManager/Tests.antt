-- ===== src/DevRouteManager/Tests.antt =====
-- The development mode on three files, one of which has no routes.
use frontik.Prelude.{
  Bool, true, false, String, Option, none, some, List, [], ◌∷◌, ◌++◌, map, ◌≡◌, refl, ◌==◌,
  if◌then◌else◌, lookup, insert, replace, ends_with, has_text, drop_chars, upper, elem,
}
use frontik.CacheDiff.{WalkedFile}
use frontik.DevRouteManager.{
  FastapiRoute, Tables, new_manager, import_all_pages, start_from, create_route_map_module,
  save_created, update_file_cache, add_fake_route, DevRouteManager, sort_tables, import_module,
}
use frontik.Routing.{
  key_lt, get_route_sort_key, Matcher, no_match, full, api, other, Table, strip_path,
  get_allowed_methods, with_endpoint,
}
use frontik.Routing.Dispatch.{find_route}
use frontik.DevRouteManager.ImportRoute.{held_methods, import_route, fake_object}
use frontik.DevRouteManager.ImportRoute.Wanted.{import_route-wanted}
use frontik.DevRouteManager.Steady.{Steady, import_all_pages-Steady}

abbrev route : String → String → FastapiRoute
route module_name path = record {
  module_name = module_name;
  methods = "GET" ∷ [];
  path = path;
  path_format = path;
}

abbrev tables : Tables
tables = record { fastapi_routes = []; not_found_route = route "frontik.app" "__not_found" }

-- each module registers one route, but the page without routes
abbrev load : List String → String → Tables → Tables
load imported name t =
    if name == "app.pages.bare"
    then t
    else record t { fastapi_routes = t.fastapi_routes ++ route name name ∷ [] }

abbrev walk : String → Option (List String)
walk package_name = some ("app.pages.a" ∷ "app.pages.bare" ∷ [])

abbrev files : List WalkedFile
files =
    record { dirpath = "/site/app/pages"; filename = "a.py"; mtime = 5 }
    ∷ record { dirpath = "/site/app/pages"; filename = "bare.py"; mtime = 6 }
    ∷ []

import_all_pages-Steady_example :
    Steady (import_all_pages load walk "app" 6 files (new_manager tables none)) (
      import_all_pages load walk "app" 6 files (
        new_manager tables
          (import_all_pages load walk "app" 6 files (new_manager tables none)).file))
import_all_pages-Steady_example = import_all_pages-Steady load walk "app" 6 files tables tables

first_excludes :
    map
      (λ p. p.endpoint)
      (import_all_pages load walk "app" 6 files (new_manager tables none)).exclude_pages_to_add
    ≡ "app.pages.bare" ∷ []
unfolding import_all_pages start_from create_route_map_module save_created update_file_cache lookup
    insert replace drop_chars ends_with has_text upper key_lt get_route_sort_key add_fake_route
first_excludes = refl

-- A request for a page that is known by its fake route only.
abbrev matches : Matcher Unit
matches (api r) methods path method = if r.path_format == path then full tt else no_match
matches (other i) methods path method = no_match

abbrev objects : Tables → Table
objects t = record { fastapi_routes = []; not_found = []; method_not_allowed = []; preflight = [] }

-- one page cannot be imported
abbrev imports : List String → String → Bool
imports imported name = if name == "app.pages.a" then false else true

abbrev started : DevRouteManager
started = record (new_manager tables none) {
  fake_routes = route "app.pages.a" "/fake/a" ∷ route "app.pages.b" "/fake/b" ∷ [];
}

import_route-wanted_example :
    import_route matches objects 5 load walk imports (λ i. []) "/b/" "get" started
    ≡ some (
      held_methods 5 started.fake_routes (λ i. []),
      sort_tables load walk (import_module load walk "app.pages.b" started),
    )
unfolding upper strip_path elem fake_object
import_route-wanted_example =
    import_route-wanted matches objects 5 load walk imports (λ i. []) "/b/" "get" started
      (route "app.pages.b" "/fake/b") refl

-- a HEAD request for the page raises, since the table has no route that answers it
head_request : import_route matches objects 5 load walk imports (λ i. []) "/b" "head" started ≡ none
unfolding import_route upper find_route key_lt get_route_sort_key elem fake_object
    get_allowed_methods with_endpoint
head_request = refl
