-- ===== src/DevRouteManager.antt =====
-- frontik/dev_route_manager.py: the routes of the development mode, so that a page is imported when
-- it is first asked for. The modules that Python loads are a parameter.
mod Entries
pub mod ImportRoute
mod Steady
mod Tests
use frontik.Prelude.{
  ℕ, String, Bool, false, not, Option, none, some, List, [], ◌∷◌, ◌++◌, ◌+++◌, map, eqb, ltb,
  if◌then◌else◌, length, Dict, lookup, insert, values, is_some, upper,
}
use frontik.Routing.{api, SortKey, key_lt, get_route_sort_key}
use frontik.CacheDiff.{
  RouteCache, PageMtime, DiffResult, empty_fs_path, max_changed_files_count_to_invalidate,
  get_diff_cache_and_fs, WalkedFile, map_py_files_mtime,
}

-- a route of FastAPI: the module of its endpoint, its methods in the order of their set
pub record FastapiRoute : Type 0 where
  pub module_name : String
  pub methods : List String
  pub path : String
  pub path_format : String

pub first_method : List String → String
first_method [] = "GET"
first_method (m ∷ ms) = m

pub convert_fastapi_route_to_cache : FastapiRoute → String → ℕ → RouteCache
unfolding first_method
convert_fastapi_route_to_cache route fs_path mtime = record {
  endpoint = route.module_name;
  method = upper (first_method route.methods);
  path = route.path;
  mtime = mtime;
  fs_path = fs_path;
}

-- the lists of routing.py: `_fastapi_routes`, and the last route of `not_found_router`, which app.py fills
pub record Tables : Type 0 where
  pub fastapi_routes : List FastapiRoute
  pub not_found_route : FastapiRoute

-- the module `routes_map_exclude-dev-watcher_.py`
pub record RoutesMapFile : Type 0 where
  pub routes_map : List RouteCache
  pub exclude_pages_to_add : List PageMtime
  pub mandatory_for_import : List RouteCache

-- `DevRouteManager`, with the lists that it shares with routing.py, the file, and the modules that
-- it has asked Python to import, oldest first. A fake route is held without its router, as the
-- route of FastAPI that answers with the name of the module.
pub record DevRouteManager : Type 0 where
  pub routes_map_module : Dict RouteCache
  pub exclude_pages_to_add : List PageMtime
  pub fake_routes : List FastapiRoute
  pub py_files_mtime : Dict PageMtime
  pub tables : Tables
  pub file : Option RoutesMapFile
  pub imported : List String

-- `__init__`, in a process that has imported app.py
abbrev pub new_manager : Tables → Option RoutesMapFile → DevRouteManager
new_manager tables file = record {
  routes_map_module = [];
  exclude_pages_to_add = [];
  fake_routes = [];
  py_files_mtime = [];
  tables = tables;
  file = file;
  imported = [];
}

-- `list.sort(key=get_route_sort_key)`
abbrev key_of : FastapiRoute → SortKey
key_of route =
    get_route_sort_key
      (api (record { id = 0; path_format = route.path_format; endpoint = route.module_name }))

insert_fastapi_route : FastapiRoute → List FastapiRoute → List FastapiRoute
insert_fastapi_route r [] = r ∷ []
insert_fastapi_route r (s ∷ rs) =
    let rest = insert_fastapi_route r rs in
    if key_lt (key_of s) (key_of r) then s ∷ rest else r ∷ s ∷ rs

pub sort_fastapi_routes : List FastapiRoute → List FastapiRoute
unfolding insert_fastapi_route
sort_fastapi_routes [] = []
sort_fastapi_routes (r ∷ rs) = insert_fastapi_route r (sort_fastapi_routes rs)

unfoldable pub route_key : RouteCache → String
route_key route = upper route.method +++ ("." +++ route.path)

unfoldable pub fake_route : RouteCache → FastapiRoute
fake_route route = record {
  module_name = route.endpoint;
  methods = upper route.method ∷ [];
  path = "/fake" +++ route.path;
  path_format = "/fake" +++ route.path;
}

unfoldable pub add_fake_route : RouteCache → DevRouteManager → DevRouteManager
unfolding route_key fake_route
add_fake_route route d = record d {
  routes_map_module = insert (route_key route) route d.routes_map_module;
  fake_routes = d.fake_routes ++ fake_route route ∷ [];
}

-- `module_path_map.get(module_name, ...)`, and the entry of the route
pub cache_entry : FastapiRoute → Option PageMtime → RouteCache
unfolding convert_fastapi_route_to_cache
cache_entry route none = convert_fastapi_route_to_cache route empty_fs_path 0
cache_entry route (some page) = convert_fastapi_route_to_cache route page.fs_path page.mtime

pub add_entries : Dict PageMtime → List FastapiRoute → DevRouteManager → DevRouteManager
unfolding cache_entry
add_entries module_path_map [] d = d
add_entries module_path_map (route ∷ routes) d =
    add_entries module_path_map routes
      (add_fake_route (cache_entry route (lookup route.module_name module_path_map)) d)

pub proccess_fastapi_routes_to_dev_route : Dict PageMtime → DevRouteManager → DevRouteManager
unfolding add_entries
proccess_fastapi_routes_to_dev_route module_path_map d =
    add_entries module_path_map d.tables.fastapi_routes d

unfoldable pub update_file_cache : DevRouteManager → DevRouteManager
unfolding convert_fastapi_route_to_cache
update_file_cache d = record d {
  file = some (record {
    routes_map = values d.routes_map_module;
    exclude_pages_to_add = d.exclude_pages_to_add;
    mandatory_for_import =
        convert_fastapi_route_to_cache d.tables.not_found_route empty_fs_path 0 ∷ [];
  });
}

unfoldable pub is_changed : Dict PageMtime → RouteCache → Bool
is_changed py_files route = elim (lookup route.endpoint py_files) [
  | none ↦ false
  | some page ↦ not (eqb page.mtime route.mtime)
]

-- the loop over `routes_map`, with the endpoints of `need_to_update`
pub sift : Dict PageMtime → List RouteCache → DevRouteManager → List String × DevRouteManager
unfolding is_changed
sift need_delete [] d = ([], d)
sift need_delete (route ∷ routes) d =
    let (changed, d') = sift need_delete routes d in
    if is_changed d.py_files_mtime route
    then (route.endpoint ∷ changed, d')
    else if is_some (lookup route.endpoint need_delete)
    then (changed, d')
    else sift need_delete routes (add_fake_route route d)

abbrev pub endpoints : List RouteCache → List String
endpoints routes = map (λ r. r.endpoint) routes

-- `load` is what importing a module makes of the lists of routing.py, behind the modules that are
-- imported, for modules that can be imported: one that cannot ends the process while it starts.
-- `walk` gives the modules that `_iter_submodules` finds below a package, if it is there.
module _ (load : List String → String → Tables → Tables)
    (walk : String → Option (List String)) where
  pub import_module : String → DevRouteManager → DevRouteManager
  import_module name d = record d {
    tables = load d.imported name d.tables;
    imported = d.imported ++ name ∷ [];
  }

  pub import_modules : List String → DevRouteManager → DevRouteManager
  unfolding import_module
  import_modules [] d = d
  import_modules (name ∷ names) d = import_modules names (import_module name d)

  unfoldable pub sort_tables : DevRouteManager → DevRouteManager
  unfolding sort_fastapi_routes
  sort_tables d = record d {
    tables = record (d.tables) { fastapi_routes = sort_fastapi_routes d.tables.fastapi_routes };
  }

  -- `routing.import_all_pages`
  pub import_pages : String → DevRouteManager → DevRouteManager
  unfolding import_modules sort_tables
  import_pages app_module d = elim (walk (app_module +++ ".pages")) [
    | none ↦ d
    | some names ↦ sort_tables (import_modules ((app_module +++ ".pages") ∷ names) d)
  ]

  -- the end of `create_route_map_module`, where the pages without a route are excluded
  unfoldable pub save_created : DevRouteManager → DevRouteManager
  unfolding get_diff_cache_and_fs
  save_created d =
      let diff = get_diff_cache_and_fs (values d.routes_map_module) (values d.py_files_mtime) [] in
      update_file_cache (record d { exclude_pages_to_add = values diff.need_add })

  unfoldable pub create_route_map_module : String → DevRouteManager → DevRouteManager
  unfolding import_pages proccess_fastapi_routes_to_dev_route
  create_route_map_module app_module d =
      save_created
        (proccess_fastapi_routes_to_dev_route d.py_files_mtime (import_pages app_module d))

  unfoldable pub add_routes_to_cache : List String → DevRouteManager → DevRouteManager
  unfolding import_modules proccess_fastapi_routes_to_dev_route
  add_routes_to_cache names d =
      proccess_fastapi_routes_to_dev_route d.py_files_mtime (import_modules names d)

  unfoldable pub save : DevRouteManager → DevRouteManager
  unfolding sort_fastapi_routes sort_tables
  save d =
      update_file_cache (sort_tables (record d { fake_routes = sort_fastapi_routes d.fake_routes }))

  -- behind the loop, for the endpoints of `routes_add_to_cache`
  unfoldable pub refresh : String → List String → DevRouteManager → DevRouteManager
  refresh app_module [] d = save d
  refresh app_module (name ∷ names) d =
      if ltb max_changed_files_count_to_invalidate (length (name ∷ names))
      then create_route_map_module app_module d
      else save (add_routes_to_cache (name ∷ names) d)

  -- the loop over the routes of the file, and what follows it
  unfoldable pub apply_diff :
      String → DiffResult → List RouteCache → DevRouteManager → DevRouteManager
  unfolding sift
  apply_diff app_module diff routes_map d =
      let (changed, d') = sift diff.need_delete routes_map d in
      refresh app_module (map (λ p. p.endpoint) (values diff.need_add) ++ changed) d'

  -- the start with a file
  unfoldable pub import_cached : String → RoutesMapFile → DevRouteManager → DevRouteManager
  unfolding import_modules get_diff_cache_and_fs
  import_cached app_module file d =
      let d' =
        import_modules (endpoints file.mandatory_for_import)
          (record d { exclude_pages_to_add = file.exclude_pages_to_add }) in
      apply_diff app_module
        (get_diff_cache_and_fs file.routes_map (values d'.py_files_mtime) d'.exclude_pages_to_add)
        file.routes_map d'

  unfoldable pub start_from : String → Option RoutesMapFile → DevRouteManager → DevRouteManager
  start_from app_module none d = create_route_map_module app_module d
  start_from app_module (some file) d = import_cached app_module file d

  -- `DevRouteManager.import_all_pages`, with the files below the folder of the pages
  unfoldable pub import_all_pages : String → ℕ → List WalkedFile → DevRouteManager → DevRouteManager
  unfolding map_py_files_mtime
  import_all_pages app_module src_folder_len files d =
      start_from app_module d.file
        (record d { py_files_mtime = map_py_files_mtime src_folder_len files })
