-- ===== src/DevRouteManager/Steady.antt =====
-- A second start of the development mode on unchanged files, in frontik/dev_route_manager.py.
use mathlib.Core.Path.{subst}
use frontik.Prelude.{
  ℕ, String, Option, none, some, List, [], ◌∷◌, ◌++◌, map, All, ◌≡◌, refl, sym, ◌∙◌, ap, Dict,
  values, IsKeyed, insert_by, insert_by-values,
}
use frontik.CacheDiff.{
  RouteCache, PageMtime, WalkedFile, get_diff_cache_and_fs, empty_fs_path, map_py_files_mtime,
  DiffResult,
}
use frontik.DevRouteManager.{
  FastapiRoute, Tables, RoutesMapFile, DevRouteManager, new_manager, convert_fastapi_route_to_cache,
  fake_route, route_key, add_fake_route, sort_fastapi_routes, import_module, import_modules,
  import_pages, proccess_fastapi_routes_to_dev_route, update_file_cache, create_route_map_module,
  save_created, save, refresh, import_cached, apply_diff, start_from, import_all_pages, endpoints,
  sort_tables,
}
use frontik.CacheDiff.Pages.{page_key, map_py_files_mtime-IsKeyed}
use frontik.DevRouteManager.Entries.{
  IsMade, IsCurrent, process-IsMade, import_pages-IsMade, need_delete-empty, need_add-empty,
  sift_current, add_fake_routes,
}

add_fake_routes-routes_map_module :
    (routes : List RouteCache) (d : DevRouteManager)
    → (add_fake_routes routes d).routes_map_module ≡ insert_by route_key routes d.routes_map_module
unfolding add_fake_routes add_fake_route insert_by
add_fake_routes-routes_map_module [] d = refl
add_fake_routes-routes_map_module (r ∷ rs) d =
    add_fake_routes-routes_map_module rs (add_fake_route r d)

append_assoc :
    (xs : List FastapiRoute) (x : FastapiRoute) (ys : List FastapiRoute)
    → (xs ++ x ∷ []) ++ ys ≡ xs ++ x ∷ ys
append_assoc [] x ys = refl
append_assoc (z ∷ xs) x ys = ap (λ r. z ∷ r) (append_assoc xs x ys)

append_nil : (xs : List FastapiRoute) → xs ≡ xs ++ []
append_nil [] = refl
append_nil (x ∷ xs) = ap (λ r. x ∷ r) (append_nil xs)

add_fake_routes-fake_routes :
    (routes : List RouteCache) (d : DevRouteManager)
    → (add_fake_routes routes d).fake_routes ≡ d.fake_routes ++ map fake_route routes
unfolding add_fake_routes add_fake_route
add_fake_routes-fake_routes [] d = append_nil d.fake_routes
add_fake_routes-fake_routes (r ∷ rs) d =
    add_fake_routes-fake_routes rs (add_fake_route r d)
    ∙ append_assoc d.fake_routes (fake_route r) (map fake_route rs)

-- the fields that adding fake routes leaves alone
add_fake_routes-rest :
    (routes : List RouteCache) (d : DevRouteManager)
    → ((add_fake_routes routes d).imported ≡ d.imported)
      × ((add_fake_routes routes d).exclude_pages_to_add ≡ d.exclude_pages_to_add)
unfolding add_fake_routes add_fake_route
add_fake_routes-rest [] d = (refl, refl)
add_fake_routes-rest (r ∷ rs) d = add_fake_routes-rest rs (add_fake_route r d)

pub record Steady (first second : DevRouteManager) : Type 0 where
  pub imported : second.imported ≡ first.tables.not_found_route.module_name ∷ []
  pub routes_map_module : second.routes_map_module ≡ first.routes_map_module
  pub exclude_pages_to_add : second.exclude_pages_to_add ≡ first.exclude_pages_to_add
  pub fake_routes :
      second.fake_routes ≡ sort_fastapi_routes (map fake_route (values first.routes_map_module))
  -- the entries that the file holds
  pub file :
      (f : RoutesMapFile) × (second.file ≡ some f)
      × (f.routes_map ≡ values first.routes_map_module)
      × (f.exclude_pages_to_add ≡ first.exclude_pages_to_add)

module _ (load : List String → String → Tables → Tables) (walk : String → Option (List String))
    (app_module : String) where
  -- a difference without members, on a current cache
  apply_diff-steady :
      (py : Dict PageMtime) (diff : DiffResult) (routes : List RouteCache) (d : DevRouteManager)
      → d.py_files_mtime ≡ py
      → All (IsCurrent py) routes
      → diff.need_add ≡ []
      → diff.need_delete ≡ []
      → apply_diff load walk app_module diff routes d ≡ save load walk (add_fake_routes routes d)
  unfolding apply_diff refresh
  apply_diff-steady py diff routes d same current nothing kept =
      rw (nothing, kept, sift_current py routes d same current) refl

  -- the imports leave the pages and the exclusions alone
  import_modules-rest :
      (names : List String) (d : DevRouteManager)
      → ((import_modules load walk names d).py_files_mtime ≡ d.py_files_mtime)
        × ((import_modules load walk names d).exclude_pages_to_add ≡ d.exclude_pages_to_add)
        × ((import_modules load walk names d).routes_map_module ≡ d.routes_map_module)
        × ((import_modules load walk names d).fake_routes ≡ d.fake_routes)
  unfolding import_modules import_module
  import_modules-rest [] d = (refl, refl, refl, refl)
  import_modules-rest (name ∷ names) d = import_modules-rest names (import_module load walk name d)

  -- a start with a file to which nothing is to be added, and which is current
  import_cached-steady :
      (py : Dict PageMtime) (file : RoutesMapFile) (d : DevRouteManager)
      → IsKeyed page_key py
      → d.py_files_mtime ≡ py
      → All (IsCurrent py) file.routes_map
      → (get_diff_cache_and_fs file.routes_map (values py) file.exclude_pages_to_add).need_add ≡ []
      → import_cached load walk app_module file d
        ≡ save load walk (
            add_fake_routes file.routes_map (
              import_modules load walk
                (endpoints file.mandatory_for_import)
                (record d { exclude_pages_to_add = file.exclude_pages_to_add })))
  unfolding import_cached
  import_cached-steady py file d keyed same current nothing =
      let d' =
        import_modules load walk (endpoints file.mandatory_for_import)
          (record d { exclude_pages_to_add = file.exclude_pages_to_add }) in
      let (pages, excluded, _, _) =
        import_modules-rest (endpoints file.mandatory_for_import)
          (record d { exclude_pages_to_add = file.exclude_pages_to_add }) in
      let added : List PageMtime → Dict PageMtime → Dict PageMtime =
        λ x p. (get_diff_cache_and_fs file.routes_map (values p) x).need_add in
      let deleted : Dict PageMtime → Dict PageMtime = λ p.
        (get_diff_cache_and_fs file.routes_map (values p) d'.exclude_pages_to_add).need_delete in
      apply_diff-steady py _ file.routes_map d' (pages ∙ same) current
        (ap (added d'.exclude_pages_to_add) (pages ∙ same)
          ∙ (ap (λ x. added x py) excluded ∙ nothing))
        (ap deleted (pages ∙ same)
          ∙ need_delete-empty py keyed file.routes_map d'.exclude_pages_to_add current)

  -- what `update_file_cache` writes
  abbrev written : DevRouteManager → RoutesMapFile
  written d = record {
    routes_map = values d.routes_map_module;
    exclude_pages_to_add = d.exclude_pages_to_add;
    mandatory_for_import =
        convert_fastapi_route_to_cache d.tables.not_found_route empty_fs_path 0 ∷ [];
  }

  record IsSaved (py : Dict PageMtime) (d : DevRouteManager) : Type 0 where
    made : IsMade py d
    saved : d.file ≡ some (written d)
    complete :
        (get_diff_cache_and_fs
          (values d.routes_map_module)
          (values py)
          d.exclude_pages_to_add).need_add
        ≡ []

  save_created-IsSaved :
      (d : DevRouteManager)
      → IsKeyed page_key d.py_files_mtime
      → IsMade d.py_files_mtime d
      → IsSaved d.py_files_mtime (save_created load walk d)
  unfolding save_created update_file_cache
  save_created-IsSaved d keyed m = record {
    made = record { pages = refl; keyed = m.keyed; current = m.current };
    saved = refl;
    complete = need_add-empty d.py_files_mtime keyed (values d.routes_map_module);
  }

  create-IsSaved :
      (d : DevRouteManager)
      → IsKeyed page_key d.py_files_mtime
      → IsMade d.py_files_mtime d
      → IsSaved d.py_files_mtime (create_route_map_module load walk app_module d)
  unfolding create_route_map_module
  create-IsSaved d keyed m =
      let py = d.py_files_mtime in
      let d' = proccess_fastapi_routes_to_dev_route py (import_pages load walk app_module d) in
      let m' = process-IsMade py _ (import_pages-IsMade py load walk app_module d m) in
      subst (λ p. IsSaved p (save_created load walk d')) m'.pages
        (save_created-IsSaved d' (subst (λ p. IsKeyed page_key p) (sym m'.pages) keyed)
          (subst (λ p. IsMade p d') (sym m'.pages) m'))

  import_one :
      (name : String) (d : DevRouteManager)
      → d.imported ≡ []
      → (import_modules load walk (name ∷ []) d).imported ≡ name ∷ []
  unfolding import_modules import_module
  import_one name d none_yet = ap (λ xs. xs ++ name ∷ []) none_yet

  -- a start with the file of another manager
  start-Steady :
      (first d : DevRouteManager)
      → IsKeyed page_key d.py_files_mtime
      → IsSaved d.py_files_mtime first
      → d.routes_map_module ≡ []
      → d.fake_routes ≡ []
      → d.imported ≡ []
      → Steady first (start_from load walk app_module (some (written first)) d)
  unfolding start_from save update_file_cache sort_tables convert_fastapi_route_to_cache
  start-Steady first d keyed s no_routes no_fakes no_imports =
      let file = written first in
      let d' =
        import_modules load walk (endpoints file.mandatory_for_import)
          (record d { exclude_pages_to_add = file.exclude_pages_to_add }) in
      let d'' = add_fake_routes file.routes_map d' in
      let (pages, excluded, routes, fakes) =
        import_modules-rest (endpoints file.mandatory_for_import)
          (record d { exclude_pages_to_add = file.exclude_pages_to_add }) in
      let same_routes : d''.routes_map_module ≡ first.routes_map_module =
        add_fake_routes-routes_map_module file.routes_map d'
        ∙ (ap (insert_by route_key file.routes_map) (routes ∙ no_routes)
            ∙ insert_by-values route_key first.routes_map_module s.made.keyed) in
      let same_excluded : d''.exclude_pages_to_add ≡ first.exclude_pages_to_add =
        (add_fake_routes-rest file.routes_map d').1 ∙ excluded in
      subst (Steady first)
        (sym (import_cached-steady d.py_files_mtime file d keyed refl s.made.current s.complete))
        (record {
          imported =
              (add_fake_routes-rest file.routes_map d').0
              ∙ import_one first.tables.not_found_route.module_name _ no_imports;
          routes_map_module = same_routes;
          exclude_pages_to_add = same_excluded;
          fake_routes = ap sort_fastapi_routes (
              add_fake_routes-fake_routes file.routes_map d'
              ∙ ap (λ xs. xs ++ map fake_route file.routes_map) (fakes ∙ no_fakes));
          file = (_, refl, ap values same_routes, same_excluded);
        })

  -- After a first start without a file of the cache, another process that starts with the file that is
  -- left, and with the same files below the folder of the pages, imports no page: it imports the
  -- module of the route for what is not found and nothing else, it has the same entries and the
  -- same excluded pages, a fake route for each entry, in the order of the routing, and leaves a
  -- file with the same entries and exclusions. This holds whatever the modules do with the lists
  -- of routes when they are imported.
  pub import_all_pages-Steady :
      (n : ℕ) (files : List WalkedFile) (tables tables' : Tables)
      → Steady (import_all_pages load walk app_module n files (new_manager tables none)) (
          import_all_pages load walk app_module n files (
            new_manager tables'
              (import_all_pages load walk app_module n files (new_manager tables none)).file))
  unfolding import_all_pages start_from IsKeyed
  import_all_pages-Steady n files tables tables' =
      let py = map_py_files_mtime n files in
      let keyed = map_py_files_mtime-IsKeyed n files in
      let first = import_all_pages load walk app_module n files (new_manager tables none) in
      let saved : IsSaved py first =
        create-IsSaved (record (new_manager tables none) { py_files_mtime = py }) keyed
          (record { pages = refl; keyed = tt; current = tt }) in
      subst
        (λ file.
          Steady first (import_all_pages load walk app_module n files (new_manager tables' file)))
        (sym saved.saved)
        (start-Steady first
          (record (new_manager tables' (some (written first))) { py_files_mtime = py }) keyed saved
          refl refl refl)
