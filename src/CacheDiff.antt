-- ===== src/CacheDiff.antt =====
-- frontik/dev_route_manager.py: the cache of routes that the development mode keeps beside the
-- package, and what differs between it and the files. A set is a list in the order in which its
-- members are added.
pub mod Difference
pub mod Pages
mod Tests
use frontik.Prelude.{
  ℕ, String, Bool, false, not, ◌&&◌, ◌||◌, Option, none, some, List, [], ◌∷◌, ◌++◌, ◌+++◌, map,
  ◌==◌, if◌then◌else◌, Dict, lookup, insert, has_text, ends_with, drop_chars, replace,
}

pub record RouteCache : Type 0 where
  pub endpoint : String
  pub method : String
  pub path : String
  pub mtime : ℕ
  pub fs_path : String

-- times are compared for equality only
pub record PageMtime : Type 0 where
  pub endpoint : String
  pub mtime : ℕ
  pub fs_path : String

pub record DiffResult : Type 0 where
  pub need_add : Dict PageMtime
  pub need_delete : Dict PageMtime

abbrev pub empty_fs_path : String
empty_fs_path = "empty"

abbrev pub max_changed_files_count_to_invalidate : ℕ
max_changed_files_count_to_invalidate = 15

-- an endpoint and its path
abbrev pub Pair : Type 0
Pair = String × String

unfoldable pub has_pair : Pair → List Pair → Bool
has_pair pair [] = false
has_pair pair (p ∷ ps) = (p.0 == pair.0 && p.1 == pair.1) || has_pair pair ps

abbrev pub page_pair : PageMtime → Pair
page_pair page = (page.endpoint, page.fs_path)

abbrev pub cache_pair : RouteCache → Pair
cache_pair route = (route.endpoint, route.fs_path)

-- `routes_cache_endpoint_map_mtime` and `py_files_endpoint_map_mtime`
unfoldable pub cache_mtimes : List RouteCache → Dict ℕ → Dict ℕ
cache_mtimes [] d = d
cache_mtimes (r ∷ rs) d = cache_mtimes rs (insert r.endpoint r.mtime d)

unfoldable pub page_mtimes : List PageMtime → Dict ℕ → Dict ℕ
page_mtimes [] d = d
page_mtimes (p ∷ ps) d = page_mtimes ps (insert p.endpoint p.mtime d)

-- `xs - ys` on sets of pairs
unfoldable pub difference : List Pair → List Pair → List Pair
unfolding has_pair
difference [] ys = []
difference (x ∷ xs) ys = let rest = difference xs ys in if has_pair x ys then rest else x ∷ rest

-- Each endpoint of a pair has a time, so that the case of a missing key does not occur.
unfoldable pub add_page : Option ℕ → Pair → Dict PageMtime → Dict PageMtime
add_page none (endpoint, fs_path) d = d
add_page (some mtime) (endpoint, fs_path) d =
    insert endpoint (record { endpoint = endpoint; mtime = mtime; fs_path = fs_path }) d

-- the loops that fill `need_delete` and `need_add`
unfoldable pub need_pages : Dict ℕ → List Pair → Dict PageMtime → Dict PageMtime
unfolding add_page
need_pages mtimes [] d = d
need_pages mtimes ((endpoint, fs_path) ∷ pairs) d = need_pages mtimes pairs (
    if fs_path == empty_fs_path then d else add_page (lookup endpoint mtimes) (endpoint, fs_path) d)

unfoldable pub get_diff_cache_and_fs :
    List RouteCache → List PageMtime → List PageMtime → DiffResult
unfolding cache_mtimes page_mtimes difference need_pages
get_diff_cache_and_fs routes_map py_files_mtime exclude_pages_to_add =
    let cached = map cache_pair routes_map in
    let pages = map page_pair py_files_mtime in
    let excluded = map page_pair exclude_pages_to_add in
    record {
      need_add =
          need_pages (page_mtimes py_files_mtime []) (difference (difference pages cached) excluded)
            [];
      need_delete = need_pages (cache_mtimes routes_map []) (difference cached pages) [];
    }

unfoldable pub fs_path_to_entry : String → ℕ → String
fs_path_to_entry fs_path src_folder_len =
    replace "/" "."
      (replace ".py" "" (replace "/__init__.py" "" (drop_chars src_folder_len fs_path)))

-- a file that `os.walk` finds: its directory, its name and its time
pub record WalkedFile : Type 0 where
  pub dirpath : String
  pub filename : String
  pub mtime : ℕ

unfoldable pub page_of : ℕ → WalkedFile → PageMtime
unfolding fs_path_to_entry
page_of src_folder_len file =
    let full_path = file.dirpath +++ ("/" +++ file.filename) in
    record {
      endpoint = fs_path_to_entry full_path src_folder_len;
      mtime = file.mtime;
      fs_path = full_path;
    }

pub map_files : ℕ → List WalkedFile → Dict PageMtime → Dict PageMtime
unfolding page_of
map_files src_folder_len [] d = d
map_files src_folder_len (file ∷ files) d = map_files src_folder_len files (
    if ends_with ".py" file.filename && not (has_text ".null-ls_" file.filename)
    then insert (page_of src_folder_len file).endpoint (page_of src_folder_len file) d
    else d)

-- `map_py_files_mtime`, over the files below the folder
unfoldable pub map_py_files_mtime : ℕ → List WalkedFile → Dict PageMtime
unfolding map_files
map_py_files_mtime src_folder_len files = map_files src_folder_len files []
