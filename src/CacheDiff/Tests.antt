-- ===== src/CacheDiff/Tests.antt =====
-- A cache with a page that is gone, and files with one that is new and one that is excluded.
use frontik.Prelude.{
  ℕ, String, true, false, List, [], ◌∷◌, ◌≡◌, refl, is_some, lookup, insert, replace, drop_chars,
}
use frontik.CacheDiff.{RouteCache, PageMtime, has_pair, get_diff_cache_and_fs, fs_path_to_entry}
use frontik.CacheDiff.Difference.{get_diff_cache_and_fs-lookup}

abbrev routes_map : List RouteCache
routes_map =
    record { endpoint = "app.pages.a"; method = "GET"; path = "/a"; mtime = 1; fs_path = "a.py" }
    ∷ record { endpoint = "app.pages.b"; method = "GET"; path = "/b"; mtime = 1; fs_path = "b.py" }
    ∷ []

abbrev page : String → ℕ → String → PageMtime
page endpoint mtime fs_path = record { endpoint = endpoint; mtime = mtime; fs_path = fs_path }

abbrev pages : List PageMtime
pages = page "app.pages.a" 2 "a.py" ∷ page "app.pages.c" 1 "c.py" ∷ page "app.pages.d" 9 "d.py" ∷ []

abbrev excluded : List PageMtime
excluded = page "app.pages.d" 1 "d.py" ∷ []

get_diff_cache_and_fs-lookup_example :
    (is_some (lookup "app.pages.b" (get_diff_cache_and_fs routes_map pages excluded).need_delete)
      ≡ true)
    × (is_some (lookup "app.pages.b" (get_diff_cache_and_fs routes_map pages excluded).need_add)
        ≡ false)
unfolding has_pair
get_diff_cache_and_fs-lookup_example =
    get_diff_cache_and_fs-lookup routes_map pages excluded "app.pages.b"

-- A page that is excluded stays so when its file changes.
still_excluded :
    is_some (lookup "app.pages.d" (get_diff_cache_and_fs routes_map pages excluded).need_add)
    ≡ false
unfolding get_diff_cache_and_fs lookup insert
still_excluded = refl

entry : fs_path_to_entry "/site/app/pages/x/__init__.py" 6 ≡ "app.pages.x"
unfolding fs_path_to_entry replace drop_chars
entry = refl
