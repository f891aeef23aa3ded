-- ===== src/CacheDiff/Pages.antt =====
-- Pages under their endpoints, and the pairs of a cache, in frontik/dev_route_manager.py.
use frontik.Prelude.{
  ℕ, String, Bool, true, false, not, ◌&&◌, Option, none, some, List, [], ◌∷◌, map, any, All, ◌≡◌,
  refl, ◌==◌, eq_iff, eq_refl, Dict, lookup, values, is_some, arith, Bool-cases, inl, inr, IsKeyed,
  insert-IsKeyed, All-values-insert, has_text, ends_with,
}
use frontik.CacheDiff.{
  PageMtime, Pair, WalkedFile, has_pair, page_pair, empty_fs_path, difference, add_page, need_pages,
  map_files, map_py_files_mtime, page_of,
}

abbrev pub page_key : PageMtime → String
page_key page = page.endpoint

pub dict_empty {ℓ} :
    {V : Type ℓ} (d : Dict V) → ((k : String) → is_some (lookup k d) ≡ false) → d ≡ []
unfolding lookup
dict_empty [] h = refl
dict_empty ((k, v) ∷ d) h = ground (arith, h k, eq_refl k)

pub any-false :
    (f : Pair → Bool) (xs : List Pair)
    → ((x : Pair) → has_pair x xs ≡ true → f x ≡ false)
    → any f xs ≡ false
unfolding has_pair
any-false f [] h = refl
any-false f (x ∷ xs) h =
    ground (arith, h x, eq_refl (x.0), eq_refl (x.1), any-false f xs (λ y e. h y (ground arith)))

pub any-true :
    (f : Pair → Bool) (x : Pair) (xs : List Pair)
    → has_pair x xs ≡ true
    → f x ≡ true
    → any f xs ≡ true
unfolding has_pair
any-true f x [] e h = cc e
any-true f (a, b) ((c, d) ∷ xs) e h = ground (arith, eq_iff c a, eq_iff d b, any-true f (a, b) xs)

-- the members of a list
pub All-of_has_pair {κ} :
    (P : Pair → Type κ) (xs : List Pair) → ((x : Pair) → has_pair x xs ≡ true → P x) → All P xs
unfolding has_pair
All-of_has_pair P [] h = tt
All-of_has_pair P (x ∷ xs) h = (
  h x (ground (arith, eq_refl (x.0), eq_refl (x.1))),
  All-of_has_pair P xs (λ y e. h y (ground arith)),
)

pub difference-All {κ} :
    (P : Pair → Type κ) (xs ys : List Pair) → All P xs → All P (difference xs ys)
unfolding difference
difference-All P [] ys h = tt
difference-All P (x ∷ xs) ys (hx, h) = elim (Bool-cases (has_pair x ys)) [
  | inl e ↦ rw e (difference-All P xs ys h)
  | inr e ↦ rw e (hx, difference-All P xs ys h)
]

-- a page stands in the list of the pages
pub has_pair-of_lookup :
    (py : Dict PageMtime) (e : String) (page : PageMtime)
    → IsKeyed page_key py
    → lookup e py ≡ some page
    → has_pair (e, page.fs_path) (map page_pair (values py)) ≡ true
unfolding IsKeyed lookup has_pair
has_pair-of_lookup [] e page h found = cc found
has_pair-of_lookup ((k, p) ∷ py) e page (named, fresh, rest) found = ground (
  arith,
  eq_iff k e,
  eq_iff p.endpoint e,
  eq_refl page.fs_path,
  has_pair-of_lookup py e page rest,
)

pub lookup-of_has_pair :
    (py : Dict PageMtime) (e fs : String)
    → IsKeyed page_key py
    → has_pair (e, fs) (map page_pair (values py)) ≡ true
    → (page : PageMtime) × (lookup e py ≡ some page) × (page.fs_path ≡ fs)
unfolding IsKeyed lookup has_pair
lookup-of_has_pair [] e fs h found = cc found
lookup-of_has_pair ((k, p) ∷ py) e fs (named, fresh, rest) found =
    elim (Bool-cases (p.endpoint == e && p.fs_path == fs)) [
      | inl here ↦
          (p, ground (arith, eq_iff p.endpoint e, eq_iff k e), ground (arith, eq_iff p.fs_path fs))
      | inr there ↦
          let (page, e1, e2) = lookup-of_has_pair py e fs rest (ground arith) in
          (page, ground (arith, eq_iff k e), e2)
    ]

pub need_pages-IsKeyed :
    (mtimes : Dict ℕ) (pairs : List Pair) (d : Dict PageMtime)
    → IsKeyed page_key d
    → IsKeyed page_key (need_pages mtimes pairs d)
unfolding need_pages add_page
need_pages-IsKeyed mtimes [] d h = h
need_pages-IsKeyed mtimes ((e, fs) ∷ pairs) d h = elim (Bool-cases (fs == empty_fs_path)) [
  | inl same ↦ rw same (need_pages-IsKeyed mtimes pairs d h)
  | inr other ↦ rw other (need_pages-IsKeyed mtimes pairs _ (add_page-IsKeyed (lookup e mtimes)))
]
  where
    add_page-IsKeyed : (time : Option ℕ) → IsKeyed page_key (add_page time (e, fs) d)
    add_page-IsKeyed none = h
    add_page-IsKeyed (some t) =
        insert-IsKeyed page_key (record { endpoint = e; mtime = t; fs_path = fs }) d h

-- a page that is to be added or deleted has a pair of the list
pub need_pages-All :
    (P : Pair → Type 0) (mtimes : Dict ℕ) (pairs : List Pair) (d : Dict PageMtime)
    → All P pairs
    → All (λ page. P (page_pair page)) (values d)
    → All (λ page. P (page_pair page)) (values (need_pages mtimes pairs d))
unfolding need_pages add_page
need_pages-All P mtimes [] d hs h = h
need_pages-All P mtimes ((e, fs) ∷ pairs) d (hp, hs) h = elim (Bool-cases (fs == empty_fs_path)) [
  | inl same ↦ rw same (need_pages-All P mtimes pairs d hs h)
  | inr other ↦ rw other (need_pages-All P mtimes pairs _ hs (add_page-All (lookup e mtimes)))
]
  where
    add_page-All :
        (time : Option ℕ) → All (λ page. P (page_pair page)) (values (add_page time (e, fs) d))
    add_page-All none = h
    add_page-All (some t) =
        All-values-insert (λ page. P (page_pair page)) e
          (record { endpoint = e; mtime = t; fs_path = fs }) d h hp

map_files-IsKeyed :
    (n : ℕ) (files : List WalkedFile) (d : Dict PageMtime)
    → IsKeyed page_key d
    → IsKeyed page_key (map_files n files d)
unfolding map_files
map_files-IsKeyed n [] d h = h
map_files-IsKeyed n (file ∷ files) d h =
    elim (Bool-cases (ends_with ".py" file.filename && not (has_text ".null-ls_" file.filename))) [
      | inl page ↦
          rw page (map_files-IsKeyed n files _ (insert-IsKeyed page_key (page_of n file) d h))
      | inr other ↦ rw other (map_files-IsKeyed n files d h)
    ]

pub map_py_files_mtime-IsKeyed :
    (n : ℕ) (files : List WalkedFile) → IsKeyed page_key (map_py_files_mtime n files)
unfolding map_py_files_mtime IsKeyed
map_py_files_mtime-IsKeyed n files = map_files-IsKeyed n files [] tt
