-- ===== src/Routing/Paths.antt =====
-- Trailing slashes of request and route paths (frontik/routing.py, `strip_path`).
use Prim.Native.String.{[], ◌∷◌}
use mathlib.Core.List.{List}
use text.Mathlib.TextLemmas.{nil-append, cons-append, append_cancel_right}
use frontik.Prelude.{
  ℕ, String, ◌≡◌, ◌≢◌, refl, ◌⊎◌, Option, true, false, ◌==◌, eq_iff, arith, ends_with_char,
  rstrip_char, is_empty, ◌+++◌, Bool-cases, inl, inr, sym, ◌∙◌,
}
use frontik.Routing.{strip_path, Table, Methods, Matcher, BaseRoute}
use frontik.Routing.Dispatch.{find_route}

module _ (k : ℕ) where
  ends_with_char-rstrip_char : (s : String) → ends_with_char k (rstrip_char k s) ≡ false
  ends_with_char-rstrip_char [] = refl
  ends_with_char-rstrip_char (c ∷ s) = ground (arith, ends_with_char-rstrip_char s)

  rstrip_char_of_not_ending : (s : String) → ends_with_char k s ≡ false → rstrip_char k s ≡ s
  rstrip_char_of_not_ending [] h = refl
  rstrip_char_of_not_ending (c ∷ []) h = ground arith
  rstrip_char_of_not_ending (c ∷ d ∷ s) h =
      let kept = rstrip_char_of_not_ending (d ∷ s) h in ground (arith, kept)

  rstrip_char-append :
      (s t : String) → rstrip_char k t ≡ "" → rstrip_char k (s +++ t) ≡ rstrip_char k s
  rstrip_char-append [] t h = rw nil-append h
  rstrip_char-append (c ∷ s) t h = rw cons-append (ground (arith, rstrip_char-append s t h))

  not-is_empty-append_cons : (s t : String) → is_empty t ≡ false → is_empty (s +++ t) ≡ false
  not-is_empty-append_cons [] t h = rw nil-append h
  not-is_empty-append_cons (c ∷ s) t h = rw cons-append refl

  ends_with_char-append :
      (s t : String)
      → is_empty t ≡ false
      → ends_with_char k t ≡ true
      → ends_with_char k (s +++ t) ≡ true
  ends_with_char-append [] t h e = rw nil-append e
  ends_with_char-append (c ∷ s) t h e =
      rw cons-append (ground (arith, not-is_empty-append_cons s t h, ends_with_char-append s t h e))

abbrev slash : ℕ
slash = b'/'

-- What the table and the search see of a path ends in a slash only if it is "/".
pub strip_path-stripped :
    (path : String) → (strip_path path ≡ "/") ⊎ (ends_with_char b'/' (strip_path path) ≡ false)
unfolding strip_path
strip_path-stripped path = ground (arith, ends_with_char-rstrip_char b'/' path, eq_iff path "/")

-- Stripping a path twice is stripping it once.
pub strip_path_idem : (path : String) → strip_path (strip_path path) ≡ strip_path path
unfolding strip_path
strip_path_idem path = ground (arith, ends_with_char-rstrip_char b'/' path, eq_iff path "/")

strip_path_of_longer :
    (path : String) → (path == "/") ≡ false → strip_path path ≡ rstrip_char b'/' path
unfolding strip_path
strip_path_of_longer path h = elim (Bool-cases (ends_with_char b'/' path)) [
  | inl ends ↦ ground arith
  | inr other ↦ ground (arith, rstrip_char_of_not_ending b'/' path other)
]

append_slash_ne : (path : String) → path ≢ "" → path +++ "/" ≢ "/"
append_slash_ne path h e = h (append_cancel_right path "" "/" (e ∙ sym (nil-append "/")))

==_false : (s t : String) → s ≢ t → (s == t) ≡ false
==_false s t h = elim (Bool-cases (s == t)) [ inl e ↦ absurd (h ((eq_iff s t).0 e)) | inr e ↦ e ]

strip_path-append_slash :
    (path : String) → path ≢ "" → path ≢ "/" → strip_path (path +++ "/") ≡ strip_path path
strip_path-append_slash path h k =
    strip_path_of_longer (path +++ "/") (==_false _ _ (append_slash_ne path h))
    ∙ rstrip_char-append b'/' path "/" refl
    ∙ sym (strip_path_of_longer path (==_false _ _ k))

-- A request path other than "" and "/" is routed as the path with one more slash at its end is: to
-- the same scope, with the same changes of the method sets.
find_route-append_slash :
    {Child : Type 0} (matches : Matcher Child) (table : Table) (methods : Methods)
    (path method : String) (routes : Option (List BaseRoute)) (prefix : String)
    → path ≢ ""
    → path ≢ "/"
    → find_route matches table methods (path +++ "/") method routes prefix
      ≡ find_route matches table methods path method routes prefix
unfolding find_route
find_route-append_slash matches table methods path method routes prefix h k =
    rw (strip_path-append_slash path h k)
