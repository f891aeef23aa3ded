-- ===== src/Prelude/Texts.antt =====
-- Text operations of Python that the code uses, over the native `String`, and sets of texts.
use Prim.Native.Nat.{ℕ, zero, suc, ◌-◌}
use Prim.Native.Char.{Char, code}
use Prim.Native.String
use Prim.Native.String.{String}
use mathlib.Core.Path.{◌≡◌, refl}
use mathlib.Core.Bool.{Bool, true, false, ◌||◌, ◌&&◌}
use mathlib.Core.List.{List, [], ◌∷◌, ◌++◌}
use native.Mathlib.Omega.{arith}
use text.Mathlib.Text.{◌==◌}
use text.Mathlib.TextEquality.{eq_iff}
use text.Mathlib.TextPositions.{eq_refl}
use frontik.Prelude.Tests.{eqb, if◌then◌else◌}

infixr 65 ◌+++◌
-- `a + b` on texts
abbrev pub ◌+++◌ : String → String → String
a +++ b = String.◌++◌ a b

abbrev pub is_empty : String → Bool
is_empty String.[] = true
is_empty (String.◌∷◌ c s) = false

-- `c in s`, for a single character
abbrev pub has_char : ℕ → String → Bool
has_char k String.[] = false
has_char k (String.◌∷◌ c s) = eqb (code c) k || has_char k s

-- `s.endswith(c)`, for a single character
abbrev pub ends_with_char : ℕ → String → Bool
ends_with_char k String.[] = false
ends_with_char k (String.◌∷◌ c s) = if is_empty s then eqb (code c) k else ends_with_char k s

-- `s.rstrip(c)`, for a single character
abbrev pub rstrip_char : ℕ → String → String
rstrip_char k String.[] = ""
rstrip_char k (String.◌∷◌ c s) =
    let rest = rstrip_char k s in if is_empty rest && eqb (code c) k then "" else String.◌∷◌ c rest

-- the characters of `s` up to the next separator, in front of the parts that follow it
abbrev pub add_char : Char → List String → List String
add_char c [] = String.◌∷◌ c "" ∷ []
add_char c (part ∷ parts) = String.◌∷◌ c part ∷ parts

-- `s.split(c)`, for a single character
abbrev pub split_char : ℕ → String → List String
split_char k String.[] = "" ∷ []
split_char k (String.◌∷◌ c s) =
    let rest = split_char k s in if eqb (code c) k then "" ∷ rest else add_char c rest

-- `s.startswith(t)`
abbrev pub starts_with : String → String → Bool
starts_with s String.[] = true
starts_with String.[] (String.◌∷◌ a t) = false
starts_with (String.◌∷◌ c s) (String.◌∷◌ a t) = eqb (code c) (code a) && starts_with s t

-- `t in s`
unfoldable pub has_text : String → String → Bool
has_text t String.[] = is_empty t
has_text t (String.◌∷◌ c s) = starts_with (String.◌∷◌ c s) t || has_text t s

-- `s.endswith(t)`
unfoldable pub ends_with : String → String → Bool
ends_with t String.[] = is_empty t
ends_with t (String.◌∷◌ c s) = String.◌∷◌ c s == t || ends_with t s

-- `s[n:]`
unfoldable pub drop_chars : ℕ → String → String
drop_chars zero s = s
drop_chars (suc n) String.[] = ""
drop_chars (suc n) (String.◌∷◌ c s) = drop_chars n s

text_length : String → ℕ
text_length String.[] = 0
text_length (String.◌∷◌ c s) = suc (text_length s)

-- `skip` characters of an occurrence are left
replace_from : ℕ → String → String → String → String
replace_from skip old new String.[] = ""
replace_from (suc skip) old new (String.◌∷◌ c s) = replace_from skip old new s
replace_from zero old new (String.◌∷◌ c s) =
    let behind = replace_from (text_length old - 1) old new s in
    let kept = replace_from zero old new s in
    if starts_with (String.◌∷◌ c s) old then new +++ behind else String.◌∷◌ c kept

-- `s.replace(old, new)`, for a text `old` that is not empty
unfoldable pub replace : String → String → String → String
unfolding replace_from text_length
replace old new s = replace_from 0 old new s

-- the letter of `to` that stands where `c` stands in `from`
abbrev translate : Char → String → String → Char
translate c String.[] to = c
translate c from String.[] = c
translate c (String.◌∷◌ a from) (String.◌∷◌ b to) =
    let rest = translate c from to in if eqb (code c) (code a) then b else rest

abbrev map_chars : (Char → Char) → String → String
map_chars f String.[] = ""
map_chars f (String.◌∷◌ c s) = String.◌∷◌ (f c) (map_chars f s)

abbrev lower_letters : String
lower_letters = "abcdefghijklmnopqrstuvwxyz"

abbrev upper_letters : String
upper_letters = "ABCDEFGHIJKLMNOPQRSTUVWXYZ"

-- `s.upper()` and `s.lower()`, for ASCII text
unfoldable pub upper : String → String
upper s = map_chars (λ c. translate c lower_letters upper_letters) s

unfoldable pub lower : String → String
lower s = map_chars (λ c. translate c upper_letters lower_letters) s

-- `x in xs`
unfoldable pub elem : String → List String → Bool
elem x [] = false
elem x (y ∷ ys) = x == y || elem x ys

-- `xs.add(x)` on a set, held as a list without repetition
unfoldable pub add : String → List String → List String
unfolding elem
add x xs = if elem x xs then xs else xs ++ x ∷ []

-- `xs.update(ys)` on a set
unfoldable pub update : List String → List String → List String
unfolding add
update xs [] = xs
update xs (y ∷ ys) = update (add y xs) ys

pub elem-append : (x : String) (xs ys : List String) → elem x (xs ++ ys) ≡ (elem x xs || elem x ys)
unfolding elem
elem-append x [] ys = refl
elem-append x (y ∷ xs) ys = ground (arith, elem-append x xs ys)

pub elem-add : (x y : String) (xs : List String) → elem x (add y xs) ≡ (x == y || elem x xs)
unfolding add
elem-add x y xs = ground (arith, elem-append x xs (y ∷ []), eq_iff x y, eq_refl x)

pub elem-update :
    (x : String) (xs ys : List String) → elem x (update xs ys) ≡ (elem x xs || elem x ys)
unfolding update
elem-update x xs [] = ground arith
elem-update x xs (y ∷ ys) = ground (arith, elem-update x (add y xs) ys, elem-add x y xs)

pub update-append : (xs ys zs : List String) → update xs (ys ++ zs) ≡ update (update xs ys) zs
unfolding update
update-append xs [] zs = refl
update-append xs (y ∷ ys) zs = update-append (add y xs) ys zs
