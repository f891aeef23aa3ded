-- ===== src/Auth/Basic.antt =====
-- The two schemes of frontik/auth.py.
use Prim.Native.Char.{code}
use mathlib.Core.Path.{subst}
use text.Mathlib.TextLemmas.{cons-append, nil-append, append_assoc}
use frontik.Prelude.{
  ℕ, String, true, false, ◌&&◌, Option, none, some, List, [], ◌∷◌, ◌==◌, if◌then◌else◌, eqb, ◌+++◌,
  split_char, has_char, ◌≡◌, refl, arith, Bool-cases, inl, inr,
}
use frontik.Auth.{
  checked, value_error, starts_with, partition_char, is_text, matches_credentials, unpack_parts,
  passed_basic_auth, check_debug_auth,
}

partition_char-join :
    (login passwd : String)
    → has_char b':' login ≡ false
    → partition_char (login +++ (":" +++ passwd)) ≡ (login, passwd)
unfolding partition_char
partition_char-join String.[] passwd h =
    rw (nil-append (":" +++ passwd)) (rw (cons-append _ "" passwd) (rw (nil-append passwd) refl))
partition_char-join (String.◌∷◌ c login) passwd h =
    rw (cons-append c login (":" +++ passwd)) (ground (arith, partition_char-join login passwd))

-- a text without the separator is one part
split_char-none : (k : ℕ) (s : String) → has_char k s ≡ false → split_char k s ≡ s ∷ []
split_char-none k String.[] h = refl
split_char-none k (String.◌∷◌ c s) h = ground (arith, split_char-none k s)

split_char-join :
    (head tail : String)
    → has_char b' ' head ≡ false
    → split_char b' ' (head +++ (" " +++ tail)) ≡ head ∷ split_char b' ' tail
split_char-join String.[] tail h =
    rw (nil-append (" " +++ tail)) (rw (cons-append _ "" tail) (rw (nil-append tail) refl))
split_char-join (String.◌∷◌ c head) tail h =
    rw (cons-append c head (" " +++ tail)) (ground (arith, split_char-join head tail))

starts_with-append : (head tail : String) → starts_with head (head +++ tail) ≡ true
unfolding starts_with
starts_with-append String.[] tail = refl
starts_with-append (String.◌∷◌ c head) tail =
    rw (cons-append c head tail) (ground (arith, starts_with-append head tail))

-- `f'Basic {base64}'`
abbrev pub basic : String → String
basic auth_b64 = "Basic" +++ (" " +++ auth_b64)

starts_basic : (tail : String) → starts_with "Basic " (basic tail) ≡ true
starts_basic tail =
    subst (λ t. starts_with "Basic " t ≡ true) (append_assoc "Basic" " " tail)
      (starts_with-append "Basic " tail)

passed_basic :
    (decode : String → Option String) (auth_b64 : String) (login passwd : Option String)
    → has_char b' ' auth_b64 ≡ false
    → passed_basic_auth decode (some (basic auth_b64)) login passwd
      ≡ unpack_parts decode login passwd ("Basic" ∷ auth_b64 ∷ [])
unfolding passed_basic_auth
passed_basic decode auth_b64 login passwd h =
    rw
      (
        starts_basic auth_b64,
        split_char-join "Basic" auth_b64 refl,
        split_char-none b' ' auth_b64 h,
      )
      refl

-- A client that sends its credentials by the Basic scheme, encoded without spaces and with no colon
-- in the login, is given access exactly when they are the expected ones, and is challenged
-- otherwise; its password may hold colons.
pub check_debug_auth-basic :
    (decode : String → Option String) (auth_b64 login passwd given_login given_passwd : String)
    → decode auth_b64 ≡ some (given_login +++ (":" +++ given_passwd))
    → has_char b' ' auth_b64 ≡ false
    → has_char b':' given_login ≡ false
    → check_debug_auth decode
        (record { debug_auth = none; authorization = some (basic auth_b64) })
        (some login)
        (some passwd)
      ≡ checked (
          if login == given_login && passwd == given_passwd
          then none
          else some "Basic realm=\"Secure Area\"")
unfolding check_debug_auth unpack_parts matches_credentials is_text
check_debug_auth-basic decode auth_b64 login passwd given_login given_passwd decoded no_space
      no_colon =
    rw
      (
        passed_basic decode auth_b64 (some login) (some passwd) no_space,
        decoded,
        partition_char-join given_login given_passwd no_colon,
      )
      (ground arith)

split_char-cons :
    (k : ℕ) (s : String) → (part : String) × (parts : List String) × (split_char k s ≡ part ∷ parts)
split_char-cons k String.[] = (_, _, refl)
split_char-cons k (String.◌∷◌ c s) =
    let (part, parts, e) = split_char-cons k s in
    elim (Bool-cases (eqb (code c) k)) [
      | inl h ↦ ("", split_char k s, rw h refl)
      | inr h ↦ (String.◌∷◌ c part, parts, rw (h, e) refl)
    ]

-- A header of the Basic scheme with a second space makes the check raise an error, whatever the
-- credentials are, also when none are configured.
passed_basic_auth-value_error :
    (decode : String → Option String) (head tail : String) (login passwd : Option String)
    → has_char b' ' head ≡ false
    → passed_basic_auth decode (some (basic (head +++ (" " +++ tail)))) login passwd ≡ value_error
unfolding passed_basic_auth unpack_parts
passed_basic_auth-value_error decode head tail login passwd h =
    let (part, parts, e) = split_char-cons b' ' tail in
    rw
      (
        starts_basic (head +++ (" " +++ tail)),
        split_char-join "Basic" (head +++ (" " +++ tail)) refl,
        split_char-join head tail h,
        e,
      )
      refl
