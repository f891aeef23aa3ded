-- ===== src/Auth.antt =====
-- frontik/auth.py: the credentials that debugging needs. Base64 with its decoding to text is a
-- parameter, which gives nothing where the source catches `ValueError`.
pub mod Basic
mod Tests
use frontik.Prelude.{
  String, Bool, true, false, ◌&&◌, Option, none, some, List, [], ◌∷◌, ◌==◌, if◌then◌else◌, eqb,
  ◌+++◌, split_char,
}
use Prim.Native.Char.{code}

-- the values of the two headers
pub record AuthHeaders : Type 0 where
  pub debug_auth : Option String
  pub authorization : Option String

-- A result, or the `ValueError` of unpacking the parts of the header.
pub data Checked (A : Type 0) : Type 0 where
  checked : A → Checked A
  value_error : Checked A

-- `text.startswith(prefix)`
unfoldable pub starts_with : String → String → Bool
starts_with String.[] text = true
starts_with (String.◌∷◌ c prefix) String.[] = false
starts_with (String.◌∷◌ c prefix) (String.◌∷◌ d text) =
    let rest = starts_with prefix text in eqb (code c) (code d) && rest

-- `text.partition(c)`, without the separator
unfoldable pub partition_char : String → String × String
partition_char String.[] = ("", "")
partition_char (String.◌∷◌ c text) =
    let (head, tail) = partition_char text in
    if eqb (code c) b':' then ("", text) else (String.◌∷◌ c head, tail)

-- `option == text`
unfoldable pub is_text : Option String → String → Bool
is_text none text = false
is_text (some value) text = value == text

-- how an f-string shows an optional text
unfoldable pub shown : Option String → String
shown none = "None"
shown (some text) = text

-- the comparison with the decoded credentials
unfoldable pub matches_credentials : Option String → Option String → String → Bool
unfolding is_text partition_char
matches_credentials login passwd decoded_value =
    let (given_login, given_passwd) = partition_char decoded_value in
    is_text login given_login && is_text passwd given_passwd

module _ (decode : String → Option String) where
  decoded_credentials : Option String → Option String → Option String → Bool
  decoded_credentials login passwd none = false
  decoded_credentials login passwd (some decoded_value) =
      matches_credentials login passwd decoded_value

  -- `method, auth_b64 = auth_header.split(' ')` and what follows it
  pub unpack_parts : Option String → Option String → List String → Checked Bool
  unfolding decoded_credentials
  unpack_parts login passwd (method ∷ auth_b64 ∷ []) =
      checked (decoded_credentials login passwd (decode auth_b64))
  unpack_parts login passwd _ = value_error

  -- An empty header does not start with `Basic `.
  pub passed_basic_auth : Option String → Option String → Option String → Checked Bool
  unfolding unpack_parts starts_with
  passed_basic_auth none login passwd = checked false
  passed_basic_auth (some auth_header) login passwd =
      if starts_with "Basic " auth_header
      then unpack_parts login passwd (split_char b' ' auth_header)
      else checked false

  basic_challenge : Checked Bool → Checked (Option String)
  basic_challenge value_error = value_error
  basic_challenge (checked true) = checked none
  basic_challenge (checked false) = checked (some "Basic realm=\"Secure Area\"")

  -- `check_debug_auth_by_headers`: the value of `WWW-Authenticate` when access is refused
  unfoldable pub check_debug_auth :
      AuthHeaders → Option String → Option String → Checked (Option String)
  unfolding passed_basic_auth basic_challenge shown
  check_debug_auth headers login password = elim headers.debug_auth [
    | some debug_auth_header ↦
        if debug_auth_header == (shown login +++ (":" +++ shown password))
        then checked none
        else checked (some "Frontik-Debug-Auth-Header realm=\"Secure Area\"")
    | none ↦ basic_challenge (passed_basic_auth headers.authorization login password)
  ]
