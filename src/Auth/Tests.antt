-- ===== src/Auth/Tests.antt =====
-- The theorems on concrete headers, with a table of one encoded text.
use frontik.Prelude.{◌≡◌, refl, String, Option, none, some, ◌==◌, if◌then◌else◌}
use frontik.Auth.{checked, check_debug_auth}
use frontik.Auth.Basic.{check_debug_auth-basic}

abbrev decode : String → Option String
decode text = if text == "dXNlcjpwOncK" then some "user:p:w" else none

check_debug_auth-basic_example :
    check_debug_auth decode
      (record { debug_auth = none; authorization = some "Basic dXNlcjpwOncK" })
      (some "user")
      (some "p:w")
    ≡ checked none
check_debug_auth-basic_example =
    check_debug_auth-basic decode "dXNlcjpwOncK" "user" "p:w" "user" "p:w" refl refl refl

unset_credentials :
    check_debug_auth decode
      (record { debug_auth = some "None:None"; authorization = none })
      none
      none
    ≡ checked none
unfolding check_debug_auth
unset_credentials = refl
