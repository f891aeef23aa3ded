-- ===== src/DebugMode/Tests.antt =====
-- Debug modes of concrete requests.
use frontik.Prelude.{elem, ◌≡◌, refl, String, Option, none, some, [], ◌∷◌, true, false}
use frontik.Auth.{AuthHeaders, checked, check_debug_auth}
use frontik.DebugMode.{
  Parameter, DebugRequest, DebugMode, DebugOptions, make_debug_mode, create, by_challenge,
}
use frontik.DebugMode.Access.{Follows, make_debug_mode-Follows}

abbrev decode : String → Option String
decode text = none

abbrev absent : Parameter
absent = record { query_arguments = []; cookie = none }

abbrev request : DebugRequest
request = record {
  debug = record { query_arguments = "full" ∷ "xslt,nopass" ∷ []; cookie = some "full" };
  notpl = absent;
  notrl = absent;
  noxsl = absent;
  debug_header = none;
}

abbrev options : DebugOptions
options = record { debug = false; debug_login = some "user"; debug_password = some "pass" }

abbrev headers : AuthHeaders
headers = record { debug_auth = some "user:pass"; authorization = none }

abbrev wrong_headers : AuthHeaders
wrong_headers = record { debug_auth = some "user:word"; authorization = none }

abbrev mode : DebugMode
mode = record {
  debug_value = some "xslt,nopass";
  notpl = none;
  notrl = none;
  noxsl = none;
  mode_values = "xslt" ∷ "nopass" ∷ [];
  inherited = none;
  pass_debug = false;
  enabled = true;
  debug_response = true;
  profile_xslt = true;
  log_handler = true;
  failed_auth_headers = none;
  need_auth = true;
  auth_failed = some false;
}

made : make_debug_mode decode none options headers request ≡ checked mode
unfolding make_debug_mode create check_debug_auth by_challenge elem
made = refl

make_debug_mode-Follows_example : Follows none true mode
unfolding check_debug_auth
make_debug_mode-Follows_example =
    make_debug_mode-Follows decode options headers request none mode refl made

refused :
    make_debug_mode decode none options wrong_headers request
    ≡ checked (record (create request) {
      failed_auth_headers = some "Frontik-Debug-Auth-Header realm=\"Secure Area\"";
      auth_failed = some true;
    })
unfolding make_debug_mode create check_debug_auth by_challenge elem
refused = refl
