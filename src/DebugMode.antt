-- ===== src/DebugMode.antt =====
-- Debugging of a request: `DebugMode` of frontik/debug.py and `make_debug_mode` of
-- frontik/handler_asgi.py.
pub mod Access
mod Tests
use frontik.Prelude.{
  String, Bool, true, false, not, ◌||◌, Option, none, some, List, [], if◌then◌else◌, split_char,
  elem, is_some, last?, is_empty,
}
use frontik.Auth.{AuthHeaders, Checked, checked, value_error, check_debug_auth}

-- The values of one name among the query arguments, and in the cookies.
pub record Parameter : Type 0 where
  pub query_arguments : List String
  pub cookie : Option String

pub get_cookie_or_param_from_request : Parameter → Option String
get_cookie_or_param_from_request p = elim (last? p.query_arguments) [
  | some value ↦ some value
  | none ↦ p.cookie
]

pub record DebugRequest : Type 0 where
  pub debug : Parameter
  pub notpl : Parameter
  pub notrl : Parameter
  pub noxsl : Parameter
  -- the header `X-Hh-Debug`
  pub debug_header : Option String

-- `log_handler` is whether the request's log is collected.
pub record DebugMode : Type 0 where
  pub debug_value : Option String
  pub notpl : Option String
  pub notrl : Option String
  pub noxsl : Option String
  pub mode_values : List String
  pub inherited : Option String
  pub pass_debug : Bool
  pub enabled : Bool
  pub debug_response : Bool
  pub profile_xslt : Bool
  pub log_handler : Bool
  pub failed_auth_headers : Option String
  pub need_auth : Bool
  pub auth_failed : Option Bool

-- whether an optional text counts as true
unfoldable pub is_truthy : Option String → Bool
is_truthy none = false
is_truthy (some text) = not (is_empty text)

-- No value is an empty text in the source, which contains none of the words that are looked for.
unfoldable pub split_modes : Option String → List String
split_modes none = []
split_modes (some value) = split_char b',' value

unfoldable pub create : DebugRequest → DebugMode
unfolding get_cookie_or_param_from_request is_truthy split_modes
create request =
    let debug_value = get_cookie_or_param_from_request request.debug in
    let notpl = get_cookie_or_param_from_request request.notpl in
    let notrl = get_cookie_or_param_from_request request.notrl in
    let noxsl = get_cookie_or_param_from_request request.noxsl in
    record {
      debug_value = debug_value;
      notpl = notpl;
      notrl = notrl;
      noxsl = noxsl;
      mode_values = split_modes debug_value;
      inherited = request.debug_header;
      pass_debug = false;
      enabled = false;
      debug_response = false;
      profile_xslt = false;
      log_handler = false;
      failed_auth_headers = none;
      need_auth =
          is_some debug_value
          || (is_truthy request.debug_header
              || (is_some notpl || (is_some notrl || is_some noxsl)));
      auth_failed = none;
    }

unfoldable pub on_auth_ok : DebugMode → DebugMode
unfolding is_truthy
on_auth_ok mode = record mode {
  debug_response = is_some mode.debug_value || is_truthy mode.inherited;
  enabled = true;
  pass_debug = not (elem "nopass" mode.mode_values) || is_truthy mode.inherited;
  profile_xslt = elem "xslt" mode.mode_values;
  log_handler = true;
}

pub record DebugOptions : Type 0 where
  pub debug : Bool
  pub debug_login : Option String
  pub debug_password : Option String

unfoldable pub granted : DebugMode → DebugMode
unfolding on_auth_ok
granted mode = on_auth_ok (record mode { auth_failed = some false })

module _ (decode : String → Option String) where
  unfoldable pub by_challenge : DebugMode → Checked (Option String) → Checked DebugMode
  unfolding granted
  by_challenge mode value_error = value_error
  by_challenge mode (checked none) = checked (granted (record mode { failed_auth_headers = none }))
  by_challenge mode (checked (some challenge)) =
      checked (record mode { failed_auth_headers = some challenge; auth_failed = some true })

  pub require_debug_access :
      DebugOptions → AuthHeaders → Option Bool → DebugMode → Checked DebugMode
  unfolding by_challenge granted
  require_debug_access options headers (some true) mode =
      checked (record mode { auth_failed = some true })
  require_debug_access options headers (some false) mode = checked (granted mode)
  require_debug_access options headers none mode =
      if options.debug
      then checked (granted mode)
      else by_challenge mode
          (check_debug_auth decode headers options.debug_login options.debug_password)

  -- `make_debug_mode`; an application may have its own `require_debug_access`.
  unfoldable pub make_debug_mode :
      Option (DebugMode → Checked DebugMode)
      → DebugOptions
      → AuthHeaders
      → DebugRequest
      → Checked DebugMode
  unfolding require_debug_access
  make_debug_mode own options headers request =
      let mode = create request in
      if mode.need_auth
      then elim own [
        | none ↦ require_debug_access options headers none mode
        | some require ↦ require mode
      ]
      else checked mode
