-- ===== src/DebugMode/Access.antt =====
-- Who may debug: the outcome of frontik/debug.py's checks.
use mathlib.Core.Path.{subst}
use frontik.Prelude.{
  String, Bool, true, false, not, ◌&&◌, ◌||◌, Option, none, some, if◌then◌else◌, elem, is_some, ◌≡◌,
  refl, sym, ap, ◌∙◌, Bool-cases, inl, inr,
}
use frontik.Auth.{AuthHeaders, Checked, checked, check_debug_auth}
use frontik.DebugMode.{
  DebugRequest, DebugMode, DebugOptions, create, granted, by_challenge, on_auth_ok,
  require_debug_access, make_debug_mode, is_truthy,
}

-- What a debug mode may do when access is given or not, and asked for or not.
pub record Follows (challenge : Option String) (access : Bool) (mode : DebugMode) : Type 0 where
  pub enabled : mode.enabled ≡ (mode.need_auth && access)
  pub log_handler : mode.log_handler ≡ mode.enabled
  pub failed : mode.auth_failed ≡ (if mode.need_auth then some (not access) else none)
  pub response :
      mode.debug_response ≡ (mode.enabled && (is_some mode.debug_value || is_truthy mode.inherited))
  pub passed :
      mode.pass_debug
      ≡ (mode.enabled && (not (elem "nopass" mode.mode_values) || is_truthy mode.inherited))
  pub profiled : mode.profile_xslt ≡ (mode.enabled && elem "xslt" mode.mode_values)
  pub challenged :
      mode.failed_auth_headers ≡ (if mode.need_auth && not access then challenge else none)

module _ (request : DebugRequest) (challenge : Option String) where
  abbrev asked : Bool
  asked = (create request).need_auth

  idle :
      (access : Bool) (mode : DebugMode)
      → asked ≡ false
      → create request ≡ mode
      → Follows challenge access mode
  unfolding create
  idle access mode h e = subst (Follows challenge access) e (record {
    enabled = rw h refl;
    log_handler = refl;
    failed = rw h refl;
    response = refl;
    passed = refl;
    profiled = refl;
    challenged = rw h refl;
  })

  allowed :
      (mode : DebugMode)
      → asked ≡ true
      → granted (create request) ≡ mode
      → Follows challenge true mode
  unfolding granted create on_auth_ok
  allowed mode h e = subst (Follows challenge true) e (record {
    enabled = rw h refl;
    log_handler = refl;
    failed = rw h refl;
    response = refl;
    passed = refl;
    profiled = refl;
    challenged = rw h refl;
  })

  refused :
      (mode : DebugMode)
      → asked ≡ true
      → record (create request) { failed_auth_headers = challenge; auth_failed = some true } ≡ mode
      → Follows challenge false mode
  unfolding create
  refused mode h e = subst (Follows challenge false) e (record {
    enabled = rw h refl;
    log_handler = refl;
    failed = rw h refl;
    response = refl;
    passed = refl;
    profiled = refl;
    challenged = rw h refl;
  })

checked_inj : {A : Type 0} {a b : A} → checked a ≡ checked b → a ≡ b
checked_inj e = cc

module _ (decode : String → Option String) (options : DebugOptions) (headers : AuthHeaders)
    (request : DebugRequest) where
  challenged :
      (challenge : Option String) (mode : DebugMode)
      → (create request).need_auth ≡ true
      → by_challenge decode (create request) (checked challenge) ≡ checked mode
      → Follows challenge (not (is_some challenge)) mode
  unfolding by_challenge
  challenged none mode on e = allowed request none mode on (unfold granted create in checked_inj e)
  challenged (some c) mode on e = refused request (some c) mode on (checked_inj e)

  requested :
      (challenge : Option String) (mode : DebugMode)
      → (create request).need_auth ≡ true
      → check_debug_auth decode headers options.debug_login options.debug_password
        ≡ checked challenge
      → require_debug_access decode options headers none (create request) ≡ checked mode
      → Follows challenge (options.debug || not (is_some challenge)) mode
  unfolding require_debug_access
  requested challenge mode on h e = elim (Bool-cases options.debug) [
    | inl debug ↦ rw debug (allowed request challenge mode on (checked_inj (rw debug at e)))
    | inr checks ↦ rw checks (challenged challenge mode on (rw (checks, h) at e))
  ]

-- When the credentials of the request are answered by `challenge`, or by none if they are right, its
-- debug mode is enabled and collects the log exactly if the request asks for debugging, and the
-- server runs in debug mode or there is no challenge; it then answers with the log if it has a value
-- for debugging or is inherited, is passed on unless the mode `nopass` is asked for and it is not
-- inherited, and profiles if the mode `xslt` is asked for. A request that asks for debugging without
-- access fails with the challenge; one that does not ask has no outcome of a check.
pub make_debug_mode-Follows :
    (decode : String → Option String) (options : DebugOptions) (headers : AuthHeaders)
    (request : DebugRequest) (challenge : Option String) (mode : DebugMode)
    → check_debug_auth decode headers options.debug_login options.debug_password ≡ checked challenge
    → make_debug_mode decode none options headers request ≡ checked mode
    → Follows challenge (options.debug || not (is_some challenge)) mode
unfolding make_debug_mode
make_debug_mode-Follows decode options headers request challenge mode h e =
    let answer : Bool → Checked DebugMode = λ b.
      if b
      then require_debug_access decode options headers none (create request)
      else checked (create request) in
    elim (Bool-cases (create request).need_auth) [
      | inr off ↦ idle request challenge _ mode off (checked_inj (sym (ap answer off) ∙ e))
      | inl on ↦
          requested decode options headers request challenge mode on h (sym (ap answer on) ∙ e)
    ]
