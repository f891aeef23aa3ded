-- ===== src/Config/Tests.antt =====
-- A command line, a config file and the environment.
use mathlib.Core.Path.{subst}
use frontik.Prelude.{
  arith, some_inj, Bool-cases, inl, inr, ◌==◌, eq_iff, sym, ◌∙◌, ap, ℕ, String, true, false, some,
  List, [], ◌∷◌, ◌≡◌, refl, Dict, lookup, insert, parse_decimal, elem, lower,
}
use frontik.Config.{
  bool_type, int_type, float_type, str_type, FieldType, Value, no_value, int_value, str_value,
  bool_value, ok, raised, parse_configs, parse_command_line, ends_options, setting,
}
use frontik.Config.Types.{HasType, IsTyped, parse_command_line-IsTyped}
use frontik.Config.CommandLine.{parse_configs-lookup, last_setting}

abbrev fields : Dict FieldType
fields =
    ("port", record { base = int_type; optional = false })
    ∷ ("timeout", record { base = float_type; optional = false })
    ∷ ("debug", record { base = bool_type; optional = false })
    ∷ ("config", record { base = str_type; optional = true })
    ∷ []

abbrev allowed : List String
allowed = "port" ∷ "debug" ∷ "config" ∷ []

abbrev args : List String
args = "--port=80" ∷ "--colour=red" ∷ "--debug" ∷ "--port=90" ∷ "run" ∷ "--port=1" ∷ []

abbrev read_config : String → Dict (Value ℕ) → Dict (Value ℕ)
read_config path options = insert "port" (int_value 7) options

abbrev options : Dict (Value ℕ)
options = ("port", int_value 8080) ∷ []

abbrev result : Dict (Value ℕ)
result = ("port", int_value 90) ∷ ("debug", bool_value true) ∷ ("node_name", str_value "host") ∷ []

parsed :
    parse_configs parse_decimal parse_decimal fields allowed read_config
      (some "host")
      args
      (some ("a.cfg" ∷ []))
      options
    ≡ ok result
unfolding parse_configs parse_decimal elem lower lookup insert
parsed = refl

parse_configs-lookup_example : lookup "port" result ≡ some (int_value 90)
unfolding last_setting parse_decimal elem lower lookup ends_options setting
parse_configs-lookup_example =
    parse_configs-lookup parse_decimal parse_decimal fields allowed read_config (some "host") "port"
      (int_value 90) args (some ("a.cfg" ∷ [])) options result refl parsed

-- a number that needs a value
missing_value :
    parse_command_line parse_decimal parse_decimal fields allowed ("--port" ∷ []) options ≡ raised
unfolding parse_command_line elem lookup
missing_value = refl

-- the defaults, a float with an integer among them
abbrev defaults : Dict (Value ℕ)
defaults = ("port", int_value 8080) ∷ ("timeout", int_value 1) ∷ ("config", no_value) ∷ []

abbrev set_options : Dict (Value ℕ)
set_options =
    ("port", int_value 90)
    ∷ ("timeout", int_value 1)
    ∷ ("config", no_value)
    ∷ ("debug", bool_value true)
    ∷ []

set_by_args :
    parse_command_line parse_decimal parse_decimal fields allowed args defaults ≡ ok set_options
unfolding parse_command_line parse_decimal elem lower lookup insert ends_options setting
set_by_args = refl

-- a name of a default with the type of its field
typed_at :
    (key name : String) (v value : Value ℕ) (field type : FieldType)
    → (key == name) ≡ true
    → lookup key defaults ≡ some v
    → lookup key fields ≡ some field
    → HasType field.base v
    → lookup name defaults ≡ some value
    → lookup name fields ≡ some type
    → HasType type.base value
typed_at key name v value field type h at at' fits found known =
    let same = (eq_iff key name).0 h in
    subst (λ t. HasType t.base value)
      (some_inj (sym at' ∙ (ap (λ n. lookup n fields) same ∙ known)))
      (subst (HasType field.base) (some_inj (sym at ∙ (ap (λ n. lookup n defaults) same ∙ found)))
        fits)

defaults-IsTyped : IsTyped parse_decimal parse_decimal fields defaults
unfolding IsTyped lookup
defaults-IsTyped name value type found known = elim (Bool-cases ("port" == name)) [
  | inl h ↦ typed_at "port" name _ value _ type h refl refl tt found known
  | inr h ↦ elim (Bool-cases ("timeout" == name)) [
    | inl k ↦ typed_at "timeout" name _ value _ type k refl refl tt found known
    | inr k ↦ elim (Bool-cases ("config" == name)) [
      | inl m ↦ typed_at "config" name _ value _ type m refl refl tt found known
      | inr m ↦ ground (arith, h, k, m)
    ]
  ]
]

parse_command_line-IsTyped_example : IsTyped parse_decimal parse_decimal fields set_options
parse_command_line-IsTyped_example =
    parse_command_line-IsTyped parse_decimal parse_decimal fields allowed args defaults set_options
      defaults-IsTyped set_by_args
