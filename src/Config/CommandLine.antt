-- ===== src/Config/CommandLine.antt =====
-- The command line has the last word.
use frontik.Prelude.{
  String, Option, none, some, List, [], ◌∷◌, ◌≡◌, refl, ◌==◌, if◌then◌else◌, Dict, lookup,
  lookup-insert, Bool-cases, inl, inr, sym, ap, ◌∙◌, arith, if_true, if_false,
}
use frontik.Config.{
  FieldType, Value, Result, ok, raised, ends_options, and_then, setting, store_setting,
  parse_command_line, parse_configs,
}

pub ok_inj : {A : Type 0} {a b : A} → ok a ≡ ok b → a ≡ b
ok_inj e = cc

-- the result that a step that succeeds has been given
pub before_ok :
    {A B : Type 0} (next : A → Result B) (r : Result A) (b : B)
    → and_then r next ≡ ok b
    → (a : A) × (r ≡ ok a) × (next a ≡ ok b)
before_ok next raised b e = cc e
before_ok next (ok a) b e = (a, refl, e)

-- the first of two values that is there
abbrev pub or_else : {A : Type 0} → Option A → Option A → Option A
or_else none old = old
or_else (some a) old = some a

-- the value that an argument gives to the option with this name
abbrev given :
    {Number : Type 0} → String → String × Result (Option (Value Number)) → Option (Value Number)
given name (n, raised) = none
given name (n, ok none) = none
given name (n, ok (some value)) = if n == name then some value else none

module _ {Number : Type 0} (to_int to_float : String → Option Number) (fields : Dict FieldType)
    (allowed_options : List String) where
  -- the value of the last setting of this name, in front of the first argument that is no option
  unfoldable pub last_setting : String → List String → Option (Value Number)
  last_setting name [] = none
  last_setting name (arg ∷ args) =
      let later = last_setting name args in
      if ends_options arg
      then none
      else or_else later (given name (setting to_int to_float fields allowed_options arg))

  store_setting-lookup :
      (name n : String) (r : Result (Option (Value Number)))
      (options options' : Dict (Value Number))
      → store_setting to_int to_float fields allowed_options n r options ≡ ok options'
      → lookup name options' ≡ or_else (given name (n, r)) (lookup name options)
  unfolding store_setting
  store_setting-lookup name n raised options options' e = cc e
  store_setting-lookup name n (ok none) options options' e = ground arith
  store_setting-lookup name n (ok (some value)) options options' e =
      ground (arith, lookup-insert n name value options)

  or_else_assoc :
      {A : Type 0} (a b c : Option A) → or_else a (or_else b c) ≡ or_else (or_else a b) c
  or_else_assoc none b c = refl
  or_else_assoc (some a) b c = refl

  -- After a command line that is accepted, each option has the value of its last setting, or the one
  -- that it had before.
  pub parse_command_line-lookup :
      (name : String) (args : List String) (options options' : Dict (Value Number))
      → parse_command_line to_int to_float fields allowed_options args options ≡ ok options'
      → lookup name options' ≡ or_else (last_setting name args) (lookup name options)
  unfolding parse_command_line last_setting
  parse_command_line-lookup name [] options options' e = ap (lookup name) (sym (ok_inj e))
  parse_command_line-lookup name (arg ∷ args) options options' e =
      elim (Bool-cases (ends_options arg)) [
        | inl h ↦ rw h (ap (lookup name) (sym (ok_inj (sym (if_true _ _ _ h) ∙ e))))
        | inr h ↦
            let set = setting to_int to_float fields allowed_options arg in
            let (o, first, rest) =
              before_ok (parse_command_line to_int to_float fields allowed_options args) _ options'
                (sym (if_false _ _ _ h) ∙ e) in
            rw h (
              parse_command_line-lookup name args o options' rest
              ∙ (ap (or_else (last_setting name args))
                    (store_setting-lookup name set.0 set.1 options o first)
                  ∙ or_else_assoc (last_setting name args) (given name set) (lookup name options)))
      ]

  -- An option that the command line sets has its last value there, whatever the config files and the
  -- environment say.
  pub parse_configs-lookup :
      (read_config : String → Dict (Value Number) → Dict (Value Number)) (node_name : Option String)
      (name : String) (value : Value Number) (args : List String)
      (config_files : Option (List String)) (options options' : Dict (Value Number))
      → last_setting name args ≡ some value
      → parse_configs to_int to_float fields allowed_options read_config node_name args config_files
          options
        ≡ ok options'
      → lookup name options' ≡ some value
  unfolding parse_configs
  parse_configs-lookup read_config node_name name value args config_files options options' set e =
      let (parsed, first, rest) =
        before_ok _ (parse_command_line to_int to_float fields allowed_options args options)
          options' e in
      let (read, sources, last) =
        before_ok (parse_command_line to_int to_float fields allowed_options args) _ options'
          rest in
      parse_command_line-lookup name args read options' last
      ∙ ap (λ v. or_else v (lookup name read)) set
