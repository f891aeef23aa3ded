-- ===== src/Config.antt =====
-- frontik/config_parser.py: options from the command line, from config files and from the
-- environment. What a config file sets, and the numbers that `int` and `float` read, are parameters.
pub mod CommandLine
mod Types
mod Tests
use Prim.Native.Char.{code}
use Prim.Native.String
use frontik.Prelude.{
  String, Bool, true, false, not, ◌&&◌, ◌||◌, Option, none, some, List, [], ◌∷◌, ◌==◌, eqb, elem,
  lower, if◌then◌else◌, is_empty, Dict, lookup, insert,
}

-- the type of a field of `Options`: one of these, or that or `None`
pub data BaseType : Type 0 where
  bool_type int_type float_type str_type complex_type : BaseType

pub record FieldType : Type 0 where
  pub base : BaseType
  pub optional : Bool

-- the value of an option
pub data Value (Number : Type 0) : Type 0 where
  bool_value : Bool → Value Number
  int_value float_value : Number → Value Number
  str_value : String → Value Number
  -- `None`, and values of other types
  no_value other_value : Value Number

-- A result, or an exception.
pub data Result (A : Type 0) : Type 0 where
  ok : A → Result A
  raised : Result A

-- what follows is done unless there was an exception
abbrev pub and_then : {A B : Type 0} → Result A → (A → Result B) → Result B
and_then raised next = raised
and_then (ok a) next = next a

-- `arg.lstrip('-')`
pub lstrip_dashes : String → String
lstrip_dashes String.[] = ""
lstrip_dashes (String.◌∷◌ c s) =
    let rest = lstrip_dashes s in if eqb (code c) b'-' then rest else String.◌∷◌ c s

-- `arg.partition('=')`, with whether the separator is there
pub partition_equals : String → String × Bool × String
partition_equals String.[] = ("", false, "")
partition_equals (String.◌∷◌ c s) =
    let (head, equals, tail) = partition_equals s in
    if eqb (code c) b'=' then ("", true, s) else (String.◌∷◌ c head, equals, tail)

-- the loop ends at this argument
pub ends_options : String → Bool
ends_options String.[] = true
ends_options (String.◌∷◌ c s) = not (eqb (code c) b'-') || (String.◌∷◌ c s) == "--"

-- `option.type == bool`
is_bool : BaseType → Bool
is_bool bool_type = true
is_bool _ = false

is_plain_bool : FieldType → Bool
unfolding is_bool
is_plain_bool type = is_bool type.base && not type.optional

module _ {Number : Type 0} (to_int to_float : String → Option Number) where
  number : (Number → Value Number) → Option Number → Result (Value Number)
  number make none = raised
  number make (some n) = ok (make n)

  -- the ladder on `option.type`
  pub convert : BaseType → String → Result (Value Number)
  unfolding number
  convert bool_type value = ok (bool_value (not (elem (lower value) ("false" ∷ "0" ∷ "f" ∷ []))))
  convert int_type value = number int_value (to_int value)
  convert float_type value = number float_value (to_float value)
  convert str_type value = ok (str_value value)
  convert complex_type value = raised

  -- What one argument sets: an option that is not allowed, or that these options do not have, is
  -- skipped. A flag without a value is first set to `True`, which `convert` of an empty text is, too.
  pub set_field : Option FieldType → Bool → String → Result (Option (Value Number))
  unfolding convert is_plain_bool
  set_field none equals value = ok none
  set_field (some type) equals value =
      if not equals && not (is_plain_bool type)
      then raised
      else and_then (convert type.base value) (λ v. ok (some v))

  module _ (fields : Dict FieldType) (allowed_options : List String) where
    -- the name of an argument, and what it sets
    pub setting : String → String × Result (Option (Value Number))
    unfolding set_field partition_equals lstrip_dashes
    setting arg =
        let (name, equals, value) = partition_equals (lstrip_dashes arg) in
        (
          name,
          if elem name allowed_options
              then set_field (lookup name fields) equals value
              else ok none,
        )

    store_setting :
        String → Result (Option (Value Number)) → Dict (Value Number) → Result (Dict (Value Number))
    store_setting name raised options = raised
    store_setting name (ok none) options = ok options
    store_setting name (ok (some value)) options = ok (insert name value options)

    -- `parse_command_line`, for the arguments behind the program's name
    pub parse_command_line : List String → Dict (Value Number) → Result (Dict (Value Number))
    unfolding setting store_setting ends_options
    parse_command_line [] options = ok options
    parse_command_line (arg ∷ args) options =
        if ends_options arg
        then ok options
        else and_then (store_setting (setting arg).0 (setting arg).1 options)
            (λ options'. parse_command_line args options')

    -- what `parse_configs` works on: what a config file does to the options, and `NODE_NAME`
    module _ (read_config : String → Dict (Value Number) → Dict (Value Number))
        (node_name : Option String) where
      read_all : List String → Dict (Value Number) → Dict (Value Number)
      read_all [] options = options
      read_all (config ∷ rest) options =
          let others = read_all rest in
          if is_empty config then others options else others (read_config config options)

      -- `options.config`, if it is a text that is not empty, or else the argument
      configs_to_read : Option (Value Number) → Option (List String) → Result (List String)
      configs_to_read (some (str_value config)) (some config_files) =
          ok (if is_empty config then config_files else config ∷ [])
      configs_to_read (some (str_value config)) none =
          if is_empty config then raised else ok (config ∷ [])
      configs_to_read _ (some config_files) = ok config_files
      configs_to_read _ none = raised

      read_environment : Dict (Value Number) → Dict (Value Number)
      read_environment options = elim node_name [
        | none ↦ options
        | some name ↦ insert "node_name" (str_value name) options
      ]

      -- between the first and the second look at the command line
      read_sources : Option (List String) → Dict (Value Number) → Result (Dict (Value Number))
      unfolding configs_to_read read_all read_environment
      read_sources config_files options =
          and_then (configs_to_read (lookup "config" options) config_files)
            (λ configs. ok (read_environment (read_all configs options)))

      -- `parse_configs`, for the options of frontik
      pub parse_configs :
          List String → Option (List String) → Dict (Value Number) → Result (Dict (Value Number))
      unfolding parse_command_line read_sources
      parse_configs args config_files options =
          and_then (parse_command_line args options) (λ parsed.
            and_then (read_sources config_files parsed) (λ read. parse_command_line args read))
