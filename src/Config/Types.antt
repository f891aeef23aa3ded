-- ===== src/Config/Types.antt =====
-- The types of the values that frontik/config_parser.py takes from the command line.
use mathlib.Core.Path.{subst}
use frontik.Prelude.{
  String, Bool, not, ◌&&◌, Option, none, some, List, [], ◌∷◌, ◌==◌, eq_iff, elem, if_true, if_false,
  Dict, lookup, lookup-insert, ◌≡◌, refl, sym, ◌∙◌, ap, Bool-cases, inl, inr, some_inj,
}
use frontik.Config.{
  BaseType, bool_type, int_type, float_type, str_type, complex_type, FieldType, Value, bool_value,
  int_value, float_value, str_value, no_value, Result, ok, raised, convert, set_field, setting,
  store_setting, parse_command_line, number, ends_options, is_plain_bool, partition_equals,
  lstrip_dashes,
}
use frontik.Config.CommandLine.{ok_inj, before_ok}

-- A value fits a type; `None` fits each, and anything fits a type that the command line does not know.
abbrev pub HasType : {Number : Type 0} → BaseType → Value Number → Type 0
HasType complex_type value = Unit
HasType type no_value = Unit
HasType bool_type (bool_value b) = Unit
HasType int_type (int_value n) = Unit
HasType float_type (float_value n) = Unit
HasType float_type (int_value n) = Unit
HasType str_type (str_value s) = Unit
HasType _ _ = ⊥

module _ {Number : Type 0} (to_int to_float : String → Option Number)
    (fields : Dict FieldType) where
  -- each option that has a field fits the type of the field
  unfoldable pub IsTyped : Dict (Value Number) → Type 0
  IsTyped options =
      (name : String) (value : Value Number) (type : FieldType)
      → lookup name options ≡ some value
      → lookup name fields ≡ some type
      → HasType type.base value

  number-HasType :
      (type : BaseType) (make : Number → Value Number) (n : Option Number) (value : Value Number)
      → ((m : Number) → HasType type (make m))
      → number to_int to_float make n ≡ ok value
      → HasType type value
  unfolding number
  number-HasType type make none value made h = cc h
  number-HasType type make (some n) value made h = subst (HasType type) (ok_inj h) (made n)

  convert-HasType :
      (type : BaseType) (text : String) (value : Value Number)
      → convert to_int to_float type text ≡ ok value
      → HasType type value
  unfolding convert
  convert-HasType bool_type text value h = subst (HasType bool_type) (ok_inj h) tt
  convert-HasType int_type text value h =
      number-HasType int_type int_value (to_int text) value (λ m. tt) h
  convert-HasType float_type text value h =
      number-HasType float_type float_value (to_float text) value (λ m. tt) h
  convert-HasType str_type text value h = subst (HasType str_type) (ok_inj h) tt
  convert-HasType complex_type text value h = tt

  set_field-HasType :
      (type : FieldType) (equals : Bool) (text : String) (value : Value Number)
      → set_field to_int to_float (some type) equals text ≡ ok (some value)
      → HasType type.base value
  unfolding set_field
  set_field-HasType type equals text value h =
      elim (Bool-cases (not equals && not (is_plain_bool type))) [
        | inl refused ↦ cc (sym (if_true _ _ _ refused) ∙ h)
        | inr taken ↦
            let (v, e, e') =
              before_ok (λ v. ok (some v)) (convert to_int to_float type.base text) (some value)
                (sym (if_false _ _ _ taken) ∙ h) in
            subst (HasType type.base) (some_inj (ok_inj e')) (convert-HasType type.base text v e)
      ]

  module _ (allowed_options : List String) where
    -- what an argument sets fits the type of the field of its name
    setting-HasType :
        (arg : String) (value : Value Number) (type : FieldType)
        → (setting to_int to_float fields allowed_options arg).1 ≡ ok (some value)
        → lookup (setting to_int to_float fields allowed_options arg).0 fields ≡ some type
        → HasType type.base value
    unfolding setting
    setting-HasType arg value type h known =
        let (name, equals, text) = partition_equals (lstrip_dashes arg) in
        elim (Bool-cases (elem name allowed_options)) [
          | inr other ↦ cc (ok_inj (sym (if_false _ _ _ other) ∙ h))
          | inl here ↦ set_field-HasType type equals text value (
              ap (λ field. set_field to_int to_float field equals text) (sym known)
              ∙ (sym (if_true _ _ _ here) ∙ h))
        ]

    store-IsTyped :
        (name : String) (r : Result (Option (Value Number)))
        (options options' : Dict (Value Number))
        → ((value : Value Number) (type : FieldType)
            → r ≡ ok (some value)
            → lookup name fields ≡ some type
            → HasType type.base value)
        → IsTyped options
        → store_setting to_int to_float fields allowed_options name r options ≡ ok options'
        → IsTyped options'
    unfolding store_setting IsTyped
    store-IsTyped name raised options options' fits typed h = cc h
    store-IsTyped name (ok none) options options' fits typed h = subst IsTyped (ok_inj h) typed
    store-IsTyped name (ok (some value)) options options' fits typed h =
        subst IsTyped (ok_inj h) (λ j v type found known. elim (Bool-cases (name == j)) [
          | inl same ↦
              subst (HasType type.base)
                (some_inj
                  (sym (if_true _ _ _ same) ∙ (sym (lookup-insert name j value options) ∙ found)))
                (fits value type refl
                  (subst (λ k. lookup k fields ≡ some type) (sym ((eq_iff name j).0 same)) known))
          | inr other ↦
              typed j v type
                (sym (if_false _ _ _ other) ∙ (sym (lookup-insert name j value options) ∙ found))
                known
        ])

    -- If each option fits the type of its field before, and the command line is taken without an
    -- error, then each option fits the type of its field behind it: an integer where the type
    -- is `int`, an integer or a float where it is `float`, a Boolean where it is that, and a text
    -- where it is a text. `None` fits each type, and every value fits a type that the command line
    -- cannot set.
    pub parse_command_line-IsTyped :
        (args : List String) (options options' : Dict (Value Number))
        → IsTyped options
        → parse_command_line to_int to_float fields allowed_options args options ≡ ok options'
        → IsTyped options'
    unfolding parse_command_line
    parse_command_line-IsTyped [] options options' typed h = subst IsTyped (ok_inj h) typed
    parse_command_line-IsTyped (arg ∷ args) options options' typed h =
        elim (Bool-cases (ends_options arg)) [
          | inl last ↦ subst IsTyped (ok_inj (sym (if_true _ _ _ last) ∙ h)) typed
          | inr more ↦
              let s = setting to_int to_float fields allowed_options arg in
              let (middle, e, e') =
                before_ok (parse_command_line to_int to_float fields allowed_options args)
                  (store_setting to_int to_float fields allowed_options (s.0) (s.1) options)
                  options' (sym (if_false _ _ _ more) ∙ h) in
              parse_command_line-IsTyped args middle options'
                (store-IsTyped (s.0) (s.1) options middle (setting-HasType arg) typed e) e'
        ]
