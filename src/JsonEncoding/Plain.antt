-- ===== src/JsonEncoding/Plain.antt =====
-- What the encoders of frontik/util/json.py leave.
use frontik.Prelude.{Bytes, String, Option, none, some, ◌≡◌, refl, ◌∙◌, ap}
use frontik.JsonEncoding.{
  Value, scalar, null, object, sequence, set_of, future, future_without_result, future_cancelled,
  model, with_to_dict, bytes, opaque, Items, end_of_list, item, Fields, end_of_object, entry,
  to_object, to_sequence, to_scalar, add_item, add_field, deep_encode_value, deep_encode_items,
  deep_encode_fields,
}

-- a value of dictionaries with any keys, lists, scalars and objects that no encoder knows
unfoldable mutual
  pub IsPlain : Value → Type 0
  IsPlain (scalar text) = Unit
  IsPlain null = Unit
  IsPlain (object fields) = HasPlainFields fields
  IsPlain (sequence items) = HasPlainItems items
  IsPlain (opaque name) = Unit
  IsPlain _ = ⊥

  pub HasPlainItems : Items → Type 0
  HasPlainItems end_of_list = Unit
  HasPlainItems (item value items) = IsPlain value × HasPlainItems items

  pub HasPlainFields : Fields → Type 0
  HasPlainFields end_of_object = Unit
  HasPlainFields (entry key value fields) = IsPlain value × HasPlainFields fields

abbrev IsPlainIf : Option Value → Type 0
IsPlainIf none = Unit
IsPlainIf (some value) = IsPlain value

abbrev HasPlainItemsIf : Option Items → Type 0
HasPlainItemsIf none = Unit
HasPlainItemsIf (some items) = HasPlainItems items

abbrev HasPlainFieldsIf : Option Fields → Type 0
HasPlainFieldsIf none = Unit
HasPlainFieldsIf (some fields) = HasPlainFields fields

to_object-IsPlain : (f : Option Fields) → HasPlainFieldsIf f → IsPlainIf (to_object f)
unfolding IsPlain
to_object-IsPlain none h = tt
to_object-IsPlain (some fields) h = h

to_sequence-IsPlain : (i : Option Items) → HasPlainItemsIf i → IsPlainIf (to_sequence i)
unfolding IsPlain
to_sequence-IsPlain none h = tt
to_sequence-IsPlain (some items) h = h

to_scalar-IsPlain : (t : Option String) → IsPlainIf (to_scalar t)
unfolding IsPlain
to_scalar-IsPlain none = tt
to_scalar-IsPlain (some text) = tt

add_item-HasPlainItems :
    (v : Option Value) (i : Option Items)
    → IsPlainIf v
    → HasPlainItemsIf i
    → HasPlainItemsIf (add_item v i)
unfolding IsPlain
add_item-HasPlainItems none i hv hi = tt
add_item-HasPlainItems (some v) none hv hi = tt
add_item-HasPlainItems (some v) (some i) hv hi = (hv, hi)

add_field-HasPlainFields :
    (key : Value) (v : Option Value) (f : Option Fields)
    → IsPlainIf v
    → HasPlainFieldsIf f
    → HasPlainFieldsIf (add_field key v f)
unfolding IsPlain
add_field-HasPlainFields key none f hv hf = tt
add_field-HasPlainFields key (some v) none hv hf = tt
add_field-HasPlainFields key (some v) (some f) hv hf = (hv, hf)

module _ (decode : Bytes → Option String) where
  mutual
    unfolding IsPlain deep_encode_value

    value-IsPlain : (v : Value) → IsPlainIf (deep_encode_value decode v)
    value-IsPlain (scalar text) = tt
    value-IsPlain null = tt
    value-IsPlain (object fields) = to_object-IsPlain _ (fields-HasPlainFields fields)
    value-IsPlain (sequence items) = to_sequence-IsPlain _ (items-HasPlainItems items)
    value-IsPlain (set_of items) = to_sequence-IsPlain _ (items-HasPlainItems items)
    value-IsPlain (future value) = value-IsPlain value
    value-IsPlain future_without_result = tt
    value-IsPlain future_cancelled = tt
    value-IsPlain (model fields) = to_object-IsPlain _ (fields-HasPlainFields fields)
    value-IsPlain (with_to_dict value) = value-IsPlain value
    value-IsPlain (bytes b) = to_scalar-IsPlain (decode b)
    value-IsPlain (opaque name) = tt

    items-HasPlainItems : (i : Items) → HasPlainItemsIf (deep_encode_items decode i)
    items-HasPlainItems end_of_list = tt
    items-HasPlainItems (item value items) =
        add_item-HasPlainItems _ _ (value-IsPlain value) (items-HasPlainItems items)

    fields-HasPlainFields : (f : Fields) → HasPlainFieldsIf (deep_encode_fields decode f)
    fields-HasPlainFields end_of_object = tt
    fields-HasPlainFields (entry key value fields) =
        add_field-HasPlainFields key _ _ (value-IsPlain value) (fields-HasPlainFields fields)

  -- a plain value is encoded as itself
  mutual
    unfolding IsPlain deep_encode_value

    plain_value : (v : Value) → IsPlain v → deep_encode_value decode v ≡ some v
    plain_value (scalar text) h = refl
    plain_value null h = refl
    plain_value (object fields) h = ap to_object (plain_fields fields h)
    plain_value (sequence items) h = ap to_sequence (plain_items items h)
    plain_value (set_of items) h = elim h [ ]
    plain_value (future value) h = elim h [ ]
    plain_value future_without_result h = elim h [ ]
    plain_value future_cancelled h = elim h [ ]
    plain_value (model fields) h = elim h [ ]
    plain_value (with_to_dict value) h = elim h [ ]
    plain_value (bytes b) h = elim h [ ]
    plain_value (opaque name) h = refl

    plain_items : (i : Items) → HasPlainItems i → deep_encode_items decode i ≡ some i
    plain_items end_of_list h = refl
    plain_items (item value items) (hv, hi) =
        ap (λ v. add_item v (deep_encode_items decode items)) (plain_value value hv)
        ∙ ap (add_item (some value)) (plain_items items hi)

    plain_fields : (f : Fields) → HasPlainFields f → deep_encode_fields decode f ≡ some f
    plain_fields end_of_object h = refl
    plain_fields (entry key value fields) (hv, hf) =
        ap (λ v. add_field key v (deep_encode_fields decode fields)) (plain_value value hv)
        ∙ ap (add_field key (some value)) (plain_fields fields hf)
