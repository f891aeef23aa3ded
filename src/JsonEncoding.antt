-- ===== src/JsonEncoding.antt =====
-- frontik/util/json.py: the values that are encoded as JSON. The models of pydantic, the objects with
-- `to_dict` and the results of futures are held as the values that they give; the decoding of
-- bytes is a parameter. orjson is not modelled.
mod Plain
mod Tests
use frontik.Prelude.{Bytes, String, Option, none, some}

-- What comes to the encoder. A scalar is a text, a number, a Boolean or `None`, by its JSON text; a
-- future has a result, or is not done or has failed, or is cancelled; the keys of a dictionary are
-- any values, which the encoders leave as they are; a set is held in the order in which Python goes
-- through it; any other object is `opaque`.
mutual
  pub data Value : Type 0 where
    scalar : String → Value
    null : Value
    object : Fields → Value
    sequence : Items → Value
    set_of : Items → Value
    future : Value → Value
    future_without_result : Value
    future_cancelled : Value
    model : Fields → Value
    with_to_dict : Value → Value
    bytes : Bytes → Value
    opaque : String → Value

  pub data Items : Type 0 where
    end_of_list : Items
    item : Value → Items → Items

  pub data Fields : Type 0 where
    end_of_object : Fields
    entry : (key : Value) → Value → Fields → Fields

abbrev pub to_object : Option Fields → Option Value
to_object none = none
to_object (some fields) = some (object fields)

abbrev pub to_sequence : Option Items → Option Value
to_sequence none = none
to_sequence (some items) = some (sequence items)

abbrev pub to_scalar : Option String → Option Value
to_scalar none = none
to_scalar (some text) = some (scalar text)

abbrev pub add_item : Option Value → Option Items → Option Items
add_item (some value) (some items) = some (item value items)
add_item _ _ = none

abbrev pub add_field : Value → Option Value → Option Fields → Option Fields
add_field key (some value) (some fields) = some (entry key value fields)
add_field key _ _ = none

-- `none` where `decode('utf-8')` raises, or `exception()` of a cancelled future
module _ (decode : Bytes → Option String) where
  -- `_deep_encode_value`
  unfoldable mutual
    pub deep_encode_value : Value → Option Value
    deep_encode_value (scalar text) = some (scalar text)
    deep_encode_value null = some null
    deep_encode_value (object fields) = to_object (deep_encode_fields fields)
    deep_encode_value (sequence items) = to_sequence (deep_encode_items items)
    deep_encode_value (set_of items) = to_sequence (deep_encode_items items)
    deep_encode_value (future value) = deep_encode_value value
    deep_encode_value future_without_result = some null
    deep_encode_value future_cancelled = none
    deep_encode_value (model fields) = to_object (deep_encode_fields fields)
    deep_encode_value (with_to_dict value) = deep_encode_value value
    deep_encode_value (bytes b) = to_scalar (decode b)
    deep_encode_value (opaque name) = some (opaque name)

    pub deep_encode_items : Items → Option Items
    deep_encode_items end_of_list = some end_of_list
    deep_encode_items (item value items) =
        add_item (deep_encode_value value) (deep_encode_items items)

    pub deep_encode_fields : Fields → Option Fields
    deep_encode_fields end_of_object = some end_of_object
    deep_encode_fields (entry key value fields) =
        add_field key (deep_encode_value value) (deep_encode_fields fields)

  -- `_encode_value`, which orjson calls with what it cannot encode; `none` is an exception
  unfoldable pub encode_value : Value → Option Value
  encode_value (set_of items) = some (sequence items)
  encode_value (future value) = some value
  encode_value future_without_result = some null
  encode_value future_cancelled = none
  encode_value (model fields) = some (object fields)
  encode_value (with_to_dict value) = some value
  encode_value (bytes b) = to_scalar (decode b)
  encode_value _ = none
