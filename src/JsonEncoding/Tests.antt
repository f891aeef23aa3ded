-- ===== src/JsonEncoding/Tests.antt =====
-- A model with a set of futures.
use frontik.Prelude.{Bytes, String, Option, none, some, [], ◌∷◌, ◌≡◌, refl}
use frontik.JsonEncoding.{
  Value, scalar, null, object, sequence, set_of, future, future_without_result, model, bytes,
  end_of_list, item, end_of_object, entry, deep_encode_value,
}

-- nothing but the empty text is UTF-8 here
abbrev decode : Bytes → Option String
decode [] = some "\"\""
decode (b ∷ bs) = none

abbrev value : Value
value = model (
    entry (scalar "\"ids\"")
      (set_of (item (future (bytes [])) (item future_without_result end_of_list))) end_of_object)

encoded :
    deep_encode_value decode value
    ≡ some (
        object (
          entry
            (scalar "\"ids\"")
            (sequence (item (scalar "\"\"") (item null end_of_list)))
            end_of_object))
unfolding deep_encode_value
encoded = refl

-- bytes that are no UTF-8 are an error at any depth
undecodable : deep_encode_value decode (sequence (item (bytes (200 ∷ [])) end_of_list)) ≡ none
unfolding deep_encode_value
undecodable = refl
