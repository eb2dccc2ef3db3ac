-- ===== src/Codec/Json.antt =====
-- What `encode_payload` (lapinbeam/codec.py) hands to the native core: values that JSON has.
use lapinbeam.Prelude.{
  String, none, some, is_some, Bool, true, false, ◌||◌, ◌&&◌, not, ◌≡◌, refl, string_eq, arith,
  Option-cases, inl, inr,
}
use lapinbeam.Dict
use lapinbeam.Codec.{
  Value, null, str, atom, dict, list, tuple, object, Items, no_items, item, Fields, no_fields,
  field, Kind, dataclass, pydantic, plain, Codec, Classes, Registry, envelope, Encoded, by_codec,
  if_changed, by_kind, encode_obj, encode_items, encode_fields, encode_payload,
}
use lapinbeam.Codec.Encoding.{encode_items_same, encode_fields_same}

-- No instance of a class, at any depth; `json` writes a tuple as it writes a list.
unfoldable mutual
  pub is_json : Value → Bool
  is_json null = true
  is_json (str s) = true
  is_json (atom n) = true
  is_json (dict fields) = is_json_fields fields
  is_json (list items) = is_json_items items
  is_json (tuple items) = is_json_items items
  is_json (object cls _) = false

  pub is_json_items : Items → Bool
  is_json_items no_items = true
  is_json_items (item v items) = is_json v && is_json_items items

  pub is_json_fields : Fields → Bool
  is_json_fields no_fields = true
  is_json_fields (field k v fields) = is_json v && is_json_fields fields

abbrev is_plain_kind : Kind → Bool
is_plain_kind dataclass = false
is_plain_kind pydantic = false
is_plain_kind plain = true

module _ (classes : Classes) (registry : Registry) where
  -- Whether a class has a codec, or can be taken apart without one.
  unfoldable pub is_known : (cls : String) → Bool
  is_known cls = is_some (Dict.get registry cls) || not (is_plain_kind (classes.kind_of cls))

  -- Every instance is of such a class, at any depth.
  unfoldable mutual
    unfolding is_known

    pub all_carried : Value → Bool
    all_carried null = true
    all_carried (str s) = true
    all_carried (atom n) = true
    all_carried (dict fields) = all_carried_fields fields
    all_carried (list items) = all_carried_items items
    all_carried (tuple items) = all_carried_items items
    all_carried (object cls fields) = is_known cls && all_carried_fields fields

    pub all_carried_items : Items → Bool
    all_carried_items no_items = true
    all_carried_items (item v items) = all_carried v && all_carried_items items

    pub all_carried_fields : Fields → Bool
    all_carried_fields no_fields = true
    all_carried_fields (field k v fields) = all_carried v && all_carried_fields fields

  -- What the codecs of the application and `model_dump` return is made of what JSON has.
  pub record GivesJson : Type 0 where
    pub codecs :
        (tag : String) (codec : Codec)
        → Dict.get registry tag ≡ some codec
        → (v : Value) → is_json (codec.encode v) ≡ true
    pub dumps : (v : Value) → is_json (classes.model_dump v) ≡ true

  module _ (gives : GivesJson) where
    is_json-by_codec :
        (tag : String) (v : Value) (without : Encoded)
        → (Dict.get registry tag ≡ none → is_json without.0 ≡ true)
        → is_json (by_codec classes registry tag v without).0 ≡ true
    unfolding by_codec is_json envelope
    is_json-by_codec tag v without otherwise = elim (Option-cases (Dict.get registry tag)) [
      | inl e ↦ ground (arith, e, otherwise e)
      | inr (codec, e) ↦ ground (arith, e, gives.codecs tag codec e v)
    ]

    is_json-by_kind :
        (cls : String) (obj : Value) (attributes : Fields)
        → Dict.get registry cls ≡ none
        → is_known cls ≡ true
        → is_json_fields attributes ≡ true
        → is_json (by_kind classes registry (classes.kind_of cls) cls obj attributes).0 ≡ true
    unfolding is_known by_kind envelope is_json
    is_json-by_kind cls obj attributes e known h = by_case (classes.kind_of cls) (ground (arith, e))
      where
        by_case :
            (kind : Kind)
            → not (is_plain_kind kind) ≡ true
            → is_json (by_kind classes registry kind cls obj attributes).0 ≡ true
        by_case dataclass k = ground (arith, h)
        by_case pydantic k = ground (arith, gives.dumps obj)
        by_case plain k = cc

    mutual
      unfolding encode_obj if_changed is_json all_carried

      is_json-encode_obj :
          (v : Value) → all_carried v ≡ true → is_json (encode_obj classes registry v).0 ≡ true
      is_json-encode_obj null h = refl
      is_json-encode_obj (str s) h = refl
      is_json-encode_obj (atom n) h = refl
      is_json-encode_obj (dict fields) h = is_json-by_codec _ _ _ (λ e.
          ground
            (arith, is_json-encode_fields fields h, encode_fields_same classes registry fields))
      is_json-encode_obj (list items) h = is_json-by_codec _ _ _ (λ e.
          ground (arith, is_json-encode_items items h, encode_items_same classes registry items))
      is_json-encode_obj (tuple items) h = is_json-by_codec _ _ _ (λ e.
          ground (arith, is_json-encode_items items h, encode_items_same classes registry items))
      is_json-encode_obj (object cls fields) h = is_json-by_codec cls (object cls fields) _ (λ e.
          is_json-by_kind cls (object cls fields) (encode_fields classes registry fields).0 e
            (ground arith) (is_json-encode_fields fields (ground arith)))

      is_json-encode_items :
          (items : Items)
          → all_carried_items items ≡ true
          → is_json_items (encode_items classes registry items).0 ≡ true
      is_json-encode_items no_items h = refl
      is_json-encode_items (item v items) h =
          ground (arith, is_json-encode_obj v, is_json-encode_items items)

      is_json-encode_fields :
          (fields : Fields)
          → all_carried_fields fields ≡ true
          → is_json_fields (encode_fields classes registry fields).0 ≡ true
      is_json-encode_fields no_fields h = refl
      is_json-encode_fields (field k v fields) h =
          ground (arith, is_json-encode_obj v, is_json-encode_fields fields)

    -- Where the codecs of the application and `model_dump` give values that JSON has, the encoding
    -- of a payload whose instances are all of a class with a codec, a dataclass or a model of
    -- Pydantic has no instance of a class at any depth.
    pub encode_payload_json :
        (v : Value) → all_carried v ≡ true → is_json (encode_payload classes registry v) ≡ true
    unfolding encode_payload
    encode_payload_json v h = is_json-encode_obj v h
