-- ===== src/Codec/Plain.antt =====
-- Payloads of values that JSON has (lapinbeam/codec.py).
use lapinbeam.Prelude.{
  String, Option, none, some, is_some, Bool, true, false, not, ◌&&◌, ◌≡◌, ap, refl, string_eq,
  arith,
}
use lapinbeam.Dict
use lapinbeam.Codec.{
  Value, null, str, atom, dict, list, tuple, object, Items, no_items, item, Fields, no_fields,
  field, Classes, Registry, reserved, field_of, Encoded, by_codec, if_changed, encode_obj,
  encode_items, encode_fields, encode_payload, decoded, by_tag, map_decoded, also_decoded,
  decode_obj, decode_items, decode_fields, decode_payload,
}

-- No instance of a class, and no dict with the reserved key.
unfoldable mutual
  pub is_plain : Value → Bool
  is_plain null = true
  is_plain (str s) = true
  is_plain (atom n) = true
  is_plain (dict fields) = not (is_some (field_of reserved fields)) && is_plain_fields fields
  is_plain (list items) = is_plain_items items
  is_plain (tuple items) = is_plain_items items
  is_plain (object cls _) = false

  pub is_plain_items : Items → Bool
  is_plain_items no_items = true
  is_plain_items (item v items) = is_plain v && is_plain_items items

  pub is_plain_fields : Fields → Bool
  is_plain_fields no_fields = true
  is_plain_fields (field k v fields) = is_plain v && is_plain_fields fields

pub no_key : (o : Option Value) → not (is_some o) ≡ true → o ≡ none
no_key none h = refl
no_key (some v) h = cc

module _ (classes : Classes) (registry : Registry) where
  -- No codec is registered for the containers themselves.
  abbrev pub NoContainerCodec : Type 0
  NoContainerCodec =
      (Dict.get registry "builtins.dict" ≡ none)
      × (Dict.get registry "builtins.list" ≡ none)
      × (Dict.get registry "builtins.tuple" ≡ none)

  pub by_codec-none :
      (tag : String) (v : Value) (without : Encoded)
      → Dict.get registry tag ≡ none
      → by_codec classes registry tag v without ≡ without
  unfolding by_codec
  by_codec-none tag v without e = rw (e, by_codec) refl

  mutual
    unfolding is_plain encode_obj by_codec if_changed

    encode_obj-plain :
        NoContainerCodec
        → (v : Value) → is_plain v ≡ true
        → encode_obj classes registry v ≡ (v, false)
    encode_obj-plain free null h = refl
    encode_obj-plain free (str s) h = refl
    encode_obj-plain free (atom n) h = refl
    encode_obj-plain free (dict fields) h =
        rw (encode_fields-plain free fields (ground arith)) (by_codec-none _ _ _ free.0)
    encode_obj-plain free (list items) h =
        rw (encode_items-plain free items h) (by_codec-none _ _ _ free.1)
    encode_obj-plain free (tuple items) h =
        rw (encode_items-plain free items h) (by_codec-none _ _ _ free.2)
    encode_obj-plain free (object cls _) h = cc

    encode_items-plain :
        NoContainerCodec
        → (items : Items) → is_plain_items items ≡ true
        → encode_items classes registry items ≡ (items, false)
    encode_items-plain free no_items h = refl
    encode_items-plain free (item v items) h =
        rw (encode_obj-plain free v (ground arith), encode_items-plain free items (ground arith))
          refl

    encode_fields-plain :
        NoContainerCodec
        → (fields : Fields) → is_plain_fields fields ≡ true
        → encode_fields classes registry fields ≡ (fields, false)
    encode_fields-plain free no_fields h = refl
    encode_fields-plain free (field k v fields) h =
        rw (encode_obj-plain free v (ground arith), encode_fields-plain free fields (ground arith))
          refl

  mutual
    unfolding is_plain decode_obj by_tag map_decoded also_decoded

    decode_obj-plain : (v : Value) → is_plain v ≡ true → decode_obj classes registry v ≡ decoded v
    decode_obj-plain null h = refl
    decode_obj-plain (str s) h = refl
    decode_obj-plain (atom n) h = refl
    decode_obj-plain (dict fields) h =
        rw
          (
            no_key (field_of reserved fields) (ground arith),
            decode_fields-plain fields (ground arith),
          )
          refl
    decode_obj-plain (list items) h = rw (decode_items-plain items h) refl
    decode_obj-plain (tuple items) h = refl
    decode_obj-plain (object cls _) h = cc

    decode_items-plain :
        (items : Items)
        → is_plain_items items ≡ true
        → decode_items classes registry items ≡ decoded items
    decode_items-plain no_items h = refl
    decode_items-plain (item v items) h =
        rw (decode_obj-plain v (ground arith), decode_items-plain items (ground arith)) refl

    decode_fields-plain :
        (fields : Fields)
        → is_plain_fields fields ≡ true
        → decode_fields classes registry fields ≡ decoded fields
    decode_fields-plain no_fields h = refl
    decode_fields-plain (field k v fields) h =
        rw (decode_obj-plain v (ground arith), decode_fields-plain fields (ground arith)) refl

  -- Where no codec is registered for the containers, a payload without instances of classes and
  -- without a dict that has the reserved key is sent as it is, and decodes to itself.
  pub payload_plain :
      (v : Value)
      → NoContainerCodec
      → is_plain v ≡ true
      → (encode_payload classes registry v ≡ v) × (decode_payload classes registry v ≡ decoded v)
  unfolding encode_payload decode_payload
  payload_plain v free h = (ap (λ e. e.0) (encode_obj-plain free v h), decode_obj-plain v h)
