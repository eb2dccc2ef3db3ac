-- ===== src/Codec/Encoding.antt =====
-- Objects that `_encode_obj` of lapinbeam/codec.py returns as they are, and the containers that it
-- rebuilds.
use lapinbeam.Prelude.{String, none, false, ◌≡◌, refl, string_eq, arith}
use lapinbeam.Dict
use lapinbeam.Codec.{
  Value, null, str, atom, dict, list, tuple, object, Items, no_items, item, Fields, no_fields,
  field, Classes, Registry, field_of, by_codec, if_changed, by_kind, encode_obj, encode_items,
  encode_fields,
}

-- Where no key of the fields is new, none is after their encoding.
pub field_of-encode_fields :
    (classes : Classes) (registry : Registry) (key : String) (fields : Fields)
    → field_of key fields ≡ none
    → field_of key (encode_fields classes registry fields).0 ≡ none
unfolding encode_obj field_of
field_of-encode_fields classes registry key no_fields h = refl
field_of-encode_fields classes registry key (field k v fields) h =
    ground (arith, field_of-encode_fields classes registry key fields)

module _ (classes : Classes) (registry : Registry) where
  -- What did not change is the object itself.
  mutual
    unfolding encode_obj by_codec if_changed by_kind

    encode_obj_same :
        (v : Value)
        → (encode_obj classes registry v).1 ≡ false
        → (encode_obj classes registry v).0 ≡ v
    encode_obj_same null h = refl
    encode_obj_same (str s) h = refl
    encode_obj_same (atom n) h = refl
    encode_obj_same (dict _) h = ground arith
    encode_obj_same (list _) h = ground arith
    encode_obj_same (tuple _) h = ground arith
    encode_obj_same (object cls _) h = ground arith

    pub encode_items_same :
        (items : Items)
        → (encode_items classes registry items).1 ≡ false
        → (encode_items classes registry items).0 ≡ items
    encode_items_same no_items h = refl
    encode_items_same (item v items) h = ground (arith, encode_obj_same v, encode_items_same items)

    pub encode_fields_same :
        (fields : Fields)
        → (encode_fields classes registry fields).1 ≡ false
        → (encode_fields classes registry fields).0 ≡ fields
    encode_fields_same no_fields h = refl
    encode_fields_same (field k v fields) h =
        ground (arith, encode_obj_same v, encode_fields_same fields)

  pub encode_dict :
      Dict.get registry "builtins.dict" ≡ none
      → (fields : Fields)
      → (encode_obj classes registry (dict fields)).0
        ≡ dict (encode_fields classes registry fields).0
  unfolding encode_obj if_changed by_codec
  encode_dict free fields = ground (arith, encode_fields_same fields)

  pub encode_list :
      Dict.get registry "builtins.list" ≡ none
      → (items : Items)
      → (encode_obj classes registry (list items)).0 ≡ list (encode_items classes registry items).0
  unfolding encode_obj if_changed by_codec
  encode_list free items = ground (arith, encode_items_same items)
