-- ===== src/Tests/Payloads.antt =====
-- Examples of what is proved of lapinbeam/codec.py.
use lapinbeam.Prelude.{
  ℕ, String, Option, none, some, Bool, true, if◌then◌else◌, ◌==◌, ◌≡◌, refl, inl, inr, string_eq,
  nat_eq, pair_eq, option_eq, arith, Bool-cases, sym, ap,
}
use lapinbeam.Dict
use lapinbeam.Dict.{get-put, get-empty}
use lapinbeam.Codec.{
  Value, null, str, atom, dict, list, object, no_items, item, no_fields, Fields, field, raised,
  dataclass, Codec, Kind, Classes, Registry, Decoded, decoded, refused, no_codec, envelope,
  encode_fields, encode_payload, decode_payload, field_of,
}
use lapinbeam.Codec.Importing.{tag_of, has_dot, with_imports}
use lapinbeam.Codec.Importing.Nested.{nested_class_refused}
use lapinbeam.Codec.Plain.{NoContainerCodec}
use lapinbeam.Codec.Json.{is_json, GivesJson, all_carried, encode_payload_json}
use lapinbeam.Codec.RoundTrip.{is_carried, IsRestored, RestoredBy, decode_payload-encode_payload}

-- Every class is a dataclass, but for one that a codec carries.
abbrev dataclasses : Classes
dataclasses = record {
  import_class = λ cls. some dataclass;
  kind_of = λ cls. dataclass;
  construct = λ cls fields. decoded (object cls fields);
  model_dump = λ v. v;
  model_validate = λ cls v. decoded v;
}

-- The constructor of an order takes two fields, and raises at any others.
abbrev make_order : String → Fields → Decoded Value
make_order cls (field k v (field k' v' no_fields)) =
    decoded (object cls (field k v (field k' v' no_fields)))
make_order _ _ = refused (raised 7)

abbrev shop_classes : Classes
shop_classes = record dataclasses { construct = make_order }

abbrev money_codec : Codec
money_codec = record { encode = λ v. v; decode = decoded }

abbrev money_registry : Registry
money_registry = Dict.put Dict.empty "shop.Money" money_codec

money_free : NoContainerCodec shop_classes money_registry
unfolding Dict.get Dict.put Dict.empty
money_free = (refl, refl, refl)

abbrev position : Value
position =
    dict (field "x" (atom 3) (field "tags" (list (item (str "a") (item null no_items))) no_fields))

abbrev order : Value
order = list (
    item
      (object "shop.Order"
        (field "position" position (field "price" (object "shop.Money" no_fields) no_fields)))
      (item null no_items))

decode_payload-encode_payload_example :
    decode_payload shop_classes money_registry (encode_payload shop_classes money_registry order)
    ≡ decoded order
unfolding Dict.get Dict.put Dict.empty is_carried field_of IsRestored RestoredBy
decode_payload-encode_payload_example =
    decode_payload-encode_payload shop_classes money_registry order money_free refl
      ((refl, refl, ((tt, ((tt, (tt, tt)), tt)), (refl, tt))), (tt, tt))

-- A codec and a model that are carried as values that JSON has.
abbrev cents_codec : Codec
cents_codec = record { encode = λ v. atom 5; decode = decoded }

abbrev cents_registry : Registry
cents_registry = Dict.put Dict.empty "shop.Money" cents_codec

abbrev dumping : Classes
dumping = record dataclasses { model_dump = λ v. null }

gives_some :
    (codec : Codec) (v : Value) → some cents_codec ≡ some codec → is_json (codec.encode v) ≡ true
unfolding is_json
gives_some codec v e =
    ap (λ o. elim o as (λ _. Bool) [ none ↦ true | some c ↦ is_json (c.encode v) ]) (sym e)

cents-GivesJson : GivesJson dumping cents_registry
unfolding is_json
cents-GivesJson = record {
  codecs = λ tag codec h v. elim (Bool-cases ("shop.Money" == tag)) [
    | inl e ↦
        ground
          (arith, get-put (Dict.empty {V = Codec}) "shop.Money" tag cents_codec, gives_some codec v)
    | inr e ↦ ground (
      arith,
      get-put (Dict.empty {V = Codec}) "shop.Money" tag cents_codec,
      get-empty {V = Codec} tag,
    )
  ];
  dumps = λ v. refl;
}

encode_payload_json_example : is_json (encode_payload dumping cents_registry order) ≡ true
unfolding all_carried Dict.get Dict.put Dict.empty
encode_payload_json_example = encode_payload_json dumping cents_registry cents-GivesJson order refl

-- A module with a class, and a class in that class.
abbrev shop : String → Option ℕ
shop module_name = if module_name == "shop" then some 0 else none

abbrev attribute : ℕ → String → Option ℕ
attribute obj name = if name == "Outer" then some 1 else if name == "Inner" then some 2 else none

abbrev of_dataclasses : ℕ → Kind
of_dataclasses obj = dataclass

abbrev importing : Classes
importing = with_imports shop attribute of_dataclasses dataclasses

abbrev inner_tag : String
inner_tag = tag_of "shop" (tag_of "Outer" "Inner")

nested_class_refused_example :
    (encode_payload importing money_registry (object inner_tag no_fields)
      ≡ envelope inner_tag (dict (encode_fields importing money_registry no_fields).0))
    × (decode_payload importing money_registry
          (encode_payload importing money_registry (object inner_tag no_fields))
        ≡ refused (no_codec (str inner_tag)))
unfolding has_dot tag_of Dict.get Dict.put Dict.empty
nested_class_refused_example =
    nested_class_refused shop attribute of_dataclasses dataclasses money_registry "shop" "Outer"
      "Inner" no_fields refl refl refl refl
