-- ===== src/Codec/RoundTrip.antt =====
-- Payloads with instances of classes, encoded and decoded (lapinbeam/codec.py).
use lapinbeam.Prelude.{
  String, Option, none, some, is_some, Bool, true, false, not, ◌&&◌, if◌then◌else◌, ◌≡◌, ◌⊎◌, refl,
  sym, ◌∙◌, ap, string_eq, arith, Option-cases, inl, inr, subst,
}
use lapinbeam.Dict
use lapinbeam.Codec.{
  Value, null, str, atom, dict, list, tuple, object, Items, no_items, item, Fields, no_fields,
  field, Kind, dataclass, pydantic, plain, Codec, Classes, Registry, reserved, envelope, field_of,
  by_codec, by_kind, encode_obj, encode_items, encode_fields, encode_payload, decoded, by_tag,
  rebuild, by_class, then_construct, map_decoded, also_decoded, decode_obj, decode_items,
  decode_fields, decode_each, decode_payload,
}
use lapinbeam.Codec.Plain.{NoContainerCodec, by_codec-none, no_key}
use lapinbeam.Codec.Encoding.{field_of-encode_fields, encode_dict, encode_list}

kind-cases : (k : Kind) → (k ≡ dataclass) ⊎ (k ≡ pydantic) ⊎ (k ≡ plain)
kind-cases dataclass = inl refl
kind-cases pydantic = inr (inl refl)
kind-cases plain = inr (inr refl)

module _ (classes : Classes) (registry : Registry) where
  -- A registered codec serves the class, or the class is a dataclass or a model.
  carried : String → (fields : Bool) → Bool
  carried cls fields =
      if is_some (Dict.get registry cls)
      then true
      else (elim (classes.kind_of cls) [ dataclass ↦ fields | pydantic ↦ true | plain ↦ false ])

  -- No tuple, no dict with the reserved key, and no instance of a class that nothing carries.
  unfoldable mutual
    unfolding carried

    pub is_carried : Value → Bool
    is_carried null = true
    is_carried (str s) = true
    is_carried (atom n) = true
    is_carried (dict fields) = not (is_some (field_of reserved fields)) && are_carried_fields fields
    is_carried (list items) = are_carried items
    is_carried (tuple items) = false
    is_carried (object cls fields) = carried cls (are_carried_fields fields)

    pub are_carried : Items → Bool
    are_carried no_items = true
    are_carried (item v items) = is_carried v && are_carried items

    pub are_carried_fields : Fields → Bool
    are_carried_fields no_fields = true
    are_carried_fields (field k v fields) = is_carried v && are_carried_fields fields

  -- An instance is made again: by its codec of what that has given, or else, once its class was
  -- found under its tag, by the constructor of a dataclass of its fields, whose values are made
  -- again too, or by `model_validate` of what the model was dumped to.
  unfoldable pub RestoredBy : Option Codec → Kind → String → Fields → (inner : Type 0) → Type 0
  RestoredBy (some codec) kind cls fields inner =
      codec.decode (codec.encode (object cls fields)) ≡ decoded (object cls fields)
  RestoredBy none dataclass cls fields inner =
      (classes.import_class cls ≡ some dataclass)
      × (classes.construct cls fields ≡ decoded (object cls fields))
      × inner
  RestoredBy none pydantic cls fields inner =
      (classes.import_class cls ≡ some pydantic)
      × (classes.model_validate cls (classes.model_dump (object cls fields))
          ≡ decoded (object cls fields))
  RestoredBy none plain _ _ _ = Unit {0}

  -- Each instance in a payload is made again.
  unfoldable mutual
    unfolding RestoredBy

    pub IsRestored : Value → Type 0
    IsRestored null = Unit {0}
    IsRestored (str s) = Unit {0}
    IsRestored (atom n) = Unit {0}
    IsRestored (dict fields) = AreRestoredFields fields
    IsRestored (list items) = AreRestored items
    IsRestored (tuple items) = Unit {0}
    IsRestored (object cls fields) =
        RestoredBy (Dict.get registry cls) (classes.kind_of cls) cls fields
          (AreRestoredFields fields)

    pub AreRestored : Items → Type 0
    AreRestored no_items = Unit {0}
    AreRestored (item v items) = IsRestored v × AreRestored items

    pub AreRestoredFields : Fields → Type 0
    AreRestoredFields no_fields = Unit {0}
    AreRestoredFields (field k v fields) = IsRestored v × AreRestoredFields fields

  -- An envelope is rebuilt, from its data and what their fields decode to.
  pub decode_envelope :
      (cls : String) (data_ : Value)
      → decode_obj classes registry (envelope cls data_)
        ≡ rebuild classes registry cls data_ (decode_each classes registry data_)
  unfolding decode_obj by_tag envelope field_of
  decode_envelope cls data_ = refl

  decode_dict :
      (fields : Fields)
      → field_of reserved fields ≡ none
      → decode_obj classes registry (dict fields)
        ≡ map_decoded dict (decode_fields classes registry fields)
  unfolding decode_obj by_tag
  decode_dict _ none_there = rw none_there refl

  rebuild_codec :
      (cls : String) (codec : Codec)
      → Dict.get registry cls ≡ some codec
      → (data_ : Value)
      → rebuild classes registry cls data_ (decode_each classes registry data_) ≡ codec.decode data_
  unfolding rebuild
  rebuild_codec cls codec e data_ = rw (e, rebuild) refl

  rebuild_class :
      (cls : String) (data_ : Value)
      → Dict.get registry cls ≡ none
      → classes.import_class cls ≡ some (classes.kind_of cls)
      → rebuild classes registry cls data_ (decode_each classes registry data_)
        ≡ by_class classes registry
            (some (classes.kind_of cls))
            cls
            data_
            (decode_each classes registry data_)
  unfolding rebuild
  rebuild_class cls data_ e imported = rw (e, rebuild, imported) refl

  encode_by_codec :
      (cls : String) (codec : Codec) (attributes : Fields)
      → Dict.get registry cls ≡ some codec
      → (encode_obj classes registry (object cls attributes)).0
        ≡ envelope cls (codec.encode (object cls attributes))
  unfolding encode_obj by_codec
  encode_by_codec cls codec attributes e = rw (e, encode_obj, by_codec) refl

  come_object :
      (cls : String) (attributes : Fields)
      → is_carried (object cls attributes) ≡ true
      → IsRestored (object cls attributes)
      → (are_carried_fields attributes ≡ true
          → AreRestoredFields attributes
          → decode_fields classes registry (encode_fields classes registry attributes).0
            ≡ decoded attributes)
      → decode_obj classes registry (encode_obj classes registry (object cls attributes)).0
        ≡ decoded (object cls attributes)
  unfolding is_carried carried encode_obj by_codec by_kind decode_obj rebuild by_class
      then_construct IsRestored RestoredBy
  come_object cls attributes h known attributes_come =
      let obj = object cls attributes in
      let inner = AreRestoredFields attributes in
      let kind = classes.kind_of cls in
      elim (Option-cases (Dict.get registry cls)) [
        | inr (codec, e) ↦
            rw
              (
                encode_by_codec cls codec attributes e,
                decode_envelope cls (codec.encode obj),
                rebuild_codec cls codec e (codec.encode obj),
              )
              (subst (λ o. RestoredBy o kind cls attributes inner) e known)
        | inl e ↦ elim (kind-cases (classes.kind_of cls)) [
          | inl k ↦
              let out = dict (encode_fields classes registry attributes).0 in
              let (imported, made, parts) =
                subst (λ c. RestoredBy none c cls attributes inner) k
                  (subst (λ o. RestoredBy o kind cls attributes inner) e known) in
              rw
                (
                  by_codec-none classes registry _ _ _ e,
                  k,
                  by_kind,
                  decode_envelope cls out,
                  rebuild_class cls out e (imported ∙ ap some (sym k)),
                  k,
                  by_class,
                  attributes_come (ground arith) parts,
                )
                made
          | inr (inl k) ↦
              let out = classes.model_dump obj in
              let (imported, validated) =
                subst (λ c. RestoredBy none c cls attributes inner) k
                  (subst (λ o. RestoredBy o kind cls attributes inner) e known) in
              rw
                (
                  by_codec-none classes registry _ _ _ e,
                  k,
                  by_kind,
                  decode_envelope cls out,
                  rebuild_class cls out e (imported ∙ ap some (sym k)),
                  k,
                )
                validated
          | inr (inr k) ↦ ground arith
        ]
      ]

  mutual
    unfolding is_carried IsRestored encode_obj decode_obj map_decoded also_decoded

    come :
        NoContainerCodec classes registry
        → (v : Value) → is_carried v ≡ true
        → IsRestored v
        → decode_obj classes registry (encode_obj classes registry v).0 ≡ decoded v
    come free null h known = refl
    come free (str s) h known = refl
    come free (atom n) h known = refl
    come free (dict fields) h known =
        rw
          (
            encode_dict classes registry free.0 fields,
            decode_dict (encode_fields classes registry fields).0 (
                field_of-encode_fields classes registry reserved fields
                  (no_key (field_of reserved fields) (ground arith))),
            come_fields free fields (ground arith) known,
          )
          refl
    come free (list items) h known =
        rw (encode_list classes registry free.1 items, come_items free items h known) refl
    come free (tuple items) h known = cc
    come free (object cls fields) h known = come_object cls fields h known (come_fields free fields)

    come_items :
        NoContainerCodec classes registry
        → (items : Items) → are_carried items ≡ true
        → AreRestored items
        → decode_items classes registry (encode_items classes registry items).0 ≡ decoded items
    come_items free no_items h known = refl
    come_items free (item v items) h known =
        rw (come free v (ground arith) known.0, come_items free items (ground arith) known.1) refl

    come_fields :
        NoContainerCodec classes registry
        → (fields : Fields) → are_carried_fields fields ≡ true
        → AreRestoredFields fields
        → decode_fields classes registry (encode_fields classes registry fields).0 ≡ decoded fields
    come_fields free no_fields h known = refl
    come_fields free (field k v fields) h known =
        rw (come free v (ground arith) known.0, come_fields free fields (ground arith) known.1) refl

  -- What a payload is encoded to decodes to the payload: where no codec is registered for the
  -- containers, the payload has no tuple, no dict with the reserved key and no instance of a class
  -- that nothing carries, and each instance in it is made again: by its codec of what that has
  -- given, or, once its class was found under its tag, by the constructor of a dataclass of its
  -- fields, or by `model_validate` of what the model was dumped to.
  pub decode_payload-encode_payload :
      (v : Value)
      → NoContainerCodec classes registry
      → is_carried v ≡ true
      → IsRestored v
      → decode_payload classes registry (encode_payload classes registry v) ≡ decoded v
  unfolding encode_payload decode_payload
  decode_payload-encode_payload v free h known = come free v h known
