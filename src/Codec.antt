-- ===== src/Codec.antt =====
-- lapinbeam/codec.py: payloads as JSON-compatible values. A class is named by its tag
-- (`module.QualName`). What a class does by itself (its constructor, the methods of Pydantic, an
-- import) is a parameter, and a codec is a pair of functions of the application.
pub mod RoundTrip
pub mod Plain
pub mod Encoding
pub mod Json
pub mod Importing
use lapinbeam.Prelude.{
  ℕ, String, Option, none, some, Bool, true, false, ◌||◌, ◌==◌, if◌then◌else◌, string_eq,
}
use lapinbeam.Dict
use lapinbeam.Dict.{Dict}

-- What Python objects a payload is made of: `None`, a text, another value that JSON has, the
-- containers, and an instance of a class with its attributes, which for a dataclass are its fields.
-- The keys of a dict are texts.
mutual
  pub data Value : Type 0 where
    null : Value
    str : String → Value
    atom : ℕ → Value
    dict : Fields → Value
    list : Items → Value
    tuple : Items → Value
    object : (cls : String) → Fields → Value

  pub data Items : Type 0 where
    no_items : Items
    item : Value → Items → Items

  pub data Fields : Type 0 where
    no_fields : Fields
    field : String → Value → Fields → Fields

-- `ValueError` (no codec registered), `KeyError` (no "data"), `TypeError` (a tag that cannot be
-- hashed), `AttributeError` ("data" is not a dict), or what code of the application raises.
pub data CodecError : Type 0 where
  no_codec : (tag : Value) → CodecError
  no_data unhashable_tag not_a_dict : CodecError
  raised : ℕ → CodecError

pub data Decoded {ℓ} (A : Type ℓ) : Type ℓ where
  decoded : A → Decoded A
  refused : CodecError → Decoded A

-- What a class is: a dataclass, a model of Pydantic (and no dataclass), or neither.
pub data Kind : Type 0 where
  dataclass pydantic plain : Kind

-- A codec of the application.
pub record Codec : Type 0 where
  pub encode : Value → Value
  pub decode : Value → Decoded Value

-- The classes of a process: what `_import_class` finds under a tag, what an instance's class is, the
-- constructors of dataclasses, and `model_dump` and `model_validate` of Pydantic.
pub record Classes : Type 0 where
  pub import_class : String → Option Kind
  pub kind_of : String → Kind
  pub construct : String → Fields → Decoded Value
  pub model_dump : Value → Value
  pub model_validate : String → Value → Decoded Value

abbrev pub Registry : Type 0
Registry = Dict String Codec

-- `register_codec`
unfoldable pub register_codec : (cls : String) → Codec → Registry → Registry
register_codec cls codec registry = Dict.put registry cls codec

-- `RESERVED`
abbrev pub reserved : String
reserved = "__lb_type__"

unfoldable pub envelope : (tag : String) → (data_ : Value) → Value
envelope tag data_ = dict (field reserved (str tag) (field "data" data_ no_fields))

-- `obj.get(key)`
unfoldable pub field_of : String → Fields → Option Value
field_of key no_fields = none
field_of key (field k v fields) = if k == key then some v else field_of key fields

unfoldable pub map_decoded {ℓ κ} : {A : Type ℓ} {B : Type κ} → (A → B) → Decoded A → Decoded B
map_decoded f (decoded a) = decoded (f a)
map_decoded f (refused e) = refused e

unfoldable pub also_decoded {ℓ κ μ} :
    {A : Type ℓ} {B : Type κ} {C : Type μ} → (A → B → C) → Decoded A → Decoded B → Decoded C
also_decoded f (refused e) b = refused e
also_decoded f (decoded a) (refused e) = refused e
also_decoded f (decoded a) (decoded b) = decoded (f a b)

-- The value, and whether it is another object than the one given.
abbrev pub Encoded : Type 0
Encoded = Value × Bool

module _ (classes : Classes) (registry : Registry) where
  -- A registered codec, before what is done without one.
  unfoldable pub by_codec : (tag : String) → Value → Encoded → Encoded
  by_codec tag v without = elim (Dict.get registry tag) [
    | some codec ↦ (envelope tag (codec.encode v), true)
    | none ↦ without
  ]

  -- `out if changed else obj`
  unfoldable pub if_changed : (out obj : Value) → Bool → Encoded
  if_changed out obj changed = (if changed then out else obj, changed)

  -- An instance, by its class.
  unfoldable pub by_kind : Kind → (cls : String) → (obj : Value) → (attributes : Fields) → Encoded
  by_kind dataclass cls obj attributes = (envelope cls (dict attributes), true)
  by_kind pydantic cls obj attributes = (envelope cls (classes.model_dump obj), true)
  by_kind plain cls obj attributes = (obj, false)

  -- `_encode_obj`
  unfoldable mutual
    unfolding by_codec if_changed by_kind

    pub encode_obj : Value → Encoded
    encode_obj null = (null, false)
    encode_obj (str s) = (str s, false)
    encode_obj (atom n) = (atom n, false)
    encode_obj (dict fields) =
        let (out, changed) = encode_fields fields in
        by_codec "builtins.dict" (dict fields) (if_changed (dict out) (dict fields) changed)
    encode_obj (list items) =
        let (out, changed) = encode_items items in
        by_codec "builtins.list" (list items) (if_changed (list out) (list items) changed)
    encode_obj (tuple items) =
        let (out, changed) = encode_items items in
        by_codec "builtins.tuple" (tuple items) (if_changed (list out) (tuple items) changed)
    encode_obj (object cls fields) =
        let (out, changed) = encode_fields fields in
        by_codec cls (object cls fields) (by_kind (classes.kind_of cls) cls (object cls fields) out)

    pub encode_items : Items → Items × Bool
    encode_items no_items = (no_items, false)
    encode_items (item v items) =
        let (w, changed) = encode_obj v in
        let (out, more) = encode_items items in (item w out, changed || more)

    pub encode_fields : Fields → Fields × Bool
    encode_fields no_fields = (no_fields, false)
    encode_fields (field k v fields) =
        let (w, changed) = encode_obj v in
        let (out, more) = encode_fields fields in (field k w out, changed || more)

  unfoldable pub encode_payload : Value → Value
  unfolding encode_obj
  encode_payload v = (encode_obj v).0

  unfoldable pub then_construct : (tag : String) → Decoded Fields → Decoded Value
  then_construct tag (refused e) = refused e
  then_construct tag (decoded fields) = classes.construct tag fields

  -- `_rebuild` of a class that was imported; `fields` is what the fields of the data decode to.
  unfoldable pub by_class :
      Option Kind → (tag : String) → (data_ : Value) → (fields : Decoded Fields) → Decoded Value
  unfolding then_construct
  by_class none tag data_ fields = refused (no_codec (str tag))
  by_class (some dataclass) tag data_ fields = then_construct tag fields
  by_class (some pydantic) tag data_ fields = classes.model_validate tag data_
  by_class (some plain) tag data_ fields = refused (no_codec (str tag))

  -- `_rebuild`
  unfoldable pub rebuild :
      (tag : String) → (data_ : Value) → (fields : Decoded Fields) → Decoded Value
  unfolding by_class
  rebuild tag data_ fields = elim (Dict.get registry tag) [
    | some codec ↦ codec.decode data_
    | none ↦ by_class (classes.import_class tag) tag data_ fields
  ]

  -- A tag that is not a text: a list or a dict cannot be looked up, and nothing else is registered.
  unfoldable pub bad_tag : Value → Decoded Value
  bad_tag (dict _) = refused unhashable_tag
  bad_tag (list _) = refused unhashable_tag
  bad_tag tag = refused (no_codec tag)

  -- By what stands under the reserved key, if anything does, and under "data".
  unfoldable pub by_tag :
      Option Value
      → (data_ : Option Value) → (fields : Decoded Fields) → (untagged : Decoded Fields)
      → Decoded Value
  unfolding rebuild bad_tag map_decoded
  by_tag none data_ fields untagged = map_decoded dict untagged
  by_tag (some null) data_ fields untagged = map_decoded dict untagged
  by_tag (some tag) none fields untagged = refused no_data
  by_tag (some (str tag)) (some data_) fields untagged = rebuild tag data_ fields
  by_tag (some tag) (some data_) fields untagged = bad_tag tag

  -- `_decode_obj`. Where nothing changed it returns the object itself, which equals what it has built.
  unfoldable mutual
    unfolding by_tag map_decoded also_decoded

    pub decode_obj : Value → Decoded Value
    decode_obj (dict fields) =
        by_tag (field_of reserved fields) (field_of "data" fields) (decode_data fields)
          (decode_fields fields)
    decode_obj (list items) = map_decoded list (decode_items items)
    decode_obj null = decoded null
    decode_obj (str s) = decoded (str s)
    decode_obj (atom n) = decoded (atom n)
    decode_obj (tuple items) = decoded (tuple items)
    decode_obj (object cls fields) = decoded (object cls fields)

    pub decode_items : Items → Decoded Items
    decode_items no_items = decoded no_items
    decode_items (item v items) = also_decoded item (decode_obj v) (decode_items items)

    pub decode_fields : Fields → Decoded Fields
    decode_fields no_fields = decoded no_fields
    decode_fields (field k v fields) = also_decoded (field k) (decode_obj v) (decode_fields fields)

    -- `{k: _decode_obj(v) for k, v in data.items()}`
    pub decode_each : Value → Decoded Fields
    decode_each (dict fields) = decode_fields fields
    decode_each v = refused not_a_dict

    -- The same for what stands under "data".
    pub decode_data : Fields → Decoded Fields
    decode_data no_fields = refused no_data
    decode_data (field k v fields) =
        let rest = decode_data fields in if k == "data" then decode_each v else rest

  unfoldable pub decode_payload : Value → Decoded Value
  unfolding decode_obj
  decode_payload v = decode_obj v
