-- ===== src/Codec/Importing/Nested.antt =====
-- Which classes are found again by their tags (lapinbeam/codec.py).
use text.Mathlib.TextLemmas.{nil-append, cons-append, append_assoc}
use lapinbeam.Prelude.{
  String, Option, none, some, [], ◌∷◌, true, false, ◌||◌, ◌<>◌, ◌≡◌, refl, sym, ◌∙◌, ap, nat_eq,
  string_eq, arith,
}
use lapinbeam.Dict
use lapinbeam.Codec.{
  Kind, dataclass, Fields, dict, str, object, Classes, Registry, envelope, refused, no_codec,
  encode_obj, encode_fields, encode_payload, by_kind, rebuild, by_class, decode_each,
  decode_payload,
}
use lapinbeam.Codec.Plain.{by_codec-none}
use lapinbeam.Codec.RoundTrip.{decode_envelope}
use lapinbeam.Codec.Importing.{tag_of, has_dot, rpartition, split, walk, import_class, with_imports}

has_dot-append : (a b : String) → has_dot (a <> b) ≡ (has_dot a || has_dot b)
unfolding has_dot
has_dot-append String.[] b = ap has_dot (nil-append b)
has_dot-append (String.◌∷◌ c rest) b =
    ap has_dot (cons-append c rest b) ∙ ground (arith, has_dot-append rest b)

dotted : (after : String) → "." <> after ≡ String.◌∷◌ "." after
dotted after = cons-append "." String.[] after ∙ ap (String.◌∷◌ ".") (nil-append after)

rpartition-dotted :
    (after : String)
    → has_dot after ≡ false
    → rpartition (String.◌∷◌ "." after) ≡ (String.[], after)
unfolding rpartition has_dot
rpartition-dotted after plain = rw plain refl

has_dot-dotted : (before after : String) → has_dot (before <> ("." <> after)) ≡ true
unfolding has_dot
has_dot-dotted before after =
    has_dot-append before ("." <> after) ∙ ground (arith, ap has_dot (dotted after))

-- A tag is parted at its last dot.
rpartition-tag_of :
    (before after : String)
    → has_dot after ≡ false
    → rpartition (tag_of before after) ≡ (before, after)
unfolding tag_of rpartition has_dot
rpartition-tag_of String.[] after plain =
    ap rpartition (nil-append ("." <> after))
    ∙ ap rpartition (dotted after)
    ∙ rpartition-dotted after plain
rpartition-tag_of (String.◌∷◌ c rest) after plain =
    ap rpartition (cons-append c rest ("." <> after))
    ∙ ground (arith, rpartition-tag_of rest after plain, has_dot-dotted rest after)

split_plain : (name : String) → has_dot name ≡ false → split name ≡ name ∷ []
unfolding split has_dot
split_plain String.[] plain = refl
split_plain (String.◌∷◌ c rest) plain = ground (arith, split_plain rest)

tag_of-tag_of :
    (module_name outer inner : String)
    → tag_of (tag_of module_name outer) inner ≡ tag_of module_name (tag_of outer inner)
unfolding tag_of
tag_of-tag_of module_name outer inner =
    append_assoc module_name ("." <> outer) ("." <> inner)
    ∙ ap (λ s. module_name <> s) (append_assoc "." outer ("." <> inner))

module _ {ℓ} {Object : Type ℓ} (import_module : String → Option Object)
    (getattr : Object → String → Option Object) where
  -- A class at the top of its module is the module's attribute of its name.
  import_class-top :
      (module_name name : String)
      → has_dot name ≡ false
      → import_class import_module getattr (tag_of module_name name)
        ≡ elim (import_module module_name) [ none ↦ none | some obj ↦ getattr obj name ]
  unfolding import_class walk
  import_class-top module_name name plain =
      let from_parts : String × String → Option Object = λ p. elim (import_module p.0) [
        | none ↦ none
        | some obj ↦ walk import_module getattr (split p.1) obj
      ] in
      ap from_parts (rpartition-tag_of module_name name plain)
      ∙ ap
          (λ parts. elim (import_module module_name) [
            | none ↦ none
            | some obj ↦ walk import_module getattr parts obj
          ])
          (split_plain name plain)
      ∙ ground arith

  -- A class in a class is looked for in a module of the outer class's tag.
  import_class-nested :
      (module_name outer inner : String)
      → has_dot inner ≡ false
      → import_class import_module getattr (tag_of module_name (tag_of outer inner))
        ≡ elim (import_module (tag_of module_name outer)) [
          | none ↦ none
          | some obj ↦ getattr obj inner
        ]
  import_class-nested module_name outer inner plain =
      ap (import_class import_module getattr) (sym (tag_of-tag_of module_name outer inner))
      ∙ import_class-top (tag_of module_name outer) inner plain

  -- For a dataclass that stands in another class, with no codec of its own, where no module has
  -- the tag of the outer class as its name: an instance is encoded under the tag of its class, and
  -- the payload is refused, for want of a codec, when it is decoded.
  pub nested_class_refused :
      (kind : Object → Kind) (classes : Classes) (registry : Registry)
      (module_name outer inner : String) (attributes : Fields)
      → has_dot inner ≡ false
      → import_module (tag_of module_name outer) ≡ none
      → Dict.get registry (tag_of module_name (tag_of outer inner)) ≡ none
      → classes.kind_of (tag_of module_name (tag_of outer inner)) ≡ dataclass
      → let found = with_imports import_module getattr kind classes in
        let tag = tag_of module_name (tag_of outer inner) in
        (encode_payload found registry (object tag attributes)
          ≡ envelope tag (dict (encode_fields found registry attributes).0))
        × (decode_payload found registry (encode_payload found registry (object tag attributes))
            ≡ refused (no_codec (str tag)))
  unfolding encode_payload decode_payload encode_obj by_kind rebuild by_class
  nested_class_refused kind classes registry module_name outer inner attributes plain no_module
        no_codec_for is_dataclass =
      let found = with_imports import_module getattr kind classes in
      let tag = tag_of module_name (tag_of outer inner) in
      let out = dict (encode_fields found registry attributes).0 in
      let missing : import_class import_module getattr tag ≡ none =
        import_class-nested module_name outer inner plain ∙ ground (arith, no_module) in
      let sent : encode_payload found registry (object tag attributes) ≡ envelope tag out =
        ap (λ e. e.0) (by_codec-none found registry tag _ _ no_codec_for)
        ∙ rw (is_dataclass, by_kind) refl in
      (
        sent,
        ap (decode_payload found registry) sent
            ∙ decode_envelope found registry tag out
            ∙ rw (no_codec_for, rebuild)
                (ap
                  (λ o.
                    by_class found registry (elim o [ none ↦ none | some obj ↦ some (kind obj) ])
                      tag out (decode_each found registry out))
                  missing),
      )
