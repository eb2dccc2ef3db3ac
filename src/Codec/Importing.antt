-- ===== src/Codec/Importing.antt =====
-- `_tag` and `_import_class` of lapinbeam/codec.py. What `importlib.import_module` and `getattr` find
-- is a parameter, `none` where they raise `ImportError` or `AttributeError`. A tag with no dot, or
-- that starts with one, at which `import_module` raises an error of another type, is not considered.
pub mod Nested
use Prim.Native.Char.{Char, code}
use lapinbeam.Prelude.{
  String, Option, none, some, List, [], ◌∷◌, Bool, true, false, ◌||◌, ◌==◌, ◌<>◌, if◌then◌else◌,
  nat_eq,
}
use lapinbeam.Codec.{Kind, Classes}

-- `_tag`, of a class's `__module__` and `__qualname__`
unfoldable pub tag_of : (module_name qualname : String) → String
tag_of module_name qualname = module_name <> ("." <> qualname)

abbrev pub is_dot : Char → Bool
is_dot c = code c == b'.'

unfoldable pub has_dot : String → Bool
has_dot String.[] = false
has_dot (String.◌∷◌ c rest) = is_dot c || has_dot rest

-- `tag.rpartition(".")`, less the separator: what stands before the last dot, and what after it
unfoldable pub rpartition : String → String × String
unfolding has_dot
rpartition String.[] = (String.[], String.[])
rpartition (String.◌∷◌ c rest) =
    let (before, after) = rpartition rest in
    if has_dot rest
    then (String.◌∷◌ c before, after)
    else if is_dot c
    then (String.[], rest)
    else (String.[], String.◌∷◌ c rest)

abbrev pub onto_first : Char → List String → List String
onto_first c [] = []
onto_first c (part ∷ parts) = String.◌∷◌ c part ∷ parts

-- `qualname.split(".")`
unfoldable pub split : String → List String
split String.[] = String.[] ∷ []
split (String.◌∷◌ c rest) =
    let parts = split rest in if is_dot c then String.[] ∷ parts else onto_first c parts

module _ {ℓ} {Object : Type ℓ} (import_module : String → Option Object)
    (getattr : Object → String → Option Object) where
  -- `for part in …: obj = getattr(obj, part)`
  unfoldable pub walk : List String → Object → Option Object
  walk [] obj = some obj
  walk (part ∷ parts) obj = elim (getattr obj part) [ none ↦ none | some next ↦ walk parts next ]

  -- `_import_class`
  unfoldable pub import_class : (tag : String) → Option Object
  unfolding rpartition split walk
  import_class tag =
      let (module_name, qualname) = rpartition tag in
      elim (import_module module_name) [ none ↦ none | some obj ↦ walk (split qualname) obj ]

  -- The classes of a process, with what `_import_class` finds.
  abbrev pub with_imports : (Object → Kind) → Classes → Classes
  with_imports kind classes = record classes {
    import_class = λ tag. elim (import_class tag) [ none ↦ none | some obj ↦ some (kind obj) ];
  }
