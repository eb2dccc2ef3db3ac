-- ===== src/Actors/Dispatch.antt =====
-- The handlers that a class declares, and those that its table has (lapinbeam/actor.py).
use lapinbeam.Prelude.{
  String, Option, none, some, List, [], ◌∷◌, ◌==◌, ==_iff, ◌≡◌, refl, ◌∙◌, if◌then◌else◌, string_eq,
  arith, Option-cases, inl, inr, ◌⊎◌, ap, subst, All,
}
use lapinbeam.Dict
use lapinbeam.Dict.{get-put, get-empty, find, find-items, items_found}
use lapinbeam.Node.State.{return}
use lapinbeam.Actors.{
  Spec, typed, default, Metadata, add_attr, add_attrs, no_handlers, build_metadata, receive, method,
  handler_for, chosen,
}

-- The first attribute that is declared for a type.
abbrev pub declared : String → List (String × Option Spec) → Option String
declared msg_type [] = none
declared msg_type ((attr, some (typed other)) ∷ rest) =
    if other == msg_type then some attr else declared msg_type rest
declared msg_type ((attr, _) ∷ rest) = declared msg_type rest

abbrev either : Option String → Option String → Option String
either none o = o
either (some a) o = some a

handlers-add_attrs :
    (attrs : List (String × Option Spec)) (meta built : Metadata) (msg_type : String)
    → add_attrs attrs meta ≡ return built
    → Dict.get built.handlers msg_type
      ≡ either (Dict.get meta.handlers msg_type) (declared msg_type attrs)
unfolding add_attrs add_attr
handlers-add_attrs [] meta built msg_type h = ground arith
handlers-add_attrs ((attr, none) ∷ rest) meta built msg_type h =
    handlers-add_attrs rest meta built msg_type h
handlers-add_attrs ((attr, some default) ∷ rest) meta built msg_type h =
    elim (Option-cases meta.default_handler) [
      | inl e ↦
          handlers-add_attrs rest (record meta { default_handler = some attr }) built msg_type
            (rw e at h)
      | inr (other, e) ↦ ground arith
    ]
handlers-add_attrs ((attr, some (typed other)) ∷ rest) meta built msg_type h =
    elim (Option-cases (Dict.get meta.handlers other)) [
      | inl e ↦ ground (
        arith,
        handlers-add_attrs rest (record meta { handlers = Dict.put meta.handlers other attr }) built
            msg_type (rw (e, add_attrs, add_attr) at h),
        get-put meta.handlers other msg_type attr,
        ==_iff other msg_type,
      )
      | inr (old, e) ↦ ground arith
    ]

-- Where the handler table of a class is built without an error, the handler of each type of
-- messages is the first attribute, in the order of `dir(cls)`, that is declared for that type, if
-- there is one.
pub handlers-build_metadata :
    (attrs : List (String × Option Spec)) (built : Metadata) (msg_type : String)
    → build_metadata attrs ≡ return built
    → Dict.get built.handlers msg_type ≡ declared msg_type attrs
unfolding build_metadata no_handlers
handlers-build_metadata attrs built msg_type h =
    handlers-add_attrs attrs no_handlers built msg_type h
    ∙ ground (arith, get-empty {V = String} msg_type)

items-cases :
    (d : Dict.Dict String String)
    → (Dict.items d ≡ [])
      ⊎ ((p : String × String) × (ps : List (String × String)) × (Dict.items d ≡ p ∷ ps))
items-cases d = by_list (Dict.items d)
  where
    by_list :
        (l : List (String × String))
        → (l ≡ []) ⊎ ((p : String × String) × (ps : List (String × String)) × (l ≡ p ∷ ps))
    by_list [] = inl refl
    by_list (p ∷ ps) = inr (p, ps, refl)

-- Where the handler table is built without an error, a message of a type that a method is declared
-- for is given to the first such method.
pub handler_for-declared :
    (attrs : List (String × Option Spec)) (built : Metadata) (msg_type attr : String)
    → build_metadata attrs ≡ return built
    → declared msg_type attrs ≡ some attr
    → handler_for built msg_type ≡ return (method attr)
unfolding handler_for chosen find
handler_for-declared attrs built msg_type attr h e =
    let here = handlers-build_metadata attrs built msg_type h ∙ e in
    elim (items-cases built.handlers) [
      | inl empty ↦ cc (find-items built.handlers msg_type, ap (find msg_type) empty, here)
      | inr (p, ps, full) ↦ rw (full, handler_for, here) refl
    ]

-- Where the handler table is built without an error and no method is declared for a type, every
-- message is given to `receive`, even if a method is marked as the default.
pub handler_for-undeclared :
    (attrs : List (String × Option Spec)) (built : Metadata) (msg_type : String)
    → build_metadata attrs ≡ return built
    → ((other : String) → declared other attrs ≡ none)
    → handler_for built msg_type ≡ return receive
unfolding handler_for
handler_for-undeclared attrs built msg_type h no_type = elim (items-cases built.handlers) [
  | inl empty ↦ rw (empty, handler_for) refl
  | inr (p, ps, full) ↦ cc (first p ps full, handlers-build_metadata attrs built p.0 h, no_type p.0)
]
  where
    first :
        (p : String × String) (ps : List (String × String))
        → Dict.items built.handlers ≡ p ∷ ps
        → Dict.get built.handlers p.0 ≡ some p.1
    first p ps full =
        (subst (All (λ q. Dict.get built.handlers q.0 ≡ some q.1)) full
          (items_found built.handlers)).0
