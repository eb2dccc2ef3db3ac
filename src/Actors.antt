-- ===== src/Actors.antt =====
-- Actor classes: the handler table of lapinbeam/actor.py, and the choice of a handler for a message
-- in `Supervisor._drive` of lapinbeam/supervisor.py. A type of messages and an attribute of a class
-- are named by a text; the attributes come in the order of `dir(cls)`.
pub mod Dispatch
use lapinbeam.Prelude.{
  String, Option, none, some, List, [], ◌∷◌, Bool, true, false, ◌==◌, if◌then◌else◌, string_eq,
}
use lapinbeam.Dict
use lapinbeam.Dict.{Dict}
use lapinbeam.Messages.{more_than_one_handler, bad_on_arguments, no_handler}
use lapinbeam.Node.State.{Result, return, raise}

-- What `on` leaves on a method.
pub data Spec : Type 0 where
  typed : (msg_type : String) → Spec
  default : Spec

-- `on`, with `none` for the type that is not given
unfoldable pub on : Option String → (default : Bool) → Result Spec
on none false = raise bad_on_arguments
on (some msg_type) false = return (typed msg_type)
on none true = return default
on (some msg_type) true = raise bad_on_arguments

pub record Metadata : Type 0 where
  pub handlers : Dict String String
  pub default_handler : Option String

-- One attribute of the class.
add_attr : String → Option Spec → Metadata → Result Metadata
add_attr attr none meta = return meta
add_attr attr (some default) meta = elim meta.default_handler [
  | some other ↦ raise (more_than_one_handler other attr)
  | none ↦ return (record meta { default_handler = some attr })
]
add_attr attr (some (typed msg_type)) meta = elim (Dict.get meta.handlers msg_type) [
  | some other ↦ raise (more_than_one_handler other attr)
  | none ↦ return (record meta { handlers = Dict.put meta.handlers msg_type attr })
]

unfoldable pub add_attrs : List (String × Option Spec) → Metadata → Result Metadata
unfolding add_attr
add_attrs [] meta = return meta
add_attrs ((attr, spec) ∷ rest) meta = elim (add_attr attr spec meta) [
  | raise e ↦ raise e
  | return more ↦ add_attrs rest more
]

unfoldable pub no_handlers : Metadata
no_handlers = record { handlers = Dict.empty; default_handler = none }

-- `_build_metadata`
unfoldable pub build_metadata : List (String × Option Spec) → Result Metadata
unfolding add_attrs no_handlers
build_metadata attrs = add_attrs attrs no_handlers

-- Which method of the actor a message is given to.
pub data Handler : Type 0 where
  receive : Handler
  method : (attr : String) → Handler

chosen : Option String → Option String → String → Result Handler
chosen (some attr) fallback msg_type = return (method attr)
chosen none (some attr) msg_type = return (method attr)
chosen none none msg_type = raise (no_handler msg_type)

-- The choice in the loop of `_drive`.
unfoldable pub handler_for : Metadata → (msg_type : String) → Result Handler
unfolding chosen
handler_for meta msg_type = elim (Dict.items meta.handlers) [
  | [] ↦ return receive
  | h ∷ hs ↦ chosen (Dict.get meta.handlers msg_type) meta.default_handler msg_type
]

-- What `actor` leaves on a class.
pub record ActorClass : Type 0 where
  pub name : String
  pub metadata : Metadata

-- `name or cls.__name__`
unfoldable pub or_class_name : Option String → (cls : String) → String
or_class_name none cls = cls
or_class_name (some name) cls = if name == "" then cls else name

-- `actor`, with `none` where it is used without a name
unfoldable pub actor :
    (name : Option String) → (cls : String) → List (String × Option Spec) → Result ActorClass
unfolding or_class_name build_metadata
actor name cls attrs = elim (build_metadata attrs) [
  | raise e ↦ raise e
  | return meta ↦ return (record { name = or_class_name name cls; metadata = meta })
]

unfoldable pub actor_name : ActorClass → String
actor_name cls = cls.name
