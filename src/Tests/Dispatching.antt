-- ===== src/Tests/Dispatching.antt =====
-- Examples of what is proved of lapinbeam/actor.py, on a class that has a default handler only.
use lapinbeam.Prelude.{
  String, Option, some, List, [], ◌∷◌, ◌≡◌, refl, string_eq, nat_eq, pair_eq, option_eq,
}
use lapinbeam.Dict
use lapinbeam.Dict.{get-put, get-empty, contains-no_elements}
use lapinbeam.Node.State.{return}
use lapinbeam.Actors.{
  Spec, default, Metadata, add_attrs, no_handlers, build_metadata, receive, handler_for,
}
use lapinbeam.Actors.Dispatch.{handler_for-undeclared}

abbrev default_attrs : List (String × Option Spec)
default_attrs = ("handle_any", some default) ∷ []

abbrev default_table : Metadata
default_table = record { handlers = Dict.empty; default_handler = some "handle_any" }

handler_for-undeclared_example : handler_for default_table "Task" ≡ return receive
unfolding build_metadata add_attrs no_handlers Dict.get Dict.put Dict.empty
handler_for-undeclared_example =
    handler_for-undeclared default_attrs default_table "Task" refl (λ other. refl)
