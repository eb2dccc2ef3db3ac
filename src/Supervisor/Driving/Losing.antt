-- ===== src/Supervisor/Driving/Losing.antt =====
-- What a crash loses of an actor's mailbox (lapinbeam/supervisor.py, `_drive`).
use lapinbeam.Prelude.{ℕ, String, List, ◌++◌, ◌≡◌, nat_eq, string_eq}
use lapinbeam.Messages.{Message, MessageMeta}
use lapinbeam.Node.State.{Result}
use lapinbeam.Node.Mailboxes.Delivery.{waiting_in}
use lapinbeam.Actors.{Metadata, Handler}
use lapinbeam.Supervisor.Driving.{Context, give}

module _ (meta : Metadata) (type_of : Message → String)
    (call : Handler → Message → Context → Result (Unit {0}) × Context) (box : ℕ) where
  -- Whatever happens while a handler runs, the messages that wait are not touched: others only come
  -- after them.
  abbrev pub OnlyAppends : Type 0
  OnlyAppends =
      (handler : Handler) (msg : Message) (c : Context)
      → (more : List (Message × MessageMeta)) × (waiting_in (call handler msg c).1.node box
          ≡ waiting_in c.node box ++ more)

  -- What becomes of a message does not depend on the context.
  abbrev pub Gives : (Message → Result (Unit {0})) → Type 0
  Gives outcome = (msg : Message) (c : Context) → (give meta type_of call msg c).0 ≡ outcome msg
