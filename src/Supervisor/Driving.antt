-- ===== src/Supervisor/Driving.antt =====
-- `Supervisor._drive` of lapinbeam/supervisor.py: an actor's loop over its mailbox, and the context
-- variables of lapinbeam/context.py that it binds. What a handler does, with all that happens on the
-- node while it waits, is a parameter: it may change the node and the variables, and may raise.
pub mod Losing
use lapinbeam.Prelude.{ℕ, zero, suc, String, Option, none, some}
use lapinbeam.Messages.{Error, Message, MessageMeta}
use lapinbeam.Node.State.{Node, Result, return, raise}
use lapinbeam.Node.Refs.{Ref}
use lapinbeam.Asks.{take_first}
use lapinbeam.Actors.{Metadata, Handler, handler_for}

-- `current` and `current_actor`
pub record Vars : Type 0 where
  pub current : Option MessageMeta
  pub current_actor : Option Ref

-- What the code of an actor runs in.
pub record Context : Type 0 where
  pub node : Node
  pub vars : Vars

-- `current_message()`
unfoldable pub current_message : Context → Option MessageMeta
current_message c = c.vars.current

-- `current_actor_ref()`
unfoldable pub current_actor_ref : Context → Option Ref
current_actor_ref c = c.vars.current_actor

-- `current_message_var.set(…)`, and `reset` with the token of it, which stands for what was bound.
unfoldable pub set_current : Option MessageMeta → Context → Context
set_current bound c = record c { vars = record c.vars { current = bound } }

-- The same of `current_actor_var`.
unfoldable pub set_actor : Option Ref → Context → Context
set_actor bound c = record c { vars = record c.vars { current_actor = bound } }

-- `finally: current_message_var.reset(token)`
unfoldable pub resetting :
    (token : Option MessageMeta) → Result (Unit {0}) × Context → Result (Unit {0}) × Context
unfolding set_current
resetting token (result, c) = (result, set_current token c)

-- How far the loop has come: it waits for a message, it was ended by an exception, or the fuel is
-- spent.
pub data Driven : Type 0 where
  waits : Context → Driven
  ends : Error → Context → Driven
  spent : Context → Driven

unfoldable pub after_turn : Result (Unit {0}) × Context → (Context → Driven) → Driven
after_turn (raise e, c) rest = ends e c
after_turn (return _, c) rest = rest c

-- `finally: current_actor_var.reset(actor_token)`
unfoldable pub unbinding : (token : Option Ref) → Driven → Driven
unfolding set_actor
unbinding token (waits c) = waits c
unbinding token (ends e c) = ends e (set_actor token c)
unbinding token (spent c) = spent c

module _ (meta : Metadata) (type_of : Message → String)
    (call : Handler → Message → Context → Result (Unit {0}) × Context) where
  -- The call of the handler, or the `TypeError` where there is none.
  unfoldable pub give : Message → Context → Result (Unit {0}) × Context
  give msg c = elim (handler_for meta (type_of msg)) [
    | raise e ↦ (raise e, c)
    | return handler ↦ call handler msg c
  ]

  -- One message.
  unfoldable pub serve : Message × MessageMeta → Context → Result (Unit {0}) × Context
  unfolding give resetting
  serve (msg, msg_meta) c = resetting c.vars.current (give msg (set_current (some msg_meta) c))

  -- The loop, for as many messages as there is fuel.
  unfoldable pub serve_all : (fuel : ℕ) → (mailbox : ℕ) → Context → Driven
  unfolding serve after_turn
  serve_all zero mailbox c = spent c
  serve_all (suc fuel) mailbox c = elim (take_first mailbox c.node) [
    | none ↦ waits c
    | some (item, n) ↦
        after_turn (serve item (record c { node = n })) (λ c'. serve_all fuel mailbox c')
  ]

  -- `_drive`
  unfoldable pub drive : (fuel : ℕ) → (mailbox : ℕ) → (self_ref : Option Ref) → Context → Driven
  unfolding serve_all unbinding
  drive fuel mailbox self_ref c =
      unbinding c.vars.current_actor (serve_all fuel mailbox (set_actor self_ref c))
