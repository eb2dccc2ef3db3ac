-- ===== src/Messages.antt =====
-- What actors exchange, and what the node reports: the dicts with an "op" key that the reserved
-- actors of links.py, monitors.py, groups.py and registry.py send one another, the dataclasses
-- `Exit` and `Down`, `MessageMeta` of context.py, the events of `Node.on_event`, and exceptions.
-- A text that the program composes of fixed words and parts (an exception's message, the reason
-- of an exit) stands as a constructor with those parts. A message of the application is a number
-- that stands for the object.
use lapinbeam.Prelude.{
  ℕ, String, Option, List, Bool, true, ◌<>◌, ◌==◌, ==_iff, ◌≡◌, ◌↔◌, string_eq, pair_eq, option_eq,
}

-- `(origin_node_id, actor_name)`
abbrev pub Member : Type 0
Member = String × String

pub member_iff : (p q : Member) → ((p == q) ≡ true) ↔ (p ≡ q)
member_iff p q = ==_iff p q

-- `(peer_id, name)`; the peer is `None` for a local actor.
abbrev pub Target : Type 0
Target = Option String × String

pub target_iff : (p q : Target) → ((p == q) ≡ true) ↔ (p ≡ q)
target_iff p q = ==_iff p q

mutual
  -- The exceptions, one constructor for each place that raises or for an exception of a handler.
  pub data Error : Type 0 where
    not_started : Error
    no_node : Error
    outside_actor : Error
    no_reply_to : Error
    not_a_stream_reply : Error
    name_taken : (name : String) → Error
    no_local_actor : (name : String) → Error
    name_registered : (name : String) → (owner : Member) → Error
    send_failed : (peer : String) → Error
    no_peer : Error
    connect_failed : (peer : String) → Error
    invalid_peer : (peer : String) → Error
    stopped_connecting : Error
    timed_out : Error
    division_by_zero : Error
    bad_executor : (executor : String) → Error
    executor_with_class executor_with_coroutine : Error
    no_handler : (type_name : String) → Error
    more_than_one_handler : (first second : String) → Error
    bad_on_arguments : Error
    not_in_list : Error
    unsupported_strategy : Error
    cancelled : Error
    linked_exit : (label : String) → (reason : Reason) → Error
    raised : (exception : ℕ) → Error

  -- Why an actor exited. `crash e` is the text `f"{type(exc).__name__}: {exc}"`.
  pub data Reason : Type 0 where
    noproc noconnection shutdown normal : Reason
    crash : Error → Reason

pub data GroupVerb : Type 0 where
  join leave : GroupVerb

pub data RegistryVerb : Type 0 where
  claim release : RegistryVerb

pub data LinkOp : Type 0 where
  link unlink : (source target from_node : String) → LinkOp
  exit : (target actor : String) → (reason : Reason) → (from_node : String) → LinkOp

pub data MonitorOp : Type 0 where
  monitor : (ref watcher watcher_node target : String) → MonitorOp
  demonitor : (ref target : String) → MonitorOp
  down : (ref actor : String) → (reason : Reason) → (from_node : String) → MonitorOp

pub data GroupOp : Type 0 where
  delta : (group : String) → (member : Member) → (verb : GroupVerb) → GroupOp
  snapshot : List (String × List Member) → GroupOp

pub data RegistryOp : Type 0 where
  delta : (name : String) → (owner : Member) → (verb : RegistryVerb) → RegistryOp
  snapshot : List (String × Member) → RegistryOp

pub data Message : Type 0 where
  user : ℕ → Message
  exit_message : (actor : String) → (reason : Reason) → Message
  down_message : (ref actor : String) → (reason : Reason) → Message
  stream : (final : Bool) → (value : Message) → Message
  link_op : LinkOp → Message
  monitor_op : MonitorOp → Message
  group_op : GroupOp → Message
  registry_op : RegistryOp → Message
  who_do_you_know : Message
  peers : List String → Message

-- `MessageMeta`, less its `node`, which is the node that received the message.
pub record MessageMeta : Type 0 where
  pub src : Option String
  pub reply_to : Option String
  pub correlation_id : Option ℕ
  pub msg_id : Option ℕ

pub data Event : Type 0 where
  peer_connected peer_disconnected : (peer : String) → Event
  decode_error : (actor : String) → Event
  supervisor_gave_up : (actor : String) → (detail : Error) → Event
  mailbox_full : (actor : String) → Event
  registry_conflict : (name : String) → (existing incoming : Member) → Event
  pool_worker_error : (pool : String) → (detail : Error) → Event
  pool_queue_full : (pool : String) → Event

-- `f"{peer}/{name}"`
unfoldable pub label : String → String → String
label peer name = peer <> ("/" <> name)

-- `LINK_ACTOR`, `MONITOR_ACTOR`, `GROUPS_ACTOR`, `REGISTRY_ACTOR`, `DISCOVERY_ACTOR`
abbrev pub link_actor : String
link_actor = "__lapinbeam_link__"

abbrev pub monitor_actor : String
monitor_actor = "__lapinbeam_monitor__"

abbrev pub groups_actor : String
groups_actor = "__lapinbeam_groups__"

abbrev pub registry_actor : String
registry_actor = "__lapinbeam_registry__"

abbrev pub discovery_actor : String
discovery_actor = "discovery"
