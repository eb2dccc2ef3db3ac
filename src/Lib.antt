-- ===== src/Lib.antt =====
-- lapinbeam: actors with supervision on asyncio, spread over nodes.
--
-- A `Node` holds the mailboxes of its actors by name and passes messages between them; a native
-- core carries messages to and from other nodes and reports events. A `Supervisor` runs the task
-- of each actor it has spawned and restarts it after a crash, within a budget. On these stand
-- links (actors that die together), monitors (one-way notices of an actor's end), groups (sets of
-- members by name) and the registry (one owner for a name), each kept on every node by deltas and
-- snapshots that reserved actors exchange. When an actor's generation ends, its supervisor clears
-- what stands under its name in all of them; when a peer is lost, the node's event handler and
-- the listeners of groups and registry drop what the peer held.
--
-- Files and the code that they model:
--   Prelude, Dict        Python's `==` on keys, lists, and insertion-ordered dicts and sets
--   Messages             the messages of the reserved actors, events and exceptions;
--                        `MessageMeta` of lapinbeam/context.py
--   Node/State           the state of `Node`, lapinbeam/node.py
--   Node/Events          `_on_core_event`; Quiet: events other than a peer's; PeerLost: what the loss
--                        of a peer does to links
--   Node/Mailboxes       `register_actor` with its callback, `unregister_actor`, `_send_local`,
--                        `_send_remote`; Delivery: where messages go; Capacity: bounds of mailboxes
--   Node/Signals         `_deliver_exit`, `_deliver_down`, `_clear_*` and `_notify_*` of links and
--                        monitors; Kinds: which scheduled coroutines tell of an actor's end
--   Node/Tasks           the coroutines that the node schedules; `_send_snapshot` and `_send_delta`
--   Node/Refs            `_me`, references and sets of peers, shared by groups.py and registry.py
--   Registry             lapinbeam/registry.py, with `Node._clear_registry`
--   Groups               lapinbeam/groups.py, with `Node._clear_groups`
--   Node/Peers           `connect_peer` up to its wait and after it, `forget_peer`, `has_peer`,
--                        `peer_count`, `on_event`; Waiters: the table of waiters; Connecting: the
--                        event that ends a wait
--   Node/Initial         `_build_id` and `Node.__init__`
--   Node/Running         `start`, `stop` and `wait_until_stopped`; Stopping: what a stop does to
--                        calls that wait; Ending: what it does to actors
--   Links, Monitors      lapinbeam/links.py and lapinbeam/monitors.py; Links/Remote: an exit signal
--                        from one node to another
--   Actors               lapinbeam/actor.py: `on`, `actor` and the handler table, with the choice of
--                        a handler in `Supervisor._drive`; Dispatch: which handler a message is given to
--   Context              `reply` and its kin of `MessageMeta`, lapinbeam/context.py, with the `send` of
--                        references
--   Asks                 `_ask` and `_ask_stream`, lapinbeam/refs.py; Cleaning: what `_ask` leaves;
--                        Reply: what it returns; Streams: how a stream ends; Delivering: a handler that
--                        streams
--   Discovery            `join_via_seeds`, lapinbeam/discovery.py; Visits: one round; Rounds: how many
--                        rounds; Joined: whom it reaches
--   Codec                lapinbeam/codec.py; Plain: values of JSON; Encoding: what does not change;
--                        RoundTrip: typed values; Json: what is handed to the native core;
--                        Importing: `_tag` and `_import_class`, with `importlib.import_module` and
--                        `getattr` as parameters (Nested: a class in a class)
--   References           the references of lapinbeam/refs.py, and `PoolRef.map` (Mapping: the order of
--                        its results)
--   Registrations        `register_links`, `register_monitors`, `register_groups`,
--                        `register_registry` and `register_discovery`; Announcing: a peer that
--                        connects after `register_groups`
--   Pool                 the dispatcher and the workers of `Supervisor.spawn_pool`; Order: the queues
--                        of a pool; Failures: errors and bounds
--   Supervisor           lapinbeam/supervisor.py: restart budget and strategies; Lifecycle:
--                        `_run_actor_child`, `_handle_child_crash` and `shutdown`; Spawning:
--                        `spawn`, `_spawn_pool`, `PoolRef.stop` and `_PoolSpawn` (Once); Nested:
--                        `_run_supervisor_child` (Retried: a `build` that fails halfway); Driving:
--                        `_drive` and the context variables of lapinbeam/context.py; Reach: the pieces
--                        of a child's life as steps, and what holds in every state that they lead to
--   Tests                a node to run on, and what is proved, at that node
--
-- How the code is modelled. A method is a function from the node to a result (returned or raised)
-- and the node that it leaves, so that what was changed before a raise stays changed. Objects that
-- are shared (mailboxes, supervised children, futures) live in heaps and are named by number. What
-- `asyncio.create_task` schedules is appended to `tasks`, and `run_task` runs one of them in one
-- go: none of these coroutines gives up control. Calls of the native core are logged in `calls`,
-- and whether a send to a peer is taken is a field of the core. Lists and loops are structural,
-- but for three that run on fuel: the rounds of `join_via_seeds`, where one more than the number
-- of peers is enough, since each round but the last visits a new one, and the loop of
-- `_ask_stream`, where one more than the number of waiting replies is enough, since each round
-- takes one, and the loop of `_drive`, which ends by an exception only, where one more than the
-- number of messages before the one that raises is enough. Numbers do not wrap around in Python.
-- Times are natural numbers in hundredths of a second, read from the clock by the caller of the
-- model; the backoff of the source is exact in that unit. A text composed of fixed words and parts
-- (an exception's message, a reason) is a constructor with those parts. `uuid4` is an argument,
-- the fresh `ref`.
--
-- The task of a supervised actor is cut where it waits: `attempt` (a generation begins),
-- `generation_over` (its driver has ended) and `resume` (its backoff is over). The wait for a
-- cancelled task to end is taken to end at once, and the cancelled driver to end by the
-- `CancelledError`: a handler that raises another error when it is cancelled is not considered
-- there. A live child with an exit pending, whose task runs a crash handler of its own when it is
-- cancelled, is the parameter `overlapping`, which stands for what that does to the node; what it
-- does to the supervisor, whose budget it spends, is left out of these pieces. The relation `Step`
-- of Supervisor/Reach lets the pieces, spawns, shutdowns, sends and exit signals follow one another
-- in any order. `Turn` of Supervisor/Reach/Turns adds what else changes a supervisor: crash handlers
-- that run while another task waits, stops of pools, and the lives of nested supervisors.
--
-- What a handler does in `_drive`, with all that happens on the node while it waits, is a
-- parameter, as is what happens while an ask waits, and the order in which the tasks of a
-- `PoolRef.map` complete.
--
-- A call that waits (`ask`, `ask_stream`, `connect_peer`, a worker's handler) is likewise two
-- functions, before the wait and after it, and what happens meanwhile is between them: a wait that
-- finds nothing has timed out. In `join_via_seeds`, where a peer is asked at most once, what a
-- peer comes to is a function of the peer. The queues of a pool are reachable from the pool alone,
-- so they stand in a record of their own. The payloads of codec.py are trees of values with texts
-- as keys; classes (constructors, Pydantic, and what `_import_class` finds, but in
-- Codec/Importing) are a parameter. The attributes of an instance that are no fields of its
-- dataclass do not occur. What a send hands to the native core stands as the message itself: an
-- error that its encoding raises, before the core is called, is not considered, nor is an error
-- that the core raises at the identifier of a peer, but in `connect_peer` and `forget_peer`.
--
-- Not modelled: the native core (Rust), nested supervisors as siblings in a group restart of their
-- parent, and the making of the executors of pools. They are other components, or parts that wait
-- for what is not here; the modelled parts use of them at most the calls that are logged.
pub mod Prelude
pub mod Dict
pub mod Messages
pub mod Node
pub mod Registry
pub mod Groups
pub mod Links
pub mod Monitors
pub mod Actors
pub mod Context
pub mod Asks
pub mod Discovery
pub mod Codec
pub mod References
pub mod Registrations
pub mod Pool
pub mod Supervisor
pub mod Tests
