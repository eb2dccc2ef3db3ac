-- ===== src/Node/Initial.antt =====
-- `Node.__init__` of lapinbeam/node.py: a node that was not started, and the id that it is given.
use lapinbeam.Prelude.{
  ℕ, String, Option, none, some, List, [], Bool, true, false, ◌||◌, ◌==◌, ◌<>◌, if◌then◌else◌, ◌≡◌,
  refl, sym, ap, ◌∙◌, string_eq, nat_eq, pair_eq, option_eq, arith, Bool-cases, inl, inr,
}
use Prim.Native.Char.{code}
use text.Mathlib.TextLemmas.{nil-append, cons-append}
use lapinbeam.Dict
use lapinbeam.Dict.{Set, get-empty, contains-no_elements}
use lapinbeam.Messages.{Target}
use lapinbeam.Node.State.{Node, Queue}
use lapinbeam.Node.Mailboxes.{queue_at}
use lapinbeam.Node.Mailboxes.Capacity.{IsBounded}
use lapinbeam.Node.Peers.Waiters.{IsTidy}
use lapinbeam.Links.{links_of}
use lapinbeam.Links.Pairs
use lapinbeam.Links.Pairs.{IsSymmetric}

-- `"@" in text`
unfoldable pub has_at : String → Bool
has_at String.[] = false
has_at (String.◌∷◌ c rest) = code c == b'@' || has_at rest

-- `_build_id`, with what `socket.gethostname` returns and the text that an f-string makes of a port
unfoldable pub build_id :
    (hostname : String)
    → (port_text : ℕ → String) → (node_name : String) → (listen_port : Option ℕ) → String
unfolding has_at
build_id hostname port_text node_name listen_port =
    let host = if hostname == "" then "127.0.0.1" else hostname in
    let port = elim listen_port as (λ _. ℕ) [ none ↦ 0 | some p ↦ p ] in
    if has_at node_name then node_name else node_name <> ("@" <> (host <> (":" <> port_text port)))

has_at-append : (a b : String) → has_at (a <> b) ≡ (has_at a || has_at b)
unfolding has_at
has_at-append String.[] b = ap has_at (nil-append b)
has_at-append (String.◌∷◌ c rest) b =
    ap has_at (cons-append c rest b) ∙ ground (arith, has_at-append rest b)

has_at-build_id :
    (hostname : String) (port_text : ℕ → String) (node_name : String) (listen_port : Option ℕ)
    → has_at (build_id hostname port_text node_name listen_port) ≡ true
unfolding build_id
has_at-build_id hostname port_text node_name listen_port =
    let host = if hostname == "" then "127.0.0.1" else hostname in
    let port = elim listen_port as (λ _. ℕ) [ none ↦ 0 | some p ↦ p ] in
    elim (Bool-cases (has_at node_name)) [
      | inl named ↦ ground (arith, named)
      | inr plain ↦ ground (
        arith,
        plain,
        has_at-append node_name ("@" <> (host <> (":" <> port_text port))),
        has_at-append "@" (host <> (":" <> port_text port)),
      )
    ]

-- An id that was built is kept as it is, whatever host and port the next node has.
pub build_id-build_id :
    (hostname other : String) (port_text : ℕ → String) (node_name : String)
    (listen_port other_port : Option ℕ)
    → build_id other port_text (build_id hostname port_text node_name listen_port) other_port
      ≡ build_id hostname port_text node_name listen_port
unfolding build_id
build_id-build_id hostname other port_text node_name listen_port other_port =
    kept (build_id hostname port_text node_name listen_port)
      (has_at-build_id hostname port_text node_name listen_port)
  where
    kept : (id : String) → has_at id ≡ true → build_id other port_text id other_port ≡ id
    kept id h = rw (build_id, h) refl

unfoldable pub new_node : (node_id : String) → Node
new_node node_id = record {
  node_id = node_id;
  core = none;
  started = false;
  stopped = none;
  is_current = false;
  mailboxes = Dict.empty;
  queues = Dict.empty;
  peer_waiters = Dict.empty;
  futures = Dict.empty;
  links = Dict.empty;
  trap_exit = Dict.empty;
  live_children = Dict.empty;
  children = Dict.empty;
  groups = Dict.empty;
  group_leave_hook = false;
  group_peers = none;
  monitors = Dict.empty;
  monitor_watchers = Dict.empty;
  registry = Dict.empty;
  registry_release_hook = false;
  registry_peers = none;
  known = Dict.no_elements;
  listeners = [];
  observed = [];
  tasks = [];
  calls = [];
}

not_linked : (node_id a : String) (t : Target) → Pairs.is_linked (new_node node_id) a t ≡ false
unfolding new_node Pairs.is_linked links_of
not_linked node_id a t =
    ap
      (λ found.
        Dict.contains (elim found as (λ _. Set Target) [ none ↦ Dict.no_elements | some ts ↦ ts ])
          t)
      (get-empty {V = Set Target} a)
    ∙ contains-no_elements t

-- The invariants of the mailboxes, of the waiters and of the links hold at first.
new_node-invariants :
    (node_id : String)
    → IsBounded (new_node node_id) × IsTidy (new_node node_id) × IsSymmetric (new_node node_id)
unfolding new_node queue_at
new_node-invariants node_id = (
  λ mailbox. ground (arith, get-empty {V = Queue} mailbox),
  λ peer h. ground (arith, get-empty {V = List ℕ} peer),
  λ a b. not_linked node_id a _ ∙ sym (not_linked node_id b _),
)
