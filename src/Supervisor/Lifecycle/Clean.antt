-- ===== src/Supervisor/Lifecycle/Clean.antt =====
-- What is left on the node of an actor's generation once it has ended (lapinbeam/supervisor.py).
use lapinbeam.Prelude.{
  String, Option, none, some, List, false, ◌==◌, ==_self, ◌≡◌, ◌≢◌, refl, ◌∙◌, ap, if◌then◌else◌,
  string_eq, nat_eq, pair_eq, option_eq, arith, Option-cases, inl, inr,
}
use lapinbeam.Dict
use lapinbeam.Dict.{get-remove}
use lapinbeam.Messages.{member_iff, Member}
use lapinbeam.Node.State.{Node, Task, local_id, call_core}
use lapinbeam.Node.Mailboxes.{unregister_actor}
use lapinbeam.Node.Mailboxes.Delivery.{mailbox_of}
use lapinbeam.Node.Signals.{clear_links, clear_monitors}
use lapinbeam.Node.Signals.Kinds.{signals}
use lapinbeam.Groups.{clear_groups}
use lapinbeam.Groups.Frame.{OnlyGroups-clear_groups, regrouped, signals-clear_groups}
use lapinbeam.Groups.Membership.{is_member, is_member-clear_groups}
use lapinbeam.Registry.{clear_registry}
use lapinbeam.Registry.Frame.{OnlyRegistry-clear_registry, reregistered, signals-clear_registry}
use lapinbeam.Registry.Ownership.{owner_of, clear_registry-owner}
use lapinbeam.Supervisor.Lifecycle.{end_generation}

-- The node after `_clear_monitors`, before groups and names are released.
unfoldable pub unwatched : String → Node → Node
unfolding unregister_actor clear_monitors clear_links
unwatched name n =
    let unregistered = unregister_actor name n in
    let dead = record unregistered {
      live_children = Dict.remove unregistered.live_children name;
    } in
    (clear_monitors name (clear_links name dead).1).1

node-end_generation :
    (name : String) (n : Node)
    → (end_generation name n).node ≡ clear_registry name (clear_groups name (unwatched name n))
unfolding end_generation unwatched
node-end_generation name n = refl

-- Of `unwatched`, a node and its groups and names once they are released.
module _ {ℓ} {A : Type ℓ} (f : Node → A) (name : String) (n : Node)
    (keeps : (k : Node) (g : Dict.Dict String (Dict.Set Member)) (r : Dict.Dict String Member)
        (s t : List Task)
      → f (reregistered r t (regrouped g s k)) ≡ f k) where
  pub read-end_generation : f (end_generation name n).node ≡ f (unwatched name n)
  read-end_generation =
      let k = unwatched name n in
      let (g, s, e) = OnlyGroups-clear_groups name k in
      let (r, t, e') = OnlyRegistry-clear_registry name (clear_groups name k) in
      ap f (node-end_generation name n)
      ∙ ap f e'
      ∙ ap (λ x. f (reregistered r t x)) e
      ∙ keeps k g r s t

local_id-unwatched : (name : String) (n : Node) → local_id (unwatched name n) ≡ local_id n
unfolding local_id unwatched unregister_actor clear_monitors clear_links call_core
local_id-unwatched name n = elim (Option-cases n.core) [
  | inl e ↦ ground arith
  | inr (core, e) ↦ ground arith
]

-- What a name has left on a node: no mailbox, no live child, no links, no wish to trap exits, no
-- watchers, no membership and no registered name.
pub record IsForgotten (name local : String) (n : Node) : Type 0 where
  pub unreachable : mailbox_of n name ≡ none
  pub not_live : Dict.get n.live_children name ≡ none
  pub unlinked : Dict.get n.links name ≡ none
  pub not_trapping : Dict.get n.trap_exit name ≡ none
  pub unwatched : Dict.get n.monitor_watchers name ≡ none
  pub left : (group : String) → is_member n group (local, name) ≡ false
  pub released : (registered : String) → owner_of n registered ≢ some (local, name)

module _ (name other : String) (n : Node) where
  -- The records of a name are gone, and those of another name are as they were.
  abbrev dropped : {A : Type 0} → Option A → Option A
  dropped kept = if name == other then none else kept

  unwatched-records :
      (mailbox_of (unwatched name n) other ≡ dropped (mailbox_of n other))
      × (Dict.get (unwatched name n).live_children other ≡ dropped (Dict.get n.live_children other))
      × (Dict.get (unwatched name n).links other ≡ dropped (Dict.get n.links other))
      × (Dict.get (unwatched name n).trap_exit other ≡ dropped (Dict.get n.trap_exit other))
      × (Dict.get (unwatched name n).monitor_watchers other
          ≡ dropped (Dict.get n.monitor_watchers other))
  unfolding unwatched unregister_actor clear_monitors clear_links call_core
  unwatched-records = elim (Option-cases n.core) [
    | inl e ↦ ground (
      arith,
      get-remove n.mailboxes name other,
      get-remove n.live_children name other,
      get-remove n.links name other,
      get-remove n.trap_exit name other,
      get-remove n.monitor_watchers name other,
    )
    | inr (core, e) ↦ ground (
      arith,
      get-remove n.mailboxes name other,
      get-remove n.live_children name other,
      get-remove n.links name other,
      get-remove n.trap_exit name other,
      get-remove n.monitor_watchers name other,
    )
  ]

  pub end_generation-records :
      (mailbox_of (end_generation name n).node other ≡ dropped (mailbox_of n other))
      × (Dict.get (end_generation name n).node.live_children other
          ≡ dropped (Dict.get n.live_children other))
      × (Dict.get (end_generation name n).node.links other ≡ dropped (Dict.get n.links other))
      × (Dict.get (end_generation name n).node.trap_exit other
          ≡ dropped (Dict.get n.trap_exit other))
      × (Dict.get (end_generation name n).node.monitor_watchers other
          ≡ dropped (Dict.get n.monitor_watchers other))
  end_generation-records =
      let (m, c, l, x, w) = unwatched-records in
      (
        read-end_generation (λ k. mailbox_of k other) name n (λ _ _ _ _ _. refl) ∙ m,
        read-end_generation (λ k. Dict.get k.live_children other) name n (λ _ _ _ _ _. refl) ∙ c,
        read-end_generation (λ k. Dict.get k.links other) name n (λ _ _ _ _ _. refl) ∙ l,
        read-end_generation (λ k. Dict.get k.trap_exit other) name n (λ _ _ _ _ _. refl) ∙ x,
        read-end_generation (λ k. Dict.get k.monitor_watchers other) name n (λ _ _ _ _ _. refl) ∙ w,
      )

module _ (name : String) (n : Node) where
  groups-unwatched : (unwatched name n).groups ≡ n.groups
  unfolding unwatched unregister_actor clear_monitors clear_links call_core
  groups-unwatched = elim (Option-cases n.core) [
    | inl e ↦ ground arith
    | inr (core, e) ↦ ground arith
  ]

  registry-unwatched : (unwatched name n).registry ≡ n.registry
  unfolding unwatched unregister_actor clear_monitors clear_links call_core
  registry-unwatched = elim (Option-cases n.core) [
    | inl e ↦ ground arith
    | inr (core, e) ↦ ground arith
  ]

  is_member-unwatched :
      (group : String) (m : Member) → is_member (unwatched name n) group m ≡ is_member n group m
  unfolding is_member
  is_member-unwatched group m = rw groups-unwatched refl

  is_member-reregistered :
      (group : String) (m : Member) (k : Node) (r : Dict.Dict String Member) (ts : List Task)
      → is_member (reregistered r ts k) group m ≡ is_member k group m
  unfolding is_member
  is_member-reregistered group m k r ts = refl

  -- The actor's membership of every group is gone, and no other.
  pub end_generation-is_member :
      (group : String) (m : Member)
      → is_member (end_generation name n).node group m
        ≡ (if (local_id n, name) == m then false else is_member n group m)
  end_generation-is_member group m =
      let k = unwatched name n in
      let (r, ts, e) = OnlyRegistry-clear_registry name (clear_groups name k) in
      ground (
        arith,
        ap (λ x. is_member x group m) e,
        ap (λ x. is_member x group m) (node-end_generation name n),
        is_member-reregistered group m (clear_groups name k) r ts,
        is_member-clear_groups name group m k,
        local_id-unwatched name n,
        is_member-unwatched group m,
      )

  local_id-regrouped :
      (k : Node) (g : Dict.Dict String (Dict.Set Member)) (ts : List Task)
      → local_id (regrouped g ts k) ≡ local_id k
  unfolding local_id
  local_id-regrouped k g ts = refl

  -- The names that the actor owned are free, and no other.
  pub end_generation-owner_of :
      (registered : String)
      → owner_of (end_generation name n).node registered
        ≡ (if owner_of n registered == some (local_id n, name) then none else owner_of n registered)
  end_generation-owner_of registered =
      let k = unwatched name n in
      let (g, ts, e) = OnlyGroups-clear_groups name k in
      rw (node-end_generation name n, clear_registry-owner name registered (clear_groups name k), e)
        (rw (local_id-regrouped k g ts, local_id-unwatched name n, registry-unwatched) refl)

-- When a generation ends, its name has nothing left on the node: no mailbox, no live child, no
-- links, no wish to trap exits, no watchers, no membership of a group and no registered name.
pub end_generation-IsForgotten :
    (name : String) (n : Node) → IsForgotten name (local_id n) (end_generation name n).node
end_generation-IsForgotten name n =
    let (m, c, l, x, w) = end_generation-records name name n in
    let here = ==_self name in
    record {
      unreachable = ground (arith, m, here);
      not_live = ground (arith, c, here);
      unlinked = ground (arith, l, here);
      not_trapping = ground (arith, x, here);
      unwatched = ground (arith, w, here);
      left = λ group. ground (
        arith,
        end_generation-is_member name n group (local_id n, name),
        member_iff (local_id n, name) (local_id n, name),
      );
      released = λ registered e. ground (
        arith,
        end_generation-owner_of name n registered,
        e,
        member_iff (local_id n, name) (local_id n, name),
      );
    }

-- The end of a generation, by itself, tells nobody.
pub signals-end_generation :
    (name : String) (n : Node) → signals (end_generation name n).node ≡ signals n
unfolding unwatched unregister_actor clear_monitors clear_links call_core
signals-end_generation name n =
    let k = unwatched name n in
    ap signals (node-end_generation name n)
    ∙ signals-clear_registry name (clear_groups name k)
    ∙ signals-clear_groups name k
    ∙ elim (Option-cases n.core) [ inl e ↦ ground arith | inr (core, e) ↦ ground arith ]
