-- ===== src/Node/Signals/Downs.antt =====
-- What a `Down` signal does on the node of the watcher (lapinbeam/node.py).
use lapinbeam.Prelude.{
  ℕ, String, Option, none, some, [], ◌∷◌, ◌++◌, ◌==◌, ◌≡◌, refl, if◌then◌else◌, string_eq, nat_eq,
  arith, Option-cases, inl, inr, ◌&&◌, not, ==_iff, ==_self,
}
use lapinbeam.Dict
use lapinbeam.Dict.{get-remove, has-get}
use lapinbeam.Messages.{Reason, down_message}
use lapinbeam.Node.State.{Node, return, local_id}
use lapinbeam.Node.Mailboxes.{queue_at, local_meta}
use lapinbeam.Node.Mailboxes.Delivery.{mailbox_of, waiting_in, is_full, waiting_in-send_local}
use lapinbeam.Node.Signals.Frame.{OnlyDelivers-tell}
use lapinbeam.Node.Signals.{tell, run_deliver_down}

abbrev pub Monitor : Type 0
Monitor = String × Option String × String

abbrev pub monitor_of : Node → String → Option Monitor
monitor_of n ref = Dict.get n.monitors ref

-- The watcher's node forgets the monitor that has fired, and no other.
pub monitor_of-run_deliver_down :
    (ref other actor_label : String) (reason : Reason) (n : Node)
    → monitor_of (run_deliver_down ref actor_label reason n).1 other
      ≡ (if ref == other then none else monitor_of n other)
unfolding run_deliver_down
monitor_of-run_deliver_down ref other actor_label reason n =
    elim (Option-cases (monitor_of n ref)) [
      | inl e ↦ ground (arith, ==_iff ref other)
      | inr (entry, e) ↦
          let (queues, observed, t) =
            OnlyDelivers-tell entry.0 (down_message ref actor_label reason)
              (record n { monitors = Dict.remove n.monitors ref }) in
          rw (e, run_deliver_down) (rw t (get-remove n.monitors ref other))
    ]

-- What a delivery reads of the node does not depend on its monitors.
forget : String → Node → Node
forget ref n = record n { monitors = Dict.remove n.monitors ref }

queue_at-forget :
    (ref : String) (mailbox : ℕ) (n : Node) → queue_at (forget ref n) mailbox ≡ queue_at n mailbox
unfolding queue_at forget
queue_at-forget ref mailbox n = refl

local_meta-forget :
    (ref : String) (n : Node) → local_meta none none (forget ref n) ≡ local_meta none none n
unfolding local_meta local_id forget
local_meta-forget ref n = refl

-- The `Down` signal of a monitor puts one message last in the mailbox of the watcher, if it has
-- room; no other mailbox changes.
pub run_deliver_down_fires :
    (ref actor_label watcher target : String) (at : Option String) (reason : Reason)
    (mailbox other : ℕ) (n : Node)
    → monitor_of n ref ≡ some (watcher, at, target)
    → mailbox_of n watcher ≡ some mailbox
    → waiting_in (run_deliver_down ref actor_label reason n).1 other ≡ (
        if mailbox == other && not (is_full (queue_at n mailbox))
        then waiting_in n mailbox
          ++ (down_message ref actor_label reason, local_meta none none n) ∷ []
        else waiting_in n other)
unfolding run_deliver_down tell forget
run_deliver_down_fires ref actor_label watcher target at reason mailbox other n e m = ground (
  arith,
  has-get n.mailboxes watcher,
  queue_at-forget ref mailbox n,
  queue_at-forget ref other n,
  local_meta-forget ref n,
  waiting_in-send_local watcher (down_message ref actor_label reason) none none mailbox other
      (forget ref n) m,
)

forgotten :
    (ref first : String) (r : Reason) (n : Node)
    → monitor_of (run_deliver_down ref first r n).1 ref ≡ none
forgotten ref first r n = ground (arith, monitor_of-run_deliver_down ref ref first r n, ==_self ref)

-- A monitor fires at most once: a second signal for the same `ref` returns and changes nothing.
pub run_deliver_down_once :
    (ref first second : String) (r s : Reason) (n : Node)
    → run_deliver_down ref second s (run_deliver_down ref first r n).1
      ≡ (return tt, (run_deliver_down ref first r n).1)
unfolding run_deliver_down
run_deliver_down_once ref first second r s n =
    absent second s (run_deliver_down ref first r n).1 (forgotten ref first r n)
  where
    absent :
        (label : String) (reason : Reason) (k : Node)
        → monitor_of k ref ≡ none
        → run_deliver_down ref label reason k ≡ (return tt, k)
    absent label reason k e = rw (e, run_deliver_down)
