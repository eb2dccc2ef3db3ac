-- ===== src/Monitors/Watching.antt =====
-- The two records of a monitor (lapinbeam/monitors.py): the watcher's and the target's.
use lapinbeam.Prelude.{
  String, Option, none, some, true, false, ◌==◌, ==_iff, ==_self, ◌≡◌, refl, ◌&&◌, if◌then◌else◌,
  string_eq, nat_eq, arith, Option-cases, inl, inr, ap, ◌∙◌,
}
use lapinbeam.Dict
use lapinbeam.Dict.{get-put, get-remove, get-empty, has-get}
use lapinbeam.Messages.{noproc}
use lapinbeam.Node.State.{Node, return}
use lapinbeam.Node.Refs.{actor_ref}
use lapinbeam.Node.Signals.{run_deliver_down}
use lapinbeam.Node.Signals.Downs.{monitor_of}
use lapinbeam.Monitors.{
  watchers_of, add_watcher, drop_watcher, record_monitor, watch, returning, monitor, demonitor,
}

abbrev pub Watcher : Type 0
Watcher = Option String × String

-- `node._monitor_watchers.get(name, {}).get(ref)`
unfoldable pub watcher_of : Node → String → String → Option Watcher
unfolding watchers_of
watcher_of n name ref = Dict.get (watchers_of n name) ref

module _ (n : Node) (name other ref r : String) where
  watcher_of-add_watcher :
      (watcher : Watcher)
      → watcher_of (add_watcher name ref watcher n) other r
        ≡ (if name == other && ref == r then some watcher else watcher_of n other r)
  unfolding watcher_of add_watcher
  watcher_of-add_watcher watcher = ground (
    arith,
    get-put n.monitor_watchers name other (Dict.put (watchers_of n name) ref watcher),
    get-put (watchers_of n name) ref r watcher,
    ==_iff name other,
  )

  watcher_of-drop_watcher :
      watcher_of (drop_watcher name ref n) other r
      ≡ (if name == other && ref == r then none else watcher_of n other r)
  unfolding watcher_of drop_watcher
  watcher_of-drop_watcher = elim (Option-cases (Dict.get n.monitor_watchers name)) [
    | inl e ↦ ground (arith, ==_iff name other, get-empty {V = Watcher} r)
    | inr (watchers, e) ↦ ground (
      arith,
      get-put n.monitor_watchers name other (Dict.remove watchers ref),
      get-remove watchers ref r,
      ==_iff name other,
    )
  ]

watcher_of-record_monitor :
    (me name ref other r : String) (at : Option String) (n : Node)
    → watcher_of (record_monitor me at name ref n) other r ≡ watcher_of n other r
unfolding watcher_of record_monitor
watcher_of-record_monitor me name ref other r at n = refl

-- The node once both records are made.
abbrev watching : (me name ref : String) → Node → Node
watching me name ref n = add_watcher name ref (none, me) (record_monitor me none name ref n)

watcher_of-watching :
    (me name ref other r : String) (n : Node)
    → watcher_of (watching me name ref n) other r
      ≡ (if name == other && ref == r then some (none, me) else watcher_of n other r)
watcher_of-watching me name ref other r n = ground (
  arith,
  watcher_of-add_watcher (record_monitor me none name ref n) name other ref r (none, me),
  watcher_of-record_monitor me name ref other r none n,
)

monitor_of-watching :
    (me name ref r : String) (n : Node)
    → monitor_of (watching me name ref n) r
      ≡ (if ref == r then some (me, none, name) else monitor_of n r)
unfolding add_watcher record_monitor
monitor_of-watching me name ref r n = get-put n.monitors ref r (me, none, name)

has-watching :
    (me name ref : String) (n : Node)
    → Dict.has (watching me name ref n).mailboxes name ≡ Dict.has n.mailboxes name
unfolding add_watcher record_monitor
has-watching me name ref n = refl

monitor_present :
    (me name ref : String) (n : Node)
    → Dict.has n.mailboxes name ≡ true
    → monitor (some me) (actor_ref name) ref n ≡ (return ref, watching me name ref n)
unfolding monitor
monitor_present me name ref n h = rw (has-watching me name ref n ∙ h, watch) refl

monitor_missing :
    (me name ref : String) (n : Node)
    → Dict.has n.mailboxes name ≡ false
    → monitor (some me) (actor_ref name) ref n
      ≡ returning ref (run_deliver_down ref name noproc (watching me name ref n))
unfolding monitor
monitor_missing me name ref n h = rw (has-watching me name ref n ∙ h, watch) refl

-- After a monitor of a local actor that exists, its `ref` names the watcher on both sides, and no
-- other record has changed.
pub monitor_local :
    (me name ref other r : String) (n : Node)
    → Dict.has n.mailboxes name ≡ true
    → ((monitor (some me) (actor_ref name) ref n).0 ≡ return ref)
      × (monitor_of (monitor (some me) (actor_ref name) ref n).1 r
          ≡ (if ref == r then some (me, none, name) else monitor_of n r))
      × (watcher_of (monitor (some me) (actor_ref name) ref n).1 other r
          ≡ (if name == other && ref == r then some (none, me) else watcher_of n other r))
monitor_local me name ref other r n h =
    rw (monitor_present me name ref n h)
      (refl, monitor_of-watching me name ref r n, watcher_of-watching me name ref other r n)

monitors-drop_watcher :
    (name ref : String) (n : Node) → (drop_watcher name ref n).monitors ≡ n.monitors
unfolding drop_watcher
monitors-drop_watcher name ref n = elim (Option-cases (Dict.get n.monitor_watchers name)) [
  | inl e ↦ rw (e, drop_watcher)
  | inr (watchers, e) ↦ rw (e, drop_watcher)
]

forget_monitor : String → Node → Node
forget_monitor ref n = record n { monitors = Dict.remove n.monitors ref }

watcher_of-forget_monitor :
    (ref other r : String) (n : Node)
    → watcher_of (forget_monitor ref n) other r ≡ watcher_of n other r
unfolding watcher_of forget_monitor
watcher_of-forget_monitor ref other r n = refl

demonitor_registered :
    (me watcher name ref : String) (n : Node)
    → monitor_of n ref ≡ some (watcher, none, name)
    → demonitor (some me) ref n ≡ (return tt, drop_watcher name ref (forget_monitor ref n))
unfolding demonitor forget_monitor
demonitor_registered me watcher name ref n e = rw (e, demonitor) refl

-- Stopping a monitor of a local actor removes its two records, and no other.
pub demonitor_local :
    (me watcher name ref other r : String) (n : Node)
    → monitor_of n ref ≡ some (watcher, none, name)
    → (monitor_of (demonitor (some me) ref n).1 r ≡ (if ref == r then none else monitor_of n r))
      × (watcher_of (demonitor (some me) ref n).1 other r
          ≡ (if name == other && ref == r then none else watcher_of n other r))
unfolding forget_monitor watcher_of
demonitor_local me watcher name ref other r n e =
    rw (demonitor_registered me watcher name ref n e) (
      ap (λ d. Dict.get d r) (monitors-drop_watcher name ref (forget_monitor ref n))
          ∙ get-remove n.monitors ref r,
      watcher_of-drop_watcher (forget_monitor ref n) name other ref r,
    )

-- For a local target that exists and a `ref` that is fresh on both sides, `demonitor` undoes
-- `monitor`: each record of a monitor, the watcher's and the target's, is what it was.
pub demonitor-monitor :
    (me name ref other r : String) (n : Node)
    → Dict.has n.mailboxes name ≡ true
    → monitor_of n ref ≡ none
    → watcher_of n name ref ≡ none
    → (monitor_of (demonitor (some me) ref (monitor (some me) (actor_ref name) ref n).1).1 r
        ≡ monitor_of n r)
      × (watcher_of (demonitor (some me) ref (monitor (some me) (actor_ref name) ref n).1).1 other r
          ≡ watcher_of n other r)
demonitor-monitor me name ref other r n h fresh free =
    let k = watching me name ref n in
    let named : monitor_of k ref ≡ some (me, none, name) =
      ground (arith, monitor_of-watching me name ref ref n, ==_self ref) in
    let (first, second) = demonitor_local me me name ref other r k named in
    rw (monitor_present me name ref n h) (
      ground (arith, first, monitor_of-watching me name ref r n, ==_iff ref r),
      ground (
        arith,
        second,
        watcher_of-watching me name ref other r n,
        ==_iff ref r,
        ==_iff name other,
      ),
    )
