-- ===== src/Supervisor.antt =====
-- lapinbeam/supervisor.py: the state of a `Supervisor`, its restart budget and its strategies.
-- `time.monotonic` and the seconds of the source are natural numbers in one unit, the hundredth of
-- a second, and the children are named by number (the heap of `Node`).
pub mod Budget
pub mod Strategies
pub mod Lifecycle
pub mod Driving
pub mod Spawning
pub mod Nested
pub mod Reach
use lapinbeam.Prelude.{
  ℕ, String, Option, none, some, List, [], ◌∷◌, ◌++◌, Bool, true, false, ◌==◌, if◌then◌else◌, ltb,
  leb, length, keep, ◌-◌, ◌*◌, ◌^◌, min, nat_eq, string_eq,
}
use lapinbeam.Messages.{Error, unsupported_strategy, not_in_list}
use lapinbeam.Node.State.{Result, return, raise}

pub data Strategy : Type 0 where
  one_for_one one_for_all rest_for_one : Strategy

pub record Supervisor : Type 0 where
  pub strategy : Strategy
  pub max_restarts : ℕ
  pub restart_window : ℕ
  pub restart_times : List ℕ
  pub children : List ℕ
  pub give_up_exc : Option Error
  pub given_up : Bool

-- `strategy not in _STRATEGIES`
unfoldable pub strategy_named : String → Result Strategy
strategy_named name =
    if name == "one_for_one"
    then return one_for_one
    else if name == "one_for_all"
    then return one_for_all
    else if name == "rest_for_one"
    then return rest_for_one
    else raise unsupported_strategy

-- `Supervisor.__init__`
unfoldable pub new_supervisor : Strategy → (max_restarts restart_window : ℕ) → Supervisor
new_supervisor strategy max_restarts restart_window = record {
  strategy = strategy;
  max_restarts = max_restarts;
  restart_window = restart_window;
  restart_times = [];
  children = [];
  give_up_exc = none;
  given_up = false;
}

-- `[t for t in self._restart_times if now - t < self.restart_window]`
unfoldable pub recent : (window now : ℕ) → List ℕ → List ℕ
unfolding keep
recent window now = keep (λ t. ltb (now - t) window)

-- `_allow_restart`, at the time `now`
unfoldable pub allow_restart : ℕ → Supervisor → Bool × Supervisor
unfolding recent
allow_restart now s =
    let times = recent s.restart_window now s.restart_times in
    if leb s.max_restarts (length times)
    then (false, record s { restart_times = times })
    else (true, record s { restart_times = times ++ now ∷ [] })

-- `_backoff`, in hundredths of a second
unfoldable pub backoff : Supervisor → ℕ
backoff s = min (2 ^ length s.restart_times * 5) 100

-- `self._children.remove(child)`, with nothing done where the child is not in the list
unfoldable pub remove_first : ℕ → List ℕ → List ℕ
remove_first child [] = []
remove_first child (c ∷ cs) = if c == child then cs else c ∷ remove_first child cs

-- `_discard_child`
unfoldable pub discard_child : ℕ → Supervisor → Supervisor
unfolding remove_first
discard_child child s = record s { children = remove_first child s.children }

-- `self._children[self._children.index(child):]`; `index` raises where the child is not listed.
unfoldable pub from_child : ℕ → List ℕ → Result (List ℕ)
from_child child [] = raise not_in_list
from_child child (c ∷ cs) = if c == child then return (c ∷ cs) else from_child child cs

-- `_affected_children`
affected_by : Strategy → ℕ → List ℕ → Result (List ℕ)
affected_by one_for_one child children = return (child ∷ [])
affected_by one_for_all child children = return children
affected_by rest_for_one child children = from_child child children

unfoldable pub affected_children : ℕ → Supervisor → Result (List ℕ)
unfolding affected_by from_child
affected_children child s = affected_by s.strategy child s.children
