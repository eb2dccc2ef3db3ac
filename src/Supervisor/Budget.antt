-- ===== src/Supervisor/Budget.antt =====
-- The restart budget and the backoff of lapinbeam/supervisor.py, over a run of crashes.
use lapinbeam.Prelude.{
  ℕ, zero, suc, List, [], ◌∷◌, ◌++◌, true, ◌≡◌, refl, sym, ap, if◌then◌else◌, ltb, length,
  length-append, keep, length-keep-le, All, ◌↔◌, ◌-◌, ◌^◌, ◌≤◌, ◌<◌, arith,
}
use native.Mathlib.Nat.{pow-suc}
use mathlib.Core.List.{append-nil, append_assoc}
use lapinbeam.Supervisor.{Supervisor, new_supervisor, recent, allow_restart, backoff, Strategy}

-- The times at which calls of `_allow_restart` at the given times grant a restart, in their order.
pub granted : List ℕ → Supervisor → List ℕ
granted [] s = []
granted (now ∷ times) s =
    let (allowed, s') = allow_restart now s in
    let more = granted times s' in if allowed then now ∷ more else more

-- The state after those calls.
after : List ℕ → Supervisor → Supervisor
after [] s = s
after (now ∷ times) s = after times (allow_restart now s).1

recent-append :
    (window now : ℕ) (xs ys : List ℕ)
    → recent window now (xs ++ ys) ≡ recent window now xs ++ recent window now ys
unfolding recent keep
recent-append window now [] ys = refl
recent-append window now (x ∷ xs) ys = ground (arith, recent-append window now xs ys)

-- What has left the window stays outside it.
recent-recent :
    (window now later : ℕ) (xs : List ℕ)
    → now ≤ later
    → recent window later (recent window now xs) ≡ recent window later xs
unfolding recent keep
recent-recent window now later [] h = refl
recent-recent window now later (x ∷ xs) h = ground (arith, recent-recent window now later xs h)

-- A restart is refused exactly if `max_restarts` of them lie in the window that ends now.
pub allow_restart_iff :
    (now : ℕ) (s : Supervisor)
    → ((allow_restart now s).0 ≡ true)
      ↔ (length (recent s.restart_window now s.restart_times) < s.max_restarts)
unfolding allow_restart
allow_restart_iff now s = ground arith

allow_restart-recent :
    (now later : ℕ) (s : Supervisor)
    → now ≤ later
    → recent s.restart_window later (allow_restart now s).1.restart_times
      ≡ recent s.restart_window later
          (if (allow_restart now s).0 then s.restart_times ++ now ∷ [] else s.restart_times)
unfolding allow_restart
allow_restart-recent now later s h = ground (
  arith,
  recent-recent s.restart_window now later s.restart_times h,
  recent-append s.restart_window later s.restart_times (now ∷ []),
  recent-append s.restart_window later (recent s.restart_window now s.restart_times) (now ∷ []),
)

module _ (now : ℕ) (s : Supervisor) where
  restart_window-allow_restart : (allow_restart now s).1.restart_window ≡ s.restart_window
  unfolding allow_restart
  restart_window-allow_restart = ground arith

  max_restarts-allow_restart : (allow_restart now s).1.max_restarts ≡ s.max_restarts
  unfolding allow_restart
  max_restarts-allow_restart = ground arith

-- The supervisor remembers, of all restarts it granted, at least those that are still in a window.
recent-after :
    (times : List ℕ) (later : ℕ) (s : Supervisor)
    → All (λ t. t ≤ later) times
    → recent s.restart_window later (after times s).restart_times
      ≡ recent s.restart_window later (s.restart_times ++ granted times s)
unfolding after granted
recent-after [] later s h = ap (recent s.restart_window later) (sym (append-nil s.restart_times))
recent-after (now ∷ times) later s h =
    let s' = (allow_restart now s).1 in
    ground (
      arith,
      recent-after times later s' h.1,
      restart_window-allow_restart now s,
      allow_restart-recent now later s h.0,
      recent-append s.restart_window later s'.restart_times (granted times s'),
      recent-append s.restart_window later s.restart_times (granted times s'),
      recent-append s.restart_window later (s.restart_times ++ now ∷ []) (granted times s'),
      append_assoc s.restart_times (now ∷ []) (granted times s'),
    )

length-allow_restart :
    (now : ℕ) (s : Supervisor)
    → length s.restart_times ≤ s.max_restarts
    → length (allow_restart now s).1.restart_times ≤ s.max_restarts
unfolding allow_restart recent
length-allow_restart now s h =
    let test = λ (t : ℕ). ltb (now - t) s.restart_window in
    ground (
      arith,
      length-keep-le test s.restart_times,
      length-append (keep test s.restart_times) (now ∷ []),
    )

length-after :
    (times : List ℕ) (s : Supervisor)
    → length s.restart_times ≤ s.max_restarts
    → length (after times s).restart_times ≤ s.max_restarts
unfolding after
length-after [] s h = h
length-after (now ∷ times) s h = ground (
  arith,
  length-after times (allow_restart now s).1,
  length-allow_restart now s h,
  max_restarts-allow_restart now s,
)

-- However often actors crash, and at whatever times up to `later`, a fresh supervisor grants at
-- most `max_restarts` restarts at times that are less than `window` before `later`.
pub granted_bounded :
    (strategy : Strategy) (max_restarts window later : ℕ) (times : List ℕ)
    → All (λ t. t ≤ later) times
    → length (
        keep
          (λ t. ltb (later - t) window)
          (granted times (new_supervisor strategy max_restarts window)))
      ≤ max_restarts
unfolding new_supervisor recent
granted_bounded strategy max_restarts window later times h =
    let s = new_supervisor strategy max_restarts window in
    let test = λ (t : ℕ). ltb (later - t) window in
    omega (
      arith,
      ap length (recent-after times later s h),
      length-after times s (omega arith),
      length-keep-le test (after times s).restart_times,
    )

-- Where `max_restarts` is not zero, a crash is restarted once every earlier restart has left the
-- window.
pub allow_restart_recovers :
    (now : ℕ) (s : Supervisor)
    → 0 < s.max_restarts
    → All (λ t. s.restart_window ≤ now - t) s.restart_times
    → (allow_restart now s).0 ≡ true
unfolding allow_restart
allow_restart_recovers now s pos old = ground (arith, none_recent s.restart_times old)
  where
    none_recent :
        (times : List ℕ)
        → All (λ t. s.restart_window ≤ now - t) times
        → recent s.restart_window now times ≡ []
    none_recent [] h = refl
    none_recent (t ∷ ts) h = ground (arith, none_recent ts h.1)

pow_pos : (k : ℕ) → 1 ≤ 2 ^ k
pow_pos zero = omega arith
pow_pos (suc k) = omega (arith, pow-suc 2 k, pow_pos k)

two-le-pow : (k : ℕ) → 0 < k → 2 ≤ 2 ^ k
two-le-pow zero h = absurd (omega arith)
two-le-pow (suc k) h = omega (arith, pow-suc 2 k, pow_pos k)

length-allowed :
    (now : ℕ) (s : Supervisor)
    → (allow_restart now s).0 ≡ true
    → 0 < length (allow_restart now s).1.restart_times
unfolding allow_restart
length-allowed now s h =
    ground (arith, length-append (recent s.restart_window now s.restart_times) (now ∷ []))

-- After a granted restart the delay is between a tenth of a second and one second.
pub backoff_bounds :
    (now : ℕ) (s : Supervisor)
    → (allow_restart now s).0 ≡ true
    → (10 ≤ backoff (allow_restart now s).1) × (backoff (allow_restart now s).1 ≤ 100)
unfolding backoff
backoff_bounds now s h =
    let k = length (allow_restart now s).1.restart_times in
    let two : 2 ≤ 2 ^ k = two-le-pow k (length-allowed now s h) in (omega arith, omega arith)
