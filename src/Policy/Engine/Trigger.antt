-- ===== src/Policy/Engine/Trigger.antt =====
-- When a policy triggers (internal/policy/engine.go, `evaluatePolicy`).
use workloadguard.Base.{
  ℕ, pos, ◌≤ℤ◌, String, [], map, Option, none, some, ◌≡◌, true, false, ◌↔◌, ◌⊎◌, arith, length,
  if◌then◌else◌,
}
use workloadguard.Base.Filter.{filter_by}
use workloadguard.Float.{Float64, flt, float_zero, Floats}
use workloadguard.Config.{Policy, Conditions}
use workloadguard.Collector.{Snapshot, LoadAverage}
use workloadguard.Collector.Index.{IsIndexed}
use workloadguard.Policy.Cedar.{Cedar}
use workloadguard.Policy.Engine.{
  Engine, candidates, load_shortfall, authorize_with_cedar, evaluate_policy,
}
use workloadguard.Policy.Engine.Selection.{counts, candidates-filter_by}

-- A load average reaches a limit: the limit is not positive, or the load is not below it.
abbrev pub Reaches : Float64 → Float64 → Type 0
Reaches load limit = (flt float_zero limit ≡ false) ⊎ (flt load limit ≡ false)

abbrev pub LoadsReached : Option Conditions → LoadAverage → Type 0
LoadsReached none load = Unit
LoadsReached (some c) load = Reaches load.load1 c.min_load1 × Reaches load.load5 c.min_load5

module _ (fl : Floats) where
  load_shortfall_iff :
      (o : Option Conditions) (load : LoadAverage)
      → (load_shortfall fl o load ≡ none) ↔ LoadsReached o load
  unfolding load_shortfall
  load_shortfall_iff none load = ground arith
  load_shortfall_iff (some c) load = (λ h. (ground arith, ground arith), λ h. ground arith)

  module _ (cedar : Cedar) (e : Engine fl cedar) where
    -- The three tests of a policy, on the number of processes that count for it.
    abbrev pub Holds : Policy → Snapshot → ℕ → Type 0
    Holds policy s count =
        (policy.max_count ≤ℤ pos count)
        × LoadsReached policy.conditions s.load_average
        × (authorize_with_cedar fl cedar e policy s count ≡ true)

    evaluate_policy_cases :
        (name : String) (policy : Policy) (s : Snapshot)
        → let d = evaluate_policy fl cedar e name policy s in
          let ps = candidates policy s in
          ((d.triggered ≡ true) × Holds policy s (length ps) × (d.pids ≡ map (λ p. p.pid) ps))
          ⊎ ((d.triggered ≡ false) × (¬ Holds policy s (length ps)) × (d.pids ≡ []))
    unfolding evaluate_policy
    evaluate_policy_cases name policy s =
        ground (arith, load_shortfall_iff policy.conditions s.load_average)

    -- A policy triggers exactly when the processes that count for it reach its count, both load
    -- averages reach their limits, and Cedar allows the request. It then lists the PIDs of exactly
    -- those processes, and otherwise none.
    pub evaluate_policy_iff :
        (name : String) (policy : Policy) (s : Snapshot)
        → IsIndexed s
        → let d = evaluate_policy fl cedar e name policy s in
          let ps = filter_by (counts policy) s.processes in
          ((d.triggered ≡ true) ↔ Holds policy s (length ps))
          × (d.pids ≡ (if d.triggered then map (λ p. p.pid) ps else []))
    evaluate_policy_iff name policy s h =
        rw (← candidates-filter_by policy s h) (ground (arith, evaluate_policy_cases name policy s))
