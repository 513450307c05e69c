-- ===== src/Daemon/Progress.antt =====
-- That a triggered policy gets to act (internal/daemon/daemon.go).
use mathlib.Core.List.{Memᴰ}
use workloadguard.Base.{
  ℤ, true, false, not, String, string_eq, List, [], ◌∷◌, Option, none, some, ◌≡◌, refl, sym, subst,
  arith, if_intro, All, Bool-cases, inl, inr, ◌==◌,
}
use workloadguard.Base.Dict.{Dict, lookup, insert, lookup-insert}
use workloadguard.Float.{Floats}
use workloadguard.Collector.{Snapshot, Readings, Task, collect}
use workloadguard.System.{Env, read_clock, now}
use workloadguard.Metrics.{record_policy_trigger, record_policy_evaluation, record_check}
use workloadguard.Policy.Cedar.{Cedar}
use workloadguard.Policy.Engine.{Decision, evaluate}
use workloadguard.Policy.Executor.{execute}
use workloadguard.Policy.Executor.Errors.{IsHarmless, execute-none}
use workloadguard.Daemon.Watching.{record_duration-Watches}
use workloadguard.Daemon.Refinement.{
  Machine, watch, attempt, succeed, Moves, stay, step, Refines, IsFired, handle_decisions-Refines,
}
use workloadguard.Daemon.Runs.{IsEvaluated, evaluate-IsEvaluated}
use workloadguard.Daemon.Cycle.{settled}
use workloadguard.Daemon.{
  State, Daemon, with_metrics, since, is_on_cooldown, record_trigger, capture_diagnostics,
  system_metrics, after_execute, act, fire, handle_triggered, handle_decision, handle_decisions,
  checked, run_check,
}

-- A trigger of the policy is recorded.
abbrev pub HasTrigger : String → Dict String ℤ → Type 0
HasTrigger name m = (time : ℤ) × (lookup name m ≡ some time)

insert-HasTrigger :
    (name other : String) (time : ℤ) (m : Dict String ℤ)
    → HasTrigger name m
    → HasTrigger name (insert other time m)
insert-HasTrigger name other time m (last, h) = elim (Bool-cases (other == name)) [
  | inl same ↦ (time, rw (lookup-insert other name time m, same) refl)
  | inr apart ↦ (last, rw (lookup-insert other name time m, apart) h)
]

insert-own : (name : String) (time : ℤ) (m : Dict String ℤ) → HasTrigger name (insert name time m)
insert-own name time m =
    (time, ground (arith, lookup-insert name name time m, string_eq.test_iff name name))

-- No move of the machine forgets a trigger.
Moves-HasTrigger :
    (env : Env) (cooldown : ℤ) (Fires : Decision → Type 0) (name : String) {a b : Machine}
    → Moves env cooldown Fires a b
    → HasTrigger name a.last_trigger
    → HasTrigger name b.last_trigger
Moves-HasTrigger env cooldown Fires name stay h = h
Moves-HasTrigger env cooldown Fires name (step (watch q) ms) h =
    Moves-HasTrigger env cooldown Fires name ms h
Moves-HasTrigger env cooldown Fires name (step (attempt e fires due q) ms) h =
    Moves-HasTrigger env cooldown Fires name ms h
Moves-HasTrigger env cooldown Fires name (step (succeed {m} {t} {u} e fires due q) ms) h =
    Moves-HasTrigger env cooldown Fires name ms
      (insert-HasTrigger name e.policy_name (env.clock u) m h)

module _ (fl : Floats) (cedar : Cedar) (env : Env) (d : Daemon fl cedar env)
    (wet : d.config.dry_run ≡ false) where
  abbrev Any : Snapshot → Type 0
  Any snapshot = Unit

  Refines-HasTrigger :
      (name : String) (s s' : State)
      → Refines fl cedar env d Any s s'
      → HasTrigger name s.last_trigger
      → HasTrigger name s'.last_trigger
  Refines-HasTrigger name s s' h =
      Moves-HasTrigger env d.config.cooldown (IsFired fl cedar env d Any) name h

  after_execute-HasTrigger :
      (e : Decision) (errs : List String) (s : State)
      → errs ≡ []
      → HasTrigger e.policy_name (after_execute fl cedar env e errs s).last_trigger
  unfolding record_trigger now
  after_execute-HasTrigger e [] s h = insert-own e.policy_name _ _
  after_execute-HasTrigger e (x ∷ errs) s h = ground (arith, h)

  act-HasTrigger :
      (e : Decision) (snapshot : Snapshot) (s : State)
      → All IsHarmless e.actions
      → HasTrigger e.policy_name (act fl cedar env d e snapshot s).last_trigger
  unfolding act
  act-HasTrigger e snapshot s h =
      let r = execute env d.config e snapshot s.trace in
      if_intro (λ (u : State). HasTrigger e.policy_name u.last_trigger) d.config.dry_run _ _
        (λ dry. ground (arith, dry, wet))
        (λ on.
          after_execute-HasTrigger e r.0 (record s { trace = r.1 })
            (execute-none env d.config e snapshot s.trace h))

  since-HasTrigger :
      (name : String) (s : State) (last : Option ℤ)
      → lookup name s.last_trigger ≡ last
      → (since fl cedar env d s last).0 ≡ true
      → HasTrigger name (since fl cedar env d s last).1.last_trigger
  unfolding now
  since-HasTrigger name s none h k = ground (arith, k)
  since-HasTrigger name s (some last) h k = (last, h)

  handle_triggered-HasTrigger :
      (e : Decision) (snapshot : Snapshot) (s : State)
      → All IsHarmless e.actions
      → HasTrigger e.policy_name (handle_triggered fl cedar env d e snapshot s).last_trigger
  unfolding handle_triggered fire is_on_cooldown
  handle_triggered-HasTrigger e snapshot s h =
      let r = is_on_cooldown fl cedar env d e.policy_name s in
      let counted = with_metrics (record_policy_trigger e.policy_name) r.1 in
      if_intro (λ (u : State). HasTrigger e.policy_name u.last_trigger) r.0 _ _
        (λ cooling.
          since-HasTrigger e.policy_name s (lookup e.policy_name s.last_trigger) refl cooling)
        (λ ready.
          act-HasTrigger e snapshot (capture_diagnostics fl cedar env d e snapshot counted) h)

  handle_decision-HasTrigger :
      (snapshot : Snapshot) (e : Decision) (s : State)
      → e.triggered ≡ true
      → All IsHarmless e.actions
      → HasTrigger e.policy_name (handle_decision fl cedar env d snapshot e s).last_trigger
  unfolding handle_decision
  handle_decision-HasTrigger snapshot e s fired h =
      if_intro (λ (u : State). HasTrigger e.policy_name u.last_trigger) (not e.triggered) _ _
        (λ idle. ground (arith, idle, fired))
        (λ on.
          handle_triggered-HasTrigger e snapshot
            (with_metrics (record_policy_evaluation e.policy_name) s) h)

  handle_decisions-HasTrigger :
      (snapshot : Snapshot) (e : Decision) (es : List Decision) (s : State)
      → All (IsEvaluated fl cedar env d Any) es
      → Memᴰ e es
      → e.triggered ≡ true
      → All IsHarmless e.actions
      → HasTrigger e.policy_name (handle_decisions fl cedar env d snapshot es s).last_trigger
  unfolding handle_decisions
  handle_decisions-HasTrigger snapshot e [] s made m fired h = elim m [ ]
  handle_decisions-HasTrigger snapshot e (x ∷ es) s made (Memᴰ.head same) fired h =
      let s' = handle_decision fl cedar env d snapshot x s in
      Refines-HasTrigger e.policy_name s' (handle_decisions fl cedar env d snapshot es s')
        (handle_decisions-Refines fl cedar env d Any snapshot es s' made.1)
        (subst
          (λ (y : Decision).
            HasTrigger e.policy_name (handle_decision fl cedar env d snapshot y s).last_trigger)
          (same) (handle_decision-HasTrigger snapshot e s fired h))
  handle_decisions-HasTrigger snapshot e (x ∷ es) s made (Memᴰ.tail m) fired h =
      handle_decisions-HasTrigger snapshot e es (handle_decision fl cedar env d snapshot x s) made.1
        m fired h

  checked-HasTrigger :
      (trigger : String) (r : Readings) (order : List Task) (s : State) (e : Decision)
      → Memᴰ e (checked fl cedar env d trigger r order s).latest_decisions
      → e.triggered ≡ true
      → All IsHarmless e.actions
      → HasTrigger e.policy_name (checked fl cedar env d trigger r order s).last_trigger
  unfolding checked now
  checked-HasTrigger trigger r order s e m fired h =
      let s₂ = with_metrics (record_check trigger) (record s { trace = read_clock ∷ s.trace }) in
      let snapshot = (collect (env.clock s₂.trace) r order).0 in
      let s₄ =
        with_metrics (system_metrics d.config snapshot)
          (record s₂ { trace = read_clock ∷ s₂.trace }) in
      let es = evaluate fl cedar d.engine snapshot in
      let s₅ = record s₄ { latest_snapshot = some snapshot; latest_decisions = es } in
      let s₆ = handle_decisions fl cedar env d snapshot es s₅ in
      let start = env.clock s.trace in
      subst (HasTrigger e.policy_name)
        (sym (record_duration-Watches fl cedar env start s₆).triggers)
        (handle_decisions-HasTrigger snapshot e es s₅
          (evaluate-IsEvaluated fl cedar env d Any snapshot tt)
          (subst (Memᴰ e) (settled fl cedar env d start snapshot es s₅).decisions m) fired h)

  -- Without `dry_run` and with the lock free: after a check, every policy that it found triggered
  -- and whose actions only look (log, sample, spindump) has a recorded trigger.
  pub run_check-HasTrigger :
      (trigger : String) (r : Readings) (order : List Task) (s : State) (e : Decision)
      → s.checking ≡ false
      → Memᴰ e (run_check fl cedar env d trigger r order s).latest_decisions
      → e.triggered ≡ true
      → All IsHarmless e.actions
      → HasTrigger e.policy_name (run_check fl cedar env d trigger r order s).last_trigger
  unfolding run_check
  run_check-HasTrigger trigger r order s e free m fired h =
      if_intro (λ (u : State). Memᴰ e u.latest_decisions → HasTrigger e.policy_name u.last_trigger)
        s.checking _ _ (λ busy. ground (arith, busy, free))
        (λ idle k. checked-HasTrigger trigger r order (record s { checking = true }) e k fired h) m
