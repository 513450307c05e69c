-- ===== src/Daemon/Acting.antt =====
-- What an action does to the recorded triggers (internal/daemon/daemon.go), where the clock does not
-- go back.
use workloadguard.Base.{
  ap, ◌∙◌, ℤ, String, string_eq, List, [], ◌∷◌, ◌++◌, some, ◌≡◌, refl, sym, subst, ◌⊎◌, inl, inr,
  ◌≤ℤ◌, arith, ◌==◌, Bool-cases, if_intro,
}
use workloadguard.Base.Dict.{lookup, lookup-insert}
use workloadguard.Float.{Floats}
use workloadguard.Collector.{Snapshot}
use workloadguard.System.{Env, Trace, Event, now}
use workloadguard.System.Emits.{Adds}
use workloadguard.Metrics.{record_policy_trigger}
use workloadguard.Policy.Cedar.{Cedar}
use workloadguard.Policy.Engine.{Decision}
use workloadguard.Policy.Executor.{execute}
use workloadguard.Policy.Executor.Signals.{IsQuiet, SignalsOf, execute-SignalsOf}
use workloadguard.Daemon.Watching.{with_metrics-trace, with_metrics-triggers, captured-Watches}
use workloadguard.Daemon.{
  record_actions, State, Daemon, with_metrics, record_trigger, after_execute, act, fire,
  capture_diagnostics,
}

pub ≤ℤ-trans : (a b c : ℤ) → a ≤ℤ b → b ≤ℤ c → a ≤ℤ c
≤ℤ-trans a b c h k = omega (arith, h, k)

module _ (fl : Floats) (cedar : Cedar) (env : Env) (d : Daemon fl cedar env)
    (monotone : (t new : Trace) → env.clock t ≤ℤ env.clock (new ++ t)) where
  pub later : (P : Event → Type 0) {t u : Trace} → Adds P t u → env.clock t ≤ℤ env.clock u
  later P {t} (new, grown, h) = subst (λ u. env.clock t ≤ℤ env.clock u) (sym grown) (monotone t new)

  record_trigger_lem :
      (policy : String) (s : State) (name : String) (last : ℤ)
      → lookup name s.last_trigger ≡ some last
      → (time : ℤ) × (lookup name (record_trigger fl cedar env policy s).last_trigger ≡ some time)
        × ((time ≡ last) ⊎ ((policy ≡ name) × (time ≡ env.clock s.trace)))
  unfolding record_trigger now
  record_trigger_lem policy s name last h = elim (Bool-cases (policy == name)) [
    | inl same ↦ (
      env.clock s.trace,
      rw (lookup-insert policy name (env.clock s.trace) s.last_trigger, same) refl,
      inr ((string_eq.test_iff policy name).0 same, refl),
    )
    | inr other ↦
        (last, rw (lookup-insert policy name (env.clock s.trace) s.last_trigger, other) h, inl refl)
  ]

  -- The trigger that follows the actions.
  after_execute-trigger :
      (e : Decision) (errs : List String) (s : State) (name : String) (last : ℤ)
      → lookup name s.last_trigger ≡ some last
      → (time : ℤ) × (lookup name (after_execute fl cedar env e errs s).last_trigger ≡ some time)
        × ((time ≡ last) ⊎ ((e.policy_name ≡ name) × (time ≡ env.clock s.trace)))
  after_execute-trigger e (x ∷ errs) s name last h = (last, h, inl refl)
  after_execute-trigger e [] s name last h =
      let count = record_actions e.policy_name e.actions in
      let (time, found, why) =
        record_trigger_lem e.policy_name (with_metrics count s) name last
          (ap (lookup name) (with_metrics-triggers count s) ∙ h) in
      (
        time,
        found,
        subst (λ t. (time ≡ last) ⊎ ((e.policy_name ≡ name) × (time ≡ env.clock t)))
            (with_metrics-trace count s) why,
      )

  -- What a step with the policy `policy` may do to the trigger of the policy `name`.
  abbrev pub Acted : String → State → State → String → ℤ → Type 0
  Acted policy s s' name last =
      (time : ℤ) × (lookup name s'.last_trigger ≡ some time)
      × ((time ≡ last) ⊎ ((policy ≡ name) × (env.clock s.trace ≤ℤ time)))

  act-Acted :
      (e : Decision) (snapshot : Snapshot) (s : State) (name : String) (last : ℤ)
      → lookup name s.last_trigger ≡ some last
      → Acted e.policy_name s (act fl cedar env d e snapshot s) name last
  unfolding act
  act-Acted e snapshot s name last h =
      let r = execute env d.config e snapshot s.trace in
      let (time, found, why) = after_execute-trigger e r.0 (record s { trace = r.1 }) name last h in
      let grown = later (SignalsOf e.pids) (execute-SignalsOf env d.config e snapshot s.trace) in
      if_intro (λ (u : State). Acted e.policy_name s u name last) d.config.dry_run _ _
        (λ dry. (last, h, inl refl))
        (λ wet. (
          time,
          found,
          elim why [
            | inl same ↦ inl same
            | inr (own, read) ↦ inr (own, subst (λ t. env.clock s.trace ≤ℤ t) (sym read) grown)
          ],
        ))

  pub fire-Acted :
      (e : Decision) (snapshot : Snapshot) (s : State) (name : String) (last : ℤ)
      → lookup name s.last_trigger ≡ some last
      → Acted e.policy_name s (fire fl cedar env d e snapshot s) name last
  unfolding fire
  fire-Acted e snapshot s name last h =
      let counted = with_metrics (record_policy_trigger e.policy_name) s in
      let captured = capture_diagnostics fl cedar env d e snapshot counted in
      let w = captured-Watches fl cedar env d e snapshot s in
      let (time, found, why) =
        act-Acted e snapshot captured name last (ap (lookup name) w.triggers ∙ h) in
      (
        time,
        found,
        elim why [
          | inl same ↦ inl same
          | inr (own, after) ↦ inr (
            own,
            ≤ℤ-trans (env.clock s.trace) (env.clock captured.trace) time (later IsQuiet w.quiet)
                after,
          )
        ],
      )
