-- ===== src/Daemon/Refinement.antt =====
-- The daemon (internal/daemon/daemon.go) as a machine of few moves: what a client may rely on, with
-- the snapshot, the metrics and the lock forgotten.
use workloadguard.Base.{
  All, true, ℤ, false, String, string_eq, List, [], ◌∷◌, Option, none, some, ◌≡◌, refl, sym, subst,
  ◌∙◌, if_intro, ltb_ℤ, ◌-ℤ◌,
}
use workloadguard.Base.Dict.{Dict, lookup, insert}
use workloadguard.Float.{Floats}
use workloadguard.Collector.{Snapshot, Readings, Task, collect}
use workloadguard.System.{Env, Trace, read_clock, now}
use workloadguard.System.Emits.{Adds, Adds-trans, Adds-mono}
use workloadguard.Metrics.{record_policy_trigger}
use workloadguard.Policy.Cedar.{Cedar}
use workloadguard.Policy.Engine.{Decision}
use workloadguard.Policy.Executor.{execute}
use workloadguard.Policy.Executor.Signals.{IsQuiet, SignalsOf, IsQuiet-SignalsOf, execute-SignalsOf}
use workloadguard.Daemon.Watching.{
  IsCoarse, Watches, Watches-trans, with_metrics-Watches, is_on_cooldown-Watches, captured-Watches,
}
use workloadguard.Daemon.Runs.{
  IsCollected, IsEvaluated, evaluate-IsEvaluated, OnTick, handle_decisions-Meeting, run-Meeting,
}
use workloadguard.Daemon.{
  State, Daemon, Tick, record_actions, with_metrics, since, is_on_cooldown, record_trigger,
  capture_diagnostics, after_execute, act, fire, handle_triggered, handle_decisions, run,
}

-- The machine's state: when each policy last triggered, and what the system has been asked.
pub record Machine : Type 0 where
  pub last_trigger : Dict String ℤ
  pub trace : Trace

abbrev pub view : State → Machine
view s = record { last_trigger = s.last_trigger; trace = s.trace }

-- A policy may act at `time`: it never has, or its cooldown is over.
abbrev pub IsDue : ℤ → ℤ → Option ℤ → Type 0
IsDue cooldown time none = Unit
IsDue cooldown time (some last) = ltb_ℤ (time -ℤ last) cooldown ≡ false

-- `Fires` holds of the decisions that may be acted on.
module _ (env : Env) (cooldown : ℤ) (Fires : Decision → Type 0) where
  -- The moves. Processes are touched only for such a decision, those that it lists, and only while
  -- its policy is due; only where that has gone without an error is the time recorded.
  pub data Move : Machine → Machine → Type 0 where
    watch :
        {m : Dict String ℤ} {t u : Trace}
        → Adds IsQuiet t u
        → Move (record { last_trigger = m; trace = t }) (record { last_trigger = m; trace = u })
    attempt :
        {m : Dict String ℤ} {t u : Trace} (e : Decision)
        → Fires e
        → IsDue cooldown (env.clock t) (lookup e.policy_name m)
        → Adds (SignalsOf e.pids) t u
        → Move (record { last_trigger = m; trace = t }) (record { last_trigger = m; trace = u })
    succeed :
        {m : Dict String ℤ} {t u : Trace} (e : Decision)
        → Fires e
        → IsDue cooldown (env.clock t) (lookup e.policy_name m)
        → Adds (SignalsOf e.pids) t u
        → Move
            (record { last_trigger = m; trace = t })
            (record { last_trigger = insert e.policy_name (env.clock u) m; trace = read_clock ∷ u })

  pub data Moves : Machine → Machine → Type 0 where
    stay : {a : Machine} → Moves a a
    step : {a b c : Machine} → Move a b → Moves b c → Moves a c

  pub Moves-trans : {a b c : Machine} → Moves a b → Moves b c → Moves a c
  Moves-trans stay k = k
  Moves-trans (step m ms) k = step m (Moves-trans ms k)

  pub Watches-Moves : {s s' : State} → Watches s s' → Moves (view s) (view s')
  Watches-Moves {s} {s'} w =
      subst (λ m. Moves (view s) (record { last_trigger = m; trace = s'.trace })) (sym w.triggers)
        (step (watch w.quiet) stay)

  module _ (e : Decision) (fires : Fires e) {t u : Trace} (m m' : Dict String ℤ) (kept : m' ≡ m)
      (due : IsDue cooldown (env.clock t) (lookup e.policy_name m))
      (h : Adds (SignalsOf e.pids) t u) where
    attempted :
        Moves (record { last_trigger = m; trace = t }) (record { last_trigger = m'; trace = u })
    attempted =
        subst
          (λ n.
            Moves (record { last_trigger = m; trace = t }) (record { last_trigger = n; trace = u }))
          (sym kept) (step (attempt e fires due h) stay)

    succeeded :
        Moves
          (record { last_trigger = m; trace = t })
          (record { last_trigger = insert e.policy_name (env.clock u) m'; trace = read_clock ∷ u })
    succeeded =
        subst
          (λ n.
            Moves (record { last_trigger = m; trace = t })
              (record {
                last_trigger = insert e.policy_name (env.clock u) n;
                trace = read_clock ∷ u;
              }))
          (sym kept) (step (succeed e fires due h) stay)

-- `Made` holds of the snapshots that the decisions are made of.
module _ (fl : Floats) (cedar : Cedar) (env : Env) (d : Daemon fl cedar env)
    (Made : Snapshot → Type 0) where
  -- The engine has made the decision, of such a snapshot, and it has triggered.
  abbrev pub IsFired : Decision → Type 0
  IsFired e = (e.triggered ≡ true) × IsEvaluated fl cedar env d Made e

  abbrev pub Refines : State → State → Type 0
  Refines s s' = Moves env d.config.cooldown IsFired (view s) (view s')

  pub watches : {s s' : State} → Watches s s' → Refines s s'
  watches w = Watches-Moves env d.config.cooldown IsFired w

  pub Refines-IsCoarse : IsCoarse Refines
  Refines-IsCoarse = record {
    watch = λ s s' w. watches w;
    join = λ s t u h k. Moves-trans env d.config.cooldown IsFired h k;
  }

  module _ (e : Decision) (s c : State) (fires : IsFired e) (w : Watches s c)
      (due : IsDue d.config.cooldown
        (env.clock s.trace)
        (lookup e.policy_name s.last_trigger)) where
    quiet : Adds (SignalsOf e.pids) s.trace c.trace
    quiet = Adds-mono IsQuiet (SignalsOf e.pids) (IsQuiet-SignalsOf e.pids) w.quiet

    after_execute-Refines :
        (errs : List String) (u : Trace)
        → Adds (SignalsOf e.pids) c.trace u
        → Refines s (after_execute fl cedar env e errs (record c { trace = u }))
    unfolding record_trigger now
    after_execute-Refines (x ∷ errs) u h =
        attempted env d.config.cooldown IsFired e fires s.last_trigger c.last_trigger w.triggers due
          (Adds-trans (SignalsOf e.pids) quiet h)
    after_execute-Refines [] u h =
        let count = record_actions e.policy_name e.actions in
        let k = with_metrics-Watches count (record c { trace = u }) in
        succeeded env d.config.cooldown IsFired e fires s.last_trigger
          (with_metrics count (record c { trace = u })).last_trigger (k.triggers ∙ w.triggers) due
          (Adds-trans (SignalsOf e.pids) quiet (
            Adds-trans (SignalsOf e.pids) h
              (Adds-mono IsQuiet (SignalsOf e.pids) (IsQuiet-SignalsOf e.pids) k.quiet)))

    act-Refines : (snapshot : Snapshot) → Refines s (act fl cedar env d e snapshot c)
    unfolding act
    act-Refines snapshot =
        let r = execute env d.config e snapshot c.trace in
        if_intro (Refines s) d.config.dry_run _ _ (λ dry. watches w)
          (λ wet. after_execute-Refines r.0 r.1 (execute-SignalsOf env d.config e snapshot c.trace))

  since-IsDue :
      (s : State) (last : Option ℤ)
      → (since fl cedar env d s last).0 ≡ false
      → IsDue d.config.cooldown (env.clock s.trace) last
  unfolding now
  since-IsDue s none h = tt
  since-IsDue s (some last) h = h

  pub handle_triggered-Refines :
      (e : Decision) (snapshot : Snapshot) (s : State)
      → e.triggered ≡ true
      → IsEvaluated fl cedar env d Made e
      → Refines s (handle_triggered fl cedar env d e snapshot s)
  unfolding handle_triggered fire is_on_cooldown
  handle_triggered-Refines e snapshot s on made =
      let r = is_on_cooldown fl cedar env d e.policy_name s in
      let counted = with_metrics (record_policy_trigger e.policy_name) r.1 in
      let w = is_on_cooldown-Watches fl cedar env d e.policy_name s in
      if_intro (Refines s) r.0 _ _ (λ cooling. watches w)
        (λ ready.
          act-Refines e s (capture_diagnostics fl cedar env d e snapshot counted) (on, made)
            (Watches-trans w (captured-Watches fl cedar env d e snapshot r.1))
            (since-IsDue s (lookup e.policy_name s.last_trigger) ready) snapshot)

  pub handle_decisions-Refines :
      (snapshot : Snapshot) (es : List Decision) (s : State)
      → All (IsEvaluated fl cedar env d Made) es
      → Refines s (handle_decisions fl cedar env d snapshot es s)
  handle_decisions-Refines =
      handle_decisions-Meeting fl cedar env d Refines Refines-IsCoarse
        (IsEvaluated fl cedar env d Made) handle_triggered-Refines

module _ (fl : Floats) (cedar : Cedar) (env : Env) (d : Daemon fl cedar env)
    (Meets : Readings → List Task → Type 0) where
  -- Every run of the daemon, from any state, whose collections meet `Meets`, is a sequence of the
  -- machine's moves: processes are touched only for a triggered decision that the engine has made of
  -- the snapshot of a collection that meets `Meets`, those that the decision lists, and only while
  -- its policy is due; the time of a trigger is recorded only for such a decision, after its actions.
  pub run-Refines :
      (r : Readings) (order : List Task) (ts : List (Tick fl cedar env)) (s : State)
      → Meets r order
      → All (OnTick fl cedar env Meets) ts
      → Refines fl cedar env d (IsCollected Meets) s (run fl cedar env d r order ts s)
  run-Refines =
      run-Meeting fl cedar env d (Refines fl cedar env d (IsCollected Meets))
        (Refines-IsCoarse fl cedar env d (IsCollected Meets))
        (IsEvaluated fl cedar env d (IsCollected Meets))
        (handle_triggered-Refines fl cedar env d (IsCollected Meets)) Meets
        (λ time r order met.
          evaluate-IsEvaluated fl cedar env d (IsCollected Meets) (collect time r order).0
            (record { time = time; readings = r; order = order; met = met; made = refl }))
