-- ===== src/Daemon.antt =====
-- internal/daemon/daemon.go: the cycle that collects, evaluates and acts. The daemon's state holds
-- the trace of what it has asked of the system.
pub mod Acting
pub mod Cooldown
pub mod Cycle
pub mod DryRun
pub mod Positive
pub mod Progress
pub mod Provider
pub mod Refinement
pub mod Runs
pub mod Targets
pub mod Termination
pub mod Watching
use workloadguard.Base.{
  ℤ, ltb_ℤ, ◌-ℤ◌, Bool, true, false, not, ◌&&◌, String, string_eq, List, [], ◌∷◌, ◌++◌, Option,
  none, some, Outcome, ok, err, ◌==◌, if◌then◌else◌, length, beq_ℕ,
}
use workloadguard.Base.Dict.{Dict, lookup, insert}
use workloadguard.Float.{fle, Floats}
use workloadguard.Config.{Config, Policy}
use workloadguard.Collector.{Snapshot, LoadAverage, Readings, Task, collect, process_count}
use workloadguard.System.{Env, M, Trace, now}
use workloadguard.Metrics.{
  Metrics, update_system_metrics, update_process_count, update_process_count_by_name,
  record_policy_evaluation, record_policy_trigger, record_policy_action, record_check_duration,
  record_check, record_termination,
}
use workloadguard.Diagnostics.{capture}
use workloadguard.Policy.Cedar.{Cedar}
use workloadguard.Policy.Engine.{Decision, Engine, evaluate, new_engine}
use workloadguard.Policy.Executor.{execute, term, kill}

pub record State : Type 0 where
  pub last_trigger : Dict String ℤ  -- the time of the last trigger of each policy
  pub latest_snapshot : Option Snapshot
  pub latest_decisions : List Decision
  pub metrics : Option Metrics  -- a pointer, nil unless metrics are enabled
  pub checking : Bool  -- whether `checkMu` is held
  pub trace : Trace

abbrev pub fresh : State
fresh = record {
  last_trigger = [];
  latest_snapshot = none;
  latest_decisions = [];
  metrics = none;
  checking = false;
  trace = [];
}

unfoldable pub set_metrics : Metrics → State → State
set_metrics m s = record s { metrics = some m }

-- `if d.metrics != nil { … }`
unfoldable pub with_metrics : (Metrics → Metrics) → State → State
with_metrics f s = elim s.metrics [ none ↦ s | some m ↦ record s { metrics = some (f m) } ]

-- A request to the system, from the daemon's trace on.
abbrev pub perform {ℓ} : {A : Type ℓ} → M A → State → A × State
perform m s = let r = m s.trace in (r.0, record s { trace = r.1 })

-- the loop over the policies that updates the process counts
unfoldable pub count_policies : Snapshot → Dict String Policy → Metrics → Metrics
count_policies snapshot [] m = m
count_policies snapshot ((name, p) ∷ ps) m =
    count_policies snapshot ps
      (update_process_count_by_name p.process (process_count snapshot p.process) m)

abbrev pub system_metrics : Config → Snapshot → Metrics → Metrics
system_metrics cfg s m = count_policies s cfg.policies (
    update_process_count (length s.processes) (
      update_system_metrics s.load_average.load1 s.load_average.load5 s.load_average.load15
        s.cpu_count s.memory.total s.memory.free_bytes m))

unfoldable pub record_actions : String → List String → Metrics → Metrics
record_actions policy [] m = m
record_actions policy (action ∷ actions) m =
    record_actions policy actions (record_policy_action policy action m)

module _ (fl : Floats) (cedar : Cedar) (env : Env) where
  -- What `New` makes, and nothing changes.
  pub record Daemon : Type 0 where
    pub config : Config
    pub engine : Engine fl cedar
    pub diagnostics : Option String  -- the collector's base path, nil where none is configured

  abbrev diagnostics_of : Config → Option String
  diagnostics_of cfg = if not (cfg.diagnostics_path == "") then some cfg.diagnostics_path else none

  -- what follows the engine's creation
  abbrev pub with_engine : Config → Outcome (Engine fl cedar) → Outcome (Daemon × State)
  with_engine cfg (err e) = err e
  with_engine cfg (ok engine) =
      ok (record { config = cfg; engine = engine; diagnostics = diagnostics_of cfg }, fresh)

  unfoldable pub new : Config → Outcome (Daemon × State)
  new cfg = with_engine cfg (new_engine fl cedar cfg.policies)

  abbrev pub since : Daemon → State → Option ℤ → Bool × State
  since d s none = (false, s)
  since d s (some last) =
      let (time, s') = perform (now env) s in (ltb_ℤ (time -ℤ last) d.config.cooldown, s')

  -- `time.Since(last) < Cooldown`; a policy that has never triggered is not on cooldown
  unfoldable pub is_on_cooldown : Daemon → String → State → Bool × State
  is_on_cooldown d name s = since d s (lookup name s.last_trigger)

  unfoldable pub record_trigger : String → State → State
  record_trigger name s =
      let (time, s') = perform (now env) s in
      record s' { last_trigger = insert name time s'.last_trigger }

  -- A failed capture is only logged.
  unfoldable pub capture_diagnostics : Daemon → Decision → Snapshot → State → State
  capture_diagnostics d decision snapshot s = elim d.diagnostics [
    | none ↦ s
    | some base ↦
        if not (beq_ℕ (length decision.pids) 0)
        then (perform (capture env base decision.pids snapshot) s).1
        else s
  ]

  abbrev after_execute : Decision → List String → State → State
  after_execute decision [] s =
      record_trigger decision.policy_name
        (with_metrics (record_actions decision.policy_name decision.actions) s)
  after_execute decision (e ∷ errs) s = s

  -- The end of the loop's body: the actions, and where they succeed the record of the trigger.
  unfoldable pub act : Daemon → Decision → Snapshot → State → State
  act d decision snapshot s =
      if d.config.dry_run
      then s
      else (let (errs, s') = perform (execute env d.config decision snapshot) s in
          after_execute decision errs s')

  unfoldable pub fire : Daemon → Decision → Snapshot → State → State
  fire d decision snapshot s = act d decision snapshot (
      capture_diagnostics d decision snapshot
        (with_metrics (record_policy_trigger decision.policy_name) s))

  unfoldable pub handle_triggered : Daemon → Decision → Snapshot → State → State
  handle_triggered d decision snapshot s =
      let (cooling, s') = is_on_cooldown d decision.policy_name s in
      if cooling then s' else fire d decision snapshot s'

  -- the body of the loop over the decisions
  unfoldable pub handle_decision : Daemon → Snapshot → Decision → State → State
  handle_decision d snapshot decision s =
      let s' = with_metrics (record_policy_evaluation decision.policy_name) s in
      if not decision.triggered then s' else handle_triggered d decision snapshot s'

  unfoldable pub handle_decisions : Daemon → Snapshot → List Decision → State → State
  handle_decisions d snapshot [] s = s
  handle_decisions d snapshot (decision ∷ decisions) s =
      handle_decisions d snapshot decisions (handle_decision d snapshot decision s)

  abbrev pub end_check : ℤ → State → Option Metrics → State
  end_check start s none = s
  end_check start s (some m) =
      let (end, s') = perform (now env) s in with_metrics (record_check_duration (end -ℤ start)) s'

  unfoldable pub record_duration : ℤ → State → State
  record_duration start s = end_check start s s.metrics

  -- the check, once the lock is held, up to the publication of the snapshot and its decisions: the
  -- start's time, both, and the state; `r` and `order` are what the collector meets
  abbrev pub publish :
      Daemon → String → Readings → List Task → State → (ℤ × Snapshot × List Decision) × State
  publish d trigger r order s =
      let (start, s₁) = perform (now env) s in
      let s₂ = with_metrics (record_check trigger) s₁ in
      let (time, s₃) = perform (now env) s₂ in
      let snapshot = (collect time r order).0 in
      let s₄ = with_metrics (system_metrics d.config snapshot) s₃ in
      let decisions = evaluate fl cedar d.engine snapshot in
      (
        (start, snapshot, decisions),
        record s₄ { latest_snapshot = some snapshot; latest_decisions = decisions },
      )

  -- the check, once the lock is held
  unfoldable pub checked : Daemon → String → Readings → List Task → State → State
  checked d trigger r order s =
      let ((start, snapshot, decisions), s') = publish d trigger r order s in
      record_duration start (handle_decisions d snapshot decisions s')

  -- `TryLock`, the check, and the deferred unlock
  unfoldable pub run_check : Daemon → String → Readings → List Task → State → State
  run_check d trigger r order s =
      if s.checking
      then s
      else record (checked d trigger r order (record s { checking = true })) { checking = false }

  unfoldable pub check_load_trigger :
      Daemon → Outcome LoadAverage → Readings → List Task → State → State
  check_load_trigger d (err e) r order s = s
  check_load_trigger d (ok load) r order s =
      if fle d.config.load_threshold load.load1 then run_check d "load-triggered" r order s else s

  -- What wakes the loop of `Run`.
  pub data Tick : Type 0 where
    periodic : Readings → List Task → Tick
    load_poll : Outcome LoadAverage → Readings → List Task → Tick

  unfoldable pub tick : Daemon → Tick → State → State
  tick d (periodic r order) s = run_check d "periodic" r order s
  tick d (load_poll load r order) s = check_load_trigger d load r order s

  unfoldable pub ticks : Daemon → List Tick → State → State
  ticks d [] s = s
  ticks d (t ∷ ts) s = ticks d ts (tick d t s)

  -- `Run` up to its end, after the given ticks, by the context. (App has the start of the tickers.)
  unfoldable pub run : Daemon → Readings → List Task → List Tick → State → State
  run d r order ts s = ticks d ts (run_check d "startup" r order s)

  abbrev pub count_termination : Bool → Option String → State → State
  count_termination force (some e) s = s
  count_termination force none s = with_metrics (record_termination "api" "process" force) s

  abbrev pub sort_out : ℤ → Option String → List ℤ × List ℤ → List ℤ × List ℤ
  sort_out pid (some e) (good, bad) = (good, pid ∷ bad)
  sort_out pid none (good, bad) = (pid ∷ good, bad)

  -- the loop of `Terminate`: PIDs that were signalled or gone, PIDs that failed
  unfoldable pub terminate : Bool → List ℤ → State → (List ℤ × List ℤ) × State
  terminate force [] s = (([], []), s)
  terminate force (pid ∷ pids) s =
      let (failed, s₁) = perform (if force then kill env pid else term env pid) s in
      let (lists, s₂) = terminate force pids (count_termination force failed s₁) in
      (sort_out pid failed lists, s₂)

  unfoldable pub check_once : Daemon → Readings → List Task → State → List Decision × State
  check_once d r order s =
      let (time, s') = perform (now env) s in
      (evaluate fl cedar d.engine (collect time r order).0, s')
