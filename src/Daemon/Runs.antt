-- ===== src/Daemon/Runs.antt =====
-- From the handling of one triggered decision to whole runs (internal/daemon/daemon.go), for any
-- relation between the states that is transitive and holds where nothing is acted on.
use mathlib.Core.List.{Memᴰ}
use workloadguard.Base.{
  ◌≡◌, arith, ℤ, true, not, String, List, [], ◌∷◌, ok, err, refl, if_intro, All,
}
use workloadguard.Base.Members.{All_of_Memᴰ}
use workloadguard.Float.{Floats, fle}
use workloadguard.Collector.{Snapshot, Readings, Task, collect}
use workloadguard.System.{Env}
use workloadguard.System.Emits.{Adds-refl}
use workloadguard.Metrics.{record_policy_evaluation}
use workloadguard.Policy.Cedar.{Cedar}
use workloadguard.Policy.Engine.{Decision, evaluate}
use workloadguard.Policy.Executor.Signals.{IsQuiet}
use workloadguard.Daemon.Watching.{
  IsCoarse, Watches-refl, with_metrics-Watches, record_duration-Watches, publish-Watches,
}
use workloadguard.Daemon.{
  State, Daemon, Tick, periodic, load_poll, with_metrics, handle_triggered, handle_decision,
  handle_decisions, publish, checked, run_check, check_load_trigger, tick, ticks, run,
}

-- A collection has made the snapshot, one that meets `Meets`.
pub record IsCollected (Meets : Readings → List Task → Type 0) (snapshot : Snapshot) : Type 0 where
  pub time : ℤ
  pub readings : Readings
  pub order : List Task
  pub met : Meets readings order
  pub made : snapshot ≡ (collect time readings order).0

module _ (fl : Floats) (cedar : Cedar) (env : Env) (d : Daemon fl cedar env)
    (Made : Snapshot → Type 0) where
  -- The engine has made the decision, of a snapshot with `Made`.
  abbrev pub IsEvaluated : Decision → Type 0
  IsEvaluated e =
      (snapshot : Snapshot) × Made snapshot × Memᴰ e (evaluate fl cedar d.engine snapshot)

  pub evaluate-IsEvaluated :
      (snapshot : Snapshot) → Made snapshot → All IsEvaluated (evaluate fl cedar d.engine snapshot)
  evaluate-IsEvaluated snapshot made = All_of_Memᴰ IsEvaluated _ (λ e m. (snapshot, made, m))

-- `Q` of the collection of a tick
module _ (fl : Floats) (cedar : Cedar) (env : Env) (Q : Readings → List Task → Type 0) where
  abbrev pub OnTick : Tick fl cedar env → Type 0
  OnTick (periodic r order) = Q r order
  OnTick (load_poll load r order) = Q r order

module _ (fl : Floats) (cedar : Cedar) (env : Env) (d : Daemon fl cedar env)
    (R : State → State → Type 0) (coarse : IsCoarse R) where
  -- With `P` of the decisions.
  module _ (P : Decision → Type 0)
      (handle : (e : Decision) (snapshot : Snapshot) (s : State)
        → e.triggered ≡ true
        → P e
        → R s (handle_triggered fl cedar env d e snapshot s)) where
    pub handle_decision-Meeting :
        (snapshot : Snapshot) (e : Decision) (s : State)
        → P e
        → R s (handle_decision fl cedar env d snapshot e s)
    unfolding handle_decision
    handle_decision-Meeting snapshot e s h =
        let count = record_policy_evaluation e.policy_name in
        let w = coarse.watch s (with_metrics count s) (with_metrics-Watches count s) in
        if_intro (R s) (not e.triggered) _ _ (λ idle. w)
          (λ fired.
            coarse.join s (with_metrics count s) _ w
              (handle e snapshot (with_metrics count s) (ground (arith, fired)) h))

    pub handle_decisions-Meeting :
        (snapshot : Snapshot) (es : List Decision) (s : State)
        → All P es
        → R s (handle_decisions fl cedar env d snapshot es s)
    unfolding handle_decisions
    handle_decisions-Meeting snapshot [] s h = coarse.watch s s (Watches-refl s)
    handle_decisions-Meeting snapshot (e ∷ es) s h =
        let s' = handle_decision fl cedar env d snapshot e s in
        coarse.join s s' _ (handle_decision-Meeting snapshot e s h.0)
          (handle_decisions-Meeting snapshot es s' h.1)

  -- The same, where `P` of the decisions follows from `Q` of a collection.
  module _ (P : Decision → Type 0)
      (handle : (e : Decision) (snapshot : Snapshot) (s : State)
        → e.triggered ≡ true
        → P e
        → R s (handle_triggered fl cedar env d e snapshot s))
      (Q : Readings → List Task → Type 0)
      (sound : (time : ℤ) (r : Readings) (order : List Task)
        → Q r order
        → All P (evaluate fl cedar d.engine (collect time r order).0)) where
    checked-Meeting :
        (trigger : String) (r : Readings) (order : List Task) (s : State)
        → Q r order
        → R s (checked fl cedar env d trigger r order s)
    unfolding checked
    checked-Meeting trigger r order s h =
        let ((start, snapshot, es), s') = publish fl cedar env d trigger r order s in
        let done = handle_decisions fl cedar env d snapshot es s' in
        coarse.join s s' _ (coarse.watch s s' (publish-Watches fl cedar env d trigger r order s)) (
          coarse.join s' done _
            (handle_decisions-Meeting P handle snapshot es s' (sound _ r order h))
            (coarse.watch done _ (record_duration-Watches fl cedar env start done)))

    pub run_check-Meeting :
        (trigger : String) (r : Readings) (order : List Task) (s : State)
        → Q r order
        → R s (run_check fl cedar env d trigger r order s)
    unfolding run_check
    run_check-Meeting trigger r order s h =
        let held = record s { checking = true } in
        let done = checked fl cedar env d trigger r order held in
        if_intro (R s) s.checking _ _ (λ busy. coarse.watch s s (Watches-refl s))
          (λ free.
            coarse.join s held _
              (coarse.watch s held (record { quiet = Adds-refl IsQuiet s.trace; triggers = refl }))
              (coarse.join held done _ (checked-Meeting trigger r order held h) (
                coarse.watch done _
                  (record { quiet = Adds-refl IsQuiet done.trace; triggers = refl }))))

    tick-Meeting :
        (t : Tick fl cedar env) (s : State)
        → OnTick fl cedar env Q t
        → R s (tick fl cedar env d t s)
    unfolding tick check_load_trigger
    tick-Meeting (periodic r order) s h = run_check-Meeting "periodic" r order s h
    tick-Meeting (load_poll (err e) r order) s h = coarse.watch s s (Watches-refl s)
    tick-Meeting (load_poll (ok load) r order) s h =
        if_intro (R s) (fle d.config.load_threshold load.load1) _ _
          (λ high. run_check-Meeting "load-triggered" r order s h)
          (λ low. coarse.watch s s (Watches-refl s))

    pub ticks-Meeting :
        (ts : List (Tick fl cedar env)) (s : State)
        → All (OnTick fl cedar env Q) ts
        → R s (ticks fl cedar env d ts s)
    unfolding ticks
    ticks-Meeting [] s h = coarse.watch s s (Watches-refl s)
    ticks-Meeting (t ∷ ts) s (h, hs) =
        let s' = tick fl cedar env d t s in
        coarse.join s s' _ (tick-Meeting t s h) (ticks-Meeting ts s' hs)

    pub run-Meeting :
        (r : Readings) (order : List Task) (ts : List (Tick fl cedar env)) (s : State)
        → Q r order
        → All (OnTick fl cedar env Q) ts
        → R s (run fl cedar env d r order ts s)
    unfolding run
    run-Meeting r order ts s h hs =
        let s' = run_check fl cedar env d "startup" r order s in
        coarse.join s s' _ (run_check-Meeting "startup" r order s h) (ticks-Meeting ts s' hs)

  -- The same where nothing is asked of the decisions.
  module _
      (handle : (e : Decision) (snapshot : Snapshot) (s : State)
        → e.triggered ≡ true
        → R s (handle_triggered fl cedar env d e snapshot s)) where
    abbrev Anyhow : Readings → List Task → Type 0
    Anyhow r order = Unit

    abbrev Any : Decision → Type 0
    Any e = Unit

    handled :
        (e : Decision) (snapshot : Snapshot) (s : State)
        → e.triggered ≡ true
        → Any e
        → R s (handle_triggered fl cedar env d e snapshot s)
    handled e snapshot s on h = handle e snapshot s on

    evaluated :
        (time : ℤ) (r : Readings) (order : List Task)
        → Anyhow r order
        → All Any (evaluate fl cedar d.engine (collect time r order).0)
    evaluated time r order h = All_of_Memᴰ Any _ (λ e m. tt)

    pub run_check-Related :
        (trigger : String) (r : Readings) (order : List Task) (s : State)
        → R s (run_check fl cedar env d trigger r order s)
    run_check-Related trigger r order s =
        run_check-Meeting Any handled Anyhow evaluated trigger r order s tt

    always : (t : Tick fl cedar env) → OnTick fl cedar env Anyhow t
    always (periodic r order) = tt
    always (load_poll load r order) = tt

    pub ticks-Related :
        (ts : List (Tick fl cedar env)) (s : State) → R s (ticks fl cedar env d ts s)
    ticks-Related ts s =
        ticks-Meeting Any handled Anyhow evaluated ts s (All_of_Memᴰ _ ts (λ t m. always t))

    pub run-Related :
        (r : Readings) (order : List Task) (ts : List (Tick fl cedar env)) (s : State)
        → R s (run fl cedar env d r order ts s)
    run-Related r order ts s =
        run-Meeting Any handled Anyhow evaluated r order ts s tt
          (All_of_Memᴰ _ ts (λ t m. always t))
