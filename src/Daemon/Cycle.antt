-- ===== src/Daemon/Cycle.antt =====
-- What one cycle of internal/daemon/daemon.go leaves as it was, and what it publishes.
use mathlib.Core.List.{Permᴰ}
use workloadguard.Base.{
  ℤ, true, false, not, String, string_eq, List, [], ◌∷◌, some, ok, err, ◌≡◌, refl, ◌∙◌, arith,
  Bool-cases, if_intro, inl, inr, All,
}
use workloadguard.Float.{Floats, fle}
use workloadguard.Collector.{Snapshot, Readings, Task, collect}
use workloadguard.Collector.Interleaving.{all_tasks}
use workloadguard.Collector.Index.{IsIndexed, collect-IsIndexed}
use workloadguard.System.{Env, now, read_clock}
use workloadguard.Metrics.{Metrics, record_check, record_policy_trigger, record_policy_evaluation}
use workloadguard.Policy.Executor.{execute}
use workloadguard.Policy.Cedar.{Cedar}
use workloadguard.Policy.Engine.{Decision, evaluate}
use workloadguard.Daemon.{
  State, Daemon, Tick, periodic, load_poll, fresh, with_metrics, is_on_cooldown, record_trigger,
  capture_diagnostics, act, fire, after_execute, handle_triggered, handle_decision,
  handle_decisions, record_duration, checked, run_check, check_load_trigger, tick, ticks, run,
}

-- What the handling of decisions does not touch.
pub record Kept (s s' : State) : Type 0 where
  pub snapshot : s'.latest_snapshot ≡ s.latest_snapshot
  pub decisions : s'.latest_decisions ≡ s.latest_decisions
  pub lock : s'.checking ≡ s.checking

pub Kept-refl : (s : State) → Kept s s
Kept-refl s = record { snapshot = refl; decisions = refl; lock = refl }

pub Kept-trans : {s t u : State} → Kept s t → Kept t u → Kept s u
Kept-trans h k = record {
  snapshot = k.snapshot ∙ h.snapshot;
  decisions = k.decisions ∙ h.decisions;
  lock = k.lock ∙ h.lock;
}

pub with_metrics-Kept : (f : Metrics → Metrics) (s : State) → Kept s (with_metrics f s)
unfolding with_metrics
with_metrics-Kept f s = ground arith

module _ (fl : Floats) (cedar : Cedar) (env : Env) (d : Daemon fl cedar env) where
  pub is_on_cooldown-Kept :
      (name : String) (s : State) → Kept s (is_on_cooldown fl cedar env d name s).1
  unfolding is_on_cooldown
  is_on_cooldown-Kept name s = ground arith

  record_trigger-Kept : (name : String) (s : State) → Kept s (record_trigger fl cedar env name s)
  unfolding record_trigger
  record_trigger-Kept name s = ground arith

  capture_diagnostics-Kept :
      (decision : Decision) (snapshot : Snapshot) (s : State)
      → Kept s (capture_diagnostics fl cedar env d decision snapshot s)
  unfolding capture_diagnostics
  capture_diagnostics-Kept decision snapshot s = ground arith

  after_execute-Kept :
      (decision : Decision) (errs : List String) (s : State)
      → Kept s (after_execute fl cedar env decision errs s)
  after_execute-Kept decision [] s =
      Kept-trans (with_metrics-Kept _ s) (record_trigger-Kept decision.policy_name _)
  after_execute-Kept decision (e ∷ errs) s = Kept-refl s

  act-Kept :
      (decision : Decision) (snapshot : Snapshot) (s : State)
      → Kept s (act fl cedar env d decision snapshot s)
  unfolding act
  act-Kept decision snapshot s =
      let r = execute env d.config decision snapshot s.trace in
      let k = after_execute-Kept decision r.0 (record s { trace = r.1 }) in
      if_intro (Kept s) d.config.dry_run _ _ (λ dry. Kept-refl s)
        (λ wet. record { snapshot = k.snapshot; decisions = k.decisions; lock = k.lock })

  fire-Kept :
      (decision : Decision) (snapshot : Snapshot) (s : State)
      → Kept s (fire fl cedar env d decision snapshot s)
  unfolding fire
  fire-Kept decision snapshot s =
      let counted = with_metrics (record_policy_trigger decision.policy_name) s in
      Kept-trans (with_metrics-Kept (record_policy_trigger decision.policy_name) s) (
        Kept-trans (capture_diagnostics-Kept decision snapshot counted) (
          act-Kept decision snapshot
            (capture_diagnostics fl cedar env d decision snapshot counted)))

  handle_triggered-Kept :
      (decision : Decision) (snapshot : Snapshot) (s : State)
      → Kept s (handle_triggered fl cedar env d decision snapshot s)
  unfolding handle_triggered
  handle_triggered-Kept decision snapshot s =
      let r = is_on_cooldown fl cedar env d decision.policy_name s in
      elim (Bool-cases r.0) [
        | inl cooling ↦ rw cooling (is_on_cooldown-Kept decision.policy_name s)
        | inr ready ↦ rw ready (
            Kept-trans (is_on_cooldown-Kept decision.policy_name s)
              (fire-Kept decision snapshot r.1))
      ]

  pub handle_decision-Kept :
      (snapshot : Snapshot) (decision : Decision) (s : State)
      → Kept s (handle_decision fl cedar env d snapshot decision s)
  unfolding handle_decision
  handle_decision-Kept snapshot decision s =
      let s' = with_metrics (record_policy_evaluation decision.policy_name) s in
      let k = with_metrics-Kept (record_policy_evaluation decision.policy_name) s in
      if_intro (Kept s) (not decision.triggered) _ _ (λ idle. k)
        (λ fired. Kept-trans k (handle_triggered-Kept decision snapshot s'))

  handle_decisions-Kept :
      (snapshot : Snapshot) (decisions : List Decision) (s : State)
      → Kept s (handle_decisions fl cedar env d snapshot decisions s)
  unfolding handle_decisions
  handle_decisions-Kept snapshot [] s = Kept-refl s
  handle_decisions-Kept snapshot (decision ∷ decisions) s =
      Kept-trans (handle_decision-Kept snapshot decision s) (
        handle_decisions-Kept snapshot decisions
          (handle_decision fl cedar env d snapshot decision s))

  -- What the API's readers can rely on: no check is under way, and if one has been made, the
  -- decisions are the evaluation of the snapshot beside them, whose index of processes is right.
  pub record IsPublished (s : State) : Type 0 where
    pub snapshot : Snapshot
    pub unlocked : s.checking ≡ false
    pub latest : s.latest_snapshot ≡ some snapshot
    pub decisions : s.latest_decisions ≡ evaluate fl cedar d.engine snapshot
    pub indexed : IsIndexed snapshot

  pub record_duration-Kept : (start : ℤ) (s : State) → Kept s (record_duration fl cedar env start s)
  unfolding record_duration with_metrics
  record_duration-Kept start s = ground arith

  pub settled :
      (start : ℤ) (snapshot : Snapshot) (decisions : List Decision) (s : State)
      → Kept s (
          record_duration fl cedar env start (handle_decisions fl cedar env d snapshot decisions s))
  settled start snapshot decisions s =
      Kept-trans (handle_decisions-Kept snapshot decisions s)
        (record_duration-Kept start (handle_decisions fl cedar env d snapshot decisions s))

  run_check-IsPublished :
      (trigger : String) (r : Readings) {order : List Task} (s : State)
      → Permᴰ order all_tasks
      → s.checking ≡ false
      → IsPublished (run_check fl cedar env d trigger r order s)
  unfolding run_check checked
  run_check-IsPublished trigger r {order} s p free = rw free (record {
    snapshot = _;
    unlocked = refl;
    latest = (settled _ _ _ _).snapshot;
    decisions = (settled _ _ _ _).decisions;
    indexed = collect-IsIndexed _ r p;
  })

  -- The decisions of a check are those of the snapshot that it takes.
  pub run_check-decisions :
      (trigger : String) (r : Readings) (order : List Task) (s : State)
      → s.checking ≡ false
      → (run_check fl cedar env d trigger r order s).latest_decisions
        ≡ evaluate fl cedar d.engine
            (collect
              (env.clock
                (with_metrics
                  (record_check trigger)
                  (record s { trace = read_clock ∷ s.trace; checking = true })).trace)
              r
              order).0
  unfolding run_check checked now
  run_check-decisions trigger r order s free = rw free (settled _ _ _ _).decisions

  -- The goroutines of a tick's collections end in some order.
  abbrev pub IsScheduled : Tick fl cedar env → Type 0
  IsScheduled (periodic r order) = Permᴰ order all_tasks
  IsScheduled (load_poll load r order) = Permᴰ order all_tasks

  tick-IsPublished :
      (t : Tick fl cedar env) (s : State)
      → IsScheduled t
      → IsPublished s
      → IsPublished (tick fl cedar env d t s)
  unfolding tick check_load_trigger
  tick-IsPublished (periodic r order) s p h = run_check-IsPublished "periodic" r s p h.unlocked
  tick-IsPublished (load_poll (err e) r order) s p h = h
  tick-IsPublished (load_poll (ok load) r order) s p h =
      if_intro IsPublished (fle d.config.load_threshold load.load1) _ _
        (λ high. run_check-IsPublished "load-triggered" r s p h.unlocked) (λ low. h)

  ticks-IsPublished :
      (ts : List (Tick fl cedar env)) (s : State)
      → All IsScheduled ts
      → IsPublished s
      → IsPublished (ticks fl cedar env d ts s)
  unfolding ticks
  ticks-IsPublished [] s ps h = h
  ticks-IsPublished (t ∷ ts) s (p, ps) h =
      ticks-IsPublished ts (tick fl cedar env d t s) ps (tick-IsPublished t s p h)

  -- Whatever the system answers, whatever wakes the loop and in whatever order the collector's
  -- goroutines finish: `Run` leaves the check's lock free, and the snapshot and the decisions that
  -- it publishes belong together, over an index of processes that is right.
  pub run-IsPublished :
      (r : Readings) {order : List Task} (ts : List (Tick fl cedar env))
      → Permᴰ order all_tasks
      → All IsScheduled ts
      → IsPublished (run fl cedar env d r order ts fresh)
  unfolding run
  run-IsPublished r {order} ts p ps =
      ticks-IsPublished ts (run_check fl cedar env d "startup" r order fresh) ps
        (run_check-IsPublished "startup" r fresh p refl)
