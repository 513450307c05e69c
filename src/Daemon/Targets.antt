-- ===== src/Daemon/Targets.antt =====
-- Whom the daemon's signals reach (internal/daemon/daemon.go with the collector, the engine and the
-- executor).
use mathlib.Core.List.{Permᴰ}
use workloadguard.Base.{ℤ, String, List, [], ◌∷◌, map, ◌≡◌, sym, subst, All, All-mono, if_intro}
use workloadguard.Base.Filter.{filter_by, filter_by-All}
use workloadguard.Base.Members.{All-Memᴰ}
use workloadguard.Float.{Floats}
use workloadguard.Config.{Policy}
use workloadguard.Collector.{ProcessInfo, Snapshot, Readings, Task, collect}
use workloadguard.Collector.Interleaving.{all_tasks}
use workloadguard.Collector.Index.{IsIndexed, collect-IsIndexed}
use workloadguard.Collector.Listing.{Lists, HasPid, collect-HasPid}
use workloadguard.System.{Env, Event, signal, read_clock, now}
use workloadguard.System.Emits.{Adds, Adds-refl, Adds-trans, Adds-mono, Adds-one}
use workloadguard.Metrics.{record_policy_trigger}
use workloadguard.Policy.Cedar.{Cedar}
use workloadguard.Policy.Engine.{Decision, Engine, evaluate, evaluate_policy, policy_at}
use workloadguard.Policy.Engine.Selection.{counts}
use workloadguard.Policy.Engine.Trigger.{evaluate_policy_iff}
use workloadguard.Policy.Engine.Order.{evaluate_lem}
use workloadguard.Policy.Executor.{execute}
use workloadguard.Policy.Executor.Signals.{IsQuiet, SignalsOf, execute-SignalsOf}
use workloadguard.Daemon.Watching.{
  IsCoarse, Watches, Watches-trans, with_metrics-Watches, is_on_cooldown-Watches, captured-Watches,
}
use workloadguard.Daemon.Runs.{run-Meeting, OnTick}
use workloadguard.Daemon.{
  record_actions, State, Daemon, Tick, periodic, load_poll, with_metrics, is_on_cooldown,
  record_trigger, capture_diagnostics, after_execute, act, fire, handle_triggered, run,
}

module _ (Q : ℤ → Type 0) where
  -- Signals go to PIDs with `Q` only.
  abbrev pub SignalsTo : Event → Type 0
  SignalsTo (signal pid s) = Q pid
  SignalsTo _ = Unit

  IsQuiet-SignalsTo : (e : Event) → IsQuiet e → SignalsTo e
  IsQuiet-SignalsTo (signal pid s) h = absurd h
  IsQuiet-SignalsTo _ h = tt

  pub SignalsOf-SignalsTo :
      (pids : List ℤ) → All Q pids → (e : Event) → SignalsOf pids e → SignalsTo e
  SignalsOf-SignalsTo pids h (signal pid s) m = All-Memᴰ Q h m
  SignalsOf-SignalsTo pids h _ m = tt

  abbrev pub Reaches : State → State → Type 0
  Reaches s s' = Adds SignalsTo s.trace s'.trace

  pub Watches-Reaches : {s s' : State} → Watches s s' → Reaches s s'
  Watches-Reaches w = Adds-mono IsQuiet SignalsTo IsQuiet-SignalsTo w.quiet

  pub Reaches-IsCoarse : IsCoarse Reaches
  Reaches-IsCoarse = record {
    watch = λ s s' w. Watches-Reaches w;
    join = λ s t u h k. Adds-trans SignalsTo h k;
  }

  pids_of : (ps : List ProcessInfo) → All (HasPid Q) ps → All Q (map (λ p. p.pid) ps)
  pids_of [] h = tt
  pids_of (p ∷ ps) h = (h.0, pids_of ps h.1)

  module _ (fl : Floats) (cedar : Cedar) (e : Engine fl cedar) (s : Snapshot)
      (indexed : IsIndexed s) (h : All (HasPid Q) s.processes) where
    evaluate_policy-All :
        (name : String) (p : Policy) → All Q (evaluate_policy fl cedar e name p s).pids
    evaluate_policy-All name p =
        subst (All Q) (sym (evaluate_policy_iff fl cedar e name p s indexed).1) (
          if_intro (All Q) (evaluate_policy fl cedar e name p s).triggered _ _
            (λ fired.
              pids_of (filter_by (counts p) s.processes)
                (filter_by-All (HasPid Q) (counts p) s.processes h))
            (λ idle. tt))

    -- The PIDs of every decision are among those of the snapshot.
    pub evaluate-All : All (λ (d : Decision). All Q d.pids) (evaluate fl cedar e s)
    evaluate-All = go (evaluate fl cedar e s) (evaluate_lem fl cedar e s).2
      where
        go :
            (ds : List Decision)
            → All
                (λ (d : Decision).
                  d
                  ≡ evaluate_policy fl cedar e d.policy_name (policy_at e.policies d.policy_name) s)
                ds
            → All (λ (d : Decision). All Q d.pids) ds
        go [] k = tt
        go (d ∷ ds) k = (
          subst (λ (x : Decision). All Q x.pids) (sym k.0)
              (evaluate_policy-All d.policy_name (policy_at e.policies d.policy_name)),
          go ds k.1,
        )

  module _ (fl : Floats) (cedar : Cedar) (env : Env) (d : Daemon fl cedar env) where
    after_execute-Reaches :
        (e : Decision) (errs : List String) (s : State)
        → Reaches s (after_execute fl cedar env e errs s)
    unfolding record_trigger now
    after_execute-Reaches e (x ∷ errs) s = Adds-refl SignalsTo s.trace
    after_execute-Reaches e [] s =
        let counted = with_metrics (record_actions e.policy_name e.actions) s in
        Adds-trans SignalsTo
          (Watches-Reaches (with_metrics-Watches (record_actions e.policy_name e.actions) s))
          (Adds-one SignalsTo read_clock counted.trace tt)

    act-Reaches :
        (e : Decision) (snapshot : Snapshot) (s : State)
        → All Q e.pids
        → Reaches s (act fl cedar env d e snapshot s)
    unfolding act
    act-Reaches e snapshot s h =
        let r = execute env d.config e snapshot s.trace in
        if_intro (Reaches s) d.config.dry_run _ _ (λ dry. Adds-refl SignalsTo s.trace)
          (λ wet.
            Adds-trans SignalsTo
              (Adds-mono (SignalsOf e.pids) SignalsTo (SignalsOf-SignalsTo e.pids h)
                (execute-SignalsOf env d.config e snapshot s.trace))
              (after_execute-Reaches e r.0 (record s { trace = r.1 })))

    pub handle_triggered-Reaches :
        (e : Decision) (snapshot : Snapshot) (s : State)
        → All Q e.pids
        → Reaches s (handle_triggered fl cedar env d e snapshot s)
    unfolding handle_triggered fire
    handle_triggered-Reaches e snapshot s h =
        let r = is_on_cooldown fl cedar env d e.policy_name s in
        let counted = with_metrics (record_policy_trigger e.policy_name) r.1 in
        let w = is_on_cooldown-Watches fl cedar env d e.policy_name s in
        if_intro (Reaches s) r.0 _ _ (λ cooling. Watches-Reaches w)
          (λ ready.
            Adds-trans SignalsTo
              (Watches-Reaches (Watches-trans w (captured-Watches fl cedar env d e snapshot r.1)))
              (act-Reaches e snapshot (capture_diagnostics fl cedar env d e snapshot counted) h))

    -- What a collection meets: some order of the goroutines, and PIDs with `Q`.
    abbrev pub Meets : Readings → List Task → Type 0
    Meets r order = Permᴰ order all_tasks × Lists Q r

    evaluate-Meets :
        (time : ℤ) (r : Readings) (order : List Task)
        → Meets r order
        → All (λ (e : Decision). All Q e.pids) (evaluate fl cedar d.engine (collect time r order).0)
    evaluate-Meets time r order (p, h) =
        evaluate-All fl cedar d.engine (collect time r order).0 (collect-IsIndexed time r p)
          (collect-HasPid Q r h time order)

    abbrev pub TickMeets : Tick fl cedar env → Type 0
    TickMeets (periodic r order) = Meets r order
    TickMeets (load_poll load r order) = Meets r order

    -- Whatever holds of the PIDs that the platform lists in each collection holds of every PID that
    -- the daemon signals, for any number of ticks and whatever the system answers.
    pub run-Reaches :
        (r : Readings) (order : List Task) (ts : List (Tick fl cedar env)) (s : State)
        → Meets r order
        → All TickMeets ts
        → Reaches s (run fl cedar env d r order ts s)
    run-Reaches r order ts s h hs =
        run-Meeting fl cedar env d Reaches Reaches-IsCoarse (λ e. All Q e.pids)
          (λ e snapshot s on h. handle_triggered-Reaches e snapshot s h) Meets evaluate-Meets r
          order ts s h (All-mono TickMeets _ ts on_tick hs)
      where
        on_tick : (t : Tick fl cedar env) → TickMeets t → OnTick fl cedar env Meets t
        on_tick (periodic r order) k = k
        on_tick (load_poll load r order) k = k
