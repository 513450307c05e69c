-- ===== src/App/Serving/Refinement.antt =====
-- A run with the API as a machine of few moves: what a client of the whole application may rely on
-- (internal/app, internal/api and internal/daemon), with the snapshot, the metrics, the lock and the
-- server forgotten.
use mathlib.Core.List.{Memᴰ}
use workloadguard.Base.{
  ℤ, Bool, true, false, String, List, [], ◌∷◌, Option, none, some, ok, ◌≡◌, refl, sym, subst, ◌∙◌,
  All, if◌then◌else◌,
}
use workloadguard.Base.Dict.{Dict}
use workloadguard.Float.{Floats}
use workloadguard.Collector.{Snapshot, Readings, Task}
use workloadguard.System.{Env, Trace}
use workloadguard.System.Emits.{Adds}
use workloadguard.Policy.Cedar.{Cedar}
use workloadguard.Policy.Engine.{Decision, evaluate}
use workloadguard.Policy.Executor.{term, kill}
use workloadguard.Policy.Executor.Signals.{SignalsOf}
use workloadguard.Daemon.{State, Daemon, perform, terminate, count_termination, handle_decision}
use workloadguard.Daemon.Provider.{daemon_provider, daemon_clock}
use workloadguard.Daemon.Watching.{IsCoarse, with_metrics-triggers}
use workloadguard.Daemon.Termination.{terminate-SignalsOf}
use workloadguard.Daemon.Runs.{IsCollected, IsEvaluated, handle_decision-Meeting}
use workloadguard.Daemon.Refinement.{
  Machine, view, Move, Moves, stay, step, IsFired, Watches-Moves, handle_triggered-Refines,
}
use workloadguard.Api.{Server, Wire}
use workloadguard.Api.Handlers.{is_known}
use workloadguard.Api.Routing.{ApiEvent, api_event, serve}
use workloadguard.Api.Routing.Effects.{api_event-Related}
use workloadguard.Api.Routing.Terminating.{handle_terminate_keeps}
use workloadguard.App.{RunOptions, set_up}
use workloadguard.App.Serving.{serves_api, Running, Reach}
use workloadguard.App.Serving.Related.{Reach-Related}

module _ (fl : Floats) (cedar : Cedar) (env : Env) where
  pub terminate-triggers :
      (force : Bool) (pids : List ℤ) (s : State)
      → (terminate fl cedar env force pids s).1.last_trigger ≡ s.last_trigger
  unfolding terminate
  terminate-triggers force [] s = refl
  terminate-triggers force (pid ∷ pids) s =
      let r = perform (if force then kill env pid else term env pid) s in
      terminate-triggers force pids (count_termination fl cedar env force r.0 r.1) ∙ counted r.0 r.1
    where
      counted :
          (failed : Option String) (c : State)
          → (count_termination fl cedar env force failed c).last_trigger ≡ c.last_trigger
      counted (some e) c = refl
      counted none c = with_metrics-triggers _ c

  module _ (d : Daemon fl cedar env) (Meets : Readings → List Task → Type 0) where
    abbrev Fires : Decision → Type 0
    Fires = IsFired fl cedar env d (IsCollected Meets)

    -- The moves of the application: those of the daemon, and outside of a dry run a termination,
    -- which signals only PIDs that the snapshot of one collection knows, and records no trigger.
    pub data AppMove : Machine → Machine → Type 0 where
      cycle : {a b : Machine} → Move env d.config.cooldown Fires a b → AppMove a b
      end_all :
          {m : Dict String ℤ} {t u : Trace} (snapshot : Snapshot) (pids : List ℤ)
          → d.config.dry_run ≡ false
          → IsCollected Meets snapshot
          → All (λ pid. is_known snapshot pid ≡ true) pids
          → Adds (SignalsOf pids) t u
          → AppMove
              (record { last_trigger = m; trace = t })
              (record { last_trigger = m; trace = u })

    pub data AppMoves : Machine → Machine → Type 0 where
      rest : {a : Machine} → AppMoves a a
      more : {a b c : Machine} → AppMove a b → AppMoves b c → AppMoves a c

    AppMoves-trans : {a b c : Machine} → AppMoves a b → AppMoves b c → AppMoves a c
    AppMoves-trans rest k = k
    AppMoves-trans (more m ms) k = more m (AppMoves-trans ms k)

    Moves-AppMoves : {a b : Machine} → Moves env d.config.cooldown Fires a b → AppMoves a b
    Moves-AppMoves stay = rest
    Moves-AppMoves (step m ms) = more (cycle m) (Moves-AppMoves ms)

    abbrev pub AppRefines : State → State → Type 0
    AppRefines s s' = AppMoves (view s) (view s')

    AppRefines-IsCoarse : IsCoarse AppRefines
    AppRefines-IsCoarse = record {
      watch = λ s s' w. Moves-AppMoves (Watches-Moves env d.config.cooldown Fires w);
      join = λ s t u h k. AppMoves-trans h k;
    }

    terminated :
        (s : State) (snapshot : Snapshot) (force : Bool) (pids : List ℤ)
        → IsCollected Meets snapshot
        → All (λ pid. is_known snapshot pid ≡ true) pids
        → d.config.dry_run ≡ false
        → AppRefines s (terminate fl cedar env force pids s).1
    terminated s snapshot force pids made known wet =
        let after = (terminate fl cedar env force pids s).1 in
        subst (λ m. AppMoves (view s) (record { last_trigger = m; trace = after.trace }))
          (sym (terminate-triggers force pids s))
          (more
            (end_all snapshot pids wet made known (terminate-SignalsOf fl cedar env force pids s))
            rest)

    module _ (wire : Wire) where
      handled :
          (snapshot : Snapshot) (e : Decision) (s : State)
          → IsCollected Meets snapshot
          → Memᴰ e (evaluate fl cedar d.engine snapshot)
          → AppRefines s (handle_decision fl cedar env d snapshot e s)
      handled snapshot e s made m =
          handle_decision-Meeting fl cedar env d AppRefines AppRefines-IsCoarse
            (IsEvaluated fl cedar env d (IsCollected Meets))
            (λ e snapshot s on by.
              Moves-AppMoves
                (handle_triggered-Refines fl cedar env d (IsCollected Meets) e snapshot s on by))
            snapshot e s (snapshot, made, m)

      answered :
          (e : ApiEvent) (s : State) (v : Server)
          → ((snapshot : Snapshot) → s.latest_snapshot ≡ some snapshot → IsCollected Meets snapshot)
          → AppRefines s
              (api_event (daemon_provider fl cedar env d) (daemon_clock env) wire e (s, v)).0
      unfolding serve
      answered e s v made =
          api_event-Related fl cedar env d wire AppRefines
            (λ s s' r. AppRefines-IsCoarse.watch s s' r.watches) s v
            (λ o.
              handle_terminate_keeps fl cedar env d wire (AppRefines s) s v rest
                (λ snapshot force pids latest known wet.
                  terminated s snapshot force pids (made snapshot latest) known wet)
                o)
            e

  -- Every run that `Run` sets up, at every moment, whatever happens at the server and however that
  -- interleaves with the checks, is a sequence of the application's moves from the state that it
  -- begins with. Processes are touched only for a triggered decision that the engine has made of the
  -- snapshot of a collection that meets `Meets`, as all those of the run do: those that the decision
  -- lists, while its policy is due. Or, outside of a dry run, by a termination, of PIDs that the
  -- snapshot of one such collection knows. Only the former records a trigger.
  pub serving-AppRefines :
      (o : RunOptions) (d : Daemon fl cedar env) (s : State) (patterns : List String) (wire : Wire)
      (Meets : Readings → List Task → Type 0) {a : Running}
      → set_up fl cedar env o ≡ ok (d, s, patterns)
      → Reach fl cedar env d wire (serves_api o) Meets s a
      → AppRefines d Meets s a.1.0
  serving-AppRefines o d s patterns wire Meets up reach =
      Reach-Related fl cedar env d (AppRefines d Meets) (AppRefines-IsCoarse d Meets)
        (IsCollected Meets) wire (handled d Meets wire) (answered d Meets wire) (serves_api o) Meets
        (λ time r order met. record {
          time = time;
          readings = r;
          order = order;
          met = met;
          made = refl;
        })
        o s patterns up reach
