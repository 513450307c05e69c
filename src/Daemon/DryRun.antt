-- ===== src/Daemon/DryRun.antt =====
-- internal/daemon/daemon.go with `dry_run`: what the daemon asks of the system.
use workloadguard.Base.{string_eq, true, String, List, ◌≡◌, if_intro, arith}
use workloadguard.Float.{Floats}
use workloadguard.Collector.{Snapshot, Readings, Task}
use workloadguard.System.{Env}
use workloadguard.Policy.Cedar.{Cedar}
use workloadguard.Policy.Engine.{Decision}
use workloadguard.Daemon.{
  State, Daemon, Tick, is_on_cooldown, act, fire, handle_triggered, run_check, run,
}
use workloadguard.Daemon.Watching.{
  Watches-IsCoarse, Watches, Watches-trans, is_on_cooldown-Watches, captured-Watches,
}
use workloadguard.Daemon.Runs.{run_check-Related, run-Related}

module _ (fl : Floats) (cedar : Cedar) (env : Env) (d : Daemon fl cedar env)
    (dry : d.config.dry_run ≡ true) where
  act_dry :
      (decision : Decision) (snapshot : Snapshot) (s : State)
      → act fl cedar env d decision snapshot s ≡ s
  unfolding act
  act_dry decision snapshot s = ground arith

  fire-Watches :
      (decision : Decision) (snapshot : Snapshot) (s : State)
      → Watches s (fire fl cedar env d decision snapshot s)
  unfolding fire
  fire-Watches decision snapshot s =
      rw (act_dry decision snapshot _) (captured-Watches fl cedar env d decision snapshot s)

  pub handle_triggered-Watches :
      (decision : Decision) (snapshot : Snapshot) (s : State)
      → Watches s (handle_triggered fl cedar env d decision snapshot s)
  unfolding handle_triggered
  handle_triggered-Watches decision snapshot s =
      let r = is_on_cooldown fl cedar env d decision.policy_name s in
      let h = is_on_cooldown-Watches fl cedar env d decision.policy_name s in
      if_intro (Watches s) r.0 _ _ (λ cooling. h)
        (λ ready. Watches-trans h (fire-Watches decision snapshot r.1))

  -- In a dry run a check, however it is triggered, looks up, signals and waits for no process, and
  -- records no trigger.
  pub run_check-Watches :
      (trigger : String) (r : Readings) (order : List Task) (s : State)
      → Watches s (run_check fl cedar env d trigger r order s)
  run_check-Watches =
      run_check-Related fl cedar env d Watches Watches-IsCoarse
        (λ e snapshot s on. handle_triggered-Watches e snapshot s)

  -- In a dry run the daemon looks up, signals and waits for no process, for any number of
  -- ticks, and records no trigger.
  pub run-Watches :
      (r : Readings) (order : List Task) (ts : List (Tick fl cedar env)) (s : State)
      → Watches s (run fl cedar env d r order ts s)
  run-Watches =
      run-Related fl cedar env d Watches Watches-IsCoarse
        (λ e snapshot s on. handle_triggered-Watches e snapshot s)
