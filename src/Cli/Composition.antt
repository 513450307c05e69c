-- ===== src/Cli/Composition.antt =====
-- What `validate` and the flags of `run` (internal/cli) promise of the daemon that `run` starts.
use workloadguard.Base.{
  ℤ, pos, Bool, true, false, String, string_eq, List, [], Option, none, some, Outcome, ok, err, ◌≡◌,
  ◌≢◌, refl, sym, subst, ap, ◌∙◌, arith, ◌<ℤ◌, ltb_ℤ, ◌&&◌, All, if_intro,
}
use workloadguard.Float.{Float64, Floats}
use workloadguard.Config.{
  Config, ConfigError, ReadResult, Unmarshalled, LoadResult, loaded, read_failed, parse_failed,
  load,
}
use workloadguard.Config.Validity.{IsValid, validate_iff}
use workloadguard.System.{Env}
use workloadguard.System.Emits.{Adds-refl}
use workloadguard.Metrics.{Metrics}
use workloadguard.Policy.Cedar.{Cedar}
use workloadguard.Policy.Executor.Signals.{IsQuiet}
use workloadguard.Daemon.{Daemon, State, periodic, load_poll, fresh, set_metrics}
use workloadguard.Daemon.Watching.{Watches, Watches-refl, Watches-trans}
use workloadguard.Base.Members.{All_of_Memᴰ}
use workloadguard.Api.{Server, Wire}
use workloadguard.App.{RunOptions, give_metrics, set_up, validate_config}
use workloadguard.App.Serving.{serves_api, ticking}
use workloadguard.App.Serving.Safety.{Anyhow, serving-Watches}
use workloadguard.App.Serving.Schedule.{
  Ended, failed, panicked, stopped, Happening, wakes_loop, goes_on, at_server, Schedule, loop,
  run_loop, after_set_up, run_app,
}
use workloadguard.App.Serving.Schedule.Reached.{HappeningMeets, serve_all-Reach, loop-Reach}
use workloadguard.App.Running.{set_up_ok}
use workloadguard.Cli.{
  RunFlags, accepted, validated, after_load, run_validate, config_path, with_dry_run, run_options,
  launched, run_daemon,
}

-- What is accepted has been loaded and is valid.
validated-accepted :
    (duration_text : ℤ → String) (fixed1 : Float64 → String) (path : String) (cfg : Config)
    (o : Option ConfigError) (lines : List String)
    → validated duration_text fixed1 path cfg o ≡ accepted lines
    → o ≡ none
validated-accepted duration_text fixed1 path cfg none lines h = refl
validated-accepted duration_text fixed1 path cfg (some e) lines h = ground (arith, h)

after_load-accepted :
    (duration_text : ℤ → String) (fixed1 : Float64 → String) (path : String) (l : LoadResult)
    (lines : List String)
    → after_load duration_text fixed1 path l ≡ accepted lines
    → (cfg : Config) × (l ≡ loaded cfg) × IsValid cfg
unfolding validate_config
after_load-accepted duration_text fixed1 path (loaded cfg) lines h = (
  cfg,
  refl,
  (validate_iff cfg).0
      (validated-accepted duration_text fixed1 path cfg (validate_config cfg) lines h),
)
after_load-accepted duration_text fixed1 path (read_failed e) lines h = ground (arith, h)
after_load-accepted duration_text fixed1 path (parse_failed e) lines h = ground (arith, h)

with_dry_run-intervals :
    (flag : Bool) (cfg : Config)
    → IsValid cfg
    → (pos 0 <ℤ (with_dry_run flag cfg).periodic_interval)
      × (pos 0 <ℤ (with_dry_run flag cfg).load_poll_interval)
unfolding with_dry_run
with_dry_run-intervals true cfg v = (omega (arith, v.periodic), omega (arith, v.polled))
with_dry_run-intervals false cfg v = (omega (arith, v.periodic), omega (arith, v.polled))

-- Where the daemon was started, it has left every process alone.
abbrev pub IsDry : Ended → Type 0
IsDry (failed e) = Unit
IsDry (panicked sv) = Watches fresh sv.0
IsDry (stopped sv) = Watches fresh sv.0

module _ (fl : Floats) (cedar : Cedar) (env : Env) where
  give_metrics-Watches : (m : Option Metrics) → Watches fresh (give_metrics fl cedar env m fresh)
  unfolding set_metrics
  give_metrics-Watches none = Watches-refl fresh
  give_metrics-Watches (some m) = record { quiet = Adds-refl IsQuiet []; triggers = refl }

  module _ (wire : Wire) (sch : Schedule fl cedar env) where
    always :
        (d : Daemon fl cedar env) (served : Bool) (s : State)
        → All (HappeningMeets fl cedar env d wire served (Anyhow fl cedar env) s) sch.happenings
    always d served s = All_of_Memᴰ _ sch.happenings (λ h m. any h)
      where
        any :
            (h : Happening fl cedar env)
            → HappeningMeets fl cedar env d wire served (Anyhow fl cedar env) s h
        any (wakes_loop (periodic r order)) = tt
        any (wakes_loop (load_poll load r order)) = tt
        any goes_on = tt
        any (at_server e) = tt

    run_loop-IsDry :
        (o : RunOptions) (d : Daemon fl cedar env) (s : State) (patterns : List String)
        → o.config.dry_run ≡ true
        → set_up fl cedar env o ≡ ok (d, s, patterns)
        → IsDry (run_loop fl cedar env d wire (serves_api o) sch s)
    unfolding run_loop
    run_loop-IsDry o d s patterns dry up =
        let (same, first) = set_up_ok fl cedar env o d s patterns up in
        let a = loop fl cedar env d wire (serves_api o) sch s in
        let reach =
          serve_all-Reach fl cedar env d wire (serves_api o) (Anyhow fl cedar env) s sch.late a (
            loop-Reach fl cedar env d wire (serves_api o) (Anyhow fl cedar env) s sch tt
              (always d (serves_api o) s)) in
        let quiet =
          Watches-trans (subst (Watches fresh) (sym first) (give_metrics-Watches o.metrics))
            (serving-Watches fl cedar env o d s patterns wire dry up reach) in
        if_intro IsDry (ticking fl cedar env d) _ _ (λ on. quiet) (λ off. quiet)

    run_app-IsDry :
        (o : RunOptions) → o.config.dry_run ≡ true → IsDry (run_app fl cedar env wire o sch)
    unfolding run_app
    run_app-IsDry o dry = go (set_up fl cedar env o) refl
      where
        go :
            (n : Outcome (Daemon fl cedar env × State × List String))
            → set_up fl cedar env o ≡ n
            → IsDry (after_set_up fl cedar env wire (serves_api o) sch n)
        go (err e) up = tt
        go (ok (d, s, patterns)) up = run_loop-IsDry o d s patterns dry up

    launched-IsDry :
        (f : RunFlags) (l : LoadResult)
        → f.dry_run ≡ true
        → IsDry (launched fl cedar env wire f sch l)
    unfolding run_options with_dry_run
    launched-IsDry f (loaded cfg) dry =
        run_app-IsDry (run_options f cfg) (ap (λ b. (with_dry_run b cfg).dry_run) dry)
    launched-IsDry f (read_failed e) dry = tt
    launched-IsDry f (parse_failed e) dry = tt

    run_loop-fine :
        (d : Daemon fl cedar env) (served : Bool) (s : State) (end : State × Server)
        → pos 0 <ℤ d.config.periodic_interval
        → pos 0 <ℤ d.config.load_poll_interval
        → run_loop fl cedar env d wire served sch s ≢ panicked end
    unfolding run_loop ticking
    run_loop-fine d served s end p q =
        if_intro (λ (e : Ended). e ≢ panicked end)
          (ltb_ℤ (pos 0) d.config.periodic_interval && ltb_ℤ (pos 0) d.config.load_poll_interval) _
          _ (λ on h. ground (arith, h)) (λ off. absurd (ground (arith, off, p, q)))

    run_app-fine :
        (o : RunOptions) (end : State × Server)
        → pos 0 <ℤ o.config.periodic_interval
        → pos 0 <ℤ o.config.load_poll_interval
        → run_app fl cedar env wire o sch ≢ panicked end
    unfolding run_app
    run_app-fine o end p q = go (set_up fl cedar env o) refl
      where
        go :
            (n : Outcome (Daemon fl cedar env × State × List String))
            → set_up fl cedar env o ≡ n
            → after_set_up fl cedar env wire (serves_api o) sch n ≢ panicked end
        go (err e) up = λ h. ground (arith, h)
        go (ok (d, s, patterns)) up =
            let same = (set_up_ok fl cedar env o d s patterns up).0 in
            run_loop-fine d (serves_api o) s end
              (subst (λ (c : Config). pos 0 <ℤ c.periodic_interval) (sym same) p)
              (subst (λ (c : Config). pos 0 <ℤ c.load_poll_interval) (sym same) q)

  -- With the flag `--dry-run` the command `run` looks up, signals and waits for no process, and
  -- records no trigger, however it ends: whatever the configuration file says, the other flags,
  -- `--api` and what is requested of the server among them, the system's answers and the ticks.
  pub run_daemon-IsDry :
      (read_file : String → ReadResult) (unmarshal : String → Config → Unmarshalled) (f : RunFlags)
      (home : Outcome String) (wire : Wire) (sch : Schedule fl cedar env)
      → f.dry_run ≡ true
      → IsDry (run_daemon fl cedar env read_file unmarshal f home wire sch)
  unfolding run_daemon
  run_daemon-IsDry read_file unmarshal f home wire sch dry =
      launched-IsDry wire sch f (load read_file unmarshal (config_path f.cfg_file home)) dry

  -- A configuration that `validate` accepts starts no ticker that panics: with the same path, home
  -- directory, file and parser, `run` does not end by a panic, whatever its other flags, what is
  -- requested of the server, the system's answers and the ticks.
  pub run_validate-run_daemon :
      (duration_text : ℤ → String) (fixed1 : Float64 → String) (read_file : String → ReadResult)
      (unmarshal : String → Config → Unmarshalled) (f : RunFlags) (home : Outcome String)
      (lines : List String) (wire : Wire) (sch : Schedule fl cedar env) (end : State × Server)
      → run_validate duration_text fixed1 read_file unmarshal f.cfg_file home ≡ accepted lines
      → run_daemon fl cedar env read_file unmarshal f home wire sch ≢ panicked end
  unfolding run_validate run_daemon run_options
  run_validate-run_daemon duration_text fixed1 read_file unmarshal f home lines wire sch end h =
      let path = config_path f.cfg_file home in
      let (cfg, found, valid) =
        after_load-accepted duration_text fixed1 path (load read_file unmarshal path) lines h in
      let (p, q) = with_dry_run-intervals f.dry_run cfg valid in
      λ e.
        run_app-fine wire sch (run_options f cfg) end p q
          (ap (launched fl cedar env wire f sch) (sym found) ∙ e)
