-- ===== src/App/Running.antt =====
-- What `Run` of internal/app/app.go sets up.
use workloadguard.Base.{List, ok, err, Outcome, ◌≡◌, arith, String, sym, ap}
use workloadguard.Float.{Floats}
use workloadguard.System.{Env}
use workloadguard.Policy.Cedar.{Cedar}
use workloadguard.Policy.Engine.{Engine, new_engine}
use workloadguard.Config.{Config}
use workloadguard.Daemon.{Daemon, State, fresh, with_engine, new}
use workloadguard.App.{RunOptions, give_metrics, started, set_up}

module _ (fl : Floats) (cedar : Cedar) (env : Env) where
  -- What `Run` sets up is the daemon of the configuration, and its first state.
  pub set_up_ok :
      (o : RunOptions) (d : Daemon fl cedar env) (s : State) (patterns : List String)
      → set_up fl cedar env o ≡ ok (d, s, patterns)
      → (d.config ≡ o.config) × (s ≡ give_metrics fl cedar env o.metrics fresh)
  unfolding set_up new
  set_up_ok o d s patterns = go (new_engine fl cedar o.config.policies)
    where
      Set : Type 0
      Set = Outcome (Daemon fl cedar env × State × List String)

      config_in : Set → Config
      config_in (err e) = o.config
      config_in (ok (d, s, l)) = d.config

      state_in : Set → State
      state_in (err e) = fresh
      state_in (ok (d, s, l)) = s

      go :
          (n : Outcome (Engine fl cedar))
          → started fl cedar env o (with_engine fl cedar env o.config n) ≡ ok (d, s, patterns)
          → (d.config ≡ o.config) × (s ≡ give_metrics fl cedar env o.metrics fresh)
      go (err e) up = ground (arith, up)
      go (ok engine) up = (sym (ap config_in up), sym (ap state_in up))
