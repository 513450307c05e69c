-- ===== src/App/Serving/Cooldown.antt =====
-- The cooldown of a policy during a run with the API (internal/daemon/daemon.go with internal/app and
-- internal/api).
use mathlib.Core.List.{Memᴰ}
use workloadguard.Base.{
  ℤ, pos, String, string_eq, List, ◌++◌, some, ok, ◌≡◌, refl, ap, ◌∙◌, inl, ◌≤ℤ◌,
}
use workloadguard.Base.Dict.{lookup}
use workloadguard.Float.{Floats}
use workloadguard.Collector.{Snapshot, Readings, Task}
use workloadguard.System.{Env, Trace}
use workloadguard.Policy.Cedar.{Cedar}
use workloadguard.Policy.Engine.{Decision, evaluate}
use workloadguard.Daemon.{State, Daemon, handle_decision}
use workloadguard.Daemon.Runs.{handle_decision-Meeting}
use workloadguard.Daemon.Cooldown.{
  Spaced-IsCoarse, IsKept, Spaced, Spaced-refl, Watches-Spaced, handle_triggered-IsKept,
}
use workloadguard.Daemon.Provider.{daemon_provider, daemon_clock}
use workloadguard.Api.{Server, Wire}
use workloadguard.Api.Routing.{ApiEvent, api_event, serve}
use workloadguard.Api.Routing.Effects.{api_event-Related}
use workloadguard.Api.Routing.Terminating.{handle_terminate_keeps}
use workloadguard.App.{RunOptions, set_up}
use workloadguard.App.Serving.{serves_api, Running, Reach, After}
use workloadguard.App.Serving.Refinement.{terminate-triggers}
use workloadguard.App.Serving.Related.{After-Related}

module _ (fl : Floats) (cedar : Cedar) (env : Env) (d : Daemon fl cedar env)
    (monotone : (t new : Trace) → env.clock t ≤ℤ env.clock (new ++ t))
    (waits : pos 0 ≤ℤ d.config.cooldown) (wire : Wire) where
  handled :
      (snapshot : Snapshot) (e : Decision) (s : State)
      → Memᴰ e (evaluate fl cedar d.engine snapshot)
      → Spaced fl cedar env d s (handle_decision fl cedar env d snapshot e s)
  handled snapshot e s m =
      handle_decision-Meeting fl cedar env d (Spaced fl cedar env d)
        (Spaced-IsCoarse fl cedar env d monotone waits) (λ e. Unit)
        (λ e snapshot s on h. record {
          kept = handle_triggered-IsKept fl cedar env d monotone e snapshot s;
        })
        snapshot e s tt

  answered :
      (e : ApiEvent) (s : State) (v : Server)
      → Spaced fl cedar env d s
          (api_event (daemon_provider fl cedar env d) (daemon_clock env) wire e (s, v)).0
  unfolding serve
  answered e s v =
      api_event-Related fl cedar env d wire (Spaced fl cedar env d)
        (λ s s' r. Watches-Spaced fl cedar env d r.watches) s v
        (λ o.
          handle_terminate_keeps fl cedar env d wire (Spaced fl cedar env d s) s v
            (Spaced-refl fl cedar env d s)
            (λ snapshot force pids latest known wet. record {
              kept = λ name last h. (
                last,
                ap (lookup name) (terminate-triggers fl cedar env force pids s) ∙ h,
                inl refl,
              );
            })
            o)
        e

  -- Where the clock does not go back and the cooldown is not negative: once a trigger of a policy is
  -- recorded, at any moment of a run that `Run` sets up, the record that stands at any later moment
  -- is that one, or was made when at least the cooldown had passed since, whatever happens at the
  -- server in between.
  pub serving-IsKept :
      (o : RunOptions) (s : State) (patterns : List String) (Meets : Readings → List Task → Type 0)
      {a b : Running} (name : String) (last : ℤ)
      → set_up fl cedar env o ≡ ok (d, s, patterns)
      → Reach fl cedar env d wire (serves_api o) Meets s a
      → After fl cedar env d wire (serves_api o) Meets a b
      → lookup name a.1.0.last_trigger ≡ some last
      → IsKept fl cedar env d name last b.1.0
  serving-IsKept o s patterns Meets {a} {b} name last up reach between h =
      let spaced : Spaced fl cedar env d a.1.0 b.1.0 =
        After-Related fl cedar env d (Spaced fl cedar env d)
          (Spaced-IsCoarse fl cedar env d monotone waits) (λ snapshot. Unit) wire
          (λ snapshot e s good m. handled snapshot e s m) (λ e s v known. answered e s v)
          (serves_api o) Meets (λ time r order met. tt) o s patterns up reach between in
      spaced.kept name last h
