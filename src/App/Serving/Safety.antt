-- ===== src/App/Serving/Safety.antt =====
-- What a run with the API does to processes (internal/app, internal/api and internal/daemon).
use mathlib.Core.List.{Permᴰ}
use workloadguard.Base.{ℤ, true, String, List, Option, none, some, ok, ◌≡◌, refl, ◌∙◌, All, ap}
use workloadguard.Base.Members.{All-Memᴰ}
use workloadguard.Config.{Config}
use workloadguard.Float.{Floats}
use workloadguard.Collector.{Snapshot, Readings, Task, collect}
use workloadguard.Collector.Interleaving.{all_tasks}
use workloadguard.Collector.Index.{IsIndexed, collect-IsIndexed}
use workloadguard.Collector.Listing.{HasPid, collect-HasPid}
use workloadguard.Platform.Libproc.Listing.{IsPositive}
use workloadguard.System.{Env}
use workloadguard.System.Emits.{Adds}
use workloadguard.Policy.Cedar.{Cedar}
use workloadguard.Policy.Engine.{Decision}
use workloadguard.Daemon.{State, Daemon}
use workloadguard.Daemon.Watching.{Watches-IsCoarse, Watches}
use workloadguard.Daemon.Runs.{handle_decision-Meeting}
use workloadguard.Daemon.DryRun.{handle_triggered-Watches}
use workloadguard.Daemon.Targets.{
  Reaches-IsCoarse, SignalsTo, Reaches, evaluate-All, handle_triggered-Reaches,
}
use workloadguard.Daemon.Positive.{IsPlatform, IsPlatform-Lists}
use workloadguard.Api.{Wire}
use workloadguard.Api.Routing.Effects.{Knows, IsIndexed-Knows, api_event-Reaches, api_event-Watches}
use workloadguard.App.{RunOptions, set_up}
use workloadguard.App.Running.{set_up_ok}
use workloadguard.App.Serving.{serves_api, Running, Reach}
use workloadguard.App.Serving.Related.{Reach-Related}

module _ (fl : Floats) (cedar : Cedar) (env : Env) where
  abbrev pub Anyhow : Readings → List Task → Type 0
  Anyhow r order = Unit

  -- In a dry run no process is looked up, signalled or waited for, and no trigger recorded, at any
  -- moment of a run that `Run` sets up, whatever the API's requests (terminations included), its
  -- sockets, the ticks and the system's answers, and however they interleave.
  pub serving-Watches :
      (o : RunOptions) (d : Daemon fl cedar env) (s : State) (patterns : List String) (wire : Wire)
      {a : Running}
      → o.config.dry_run ≡ true
      → set_up fl cedar env o ≡ ok (d, s, patterns)
      → Reach fl cedar env d wire (serves_api o) Anyhow s a
      → Watches s a.1.0
  serving-Watches o d s patterns wire dry up reach =
      let wet : d.config.dry_run ≡ true =
        ap (λ (c : Config). c.dry_run) (set_up_ok fl cedar env o d s patterns up).0 ∙ dry in
      Reach-Related fl cedar env d Watches Watches-IsCoarse (λ snapshot. Unit) wire
        (λ snapshot e s good m.
          handle_decision-Meeting fl cedar env d Watches Watches-IsCoarse (λ e. Unit)
            (λ e snapshot s on p. handle_triggered-Watches fl cedar env d wet e snapshot s) snapshot
            e s tt)
        (λ e s v known. api_event-Watches fl cedar env d wire e s v wet) (serves_api o) Anyhow
        (λ time r order h. tt) o s patterns up reach

  module _ (Q : ℤ → Type 0) (wire : Wire) where
    abbrev IsListed : Snapshot → Type 0
    IsListed snapshot = IsIndexed snapshot × All (HasPid Q) snapshot.processes

    IsListed-Knows :
        (o : Option Snapshot)
        → ((snapshot : Snapshot) → o ≡ some snapshot → IsListed snapshot)
        → (d : Daemon fl cedar env) → Knows fl cedar env d wire Q o
    IsListed-Knows none h d = tt
    IsListed-Knows (some snapshot) h d =
        IsIndexed-Knows fl cedar env d wire Q snapshot (h snapshot refl).0 (h snapshot refl).1

    serving-Reaches :
        (o : RunOptions) (d : Daemon fl cedar env) (s : State) (patterns : List String)
        (Meets : Readings → List Task → Type 0) {a : Running}
        → ((time : ℤ) (r : Readings) (order : List Task)
            → Meets r order
            → IsListed (collect time r order).0)
        → set_up fl cedar env o ≡ ok (d, s, patterns)
        → Reach fl cedar env d wire (serves_api o) Meets s a
        → Reaches Q s a.1.0
    serving-Reaches o d s patterns Meets sound up reach =
        Reach-Related fl cedar env d (Reaches Q) (Reaches-IsCoarse Q) IsListed wire
          (λ snapshot e s good m.
            handle_decision-Meeting fl cedar env d (Reaches Q) (Reaches-IsCoarse Q)
              (λ e. All Q e.pids)
              (λ e snapshot s on h. handle_triggered-Reaches Q fl cedar env d e snapshot s h)
              snapshot e s
              (All-Memᴰ (λ (x : Decision). All Q x.pids)
                (evaluate-All Q fl cedar d.engine snapshot good.0 good.1) m))
          (λ e s v known.
            api_event-Reaches fl cedar env d wire Q e s v
              (IsListed-Knows s.latest_snapshot known d))
          (serves_api o) Meets sound o s patterns up reach

  -- What a collection meets: some order of the goroutines, and the platform.
  abbrev pub OnPlatform : Readings → List Task → Type 0
  OnPlatform r order = Permᴰ order all_tasks × IsPlatform fl r

  -- Over a kernel that keeps to its buffer, a run that `Run` sets up signals positive PIDs only, at
  -- every moment, whatever the API's requests and their PIDs, its sockets, the ticks, the policies
  -- and the system's answers, and however they interleave.
  pub serving-IsPositive :
      (o : RunOptions) (d : Daemon fl cedar env) (s : State) (patterns : List String) (wire : Wire)
      {a : Running}
      → set_up fl cedar env o ≡ ok (d, s, patterns)
      → Reach fl cedar env d wire (serves_api o) OnPlatform s a
      → Adds (SignalsTo IsPositive) s.trace a.1.0.trace
  serving-IsPositive o d s patterns wire up reach =
      serving-Reaches IsPositive wire o d s patterns OnPlatform
        (λ time r order h. (
          collect-IsIndexed time r h.0,
          collect-HasPid IsPositive r (IsPlatform-Lists fl r h.1) time order,
        ))
        up reach
