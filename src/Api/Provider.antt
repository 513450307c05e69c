-- ===== src/Api/Provider.antt =====
-- `StatusProvider` of internal/api/server.go: what the server asks of the daemon, over any state.
use mathlib.Core.List.{Permᴰ}
use workloadguard.Base.{ℤ, Bool, String, List, ◌++◌, Option}
use workloadguard.Config.{Config}
use workloadguard.Collector.{Snapshot}
use workloadguard.System.{Trace}
use workloadguard.System.Emits.{Adds}
use workloadguard.Policy.Engine.{Decision}
use workloadguard.Policy.Executor.Signals.{SignalsOf}

pub record StatusProvider (S : Type 0) : Type 0 where
  pub config : Config
  pub snapshot : S → Option Snapshot
  pub decisions : S → List Decision
  pub is_on_cooldown : String → S → Bool × S
  pub terminate : Bool → List ℤ → S → (List ℤ × List ℤ) × S

-- What the server may rely on: of the requests to the system that a provider's state holds,
-- `Terminate` adds signals to the given PIDs only, and it reports each of them once.
pub record ProviderLaws {S : Type 0} (p : StatusProvider S) : Type 0 where
  pub trace : S → Trace
  pub signals :
      (force : Bool) (pids : List ℤ) (s : S)
      → Adds (SignalsOf pids) (trace s) (trace (p.terminate force pids s).1)
  pub reported :
      (force : Bool) (pids : List ℤ) (s : S)
      → Permᴰ pids ((p.terminate force pids s).0.0 ++ (p.terminate force pids s).0.1)
