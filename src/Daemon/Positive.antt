-- ===== src/Daemon/Positive.antt =====
-- The daemon over the platform (internal/daemon/daemon.go with internal/platform): a signal to a PID
-- that is not positive would reach a process group, or every process.
use mathlib.Core.List.{Permᴰ}
use workloadguard.Base.{
  ℕ, ℤ, String, List, Option, ◌≡◌, sym, subst, ap, ◌∙◌, All, All-mono, Outcome,
}
use workloadguard.Float.{Floats}
use workloadguard.Collector.{Readings, Task}
use workloadguard.Collector.Interleaving.{all_tasks}
use workloadguard.Collector.Listing.{Lists}
use workloadguard.Platform.Sysctl.{Sysctl}
use workloadguard.Platform.Libproc.{Libproc, returned, list_pids}
use workloadguard.Platform.Libproc.Listing.{IsPositive, IsFilled}
use workloadguard.Platform.Readings.{platform_readings, platform_readings-Lists}
use workloadguard.System.{Env}
use workloadguard.System.Emits.{Adds}
use workloadguard.Policy.Cedar.{Cedar}
use workloadguard.Daemon.{State, Daemon, Tick, periodic, load_poll, run}
use workloadguard.Daemon.Targets.{SignalsTo, TickMeets, run-Reaches}

-- The collector's readings are those of the platform package, over some kernel that keeps to its
-- buffer.
pub record IsPlatform (fl : Floats) (r : Readings) : Type 0 where
  pub sys : Sysctl
  pub lib : Libproc
  pub cancelled : ℕ → Option String
  pub pids : Outcome (List ℤ)
  pub filled : IsFilled lib
  pub listed : list_pids lib ≡ returned pids
  pub read : r ≡ platform_readings fl sys lib cancelled pids

returned-injective : {o o' : Outcome (List ℤ)} → returned o ≡ returned o' → o ≡ o'
returned-injective h = cc h

pub IsPlatform-Lists : (fl : Floats) (r : Readings) → IsPlatform fl r → Lists IsPositive r
IsPlatform-Lists fl r h =
    let (o, done, lists) = platform_readings-Lists fl h.sys h.lib h.cancelled h.filled in
    subst (Lists IsPositive)
      (ap (platform_readings fl h.sys h.lib h.cancelled) (returned-injective (sym done ∙ h.listed))
        ∙ sym h.read)
      lists

module _ (fl : Floats) (cedar : Cedar) (env : Env) where
  -- What a collection meets: some order of the goroutines, and the platform.
  abbrev pub OnPlatform : Tick fl cedar env → Type 0
  OnPlatform (periodic r order) = Permᴰ order all_tasks × IsPlatform fl r
  OnPlatform (load_poll load r order) = Permᴰ order all_tasks × IsPlatform fl r

  OnPlatform-TickMeets :
      (d : Daemon fl cedar env) (t : Tick fl cedar env)
      → OnPlatform t
      → TickMeets IsPositive fl cedar env d t
  OnPlatform-TickMeets d (periodic r order) (p, h) = (p, IsPlatform-Lists fl r h)
  OnPlatform-TickMeets d (load_poll load r order) (p, h) = (p, IsPlatform-Lists fl r h)

  -- Over a kernel that keeps to its buffer, the daemon signals positive PIDs only, never a process
  -- group, for any number of ticks, any interleaving of the collector's goroutines and whatever the
  -- policies are and the system answers.
  pub run-IsPositive :
      (d : Daemon fl cedar env) (r : Readings) (order : List Task) (ts : List (Tick fl cedar env))
      (s : State)
      → Permᴰ order all_tasks
      → IsPlatform fl r
      → All OnPlatform ts
      → Adds (SignalsTo IsPositive) s.trace (run fl cedar env d r order ts s).trace
  run-IsPositive d r order ts s p h hs =
      run-Reaches IsPositive fl cedar env d r order ts s (p, IsPlatform-Lists fl r h)
        (All-mono OnPlatform (TickMeets IsPositive fl cedar env d) ts (OnPlatform-TickMeets d) hs)
