-- ===== src/Daemon/Provider.antt =====
-- The daemon as the API's provider (internal/daemon/daemon.go).
use workloadguard.Base.{ℤ}
use workloadguard.Float.{Floats}
use workloadguard.System.{Env, now}
use workloadguard.Policy.Cedar.{Cedar}
use workloadguard.Daemon.{State, Daemon, perform, is_on_cooldown, terminate}
use workloadguard.Daemon.Termination.{terminate-SignalsOf, terminate-perm}
use workloadguard.Api.Provider.{StatusProvider, ProviderLaws}

abbrev pub daemon_clock : Env → State → ℤ × State
daemon_clock env s = perform (now env) s

module _ (fl : Floats) (cedar : Cedar) (env : Env) (d : Daemon fl cedar env) where
  abbrev pub daemon_provider : StatusProvider State
  daemon_provider = record {
    config = d.config;
    snapshot = λ s. s.latest_snapshot;
    decisions = λ s. s.latest_decisions;
    is_on_cooldown = is_on_cooldown fl cedar env d;
    terminate = terminate fl cedar env;
  }

  -- The daemon's trace, whose signals are those of its `Terminate`.
  abbrev pub daemon_laws : ProviderLaws daemon_provider
  daemon_laws = record {
    trace = λ s. s.trace;
    signals = terminate-SignalsOf fl cedar env;
    reported = terminate-perm fl cedar env;
  }
