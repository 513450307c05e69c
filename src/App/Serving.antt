-- ===== src/App/Serving.antt =====
-- The daemon's loop beside the API's goroutines (internal/app/app.go, internal/daemon/daemon.go): the
-- steps of a run in any interleaving. A step is the beginning of a check, up to what it publishes;
-- the handling of one decision; the end of a check; or what one event at the server does. Where
-- a ticker cannot be made, the loop does not come to wake.
pub mod Cooldown
pub mod Invariant
pub mod Refinement
pub mod Related
pub mod Safety
pub mod Schedule
use workloadguard.Base.{
  ℤ, pos, ltb_ℤ, Bool, true, false, not, ◌&&◌, String, string_eq, List, [], ◌∷◌, ok, err, ◌==◌, ◌≡◌,
  if◌then◌else◌,
}
use workloadguard.Float.{Floats, fle}
use workloadguard.Collector.{Snapshot, Readings, Task}
use workloadguard.System.{Env}
use workloadguard.Policy.Cedar.{Cedar}
use workloadguard.Policy.Engine.{Decision}
use workloadguard.Daemon.{
  State, Daemon, Tick, periodic, load_poll, publish, handle_decision, record_duration,
}
use workloadguard.Daemon.Provider.{daemon_provider, daemon_clock}
use workloadguard.Api.{Server, Message, Wire, new_server}
use workloadguard.Api.Routing.{ApiEvent, api_event}
use workloadguard.App.{RunOptions}

-- Where the loop is: before its first check; between checks, where it waits for a tick; in a check
-- that began at the given time, with the decisions that are still to be handled.
pub data Phase : Type 0 where
  starting waiting : Phase
  handling : ℤ → Snapshot → List Decision → Phase

abbrev pub Running : Type 0
Running = Phase × (State × Server)

-- whether the API is served
unfoldable pub serves_api : RunOptions → Bool
serves_api o = o.enable_api && not (o.addr == "")

module _ (fl : Floats) (cedar : Cedar) (env : Env) (d : Daemon fl cedar env) where
  abbrev under_way : (ℤ × Snapshot × List Decision) × State → Phase × State
  under_way ((start, snapshot, decisions), s) = (handling start snapshot decisions, s)

  -- `runCheck` up to its loop; a check that finds the lock taken is skipped
  unfoldable pub begin_check : String → Readings → List Task → State → Phase × State
  begin_check trigger r order s =
      if s.checking
      then (waiting, s)
      else under_way (publish fl cedar env d trigger r order (record s { checking = true }))

  unfoldable pub woken : Tick fl cedar env → State → Phase × State
  woken (periodic r order) s = begin_check "periodic" r order s
  woken (load_poll (err e) r order) s = (waiting, s)
  woken (load_poll (ok load) r order) s =
      if fle d.config.load_threshold load.load1
      then begin_check "load-triggered" r order s
      else (waiting, s)

  -- `runCheck` after its loop
  unfoldable pub end_of_check : ℤ → State → State
  end_of_check start s = record (record_duration fl cedar env start s) { checking = false }

  -- `time.NewTicker` panics where an interval is not positive.
  unfoldable pub ticking : Bool
  ticking = ltb_ℤ (pos 0) d.config.periodic_interval && ltb_ℤ (pos 0) d.config.load_poll_interval

  -- The server goes on as it was.
  abbrev pub with_server : Server → Phase × State → Running
  with_server v (p, s) = (p, (s, v))

  -- `Meets` is asked of what each collection meets; `served` says whether the API is.
  module _ (wire : Wire) (served : Bool) (Meets : Readings → List Task → Type 0) where
    abbrev pub TickMeets : Tick fl cedar env → Type 0
    TickMeets (periodic r order) = Meets r order
    TickMeets (load_poll load r order) = Meets r order

    pub data Step : Running → Running → Type 0 where
      starts :
          (r : Readings) (order : List Task) (s : State) (v : Server)
          → Meets r order
          → Step (starting, (s, v)) (with_server v (begin_check "startup" r order s))
      wakes :
          (t : Tick fl cedar env) (s : State) (v : Server)
          → ticking ≡ true
          → TickMeets t
          → Step (waiting, (s, v)) (with_server v (woken t s))
      decides :
          (start : ℤ) (snapshot : Snapshot) (e : Decision) (es : List Decision) (s : State)
          (v : Server)
          → Step
              (handling start snapshot (e ∷ es), (s, v))
              (handling start snapshot es, (handle_decision fl cedar env d snapshot e s, v))
      finishes :
          (start : ℤ) (snapshot : Snapshot) (s : State) (v : Server)
          → Step (handling start snapshot [], (s, v)) (waiting, (end_of_check start s, v))
      answers :
          (e : ApiEvent) (p : Phase) (s : State) (v : Server)
          → served ≡ true
          → Step
              (p, (s, v))
              (p, api_event (daemon_provider fl cedar env d) (daemon_clock env) wire e (s, v))

    -- What a run may come to from the state `s₀` that `Run` is entered with.
    pub data Reach (s₀ : State) : Running → Type 0 where
      begun : Reach s₀ (starting, (s₀, new_server))
      later : {a b : Running} → Reach s₀ a → Step a b → Reach s₀ b

    -- What comes after a moment of a run.
    pub data After (a : Running) : Running → Type 0 where
      at_once : After a a
      then : {b c : Running} → After a b → Step b c → After a c
