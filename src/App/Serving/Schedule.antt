-- ===== src/App/Serving/Schedule.antt =====
-- `Run` of internal/app/app.go as one function: the daemon's loop, the server's goroutines and the
-- server's shutdown, for any schedule of what happens. The steps are those of App/Serving.
pub mod Reached
pub mod Settled
use workloadguard.Base.{ℤ, Bool, String, List, [], ◌∷◌, Outcome, ok, err, if◌then◌else◌}
use workloadguard.Float.{Floats}
use workloadguard.Collector.{Snapshot, Readings, Task}
use workloadguard.System.{Env}
use workloadguard.Policy.Cedar.{Cedar}
use workloadguard.Policy.Engine.{Decision}
use workloadguard.Daemon.{State, Daemon, Tick, handle_decision, handle_decisions}
use workloadguard.Daemon.Provider.{daemon_provider, daemon_clock}
use workloadguard.Api.{Message, Wire, Server, new_server}
use workloadguard.Api.Routing.{ApiEvent, api_event}
use workloadguard.App.{RunOptions, set_up}
use workloadguard.App.Serving.{
  Phase, starting, waiting, handling, Running, serves_api, begin_check, woken, end_of_check,
  ticking, with_server,
}

-- How `Run` ends: with an error, by a panic of `time.NewTicker`, or by the context.
pub data Ended : Type 0 where
  failed : String → Ended
  panicked stopped : State × Server → Ended

module _ (fl : Floats) (cedar : Cedar) (env : Env) where
  -- What happens next: a tick that the loop takes if it waits for one; the next decision of the
  -- check under way, or its end; an event at the server.
  pub data Happening : Type 0 where
    wakes_loop : Tick fl cedar env → Happening
    goes_on : Happening
    at_server : ApiEvent → Happening

  -- What a run meets: events at the server before the first check; that check's collection; what
  -- happens from then until the context ends; events while the server shuts down.
  pub record Schedule : Type 0 where
    pub early : List ApiEvent
    pub readings : Readings
    pub order : List Task
    pub happenings : List Happening
    pub late : List ApiEvent

  module _ (d : Daemon fl cedar env) (wire : Wire) (served : Bool) where
    unfoldable pub happen : Happening → Running → Running
    happen (wakes_loop t) (waiting, (s, v)) =
        if ticking fl cedar env d
        then with_server fl cedar env d v (woken fl cedar env d t s)
        else (waiting, (s, v))
    happen goes_on (handling start snapshot (e ∷ es), (s, v)) =
        (handling start snapshot es, (handle_decision fl cedar env d snapshot e s, v))
    happen goes_on (handling start snapshot [], (s, v)) =
        (waiting, (end_of_check fl cedar env d start s, v))
    happen (at_server e) (p, sv) =
        if served
        then (p, api_event (daemon_provider fl cedar env d) (daemon_clock env) wire e sv)
        else (p, sv)
    happen _ a = a

    unfoldable pub play : List Happening → Running → Running
    play [] a = a
    play (h ∷ hs) a = play hs (happen h a)

    unfoldable pub serve_all : List ApiEvent → Running → Running
    serve_all [] a = a
    serve_all (e ∷ es) a = serve_all es (happen (at_server e) a)

    -- The check under way is brought to its end: the loop looks at the context between checks only.
    unfoldable pub settle : Running → Running
    settle (handling start snapshot es, (s, v)) = (
      waiting,
      (end_of_check fl cedar env d start (handle_decisions fl cedar env d snapshot es s), v),
    )
    settle a = a

    -- `d.Run`, beside the server: the first check, the two tickers, then the loop
    abbrev pub startup_check : Readings → List Task → Running → Running
    startup_check r order (p, (s, v)) =
        with_server fl cedar env d v (begin_check fl cedar env d "startup" r order s)

    unfoldable pub loop : Schedule → State → Running
    loop sch s =
        let a = serve_all sch.early (starting, (s, new_server)) in
        settle (play sch.happenings (startup_check sch.readings sch.order a))

    -- The shutdown is deferred, so it comes after a panic too.
    unfoldable pub run_loop : Schedule → State → Ended
    run_loop sch s =
        let a = serve_all sch.late (loop sch s) in
        if ticking fl cedar env d then stopped a.1 else panicked a.1

  abbrev pub after_set_up :
      Wire → Bool → Schedule → Outcome (Daemon fl cedar env × State × List String) → Ended
  after_set_up wire served sch (err e) = failed e
  after_set_up wire served sch (ok (d, s, patterns)) = run_loop d wire served sch s

  unfoldable pub run_app : Wire → RunOptions → Schedule → Ended
  run_app wire o sch = after_set_up wire (serves_api o) sch (set_up fl cedar env o)
