-- ===== src/App.antt =====
-- internal/app/app.go: the one-shot check and its text, and what `Run` sets up before the daemon's
-- loop. A text is written to an `io.Writer` piece by piece.
pub mod Check
pub mod Running
pub mod Serving
pub mod Text
use workloadguard.Base.{
  ℤ, pos, ltb_ℤ, Bool, ◌&&◌, ◌||◌, not, String, string_eq, List, [], ◌∷◌, ◌++◌, map, Option, none,
  some, Outcome, ok, err, ◌==◌, if◌then◌else◌, length,
}
use workloadguard.Base.Text.{concat, decimal_ℕ}
use workloadguard.Float.{Floats}
use workloadguard.Config.{Config, ConfigError, validate}
use workloadguard.Collector.{Snapshot, Readings, Task, collect}
use workloadguard.System.{Env, M, ◌>>=◌, ◌>>◌, pure, now, for_each}
use workloadguard.Logging.{Logger}
use workloadguard.Metrics.{Metrics}
use workloadguard.Policy.Cedar.{Cedar}
use workloadguard.Policy.Engine.{Decision, Engine, new_engine, evaluate}
use workloadguard.Policy.Executor.{execute}
use workloadguard.Daemon.{Daemon, State, Tick, new, set_metrics, run_check, ticks}

pub record CheckResult : Type 0 where
  pub timestamp : ℤ
  pub snapshot : Snapshot
  pub decisions : List Decision

module _ (env : Env) where
  -- A failed action is only logged.
  unfoldable pub execute_if_triggered : Config → Snapshot → Decision → M (Unit {0})
  execute_if_triggered cfg s d =
      if d.triggered then (execute env cfg d s >>= λ errs. pure tt) else pure tt

  unfoldable pub execute_triggered : Config → Snapshot → List Decision → M (Unit {0})
  execute_triggered cfg s ds = for_each (execute_if_triggered cfg s) ds

module _ (fl : Floats) (cedar : Cedar) (env : Env) where
  -- what follows the engine's creation; `executes` is the option `Execute`
  unfoldable pub evaluate_and_act : Config → Bool → Snapshot → Engine fl cedar → M CheckResult
  evaluate_and_act cfg executes s e = do
    let decisions = evaluate fl cedar e s
    time ← now env
    if executes then execute_triggered env cfg s decisions else pure tt
    pure (record { timestamp = time; snapshot = s; decisions = decisions })

  abbrev pub with_policies :
      Config → Bool → Snapshot → Outcome (Engine fl cedar) → M (Outcome CheckResult)
  with_policies cfg executes s (err e) = pure (err (concat ("create policy engine: " ∷ e ∷ [])))
  with_policies cfg executes s (ok e) =
      evaluate_and_act cfg executes s e >>= λ result. pure (ok result)

  -- `Collect` returns no error.
  unfoldable pub check : Config → Bool → Readings → List Task → M (Outcome CheckResult)
  check cfg executes r order = do
    time ← now env
    with_policies cfg executes (collect time r order).0 (new_engine fl cedar cfg.policies)

-- The writer: the error of writing a text, given what has been written. A text whose write fails
-- does not count as written.
abbrev pub Writer : Type 0
Writer = List String → String → Option String

-- the result of what follows a write, unless it fails
abbrev pub unless_failed :
    List String → Option String → List String × Option String → List String × Option String
unless_failed done (some e) rest = (done, some e)
unless_failed done none rest = rest

-- `if _, err := fmt.Fprintf(…); err != nil { return err }`, for one text after the other
unfoldable pub write_texts : Writer → List String → List String → List String × Option String
write_texts w done [] = (done, none)
write_texts w done (text ∷ texts) =
    unless_failed done (w done text) (write_texts w (done ++ text ∷ []) texts)

unfoldable pub decision_text : Decision → String
decision_text d = concat (
    "  ["
    ∷ (if d.triggered then "TRIGGERED" else "PASS")
    ∷ "] "
    ∷ d.policy_name
    ∷ ": "
    ∷ d.reason
    ∷ "\n"
    ∷ [])

-- The texts of `FormatText`; `rfc3339` is `Format(time.RFC3339)`.
unfoldable pub result_texts : Floats → (ℤ → String) → CheckResult → List String
result_texts fl rfc3339 r =
    concat ("System Snapshot at " ∷ rfc3339 r.timestamp ∷ "\n" ∷ [])
    ∷ concat (
        "  Load Average: "
        ∷ fl.fixed2 r.snapshot.load_average.load1
        ∷ ", "
        ∷ fl.fixed2 r.snapshot.load_average.load5
        ∷ ", "
        ∷ fl.fixed2 r.snapshot.load_average.load15
        ∷ "\n"
        ∷ [])
    ∷ concat ("  Process Count: " ∷ decimal_ℕ (length r.snapshot.processes) ∷ "\n" ∷ [])
    ∷ "\n"
    ∷ "Policy Decisions:\n"
    ∷ map decision_text r.decisions

unfoldable pub format_text :
    Floats → (ℤ → String) → Writer → CheckResult → List String × Option String
format_text fl rfc3339 w r = write_texts w [] (result_texts fl rfc3339 r)

unfoldable pub validate_config : Config → Option ConfigError
validate_config cfg = validate cfg

pub record RunOptions : Type 0 where
  pub config : Config
  pub logger : Logger
  pub metrics : Option Metrics  -- a pointer, nil unless metrics are enabled
  pub enable_metrics : Bool
  pub enable_api : Bool
  pub addr : String

abbrev pub api_routes : List String
api_routes =
    "GET /api/status" ∷ "GET /api/policies" ∷ "GET /api/policies/{name}" ∷ "GET /api/processes"
    ∷ "GET /api/processes/{name}" ∷ "POST /api/terminate" ∷ "GET /api/ws" ∷ []

abbrev metrics_route : Option Metrics → List String
metrics_route none = []
metrics_route (some m) = "/metrics" ∷ []

-- the patterns that are served, none where there is no server
unfoldable pub routes : RunOptions → List String
routes o =
    if (o.enable_metrics || o.enable_api) && not (o.addr == "")
    then ("/health" ∷ [])
      ++ ((if o.enable_metrics then metrics_route o.metrics else [])
          ++ (if o.enable_api then api_routes else []))
    else []

module _ (fl : Floats) (cedar : Cedar) (env : Env) where
  abbrev pub give_metrics : Option Metrics → State → State
  give_metrics none s = s
  give_metrics (some m) s = set_metrics m s

  abbrev pub started :
      RunOptions
      → Outcome (Daemon fl cedar env × State)
      → Outcome (Daemon fl cedar env × State × List String)
  started o (err e) = err (concat ("create daemon: " ∷ e ∷ []))
  started o (ok (d, s)) = ok (d, give_metrics o.metrics s, routes o)

  -- `Run` up to the daemon's loop: the daemon, its first state and the routes
  unfoldable pub set_up : RunOptions → Outcome (Daemon fl cedar env × State × List String)
  set_up o = started o (new fl cedar env o.config)
