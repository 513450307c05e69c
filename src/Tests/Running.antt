-- ===== src/Tests/Running.antt =====
-- The theorems on the daemon, the commands and the server, on the sample machine.
use mathlib.Core.List.{Memᴰ, Permᴰ}
use workloadguard.Base.{
  nat_eq, pos, true, false, String, string_eq, List, [], ◌∷◌, none, some, Outcome, ok, ◌≡◌, ◌≢◌,
  refl, sym, subst, All, arith, inl, if◌then◌else◌, length, beq_ℕ, map,
}
use workloadguard.Float.{float_zero}
use workloadguard.Config.{
  Config, ReadResult, contents, Unmarshalled, filled, load, validate, is_enabled, validate_policies,
  validate_policy, check_actions, is_valid_action,
}
use workloadguard.Collector.{Readings, Task, collect, exclude_by_parents, processes_by_name}
use workloadguard.Collector.Interleaving.{all_tasks}
use workloadguard.System.Emits.{Adds}
use workloadguard.Metrics.Registry.{
  system_report, action_report, duration_report, termination_report, IsRegistered, reports,
  reports-IsRegistered,
}
use workloadguard.Policy.Engine.{
  Decision, evaluate, evaluate_names, sort_by_priority, insert_by_priority, candidates,
  load_shortfall, authorize_with_cedar, request, evaluate_policy, policy_at,
}
use workloadguard.Platform.Libproc.Listing.{IsPositive}
use workloadguard.Collector.Listing.{Lists}
use workloadguard.Policy.Executor.Errors.{IsHarmless}
use workloadguard.Daemon.{
  Daemon, Tick, periodic, load_poll, fresh, new, run, run_check, with_metrics,
}
use workloadguard.Daemon.Cycle.{run_check-decisions}
use workloadguard.Daemon.Runs.{IsCollected}
use workloadguard.Daemon.Refinement.{Refines, run-Refines}
use workloadguard.Daemon.Progress.{HasTrigger, run_check-HasTrigger}
use workloadguard.App.{CheckResult, Writer, check, result_texts, format_text, validate_config}
use workloadguard.App.Check.{IsAllowed, check-IsAllowed, check-dry_run, IsAgreed, check-check_once}
use workloadguard.App.Text.{IsWritten, format_text-IsWritten}
use workloadguard.Cli.{
  RunFlags, default_run_flags, config_path, config_lines, accepted, run_validate, run_daemon,
}
use workloadguard.Cli.Composition.{IsDry, run_daemon-IsDry, run_validate-run_daemon}
use workloadguard.Api.{Message, Server, new_server, terminated_message}
use workloadguard.Api.Status.{SocketEvent, registered, greeted, ended, broadcasts}
use workloadguard.Api.Routing.{ApiEvent, requested, connected, post_terminate}
use workloadguard.App.Serving.Schedule.{panicked, Schedule, wakes_loop, goes_on, at_server}
use workloadguard.Api.Status.Sockets.{after_events}
use workloadguard.Daemon.Provider.{daemon_provider, daemon_clock}
use workloadguard.Base.Permuted.{Permᴰ-refl}
use workloadguard.Samples.{
  wire, other_order, other_order-perm, floats, cedar, env, readings, snapshot, node_policy, config,
  decision, daemon,
}

abbrev wakes : List (Tick floats cedar env)
wakes = periodic readings all_tasks ∷ load_poll readings.load readings all_tasks ∷ []

-- the goroutines of a collection in some order
abbrev Shuffled : Readings → List Task → Type 0
Shuffled r order = Permᴰ order all_tasks

run-Refines_example :
    Refines floats cedar env
      (daemon false)
      (IsCollected Shuffled)
      fresh
      (run floats cedar env (daemon false) readings all_tasks wakes fresh)
run-Refines_example =
    run-Refines floats cedar env (daemon false) Shuffled readings all_tasks wakes fresh
      (Permᴰ-refl all_tasks) (Permᴰ-refl all_tasks, (Permᴰ-refl all_tasks, tt))

abbrev read_file : String → ReadResult
read_file path = contents path

abbrev unmarshal : String → Config → Unmarshalled
unmarshal text cfg = filled (config false)

abbrev home : Outcome String
home = ok "/root"

abbrev dry_flags : RunFlags
dry_flags = record default_run_flags { dry_run = true; enable_metrics = true; enable_api = true }

-- A termination is requested in the middle of the first check, and while the server shuts down.
abbrev ending_all : ApiEvent
ending_all =
    requested
      (post_terminate (some (record { pids = pos 11 ∷ []; policy_name = "node"; force = true })))

abbrev pub schedule : Schedule floats cedar env
schedule = record {
  early = connected 1 ∷ [];
  readings = readings;
  order = other_order;
  happenings = at_server ending_all ∷ goes_on ∷ goes_on ∷ map wakes_loop wakes;
  late = ending_all ∷ [];
}

run_daemon-IsDry_example :
    IsDry (run_daemon floats cedar env read_file unmarshal dry_flags home wire schedule)
run_daemon-IsDry_example =
    run_daemon-IsDry floats cedar env read_file unmarshal dry_flags home wire schedule refl

valid_lines :
    run_validate (λ d. "1m0s") (λ x. "7.0") read_file unmarshal "" home
    ≡ accepted (config_lines (λ d. "1m0s") (λ x. "7.0") (config_path "" home) (config false))
unfolding run_validate load validate_config validate validate_policies validate_policy check_actions
    is_valid_action
valid_lines = refl

run_validate-run_daemon_example :
    run_daemon floats cedar env read_file unmarshal dry_flags home wire schedule
    ≢ panicked (fresh, new_server)
run_validate-run_daemon_example =
    run_validate-run_daemon floats cedar env (λ d. "1m0s") (λ x. "7.0") read_file unmarshal
      dry_flags home (config_lines (λ d. "1m0s") (λ x. "7.0") (config_path "" home) (config false))
      wire schedule (fresh, new_server) valid_lines

abbrev pub listening : Config
listening = record (config false) {
  policies = ("node", record node_policy { actions = "log" ∷ [] }) ∷ [];
}

abbrev pub listener : Daemon floats cedar env
listener = record (daemon false) {
  config = listening;
  engine = record { policies = listening.policies; policy_set = tt };
}

abbrev pub logged : Decision
logged =
    evaluate_policy floats cedar listener.engine "node" (policy_at listening.policies "node")
      (collect (pos 1) readings all_tasks).0

logged-triggered : logged.triggered ≡ true
unfolding evaluate_policy candidates exclude_by_parents processes_by_name collect load_shortfall
    authorize_with_cedar request
logged-triggered = refl

logged-IsHarmless : All IsHarmless logged.actions
unfolding evaluate_policy candidates exclude_by_parents processes_by_name collect load_shortfall
    authorize_with_cedar request
logged-IsHarmless = (inl refl, tt)

logged-Memᴰ :
    Memᴰ logged (evaluate floats cedar listener.engine (collect (pos 1) readings all_tasks).0)
unfolding evaluate evaluate_names sort_by_priority insert_by_priority is_enabled
logged-Memᴰ = Memᴰ.head refl

listener-decisions :
    (trigger : String)
    → (run_check floats cedar env listener trigger readings all_tasks fresh).latest_decisions
      ≡ evaluate floats cedar listener.engine (collect (pos 1) readings all_tasks).0
unfolding with_metrics
listener-decisions trigger =
    run_check-decisions floats cedar env listener trigger readings all_tasks fresh refl

logged-published :
    (trigger : String)
    → Memᴰ logged
        (run_check floats cedar env listener trigger readings all_tasks fresh).latest_decisions
logged-published trigger = subst (Memᴰ logged) (sym (listener-decisions trigger)) logged-Memᴰ

pub listener-HasTrigger :
    (trigger : String)
    → HasTrigger logged.policy_name
        (run_check floats cedar env listener trigger readings all_tasks fresh).last_trigger
listener-HasTrigger trigger =
    run_check-HasTrigger floats cedar env listener refl trigger readings all_tasks fresh logged refl
      (logged-published trigger) logged-triggered logged-IsHarmless

run_check-HasTrigger_example :
    HasTrigger logged.policy_name
      (run_check floats cedar env listener "periodic" readings all_tasks fresh).last_trigger
run_check-HasTrigger_example =
    run_check-HasTrigger floats cedar env listener refl "periodic" readings all_tasks fresh logged
      refl (logged-published "periodic") logged-triggered logged-IsHarmless

readings-Lists : Lists IsPositive readings
readings-Lists = record {
  listed = (omega arith, (omega arith, (omega arith, (omega arith, tt))));
  own = λ pid p h. ground (arith, h);
}

check-IsAllowed_example :
    Adds
      (IsAllowed true IsPositive)
      []
      (check floats cedar env (config true) true readings other_order []).1
check-IsAllowed_example =
    check-IsAllowed floats cedar env IsPositive (config true) true readings other_order []
      other_order-perm readings-Lists

check-dry_run_example :
    check floats cedar env (config true) true readings all_tasks []
    ≡ check floats cedar env (config false) true readings all_tasks []
check-dry_run_example =
    check-dry_run floats cedar env (config false) true true readings all_tasks []

check-check_once_example :
    IsAgreed floats cedar env readings all_tasks fresh
      (check floats cedar env (config false) true readings all_tasks []).0
      (new floats cedar env (config false))
check-check_once_example =
    check-check_once floats cedar env (config false) true readings all_tasks fresh

abbrev result : CheckResult
result = record { timestamp = pos 5; snapshot = snapshot; decisions = decision ∷ [] }

-- A writer whose pipe is closed after two texts.
abbrev closing : Writer
closing done text = if beq_ℕ (length done) 2 then some "broken pipe" else none

format_text-IsWritten_example :
    IsWritten closing
      (result_texts floats (λ time. "now") result)
      (format_text floats (λ time. "now") closing result)
format_text-IsWritten_example = format_text-IsWritten floats (λ time. "now") closing result

abbrev goodbye : Message
goodbye = terminated_message (pos 11 ∷ []) "node"

abbrev visits : List SocketEvent
visits =
    registered 1
    ∷ greeted 1 true
    ∷ registered 2
    ∷ broadcasts goodbye
    ∷ greeted 2 false
    ∷ registered 3
    ∷ ended 1
    ∷ []

abbrev visited : Server
visited =
    after_events (daemon_provider floats cedar env (daemon false)) (daemon_clock env) wire visits
      fresh

reports-IsRegistered_example : All IsRegistered (
    reports
      (system_report float_zero float_zero float_zero (pos 8) 1024 512
        ∷ action_report "node" "log"
        ∷ duration_report (pos 3)
        ∷ termination_report "api" "process" true
        ∷ [])
      [])
reports-IsRegistered_example =
    reports-IsRegistered
      (system_report float_zero float_zero float_zero (pos 8) 1024 512
        ∷ action_report "node" "log"
        ∷ duration_report (pos 3)
        ∷ termination_report "api" "process" true
        ∷ [])
      [] tt
