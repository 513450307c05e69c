-- ===== src/Tests/Interleaving.antt =====
-- The theorems on a run with the API, on the sample machine: a termination is requested in the
-- middle of the first check.
use workloadguard.Base.{
  Bool, String, pos, true, false, List, [], ◌∷◌, some, none, Outcome, ok, err, ◌≡◌, refl, subst, ap,
  arith,
}
use workloadguard.Base.Permuted.{Permᴰ-refl}
use workloadguard.Base.Text.{join, decimal}
use workloadguard.Config.{is_enabled}
use workloadguard.Policy.Cedar.{
  convert_to_cedar, policy_text, enabled_texts, generate_cedar_policy, when_conditions,
  load_condition,
}
use workloadguard.Daemon.Progress.{HasTrigger}
use workloadguard.Daemon.Cooldown.{IsKept}
use workloadguard.App.Serving.Cooldown.{serving-IsKept}
use workloadguard.Tests.Running.{listening, listener, logged, listener-HasTrigger, schedule}
use workloadguard.Collector.{Readings, Task}
use workloadguard.Collector.Index.{IsIndexed}
use workloadguard.Collector.Interleaving.{all_tasks}
use workloadguard.Logging.{new_discard}
use workloadguard.Policy.Engine.{new_engine}
use workloadguard.Platform.Libproc.Listing.{IsPositive}
use workloadguard.System.Emits.{Adds}
use workloadguard.Daemon.{
  State, Daemon, Tick, periodic, load_poll, fresh, with_engine, new, run, ticks,
}
use workloadguard.Daemon.Watching.{Watches}
use workloadguard.Daemon.Targets.{SignalsTo}
use workloadguard.Api.{new_server}
use workloadguard.Api.Routing.{post_terminate, requested, ApiEvent, api_event}
use workloadguard.App.{RunOptions, started, set_up, routes}
use workloadguard.App.Serving.{
  serves_api, Phase, waiting, Running, begin_check, ticking, Reach, begun, later, starts, answers,
  wakes, with_server, woken, After, at_once, then,
}
use workloadguard.App.Serving.Invariant.{IsSound, Scheduled, serving-IsSound}
use workloadguard.App.Serving.Refinement.{AppRefines, serving-AppRefines}
use workloadguard.App.Serving.Safety.{Anyhow, serving-Watches, OnPlatform, serving-IsPositive}
use workloadguard.App.Serving.Schedule.{run_app}
use workloadguard.App.Serving.Schedule.Reached.{settle-Reach, settle-run_check}
use workloadguard.App.Serving.Schedule.Settled.{Settles, run_app-Settles}
use workloadguard.Daemon.Provider.{daemon_provider, daemon_clock}
use workloadguard.Samples.{
  wire, floats, cedar, env, config, daemon, readings, policies_parse, other_order, other_order-perm,
  env-monotone,
}
use workloadguard.Tests.Platform.{platform, platform-IsPlatform}

abbrev serving : RunOptions
serving = record {
  config = config false;
  logger = new_discard;
  metrics = none;
  enable_metrics = false;
  enable_api = true;
  addr = ":9090";
}

-- `set_up` by what the library makes of the policies
abbrev set_up_with :
    RunOptions → Outcome (Unit {0}) → Outcome (Daemon floats cedar env × State × List String)
set_up_with o parsed = started floats cedar env o (
    with_engine floats cedar env o.config (elim parsed [
      | err e ↦ err e
      | ok set ↦ ok (record { policies = o.config.policies; policy_set = set })
    ]))

serving-set_up : set_up floats cedar env serving ≡ ok (daemon false, fresh, routes serving)
unfolding set_up new new_engine
serving-set_up = ap (set_up_with serving) policies_parse

abbrev dry : RunOptions
dry = record serving { config = config true }

dry-set_up : set_up floats cedar env dry ≡ ok (daemon true, fresh, routes dry)
unfolding set_up new new_engine
dry-set_up = ap (set_up_with dry) policies_parse

abbrev a_termination : ApiEvent
a_termination = requested (
    post_terminate
      (some (record { pids = pos 11 ∷ pos 99 ∷ []; policy_name = "node"; force = true })))

-- the server and the daemon once the first check has begun and a termination has been requested
abbrev first_check : Bool → Readings → Phase × State
first_check dry_run r = begin_check floats cedar env (daemon dry_run) "startup" r other_order fresh

abbrev asked_during : Bool → Readings → Running
asked_during dry_run r = (
  (first_check dry_run r).0,
  api_event (daemon_provider floats cedar env (daemon dry_run)) (daemon_clock env) wire
      a_termination ((first_check dry_run r).1, new_server),
)

during :
    (dry_run : Bool) (o : RunOptions) (r : Readings) (Meets : Readings → List Task → Type 0)
    → serves_api o ≡ true
    → Meets r other_order
    → Reach floats cedar env
        (daemon dry_run)
        wire
        (serves_api o)
        Meets
        fresh
        (asked_during dry_run r)
during dry_run o r Meets on h =
    later (later begun (starts r other_order fresh new_server h))
      (answers a_termination (first_check dry_run r).0 (first_check dry_run r).1 new_server on)

serving-serves_api : serves_api serving ≡ true
unfolding serves_api
serving-serves_api = refl

dry-serves_api : serves_api dry ≡ true
unfolding serves_api
dry-serves_api = refl

serving-IsSound_example :
    IsSound floats cedar env (daemon false) IsIndexed (asked_during false readings)
serving-IsSound_example =
    serving-IsSound floats cedar env serving (daemon false) fresh (routes serving) wire
      serving-set_up
      (during false serving readings (Scheduled floats cedar env) serving-serves_api
        other_order-perm)

serving-Watches_example : Watches fresh (asked_during true readings).1.0
serving-Watches_example =
    serving-Watches floats cedar env dry (daemon true) fresh (routes dry) wire refl dry-set_up
      (during true dry readings (Anyhow floats cedar env) dry-serves_api tt)

serving-IsPositive_example : Adds (SignalsTo IsPositive) [] (asked_during false platform).1.0.trace
serving-IsPositive_example =
    serving-IsPositive floats cedar env serving (daemon false) fresh (routes serving) wire
      serving-set_up
      (during false serving platform (OnPlatform floats cedar env) serving-serves_api
        (other_order-perm, platform-IsPlatform))

abbrev two_ticks : List (Tick floats cedar env)
two_ticks = periodic readings all_tasks ∷ load_poll readings.load readings all_tasks ∷ []

serving-AppRefines_example :
    AppRefines floats cedar env
      (daemon false)
      (Scheduled floats cedar env)
      fresh
      (asked_during false readings).1.0
serving-AppRefines_example =
    serving-AppRefines floats cedar env serving (daemon false) fresh (routes serving) wire
      (Scheduled floats cedar env) serving-set_up
      (during false serving readings (Scheduled floats cedar env) serving-serves_api
        other_order-perm)

-- Without the API, and with a policy that only logs.
abbrev alone : RunOptions
alone = record serving { config = listening; enable_api = false }

listening_parse : convert_to_cedar floats cedar listening.policies ≡ ok tt
unfolding convert_to_cedar policy_text enabled_texts generate_cedar_policy when_conditions
    load_condition is_enabled join decimal
listening_parse = refl

alone-set_up : set_up floats cedar env alone ≡ ok (listener, fresh, routes alone)
unfolding set_up new new_engine
alone-set_up = ap (set_up_with alone) listening_parse

-- the state after the first check, and what comes of the next tick
abbrev first_state : State
first_state = run floats cedar env listener readings all_tasks [] fresh

abbrev next_moment : Running
next_moment =
    with_server floats cedar env listener new_server
      (woken floats cedar env listener (periodic readings all_tasks) first_state)

first_reached :
    Reach floats cedar env listener wire
      (serves_api alone)
      (Scheduled floats cedar env)
      fresh
      (waiting, (first_state, new_server))
unfolding run ticks
first_reached =
    subst
      (Reach floats cedar env listener wire (serves_api alone) (Scheduled floats cedar env) fresh)
      (settle-run_check floats cedar env listener wire (serves_api alone) "startup" readings
        all_tasks fresh new_server)
      (settle-Reach floats cedar env listener wire (serves_api alone) (Scheduled floats cedar env)
        fresh _ (later begun (starts readings all_tasks fresh new_server (Permᴰ-refl all_tasks))))

listener-ticking : ticking floats cedar env listener ≡ true
unfolding ticking
listener-ticking = refl

next_reached :
    After floats cedar env listener wire
      (serves_api alone)
      (Scheduled floats cedar env)
      (waiting, (first_state, new_server))
      next_moment
next_reached = then at_once (
    wakes (periodic readings all_tasks) first_state new_server listener-ticking
      (Permᴰ-refl all_tasks))

first_trigger : HasTrigger logged.policy_name first_state.last_trigger
unfolding run ticks
first_trigger = listener-HasTrigger "startup"

serving-IsKept_example :
    IsKept floats cedar env listener logged.policy_name first_trigger.0 next_moment.1.0
serving-IsKept_example =
    serving-IsKept floats cedar env listener env-monotone (omega arith) wire alone fresh
      (routes alone) (Scheduled floats cedar env) logged.policy_name first_trigger.0 alone-set_up
      first_reached next_reached first_trigger.1

run_app-Settles_example :
    Settles floats cedar env (daemon false) fresh (run_app floats cedar env wire serving schedule)
run_app-Settles_example =
    run_app-Settles floats cedar env serving (daemon false) fresh (routes serving) wire schedule
      serving-set_up other_order-perm
      (tt, (tt, (tt, (Permᴰ-refl all_tasks, (Permᴰ-refl all_tasks, tt)))))
