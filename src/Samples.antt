-- ===== src/Samples.antt =====
-- Concrete data for the tests: a machine with four processes, and answers of the libraries.
use mathlib.Core.List.{Memᴰ, Permᴰ}
use workloadguard.Base.{
  ℤ, pos, Bool, true, false, nat_eq, not, ◌&&◌, ◌||◌, String, string_eq, int_eq, List, [], ◌∷◌,
  Option, none, some, ok, err, ◌==◌, ◌≡◌, refl, if◌then◌else◌, length, length-append, arith, ◌++◌,
  ◌≤ℤ◌,
}
use workloadguard.Base.Dict.{Dict}
use workloadguard.Base.Text.{concat, join, decimal}
use workloadguard.Base.Permuted.{Permᴰ-refl}
use workloadguard.Float.{ord, float_zero, Floats}
use workloadguard.Config.{Config, Policy, is_enabled}
use workloadguard.Collector.{
  Snapshot, Readings, Task, load_task, cpu_task, memory_task, process_task, Process, collect,
}
use workloadguard.Collector.Interleaving.{all_tasks}
use workloadguard.Collector.Index.{IsIndexed, collect-IsIndexed}
use workloadguard.System.{Env, Trace, sent}
use workloadguard.Policy.Cedar.{
  Cedar, Request, convert_to_cedar, policy_text, enabled_texts, generate_cedar_policy,
  when_conditions, load_condition,
}
use workloadguard.Policy.Engine.{Decision, Engine}
use workloadguard.Daemon.{Daemon}
use workloadguard.Api.{Wire}

abbrev pub floats : Floats
floats = record { to_centi = λ x. pos 100; fixed2 = λ x. "1.00"; ratio = λ n d. float_zero }

abbrev pub daemon_asks : Request → Bool
daemon_asks r =
    r.principal.0 == "WorkloadGuard"
    && r.principal.1 == "daemon"
    && r.action.0 == "Action"
    && r.action.1 == "terminate"

-- A reader that takes every text but the empty one for the default policy.
abbrev pub cedar : Cedar
cedar = record {
  PolicySet = Unit {0};
  parse = λ t. if t == "" then err "empty" else ok tt;
  is_authorized = λ set r. daemon_asks r;
}

-- The connection 2 is broken: no write to it succeeds.
abbrev pub wire : Wire
wire = record { marshals = λ m. true; sends = λ done client m. not (client == 2) }

abbrev pub env : Env
env = record {
  find_result = λ t pid. none;
  send_result = λ t pid s. sent;
  wait_result = λ t d. none;
  command_result = λ t args. ok "";
  make_dir_result = λ t dir. none;
  write_result = λ t file text. none;
  clock = λ t. pos (length t);
  stamp = λ time. "now";
  join_path = λ dir file. concat (dir ∷ "/" ∷ file ∷ []);
}

abbrev process : ℤ → ℤ → String → Option Process
process pid ppid name = some (record { pid = pid; ppid = ppid; name = name; path = "" })

abbrev pub readings : Readings
readings = record {
  load = ok (record { load1 = ord (pos 9); load5 = ord (pos 9); load15 = ord (pos 9) });
  cpus = ok (pos 8);
  memory = ok (record { total = 1024; free_bytes = 512 });
  list_pids = ok (pos 1 ∷ pos 10 ∷ pos 11 ∷ pos 12 ∷ []);
  cancelled = λ n. none;
  process_info = λ pid.
      if pid == pos 1
      then process pid (pos 0) "launchd"
      else if pid == pos 10
      then process pid (pos 1) "zsh"
      else process pid (pos 10) "node";
  resource_usage = λ pid. some 64;
}

abbrev pub snapshot : Snapshot
snapshot = (collect (pos 5) readings all_tasks).0

pub snapshot-IsIndexed : IsIndexed snapshot
snapshot-IsIndexed = collect-IsIndexed (pos 5) readings (Permᴰ-refl all_tasks)

abbrev pub node_policy : Policy
node_policy = record {
  process = "node";
  max_count = pos 2;
  conditions = some (record {
    min_load1 = ord (pos 5);
    min_load5 = float_zero;
    parent_process = "zsh";
    exclude_parents = "sshd" ∷ [];
  });
  actions = "log" ∷ "terminate" ∷ [];
  priority = pos 1;
  enabled = none;
}

abbrev pub policies : Dict String Policy
policies = ("node", node_policy) ∷ []

abbrev pub config : Bool → Config
config dry_run = record {
  periodic_interval = pos 60_000_000_000;
  load_poll_interval = pos 5_000_000_000;
  load_threshold = ord (pos 7);
  log_level = "info";
  log_path = "";
  diagnostics_path = "/tmp";
  dry_run = dry_run;
  grace_period = pos 3;
  cooldown = pos 60;
  policies = policies;
}

abbrev pub decision : Decision
decision = record {
  policy_name = "node";
  triggered = true;
  reason = "2 processes";
  actions = "log" ∷ "terminate" ∷ [];
  pids = pos 11 ∷ pos 12 ∷ [];
  process_name = "node";
}

abbrev pub engine : Engine floats cedar
engine = record { policies = policies; policy_set = tt }

abbrev pub daemon : Bool → Daemon floats cedar env
daemon dry_run = record { config = config dry_run; engine = engine; diagnostics = some "/tmp" }

-- the goroutine of the CPU count before that of the load
abbrev pub other_order : List Task
other_order = cpu_task ∷ load_task ∷ memory_task ∷ process_task ∷ []

pub other_order-perm : Permᴰ other_order all_tasks
other_order-perm = Permᴰ.swap refl refl

-- A joined text that is not empty comes from some text.
pub texts_of_ok :
    (texts : List String) (set : Unit {0})
    → cedar.parse (join "\n" texts) ≡ ok set
    → (t : String) × Memᴰ t texts
unfolding join
texts_of_ok [] set h = absurd (ground arith)
texts_of_ok (t ∷ texts) set h = (t, Memᴰ.head refl)

pub decided : (b : Bool) → b ≡ (b || false) && true
decided b = ground arith

pub asked :
    (r : Request)
    → r.principal ≡ ("WorkloadGuard", "daemon")
    → r.action ≡ ("Action", "terminate")
    → daemon_asks r ≡ true
asked r who what = rw (who, what) refl

pub policies_parse : convert_to_cedar floats cedar policies ≡ ok tt
unfolding convert_to_cedar policy_text enabled_texts generate_cedar_policy when_conditions
    load_condition is_enabled join decimal
policies_parse = refl

pub env-monotone : (t new : Trace) → env.clock t ≤ℤ env.clock (new ++ t)
env-monotone t new = omega (arith, length-append new t)
