-- ===== src/Tests/Serving.antt =====
-- The theorems on the HTTP handlers and the alerts, on concrete data.
use workloadguard.Api.{
  Alert, TerminateRequest, TerminateResponse, new_server, terminate_body, ProcessEntry, groups_body,
  group_body, PolicyState, policies_body, policy_body,
}
use workloadguard.Api.Handlers.{
  is_known, handle_terminate, group_response, handle_processes, handle_processes_by_name,
  handle_policies,
}
use workloadguard.Api.Alerts.{adds, calls, calls-adds, latest}
use workloadguard.Api.Terminate.{reachable, handle_terminate-SignalsOf, handle_terminate-perm}
use workloadguard.System.Emits.{Adds}
use workloadguard.Daemon.{State, fresh}
use workloadguard.Base.{
  List, true, ◌≢◌, pos, false, int_eq, string_eq, [], ◌∷◌, some, refl, ◌≡◌, String, map,
  if◌then◌else◌, arith, ◌++◌,
}
use workloadguard.Collector.{
  process_by_pid, run_tasks, apply_task, collect_processes, read_processes, read_process,
  store_processes, index_by_pid, resolve_parent, collect,
}
use workloadguard.Base.Filter.{filter_by}
use workloadguard.Policy.Executor.Signals.{SignalsOf}
use mathlib.Core.List.{Permᴰ}
use workloadguard.Daemon.Provider.{daemon_provider, daemon_laws}
use workloadguard.Samples.{
  wire, floats, cedar, env, snapshot, daemon, snapshot-IsIndexed, decision, node_policy,
}
use workloadguard.Base.Dict.{Dict, get_or}
use workloadguard.Api.Groups.{handle_processes-by_name}
use workloadguard.Api.Status.{unevaluated, handle_policy}
use workloadguard.Api.Status.Single.{without_cooldown, first_named, handle_policy-handle_policies}

abbrev alert : String → Alert
alert name = record {
  id = "1";
  policy_name = name;
  severity = "warning";
  message = "2 processes";
  timestamp = pos 1;
  pids = pos 11 ∷ [];
}

calls-adds_example :
    (calls wire (map adds (alert "node" ∷ alert "vim" ∷ [])) new_server).alerts
    ≡ latest (alert "node" ∷ alert "vim" ∷ [])
calls-adds_example = calls-adds wire (alert "node" ∷ alert "vim" ∷ [])

abbrev observed : State
observed = record fresh { latest_snapshot = some snapshot }

abbrev terminate_request : TerminateRequest
terminate_request = record { pids = pos 11 ∷ pos 99 ∷ []; policy_name = "node"; force = true }

handle_terminate-SignalsOf_example :
    Adds
      (SignalsOf (
        reachable
          (daemon_provider floats cedar env (daemon false))
          (some terminate_request)
          (some snapshot)))
      []
      (handle_terminate
        (daemon_provider floats cedar env (daemon false))
        wire
        (some terminate_request)
        (observed, new_server)).1.0.trace
handle_terminate-SignalsOf_example =
    handle_terminate-SignalsOf (daemon_provider floats cedar env (daemon false))
      (daemon_laws floats cedar env (daemon false)) wire (some terminate_request) observed
      new_server

known_given : filter_by (is_known snapshot) terminate_request.pids ≢ []
unfolding process_by_pid collect run_tasks apply_task collect_processes read_processes read_process
    store_processes index_by_pid resolve_parent
known_given e = ground (arith, e)

handle_terminate-perm_example :
    (t : TerminateResponse) × ((handle_terminate
        (daemon_provider floats cedar env (daemon false))
        wire
        (some terminate_request)
        (observed, new_server)).0
      ≡ (200, terminate_body t))
    × Permᴰ (filter_by (is_known snapshot) terminate_request.pids) (t.terminated ++ t.failed)
    × (t.terminated ≡ (if (daemon false).config.dry_run then [] else t.terminated))
handle_terminate-perm_example =
    handle_terminate-perm (daemon_provider floats cedar env (daemon false))
      (daemon_laws floats cedar env (daemon false)) wire terminate_request observed new_server
      snapshot refl known_given

abbrev node_name : String
node_name = "node"

node-named : node_name ≢ ""
node-named e = ground (arith, (string_eq.test_iff "node" "").1 e)

handle_processes-by_name_example :
    (groups : Dict String (List ProcessEntry)) × (handle_processes (some snapshot)
      ≡ (200, groups_body (map group_response groups)))
    × (handle_processes_by_name "node" (some snapshot)
        ≡ (200, group_body (group_response ("node", get_or "node" [] groups))))
handle_processes-by_name_example =
    handle_processes-by_name snapshot "node" snapshot-IsIndexed node-named

abbrev decided_state : State
decided_state = record observed { latest_decisions = decision ∷ [] }

handle_policy-handle_policies_example :
    (one : PolicyState) × (all : List PolicyState) × ((handle_policy
        (daemon_provider floats cedar env (daemon false))
        node_name
        decided_state).0
      ≡ (200, policy_body one))
    × ((handle_policies (daemon_provider floats cedar env (daemon false)) decided_state).0
        ≡ (200, policies_body all))
    × (without_cooldown one
        ≡ without_cooldown (first_named node_name (unevaluated node_name node_policy) all))
handle_policy-handle_policies_example =
    handle_policy-handle_policies (daemon_provider floats cedar env (daemon false)) node_name
      node_policy refl decided_state node-named
