-- ===== src/Api/Handlers.antt =====
-- The handlers of policies, processes and terminations (internal/api/handlers.go, types.go).
use workloadguard.Base.{
  ℤ, pos, int_eq, nat_eq, Bool, true, false, String, string_eq, List, [], ◌∷◌, map, Option, none,
  some, ◌==◌, if◌then◌else◌, length, beq_ℕ,
}
use workloadguard.Base.Dict.{Dict, lookup, append_at}
use workloadguard.Base.Filter.{filter_by}
use workloadguard.Collector.{Snapshot, ProcessInfo, process_by_pid, processes_by_name}
use workloadguard.Policy.Engine.{Decision}
use workloadguard.Api.Provider.{StatusProvider}
use workloadguard.Api.{
  PolicyState, ProcessEntry, ProcessesResponse, TerminateRequest, policies_body, groups_body,
  group_body, terminate_body, error_body, Response, Wire, terminated_message, Server, broadcast,
}

unfoldable pub from_collector_processes : List ProcessInfo → List ProcessEntry
from_collector_processes = map λ p. record {
  pid = p.pid;
  ppid = p.ppid;
  name = p.name;
  parent_name = p.parent_name;
  path = p.path;
}

-- the groups of `handleProcesses`
unfoldable pub group_processes :
    Dict String (List ProcessEntry) → List ProcessInfo → Dict String (List ProcessEntry)
group_processes m [] = m
group_processes m (p ∷ ps) =
    let info : ProcessEntry = record {
      pid = p.pid;
      ppid = p.ppid;
      name = p.name;
      parent_name = p.parent_name;
      path = p.path;
    } in
    group_processes (append_at p.name info m) ps

abbrev pub group_response : String × List ProcessEntry → ProcessesResponse
group_response (name, ps) = record { name = name; count = length ps; processes = ps }

unfoldable pub handle_processes : Option Snapshot → Response
handle_processes none = (200, groups_body [])
handle_processes (some s) = (200, groups_body (map group_response (group_processes [] s.processes)))

unfoldable pub handle_processes_by_name : String → Option Snapshot → Response
handle_processes_by_name name snapshot =
    if name == "" then (400, error_body "process name required") else elim snapshot [
      | none ↦ (200, group_body (record { name = name; count = 0; processes = [] }))
      | some s ↦
          let ps = processes_by_name s name in
          (
            200,
            group_body (record {
              name = name;
              count = length ps;
              processes = from_collector_processes ps;
            }),
          )
    ]

abbrev pub is_known : Snapshot → ℤ → Bool
is_known snapshot pid = elim (process_by_pid snapshot pid) [ none ↦ false | some p ↦ true ]

module _ {S : Type 0} (provider : StatusProvider S) where
  -- one round of `FromPolicyDecisions`, with the threshold that the handlers add
  unfoldable pub policy_state : ℤ → Decision → S → PolicyState × S
  policy_state threshold e s =
      let (cooling, s') = provider.is_on_cooldown e.policy_name s in
      (
        record {
          name = e.policy_name;
          process = e.process_name;
          count = length e.pids;
          threshold = threshold;
          triggered = e.triggered;
          actions = e.actions;
          on_cooldown = cooling;
          reason = e.reason;
          pids = if e.triggered then e.pids else [];
        },
        s',
      )

  abbrev pub threshold_at : String → ℤ
  threshold_at name = elim (lookup name provider.config.policies) [
    | none ↦ pos 0
    | some p ↦ p.max_count
  ]

  unfoldable pub policy_states : List Decision → S → List PolicyState × S
  policy_states [] s = ([], s)
  policy_states (e ∷ es) s =
      let (state, s₁) = policy_state (threshold_at e.policy_name) e s in
      let (states, s₂) = policy_states es s₁ in (state ∷ states, s₂)

  unfoldable pub handle_policies : S → Response × S
  handle_policies s =
      let (states, s') = policy_states (provider.decisions s) s in ((200, policies_body states), s')

  -- what follows the choice of the valid PIDs
  unfoldable pub terminate_valid :
      Wire → TerminateRequest → List ℤ → S × Server → Response × (S × Server)
  terminate_valid wire req valid (s, v) =
      if beq_ℕ (length valid) 0
      then ((400, error_body "no valid PIDs in current snapshot"), (s, v))
      else if provider.config.dry_run
      then (
        (
          200,
          terminate_body (record {
            terminated = [];
            failed = valid;
            message = "dry-run mode: no processes terminated";
          }),
        ),
        (s, v),
      )
      else (let (lists, s') = provider.terminate req.force valid s in
          (
            (
              200,
              terminate_body (record {
                terminated = lists.0;
                failed = lists.1;
                message = "processes terminated";
              }),
            ),
            (s', broadcast wire (terminated_message lists.0 req.policy_name) v),
          ))

  abbrev pub terminate_in :
      Wire → TerminateRequest → Option Snapshot → S × Server → Response × (S × Server)
  terminate_in wire req none sv = ((503, error_body "no snapshot available"), sv)
  terminate_in wire req (some snapshot) sv =
      terminate_valid wire req (filter_by (is_known snapshot) req.pids) sv

  -- `none` is a body that does not decode
  unfoldable pub handle_terminate :
      Wire → Option TerminateRequest → S × Server → Response × (S × Server)
  handle_terminate wire none sv = ((400, error_body "invalid request body"), sv)
  handle_terminate wire (some req) (s, v) =
      if beq_ℕ (length req.pids) 0
      then ((400, error_body "no PIDs specified"), (s, v))
      else terminate_in wire req (provider.snapshot s) (s, v)
