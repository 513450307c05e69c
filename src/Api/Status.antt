-- ===== src/Api/Status.antt =====
-- The status, one policy, and the sockets of internal/api (server.go, handlers.go, websocket.go).
pub mod Single
pub mod Sockets
use workloadguard.Base.{
  ℕ, ℤ, pos, nat_eq, Bool, false, String, string_eq, List, [], ◌∷◌, ◌++◌, Option, none, some, ◌==◌,
  if◌then◌else◌, length,
}
use workloadguard.Base.Dict.{lookup}
use workloadguard.Float.{float_zero}
use workloadguard.Config.{Policy}
use workloadguard.Collector.{Snapshot, LoadAverage}
use workloadguard.Policy.Engine.{Decision}
use workloadguard.Api.Provider.{StatusProvider}
use workloadguard.Api.{
  PolicyState, Alert, StatusResponse, status_body, policy_body, error_body, Response, Message, Wire,
  status_message, Server, try_write, broadcast, register_client, unregister_client,
}
use workloadguard.Api.Handlers.{policy_states}

-- What a snapshot is summed up to.
pub record Summary : Type 0 where
  pub load : LoadAverage
  pub cpu_count : ℤ
  pub memory_total : ℕ
  pub memory_free : ℕ
  pub process_count : ℕ

unfoldable pub from_collector_snapshot : Snapshot → Summary
from_collector_snapshot s = record {
  load = s.load_average;
  cpu_count = s.cpu_count;
  memory_total = s.memory.total;
  memory_free = s.memory.free_bytes;
  process_count = length s.processes;
}

abbrev pub summary_of : Option Snapshot → Summary
summary_of none = record {
  load = record { load1 = float_zero; load5 = float_zero; load15 = float_zero };
  cpu_count = pos 0;
  memory_total = 0;
  memory_free = 0;
  process_count = 0;
}
summary_of (some s) = from_collector_snapshot s

-- What happens to the sockets. The goroutine of an upgraded connection registers it, greets it with
-- the status, and sets its deadline; other events may come between. The last two may fail.
pub data SocketEvent : Type 0 where
  registered : ℕ → SocketEvent
  greeted readied : ℕ → Bool → SocketEvent
  ended : ℕ → SocketEvent  -- the read loop or a ping has failed
  broadcasts : Message → SocketEvent

-- a policy of the configuration that has not been evaluated
abbrev pub unevaluated : String → Policy → PolicyState
unevaluated name p = record {
  name = name;
  process = p.process;
  count = 0;
  threshold = p.max_count;
  triggered = false;
  actions = p.actions;
  on_cooldown = false;
  reason = "";
  pids = [];
}

module _ {S : Type 0} (provider : StatusProvider S) where
  -- what `handlePolicy` makes of a decision of the policy asked for
  unfoldable pub found_state : String → Policy → Decision → S → PolicyState × S
  found_state name p e s =
      let (cooling, s') = provider.is_on_cooldown name s in
      (
        record {
          name = e.policy_name;
          process = e.process_name;
          count = length e.pids;
          threshold = p.max_count;
          triggered = e.triggered;
          actions = e.actions;
          on_cooldown = cooling;
          reason = e.reason;
          pids = if e.triggered then e.pids else [];
        },
        s',
      )

  -- the loop of `handlePolicy` over the decisions
  unfoldable pub find_state : String → Policy → List Decision → S → PolicyState × S
  find_state name p [] s = (unevaluated name p, s)
  find_state name p (e ∷ es) s =
      let rest = find_state name p es s in
      if e.policy_name == name then found_state name p e s else rest

  abbrev pub policy_response : String → Option Policy → S → Response × S
  policy_response name none s = ((404, error_body "policy not found"), s)
  policy_response name (some p) s =
      let (state, s') = find_state name p (provider.decisions s) s in ((200, policy_body state), s')

  unfoldable pub handle_policy : String → S → Response × S
  handle_policy name s =
      if name == ""
      then ((400, error_body "policy name required"), s)
      else policy_response name (lookup name provider.config.policies) s

module _ {S : Type 0} (provider : StatusProvider S) (clock : S → ℤ × S) where
  unfoldable pub build_status_response : List Alert → S → StatusResponse × S
  build_status_response alerts s =
      let (states, s₁) = policy_states provider (provider.decisions s) s in
      let (time, s₂) = clock s₁ in
      let sum = summary_of (provider.snapshot s) in
      (
        record {
          timestamp = time;
          load = sum.load;
          cpu_count = sum.cpu_count;
          memory_total = sum.memory_total;
          memory_free = sum.memory_free;
          process_count = sum.process_count;
          policies = states;
          alerts = alerts;
        },
        s₂,
      )

  unfoldable pub handle_status : S × Server → Response × S
  handle_status (s, v) =
      let (status, s') = build_status_response v.alerts s in ((200, status_body status), s')

  unfoldable pub broadcast_status : Wire → S × Server → S × Server
  broadcast_status wire (s, v) =
      let (status, s') = build_status_response v.alerts s in
      (s', broadcast wire (status_message status) v)

  -- The status is written to the socket. Where that fails the handler returns, which unregisters it.
  unfoldable pub greet_socket : ℕ → Bool → S × Server → S × Server
  greet_socket conn fine (s, v) =
      let (status, s') = build_status_response v.alerts s in
      let v' = try_write conn (status_message status) fine v in
      (s', if fine then v' else unregister_client conn v')

  unfoldable pub socket_event : Wire → SocketEvent → S × Server → S × Server
  socket_event wire (registered conn) (s, v) = (s, register_client conn v)
  socket_event wire (greeted conn fine) sv = greet_socket conn fine sv
  socket_event wire (readied conn fine) (s, v) = (s, if fine then v else unregister_client conn v)
  socket_event wire (ended conn) (s, v) = (s, unregister_client conn v)
  socket_event wire (broadcasts m) (s, v) = (s, broadcast wire m v)

  unfoldable pub socket_events : Wire → List SocketEvent → S × Server → S × Server
  socket_events wire [] sv = sv
  socket_events wire (e ∷ es) sv = socket_events wire es (socket_event wire e sv)

unfoldable pub client_count : Server → ℕ
client_count v = length v.clients
