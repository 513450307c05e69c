-- ===== src/Api/Routing.antt =====
-- The server's routes as one function, and what else happens to it (internal/api/server.go and
-- handlers.go; the periodic broadcast of internal/app/app.go).
pub mod Effects
pub mod Reading
pub mod Terminating
use workloadguard.Base.{ℕ, ℤ, Bool, String, Option}
use workloadguard.Api.Provider.{StatusProvider}
use workloadguard.Api.{TerminateRequest, Response, Message, Wire, Server}
use workloadguard.Api.Handlers.{
  handle_processes, handle_processes_by_name, handle_policies, handle_terminate,
}
use workloadguard.Api.Status.{
  handle_status, handle_policy, broadcast_status, socket_event, registered, greeted, readied, ended,
}

-- A request under one of the patterns, with its wildcard; of a termination, the decoded body.
pub data ApiRequest : Type 0 where
  get_status get_policies get_processes : ApiRequest
  get_policy get_processes_by_name : String → ApiRequest
  post_terminate : Option TerminateRequest → ApiRequest

-- What happens to the server: a request; a connection that is upgraded, that is sent the status or
-- given its deadline, with success or not; one that has ended; the ticker of the status.
pub data ApiEvent : Type 0 where
  requested : ApiRequest → ApiEvent
  connected disconnected : ℕ → ApiEvent
  status_sent deadline_set : ℕ → Bool → ApiEvent
  status_due : ApiEvent

abbrev pub beside : {S : Type 0} → Server → Response × S → Response × (S × Server)
beside v (r, s) = (r, (s, v))

module _ {S : Type 0} (provider : StatusProvider S) (clock : S → ℤ × S) (wire : Wire) where
  unfoldable pub serve : ApiRequest → S × Server → Response × (S × Server)
  serve get_status (s, v) = beside v (handle_status provider clock (s, v))
  serve get_policies (s, v) = beside v (handle_policies provider s)
  serve (get_policy name) (s, v) = beside v (handle_policy provider name s)
  serve get_processes (s, v) = (handle_processes (provider.snapshot s), (s, v))
  serve (get_processes_by_name name) (s, v) =
      (handle_processes_by_name name (provider.snapshot s), (s, v))
  serve (post_terminate req) sv = handle_terminate provider wire req sv

  unfoldable pub api_event : ApiEvent → S × Server → S × Server
  api_event (requested req) sv = (serve req sv).1
  api_event (connected conn) sv = socket_event provider clock wire (registered conn) sv
  api_event (status_sent conn fine) sv = socket_event provider clock wire (greeted conn fine) sv
  api_event (deadline_set conn fine) sv = socket_event provider clock wire (readied conn fine) sv
  api_event (disconnected conn) sv = socket_event provider clock wire (ended conn) sv
  api_event status_due sv = broadcast_status provider clock wire sv
