-- ===== src/Api.antt =====
-- internal/api: the JSON server (types.go, handlers.go, server.go) and its sockets' list of clients
-- (websocket.go). The daemon is the server's provider. A handler returns the status and the body of
-- the response; a connection is a number.
pub mod Alerts
pub mod Groups
pub mod Handlers
pub mod Provider
pub mod Routing
pub mod Status
pub mod Terminate
use workloadguard.Base.{
  ℕ, ℤ, nat_eq, Bool, true, not, String, string_eq, List, [], ◌∷◌, ◌++◌, map, ◌==◌, if◌then◌else◌,
  length, drop, leb,
}
use workloadguard.Base.Dict.{Dict, insert, delete, keys}
use workloadguard.Base.Filter.{filter_by}
use workloadguard.Collector.{LoadAverage}

pub record PolicyState : Type 0 where
  pub name : String
  pub process : String
  pub count : ℕ
  pub threshold : ℤ
  pub triggered : Bool
  pub actions : List String
  pub on_cooldown : Bool
  pub reason : String
  pub pids : List ℤ

pub record Alert : Type 0 where
  pub id : String
  pub policy_name : String
  pub severity : String
  pub message : String
  pub timestamp : ℤ
  pub pids : List ℤ

pub record ProcessEntry : Type 0 where
  pub pid : ℤ
  pub ppid : ℤ
  pub name : String
  pub parent_name : String
  pub path : String

pub record ProcessesResponse : Type 0 where
  pub name : String
  pub count : ℕ
  pub processes : List ProcessEntry

pub record TerminateRequest : Type 0 where
  pub pids : List ℤ
  pub policy_name : String
  pub force : Bool

pub record TerminateResponse : Type 0 where
  pub terminated : List ℤ
  pub failed : List ℤ
  pub message : String

pub record StatusResponse : Type 0 where
  pub timestamp : ℤ
  pub load : LoadAverage
  pub cpu_count : ℤ
  pub memory_total : ℕ
  pub memory_free : ℕ
  pub process_count : ℕ
  pub policies : List PolicyState
  pub alerts : List Alert

-- The bodies of the handlers below; an error is its message.
pub data Body : Type 0 where
  status_body : StatusResponse → Body
  policies_body : List PolicyState → Body
  policy_body : PolicyState → Body
  groups_body : List ProcessesResponse → Body
  group_body : ProcessesResponse → Body
  terminate_body : TerminateResponse → Body
  error_body : String → Body

abbrev pub Response : Type 0
Response = ℕ × Body

pub data Message : Type 0 where
  status_message : StatusResponse → Message
  alert_message : Alert → Message
  terminated_message : List ℤ → String → Message

-- A message that was written to a client, and whether the write succeeded.
pub record Attempt : Type 0 where
  pub client : ℕ
  pub message : Message
  pub sent : Bool

-- The JSON library and the network: whether a message can be marshalled, and whether the next write
-- to a client succeeds, after what has been attempted.
pub record Wire : Type 0 where
  pub marshals : Message → Bool
  pub sends : List Attempt → ℕ → Message → Bool

pub record Server : Type 0 where
  pub clients : Dict ℕ Bool
  pub alerts : List Alert
  pub attempts : List Attempt  -- what has been written to the clients, or tried to

abbrev pub new_server : Server
new_server = record { clients = []; alerts = []; attempts = [] }

abbrev pub try_write : ℕ → Message → Bool → Server → Server
try_write client m sent v = record v {
  attempts = v.attempts ++ record { client = client; message = m; sent = sent } ∷ [];
}

-- the loop of `broadcast`: a failed write is only logged, and the client kept
unfoldable pub write_to_all : Wire → Message → List ℕ → Server → Server
write_to_all wire m [] v = v
write_to_all wire m (client ∷ clients) v =
    write_to_all wire m clients (try_write client m (wire.sends v.attempts client m) v)

-- A message that cannot be marshalled is only logged.
unfoldable pub broadcast : Wire → Message → Server → Server
broadcast wire m v = if wire.marshals m then write_to_all wire m (keys v.clients) v else v

-- the last 100 alerts
unfoldable pub keep_alert : Alert → List Alert → List Alert
keep_alert a alerts = (if leb 100 (length alerts) then drop 1 alerts else alerts) ++ a ∷ []

unfoldable pub add_alert : Wire → Alert → Server → Server
add_alert wire a v = broadcast wire (alert_message a) (record v { alerts = keep_alert a v.alerts })

unfoldable pub clear_alerts : String → Server → Server
clear_alerts name v = record v { alerts = filter_by (λ a. not (a.policy_name == name)) v.alerts }

unfoldable pub register_client : ℕ → Server → Server
register_client conn v = record v { clients = insert conn true v.clients }

unfoldable pub unregister_client : ℕ → Server → Server
unregister_client conn v = record v { clients = delete conn v.clients }
