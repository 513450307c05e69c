-- ===== src/Api/Status/Sockets.antt =====
-- Which sockets a broadcast reaches (internal/api/websocket.go, server.go).
use workloadguard.Base.{
  ℕ, ℤ, nat_eq, Bool, true, false, ◌&&◌, List, [], ◌∷◌, ◌++◌, map, none, some, ◌≡◌, ◌==◌,
  if◌then◌else◌, All,
}
use workloadguard.Base.Dict.{Dict, lookup}
use workloadguard.Api.Provider.{StatusProvider}
use workloadguard.Api.{Message, Attempt, Wire, Server, new_server}
use workloadguard.Api.Status.{
  SocketEvent, registered, greeted, readied, ended, broadcasts, socket_events,
}

-- Whether the socket is among the clients after the event, where `before` says whether it was: it
-- is from its registration on, until it has ended, or its greeting or its deadline has failed.
abbrev pub is_client_after : ℕ → SocketEvent → Bool → Bool
is_client_after c (registered conn) before = if conn == c then true else before
is_client_after c (greeted conn fine) before = if conn == c then before && fine else before
is_client_after c (readied conn fine) before = if conn == c then before && fine else before
is_client_after c (ended conn) before = if conn == c then false else before
is_client_after c (broadcasts m) before = before

abbrev pub is_client : ℕ → List SocketEvent → Bool → Bool
is_client c [] before = before
is_client c (e ∷ es) before = is_client c es (is_client_after c e before)

abbrev Shows : ℕ → Bool → Server → Type 0
Shows c live v = lookup c v.clients ≡ (if live then some true else none)

module _ (wire : Wire) (m : Message) where
  -- Each of the connections is written to once, in order, with the message, whether the writes
  -- before it succeed or not; nothing else changes.
  abbrev pub WritesTo : List ℕ → Server → Server → Type 0
  WritesTo cs v v' =
      (new : List Attempt) × (v'.attempts ≡ v.attempts ++ new)
      × (map (λ (a : Attempt). a.client) new ≡ cs)
      × All (λ (a : Attempt). a.message ≡ m) new
      × (v'.clients ≡ v.clients)
      × (v'.alerts ≡ v.alerts)

module _ {S : Type 0} (provider : StatusProvider S) (clock : S → ℤ × S) (wire : Wire) where
  abbrev pub after_events : List SocketEvent → S → Server
  after_events es s = (socket_events provider clock wire es (s, new_server)).1
