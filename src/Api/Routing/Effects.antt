-- ===== src/Api/Routing/Effects.antt =====
-- What an event at the server does to the daemon (internal/api, internal/daemon/daemon.go).
use workloadguard.Base.{
  ℤ, int_eq, true, List, [], ◌∷◌, Option, none, some, ◌==◌, ◌≡◌, sym, subst, All, All-mono, arith,
  Option-cases, if_intro, Bool-cases, inl, inr,
}
use workloadguard.Base.Filter.{All-filter_by}
use workloadguard.Float.{Floats}
use workloadguard.Collector.{Snapshot, ProcessInfo}
use workloadguard.Collector.Index.{IsIndexed, last_match}
use workloadguard.Collector.Listing.{HasPid}
use workloadguard.System.{Env}
use workloadguard.System.Emits.{Adds-mono}
use workloadguard.Policy.Cedar.{Cedar}
use workloadguard.Policy.Executor.Signals.{SignalsOf}
use workloadguard.Daemon.{State, Daemon}
use workloadguard.Daemon.Watching.{Watches, Watches-refl}
use workloadguard.Daemon.Cycle.{Kept}
use workloadguard.Daemon.Targets.{SignalsTo, SignalsOf-SignalsTo, Watches-Reaches, Reaches}
use workloadguard.Daemon.Provider.{daemon_provider, daemon_clock, daemon_laws}
use workloadguard.Api.Provider.{StatusProvider}
use workloadguard.Api.{Server, Wire, TerminateRequest}
use workloadguard.Api.Handlers.{is_known}
use workloadguard.Api.Terminate.{reachable, handle_terminate-SignalsOf}
use workloadguard.Api.Status.{socket_event}
use workloadguard.Api.Routing.{
  ApiRequest, get_status, get_policies, get_processes, get_policy, get_processes_by_name,
  post_terminate, ApiEvent, requested, connected, status_sent, deadline_set, disconnected,
  status_due, serve, api_event,
}
use workloadguard.Api.Routing.Reading.{
  Reads, Reads-refl, handle_status-Reads, handle_policies-Reads, handle_policy-Reads,
  broadcast_status-Reads, greet_socket-Reads,
}
use workloadguard.Api.Routing.Terminating.{handle_terminate-Kept, handle_terminate_dry}

module _ (fl : Floats) (cedar : Cedar) (env : Env) (d : Daemon fl cedar env) (wire : Wire) where
  abbrev provider : StatusProvider State
  provider = daemon_provider fl cedar env d

  abbrev clock : State → ℤ × State
  clock = daemon_clock env

  -- Any relation that the readers and the terminations are in holds of every event.
  module _ (R : State → State → Type 0) (read : (s s' : State) → Reads s s' → R s s') (s : State)
      (v : Server)
      (terminated : (o : Option TerminateRequest)
        → R s (serve provider clock wire (post_terminate o) (s, v)).1.0) where
    serve-Related : (req : ApiRequest) → R s (serve provider clock wire req (s, v)).1.0
    unfolding serve
    serve-Related get_status = read s _ (handle_status-Reads fl cedar env d s v)
    serve-Related get_policies = read s _ (handle_policies-Reads fl cedar env d s)
    serve-Related (get_policy name) = read s _ (handle_policy-Reads fl cedar env d name s)
    serve-Related get_processes = read s _ (Reads-refl s)
    serve-Related (get_processes_by_name name) = read s _ (Reads-refl s)
    serve-Related (post_terminate o) = terminated o

    pub api_event-Related : (e : ApiEvent) → R s (api_event provider clock wire e (s, v)).0
    unfolding api_event socket_event
    api_event-Related (requested req) = serve-Related req
    api_event-Related (connected conn) = read s _ (Reads-refl s)
    api_event-Related (status_sent conn fine) =
        read s _ (greet_socket-Reads fl cedar env d conn fine s v)
    api_event-Related (deadline_set conn fine) = read s _ (Reads-refl s)
    api_event-Related (disconnected conn) = read s _ (Reads-refl s)
    api_event-Related status_due = read s _ (broadcast_status-Reads fl cedar env d wire s v)

  -- No event changes what a check publishes, nor takes its lock.
  pub api_event-Kept :
      (e : ApiEvent) (s : State) (v : Server) → Kept s (api_event provider clock wire e (s, v)).0
  unfolding serve
  api_event-Kept e s v =
      api_event-Related Kept (λ s s' r. r.kept) s v
        (λ o. handle_terminate-Kept fl cedar env d wire o s v) e

  -- In a dry run, no event touches a process.
  pub api_event-Watches :
      (e : ApiEvent) (s : State) (v : Server)
      → d.config.dry_run ≡ true
      → Watches s (api_event provider clock wire e (s, v)).0
  unfolding serve
  api_event-Watches e s v dry =
      api_event-Related Watches (λ s s' r. r.watches) s v
        (λ o.
          subst (Watches s) (sym (handle_terminate_dry fl cedar env d wire o s v dry))
            (Watches-refl s))
        e

  module _ (Q : ℤ → Type 0) where
    -- What the latest snapshot knows has `Q`.
    abbrev pub Knows : Option Snapshot → Type 0
    Knows none = Unit
    Knows (some snapshot) = (pid : ℤ) → is_known snapshot pid ≡ true → Q pid

    reachable-All :
        (o : Option TerminateRequest) (latest : Option Snapshot)
        → Knows latest
        → All Q (reachable provider o latest)
    reachable-All none latest h = tt
    reachable-All (some req) none h = tt
    reachable-All (some req) (some snapshot) h =
        if_intro (All Q) d.config.dry_run _ _ (λ dry. tt)
          (λ wet.
            All-mono (λ pid. is_known snapshot pid ≡ true) Q _ h
              (All-filter_by (is_known snapshot) req.pids))

    -- The signals of an event go to PIDs that the latest snapshot knows.
    pub api_event-Reaches :
        (e : ApiEvent) (s : State) (v : Server)
        → Knows s.latest_snapshot
        → Reaches Q s (api_event provider clock wire e (s, v)).0
    unfolding serve
    api_event-Reaches e s v h =
        api_event-Related (Reaches Q) (λ s s' r. Watches-Reaches Q r.watches) s v
          (λ o.
            Adds-mono (SignalsOf (reachable provider o s.latest_snapshot)) (SignalsTo Q)
              (SignalsOf-SignalsTo Q (reachable provider o s.latest_snapshot)
                (reachable-All o s.latest_snapshot h))
              (handle_terminate-SignalsOf provider (daemon_laws fl cedar env d) wire o s v))
          e

    -- An index that is right knows the PIDs of its processes only.
    last_match-HasPid :
        (pid : ℤ) (ps : List ProcessInfo) (p : ProcessInfo)
        → All (HasPid Q) ps
        → last_match (λ (q : ProcessInfo). q.pid == pid) ps ≡ some p
        → Q pid
    last_match-HasPid pid [] p h e = ground (arith, e)
    last_match-HasPid pid (q ∷ ps) p h e =
        elim (Option-cases (last_match (λ (x : ProcessInfo). x.pid == pid) ps)) [
          | inr (y, found) ↦ last_match-HasPid pid ps y h.1 found
          | inl lost ↦ elim (Bool-cases (q.pid == pid)) [
            | inl same ↦ subst Q ((int_eq.test_iff q.pid pid).0 same) h.0
            | inr other ↦ ground (arith, e, lost, other)
          ]
        ]

    pub IsIndexed-Knows :
        (snapshot : Snapshot)
        → IsIndexed snapshot
        → All (HasPid Q) snapshot.processes
        → Knows (some snapshot)
    IsIndexed-Knows snapshot i h pid known =
        elim (Option-cases (last_match (λ (x : ProcessInfo). x.pid == pid) snapshot.processes)) [
          | inr (p, found) ↦ last_match-HasPid pid snapshot.processes p h found
          | inl lost ↦ ground (arith, known, i.numbered pid, lost)
        ]
