-- ===== src/Api/Routing/Terminating.antt =====
-- What `handleTerminate` (internal/api/handlers.go) leaves as it was.
use workloadguard.Base.{
  ℤ, Bool, true, false, String, List, [], ◌∷◌, Option, none, some, ◌≡◌, refl, if_intro, arith,
  length, beq_ℕ, All, if◌then◌else◌,
}
use workloadguard.Base.Filter.{filter_by, All-filter_by}
use workloadguard.Float.{Floats}
use workloadguard.Collector.{Snapshot}
use workloadguard.System.{Env}
use workloadguard.Policy.Cedar.{Cedar}
use workloadguard.Policy.Executor.{term, kill}
use workloadguard.Daemon.{State, Daemon, perform, terminate, count_termination}
use workloadguard.Daemon.Cycle.{Kept, Kept-refl, Kept-trans, with_metrics-Kept}
use workloadguard.Daemon.Provider.{daemon_provider}
use workloadguard.Api.Provider.{StatusProvider}
use workloadguard.Api.{Server, Wire, Response, TerminateRequest}
use workloadguard.Api.Handlers.{is_known, terminate_valid, terminate_in, handle_terminate}

module _ (fl : Floats) (cedar : Cedar) (env : Env) where
  count_termination-Kept :
      (force : Bool) (failed : Option String) (s : State)
      → Kept s (count_termination fl cedar env force failed s)
  count_termination-Kept force (some e) s = Kept-refl s
  count_termination-Kept force none s = with_metrics-Kept _ s

  terminate-Kept :
      (force : Bool) (pids : List ℤ) (s : State) → Kept s (terminate fl cedar env force pids s).1
  unfolding terminate
  terminate-Kept force [] s = Kept-refl s
  terminate-Kept force (pid ∷ pids) s =
      let r = perform (if force then kill env pid else term env pid) s in
      let k = count_termination-Kept force r.0 r.1 in
      Kept-trans (record { snapshot = k.snapshot; decisions = k.decisions; lock = k.lock })
        (terminate-Kept force pids (count_termination fl cedar env force r.0 r.1))

  module _ (d : Daemon fl cedar env) (wire : Wire) where
    abbrev provider : StatusProvider State
    provider = daemon_provider fl cedar env d

    -- A property of the state that `Terminate` keeps, for PIDs that the latest snapshot knows and
    -- outside of a dry run, is kept by the handler.
    module _ (P : State → Type 0) (s : State) (v : Server) (before : P s)
        (called : (snapshot : Snapshot) (force : Bool) (pids : List ℤ)
          → s.latest_snapshot ≡ some snapshot
          → All (λ pid. is_known snapshot pid ≡ true) pids
          → d.config.dry_run ≡ false
          → P (terminate fl cedar env force pids s).1) where
      abbrev After : Response × (State × Server) → Type 0
      After r = P r.1.0

      terminate_valid_keeps :
          (req : TerminateRequest) (snapshot : Snapshot) (valid : List ℤ)
          → s.latest_snapshot ≡ some snapshot
          → All (λ pid. is_known snapshot pid ≡ true) valid
          → After (terminate_valid provider wire req valid (s, v))
      unfolding terminate_valid
      terminate_valid_keeps req snapshot valid latest known =
          if_intro After (beq_ℕ (length valid) 0) _ _ (λ nobody. before)
            (λ somebody.
              if_intro After d.config.dry_run _ _ (λ dry. before)
                (λ wet. called snapshot req.force valid latest known wet))

      terminate_in_keeps :
          (req : TerminateRequest) (o : Option Snapshot)
          → s.latest_snapshot ≡ o
          → After (terminate_in provider wire req o (s, v))
      terminate_in_keeps req none latest = before
      terminate_in_keeps req (some snapshot) latest =
          terminate_valid_keeps req snapshot (filter_by (is_known snapshot) req.pids) latest
            (All-filter_by (is_known snapshot) req.pids)

      pub handle_terminate_keeps :
          (o : Option TerminateRequest) → After (handle_terminate provider wire o (s, v))
      unfolding handle_terminate
      handle_terminate_keeps none = before
      handle_terminate_keeps (some req) =
          if_intro After (beq_ℕ (length req.pids) 0) _ _ (λ nobody. before)
            (λ somebody. terminate_in_keeps req s.latest_snapshot refl)

    pub handle_terminate-Kept :
        (o : Option TerminateRequest) (s : State) (v : Server)
        → Kept s (handle_terminate provider wire o (s, v)).1.0
    handle_terminate-Kept o s v =
        handle_terminate_keeps (Kept s) s v (Kept-refl s)
          (λ snapshot force pids latest known wet. terminate-Kept force pids s) o

    pub handle_terminate_dry :
        (o : Option TerminateRequest) (s : State) (v : Server)
        → d.config.dry_run ≡ true
        → (handle_terminate provider wire o (s, v)).1.0 ≡ s
    handle_terminate_dry o s v dry =
        handle_terminate_keeps (λ t. t ≡ s) s v refl
          (λ snapshot force pids latest known wet. ground (arith, dry, wet)) o
