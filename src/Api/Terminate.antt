-- ===== src/Api/Terminate.antt =====
-- `handleTerminate` of internal/api/handlers.go.
use mathlib.Core.List.{Permᴰ}
use workloadguard.Base.{
  ℤ, Bool, false, List, [], ◌∷◌, ◌++◌, Option, none, some, ◌≡◌, ◌≢◌, refl, if_intro, if◌then◌else◌,
  length, beq_ℕ, arith, Bool-cases, inl, inr,
}
use workloadguard.Base.Filter.{filter_by}
use workloadguard.Base.Permuted.{Permᴰ-refl}
use workloadguard.Collector.{Snapshot}
use workloadguard.System.Emits.{Adds, Adds-refl}
use workloadguard.Policy.Executor.Signals.{SignalsOf}
use workloadguard.Api.Provider.{StatusProvider, ProviderLaws}
use workloadguard.Api.{Server, Wire, Response, TerminateRequest, TerminateResponse, terminate_body}
use workloadguard.Api.Handlers.{is_known, terminate_valid, terminate_in, handle_terminate}

module _ {S : Type 0} (provider : StatusProvider S) where
  -- The PIDs that a request may reach: those of it that the latest snapshot knows, and none without
  -- a snapshot, on a body that does not decode, or in a dry run.
  abbrev pub reachable : Option TerminateRequest → Option Snapshot → List ℤ
  reachable none o = []
  reachable (some req) none = []
  reachable (some req) (some snapshot) =
      if provider.config.dry_run then [] else filter_by (is_known snapshot) req.pids

module _ {S : Type 0} (provider : StatusProvider S) (laws : ProviderLaws provider)
    (wire : Wire) where
  terminate_valid-SignalsOf :
      (req : TerminateRequest) (valid : List ℤ) (s : S) (v : Server)
      → Adds
          (SignalsOf (if provider.config.dry_run then [] else valid))
          (laws.trace s)
          (laws.trace (terminate_valid provider wire req valid (s, v)).1.0)
  unfolding terminate_valid
  terminate_valid-SignalsOf req valid s v = elim (Bool-cases provider.config.dry_run) [
    | inl dry ↦ rw dry (
        if_intro
          (λ (r : Response × (S × Server)). Adds (SignalsOf []) (laws.trace s) (laws.trace r.1.0))
          (beq_ℕ (length valid) 0) _ _ (λ nobody. Adds-refl (SignalsOf []) (laws.trace s))
          (λ somebody. Adds-refl (SignalsOf []) (laws.trace s)))
    | inr wet ↦ rw wet (
        if_intro
          (λ (r : Response × (S × Server)).
            Adds (SignalsOf valid) (laws.trace s) (laws.trace r.1.0))
          (beq_ℕ (length valid) 0) _ _ (λ nobody. Adds-refl (SignalsOf valid) (laws.trace s))
          (λ somebody. laws.signals req.force valid s))
  ]

  terminate_in-SignalsOf :
      (req : TerminateRequest) (o : Option Snapshot) (s : S) (v : Server)
      → Adds
          (SignalsOf (reachable provider (some req) o))
          (laws.trace s)
          (laws.trace (terminate_in provider wire req o (s, v)).1.0)
  terminate_in-SignalsOf req none s v = Adds-refl (SignalsOf []) (laws.trace s)
  terminate_in-SignalsOf req (some snapshot) s v =
      terminate_valid-SignalsOf req (filter_by (is_known snapshot) req.pids) s v

  -- Of a provider that keeps to its laws, the API has signalled only PIDs of the request that the
  -- latest snapshot knows, and none in a dry run.
  pub handle_terminate-SignalsOf :
      (o : Option TerminateRequest) (s : S) (v : Server)
      → Adds
          (SignalsOf (reachable provider o (provider.snapshot s)))
          (laws.trace s)
          (laws.trace (handle_terminate provider wire o (s, v)).1.0)
  unfolding handle_terminate
  handle_terminate-SignalsOf none s v = Adds-refl (SignalsOf []) (laws.trace s)
  handle_terminate-SignalsOf (some req) s v =
      let goal = reachable provider (some req) (provider.snapshot s) in
      if_intro
        (λ (r : Response × (S × Server)). Adds (SignalsOf goal) (laws.trace s) (laws.trace r.1.0))
        (beq_ℕ (length req.pids) 0) _ _ (λ nobody. Adds-refl (SignalsOf goal) (laws.trace s))
        (λ somebody. terminate_in-SignalsOf req (provider.snapshot s) s v)

  -- a request whose valid PIDs are not none
  terminate_valid-perm :
      (req : TerminateRequest) (valid : List ℤ) (s : S) (v : Server)
      → valid ≢ []
      → (t : TerminateResponse) × ((terminate_valid provider wire req valid (s, v)).0
          ≡ (200, terminate_body t))
        × Permᴰ valid (t.terminated ++ t.failed)
        × (t.terminated ≡ (if provider.config.dry_run then [] else t.terminated))
  unfolding terminate_valid
  terminate_valid-perm req [] s v given = absurd (given refl)
  terminate_valid-perm req (pid ∷ valid) s v given =
      let some_pid : beq_ℕ (length (pid ∷ valid)) 0 ≡ false = ground arith in
      elim (Bool-cases provider.config.dry_run) [
        | inl dry ↦ rw (some_pid, dry) (_, refl, Permᴰ-refl (pid ∷ valid), refl)
        | inr wet ↦ rw (some_pid, wet) (_, refl, laws.reported req.force (pid ∷ valid) s, refl)
      ]

  filter_by-given :
      (p : ℤ → Bool) (pids : List ℤ) → filter_by p pids ≢ [] → beq_ℕ (length pids) 0 ≡ false
  filter_by-given p [] given = absurd (given refl)
  filter_by-given p (pid ∷ pids) given = ground arith

  terminate_in-perm :
      (req : TerminateRequest) (o : Option Snapshot) (s : S) (v : Server) (snapshot : Snapshot)
      → o ≡ some snapshot
      → filter_by (is_known snapshot) req.pids ≢ []
      → (t : TerminateResponse) × ((terminate_in provider wire req o (s, v)).0
          ≡ (200, terminate_body t))
        × Permᴰ (filter_by (is_known snapshot) req.pids) (t.terminated ++ t.failed)
        × (t.terminated ≡ (if provider.config.dry_run then [] else t.terminated))
  terminate_in-perm req o s v snapshot latest given =
      rw latest (terminate_valid-perm req (filter_by (is_known snapshot) req.pids) s v given)

  -- Of a provider that keeps to its laws, a request with a PID that the snapshot knows is answered
  -- with 200, and the response names each such PID exactly once, as terminated or as failed; in a dry
  -- run, all as failed.
  pub handle_terminate-perm :
      (req : TerminateRequest) (s : S) (v : Server) (snapshot : Snapshot)
      → provider.snapshot s ≡ some snapshot
      → filter_by (is_known snapshot) req.pids ≢ []
      → (t : TerminateResponse) × ((handle_terminate provider wire (some req) (s, v)).0
          ≡ (200, terminate_body t))
        × Permᴰ (filter_by (is_known snapshot) req.pids) (t.terminated ++ t.failed)
        × (t.terminated ≡ (if provider.config.dry_run then [] else t.terminated))
  unfolding handle_terminate
  handle_terminate-perm req s v snapshot latest given =
      rw (filter_by-given (is_known snapshot) req.pids given)
        (terminate_in-perm req (provider.snapshot s) s v snapshot latest given)
