-- ===== src/App/Serving/Invariant.antt =====
-- The check's lock and what is published, at every moment of a run with the API (internal/app,
-- internal/api and internal/daemon).
use mathlib.Core.List.{Permᴰ, append_assoc}
use workloadguard.Base.{
  ℤ, Bool, true, false, String, List, [], ◌∷◌, ◌++◌, Option, none, some, ok, err, ◌≡◌, refl, sym,
  subst, ◌∙◌, if_intro, arith,
}
use workloadguard.Float.{Floats, fle}
use workloadguard.Collector.{Snapshot, Readings, Task, collect}
use workloadguard.Collector.Interleaving.{all_tasks}
use workloadguard.Collector.Index.{IsIndexed, collect-IsIndexed}
use workloadguard.System.{Env, now, read_clock}
use workloadguard.Metrics.{Metrics, record_check}
use workloadguard.Policy.Cedar.{Cedar}
use workloadguard.Policy.Engine.{Decision, evaluate}
use workloadguard.Daemon.{
  State, Daemon, Tick, periodic, load_poll, fresh, set_metrics, with_metrics, system_metrics,
  publish,
}
use workloadguard.Daemon.Cycle.{Kept, with_metrics-Kept, handle_decision-Kept, record_duration-Kept}
use workloadguard.Daemon.Provider.{daemon_provider, daemon_clock}
use workloadguard.Api.{Server, Wire}
use workloadguard.Api.Routing.{api_event}
use workloadguard.Api.Routing.Effects.{api_event-Kept}
use workloadguard.App.{RunOptions, give_metrics, set_up}
use workloadguard.App.Running.{set_up_ok}
use workloadguard.App.Serving.{
  serves_api, Phase, starting, waiting, handling, Running, begin_check, woken, end_of_check,
  with_server, TickMeets, Step, starts, wakes, decides, finishes, answers, Reach, begun, later,
}

module _ (fl : Floats) (cedar : Cedar) (env : Env) (d : Daemon fl cedar env) where
  -- The lock, before a check, is what it is after its publication.
  publish-lock :
      (trigger : String) (r : Readings) (order : List Task) (s : State)
      → (publish fl cedar env d trigger r order s).1.checking ≡ s.checking
  unfolding now
  publish-lock trigger r order s =
      let s₂ = with_metrics (record_check trigger) (record s { trace = read_clock ∷ s.trace }) in
      let snapshot = (collect (env.clock s₂.trace) r order).0 in
      (with_metrics-Kept (system_metrics d.config snapshot) _).lock
      ∙ (with_metrics-Kept (record_check trigger) _).lock

  module _ (Good : Snapshot → Type 0) where
    -- A good snapshot is published beside its evaluation.
    pub record Publishes (snapshot : Snapshot) (s : State) : Type 0 where
      pub good : Good snapshot
      pub latest : s.latest_snapshot ≡ some snapshot
      pub decisions : s.latest_decisions ≡ evaluate fl cedar d.engine snapshot

    Publishes-Kept :
        {snapshot : Snapshot} {s s' : State}
        → Kept s s'
        → Publishes snapshot s
        → Publishes snapshot s'
    Publishes-Kept k h = record {
      good = h.good;
      latest = k.snapshot ∙ h.latest;
      decisions = k.decisions ∙ h.decisions;
    }

    -- The lock is held just during a check. Nothing is published before the first check, and then
    -- always a good snapshot beside its evaluation; what a check has still to handle is the rest of
    -- the decisions that are published.
    abbrev pub IsSound : Running → Type 0
    IsSound (starting, (s, v)) =
        (s.checking ≡ false) × (s.latest_snapshot ≡ none) × (s.latest_decisions ≡ [])
    IsSound (waiting, (s, v)) =
        (s.checking ≡ false) × ((snapshot : Snapshot) × Publishes snapshot s)
    IsSound (handling start snapshot es, (s, v)) =
        (s.checking ≡ true)
        × Publishes snapshot s
        × ((done : List Decision) × (s.latest_decisions ≡ done ++ es))

    IsSound-Kept :
        (p : Phase) (s s' : State) (v v' : Server)
        → Kept s s'
        → IsSound (p, (s, v))
        → IsSound (p, (s', v'))
    IsSound-Kept starting s s' v v' k (free, none_yet, no_decisions) =
        (k.lock ∙ free, k.snapshot ∙ none_yet, k.decisions ∙ no_decisions)
    IsSound-Kept waiting s s' v v' k (free, (snapshot, h)) =
        (k.lock ∙ free, (snapshot, Publishes-Kept k h))
    IsSound-Kept (handling start snapshot es) s s' v v' k (busy, h, (done, e)) =
        (k.lock ∙ busy, Publishes-Kept k h, (done, k.decisions ∙ e))

    module _ (wire : Wire) (served : Bool) (Meets : Readings → List Task → Type 0)
        (sound : (time : ℤ) (r : Readings) (order : List Task)
          → Meets r order
          → Good (collect time r order).0) where
      begin_check-IsSound :
          (trigger : String) (r : Readings) (order : List Task) (s : State) (v : Server)
          → Meets r order
          → s.checking ≡ false
          → IsSound (with_server fl cedar env d v (begin_check fl cedar env d trigger r order s))
      unfolding begin_check
      begin_check-IsSound trigger r order s v h free =
          if_intro (λ (ps : Phase × State). IsSound (with_server fl cedar env d v ps)) s.checking _
            _ (λ busy. ground (arith, busy, free))
            (λ ready. (
              publish-lock trigger r order (record s { checking = true }),
              record { good = sound _ r order h; latest = refl; decisions = refl },
              ([], refl),
            ))

      woken-IsSound :
          (t : Tick fl cedar env) (s : State) (v : Server)
          → TickMeets fl cedar env d wire served Meets t
          → IsSound (waiting, (s, v))
          → IsSound (with_server fl cedar env d v (woken fl cedar env d t s))
      unfolding woken
      woken-IsSound (periodic r order) s v h k = begin_check-IsSound "periodic" r order s v h k.0
      woken-IsSound (load_poll (err e) r order) s v h k = k
      woken-IsSound (load_poll (ok load) r order) s v h k =
          if_intro (λ (ps : Phase × State). IsSound (with_server fl cedar env d v ps))
            (fle d.config.load_threshold load.load1) _ _
            (λ high. begin_check-IsSound "load-triggered" r order s v h k.0) (λ low. k)

      pub Step-IsSound :
          (a b : Running) → Step fl cedar env d wire served Meets a b → IsSound a → IsSound b
      unfolding end_of_check
      Step-IsSound _ _ (starts r order s v h) k = begin_check-IsSound "startup" r order s v h k.0
      Step-IsSound _ _ (wakes t s v on h) k = woken-IsSound t s v h k
      Step-IsSound _ _ (decides start snapshot e es s v) (busy, h, (done, rest)) =
          let k = handle_decision-Kept fl cedar env d snapshot e s in
          (
            k.lock ∙ busy,
            Publishes-Kept k h,
            (done ++ e ∷ [], k.decisions ∙ rest ∙ sym (append_assoc done (e ∷ []) es)),
          )
      Step-IsSound _ _ (finishes start snapshot s v) (busy, h, rest) =
          let k = record_duration-Kept fl cedar env d start s in
          (
            refl,
            (
              snapshot,
              record {
                good = h.good;
                latest = k.snapshot ∙ h.latest;
                decisions = k.decisions ∙ h.decisions;
              },
            ),
          )
      Step-IsSound _ _ (answers e p s v on) k =
          let sv = api_event (daemon_provider fl cedar env d) (daemon_clock env) wire e (s, v) in
          IsSound-Kept p s sv.0 v sv.1 (api_event-Kept fl cedar env d wire e s v) k

      Reach-Good :
          (m : Option Metrics) {a : Running}
          → Reach fl cedar env d wire served Meets (give_metrics fl cedar env m fresh) a
          → IsSound a
      unfolding set_metrics
      Reach-Good none begun = (refl, refl, refl)
      Reach-Good (some m) begun = (refl, refl, refl)
      Reach-Good m (later {a} {b} reach step) = Step-IsSound a b step (Reach-Good m reach)

      -- The same from the state that `Run` sets up.
      pub Reach-IsSound :
          (o : RunOptions) (s : State) (patterns : List String) {a : Running}
          → set_up fl cedar env o ≡ ok (d, s, patterns)
          → Reach fl cedar env d wire served Meets s a
          → IsSound a
      Reach-IsSound o s patterns {a} up =
          subst (λ t. Reach fl cedar env d wire served Meets t a → IsSound a)
            (sym (set_up_ok fl cedar env o d s patterns up).1) (λ reach. Reach-Good o.metrics reach)

module _ (fl : Floats) (cedar : Cedar) (env : Env) where
  abbrev pub Scheduled : Readings → List Task → Type 0
  Scheduled r order = Permᴰ order all_tasks

  -- At every moment of a run that `Run` sets up, with the API or without, whatever its requests, its
  -- sockets, the ticks and the system's answers, and however they interleave with the steps of a
  -- check: the check's lock is held just during a check; nothing is published before the first
  -- check is, and from then on always a snapshot whose index is right beside its evaluation; and
  -- what a check has still to handle is the rest of the decisions that are published.
  pub serving-IsSound :
      (o : RunOptions) (d : Daemon fl cedar env) (s : State) (patterns : List String) (wire : Wire)
      {a : Running}
      → set_up fl cedar env o ≡ ok (d, s, patterns)
      → Reach fl cedar env d wire (serves_api o) Scheduled s a
      → IsSound fl cedar env d IsIndexed a
  serving-IsSound o d s patterns wire up reach =
      Reach-IsSound fl cedar env d IsIndexed wire (serves_api o) Scheduled
        (λ time r order p. collect-IsIndexed time r p) o s patterns up reach
