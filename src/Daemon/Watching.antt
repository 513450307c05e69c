-- ===== src/Daemon/Watching.antt =====
-- What the daemon (internal/daemon/daemon.go) does beside acting: it counts, reads the clock and
-- captures diagnostics.
use workloadguard.Base.{
  string_eq, ℤ, not, String, List, ◌∷◌, Option, some, none, ◌≡◌, refl, if_intro, Option-cases, sym,
  subst, ◌∙◌, inl, inr, arith, length, beq_ℕ,
}
use workloadguard.Base.Dict.{lookup}
use workloadguard.Float.{Floats}
use workloadguard.Collector.{Snapshot, Readings, Task, collect}
use workloadguard.System.{Env, read_clock, now}
use workloadguard.System.Emits.{Adds, Adds-refl, Adds-trans, Adds-one}
use workloadguard.Metrics.{Metrics, record_check, record_policy_trigger}
use workloadguard.Policy.Cedar.{Cedar}
use workloadguard.Policy.Engine.{Decision}
use workloadguard.Policy.Executor.Signals.{IsQuiet}
use workloadguard.Diagnostics.Quiet.{capture-IsQuiet}
use workloadguard.Daemon.{
  State, Daemon, with_metrics, system_metrics, publish, since, is_on_cooldown, capture_diagnostics,
  end_check, record_duration,
}

-- The requests between two states find, signal and wait for no process, and the record of
-- triggers is the same.
pub record Watches (s s' : State) : Type 0 where
  pub quiet : Adds IsQuiet s.trace s'.trace
  pub triggers : s'.last_trigger ≡ s.last_trigger

pub Watches-refl : (s : State) → Watches s s
Watches-refl s = record { quiet = Adds-refl IsQuiet s.trace; triggers = refl }

pub Watches-trans : {s t u : State} → Watches s t → Watches t u → Watches s u
Watches-trans h k = record {
  quiet = Adds-trans IsQuiet h.quiet k.quiet;
  triggers = k.triggers ∙ h.triggers;
}

-- A relation that is transitive, and holds where processes are left alone: it need only be shown
-- where a decision is acted on.
pub record IsCoarse (R : State → State → Type 0) : Type 0 where
  pub watch : (s s' : State) → Watches s s' → R s s'
  pub join : (s t u : State) → R s t → R t u → R s u

pub Watches-IsCoarse : IsCoarse Watches
Watches-IsCoarse = record { watch = λ s s' w. w; join = λ s t u h k. Watches-trans h k }

pub with_metrics-trace : (f : Metrics → Metrics) (s : State) → (with_metrics f s).trace ≡ s.trace
unfolding with_metrics
with_metrics-trace f s = ground arith

pub with_metrics-triggers :
    (f : Metrics → Metrics) (s : State) → (with_metrics f s).last_trigger ≡ s.last_trigger
unfolding with_metrics
with_metrics-triggers f s = ground arith

pub with_metrics-Watches : (f : Metrics → Metrics) (s : State) → Watches s (with_metrics f s)
with_metrics-Watches f s = record {
  quiet = subst (Adds IsQuiet s.trace) (sym (with_metrics-trace f s)) (Adds-refl IsQuiet s.trace);
  triggers = with_metrics-triggers f s;
}

pub clock-Watches : (s : State) → Watches s (record s { trace = read_clock ∷ s.trace })
clock-Watches s = record { quiet = Adds-one IsQuiet read_clock s.trace tt; triggers = refl }

module _ (fl : Floats) (cedar : Cedar) (env : Env) where
  end_check-Watches :
      (start : ℤ) (s : State) (m : Option Metrics) → Watches s (end_check fl cedar env start s m)
  unfolding now
  end_check-Watches start s none = Watches-refl s
  end_check-Watches start s (some m) =
      Watches-trans (record { quiet = Adds-one IsQuiet read_clock s.trace tt; triggers = refl })
        (with_metrics-Watches _ (record s { trace = read_clock ∷ s.trace }))

  pub record_duration-Watches :
      (start : ℤ) (s : State) → Watches s (record_duration fl cedar env start s)
  unfolding record_duration
  record_duration-Watches start s = end_check-Watches start s s.metrics

  module _ (d : Daemon fl cedar env) where
    since-Watches : (s : State) (last : Option ℤ) → Watches s (since fl cedar env d s last).1
    unfolding now
    since-Watches s none = Watches-refl s
    since-Watches s (some last) = clock-Watches s

    pub is_on_cooldown-Watches :
        (name : String) (s : State) → Watches s (is_on_cooldown fl cedar env d name s).1
    unfolding is_on_cooldown
    is_on_cooldown-Watches name s = since-Watches s (lookup name s.last_trigger)

    capture_diagnostics-Watches :
        (decision : Decision) (snapshot : Snapshot) (s : State)
        → Watches s (capture_diagnostics fl cedar env d decision snapshot s)
    unfolding capture_diagnostics
    capture_diagnostics-Watches decision snapshot s = elim (Option-cases d.diagnostics) [
      | inl off ↦ rw off (Watches-refl s)
      | inr (base, on) ↦ rw on (
          if_intro (Watches s) (not (beq_ℕ (length decision.pids) 0)) _ _
            (λ matched. record {
              quiet = capture-IsQuiet env base decision.pids snapshot s.trace;
              triggers = refl;
            })
            (λ nobody. Watches-refl s))
    ]

    -- What precedes the actions of a decision that fires.
    pub captured-Watches :
        (e : Decision) (snapshot : Snapshot) (s : State)
        → Watches s (
            capture_diagnostics fl cedar env d e snapshot
              (with_metrics (record_policy_trigger e.policy_name) s))
    captured-Watches e snapshot s =
        let count = record_policy_trigger e.policy_name in
        Watches-trans (with_metrics-Watches count s)
          (capture_diagnostics-Watches e snapshot (with_metrics count s))

    -- A check up to its publication.
    pub publish-Watches :
        (trigger : String) (r : Readings) (order : List Task) (s : State)
        → Watches s (publish fl cedar env d trigger r order s).1
    unfolding now
    publish-Watches trigger r order s =
        let s₂ = with_metrics (record_check trigger) (record s { trace = read_clock ∷ s.trace }) in
        let s₃ = record s₂ { trace = read_clock ∷ s₂.trace } in
        let snapshot = (collect (env.clock s₂.trace) r order).0 in
        let s₄ = with_metrics (system_metrics d.config snapshot) s₃ in
        Watches-trans (clock-Watches s) (
          Watches-trans (with_metrics-Watches (record_check trigger) _) (
            Watches-trans (clock-Watches s₂) (
              Watches-trans {t = s₄} (with_metrics-Watches (system_metrics d.config snapshot) s₃)
                (record { quiet = Adds-refl IsQuiet s₄.trace; triggers = refl }))))
