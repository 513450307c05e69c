-- ===== src/App/Check.antt =====
-- The one-shot check of internal/app/app.go: what it decides, whom it signals, which of the
-- configuration's settings it heeds.
use mathlib.Core.List.{Permᴰ}
use workloadguard.Base.{
  arith, ℤ, Bool, true, false, String, List, [], ◌∷◌, Outcome, ok, err, ◌≡◌, refl, ap, ◌∙◌, All,
  if_intro, if◌then◌else◌,
}
use workloadguard.Base.Text.{concat}
use workloadguard.Float.{Floats}
use workloadguard.Config.{Config}
use workloadguard.Collector.{Snapshot, Readings, Task, collect}
use workloadguard.Collector.Interleaving.{all_tasks}
use workloadguard.Collector.Index.{collect-IsIndexed}
use workloadguard.Collector.Listing.{Lists, collect-HasPid}
use workloadguard.System.{Env, Event, Trace, M, read_clock, now, for_each}
use workloadguard.System.Emits.{Adds, Adds-refl, Adds-trans, Adds-mono, Adds-one}
use workloadguard.Policy.Cedar.{Cedar}
use workloadguard.Policy.Engine.{Decision, Engine, new_engine, evaluate}
use workloadguard.Policy.Executor.{
  execute, execute_action, execute_actions, execute_terminate, execute_diagnose,
}
use workloadguard.Policy.Executor.Signals.{SignalsOf, execute-SignalsOf}
use workloadguard.Daemon.{Daemon, State, new, with_engine, check_once}
use workloadguard.Daemon.Targets.{SignalsTo, SignalsOf-SignalsTo, evaluate-All}
use workloadguard.App.{
  CheckResult, execute_if_triggered, execute_triggered, evaluate_and_act, with_policies, check,
}

-- A reading of the clock.
abbrev IsClock : Event → Type 0
IsClock e = e ≡ read_clock

-- What a check may ask of the system, without `--execute` and with it.
abbrev pub IsAllowed : Bool → (ℤ → Type 0) → Event → Type 0
IsAllowed false Q = IsClock
IsAllowed true Q = SignalsTo Q

module _ (Q : ℤ → Type 0) (env : Env) (cfg : Config) (s : Snapshot) where
  execute_if_triggered-SignalsTo :
      (d : Decision) (t : Trace)
      → All Q d.pids
      → Adds (SignalsTo Q) t (execute_if_triggered env cfg s d t).1
  unfolding execute_if_triggered
  execute_if_triggered-SignalsTo d t h =
      if_intro (λ (m : M (Unit {0})). Adds (SignalsTo Q) t (m t).1) d.triggered _ _
        (λ fired.
          Adds-mono (SignalsOf d.pids) (SignalsTo Q) (SignalsOf-SignalsTo Q d.pids h)
            (execute-SignalsOf env cfg d s t))
        (λ idle. Adds-refl (SignalsTo Q) t)

  execute_triggered-SignalsTo :
      (ds : List Decision) (t : Trace)
      → All (λ (d : Decision). All Q d.pids) ds
      → Adds (SignalsTo Q) t (execute_triggered env cfg s ds t).1
  unfolding execute_triggered for_each
  execute_triggered-SignalsTo [] t h = Adds-refl (SignalsTo Q) t
  execute_triggered-SignalsTo (d ∷ ds) t h =
      Adds-trans (SignalsTo Q) (execute_if_triggered-SignalsTo d t h.0)
        (execute_triggered-SignalsTo ds _ h.1)

if-at {ℓ} :
    {A : Type ℓ} (b : Bool) (m n k : M A) (t : Trace)
    → m t ≡ n t
    → (if b then m else k) t ≡ (if b then n else k) t
if-at true m n k t h = h
if-at false m n k t h = refl

-- The actions do not depend on the setting `dry_run`.
module _ (env : Env) (cfg : Config) (b : Bool) (s : Snapshot) where
  execute_actions-dry_run :
      (d : Decision) (actions : List String) (t : Trace)
      → execute_actions env (record cfg { dry_run = b }) d s actions t
        ≡ execute_actions env cfg d s actions t
  unfolding execute_actions execute_action execute_terminate execute_diagnose
  execute_actions-dry_run d [] t = refl
  execute_actions-dry_run d (action ∷ actions) t = rw (execute_actions-dry_run d actions _) refl

  execute_if_triggered-dry_run :
      (d : Decision) (t : Trace)
      → execute_if_triggered env (record cfg { dry_run = b }) s d t
        ≡ execute_if_triggered env cfg s d t
  unfolding execute_if_triggered execute
  execute_if_triggered-dry_run d t =
      if-at d.triggered _ _ _ t
        (ap (λ (r : List String × Trace). (tt, r.1)) (execute_actions-dry_run d d.actions t))

  execute_triggered-dry_run :
      (ds : List Decision) (t : Trace)
      → execute_triggered env (record cfg { dry_run = b }) s ds t ≡ execute_triggered env cfg s ds t
  unfolding execute_triggered for_each
  execute_triggered-dry_run [] t = refl
  execute_triggered-dry_run (d ∷ ds) t =
      ap (λ u. execute_triggered env (record cfg { dry_run = b }) s ds u.1)
        (execute_if_triggered-dry_run d t)
      ∙ execute_triggered-dry_run ds _

module _ (fl : Floats) (cedar : Cedar) (env : Env) where
  -- What a check does once the engine is there.
  evaluate_and_act-Adds :
      (P : Event → Type 0) (cfg : Config) (executes : Bool) (s : Snapshot) (e : Engine fl cedar)
      (t : Trace)
      → P read_clock
      → ((u : Trace)
          → executes ≡ true
          → Adds P u (execute_triggered env cfg s (evaluate fl cedar e s) u).1)
      → Adds P t (evaluate_and_act fl cedar env cfg executes s e t).1
  unfolding evaluate_and_act now
  evaluate_and_act-Adds P cfg executes s e t c h = Adds-trans P (Adds-one P read_clock t c) (
      if_intro (λ (m : M (Unit {0})). Adds P (read_clock ∷ t) (m (read_clock ∷ t)).1) executes _ _
        (λ on. h (read_clock ∷ t) on) (λ off. Adds-refl P (read_clock ∷ t)))

  with_policies-Adds :
      (P : Event → Type 0) (cfg : Config) (executes : Bool) (s : Snapshot)
      (o : Outcome (Engine fl cedar)) (t : Trace)
      → P read_clock
      → ((e : Engine fl cedar) (u : Trace)
          → executes ≡ true
          → Adds P u (execute_triggered env cfg s (evaluate fl cedar e s) u).1)
      → Adds P t (with_policies fl cedar env cfg executes s o t).1
  with_policies-Adds P cfg executes s (err x) t c h = Adds-refl P t
  with_policies-Adds P cfg executes s (ok e) t c h =
      evaluate_and_act-Adds P cfg executes s e t c (h e)

  check-SignalsTo :
      (Q : ℤ → Type 0) (cfg : Config) (executes : Bool) (r : Readings) {order : List Task}
      (t : Trace)
      → Permᴰ order all_tasks
      → Lists Q r
      → Adds (SignalsTo Q) t (check fl cedar env cfg executes r order t).1
  unfolding check now
  check-SignalsTo Q cfg executes r {order} t p h =
      let time = env.clock t in
      let s = (collect time r order).0 in
      Adds-trans (SignalsTo Q) (Adds-one (SignalsTo Q) read_clock t tt) (
        with_policies-Adds (SignalsTo Q) cfg executes s (new_engine fl cedar cfg.policies)
          (read_clock ∷ t) tt
          (λ e u on. execute_triggered-SignalsTo Q env cfg s (evaluate fl cedar e s) u (
            evaluate-All Q fl cedar e s (collect-IsIndexed time r p)
              (collect-HasPid Q r h time order))))

  check-IsClock :
      (cfg : Config) (r : Readings) (order : List Task) (t : Trace)
      → Adds IsClock t (check fl cedar env cfg false r order t).1
  unfolding check now
  check-IsClock cfg r order t = Adds-trans IsClock (Adds-one IsClock read_clock t refl) (
      with_policies-Adds IsClock cfg false (collect (env.clock t) r order).0
        (new_engine fl cedar cfg.policies) (read_clock ∷ t) refl (λ e u on. ground arith))

  -- A one-shot check without `--execute` only reads the clock. With it, where the platform gives
  -- each process the PID that it was asked for, whatever holds of the PIDs that it lists holds of
  -- every PID that the check signals. The collector's goroutines may finish in any order.
  pub check-IsAllowed :
      (Q : ℤ → Type 0) (cfg : Config) (executes : Bool) (r : Readings) (order : List Task)
      (t : Trace)
      → Permᴰ order all_tasks
      → Lists Q r
      → Adds (IsAllowed executes Q) t (check fl cedar env cfg executes r order t).1
  check-IsAllowed Q cfg true r order t p h = check-SignalsTo Q cfg true r t p h
  check-IsAllowed Q cfg false r order t p h = check-IsClock cfg r order t

  evaluate_and_act-dry_run :
      (cfg : Config) (b executes : Bool) (s : Snapshot) (e : Engine fl cedar) (t : Trace)
      → evaluate_and_act fl cedar env (record cfg { dry_run = b }) executes s e t
        ≡ evaluate_and_act fl cedar env cfg executes s e t
  unfolding evaluate_and_act now
  evaluate_and_act-dry_run cfg b executes s e t =
      ap
        (λ (u : Unit × Trace). (
          record { timestamp = env.clock t; snapshot = s; decisions = evaluate fl cedar e s },
          u.1,
        ))
        (if-at executes _ _ _ (read_clock ∷ t)
          (execute_triggered-dry_run env cfg b s (evaluate fl cedar e s) (read_clock ∷ t)))

  with_policies-dry_run :
      (cfg : Config) (b executes : Bool) (s : Snapshot) (o : Outcome (Engine fl cedar)) (t : Trace)
      → with_policies fl cedar env (record cfg { dry_run = b }) executes s o t
        ≡ with_policies fl cedar env cfg executes s o t
  with_policies-dry_run cfg b executes s (err x) t = refl
  with_policies-dry_run cfg b executes s (ok e) t =
      ap (λ (u : CheckResult × Trace). (ok u.0, u.1))
        (evaluate_and_act-dry_run cfg b executes s e t)

  -- The setting `dry_run` makes no difference to a one-shot check: with `--execute` it runs the same
  -- actions, and returns the same result, whatever that setting is.
  pub check-dry_run :
      (cfg : Config) (b executes : Bool) (r : Readings) (order : List Task) (t : Trace)
      → check fl cedar env (record cfg { dry_run = b }) executes r order t
        ≡ check fl cedar env cfg executes r order t
  unfolding check
  check-dry_run cfg b executes r order t =
      with_policies-dry_run cfg b executes _ (new_engine fl cedar cfg.policies) _

  -- The result of a check against what `daemon.New` makes of the same configuration.
  abbrev pub IsAgreed :
      Readings
      → List Task
      → State
      → Outcome CheckResult
      → Outcome (Daemon fl cedar env × State)
      → Type 0
  IsAgreed r order s (ok result) (ok (d, s')) =
      result.decisions ≡ (check_once fl cedar env d r order s).0
  IsAgreed r order s (err x) (err y) = x ≡ concat ("create policy engine: " ∷ y ∷ [])
  IsAgreed r order s _ _ = ⊥

  -- A one-shot check agrees with the daemon: where `daemon.New` accepts a configuration, the check
  -- returns a result, whose decisions are those that the daemon's `CheckOnce` returns at the same
  -- time; where it does not, the check returns an error.
  pub check-check_once :
      (cfg : Config) (executes : Bool) (r : Readings) (order : List Task) (s : State)
      → IsAgreed r order s
          (check fl cedar env cfg executes r order s.trace).0
          (new fl cedar env cfg)
  unfolding check new check_once now evaluate_and_act
  check-check_once cfg executes r order s = go (new_engine fl cedar cfg.policies)
    where
      go :
          (o : Outcome (Engine fl cedar))
          → IsAgreed r order s
              (with_policies fl cedar env cfg executes
                (collect (env.clock s.trace) r order).0
                o
                (read_clock ∷ s.trace)).0
              (with_engine fl cedar env cfg o)
      go (err e) = refl
      go (ok e) = refl
