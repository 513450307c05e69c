-- ===== src/Daemon/Termination.antt =====
-- `Terminate` of internal/daemon/daemon.go: what becomes of each PID.
use mathlib.Core.List.{Permᴰ, Memᴰ}
use workloadguard.Base.{
  ◌≡◌, Option-cases, inl, inr, subst, arith, ℤ, Bool, String, List, [], ◌∷◌, ◌++◌, Option, none,
  some, refl, if◌then◌else◌,
}
use workloadguard.Base.Permuted.{perm_middle}
use workloadguard.Float.{Floats}
use workloadguard.System.{Env, Signal, sigterm, sigkill, find, signal, find_process, send}
use workloadguard.System.Emits.{Adds, Emits, Adds-refl, Adds-trans}
use workloadguard.Policy.Executor.Signals.{SignalsOf, if_Emits}
use workloadguard.Policy.Cedar.{Cedar}
use workloadguard.Policy.Executor.{term, kill, signal_process}
use workloadguard.Daemon.{with_metrics, State, sort_out, count_termination, terminate, perform}

module _ (fl : Floats) (cedar : Cedar) (env : Env) where
  sort_out-perm :
      (pid : ℤ) (failed : Option String) (pids good bad : List ℤ)
      → Permᴰ pids (good ++ bad)
      → let r = sort_out fl cedar env pid failed (good, bad) in Permᴰ (pid ∷ pids) (r.0 ++ r.1)
  sort_out-perm pid none pids good bad h = Permᴰ.cons refl h
  sort_out-perm pid (some e) pids good bad h =
      Permᴰ.trans (Permᴰ.cons refl h) (perm_middle pid good bad)

  -- `Terminate` reports each PID once, as terminated or as failed, whatever the system answers.
  pub terminate-perm :
      (force : Bool) (pids : List ℤ) (s : State)
      → let r = (terminate fl cedar env force pids s).0 in Permᴰ pids (r.0 ++ r.1)
  unfolding terminate
  terminate-perm force [] s = Permᴰ.nil
  terminate-perm force (pid ∷ pids) s =
      let r = perform (if force then kill env pid else term env pid) s in
      sort_out-perm pid r.0 pids _ _
        (terminate-perm force pids (count_termination fl cedar env force r.0 r.1))

  signal_process-SignalsOf :
      (label : String) (sig : Signal) (listed : List ℤ) (pid : ℤ)
      → Memᴰ pid listed
      → Emits (SignalsOf listed) (signal_process env label sig pid)
  unfolding find_process send
  signal_process-SignalsOf label sig listed pid m t = elim (Option-cases (env.find_result t pid)) [
    | inr (e, lost) ↦ (find pid ∷ [], ground arith, (tt, tt))
    | inl found ↦ (signal pid sig ∷ find pid ∷ [], ground arith, (m, (tt, tt)))
  ]

  request-SignalsOf :
      (force : Bool) (listed : List ℤ) (pid : ℤ)
      → Memᴰ pid listed
      → Emits (SignalsOf listed) (if force then kill env pid else term env pid)
  unfolding kill term
  request-SignalsOf force listed pid m =
      if_Emits (SignalsOf listed) force _ _
        (λ on. signal_process-SignalsOf "sigkill" sigkill listed pid m)
        (λ off. signal_process-SignalsOf "sigterm" sigterm listed pid m)

  count_termination-trace :
      (force : Bool) (failed : Option String) (s : State)
      → (count_termination fl cedar env force failed s).trace ≡ s.trace
  unfolding with_metrics
  count_termination-trace force (some e) s = refl
  count_termination-trace force none s = ground arith

  terminate_listed :
      (force : Bool) (pids listed : List ℤ) (s : State)
      → ((pid : ℤ) → Memᴰ pid pids → Memᴰ pid listed)
      → Adds (SignalsOf listed) s.trace (terminate fl cedar env force pids s).1.trace
  unfolding terminate
  terminate_listed force [] listed s inside = Adds-refl (SignalsOf listed) s.trace
  terminate_listed force (pid ∷ pids) listed s inside =
      let r = perform (if force then kill env pid else term env pid) s in
      let counted = count_termination fl cedar env force r.0 r.1 in
      Adds-trans (SignalsOf listed)
        (request-SignalsOf force listed pid (inside pid (Memᴰ.head refl)) s.trace)
        (subst (λ t. Adds (SignalsOf listed) t (terminate fl cedar env force pids counted).1.trace)
          (count_termination-trace force r.0 r.1)
          (terminate_listed force pids listed counted (λ q m. inside q (Memᴰ.tail m))))

  -- `Terminate` signals only PIDs that it is given.
  pub terminate-SignalsOf :
      (force : Bool) (pids : List ℤ) (s : State)
      → Adds (SignalsOf pids) s.trace (terminate fl cedar env force pids s).1.trace
  terminate-SignalsOf force pids s = terminate_listed force pids pids s (λ pid m. m)
