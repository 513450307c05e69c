-- ===== src/Policy/Executor/Signals.antt =====
-- Which events the actions of internal/policy/executor.go add, and to whom signals go.
use text.Mathlib.TextEquality.{eq_iff}
use mathlib.Core.List.{Memᴰ}
use workloadguard.Base.{
  ℤ, String, string_eq, List, [], ◌∷◌, ◌≡◌, ◌≢◌, ◌==◌, refl, All, All-mono, Option, none, some,
  Outcome, ok, err, Bool, true, false, inl, inr, arith, Bool-cases, Option-cases, if◌then◌else◌,
  take,
}
use workloadguard.Base.Members.{All_of_Memᴰ}
use workloadguard.System.{
  Event, find, signal, wait, command, make_dir, write_file, read_clock, log, LogLine, sigterm,
  sigkill, probe, Trace, Env, M, find_process, send, wait_for, run_command, mkdir_all, write, now,
  log_line,
}
use workloadguard.System.Emits.{
  Adds, Adds-refl, Adds-trans, Adds-one, Adds-mono, Emits, for_each-Emits, count_each-Emits,
}
use workloadguard.Config.{Config}
use workloadguard.Collector.{Snapshot}
use workloadguard.Platform.Script.{notify}
use workloadguard.Policy.Engine.{Decision}
use workloadguard.Policy.Executor.{
  execute_log, execute_notify, term_round, kill_round, after_wait, terminate_all, execute_terminate,
  execute_diagnose, execute_sample, execute_spindump, execute_action, execute_actions, execute,
  count_parents, is_sent, save, spindump_first, save_output, fill_dir,
}

-- Events that touch no process.
abbrev pub IsQuiet : Event → Type 0
IsQuiet (find pid) = ⊥
IsQuiet (signal pid s) = ⊥
IsQuiet (wait d) = ⊥
IsQuiet _ = Unit

-- Signals go to the PIDs given only.
abbrev pub SignalsOf : List ℤ → Event → Type 0
SignalsOf pids (signal pid s) = Memᴰ pid pids
SignalsOf pids _ = Unit

pub IsQuiet-SignalsOf : (pids : List ℤ) (e : Event) → IsQuiet e → SignalsOf pids e
IsQuiet-SignalsOf pids (signal pid s) h = absurd h
IsQuiet-SignalsOf pids _ h = tt

pub if_Emits {ℓ} :
    {A : Type ℓ} (P : Event → Type 0) (b : Bool) (m k : M A)
    → (b ≡ true → Emits P m)
    → (b ≡ false → Emits P k)
    → Emits P (if b then m else k)
if_Emits P true m k h h' = h refl
if_Emits P false m k h h' = h' refl

log_line-IsQuiet : (l : LogLine) → Emits IsQuiet (log_line l)
unfolding log_line
log_line-IsQuiet l t = Adds-one IsQuiet (log l) t tt

execute_log-IsQuiet : (d : Decision) (s : Snapshot) → Emits IsQuiet (execute_log d s)
unfolding execute_log
execute_log-IsQuiet d s t = Adds-trans IsQuiet (log_line-IsQuiet _ t) (
    for_each-Emits IsQuiet _ (count_parents s [] d.pids)
      (All_of_Memᴰ _ _ λ entry m. log_line-IsQuiet _) _)

module _ (env : Env) where
  pub run_command-IsQuiet : (args : List String) → Emits IsQuiet (run_command env args)
  unfolding run_command
  run_command-IsQuiet args t = Adds-one IsQuiet (command args) t tt

  execute_notify-IsQuiet : (d : Decision) → Emits IsQuiet (execute_notify env d)
  unfolding execute_notify notify
  execute_notify-IsQuiet d t = run_command-IsQuiet _ t

  save-IsQuiet : (file : String) (o : Outcome String) → Emits IsQuiet (save env file o)
  unfolding write
  save-IsQuiet file (ok output) t = Adds-one IsQuiet (write_file file output) t tt
  save-IsQuiet file (err e) t = Adds-refl IsQuiet t

  execute_sample-IsQuiet : (d : Decision) → Emits IsQuiet (execute_sample env d)
  unfolding execute_sample
  execute_sample-IsQuiet d t =
      for_each-Emits IsQuiet _ (take 3 d.pids) (All_of_Memᴰ _ _ λ pid m u. run_command-IsQuiet _ u)
        t

  execute_spindump-IsQuiet : (d : Decision) → Emits IsQuiet (execute_spindump env d)
  unfolding execute_spindump
  execute_spindump-IsQuiet d t = go d.pids
    where
      go : (pids : List ℤ) → Adds IsQuiet t (spindump_first env pids t).1
      go [] = Adds-refl IsQuiet t
      go (pid ∷ more) = run_command-IsQuiet _ t

  save_output-IsQuiet :
      (file : String) (args : List String) → Emits IsQuiet (save_output env file args)
  unfolding save_output
  save_output-IsQuiet file args t =
      Adds-trans IsQuiet (run_command-IsQuiet args t) (save-IsQuiet file _ _)

  fill_dir-IsQuiet : (dir : String) (o : Option String) → Emits IsQuiet (fill_dir env dir o)
  unfolding fill_dir
  fill_dir-IsQuiet dir (some e) t = Adds-refl IsQuiet t
  fill_dir-IsQuiet dir none t =
      Adds-trans IsQuiet (save_output-IsQuiet _ _ t) (save_output-IsQuiet _ _ _)

  execute_diagnose-IsQuiet :
      (cfg : Config) (d : Decision) → Emits IsQuiet (execute_diagnose env cfg d)
  unfolding execute_diagnose mkdir_all now
  execute_diagnose-IsQuiet cfg d =
      if_Emits IsQuiet (cfg.diagnostics_path == "") _ _ (λ off t. Adds-refl IsQuiet t)
        (λ on t.
          Adds-trans IsQuiet (Adds-one IsQuiet read_clock t tt)
            (Adds-trans IsQuiet (Adds-one IsQuiet (make_dir _) _ tt) (fill_dir-IsQuiet _ _ _)))

  term_round-SignalsOf :
      (pids : List ℤ) (pid : ℤ) → Memᴰ pid pids → Emits (SignalsOf pids) (term_round env pid)
  unfolding term_round find_process send
  term_round-SignalsOf pids pid m t = elim (Option-cases (env.find_result t pid)) [
    | inr (e, lost) ↦ (find pid ∷ [], ground arith, (tt, tt))
    | inl found ↦ (signal pid sigterm ∷ find pid ∷ [], ground arith, (m, (tt, tt)))
  ]

  kill_round-SignalsOf :
      (pids : List ℤ) (pid : ℤ) → Memᴰ pid pids → Emits (SignalsOf pids) (kill_round env pid)
  unfolding kill_round find_process send
  kill_round-SignalsOf pids pid m t = elim (Option-cases (env.find_result t pid)) [
    | inr (e, lost) ↦ (find pid ∷ [], ground arith, (tt, tt))
    | inl found ↦ elim (Bool-cases (is_sent (env.send_result (find pid ∷ t) pid probe))) [
      | inr silent ↦ (signal pid probe ∷ find pid ∷ [], ground arith, (m, (tt, tt)))
      | inl answered ↦
          (signal pid sigkill ∷ signal pid probe ∷ find pid ∷ [], ground arith, (m, (m, (tt, tt))))
    ]
  ]

  terminate_all-SignalsOf :
      (grace : ℤ) (pids : List ℤ) → Emits (SignalsOf pids) (terminate_all env grace pids)
  unfolding terminate_all wait_for
  terminate_all-SignalsOf grace [] t = Adds-refl (SignalsOf []) t
  terminate_all-SignalsOf grace (pid ∷ pids) t =
      Adds-trans P
        (count_each-Emits P (term_round env) all (All_of_Memᴰ _ all (term_round-SignalsOf all)) t)
        (Adds-trans P (Adds-one P (wait grace) _ tt) (go _ _))
    where
      all : List ℤ
      all = pid ∷ pids

      P : Event → Type 0
      P = SignalsOf all

      go : (o : Option String) → Emits P (after_wait env all o)
      go (some e) t = Adds-refl P t
      go none t =
          count_each-Emits P (kill_round env) all (All_of_Memᴰ _ all (kill_round-SignalsOf all)) t

  -- Signals are for the PIDs of the decision, whatever the action.
  execute_action-SignalsOf :
      (cfg : Config) (d : Decision) (s : Snapshot) (action : String)
      → Emits (SignalsOf d.pids) (execute_action env cfg d s action)
  unfolding execute_action execute_terminate
  execute_action-SignalsOf cfg d s action =
      if_Emits P (action == "log") _ _ (λ _ t. up t (execute_log-IsQuiet d s t))
        λ _.
          if_Emits P (action == "notify") _ _ (λ _ t. up t (execute_notify-IsQuiet d t))
            λ _.
              if_Emits P (action == "terminate") _ _
                (λ _. terminate_all-SignalsOf cfg.grace_period d.pids)
                λ _.
                  if_Emits P (action == "diagnose") _ _
                    (λ _ t. up t (execute_diagnose-IsQuiet cfg d t))
                    λ _.
                      if_Emits P (action == "sample") _ _ (λ _ t. up t (execute_sample-IsQuiet d t))
                        λ _.
                          if_Emits P (action == "spindump") _ _
                            (λ _ t. up t (execute_spindump-IsQuiet d t)) λ _ t. Adds-refl P t
    where
      P : Event → Type 0
      P = SignalsOf d.pids

      up : (t : Trace) {u : Trace} → Adds IsQuiet t u → Adds P t u
      up t h = Adds-mono IsQuiet P (IsQuiet-SignalsOf d.pids) h

  -- No action but `terminate` touches a process.
  execute_action-IsQuiet :
      (cfg : Config) (d : Decision) (s : Snapshot) (action : String)
      → action ≢ "terminate"
      → Emits IsQuiet (execute_action env cfg d s action)
  unfolding execute_action
  execute_action-IsQuiet cfg d s action other =
      if_Emits IsQuiet (action == "log") _ _ (λ _. execute_log-IsQuiet d s)
        λ _.
          if_Emits IsQuiet (action == "notify") _ _ (λ _. execute_notify-IsQuiet d)
            λ _.
              if_Emits IsQuiet (action == "terminate") _ _
                (λ same. absurd (other ((eq_iff action "terminate").0 same)))
                λ _.
                  if_Emits IsQuiet (action == "diagnose") _ _ (λ _. execute_diagnose-IsQuiet cfg d)
                    λ _.
                      if_Emits IsQuiet (action == "sample") _ _ (λ _. execute_sample-IsQuiet d)
                        λ _.
                          if_Emits IsQuiet (action == "spindump") _ _
                            (λ _. execute_spindump-IsQuiet d) λ _ t. Adds-refl IsQuiet t

  execute_actions-Emits :
      (P : Event → Type 0) (cfg : Config) (d : Decision) (s : Snapshot) (actions : List String)
      → All (λ action. Emits P (execute_action env cfg d s action)) actions
      → Emits P (execute_actions env cfg d s actions)
  unfolding execute_actions
  execute_actions-Emits P cfg d s [] h t = Adds-refl P t
  execute_actions-Emits P cfg d s (action ∷ actions) h t =
      Adds-trans P (h.0 t) (execute_actions-Emits P cfg d s actions h.1 _)

  -- Whatever the actions and the system's answers, `Execute` signals only PIDs of its decision.
  pub execute-SignalsOf :
      (cfg : Config) (d : Decision) (s : Snapshot) → Emits (SignalsOf d.pids) (execute env cfg d s)
  unfolding execute
  execute-SignalsOf cfg d s =
      execute_actions-Emits (SignalsOf d.pids) cfg d s d.actions
        (All_of_Memᴰ _ d.actions λ action m. execute_action-SignalsOf cfg d s action)

  -- A decision without the action `terminate` leaves every process alone: `Execute` looks none up,
  -- signals none and does not wait.
  pub execute-IsQuiet :
      (cfg : Config) (d : Decision) (s : Snapshot)
      → All (λ action. action ≢ "terminate") d.actions
      → Emits IsQuiet (execute env cfg d s)
  unfolding execute
  execute-IsQuiet cfg d s others =
      execute_actions-Emits IsQuiet cfg d s d.actions
        (All-mono _ _ d.actions (execute_action-IsQuiet cfg d s) others)
