-- ===== src/Policy/Executor.antt =====
-- internal/policy/executor.go: the actions of a triggered policy. An error is its text; the joined
-- errors of `Execute` are a list, empty where it returns nil.
pub mod Errors
pub mod Phases
pub mod Signals
use workloadguard.Base.{
  ℕ, ◌+◌, ℤ, int_eq, Bool, true, false, String, List, [], ◌∷◌, ◌++◌, Option, none, some, Outcome,
  ok, err, ◌==◌, string_eq, if◌then◌else◌, take,
}
use workloadguard.Base.Dict.{Dict, insert, get_or}
use workloadguard.Base.Text.{decimal, concat}
use workloadguard.System.{
  Env, M, ◌>>=◌, ◌>>◌, pure, SendResult, sent, gone, refused, Signal, sigterm, sigkill, probe,
  policy_action, parent_process, find_process, send, wait_for, run_command, mkdir_all, write, now,
  log_line, for_each, count_each,
}
use workloadguard.Config.{Config}
use workloadguard.Collector.{Snapshot, process_by_pid}
use workloadguard.Platform.Script.{notify}
use workloadguard.Policy.Engine.{Decision}

-- the loop of `executeLog` over the PIDs: the number of children of each parent, by its name
unfoldable pub count_parents : Snapshot → Dict String ℕ → List ℤ → Dict String ℕ
count_parents s m [] = m
count_parents s m (pid ∷ pids) =
    count_parents s
      (elim (process_by_pid s pid) [
        | none ↦ m
        | some proc ↦ elim (process_by_pid s proc.ppid) [
          | none ↦ m
          | some parent ↦ insert parent.name (get_or parent.name 0 m + 1) m
        ]
      ])
      pids

unfoldable pub execute_log : Decision → Snapshot → M (Option String)
execute_log d s = do
  log_line (
      policy_action d.policy_name d.reason d.pids s.load_average.load1 s.load_average.load5
        s.load_average.load15)
  for_each (λ (entry : String × ℕ). log_line (parent_process d.policy_name entry.0 entry.1))
      (count_parents s [] d.pids)
  pure none

abbrev pub is_sent : SendResult → Bool
is_sent sent = true
is_sent gone = false
is_sent (refused e) = false

module _ (env : Env) where
  unfoldable pub execute_notify : Decision → M (Option String)
  execute_notify d =
      notify env "WorkloadGuard"
        (concat ("Policy " ∷ d.policy_name ∷ " triggered: " ∷ d.reason ∷ []))

  -- a round of the first loop: SIGTERM; whether it was sent
  unfoldable pub term_round : ℤ → M Bool
  term_round pid = do
    found ← find_process env pid
    elim found [
      | some e ↦ pure false
      | none ↦ do result ← send env pid sigterm; pure (is_sent result)
    ]

  -- a round of the second: SIGKILL, if the process still answers signal 0
  unfoldable pub kill_round : ℤ → M Bool
  kill_round pid = do
    found ← find_process env pid
    elim found [
      | some e ↦ pure false
      | none ↦ do
        alive ← send env pid probe
        if is_sent alive
            then (send env pid sigkill >>= λ result. pure (is_sent result))
            else pure false
    ]

  -- what follows the wait
  abbrev pub after_wait : List ℤ → Option String → M (Option String)
  after_wait pids (some e) = pure (some e)
  after_wait pids none = count_each kill_round pids >>= λ survivors. pure none

  -- both loops, with the wait for the grace period between them
  unfoldable pub terminate_all : ℤ → List ℤ → M (Option String)
  terminate_all grace [] = pure none
  terminate_all grace (pid ∷ pids) = do
    terminated ← count_each term_round (pid ∷ pids)
    cancelled ← wait_for env grace
    after_wait (pid ∷ pids) cancelled

  unfoldable pub execute_terminate : Config → Decision → M (Option String)
  execute_terminate cfg d = terminate_all cfg.grace_period d.pids

  -- the output of a command, written to a file where the command succeeds
  abbrev pub save : String → Outcome String → M (Unit {0})
  save file (err e) = pure tt
  save file (ok output) = write env file output >>= λ failed. pure tt

  unfoldable pub save_output : String → List String → M (Unit {0})
  save_output file args = run_command env args >>= save file

  -- what follows `os.MkdirAll`
  unfoldable pub fill_dir : String → Option String → M (Option String)
  fill_dir dir (some e) = pure (some (concat ("create diagnostics dir: " ∷ e ∷ [])))
  fill_dir dir none = do
    save_output (env.join_path dir "top.txt") ("top" ∷ "-l" ∷ "1" ∷ [])
    save_output (env.join_path dir "ps.txt")
        ("ps" ∷ "-axo" ∷ "user,pid,ppid,%cpu,%mem,command" ∷ [])
    pure none

  unfoldable pub execute_diagnose : Config → Decision → M (Option String)
  execute_diagnose cfg d = if cfg.diagnostics_path == "" then pure none else do
    time ← now env
    let dir = env.join_path cfg.diagnostics_path (env.stamp time)
    failed ← mkdir_all env dir
    fill_dir dir failed

  abbrev sample_one : ℤ → M (Unit {0})
  sample_one pid = run_command env ("sample" ∷ decimal pid ∷ "5" ∷ []) >>= λ output. pure tt

  -- at most the first three PIDs
  unfoldable pub execute_sample : Decision → M (Option String)
  execute_sample d = for_each sample_one (take 3 d.pids) >>= λ done. pure none

  abbrev spindump_first : List ℤ → M (Option String)
  spindump_first [] = pure none
  spindump_first (pid ∷ pids) =
      run_command env ("spindump" ∷ decimal pid ∷ []) >>= λ output. pure none

  unfoldable pub execute_spindump : Decision → M (Option String)
  execute_spindump d = spindump_first d.pids

  -- the `switch` on the action
  unfoldable pub execute_action : Config → Decision → Snapshot → String → M (Option String)
  execute_action cfg d s action =
      if action == "log"
      then execute_log d s
      else if action == "notify"
      then execute_notify d
      else if action == "terminate"
      then execute_terminate cfg d
      else if action == "diagnose"
      then execute_diagnose cfg d
      else if action == "sample"
      then execute_sample d
      else if action == "spindump"
      then execute_spindump d
      else pure (some (concat ("unknown action: " ∷ action ∷ [])))

  abbrev pub joined : String → Option String → List String → List String
  joined action none errs = errs
  joined action (some e) errs = concat (action ∷ ": " ∷ e ∷ []) ∷ errs

  -- the loop over the actions; every action is tried, and each error is kept
  unfoldable pub execute_actions : Config → Decision → Snapshot → List String → M (List String)
  execute_actions cfg d s [] = pure []
  execute_actions cfg d s (action ∷ actions) = do
    failed ← execute_action cfg d s action
    errs ← execute_actions cfg d s actions
    pure (joined action failed errs)

  unfoldable pub execute : Config → Decision → Snapshot → M (List String)
  execute cfg d s = execute_actions cfg d s d.actions

  -- `ErrProcessDone` and `ESRCH` are no errors here
  abbrev pub signal_error : String → ℤ → SendResult → Option String
  signal_error label pid sent = none
  signal_error label pid gone = none
  signal_error label pid (refused e) = some (concat (label ∷ " " ∷ decimal pid ∷ ": " ∷ e ∷ []))

  abbrev pub signal_process : String → Signal → ℤ → M (Option String)
  signal_process label sig pid = do
    found ← find_process env pid
    elim found [
      | some e ↦ pure (some (concat ("find process " ∷ decimal pid ∷ ": " ∷ e ∷ [])))
      | none ↦ do result ← send env pid sig; pure (signal_error label pid result)
    ]

  unfoldable pub term : ℤ → M (Option String)
  term = signal_process "sigterm" sigterm

  unfoldable pub kill : ℤ → M (Option String)
  kill = signal_process "sigkill" sigkill
