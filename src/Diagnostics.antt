-- ===== src/Diagnostics.antt =====
-- internal/diagnostics/diagnostics.go: the files that are written before an action is taken.
pub mod Chain
pub mod Quiet
use workloadguard.Base.{
  ℕ, zero, suc, ◌+◌, ℤ, pos, int_eq, true, false, ◌||◌, String, List, [], ◌∷◌, ◌++◌, Option, none,
  some, Outcome, ok, err, ◌==◌, string_eq, if◌then◌else◌, length, elem, take,
}
use workloadguard.Base.Dict.{Dict}
use workloadguard.Base.Text.{decimal, concat, repeat}
use workloadguard.System.{Env, M, ◌>>=◌, ◌>>◌, pure, run_command, mkdir_all, write, now}
use workloadguard.Collector.{ProcessInfo, Snapshot, process_by_pid}
use workloadguard.Policy.Executor.{count_parents}

pub record DiagnosticSnapshot : Type 0 where
  pub dir : String
  pub timestamp : ℤ
  pub files : List String

-- The loop of `buildParentChain`: `none` means that the fuel ran out.
unfoldable pub chain_loop : ℕ → Snapshot → ℤ → List ℤ → List ProcessInfo → Option (List ProcessInfo)
chain_loop zero s current seen chain = none
chain_loop (suc fuel) s current seen chain = elim (elem current seen) [
  | true ↦ some chain
  | false ↦ elim (process_by_pid s current) [
    | none ↦ some chain
    | some proc ↦ elim (proc.ppid == pos 0 || proc.ppid == proc.pid) [
      | true ↦ some (proc ∷ chain)
      | false ↦ chain_loop fuel s proc.ppid (current ∷ seen) (proc ∷ chain)
    ]
  ]
]

-- A round marks a PID of the index as seen, or it is the last: so many rounds are enough.
unfoldable pub build_parent_chain : ℤ → Snapshot → Option (List ProcessInfo)
build_parent_chain pid s = chain_loop (suc (suc (length s.by_pid))) s pid [] []

abbrev chain_lines : ℕ → List ProcessInfo → String
chain_lines i [] = ""
chain_lines i (p ∷ ps) = concat (
    repeat i "  "
    ∷ "└─ ["
    ∷ decimal p.pid
    ∷ "] "
    ∷ p.name
    ∷ " (ppid="
    ∷ decimal p.ppid
    ∷ ")\n"
    ∷ chain_lines (suc i) ps
    ∷ [])

abbrev or_empty {ℓ} : {A : Type ℓ} → Option (List A) → List A
or_empty none = []
or_empty (some xs) = xs

-- the loop over the target PIDs
unfoldable pub tree_lines : Snapshot → List ℤ → String
tree_lines s [] = ""
tree_lines s (pid ∷ pids) = concat (
    "PID "
    ∷ decimal pid
    ∷ ":\n"
    ∷ chain_lines 0 (or_empty (build_parent_chain pid s))
    ∷ "\n"
    ∷ tree_lines s pids
    ∷ [])

-- the loop over the counts of the parents
unfoldable pub summary_lines : Dict String ℕ → String
summary_lines [] = ""
summary_lines ((name, count) ∷ rest) =
    concat ("  " ∷ name ∷ ": " ∷ decimal (pos count) ∷ " children\n" ∷ summary_lines rest ∷ [])

unfoldable pub process_tree_text : List ℤ → Snapshot → String
process_tree_text pids s = concat (
    "Process Tree for Target PIDs\n"
    ∷ "============================\n\n"
    ∷ tree_lines s pids
    ∷ "Parent Summary\n"
    ∷ "--------------\n"
    ∷ summary_lines (count_parents s [] pids)
    ∷ [])

module _ (env : Env) where
  abbrev written : String → Option String → Outcome String
  written file none = ok file
  written file (some e) = err e

  abbrev pub write_out : String → Outcome String → M (Outcome String)
  write_out file (err e) = pure (err e)
  write_out file (ok output) = write env file output >>= λ failed. pure (written file failed)

  -- Runs a command and writes its output. (Each command has a time limit of its own.)
  unfoldable pub capture_command : String → List String → M (Outcome String)
  capture_command file args = run_command env args >>= write_out file

  unfoldable pub capture_top : String → M (Outcome String)
  capture_top dir =
      capture_command (env.join_path dir "top.txt") ("top" ∷ "-l" ∷ "1" ∷ "-n" ∷ "50" ∷ [])

  unfoldable pub capture_ps : String → M (Outcome String)
  capture_ps dir =
      capture_command (env.join_path dir "ps.txt")
        ("ps" ∷ "-axo" ∷ "user,pid,ppid,%cpu,%mem,rss,vsz,state,start,time,command" ∷ [])

  unfoldable pub capture_process_tree : String → List ℤ → Snapshot → M (Outcome String)
  capture_process_tree dir pids s =
      let file = env.join_path dir "process_tree.txt" in
      write env file (process_tree_text pids s) >>= λ failed. pure (written file failed)

  abbrev added : List String → Outcome String → List String
  added files (ok file) = files ++ file ∷ []
  added files (err e) = files

  -- the loop of `captureSamples`: a failed sample is skipped
  unfoldable pub sample_each : String → List ℤ → M (List String)
  sample_each dir [] = pure []
  sample_each dir (pid ∷ pids) = do
    result ←
        capture_command (env.join_path dir (concat ("sample_" ∷ decimal pid ∷ ".txt" ∷ [])))
          ("sample" ∷ decimal pid ∷ "3" ∷ [])
    files ← sample_each dir pids
    pure (added [] result ++ files)

  unfoldable pub capture_samples : String → List ℤ → ℕ → M (List String)
  capture_samples dir pids max_samples = sample_each dir (take max_samples pids)

  abbrev capture_into : String → ℤ → List ℤ → Snapshot → M (Outcome (Option DiagnosticSnapshot))
  capture_into dir time pids s = do
    top ← capture_top dir
    ps ← capture_ps dir
    tree ← capture_process_tree dir pids s
    samples ← capture_samples dir pids 3
    pure (
        ok (
          some (record {
            dir = dir;
            timestamp = time;
            files = added (added (added [] top) ps) tree ++ samples;
          })))

  abbrev pub after_mkdir :
      String → ℤ → List ℤ → Snapshot → Option String → M (Outcome (Option DiagnosticSnapshot))
  after_mkdir dir time pids s (some e) = pure (err (concat ("create diagnostics dir: " ∷ e ∷ [])))
  after_mkdir dir time pids s none = capture_into dir time pids s

  unfoldable pub capture : String → List ℤ → Snapshot → M (Outcome (Option DiagnosticSnapshot))
  capture base_path pids s = if base_path == "" then pure (ok none) else do
    time ← now env
    let dir = env.join_path base_path (env.stamp time)
    failed ← mkdir_all env dir
    after_mkdir dir time pids s failed

  unfoldable pub capture_spindump : String → ℤ → M (Outcome String)
  capture_spindump dir pid =
      capture_command (env.join_path dir (concat ("spindump_" ∷ decimal pid ∷ ".txt" ∷ [])))
        ("spindump" ∷ decimal pid ∷ "3" ∷ [])
