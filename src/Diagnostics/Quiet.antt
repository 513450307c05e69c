-- ===== src/Diagnostics/Quiet.antt =====
-- A capture of diagnostics (internal/diagnostics/diagnostics.go) touches no process.
use workloadguard.Base.{
  ℤ, String, string_eq, List, [], ◌∷◌, Option, none, some, Outcome, ok, err, ◌==◌, take,
}
use workloadguard.System.{write_file, read_clock, make_dir, Env, write, now, mkdir_all}
use workloadguard.System.Emits.{Adds-refl, Adds-trans, Adds-one, Emits}
use workloadguard.Collector.{Snapshot}
use workloadguard.Policy.Executor.Signals.{IsQuiet, if_Emits, run_command-IsQuiet}
use workloadguard.Diagnostics.{
  write_out, capture_command, capture_top, capture_ps, capture_process_tree, sample_each,
  capture_samples, after_mkdir, capture,
}

module _ (env : Env) where
  write-IsQuiet : (file text : String) → Emits IsQuiet (write env file text)
  unfolding write
  write-IsQuiet file text t = Adds-one IsQuiet (write_file file text) t tt

  write_out-IsQuiet : (file : String) (o : Outcome String) → Emits IsQuiet (write_out env file o)
  write_out-IsQuiet file (ok output) t = write-IsQuiet file output t
  write_out-IsQuiet file (err e) t = Adds-refl IsQuiet t

  capture_command-IsQuiet :
      (file : String) (args : List String) → Emits IsQuiet (capture_command env file args)
  unfolding capture_command
  capture_command-IsQuiet file args t =
      Adds-trans IsQuiet (run_command-IsQuiet env args t) (write_out-IsQuiet file _ _)

  sample_each-IsQuiet : (dir : String) (pids : List ℤ) → Emits IsQuiet (sample_each env dir pids)
  unfolding sample_each
  sample_each-IsQuiet dir [] t = Adds-refl IsQuiet t
  sample_each-IsQuiet dir (pid ∷ pids) t =
      Adds-trans IsQuiet (capture_command-IsQuiet _ _ t) (sample_each-IsQuiet dir pids _)

  after_mkdir-IsQuiet :
      (dir : String) (time : ℤ) (pids : List ℤ) (s : Snapshot) (o : Option String)
      → Emits IsQuiet (after_mkdir env dir time pids s o)
  unfolding capture_top capture_ps capture_process_tree capture_samples
  after_mkdir-IsQuiet dir time pids s (some e) t = Adds-refl IsQuiet t
  after_mkdir-IsQuiet dir time pids s none t = Adds-trans IsQuiet (capture_command-IsQuiet _ _ t) (
      Adds-trans IsQuiet (capture_command-IsQuiet _ _ _)
        (Adds-trans IsQuiet (write-IsQuiet _ _ _) (sample_each-IsQuiet dir (take 3 pids) _)))

  -- `Capture` runs commands, reads the clock, makes a directory and writes files, and looks up,
  -- signals or waits for no process.
  pub capture-IsQuiet :
      (base : String) (pids : List ℤ) (s : Snapshot) → Emits IsQuiet (capture env base pids s)
  unfolding capture now mkdir_all
  capture-IsQuiet base pids s =
      if_Emits IsQuiet (base == "") _ _ (λ off t. Adds-refl IsQuiet t)
        (λ on t. Adds-trans IsQuiet (Adds-one IsQuiet read_clock t tt) (
          Adds-trans IsQuiet (Adds-one IsQuiet (make_dir _) _ tt)
            (after_mkdir-IsQuiet _ _ pids s _ _)))
