-- ===== src/Tests/Acting.antt =====
-- The theorems on the executor, diagnostics and the daemon, on concrete data.
use workloadguard.System.Emits.{Emits}
use workloadguard.Base.{pos, false, int_eq, string_eq, [], ◌∷◌, refl, arith, ◌≢◌, String}
use workloadguard.Policy.Engine.{Decision}
use workloadguard.Policy.Executor.{execute, execute_terminate}
use workloadguard.Policy.Executor.Phases.{Terminates, execute_terminate-Terminates}
use workloadguard.Policy.Executor.Signals.{SignalsOf, execute-SignalsOf, IsQuiet, execute-IsQuiet}
use workloadguard.Samples.{env, snapshot, config, decision}

execute_terminate-Terminates_example :
    let run = execute_terminate env (config false) decision [] in
    Terminates env (pos 3) (pos 11 ∷ pos 12 ∷ []) [] run.1 run.0
execute_terminate-Terminates_example =
    execute_terminate-Terminates env (config false) decision [] (λ u q. refl)
      (λ e. ground (arith, e))

execute-SignalsOf_example :
    Emits (SignalsOf (pos 11 ∷ pos 12 ∷ [])) (execute env (config false) decision snapshot)
execute-SignalsOf_example = execute-SignalsOf env (config false) decision snapshot

abbrev looking : Decision
looking = record decision { actions = "log" ∷ "sample" ∷ [] }

abbrev terminate_action : String
terminate_action = "terminate"

abbrev log_action : String
log_action = "log"

abbrev sample_action : String
sample_action = "sample"

log-other : log_action ≢ terminate_action
log-other e = ground (arith, (string_eq.test_iff log_action terminate_action).1 e)

sample-other : sample_action ≢ terminate_action
sample-other e = ground (arith, (string_eq.test_iff sample_action terminate_action).1 e)

execute-IsQuiet_example : Emits IsQuiet (execute env (config false) looking snapshot)
execute-IsQuiet_example =
    execute-IsQuiet env (config false) looking snapshot (log-other, (sample-other, tt))
