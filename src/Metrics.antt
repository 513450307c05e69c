-- ===== src/Metrics.antt =====
-- internal/metrics/metrics.go: what the program reports to the Prometheus library, as the list of
-- its calls, newest first. What the library does with a call is not modelled.
pub mod Registry
use workloadguard.Base.{ℕ, ℤ, Bool, String, List, [], ◌∷◌, if◌then◌else◌}
use workloadguard.Float.{Float64}

-- A number before its conversion to float64.
pub data Value : Type 0 where
  of_float : Float64 → Value
  of_int : ℤ → Value
  of_uint : ℕ → Value
  of_seconds : ℤ → Value  -- a duration, in nanoseconds

-- The metric's name below the namespace, with its subsystem, and its label values.
pub data MetricCall : Type 0 where
  set_gauge : String → List String → Value → MetricCall
  increment : String → List String → MetricCall
  observe : String → Value → MetricCall

abbrev pub Metrics : Type 0
Metrics = List MetricCall

unfoldable pub update_system_metrics : Float64 → Float64 → Float64 → ℤ → ℕ → ℕ → Metrics → Metrics
update_system_metrics load1 load5 load15 cpu_count mem_total mem_free m =
    set_gauge "system_memory_free_bytes" [] (of_uint mem_free)
    ∷ set_gauge "system_memory_total_bytes" [] (of_uint mem_total)
    ∷ set_gauge "system_cpu_count" [] (of_int cpu_count)
    ∷ set_gauge "system_load_average_15m" [] (of_float load15)
    ∷ set_gauge "system_load_average_5m" [] (of_float load5)
    ∷ set_gauge "system_load_average_1m" [] (of_float load1)
    ∷ m

unfoldable pub update_process_count : ℕ → Metrics → Metrics
update_process_count count m = set_gauge "process_count_total" [] (of_uint count) ∷ m

unfoldable pub update_process_count_by_name : String → ℕ → Metrics → Metrics
update_process_count_by_name name count m =
    set_gauge "process_count_by_name" (name ∷ []) (of_uint count) ∷ m

unfoldable pub record_policy_evaluation : String → Metrics → Metrics
record_policy_evaluation policy m = increment "policy_evaluations_total" (policy ∷ []) ∷ m

unfoldable pub record_policy_trigger : String → Metrics → Metrics
record_policy_trigger policy m = increment "policy_triggers_total" (policy ∷ []) ∷ m

unfoldable pub record_policy_action : String → String → Metrics → Metrics
record_policy_action policy action m = increment "policy_actions_total" (policy ∷ action ∷ []) ∷ m

unfoldable pub record_check_duration : ℤ → Metrics → Metrics
record_check_duration d m = observe "check_duration_seconds" (of_seconds d) ∷ m

unfoldable pub record_check : String → Metrics → Metrics
record_check trigger m = increment "check_total" (trigger ∷ []) ∷ m

unfoldable pub record_termination : String → String → Bool → Metrics → Metrics
record_termination policy process forced m =
    (if forced
      then increment "termination_sigkill_total" (policy ∷ process ∷ [])
      else increment "termination_sigterm_total" (policy ∷ process ∷ []))
    ∷ m
