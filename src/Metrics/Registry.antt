-- ===== src/Metrics/Registry.antt =====
-- `New` of internal/metrics/metrics.go: the metrics that it registers, and what their library asks
-- of the calls.
use workloadguard.Base.{
  ℕ, ℤ, Bool, true, false, ◌&&◌, not, String, string_eq, List, [], ◌∷◌, Option, none, some, ◌≡◌,
  refl, All, length, elem,
}
use workloadguard.Base.Dict.{Dict, lookup, keys}
use workloadguard.Float.{Float64}
use workloadguard.Metrics.{
  MetricCall, set_gauge, increment, observe, Metrics, update_system_metrics, update_process_count,
  update_process_count_by_name, record_policy_evaluation, record_policy_trigger,
  record_policy_action, record_check_duration, record_check, record_termination,
}

pub data MetricKind : Type 0 where
  gauge counter histogram : MetricKind

-- Each metric under its name below the namespace, with its subsystem: its kind and its labels.
abbrev pub registered : Dict String (MetricKind × List String)
registered =
    ("system_load_average_1m", (gauge, []))
    ∷ ("system_load_average_5m", (gauge, []))
    ∷ ("system_load_average_15m", (gauge, []))
    ∷ ("system_cpu_count", (gauge, []))
    ∷ ("system_memory_total_bytes", (gauge, []))
    ∷ ("system_memory_free_bytes", (gauge, []))
    ∷ ("process_count_total", (gauge, []))
    ∷ ("process_count_by_name", (gauge, "name" ∷ []))
    ∷ ("policy_evaluations_total", (counter, "policy" ∷ []))
    ∷ ("policy_triggers_total", (counter, "policy" ∷ []))
    ∷ ("policy_actions_total", (counter, "policy" ∷ "action" ∷ []))
    ∷ ("check_duration_seconds", (histogram, []))
    ∷ ("check_total", (counter, "trigger" ∷ []))
    ∷ ("termination_sigterm_total", (counter, "policy" ∷ "process" ∷ []))
    ∷ ("termination_sigkill_total", (counter, "policy" ∷ "process" ∷ []))
    ∷ []

-- No name comes twice: `MustRegister` panics on a name that is taken.
unfoldable distinct : List String → Bool
distinct [] = true
distinct (name ∷ names) = not (elem name names) && distinct names

-- The metric is registered, with as many labels as there are values: `WithLabelValues` panics on
-- another number.
abbrev pub HasKind : MetricKind → List String → Option (MetricKind × List String) → Type 0
HasKind k values none = ⊥
HasKind k values (some (kind, labels)) = (kind ≡ k) × (length labels ≡ length values)

abbrev pub IsRegistered : MetricCall → Type 0
IsRegistered (set_gauge name values x) = HasKind gauge values (lookup name registered)
IsRegistered (increment name values) = HasKind counter values (lookup name registered)
IsRegistered (observe name x) = HasKind histogram [] (lookup name registered)

registered-distinct : distinct (keys registered) ≡ true
unfolding distinct
registered-distinct = refl

record_termination-All :
    (policy process : String) (forced : Bool) (m : Metrics)
    → All IsRegistered m
    → All IsRegistered (record_termination policy process forced m)
unfolding record_termination
record_termination-All policy process true m h = ((refl, refl), h)
record_termination-All policy process false m h = ((refl, refl), h)

update_system_metrics-All :
    (load1 load5 load15 : Float64) (cpu_count : ℤ) (total free : ℕ) (m : Metrics)
    → All IsRegistered m
    → All IsRegistered (update_system_metrics load1 load5 load15 cpu_count total free m)
unfolding update_system_metrics
update_system_metrics-All load1 load5 load15 cpu_count total free m h = (
  (refl, refl),
  ((refl, refl), ((refl, refl), ((refl, refl), ((refl, refl), ((refl, refl), h))))),
)

-- The calls of the package's methods, with their arguments.
pub data Report : Type 0 where
  system_report : Float64 → Float64 → Float64 → ℤ → ℕ → ℕ → Report
  count_report : ℕ → Report
  name_report : String → ℕ → Report
  evaluation_report trigger_report : String → Report
  action_report : String → String → Report
  duration_report : ℤ → Report
  check_report : String → Report
  termination_report : String → String → Bool → Report

abbrev report : Report → Metrics → Metrics
report (system_report a b c n total free) = update_system_metrics a b c n total free
report (count_report n) = update_process_count n
report (name_report name n) = update_process_count_by_name name n
report (evaluation_report policy) = record_policy_evaluation policy
report (trigger_report policy) = record_policy_trigger policy
report (action_report policy action) = record_policy_action policy action
report (duration_report d) = record_check_duration d
report (check_report trigger) = record_check trigger
report (termination_report policy process forced) = record_termination policy process forced

unfoldable pub reports : List Report → Metrics → Metrics
reports [] m = m
reports (r ∷ rs) m = reports rs (report r m)

report-All : (r : Report) (m : Metrics) → All IsRegistered m → All IsRegistered (report r m)
unfolding update_process_count update_process_count_by_name record_policy_evaluation
    record_policy_trigger record_policy_action record_check_duration record_check
report-All (system_report a b c n total free) m h = update_system_metrics-All a b c n total free m h
report-All (count_report n) m h = ((refl, refl), h)
report-All (name_report name n) m h = ((refl, refl), h)
report-All (evaluation_report policy) m h = ((refl, refl), h)
report-All (trigger_report policy) m h = ((refl, refl), h)
report-All (action_report policy action) m h = ((refl, refl), h)
report-All (duration_report d) m h = ((refl, refl), h)
report-All (check_report trigger) m h = ((refl, refl), h)
report-All (termination_report policy process forced) m h =
    record_termination-All policy process forced m h

-- Every call of the library that the package's methods make, in any order and with any arguments,
-- is of a metric that `New` registers, of its kind, and with a value for each of its labels.
pub reports-IsRegistered :
    (rs : List Report) (m : Metrics) → All IsRegistered m → All IsRegistered (reports rs m)
unfolding reports
reports-IsRegistered [] m h = h
reports-IsRegistered (r ∷ rs) m h = reports-IsRegistered rs (report r m) (report-All r m h)
