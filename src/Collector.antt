-- ===== src/Collector.antt =====
-- internal/collector/collector.go: a snapshot of the system and its indices.
pub mod Index
pub mod Interleaving
pub mod Listing
pub mod Parents
use workloadguard.Base.{
  ℕ, suc, ℤ, pos, int_eq, Bool, true, false, not, String, List, [], ◌∷◌, ◌++◌, map, Option, none,
  some, ◌==◌, string_eq, if◌then◌else◌, length, Outcome, ok, err,
}
use workloadguard.Base.Filter.{filter_by}
use workloadguard.Base.Dict.{Dict, lookup, insert, get_or, append_at}
use workloadguard.Float.{Float64, float_zero}

pub record LoadAverage : Type 0 where
  pub load1 : Float64
  pub load5 : Float64
  pub load15 : Float64

pub record MemoryStats : Type 0 where
  pub total : ℕ
  pub free_bytes : ℕ

pub record ProcessInfo : Type 0 where
  pub pid : ℤ
  pub ppid : ℤ
  pub name : String
  pub parent_name : String
  pub path : String
  pub resident_memory : ℕ

pub record Snapshot : Type 0 where
  pub timestamp : ℤ
  pub load_average : LoadAverage
  pub cpu_count : ℤ
  pub memory : MemoryStats
  pub processes : List ProcessInfo
  pub by_name : Dict String (List ProcessInfo)
  pub by_pid : Dict ℤ ProcessInfo

-- What the platform package says of one process.
pub record Process : Type 0 where
  pub pid : ℤ
  pub ppid : ℤ
  pub name : String
  pub path : String

-- The answers of the platform package while one snapshot is taken. `cancelled n` is `ctx.Err()` as
-- the n-th round of the loop over the PIDs sees it.
pub record Readings : Type 0 where
  pub load : Outcome LoadAverage
  pub cpus : Outcome ℤ
  pub memory : Outcome MemoryStats
  pub list_pids : Outcome (List ℤ)
  pub cancelled : ℕ → Option String
  pub process_info : ℤ → Option Process
  pub resource_usage : ℤ → Option ℕ

abbrev pub describe : Process → ℕ → ProcessInfo
describe info resident = record {
  pid = info.pid;
  ppid = info.ppid;
  name = info.name;
  parent_name = "";
  path = info.path;
  resident_memory = resident;
}

-- One round of the loop: a process that has exited is skipped, one without usage is kept.
unfoldable pub read_process : Readings → ℤ → List ProcessInfo
read_process r pid = elim (r.process_info pid) [
  | none ↦ []
  | some info ↦ elim (r.resource_usage pid) [
    | none ↦ describe info 0 ∷ []
    | some resident ↦ describe info resident ∷ []
  ]
]

-- The loop of `collectProcesses`. The processes read before a cancellation are dropped by the
-- caller, as the error is not nil.
unfoldable pub read_processes :
    Readings → ℕ → List ProcessInfo → List ℤ → Outcome (List ProcessInfo)
read_processes r n acc [] = ok acc
read_processes r n acc (pid ∷ pids) =
    let rest = read_processes r (suc n) (acc ++ read_process r pid) pids in
    elim (r.cancelled n) [ some e ↦ err e | none ↦ rest ]

unfoldable pub collect_processes : Readings → Outcome (List ProcessInfo)
unfolding read_processes read_process
collect_processes r = elim r.list_pids [ err e ↦ err e | ok pids ↦ read_processes r 0 [] pids ]

-- `ByName[p.Name] = append(ByName[p.Name], p)` for each process
unfoldable pub index_by_name :
    Dict String (List ProcessInfo) → List ProcessInfo → Dict String (List ProcessInfo)
index_by_name m [] = m
index_by_name m (p ∷ ps) = index_by_name (append_at p.name p m) ps

-- `ByPID[p.PID] = p` for each process
unfoldable pub index_by_pid : Dict ℤ ProcessInfo → List ProcessInfo → Dict ℤ ProcessInfo
index_by_pid m [] = m
index_by_pid m (p ∷ ps) = index_by_pid (insert p.pid p m) ps

-- `if parent, ok := ByPID[p.PPID]; ok { p.ParentName = parent.Name }`
unfoldable pub resolve_parent : Dict ℤ ProcessInfo → ProcessInfo → ProcessInfo
resolve_parent m p = elim (lookup p.ppid m) [
  | none ↦ p
  | some parent ↦ record p { parent_name = parent.name }
]

-- The locked part of the goroutine that collects the process list. The first index by name is
-- made and replaced by the one over the processes with parents.
unfoldable pub store_processes : List ProcessInfo → Snapshot → Snapshot
unfolding index_by_name index_by_pid resolve_parent
store_processes ps s =
    let by_pid = index_by_pid s.by_pid ps in
    let resolved = map (resolve_parent by_pid) ps in
    record s { processes = resolved; by_pid = by_pid; by_name = index_by_name [] resolved }

-- The four goroutines of `Collect`. Each writes under the mutex, at once.
pub data Task : Type 0 where
  load_task cpu_task memory_task process_task : Task

abbrev store {ℓ} : {A : Type ℓ} → (A → Snapshot → Snapshot) → Outcome A → Snapshot → Snapshot
store set (ok a) s = set a s
store set (err e) s = s

abbrev failure {ℓ} : {A : Type ℓ} → Outcome A → List String
failure (ok a) = []
failure (err e) = e ∷ []

-- What a goroutine writes to the snapshot.
unfoldable pub apply_task : Readings → Task → Snapshot → Snapshot
unfolding collect_processes store_processes
apply_task r load_task s = store (λ load s. record s { load_average = load }) r.load s
apply_task r cpu_task s = store (λ count s. record s { cpu_count = count }) r.cpus s
apply_task r memory_task s = store (λ mem s. record s { memory = mem }) r.memory s
apply_task r process_task s = store store_processes (collect_processes r) s

-- What it appends to `errs`.
unfoldable pub task_errors : Readings → Task → List String
unfolding collect_processes
task_errors r load_task = failure r.load
task_errors r cpu_task = failure r.cpus
task_errors r memory_task = failure r.memory
task_errors r process_task = failure (collect_processes r)

unfoldable pub run_tasks : Readings → List Task → Snapshot × List String → Snapshot × List String
unfolding apply_task task_errors
run_tasks r [] state = state
run_tasks r (t ∷ ts) (s, errs) = run_tasks r ts (apply_task r t s, errs ++ task_errors r t)

abbrev pub empty_snapshot : ℤ → Snapshot
empty_snapshot now = record {
  timestamp = now;
  load_average = record { load1 = float_zero; load5 = float_zero; load15 = float_zero };
  cpu_count = pos 0;
  memory = record { total = 0; free_bytes = 0 };
  processes = [];
  by_name = [];
  by_pid = [];
}

-- `Collect`, where `order` is the order in which the goroutines take the mutex. The errors are
-- logged; the error that `Collect` returns is always nil.
unfoldable pub collect : ℤ → Readings → List Task → Snapshot × List String
unfolding run_tasks
collect now r order = run_tasks r order (empty_snapshot now, [])

unfoldable pub processes_by_name : Snapshot → String → List ProcessInfo
processes_by_name s name = get_or name [] s.by_name

unfoldable pub process_count : Snapshot → String → ℕ
process_count s name = length (get_or name [] s.by_name)

unfoldable pub process_by_pid : Snapshot → ℤ → Option ProcessInfo
process_by_pid s pid = lookup pid s.by_pid

unfoldable pub processes_by_parent : Snapshot → String → List ProcessInfo
processes_by_parent s parent = filter_by (λ p. p.parent_name == parent) s.processes

unfoldable pub processes_by_name_and_parent : Snapshot → String → String → List ProcessInfo
processes_by_name_and_parent s name parent =
    filter_by (λ p. p.parent_name == parent) (get_or name [] s.by_name)

-- `set[name] = true` for each name
abbrev name_set : Dict String Bool → List String → Dict String Bool
name_set m [] = m
name_set m (n ∷ ns) = name_set (insert n true m) ns

unfoldable pub filter_by_parents : List ProcessInfo → List String → List ProcessInfo
filter_by_parents ps parents = filter_by (λ p. get_or p.parent_name false (name_set [] parents)) ps

unfoldable pub exclude_by_parents : List ProcessInfo → List String → List ProcessInfo
exclude_by_parents ps excluded =
    filter_by (λ p. not (get_or p.parent_name false (name_set [] excluded))) ps
