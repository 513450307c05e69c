-- ===== src/Collector/Index.antt =====
-- The two indices of a snapshot against its process list (internal/collector/collector.go).
use mathlib.Core.List.{Permᴰ, append-nil}
use mathlib.Core.Option
use workloadguard.Base.{
  ℤ, int_eq, string_eq, String, List, [], ◌∷◌, ◌++◌, map, Option, none, some, ◌==◌, ◌≡◌, ◌≢◌, refl,
  sym, ◌∙◌, subst, if◌then◌else◌, All, arith, Bool, Outcome, ok, err,
}
use workloadguard.Base.Filter.{filter_by}
use workloadguard.Base.Dict.{
  Dict, lookup, insert, get_or, append_at, get_or-append_at, lookup-insert,
}
use workloadguard.Collector.{
  ProcessInfo, Snapshot, Readings, Task, collect, index_by_name, index_by_pid, resolve_parent,
  processes_by_name, process_by_pid, read_process, collect_processes, store_processes, apply_task,
  process_task, load_task, cpu_task, memory_task, store, empty_snapshot,
}
use workloadguard.Collector.Listing.{OnOk, collect_processes-All}
use workloadguard.Collector.Interleaving.{all_tasks, collect_order, run_tasks-apply_all, apply_all}

pub get_or-index_by_name :
    (n : String) (m : Dict String (List ProcessInfo)) (ps : List ProcessInfo)
    → get_or n [] (index_by_name m ps) ≡ get_or n [] m ++ filter_by (λ p. p.name == n) ps
unfolding index_by_name
get_or-index_by_name n m [] = sym (append-nil _)
get_or-index_by_name n m (p ∷ ps) =
    get_or-index_by_name n (append_at p.name p m) ps ∙ get_or-append_at p.name n p m _

-- The last element that passes the test.
abbrev pub last_match {ℓ} : {A : Type ℓ} → (A → Bool) → List A → Option A
last_match p [] = none
last_match p (x ∷ xs) = elim (last_match p xs) [
  | some y ↦ some y
  | none ↦ if p x then some x else none
]

pub lookup-index_by_pid :
    (pid : ℤ) (m : Dict ℤ ProcessInfo) (ps : List ProcessInfo)
    → lookup pid (index_by_pid m ps)
      ≡ elim (last_match (λ p. p.pid == pid) ps) [ some p ↦ some p | none ↦ lookup pid m ]
unfolding index_by_pid
lookup-index_by_pid pid m [] = refl
lookup-index_by_pid pid m (p ∷ ps) =
    ground (arith, lookup-index_by_pid pid (insert p.pid p m) ps, lookup-insert p.pid pid p m)

-- A process as `collectProcesses` reads it, before its parent is looked up.
abbrev pub without_parent : ProcessInfo → ProcessInfo
without_parent p = record p { parent_name = "" }

-- What holds of a snapshot between its list of processes and its two indices.
pub record IsIndexed (s : Snapshot) : Type 0 where
  pub named : (n : String) → processes_by_name s n ≡ filter_by (λ p. p.name == n) s.processes
  pub numbered :
      (pid : ℤ)
      → process_by_pid s pid
        ≡ Option.map without_parent (last_match (λ p. p.pid == pid) s.processes)
  pub parented :
      All
        (λ p.
          p.parent_name ≡ elim (process_by_pid s p.ppid) [ none ↦ "" | some parent ↦ parent.name ])
        s.processes

abbrev IsRaw : ProcessInfo → Type 0
IsRaw p = p.parent_name ≡ ""

read_process-IsRaw : (r : Readings) (pid : ℤ) → All IsRaw (read_process r pid)
unfolding read_process
read_process-IsRaw r pid = ground arith

pointwise_IsRaw : (r : Readings) (pids : List ℤ) → All (λ pid. All IsRaw (read_process r pid)) pids
pointwise_IsRaw r [] = tt
pointwise_IsRaw r (pid ∷ pids) = (read_process-IsRaw r pid, pointwise_IsRaw r pids)

collect_processes-IsRaw : (r : Readings) → OnOk (All IsRaw) (collect_processes r)
collect_processes-IsRaw r = collect_processes-All IsRaw r (go r.list_pids)
  where
    go : (o : Outcome (List ℤ)) → OnOk (All (λ pid. All IsRaw (read_process r pid))) o
    go (ok pids) = pointwise_IsRaw r pids
    go (err e) = tt

last_match-resolve_parent :
    (m : Dict ℤ ProcessInfo) (pid : ℤ) (ps : List ProcessInfo)
    → All IsRaw ps
    → last_match (λ p. p.pid == pid) ps
      ≡ Option.map without_parent (last_match (λ p. p.pid == pid) (map (resolve_parent m) ps))
unfolding resolve_parent
last_match-resolve_parent m pid [] h = refl
last_match-resolve_parent m pid (p ∷ ps) h = ground (arith, last_match-resolve_parent m pid ps h.1)

resolve_parent-All :
    (m : Dict ℤ ProcessInfo) (ps : List ProcessInfo)
    → All IsRaw ps
    → All
        (λ p. p.parent_name ≡ elim (lookup p.ppid m) [ none ↦ "" | some parent ↦ parent.name ])
        (map (resolve_parent m) ps)
unfolding resolve_parent
resolve_parent-All m [] h = tt
resolve_parent-All m (p ∷ ps) h = (ground arith, resolve_parent-All m ps h.1)

store_processes-IsIndexed :
    (ps : List ProcessInfo) (s : Snapshot)
    → All IsRaw ps
    → s.by_pid ≡ []
    → IsIndexed (store_processes ps s)
unfolding store_processes processes_by_name process_by_pid
store_processes-IsIndexed ps s raw e = record {
  named = λ n. get_or-index_by_name n [] (map (resolve_parent m) ps);
  numbered = λ pid.
      lookup-index_by_pid pid s.by_pid ps ∙ ground (arith, last_match-resolve_parent m pid ps raw);
  parented = resolve_parent-All m ps raw;
}
  where
    m : Dict ℤ ProcessInfo
    m = index_by_pid s.by_pid ps

record IsBlank (s : Snapshot) : Type 0 where
  no_pids : s.by_pid ≡ []
  no_names : s.by_name ≡ []
  no_processes : s.processes ≡ []

apply_task-IsBlank :
    (r : Readings) (t : Task) (s : Snapshot)
    → t ≢ process_task
    → IsBlank s
    → IsBlank (apply_task r t s)
unfolding apply_task
apply_task-IsBlank r load_task s h b = ground arith
apply_task-IsBlank r cpu_task s h b = ground arith
apply_task-IsBlank r memory_task s h b = ground arith
apply_task-IsBlank r process_task s h b = absurd (h refl)

IsBlank-IsIndexed : (s : Snapshot) → IsBlank s → IsIndexed s
unfolding processes_by_name process_by_pid
IsBlank-IsIndexed s b = record {
  named = λ n. rw (b.no_names, b.no_processes) refl;
  numbered = λ pid. rw (b.no_pids, b.no_processes) refl;
  parented = rw (b.no_processes) tt;
}

process_task-IsIndexed :
    (r : Readings) (s : Snapshot) → IsBlank s → IsIndexed (apply_task r process_task s)
unfolding apply_task
process_task-IsIndexed r s b = go (collect_processes r) (collect_processes-IsRaw r)
  where
    go :
        (o : Outcome (List ProcessInfo))
        → OnOk (All IsRaw) o
        → IsIndexed (store store_processes o s)
    go (ok ps) raw = store_processes-IsIndexed ps s raw b.no_pids
    go (err e) raw = IsBlank-IsIndexed s b

apply_all-IsIndexed :
    (r : Readings) (s : Snapshot) → IsBlank s → IsIndexed (apply_all r all_tasks s)
unfolding apply_all
apply_all-IsIndexed r s b = process_task-IsIndexed r _ (
    apply_task-IsBlank r memory_task _ (λ e. cc)
      (apply_task-IsBlank r cpu_task _ (λ e. cc) (apply_task-IsBlank r load_task s (λ e. cc) b)))

-- Whatever the platform answers, and in whatever order the goroutines finish: the index by name
-- holds exactly the listed processes of that name, in order, with their parents; the index by PID
-- holds the last process listed under it, without its parent; and a process's parent name is the
-- name of the process that the index by PID holds for its parent, or empty.
pub collect-IsIndexed :
    (now : ℤ) (r : Readings) {order : List Task}
    → Permᴰ order all_tasks
    → IsIndexed (collect now r order).0
unfolding collect
collect-IsIndexed now r p =
    subst IsIndexed
      (sym (collect_order now r p ∙ run_tasks-apply_all r all_tasks (empty_snapshot now) []))
      (apply_all-IsIndexed r (empty_snapshot now)
        (record { no_pids = refl; no_names = refl; no_processes = refl }))
