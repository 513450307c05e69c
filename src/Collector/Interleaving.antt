-- ===== src/Collector/Interleaving.antt =====
-- The goroutines of `Collect` (internal/collector/collector.go) in any order.
use mathlib.Core.List.{Permᴰ}
use workloadguard.Base.{ℤ, String, List, [], ◌∷◌, ◌++◌, ◌≡◌, refl, ap, ◌∙◌, arith}
use workloadguard.Collector.{
  Snapshot, Readings, Task, load_task, cpu_task, memory_task, process_task, apply_task, task_errors,
  run_tasks, collect,
}

abbrev pub all_tasks : List Task
all_tasks = load_task ∷ cpu_task ∷ memory_task ∷ process_task ∷ []

-- Two goroutines write different fields.
apply_task_comm :
    (r : Readings) (t u : Task) (s : Snapshot)
    → apply_task r t (apply_task r u s) ≡ apply_task r u (apply_task r t s)
unfolding apply_task
apply_task_comm r load_task u s = ground arith
apply_task_comm r cpu_task u s = ground arith
apply_task_comm r memory_task u s = ground arith
apply_task_comm r process_task u s = ground arith

unfoldable pub apply_all : Readings → List Task → Snapshot → Snapshot
apply_all r [] s = s
apply_all r (t ∷ ts) s = apply_all r ts (apply_task r t s)

pub run_tasks-apply_all :
    (r : Readings) (ts : List Task) (s : Snapshot) (errs : List String)
    → (run_tasks r ts (s, errs)).0 ≡ apply_all r ts s
unfolding run_tasks apply_all
run_tasks-apply_all r [] s errs = refl
run_tasks-apply_all r (t ∷ ts) s errs =
    run_tasks-apply_all r ts (apply_task r t s) (errs ++ task_errors r t)

apply_all-perm :
    (r : Readings) {ts us : List Task}
    → Permᴰ ts us
    → (s : Snapshot) → apply_all r ts s ≡ apply_all r us s
unfolding apply_all
apply_all-perm r Permᴰ.nil s = refl
apply_all-perm r (Permᴰ.cons {a} {b} {l₂} same p) s =
    apply_all-perm r p (apply_task r a s) ∙ ap (λ t. apply_all r l₂ (apply_task r t s)) same
apply_all-perm r (Permᴰ.swap {a} {b} {a'} {b'} {l} p q) s = ap (apply_all r l) (
    apply_task_comm r b a s
    ∙ ap (λ t. apply_task r t (apply_task r b s)) p
    ∙ ap (λ t. apply_task r b' (apply_task r t s)) q)
apply_all-perm r (Permᴰ.trans p q) s = apply_all-perm r p s ∙ apply_all-perm r q s

-- The snapshot is the same in whatever order the goroutines take the mutex.
pub collect_order :
    (now : ℤ) (r : Readings) {order other : List Task}
    → Permᴰ order other
    → (collect now r order).0 ≡ (collect now r other).0
unfolding collect
collect_order now r {order} {other} p =
    rw (run_tasks-apply_all r order _ _, run_tasks-apply_all r other _ _) (apply_all-perm r p _)
