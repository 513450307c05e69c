-- ===== src/Collector/Listing.antt =====
-- What the processes of a snapshot have from the readings (internal/collector/collector.go).
use workloadguard.Base.{
  ℕ, suc, ℤ, String, List, [], ◌∷◌, ◌++◌, map, Option, none, some, Outcome, ok, err, ◌≡◌, All,
  All-append, Option-cases, inl, inr, arith, subst, sym,
}
use workloadguard.Base.Dict.{Dict}
use workloadguard.Collector.{
  ProcessInfo, Process, Snapshot, Readings, Task, collect, read_process, read_processes,
  collect_processes, resolve_parent, store_processes, describe, index_by_pid, apply_task,
  process_task, load_task, cpu_task, memory_task, run_tasks, store, empty_snapshot, task_errors,
}

abbrev pub OnOk {ℓ} : {A : Type ℓ} → (A → Type 0) → Outcome A → Type 0
OnOk P (ok a) = P a
OnOk P (err e) = Unit

module _ (P : ProcessInfo → Type 0) (r : Readings) where
  read_processes-All :
      (n : ℕ) (acc : List ProcessInfo) (pids : List ℤ)
      → All P acc
      → All (λ pid. All P (read_process r pid)) pids
      → OnOk (All P) (read_processes r n acc pids)
  unfolding read_processes
  read_processes-All n acc [] h k = h
  read_processes-All n acc (pid ∷ pids) h k = elim (Option-cases (r.cancelled n)) [
    | inl on ↦
        rw (on, read_processes)
          (read_processes-All (suc n) (acc ++ read_process r pid) pids
            (All-append P acc (read_process r pid) h k.0) k.1)
    | inr (e, off) ↦ rw (off, read_processes) tt
  ]

  pub collect_processes-All :
      OnOk (All (λ pid. All P (read_process r pid))) r.list_pids
      → OnOk (All P) (collect_processes r)
  unfolding collect_processes
  collect_processes-All = go r.list_pids
    where
      go :
          (o : Outcome (List ℤ))
          → OnOk (All (λ pid. All P (read_process r pid))) o
          → OnOk (All P) (elim o [ err e ↦ err e | ok pids ↦ read_processes r 0 [] pids ])
      go (ok pids) h = read_processes-All 0 [] pids tt h
      go (err e) h = tt

-- What holds of the PIDs that the platform lists, and each process has the PID asked for.
pub record Lists (Q : ℤ → Type 0) (r : Readings) : Type 0 where
  pub listed : OnOk (All Q) r.list_pids
  pub own : (pid : ℤ) (p : Process) → r.process_info pid ≡ some p → p.pid ≡ pid

module _ (Q : ℤ → Type 0) where
  abbrev pub HasPid : ProcessInfo → Type 0
  HasPid p = Q p.pid

  resolve_parent-pid : (m : Dict ℤ ProcessInfo) (p : ProcessInfo) → (resolve_parent m p).pid ≡ p.pid
  unfolding resolve_parent
  resolve_parent-pid m p = ground arith

  resolve_parent-HasPid :
      (m : Dict ℤ ProcessInfo) (ps : List ProcessInfo)
      → All HasPid ps
      → All HasPid (map (resolve_parent m) ps)
  resolve_parent-HasPid m [] h = tt
  resolve_parent-HasPid m (p ∷ ps) h =
      (subst Q (sym (resolve_parent-pid m p)) h.0, resolve_parent-HasPid m ps h.1)

  module _ (r : Readings) (h : Lists Q r) where
    describe-HasPid :
        (pid : ℤ) (info : Process) (usage : Option ℕ)
        → Q info.pid
        → All HasPid (elim usage [
          | none ↦ describe info 0 ∷ []
          | some resident ↦ describe info resident ∷ []
        ])
    describe-HasPid pid info none q = (q, tt)
    describe-HasPid pid info (some resident) q = (q, tt)

    read_process-HasPid : (pid : ℤ) → Q pid → All HasPid (read_process r pid)
    unfolding read_process
    read_process-HasPid pid q = elim (Option-cases (r.process_info pid)) [
      | inl gone ↦ rw (gone, read_process) tt
      | inr (info, found) ↦
          rw (found, read_process)
            (describe-HasPid pid info (r.resource_usage pid)
              (subst Q (sym (h.own pid info found)) q))
    ]

    listed-HasPid : (pids : List ℤ) → All Q pids → All (λ pid. All HasPid (read_process r pid)) pids
    listed-HasPid [] q = tt
    listed-HasPid (pid ∷ pids) q = (read_process-HasPid pid q.0, listed-HasPid pids q.1)

    collect_processes-HasPid : OnOk (All HasPid) (collect_processes r)
    collect_processes-HasPid = collect_processes-All HasPid r (go r.list_pids h.listed)
      where
        go :
            (o : Outcome (List ℤ))
            → OnOk (All Q) o
            → OnOk (All (λ pid. All HasPid (read_process r pid))) o
        go (ok pids) q = listed-HasPid pids q
        go (err e) q = tt

    stored-HasPid :
        (o : Outcome (List ProcessInfo)) (s : Snapshot)
        → OnOk (All HasPid) o
        → All HasPid s.processes
        → All HasPid (store store_processes o s).processes
    unfolding store_processes
    stored-HasPid (ok ps) s q k = resolve_parent-HasPid (index_by_pid s.by_pid ps) ps q
    stored-HasPid (err e) s q k = k

    apply_task-HasPid :
        (t : Task) (s : Snapshot) → All HasPid s.processes → All HasPid (apply_task r t s).processes
    unfolding apply_task
    apply_task-HasPid load_task s k = ground (arith, k)
    apply_task-HasPid cpu_task s k = ground (arith, k)
    apply_task-HasPid memory_task s k = ground (arith, k)
    apply_task-HasPid process_task s k =
        stored-HasPid (collect_processes r) s collect_processes-HasPid k

    run_tasks-HasPid :
        (ts : List Task) (s : Snapshot) (errs : List String)
        → All HasPid s.processes
        → All HasPid (run_tasks r ts (s, errs)).0.processes
    unfolding run_tasks
    run_tasks-HasPid [] s errs k = k
    run_tasks-HasPid (t ∷ ts) s errs k =
        run_tasks-HasPid ts (apply_task r t s) (errs ++ task_errors r t) (apply_task-HasPid t s k)

    -- Every process of the snapshot has a PID with what the listed PIDs have, in any order of the
    -- goroutines.
    pub collect-HasPid :
        (now : ℤ) (order : List Task) → All HasPid (collect now r order).0.processes
    unfolding collect
    collect-HasPid now order = run_tasks-HasPid order (empty_snapshot now) [] tt
