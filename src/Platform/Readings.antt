-- ===== src/Platform/Readings.antt =====
-- The platform package as the collector meets it (internal/collector/collector.go over
-- internal/platform).
use workloadguard.Base.{All, ℕ, ℤ, String, List, Option, none, some, Outcome, ok, err, ◌≡◌, arith}
use workloadguard.Float.{Floats}
use workloadguard.Collector.{Readings, Process, MemoryStats}
use workloadguard.Collector.Listing.{Lists, OnOk}
use workloadguard.Platform.Sysctl.{
  Sysctl, PageStats, get_load_average, get_cpu_count, get_memory_stats,
}
use workloadguard.Platform.Libproc.{
  Libproc, returned, ResourceUsage, list_pids, get_process_info, get_process_resource_usage,
}
use workloadguard.Platform.Libproc.Listing.{IsPositive, IsListed, IsFilled, list_pids-IsListed}

abbrev memory_stats : Outcome PageStats → Outcome MemoryStats
memory_stats (err e) = err e
memory_stats (ok p) = ok (record { total = p.total; free_bytes = p.free_bytes })

abbrev succeeded {ℓ} : {A : Type ℓ} → Outcome A → Option A
succeeded (err e) = none
succeeded (ok a) = some a

abbrev resident : Outcome ResourceUsage → Option ℕ
resident (err e) = none
resident (ok usage) = some usage.resident_memory

-- The answers, where `ListPIDs` returns `pids`.
unfoldable pub platform_readings :
    Floats → Sysctl → Libproc → (ℕ → Option String) → Outcome (List ℤ) → Readings
platform_readings fl sys lib cancelled pids = record {
  load = get_load_average fl sys;
  cpus = get_cpu_count sys;
  memory = memory_stats (get_memory_stats sys);
  list_pids = pids;
  cancelled = cancelled;
  process_info = λ pid. succeeded (get_process_info lib pid);
  resource_usage = λ pid. resident (get_process_resource_usage fl lib pid);
}

get_process_info-pid :
    (lib : Libproc) (pid : ℤ) (p : Process)
    → succeeded (get_process_info lib pid) ≡ some p
    → p.pid ≡ pid
unfolding get_process_info
get_process_info-pid lib pid p h = ground (arith, h)

listed-IsPositive : (o : Outcome (List ℤ)) → IsListed o → OnOk (All IsPositive) o
listed-IsPositive (ok pids) h = h.0
listed-IsPositive (err e) h = tt

-- Of a kernel that keeps to its buffer, `ListPIDs` returns, and the collector meets positive PIDs
-- only, each process under the PID that it was asked for by.
pub platform_readings-Lists :
    (fl : Floats) (sys : Sysctl) (lib : Libproc) (cancelled : ℕ → Option String)
    → IsFilled lib
    → (o : Outcome (List ℤ)) × (list_pids lib ≡ returned o)
      × Lists IsPositive (platform_readings fl sys lib cancelled o)
unfolding platform_readings
platform_readings-Lists fl sys lib cancelled f =
    let (o, done, listed) = list_pids-IsListed lib f in
    (o, done, record { listed = listed-IsPositive o listed; own = get_process_info-pid lib })
