-- ===== src/Tests/Platform.antt =====
-- The theorems on the platform package, on a kernel with few processes.
use Prim.Native.String
use workloadguard.Base.{
  ℕ, zero, suc, ◌*◌, ℤ, pos, String, string_eq, List, [], ◌∷◌, ◌++◌, none, some, Outcome, ok, ◌≡◌,
  refl, subst, All, arith, inr, length, length-append, ◌<◌,
}
use workloadguard.Collector.{Readings}
use workloadguard.Daemon.Positive.{IsPlatform}
use workloadguard.Platform.Libproc.{Libproc, list_pids, returned, positive_pids}
use workloadguard.Platform.Libproc.Listing.{IsFilled, IsListed, list_pids-IsListed}
use workloadguard.Platform.Readings.{platform_readings}
use workloadguard.Platform.Script.{script}
use workloadguard.Platform.Script.Quoting.{quoted, script-quoted}
use workloadguard.Platform.Sysctl.{
  Sysctl, get_load_average, get_memory_stats, get_physical_memory, get_vm_stat, little_endian,
  page_stats,
}
use workloadguard.Platform.Sysctl.Bytes.{load_struct, scaled, get_load_average-load_struct}
use workloadguard.Platform.Sysctl.Memory.{IsSized, IsExact, get_memory_stats-IsExact}
use workloadguard.Samples.{floats}

-- The numbers below the given one; the first PID is 0, which is not listed.
abbrev numbers : ℕ → List ℤ
numbers zero = []
numbers (suc n) = numbers n ++ pos n ∷ []

length-numbers : (n : ℕ) → length (numbers n) ≡ n
length-numbers zero = refl
length-numbers (suc n) = omega (arith, length-append (numbers n) (pos n ∷ []), length-numbers n)

abbrev libproc : Libproc
libproc = record {
  list_size = pos 16;
  list_into = λ n. (pos (4 * n), numbers n);
  task_info = λ pid. some (record {
    ppid = 1;
    comm = "node";
    total_user = 7;
    total_system = 2;
    resident_size = 4096;
    virtual_size = 8192;
  });
  pid_path = λ pid. some "/usr/bin/node";
  proc_name = λ pid. none;
}

libproc-IsFilled : IsFilled libproc
libproc-IsFilled = record {
  some_number = inr (omega arith);
  kept = length-numbers;
  within = λ n. omega arith;
}

list_pids-IsListed_example : (o : Outcome (List ℤ)) × (list_pids libproc ≡ returned o) × IsListed o
list_pids-IsListed_example = list_pids-IsListed libproc libproc-IsFilled

-- A kernel that lays the loads 2, 4 and 8 out with the padding.
abbrev padded : Sysctl
padded = record {
  raw = λ name. ok (load_struct 4096 8192 16384 (0 ∷ 0 ∷ 0 ∷ 0 ∷ []) 2048);
  uint32 = λ name. ok 8;
  uint64 = λ name. ok 1024;
}

get_load_average-load_struct_example :
    get_load_average floats padded ≡ ok (scaled floats 4096 8192 16384 2048)
get_load_average-load_struct_example =
    get_load_average-load_struct floats 4096 8192 16384 2048 (omega arith) (omega arith)
      (omega arith) (omega arith) padded (0 ∷ 0 ∷ 0 ∷ 0 ∷ []) (inr refl) refl

-- 513 free pages of 16384 bytes
abbrev paged : Sysctl
paged = record {
  raw = λ name. ok (1 ∷ 2 ∷ 0 ∷ 0 ∷ []);
  uint32 = λ name. ok 16384;
  uint64 = λ name. ok 17179869184;
}

paged-IsSized : IsSized paged
paged-IsSized = record {
  bytes = λ name given h.
      let same : (1 ∷ 2 ∷ 0 ∷ 0 ∷ []) ≡ given = cc in
      subst (All (λ b. b < 256)) same
        (omega arith, (omega arith, (omega arith, (omega arith, tt))));
  small = λ name n h. let same : 16384 ≡ n = cc in omega (arith, same);
  large = λ name n h. let same : 17179869184 ≡ n = cc in omega (arith, same);
}

get_memory_stats-IsExact_example : IsExact (page_stats 17179869184 16384 513)
unfolding get_memory_stats get_physical_memory get_vm_stat little_endian
get_memory_stats-IsExact_example = get_memory_stats-IsExact paged paged-IsSized refl

script-quoted_example :
    (first : String) × (second : String) × (script "Guard" "\"node\" \\ 2"
      ≡ String.◌++◌ "display notification " first)
    × (quoted first ≡ some ("\"node\" \\ 2", String.◌++◌ " with title " second))
    × (quoted second ≡ some ("Guard", ""))
script-quoted_example = script-quoted "Guard" "\"node\" \\ 2"

abbrev pub platform : Readings
platform = platform_readings floats padded libproc (λ n. none) (ok (pos 1 ∷ pos 2 ∷ pos 3 ∷ []))

pub platform-IsPlatform : IsPlatform floats platform
unfolding list_pids positive_pids
platform-IsPlatform = record {
  sys = padded;
  lib = libproc;
  cancelled = λ n. none;
  pids = ok (pos 1 ∷ pos 2 ∷ pos 3 ∷ []);
  filled = libproc-IsFilled;
  listed = refl;
  read = refl;
}
