-- ===== src/Platform/Sysctl.antt =====
-- internal/platform/sysctl_darwin.go: what is read of the kernel's variables. A byte is a number.
pub mod Bytes
pub mod Memory
use workloadguard.Base.{
  ℕ, ◌+◌, ◌*◌, ◌-◌, ◌%◌, ◌^◌, ℤ, pos, negsuc, String, List, [], ◌∷◌, length, take, drop, ltb, beq_ℕ,
  Outcome, ok, err, if◌then◌else◌,
}
use workloadguard.Base.Text.{concat, decimal_ℕ}
use workloadguard.Float.{Floats}
use workloadguard.Collector.{LoadAverage}

-- The calls of golang.org/x/sys/unix.
pub record Sysctl : Type 0 where
  pub raw : String → Outcome (List ℕ)
  pub uint32 : String → Outcome ℕ
  pub uint64 : String → Outcome ℕ

-- `binary.LittleEndian`, of as many bytes as are given
unfoldable pub little_endian : List ℕ → ℕ
little_endian [] = 0
little_endian (b ∷ bs) = b + 256 * little_endian bs

-- `data[from:from+count]`
abbrev pub slice : ℕ → ℕ → List ℕ → List ℕ
slice from count bytes = take count (drop from bytes)

-- `int64(x)` of a uint64
abbrev pub to_int64 : ℕ → ℤ
to_int64 x = if ltb x (2 ^ 63) then pos x else negsuc (2 ^ 64 - x - 1)

-- the offset of `fscale`, by the size of the struct
unfoldable pub scale_bytes : List ℕ → List ℕ
scale_bytes bytes = if ltb (length bytes) 24 then slice 12 8 bytes else slice 16 8 bytes

-- 2048 where the kernel gives 0
unfoldable pub scale_of : ℕ → ℤ
scale_of x = if beq_ℕ x 0 then pos 2048 else to_int64 x

unfoldable pub parse_load : Floats → List ℕ → LoadAverage
parse_load fl bytes =
    let scale = scale_of (little_endian (scale_bytes bytes)) in
    record {
      load1 = fl.ratio (little_endian (slice 0 4 bytes)) scale;
      load5 = fl.ratio (little_endian (slice 4 4 bytes)) scale;
      load15 = fl.ratio (little_endian (slice 8 4 bytes)) scale;
    }

abbrev pub load_of : Floats → Outcome (List ℕ) → Outcome LoadAverage
load_of fl (err e) = err (concat ("sysctl vm.loadavg: " ∷ e ∷ []))
load_of fl (ok bytes) =
    if ltb (length bytes) 20
    then err (concat ("unexpected vm.loadavg size: " ∷ decimal_ℕ (length bytes) ∷ []))
    else ok (parse_load fl bytes)

unfoldable pub get_load_average : Floats → Sysctl → Outcome LoadAverage
get_load_average fl sys = load_of fl (sys.raw "vm.loadavg")

unfoldable pub get_cpu_count : Sysctl → Outcome ℤ
get_cpu_count sys = elim (sys.uint32 "hw.ncpu") [
  | err e ↦ err (concat ("sysctl hw.ncpu: " ∷ e ∷ []))
  | ok count ↦ ok (pos count)
]

abbrev pub physical_of : Outcome ℕ → Outcome ℕ
physical_of (err e) = err (concat ("sysctl hw.memsize: " ∷ e ∷ []))
physical_of (ok size) = ok size

unfoldable pub get_physical_memory : Sysctl → Outcome ℕ
get_physical_memory sys = physical_of (sys.uint64 "hw.memsize")

pub record PageStats : Type 0 where
  pub total : ℕ
  pub page_size : ℕ
  pub free_pages : ℕ
  pub free_bytes : ℕ

abbrev pub vm_stat_of : Outcome (List ℕ) → Outcome ℕ
vm_stat_of (err e) = err e
vm_stat_of (ok bytes) =
    if ltb (length bytes) 4
    then err (concat ("unexpected sysctl result length: " ∷ decimal_ℕ (length bytes) ∷ []))
    else ok (little_endian (take 4 bytes))

unfoldable pub get_vm_stat : Sysctl → String → Outcome ℕ
get_vm_stat sys name = vm_stat_of (sys.raw name)

-- 0 where the kernel does not tell
abbrev pub or_zero : Outcome ℕ → ℕ
or_zero (err e) = 0
or_zero (ok n) = n

-- `freePages * uint64(pageSize)` wraps.
abbrev pub page_stats : ℕ → ℕ → ℕ → PageStats
page_stats total page_size free_pages = record {
  total = total;
  page_size = page_size;
  free_pages = free_pages;
  free_bytes = free_pages * page_size % 2 ^ 64;
}

-- the statistics, from the memory's size, the page's and the number of free pages
abbrev pub memory_of : Outcome ℕ → Outcome ℕ → ℕ → Outcome PageStats
memory_of (err e) size free = err e
memory_of (ok total) (err e) free = err (concat ("sysctl vm.pagesize: " ∷ e ∷ []))
memory_of (ok total) (ok size) free = ok (page_stats total size free)

unfoldable pub get_memory_stats : Sysctl → Outcome PageStats
get_memory_stats sys =
    memory_of (get_physical_memory sys) (sys.uint32 "vm.pagesize")
      (or_zero (get_vm_stat sys "vm.page_free_count"))
