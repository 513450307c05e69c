-- ===== src/Platform/Libproc.antt =====
-- internal/platform/libproc_darwin.go: the processes that the kernel lists. A `C.int` is an integer.
pub mod Listing
use Prim.Native.Char.{code}
use Prim.Native.String
use workloadguard.Base.{
  ℕ, zero, suc, ◌+◌, ◌/◌, ◌%◌, ◌^◌, ℤ, pos, negsuc, int_eq, ltb_ℤ, String, string_eq, List, [], ◌∷◌,
  ◌++◌, Option, none, some, Outcome, ok, err, ◌≡◌, refl, true, false, ◌==◌, if◌then◌else◌, ltb,
  beq_ℕ,
}
use workloadguard.Base.Text.{concat, decimal}
use workloadguard.Float.{Float64, Floats}
use workloadguard.Collector.{Process}

-- The fields of `proc_taskallinfo` that are read.
pub record TaskInfo : Type 0 where
  pub ppid : ℕ
  pub comm : String
  pub total_user : ℕ
  pub total_system : ℕ
  pub resident_size : ℕ
  pub virtual_size : ℕ

-- The calls of libproc. `list_size` is the result of `proc_listpids` without a buffer, and
-- `list_into n` that with one of n numbers, and the buffer then. A call that fails gives none.
pub record Libproc : Type 0 where
  pub list_size : ℤ
  pub list_into : ℕ → ℤ × List ℤ
  pub task_info : ℤ → Option TaskInfo
  pub pid_path : ℤ → Option String
  pub proc_name : ℤ → Option String

abbrev pub max_pids : ℕ
max_pids = 32768

-- A Go function that may panic.
pub data Run {ℓ} (A : Type ℓ) : Type ℓ where
  returned : Outcome A → Run A
  panicked : Run A

-- The loop over `buffer[i]`; an index out of range panics.
unfoldable pub positive_pids : ℕ → List ℤ → List ℤ → Run (List ℤ)
positive_pids zero buffer acc = returned (ok acc)
positive_pids (suc count) [] acc = panicked
positive_pids (suc count) (pid ∷ buffer) acc =
    positive_pids count buffer (if ltb_ℤ (pos 0) pid then acc ++ pid ∷ [] else acc)

-- What follows the second call.
abbrev pub read_buffer : ℤ × List ℤ → Run (List ℤ)
read_buffer (pos zero, buffer) = returned (err "proc_listpids failed")
read_buffer (pos (suc n), buffer) = positive_pids (suc n / 4) buffer []
read_buffer (negsuc n, buffer) = returned (err "proc_listpids failed")

-- the length of the buffer, for the size that the first call gives
abbrev pub buffer_length : ℕ → ℕ
buffer_length size = if ltb max_pids (size / 4) then max_pids else size / 4

-- `&buffer[0]` panics on an empty buffer.
abbrev pub fill_buffer : (ℕ → ℤ × List ℤ) → ℕ → Run (List ℤ)
fill_buffer list_into n = if beq_ℕ n 0 then panicked else read_buffer (list_into n)

abbrev pub list_sized : (ℕ → ℤ × List ℤ) → ℤ → Run (List ℤ)
list_sized list_into (pos zero) = returned (err "proc_listpids failed to get size")
list_sized list_into (pos (suc n)) = fill_buffer list_into (buffer_length (suc n))
list_sized list_into (negsuc n) = returned (err "proc_listpids failed to get size")

unfoldable pub list_pids : Libproc → Run (List ℤ)
list_pids lib = list_sized lib.list_into lib.list_size

abbrev path_or_empty : Option String → String
path_or_empty none = ""
path_or_empty (some path) = path

unfoldable pub get_process_info : Libproc → ℤ → Outcome Process
get_process_info lib pid = elim (lib.task_info pid) [
  | none ↦ err (concat ("proc_pidinfo failed for pid " ∷ decimal pid ∷ []))
  | some info ↦ ok (record {
    pid = pid;
    ppid = pos info.ppid;
    name = info.comm;
    path = path_or_empty (lib.pid_path pid);
  })
]

-- The last part of a path that is not empty, after the part `part` read so far.
unfoldable pub last_part : String → String → String
last_part part String.[] = part
last_part part (String.◌∷◌ c s) = elim (beq_ℕ (code c) b'/') [
  | true ↦ let later = last_part "" s in if later == "" then part else later
  | false ↦ last_part (String.◌++◌ part (String.◌∷◌ c "")) s
]

-- `filepath.Base`
unfoldable pub base : String → String
base path =
    if path == "" then "." else (let part = last_part "" path in if part == "" then "/" else part)

unfoldable pub get_process_name : Libproc → ℤ → Outcome String
get_process_name lib pid = elim (lib.pid_path pid) [
  | some path ↦ ok (base path)
  | none ↦ elim (lib.proc_name pid) [
    | some name ↦ ok name
    | none ↦ err (concat ("failed to get name for pid " ∷ decimal pid ∷ []))
  ]
]

pub record ResourceUsage : Type 0 where
  pub pid : ℤ
  pub ppid : ℤ
  pub name : String
  pub cpu_usage : Float64
  pub resident_memory : ℕ
  pub virtual_memory : ℕ

-- The CPU time is in seconds; the sum of the times wraps.
unfoldable pub get_process_resource_usage : Floats → Libproc → ℤ → Outcome ResourceUsage
get_process_resource_usage fl lib pid = elim (lib.task_info pid) [
  | none ↦ err (concat ("proc_pidinfo failed for pid " ∷ decimal pid ∷ []))
  | some info ↦ ok (record {
    pid = pid;
    ppid = pos info.ppid;
    name = info.comm;
    cpu_usage = fl.ratio ((info.total_user + info.total_system) % 2 ^ 64) (pos 1_000_000_000);
    resident_memory = info.resident_size;
    virtual_memory = info.virtual_size;
  })
]

base_tests : (base "/usr/bin/node//" ≡ "node") × (base "//" ≡ "/") × (base "" ≡ ".")
unfolding base last_part
base_tests = (refl, refl, refl)
