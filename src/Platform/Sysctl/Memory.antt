-- ===== src/Platform/Sysctl/Memory.antt =====
-- The memory statistics (internal/platform/sysctl_darwin.go).
use workloadguard.Base.{
  String, ℕ, ◌*◌, ◌%◌, ◌^◌, ◌<◌, ◌≡◌, refl, List, [], ◌∷◌, length, take, Outcome, ok, err, arith,
  All, if_intro, ltb, subst,
}
use workloadguard.Platform.Sysctl.{
  Sysctl, PageStats, page_stats, little_endian, vm_stat_of, physical_of, memory_of, get_vm_stat,
  or_zero, get_physical_memory, get_memory_stats,
}

-- What the kernel gives: bytes, and 32-bit and 64-bit numbers.
pub record IsSized (sys : Sysctl) : Type 0 where
  pub bytes : (name : String) (given : List ℕ) → sys.raw name ≡ ok given → All (λ b. b < 256) given
  pub small : (name : String) (n : ℕ) → sys.uint32 name ≡ ok n → n < 2 ^ 32
  pub large : (name : String) (n : ℕ) → sys.uint64 name ≡ ok n → n < 2 ^ 64

take_four-lt : (bytes : List ℕ) → All (λ b. b < 256) bytes → little_endian (take 4 bytes) < 2 ^ 32
unfolding little_endian
take_four-lt [] h = omega arith
take_four-lt (a ∷ []) h = omega (arith, h)
take_four-lt (a ∷ b ∷ []) h = omega (arith, h)
take_four-lt (a ∷ b ∷ c ∷ []) h = omega (arith, h)
take_four-lt (a ∷ b ∷ c ∷ d ∷ bytes) h = omega (arith, h.0, h.1.0, h.1.1.0, h.1.1.1.0)

product_fits : (m n : ℕ) → m < 2 ^ 32 → n < 2 ^ 32 → m * n % 2 ^ 64 ≡ m * n
product_fits m n h k = let below : m * n < 2 ^ 64 = grind arith in omega (arith, below)

-- The statistics hold exact numbers below 2 ^ 64.
pub record IsExact (p : PageStats) : Type 0 where
  pub total : p.total < 2 ^ 64
  pub page_size : p.page_size < 2 ^ 32
  pub free_pages : p.free_pages < 2 ^ 32
  pub free_bytes : p.free_bytes ≡ p.free_pages * p.page_size

module _ (sys : Sysctl) (sized : IsSized sys) where
  vm_stat_of-lt :
      (name : String) (o : Outcome (List ℕ)) → sys.raw name ≡ o → or_zero (vm_stat_of o) < 2 ^ 32
  vm_stat_of-lt name (err e) h = omega arith
  vm_stat_of-lt name (ok bytes) h =
      if_intro (λ o. or_zero o < 2 ^ 32) (ltb (length bytes) 4) _ _ (λ short. omega arith)
        (λ long. take_four-lt bytes (sized.bytes name bytes h))

  vm_stat-lt : (name : String) → or_zero (get_vm_stat sys name) < 2 ^ 32
  unfolding get_vm_stat
  vm_stat-lt name = vm_stat_of-lt name (sys.raw name) refl

  memory_of-IsExact :
      (total size : Outcome ℕ) (free : ℕ) {p : PageStats}
      → sys.uint64 "hw.memsize" ≡ total
      → sys.uint32 "vm.pagesize" ≡ size
      → free < 2 ^ 32
      → memory_of (physical_of total) size free ≡ ok p
      → IsExact p
  memory_of-IsExact (err e) size free h k few done = absurd (ground (arith, done))
  memory_of-IsExact (ok total) (err e) free h k few done = absurd (ground (arith, done))
  memory_of-IsExact (ok total) (ok size) free {p} h k few done =
      let is_p : page_stats total size free ≡ p = cc in
      subst IsExact is_p (record {
        total = sized.large "hw.memsize" total h;
        page_size = sized.small "vm.pagesize" size k;
        free_pages = few;
        free_bytes = product_fits free size few (sized.small "vm.pagesize" size k);
      })

  -- Of a kernel that keeps to its sizes, the statistics are exact: the number of free bytes is the
  -- product of the number of free pages and the page's size, which does not wrap.
  pub get_memory_stats-IsExact : {p : PageStats} → get_memory_stats sys ≡ ok p → IsExact p
  unfolding get_memory_stats get_physical_memory
  get_memory_stats-IsExact done =
      memory_of-IsExact (sys.uint64 "hw.memsize") (sys.uint32 "vm.pagesize")
        (or_zero (get_vm_stat sys "vm.page_free_count")) refl refl (vm_stat-lt "vm.page_free_count")
        done
