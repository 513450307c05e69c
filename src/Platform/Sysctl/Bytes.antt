-- ===== src/Platform/Sysctl/Bytes.antt =====
-- The layout of the kernel's variables (internal/platform/sysctl_darwin.go).
use workloadguard.Base.{
  ℕ, zero, suc, ◌/◌, ◌%◌, ◌^◌, ◌<◌, ◌≡◌, refl, ap, ◌∙◌, ◌⊎◌, List, [], ◌∷◌, ◌++◌, length, ok, arith,
}
use workloadguard.Float.{Floats}
use workloadguard.Collector.{LoadAverage}
use workloadguard.Platform.Sysctl.{
  Sysctl, load_of, little_endian, scale_bytes, scale_of, parse_load, get_load_average,
}

-- A number in as many bytes as given, the lowest first.
abbrev pub bytes_of : ℕ → ℕ → List ℕ
bytes_of zero n = []
bytes_of (suc k) n = (n % 256) ∷ bytes_of k (n / 256)

length-bytes_of : (k n : ℕ) → length (bytes_of k n) ≡ k
length-bytes_of zero n = refl
length-bytes_of (suc k) n = omega (arith, length-bytes_of k (n / 256))

pub little_endian-bytes_of : (k n : ℕ) → n < 256 ^ k → little_endian (bytes_of k n) ≡ n
unfolding little_endian
little_endian-bytes_of zero n h = omega (arith, h)
little_endian-bytes_of (suc k) n h =
    let shorter : n / 256 < 256 ^ k = grind arith in
    omega (arith, little_endian-bytes_of k (n / 256) shorter)

-- the struct of three averages, four bytes of padding and the scale
abbrev pub load_struct : ℕ → ℕ → ℕ → List ℕ → ℕ → List ℕ
load_struct a b c padding scale =
    bytes_of 4 a ++ (bytes_of 4 b ++ (bytes_of 4 c ++ (padding ++ bytes_of 8 scale)))

-- with the padding or without
abbrev pub IsPadding : List ℕ → Type 0
IsPadding padding = (length padding ≡ 0) ⊎ (length padding ≡ 4)

abbrev pub scaled : Floats → ℕ → ℕ → ℕ → ℕ → LoadAverage
scaled fl a b c scale = record {
  load1 = fl.ratio a (scale_of scale);
  load5 = fl.ratio b (scale_of scale);
  load15 = fl.ratio c (scale_of scale);
}

module _ (fl : Floats) (a b c scale : ℕ) (ha : a < 2 ^ 32) (hb : b < 2 ^ 32) (hc : c < 2 ^ 32)
    (hs : scale < 2 ^ 64) where
  read_struct :
      (padding : List ℕ)
      → IsPadding padding
      → load_of fl (ok (load_struct a b c padding scale)) ≡ ok (scaled fl a b c scale)
  unfolding parse_load scale_bytes
  read_struct [] h =
      rw
        (
          little_endian-bytes_of 4 a ha,
          little_endian-bytes_of 4 b hb,
          little_endian-bytes_of 4 c hc,
          little_endian-bytes_of 8 scale hs,
        )
        refl
  read_struct (p ∷ q ∷ r ∷ s ∷ []) h =
      rw
        (
          little_endian-bytes_of 4 a ha,
          little_endian-bytes_of 4 b hb,
          little_endian-bytes_of 4 c hc,
          little_endian-bytes_of 8 scale hs,
        )
        refl
  read_struct (p ∷ []) h = absurd (ground (arith, h))
  read_struct (p ∷ q ∷ []) h = absurd (ground (arith, h))
  read_struct (p ∷ q ∷ r ∷ []) h = absurd (ground (arith, h))
  read_struct (p ∷ q ∷ r ∷ s ∷ t ∷ more) h = absurd (ground (arith, h))

  -- The load averages are read back as the kernel lays them out, three 32-bit numbers and a 64-bit
  -- scale, both with the four bytes of padding and without: each number over the scale, or over
  -- 2048 where the scale is 0.
  pub get_load_average-load_struct :
      (sys : Sysctl) (padding : List ℕ)
      → IsPadding padding
      → sys.raw "vm.loadavg" ≡ ok (load_struct a b c padding scale)
      → get_load_average fl sys ≡ ok (scaled fl a b c scale)
  unfolding get_load_average
  get_load_average-load_struct sys padding h laid = ap (load_of fl) laid ∙ read_struct padding h
