-- ===== src/Float.antt =====
-- Go's float64 as the program uses it. A value that is no NaN is its place in the numeric order of
-- the doubles: the bit pattern read as a sign and a magnitude, so both zeros are `ord (pos 0)`, and
-- comparison is that of integers. Rounding arithmetic and printing are parameters, in `Floats`.
use workloadguard.Base.{ℤ, pos, ltb_ℤ, leb_ℤ, Bool, false, String, ℕ}

pub data Float64 : Type 0 where
  nan : Float64
  ord : ℤ → Float64

-- `x < y`, false on a NaN
abbrev pub flt : Float64 → Float64 → Bool
flt nan _ = false
flt (ord a) nan = false
flt (ord a) (ord b) = ltb_ℤ a b

-- `x <= y`, false on a NaN
abbrev pub fle : Float64 → Float64 → Bool
fle nan _ = false
fle (ord a) nan = false
fle (ord a) (ord b) = leb_ℤ a b

abbrev pub float_zero : Float64
float_zero = ord (pos 0)

-- 400.0, with the bits of a sign 0, the exponent 0x407 and the fraction 0x9000000000000
abbrev pub float_400 : Float64
float_400 = ord (pos 0x4079000000000000)

-- What Go's runtime computes on a float64 beyond comparing it.
pub record Floats : Type 0 where
  pub to_centi : Float64 → ℤ  -- int64(x * 100)
  pub fixed2 : Float64 → String  -- fmt.Sprintf("%.2f", x)
  pub ratio : ℕ → ℤ → Float64  -- float64(n) / float64(d)
