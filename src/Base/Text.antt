-- ===== src/Base/Text.antt =====
-- Text that the program builds: `%d`, `strconv.Itoa`, `strings.Join` and `strings.Repeat`.
use Prim.Native.Nat.{ℕ, zero, suc, ◌/◌, ◌%◌}
use Prim.Native.String.{String, ◌++◌}
use mathlib.Core.Path.{◌≡◌, refl}
use mathlib.Core.Bool.{true, false}
use mathlib.Core.List.{List, [], ◌∷◌}
use workloadguard.Base.Tests.{ltb}
use workloadguard.Base.Integer.{ℤ, pos, negsuc}

abbrev digit : ℕ → String
digit zero = "0"
digit (suc zero) = "1"
digit (suc (suc zero)) = "2"
digit (suc (suc (suc zero))) = "3"
digit (suc (suc (suc (suc zero)))) = "4"
digit (suc (suc (suc (suc (suc zero))))) = "5"
digit (suc (suc (suc (suc (suc (suc zero)))))) = "6"
digit (suc (suc (suc (suc (suc (suc (suc zero))))))) = "7"
digit (suc (suc (suc (suc (suc (suc (suc (suc zero)))))))) = "8"
digit _ = "9"

-- The fuel `n` is enough: each round divides by ten.
digits : ℕ → ℕ → String
digits zero n = digit n
digits (suc fuel) n = elim (ltb n 10) [
  | true ↦ digit n
  | false ↦ digits fuel (n / 10) ++ digit (n % 10)
]

unfoldable pub decimal_ℕ : ℕ → String
unfolding digits
decimal_ℕ n = digits n n

unfoldable pub decimal : ℤ → String
unfolding decimal_ℕ
decimal (pos n) = decimal_ℕ n
decimal (negsuc n) = "-" ++ decimal_ℕ (suc n)

-- The text of a `fmt.Sprintf` whose pieces are given.
abbrev pub concat : List String → String
concat [] = ""
concat (s ∷ ss) = s ++ concat ss

unfoldable pub join : String → List String → String
join sep [] = ""
join sep (s ∷ []) = s
join sep (s ∷ t ∷ ts) = s ++ (sep ++ join sep (t ∷ ts))

unfoldable pub repeat : ℕ → String → String
repeat zero s = ""
repeat (suc n) s = s ++ repeat n s

decimal_tests : decimal (pos 32768) ≡ "32768"
unfolding decimal
decimal_tests = refl

decimal_negative : decimal (negsuc 41) ≡ "-42"
unfolding decimal
decimal_negative = refl
