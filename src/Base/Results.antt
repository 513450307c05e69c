-- ===== src/Base/Results.antt =====
-- A pair `(value, error)` of Go, of which one is given: a value, or the error's text.
use Prim.Native.String.{String}

pub data Outcome {ℓ} (A : Type ℓ) : Type ℓ where
  ok : A → Outcome A
  err : String → Outcome A
