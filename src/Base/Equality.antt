-- ===== src/Base/Equality.antt =====
-- Go's `==` on keys, as an interface, and membership in a list of keys.
use Prim.Native.Nat.{ℕ}
use Prim.Native.String.{String}
use mathlib.Core.Path.{◌≡◌, refl, sym}
use mathlib.Core.Logic.{◌↔◌, inl, inr}
use mathlib.Core.Bool.{Bool, true, false, ◌||◌}
use mathlib.Core.List.{List, [], ◌∷◌, Memᴰ}
use native.Mathlib.Omega.{arith}
use text.Mathlib.Text.{◌==◌ as str_eq}
use text.Mathlib.TextEquality.{eq_iff}
use workloadguard.Base.Tests.{beq_ℕ, beq_ℕ_iff, Bool-cases}

infix 50 ◌==◌
-- A type whose values Go compares with `==`.
pub record Eq {ℓ} (K : Type ℓ) : Type ℓ where
  pub test : K → K → Bool
  pub test_iff : (j k : K) → (test j k ≡ true) ↔ (j ≡ k)

instance abbrev pub string_eq : Eq String
string_eq = record { test = str_eq; test_iff = eq_iff }

instance abbrev pub nat_eq : Eq ℕ
nat_eq = record { test = beq_ℕ; test_iff = beq_ℕ_iff }

abbrev pub ◌==◌ {ℓ} : {K : Type ℓ} ⦃keys : Eq K⦄ → K → K → Bool
◌==◌ ⦃keys⦄ = keys.test

module _ {ℓ} {A : Type ℓ} ⦃e : Eq A⦄ where
  pub beq_refl : (a : A) → (a == a) ≡ true
  beq_refl a = (e.test_iff a a).1 refl

  abbrev pub elem : A → List A → Bool
  elem a [] = false
  elem a (x ∷ xs) = x == a || elem a xs

  Mem_of_elem : (a : A) (xs : List A) → elem a xs ≡ true → Memᴰ a xs
  Mem_of_elem a [] h = absurd (ground arith)
  Mem_of_elem a (x ∷ xs) h = elim (Bool-cases (x == a)) [
    | inl same ↦ Memᴰ.head (sym ((e.test_iff x a).0 same))
    | inr other ↦ Memᴰ.tail (Mem_of_elem a xs (ground arith))
  ]

  elem_of_Mem : (a : A) {xs : List A} → Memᴰ a xs → elem a xs ≡ true
  elem_of_Mem a (Memᴰ.head {x} same) = ground (arith, e.test_iff x a, sym same)
  elem_of_Mem a (Memᴰ.tail m) = ground (arith, elem_of_Mem a m)

  -- The test finds a key exactly when the list holds it.
  pub elem-Mem : (a : A) (xs : List A) → (elem a xs ≡ true) ↔ Memᴰ a xs
  elem-Mem a xs = (Mem_of_elem a xs, elem_of_Mem a)
