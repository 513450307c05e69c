-- ===== src/Base/Filter.antt =====
-- The loop `for … { if test { result = append(result, x) } }`, and what it keeps.
use workloadguard.Base.Tests.{if◌then◌else◌}
use workloadguard.Base.Lists.{length, All}
use Prim.Native.Nat.{◌≤◌}
use mathlib.Core.Path.{◌≡◌, refl}
use mathlib.Core.Bool.{Bool, true, ◌&&◌}
use mathlib.Core.List.{List, [], ◌∷◌, ◌++◌}
use native.Mathlib.Omega.{arith}

module _ {ℓ} {A : Type ℓ} where
  abbrev pub filter_by : (A → Bool) → List A → List A
  filter_by p [] = []
  filter_by p (x ∷ xs) = let rest = filter_by p xs in if p x then x ∷ rest else rest

  pub filter_by-append :
      (p : A → Bool) (xs ys : List A) → filter_by p (xs ++ ys) ≡ filter_by p xs ++ filter_by p ys
  filter_by-append p [] ys = refl
  filter_by-append p (x ∷ xs) ys = ground (arith, filter_by-append p xs ys)

  pub filter_by-filter_by :
      (p q : A → Bool) (xs : List A) → filter_by p (filter_by q xs) ≡ filter_by (λ x. q x && p x) xs
  filter_by-filter_by p q [] = refl
  filter_by-filter_by p q (x ∷ xs) = ground (arith, filter_by-filter_by p q xs)

  pub length-filter_by-le : (p : A → Bool) (xs : List A) → length (filter_by p xs) ≤ length xs
  length-filter_by-le p [] = omega arith
  length-filter_by-le p (x ∷ xs) = ground (arith, length-filter_by-le p xs)

  pub All-filter_by : (p : A → Bool) (xs : List A) → All (λ x. p x ≡ true) (filter_by p xs)
  All-filter_by p [] = tt
  All-filter_by p (x ∷ xs) = ground (arith, All-filter_by p xs)

  pub filter_by-All {κ} :
      (P : A → Type κ) (p : A → Bool) (xs : List A) → All P xs → All P (filter_by p xs)
  filter_by-All P p [] h = tt
  filter_by-All P p (x ∷ xs) h = ground (arith, filter_by-All P p xs)

  pub filter_by-congr :
      (p q : A → Bool) (xs : List A) → ((x : A) → p x ≡ q x) → filter_by p xs ≡ filter_by q xs
  filter_by-congr p q [] h = refl
  filter_by-congr p q (x ∷ xs) h = ground (arith, h x, filter_by-congr p q xs h)
