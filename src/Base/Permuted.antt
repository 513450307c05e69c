-- ===== src/Base/Permuted.antt =====
-- Permutations as data: what a filter keeps of them, and that they hold the same elements.
use mathlib.Core.Path.{◌≡◌, refl, ap}
use mathlib.Core.Bool.{Bool}
use mathlib.Core.List.{List, [], ◌∷◌, ◌++◌, map, Permᴰ}
use mathlib.Core.Logic.{inl, inr}
use workloadguard.Base.Tests.{Bool-cases}
use workloadguard.Base.Filter.{filter_by}

module _ {ℓ} {A : Type ℓ} where
  pub Permᴰ-refl : (xs : List A) → Permᴰ xs xs
  Permᴰ-refl [] = Permᴰ.nil
  Permᴰ-refl (x ∷ xs) = Permᴰ.cons refl (Permᴰ-refl xs)

  pub perm_middle : (x : A) (xs ys : List A) → Permᴰ (x ∷ xs ++ ys) (xs ++ x ∷ ys)
  perm_middle x [] ys = Permᴰ-refl (x ∷ ys)
  perm_middle x (y ∷ xs) ys =
      Permᴰ.trans (Permᴰ.swap refl refl) (Permᴰ.cons refl (perm_middle x xs ys))

  filter_by-cons_perm :
      (p : A → Bool) (x y : A) (xs ys : List A)
      → x ≡ y
      → Permᴰ (filter_by p xs) (filter_by p ys)
      → Permᴰ (filter_by p (x ∷ xs)) (filter_by p (y ∷ ys))
  filter_by-cons_perm p x y xs ys same ih = elim (Bool-cases (p y)) [
    | inl kept ↦ rw (same, kept) (Permᴰ.cons refl ih)
    | inr dropped ↦ rw (same, dropped) ih
  ]

  filter_by-swap_perm :
      (p : A → Bool) (x y : A) (l : List A)
      → Permᴰ (filter_by p (x ∷ y ∷ l)) (filter_by p (y ∷ x ∷ l))
  filter_by-swap_perm p x y l = elim (Bool-cases (p x)) [
    | inl px ↦ elim (Bool-cases (p y)) [
      | inl py ↦ rw (px, py) (Permᴰ.swap refl refl)
      | inr py ↦ rw (px, py) (Permᴰ-refl _)
    ]
    | inr px ↦ rw px (Permᴰ-refl _)
  ]

  pub filter_by-perm :
      (p : A → Bool) {xs ys : List A} → Permᴰ xs ys → Permᴰ (filter_by p xs) (filter_by p ys)
  filter_by-perm p Permᴰ.nil = Permᴰ.nil
  filter_by-perm p (Permᴰ.cons {a} {b} {l₁} {l₂} same q) =
      filter_by-cons_perm p a b l₁ l₂ same (filter_by-perm p q)
  filter_by-perm p (Permᴰ.swap {a} {b} {a'} {b'} {l} s t) =
      rw (s, t) (filter_by-swap_perm p b' a' l)
  filter_by-perm p (Permᴰ.trans q r) = Permᴰ.trans (filter_by-perm p q) (filter_by-perm p r)

  pub map-perm {κ} :
      {B : Type κ} (f : A → B) {xs ys : List A} → Permᴰ xs ys → Permᴰ (map f xs) (map f ys)
  map-perm f Permᴰ.nil = Permᴰ.nil
  map-perm f (Permᴰ.cons same q) = Permᴰ.cons (ap f same) (map-perm f q)
  map-perm f (Permᴰ.swap s t) = Permᴰ.swap (ap f s) (ap f t)
  map-perm f (Permᴰ.trans q r) = Permᴰ.trans (map-perm f q) (map-perm f r)
