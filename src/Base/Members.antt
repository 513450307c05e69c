-- ===== src/Base/Members.antt =====
-- Membership as data: in a concatenation, under a map, and of everything that an `All` holds of.
use mathlib.Core.Path.{refl, subst, sym}
use mathlib.Core.List.{List, [], ◌∷◌, ◌++◌, Memᴰ}
use workloadguard.Base.Lists.{All}

module _ {ℓ} {A : Type ℓ} where
  pub Memᴰ-append_left : (xs ys : List A) {a : A} → Memᴰ a xs → Memᴰ a (xs ++ ys)
  Memᴰ-append_left [] ys m = elim m [ ]
  Memᴰ-append_left (x ∷ xs) ys (Memᴰ.head same) = Memᴰ.head same
  Memᴰ-append_left (x ∷ xs) ys (Memᴰ.tail m) = Memᴰ.tail (Memᴰ-append_left xs ys m)

  pub Memᴰ-append_right : (xs ys : List A) {a : A} → Memᴰ a ys → Memᴰ a (xs ++ ys)
  Memᴰ-append_right [] ys m = m
  Memᴰ-append_right (x ∷ xs) ys m = Memᴰ.tail (Memᴰ-append_right xs ys m)

module _ {ℓ κ} {A : Type ℓ} where
  pub All_of_Memᴰ : (P : A → Type κ) (xs : List A) → ((a : A) → Memᴰ a xs → P a) → All P xs
  All_of_Memᴰ P [] h = tt
  All_of_Memᴰ P (x ∷ xs) h = (h x (Memᴰ.head refl), All_of_Memᴰ P xs (λ a m. h a (Memᴰ.tail m)))

  pub All-Memᴰ : (P : A → Type κ) {a : A} {xs : List A} → All P xs → Memᴰ a xs → P a
  All-Memᴰ P h (Memᴰ.head same) = subst P (sym same) h.0
  All-Memᴰ P h (Memᴰ.tail m) = All-Memᴰ P h.1 m
