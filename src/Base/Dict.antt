-- ===== src/Base/Dict.antt =====
-- Go's maps as association lists. The order of the list stands for the order in which a `range`
-- visits the keys, which Go leaves open; what is proved for every list holds for every order.
use workloadguard.Base.Tests.{if◌then◌else◌, Bool-cases}
use workloadguard.Base.Equality.{Eq, ◌==◌}
use mathlib.Core.Path.{◌≡◌, refl}
use mathlib.Core.Option.{Option, none, some}
use mathlib.Core.List.{List, [], ◌∷◌, ◌++◌, map, append_assoc}
use mathlib.Core.Logic.{inl, inr}
use native.Mathlib.Omega.{arith}

abbrev pub Dict {ℓ κ} : Type ℓ → Type κ → Type (ℓ ⊔ κ)
Dict K V = List (K × V)

module _ {ℓ κ} {K : Type ℓ} {V : Type κ} ⦃e : Eq K⦄ where
  -- `v, ok := m[k]`
  abbrev pub lookup : K → Dict K V → Option V
  lookup k [] = none
  lookup k ((j, v) ∷ m) = let rest = lookup k m in if j == k then some v else rest

  -- `m[k] = v`
  abbrev pub insert : K → V → Dict K V → Dict K V
  insert k v [] = (k, v) ∷ []
  insert k v ((j, w) ∷ m) = let rest = insert k v m in if j == k then (k, v) ∷ m else (j, w) ∷ rest

  -- `delete(m, k)`
  abbrev pub delete : K → Dict K V → Dict K V
  delete k [] = []
  delete k ((j, w) ∷ m) = let rest = delete k m in if j == k then rest else (j, w) ∷ rest

  abbrev pub get_or : K → V → Dict K V → V
  get_or k d m = elim (lookup k m) [ none ↦ d | some v ↦ v ]

  abbrev pub keys : Dict K V → List K
  keys m = map (λ entry. entry.0) m

  pub lookup-insert :
      (k j : K) (v : V) (m : Dict K V)
      → lookup j (insert k v m) ≡ (if k == j then some v else lookup j m)
  lookup-insert k j v [] = refl
  lookup-insert k j v ((i, w) ∷ m) =
      ground (arith, e.test_iff k j, e.test_iff i k, e.test_iff i j, lookup-insert k j v m)

  pub lookup-delete :
      (k j : K) (m : Dict K V) → lookup j (delete k m) ≡ (if k == j then none else lookup j m)
  lookup-delete k j [] = ground arith
  lookup-delete k j ((i, w) ∷ m) =
      ground (arith, e.test_iff k j, e.test_iff i k, e.test_iff i j, lookup-delete k j m)

  pub get_or-insert :
      (k j : K) (d v : V) (m : Dict K V)
      → get_or j d (insert k v m) ≡ (if k == j then v else get_or j d m)
  get_or-insert k j d v m = ground (arith, lookup-insert k j v m)

module _ {ℓ κ} {K : Type ℓ} {V : Type κ} ⦃e : Eq K⦄ where
  -- `m[k] = append(m[k], x)`
  abbrev pub append_at : K → V → Dict K (List V) → Dict K (List V)
  append_at k x m = insert k (get_or k [] m ++ x ∷ []) m

  pub get_or-append_at :
      (k j : K) (x : V) (m : Dict K (List V)) (rest : List V)
      → get_or j [] (append_at k x m) ++ rest ≡ get_or j [] m ++ (if k == j then x ∷ rest else rest)
  get_or-append_at k j x m rest = elim (Bool-cases (k == j)) [
    | inl same ↦
        let eq : k ≡ j = (e.test_iff k j).0 same in
        rw (get_or-insert k j [] (get_or k [] m ++ x ∷ []) m, same, eq)
          (append_assoc (get_or j [] m) (x ∷ []) rest)
    | inr other ↦ rw (get_or-insert k j [] (get_or k [] m ++ x ∷ []) m, other)
  ]
