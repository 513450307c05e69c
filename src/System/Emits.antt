-- ===== src/System/Emits.antt =====
-- Which events a part of the program adds to the trace.
use mathlib.Core.List.{append_assoc}
use workloadguard.Base.{
  List, [], ◌∷◌, ◌++◌, ◌≡◌, refl, sym, ap, ◌∙◌, All, All-append, All-mono, Bool,
}
use workloadguard.System.{Event, Trace, M, ◌>>=◌, pure, for_each, count_each}

-- From the trace `t` on, `t'` is reached by events of which each has `P`.
abbrev pub Adds : (Event → Type 0) → Trace → Trace → Type 0
Adds P t t' = (new : List Event) × (t' ≡ new ++ t) × All P new

pub Adds-refl : (P : Event → Type 0) (t : Trace) → Adds P t t
Adds-refl P t = ([], refl, tt)

pub Adds-trans : (P : Event → Type 0) {t u v : Trace} → Adds P t u → Adds P u v → Adds P t v
Adds-trans P {t} (xs, p, hx) (ys, q, hy) =
    (ys ++ xs, q ∙ ap (λ l. ys ++ l) p ∙ sym (append_assoc ys xs t), All-append P ys xs hy hx)

pub Adds-one : (P : Event → Type 0) (e : Event) (t : Trace) → P e → Adds P t (e ∷ t)
Adds-one P e t h = (e ∷ [], refl, (h, tt))

pub Adds-mono :
    (P Q : Event → Type 0) {t u : Trace} → ((e : Event) → P e → Q e) → Adds P t u → Adds Q t u
Adds-mono P Q f (xs, p, h) = (xs, p, All-mono P Q xs f h)

-- Whatever the trace, `m` adds events of which each has `P`.
abbrev pub Emits {ℓ} : {A : Type ℓ} → (Event → Type 0) → M A → Type 0
Emits P m = (t : Trace) → Adds P t (m t).1

module _ (P : Event → Type 0) where
  pub Emits-pure {ℓ} : {A : Type ℓ} (a : A) → Emits P (pure a)
  Emits-pure a t = Adds-refl P t

  pub Emits-bind {ℓ κ} :
      {A : Type ℓ} {B : Type κ} (m : M A) (f : A → M B)
      → Emits P m
      → ((a : A) → Emits P (f a))
      → Emits P (m >>= f)
  Emits-bind m f h k t = Adds-trans P (h t) (k (m t).0 (m t).1)

  pub for_each-Emits {ℓ} :
      {A : Type ℓ} (body : A → M (Unit {0})) (xs : List A)
      → All (λ x. Emits P (body x)) xs
      → Emits P (for_each body xs)
  unfolding for_each
  for_each-Emits body [] h t = Adds-refl P t
  for_each-Emits body (x ∷ xs) h t = Adds-trans P (h.0 t) (for_each-Emits body xs h.1 (body x t).1)

  pub count_each-Emits {ℓ} :
      {A : Type ℓ} (body : A → M Bool) (xs : List A)
      → All (λ x. Emits P (body x)) xs
      → Emits P (count_each body xs)
  unfolding count_each
  count_each-Emits body [] h t = Adds-refl P t
  count_each-Emits body (x ∷ xs) h t =
      Adds-trans P (h.0 t) (count_each-Emits body xs h.1 (body x t).1)
