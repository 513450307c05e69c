-- ===== src/Policy/Engine/Order.antt =====
-- The order of the decisions (internal/policy/engine.go, `Evaluate`).
use mathlib.Core.List.{Permᴰ}
use workloadguard.Base.{
  ℤ, ◌≤ℤ◌, ltb_ℤ, String, string_eq, List, [], ◌∷◌, map, ◌≡◌, refl, ap, sym, Bool, arith,
  Bool-cases, inl, inr, All, All-mono,
}
use workloadguard.Base.Filter.{filter_by, filter_by-All}
use workloadguard.Base.Permuted.{Permᴰ-refl, filter_by-perm}
use workloadguard.Base.Dict.{Dict, keys}
use workloadguard.Float.{Floats}
use workloadguard.Config.{Policy, is_enabled}
use workloadguard.Collector.{Snapshot}
use workloadguard.Policy.Cedar.{Cedar}
use workloadguard.Policy.Engine.{
  Engine, policy_at, insert_by_priority, sort_by_priority, evaluate_policy, evaluate_names,
  evaluate,
}

abbrev pub priority_at : Dict String Policy → String → ℤ
priority_at ps n = (policy_at ps n).priority

-- Names by falling priority.
abbrev pub IsByPriority : Dict String Policy → List String → Type 0
IsByPriority ps [] = Unit
IsByPriority ps (n ∷ ns) = All (λ m. priority_at ps m ≤ℤ priority_at ps n) ns × IsByPriority ps ns

insert_by_priority-perm :
    (ps : Dict String Policy) (n : String) (ms : List String)
    → Permᴰ (insert_by_priority ps n ms) (n ∷ ms)
unfolding insert_by_priority
insert_by_priority-perm ps n [] = Permᴰ-refl _
insert_by_priority-perm ps n (m ∷ ms) =
    elim (Bool-cases (ltb_ℤ (priority_at ps n) (priority_at ps m))) [
      | inl low ↦
          rw low
            (Permᴰ.trans (Permᴰ.cons refl (insert_by_priority-perm ps n ms)) (Permᴰ.swap refl refl))
      | inr high ↦ rw high (Permᴰ-refl _)
    ]

pub sort_by_priority-perm :
    (ps : Dict String Policy) (ns : List String) → Permᴰ (sort_by_priority ps ns) ns
unfolding sort_by_priority
sort_by_priority-perm ps [] = Permᴰ.nil
sort_by_priority-perm ps (n ∷ ns) =
    Permᴰ.trans (insert_by_priority-perm ps n (sort_by_priority ps ns))
      (Permᴰ.cons refl (sort_by_priority-perm ps ns))

insert_by_priority-All :
    (ps : Dict String Policy) (P : String → Type 0) (n : String) (ms : List String)
    → P n
    → All P ms
    → All P (insert_by_priority ps n ms)
unfolding insert_by_priority
insert_by_priority-All ps P n [] h hs = (h, tt)
insert_by_priority-All ps P n (m ∷ ms) h hs =
    ground (arith, insert_by_priority-All ps P n ms h hs.1)

insert_by_priority-IsByPriority :
    (ps : Dict String Policy) (n : String) (ms : List String)
    → IsByPriority ps ms
    → IsByPriority ps (insert_by_priority ps n ms)
unfolding insert_by_priority
insert_by_priority-IsByPriority ps n [] h = (tt, tt)
insert_by_priority-IsByPriority ps n (m ∷ ms) h =
    elim (Bool-cases (ltb_ℤ (priority_at ps n) (priority_at ps m))) [
      | inl low ↦ rw low (
        insert_by_priority-All ps (λ k. priority_at ps k ≤ℤ priority_at ps m) n ms (ground arith)
            h.0,
        insert_by_priority-IsByPriority ps n ms h.1,
      )
      | inr high ↦
          let top : priority_at ps m ≤ℤ priority_at ps n = ground arith in
          rw high (
            (
              top,
              All-mono _ (λ k. priority_at ps k ≤ℤ priority_at ps n) ms (λ k below. omega arith)
                  h.0,
            ),
            h,
          )
    ]

sort_by_priority-IsByPriority :
    (ps : Dict String Policy) (ns : List String) → IsByPriority ps (sort_by_priority ps ns)
unfolding sort_by_priority
sort_by_priority-IsByPriority ps [] = tt
sort_by_priority-IsByPriority ps (n ∷ ns) =
    insert_by_priority-IsByPriority ps n _ (sort_by_priority-IsByPriority ps ns)

filter_by-IsByPriority :
    (ps : Dict String Policy) (q : String → Bool) (ns : List String)
    → IsByPriority ps ns
    → IsByPriority ps (filter_by q ns)
filter_by-IsByPriority ps q [] h = tt
filter_by-IsByPriority ps q (n ∷ ns) h = elim (Bool-cases (q n)) [
  | inl kept ↦ rw kept (filter_by-All _ q ns h.0, filter_by-IsByPriority ps q ns h.1)
  | inr dropped ↦ rw dropped (filter_by-IsByPriority ps q ns h.1)
]

module _ (fl : Floats) (cedar : Cedar) (e : Engine fl cedar) (s : Snapshot) where
  abbrev pub enabled_at : String → Bool
  enabled_at n = is_enabled (policy_at e.policies n)

  evaluate_policy_name :
      (n : String) (p : Policy) → (evaluate_policy fl cedar e n p s).policy_name ≡ n
  unfolding evaluate_policy
  evaluate_policy_name n p = ground arith

  evaluate_names_lem :
      (ns : List String)
      → map (λ d. d.policy_name) (evaluate_names fl cedar e s ns) ≡ filter_by enabled_at ns
  unfolding evaluate_names
  evaluate_names_lem [] = refl
  evaluate_names_lem (n ∷ ns) =
      ground (arith, evaluate_names_lem ns, evaluate_policy_name n (policy_at e.policies n))

  evaluate_names-All :
      (ns : List String)
      → All
          (λ d. d ≡ evaluate_policy fl cedar e d.policy_name (policy_at e.policies d.policy_name) s)
          (evaluate_names fl cedar e s ns)
  unfolding evaluate_names
  evaluate_names-All [] = tt
  evaluate_names-All (n ∷ ns) = elim (Bool-cases (is_enabled (policy_at e.policies n))) [
    | inl on ↦ rw on (
      ap (λ k. evaluate_policy fl cedar e k (policy_at e.policies k) s)
          (sym (evaluate_policy_name n (policy_at e.policies n))),
      evaluate_names-All ns,
    )
    | inr off ↦ rw off (evaluate_names-All ns)
  ]

  -- The decisions stand in falling order of priority; their names are the names of the enabled
  -- policies, each as often as the map holds it; and each decision is that of its own policy.
  pub evaluate_lem :
      let ds = evaluate fl cedar e s in
      let names = map (λ d. d.policy_name) ds in
      IsByPriority e.policies names
      × Permᴰ names (filter_by enabled_at (keys e.policies))
      × All
          (λ d. d ≡ evaluate_policy fl cedar e d.policy_name (policy_at e.policies d.policy_name) s)
          ds
  unfolding evaluate
  evaluate_lem = (
    rw (evaluate_names_lem (sort_by_priority e.policies (keys e.policies))) (
        filter_by-IsByPriority e.policies enabled_at _
          (sort_by_priority-IsByPriority e.policies (keys e.policies))),
    rw (evaluate_names_lem (sort_by_priority e.policies (keys e.policies)))
        (filter_by-perm enabled_at (sort_by_priority-perm e.policies (keys e.policies))),
    evaluate_names-All (sort_by_priority e.policies (keys e.policies)),
  )
