-- ===== src/Policy/Engine/Selection.antt =====
-- Which processes count for a policy (internal/policy/engine.go, `evaluatePolicy`).
use workloadguard.Base.{
  String, string_eq, List, [], ◌∷◌, Option, none, some, ◌≡◌, refl, ap, ◌∙◌, ◌==◌, Bool, true, not,
  ◌&&◌, elem, arith, Bool-cases, inl, inr, length, beq_ℕ, if◌then◌else◌,
}
use workloadguard.Base.Filter.{filter_by, filter_by-filter_by, filter_by-congr}
use workloadguard.Config.{Policy, Conditions}
use workloadguard.Collector.{ProcessInfo, Snapshot, processes_by_name, exclude_by_parents}
use workloadguard.Collector.Index.{IsIndexed}
use workloadguard.Collector.Parents.{parents_partition}
use workloadguard.Policy.Engine.{candidates, only_parent, no_excluded}

-- The parents that the conditions let pass: the given one, if one is given, and none that is
-- excluded.
abbrev pub admits : Option Conditions → ProcessInfo → Bool
admits none p = true
admits (some c) p =
    (if c.parent_process == "" then true else p.parent_name == c.parent_process)
    && not (elem p.parent_name c.exclude_parents)

abbrev pub counts : Policy → ProcessInfo → Bool
counts policy p = p.name == policy.process && admits policy.conditions p

filter_by-true : (xs : List ProcessInfo) → filter_by (λ x. true) xs ≡ xs
filter_by-true [] = refl
filter_by-true (x ∷ xs) = ap (λ l. x ∷ l) (filter_by-true xs)

only_parent_lem :
    (c : Conditions) (ps : List ProcessInfo)
    → only_parent c ps
      ≡ filter_by
          (λ p. if c.parent_process == "" then true else p.parent_name == c.parent_process)
          ps
only_parent_lem c ps = elim (Bool-cases (c.parent_process == "")) [
  | inl any ↦ rw any (ground (arith, filter_by-true ps))
  | inr given ↦ rw given refl
]

no_excluded_lem :
    (c : Conditions) (ps : List ProcessInfo)
    → no_excluded c ps ≡ filter_by (λ p. not (elem p.parent_name c.exclude_parents)) ps
no_excluded_lem c ps = go c.exclude_parents
  where
    go :
        (names : List String)
        → (if not (beq_ℕ (length names) 0) then exclude_by_parents ps names else ps)
          ≡ filter_by (λ p. not (elem p.parent_name names)) ps
    go [] = ground (arith, filter_by-true ps)
    go (n ∷ ns) = ground (arith, (parents_partition ps (n ∷ ns)).1)

-- In a snapshot whose indices are right, the processes that count for a policy are exactly the
-- listed ones of its name whose parent the conditions let pass, in order.
pub candidates-filter_by :
    (policy : Policy) (s : Snapshot)
    → IsIndexed s
    → candidates policy s ≡ filter_by (counts policy) s.processes
unfolding candidates
candidates-filter_by policy s h = go policy.conditions
  where
    named : List ProcessInfo
    named = processes_by_name s policy.process

    go :
        (o : Option Conditions)
        → elim o [ none ↦ named | some c ↦ no_excluded c (only_parent c named) ]
          ≡ filter_by (λ p. p.name == policy.process && admits o p) s.processes
    go none = h.named policy.process ∙ filter_by-congr _ _ s.processes (λ p. ground arith)
    go (some c) =
        no_excluded_lem c (only_parent c named)
        ∙ ap (filter_by _) (only_parent_lem c named)
        ∙ filter_by-filter_by _ _ named
        ∙ ap (filter_by _) (h.named policy.process)
        ∙ filter_by-filter_by _ _ s.processes
