-- ===== src/Policy/Engine/Maps.antt =====
-- `Evaluate` of internal/policy/engine.go ranges over a Go map, whose order is left open: what it
-- makes of a map in whatever order.
use mathlib.Core.List.{Permᴰ}
use mathlib.Core.Quot
use mathlib.Core.Quot.{Quot, Quot-set}
use workloadguard.Base.{
  String, string_eq, List, [], ◌∷◌, map, Option, none, some, ◌≡◌, refl, sym, ap, ◌∙◌, Bool, arith,
}
use workloadguard.Base.Filter.{filter_by}
use workloadguard.Base.Permuted.{filter_by-perm, map-perm}
use workloadguard.Base.Dict.{Dict, keys, lookup}
use workloadguard.Float.{Floats}
use workloadguard.Config.{Policy, is_enabled}
use workloadguard.Collector.{Snapshot}
use workloadguard.Policy.Cedar.{Cedar}
use workloadguard.Policy.Engine.{
  Decision, Engine, policy_at, zero_policy, sort_by_priority, evaluate_policy, evaluate_names,
  evaluate, authorize_with_cedar,
}
use workloadguard.Policy.Engine.Order.{sort_by_priority-perm}

-- Two orders of one map: the same keys, with the same value under each.
pub record SameMap (m m' : Dict String Policy) : Type 0 where
  pub same_keys : Permᴰ (keys m) (keys m')
  pub same_values : (k : String) → lookup k m ≡ lookup k m'

-- A map without its order, and what is made of one.
abbrev pub PolicyMap : Type 0
PolicyMap = Quot SameMap

abbrev pub SameDecisions : List Decision → List Decision → Type 0
SameDecisions ds ds' = Permᴰ ds ds'

abbrev pub DecisionBag : Type 0
DecisionBag = Quot SameDecisions

module _ (fl : Floats) (cedar : Cedar) (s : Snapshot) where
  -- The engine with its policies in another order.
  abbrev pub over : Engine fl cedar → Dict String Policy → Engine fl cedar
  over e m = record e { policies = m }

  abbrev decision_of : Engine fl cedar → String → Decision
  decision_of e n = evaluate_policy fl cedar e n (policy_at e.policies n) s

  abbrev enabled_in : Engine fl cedar → String → Bool
  enabled_in e n = is_enabled (policy_at e.policies n)

  evaluate_names-map :
      (e : Engine fl cedar) (ns : List String)
      → evaluate_names fl cedar e s ns ≡ map (decision_of e) (filter_by (enabled_in e) ns)
  unfolding evaluate_names
  evaluate_names-map e [] = refl
  evaluate_names-map e (n ∷ ns) = ground (arith, evaluate_names-map e ns)

  policy_at-SameMap :
      {m m' : Dict String Policy} → SameMap m m' → (n : String) → policy_at m n ≡ policy_at m' n
  policy_at-SameMap h n =
      ap (λ (o : Option Policy). elim o [ none ↦ zero_policy | some p ↦ p ]) (h.same_values n)

  decision_of-SameMap :
      (e : Engine fl cedar) {m m' : Dict String Policy}
      → SameMap m m'
      → (n : String) → decision_of (over e m) n ≡ decision_of (over e m') n
  unfolding evaluate_policy authorize_with_cedar
  decision_of-SameMap e {m} h n =
      ap (λ p. evaluate_policy fl cedar (over e m) n p s) (policy_at-SameMap h n)

  -- the loop only looks its names up
  evaluate_names-SameMap :
      (e : Engine fl cedar) {m m' : Dict String Policy}
      → SameMap m m'
      → (ns : List String)
      → evaluate_names fl cedar (over e m) s ns ≡ evaluate_names fl cedar (over e m') s ns
  evaluate_names-SameMap e {m} {m'} h ns =
      evaluate_names-map (over e m) ns
      ∙ (λ i.
          map (λ n. decision_of-SameMap e h n i)
            (filter_by (λ n. is_enabled (policy_at-SameMap h n i)) ns))
      ∙ sym (evaluate_names-map (over e m') ns)

  -- What the enabled policies decide, in the order of the map.
  abbrev decided : Engine fl cedar → List Decision
  decided e = map (decision_of e) (filter_by (enabled_in e) (keys e.policies))

  decided-SameMap :
      (e : Engine fl cedar) (m m' : Dict String Policy)
      → SameMap m m'
      → Permᴰ (decided (over e m)) (decided (over e m'))
  decided-SameMap e m m' h =
      rw
        (
          sym (evaluate_names-map (over e m) (keys m)),
          evaluate_names-SameMap e h (keys m),
          evaluate_names-map (over e m') (keys m),
        )
        (map-perm (decision_of (over e m')) (filter_by-perm (enabled_in (over e m')) h.same_keys))

  -- What the policies of a map decide, whatever the order of the map.
  pub policies_decide : Engine fl cedar → PolicyMap → DecisionBag
  policies_decide e =
      Quot.lift Quot-set (λ m. Quot.mk (decided (over e m)))
        (λ m m' h. Quot.sound (decided-SameMap e m m' h))

  evaluate-decided : (e : Engine fl cedar) → Permᴰ (evaluate fl cedar e s) (decided e)
  unfolding evaluate
  evaluate-decided e = rw (evaluate_names-map e (sort_by_priority e.policies (keys e.policies))) (
      map-perm (decision_of e)
        (filter_by-perm (enabled_in e) (sort_by_priority-perm e.policies (keys e.policies))))

  -- In whatever order the engine's map is visited, with the same set of Cedar policies, `Evaluate`
  -- makes just the decisions of the enabled policies, each as often as the map holds it: but for
  -- their order, they are a function of the map without its order.
  pub evaluate-policies_decide :
      (e : Engine fl cedar) (m : Dict String Policy)
      → SameMap e.policies m
      → Quot.mk (evaluate fl cedar (over e m) s) ≡ policies_decide e (Quot.mk e.policies)
  unfolding policies_decide
  evaluate-policies_decide e m h =
      Quot.sound (evaluate-decided (over e m)) ∙ ap (policies_decide e) (sym (Quot.sound h))
