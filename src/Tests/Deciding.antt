-- ===== src/Tests/Deciding.antt =====
-- The theorems on the collector, the configuration and the engine, on concrete data.
use workloadguard.Base.{
  true, pos, false, int_eq, string_eq, List, [], ◌∷◌, none, some, refl, ◌≡◌, ◌↔◌, String, map,
  length, if◌then◌else◌, ◌&&◌, ◌==◌, All, ◌++◌, arith,
}
use workloadguard.Collector.Parents.{by_name_and_parent_lem}
use workloadguard.Collector.{
  collect, ProcessInfo, processes_by_name_and_parent, processes_by_parent,
}
use workloadguard.Base.Filter.{filter_by}
use workloadguard.Base.Dict.{Dict, keys}
use workloadguard.Collector.Index.{IsIndexed, collect-IsIndexed}
use workloadguard.Collector.Interleaving.{all_tasks, collect_order}
use workloadguard.Config.{
  is_valid_action, Policy, validate_policy, action_required, validate, validate_policies,
}
use workloadguard.Config.Validity.{IsValidPolicy, IsValid, validate_iff, validate_policies_first}
use workloadguard.Diagnostics.{build_parent_chain}
use workloadguard.Diagnostics.Chain.{IsFullChain, build_parent_chain_total}
use workloadguard.Policy.Engine.Maps.{SameMap, over, policies_decide, evaluate-policies_decide}
use workloadguard.Policy.Engine.{Engine, evaluate, evaluate_policy, candidates, policy_at}
use workloadguard.Policy.Engine.Order.{IsByPriority, enabled_at, evaluate_lem}
use workloadguard.Policy.Engine.Selection.{counts, candidates-filter_by}
use workloadguard.Policy.Engine.Trigger.{Holds, evaluate_policy_iff}
use mathlib.Core.List.{Permᴰ}
use mathlib.Core.Quot
use workloadguard.Samples.{
  other_order, other_order-perm, floats, cedar, readings, snapshot, snapshot-IsIndexed, node_policy,
  policies, config, engine,
}

evaluate_policy_iff_example :
    let d = evaluate_policy floats cedar engine "node" node_policy snapshot in
    let ps = filter_by (counts node_policy) snapshot.processes in
    ((d.triggered ≡ true) ↔ Holds floats cedar engine node_policy snapshot (length ps))
    × (d.pids ≡ (if d.triggered then map (λ p. p.pid) ps else []))
evaluate_policy_iff_example =
    evaluate_policy_iff floats cedar engine "node" node_policy snapshot snapshot-IsIndexed

collect-IsIndexed_example : IsIndexed (collect (pos 5) readings other_order).0
collect-IsIndexed_example = collect-IsIndexed (pos 5) readings other_order-perm

collect_order_example :
    (collect (pos 5) readings other_order).0 ≡ (collect (pos 5) readings all_tasks).0
collect_order_example = collect_order (pos 5) readings other_order-perm

evaluate_lem_example :
    let ds = evaluate floats cedar engine snapshot in
    let names = map (λ d. d.policy_name) ds in
    IsByPriority policies names
    × Permᴰ names (filter_by (enabled_at floats cedar engine snapshot) (keys policies))
    × All
        (λ d.
          d
          ≡ evaluate_policy floats cedar engine d.policy_name
              (policy_at policies d.policy_name)
              snapshot)
        ds
evaluate_lem_example = evaluate_lem floats cedar engine snapshot

candidates-filter_by_example :
    candidates node_policy snapshot ≡ filter_by (counts node_policy) snapshot.processes
candidates-filter_by_example = candidates-filter_by node_policy snapshot snapshot-IsIndexed

build_parent_chain_total_example :
    (chain : List ProcessInfo) × (build_parent_chain (pos 11) snapshot ≡ some chain)
    × IsFullChain snapshot (pos 11) chain
build_parent_chain_total_example = build_parent_chain_total (pos 11) snapshot

validate_iff_example : (validate (config false) ≡ none) ↔ IsValid (config false)
validate_iff_example = validate_iff (config false)

abbrev bad_policies : Dict String Policy
bad_policies =
    ("node", node_policy)
    ∷ ("idle", record node_policy { process = "vim"; actions = [] })
    ∷ ("odd", record node_policy { max_count = pos 0 })
    ∷ []

validate_policies_first_example :
    (before : Dict String Policy) × (name : String) × (p : Policy) × (after : Dict String Policy)
    × (bad_policies ≡ before ++ (name, p) ∷ after)
    × (validate_policy name p ≡ some (action_required "idle"))
    × All (λ entry. IsValidPolicy entry.1) before
unfolding validate_policies validate_policy is_valid_action
validate_policies_first_example = validate_policies_first bad_policies refl

-- The sample engine with a second policy, and its map the other way round.
abbrev two_policies : Dict String Policy
two_policies = ("node", node_policy) ∷ ("vim", record node_policy { process = "vim" }) ∷ []

abbrev turned_policies : Dict String Policy
turned_policies = ("vim", record node_policy { process = "vim" }) ∷ ("node", node_policy) ∷ []

turned-SameMap : SameMap two_policies turned_policies
turned-SameMap = record {
  same_keys = Permᴰ.swap refl refl;
  same_values = λ k. ground (arith, string_eq.test_iff "node" k, string_eq.test_iff "vim" k);
}

abbrev two_engine : Engine floats cedar
two_engine = record { policies = two_policies; policy_set = tt }

evaluate-policies_decide_example :
    Quot.mk (evaluate floats cedar (over floats cedar snapshot two_engine turned_policies) snapshot)
    ≡ policies_decide floats cedar snapshot two_engine (Quot.mk two_policies)
evaluate-policies_decide_example =
    evaluate-policies_decide floats cedar snapshot two_engine turned_policies turned-SameMap

by_name_and_parent_lem_example :
    (processes_by_name_and_parent snapshot "node" "zsh"
      ≡ filter_by (λ p. p.name == "node" && p.parent_name == "zsh") snapshot.processes)
    × (processes_by_name_and_parent snapshot "node" "zsh"
        ≡ filter_by (λ p. p.name == "node") (processes_by_parent snapshot "zsh"))
by_name_and_parent_lem_example = by_name_and_parent_lem snapshot "node" "zsh" snapshot-IsIndexed
