-- ===== src/Policy/Engine.antt =====
-- internal/policy/engine.go: the policies are evaluated against a snapshot.
pub mod Maps
pub mod Order
pub mod Selection
pub mod Trigger
use workloadguard.Base.{
  ℕ, ℤ, pos, ltb_ℤ, Bool, true, false, not, ◌&&◌, String, List, [], ◌∷◌, map, Option, none, some,
  ◌==◌, string_eq, if◌then◌else◌, length, beq_ℕ, Outcome, ok, err,
}
use workloadguard.Base.Filter.{filter_by}
use workloadguard.Base.Dict.{Dict, get_or, keys}
use workloadguard.Base.Text.{decimal, concat}
use workloadguard.Float.{Float64, flt, float_zero, Floats}
use workloadguard.Config.{Policy, Conditions, is_enabled}
use workloadguard.Collector.{
  ProcessInfo, Snapshot, LoadAverage, processes_by_name, exclude_by_parents,
}
use workloadguard.Policy.Cedar.{Cedar, Request, convert_to_cedar}

pub record Decision : Type 0 where
  pub policy_name : String
  pub triggered : Bool
  pub reason : String
  pub actions : List String
  pub pids : List ℤ
  pub process_name : String

-- The zero value, which `e.policies[name]` gives for a name that is not there.
abbrev pub zero_policy : Policy
zero_policy = record {
  process = "";
  max_count = pos 0;
  conditions = none;
  actions = [];
  priority = pos 0;
  enabled = none;
}

abbrev pub policy_at : Dict String Policy → String → Policy
policy_at ps name = get_or name zero_policy ps

-- `sort.Slice(names, …)` by falling priority. The sort is not stable and the map has no order: the
-- order of `names`, which is that of the map, stands for both.
unfoldable pub insert_by_priority : Dict String Policy → String → List String → List String
insert_by_priority ps n [] = n ∷ []
insert_by_priority ps n (m ∷ ms) =
    let rest = insert_by_priority ps n ms in
    if ltb_ℤ (policy_at ps n).priority (policy_at ps m).priority then m ∷ rest else n ∷ m ∷ ms

unfoldable pub sort_by_priority : Dict String Policy → List String → List String
unfolding insert_by_priority
sort_by_priority ps [] = []
sort_by_priority ps (n ∷ ns) = insert_by_priority ps n (sort_by_priority ps ns)

-- the first condition: only processes with the given parent
abbrev only_parent : Conditions → List ProcessInfo → List ProcessInfo
only_parent c ps =
    if not (c.parent_process == "")
    then filter_by (λ p. p.parent_name == c.parent_process) ps
    else ps

-- the second: no process with an excluded parent
abbrev no_excluded : Conditions → List ProcessInfo → List ProcessInfo
no_excluded c ps =
    if not (beq_ℕ (length c.exclude_parents) 0) then exclude_by_parents ps c.exclude_parents else ps

-- the processes that count for a policy
unfoldable pub candidates : Policy → Snapshot → List ProcessInfo
candidates policy s =
    let ps = processes_by_name s policy.process in
    elim policy.conditions [ none ↦ ps | some c ↦ no_excluded c (only_parent c ps) ]

module _ (fl : Floats) where
  abbrev below_text : String → Float64 → Float64 → String
  below_text label load limit =
      concat (label ∷ " " ∷ fl.fixed2 load ∷ " below condition " ∷ fl.fixed2 limit ∷ [])

  -- the additional conditions: the reason why they are not met
  unfoldable pub load_shortfall : Option Conditions → LoadAverage → Option String
  load_shortfall none load = none
  load_shortfall (some c) load =
      if flt float_zero c.min_load1 && flt load.load1 c.min_load1
      then some (below_text "load1" load.load1 c.min_load1)
      else if flt float_zero c.min_load5 && flt load.load5 c.min_load5
      then some (below_text "load5" load.load5 c.min_load5)
      else none

  module _ (cedar : Cedar) where
    pub record Engine : Type 0 where
      pub policies : Dict String Policy
      pub policy_set : cedar.PolicySet

    unfoldable pub new_engine : Dict String Policy → Outcome Engine
    new_engine ps = elim (convert_to_cedar fl cedar ps) [
      | err e ↦ err e
      | ok set ↦ ok (record { policies = ps; policy_set = set })
    ]

    unfoldable pub request : Policy → Snapshot → ℕ → Request
    request policy s count = record {
      principal = ("WorkloadGuard", "daemon");
      action = ("Action", "terminate");
      resource = ("Process", policy.process);
      context = record {
        process_name = policy.process;
        process_count = pos count;
        max_count = policy.max_count;
        load1 = fl.to_centi s.load_average.load1;
        load5 = fl.to_centi s.load_average.load5;
        load15 = fl.to_centi s.load_average.load15;
        cpu_count = s.cpu_count;
      };
    }

    unfoldable pub authorize_with_cedar : Engine → Policy → Snapshot → ℕ → Bool
    authorize_with_cedar e policy s count =
        cedar.is_authorized e.policy_set (request policy s count)

    abbrev untriggered : String → Policy → String → Decision
    untriggered name policy reason = record {
      policy_name = name;
      triggered = false;
      reason = reason;
      actions = policy.actions;
      pids = [];
      process_name = policy.process;
    }

    abbrev count_text : ℕ → ℤ → String
    count_text count max =
        concat ("process count " ∷ decimal (pos count) ∷ " below threshold " ∷ decimal max ∷ [])

    abbrev trigger_text : String → ℕ → ℤ → String
    trigger_text process count max = concat (
        "process "
        ∷ process
        ∷ " count "
        ∷ decimal (pos count)
        ∷ " >= threshold "
        ∷ decimal max
        ∷ [])

    unfoldable pub evaluate_policy : Engine → String → Policy → Snapshot → Decision
    evaluate_policy e name policy s =
        let processes = candidates policy s in
        let count = length processes in
        if ltb_ℤ (pos count) policy.max_count
        then untriggered name policy (count_text count policy.max_count)
        else elim (load_shortfall policy.conditions s.load_average) [
          | some reason ↦ untriggered name policy reason
          | none ↦
              if not (authorize_with_cedar e policy s count)
              then untriggered name policy "cedar policy denied action"
              else record {
                policy_name = name;
                triggered = true;
                reason = trigger_text policy.process count policy.max_count;
                actions = policy.actions;
                pids = map (λ p. p.pid) processes;
                process_name = policy.process;
              }
        ]

    -- the loop over the sorted names, which skips what is not enabled
    unfoldable pub evaluate_names : Engine → Snapshot → List String → List Decision
    evaluate_names e s [] = []
    evaluate_names e s (name ∷ names) =
        let policy = policy_at e.policies name in
        let rest = evaluate_names e s names in
        if not (is_enabled policy) then rest else evaluate_policy e name policy s ∷ rest

    unfoldable pub evaluate : Engine → Snapshot → List Decision
    evaluate e s = evaluate_names e s (sort_by_priority e.policies (keys e.policies))
