-- ===== src/Config/Validity.antt =====
-- What `Validate` of internal/config/config.go accepts.
use text.Mathlib.TextEquality.{eq_iff}
use workloadguard.Base.{
  pos, ◌≤ℤ◌, ◌<ℤ◌, true, String, List, [], ◌∷◌, none, some, ◌≡◌, ◌≢◌, ◌↔◌, ◌⊎◌, ◌++◌, ap, string_eq,
  inl, inr, All, arith, Bool-cases, Option-cases, refl,
}
use workloadguard.Base.Dict.{Dict}
use workloadguard.Float.{Float64, nan, ord}
use workloadguard.Config.{
  Policy, Config, ConfigError, second, is_valid_action, check_actions, validate_policy,
  validate_policies, validate,
}

-- The actions that the executor knows.
abbrev pub IsAction : String → Type 0
IsAction s =
    (s ≡ "log")
    ⊎ ((s ≡ "notify")
        ⊎ ((s ≡ "terminate") ⊎ ((s ≡ "diagnose") ⊎ ((s ≡ "sample") ⊎ (s ≡ "spindump")))))

pub record IsValidPolicy (p : Policy) : Type 0 where
  pub named : p.process ≢ ""
  pub counted : pos 0 <ℤ p.max_count
  pub acts : p.actions ≢ []
  pub known : All IsAction p.actions

-- A positive number, or a NaN: the test `LoadThreshold <= 0` lets a NaN pass.
abbrev pub IsThreshold : Float64 → Type 0
IsThreshold nan = Unit
IsThreshold (ord x) = pos 0 <ℤ x

pub record IsValid (cfg : Config) : Type 0 where
  pub periodic : second ≤ℤ cfg.periodic_interval
  pub polled : second ≤ℤ cfg.load_poll_interval
  pub threshold : IsThreshold cfg.load_threshold
  pub graceful : pos 0 ≤ℤ cfg.grace_period
  pub policies : All (λ entry. IsValidPolicy entry.1) cfg.policies

valid-IsAction_iff : (s : String) → (is_valid_action s ≡ true) ↔ IsAction s
unfolding is_valid_action
valid-IsAction_iff s = ground (
  arith,
  eq_iff "log" s,
  eq_iff "notify" s,
  eq_iff "terminate" s,
  eq_iff "diagnose" s,
  eq_iff "sample" s,
  eq_iff "spindump" s,
)

check_actions_iff :
    (name : String) (actions : List String)
    → (check_actions name actions ≡ none) ↔ All IsAction actions
unfolding check_actions
check_actions_iff name [] = ground arith
check_actions_iff name (a ∷ rest) = elim (Bool-cases (is_valid_action a)) [
  | inl good ↦
      let (to, from) = check_actions_iff name rest in
      (λ h. ((valid-IsAction_iff a).0 good, to (ground arith)), λ k. ground (arith, from k.1))
  | inr bad ↦ (λ h. absurd (ground arith), λ k. absurd (cc ((valid-IsAction_iff a).1 k.0)))
]

validate_policy_iff :
    (name : String) (p : Policy) → (validate_policy name p ≡ none) ↔ IsValidPolicy p
unfolding validate_policy
validate_policy_iff name p = (
  λ h. record {
    named = ground (arith, eq_iff p.process "");
    counted = ground arith;
    acts = ground arith;
    known = ground (arith, check_actions_iff name p.actions);
  },
  λ v. grind (arith, eq_iff p.process "", check_actions_iff name p.actions, v.acts),
)

validate_policies_iff :
    (ps : Dict String Policy)
    → (validate_policies ps ≡ none) ↔ All (λ entry. IsValidPolicy entry.1) ps
unfolding validate_policies
validate_policies_iff [] = ground arith
validate_policies_iff ((name, p) ∷ ps) =
    grind (arith, validate_policy_iff name p, validate_policies_iff ps)

-- `Validate` returns no error exactly when both intervals are at least a second, the load threshold
-- is positive or a NaN, the grace period is not negative, and every policy names a process, has a
-- positive count and at least one action, and lists only known actions.
pub validate_iff : (cfg : Config) → (validate cfg ≡ none) ↔ IsValid cfg
unfolding validate
validate_iff cfg = grind (arith, validate_policies_iff cfg.policies)

-- An error about the policies is the error of one policy of the configuration, and no policy that
-- the loop visits before it has an error.
pub validate_policies_first :
    (ps : Dict String Policy) {e : ConfigError}
    → validate_policies ps ≡ some e
    → (before : Dict String Policy) × (name : String) × (p : Policy) × (after : Dict String Policy)
      × (ps ≡ before ++ (name, p) ∷ after)
      × (validate_policy name p ≡ some e)
      × All (λ entry. IsValidPolicy entry.1) before
unfolding validate_policies
validate_policies_first [] h = absurd (ground arith)
validate_policies_first ((name, p) ∷ ps) h = elim (Option-cases (validate_policy name p)) [
  | inl fine ↦
      let (before, name', p', after, split, bad, good) =
        validate_policies_first ps (ground arith) in
      (
        (name, p) ∷ before,
        name',
        p',
        after,
        ap (λ l. (name, p) ∷ l) split,
        bad,
        ((validate_policy_iff name p).0 fine, good),
      )
  | inr (e', bad) ↦ ([], name, p, ps, refl, ground arith, tt)
]
