-- ===== src/Api/Status/Single.antt =====
-- One policy's state against the list of all (internal/api/handlers.go).
use workloadguard.Base.{
  false, String, string_eq, List, [], ◌∷◌, some, none, Option, ◌==◌, ◌≡◌, ◌≢◌, refl, ap, ◌∙◌, sym,
  Bool-cases, inl, inr, if◌then◌else◌, pos,
}
use workloadguard.Base.Dict.{lookup}
use workloadguard.Config.{Policy}
use workloadguard.Policy.Engine.{Decision}
use workloadguard.Api.Provider.{StatusProvider}
use workloadguard.Api.{PolicyState, policies_body, policy_body}
use workloadguard.Api.Handlers.{policy_state, policy_states, threshold_at, handle_policies}
use workloadguard.Api.Status.{unevaluated, found_state, find_state, policy_response, handle_policy}

-- The state without the cooldown, which depends on the time of the answer.
abbrev pub without_cooldown : PolicyState → PolicyState
without_cooldown p = record p { on_cooldown = false }

-- The first state under a name, or the one given where there is none.
abbrev pub first_named : String → PolicyState → List PolicyState → PolicyState
first_named name fallback [] = fallback
first_named name fallback (p ∷ ps) =
    let rest = first_named name fallback ps in if p.name == name then p else rest

module _ {S : Type 0} (provider : StatusProvider S) (name : String) (p : Policy)
    (configured : lookup name provider.config.policies ≡ some p) where
  threshold_configured : (other : String) → other ≡ name → threshold_at provider other ≡ p.max_count
  threshold_configured other same =
      ap (threshold_at provider) same
      ∙ ap (λ (o : Option Policy). elim o [ none ↦ pos 0 | some q ↦ q.max_count ]) configured

  policy_state-times :
      (e : Decision) (s s' : S)
      → e.policy_name ≡ name
      → without_cooldown (found_state provider name p e s).0
        ≡ without_cooldown (policy_state provider (threshold_at provider e.policy_name) e s').0
  unfolding policy_state found_state
  policy_state-times e s s' same =
      ap (λ t. without_cooldown (policy_state provider t e s).0)
        (sym (threshold_configured e.policy_name same))

  find_state-policy_states :
      (es : List Decision) (s s' : S)
      → without_cooldown (find_state provider name p es s).0
        ≡ without_cooldown (first_named name (unevaluated name p) (policy_states provider es s').0)
  unfolding find_state policy_states policy_state
  find_state-policy_states [] s s' = refl
  find_state-policy_states (e ∷ es) s s' = elim (Bool-cases (e.policy_name == name)) [
    | inl same ↦
        rw (same) (policy_state-times e s s' ((string_eq.test_iff e.policy_name name).0 same))
    | inr other ↦ rw (other) (find_state-policy_states es s _)
  ]

  -- Of a policy of the configuration, under a name that is not empty, the answer for that one
  -- policy is the first state of that name in the answer for all, or the state of a policy that has
  -- not been evaluated where there is none; but for the cooldown, which depends on the time.
  pub handle_policy-handle_policies :
      (s : S)
      → name ≢ ""
      → (one : PolicyState) × (all : List PolicyState) × ((handle_policy provider name s).0
          ≡ (200, policy_body one))
        × ((handle_policies provider s).0 ≡ (200, policies_body all))
        × (without_cooldown one ≡ without_cooldown (first_named name (unevaluated name p) all))
  unfolding handle_policy handle_policies
  handle_policy-handle_policies s named = elim (Bool-cases (name == "")) [
    | inl same ↦ absurd (named ((string_eq.test_iff name "").0 same))
    | inr other ↦ (
      (find_state provider name p (provider.decisions s) s).0,
      (policy_states provider (provider.decisions s) s).0,
      rw other (ap (λ o. (policy_response provider name o s).0) configured),
      refl,
      find_state-policy_states (provider.decisions s) s s,
    )
  ]
