-- ===== src/Policy/Executor/Errors.antt =====
-- Which actions of internal/policy/executor.go can fail.
use workloadguard.Base.{
  ℤ, String, string_eq, List, [], ◌∷◌, none, ◌≡◌, refl, sym, subst, ap, ◌∙◌, ◌⊎◌, inl, inr, All,
}
use workloadguard.System.{Env, Trace}
use workloadguard.Config.{Config}
use workloadguard.Collector.{Snapshot}
use workloadguard.Policy.Engine.{Decision}
use workloadguard.Policy.Executor.{
  joined, execute_log, execute_sample, spindump_first, execute_spindump, execute_action,
  execute_actions, execute,
}

-- The actions that only look.
abbrev pub IsHarmless : String → Type 0
IsHarmless action = (action ≡ "log") ⊎ ((action ≡ "sample") ⊎ (action ≡ "spindump"))

module _ (env : Env) (cfg : Config) (d : Decision) (s : Snapshot) where
  spindump_first-none : (pids : List ℤ) (t : Trace) → (spindump_first env pids t).0 ≡ none
  spindump_first-none [] t = refl
  spindump_first-none (pid ∷ pids) t = refl

  execute_action-none :
      (action : String) (t : Trace)
      → IsHarmless action
      → (execute_action env cfg d s action t).0 ≡ none
  unfolding execute_action execute_log execute_sample execute_spindump
  execute_action-none action t (inl e) =
      subst (λ a. (execute_action env cfg d s a t).0 ≡ none) (sym e) refl
  execute_action-none action t (inr (inl e)) =
      subst (λ a. (execute_action env cfg d s a t).0 ≡ none) (sym e) refl
  execute_action-none action t (inr (inr e)) =
      subst (λ a. (execute_action env cfg d s a t).0 ≡ none) (sym e) (spindump_first-none d.pids t)

  execute_actions-none :
      (actions : List String) (t : Trace)
      → All IsHarmless actions
      → (execute_actions env cfg d s actions t).0 ≡ []
  unfolding execute_actions
  execute_actions-none [] t h = refl
  execute_actions-none (action ∷ actions) t (h, hs) =
      let r = execute_action env cfg d s action t in
      ap (λ o. joined env action o (execute_actions env cfg d s actions r.1).0)
        (execute_action-none action t h)
      ∙ execute_actions-none actions r.1 hs

  -- Actions that only look return no error, whatever the commands and the system answer.
  pub execute-none : (t : Trace) → All IsHarmless d.actions → (execute env cfg d s t).0 ≡ []
  unfolding execute
  execute-none t h = execute_actions-none d.actions t h
