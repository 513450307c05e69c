-- ===== src/Daemon/Cooldown.antt =====
-- The cooldown of a policy (internal/daemon/daemon.go).
use workloadguard.Base.{
  ap, ◌∙◌, ℤ, pos, false, String, string_eq, List, ◌++◌, some, ◌≡◌, refl, sym, subst, ◌⊎◌, inl, inr,
  ◌≤ℤ◌, ltb_ℤ, ◌-ℤ◌, arith, if_intro,
}
use workloadguard.Base.Dict.{lookup}
use workloadguard.Float.{Floats}
use workloadguard.Collector.{Snapshot}
use workloadguard.System.{Env, Trace, now}
use workloadguard.Policy.Cedar.{Cedar}
use workloadguard.Policy.Engine.{Decision}
use workloadguard.Policy.Executor.Signals.{IsQuiet}
use workloadguard.Daemon.Watching.{IsCoarse, Watches, is_on_cooldown-Watches}
use workloadguard.Daemon.Runs.{ticks-Related}
use workloadguard.Daemon.{ticks, Tick, State, Daemon, since, is_on_cooldown, handle_triggered}
use workloadguard.Daemon.Acting.{≤ℤ-trans, later, fire-Acted}

-- Time that has passed stays passed.
passed_later :
    (a b last wait : ℤ) → a ≤ℤ b → ltb_ℤ (a -ℤ last) wait ≡ false → ltb_ℤ (b -ℤ last) wait ≡ false
passed_later a b last wait h k = ground (arith, h, k)

-- One wait after another is a wait.
passed_twice :
    (a b last wait : ℤ)
    → pos 0 ≤ℤ wait
    → ltb_ℤ (a -ℤ last) wait ≡ false
    → ltb_ℤ (b -ℤ a) wait ≡ false
    → ltb_ℤ (b -ℤ last) wait ≡ false
passed_twice a b last wait h k l = ground (arith, h, k, l)

module _ (fl : Floats) (cedar : Cedar) (env : Env) (d : Daemon fl cedar env) where
  -- the same time, or a time when the cooldown had passed
  abbrev pub Apart : ℤ → ℤ → Type 0
  Apart a b = (b ≡ a) ⊎ (ltb_ℤ (b -ℤ a) d.config.cooldown ≡ false)

  -- The trigger of `name`, recorded at `last`, stands in the state, or has been replaced by one at
  -- a time when the cooldown had passed.
  abbrev pub IsKept : String → ℤ → State → Type 0
  IsKept name last s = (time : ℤ) × (lookup name s.last_trigger ≡ some time) × Apart last time

  pub record Spaced (s s' : State) : Type 0 where
    pub kept :
        (name : String) (last : ℤ) → lookup name s.last_trigger ≡ some last → IsKept name last s'

  pub Spaced-refl : (s : State) → Spaced s s
  Spaced-refl s = record { kept = λ name last h. (last, h, inl refl) }

  pub Watches-Spaced : {s s' : State} → Watches s s' → Spaced s s'
  Watches-Spaced w = record {
    kept = λ name last h. (last, ap (lookup name) w.triggers ∙ h, inl refl);
  }

  module _ (monotone : (t new : Trace) → env.clock t ≤ℤ env.clock (new ++ t)) where
    pub handle_triggered-IsKept :
        (e : Decision) (snapshot : Snapshot) (s : State) (name : String) (last : ℤ)
        → lookup name s.last_trigger ≡ some last
        → IsKept name last (handle_triggered fl cedar env d e snapshot s)
    unfolding handle_triggered is_on_cooldown now
    handle_triggered-IsKept e snapshot s name last h =
        let r = is_on_cooldown fl cedar env d e.policy_name s in
        let w = is_on_cooldown-Watches fl cedar env d e.policy_name s in
        let (time, found, why) =
          fire-Acted fl cedar env d monotone e snapshot r.1 name last
            (ap (lookup name) w.triggers ∙ h) in
        if_intro (IsKept name last) r.0 _ _ (λ cooling. (Watches-Spaced w).kept name last h)
          (λ ready. (
            time,
            found,
            elim why [
              | inl same ↦ inl same
              | inr (own, after) ↦
                  let known : lookup e.policy_name s.last_trigger ≡ some last =
                    ap (λ n. lookup n s.last_trigger) own ∙ h in
                  inr (
                    passed_later (env.clock s.trace) time last d.config.cooldown
                      (≤ℤ-trans (env.clock s.trace) (env.clock r.1.trace) time
                        (later fl cedar env d monotone IsQuiet w.quiet) after)
                      (sym (ap (λ o. (since fl cedar env d s o).0) known) ∙ ready))
            ],
          ))

    module _ (waits : pos 0 ≤ℤ d.config.cooldown) where
      apart : (last first second : ℤ) → Apart last first → Apart first second → Apart last second
      apart last first second (inl same) w = subst (λ a. Apart a second) same w
      apart last first second (inr passed) (inl same) =
          inr (subst (λ b. ltb_ℤ (b -ℤ last) d.config.cooldown ≡ false) (sym same) passed)
      apart last first second (inr passed) (inr again) =
          inr (passed_twice first second last d.config.cooldown waits passed again)

      pub Spaced-trans : {s t u : State} → Spaced s t → Spaced t u → Spaced s u
      Spaced-trans h k = record {
        kept = λ name last before.
            let (first, found, why) = h.kept name last before in
            let (second, found', why') = k.kept name first found in
            (second, found', apart last first second why why');
      }

      pub Spaced-IsCoarse : IsCoarse Spaced
      Spaced-IsCoarse = record {
        watch = λ s s' w. Watches-Spaced w;
        join = λ s t u h k. Spaced-trans h k;
      }

      ticks-Spaced :
          (ts : List (Tick fl cedar env)) (s : State) → Spaced s (ticks fl cedar env d ts s)
      ticks-Spaced =
          ticks-Related fl cedar env d Spaced Spaced-IsCoarse
            (λ e snapshot s on. record { kept = handle_triggered-IsKept e snapshot s })

      -- Where the clock does not go back and the cooldown is not negative: once a trigger of a policy
      -- is recorded, the record that stands after any ticks is that one, or was made when at least
      -- the cooldown had passed since.
      pub ticks-IsKept :
          (ts : List (Tick fl cedar env)) (s : State) (name : String) (last : ℤ)
          → lookup name s.last_trigger ≡ some last
          → IsKept name last (ticks fl cedar env d ts s)
      ticks-IsKept ts s name last h = (ticks-Spaced ts s).kept name last h
