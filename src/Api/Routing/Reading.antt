-- ===== src/Api/Routing/Reading.antt =====
-- What the server's readers leave as it was: all the handlers of internal/api but `handleTerminate`,
-- the greeting of a socket and the broadcasts.
use workloadguard.Base.{
  ℕ, refl, ℤ, Bool, String, string_eq, List, [], ◌∷◌, ◌==◌, if_intro, Option, none, some,
}
use workloadguard.Base.Dict.{lookup}
use workloadguard.Float.{Floats}
use workloadguard.Config.{Policy}
use workloadguard.System.{Env, now}
use workloadguard.Policy.Cedar.{Cedar}
use workloadguard.Policy.Engine.{Decision}
use workloadguard.Daemon.{State, Daemon}
use workloadguard.Daemon.Watching.{
  Watches, Watches-refl, Watches-trans, clock-Watches, is_on_cooldown-Watches,
}
use workloadguard.Daemon.Cycle.{Kept, Kept-refl, Kept-trans, is_on_cooldown-Kept}
use workloadguard.Daemon.Provider.{daemon_provider, daemon_clock}
use workloadguard.Api.Provider.{StatusProvider}
use workloadguard.Api.{Alert, Server, Wire, PolicyState, Response}
use workloadguard.Api.Handlers.{policy_state, policy_states, threshold_at, handle_policies}
use workloadguard.Api.Status.{
  build_status_response, handle_status, find_state, policy_response, handle_policy,
  broadcast_status, greet_socket, found_state,
}

-- Neither a process nor the record of triggers is touched, nor what a check publishes.
pub record Reads (s s' : State) : Type 0 where
  pub watches : Watches s s'
  pub kept : Kept s s'

pub Reads-refl : (s : State) → Reads s s
Reads-refl s = record { watches = Watches-refl s; kept = Kept-refl s }

Reads-trans : {s t u : State} → Reads s t → Reads t u → Reads s u
Reads-trans h k = record {
  watches = Watches-trans h.watches k.watches;
  kept = Kept-trans h.kept k.kept;
}

module _ (fl : Floats) (cedar : Cedar) (env : Env) (d : Daemon fl cedar env) where
  abbrev provider : StatusProvider State
  provider = daemon_provider fl cedar env d

  abbrev clock : State → ℤ × State
  clock = daemon_clock env

  policy_state-Reads :
      (threshold : ℤ) (e : Decision) (s : State) → Reads s (policy_state provider threshold e s).1
  unfolding policy_state
  policy_state-Reads threshold e s = record {
    watches = is_on_cooldown-Watches fl cedar env d e.policy_name s;
    kept = is_on_cooldown-Kept fl cedar env d e.policy_name s;
  }

  policy_states-Reads : (es : List Decision) (s : State) → Reads s (policy_states provider es s).1
  unfolding policy_states
  policy_states-Reads [] s = Reads-refl s
  policy_states-Reads (e ∷ es) s =
      Reads-trans (policy_state-Reads (threshold_at provider e.policy_name) e s)
        (policy_states-Reads es _)

  build_status_response-Reads :
      (alerts : List Alert) (s : State) → Reads s (build_status_response provider clock alerts s).1
  unfolding build_status_response now
  build_status_response-Reads alerts s =
      let s₁ = (policy_states provider s.latest_decisions s).1 in
      Reads-trans (policy_states-Reads s.latest_decisions s) (record {
        watches = clock-Watches s₁;
        kept = record { snapshot = refl; decisions = refl; lock = refl };
      })

  pub handle_status-Reads :
      (s : State) (v : Server) → Reads s (handle_status provider clock (s, v)).1
  unfolding handle_status
  handle_status-Reads s v = build_status_response-Reads v.alerts s

  pub handle_policies-Reads : (s : State) → Reads s (handle_policies provider s).1
  unfolding handle_policies
  handle_policies-Reads s = policy_states-Reads s.latest_decisions s

  found_state-Reads :
      (name : String) (p : Policy) (e : Decision) (s : State)
      → Reads s (found_state provider name p e s).1
  unfolding found_state
  found_state-Reads name p e s = record {
    watches = is_on_cooldown-Watches fl cedar env d name s;
    kept = is_on_cooldown-Kept fl cedar env d name s;
  }

  find_state-Reads :
      (name : String) (p : Policy) (es : List Decision) (s : State)
      → Reads s (find_state provider name p es s).1
  unfolding find_state
  find_state-Reads name p [] s = Reads-refl s
  find_state-Reads name p (e ∷ es) s =
      if_intro (λ (r : PolicyState × State). Reads s r.1) (e.policy_name == name) _ _
        (λ same. found_state-Reads name p e s) (λ other. find_state-Reads name p es s)

  policy_response-Reads :
      (name : String) (o : Option Policy) (s : State)
      → Reads s (policy_response provider name o s).1
  policy_response-Reads name none s = Reads-refl s
  policy_response-Reads name (some p) s = find_state-Reads name p s.latest_decisions s

  pub handle_policy-Reads : (name : String) (s : State) → Reads s (handle_policy provider name s).1
  unfolding handle_policy
  handle_policy-Reads name s =
      if_intro (λ (r : Response × State). Reads s r.1) (name == "") _ _ (λ empty. Reads-refl s)
        (λ given. policy_response-Reads name (lookup name d.config.policies) s)

  pub broadcast_status-Reads :
      (wire : Wire) (s : State) (v : Server)
      → Reads s (broadcast_status provider clock wire (s, v)).0
  unfolding broadcast_status
  broadcast_status-Reads wire s v = build_status_response-Reads v.alerts s

  pub greet_socket-Reads :
      (conn : ℕ) (fine : Bool) (s : State) (v : Server)
      → Reads s (greet_socket provider clock conn fine (s, v)).0
  unfolding greet_socket
  greet_socket-Reads conn fine s v = build_status_response-Reads v.alerts s
