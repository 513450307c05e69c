-- ===== src/Policy/Executor/Phases.antt =====
-- The signals of `executeTerminate` (internal/policy/executor.go), in the order of the trace.
use mathlib.Core.List.{Memᴰ, append_assoc}
use workloadguard.Base.{
  ℤ, String, List, [], ◌∷◌, ◌++◌, ◌≡◌, ◌≢◌, refl, sym, ap, ◌∙◌, All, All-append, All-mono, Option,
  none, some, ◌⊎◌, inl, inr, arith, Bool-cases, Option-cases,
}
use workloadguard.Base.Members.{Memᴰ-append_left, Memᴰ-append_right}
use workloadguard.System.{
  Event, find, signal, wait, sigterm, sigkill, probe, Trace, Env, sent, find_process, send,
  wait_for, count_each,
}
use workloadguard.Config.{Config}
use workloadguard.Policy.Engine.{Decision}
use workloadguard.Policy.Executor.{
  term_round, kill_round, terminate_all, execute_terminate, is_sent,
}

-- The events of the first phase, for the PIDs given.
abbrev pub TermOf : List ℤ → Event → Type 0
TermOf pids (find pid) = Memᴰ pid pids
TermOf pids (signal pid sigterm) = Memᴰ pid pids
TermOf pids _ = ⊥

-- Those of the last.
abbrev pub KillOf : List ℤ → Event → Type 0
KillOf pids (find pid) = Memᴰ pid pids
KillOf pids (signal pid sigkill) = Memᴰ pid pids
KillOf pids (signal pid probe) = Memᴰ pid pids
KillOf pids _ = ⊥

module _ (env : Env) where
  -- The newest event is a probe of the process, and it was answered.
  abbrev pub Answered : Trace → ℤ → Trace → Type 0
  Answered base pid (signal q probe ∷ older) =
      (q ≡ pid) × (env.send_result (older ++ base) q probe ≡ sent)
  Answered base pid _ = ⊥

  -- Each SIGKILL comes directly after an answered probe of its process.
  abbrev pub KillsAnswered : Trace → Trace → Type 0
  KillsAnswered base [] = Unit
  KillsAnswered base (signal pid sigkill ∷ older) =
      Answered base pid older × KillsAnswered base older
  KillsAnswered base (_ ∷ older) = KillsAnswered base older

  term_round_lem :
      (pid : ℤ) (t : Trace)
      → env.find_result t pid ≡ none
      → (term_round env pid t).1 ≡ signal pid sigterm ∷ find pid ∷ t
  unfolding term_round find_process send
  term_round_lem pid t found = ground arith

  -- The first loop sends SIGTERM to every PID, in order, and does nothing else.
  term_loop_lem :
      (pids listed : List ℤ) (t : Trace)
      → ((u : Trace) (pid : ℤ) → env.find_result u pid ≡ none)
      → ((pid : ℤ) → Memᴰ pid pids → Memᴰ pid listed)
      → (terms : List Event) × ((count_each (term_round env) pids t).1 ≡ terms ++ t)
        × All (TermOf listed) terms
        × All (λ pid. Memᴰ (signal pid sigterm) terms) pids
  unfolding count_each
  term_loop_lem [] listed t finds within = ([], refl, tt, tt)
  term_loop_lem (pid ∷ pids) listed t finds within =
      let first : List Event = signal pid sigterm ∷ find pid ∷ [] in
      let here = within pid (Memᴰ.head refl) in
      let (later, same, good, each) =
        term_loop_lem pids listed (first ++ t) finds (λ q m. within q (Memᴰ.tail m)) in
      (
        later ++ first,
        ap (λ u. (count_each (term_round env) pids u).1) (term_round_lem pid t (finds t pid))
            ∙ same
            ∙ sym (append_assoc later first t),
        All-append (TermOf listed) later first good (here, (here, tt)),
        (
          Memᴰ-append_right later first (Memᴰ.head refl),
          All-mono _ (λ q. Memᴰ (signal q sigterm) (later ++ first)) pids
              (λ q m. Memᴰ-append_left later first m) each,
        ),
      )

  -- A round of the second loop: a probe, and SIGKILL if that was answered.
  kill_round_lem :
      (pid : ℤ) (listed : List ℤ) (t : Trace)
      → Memᴰ pid listed
      → (new : List Event) × ((kill_round env pid t).1 ≡ new ++ t)
        × All (KillOf listed) new
        × KillsAnswered t new
  unfolding kill_round find_process send
  kill_round_lem pid listed t here = elim (Option-cases (env.find_result t pid)) [
    | inr (e, lost) ↦ (find pid ∷ [], ground arith, (here, tt), tt)
    | inl found ↦ elim (Bool-cases (is_sent (env.send_result (find pid ∷ t) pid probe))) [
      | inr silent ↦ (signal pid probe ∷ find pid ∷ [], ground arith, (here, (here, tt)), tt)
      | inl answered ↦ (
        signal pid sigkill ∷ signal pid probe ∷ find pid ∷ [],
        ground arith,
        (here, (here, (here, tt))),
        ((refl, ground arith), tt),
      )
    ]
  ]

  Answered-append :
      (base first later : Trace) (pid : ℤ)
      → Answered (first ++ base) pid later
      → Answered base pid (later ++ first)
  Answered-append base first (signal q probe ∷ older) pid (same, answered) =
      (same, rw (append_assoc older first base) answered)
  Answered-append base first _ pid h = absurd h

  KillsAnswered-append :
      (base first later : Trace)
      → KillsAnswered base first
      → KillsAnswered (first ++ base) later
      → KillsAnswered base (later ++ first)
  KillsAnswered-append base first [] h k = h
  KillsAnswered-append base first (signal pid sigkill ∷ later) h k =
      (Answered-append base first later pid k.0, KillsAnswered-append base first later h k.1)
  KillsAnswered-append base first (e ∷ later) h k = KillsAnswered-append base first later h k

  kill_loop_lem :
      (pids listed : List ℤ) (t : Trace)
      → ((pid : ℤ) → Memᴰ pid pids → Memᴰ pid listed)
      → (kills : List Event) × ((count_each (kill_round env) pids t).1 ≡ kills ++ t)
        × All (KillOf listed) kills
        × KillsAnswered t kills
  unfolding count_each
  kill_loop_lem [] listed t within = ([], refl, tt, tt)
  kill_loop_lem (pid ∷ pids) listed t within =
      let (first, reached, good, answered) =
        kill_round_lem pid listed t (within pid (Memᴰ.head refl)) in
      let (later, same, good', answered') =
        kill_loop_lem pids listed (first ++ t) (λ q m. within q (Memᴰ.tail m)) in
      (
        later ++ first,
        ap (λ u. (count_each (kill_round env) pids u).1) reached
            ∙ same
            ∙ sym (append_assoc later first t),
        All-append (KillOf listed) later first good' good,
        KillsAnswered-append t first later answered answered',
      )

  -- What `executeTerminate` does to the trace `before`, with what result.
  pub record Terminates (grace : ℤ) (pids : List ℤ) (before : Trace) (after : Trace)
      (result : Option String) : Type 0 where
    pub terms : List Event
    pub kills : List Event
    pub reached : after ≡ kills ++ (wait grace ∷ (terms ++ before))
    pub terms_listed : All (TermOf pids) terms
    pub all_warned : All (λ pid. Memᴰ (signal pid sigterm) terms) pids
    pub kills_listed : All (KillOf pids) kills
    pub kills_answered : KillsAnswered (wait grace ∷ (terms ++ before)) kills
    pub cancelled : result ≡ env.wait_result (terms ++ before) grace
    pub spared : (kills ≡ []) ⊎ (env.wait_result (terms ++ before) grace ≡ none)

  cut_short :
      (grace pid : ℤ) (pids : List ℤ) (t u : Trace) (e : String)
      → (count_each (term_round env) (pid ∷ pids) t).1 ≡ u
      → env.wait_result u grace ≡ some e
      → terminate_all env grace (pid ∷ pids) t ≡ (some e, wait grace ∷ u)
  unfolding terminate_all wait_for
  cut_short grace pid pids t u e same ended = rw (same, ended, terminate_all) refl

  carried_on :
      (grace pid : ℤ) (pids : List ℤ) (t u : Trace)
      → (count_each (term_round env) (pid ∷ pids) t).1 ≡ u
      → env.wait_result u grace ≡ none
      → terminate_all env grace (pid ∷ pids) t
        ≡ (none, (count_each (kill_round env) (pid ∷ pids) (wait grace ∷ u)).1)
  unfolding terminate_all wait_for
  carried_on grace pid pids t u same waited = rw (same, waited, terminate_all) refl

  terminate_all-Terminates :
      (grace : ℤ) (pid : ℤ) (pids : List ℤ) (t : Trace)
      → ((u : Trace) (q : ℤ) → env.find_result u q ≡ none)
      → let run = terminate_all env grace (pid ∷ pids) t in
        Terminates grace (pid ∷ pids) t run.1 run.0
  terminate_all-Terminates grace pid pids t finds =
      let (terms, same, listed, warned) =
        term_loop_lem (pid ∷ pids) (pid ∷ pids) t finds (λ q m. m) in
      let (kills, killed, kills_listed, answered) =
        kill_loop_lem (pid ∷ pids) (pid ∷ pids) (wait grace ∷ (terms ++ t)) (λ q m. m) in
      elim (Option-cases (env.wait_result (terms ++ t) grace)) [
        | inr (e, ended) ↦ record {
          terms = terms;
          kills = [];
          reached = ap (λ r. r.1) (cut_short grace pid pids t (terms ++ t) e same ended);
          terms_listed = listed;
          all_warned = warned;
          kills_listed = tt;
          kills_answered = tt;
          cancelled =
              ap (λ r. r.0) (cut_short grace pid pids t (terms ++ t) e same ended) ∙ sym ended;
          spared = inl refl;
        }
        | inl waited ↦ record {
          terms = terms;
          kills = kills;
          reached = ap (λ r. r.1) (carried_on grace pid pids t (terms ++ t) same waited) ∙ killed;
          terms_listed = listed;
          all_warned = warned;
          kills_listed = kills_listed;
          kills_answered = answered;
          cancelled =
              ap (λ r. r.0) (carried_on grace pid pids t (terms ++ t) same waited) ∙ sym waited;
          spared = inr waited;
        }
      ]

  -- Where a process can always be looked up, as on Unix, and PIDs are given: every PID is sent
  -- SIGTERM; then, and only then, the grace period is waited for once; SIGKILL goes only to PIDs of
  -- the decision, each directly after a probe of the process was answered, and to none if the
  -- wait was cut short. The result is the error of the wait.
  pub execute_terminate-Terminates :
      (cfg : Config) (d : Decision) (t : Trace)
      → ((u : Trace) (q : ℤ) → env.find_result u q ≡ none)
      → d.pids ≢ []
      → let run = execute_terminate env cfg d t in Terminates cfg.grace_period d.pids t run.1 run.0
  unfolding execute_terminate
  execute_terminate-Terminates cfg d t finds some_pid = go d.pids some_pid
    where
      go :
          (pids : List ℤ)
          → pids ≢ []
          → let run = terminate_all env cfg.grace_period pids t in
            Terminates cfg.grace_period pids t run.1 run.0
      go [] none_given = absurd (none_given refl)
      go (pid ∷ pids) given = terminate_all-Terminates cfg.grace_period pid pids t finds
