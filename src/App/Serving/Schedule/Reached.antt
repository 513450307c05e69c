-- ===== src/App/Serving/Schedule/Reached.antt =====
-- What a schedule comes to is what the steps of a run can come to (internal/app/app.go,
-- internal/daemon/daemon.go).
use workloadguard.Base.{
  Bool, true, false, String, List, [], ◌∷◌, ◌≡◌, refl, sym, subst, ◌∙◌, All, if_intro,
  if◌then◌else◌,
}
use workloadguard.Float.{Floats}
use workloadguard.Collector.{Readings, Task}
use workloadguard.System.{Env}
use workloadguard.Policy.Cedar.{Cedar}
use workloadguard.Daemon.{State, Daemon, handle_decisions, checked, run_check}
use workloadguard.Api.{Wire, Server, new_server}
use workloadguard.Api.Routing.{ApiEvent}
use workloadguard.App.Serving.{
  Phase, starting, waiting, handling, Running, begin_check, end_of_check, ticking, with_server,
  TickMeets, starts, wakes, decides, finishes, answers, Reach, begun, later,
}
use workloadguard.App.Serving.Schedule.{
  Happening, wakes_loop, goes_on, at_server, Schedule, happen, play, serve_all, settle,
  startup_check, loop,
}

if_ap {ℓ κ} :
    {A : Type ℓ} {B : Type κ} (f : A → B) (b : Bool) (x y : A)
    → f (if b then x else y) ≡ (if b then f x else f y)
if_ap f true x y = refl
if_ap f false x y = refl

module _ (fl : Floats) (cedar : Cedar) (env : Env) (d : Daemon fl cedar env) (wire : Wire)
    (served : Bool) (Meets : Readings → List Task → Type 0) (s₀ : State) where
  abbrev Comes : Running → Type 0
  Comes = Reach fl cedar env d wire served Meets s₀

  abbrev pub HappeningMeets : Happening fl cedar env → Type 0
  HappeningMeets (wakes_loop t) = TickMeets fl cedar env d wire served Meets t
  HappeningMeets goes_on = Unit
  HappeningMeets (at_server e) = Unit

  happen-Reach :
      (h : Happening fl cedar env) (a : Running)
      → HappeningMeets h
      → Comes a
      → Comes (happen fl cedar env d wire served h a)
  unfolding happen
  happen-Reach (wakes_loop t) (starting, sv) m k = k
  happen-Reach (wakes_loop t) (handling start snapshot es, sv) m k = k
  happen-Reach (wakes_loop t) (waiting, (s, v)) m k =
      if_intro Comes (ticking fl cedar env d) _ _ (λ on. later k (wakes t s v on m)) (λ off. k)
  happen-Reach goes_on (starting, sv) m k = k
  happen-Reach goes_on (waiting, sv) m k = k
  happen-Reach goes_on (handling start snapshot (e ∷ es), (s, v)) m k =
      later k (decides start snapshot e es s v)
  happen-Reach goes_on (handling start snapshot [], (s, v)) m k =
      later k (finishes start snapshot s v)
  happen-Reach (at_server e) (p, (s, v)) m k =
      if_intro Comes served _ _ (λ on. later k (answers e p s v on)) (λ off. k)

  pub play-Reach :
      (hs : List (Happening fl cedar env)) (a : Running)
      → All HappeningMeets hs
      → Comes a
      → Comes (play fl cedar env d wire served hs a)
  unfolding play
  play-Reach [] a ms k = k
  play-Reach (h ∷ hs) a (m, ms) k =
      play-Reach hs (happen fl cedar env d wire served h a) ms (happen-Reach h a m k)

  pub serve_all-Reach :
      (es : List ApiEvent) (a : Running)
      → Comes a
      → Comes (serve_all fl cedar env d wire served es a)
  unfolding serve_all
  serve_all-Reach [] a k = k
  serve_all-Reach (e ∷ es) a k =
      serve_all-Reach es (happen fl cedar env d wire served (at_server e) a)
        (happen-Reach (at_server e) a tt k)

  pub settle-Reach : (a : Running) → Comes a → Comes (settle fl cedar env d wire served a)
  unfolding settle handle_decisions
  settle-Reach (starting, sv) k = k
  settle-Reach (waiting, sv) k = k
  settle-Reach (handling start snapshot [], (s, v)) k = later k (finishes start snapshot s v)
  settle-Reach (handling start snapshot (e ∷ es), (s, v)) k =
      settle-Reach (handling start snapshot es, _) (later k (decides start snapshot e es s v))

  -- What happens at the server leaves the loop where it is.
  pub serve_all-stays :
      (p : Phase) (es : List ApiEvent) (a : Running)
      → a.0 ≡ p
      → (serve_all fl cedar env d wire served es a).0 ≡ p
  unfolding serve_all happen
  serve_all-stays p [] a h = h
  serve_all-stays p (e ∷ es) (q, sv) h =
      serve_all-stays p es (happen fl cedar env d wire served (at_server e) (q, sv))
        (if_intro (λ (b : Running). b.0 ≡ p) served _ _ (λ on. h) (λ off. h))

  startup_check-Reach :
      (r : Readings) (order : List Task) (a : Running)
      → a.0 ≡ starting
      → Meets r order
      → Comes a
      → Comes (startup_check fl cedar env d wire served r order a)
  startup_check-Reach r order (p, (s, v)) h m k =
      later (subst (λ q. Comes (q, (s, v))) h k) (starts r order s v m)

  pub loop-Reach :
      (sch : Schedule fl cedar env)
      → Meets sch.readings sch.order
      → All HappeningMeets sch.happenings
      → Comes (loop fl cedar env d wire served sch s₀)
  unfolding loop
  loop-Reach sch m ms =
      let a = serve_all fl cedar env d wire served sch.early (starting, (s₀, new_server)) in
      settle-Reach _ (
        play-Reach sch.happenings _ ms (
          startup_check-Reach sch.readings sch.order a
            (serve_all-stays starting sch.early (starting, (s₀, new_server)) refl) m
            (serve_all-Reach sch.early (starting, (s₀, new_server)) begun)))

module _ (fl : Floats) (cedar : Cedar) (env : Env) (d : Daemon fl cedar env) (wire : Wire)
    (served : Bool) where
  -- A check that goes on undisturbed is the daemon's `runCheck`.
  pub settle-run_check :
      (trigger : String) (r : Readings) (order : List Task) (s : State) (v : Server)
      → settle fl cedar env d wire served
          (with_server fl cedar env d v (begin_check fl cedar env d trigger r order s))
        ≡ (waiting, (run_check fl cedar env d trigger r order s, v))
  unfolding settle begin_check run_check checked end_of_check
  settle-run_check trigger r order s v =
      if_ap
        (λ (ps : Phase × State).
          settle fl cedar env d wire served (with_server fl cedar env d v ps))
        s.checking _ _
      ∙ sym (if_ap (λ (u : State). (waiting, (u, v))) s.checking _ _)
