-- ===== src/App/Serving/Schedule/Settled.antt =====
-- What `Run` of internal/app/app.go leaves, as one function, however it ends.
use workloadguard.Base.{
  Bool, true, false, String, List, [], ◌∷◌, ok, err, ◌≡◌, ◌⊎◌, inl, inr, refl, sym, subst, All,
  if_intro, arith,
}
use workloadguard.Float.{Floats, fle}
use workloadguard.Collector.{Readings, Task}
use workloadguard.Collector.Index.{IsIndexed}
use workloadguard.System.{Env}
use workloadguard.Policy.Cedar.{Cedar}
use workloadguard.Daemon.{State, Daemon, Tick, periodic, load_poll}
use workloadguard.Api.{Wire, Server, new_server}
use workloadguard.App.{RunOptions, set_up}
use workloadguard.App.Serving.{
  Phase, starting, waiting, handling, Running, serves_api, begin_check, woken, ticking, Reach,
}
use workloadguard.App.Serving.Invariant.{IsSound, Scheduled, serving-IsSound}
use workloadguard.App.Serving.Refinement.{AppRefines, serving-AppRefines}
use workloadguard.App.Serving.Schedule.{
  Ended, panicked, stopped, Happening, wakes_loop, goes_on, at_server, Schedule, happen, play,
  serve_all, settle, startup_check, loop, run_loop, after_set_up, run_app,
}
use workloadguard.App.Serving.Schedule.Reached.{
  HappeningMeets, serve_all-Reach, serve_all-stays, loop-Reach,
}

abbrev has_begun : Phase → Bool
has_begun starting = false
has_begun waiting = true
has_begun (handling start snapshot es) = true

module _ (fl : Floats) (cedar : Cedar) (env : Env) (d : Daemon fl cedar env) where
  abbrev Begun : Phase × State → Type 0
  Begun ps = has_begun ps.0 ≡ true

  begin_check-Begun :
      (trigger : String) (r : Readings) (order : List Task) (s : State)
      → Begun (begin_check fl cedar env d trigger r order s)
  unfolding begin_check
  begin_check-Begun trigger r order s = if_intro Begun s.checking _ _ (λ busy. refl) (λ free. refl)

  woken-Begun : (t : Tick fl cedar env) (s : State) → Begun (woken fl cedar env d t s)
  unfolding woken
  woken-Begun (periodic r order) s = begin_check-Begun "periodic" r order s
  woken-Begun (load_poll (err e) r order) s = refl
  woken-Begun (load_poll (ok load) r order) s =
      if_intro Begun (fle d.config.load_threshold load.load1) _ _
        (λ high. begin_check-Begun "load-triggered" r order s) (λ low. refl)

  module _ (wire : Wire) (served : Bool) where
    happen-Begun :
        (h : Happening fl cedar env) (a : Running)
        → has_begun a.0 ≡ true
        → has_begun (happen fl cedar env d wire served h a).0 ≡ true
    unfolding happen
    happen-Begun (wakes_loop t) (starting, sv) k = k
    happen-Begun (wakes_loop t) (handling start snapshot es, sv) k = k
    happen-Begun (wakes_loop t) (waiting, (s, v)) k =
        if_intro (λ (b : Running). has_begun b.0 ≡ true) (ticking fl cedar env d) _ _
          (λ on. woken-Begun t s) (λ off. k)
    happen-Begun goes_on (starting, sv) k = k
    happen-Begun goes_on (waiting, sv) k = k
    happen-Begun goes_on (handling start snapshot (e ∷ es), (s, v)) k = k
    happen-Begun goes_on (handling start snapshot [], (s, v)) k = refl
    happen-Begun (at_server e) (p, sv) k =
        if_intro (λ (b : Running). has_begun b.0 ≡ true) served _ _ (λ on. k) (λ off. k)

    play-Begun :
        (hs : List (Happening fl cedar env)) (a : Running)
        → has_begun a.0 ≡ true
        → has_begun (play fl cedar env d wire served hs a).0 ≡ true
    unfolding play
    play-Begun [] a k = k
    play-Begun (h ∷ hs) a k =
        play-Begun hs (happen fl cedar env d wire served h a) (happen-Begun h a k)

    settle-waiting :
        (a : Running) → has_begun a.0 ≡ true → (settle fl cedar env d wire served a).0 ≡ waiting
    unfolding settle
    settle-waiting (starting, sv) k = ground (arith, k)
    settle-waiting (waiting, sv) k = refl
    settle-waiting (handling start snapshot es, sv) k = refl

    loop-waiting :
        (sch : Schedule fl cedar env) (s : State)
        → (loop fl cedar env d wire served sch s).0 ≡ waiting
    unfolding loop
    loop-waiting sch s =
        let a = serve_all fl cedar env d wire served sch.early (starting, (s, new_server)) in
        settle-waiting _ (
          play-Begun sch.happenings
            (startup_check fl cedar env d wire served sch.readings sch.order a)
            (begin_check-Begun "startup" sch.readings sch.order a.1.0))

module _ (fl : Floats) (cedar : Cedar) (env : Env) where
  -- The end of a run from `s`: by the context where both tickers can be made, else by the panic;
  -- between checks; with moves of the application behind it.
  abbrev pub Settles : Daemon fl cedar env → State → Ended → Type 0
  Settles d s end =
      (sv : State × Server) × (((ticking fl cedar env d ≡ true) × (end ≡ stopped sv))
        ⊎ ((ticking fl cedar env d ≡ false) × (end ≡ panicked sv)))
      × IsSound fl cedar env d IsIndexed (waiting, sv)
      × AppRefines fl cedar env d (Scheduled fl cedar env) s sv.0

  module _ (o : RunOptions) (d : Daemon fl cedar env) (s : State) (patterns : List String)
      (wire : Wire) (up : set_up fl cedar env o ≡ ok (d, s, patterns)) where
    abbrev Comes : Running → Type 0
    Comes = Reach fl cedar env d wire (serves_api o) (Scheduled fl cedar env) s

    settled :
        (a : Running)
        → a.0 ≡ waiting
        → Comes a
        → IsSound fl cedar env d IsIndexed (waiting, a.1)
          × AppRefines fl cedar env d (Scheduled fl cedar env) s a.1.0
    settled a rests reach = (
      subst (λ p. IsSound fl cedar env d IsIndexed (p, a.1)) rests
          (serving-IsSound fl cedar env o d s patterns wire up reach),
      serving-AppRefines fl cedar env o d s patterns wire (Scheduled fl cedar env) up reach,
    )

    run_loop-Settles :
        (sch : Schedule fl cedar env)
        → Comes (loop fl cedar env d wire (serves_api o) sch s)
        → Settles d s (run_loop fl cedar env d wire (serves_api o) sch s)
    unfolding run_loop
    run_loop-Settles sch reach =
        let a = loop fl cedar env d wire (serves_api o) sch s in
        let b = serve_all fl cedar env d wire (serves_api o) sch.late a in
        let rests = loop-waiting fl cedar env d wire (serves_api o) sch s in
        let (sound, moves) =
          settled b
            (serve_all-stays fl cedar env d wire (serves_api o) (Scheduled fl cedar env) s waiting
              sch.late a rests)
            (serve_all-Reach fl cedar env d wire (serves_api o) (Scheduled fl cedar env) s sch.late
              a reach) in
        if_intro (Settles d s) (ticking fl cedar env d) _ _
          (λ on. (b.1, inl (on, refl), sound, moves)) (λ off. (b.1, inr (off, refl), sound, moves))

  -- Once set up, `Run` ends by the context where both intervals are positive, else by a panic. For
  -- any schedule of ticks, requests and sockets, whose collections run their tasks once each, in any
  -- order, the end finds the check's lock free, with a snapshot published whose index is right,
  -- beside its evaluation; and the run up to there is a sequence of the application's moves.
  pub run_app-Settles :
      (o : RunOptions) (d : Daemon fl cedar env) (s : State) (patterns : List String) (wire : Wire)
      (sch : Schedule fl cedar env)
      → set_up fl cedar env o ≡ ok (d, s, patterns)
      → Scheduled fl cedar env sch.readings sch.order
      → All
          (HappeningMeets fl cedar env d wire (serves_api o) (Scheduled fl cedar env) s)
          sch.happenings
      → Settles d s (run_app fl cedar env wire o sch)
  unfolding run_app
  run_app-Settles o d s patterns wire sch up once all_once =
      subst (λ n. Settles d s (after_set_up fl cedar env wire (serves_api o) sch n)) (sym up)
        (run_loop-Settles o d s patterns wire up sch (
          loop-Reach fl cedar env d wire (serves_api o) (Scheduled fl cedar env) s sch once
            all_once))
