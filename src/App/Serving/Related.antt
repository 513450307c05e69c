-- ===== src/App/Serving/Related.antt =====
-- From the steps of a run with the API to its moments (internal/app, internal/api, internal/daemon),
-- for any relation between the daemon's states that is transitive and holds where nothing is acted
-- on.
use mathlib.Core.List.{Memᴰ}
use workloadguard.Base.{
  ℤ, Bool, true, String, List, ◌∷◌, some, ok, err, ◌≡◌, refl, sym, subst, ◌∙◌, if_intro, arith,
}
use workloadguard.Base.Members.{Memᴰ-append_right}
use workloadguard.Float.{Floats, fle}
use workloadguard.Collector.{Snapshot, Readings, Task, collect}
use workloadguard.System.{Env}
use workloadguard.System.Emits.{Adds-refl}
use workloadguard.Policy.Cedar.{Cedar}
use workloadguard.Policy.Engine.{Decision, evaluate}
use workloadguard.Policy.Executor.Signals.{IsQuiet}
use workloadguard.Daemon.{State, Daemon, Tick, periodic, load_poll, handle_decision}
use workloadguard.Daemon.Watching.{
  IsCoarse, Watches-refl, Watches-trans, publish-Watches, record_duration-Watches,
}
use workloadguard.Daemon.Provider.{daemon_provider, daemon_clock}
use workloadguard.Api.{Server, Wire}
use workloadguard.Api.Routing.{ApiEvent, api_event}
use workloadguard.App.{RunOptions, set_up}
use workloadguard.App.Serving.{
  Phase, starting, waiting, handling, Running, begin_check, woken, end_of_check, Step, starts,
  wakes, decides, finishes, answers, Reach, begun, later, After, at_once, then,
}
use workloadguard.App.Serving.Invariant.{IsSound, Reach-IsSound}

some_injective : {x y : Snapshot} → some x ≡ some y → x ≡ y
some_injective h = cc h

module _ (fl : Floats) (cedar : Cedar) (env : Env) (d : Daemon fl cedar env)
    (R : State → State → Type 0) (coarse : IsCoarse R) where
  begin_check-Related :
      (trigger : String) (r : Readings) (order : List Task) (s : State)
      → R s (begin_check fl cedar env d trigger r order s).1
  unfolding begin_check
  begin_check-Related trigger r order s =
      if_intro (λ (ps : Phase × State). R s ps.1) s.checking _ _
        (λ busy. coarse.watch s s (Watches-refl s))
        (λ free. coarse.watch s _ (
          Watches-trans {t = record s { checking = true }}
            (record { quiet = Adds-refl IsQuiet s.trace; triggers = refl })
            (publish-Watches fl cedar env d trigger r order (record s { checking = true }))))

  woken-Related : (t : Tick fl cedar env) (s : State) → R s (woken fl cedar env d t s).1
  unfolding woken
  woken-Related (periodic r order) s = begin_check-Related "periodic" r order s
  woken-Related (load_poll (err e) r order) s = coarse.watch s s (Watches-refl s)
  woken-Related (load_poll (ok load) r order) s =
      if_intro (λ (ps : Phase × State). R s ps.1) (fle d.config.load_threshold load.load1) _ _
        (λ high. begin_check-Related "load-triggered" r order s)
        (λ low. coarse.watch s s (Watches-refl s))

  end_of_check-Related : (start : ℤ) (s : State) → R s (end_of_check fl cedar env d start s)
  unfolding end_of_check
  end_of_check-Related start s =
      let w = record_duration-Watches fl cedar env start s in
      coarse.watch s _ (record { quiet = w.quiet; triggers = w.triggers })

  -- A relation that the handling of a decision on a good snapshot is in, and the server's events on
  -- one, holds from the first state of a run to every other.
  module _ (Good : Snapshot → Type 0) (wire : Wire)
      (handled : (snapshot : Snapshot) (e : Decision) (s : State)
        → Good snapshot
        → Memᴰ e (evaluate fl cedar d.engine snapshot)
        → R s (handle_decision fl cedar env d snapshot e s))
      (answered : (e : ApiEvent) (s : State) (v : Server)
        → ((snapshot : Snapshot) → s.latest_snapshot ≡ some snapshot → Good snapshot)
        → R s (api_event (daemon_provider fl cedar env d) (daemon_clock env) wire e (s, v)).0)
      (served : Bool) (Meets : Readings → List Task → Type 0) where
    latest-Good :
        (p : Phase) (s : State) (v : Server)
        → IsSound fl cedar env d Good (p, (s, v))
        → (snapshot : Snapshot) → s.latest_snapshot ≡ some snapshot
        → Good snapshot
    latest-Good starting s v (free, none_yet, empty) snapshot e = ground (arith, none_yet, e)
    latest-Good waiting s v (free, (found, h)) snapshot e =
        subst Good (some_injective (sym h.latest ∙ e)) h.good
    latest-Good (handling start found es) s v (busy, h, rest) snapshot e =
        subst Good (some_injective (sym h.latest ∙ e)) h.good

    Step-Related :
        (a b : Running)
        → Step fl cedar env d wire served Meets a b
        → IsSound fl cedar env d Good a
        → R a.1.0 b.1.0
    Step-Related _ _ (starts r order s v h) k = begin_check-Related "startup" r order s
    Step-Related _ _ (wakes t s v on h) k = woken-Related t s
    Step-Related _ _ (decides start snapshot e es s v) (busy, h, (done, rest)) =
        handled snapshot e s h.good (
          subst (Memᴰ e) (sym rest ∙ h.decisions)
            (Memᴰ-append_right done (e ∷ es) (Memᴰ.head refl)))
    Step-Related _ _ (finishes start snapshot s v) k = end_of_check-Related start s
    Step-Related _ _ (answers e p s v on) k = answered e s v (latest-Good p s v k)

    pub Reach-Related :
        (sound : (time : ℤ) (r : Readings) (order : List Task)
          → Meets r order
          → Good (collect time r order).0)
        (o : RunOptions) (s : State) (patterns : List String) {a : Running}
        → set_up fl cedar env o ≡ ok (d, s, patterns)
        → Reach fl cedar env d wire served Meets s a
        → R s a.1.0
    Reach-Related sound o s patterns up begun = coarse.watch s s (Watches-refl s)
    Reach-Related sound o s patterns up (later {a} {b} reach step) =
        coarse.join s a.1.0 b.1.0 (Reach-Related sound o s patterns up reach) (
          Step-Related a b step
            (Reach-IsSound fl cedar env d Good wire served Meets sound o s patterns up reach))

    -- The same from any moment of a run to any later one.
    pub After-Related :
        (sound : (time : ℤ) (r : Readings) (order : List Task)
          → Meets r order
          → Good (collect time r order).0)
        (o : RunOptions) (s : State) (patterns : List String) {a b : Running}
        → set_up fl cedar env o ≡ ok (d, s, patterns)
        → Reach fl cedar env d wire served Meets s a
        → After fl cedar env d wire served Meets a b
        → R a.1.0 b.1.0
    After-Related sound o s patterns {a} up reach between = go between
      where
        come :
            {b : Running}
            → After fl cedar env d wire served Meets a b
            → Reach fl cedar env d wire served Meets s b
        come at_once = reach
        come (then before step) = later (come before) step

        go : {b : Running} → After fl cedar env d wire served Meets a b → R a.1.0 b.1.0
        go at_once = coarse.watch a.1.0 a.1.0 (Watches-refl a.1.0)
        go (then {b} {c} before step) = coarse.join a.1.0 b.1.0 c.1.0 (go before) (
            Step-Related b c step (
              Reach-IsSound fl cedar env d Good wire served Meets sound o s patterns up
                (come before)))
