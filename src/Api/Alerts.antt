-- ===== src/Api/Alerts.antt =====
-- The alerts of the server (internal/api/server.go).
use workloadguard.Base.{
  ℕ, nat_eq, ◌≤◌, ◌+◌, ◌-◌, zero, suc, String, List, [], ◌∷◌, ◌++◌, length, drop, leb,
  length-append, length-drop, if_intro, if◌then◌else◌, not, ◌==◌, string_eq, map, ap, ◌∙◌, arith,
  ◌≡◌, refl, sym, ◌<◌, Bool-cases, inl, inr,
}
use mathlib.Core.List.{append_assoc, append-nil}
use workloadguard.Base.Filter.{length-filter_by-le}
use workloadguard.Base.Dict.{keys}
use workloadguard.Api.{
  Server, Message, Wire, Alert, new_server, write_to_all, broadcast, keep_alert, add_alert,
  alert_message, clear_alerts, register_client, unregister_client,
}

-- The calls that change the server.
pub data Call : Type 0 where
  adds : Alert → Call
  clears : String → Call
  registers unregisters : ℕ → Call

keep_alert-le :
    (a : Alert) (alerts : List Alert) → length alerts ≤ 100 → length (keep_alert a alerts) ≤ 100
unfolding keep_alert
keep_alert-le a alerts h =
    rw (length-append (if leb 100 (length alerts) then drop 1 alerts else alerts) (a ∷ [])) (
      if_intro (λ l. length l + 1 ≤ 100) (leb 100 (length alerts)) (drop 1 alerts) alerts
        (λ full. omega (arith, h, length-drop 1 alerts)) (λ room. ground (arith, h, room)))

-- the last 100 of a list
abbrev pub latest : List Alert → List Alert
latest xs = drop (length xs - 100) xs

module _ {ℓ} {A : Type ℓ} where
  drop-append : (n : ℕ) (xs ys : List A) → n ≤ length xs → drop n (xs ++ ys) ≡ drop n xs ++ ys
  drop-append zero xs ys h = refl
  drop-append (suc n) [] ys h = absurd (omega (arith, h))
  drop-append (suc n) (x ∷ xs) ys h = drop-append n xs ys (omega (arith, h))

  drop-drop : (n : ℕ) (xs : List A) → drop 1 (drop n xs) ≡ drop (suc n) xs
  drop-drop zero xs = refl
  drop-drop (suc n) [] = refl
  drop-drop (suc n) (x ∷ xs) = drop-drop n xs

-- one more element at the end
latest-snoc_full :
    (a : Alert) (xs : List Alert)
    → 100 ≤ length xs
    → drop 1 (latest xs) ++ a ∷ [] ≡ latest (xs ++ a ∷ [])
latest-snoc_full a xs h =
    let more : length (xs ++ a ∷ []) - 100 ≡ suc (length xs - 100) =
      omega (arith, h, length-append xs (a ∷ [])) in
    rw (drop-drop (length xs - 100) xs, more)
      (sym (drop-append (suc (length xs - 100)) xs (a ∷ []) (omega (arith, h))))

latest-snoc_room :
    (a : Alert) (xs : List Alert) → length xs < 100 → latest xs ++ a ∷ [] ≡ latest (xs ++ a ∷ [])
latest-snoc_room a xs h =
    let none : length xs - 100 ≡ 0 = omega (arith, h) in
    let still : length (xs ++ a ∷ []) - 100 ≡ 0 = omega (arith, h, length-append xs (a ∷ [])) in
    rw (none, still) refl

keep_alert-latest : (a : Alert) (xs : List Alert) → keep_alert a (latest xs) ≡ latest (xs ++ a ∷ [])
unfolding keep_alert
keep_alert-latest a xs =
    let size : length (latest xs) ≡ length xs - (length xs - 100) =
      length-drop (length xs - 100) xs in
    elim (Bool-cases (leb 100 (length (latest xs)))) [
      | inl full ↦ rw full (latest-snoc_full a xs (ground (arith, size, full)))
      | inr room ↦ rw room (latest-snoc_room a xs (ground (arith, size, room)))
    ]

module _ (wire : Wire) where
  abbrev pub called : Call → Server → Server
  called (adds a) v = add_alert wire a v
  called (clears name) v = clear_alerts name v
  called (registers conn) v = register_client conn v
  called (unregisters conn) v = unregister_client conn v

  abbrev pub calls : List Call → Server → Server
  calls [] v = v
  calls (c ∷ cs) v = calls cs (called c v)

  write_to_all-alerts :
      (m : Message) (clients : List ℕ) (v : Server)
      → (write_to_all wire m clients v).alerts ≡ v.alerts
  unfolding write_to_all
  write_to_all-alerts m [] v = refl
  write_to_all-alerts m (client ∷ clients) v = write_to_all-alerts m clients _

  broadcast-alerts : (m : Message) (v : Server) → (broadcast wire m v).alerts ≡ v.alerts
  unfolding broadcast
  broadcast-alerts m v = ground (arith, write_to_all-alerts m (keys v.clients) v)

  called-le : (c : Call) (v : Server) → length v.alerts ≤ 100 → length (called c v).alerts ≤ 100
  unfolding add_alert clear_alerts register_client unregister_client
  called-le (adds a) v h =
      rw (broadcast-alerts (alert_message a) (record v { alerts = keep_alert a v.alerts }))
        (keep_alert-le a v.alerts h)
  called-le (clears name) v h =
      omega (arith, length-filter_by-le (λ a. not (a.policy_name == name)) v.alerts, h)
  called-le (registers conn) v h = h
  called-le (unregisters conn) v h = h

  -- Whatever calls are made of the server, it holds at most 100 alerts.
  pub calls-le : (cs : List Call) → length (calls cs new_server).alerts ≤ 100
  calls-le cs = go cs new_server (omega arith)
    where
      go : (ds : List Call) (v : Server) → length v.alerts ≤ 100 → length (calls ds v).alerts ≤ 100
      go [] v h = h
      go (c ∷ ds) v h = go ds (called c v) (called-le c v h)

  add_all :
      (new xs : List Alert) (v : Server)
      → v.alerts ≡ latest xs
      → (calls (map adds new) v).alerts ≡ latest (xs ++ new)
  unfolding add_alert
  add_all [] xs v h = rw (append-nil xs) h
  add_all (a ∷ new) xs v h = rw (← append_assoc xs (a ∷ []) new) (
      add_all new (xs ++ a ∷ []) (add_alert wire a v) (
        broadcast-alerts (alert_message a) (record v { alerts = keep_alert a v.alerts })
        ∙ ap (keep_alert a) h
        ∙ keep_alert-latest a xs))

  -- The alerts added to a new server are kept in order, without those before the last 100.
  pub calls-adds : (new : List Alert) → (calls (map adds new) new_server).alerts ≡ latest new
  calls-adds new = add_all new [] new_server refl
