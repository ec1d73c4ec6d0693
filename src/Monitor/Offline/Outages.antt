-- ===== src/Monitor/Offline/Outages.antt =====
-- Who is told of an outage: the alerts after a run of `runOfflineCheck`.
use mathlib.Core.Path.{subst, sym, ap}
use go_digi.Prelude.{
  All-map, ℕ, ◌≡◌, ◌≢◌, refl, ◌∙◌, find, All-pair, true, false, none, some, List, [], ◌∷◌, All,
  Pairwise, any, arith, ==_iff, ◌==◌, Option-cases, Bool-cases, inl, inr, select, update_where,
  All-update_where,
}
use go_digi.Prelude.Int.{ℤ}
use go_digi.Prelude.Text.{like_after, any_tail-append, like}
use go_digi.Http.{Exit, next, continue}
use go_digi.Monitor.{Alert, Asset, MonitorDb, Services, for_each, for_each-keeps, send_alert-keeps}
use go_digi.Monitor.Loops.{
  for_each-does, for_each-next, for_each-keeps_all, any-append, any-last, any-update_where,
  All-select, send_alert-next,
}
use go_digi.Monitor.Offline.{
  is_network, is_silent, switched_off, outage_title, is_outage, outage_alert, alert_outage,
  report_incident, report_outage, recover, is_open, is_back, offline_check, run_offline_check,
  threshold_min, off,
}

like-outage : (a : Asset) → like "%중단%" (outage_title a) ≡ true
unfolding like like_after
like-outage a = elim (Bool-cases (is_network a.type)) [
  | inl e ↦ rw e (any_tail-append (like_after false "중단%") a.name " — 네트워크 장비 중단" refl)
  | inr e ↦ rw e (any_tail-append (like_after false "중단%") a.name " — 서버 중단" refl)
]

abbrev pub Unlike : Asset → Asset → Type 0
Unlike a b = a.id ≢ b.id

abbrev pub HasOutage : Asset → MonitorDb → Type 0
HasOutage a db = any (is_outage a.id) db.alerts ≡ true

module _ (services : Services) (now : ℕ) where
  alert_outage-keeps :
      (a b : Asset) (db : MonitorDb)
      → HasOutage a db
      → HasOutage a (alert_outage services now b db).1
  unfolding alert_outage
  alert_outage-keeps a b db h = elim (Bool-cases (any (is_outage b.id) db.alerts)) [
    | inl e ↦ rw e h
    | inr e ↦ rw e (
        send_alert-keeps services (HasOutage a) (λ s ns k. k) db.next_alert (outage_title b) _ none
          _ (any-append (is_outage a.id) db.alerts _ h))
  ]

  alert_outage-next : (a : Asset) (db : MonitorDb) → (alert_outage services now a db).0 ≡ next tt
  unfolding alert_outage
  alert_outage-next a db = elim (Bool-cases (any (is_outage a.id) db.alerts)) [
    | inl e ↦ rw e refl
    | inr e ↦ rw e (send_alert-next services db.next_alert (outage_title a) _ none _)
  ]

  alert_outage-HasOutage :
      (a : Asset) (db : MonitorDb) → HasOutage a (alert_outage services now a db).1
  unfolding alert_outage
  alert_outage-HasOutage a db = elim (Bool-cases (any (is_outage a.id) db.alerts)) [
    | inl e ↦ rw e e
    | inr e ↦ rw e (
        send_alert-keeps services (HasOutage a) (λ s ns k. k) db.next_alert (outage_title a) _ none
          _
          (any-last (is_outage a.id) db.alerts (outage_alert db.next_alert now a)
            (ground (arith, like-outage a, ==_iff a.id a.id))))
  ]

  report_incident-alerts :
      (minutes : ℤ) (a : Asset) (db : MonitorDb)
      → ((report_incident now minutes a db).1.alerts ≡ db.alerts)
        × ((report_incident now minutes a db).0 ≡ next tt)
  unfolding report_incident
  report_incident-alerts minutes a db = (ground arith, ground arith)

  report_incident-assets :
      (minutes : ℤ) (a : Asset) (db : MonitorDb)
      → (report_incident now minutes a db).1.assets ≡ db.assets
  unfolding report_incident
  report_incident-assets minutes a db = ground arith

  alert_outage-assets :
      (a : Asset) (db : MonitorDb) → (alert_outage services now a db).1.assets ≡ db.assets
  unfolding alert_outage
  alert_outage-assets a db = elim (Bool-cases (any (is_outage a.id) db.alerts)) [
    | inl e ↦ rw e refl
    | inr e ↦ rw e (
        send_alert-keeps services (λ s. s.assets ≡ db.assets) (λ s ns k. k) db.next_alert
          (outage_title a) _ none _ refl)
  ]

  pub report_outage-eq :
      (minutes : ℤ) (a : Asset) (db : MonitorDb)
      → report_outage services now minutes a db
        ≡ report_incident now minutes a (alert_outage services now a db).1
  unfolding report_outage
  report_outage-eq minutes a db =
      ap
        (λ (e : Exit Unit Unit).
          continue e (λ _. report_incident now minutes a) (alert_outage services now a db).1)
        (alert_outage-next a db)

  -- a round of the first loop: it runs to its end and leaves the assets alone
  report_outage-next :
      (minutes : ℤ) (a : Asset) (db : MonitorDb)
      → (report_outage services now minutes a db).0 ≡ next tt
  report_outage-next minutes a db =
      ap (λ r. r.0) (report_outage-eq minutes a db)
      ∙ (report_incident-alerts minutes a (alert_outage services now a db).1).1

  report_outage-HasOutage :
      (minutes : ℤ) (a : Asset) (db : MonitorDb)
      → HasOutage a (report_outage services now minutes a db).1
  report_outage-HasOutage minutes a db =
      let told = (alert_outage services now a db).1 in
      subst (λ r. HasOutage a r.1) (sym (report_outage-eq minutes a db))
        (subst (λ alerts. any (is_outage a.id) alerts ≡ true)
          (sym (report_incident-alerts minutes a told).0) (alert_outage-HasOutage a db))

  report_outage-keeps :
      (minutes : ℤ) (a b : Asset) (db : MonitorDb)
      → HasOutage a db
      → HasOutage a (report_outage services now minutes b db).1
  report_outage-keeps minutes a b db h =
      let told = (alert_outage services now b db).1 in
      subst (λ r. HasOutage a r.1) (sym (report_outage-eq minutes b db))
        (subst (λ alerts. any (is_outage a.id) alerts ≡ true)
          (sym (report_incident-alerts minutes b told).0) (alert_outage-keeps a b db h))

  report_outage-assets :
      (minutes : ℤ) (a : Asset) (db : MonitorDb)
      → (report_outage services now minutes a db).1.assets ≡ db.assets
  report_outage-assets minutes a db =
      ap (λ r. r.1.assets) (report_outage-eq minutes a db)
      ∙ report_incident-assets minutes a (alert_outage services now a db).1
      ∙ alert_outage-assets a db

-- a round of the second loop, for another asset
is_outage-Unlike :
    (a b : Asset) (x : Alert) → Unlike b a → is_outage a.id x ≡ true → is_outage b.id x ≡ false
is_outage-Unlike a b x apart h = elim (Option-cases x.asset_id) [
  | inl e ↦ ground (arith, e)
  | inr (m, e) ↦ elim (Bool-cases (m == a.id)) [
    | inl k ↦ elim (Bool-cases (m == b.id)) [
      | inl l ↦ absurd (apart (sym ((==_iff m b.id).0 l) ∙ (==_iff m a.id).0 k))
      | inr l ↦ ground (arith, e, l)
    ]
    | inr k ↦ absurd (ground (arith, e, k))
  ]
]

recover-HasOutage :
    (now : ℕ) (a b : Asset) (db : MonitorDb)
    → Unlike b a
    → HasOutage a db
    → HasOutage a (recover now b db).1
unfolding recover
recover-HasOutage now a b db apart h =
    let kept =
      any-update_where (is_outage a.id) (is_outage b.id) (off now) db.alerts
        (λ x. is_outage-Unlike a b x apart) h in
    elim (Option-cases (find (is_open b.id) db.incidents)) [
      | inl e ↦ rw e kept
      | inr (i, e) ↦ rw e kept
    ]

-- No device that fell silent is among those that are online afterwards.
module _ (now : ℕ) (minutes : ℤ) where
  abbrev pub after_off : List Asset → List Asset
  after_off assets = update_where (is_silent now minutes) switched_off assets

  apart-back :
      (x : Asset) (assets : List Asset)
      → All (λ (b : Asset). x.id ≢ b.id) assets
      → All (λ (b : Asset). Unlike b x) (select is_back (after_off assets))
  apart-back x assets h =
      All-select (λ b. Unlike b x) is_back (after_off assets)
        (All-update_where (λ b. Unlike b x) (is_silent now minutes) switched_off assets (λ b _ k. k)
          (All-map (λ b. x.id ≢ b.id) (λ b. Unlike b x) assets (λ b k e. k (sym e)) h))

  silent_apart :
      (assets : List Asset)
      → Pairwise Unlike assets
      → All
          (λ (a : Asset). All (λ (b : Asset). Unlike b a) (select is_back (after_off assets)))
          (select (is_silent now minutes) assets)
  silent_apart [] h = tt
  silent_apart (x ∷ assets) (h, hs) = elim (Bool-cases (is_silent now minutes x)) [
    | inl e ↦ rw e (apart-back x assets h, silent_apart assets hs)
    | inr e ↦ rw e (elim (Bool-cases (is_back x)) [
      | inl k ↦ rw k (
          All-pair (λ (a : Asset). Unlike x a) _ (select (is_silent now minutes) assets)
            (All-select (λ (a : Asset). Unlike x a) (is_silent now minutes) assets h)
            (silent_apart assets hs))
      | inr k ↦ rw k (silent_apart assets hs)
    ])
  ]

module _ (services : Services) (now : ℕ) (minutes : ℤ) (db : MonitorDb)
    (set : threshold_min db ≡ some minutes) where
  abbrev pub silent : List Asset
  silent = select (is_silent now minutes) db.assets

  -- after the UPDATE, and after the first loop
  abbrev pub marked : MonitorDb
  marked = record db { assets = after_off now minutes db.assets }

  abbrev pub reported : MonitorDb
  reported = (for_each (report_outage services now minutes) silent marked).1

  abbrev pub second_loop : Exit Unit Unit × MonitorDb
  second_loop = for_each (recover now) (select is_back reported.assets) reported

  pub first_loop-next : (for_each (report_outage services now minutes) silent marked).0 ≡ next tt
  first_loop-next = for_each-next _ silent marked (report_outage-next services now minutes)

  pub offline_check-loops : offline_check services now db ≡ second_loop
  unfolding offline_check
  offline_check-loops = ground (arith, set, first_loop-next)

  pub reported-assets : reported.assets ≡ marked.assets
  reported-assets =
      for_each-keeps (λ s. s.assets ≡ marked.assets) (report_outage services now minutes) silent
        marked (λ a s k. report_outage-assets services now minutes a s ∙ k) refl

  first_loop-HasOutage : All (λ (a : Asset). HasOutage a reported) silent
  first_loop-HasOutage =
      for_each-does (report_outage services now minutes) (λ s. Unit) HasOutage (λ _ _ _. tt)
        (λ a s _ _. report_outage-HasOutage services now minutes a s)
        (λ b a s. report_outage-keeps services now minutes a b s) silent marked tt first_loop-next

  second_loop-HasOutage :
      (a : Asset)
      → All (λ (b : Asset). Unlike b a) (select is_back marked.assets) × HasOutage a reported
      → HasOutage a second_loop.1
  second_loop-HasOutage a (apart, told) =
      for_each-keeps_all (HasOutage a) (λ b. Unlike b a) (recover now)
        (select is_back reported.assets) reported (λ b s. recover-HasOutage now a b s)
        (subst (λ assets. All (λ (b : Asset). Unlike b a) (select is_back assets))
          (sym reported-assets) apart)
        told

  -- With a threshold that is a number and assets whose ids differ, every watched asset that was
  -- online and not seen within the threshold has an active outage alert after the offline check.
  pub offline_check-HasOutage :
      Pairwise Unlike db.assets
      → All
          (λ (a : Asset). HasOutage a (run_offline_check services now db))
          (select (is_silent now minutes) db.assets)
  unfolding run_offline_check
  offline_check-HasOutage unique =
      subst (λ (r : Exit Unit Unit × MonitorDb). All (λ (a : Asset). HasOutage a r.1) silent)
        (sym offline_check-loops)
        (All-map _ (λ a. HasOutage a second_loop.1) silent second_loop-HasOutage
          (All-pair _ _ silent (silent_apart now minutes db.assets unique) first_loop-HasOutage))
