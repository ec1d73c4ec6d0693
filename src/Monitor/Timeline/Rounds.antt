-- ===== src/Monitor/Timeline/Rounds.antt =====
-- What the jobs keep that each statement on the alerts keeps.
use mathlib.Core.Path.{subst, sym}
use go_digi.Prelude.{
  ℕ, ◌≡◌, String, Option, none, some, List, [], ◌∷◌, ◌++◌, any, arith, Option-cases, Bool-cases,
  inl, inr, select, find, update_where,
}
use go_digi.Prelude.Int.{ℤ}
use go_digi.Http.{Exit, continue-keeps, Any, Hands-Any}
use go_digi.Monitor.{
  Alert, AlertRule, Asset, Metric, MonitorDb, Reading, number, text, Services, Notification,
  for_each-keeps, send_alert-keeps,
}
use go_digi.Monitor.Evaluation.{
  holds_back, title_of, channels_of, new_alert, insert_alert, fire, check_value, check_metric,
  check_rule, evaluation, run_alert_evaluation, cooldown, reading, candidates, metric_map,
}
use go_digi.Monitor.Offline.{
  is_outage, is_open, is_back, outage_alert, outage_title, off, alert_outage, report_incident,
  report_outage, recover, offline_check, run_offline_check, threshold_min,
}
use go_digi.Monitor.Offline.Outages.{silent, marked, reported, offline_check-loops}

-- a threshold that is no number
pub offline_check-invalid :
    (services : Services) (now : ℕ) (db : MonitorDb)
    → threshold_min db ≡ none
    → run_offline_check services now db ≡ db
unfolding run_offline_check offline_check
offline_check-invalid services now db h = ground (arith, h)

-- a predicate of the alerts, and the settings as they are
abbrev pub Holds : (List Alert → Type 0) → List (String × String) → MonitorDb → Type 0
Holds Q settings db = Q db.alerts × (db.settings ≡ settings)

module _ (P : MonitorDb → Type 0) (services : Services) (now : ℕ)
    (sends : (s : MonitorDb) (ns : List Notification) → P s → P (record s { notifications = ns }))
    (inserts : (id : ℕ) (rule : AlertRule) (asset_id : ℕ) (title : String) (s : MonitorDb)
      → P s
      → P (insert_alert (new_alert id now rule asset_id title) s)) where
  fire-keeps :
      (interval : Option ℤ) (rule : AlertRule) (m : Metric) (v : Reading) (db : MonitorDb)
      → P db
      → P (fire services now interval rule m v db).1
  unfolding fire
  fire-keeps interval rule m (text n) db h = h
  fire-keeps interval rule m (number n) db h =
      send_alert-keeps services P sends db.next_alert (title_of rule m.asset_id db)
        (channels_of rule.notify_channels) none _
        (inserts db.next_alert rule m.asset_id (title_of rule m.asset_id db) db h)

  check_value-keeps :
      (interval : Option ℤ) (rule : AlertRule) (m : Metric) (v : Reading) (db : MonitorDb)
      → P db
      → P (check_value services now interval rule m v db).1
  unfolding check_value
  check_value-keeps none rule m v db h = h
  check_value-keeps (some interval) rule m v db h =
      elim (Bool-cases (any (holds_back now interval rule.id m.asset_id) db.alerts)) [
        | inl e ↦ rw e h
        | inr e ↦ rw e (fire-keeps (some interval) rule m v db h)
      ]

  check_metric-keeps :
      (interval : Option ℤ) (rule : AlertRule) (m : Metric) (db : MonitorDb)
      → P db
      → P (check_metric services now interval rule m db).1
  unfolding check_metric
  check_metric-keeps interval rule m db h = elim (Option-cases (reading rule.metric m)) [
    | inl e ↦ ground (arith, e, h)
    | inr (v, e) ↦ ground (arith, e, h, check_value-keeps interval rule m v db h)
  ]

  pub evaluation-keeps : (db : MonitorDb) → P db → P (run_alert_evaluation services now db)
  unfolding run_alert_evaluation evaluation check_rule
  evaluation-keeps db h =
      for_each-keeps P (check_rule services now (cooldown db) (metric_map now db))
        (select (λ (r : AlertRule). r.is_active) db.rules) db
        (λ rule s k.
          for_each-keeps P (check_metric services now (cooldown db) rule)
            (candidates rule (metric_map now db) s.assets) s (check_metric-keeps (cooldown db) rule)
            k)
        h

module _ (Q : List Alert → Type 0) (settings : List (String × String)) (services : Services)
    (now : ℕ) where
  module _
      (inserts : (id : ℕ) (a : Asset) (xs : List Alert)
        → Q xs
        → Q (xs ++ outage_alert id now a ∷ []))
      (resolves : (asset_id : ℕ) (xs : List Alert)
        → Q xs
        → Q (update_where (is_outage asset_id) (off now) xs)) where
    alert_outage-keeps :
        (a : Asset) (db : MonitorDb)
        → Holds Q settings db
        → Holds Q settings (alert_outage services now a db).1
    unfolding alert_outage
    alert_outage-keeps a db (h, same) = elim (Bool-cases (any (is_outage a.id) db.alerts)) [
      | inl e ↦ rw e (h, same)
      | inr e ↦ rw e (
          send_alert-keeps services (Holds Q settings) (λ s ns k. k) db.next_alert (outage_title a)
            _ none _ (inserts db.next_alert a db.alerts h, same))
    ]

    report_incident-keeps :
        (minutes : ℤ) (a : Asset) (db : MonitorDb)
        → Holds Q settings db
        → Holds Q settings (report_incident now minutes a db).1
    unfolding report_incident
    report_incident-keeps minutes a db h = elim (Bool-cases (any (is_open a.id) db.incidents)) [
      | inl e ↦ rw e h
      | inr e ↦ rw e h
    ]

    report_outage-keeps :
        (minutes : ℤ) (a : Asset) (db : MonitorDb)
        → Holds Q settings db
        → Holds Q settings (report_outage services now minutes a db).1
    unfolding report_outage
    report_outage-keeps minutes a db h =
        let told = alert_outage services now a db in
        let kept = alert_outage-keeps a db h in
        continue-keeps (Holds Q settings) Any told.0 (λ _. report_incident now minutes a) told.1
          kept (Hands-Any told.0) (λ _ _. report_incident-keeps minutes a told.1 kept)

    recover-keeps :
        (a : Asset) (db : MonitorDb) → Holds Q settings db → Holds Q settings (recover now a db).1
    unfolding recover
    recover-keeps a db (h, same) = elim (Option-cases (find (is_open a.id) db.incidents)) [
      | inl e ↦ rw e (resolves a.id db.alerts h, same)
      | inr (i, e) ↦ rw e (resolves a.id db.alerts h, same)
    ]

    pub offline_check-keeps :
        (db : MonitorDb)
        → Holds Q settings db
        → Holds Q settings (run_offline_check services now db)
    unfolding run_offline_check offline_check
    offline_check-keeps db h = elim (Option-cases (threshold_min db)) [
      | inl e ↦ subst (λ s. Holds Q settings s) (sym (offline_check-invalid services now db e)) h
      | inr (minutes, e) ↦
          let first = reported services now minutes db e in
          subst (λ (r : Exit Unit Unit × MonitorDb). Holds Q settings r.1)
            (sym (offline_check-loops services now minutes db e))
            (for_each-keeps (Holds Q settings) (recover now) (select is_back first.assets) first
              recover-keeps
              (for_each-keeps (Holds Q settings) (report_outage services now minutes)
                (silent services now minutes db e) (marked services now minutes db e)
                (report_outage-keeps minutes) h))
    ]
