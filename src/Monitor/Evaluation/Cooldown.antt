-- ===== src/Monitor/Evaluation/Cooldown.antt =====
-- The cooldown of `runAlertEvaluation`: alerts of one rule and asset stay apart.
use mathlib.Core.Path.{subst, sym}
use go_digi.Prelude.{
  select, ℕ, ◌≡◌, String, true, false, none, some, List, [], ◌∷◌, All, Pairwise, Pairwise-insert,
  refl, any, any-eq_false, arith, str_eq, Option-cases, Bool-cases, inl, inr,
}
use go_digi.Prelude.Int.{ℤ, pos, ◌+ℤ◌, ◌≤ℤ◌}
use go_digi.Monitor.{
  Alert, AlertRule, Metric, MonitorDb, Reading, number, text, Services, for_each, for_each-keeps,
  send_alert-keeps,
}
use go_digi.Monitor.Evaluation.{
  holds_back, title_of, channels_of, new_alert, fire, check_value, check_metric, check_rule,
  evaluation, run_alert_evaluation, cooldown, reading, candidates, metric_map,
}

abbrev pub IsOf : ℕ → ℕ → Alert → Type 0
IsOf rule_id asset_id a =
    (a.rule_id ≡ some rule_id) × (a.asset_id ≡ some asset_id) × (str_eq a.status "active" ≡ true)

-- two active alerts of one rule and asset lie at least the interval apart
abbrev pub AreSpaced : ℤ → Alert → Alert → Type 0
AreSpaced interval a b =
    (rule_id asset_id : ℕ)
    → IsOf rule_id asset_id a
    → IsOf rule_id asset_id b
    → pos a.fired_at +ℤ interval ≤ℤ pos b.fired_at

abbrev pub AllSpaced : ℤ → MonitorDb → Type 0
AllSpaced interval db = Pairwise (AreSpaced interval) db.alerts

module _ (services : Services) (now : ℕ) (interval : ℤ) (rule : AlertRule) where
  AreSpaced-new :
      (asset_id : ℕ) (a b : Alert)
      → b.rule_id ≡ some rule.id
      → b.asset_id ≡ some asset_id
      → b.fired_at ≡ now
      → holds_back now interval rule.id asset_id a ≡ false
      → AreSpaced interval a b
  AreSpaced-new asset_id a b er ea et free r s p q = ground arith

  All-spaced_new :
      (asset_id id : ℕ) (title : String) (rows : List Alert)
      → All (λ a. holds_back now interval rule.id asset_id a ≡ false) rows
      → All (λ a. AreSpaced interval a (new_alert id now rule asset_id title)) rows
  All-spaced_new asset_id id title [] h = tt
  All-spaced_new asset_id id title (a ∷ rows) (h, hs) = (
    AreSpaced-new asset_id a (new_alert id now rule asset_id title) refl refl refl h,
    All-spaced_new asset_id id title rows hs,
  )

  fire-AllSpaced :
      (m : Metric) (v : Reading) (db : MonitorDb)
      → any (holds_back now interval rule.id m.asset_id) db.alerts ≡ false
      → AllSpaced interval db
      → AllSpaced interval (fire services now (some interval) rule m v db).1
  unfolding fire
  fire-AllSpaced m (text n) db free h = h
  fire-AllSpaced m (number n) db free h =
      send_alert-keeps services (AllSpaced interval) (λ s ns k. k) db.next_alert
        (title_of rule m.asset_id db) (channels_of rule.notify_channels) none _
        (Pairwise-insert (AreSpaced interval) db.alerts
          (new_alert db.next_alert now rule m.asset_id (title_of rule m.asset_id db)) h
          (All-spaced_new m.asset_id db.next_alert (title_of rule m.asset_id db) db.alerts
            (any-eq_false _ db.alerts free)))

  check_value-AllSpaced :
      (m : Metric) (v : Reading) (db : MonitorDb)
      → AllSpaced interval db
      → AllSpaced interval (check_value services now (some interval) rule m v db).1
  unfolding check_value
  check_value-AllSpaced m v db h =
      elim (Bool-cases (any (holds_back now interval rule.id m.asset_id) db.alerts)) [
        | inl e ↦ rw e h
        | inr e ↦ rw e (fire-AllSpaced m v db e h)
      ]

  check_metric-AllSpaced :
      (m : Metric) (db : MonitorDb)
      → AllSpaced interval db
      → AllSpaced interval (check_metric services now (some interval) rule m db).1
  unfolding check_metric
  check_metric-AllSpaced m db h = elim (Option-cases (reading rule.metric m)) [
    | inl e ↦ ground (arith, e, h)
    | inr (v, e) ↦ ground (arith, e, h, check_value-AllSpaced m v db h)
  ]

  check_rule-AllSpaced :
      (metrics : List Metric) (db : MonitorDb)
      → AllSpaced interval db
      → AllSpaced interval (check_rule services now (some interval) metrics rule db).1
  unfolding check_rule
  check_rule-AllSpaced metrics db h =
      for_each-keeps (AllSpaced interval) (check_metric services now (some interval) rule)
        (candidates rule metrics db.assets) db check_metric-AllSpaced h

-- A run of the job keeps the alerts apart, wherever it ends.
pub evaluation-AllSpaced :
    (services : Services) (now : ℕ) (interval : ℤ) (db : MonitorDb)
    → cooldown db ≡ some interval
    → AllSpaced interval db
    → AllSpaced interval (run_alert_evaluation services now db)
unfolding run_alert_evaluation evaluation
evaluation-AllSpaced services now interval db set h =
    let rules = select (λ (r : AlertRule). r.is_active) db.rules in
    subst
      (λ within.
        AllSpaced interval
          (for_each (check_rule services now within (metric_map now db)) rules db).1)
      (sym set)
      (for_each-keeps (AllSpaced interval)
        (check_rule services now (some interval) (metric_map now db)) rules db
        (λ rule s k. check_rule-AllSpaced services now interval rule (metric_map now db) s k) h)
