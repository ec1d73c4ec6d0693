-- ===== src/Monitor/Evaluation/Completion.antt =====
-- When a run of `runAlertEvaluation` reaches its end.
use mathlib.Core.Path.{subst, sym}
use go_digi.Prelude.{
  ℕ, ◌≡◌, ◌≢◌, refl, true, Option, none, some, List, All, any, arith, Option-cases, Bool-cases, inl,
  inr, select, ◌==◌,
}
use go_digi.Prelude.Int.{ℤ, pos, ltb_ℤ}
use go_digi.Http.{next}
use go_digi.Monitor.{AlertRule, Asset, Metric, MonitorDb, number, text, Services, for_each}
use go_digi.Monitor.Loops.{for_each-next-All, send_alert-next, All-select}
use go_digi.Monitor.Evaluation.{
  holds_back, title_of, channels_of, fire, check_value, check_metric, check_rule, evaluation,
  cooldown, reading, candidates, metric_map, allowed, truthy_id,
}
use go_digi.Monitor.Evaluation.Coverage.{IsCovered, evaluation-IsCovered}

-- the value that the rule reads is no text
abbrev pub IsNumeric : AlertRule → Metric → Type 0
IsNumeric rule m = (n : ℤ) → reading rule.metric m ≢ some (text n)

module _ (services : Services) (now : ℕ) (interval : ℤ) where
  fire-next :
      (rule : AlertRule) (m : Metric) (n : ℤ) (db : MonitorDb)
      → (fire services now (some interval) rule m (number n) db).0 ≡ next tt
  unfolding fire
  fire-next rule m n db =
      send_alert-next services db.next_alert (title_of rule m.asset_id db)
        (channels_of rule.notify_channels) none _

  check_value-next :
      (rule : AlertRule) (m : Metric) (n : ℤ) (db : MonitorDb)
      → (check_value services now (some interval) rule m (number n) db).0 ≡ next tt
  unfolding check_value
  check_value-next rule m n db =
      elim (Bool-cases (any (holds_back now interval rule.id m.asset_id) db.alerts)) [
        | inl e ↦ rw e refl
        | inr e ↦ rw e (fire-next rule m n db)
      ]

  check_metric-next :
      (rule : AlertRule) (m : Metric) (db : MonitorDb)
      → IsNumeric rule m
      → (check_metric services now (some interval) rule m db).0 ≡ next tt
  unfolding check_metric
  check_metric-next rule m db h = elim (Option-cases (reading rule.metric m)) [
    | inl e ↦ ground (arith, e)
    | inr (number n, e) ↦ ground (arith, e, check_value-next rule m n db)
    | inr (text n, e) ↦ absurd (h n e)
  ]

  candidates-IsNumeric :
      (rule : AlertRule) (metrics : List Metric) (assets : List Asset)
      → All (IsNumeric rule) metrics
      → All (IsNumeric rule) (candidates rule metrics assets)
  unfolding candidates
  candidates-IsNumeric rule metrics assets h = among (truthy_id rule.asset_id)
    where
      among :
          (id : Option ℕ)
          → All (IsNumeric rule) (elim id [
            | none ↦ select (allowed rule.asset_type_filter assets) metrics
            | some id ↦ select (λ (m : Metric). m.asset_id == id) metrics
          ])
      among none = All-select (IsNumeric rule) _ metrics h
      among (some id) = All-select (IsNumeric rule) _ metrics h

  check_rule-next :
      (rule : AlertRule) (metrics : List Metric) (db : MonitorDb)
      → All (IsNumeric rule) metrics
      → (check_rule services now (some interval) metrics rule db).0 ≡ next tt
  unfolding check_rule
  check_rule-next rule metrics db h =
      for_each-next-All (IsNumeric rule) (check_metric services now (some interval) rule)
        (candidates rule metrics db.assets) db (λ m s c. check_metric-next rule m s c)
        (candidates-IsNumeric rule metrics db.assets h)

  evaluation-next :
      (db : MonitorDb)
      → cooldown db ≡ some interval
      → All
          (λ rule. All (IsNumeric rule) (metric_map now db))
          (select (λ (r : AlertRule). r.is_active) db.rules)
      → (evaluation services now db).0 ≡ next tt
  unfolding evaluation
  evaluation-next db set numeric =
      let rules = select (λ (r : AlertRule). r.is_active) db.rules in
      subst
        (λ within.
          (for_each (check_rule services now within (metric_map now db)) rules db).0 ≡ next tt)
        (sym set)
        (for_each-next-All (λ rule. All (IsNumeric rule) (metric_map now db))
          (check_rule services now (some interval) (metric_map now db)) rules db
          (λ rule s c. check_rule-next rule (metric_map now db) s c) numeric)

  -- With a positive cooldown, and where no active rule reads a BIGINT column or the time of a
  -- current metric, the evaluation runs to its end, and afterwards every current metric that
  -- violates an active rule it is a candidate of has an active alert of that rule and asset
  -- within the cooldown.
  pub evaluation-covers :
      (positive : ltb_ℤ (pos 0) interval ≡ true) (db : MonitorDb)
      → cooldown db ≡ some interval
      → All
          (λ rule. All (IsNumeric rule) (metric_map now db))
          (select (λ (r : AlertRule). r.is_active) db.rules)
      → ((evaluation services now db).0 ≡ next tt)
        × All
            (λ rule.
              IsCovered services now interval positive
                (metric_map now db)
                db.assets
                rule
                (evaluation services now db).1)
            (select (λ (r : AlertRule). r.is_active) db.rules)
  evaluation-covers positive db set numeric =
      let done = evaluation-next db set numeric in
      (done, evaluation-IsCovered services now interval positive db set done)
