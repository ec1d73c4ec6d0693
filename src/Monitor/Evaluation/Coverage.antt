-- ===== src/Monitor/Evaluation/Coverage.antt =====
-- A finished run of `runAlertEvaluation` leaves an active alert for every violation it saw.
use mathlib.Core.Path.{subst, sym}
use go_digi.Prelude.{
  All-map, ℕ, ◌≡◌, refl, Bool, true, Option, none, some, List, [], ◌∷◌, All, any, arith,
  Option-cases, Bool-cases, inl, inr, select,
}
use go_digi.Prelude.Int.{ℤ, pos, ltb_ℤ, +ℤ_parts}
use go_digi.Http.{next}
use go_digi.Monitor.{
  Alert, AlertRule, Asset, Metric, MonitorDb, Reading, number, text, Services, for_each,
  for_each-keeps, send_alert-keeps,
}
use go_digi.Monitor.Loops.{for_each-does, any-append, any-last}
use go_digi.Monitor.Evaluation.{
  holds_back, new_alert, insert_alert, fire, check_value, check_metric, check_rule, evaluation,
  cooldown, reading, evaluate, candidates, metric_map, title_of, channels_of,
}

abbrev pub Violates : AlertRule → Metric → Type 0
Violates rule m =
    (v : Reading) × (reading rule.metric m ≡ some v)
    × (evaluate v rule.operator rule.threshold ≡ true)

module _ (services : Services) (now : ℕ) (interval : ℤ)
    (positive : ltb_ℤ (pos 0) interval ≡ true) where
  abbrev IsHeld : AlertRule → Metric → MonitorDb → Type 0
  IsHeld rule m db = any (holds_back now interval rule.id m.asset_id) db.alerts ≡ true

  module _ (rule : AlertRule) where
    fire-keeps :
        (p : Alert → Bool) (m : Metric) (v : Reading) (db : MonitorDb)
        → any p db.alerts ≡ true
        → any p (fire services now (some interval) rule m v db).1.alerts ≡ true
    unfolding fire
    fire-keeps p m (text n) db h = h
    fire-keeps p m (number n) db h =
        send_alert-keeps services (λ s. any p s.alerts ≡ true) (λ s ns k. k) db.next_alert
          (title_of rule m.asset_id db) (channels_of rule.notify_channels) none _
          (any-append p db.alerts
            (new_alert db.next_alert now rule m.asset_id (title_of rule m.asset_id db) ∷ []) h)

    check_metric-keeps :
        (p : Alert → Bool) (m : Metric) (db : MonitorDb)
        → any p db.alerts ≡ true
        → any p (check_metric services now (some interval) rule m db).1.alerts ≡ true
    unfolding check_metric check_value
    check_metric-keeps p m db h = elim (Option-cases (reading rule.metric m)) [
      | inl e ↦ ground (arith, e, h)
      | inr (v, e) ↦ ground (arith, e, h, fire-keeps p m v db h)
    ]

    holds_back-new :
        (m : Metric) (db : MonitorDb)
        → holds_back now interval rule.id m.asset_id
            (new_alert db.next_alert now rule m.asset_id (title_of rule m.asset_id db))
          ≡ true
    holds_back-new m db = ground (arith, +ℤ_parts (pos now) interval)

    fire-IsHeld :
        (m : Metric) (v : Reading) (db : MonitorDb)
        → (fire services now (some interval) rule m v db).0 ≡ next tt
        → IsHeld rule m (fire services now (some interval) rule m v db).1
    unfolding fire
    fire-IsHeld m (text n) db done = cc
    fire-IsHeld m (number n) db done =
        send_alert-keeps services (IsHeld rule m) (λ s ns k. k) db.next_alert
          (title_of rule m.asset_id db) (channels_of rule.notify_channels) none _
          (any-last _ db.alerts
            (new_alert db.next_alert now rule m.asset_id (title_of rule m.asset_id db))
            (holds_back-new m db))

    check_metric-IsHeld :
        (m : Metric) (db : MonitorDb)
        → (check_metric services now (some interval) rule m db).0 ≡ next tt
        → Violates rule m
        → IsHeld rule m (check_metric services now (some interval) rule m db).1
    unfolding check_metric check_value
    check_metric-IsHeld m db done (v, e, bad) =
        elim (Bool-cases (any (holds_back now interval rule.id m.asset_id) db.alerts)) [
          | inl old ↦ ground (arith, e, bad, old)
          | inr new ↦ ground (arith, e, bad, new, done, fire-IsHeld m v db)
        ]

    check_metric-assets :
        (m : Metric) (assets : List Asset) (db : MonitorDb)
        → db.assets ≡ assets
        → (check_metric services now (some interval) rule m db).1.assets ≡ assets
    unfolding check_metric check_value fire
    check_metric-assets m assets db h = elim (Option-cases (reading rule.metric m)) [
      | inl e ↦ ground (arith, e, h)
      | inr (number n, e) ↦ ground (
        arith,
        e,
        h,
        send_alert-keeps services (λ s. s.assets ≡ assets) (λ s ns k. k) db.next_alert
            (title_of rule m.asset_id db) (channels_of rule.notify_channels) none
            (insert_alert
              (new_alert db.next_alert now rule m.asset_id (title_of rule m.asset_id db)) db)
            h,
      )
      | inr (text n, e) ↦ ground (arith, e, h)
    ]

  module _ (metrics : List Metric) (assets : List Asset) where
    -- every violation among the candidates of the rule has its alert
    abbrev pub IsCovered : AlertRule → MonitorDb → Type 0
    IsCovered rule db =
        All (λ m. Violates rule m → IsHeld rule m db) (candidates rule metrics assets)

    check_rule-assets :
        (rule : AlertRule) (db : MonitorDb)
        → db.assets ≡ assets
        → (check_rule services now (some interval) metrics rule db).1.assets ≡ assets
    unfolding check_rule
    check_rule-assets rule db h =
        for_each-keeps (λ s. s.assets ≡ assets) (check_metric services now (some interval) rule)
          (candidates rule metrics db.assets) db (λ m s k. check_metric-assets rule m assets s k) h

    check_rule-IsCovered :
        (rule : AlertRule) (db : MonitorDb)
        → db.assets ≡ assets
        → (check_rule services now (some interval) metrics rule db).0 ≡ next tt
        → IsCovered rule (check_rule services now (some interval) metrics rule db).1
    unfolding check_rule
    check_rule-IsCovered rule db h done = rw (← h) (
        for_each-does (check_metric services now (some interval) rule) (λ _. Unit)
          (λ m s. Violates rule m → IsHeld rule m s) (λ _ _ _. tt)
          (λ m s _ ran. check_metric-IsHeld rule m s ran)
          (λ x y s q v.
            check_metric-keeps rule (holds_back now interval rule.id y.asset_id) x s (q v))
          (candidates rule metrics db.assets) db tt done)

    check_rule-keeps_IsCovered :
        (x y : AlertRule) (db : MonitorDb)
        → IsCovered y db
        → IsCovered y (check_rule services now (some interval) metrics x db).1
    unfolding check_rule
    check_rule-keeps_IsCovered x y db h =
        for_each-keeps (IsCovered y) (check_metric services now (some interval) x)
          (candidates x metrics db.assets) db
          (λ m s k.
            All-map _ _ (candidates y metrics assets)
              (λ n q v. check_metric-keeps x (holds_back now interval y.id n.asset_id) m s (q v)) k)
          h

  pub evaluation-IsCovered :
      (db : MonitorDb)
      → cooldown db ≡ some interval
      → (evaluation services now db).0 ≡ next tt
      → All
          (λ rule. IsCovered (metric_map now db) db.assets rule (evaluation services now db).1)
          (select (λ r. r.is_active) db.rules)
  unfolding evaluation
  evaluation-IsCovered db set done =
      let rules = select (λ (r : AlertRule). r.is_active) db.rules in
      let loop = λ (within : Option ℤ).
        for_each (check_rule services now within (metric_map now db)) rules db in
      subst
        (λ within. All (λ rule. IsCovered (metric_map now db) db.assets rule (loop within).1) rules)
        (sym set)
        (for_each-does (check_rule services now (some interval) (metric_map now db))
          (λ s. s.assets ≡ db.assets) (IsCovered (metric_map now db) db.assets)
          (check_rule-assets (metric_map now db) db.assets)
          (check_rule-IsCovered (metric_map now db) db.assets)
          (check_rule-keeps_IsCovered (metric_map now db) db.assets) rules db refl
          (subst (λ within. (loop within).0 ≡ next tt) set done))
