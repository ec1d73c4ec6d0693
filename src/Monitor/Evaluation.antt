-- ===== src/Monitor/Evaluation.antt =====
-- `runAlertEvaluation` of web/src/lib/alert-engine.ts. The text of the message is left out; that
-- its number is printed, which throws for the text of a BIGINT and for a Date, is not.
pub mod Cooldown
pub mod Coverage
pub mod Completion
use mathlib.Core.Bool.{not}
use mathlib.Core.Option
use go_digi.Prelude.{
  ℕ, suc, ◌+◌, ◌*◌, ◌-◌, String, Bool, true, false, ◌&&◌, Option, none, some, List, [], ◌∷◌, ◌++◌,
  str_eq, ◌==◌, ltb, find, select, any, is_some, or_else, if◌then◌else◌,
}
use go_digi.Prelude.Int.{ℤ, pos, negsuc, ltb_ℤ, ◌+ℤ◌, pos_part, neg_part}
use go_digi.Prelude.Text.{◌+++◌, parse_int, show}
use go_digi.Http.{found, gets, modify, pure, raise, ◌>>=◌, ◌>>◌}
use go_digi.Monitor.{
  Asset, Metric, AlertRule, Alert, MonitorDb, Job, Reading, number, text, Services, for_each,
  setting, send_alert,
}

abbrev pub as_number : Reading → ℤ
as_number (number n) = n
as_number (text n) = n

abbrev pub is_number : Reading → Bool
is_number (number n) = true
is_number (text n) = false

-- The orders turn a text into its number; `===` does not.
unfoldable pub evaluate : Reading → String → ℤ → Bool
evaluate value operator threshold =
    let n = as_number value in
    if str_eq operator ">"
    then ltb_ℤ threshold n
    else if str_eq operator ">="
    then not (ltb_ℤ n threshold)
    else if str_eq operator "<"
    then ltb_ℤ n threshold
    else if str_eq operator "<="
    then not (ltb_ℤ threshold n)
    else if str_eq operator "="
    then is_number value && not (ltb_ℤ n threshold) && not (ltb_ℤ threshold n)
    else false

-- metric[rule.metric]: a column that the query names, absent or NULL otherwise
unfoldable pub reading : String → Metric → Option Reading
reading name m =
    if str_eq name "cpu_usage"
    then m.cpu_usage
    else if str_eq name "mem_usage"
    then m.mem_usage
    else if str_eq name "disk_read_bps"
    then m.disk_read_bps
    else if str_eq name "disk_write_bps"
    then m.disk_write_bps
    else if str_eq name "disk_usage_pct"
    then m.disk_usage_pct
    else if str_eq name "net_rx_bps"
    then m.net_rx_bps
    else if str_eq name "net_tx_bps"
    then m.net_tx_bps
    else if str_eq name "asset_id"
    then some (number (pos m.asset_id))
    else if str_eq name "collected_at"
    then some (text (pos m.collected_at))
    else none

-- DISTINCT ON (asset_id) ... ORDER BY asset_id, collected_at DESC
keep_latest : Metric → List Metric → List Metric
keep_latest m [] = m ∷ []
keep_latest m (n ∷ ns) =
    let rest = keep_latest m ns in
    if m.asset_id == n.asset_id
    then (if ltb n.collected_at m.collected_at then m ∷ ns else n ∷ ns)
    else if ltb m.asset_id n.asset_id
    then m ∷ n ∷ ns
    else n ∷ rest

latest : List Metric → List Metric
unfolding keep_latest
latest [] = []
latest (m ∷ ms) = keep_latest m (latest ms)

-- collected_at > now() - interval '5 minutes'
unfoldable pub metric_map : ℕ → MonitorDb → List Metric
unfolding latest
metric_map now db = latest (select (λ m. ltb now (m.collected_at + 300000)) db.metrics)

-- parseInt(cooldownSetting?.value || '300'); NaN makes the query of the cooldown fail
unfoldable pub cooldown_s : MonitorDb → Option ℤ
cooldown_s db =
    let value = setting "alert_cooldown_s" db in
    parse_int (if str_eq value "" then "300" else value)

-- an interval of so many seconds, in milliseconds
abbrev pub milliseconds : ℤ → ℤ
milliseconds (pos n) = pos (n * 1000)
milliseconds (negsuc n) = negsuc (n * 1000 + 999)

-- fired_at > now() - interval
abbrev pub is_recent : ℕ → ℤ → ℕ → Bool
is_recent now interval fired_at = ltb_ℤ (pos now) (pos fired_at +ℤ interval)

abbrev pub is_id : ℕ → Option ℕ → Bool
is_id n none = false
is_id n (some m) = m == n

-- the active alert of the rule and the asset within the cooldown
abbrev pub holds_back : ℕ → ℤ → ℕ → ℕ → Alert → Bool
holds_back now interval rule_id asset_id a =
    is_id rule_id a.rule_id
    && is_id asset_id a.asset_id
    && str_eq a.status "active"
    && is_recent now interval a.fired_at

abbrev pub new_alert : ℕ → ℕ → AlertRule → ℕ → String → Alert
new_alert id now rule asset_id title = record {
  id = id;
  rule_id = some rule.id;
  asset_id = some asset_id;
  severity = rule.severity;
  title = title;
  source = "threshold";
  status = "active";
  fired_at = now;
  acked_at = none;
  resolved_at = none;
}

abbrev pub insert_alert : Alert → MonitorDb → MonitorDb
insert_alert a db = record db { alerts = db.alerts ++ a ∷ []; next_alert = suc db.next_alert }

-- assetRow?.name || `Asset#${id}`
abbrev asset_name : ℕ → Option Asset → String
asset_name id none = "Asset#" +++ show id
asset_name id (some a) = if str_eq a.name "" then "Asset#" +++ show id else a.name

abbrev pub title_of : AlertRule → ℕ → MonitorDb → String
title_of rule asset_id db =
    asset_name asset_id (find (λ (a : Asset). a.id == asset_id) db.assets) +++ " — " +++ rule.name

abbrev pub channels_of : List String → List String
channels_of [] = "slack" ∷ []
channels_of (c ∷ cs) = c ∷ cs

-- value.toFixed(1): a text has no such method
abbrev to_fixed : Reading → Job Unit
to_fixed (number n) = pure tt
to_fixed (text n) = raise "value.toFixed is not a function"

-- an interval of NaN seconds is an error of the query
abbrev valid_interval : Option ℤ → Job ℤ
valid_interval none = raise "invalid input syntax for type interval"
valid_interval (some interval) = pure interval

module _ (services : Services) (now : ℕ) (interval : Option ℤ) (rule : AlertRule) where
  -- the insertion of the alert and its sending
  unfoldable pub fire : Metric → Reading → Job Unit
  fire metric value = do
    title ← gets (title_of rule metric.asset_id)
    to_fixed value
    id ← gets (λ db. db.next_alert)
    modify (insert_alert (new_alert id now rule metric.asset_id title))
    send_alert services id title (channels_of rule.notify_channels) none

  -- a value that violates the rule fires unless a recent alert is active
  unfoldable pub check_value : Metric → Reading → Job Unit
  check_value metric value = do
    within ← valid_interval interval
    existing ← gets (λ db. any (holds_back now within rule.id metric.asset_id) db.alerts)
    if existing then pure tt else fire metric value

  unfoldable pub check_metric : Metric → Job Unit
  check_metric metric = elim (reading rule.metric metric) [
    | none ↦ pure tt
    | some value ↦
        if evaluate value rule.operator rule.threshold then check_value metric value else pure tt
  ]

abbrev pub truthy_id : Option ℕ → Option ℕ
truthy_id none = none
truthy_id (some n) = if n == 0 then none else some n

abbrev allowed : Option String → List Asset → Metric → Bool
allowed none assets m = true
allowed (some type) assets m =
    if str_eq type ""
    then true
    else any (λ (a : Asset). a.id == m.asset_id && str_eq a.type type && a.is_active) assets

unfoldable pub candidates : AlertRule → List Metric → List Asset → List Metric
candidates rule metrics assets = elim (truthy_id rule.asset_id) [
  | none ↦ select (allowed rule.asset_type_filter assets) metrics
  | some id ↦ select (λ m. m.asset_id == id) metrics
]

-- the body of the loop over the rules
unfoldable pub check_rule : Services → ℕ → Option ℤ → List Metric → AlertRule → Job Unit
check_rule services now interval metrics rule = do
  targets ← gets (λ db. candidates rule metrics db.assets)
  for_each (check_metric services now interval rule) targets

abbrev pub cooldown : MonitorDb → Option ℤ
cooldown db = Option.map milliseconds (cooldown_s db)

-- the `try` block; what it wrote before a throw stays written
unfoldable pub evaluation : Services → ℕ → Job Unit
evaluation services now = do
  rules ← gets (λ db. select (λ r. r.is_active) db.rules)
  metrics ← gets (metric_map now)
  interval ← gets cooldown
  for_each (check_rule services now interval metrics) rules

unfoldable pub run_alert_evaluation : Services → ℕ → MonitorDb → MonitorDb
run_alert_evaluation services now db = (evaluation services now db).1
