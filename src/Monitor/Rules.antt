-- ===== src/Monitor/Rules.antt =====
-- web/src/app/api/alerts/rules/route.ts: the rules of alerting. A form speaks of minutes, the table
-- of seconds. The foreign keys of `alert_rules` and to it are those of
-- web/migrations/000001_initial.up.sql. The order of the listed rows is left out.
pub mod Changes
pub mod Durations
use go_digi.Prelude.{
  ℕ, suc, ◌+◌, ◌*◌, ◌/◌, String, Bool, true, false, ◌&&◌, ◌||◌, Option, none, some, List, [], ◌∷◌,
  ◌++◌, map, any, is_some, or_else, str_eq, ◌==◌, find, update_where, delete_where, if◌then◌else◌,
  not,
}
use go_digi.Prelude.Int.{ℤ}
use go_digi.Http.{
  Handler, Response, ok, created, error, found, gets, modify, pure, raise, reject_if, ◌>>=◌, ◌>>◌,
}
use go_digi.Accounts.{AuthUser, require_auth}
use go_digi.Monitor.{Asset, AlertRule, Alert, MonitorDb}
use go_digi.Monitor.Evaluation.{is_id, truthy_id}

abbrev pub RulesHandler : Type 0 → Type 0
RulesHandler A = Handler Response MonitorDb A

-- Minutes of a body, whole and a rest of seconds: 1.5 is `minutes 1 30`. The INT column refuses
-- what is no whole number of seconds, which is left out.
pub data Minutes : Type 0 where
  minutes : (whole : ℕ) → (rest : ℕ) → Minutes

abbrev pub to_seconds : Minutes → ℕ
to_seconds (minutes whole rest) = whole * 60 + rest

-- Math.round(s / 60)
abbrev pub to_minutes : ℕ → ℕ
to_minutes s = (s + 30) / 60

-- a row that GET returns
pub record RuleRow : Type 0 where
  pub id : ℕ
  pub name : String
  pub asset_id : Option ℕ
  pub asset_name : Option String
  pub asset_type_filter : Option String
  pub metric : String
  pub operator : String
  pub threshold : ℤ
  pub duration_m : ℕ
  pub severity : String
  pub notify_channels : List String
  pub is_active : Bool

abbrev pub asset_of : Option ℕ → List Asset → Option Asset
asset_of id assets = find (λ (a : Asset). is_id a.id id) assets

abbrev name_of : Option Asset → Option String
name_of none = none
name_of (some a) = some a.name

abbrev pub rule_row : List Asset → AlertRule → RuleRow
rule_row assets r = record {
  id = r.id;
  name = r.name;
  asset_id = r.asset_id;
  asset_name = name_of (asset_of r.asset_id assets);
  asset_type_filter = r.asset_type_filter;
  metric = r.metric;
  operator = r.operator;
  threshold = r.threshold;
  duration_m = to_minutes r.duration_s;
  severity = r.severity;
  notify_channels = r.notify_channels;
  is_active = r.is_active;
}

unfoldable pub list_rules : Option AuthUser → Handler (List RuleRow) MonitorDb (List RuleRow)
unfolding require_auth
list_rules session = do require_auth session; gets (λ db. map (rule_row db.assets) db.rules)

pub record RuleBody : Type 0 where
  pub name : String
  pub asset_id : Option ℕ
  pub asset_type_filter : Option String
  pub metric : String
  pub operator : String
  pub threshold : Option ℤ
  pub duration_m : Option Minutes
  pub severity : Option String
  pub notify_channels : Option (List String)

abbrev pub incomplete : RuleBody → Bool
incomplete body = str_eq body.name "" || str_eq body.metric "" || str_eq body.operator ""

abbrev pub new_rule : ℕ → ℤ → RuleBody → AlertRule
new_rule id threshold body = record {
  id = id;
  name = body.name;
  asset_id = body.asset_id;
  asset_type_filter = body.asset_type_filter;
  metric = body.metric;
  operator = body.operator;
  threshold = threshold;
  duration_s = to_seconds (or_else body.duration_m (minutes 5 0));
  severity = or_else body.severity "critical";
  notify_channels = or_else body.notify_channels ("slack" ∷ []);
  is_active = true;
}

-- asset_id INT REFERENCES assets(id)
abbrev pub dangling : Option ℕ → MonitorDb → Bool
dangling id db = is_some id && not (is_some (asset_of id db.assets))

abbrev check_asset : Option ℕ → RulesHandler Unit
check_asset id db =
    if dangling id db then raise "violates foreign key constraint on assets" db else pure tt db

-- the sequence of the ids moves on, also where the row is refused
abbrev next_id : RulesHandler ℕ
next_id = do
  id ← gets (λ db. db.next_rule)
  modify (λ db. record db { next_rule = suc db.next_rule })
  pure id

unfoldable pub create_rule : Option AuthUser → RuleBody → RulesHandler Response
unfolding require_auth
create_rule session body = do
  require_auth session
  reject_if (incomplete body) (error 400 "name, metric, operator, threshold required")
  threshold ← found body.threshold (error 400 "name, metric, operator, threshold required")
  id ← next_id
  check_asset body.asset_id
  modify (λ db. record db { rules = db.rules ++ new_rule id threshold body ∷ [] })
  pure (created id)

-- The fields that a body has; a field that is there may still be null.
pub record RuleChange : Type 0 where
  pub id : Option ℕ
  pub name : Option String
  pub asset_id : Option (Option ℕ)
  pub asset_type_filter : Option (Option String)
  pub metric : Option String
  pub operator : Option String
  pub threshold : Option ℤ
  pub duration_s : Option ℕ
  pub duration_m : Option Minutes
  pub severity : Option String
  pub notify_channels : Option (List String)
  pub is_active : Option Bool

-- minutes, where a body has them, take the place of its seconds
abbrev pub seconds_of : RuleChange → Option ℕ
seconds_of c = elim c.duration_m [ none ↦ c.duration_s | some m ↦ some (to_seconds m) ]

abbrev pub sets_none : RuleChange → Bool
sets_none c = not (
    is_some c.name
    || is_some c.asset_id
    || is_some c.asset_type_filter
    || is_some c.metric
    || is_some c.operator
    || is_some c.threshold
    || is_some (seconds_of c)
    || is_some c.severity
    || is_some c.notify_channels
    || is_some c.is_active)

abbrev pub set_rule : RuleChange → AlertRule → AlertRule
set_rule c r = record r {
  name = or_else c.name r.name;
  asset_id = or_else c.asset_id r.asset_id;
  asset_type_filter = or_else c.asset_type_filter r.asset_type_filter;
  metric = or_else c.metric r.metric;
  operator = or_else c.operator r.operator;
  threshold = or_else c.threshold r.threshold;
  duration_s = or_else (seconds_of c) r.duration_s;
  severity = or_else c.severity r.severity;
  notify_channels = or_else c.notify_channels r.notify_channels;
  is_active = or_else c.is_active r.is_active;
}

abbrev pub rule_of : ℕ → MonitorDb → Option AlertRule
rule_of id db = find (λ (r : AlertRule). r.id == id) db.rules

-- the new asset of a row that there is
abbrev pub new_asset : ℕ → RuleChange → MonitorDb → Option ℕ
new_asset id c db = elim (rule_of id db) [ none ↦ none | some r ↦ or_else c.asset_id none ]

abbrev check_new_asset : ℕ → RuleChange → RulesHandler Unit
check_new_asset id c db = check_asset (new_asset id c db) db

unfoldable pub update_rule : Option AuthUser → RuleChange → RulesHandler Response
unfolding require_auth
update_rule session change = do
  require_auth session
  id ← found (truthy_id change.id) (error 400 "id required")
  reject_if (sets_none change) (error 400 "nothing to update")
  check_new_asset id change
  modify (λ db. record db { rules = update_where (λ r. r.id == id) (set_rule change) db.rules })
  pure ok

-- rule_id INT REFERENCES alert_rules(id), without ON DELETE
abbrev pub has_alerts : ℕ → MonitorDb → Bool
has_alerts id db = is_some (rule_of id db) && any (λ (a : Alert). is_id id a.rule_id) db.alerts

abbrev check_alerts : ℕ → RulesHandler Unit
check_alerts id db =
    if has_alerts id db then raise "violates foreign key constraint on alerts" db else pure tt db

-- ?id=N; an empty one counts as none
unfoldable pub delete_rule : Option AuthUser → Option ℕ → RulesHandler Response
unfolding require_auth
delete_rule session param = do
  require_auth session
  id ← found param (error 400 "id required")
  check_alerts id
  modify (λ db. record db { rules = delete_where (λ r. r.id == id) db.rules })
  pure ok
