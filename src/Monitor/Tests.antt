-- ===== src/Monitor/Tests.antt =====
-- A server with a rule on its processor and a check, and a switch that fell silent.
mod Jobs
mod Requests
use go_digi.Prelude.{
  str_eq, any, length, ℕ, ◌≡◌, ◌≢◌, ◌↔◌, refl, String, true, false, Option, none, some, List, [],
  ◌∷◌, All, arith,
}
use go_digi.Prelude.Int.{ℤ, pos, ◌+ℤ◌}
use go_digi.Http.{run, next, throw, ok}
use go_digi.Accounts.{AuthUser, admin, require_auth}
use go_digi.Monitor.{
  ServiceCheck, Asset, Metric, AlertRule, Alert, Incident, MonitorDb, Services, number, text,
}
use go_digi.Monitor.Evaluation.{
  metric_map, evaluation, cooldown, cooldown_s, candidates, reading, evaluate,
}
use go_digi.Monitor.Evaluation.Coverage.{IsCovered}
use go_digi.Monitor.Evaluation.Completion.{evaluation-covers}
use go_digi.Monitor.Evaluation.Cooldown.{AllSpaced}
use go_digi.Monitor.Checks.{Network, timed_out, broken, perform, run_check, is_failure}
use go_digi.Monitor.Checks.Alarms.{run_check-tracks, run_check-twice}
use go_digi.Monitor.Offline.{run_offline_check, threshold_min}
use go_digi.Monitor.Offline.Outages.{HasOutage, offline_check-HasOutage}
use go_digi.Monitor.Offline.Recovery.{FirstOpen, IsResolved, offline_check-IsResolved}
use go_digi.Monitor.Rules.{
  RuleBody, RuleChange, create_rule, update_rule, delete_rule, rule_of, rule_row, new_rule,
}
use go_digi.Monitor.Rules.Durations.{listed, listed-create_rule}
use go_digi.Monitor.Rules.Changes.{rule_of-update_rule, delete_rule_iff}
use go_digi.Monitor.Incidents.{IncidentChange, patch_incident, insert_entry}
use go_digi.Monitor.Incidents.Atomic.{patch_incident-atomic}
use go_digi.Monitor.Timeline.{
  Event, evaluate_alerts, check_offline, check_services, post, incident_changed, incident_deleted,
  serve_all,
}
use go_digi.Monitor.Timeline.History.{Forward, serve_all-Forward}
use go_digi.Monitor.Timeline.Spacing.{serve_all-AllSpaced}
use go_digi.Prelude.Text.{parse_int}

abbrev pub services : Services
services = record { post_slack = λ title. true; send_mail = λ to title. false }

abbrev pub asset_with : ℕ → String → String → Option ℕ → Asset
asset_with id type status last_seen = record {
  id = id;
  name = "a";
  hostname = none;
  ip_text = none;
  type = type;
  status = status;
  is_active = true;
  last_seen = last_seen;
}

abbrev pub measured : ℕ → ℕ → Metric
measured asset_id collected_at = record {
  asset_id = asset_id;
  collected_at = collected_at;
  cpu_usage = some (number (pos 95));
  mem_usage = none;
  disk_read_bps = some (text (pos 4000));
  disk_write_bps = none;
  disk_usage_pct = none;
  net_rx_bps = none;
  net_tx_bps = none;
}

abbrev pub rule_on : ℕ → String → ℤ → AlertRule
rule_on id metric threshold = record {
  id = id;
  name = "high";
  asset_id = none;
  asset_type_filter = none;
  metric = metric;
  operator = ">";
  threshold = threshold;
  duration_s = 300;
  severity = "critical";
  notify_channels = [];
  is_active = true;
}

abbrev pub flood : Incident
flood = record {
  id = 1;
  title = "flood";
  severity = "critical";
  status = "open";
  asset_ids = 7 ∷ [];
  alert_ids = [];
  assigned_to = none;
  root_cause = none;
  resolution = none;
  opened_at = 900000;
  resolved_at = none;
}

abbrev pub http_check : ServiceCheck
http_check = record {
  id = 5;
  asset_id = 7;
  name = "home";
  type = "http";
  target = "http://a/";
  timeout_s = 5;
  expected_code = some 200;
  expected_body = none;
  is_active = true;
}

abbrev pub site : List AlertRule → MonitorDb
site rules = record {
  assets =
      asset_with 7 "server" "online" (some 1000000)
      ∷ asset_with 8 "switch" "online" (some 100000)
      ∷ [];
  rules = rules;
  metrics = measured 7 900000 ∷ measured 7 1000000 ∷ [];
  alerts = [];
  notifications = [];
  incidents = flood ∷ [];
  entries = [];
  checks = http_check ∷ [];
  check_rows =
      record { check_id = 5; checked_at = 900000; status = "ok"; message = "HTTP 200" } ∷ [];
  settings = [];
  next_alert = 1;
  next_rule = 4;
  users = 1 ∷ [];
  next_incident = 2;
}

abbrev pub on_cpu : AlertRule
on_cpu = rule_on 3 "cpu_usage" (pos 90)

abbrev pub kim : AuthUser
kim = record { id = 1; username = "kim"; email = "kim@example.com"; role = admin }

pub set : cooldown (site (on_cpu ∷ [])) ≡ some (pos 300000)
unfolding cooldown_s parse_int
set = refl

pub limit : threshold_min (site []) ≡ some (pos 5)
unfolding threshold_min parse_int
limit = refl
