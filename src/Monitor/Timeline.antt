-- ===== src/Monitor/Timeline.antt =====
-- Everything that writes alerts and incidents, one step after the other: the two jobs of
-- web/src/lib/alert-engine.ts, the one of web/src/lib/service-checker.ts, and the requests of web/src/app/api/alerts/route.ts,
-- web/src/app/api/alerts/rules/route.ts and web/src/app/api/incidents/route.ts. What the rest of
-- the program does to the assets and the metrics is any change of these.
pub mod Rounds
pub mod Checks
pub mod Steps
pub mod History
pub mod Spacing
use go_digi.Prelude.{ℕ, List, [], ◌∷◌, Option}
use go_digi.Http.{run}
use go_digi.Accounts.{AuthUser}
use go_digi.Monitor.{Asset, Metric, MonitorDb, Services}
use go_digi.Monitor.Checks.{Network, run_service_checks}
use go_digi.Monitor.Evaluation.{run_alert_evaluation}
use go_digi.Monitor.Lifecycle.{AlertBody, post_alert}
use go_digi.Monitor.Offline.{run_offline_check}
use go_digi.Monitor.Rules.{RuleBody, RuleChange, create_rule, update_rule, delete_rule}
use go_digi.Monitor.Incidents.{
  IncidentBody, IncidentChange, create_incident, patch_incident, delete_incident,
}

pub data Event : Type 0 where
  evaluate_alerts : (now : ℕ) → Event
  check_offline : (now : ℕ) → Event
  check_services : Network → (now : ℕ) → Event
  post : (now : ℕ) → AlertBody → Event
  rule_created : Option AuthUser → RuleBody → Event
  rule_changed : Option AuthUser → RuleChange → Event
  rule_deleted : Option AuthUser → Option ℕ → Event
  incident_created : (now : ℕ) → Option AuthUser → IncidentBody → Event
  incident_changed : (now : ℕ) → Option AuthUser → IncidentChange → Event
  incident_deleted : Option AuthUser → Option ℕ → Event
  elsewhere : List Asset → List Metric → Event

module _ (services : Services) where
  pub serve : Event → MonitorDb → MonitorDb
  serve (evaluate_alerts now) db = run_alert_evaluation services now db
  serve (check_offline now) db = run_offline_check services now db
  serve (check_services network now) db = (run_service_checks network services now db).1
  serve (post now body) db = (run (post_alert now body) db).1
  serve (rule_created session body) db = (run (create_rule session body) db).1
  serve (rule_changed session change) db = (run (update_rule session change) db).1
  serve (rule_deleted session id) db = (run (delete_rule session id) db).1
  serve (incident_created now session body) db = (run (create_incident now session body) db).1
  serve (incident_changed now session change) db = (run (patch_incident now session change) db).1
  serve (incident_deleted session id) db = (run (delete_incident session id) db).1
  serve (elsewhere assets metrics) db = record db { assets = assets; metrics = metrics }

  pub serve_all : List Event → MonitorDb → MonitorDb
  serve_all [] db = db
  serve_all (e ∷ es) db = serve_all es (serve e db)
