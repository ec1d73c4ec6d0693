-- ===== src/Monitor/Tests/Requests.antt =====
-- Requests on alerts, rules and incidents, and a sequence of steps.
use go_digi.Prelude.{
  map, is_some, ◌++◌, Overrides, ◌≤◌, ◌<◌, ◌==◌, true, false, ℕ, ◌≡◌, ◌≢◌, ◌↔◌, refl, none, some,
  List, [], ◌∷◌, All, arith,
}
use go_digi.Prelude.Int.{pos}
use go_digi.Http.{run, ok}
use go_digi.Accounts.{require_auth}
use go_digi.Monitor.{Alert, AlertRule, Entry, Incident, MonitorDb}
use go_digi.Monitor.Evaluation.Cooldown.{AllSpaced}
use go_digi.Monitor.Rules.{
  minutes, RuleRow, RuleBody, RuleChange, create_rule, update_rule, delete_rule, rule_of,
}
use go_digi.Monitor.Rules.Durations.{listed, listed-create_rule}
use go_digi.Monitor.Rules.Changes.{rule_of-update_rule, delete_rule_iff}
use go_digi.Monitor.Incidents.{IncidentChange, patch_incident, insert_entry, incident_of, is_user}
use go_digi.Monitor.Incidents.Logged.{patch_incident-logs}
use go_digi.Monitor.Incidents.Atomic.{patch_incident-atomic}
use go_digi.Monitor.Timeline.{
  Event, evaluate_alerts, check_offline, check_services, post, incident_changed, incident_deleted,
  serve_all,
}
use go_digi.Monitor.Timeline.History.{Forward, serve_all-Forward}
use go_digi.Monitor.Timeline.Spacing.{serve_all-AllSpaced}
use go_digi.Monitor.Tests.{services, site, on_cpu, kim, set}
use go_digi.Monitor.Tests.Jobs.{down}

abbrev story : List Event
story =
    evaluate_alerts 1010000
    ∷ post 1020000 (record { id = some 1; alert_id = none; action = "resolve" })
    ∷ evaluate_alerts 1030000
    ∷ check_offline 1420000
    ∷ check_services down 1420500
    ∷ incident_changed 1430000 (some kim) (record {
      id = some 1;
      action = "status";
      content = some "investigating";
      assigned_to = none;
      root_cause = none;
      resolution = none;
    })
    ∷ incident_deleted (some kim) (some 2)
    ∷ []

serve_all-Forward_example :
    Forward (site (on_cpu ∷ [])).alerts (serve_all services story (site (on_cpu ∷ []))).alerts
serve_all-Forward_example = serve_all-Forward services story (site (on_cpu ∷ []))

serve_all-AllSpaced_example : AllSpaced (pos 300000) (serve_all services story (site (on_cpu ∷ [])))
serve_all-AllSpaced_example =
    serve_all-AllSpaced services (pos 300000) story (site (on_cpu ∷ [])) set tt

abbrev stray : IncidentChange
stray = record {
  id = some 9;
  action = "comment";
  content = some "?";
  assigned_to = none;
  root_cause = none;
  resolution = none;
}

patch_incident-atomic_example : (run (patch_incident 1 (some kim) stray) (site [])).1 ≡ site []
unfolding patch_incident insert_entry require_auth
patch_incident-atomic_example = patch_incident-atomic 1 kim stray (site []) refl refl

abbrev comment : IncidentChange
comment = record stray { id = some 1 }

patch_incident-logs_example :
    (is_some (incident_of 1 (site [])) ≡ true)
    × (is_user 1 (site []) ≡ true)
    × ((e : Entry) × ((run (patch_incident 1 (some kim) comment) (site [])).1.entries
          ≡ [] ++ e ∷ [])
        × (e.incident_id ≡ 1)
        × (e.user_id ≡ some 1)
        × (e.event_type ≡ "comment"))
patch_incident-logs_example =
    patch_incident-logs 1 kim comment 1 "comment" (site []) refl refl
      (unfold patch_incident insert_entry require_auth in refl)

-- A user without a row leaves the incident changed, although the request ends with an exception.
abbrev gone : MonitorDb
gone = record (site []) { users = [] }

abbrev to_resolved : IncidentChange
to_resolved = record comment { action = "status"; content = some "resolved" }

half_done_example :
    (run (patch_incident 1 (some kim) to_resolved) gone).0 ≡ none
    × map
        (λ (i : Incident). i.status)
        (run (patch_incident 1 (some kim) to_resolved) gone).1.incidents
      ≡ "resolved" ∷ []
unfolding patch_incident insert_entry require_auth
half_done_example = (refl, refl)

abbrev body : RuleBody
body = record {
  name = "mem";
  asset_id = some 7;
  asset_type_filter = none;
  metric = "mem_usage";
  operator = ">=";
  threshold = some (pos 80);
  duration_m = some (minutes 7 30);
  severity = none;
  notify_channels = none;
}

listed-create_rule_example :
    (x : RuleRow) × (listed 4 (some kim) (run (create_rule (some kim) body) (site (on_cpu ∷ []))).1
      ≡ some x)
    × (x.name ≡ body.name)
    × (x.asset_id ≡ body.asset_id)
    × (x.asset_type_filter ≡ body.asset_type_filter)
    × (x.metric ≡ body.metric)
    × (x.operator ≡ body.operator)
    × (x.threshold ≡ pos 80)
    × ((30 < 30 → x.duration_m ≡ 7) × (30 ≤ 30 → 30 < 90 → x.duration_m ≡ 8))
    × Overrides body.severity "critical" x.severity
    × Overrides body.notify_channels ("slack" ∷ []) x.notify_channels
    × (x.is_active ≡ true)
listed-create_rule_example =
    listed-create_rule kim body (pos 80) (site (on_cpu ∷ [])) refl refl refl (omega arith, tt)

abbrev change : RuleChange
change = record {
  id = some 3;
  name = none;
  asset_id = none;
  asset_type_filter = none;
  metric = none;
  operator = none;
  threshold = none;
  duration_s = none;
  duration_m = some (minutes 2 0);
  severity = some "warning";
  notify_channels = none;
  is_active = none;
}

changed : (run (update_rule (some kim) change) (site (on_cpu ∷ []))).0 ≡ some ok
unfolding update_rule require_auth
changed = refl

rule_of-update_rule_example :
    ((x : AlertRule) × (rule_of 3 (run (update_rule (some kim) change) (site (on_cpu ∷ []))).1
        ≡ some x)
      × (x.id ≡ 3)
      × (x.name ≡ on_cpu.name)
      × (x.asset_id ≡ on_cpu.asset_id)
      × (x.asset_type_filter ≡ on_cpu.asset_type_filter)
      × (x.metric ≡ on_cpu.metric)
      × (x.operator ≡ on_cpu.operator)
      × (x.threshold ≡ on_cpu.threshold)
      × (x.duration_s ≡ 120)
      × (x.severity ≡ "warning")
      × (x.notify_channels ≡ on_cpu.notify_channels)
      × (x.is_active ≡ on_cpu.is_active))
    × ((j : ℕ)
        → (j == 3) ≡ false
        → rule_of j (run (update_rule (some kim) change) (site (on_cpu ∷ []))).1
          ≡ rule_of j (site (on_cpu ∷ [])))
rule_of-update_rule_example =
    rule_of-update_rule kim change 3 (site (on_cpu ∷ [])) refl changed on_cpu refl

delete_rule_iff_example :
    (((run (delete_rule (some kim) (some 3)) (site (on_cpu ∷ []))).0 ≡ some ok)
      ↔ All (λ (a : Alert). a.rule_id ≢ some 3) (site (on_cpu ∷ [])).alerts)
    × ((run (delete_rule (some kim) (some 3)) (site (on_cpu ∷ []))).0 ≡ some ok
        → rule_of 3 (run (delete_rule (some kim) (some 3)) (site (on_cpu ∷ []))).1 ≡ none)
    × ((run (delete_rule (some kim) (some 3)) (site (on_cpu ∷ []))).0 ≢ some ok
        → run (delete_rule (some kim) (some 3)) (site (on_cpu ∷ [])) ≡ (none, site (on_cpu ∷ [])))
delete_rule_iff_example = delete_rule_iff kim 3 on_cpu (site (on_cpu ∷ [])) refl
