-- ===== src/Monitor/Offline.antt =====
-- `runOfflineCheck` of web/src/lib/alert-engine.ts: devices that fell silent are set offline, with
-- an alert and an incident; the alerts and incidents of those that are online are resolved. The
-- text of the message is left out of the alert, which has no column for it here.
pub mod Outages
pub mod Recovery
use go_digi.Prelude.{
  ℕ, suc, ◌+◌, ◌*◌, String, Bool, true, false, ◌&&◌, ◌||◌, not, Option, none, some, List, [], ◌∷◌,
  ◌++◌, any, str_eq, ◌==◌, find, select, update_where, if◌then◌else◌,
}
use go_digi.Prelude.Int.{ℤ, pos, negsuc, ltb_ℤ, ◌+ℤ◌}
use go_digi.Prelude.Text.{◌+++◌, like, parse_int, show}
use go_digi.Http.{gets, modify, pure, raise, ◌>>=◌, ◌>>◌}
use go_digi.Monitor.{
  Asset, Alert, Incident, Entry, MonitorDb, Job, Services, for_each, setting, send_alert,
}
use go_digi.Monitor.Evaluation.{insert_alert, is_id}

-- type IN ('server', 'switch', 'router', 'firewall')
abbrev pub is_watched : String → Bool
is_watched type =
    str_eq type "server" || str_eq type "switch" || str_eq type "router" || str_eq type "firewall"

abbrev pub is_network : String → Bool
is_network type = str_eq type "switch" || str_eq type "router" || str_eq type "firewall"

-- parseInt(setting?.value || '5')
unfoldable pub threshold_min : MonitorDb → Option ℤ
threshold_min db =
    let value = setting "agent_check_interval" db in
    parse_int (if str_eq value "" then "5" else value)

-- minutes, in milliseconds
abbrev pub of_minutes : ℤ → ℤ
of_minutes (pos n) = pos (n * 60000)
of_minutes (negsuc n) = negsuc (n * 60000 + 59999)

-- last_seen IS NULL OR last_seen < now() - interval
abbrev pub unseen : ℕ → ℤ → Option ℕ → Bool
unseen now minutes none = true
unseen now minutes (some seen) = ltb_ℤ (pos seen +ℤ of_minutes minutes) (pos now)

abbrev pub is_silent : ℕ → ℤ → Asset → Bool
is_silent now minutes a =
    is_watched a.type && str_eq a.status "online" && unseen now minutes a.last_seen

abbrev pub switched_off : Asset → Asset
switched_off a = record a { status = "offline" }

abbrev pub outage_title : Asset → String
outage_title a = a.name +++ (if is_network a.type then " — 네트워크 장비 중단" else " — 서버 중단")

abbrev show_ℤ : ℤ → String
show_ℤ (pos n) = show n
show_ℤ (negsuc n) = "-" +++ show (suc n)

abbrev outage_message : ℤ → Asset → String
outage_message minutes a =
    (if is_network a.type then "네트워크 장비 응답 없음 (" else "Agent 응답 없음 (")
    +++ show_ℤ minutes
    +++ "분 이상)"

-- the active alert of an outage of the asset
abbrev pub is_outage : ℕ → Alert → Bool
is_outage asset_id a =
    is_id asset_id a.asset_id
    && str_eq a.source "threshold"
    && str_eq a.status "active"
    && like "%중단%" a.title

abbrev pub outage_alert : ℕ → ℕ → Asset → Alert
outage_alert id now asset = record {
  id = id;
  rule_id = none;
  asset_id = some asset.id;
  severity = "critical";
  title = outage_title asset;
  source = "threshold";
  status = "active";
  fired_at = now;
  acked_at = none;
  resolved_at = none;
}

-- an unresolved incident of the asset
abbrev pub is_open : ℕ → Incident → Bool
is_open asset_id i = any (λ id. id == asset_id) i.asset_ids && not (str_eq i.status "resolved")

abbrev pub new_incident : ℕ → ℕ → String → String → List ℕ → List ℕ → Incident
new_incident id now title severity asset_ids alert_ids = record {
  id = id;
  title = title;
  severity = severity;
  status = "open";
  asset_ids = asset_ids;
  alert_ids = alert_ids;
  assigned_to = none;
  root_cause = none;
  resolution = none;
  opened_at = now;
  resolved_at = none;
}

abbrev pub insert_incident : Incident → MonitorDb → MonitorDb
insert_incident i db = record db {
  incidents = db.incidents ++ i ∷ [];
  next_incident = suc db.next_incident;
}

abbrev pub note : ℕ → Option ℕ → String → Option String → MonitorDb → MonitorDb
note incident_id user_id event_type content db = record db {
  entries =
      db.entries
      ++ (record {
        incident_id = incident_id;
        user_id = user_id;
        event_type = event_type;
        content = content;
      })
        ∷ [];
}

abbrev pub closed : ℕ → Incident → Incident
closed now i = record i { status = "resolved"; resolved_at = some now }

abbrev pub resolve_incident : ℕ → ℕ → MonitorDb → MonitorDb
resolve_incident now id db = record db {
  incidents = update_where (λ i. i.id == id) (closed now) db.incidents;
}

abbrev pub off : ℕ → Alert → Alert
off now a = record a { status = "resolved"; resolved_at = some now }

abbrev pub resolve_outages : ℕ → ℕ → MonitorDb → MonitorDb
resolve_outages now asset_id db = record db {
  alerts = update_where (is_outage asset_id) (off now) db.alerts;
}

module _ (services : Services) (now : ℕ) where
  abbrev fire_outage : Asset → Job Unit
  fire_outage asset = do
    id ← gets (λ db. db.next_alert)
    modify (insert_alert (outage_alert id now asset))
    send_alert services id (outage_title asset) ("slack" ∷ "email" ∷ []) none

  unfoldable pub alert_outage : Asset → Job Unit
  alert_outage asset = do
    existing ← gets (λ db. any (is_outage asset.id) db.alerts)
    if existing then pure tt else fire_outage asset

module _ (now : ℕ) where
  abbrev open_incident : ℤ → Asset → Job Unit
  open_incident minutes asset = do
    id ← gets (λ db. db.next_incident)
    modify
        (insert_incident (new_incident id now (outage_title asset) "critical" (asset.id ∷ []) []))
    modify (note id none "status_change" (some ("[자동] " +++ outage_message minutes asset)))

  unfoldable pub report_incident : ℤ → Asset → Job Unit
  report_incident minutes asset = do
    existing ← gets (λ db. any (is_open asset.id) db.incidents)
    if existing then pure tt else open_incident minutes asset

  abbrev close_incident : Asset → Option Incident → Job Unit
  close_incident asset none = pure tt
  close_incident asset (some i) = do
    modify (resolve_incident now i.id)
    modify (note i.id none "status_change" (some ("[자동] " +++ asset.name +++ " 복구 감지 — 장애 자동 해결")))

  -- the body of the loop over the devices that are online
  unfoldable pub recover : Asset → Job Unit
  recover asset = do
    modify (resolve_outages now asset.id)
    incident ← gets (λ db. find (is_open asset.id) db.incidents)
    close_incident asset incident

  abbrev pub switch_off : ℤ → Job (List Asset)
  switch_off minutes = do
    silent ← gets (λ db. select (is_silent now minutes) db.assets)
    modify
        (λ db. record db { assets = update_where (is_silent now minutes) switched_off db.assets })
    pure silent

-- an interval of NaN minutes is an error of the query
abbrev pub valid_minutes : Option ℤ → Job ℤ
valid_minutes none = raise "invalid input syntax for type interval"
valid_minutes (some minutes) = pure minutes

abbrev pub is_back : Asset → Bool
is_back a = str_eq a.status "online" && is_watched a.type

module _ (services : Services) (now : ℕ) where
  -- the body of the loop over the devices that fell silent
  unfoldable pub report_outage : ℤ → Asset → Job Unit
  report_outage minutes asset = do
    alert_outage services now asset
    report_incident now minutes asset

  -- the `try` block; what it wrote before a throw stays written
  unfoldable pub offline_check : Job Unit
  offline_check = do
    threshold ← gets threshold_min
    minutes ← valid_minutes threshold
    silent ← switch_off now minutes
    for_each (report_outage minutes) silent
    back ← gets (λ db. select is_back db.assets)
    for_each (recover now) back

  unfoldable pub run_offline_check : MonitorDb → MonitorDb
  run_offline_check db = (offline_check db).1
