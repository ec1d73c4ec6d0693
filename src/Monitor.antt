-- ===== src/Monitor.antt =====
-- The tables that monitoring shares, and web/src/lib/notify.ts, which every job calls to tell
-- people about an alert. Times are in milliseconds.
pub mod Checks
pub mod Evaluation
pub mod Lifecycle
pub mod Loops
pub mod Incidents
pub mod Offline
pub mod Rules
pub mod Timeline
mod Tests
use go_digi.Prelude.{
  ℕ, suc, String, Bool, true, false, ◌&&◌, Option, none, some, List, [], ◌∷◌, ◌++◌, str_eq, ◌==◌,
  find, or_else, if◌then◌else◌,
}
use go_digi.Prelude.Int.{ℤ}
use go_digi.Prelude.Text.{◌+++◌}
use go_digi.Http.{Handler, Any, Hands-Any, continue-keeps, gets, modify, pure, ◌>>=◌, ◌>>◌}

-- a row of `assets`; `ip_text` is `ip_address::text`, which has the length of the mask behind it
pub record Asset : Type 0 where
  pub id : ℕ
  pub name : String
  pub hostname : Option String
  pub ip_text : Option String
  pub type : String
  pub status : String
  pub is_active : Bool
  pub last_seen : Option ℕ

-- A column as the driver hands it over: FLOAT as a number; BIGINT as the text of a number and
-- TIMESTAMPTZ as a Date, which are no numbers, but which the orders turn into one.
pub data Reading : Type 0 where
  number : ℤ → Reading
  text : ℤ → Reading

pub record Metric : Type 0 where
  pub asset_id : ℕ
  pub collected_at : ℕ
  pub cpu_usage : Option Reading
  pub mem_usage : Option Reading
  pub disk_read_bps : Option Reading
  pub disk_write_bps : Option Reading
  pub disk_usage_pct : Option Reading
  pub net_rx_bps : Option Reading
  pub net_tx_bps : Option Reading

pub record AlertRule : Type 0 where
  pub id : ℕ
  pub name : String
  pub asset_id : Option ℕ
  pub asset_type_filter : Option String
  pub metric : String
  pub operator : String
  pub threshold : ℤ
  pub duration_s : ℕ
  pub severity : String
  pub notify_channels : List String
  pub is_active : Bool

pub record Alert : Type 0 where
  pub id : ℕ
  pub rule_id : Option ℕ
  pub asset_id : Option ℕ
  pub severity : String
  pub title : String
  pub source : String
  pub status : String
  pub fired_at : ℕ
  pub acked_at : Option ℕ
  pub resolved_at : Option ℕ

pub record Notification : Type 0 where
  pub alert_id : ℕ
  pub channel : String
  pub recipient : Option String
  pub status : String

pub record Incident : Type 0 where
  pub id : ℕ
  pub title : String
  pub severity : String
  pub status : String
  pub asset_ids : List ℕ
  pub alert_ids : List ℕ
  pub assigned_to : Option ℕ
  pub root_cause : Option String
  pub resolution : Option String
  pub opened_at : ℕ
  pub resolved_at : Option ℕ

-- a row of `incident_timeline`
pub record Entry : Type 0 where
  pub incident_id : ℕ
  pub user_id : Option ℕ
  pub event_type : String
  pub content : Option String

-- a row of `service_checks`
pub record ServiceCheck : Type 0 where
  pub id : ℕ
  pub asset_id : ℕ
  pub name : String
  pub type : String
  pub target : String
  pub timeout_s : ℕ
  pub expected_code : Option ℕ
  pub expected_body : Option String
  pub is_active : Bool

-- a row of `service_check_results`
pub record CheckRow : Type 0 where
  pub check_id : ℕ
  pub checked_at : ℕ
  pub status : String
  pub message : String

-- `users` are the ids of the table of that name
pub record MonitorDb : Type 0 where
  pub users : List ℕ
  pub assets : List Asset
  pub rules : List AlertRule
  pub metrics : List Metric
  pub alerts : List Alert
  pub notifications : List Notification
  pub incidents : List Incident
  pub entries : List Entry
  pub checks : List ServiceCheck
  pub check_rows : List CheckRow
  pub settings : List (String × String)
  pub next_alert : ℕ
  pub next_rule : ℕ
  pub next_incident : ℕ

-- The jobs return nothing; a throw ends them.
abbrev pub Job : Type 0 → Type 0
Job A = Handler Unit MonitorDb A

abbrev pub for_each {ℓ} : {A : Type ℓ} → (A → Job Unit) → List A → Job Unit
for_each f [] = pure tt
for_each f (x ∷ xs) = do f x; for_each f xs

abbrev value_of : Option (String × String) → String
value_of none = ""
value_of (some (key, value)) = value

-- a row of `system_settings`; a missing row is treated like an empty value
abbrev pub setting : String → MonitorDb → String
setting key db = value_of (find (λ (k, v). str_eq k key) db.settings)

-- What the services outside answer: whether the webhook said ok, whether the mail was taken.
pub record Services : Type 0 where
  pub post_slack : String → Bool
  pub send_mail : List String → String → Bool

abbrev not_empty : String → Bool
not_empty s = if str_eq s "" then false else true

abbrev recipients_given : Option (List String) → List String
recipients_given none = []
recipients_given (some to) = to

abbrev some_recipients : List String → Bool
some_recipients [] = false
some_recipients (x ∷ xs) = true

module _ (services : Services) where
  send_slack : String → MonitorDb → Bool
  send_slack title db = not_empty (setting "slack_webhook_url" db) && services.post_slack title

  send_email : List String → String → MonitorDb → Bool
  send_email to title db = not_empty (setting "smtp_host" db) && services.send_mail to title

  deliver : String → Option (List String) → String → MonitorDb → Bool
  unfolding send_slack send_email
  deliver channel recipients title db =
      if str_eq channel "slack"
      then send_slack title db
      else if str_eq channel "email" && some_recipients (recipients_given recipients)
      then send_email (recipients_given recipients) title db
      else false

  abbrev pub join : List String → String
  join [] = ""
  join (x ∷ []) = x
  join (x ∷ xs) = x +++ "," +++ join xs

  abbrev recipient_of : String → Option (List String) → Option String
  recipient_of channel none = none
  recipient_of channel (some to) = if str_eq channel "email" then some (join to) else none

  notify : ℕ → String → Option (List String) → String → Job Unit
  unfolding deliver
  notify alert_id title recipients channel = do
    success ← gets (deliver channel recipients title)
    modify (λ db. record db {
      notifications =
          db.notifications
          ++ (record {
            alert_id = alert_id;
            channel = channel;
            recipient = recipient_of channel recipients;
            status = if success then "sent" else "failed";
          })
            ∷ [];
    })

  unfoldable pub send_alert : ℕ → String → List String → Option (List String) → Job Unit
  unfolding notify
  send_alert alert_id title channels recipients =
      for_each (notify alert_id title recipients) channels

-- What each round of a loop keeps, the loop keeps, wherever it stops.
pub for_each-keeps :
    {A : Type 0} (P : MonitorDb → Type 0) (f : A → Job Unit) (xs : List A) (db : MonitorDb)
    → ((x : A) (s : MonitorDb) → P s → P (f x s).1)
    → P db
    → P (for_each f xs db).1
for_each-keeps P f [] db keeps h = h
for_each-keeps P f (x ∷ xs) db keeps h =
    continue-keeps P Any (f x db).0 (λ _. for_each f xs) (f x db).1 (keeps x db h)
      (Hands-Any (f x db).0) (λ _ _. for_each-keeps P f xs (f x db).1 keeps (keeps x db h))

-- Sending writes notifications only.
pub send_alert-keeps :
    (services : Services) (P : MonitorDb → Type 0)
    → ((s : MonitorDb) (ns : List Notification) → P s → P (record s { notifications = ns }))
    → (alert_id : ℕ) (title : String) (channels : List String) (to : Option (List String))
      (db : MonitorDb)
    → P db
    → P (send_alert services alert_id title channels to db).1
unfolding send_alert
send_alert-keeps services P free alert_id title channels to db h =
    for_each-keeps P (notify services alert_id title to) channels db (λ c s k. free s _ k) h
