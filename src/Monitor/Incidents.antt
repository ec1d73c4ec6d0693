-- ===== src/Monitor/Incidents.antt =====
-- POST, PATCH and DELETE of web/src/app/api/incidents/route.ts, with the foreign keys
-- of web/migrations/000001_initial.up.sql.
pub mod Atomic
pub mod Logged
use go_digi.Prelude.{
  ◌&&◌, any, not, ℕ, suc, String, Bool, true, false, Option, none, some, List, [], ◌∷◌, ◌++◌,
  str_eq, ◌==◌, find, is_some, or_else, update_where, delete_where, if◌then◌else◌,
}
use go_digi.Prelude.Text.{◌+++◌}
use go_digi.Http.{Handler, Response, ok, created, gets, modify, pure, raise, ◌>>=◌, ◌>>◌}
use go_digi.Accounts.{AuthUser, require_auth}
use go_digi.Monitor.{Incident, Entry, MonitorDb}
use go_digi.Monitor.Evaluation.{is_id}
use go_digi.Monitor.Offline.{new_incident, insert_incident, note}

abbrev pub IncidentsHandler : Type 0 → Type 0
IncidentsHandler A = Handler Response MonitorDb A

pub record IncidentBody : Type 0 where
  pub title : Option String
  pub severity : Option String
  pub asset_ids : Option (List ℕ)
  pub alert_ids : Option (List ℕ)

-- a column that must not be NULL
abbrev not_null : {A : Type 0} → Option A → IncidentsHandler A
not_null none db = raise "violates not-null constraint" db
not_null (some a) db = pure a db

abbrev pub incident_of : ℕ → MonitorDb → Option Incident
incident_of id db = find (λ (i : Incident). i.id == id) db.incidents

-- REFERENCES users(id)
abbrev pub is_user : ℕ → MonitorDb → Bool
is_user id db = any (λ n. n == id) db.users

-- incident_id INT NOT NULL REFERENCES incidents(id), user_id INT REFERENCES users(id)
unfoldable pub insert_entry : Option ℕ → ℕ → String → Option String → IncidentsHandler Unit
insert_entry none user_id event_type content db = raise "violates not-null constraint" db
insert_entry (some id) user_id event_type content db =
    if is_some (incident_of id db) && is_user user_id db
    then modify (note id (some user_id) event_type content) db
    else raise "violates foreign key constraint" db

-- the sequence of the ids moves on, also where the row is refused
abbrev next_id : IncidentsHandler ℕ
next_id = do
  id ← gets (λ db. db.next_incident)
  modify (λ db. record db { next_incident = suc db.next_incident })
  pure id

abbrev pub incident_from : ℕ → ℕ → String → String → IncidentBody → Incident
incident_from id now title severity body =
    new_incident id now title severity (or_else body.asset_ids []) (or_else body.alert_ids [])

unfoldable pub create_incident : ℕ → Option AuthUser → IncidentBody → IncidentsHandler Response
unfolding require_auth
create_incident now session body = do
  user ← require_auth session
  id ← next_id
  title ← not_null body.title
  severity ← not_null body.severity
  modify (λ db. record db {
    incidents = db.incidents ++ incident_from id now title severity body ∷ [];
  })
  insert_entry (some id) user.id "status_change" (some "인시던트가 생성되었습니다")
  pure (created id)

pub record IncidentChange : Type 0 where
  pub id : Option ℕ
  pub action : String
  pub content : Option String
  pub assigned_to : Option ℕ
  pub root_cause : Option String
  pub resolution : Option String

abbrev pub set_status : ℕ → String → Incident → Incident
set_status now status i = record i {
  status = status;
  resolved_at = if str_eq status "resolved" then some now else i.resolved_at;
}

abbrev pub set_assigned : Option ℕ → Incident → Incident
set_assigned user_id i = record i { assigned_to = user_id }

abbrev pub set_cause : IncidentChange → Incident → Incident
set_cause c i = record i { root_cause = c.root_cause; resolution = c.resolution }

-- WHERE id = $n, which no row meets where there is no id
abbrev pub update_incident : Option ℕ → (Incident → Incident) → MonitorDb → MonitorDb
update_incident id f db = record db { incidents = update_where (λ i. is_id i.id id) f db.incidents }

-- A status of NULL is refused by the UPDATE or, where no row has the id, by the INSERT after it.
abbrev pub change_status : ℕ → AuthUser → IncidentChange → IncidentsHandler Unit
change_status now user c = do
  status ← not_null c.content
  modify (update_incident c.id (set_status now status))
  insert_entry c.id user.id "status_change" (some ("상태 변경: " +++ status))

abbrev is_stranger : Option ℕ → MonitorDb → Bool
is_stranger none db = false
is_stranger (some id) db = not (is_user id db)

-- the foreign key of an UPDATE of a row that there is
abbrev pub check_assigned : Option ℕ → Option ℕ → IncidentsHandler Unit
check_assigned none user_id db = pure tt db
check_assigned (some id) user_id db =
    if is_some (incident_of id db) && is_stranger user_id db
    then raise "violates foreign key constraint" db
    else pure tt db

abbrev pub assign : AuthUser → IncidentChange → IncidentsHandler Unit
assign user c = do
  check_assigned c.id c.assigned_to
  modify (update_incident c.id (set_assigned c.assigned_to))
  insert_entry c.id user.id "assigned" (some "담당자 지정")

abbrev pub apply_change : ℕ → AuthUser → IncidentChange → IncidentsHandler Unit
apply_change now user c =
    if str_eq c.action "status"
    then change_status now user c
    else if str_eq c.action "comment"
    then insert_entry c.id user.id "comment" c.content
    else if str_eq c.action "assign"
    then assign user c
    else if str_eq c.action "update"
    then modify (update_incident c.id (set_cause c))
    else pure tt

unfoldable pub patch_incident : ℕ → Option AuthUser → IncidentChange → IncidentsHandler Response
unfolding require_auth
patch_incident now session change = do
  user ← require_auth session
  apply_change now user change
  pure ok

-- DELETE, which cascades to the entries
unfoldable pub delete_incident : Option AuthUser → Option ℕ → IncidentsHandler Response
unfolding require_auth
delete_incident session id = do
  require_auth session
  modify (λ db. record db {
    incidents = delete_where (λ i. is_id i.id id) db.incidents;
    entries = delete_where (λ e. is_id e.incident_id id) db.entries;
  })
  pure ok
