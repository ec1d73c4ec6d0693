-- ===== src/Monitor/Incidents/Logged.antt =====
-- The timeline that PATCH of web/src/app/api/incidents/route.ts writes.
use go_digi.Prelude.{
  ℕ, ◌≡◌, refl, String, true, Option, none, some, [], ◌∷◌, ◌++◌, arith, str_eq, is_some, Bool-cases,
  inl, inr, if◌then◌else◌, ◌&&◌,
}
use go_digi.Http.{Response, ok, run, pure, ◌>>◌}
use go_digi.Accounts.{AuthUser, require_auth}
use go_digi.Monitor.{Entry, Incident, MonitorDb}
use go_digi.Monitor.Incidents.{
  IncidentChange, incident_of, is_user, is_stranger, insert_entry, patch_incident, IncidentsHandler,
  update_incident, change_status, set_status, set_assigned, assign, apply_change,
}
use go_digi.Monitor.Incidents.Atomic.{has_incident-update}
use go_digi.Prelude.Text.{◌+++◌}
use mathlib.Core.Path.{subst, sym}

-- the type of the entry that an action leaves
abbrev pub event_of : String → Option String
event_of action =
    if str_eq action "status"
    then some "status_change"
    else if str_eq action "comment"
    then some "comment"
    else if str_eq action "assign"
    then some "assigned"
    else none

module _ (now : ℕ) (user : AuthUser) (id : ℕ) (db : MonitorDb) where
  -- what an answer ok says of the timeline
  abbrev pub Logs : String → Option Response × MonitorDb → Type 0
  Logs event r =
      r.0 ≡ some ok
      → (is_some (incident_of id db) ≡ true)
        × (is_user user.id db ≡ true)
        × ((e : Entry) × (r.1.entries ≡ db.entries ++ e ∷ [])
            × (e.incident_id ≡ id)
            × (e.user_id ≡ some user.id)
            × (e.event_type ≡ event))

  abbrev ends : IncidentsHandler Unit → IncidentsHandler Response
  ends h = do h; pure ok

  entry-Logs :
      (event : String) (content : Option String) (f : Incident → Incident)
      → ((i : Incident) → (f i).id ≡ i.id)
      → Logs event (
          run
            (ends (insert_entry (some id) user.id event content))
            (update_incident (some id) f db))
  unfolding insert_entry
  entry-Logs event content f same =
      let known : is_some (incident_of id (update_incident (some id) f db))
          ≡ is_some (incident_of id db) =
        has_incident-update id _ f db.incidents same in
      elim (Bool-cases (is_some (incident_of id db))) [
        | inl e ↦ elim (Bool-cases (is_user user.id db)) [
          | inl u ↦ rw (known, e, u) (λ _. (refl, refl, (_, refl, refl, refl, refl)))
          | inr u ↦ rw (known, e, u) (λ h. cc)
        ]
        | inr e ↦ rw (known, e) (λ h. cc)
      ]

  comment-Logs :
      (content : Option String)
      → Logs "comment" (run (ends (insert_entry (some id) user.id "comment" content)) db)
  unfolding insert_entry
  comment-Logs content = elim (Bool-cases (is_some (incident_of id db))) [
    | inl e ↦ elim (Bool-cases (is_user user.id db)) [
      | inl u ↦ rw (e, u) (λ _. (refl, refl, (_, refl, refl, refl, refl)))
      | inr u ↦ rw (e, u) (λ h. cc)
    ]
    | inr e ↦ rw e (λ h. cc)
  ]

  status-Logs :
      (c : IncidentChange) (content : Option String)
      → Logs "status_change"
          (run (ends (change_status now user (record c { id = some id; content = content }))) db)
  status-Logs c none = λ h. cc
  status-Logs c (some status) =
      entry-Logs "status_change" (some ("상태 변경: " +++ status)) (set_status now status) (λ i. refl)

  assign-Logs :
      (c : IncidentChange)
      → Logs "assigned" (run (ends (assign user (record c { id = some id }))) db)
  assign-Logs c = elim (Bool-cases (is_some (incident_of id db) && is_stranger c.assigned_to db)) [
    | inl e ↦ rw e (λ h. cc)
    | inr e ↦ rw e (entry-Logs "assigned" (some "담당자 지정") (set_assigned c.assigned_to) (λ i. refl))
  ]

  change-Logs :
      (c : IncidentChange) (event : String)
      → event_of c.action ≡ some event
      → Logs event (run (ends (apply_change now user (record c { id = some id }))) db)
  change-Logs c event named = elim (Bool-cases (str_eq c.action "status")) [
    | inl e ↦
        let same : "status_change" ≡ event = ground arith in
        rw e (
          subst (λ v. Logs v (run (ends (change_status now user (record c { id = some id }))) db))
            same (status-Logs c c.content))
    | inr e ↦ rw e (elim (Bool-cases (str_eq c.action "comment")) [
      | inl k ↦
          let same : "comment" ≡ event = ground arith in
          rw k (
            subst (λ v. Logs v (run (ends (insert_entry (some id) user.id "comment" c.content)) db))
              same (comment-Logs c.content))
      | inr k ↦ elim (Bool-cases (str_eq c.action "assign")) [
        | inl l ↦
            let same : "assigned" ≡ event = ground arith in
            rw (k, l)
              (subst (λ v. Logs v (run (ends (assign user (record c { id = some id }))) db)) same
                (assign-Logs c))
        | inr l ↦ absurd (ground (arith, e, k, l, named))
      ]
    ])
  ]

-- A change of status, a comment and an assignment that answer ok are of an incident that exists,
-- by a user who has a row, and add one entry to the timeline, at its end: of that incident, that
-- user and the type of the action.
pub patch_incident-logs :
    (now : ℕ) (user : AuthUser) (change : IncidentChange) (id : ℕ) (event : String) (db : MonitorDb)
    → change.id ≡ some id
    → event_of change.action ≡ some event
    → (run (patch_incident now (some user) change) db).0 ≡ some ok
    → (is_some (incident_of id db) ≡ true)
      × (is_user user.id db ≡ true)
      × ((e : Entry) × ((run (patch_incident now (some user) change) db).1.entries
            ≡ db.entries ++ e ∷ [])
          × (e.incident_id ≡ id)
          × (e.user_id ≡ some user.id)
          × (e.event_type ≡ event))
unfolding patch_incident require_auth
patch_incident-logs now user change id event db of_id named =
    subst
      (λ i.
        Logs now user id db event
          (run (patch_incident now (some user) (record change { id = i })) db))
      (sym of_id) (change-Logs now user id db change event named)
