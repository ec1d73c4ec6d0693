-- ===== src/Monitor/Incidents/Atomic.antt =====
-- The statements of PATCH of web/src/app/api/incidents/route.ts run outside a transaction; still,
-- all of them take effect or none.
use mathlib.Core.Path.{sym, ap, subst}
use go_digi.Prelude.{
  ℕ, ◌≡◌, refl, ◌∙◌, String, Bool, true, false, Option, none, some, List, [], ◌∷◌, arith, str_eq,
  ==_iff, ◌==◌, Bool-cases, ◌⊎◌, inl, inr, find, find-update_where, touch, is_some, update_where,
  ◌&&◌,
}
use mathlib.Core.Option
use go_digi.Prelude.Text.{◌+++◌}
use go_digi.Http.{ok, run, next, continue-keeps, Any, Hands-Any, pure}
use go_digi.Accounts.{AuthUser, require_auth}
use go_digi.Monitor.{Incident, MonitorDb}
use go_digi.Monitor.Evaluation.{is_id}
use go_digi.Monitor.Incidents.{
  IncidentChange, incident_of, is_user, is_stranger, assign, insert_entry, apply_change,
  patch_incident, update_incident, change_status, set_status, set_assigned,
}

abbrev pub has_incident : ℕ → List Incident → Bool
has_incident id incidents = is_some (find (λ (i : Incident). i.id == id) incidents)

-- the incident of an id that may be missing
abbrev pub known : Option ℕ → MonitorDb → Bool
known none db = false
known (some id) db = is_some (incident_of id db)

update_rows-unknown :
    (id : ℕ) (f : Incident → Incident) (rows : List Incident)
    → has_incident id rows ≡ false
    → update_where (λ (i : Incident). is_id i.id (some id)) f rows ≡ rows
update_rows-unknown id f [] h = refl
update_rows-unknown id f (i ∷ rows) h = elim (Bool-cases (i.id == id)) [
  | inl e ↦ absurd (ground (arith, e))
  | inr e ↦
      let other : (id == i.id) ≡ false = ground (arith, e, ==_iff i.id id, ==_iff id i.id) in
      rw other (ap (λ rest. i ∷ rest) (update_rows-unknown id f rows (ground (arith, e))))
]

update_rows-none :
    (f : Incident → Incident) (rows : List Incident)
    → update_where (λ (i : Incident). is_id i.id none) f rows ≡ rows
update_rows-none f [] = refl
update_rows-none f (i ∷ rows) = ap (λ rest. i ∷ rest) (update_rows-none f rows)

-- an UPDATE of no incident, and one that keeps the ids
update_incident-unknown :
    (id : Option ℕ) (f : Incident → Incident) (db : MonitorDb)
    → known id db ≡ false
    → update_incident id f db ≡ db
update_incident-unknown none f db h =
    ap (λ rows. record db { incidents = rows }) (update_rows-none f db.incidents)
update_incident-unknown (some id) f db h =
    ap (λ rows. record db { incidents = rows }) (update_rows-unknown id f db.incidents h)

is_some-map : {A : Type 0} (f : A → A) (o : Option A) → is_some (Option.map f o) ≡ is_some o
is_some-map f none = refl
is_some-map f (some a) = refl

pub has_incident-update :
    (j : ℕ) (q : Incident → Bool) (f : Incident → Incident) (rows : List Incident)
    → ((i : Incident) → (f i).id ≡ i.id)
    → has_incident j (update_where q f rows) ≡ has_incident j rows
has_incident-update j q f rows h =
    ap is_some
      (find-update_where (λ (i : Incident). i.id == j) q f rows (λ i. ap (λ n. n == j) (h i)))
    ∙ is_some-map (touch q f) (find (λ (i : Incident). i.id == j) rows)

known-update_incident :
    (id at : Option ℕ) (f : Incident → Incident) (db : MonitorDb)
    → ((i : Incident) → (f i).id ≡ i.id)
    → known id (update_incident at f db) ≡ known id db
known-update_incident none at f db h = refl
known-update_incident (some id) at f db h = has_incident-update id _ f db.incidents h

insert_entry-known :
    (id : Option ℕ) (user_id : ℕ) (type : String) (content : Option String) (db : MonitorDb)
    → known id db ≡ true
    → is_user user_id db ≡ true
    → (insert_entry id user_id type content db).0 ≡ next tt
unfolding insert_entry
insert_entry-known none user_id type content db h u = cc
insert_entry-known (some id) user_id type content db h u = rw (h, u) refl

insert_entry-unknown :
    (id : Option ℕ) (user_id : ℕ) (type : String) (content : Option String) (db : MonitorDb)
    → known id db ≡ false
    → (insert_entry id user_id type content db).1 ≡ db
unfolding insert_entry
insert_entry-unknown none user_id type content db h = refl
insert_entry-unknown (some id) user_id type content db h = rw h refl

-- an UPDATE of an incident and the INSERT of its entry
changed-atomic :
    (id : Option ℕ) (f : Incident → Incident) (user_id : ℕ) (type : String)
    (content : Option String) (db : MonitorDb)
    → ((i : Incident) → (f i).id ≡ i.id)
    → is_user user_id db ≡ true
    → ((insert_entry id user_id type content (update_incident id f db)).0 ≡ next tt)
      ⊎ ((insert_entry id user_id type content (update_incident id f db)).1 ≡ db)
changed-atomic id f user_id type content db h u = elim (Bool-cases (known id db)) [
  | inl e ↦
      inl (insert_entry-known id user_id type content _ (known-update_incident id id f db h ∙ e) u)
  | inr e ↦ inr (
      subst (λ s. (insert_entry id user_id type content s).1 ≡ db)
        (sym (update_incident-unknown id f db e))
        (insert_entry-unknown id user_id type content db e))
]

comment-atomic :
    (id : Option ℕ) (user_id : ℕ) (type : String) (content : Option String) (db : MonitorDb)
    → is_user user_id db ≡ true
    → ((insert_entry id user_id type content db).0 ≡ next tt)
      ⊎ ((insert_entry id user_id type content db).1 ≡ db)
comment-atomic id user_id type content db u = elim (Bool-cases (known id db)) [
  | inl e ↦ inl (insert_entry-known id user_id type content db e u)
  | inr e ↦ inr (insert_entry-unknown id user_id type content db e)
]

assign-atomic :
    (user : AuthUser) (c : IncidentChange) (db : MonitorDb)
    → is_user user.id db ≡ true
    → ((assign user c db).0 ≡ next tt) ⊎ ((assign user c db).1 ≡ db)
assign-atomic user c db u = checked c.id
  where
    written :
        (id : Option ℕ)
        → ((insert_entry id user.id "assigned"
              (some "담당자 지정")
              (update_incident id (set_assigned c.assigned_to) db)).0
            ≡ next tt)
          ⊎ ((insert_entry id user.id "assigned"
                (some "담당자 지정")
                (update_incident id (set_assigned c.assigned_to) db)).1
              ≡ db)
    written id =
        changed-atomic id (set_assigned c.assigned_to) user.id "assigned" _ db (λ i. refl) u

    checked :
        (id : Option ℕ)
        → ((assign user (record c { id = id }) db).0 ≡ next tt)
          ⊎ ((assign user (record c { id = id }) db).1 ≡ db)
    checked none = written none
    checked (some id) =
        elim (Bool-cases (is_some (incident_of id db) && is_stranger c.assigned_to db)) [
          | inl e ↦ rw e (inr refl)
          | inr e ↦ rw e (written (some id))
        ]

apply_change-atomic :
    (now : ℕ) (user : AuthUser) (c : IncidentChange) (db : MonitorDb)
    → is_user user.id db ≡ true
    → ((apply_change now user c db).0 ≡ next tt) ⊎ ((apply_change now user c db).1 ≡ db)
apply_change-atomic now user c db u = elim (Bool-cases (str_eq c.action "status")) [
  | inl e ↦ rw e (status_atomic c.content)
  | inr e ↦ rw e (elim (Bool-cases (str_eq c.action "comment")) [
    | inl k ↦ rw k (comment-atomic c.id user.id "comment" c.content db u)
    | inr k ↦ rw k (elim (Bool-cases (str_eq c.action "assign")) [
      | inl l ↦ rw l (assign-atomic user c db u)
      | inr l ↦ rw l (elim (Bool-cases (str_eq c.action "update")) [
        | inl m ↦ rw m (inl refl)
        | inr m ↦ rw m (inl refl)
      ])
    ])
  ])
]
  where
    status_atomic :
        (content : Option String)
        → ((change_status now user (record c { content = content }) db).0 ≡ next tt)
          ⊎ ((change_status now user (record c { content = content }) db).1 ≡ db)
    status_atomic none = inr refl
    status_atomic (some status) =
        changed-atomic c.id (set_status now status) user.id "status_change"
          (some ("상태 변경: " +++ status)) db (λ i. refl) u

-- A change of an incident by a user who has a row in `users` and that ends with an exception has
-- changed nothing, though its statements run outside a transaction.
pub patch_incident-atomic :
    (now : ℕ) (user : AuthUser) (change : IncidentChange) (db : MonitorDb)
    → is_user user.id db ≡ true
    → (run (patch_incident now (some user) change) db).0 ≡ none
    → (run (patch_incident now (some user) change) db).1 ≡ db
unfolding patch_incident require_auth
patch_incident-atomic now user change db u h = elim (apply_change-atomic now user change db u) [
  | inl e ↦ absurd (ground (arith, e))
  | inr e ↦
      continue-keeps (λ s. s ≡ db) Any (apply_change now user change db).0 (λ _. pure ok) _ e
        (Hands-Any (apply_change now user change db).0) (λ _ _. e)
]
