-- ===== src/Monitor/Timeline/Steps.antt =====
-- What a sequence of steps keeps of the alerts that the job of the rules and each of the other
-- statements on them keep.
use mathlib.Core.Path.{subst, sym}
use go_digi.Prelude.{
  ℕ, ◌≡◌, ◌∙◌, String, Option, List, [], ◌∷◌, ◌++◌, arith, Bool-cases, inl, inr, str_eq,
  update_where,
}
use go_digi.Http.{run, found-keeps}
use go_digi.Accounts.{AuthUser, require_auth}
use go_digi.Monitor.{ServiceCheck, Alert, Asset, MonitorDb, Services}
use go_digi.Monitor.Evaluation.{run_alert_evaluation, truthy_id}
use go_digi.Monitor.Lifecycle.{
  AlertBody, body_id, act, post_alert, can_ack, can_resolve, acked, resolved,
}
use go_digi.Monitor.Checks.{failure_alert, is_failure, ended}
use go_digi.Monitor.Timeline.Checks.{run_service_checks-keeps}
use go_digi.Monitor.Offline.{is_outage, outage_alert, off}
use go_digi.Monitor.Rules.{RuleBody, RuleChange, create_rule, update_rule, delete_rule}
use go_digi.Monitor.Incidents.{
  IncidentBody, IncidentChange, insert_entry, create_incident, patch_incident, delete_incident,
}
use go_digi.Monitor.Timeline.{
  Event, evaluate_alerts, check_offline, check_services, post, rule_created, rule_changed,
  rule_deleted, incident_created, incident_changed, incident_deleted, elsewhere, serve, serve_all,
}
use go_digi.Monitor.Timeline.Rounds.{Holds, offline_check-keeps}

-- the requests that leave the alerts and the settings alone
abbrev Same : MonitorDb → MonitorDb → Type 0
Same a b = (b.alerts ≡ a.alerts) × (b.settings ≡ a.settings)

create_rule-Same :
    (session : Option AuthUser) (body : RuleBody) (db : MonitorDb)
    → Same db (run (create_rule session body) db).1
unfolding create_rule require_auth
create_rule-Same session body db = (ground arith, ground arith)

update_rule-Same :
    (session : Option AuthUser) (change : RuleChange) (db : MonitorDb)
    → Same db (run (update_rule session change) db).1
unfolding update_rule require_auth
update_rule-Same session change db = (ground arith, ground arith)

delete_rule-Same :
    (session : Option AuthUser) (id : Option ℕ) (db : MonitorDb)
    → Same db (run (delete_rule session id) db).1
unfolding delete_rule require_auth
delete_rule-Same session id db = (ground arith, ground arith)

create_incident-Same :
    (now : ℕ) (session : Option AuthUser) (body : IncidentBody) (db : MonitorDb)
    → Same db (run (create_incident now session body) db).1
unfolding create_incident insert_entry require_auth
create_incident-Same now session body db = (ground arith, ground arith)

patch_incident-Same :
    (now : ℕ) (session : Option AuthUser) (change : IncidentChange) (db : MonitorDb)
    → Same db (run (patch_incident now session change) db).1
unfolding patch_incident insert_entry require_auth
patch_incident-Same now session change db = (ground arith, ground arith)

delete_incident-Same :
    (session : Option AuthUser) (id : Option ℕ) (db : MonitorDb)
    → Same db (run (delete_incident session id) db).1
unfolding delete_incident require_auth
delete_incident-Same session id db = (ground arith, ground arith)

module _ (Q : List Alert → Type 0) (settings : List (String × String)) where
  Holds-Same : (a b : MonitorDb) → Same a b → Holds Q settings a → Holds Q settings b
  Holds-Same a b (alerts, same) (h, k) = (subst Q (sym alerts) h, same ∙ k)

  module _
      (acks : (now id : ℕ) (xs : List Alert) → Q xs → Q (update_where (can_ack id) (acked now) xs))
      (resolves : (now id : ℕ) (xs : List Alert)
        → Q xs
        → Q (update_where (can_resolve id) (resolved now) xs)) where
    post_alert-Holds :
        (now : ℕ) (body : AlertBody) (db : MonitorDb)
        → Holds Q settings db
        → Holds Q settings (run (post_alert now body) db).1
    unfolding post_alert act
    post_alert-Holds now body db h =
        found-keeps (Holds Q settings) (truthy_id (body_id body)) _ _ db h λ id _.
          elim (Bool-cases (str_eq body.action "")) [
            | inl e ↦ rw e h
            | inr e ↦ rw e (elim (Bool-cases (str_eq body.action "ack")) [
              | inl k ↦ rw k (acks now id db.alerts h.0, h.1)
              | inr k ↦ rw k (elim (Bool-cases (str_eq body.action "resolve")) [
                | inl l ↦ rw l (resolves now id db.alerts h.0, h.1)
                | inr l ↦ rw l h
              ])
            ])
          ]

    module _ (services : Services)
        (evaluates : (now : ℕ) (db : MonitorDb)
          → Holds Q settings db
          → Holds Q settings (run_alert_evaluation services now db))
        (inserts : (now id : ℕ) (a : Asset) (xs : List Alert)
          → Q xs
          → Q (xs ++ outage_alert id now a ∷ []))
        (clears : (now asset_id : ℕ) (xs : List Alert)
          → Q xs
          → Q (update_where (is_outage asset_id) (off now) xs))
        (failures : (now id : ℕ) (c : ServiceCheck) (xs : List Alert)
          → Q xs
          → Q (xs ++ failure_alert id now c ∷ []))
        (ends : (now : ℕ) (c : ServiceCheck) (xs : List Alert)
          → Q xs
          → Q (update_where (is_failure c) (ended now) xs)) where
      serve-Holds :
          (e : Event) (db : MonitorDb)
          → Holds Q settings db
          → Holds Q settings (serve services e db)
      unfolding serve
      serve-Holds (evaluate_alerts now) db h = evaluates now db h
      serve-Holds (check_offline now) db h =
          offline_check-keeps Q settings services now (inserts now) (clears now) db h
      serve-Holds (check_services network now) db h =
          run_service_checks-keeps (Holds Q settings) network services now (λ _ _ k. k) (λ _ _ k. k)
            (λ id c s k. (failures now id c s.alerts k.0, k.1))
            (λ c s k. (ends now c s.alerts k.0, k.1)) db h
      serve-Holds (post now body) db h = post_alert-Holds now body db h
      serve-Holds (rule_created session body) db h =
          Holds-Same db (run (create_rule session body) db).1 (create_rule-Same session body db) h
      serve-Holds (rule_changed session change) db h =
          Holds-Same db (run (update_rule session change) db).1 (update_rule-Same session change db)
            h
      serve-Holds (rule_deleted session id) db h =
          Holds-Same db (run (delete_rule session id) db).1 (delete_rule-Same session id db) h
      serve-Holds (incident_created now session body) db h =
          Holds-Same db (run (create_incident now session body) db).1
            (create_incident-Same now session body db) h
      serve-Holds (incident_changed now session change) db h =
          Holds-Same db (run (patch_incident now session change) db).1
            (patch_incident-Same now session change db) h
      serve-Holds (incident_deleted session id) db h =
          Holds-Same db (run (delete_incident session id) db).1 (delete_incident-Same session id db)
            h
      serve-Holds (elsewhere assets metrics) db h = h

      pub serve_all-Holds :
          (es : List Event) (db : MonitorDb)
          → Holds Q settings db
          → Holds Q settings (serve_all services es db)
      unfolding serve_all
      serve_all-Holds [] db h = h
      serve_all-Holds (e ∷ es) db h = serve_all-Holds es (serve services e db) (serve-Holds e db h)
