-- ===== src/Monitor/Timeline/Checks.antt =====
-- What the checks of services keep that each of their statements keeps.
use go_digi.Prelude.{ℕ, Option, none, List, Bool-cases, inl, inr, str_eq, select}
use go_digi.Monitor.{
  MonitorDb, Notification, ServiceCheck, CheckRow, Services, send_alert-keeps, for_each-keeps,
}
use go_digi.Monitor.Evaluation.{insert_alert}
use go_digi.Monitor.Checks.{
  Network, CheckResult, perform, settle, run_check, run_service_checks, latest_row, was_ok,
  insert_row, react, failure_alert, failure_title, resolve_failures,
}

module _ (P : MonitorDb → Type 0) (network : Network) (services : Services) (now : ℕ)
    (sends : (s : MonitorDb) (ns : List Notification) → P s → P (record s { notifications = ns }))
    (stores : (s : MonitorDb) (rows : List CheckRow) → P s → P (record s { check_rows = rows }))
    (inserts : (id : ℕ) (c : ServiceCheck) (s : MonitorDb)
      → P s
      → P (insert_alert (failure_alert id now c) s))
    (resolves : (c : ServiceCheck) (s : MonitorDb) → P s → P (resolve_failures now c s)) where
  react-keeps :
      (c : ServiceCheck) (r : CheckResult) (prev : Option CheckRow) (db : MonitorDb)
      → P db
      → P (react services now c r prev db).1
  react-keeps c r prev db h = elim (Bool-cases (str_eq r.status "ok")) [
    | inl e ↦
        rw e (elim (Bool-cases (was_ok prev)) [ inl k ↦ rw k h | inr k ↦ rw k (resolves c db h) ])
    | inr e ↦ rw e (elim (Bool-cases (was_ok prev)) [
      | inl k ↦ rw k (
          send_alert-keeps services P sends db.next_alert (failure_title c) _ none _
            (inserts db.next_alert c db h))
      | inr k ↦ rw k h
    ])
  ]

  run_check-keeps :
      (c : ServiceCheck) (db : MonitorDb) → P db → P (run_check network services now c db).1
  unfolding run_check settle
  run_check-keeps c db h =
      let stored = insert_row now c (perform network c) db in
      react-keeps c (perform network c) (latest_row c.id now stored.check_rows) stored
        (stores db stored.check_rows h)

  pub run_service_checks-keeps :
      (db : MonitorDb) → P db → P (run_service_checks network services now db).1
  unfolding run_service_checks
  run_service_checks-keeps db h =
      for_each-keeps P (run_check network services now)
        (select (λ (c : ServiceCheck). c.is_active) db.checks) db run_check-keeps h
