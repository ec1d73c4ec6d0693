-- ===== src/Monitor/Checks/Alarms.antt =====
-- Which alerts the results of a check lead to.
use mathlib.Core.Path.{sym, ap, subst}
use go_digi.Prelude.{
  ℕ, ◌+◌, ◌≤◌, ◌≡◌, refl, ◌∙◌, Bool, true, false, not, none, List, [], ◌∷◌, ◌++◌, any, arith,
  str_eq, ==_iff, Bool-cases, inl, inr, length, length-append, update_where,
}
use go_digi.Prelude.Text.{like-itself, no_backslash, no_backslash-append}
use go_digi.Monitor.{Alert, MonitorDb, ServiceCheck, CheckRow, Services, send_alert-keeps}
use go_digi.Monitor.Loops.{any-last}
use go_digi.Monitor.Checks.{
  Network, perform, settle, run_check, latest_row, is_older, was_ok, insert_row, react, is_failure,
  failure_alert, failure_title, ended,
}

-- a row that is not older than a minute does not count
latest_row-append :
    (id now : ℕ) (rows : List CheckRow) (r : CheckRow)
    → is_older id now r ≡ false
    → latest_row id now (rows ++ r ∷ []) ≡ latest_row id now rows
latest_row-append id now [] r h = rw h refl
latest_row-append id now (x ∷ rows) r h = ground (arith, latest_row-append id now rows r h)

is_failure-own :
    (id now : ℕ) (check : ServiceCheck)
    → no_backslash check.name ≡ true
    → is_failure check (failure_alert id now check) ≡ true
is_failure-own id now check plain = ground (
  arith,
  like-itself (failure_title check) (no_backslash-append "서비스 장애: " check.name refl plain),
  ==_iff check.asset_id check.asset_id,
)

none_left :
    (now : ℕ) (check : ServiceCheck) (alerts : List Alert)
    → any (is_failure check) (update_where (is_failure check) (ended now) alerts) ≡ false
none_left now check [] = refl
none_left now check (a ∷ alerts) = elim (Bool-cases (is_failure check a)) [
  | inl e ↦ rw e (ground (arith, none_left now check alerts))
  | inr e ↦ rw e (ground (arith, e, none_left now check alerts))
]

module _ (network : Network) (services : Services) (check : ServiceCheck) where
  abbrev passes : Bool
  passes = str_eq (perform network check).status "ok"

  -- the row of the run, and what follows from the row before
  abbrev stored : ℕ → MonitorDb → MonitorDb
  stored now db = insert_row now check (perform network check) db

  run_check-react :
      (now : ℕ) (db : MonitorDb)
      → run_check network services now check db
        ≡ react services now check
            (perform network check)
            (latest_row check.id now db.check_rows)
            (stored now db)
  unfolding run_check settle
  run_check-react now db =
      ap (λ prev. react services now check (perform network check) prev (stored now db))
        (latest_row-append check.id now db.check_rows _ (ground arith))

  fired :
      (now : ℕ) (db : MonitorDb)
      → passes ≡ false
      → was_ok (latest_row check.id now db.check_rows) ≡ true
      → ((run_check network services now check db).1.alerts
          ≡ db.alerts ++ failure_alert db.next_alert now check ∷ [])
        × ((run_check network services now check db).1.check_rows ≡ (stored now db).check_rows)
  fired now db fails before =
      subst
        (λ r.
          (r.1.alerts ≡ db.alerts ++ failure_alert db.next_alert now check ∷ [])
          × (r.1.check_rows ≡ (stored now db).check_rows))
        (sym (run_check-react now db))
        (rw fails (
          rw before (
            send_alert-keeps services
              (λ s.
                (s.alerts ≡ db.alerts ++ failure_alert db.next_alert now check ∷ [])
                × (s.check_rows ≡ (stored now db).check_rows))
              (λ s ns k. k) db.next_alert (failure_title check) _ none _ (refl, refl))))

  cleared :
      (now : ℕ) (db : MonitorDb)
      → passes ≡ true
      → was_ok (latest_row check.id now db.check_rows) ≡ false
      → (run_check network services now check db).1.alerts
        ≡ update_where (is_failure check) (ended now) db.alerts
  cleared now db passed before =
      ap (λ r. r.1.alerts) (run_check-react now db) ∙ rw passed (rw before refl)

  -- Where the last result of a check that is older than a minute was good exactly if the new one
  -- is bad, and the name of the check has no backslash, there is an active alert of the failure
  -- after the run exactly if the new result is bad.
  pub run_check-tracks :
      (now : ℕ) (db : MonitorDb)
      → no_backslash check.name ≡ true
      → was_ok (latest_row check.id now db.check_rows) ≡ not passes
      → any (is_failure check) (run_check network services now check db).1.alerts ≡ not passes
  run_check-tracks now db plain changed = elim (Bool-cases passes) [
    | inl e ↦
        ap (any (is_failure check)) (cleared now db e (changed ∙ ap not e))
        ∙ none_left now check db.alerts
        ∙ sym (ap not e)
    | inr e ↦
        ap (any (is_failure check)) (fired now db e (changed ∙ ap not e)).0
        ∙ any-last (is_failure check) db.alerts (failure_alert db.next_alert now check)
            (is_failure-own db.next_alert now check plain)
        ∙ sym (ap not e)
  ]

  -- If a check fails at two runs at most a minute apart, and the last result older than a minute
  -- before either run was good, then both runs insert an alert.
  pub run_check-twice :
      (now later : ℕ) (db : MonitorDb)
      → later ≤ now + 60000
      → passes ≡ false
      → was_ok (latest_row check.id now db.check_rows) ≡ true
      → was_ok (latest_row check.id later db.check_rows) ≡ true
      → length
          (run_check network services later check
            (run_check network services now check db).1).1.alerts
        ≡ length db.alerts + 2
  run_check-twice now later db soon fails before before' =
      let first = fired now db fails before in
      let after = (run_check network services now check db).1 in
      let rows : latest_row check.id later after.check_rows
          ≡ latest_row check.id later db.check_rows =
        ap (latest_row check.id later) first.1
        ∙ latest_row-append check.id later db.check_rows _ (ground (arith, soon)) in
      let second = fired later after fails (ap was_ok rows ∙ before') in
      ap length second.0
      ∙ length-append after.alerts _
      ∙ ap (λ alerts. length alerts + 1) first.0
      ∙ ap (λ n. n + 1) (length-append db.alerts _)
      ∙ omega arith
