-- ===== src/Monitor/Checks.antt =====
-- web/src/lib/service-checker.ts: the checks of services, run at once there and one by one here. The
-- times that the answers take are left out.
pub mod Alarms
use go_digi.Prelude.{
  ℕ, suc, ◌+◌, String, Bool, true, false, ◌&&◌, not, Option, none, some, List, [], ◌∷◌, ◌++◌,
  select, str_eq, ◌==◌, ltb, update_where, if◌then◌else◌, find,
}
use go_digi.Prelude.Int.{ℤ, pos, negsuc}
use go_digi.Prelude.Text.{◌+++◌, like, parse_int, show, includes, take_text, cut_at}
use go_digi.Http.{gets, modify, pure, ◌>>=◌, ◌>>◌}
use go_digi.Monitor.{Alert, MonitorDb, ServiceCheck, CheckRow, Job, Services, for_each, send_alert}
use go_digi.Monitor.Evaluation.{insert_alert, is_id}

-- how an attempt to connect ends; a port that is no port throws at once
pub data Attempt : Type 0 where
  opened : Attempt
  failed : (message : String) → Attempt
  timed_out : Attempt
  invalid : (message : String) → Attempt

-- What the network answers: whether a name resolves at the first and at the second try, how a
-- connection ends, and the code and the body of a page or an error.
pub data Fetched : Type 0 where
  page : (code : ℕ) → (body : String) → Fetched
  broken : (message : String) → Fetched

pub record Network : Type 0 where
  pub lookup : ℕ → String → Bool
  pub connect : String → Option ℤ → ℕ → Attempt
  pub fetch : String → ℕ → Fetched

pub record CheckResult : Type 0 where
  pub status : String
  pub message : String

abbrev result : String → String → CheckResult
result status message = record { status = status; message = message }

abbrev show_port : Option ℤ → String
show_port none = "NaN"
show_port (some (pos n)) = show n
show_port (some (negsuc n)) = "-" +++ show (suc n)

abbrev port_result : Option ℤ → Attempt → CheckResult
port_result port opened = result "ok" ("Port " +++ show_port port +++ " open")
port_result port (failed message) = result "critical" message
port_result port timed_out = result "critical" "Timeout"
port_result port (invalid message) = result "critical" message

-- const [host, portStr] = target.split(':'); the rest is dropped
abbrev port_of : Option String → Option ℤ
port_of none = none
port_of (some rest) = parse_int (cut_at 58 rest).0

abbrev code_differs : Option ℕ → ℕ → Bool
code_differs none code = false
code_differs (some expected) code = not (expected == 0) && not (code == expected)

abbrev body_differs : Option String → String → Bool
body_differs none body = false
body_differs (some expected) body = not (str_eq expected "") && not (includes expected body)

abbrev show_code : Option ℕ → String
show_code none = "null"
show_code (some code) = show code

module _ (network : Network) where
  check_ping : String → CheckResult
  check_ping host =
      if network.lookup 0 host
      then result "ok" "Reachable"
      else if network.lookup 1 host
      then result "ok" "DNS resolved"
      else result "critical" "DNS failed"

  check_port : String → ℕ → CheckResult
  check_port target timeout_s =
      let (host, rest) = cut_at 58 target in
      port_result (port_of rest) (network.connect host (port_of rest) timeout_s)

  abbrev page_result : ServiceCheck → Fetched → CheckResult
  page_result check (broken message) = result "critical" message
  page_result check (page code body) =
      if code_differs check.expected_code code
      then result "critical"
          ("HTTP " +++ show code +++ " (expected " +++ show_code check.expected_code +++ ")")
      else if body_differs check.expected_body body
      then result "critical" "Response body mismatch"
      else result "ok" ("HTTP " +++ show code)

  check_http : ServiceCheck → CheckResult
  check_http check = page_result check (network.fetch check.target check.timeout_s)

  unfoldable pub perform : ServiceCheck → CheckResult
  unfolding check_ping check_port check_http
  perform check =
      if str_eq check.type "ping"
      then check_ping check.target
      else if str_eq check.type "port"
      then check_port check.target check.timeout_s
      else if str_eq check.type "http"
      then check_http check
      else if str_eq check.type "process"
      then result "unknown" "Process check via agent"
      else result "unknown" "Unknown check type"

-- WHERE check_id = $1 AND checked_at < now() - interval '1 minute' ORDER BY checked_at DESC LIMIT 1
abbrev newer : CheckRow → Option CheckRow → Option CheckRow
newer r none = some r
newer r (some s) = if ltb s.checked_at r.checked_at then some r else some s

abbrev pub is_older : ℕ → ℕ → CheckRow → Bool
is_older id now r = r.check_id == id && ltb (r.checked_at + 60000) now

abbrev pub latest_row : ℕ → ℕ → List CheckRow → Option CheckRow
latest_row id now [] = none
latest_row id now (r ∷ rows) =
    let rest = latest_row id now rows in if is_older id now r then newer r rest else rest

-- prev?.status === 'ok'
abbrev pub was_ok : Option CheckRow → Bool
was_ok none = false
was_ok (some r) = str_eq r.status "ok"

abbrev pub failure_title : ServiceCheck → String
failure_title check = "서비스 장애: " +++ check.name

abbrev pub failure_alert : ℕ → ℕ → ServiceCheck → Alert
failure_alert id now check = record {
  id = id;
  rule_id = none;
  asset_id = some check.asset_id;
  severity = "critical";
  title = failure_title check;
  source = "service";
  status = "active";
  fired_at = now;
  acked_at = none;
  resolved_at = none;
}

abbrev pub insert_row : ℕ → ServiceCheck → CheckResult → MonitorDb → MonitorDb
insert_row now check r db = record db {
  check_rows =
      db.check_rows
      ++ (record {
        check_id = check.id;
        checked_at = now;
        status = r.status;
        message = take_text 499 r.message;
      })
        ∷ [];
}

-- the active alerts of the asset whose title has that of the failure in it
abbrev pub is_failure : ServiceCheck → Alert → Bool
is_failure check a =
    is_id check.asset_id a.asset_id
    && like ("%" +++ failure_title check +++ "%") a.title
    && str_eq a.status "active"

abbrev pub ended : ℕ → Alert → Alert
ended now a = record a { status = "resolved"; resolved_at = some now }

abbrev pub resolve_failures : ℕ → ServiceCheck → MonitorDb → MonitorDb
resolve_failures now check db = record db {
  alerts = update_where (is_failure check) (ended now) db.alerts;
}

module _ (services : Services) (now : ℕ) (check : ServiceCheck) where
  abbrev fire_failure : Job Unit
  fire_failure = do
    id ← gets (λ db. db.next_alert)
    modify (insert_alert (failure_alert id now check))
    send_alert services id (failure_title check) ("slack" ∷ "email" ∷ []) none

  -- what follows from a result and the one before
  abbrev pub react : CheckResult → Option CheckRow → Job Unit
  react r prev =
      if str_eq r.status "ok"
      then (if was_ok prev then pure tt else modify (resolve_failures now check))
      else (if was_ok prev then fire_failure else pure tt)

  unfoldable pub settle : CheckResult → Job Unit
  settle r = do
    modify (insert_row now check r)
    prev ← gets (λ db. latest_row check.id now db.check_rows)
    react r prev

unfoldable pub run_check : Network → Services → ℕ → ServiceCheck → Job Unit
run_check network services now check = settle services now check (perform network check)

unfoldable pub run_service_checks : Network → Services → ℕ → Job Unit
run_service_checks network services now = do
  checks ← gets (λ db. select (λ c. c.is_active) db.checks)
  for_each (run_check network services now) checks
