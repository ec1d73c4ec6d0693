-- ===== src/Certificates/Tests.antt =====
-- Runs of web/src/lib/ssl-checker.ts.
use go_digi.Prelude.{
  arith, ℕ, ◌-◌, ◌*◌, String, true, ◌≡◌, refl, Option, none, some, List, [], ◌∷◌, ◌++◌, map, str_eq,
  if◌then◌else◌,
}
use go_digi.Prelude.Int.{ℤ, pos, negsuc}
use go_digi.Http.{next, throw}
use go_digi.Monitor.{Alert, Services, send_alert}
use go_digi.Certificates.{
  Certificate, CertificateDb, Handshake, no_answer, secure, days_left, check_one, check_all,
  check_certificate, run_ssl_check,
}
use go_digi.Certificates.Rows.{checked, warnings, run_ssl_check-warns}

abbrev day : ℕ
day = 86400000

abbrev certificate : ℕ → String → Certificate
certificate id hostname = record {
  id = id;
  asset_id = none;
  hostname = hostname;
  port = pos 443;
  subject = none;
  issuer = none;
  not_before = none;
  not_after = none;
  last_checked = none;
  status = none;
  warn_days = pos 30;
}

-- "old" ended at day 100, "soon" ends at day 120, "down" does not answer, the others end at day 500
abbrev network : String → ℤ → Handshake
network hostname port =
    if str_eq hostname "down"
    then no_answer
    else secure (
        some (record {
          common_name = some "name";
          organization = none;
          valid_from = 0;
          valid_to =
              day
              * (if str_eq hostname "old"
                  then 100
                  else if str_eq hostname "soon"
                  then 120
                  else 500);
        }))

abbrev services : Services
services = record { post_slack = λ t. true; send_mail = λ to t. true }

abbrev four : CertificateDb
four = record {
  certificates =
      certificate 1 "old" ∷ certificate 2 "soon" ∷ certificate 3 "down" ∷ certificate 4 "new" ∷ [];
  monitor = record {
    assets = [];
    rules = [];
    metrics = [];
    alerts = [];
    notifications = [];
    incidents = [];
    entries = [];
    checks = [];
    check_rows = [];
    settings = [];
    next_alert = 1;
    next_rule = 1;
    users = [];
    next_incident = 1;
  };
}

abbrev statuses : CertificateDb → List (Option String)
statuses db = map (λ (c : Certificate). c.status) db.certificates

abbrev severities : CertificateDb → List String
severities db = map (λ (a : Alert). a.severity) db.monitor.alerts

abbrev now : ℕ
now = day * 101

abbrev after : CertificateDb → CertificateDb
unfolding run_ssl_check check_all check_one check_certificate days_left send_alert
after db = (run_ssl_check network services now db).1

days_example : days_left (day * 3) (day * 3 - 1) ≡ negsuc 0
unfolding days_left
days_example = refl

statuses_example :
    statuses (after four) ≡ some "expired" ∷ some "expiring" ∷ some "error" ∷ some "ok" ∷ []
unfolding run_ssl_check check_all check_one check_certificate days_left send_alert
statuses_example = refl

-- The next run warns of the same certificates again.
again_example :
    severities (after (after four)) ≡ "critical" ∷ "warning" ∷ "critical" ∷ "warning" ∷ []
unfolding run_ssl_check check_all check_one check_certificate days_left send_alert
again_example = refl

run_ssl_check-warns_example :
    (run_ssl_check network services now four).0 ≡ next tt
    × (run_ssl_check network services now four).1.certificates
      ≡ map (checked network now) four.certificates
    × (run_ssl_check network services now four).1.monitor.alerts
      ≡ [] ++ warnings network now 1 four.certificates
run_ssl_check-warns_example =
    run_ssl_check-warns network services now four
      ((refl, (refl, (refl, tt))), ((refl, (refl, tt)), ((refl, tt), (tt, tt))))
      (omega arith, (omega arith, (omega arith, (omega arith, tt))))

abbrev wrong : CertificateDb
wrong = record four {
  certificates = record (certificate 1 "old") { port = negsuc 0 } ∷ four.certificates;
}

-- A negative port, which the column takes, ends the job before the certificates after it.
bad_port_example :
    run_ssl_check network services now wrong
    ≡ (throw "options.port should be >= 0 and < 65536", wrong)
unfolding run_ssl_check check_all check_one check_certificate days_left
bad_port_example = refl
