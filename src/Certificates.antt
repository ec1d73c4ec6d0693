-- ===== src/Certificates.antt =====
-- web/src/lib/ssl-checker.ts: the daily check of certificates. One run reads one clock. The port of
-- the table is a SMALLINT.
pub mod Days
pub mod Rows
pub mod Alerts
mod Tests
use go_digi.Prelude.{
  ℕ, zero, suc, ◌-◌, ◌*◌, ◌/◌, String, Bool, true, false, Option, none, some, List, [], ◌∷◌, str_eq,
  ◌==◌, leb, ltb, update_where, or_else, if◌then◌else◌,
}
use go_digi.Prelude.Int.{ℤ, pos, negsuc, ltb_ℤ}
use go_digi.Prelude.Text.{◌+++◌, show}
use go_digi.Http.{Handler, gets, modify, pure, raise, ◌>>=◌, ◌>>◌}
use go_digi.Monitor.{Alert, MonitorDb, Job, Services, send_alert}
use go_digi.Monitor.Evaluation.{insert_alert}

-- a row of `ssl_certificates`
pub record Certificate : Type 0 where
  pub id : ℕ
  pub asset_id : Option ℕ
  pub hostname : String
  pub port : ℤ
  pub subject : Option String
  pub issuer : Option String
  pub not_before : Option ℕ
  pub not_after : Option ℕ
  pub last_checked : Option ℕ
  pub status : Option String
  pub warn_days : ℤ

pub record CertificateDb : Type 0 where
  pub certificates : List Certificate
  pub monitor : MonitorDb

-- what `getPeerCertificate` gives of a certificate that has a subject
pub record PeerCertificate : Type 0 where
  pub common_name : Option String
  pub organization : Option String
  pub valid_from : ℕ
  pub valid_to : ℕ

-- What the network answers: nothing in time, or a certificate, which may have no subject.
pub data Handshake : Type 0 where
  no_answer : Handshake
  secure : (peer : Option PeerCertificate) → Handshake

pub record CertificateInfo : Type 0 where
  pub subject : String
  pub issuer : String
  pub not_before : ℕ
  pub not_after : ℕ

-- cert.subject?.CN || hostname
abbrev name_or : Option String → String → String
name_or none d = d
name_or (some s) d = if str_eq s "" then d else s

abbrev pub info_of_handshake : String → Handshake → Option CertificateInfo
info_of_handshake hostname no_answer = none
info_of_handshake hostname (secure none) = none
info_of_handshake hostname (secure (some peer)) = some (record {
  subject = name_or peer.common_name hostname;
  issuer = name_or peer.organization "";
  not_before = peer.valid_from;
  not_after = peer.valid_to;
})

-- Math.floor((notAfter - now) / 86400000), which rounds a negative quotient down
unfoldable pub days_left : ℕ → ℕ → ℤ
days_left now not_after =
    if leb now not_after
    then pos ((not_after - now) / 86400000)
    else negsuc ((now - not_after - 1) / 86400000)

abbrev pub status_of : ℤ → ℤ → String
status_of days warn_days =
    if ltb_ℤ days (pos 0) then "expired" else if ltb_ℤ days warn_days then "expiring" else "ok"

abbrev pub mark_error : ℕ → Certificate → Certificate
mark_error now c = record c { status = some "error"; last_checked = some now }

abbrev pub store_info : ℕ → CertificateInfo → String → Certificate → Certificate
store_info now info status c = record c {
  subject = some info.subject;
  issuer = some info.issuer;
  not_before = some info.not_before;
  not_after = some info.not_after;
  status = some status;
  last_checked = some now;
}

abbrev pub set_certificate : ℕ → (Certificate → Certificate) → CertificateDb → CertificateDb
set_certificate id f db = record db {
  certificates = update_where (λ (c : Certificate). c.id == id) f db.certificates;
}

abbrev pub CertificateJob : Type 0 → Type 0
CertificateJob A = Handler Unit CertificateDb A

-- tls.connect throws at once where the port is none
abbrev pub bad_port : ℤ → Bool
bad_port (pos n) = ltb 65535 n
bad_port (negsuc n) = true

unfoldable pub check_certificate :
    (String → ℤ → Handshake) → String → ℤ → CertificateJob (Option CertificateInfo)
check_certificate connect hostname port =
    if bad_port port
    then raise "options.port should be >= 0 and < 65536"
    else pure (info_of_handshake hostname (connect hostname port))

-- a job on the tables of monitoring
abbrev pub on_monitor : {A : Type 0} → Job A → CertificateJob A
on_monitor job db = let (e, m) = job db.monitor in (e, record db { monitor = m })

abbrev pub severity_of : String → String
severity_of status = if str_eq status "expired" then "critical" else "warning"

abbrev pub certificate_alert : ℕ → ℕ → Certificate → String → Alert
certificate_alert id now c status = record {
  id = id;
  rule_id = none;
  asset_id = c.asset_id;
  severity = severity_of status;
  title =
      "SSL 인증서 " +++ (if str_eq status "expired" then "만료됨" else "만료 임박") +++ ": " +++ c.hostname;
  source = "service";
  status = "active";
  fired_at = now;
  acked_at = none;
  resolved_at = none;
}

abbrev subject_line : Certificate → String → String
subject_line c status =
    "SSL " +++ (if str_eq status "expired" then "만료됨" else "만료 임박") +++ ": " +++ c.hostname

module _ (connect : String → ℤ → Handshake) (services : Services) (now : ℕ) where
  abbrev pub warn : Certificate → String → Job Unit
  warn c status = do
    id ← gets (λ db. db.next_alert)
    modify (insert_alert (certificate_alert id now c status))
    send_alert services id (subject_line c status) ("slack" ∷ "email" ∷ []) none

  abbrev pub settle_certificate : Certificate → Option CertificateInfo → CertificateJob Unit
  settle_certificate c none = modify (set_certificate c.id (mark_error now))
  settle_certificate c (some info) = do
    let status = status_of (days_left now info.not_after) c.warn_days
    modify (set_certificate c.id (store_info now info status))
    if str_eq status "ok" then pure tt else on_monitor (warn c status)

  unfoldable pub check_one : Certificate → CertificateJob Unit
  unfolding days_left check_certificate
  check_one c = do info ← check_certificate connect c.hostname c.port; settle_certificate c info

  unfoldable pub check_all : List Certificate → CertificateJob Unit
  check_all [] = pure tt
  check_all (c ∷ cs) = do check_one c; check_all cs

  unfoldable pub run_ssl_check : CertificateJob Unit
  unfolding check_all
  run_ssl_check = do certificates ← gets (λ db. db.certificates); check_all certificates
