-- ===== src/Certificates/Alerts.antt =====
-- What one round of web/src/lib/ssl-checker.ts does: to the row, and to the alerts.
use mathlib.Core.Path.{subst}
use go_digi.Prelude.{
  false, ℕ, suc, String, ◌≡◌, refl, Option, none, some, List, [], ◌∷◌, ◌++◌, str_eq, ◌==◌,
  update_where, Bool-cases, inl, inr, if◌then◌else◌,
}
use go_digi.Prelude.Int.{ℤ}
use go_digi.Http.{Exit, next, pure}
use go_digi.Monitor.{Alert, MonitorDb, Services, send_alert-keeps}
use go_digi.Monitor.Loops.{send_alert-next}
use go_digi.Certificates.{
  Certificate, CertificateDb, CertificateInfo, Handshake, days_left, status_of, mark_error,
  store_info, certificate_alert, bad_port, info_of_handshake, check_certificate, warn,
  settle_certificate, on_monitor, set_certificate, check_one,
}
use go_digi.Certificates.Days.{stage, status_of-days_left}

-- the row that a check writes, and the stage that it finds
abbrev pub written : ℕ → Certificate → Option CertificateInfo → Certificate → Certificate
written now c none x = mark_error now x
written now c (some info) x = store_info now info (stage now c.warn_days info.not_after) x

abbrev pub stage_of : ℕ → Certificate → Option CertificateInfo → String
stage_of now c none = "ok"
stage_of now c (some info) = stage now c.warn_days info.not_after

abbrev pub with_alert : ℕ → Certificate → String → MonitorDb → List Alert × ℕ
with_alert now c status m =
    if str_eq status "ok"
    then (m.alerts, m.next_alert)
    else (m.alerts ++ certificate_alert m.next_alert now c status ∷ [], suc m.next_alert)

abbrev pub alerts_of : MonitorDb → List Alert × ℕ
alerts_of m = (m.alerts, m.next_alert)

-- how a job ends that runs to its end
abbrev pub Settles :
    Certificate
    → (Certificate → Certificate)
    → List Alert × ℕ
    → CertificateDb
    → Exit Unit Unit × CertificateDb
    → Type 0
Settles c f alerts db r =
    r.0 ≡ next tt
    × r.1.certificates ≡ update_where (λ (x : Certificate). x.id == c.id) f db.certificates
    × alerts_of r.1.monitor ≡ alerts

module _ (services : Services) (now : ℕ) where
  warn-next :
      (connect : String → ℤ → Handshake) (c : Certificate) (status : String) (m : MonitorDb)
      → (warn connect services now c status m).0 ≡ next tt
  warn-next connect c status m = send_alert-next services _ _ _ _ _

  warn-alerts :
      (connect : String → ℤ → Handshake) (c : Certificate) (status : String) (m : MonitorDb)
      → alerts_of (warn connect services now c status m).1
        ≡ (m.alerts ++ certificate_alert m.next_alert now c status ∷ [], suc m.next_alert)
  warn-alerts connect c status m =
      send_alert-keeps services
        (λ s.
          alerts_of s
          ≡ (m.alerts ++ certificate_alert m.next_alert now c status ∷ [], suc m.next_alert))
        (λ s ns k. k) _ _ _ _ _ refl

  alert_if-Settles :
      (connect : String → ℤ → Handshake) (c : Certificate) (f : Certificate → Certificate)
      (status : String) (db : CertificateDb)
      → Settles c f (with_alert now c status db.monitor) db (
          (if str_eq status "ok" then pure tt else on_monitor (warn connect services now c status))
            (set_certificate c.id f db))
  alert_if-Settles connect c f status db = elim (Bool-cases (str_eq status "ok")) [
    | inl e ↦ rw e (refl, refl, refl)
    | inr e ↦
        rw e (warn-next connect c status db.monitor, refl, warn-alerts connect c status db.monitor)
  ]

  settle_certificate-Settles :
      (connect : String → ℤ → Handshake) (c : Certificate) (o : Option CertificateInfo)
      (db : CertificateDb)
      → Settles c
          (written now c o)
          (with_alert now c (stage_of now c o) db.monitor)
          db
          (settle_certificate connect services now c o db)
  settle_certificate-Settles connect c none db = (refl, refl, refl)
  settle_certificate-Settles connect c (some info) db =
      subst
        (λ s.
          Settles c (store_info now info s) (with_alert now c s db.monitor) db
            (settle_certificate connect services now c (some info) db))
        (status_of-days_left now c.warn_days info.not_after)
        (alert_if-Settles connect c _ (status_of (days_left now info.not_after) c.warn_days) db)

  pub check_one-Settles :
      (connect : String → ℤ → Handshake) (c : Certificate) (db : CertificateDb)
      → bad_port c.port ≡ false
      → let o = info_of_handshake c.hostname (connect c.hostname c.port) in
        Settles c
          (written now c o)
          (with_alert now c (stage_of now c o) db.monitor)
          db
          (check_one connect services now c db)
  unfolding check_one check_certificate
  check_one-Settles connect c db fine = rw fine (settle_certificate-Settles connect c _ db)
