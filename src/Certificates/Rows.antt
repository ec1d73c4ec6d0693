-- ===== src/Certificates/Rows.antt =====
-- What the whole run of web/src/lib/ssl-checker.ts does to the tables.
use mathlib.Core.Path.{subst, ap, ◌∙◌}
use mathlib.Core.List.{append-nil, append_assoc}
use go_digi.Prelude.{
  ◌≤◌, false, ℕ, suc, String, true, false, ◌≡◌, sym, refl, arith, Option, none, some, List, [], ◌∷◌,
  ◌++◌, map, str_eq, ◌==◌, update_where, Bool-cases, inl, inr, if◌then◌else◌, All, All-map,
  Pairwise,
}
use go_digi.Prelude.Int.{ℤ, pos, negsuc}
use go_digi.Http.{Exit, next, continue}
use go_digi.Monitor.{Alert, MonitorDb, Services}
use go_digi.Certificates.{
  Certificate, CertificateDb, CertificateInfo, Handshake, certificate_alert, bad_port,
  info_of_handshake, check_one, check_all, run_ssl_check,
}
use go_digi.Certificates.Alerts.{written, stage_of, with_alert, alerts_of, check_one-Settles}

-- the ports that TCP has
abbrev pub HasPort : ℤ → Type 0
HasPort (pos n) = n ≤ 65535
HasPort (negsuc n) = ⊥

HasPort-fine : (port : ℤ) → HasPort port → bad_port port ≡ false
HasPort-fine (pos n) h = ground arith
HasPort-fine (negsuc n) h = absurd h

abbrev pub DistinctIds : List Certificate → Type 0
DistinctIds cs = Pairwise (λ (x y : Certificate). (y.id == x.id) ≡ false) cs

module _ (connect : String → ℤ → Handshake) (now : ℕ) where
  abbrev pub info : Certificate → Option CertificateInfo
  info c = info_of_handshake c.hostname (connect c.hostname c.port)

  -- a row after the check of it alone
  abbrev pub checked : Certificate → Certificate
  checked c = written now c (info c) c

  -- the alerts of the certificates that end soon or have ended, in the order of the table
  unfoldable pub warnings : ℕ → List Certificate → List Alert
  warnings id [] = []
  warnings id (c ∷ cs) =
      let more = warnings (suc id) cs in
      let same = warnings id cs in
      if str_eq (stage_of now c (info c)) "ok"
      then same
      else certificate_alert id now c (stage_of now c (info c)) ∷ more

  -- the updates by id, one for each certificate
  unfoldable written_all : List Certificate → List Certificate → List Certificate
  written_all [] t = t
  written_all (c ∷ cs) t =
      written_all cs (update_where (λ (x : Certificate). x.id == c.id) (written now c (info c)) t)

  update_other :
      (c : Certificate) (t : List Certificate)
      → All (λ (x : Certificate). (x.id == c.id) ≡ false) t
      → update_where (λ (x : Certificate). x.id == c.id) (written now c (info c)) t ≡ t
  update_other c [] h = refl
  update_other c (x ∷ t) (h, hs) = rw h (ap (λ l. x ∷ l) (update_other c t hs))

  written_all-cons :
      (y : Certificate) (cs t : List Certificate)
      → All (λ (c : Certificate). (y.id == c.id) ≡ false) cs
      → written_all cs (y ∷ t) ≡ y ∷ written_all cs t
  unfolding written_all
  written_all-cons y [] t h = refl
  written_all-cons y (c ∷ cs) t (h, hs) = rw h (written_all-cons y cs _ hs)

  written_id :
      (c : Certificate) (o : Option CertificateInfo) (x : Certificate)
      → (written now c o x).id ≡ x.id
  written_id c none x = refl
  written_id c (some i) x = refl

  written_all_lem : (cs : List Certificate) → DistinctIds cs → written_all cs cs ≡ map checked cs
  unfolding written_all
  written_all_lem [] h = refl
  written_all_lem (c ∷ cs) (h, hs) =
      let self : (c.id == c.id) ≡ true = ground arith in
      rw self (
        rw (update_other c cs h) (
          written_all-cons (checked c) cs cs (
            All-map (λ (y : Certificate). (y.id == c.id) ≡ false)
              (λ (y : Certificate). ((checked c).id == y.id) ≡ false) cs
              (λ y k. rw (written_id c (info c) c) (ground (arith, k))) h)
          ∙ ap (λ l. checked c ∷ l) (written_all_lem cs hs)))

  abbrev Runs :
      List Certificate → List Alert × ℕ → List Certificate → Exit Unit Unit × CertificateDb → Type 0
  Runs cs alerts t r =
      r.0 ≡ next tt
      × r.1.certificates ≡ written_all cs t
      × r.1.monitor.alerts ≡ alerts.0 ++ warnings alerts.1 cs

  warnings-cons :
      (c : Certificate) (cs : List Certificate) (m : MonitorDb)
      → (with_alert now c (stage_of now c (info c)) m).0
          ++ warnings (with_alert now c (stage_of now c (info c)) m).1 cs
        ≡ m.alerts ++ warnings m.next_alert (c ∷ cs)
  unfolding warnings
  warnings-cons c cs m = elim (Bool-cases (str_eq (stage_of now c (info c)) "ok")) [
    | inl e ↦ rw e refl
    | inr e ↦ rw e (append_assoc m.alerts _ _)
  ]

module _ (connect : String → ℤ → Handshake) (services : Services) (now : ℕ) where
  check_all-Runs :
      (cs : List Certificate) (db : CertificateDb)
      → All (λ (c : Certificate). bad_port c.port ≡ false) cs
      → Runs connect now cs
          (alerts_of db.monitor)
          db.certificates
          (check_all connect services now cs db)
  unfolding check_all written_all warnings
  check_all-Runs [] db fine = (refl, refl, sym (append-nil _))
  check_all-Runs (c ∷ cs) db (fine, rest) =
      let (ran, rows, alerts) = check_one-Settles services now connect c db fine in
      let s : CertificateDb = (check_one connect services now c db).1 in
      let (done, all_rows, all_alerts) =
        subst
          (λ a.
            Runs connect now cs a
              (update_where (λ (x : Certificate). x.id == c.id) (written now c (info connect now c))
                db.certificates)
              (check_all connect services now cs s))
          alerts
          (subst
            (λ t. Runs connect now cs (alerts_of s.monitor) t (check_all connect services now cs s))
            rows (check_all-Runs cs s rest)) in
      subst
        (λ e.
          Runs connect now (c ∷ cs) (alerts_of db.monitor) db.certificates
            (continue e (λ _. check_all connect services now cs) s))
        (sym ran) (done, all_rows, all_alerts ∙ warnings-cons connect now c cs db.monitor)

-- Where the ids of the certificates differ and every port is one, the check runs to its end;
-- every row is then as a check of it alone makes it, with an error where the network gave no
-- certificate and else with the stage that its dates say; and the alerts are those before and one
-- for each certificate that is expired or expiring, in the order of the table.
pub run_ssl_check-warns :
    (connect : String → ℤ → Handshake) (services : Services) (now : ℕ) (db : CertificateDb)
    → DistinctIds db.certificates
    → All (λ (c : Certificate). HasPort c.port) db.certificates
    → (run_ssl_check connect services now db).0 ≡ next tt
      × (run_ssl_check connect services now db).1.certificates
        ≡ map (checked connect now) db.certificates
      × (run_ssl_check connect services now db).1.monitor.alerts
        ≡ db.monitor.alerts ++ warnings connect now db.monitor.next_alert db.certificates
unfolding run_ssl_check
run_ssl_check-warns connect services now db h ports =
    let (ran, rows, alerts) =
      check_all-Runs connect services now db.certificates db
        (All-map _ _ db.certificates (λ c k. HasPort-fine c.port k) ports) in
    (ran, rows ∙ written_all_lem connect now db.certificates h, alerts)
