-- ===== src/Monitor/Tests/Jobs.antt =====
-- Runs of the jobs of web/src/lib/alert-engine.ts and web/src/lib/service-checker.ts.
use go_digi.Prelude.{str_eq, any, length, ◌≡◌, refl, true, false, some, [], ◌∷◌, All, arith}
use go_digi.Prelude.Int.{pos, ◌+ℤ◌}
use go_digi.Http.{next}
use go_digi.Monitor.{Asset, Incident}
use go_digi.Monitor.Evaluation.{metric_map, evaluation, reading}
use go_digi.Monitor.Evaluation.Coverage.{IsCovered}
use go_digi.Monitor.Evaluation.Completion.{evaluation-covers}
use go_digi.Monitor.Checks.{Network, timed_out, broken, perform, run_check, is_failure}
use go_digi.Monitor.Checks.Alarms.{run_check-tracks, run_check-twice}
use go_digi.Monitor.Offline.{run_offline_check}
use go_digi.Monitor.Offline.Outages.{HasOutage, offline_check-HasOutage}
use go_digi.Monitor.Offline.Recovery.{FirstOpen, IsResolved, offline_check-IsResolved}
use go_digi.Monitor.Tests.{services, asset_with, measured, http_check, site, on_cpu, set, limit}

evaluation-covers_example :
    ((evaluation services 1010000 (site (on_cpu ∷ []))).0 ≡ next tt)
    × All
        (λ rule.
          IsCovered services 1010000
            (pos 300000)
            refl
            (measured 7 1000000 ∷ [])
            (site []).assets
            rule
            (evaluation services 1010000 (site (on_cpu ∷ []))).1)
        (on_cpu ∷ [])
unfolding metric_map reading
evaluation-covers_example =
    evaluation-covers services 1010000 (pos 300000) refl (site (on_cpu ∷ [])) set
      (((λ n e. cc), tt), tt)

-- seven minutes after the last sign of the server, and long after that of the switch
offline_check-HasOutage_example :
    All
      (λ (a : Asset). HasOutage a (run_offline_check services 1420000 (site [])))
      (asset_with 7 "server" "online" (some 1000000)
        ∷ asset_with 8 "switch" "online" (some 100000)
        ∷ [])
unfolding ◌+ℤ◌
offline_check-HasOutage_example =
    offline_check-HasOutage services 1420000 (pos 5) (site []) limit
      (((λ e. omega (arith, e)), tt), (tt, tt))

-- the server is well, and the incident has nothing to do with it
offline_check-IsResolved_example :
    All
      (λ (a : Asset).
        (i : Incident)
        → FirstOpen a.id i (site [])
        → IsResolved i.id (run_offline_check services 1010000 (site [])))
      (asset_with 7 "server" "online" (some 1000000) ∷ [])
unfolding ◌+ℤ◌
offline_check-IsResolved_example = offline_check-IsResolved services 1010000 (pos 5) (site []) limit

-- nothing answers
abbrev pub down : Network
down = record {
  lookup = λ try host. false;
  connect = λ host port timeout_s. timed_out;
  fetch = λ url timeout_s. broken "fetch failed";
}

fails : str_eq (perform down http_check).status "ok" ≡ false
unfolding perform
fails = refl

run_check-tracks_example :
    any (is_failure http_check) (run_check down services 1010000 http_check (site [])).1.alerts
    ≡ true
unfolding perform
run_check-tracks_example = run_check-tracks down services http_check 1010000 (site []) refl refl

run_check-twice_example :
    length
      (run_check down services 1069500 http_check
        (run_check down services 1010000 http_check (site [])).1).1.alerts
    ≡ 2
run_check-twice_example =
    run_check-twice down services http_check 1010000 1069500 (site []) (omega arith) fails refl refl
