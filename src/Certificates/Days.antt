-- ===== src/Certificates/Days.antt =====
-- The days that a certificate of web/src/lib/ssl-checker.ts has left, against its dates.
use go_digi.Prelude.{ℕ, ◌+◌, ◌*◌, ◌≡◌, arith, String, ltb, if◌then◌else◌}
use go_digi.Prelude.Int.{ℤ, pos, negsuc}
use go_digi.Certificates.{days_left, status_of}

-- Expired from the millisecond after its end, and expiring while it ends before so many whole days.
abbrev pub stage : ℕ → ℤ → ℕ → String
stage now (pos w) not_after =
    if ltb not_after now
    then "expired"
    else if ltb not_after (now + w * 86400000)
    then "expiring"
    else "ok"
stage now (negsuc w) not_after = if ltb not_after now then "expired" else "ok"

pub status_of-days_left :
    (now : ℕ) (warn_days : ℤ) (not_after : ℕ)
    → status_of (days_left now not_after) warn_days ≡ stage now warn_days not_after
unfolding days_left
status_of-days_left now (pos w) not_after = ground arith
status_of-days_left now (negsuc w) not_after = ground arith
