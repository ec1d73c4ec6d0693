-- ===== src/Monitor/Lifecycle.antt =====
-- POST of web/src/app/api/alerts/route.ts: acknowledging and resolving alerts.
use go_digi.Prelude.{
  ℕ, String, Bool, ◌&&◌, ◌||◌, Option, none, some, update_where, str_eq, ◌==◌, if◌then◌else◌,
}
use go_digi.Http.{
  Handler, Response, ok, error, found, modify, pure, reject_if, respond, ◌>>=◌, ◌>>◌,
}
use go_digi.Monitor.{Alert, MonitorDb}
use go_digi.Monitor.Evaluation.{truthy_id}

abbrev pub AlertsHandler : Type 0 → Type 0
AlertsHandler A = Handler Response MonitorDb A

-- the body: `id`, or `alert_id` where there is no `id`
pub record AlertBody : Type 0 where
  pub id : Option ℕ
  pub alert_id : Option ℕ
  pub action : String

abbrev pub body_id : AlertBody → Option ℕ
body_id body = elim body.id [ none ↦ body.alert_id | some id ↦ some id ]

abbrev pub update_alerts : (Alert → Bool) → (Alert → Alert) → MonitorDb → MonitorDb
update_alerts q f db = record db { alerts = update_where q f db.alerts }

-- WHERE id = $1 AND status = 'active'
abbrev pub can_ack : ℕ → Alert → Bool
can_ack id a = a.id == id && str_eq a.status "active"

-- WHERE id = $1 AND status IN ('active','acked')
abbrev pub can_resolve : ℕ → Alert → Bool
can_resolve id a = a.id == id && (str_eq a.status "active" || str_eq a.status "acked")

abbrev pub acked : ℕ → Alert → Alert
acked now a = record a { status = "acked"; acked_at = some now }

abbrev pub resolved : ℕ → Alert → Alert
resolved now a = record a { status = "resolved"; resolved_at = some now }

unfoldable pub act : ℕ → ℕ → String → AlertsHandler Response
act now id action =
    if str_eq action "ack"
    then (do modify (update_alerts (can_ack id) (acked now)); pure ok)
    else if str_eq action "resolve"
    then (do modify (update_alerts (can_resolve id) (resolved now)); pure ok)
    else respond (error 400 "Unknown action")

unfoldable pub post_alert : ℕ → AlertBody → AlertsHandler Response
post_alert now body = do
  id ← found (truthy_id (body_id body)) (error 400 "id and action required")
  reject_if (str_eq body.action "") (error 400 "id and action required")
  act now id body.action
