-- ===== src/Monitor/Timeline/History.antt =====
-- The life of an alert over a sequence of steps.
use mathlib.Core.Path.{subst}
use go_digi.Prelude.{
  ℕ, ◌≤◌, ◌≡◌, refl, ◌∙◌, String, Bool, true, List, [], ◌∷◌, ◌++◌, arith, Bool-cases, inl, inr,
  str_eq, if◌then◌else◌, update_where,
}
use go_digi.Monitor.{ServiceCheck, Alert, MonitorDb, Services}
use go_digi.Monitor.Lifecycle.{can_ack, can_resolve, acked, resolved}
use go_digi.Monitor.Checks.{is_failure, ended}
use go_digi.Monitor.Offline.{is_outage, off}
use go_digi.Monitor.Timeline.{Event, serve_all}
use go_digi.Monitor.Timeline.Rounds.{Holds, evaluation-keeps}
use go_digi.Monitor.Timeline.Steps.{serve_all-Holds}

-- how far an alert has come: active, acknowledged, resolved (or any other status)
abbrev pub stage : String → ℕ
stage status = if str_eq status "active" then 0 else if str_eq status "acked" then 1 else 2

-- what a request may make of one alert
abbrev pub Onward : Alert → Alert → Type 0
Onward a b =
    (stage a.status ≤ stage b.status)
    × (a.id ≡ b.id)
    × (a.fired_at ≡ b.fired_at)
    × (stage a.status ≡ 2 → a ≡ b)

-- the alerts at a later time: each of the earlier ones, and new ones behind them
abbrev pub Forward : List Alert → List Alert → Type 0
Forward [] bs = Unit
Forward (a ∷ rest) [] = ⊥
Forward (a ∷ rest) (b ∷ bs) = Onward a b × Forward rest bs

Onward-refl : (a : Alert) → Onward a a
Onward-refl a = (omega arith, refl, refl, λ _. refl)

Onward-trans : (a b c : Alert) → Onward a b → Onward b c → Onward a c
Onward-trans a b c (up, id, at, done) (up2, id2, at2, done2) = (
  omega (arith, up, up2),
  id ∙ id2,
  at ∙ at2,
  (λ e. let same = done e in same ∙ done2 (subst (λ (x : Alert). stage x.status ≡ 2) same e)),
)

Forward-refl : (xs : List Alert) → Forward xs xs
Forward-refl [] = tt
Forward-refl (a ∷ rest) = (Onward-refl a, Forward-refl rest)

Forward-append : (xs ys more : List Alert) → Forward xs ys → Forward xs (ys ++ more)
Forward-append [] ys more h = tt
Forward-append (a ∷ xs) [] more h = absurd h
Forward-append (a ∷ xs) (b ∷ ys) more (h, hs) = (h, Forward-append xs ys more hs)

-- an UPDATE that takes each row onward
Forward-update :
    (q : Alert → Bool) (f : Alert → Alert)
    → ((a : Alert) → q a ≡ true → Onward a (f a))
    → (xs ys : List Alert) → Forward xs ys
    → Forward xs (update_where q f ys)
Forward-update q f steps [] ys h = tt
Forward-update q f steps (a ∷ xs) [] h = absurd h
Forward-update q f steps (a ∷ xs) (b ∷ ys) (h, hs) = elim (Bool-cases (q b)) [
  | inl e ↦ rw e (Onward-trans a b (f b) h (steps b e), Forward-update q f steps xs ys hs)
  | inr e ↦ rw e (h, Forward-update q f steps xs ys hs)
]

-- where the alert is active, or can still be resolved
active_stage : (status : String) → str_eq status "active" ≡ true → stage status ≡ 0
active_stage status e = rw e refl

ack-Onward : (now id : ℕ) (a : Alert) → can_ack id a ≡ true → Onward a (acked now a)
ack-Onward now id a h =
    let first = active_stage a.status (ground arith) in
    (omega (arith, first), refl, refl, λ k. absurd (omega (arith, first, k)))

can_resolve-stage : (id : ℕ) (a : Alert) → can_resolve id a ≡ true → stage a.status ≤ 1
can_resolve-stage id a h = elim (Bool-cases (str_eq a.status "active")) [
  | inl e ↦ rw e (omega arith)
  | inr e ↦ elim (Bool-cases (str_eq a.status "acked")) [
    | inl k ↦ rw e (rw k (omega arith))
    | inr k ↦ absurd (ground arith)
  ]
]

resolve-Onward : (now id : ℕ) (a : Alert) → can_resolve id a ≡ true → Onward a (resolved now a)
resolve-Onward now id a h =
    let below = can_resolve-stage id a h in
    (omega (arith, below), refl, refl, λ k. absurd (omega (arith, below, k)))

off-Onward : (now asset_id : ℕ) (a : Alert) → is_outage asset_id a ≡ true → Onward a (off now a)
off-Onward now asset_id a h =
    let first = active_stage a.status (ground arith) in
    (omega (arith, first), refl, refl, λ k. absurd (omega (arith, first, k)))

ended-Onward :
    (now : ℕ) (c : ServiceCheck) (a : Alert) → is_failure c a ≡ true → Onward a (ended now a)
ended-Onward now c a h =
    let first = active_stage a.status (ground arith) in
    (omega (arith, first), refl, refl, λ k. absurd (omega (arith, first, k)))

-- Over any steps of the jobs and the requests on alerts, rules and incidents, every alert keeps
-- its place in the table, its id and its time, never goes back in the order active, acknowledged,
-- resolved, and does not change any more once resolved; new alerts come behind the old ones.
pub serve_all-Forward :
    (services : Services) (events : List Event) (db : MonitorDb)
    → Forward db.alerts (serve_all services events db).alerts
serve_all-Forward services events db =
    let xs = db.alerts in
    (serve_all-Holds (Forward xs) db.settings
      (λ now id ys. Forward-update (can_ack id) (acked now) (ack-Onward now id) xs ys)
      (λ now id ys. Forward-update (can_resolve id) (resolved now) (resolve-Onward now id) xs ys)
      services
      (λ now s.
        evaluation-keeps (Holds (Forward xs) db.settings) services now (λ _ _ k. k)
          (λ _ _ _ _ t k. (Forward-append xs t.alerts _ k.0, k.1)) s)
      (λ now id a ys. Forward-append xs ys _)
      (λ now asset_id ys.
        Forward-update (is_outage asset_id) (off now) (off-Onward now asset_id) xs ys)
      (λ now id c ys. Forward-append xs ys _)
      (λ now c ys. Forward-update (is_failure c) (ended now) (ended-Onward now c) xs ys) events db
      (Forward-refl xs, refl)).0
