-- ===== src/Monitor/Timeline/Spacing.antt =====
-- The cooldown over a sequence of steps.
use mathlib.Core.Path.{ap}
use go_digi.Prelude.{
  none, ◌≡◌, refl, ◌∙◌, Bool, false, some, List, [], ◌∷◌, ◌++◌, All, Pairwise, Pairwise-insert,
  Pairwise-update_where, arith, Bool-cases, inl, inr, str_eq, touch, update_where,
}
use go_digi.Prelude.Int.{ℤ}
use go_digi.Monitor.{Alert, MonitorDb, Services}
use go_digi.Monitor.Evaluation.{cooldown, cooldown_s}
use go_digi.Monitor.Evaluation.Cooldown.{AllSpaced, AreSpaced, evaluation-AllSpaced}
use go_digi.Monitor.Lifecycle.{can_ack, can_resolve, acked, resolved}
use go_digi.Monitor.Checks.{failure_alert, is_failure, ended}
use go_digi.Monitor.Offline.{is_outage, outage_alert, off}
use go_digi.Monitor.Timeline.{Event, serve_all}
use go_digi.Monitor.Timeline.Rounds.{evaluation-keeps}
use go_digi.Monitor.Timeline.Steps.{serve_all-Holds}

module _ (interval : ℤ) where
  abbrev Spaced : List Alert → Type 0
  Spaced = Pairwise (AreSpaced interval)

  -- alerts that are no longer active do not count
  Spaced-update :
      (q : Alert → Bool) (f : Alert → Alert) (xs : List Alert)
      → ((a : Alert) → str_eq (f a).status "active" ≡ false)
      → Spaced xs
      → Spaced (update_where q f xs)
  Spaced-update q f xs ended h =
      Pairwise-update_where (AreSpaced interval) (λ (a : Alert). Unit {0}) q f touched xs (each xs)
        h
    where
      each : (ys : List Alert) → All (λ (a : Alert). Unit {0}) ys
      each [] = tt
      each (y ∷ ys) = (tt, each ys)

      touched :
          (a b : Alert)
          → Unit {0}
          → Unit {0}
          → AreSpaced interval a b
          → AreSpaced interval (touch q f a) (touch q f b)
      touched a b _ _ h r s = elim (Bool-cases (q a)) [
        | inl e ↦ rw e (λ of_a of_b. absurd (ground (arith, ended a)))
        | inr e ↦ elim (Bool-cases (q b)) [
          | inl k ↦ rw e (rw k (λ of_a of_b. absurd (ground (arith, ended b))))
          | inr k ↦ rw e (rw k (h r s))
        ]
      ]

  -- an alert without a rule does not count
  Spaced-insert :
      (b : Alert) (xs : List Alert) → b.rule_id ≡ none → Spaced xs → Spaced (xs ++ b ∷ [])
  Spaced-insert b xs ruleless h = Pairwise-insert (AreSpaced interval) xs b h (each xs)
    where
      each : (ys : List Alert) → All (λ (a : Alert). AreSpaced interval a b) ys
      each [] = tt
      each (y ∷ ys) = ((λ r s of_y of_b. absurd (ground (arith, ruleless, of_b.0))), each ys)

-- the cooldown is a matter of the settings
cooldown-settings : (a b : MonitorDb) → a.settings ≡ b.settings → cooldown a ≡ cooldown b
unfolding cooldown_s
cooldown-settings a b same = ap (λ settings. cooldown (record a { settings = settings })) same

-- Whatever steps of the jobs and the requests on alerts, rules and incidents are taken, with any
-- changes of assets and metrics between them, any two active alerts of one rule and asset in the
-- order of the table lie at least the cooldown of the settings apart, if that held before.
pub serve_all-AllSpaced :
    (services : Services) (interval : ℤ) (events : List Event) (db : MonitorDb)
    → cooldown db ≡ some interval
    → AllSpaced interval db
    → AllSpaced interval (serve_all services events db)
serve_all-AllSpaced services interval events db set h =
    (serve_all-Holds (Spaced interval) db.settings
      (λ now id xs. Spaced-update interval (can_ack id) (acked now) xs (λ a. refl))
      (λ now id xs. Spaced-update interval (can_resolve id) (resolved now) xs (λ a. refl)) services
      (λ now s (k, same). (
        evaluation-AllSpaced services now interval s (cooldown-settings s db same ∙ set) k,
        evaluation-keeps (λ t. t.settings ≡ db.settings) services now (λ _ _ k. k)
            (λ _ _ _ _ _ k. k) s same,
      ))
      (λ now id a xs. Spaced-insert interval (outage_alert id now a) xs refl)
      (λ now asset_id xs. Spaced-update interval (is_outage asset_id) (off now) xs (λ a. refl))
      (λ now id c xs. Spaced-insert interval (failure_alert id now c) xs refl)
      (λ now c xs. Spaced-update interval (is_failure c) (ended now) xs (λ a. refl)) events db
      (h, refl)).0
