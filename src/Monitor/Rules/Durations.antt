-- ===== src/Monitor/Rules/Durations.antt =====
-- POST and GET of web/src/app/api/alerts/rules/route.ts: minutes in, seconds stored, minutes out.
use go_digi.Prelude.{
  suc, true, ◌≤◌, Overrides, or_else-Overrides, ℕ, ◌<◌, ◌≡◌, refl, ap, ◌∙◌, false, Option, none,
  some, List, [], ◌∷◌, ◌++◌, map, arith, ◌==◌, ==_iff, find, find-insert, or_else, All,
}
use go_digi.Prelude.Int.{ℤ}
use go_digi.Http.{run}
use go_digi.Accounts.{AuthUser, require_auth}
use go_digi.Monitor.{AlertRule, Asset, MonitorDb}
use go_digi.Monitor.Rules.{
  Minutes, minutes, RuleBody, RuleRow, rule_row, new_rule, incomplete, dangling, create_rule,
  list_rules, to_seconds, to_minutes,
}

-- what a listing shows of the minutes: 5 without any, and a half of one rounded up
abbrev pub Shows : Option Minutes → ℕ → Type 0
Shows none m = m ≡ 5
Shows (some (minutes whole rest)) m =
    (rest < 30 → m ≡ whole) × (30 ≤ rest → rest < 90 → m ≡ suc whole)

to_minutes-Shows :
    (o : Option Minutes) → Shows o (to_minutes (to_seconds (or_else o (minutes 5 0))))
to_minutes-Shows none = refl
to_minutes-Shows (some (minutes whole rest)) = (λ h. omega arith, λ h k. omega arith)

-- the rows of an answer of GET
abbrev pub rows_of : Option (List RuleRow) → List RuleRow
rows_of none = []
rows_of (some rows) = rows

abbrev pub listed : ℕ → Option AuthUser → MonitorDb → Option RuleRow
listed id session db = find (λ (r : RuleRow). r.id == id) (rows_of (run (list_rules session) db).0)

abbrev or_none : List Asset → Option AlertRule → Option RuleRow
or_none assets none = none
or_none assets (some r) = some (rule_row assets r)

find-rows :
    (id : ℕ) (assets : List Asset) (rules : List AlertRule)
    → find (λ (r : RuleRow). r.id == id) (map (rule_row assets) rules)
      ≡ or_none assets (find (λ (r : AlertRule). r.id == id) rules)
find-rows id assets [] = refl
find-rows id assets (r ∷ rules) = ground (arith, find-rows id assets rules)

fresh-find :
    (n : ℕ) (rules : List AlertRule)
    → All (λ (r : AlertRule). r.id < n) rules
    → find (λ (r : AlertRule). r.id == n) rules ≡ none
fresh-find n [] h = refl
fresh-find n (r ∷ rules) (h, hs) = ground (arith, ==_iff r.id n, fresh-find n rules hs)

module _ (user : AuthUser) (body : RuleBody) (threshold : ℤ) (db : MonitorDb)
    (complete : incomplete body ≡ false) (given : body.threshold ≡ some threshold)
    (valid : dangling body.asset_id db ≡ false)
    (fresh : All (λ (r : AlertRule). r.id < db.next_rule) db.rules) where
  rules-create_rule :
      (run (create_rule (some user) body) db).1.rules
      ≡ db.rules ++ new_rule db.next_rule threshold body ∷ []
  unfolding create_rule require_auth
  rules-create_rule = ground arith

  assets-create_rule : (run (create_rule (some user) body) db).1.assets ≡ db.assets
  unfolding create_rule require_auth
  assets-create_rule = ground arith

  row_after :
      listed db.next_rule (some user) (run (create_rule (some user) body) db).1
      ≡ some (rule_row db.assets (new_rule db.next_rule threshold body))
  unfolding list_rules require_auth
  row_after =
      let id = db.next_rule in
      let after = (run (create_rule (some user) body) db).1 in
      let added = new_rule id threshold body in
      find-rows id after.assets after.rules
      ∙ ap (λ rules. or_none after.assets (find (λ (r : AlertRule). r.id == id) rules))
          rules-create_rule
      ∙ ap (or_none after.assets) (
          find-insert (λ (r : AlertRule). r.id == id) db.rules added (fresh-find id db.rules fresh))
      ∙ ground (arith, assets-create_rule, ==_iff id id)

  -- Where the body is complete and its asset exists, and the ids of the rules are below the next
  -- id, a listing after the creation of a rule shows it, active and with what the body gives: its
  -- severity or critical, its channels or slack, and its minutes, rounded where they are no whole
  -- number, or 5.
  pub listed-create_rule :
      (x : RuleRow) × (listed db.next_rule (some user) (run (create_rule (some user) body) db).1
        ≡ some x)
      × (x.name ≡ body.name)
      × (x.asset_id ≡ body.asset_id)
      × (x.asset_type_filter ≡ body.asset_type_filter)
      × (x.metric ≡ body.metric)
      × (x.operator ≡ body.operator)
      × (x.threshold ≡ threshold)
      × Shows body.duration_m x.duration_m
      × Overrides body.severity "critical" x.severity
      × Overrides body.notify_channels ("slack" ∷ []) x.notify_channels
      × (x.is_active ≡ true)
  listed-create_rule = (
    rule_row db.assets (new_rule db.next_rule threshold body),
    row_after,
    refl,
    refl,
    refl,
    refl,
    refl,
    refl,
    to_minutes-Shows body.duration_m,
    or_else-Overrides body.severity "critical",
    or_else-Overrides body.notify_channels ("slack" ∷ []),
    refl,
  )
