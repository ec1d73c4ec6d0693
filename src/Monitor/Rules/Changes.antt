-- ===== src/Monitor/Rules/Changes.antt =====
-- PUT and DELETE of web/src/app/api/alerts/rules/route.ts.
use go_digi.Prelude.{
  ◌+◌, ◌*◌, or_else, Overrides, or_else-Overrides, ℕ, ◌≡◌, ◌≢◌, ◌↔◌, refl, ap, ◌∙◌, false, Option,
  none, some, List, [], ◌∷◌, arith, ◌==◌, ==_iff, find, find_key-update_where, update_where,
  delete_where, any, All, Bool-cases, inl, inr, if◌then◌else◌,
}
use mathlib.Core.Option
use go_digi.Http.{Response, ok, run}
use go_digi.Accounts.{AuthUser, require_auth}
use go_digi.Monitor.{Alert, AlertRule, MonitorDb}
use go_digi.Monitor.Evaluation.{is_id, truthy_id}
use go_digi.Monitor.Rules.{
  Minutes, minutes, to_seconds, seconds_of, RuleChange, set_rule, rule_of, update_rule, delete_rule,
}

-- the seconds of a rule: minutes, where they are given, else seconds, where they are, else the old
abbrev pub Lasts : Option Minutes → Option ℕ → ℕ → ℕ → Type 0
Lasts none seconds old new = Overrides seconds old new
Lasts (some (minutes whole rest)) seconds old new = new ≡ whole * 60 + rest

or_else-Lasts :
    (m : Option Minutes) (s : Option ℕ) (old : ℕ)
    → Lasts m s old (or_else (elim m [ none ↦ s | some m ↦ some (to_seconds m) ]) old)
or_else-Lasts none s old = or_else-Overrides s old
or_else-Lasts (some (minutes whole rest)) s old = refl

seconds_of-Lasts :
    (change : RuleChange) (old : ℕ)
    → Lasts change.duration_m change.duration_s old (or_else (seconds_of change) old)
seconds_of-Lasts change old = or_else-Lasts change.duration_m change.duration_s old

module _ (user : AuthUser) (change : RuleChange) (id : ℕ) (db : MonitorDb)
    (with_id : truthy_id change.id ≡ some id)
    (done : (run (update_rule (some user) change) db).0 ≡ some ok) where
  rules-update_rule :
      (run (update_rule (some user) change) db).1.rules
      ≡ update_where (λ (r : AlertRule). r.id == id) (set_rule change) db.rules
  unfolding update_rule require_auth
  rules-update_rule = ground arith

  found_after :
      (r : AlertRule) (j : ℕ)
      → rule_of id db ≡ some r
      → rule_of j (run (update_rule (some user) change) db).1
        ≡ (if j == id then some (set_rule change r) else rule_of j db)
  found_after r j at =
      ap (find (λ (r : AlertRule). r.id == j)) rules-update_rule
      ∙ find_key-update_where (λ (r : AlertRule). r.id) (set_rule change) id j db.rules (λ u. refl)
      ∙ ap
          (λ (o : Option AlertRule).
            if j == id then Option.map (set_rule change) o else rule_of j db)
          at

  -- After an update of an existing rule that answers ok, the rule has the fields that the body
  -- gives, its minutes as seconds and before its seconds, and its old ones elsewhere; every other
  -- rule is as it was.
  pub rule_of-update_rule :
      (r : AlertRule)
      → rule_of id db ≡ some r
      → ((x : AlertRule) × (rule_of id (run (update_rule (some user) change) db).1 ≡ some x)
          × (x.id ≡ r.id)
          × Overrides change.name r.name x.name
          × Overrides change.asset_id r.asset_id x.asset_id
          × Overrides change.asset_type_filter r.asset_type_filter x.asset_type_filter
          × Overrides change.metric r.metric x.metric
          × Overrides change.operator r.operator x.operator
          × Overrides change.threshold r.threshold x.threshold
          × Lasts change.duration_m change.duration_s r.duration_s x.duration_s
          × Overrides change.severity r.severity x.severity
          × Overrides change.notify_channels r.notify_channels x.notify_channels
          × Overrides change.is_active r.is_active x.is_active)
        × ((j : ℕ)
            → (j == id) ≡ false
            → rule_of j (run (update_rule (some user) change) db).1 ≡ rule_of j db)
  rule_of-update_rule r at = (
    (
      set_rule change r,
      found_after r id at ∙ ground (arith, ==_iff id id),
      refl,
      or_else-Overrides change.name r.name,
      or_else-Overrides change.asset_id r.asset_id,
      or_else-Overrides change.asset_type_filter r.asset_type_filter,
      or_else-Overrides change.metric r.metric,
      or_else-Overrides change.operator r.operator,
      or_else-Overrides change.threshold r.threshold,
      seconds_of-Lasts change r.duration_s,
      or_else-Overrides change.severity r.severity,
      or_else-Overrides change.notify_channels r.notify_channels,
      or_else-Overrides change.is_active r.is_active,
    ),
    λ j e. found_after r j at ∙ rw e refl,
  )

is_id-eq_false : (id : ℕ) (o : Option ℕ) → (is_id id o ≡ false) ↔ (o ≢ some id)
is_id-eq_false id none = (λ h k. cc, λ h. refl)
is_id-eq_false id (some m) = (
  λ h k. ground (arith, ==_iff m id),
  λ h. elim (Bool-cases (m == id)) [ inl e ↦ absurd (h (ap some ((==_iff m id).0 e))) | inr e ↦ e ],
)

any-unnamed :
    (id : ℕ) (alerts : List Alert)
    → (any (λ (a : Alert). is_id id a.rule_id) alerts ≡ false)
      ↔ All (λ (a : Alert). a.rule_id ≢ some id) alerts
any-unnamed id [] = (λ h. tt, λ h. refl)
any-unnamed id (a ∷ alerts) = (
  (λ h. ((is_id-eq_false id a.rule_id).0 (ground arith), (any-unnamed id alerts).0 (ground arith))),
  (λ h. ground (arith, (is_id-eq_false id a.rule_id).1 h.0, (any-unnamed id alerts).1 h.1)),
)

find-delete_where :
    (id : ℕ) (rules : List AlertRule)
    → find (λ (r : AlertRule). r.id == id) (delete_where (λ r. r.id == id) rules) ≡ none
find-delete_where id [] = refl
find-delete_where id (r ∷ rules) = ground (arith, find-delete_where id rules)

module _ (user : AuthUser) (id : ℕ) (r : AlertRule) (db : MonitorDb)
    (at : rule_of id db ≡ some r) where
  abbrev after : Option Response × MonitorDb
  after = run (delete_rule (some user) (some id)) db

  -- Deleting an existing rule with a session answers ok exactly if no alert was ever fired by it;
  -- then the rule is gone, and otherwise the request throws and changes nothing.
  pub delete_rule_iff :
      ((after.0 ≡ some ok) ↔ All (λ (a : Alert). a.rule_id ≢ some id) db.alerts)
      × (after.0 ≡ some ok → rule_of id after.1 ≡ none)
      × (after.0 ≢ some ok → after ≡ (none, db))
  unfolding delete_rule require_auth
  delete_rule_iff = elim (Bool-cases (any (λ (a : Alert). is_id id a.rule_id) db.alerts)) [
    | inl e ↦ (
      (
        (λ h. absurd (ground (arith, at))),
        (λ h. absurd (ground (arith, (any-unnamed id db.alerts).1 h))),
      ),
      (λ h. ground (arith, at)),
      (λ h. ground (arith, at)),
    )
    | inr e ↦ (
      ((λ h. (any-unnamed id db.alerts).0 e), (λ h. ground (arith, at))),
      (λ h. ground (arith, at, find-delete_where id db.rules)),
      (λ h. absurd (h (ground (arith, at)))),
    )
  ]
