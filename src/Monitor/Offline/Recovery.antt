-- ===== src/Monitor/Offline/Recovery.antt =====
-- What a run of `runOfflineCheck` does to the incidents of the devices that are online.
use mathlib.Core.Path.{subst, sym, ap}
use go_digi.Prelude.{
  All-map, ℕ, ◌≡◌, refl, ◌∙◌, Bool, true, false, none, some, List, [], ◌∷◌, ◌++◌, All,
  All-update_where, any, arith, str_eq, ==_iff, ◌==◌, Option-cases, Bool-cases, ◌⊎◌, inl, inr,
  select, find, update_where,
}
use go_digi.Prelude.Int.{ℤ}
use go_digi.Http.{Exit, next}
use go_digi.Monitor.{Asset, Incident, MonitorDb, Services, for_each-keeps, send_alert-keeps}
use go_digi.Monitor.Loops.{for_each-does, for_each-next}
use go_digi.Monitor.Offline.{
  is_open, is_outage, closed, resolve_incident, alert_outage, report_incident, report_outage,
  recover, is_back, run_offline_check, threshold_min, outage_title,
}
use go_digi.Monitor.Offline.Outages.{
  after_off, silent, marked, reported, second_loop, reported-assets, report_outage-eq,
  offline_check-loops,
}

abbrev pub IsResolved : ℕ → MonitorDb → Type 0
IsResolved id db =
    All (λ (i : Incident). i.id ≡ id → str_eq i.status "resolved" ≡ true) db.incidents

abbrev pub FirstOpen : ℕ → Incident → MonitorDb → Type 0
FirstOpen asset_id i db = find (is_open asset_id) db.incidents ≡ some i

abbrev Settled : ℕ → Incident → MonitorDb → Type 0
Settled asset_id i db = FirstOpen asset_id i db ⊎ IsResolved i.id db

find-append :
    {A : Type 0} (p : A → Bool) (xs ys : List A) {x : A}
    → find p xs ≡ some x
    → find p (xs ++ ys) ≡ some x
find-append p [] ys h = cc
find-append p (y ∷ xs) ys {x} h = ground (arith, λ (k : find p xs ≡ some x). find-append p xs ys k)

is_open-closed : (now asset_id : ℕ) (j : Incident) → is_open asset_id (closed now j) ≡ false
is_open-closed now asset_id j = ground arith

-- closing another incident
find-close :
    (now asset_id id : ℕ) (i : Incident) (rows : List Incident)
    → (i.id == id) ≡ false
    → find (is_open asset_id) rows ≡ some i
    → find (is_open asset_id) (update_where (λ (j : Incident). j.id == id) (closed now) rows)
      ≡ some i
find-close now asset_id id i [] other h = cc
find-close now asset_id id i (j ∷ rows) other h = elim (Bool-cases (is_open asset_id j)) [
  | inl e ↦
      let same : j ≡ i = ground arith in
      let apart : (j.id == id) ≡ false = ap (λ (k : Incident). k.id == id) same ∙ other in
      rw apart (rw e (ap some same))
  | inr e ↦ elim (Bool-cases (j.id == id)) [
    | inl k ↦ rw k (
        rw (is_open-closed now asset_id j) (find-close now asset_id id i rows other (ground arith)))
    | inr k ↦ rw k (rw e (find-close now asset_id id i rows other (ground arith)))
  ]
]

closed-IsResolved :
    (now id : ℕ) (rows : List Incident)
    → All
        (λ (i : Incident). i.id ≡ id → str_eq i.status "resolved" ≡ true)
        (update_where (λ (j : Incident). j.id == id) (closed now) rows)
closed-IsResolved now id [] = tt
closed-IsResolved now id (j ∷ rows) = (
  elim (Bool-cases (j.id == id)) [
    | inl e ↦ rw e (λ _. refl)
    | inr e ↦ rw e (λ k. absurd (ground (arith, ==_iff j.id id)))
  ],
  closed-IsResolved now id rows,
)

module _ (now : ℕ) where
  recover-IsResolved :
      (id : ℕ) (b : Asset) (db : MonitorDb) → IsResolved id db → IsResolved id (recover now b db).1
  unfolding recover
  recover-IsResolved id b db h = elim (Option-cases (find (is_open b.id) db.incidents)) [
    | inl e ↦ rw e h
    | inr (j, e) ↦ rw e (
        All-update_where _ (λ (k : Incident). k.id == j.id) (closed now) db.incidents
          (λ k _ _ _. refl) h)
  ]

  recover-next : (b : Asset) (db : MonitorDb) → (recover now b db).0 ≡ next tt
  unfolding recover
  recover-next b db = elim (Option-cases (find (is_open b.id) db.incidents)) [
    | inl e ↦ rw e refl
    | inr (j, e) ↦ rw e refl
  ]

  -- the round of the asset itself
  recover-resolves :
      (a : Asset) (i : Incident) (db : MonitorDb)
      → Settled a.id i db
      → IsResolved i.id (recover now a db).1
  unfolding recover
  recover-resolves a i db (inl e) = rw e (closed-IsResolved now i.id db.incidents)
  recover-resolves a i db (inr h) = recover-IsResolved i.id a db h

  recover-Settled :
      (asset_id : ℕ) (i : Incident) (b : Asset) (db : MonitorDb)
      → Settled asset_id i db
      → Settled asset_id i (recover now b db).1
  unfolding recover
  recover-Settled asset_id i b db (inr h) = inr (recover-IsResolved i.id b db h)
  recover-Settled asset_id i b db (inl h) = elim (Option-cases (find (is_open b.id) db.incidents)) [
    | inl e ↦ rw e (inl h)
    | inr (j, e) ↦ elim (Bool-cases (i.id == j.id)) [
      | inl k ↦ rw e (
          inr (
            subst (λ id. IsResolved i.id (resolve_incident now id db)) ((==_iff i.id j.id).0 k)
              (closed-IsResolved now i.id db.incidents)))
      | inr k ↦ rw e (inl (find-close now asset_id j.id i db.incidents k h))
    ]
  ]

module _ (services : Services) (now : ℕ) (minutes : ℤ) where
  alert_outage-incidents :
      (a : Asset) (db : MonitorDb) → (alert_outage services now a db).1.incidents ≡ db.incidents
  unfolding alert_outage
  alert_outage-incidents a db = elim (Bool-cases (any (is_outage a.id) db.alerts)) [
    | inl e ↦ rw e refl
    | inr e ↦ rw e (
        send_alert-keeps services (λ s. s.incidents ≡ db.incidents) (λ s ns k. k) db.next_alert
          (outage_title a) _ none _ refl)
  ]

  report_incident-FirstOpen :
      (asset_id : ℕ) (i : Incident) (b : Asset) (db : MonitorDb)
      → FirstOpen asset_id i db
      → FirstOpen asset_id i (report_incident now minutes b db).1
  unfolding report_incident
  report_incident-FirstOpen asset_id i b db h =
      elim (Bool-cases (any (is_open b.id) db.incidents)) [
        | inl e ↦ rw e h
        | inr e ↦ rw e (find-append (is_open asset_id) db.incidents _ h)
      ]

  report_outage-FirstOpen :
      (asset_id : ℕ) (i : Incident) (b : Asset) (db : MonitorDb)
      → FirstOpen asset_id i db
      → FirstOpen asset_id i (report_outage services now minutes b db).1
  report_outage-FirstOpen asset_id i b db h =
      subst (λ r. FirstOpen asset_id i r.1) (sym (report_outage-eq services now minutes b db))
        (report_incident-FirstOpen asset_id i b (alert_outage services now b db).1
          (ap (find (is_open asset_id)) (alert_outage-incidents b db) ∙ h))

-- what is shown for each `c` apart is shown for all
All-swap :
    {A C : Type 0} (P : A → C → Type 0) (xs : List A)
    → ((c : C) → All (λ x. P x c) xs)
    → All (λ x. (c : C) → P x c) xs
All-swap P [] h = tt
All-swap P (x ∷ xs) h = (λ c. (h c).0, All-swap P xs (λ c. (h c).1))

module _ (services : Services) (now : ℕ) (minutes : ℤ) (db : MonitorDb)
    (set : threshold_min db ≡ some minutes) where
  -- an incident that is the first open one of some asset
  abbrev Opened : Type 0
  Opened = (asset_id : ℕ) × (i : Incident) × FirstOpen asset_id i db

  abbrev back : List Asset
  back = select is_back (after_off now minutes db.assets)

  recovering :
      (c : Opened)
      → All
          (λ (x : Asset).
            x.id ≡ c.0 → IsResolved c.1.id (second_loop services now minutes db set).1)
          (select is_back (reported services now minutes db set).assets)
  recovering (asset_id, i, h) =
      let start = reported services now minutes db set in
      let online = select is_back start.assets in
      for_each-does (recover now) (Settled asset_id i) (λ x s. x.id ≡ asset_id → IsResolved i.id s)
        (λ b s. recover-Settled now asset_id i b s)
        (λ b s k _ own. recover-resolves now b i s (subst (λ n. Settled n i s) (sym own) k))
        (λ b x s k own. recover-IsResolved now i.id b s (k own)) online start
        (inl (
          for_each-keeps (FirstOpen asset_id i) (report_outage services now minutes)
            (silent services now minutes db set) (marked services now minutes db set)
            (λ b s k. report_outage-FirstOpen services now minutes asset_id i b s k) h))
        (for_each-next (recover now) online start (recover-next now))

  -- With a threshold that is a number, the offline check resolves the first unresolved incident
  -- of every watched asset that is online and seen within the threshold, whatever the incident is
  -- about.
  pub offline_check-IsResolved :
      All
        (λ (a : Asset).
          (i : Incident)
          → FirstOpen a.id i db
          → IsResolved i.id (run_offline_check services now db))
        (select is_back (after_off now minutes db.assets))
  unfolding run_offline_check
  offline_check-IsResolved =
      subst
        (λ (r : Exit Unit Unit × MonitorDb).
          All (λ (a : Asset). (i : Incident) → FirstOpen a.id i db → IsResolved i.id r.1) back)
        (sym (offline_check-loops services now minutes db set))
        (All-map _ _ back (λ a k i h. k (a.id, i, h) refl)
          (All-swap
            (λ (x : Asset) (c : Opened).
              x.id ≡ c.0 → IsResolved c.1.id (second_loop services now minutes db set).1)
            back
            (λ c.
              subst
                (λ assets.
                  All
                    (λ (x : Asset).
                      x.id ≡ c.0 → IsResolved c.1.id (second_loop services now minutes db set).1)
                    (select is_back assets))
                (reported-assets services now minutes db set) (recovering c))))
