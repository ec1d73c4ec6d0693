-- ===== src/Rack/Packing.antt =====
-- No two units of a rack of web/src/app/api/rack/route.ts share a slot, whatever the requests.
use mathlib.Core.Bool.{not}
use go_digi.Prelude.{
  ℕ, suc, All-pair, ◌<◌, ◌≡◌, ◌≢◌, ◌∙◌, sym, false, ◌&&◌, none, some, List, [], ◌∷◌, All,
  All-append, Pairwise, Pairwise-insert, Pairwise-update_where, All-update_where, find-eq_none,
  touch, arith, ◌==◌, Bool-cases, inl, inr, find,
}
use go_digi.Prelude.Int.{ℤ}
use go_digi.Rack.{
  RackUnit, RackDb, UnitBody, overlaps, unit_of, insert_unit, blocker, set_unit, update_units,
  other_blocker,
}
use go_digi.Rack.Slots.{Meets, not-overlaps}

-- different units, and no common slot if they are in one rack
abbrev pub Apart : RackUnit → RackUnit → Type 0
Apart u v = (u.id ≢ v.id) × (u.rack_id ≡ v.rack_id → ¬ Meets u.start_u u.size_u v)

pub record IsPacked (db : RackDb) : Type 0 where
  pub below : All (λ u. u.id < db.next_unit) db.units
  pub apart : Pairwise Apart db.units

-- the new unit against one that was no blocker
Apart-new :
    (u v : RackUnit)
    → u.id ≢ v.id
    → (u.rack_id == v.rack_id && overlaps v.start_u v.size_u u) ≡ false
    → Apart u v
Apart-new u v ne free =
    (ne, λ same m. not-overlaps v.start_u v.size_u u (ground arith) (m.0, m.2, m.1))

All-zip :
    (n : ℕ) (v : RackUnit) (us : List RackUnit)
    → v.id ≡ n
    → All (λ u. u.id < n) us
    → All (λ u. (u.rack_id == v.rack_id && overlaps v.start_u v.size_u u) ≡ false) us
    → All (λ u. Apart u v) us
All-zip n v [] e h k = tt
All-zip n v (u ∷ us) e (h, hs) (k, ks) =
    (Apart-new u v (λ q. omega arith) k, All-zip n v us e hs ks)

All-below_suc : (n : ℕ) (us : List RackUnit) → All (λ u. u.id < n) us → All (λ u. u.id < suc n) us
All-below_suc n [] h = tt
All-below_suc n (u ∷ us) (h, hs) = (omega arith, All-below_suc n us hs)

pub insert_unit-IsPacked :
    (db : RackDb) (v : RackUnit)
    → IsPacked db
    → v.id ≡ db.next_unit
    → blocker v.rack_id v.start_u v.size_u db ≡ none
    → IsPacked (insert_unit v db)
insert_unit-IsPacked db v h fresh free = record {
  below =
      All-append (λ u. u.id < suc db.next_unit) db.units (v ∷ [])
        (All-below_suc db.next_unit db.units h.below) (omega arith, tt);
  apart =
      Pairwise-insert Apart db.units v h.apart
        (All-zip db.next_unit v db.units fresh h.below (find-eq_none _ db.units free));
}

-- an id that a refused INSERT took
pub skipped-IsPacked :
    (db : RackDb) → IsPacked db → IsPacked (record db { next_unit = suc db.next_unit })
skipped-IsPacked db h = record {
  below = All-below_suc db.next_unit db.units h.below;
  apart = h.apart;
}

module _ (id : ℕ) (current : RackUnit) where
  -- the row with the id of the one that was read is that row
  abbrev IsCurrent : RackUnit → Type 0
  IsCurrent u = u.id ≡ id → u ≡ current

  others_differ :
      (us : List RackUnit) (x : RackUnit) → x.id ≡ id → All (Apart x) us → All IsCurrent us
  others_differ [] x e h = tt
  others_differ (u ∷ us) x e (h, hs) = ((λ q. absurd (h.0 (e ∙ sym q))), others_differ us x e hs)

  All-IsCurrent :
      (us : List RackUnit)
      → Pairwise Apart us
      → find (λ u. u.id == id) us ≡ some current
      → All IsCurrent us
  All-IsCurrent [] h e = tt
  All-IsCurrent (u ∷ us) (h, hs) e = elim (Bool-cases (u.id == id)) [
    | inl q ↦ ((λ _. ground arith), others_differ us u (ground arith) h)
    | inr q ↦ ((λ same. absurd (ground arith)), All-IsCurrent us hs (ground arith))
  ]

  module _ (start_u size_u : ℤ) (body : UnitBody) where
    abbrev moved : RackUnit → RackUnit
    moved = touch (λ u. u.id == id) (set_unit start_u size_u body)

    moved-Apart :
        (x y : RackUnit)
        → IsCurrent x
          × ((x.rack_id == current.rack_id && not (x.id == id) && overlaps start_u size_u x)
              ≡ false)
        → IsCurrent y
          × ((y.rack_id == current.rack_id && not (y.id == id) && overlaps start_u size_u y)
              ≡ false)
        → Apart x y
        → Apart (moved x) (moved y)
    moved-Apart x y (cx, fx) (cy, fy) h = (
      (λ q. h.0 (ground arith)),
      elim (Bool-cases (x.id == id)) [
        | inl ex ↦ elim (Bool-cases (y.id == id)) [
          | inl ey ↦ λ _ _. h.0 (ground arith)
          | inr ey ↦ rw (ex, ey) (λ same m. not-overlaps start_u size_u y (ground (arith, cx)) m)
        ]
        | inr ex ↦ elim (Bool-cases (y.id == id)) [
          | inl ey ↦
              rw (ex, ey)
                (λ same m. not-overlaps start_u size_u x (ground (arith, cy)) (m.0, m.2, m.1))
          | inr ey ↦ rw (ex, ey) h.1
        ]
      ],
    )

    kept-Apart :
        start_u ≡ current.start_u
        → size_u ≡ current.size_u
        → (x y : RackUnit) → IsCurrent x
        → IsCurrent y
        → Apart x y
        → Apart (moved x) (moved y)
    kept-Apart es ez x y cx cy h = (
      (λ q. h.0 (ground arith)),
      elim (Bool-cases (x.id == id)) [
        | inl ex ↦ elim (Bool-cases (y.id == id)) [
          | inl ey ↦ λ _ _. h.0 (ground arith)
          | inr ey ↦
              rw (ex, ey)
                (λ same m. h.1 same (
                  m.0,
                  rw (same_start x cx (ground arith), same_size x cx (ground arith)) m.1,
                  m.2,
                ))
        ]
        | inr ex ↦ elim (Bool-cases (y.id == id)) [
          | inl ey ↦
              rw (ex, ey)
                (λ same m. h.1 same (
                  m.0,
                  m.1,
                  rw (same_start y cy (ground arith), same_size y cy (ground arith)) m.2,
                ))
          | inr ey ↦ rw (ex, ey) h.1
        ]
      ],
    )
      where
        same_start : (u : RackUnit) → IsCurrent u → u.id ≡ id → u.start_u ≡ start_u
        same_start u c e = ground (arith, c e, es)

        same_size : (u : RackUnit) → IsCurrent u → u.id ≡ id → u.size_u ≡ size_u
        same_size u c e = ground (arith, c e, ez)

module _ (id : ℕ) (current : RackUnit) (start_u size_u : ℤ) (body : UnitBody) (db : RackDb)
    (h : IsPacked db) (at : unit_of id db ≡ some current) where
  below_after :
      All (λ u. u.id < db.next_unit) (update_units id (set_unit start_u size_u body) db).units
  below_after =
      All-update_where (λ u. u.id < db.next_unit) (λ u. u.id == id) (set_unit start_u size_u body)
        db.units (λ u _ k. k) h.below

  -- A unit that moves where no other is in the way, or stays where it is, keeps the rack packed.
  pub moved-IsPacked :
      other_blocker current.rack_id id start_u size_u db ≡ none
      → IsPacked (update_units id (set_unit start_u size_u body) db)
  moved-IsPacked free = record {
    below = below_after;
    apart =
        Pairwise-update_where Apart _ (λ u. u.id == id) (set_unit start_u size_u body)
          (moved-Apart id current start_u size_u body) db.units
          (All-pair _ _ db.units (All-IsCurrent id current db.units h.apart at)
            (find-eq_none _ db.units free))
          h.apart;
  }

  pub kept-IsPacked :
      start_u ≡ current.start_u
      → size_u ≡ current.size_u
      → IsPacked (update_units id (set_unit start_u size_u body) db)
  kept-IsPacked es ez = record {
    below = below_after;
    apart =
        Pairwise-update_where Apart _ (λ u. u.id == id) (set_unit start_u size_u body)
          (kept-Apart id current start_u size_u body es ez) db.units
          (All-IsCurrent id current db.units h.apart at) h.apart;
  }
