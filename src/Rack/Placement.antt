-- ===== src/Rack/Placement.antt =====
-- When web/src/app/api/rack/route.ts accepts a unit, and what its updates change.
use mathlib.Core.Bool.{not}
use go_digi.Prelude.{
  ℕ, String, find-eq_some, ap, ◌≡◌, ◌↔◌, Bool, true, false, ◌&&◌, Option, none, some, List, [], ◌∷◌,
  All, find-eq_none, find-update_where, arith, ◌==◌, is_some, or_else, Overrides, or_else-Overrides,
  Option-cases, Bool-cases, any, ◌⊎◌, ==_iff, inl, inr, refl, find, if◌then◌else◌, ◌∙◌,
}
use go_digi.Prelude.Int.{ℤ, pos, ◌≤ℤ◌, ltb_ℤ}
use go_digi.Http.{Response, ok, created, run}
use go_digi.Accounts.{require_auth}
use go_digi.Rack.{
  Rack, RackUnit, RackDb, RackBody, UnitBody, RackRequest, post, put, delete, rack_of, unit_of,
  given_text, given_id, given_number, create_unit, place_unit, blocker, update_rack, set_rack,
  update_unit, move_unit, set_unit, update_units, unknown_asset, bad_range, overlaps, low_u, handle,
}
use go_digi.Rack.Slots.{Meets, Takes, not-overlaps, overlaps-Meets, low_u-parts}

-- every slot of the position is a slot of the rack
abbrev pub Fits : ℤ → ℤ → ℤ → Type 0
Fits total_u start_u size_u =
    (slot : ℤ) → Takes start_u size_u slot → (pos 1 ≤ℤ slot) × (slot ≤ℤ total_u)

-- no unit of the rack takes a slot of the position
abbrev pub IsFree : ℕ → ℤ → ℤ → List RackUnit → Type 0
IsFree rack_id start_u size_u = All (λ u. u.rack_id ≡ rack_id → ¬ Meets start_u size_u u)

abbrev pub HasSize : RackUnit → Type 0
HasSize u = pos 1 ≤ℤ u.size_u

Fits-iff :
    (total_u start_u size_u : ℤ)
    → pos 1 ≤ℤ size_u
    → (bad_range total_u start_u size_u ≡ false) ↔ Fits total_u start_u size_u
unfolding bad_range
Fits-iff total_u start_u size_u size = (
  (λ fine slot t. (ground arith, ground arith)),
  (λ fits. ground (arith, low_u-parts start_u size_u, fits (low_u start_u size_u), fits start_u)),
)

IsFree-intro :
    (rack_id : ℕ) (start_u size_u : ℤ) (us : List RackUnit)
    → All (λ u. (u.rack_id == rack_id && overlaps start_u size_u u) ≡ false) us
    → IsFree rack_id start_u size_u us
IsFree-intro rack_id start_u size_u [] h = tt
IsFree-intro rack_id start_u size_u (u ∷ us) (h, hs) = (
  (λ same. not-overlaps start_u size_u u (ground arith)),
  IsFree-intro rack_id start_u size_u us hs,
)

blocker-IsFree :
    (rack_id : ℕ) (start_u size_u : ℤ) (us : List RackUnit)
    → pos 1 ≤ℤ size_u
    → All HasSize us
    → IsFree rack_id start_u size_u us
    → find (λ u. u.rack_id == rack_id && overlaps start_u size_u u) us ≡ none
blocker-IsFree rack_id start_u size_u [] size sizes free = refl
blocker-IsFree rack_id start_u size_u (u ∷ us) size (s, ss) (f, fs) =
    elim (Bool-cases (u.rack_id == rack_id && overlaps start_u size_u u)) [
      | inl e ↦ absurd (f (ground arith) (overlaps-Meets start_u size_u u size s (ground arith)))
      | inr e ↦ rw e (blocker-IsFree rack_id start_u size_u us size ss fs)
    ]

abbrev pub Among : ℕ → List ℕ → Type 0
Among a [] = ⊥
Among a (n ∷ ns) = (n ≡ a) ⊎ Among a ns

-- an asset that is named is one of the ids
abbrev pub HasAsset : Option ℕ → List ℕ → Type 0
HasAsset none ids = Unit
HasAsset (some a) ids = Among a ids

Among-any : (a : ℕ) (ns : List ℕ) → Among a ns → any (λ n. n == a) ns ≡ true
Among-any a [] h = absurd h
Among-any a (n ∷ ns) (inl e) = ground (arith, (==_iff n a).1 e)
Among-any a (n ∷ ns) (inr h) = ground (arith, Among-any a ns h)

any-Among : (a : ℕ) (ns : List ℕ) → any (λ n. n == a) ns ≡ true → Among a ns
any-Among a [] h = cc
any-Among a (n ∷ ns) h = elim (Bool-cases (n == a)) [
  | inl e ↦ inl ((==_iff n a).0 e)
  | inr e ↦ inr (any-Among a ns (ground (arith, e, h)))
]

HasAsset-iff :
    (asset_id : Option ℕ) (db : RackDb)
    → (unknown_asset asset_id db ≡ false) ↔ HasAsset asset_id db.assets
HasAsset-iff none db = (λ _. tt, λ _. refl)
HasAsset-iff (some a) db =
    (λ h. any-Among a db.assets (ground arith), λ h. ground (arith, Among-any a db.assets h))

abbrev pub is_created : Option Response → Bool
is_created (some (created id)) = true
is_created _ = false

module _ (body : UnitBody) (rack_id : ℕ) (start_u : ℤ) (label : String) (rack : Rack) (db : RackDb)
    (with_rack : given_id body.rack_id ≡ some rack_id)
    (with_start : given_number body.start_u ≡ some start_u)
    (with_label : given_text body.label ≡ some label) (at : rack_of rack_id db ≡ some rack) where
  create_unit-checks : is_created (run (create_unit body) db).0 ≡ (
      not (bad_range rack.total_u start_u (or_else body.size_u (pos 1)))
      && not (is_some (blocker rack_id start_u (or_else body.size_u (pos 1)) db))
      && not (unknown_asset body.asset_id db))
  unfolding create_unit place_unit
  create_unit-checks = ground arith

  -- With a rack that exists, a nonzero start and a label given, and where the size and those of
  -- all mounted units are at least 1, create_unit answers with a new id exactly if every slot of
  -- the position lies between 1 and the height of the rack, no unit of that rack takes one of
  -- them, and the asset, if the body names one, exists.
  pub create_unit_iff :
      pos 1 ≤ℤ or_else body.size_u (pos 1)
      → All HasSize db.units
      → (is_created (run (create_unit body) db).0 ≡ true) ↔ (
          Fits rack.total_u start_u (or_else body.size_u (pos 1))
          × IsFree rack_id start_u (or_else body.size_u (pos 1)) db.units
          × HasAsset body.asset_id db.assets)
  create_unit_iff size sizes =
      let size_u = or_else body.size_u (pos 1) in
      (
        (λ accepted. (
          (Fits-iff rack.total_u start_u size_u size).0 (ground (arith, create_unit-checks)),
          IsFree-intro rack_id start_u size_u db.units
              (find-eq_none _ db.units (ground (arith, create_unit-checks))),
          (HasAsset-iff body.asset_id db).0 (ground (arith, create_unit-checks)),
        )),
        (λ spec. ground (
          arith,
          create_unit-checks,
          (Fits-iff rack.total_u start_u size_u size).1 spec.0,
          blocker-IsFree rack_id start_u size_u db.units size sizes spec.1,
          (HasAsset-iff body.asset_id db).1 spec.2,
        )),
      )

-- Without a session every request on racks ends with an exception and no response of the handler,
-- and changes nothing.
unauthorized_throws : (r : RackRequest) (db : RackDb) → run (handle none r) db ≡ (none, db)
unfolding handle require_auth
unauthorized_throws (post action rack unit) db = refl
unauthorized_throws (put action rack unit) db = refl
unauthorized_throws (delete type id) db = refl

module _ (body : UnitBody) (id : ℕ) (current : RackUnit) (db : RackDb)
    (with_id : given_id body.id ≡ some id) (at : unit_of id db ≡ some current)
    (done : (run (update_unit body) db).0 ≡ some ok) where
  units-update_unit :
      (run (update_unit body) db).1
      ≡ update_units id
          (set_unit
            (or_else body.start_u current.start_u)
            (or_else body.size_u current.size_u)
            body)
          db
  unfolding update_unit move_unit
  units-update_unit = ground arith

  found_after :
      (j : ℕ)
      → unit_of j (run (update_unit body) db).1 ≡ (
          if j == id
          then some (
              set_unit
                (or_else body.start_u current.start_u)
                (or_else body.size_u current.size_u)
                body
                current)
          else unit_of j db)
  found_after j =
      let f =
        set_unit (or_else body.start_u current.start_u) (or_else body.size_u current.size_u) body in
      ap (unit_of j) units-update_unit
      ∙ find-update_where (λ u. u.id == j) (λ u. u.id == id) f db.units (λ u. refl)
      ∙ elim (Option-cases (unit_of j db)) [
        | inl e ↦ ground (arith, e, at, find-eq_some (λ (u : RackUnit). u.id == id) db.units at)
        | inr (v, e) ↦ ground (
          arith,
          e,
          at,
          find-eq_some (λ (u : RackUnit). u.id == id) db.units at,
          find-eq_some (λ (u : RackUnit). u.id == j) db.units e,
        )
      ]

  -- After an update_unit that answers ok, the row with the given id has the start, size, label
  -- and type of the body where it gives them and its old ones elsewhere, the asset of the body or
  -- none, and its old rack; a query for any other id finds what it found before.
  pub unit_of-update_unit :
      ((u : RackUnit) × (unit_of id (run (update_unit body) db).1 ≡ some u)
        × Overrides body.start_u current.start_u u.start_u
        × Overrides body.size_u current.size_u u.size_u
        × Overrides body.label current.label u.label
        × Overrides body.unit_type current.unit_type u.unit_type
        × (u.asset_id ≡ body.asset_id)
        × (u.rack_id ≡ current.rack_id))
      × ((j : ℕ) → (j == id) ≡ false → unit_of j (run (update_unit body) db).1 ≡ unit_of j db)
  unit_of-update_unit = (
    (
      set_unit (or_else body.start_u current.start_u) (or_else body.size_u current.size_u) body
          current,
      found_after id ∙ ground (arith, ==_iff id id),
      or_else-Overrides body.start_u current.start_u,
      or_else-Overrides body.size_u current.size_u,
      or_else-Overrides body.label current.label,
      or_else-Overrides body.unit_type current.unit_type,
      refl,
      refl,
    ),
    λ j e. found_after j ∙ rw e refl,
  )

-- A new height is not held against the units that are mounted.
module _ (body : RackBody) (id : ℕ) (rack : Rack) (total : ℤ) (u : RackUnit) (db : RackDb)
    (with_id : given_id body.id ≡ some id) (at : rack_of id db ≡ some rack)
    (lower : body.total_u ≡ some total) (mounted : u.rack_id ≡ id)
    (above : ltb_ℤ total u.start_u ≡ true) where
  -- An update_rack that lowers the height of a rack below the start of a mounted unit answers ok,
  -- keeps all units as they are, and leaves that unit outside the range that create_unit and
  -- update_unit demand.
  pub update_rack_strands :
      ((run (update_rack body) db).0 ≡ some ok)
      × ((run (update_rack body) db).1.units ≡ db.units)
      × (rack_of u.rack_id (run (update_rack body) db).1 ≡ some (set_rack body rack))
      × (bad_range (set_rack body rack).total_u u.start_u u.size_u ≡ true)
  unfolding update_rack bad_range
  update_rack_strands = (
    ground arith,
    ground arith,
    ground (
      arith,
      find-update_where (λ r. r.id == id) (λ r. r.id == id) (set_rack body) db.racks (λ r. refl),
      find-eq_some (λ (r : Rack). r.id == id) db.racks at,
    ),
    ground arith,
  )
