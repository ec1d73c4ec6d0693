-- ===== src/Rack/Tests.antt =====
-- A rack of ten slots with two units.
use go_digi.Prelude.{ℕ, true, false, ◌==◌, none, some, [], ◌∷◌, ◌≡◌, ◌↔◌, refl, arith}
use go_digi.Prelude.Int.{ℤ, pos, ◌+ℤ◌, ◌-ℤ◌}
use go_digi.Http.{run, Response, ok, created}
use go_digi.Accounts.{AuthUser, admin}
use go_digi.Rack.{
  Rack, RackUnit, RackDb, RackBody, UnitBody, post, put, delete, create_unit, update_unit,
  update_rack, rack_of, unit_of, set_rack, bad_range, place_unit, move_unit, overlaps, low_u,
}
use go_digi.Rack.Packing.{IsPacked}
use go_digi.Rack.Slots.{low_u-parts}
use go_digi.Rack.Placement.{
  create_unit_iff, Fits, IsFree, HasAsset, is_created, unit_of-update_unit, update_rack_strands,
}
use go_digi.Rack.Requests.{handle_all, handle_all-IsPacked}

abbrev r1 : Rack
r1 = record {
  id = 1;
  name = "R1";
  location = none;
  row_no = none;
  total_u = pos 10;
  description = none;
}

abbrev unit_at : ℕ → ℤ → ℤ → RackUnit
unit_at id start_u size_u = record {
  id = id;
  rack_id = 1;
  start_u = start_u;
  size_u = size_u;
  label = "u";
  unit_type = "server";
  asset_id = some 4;
}

abbrev racks : RackDb
racks = record {
  racks = r1 ∷ [];
  units = unit_at 1 (pos 4) (pos 2) ∷ unit_at 2 (pos 9) (pos 1) ∷ [];
  assets = 4 ∷ [];
  next_rack = 2;
  next_unit = 3;
}

abbrev body : UnitBody
body = record {
  id = some 1;
  rack_id = some 1;
  start_u = some (pos 6);
  size_u = some (pos 2);
  label = some "new";
  unit_type = none;
  asset_id = none;
}

abbrev low_rack : RackBody
low_rack = record {
  id = some 1;
  name = none;
  location = none;
  row_no = none;
  total_u = some (pos 3);
  description = none;
}

abbrev kim : AuthUser
kim = record { id = 1; username = "kim"; email = "kim@example.com"; role = admin }

-- slots 5 and 6 are free, 4 and 5 are not
placed : (run (create_unit body) racks).0 ≡ some (created 3)
unfolding create_unit place_unit bad_range overlaps low_u ◌+ℤ◌ ◌-ℤ◌
placed = refl

refused :
    (run (create_unit (record body { start_u = some (pos 5) })) racks).0
    ≡ some (Response.error 409 "slot overlap")
unfolding create_unit place_unit bad_range overlaps low_u ◌+ℤ◌ ◌-ℤ◌
refused = refl

moved : (run (update_unit body) racks).0 ≡ some ok
unfolding update_unit move_unit bad_range overlaps low_u ◌+ℤ◌ ◌-ℤ◌
moved = refl

racks-IsPacked : IsPacked racks
racks-IsPacked = record {
  below = (omega arith, (omega arith, tt));
  apart = (
    (((λ e. omega arith), λ _ m. omega (arith, low_u-parts (pos 9) (pos 1), m.1, m.2)), tt),
    ((tt, tt)),
  );
}

handle_all-IsPacked_example : IsPacked (
    handle_all
      ((some kim, post "create_unit" low_rack body)
        ∷ (some kim, put "update_unit" low_rack body)
        ∷ (none, delete (some "rack") (some 1))
        ∷ [])
      racks)
handle_all-IsPacked_example =
    handle_all-IsPacked
      ((some kim, post "create_unit" low_rack body)
        ∷ (some kim, put "update_unit" low_rack body)
        ∷ (none, delete (some "rack") (some 1))
        ∷ [])
      racks racks-IsPacked

create_unit_iff_example : (is_created (run (create_unit body) racks).0 ≡ true) ↔ (
    Fits (pos 10) (pos 6) (pos 2) × IsFree 1 (pos 6) (pos 2) racks.units × HasAsset none (4 ∷ []))
create_unit_iff_example =
    create_unit_iff body 1 (pos 6) "new" r1 racks refl refl refl refl (omega arith) (omega arith)

unit_of-update_unit_example :
    ((u : RackUnit) × (unit_of 1 (run (update_unit body) racks).1 ≡ some u)
      × (u.start_u ≡ pos 6)
      × (u.size_u ≡ pos 2)
      × (u.label ≡ "new")
      × (u.unit_type ≡ "server")
      × (u.asset_id ≡ none)
      × (u.rack_id ≡ 1))
    × ((j : ℕ) → (j == 1) ≡ false → unit_of j (run (update_unit body) racks).1 ≡ unit_of j racks)
unit_of-update_unit_example =
    unit_of-update_unit body 1 (unit_at 1 (pos 4) (pos 2)) racks refl refl moved

update_rack_strands_example :
    ((run (update_rack low_rack) racks).0 ≡ some ok)
    × ((run (update_rack low_rack) racks).1.units ≡ racks.units)
    × (rack_of 1 (run (update_rack low_rack) racks).1 ≡ some (set_rack low_rack r1))
    × (bad_range (pos 3) (pos 9) (pos 1) ≡ true)
update_rack_strands_example =
    update_rack_strands low_rack 1 r1 (pos 3) (unit_at 2 (pos 9) (pos 1)) racks refl refl refl refl
      refl
