-- ===== src/Rack.antt =====
-- web/src/app/api/rack/route.ts: racks and the units mounted in them. A unit of `size_u` slots
-- that starts at `start_u` hangs down from it.
pub mod Slots
pub mod Packing
pub mod Requests
pub mod Placement
mod Tests
use mathlib.Core.Bool.{◌||◌, not}
use go_digi.Prelude.{
  ℕ, suc, String, Bool, true, false, ◌&&◌, Option, none, some, List, [], ◌∷◌, ◌++◌, str_eq, ◌==◌,
  find, select, any, update_where, delete_where, is_some, or_else, if◌then◌else◌,
}
use go_digi.Prelude.Int.{ℤ, pos, ◌+ℤ◌, ◌-ℤ◌, ltb_ℤ, is_zero_ℤ}
use go_digi.Http.{
  Handler, Response, ok, created, error, found, gets, modify, pure, raise, reject_if, respond,
  ◌>>=◌, ◌>>◌,
}
use go_digi.Accounts.{AuthUser, require_auth}

pub record Rack : Type 0 where
  pub id : ℕ
  pub name : String
  pub location : Option String
  pub row_no : Option String
  pub total_u : ℤ
  pub description : Option String

pub record RackUnit : Type 0 where
  pub id : ℕ
  pub rack_id : ℕ
  pub start_u : ℤ
  pub size_u : ℤ
  pub label : String
  pub unit_type : String
  pub asset_id : Option ℕ

-- the tables `racks` and `rack_units` with their sequences of ids, and the ids of `assets`
pub record RackDb : Type 0 where
  pub racks : List Rack
  pub units : List RackUnit
  pub assets : List ℕ
  pub next_rack : ℕ
  pub next_unit : ℕ

abbrev pub RackHandler : Type 0 → Type 0
RackHandler A = Handler Response RackDb A

-- the body of `create_rack` and `update_rack`; a missing name is the empty text in `create_rack`
pub record RackBody : Type 0 where
  pub id : Option ℕ
  pub name : Option String
  pub location : Option String
  pub row_no : Option String
  pub total_u : Option ℤ
  pub description : Option String

-- the body of `create_unit` and `update_unit`
pub record UnitBody : Type 0 where
  pub id : Option ℕ
  pub rack_id : Option ℕ
  pub start_u : Option ℤ
  pub size_u : Option ℤ
  pub label : Option String
  pub unit_type : Option String
  pub asset_id : Option ℕ

-- the lowest slot of a unit
unfoldable pub low_u : ℤ → ℤ → ℤ
low_u start_u size_u = start_u -ℤ size_u +ℤ pos 1

-- start_u < 1 || start_u > total_u || start_u - size_u + 1 < 1
unfoldable pub bad_range : ℤ → ℤ → ℤ → Bool
bad_range total_u start_u size_u =
    ltb_ℤ start_u (pos 1) || ltb_ℤ total_u start_u || ltb_ℤ (low_u start_u size_u) (pos 1)

-- start_u - size_u + 1 < $2 + 1 AND $2 - $3 + 1 < start_u + 1
unfoldable pub overlaps : ℤ → ℤ → RackUnit → Bool
overlaps start_u size_u u =
    ltb_ℤ (low_u u.start_u u.size_u) (start_u +ℤ pos 1)
    && ltb_ℤ (low_u start_u size_u) (u.start_u +ℤ pos 1)

abbrev pub rack_of : ℕ → RackDb → Option Rack
rack_of id db = find (λ r. r.id == id) db.racks

abbrev pub unit_of : ℕ → RackDb → Option RackUnit
unit_of id db = find (λ u. u.id == id) db.units

abbrev given_text : Option String → Option String
given_text none = none
given_text (some s) = if str_eq s "" then none else some s

abbrev given_id : Option ℕ → Option ℕ
given_id none = none
given_id (some n) = if n == 0 then none else some n

abbrev given_number : Option ℤ → Option ℤ
given_number none = none
given_number (some n) = if is_zero_ℤ n then none else some n

pub create_rack : RackBody → RackHandler Response
create_rack body = do
  name ← found (given_text body.name) (error 400 "name required")
  id ← gets (λ db. db.next_rack)
  modify (λ db. record db {
    racks =
        db.racks
        ++ (record {
          id = id;
          name = name;
          location = body.location;
          row_no = body.row_no;
          total_u = or_else body.total_u (pos 42);
          description = body.description;
        })
          ∷ [];
    next_rack = suc db.next_rack;
  })
  pure (created id)

abbrev pub new_unit : ℕ → ℕ → ℤ → ℤ → String → UnitBody → RackUnit
new_unit id rack_id start_u size_u label body = record {
  id = id;
  rack_id = rack_id;
  start_u = start_u;
  size_u = size_u;
  label = label;
  unit_type = or_else body.unit_type "server";
  asset_id = body.asset_id;
}

abbrev pub insert_unit : RackUnit → RackDb → RackDb
insert_unit u db = record db { units = db.units ++ u ∷ []; next_unit = suc db.next_unit }

-- asset_id INT REFERENCES assets(id)
abbrev pub unknown_asset : Option ℕ → RackDb → Bool
unknown_asset none db = false
unknown_asset (some a) db = not (any (λ n. n == a) db.assets)

-- The INSERT takes its id from the sequence also where it is refused.
abbrev pub store_unit : RackUnit → RackHandler Unit
store_unit u db =
    if unknown_asset u.asset_id db
    then raise "violates foreign key constraint on assets"
        (record db { next_unit = suc db.next_unit })
    else pure tt (insert_unit u db)

-- the units of a rack that are in the way
abbrev pub blocker : ℕ → ℤ → ℤ → RackDb → Option RackUnit
blocker rack_id start_u size_u db =
    find (λ u. u.rack_id == rack_id && overlaps start_u size_u u) db.units

-- the checks of `create_unit` and its INSERT, once the three fields are there
pub place_unit : UnitBody → ℕ → ℤ → String → RackHandler Response
place_unit body rack_id start_u label =
    let size_u = or_else body.size_u (pos 1) in
    (do
      row ← gets (rack_of rack_id)
      rack ← found row (error 404 "rack not found")
      reject_if (bad_range rack.total_u start_u size_u) (error 400 "invalid U range")
      overlap ← gets (blocker rack_id start_u size_u)
      reject_if (is_some overlap) (error 409 "slot overlap")
      id ← gets (λ db. db.next_unit)
      store_unit (new_unit id rack_id start_u size_u label body)
      pure (created id))

pub create_unit : UnitBody → RackHandler Response
create_unit body = do
  rack_id ← found (given_id body.rack_id) (error 400 "rack_id, start_u, label required")
  start_u ← found (given_number body.start_u) (error 400 "rack_id, start_u, label required")
  label ← found (given_text body.label) (error 400 "rack_id, start_u, label required")
  place_unit body rack_id start_u label

-- COALESCE keeps the name and the height where the body gives none.
abbrev pub set_rack : RackBody → Rack → Rack
set_rack body r = record r {
  name = or_else body.name r.name;
  location = body.location;
  row_no = body.row_no;
  total_u = or_else body.total_u r.total_u;
  description = body.description;
}

pub update_rack : RackBody → RackHandler Response
update_rack body = do
  id ← found (given_id body.id) (error 400 "id required")
  modify (λ db. record db { racks = update_where (λ r. r.id == id) (set_rack body) db.racks })
  pure ok

abbrev pub set_unit : ℤ → ℤ → UnitBody → RackUnit → RackUnit
set_unit start_u size_u body u = record u {
  start_u = start_u;
  size_u = size_u;
  label = or_else body.label u.label;
  unit_type = or_else body.unit_type u.unit_type;
  asset_id = body.asset_id;
}

abbrev pub update_units : ℕ → (RackUnit → RackUnit) → RackDb → RackDb
update_units id f db = record db { units = update_where (λ u. u.id == id) f db.units }

-- the UPDATE of a row that there is, with the foreign key of its new asset
abbrev pub store_change : ℕ → ℤ → ℤ → UnitBody → RackHandler Unit
store_change id start_u size_u body db =
    if unknown_asset body.asset_id db
    then raise "violates foreign key constraint on assets" db
    else pure tt (update_units id (set_unit start_u size_u body) db)

-- a unit of the rack, other than the one that moves, that is in the way
abbrev pub other_blocker : ℕ → ℕ → ℤ → ℤ → RackDb → Option RackUnit
other_blocker rack_id id start_u size_u db =
    find (λ u. u.rack_id == rack_id && not (u.id == id) && overlaps start_u size_u u) db.units

abbrev out_of_rack : Option Rack → ℤ → ℤ → Bool
out_of_rack none start_u size_u = false
out_of_rack (some rack) start_u size_u = bad_range rack.total_u start_u size_u

-- the checks of `update_unit` and its UPDATE, on the row that it read
pub move_unit : UnitBody → ℕ → RackUnit → RackHandler Response
move_unit body id current =
    let start_u = or_else body.start_u current.start_u in
    let size_u = or_else body.size_u current.size_u in
    (do
      rack ← gets (rack_of current.rack_id)
      reject_if (out_of_rack rack start_u size_u) (error 400 "invalid U range")
      overlap ← gets (other_blocker current.rack_id id start_u size_u)
      reject_if ((is_some body.start_u || is_some body.size_u) && is_some overlap)
          (error 409 "slot overlap")
      store_change id start_u size_u body
      pure ok)

pub update_unit : UnitBody → RackHandler Response
update_unit body = do
  id ← found (given_id body.id) (error 400 "id required")
  row ← gets (unit_of id)
  current ← found row (error 404 "unit not found")
  move_unit body id current

-- The units of a deleted rack go with it (ON DELETE CASCADE).
pub delete_rack : ℕ → RackHandler Response
delete_rack id = do
  modify (λ db. record db {
    racks = delete_where (λ r. r.id == id) db.racks;
    units = delete_where (λ u. u.rack_id == id) db.units;
  })
  pure ok

pub delete_unit : ℕ → RackHandler Response
delete_unit id = do
  modify (λ db. record db { units = delete_where (λ u. u.id == id) db.units })
  pure ok

-- POST, PUT and DELETE, by their `action` or `type`
pub data RackRequest : Type 0 where
  post : (action : String) → RackBody → UnitBody → RackRequest
  put : (action : String) → RackBody → UnitBody → RackRequest
  delete : (type : Option String) → (id : Option ℕ) → RackRequest

delete_of : String → ℕ → RackHandler Response
delete_of type id =
    if str_eq type "rack"
    then delete_rack id
    else if str_eq type "unit"
    then delete_unit id
    else respond (error 400 "invalid type")

post_of : String → RackBody → UnitBody → RackHandler Response
post_of action rack unit =
    if str_eq action "create_rack"
    then create_rack rack
    else if str_eq action "create_unit"
    then create_unit unit
    else respond (error 400 "invalid action")

put_of : String → RackBody → UnitBody → RackHandler Response
put_of action rack unit =
    if str_eq action "update_rack"
    then update_rack rack
    else if str_eq action "update_unit"
    then update_unit unit
    else respond (error 400 "invalid action")

pub handle : Option AuthUser → RackRequest → RackHandler Response
handle session (post action rack unit) = do require_auth session; post_of action rack unit
handle session (put action rack unit) = do require_auth session; put_of action rack unit
handle session (delete type id) = do
  require_auth session
  type ← found (given_text type) (error 400 "type, id required")
  id ← found id (error 400 "type, id required")
  delete_of type id
