-- ===== src/Rack/Requests.antt =====
-- Every request of web/src/app/api/rack/route.ts keeps the racks packed.
use mathlib.Core.Bool.{◌||◌}
use go_digi.Prelude.{
  ℕ, ◌<◌, ◌≡◌, false, Option, none, some, String, List, [], ◌∷◌, All-delete_where,
  Pairwise-delete_where, arith, ◌==◌, is_some, or_else, Option-cases, inl, inr, refl,
}
use go_digi.Prelude.Int.{ℤ, pos}
use go_digi.Http.{run, found-keeps}
use go_digi.Accounts.{AuthUser, require_auth}
use go_digi.Rack.{
  RackUnit, RackDb, RackBody, UnitBody, RackRequest, post, put, delete, unit_of, given_text,
  given_id, given_number, create_rack, create_unit, place_unit, new_unit, blocker, update_rack,
  update_unit, move_unit, other_blocker, delete_rack, delete_unit, delete_of, post_of, put_of,
  handle,
}
use go_digi.Rack.Packing.{
  IsPacked, Apart, insert_unit-IsPacked, skipped-IsPacked, moved-IsPacked, kept-IsPacked,
}

module _ (db : RackDb) (h : IsPacked db) where
  place_unit-IsPacked :
      (body : UnitBody) (rack_id : ℕ) (start_u : ℤ) (label : String)
      → IsPacked (place_unit body rack_id start_u label db).1
  unfolding place_unit
  place_unit-IsPacked body rack_id start_u label =
      elim (Option-cases (blocker rack_id start_u (or_else body.size_u (pos 1)) db)) [
        | inl free ↦ ground (
          arith,
          free,
          h,
          skipped-IsPacked db h,
          insert_unit-IsPacked db
              (new_unit db.next_unit rack_id start_u (or_else body.size_u (pos 1)) label body) h
              refl free,
        )
        | inr (u, e) ↦ ground (arith, e, h)
      ]

  create_unit-IsPacked : (body : UnitBody) → IsPacked (create_unit body db).1
  unfolding create_unit
  create_unit-IsPacked body = found-keeps IsPacked (given_id body.rack_id) _ _ db h λ rack_id _.
      found-keeps IsPacked (given_number body.start_u) _ _ db h λ start_u _.
        found-keeps IsPacked (given_text body.label) _ _ db h
          λ label _. place_unit-IsPacked body rack_id start_u label

  move_unit-IsPacked :
      (body : UnitBody) (id : ℕ) (current : RackUnit)
      → unit_of id db ≡ some current
      → IsPacked (move_unit body id current db).1
  unfolding move_unit
  move_unit-IsPacked body id current at =
      let start_u = or_else body.start_u current.start_u in
      let size_u = or_else body.size_u current.size_u in
      elim (Option-cases (other_blocker current.rack_id id start_u size_u db)) [
        | inl free ↦
            ground (arith, free, h, moved-IsPacked id current start_u size_u body db h at free)
        | inr (u, e) ↦ ground (
          arith,
          e,
          h,
          λ (p : (is_some body.start_u || is_some body.size_u) ≡ false).
              kept-IsPacked id current start_u size_u body db h at (ground arith) (ground arith),
        )
      ]

  update_unit-IsPacked : (body : UnitBody) → IsPacked (update_unit body db).1
  unfolding update_unit
  update_unit-IsPacked body =
      found-keeps IsPacked (given_id body.id) _ _ db h
        λ id _. found-keeps IsPacked (unit_of id db) _ _ db h (move_unit-IsPacked body id)

  delete_rack-IsPacked : (id : ℕ) → IsPacked (delete_rack id db).1
  unfolding delete_rack
  delete_rack-IsPacked id = record {
    below = All-delete_where (λ u. u.id < db.next_unit) (λ u. u.rack_id == id) db.units h.below;
    apart = Pairwise-delete_where Apart (λ u. u.rack_id == id) db.units h.apart;
  }

  delete_unit-IsPacked : (id : ℕ) → IsPacked (delete_unit id db).1
  unfolding delete_unit
  delete_unit-IsPacked id = record {
    below = All-delete_where (λ u. u.id < db.next_unit) (λ u. u.id == id) db.units h.below;
    apart = Pairwise-delete_where Apart (λ u. u.id == id) db.units h.apart;
  }

  -- the rows of `rack_units` are not touched
  create_rack-IsPacked : (body : RackBody) → IsPacked (create_rack body db).1
  unfolding create_rack
  create_rack-IsPacked body =
      found-keeps IsPacked (given_text body.name) _ _ db h
        λ name _. record { below = h.below; apart = h.apart }

  update_rack-IsPacked : (body : RackBody) → IsPacked (update_rack body db).1
  unfolding update_rack
  update_rack-IsPacked body =
      found-keeps IsPacked (given_id body.id) _ _ db h
        λ id _. record { below = h.below; apart = h.apart }

  handle-IsPacked : (session : Option AuthUser) (r : RackRequest) → IsPacked (handle session r db).1
  unfolding handle require_auth post_of put_of delete_of
  handle-IsPacked session (post action rack unit) =
      ground (arith, h, create_rack-IsPacked rack, create_unit-IsPacked unit)
  handle-IsPacked session (put action rack unit) =
      ground (arith, h, update_rack-IsPacked rack, update_unit-IsPacked unit)
  handle-IsPacked none (delete type id) = h
  handle-IsPacked (some user) (delete type id) =
      found-keeps IsPacked (given_text type) _ _ db h λ name _.
        found-keeps IsPacked id _ _ db h
          λ id _. ground (arith, h, delete_rack-IsPacked id, delete_unit-IsPacked id)

pub handle_all : List (Option AuthUser × RackRequest) → RackDb → RackDb
handle_all [] db = db
handle_all ((session, r) ∷ rs) db = handle_all rs (run (handle session r) db).1

-- Whatever requests a set of racks serves, valid or not and with or without a session, no two
-- units of one rack share a slot afterwards and no two units share an id, if that held before and
-- the ids were below the next id.
pub handle_all-IsPacked :
    (requests : List (Option AuthUser × RackRequest)) (db : RackDb)
    → IsPacked db
    → IsPacked (handle_all requests db)
unfolding handle_all
handle_all-IsPacked [] db h = h
handle_all-IsPacked ((session, r) ∷ rs) db h =
    handle_all-IsPacked rs (run (handle session r) db).1 (handle-IsPacked db h session r)
