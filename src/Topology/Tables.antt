-- ===== src/Topology/Tables.antt =====
-- web/src/app/api/topology/discover/device-table/route.ts and wwn-table/route.ts: the tables of
-- addresses that are stored by hand. Times of the rows are left out.
pub mod View
pub mod Refinement
pub mod Wwns
mod Tests
use go_digi.Prelude.{
  ℕ, zero, suc, String, Bool, true, false, ◌&&◌, ◌||◌, not, Option, none, some, List, [], ◌∷◌, ◌++◌,
  str_eq, ◌==◌, leb, upsert, delete_where, or_else, is_some, if◌then◌else◌,
}
use go_digi.Prelude.Int.{ℤ, pos, ltb_ℤ, negsuc, is_zero_ℤ}
use go_digi.Prelude.Text.{parse_int, text_length}
use go_digi.Prelude.Words.{is_empty}
use go_digi.Http.{
  Handler, Exit, next, reply, throw, gets, modify, pure, raise, reject_if, ◌>>=◌, ◌>>◌,
}
use go_digi.Monitor.{Asset}
use go_digi.Topology.{DeviceMac, Wwn, TopologyDb, asset_by}

-- the body of POST; an empty port is no port
pub record TableEntry : Type 0 where
  pub mac : String
  pub port : String
  pub vlan : Option ℤ
  pub type : Option String

pub record WwnInput : Type 0 where
  pub wwn : String
  pub port_name : Option String
  pub wwn_type : String

pub data TableReply : Type 0 where
  stored : (inserted updated : ℕ) → TableReply
  deleted : TableReply
  refused : (status : ℕ) → (message : String) → TableReply

abbrev pub Storing : Type 0 → Type 0
Storing A = Handler TableReply TopologyDb A

abbrev pub text_or_null : String → Option String
text_or_null s = if is_empty s then none else some s

-- e.vlan || null
abbrev pub vlan_or_null : Option ℤ → Option ℤ
vlan_or_null none = none
vlan_or_null (some n) = if is_zero_ℤ n then none else some n

abbrev pub text_or : Option String → String → String
text_or none d = d
text_or (some s) d = if is_empty s then d else s

-- the columns: SMALLINT, VARCHAR(n)
abbrev pub is_smallint : Option ℤ → Bool
is_smallint none = true
is_smallint (some n) = not (ltb_ℤ n (negsuc 32767)) && not (ltb_ℤ (pos 32767) n)

abbrev pub is_varchar : ℕ → Option String → Bool
is_varchar n none = true
is_varchar n (some s) = leb (text_length s) n

-- what a row is known by: its asset, its address and its port; a row without a port conflicts with none
pub record MacKey : Type 0 where
  pub asset_id : ℕ
  pub mac : String
  pub port : String

abbrev pub key_eq : MacKey → MacKey → Bool
key_eq k l = k.asset_id == l.asset_id && str_eq k.mac l.mac && str_eq k.port l.port

abbrev pub has_key : MacKey → DeviceMac → Bool
has_key k row = elim row.port_name [
  | none ↦ false
  | some p ↦ key_eq k (record { asset_id = row.asset_id; mac = row.mac; port = p })
]

abbrev pub conflicts : DeviceMac → DeviceMac → Bool
conflicts new row = elim new.port_name [
  | none ↦ false
  | some p ↦ has_key (record { asset_id = new.asset_id; mac = new.mac; port = p }) row
]

-- DO UPDATE SET vlan_id = $4, entry_type = $5
abbrev pub with_values : DeviceMac → DeviceMac → DeviceMac
with_values new row = record row { vlan_id = new.vlan_id; entry_type = new.entry_type }

abbrev pub set_macs : List DeviceMac → TopologyDb → TopologyDb
set_macs rows db = record db { device_macs = rows }

-- what the columns and the reference to the asset allow
abbrev pub row_fits : Option Asset → DeviceMac → Bool
row_fits asset new =
    is_some asset
    && is_varchar 50 new.port_name
    && is_smallint new.vlan_id
    && is_varchar 10 (some new.entry_type)

abbrev pub write_if : Bool → Bool × List DeviceMac → Storing Bool
write_if true written = do modify (set_macs written.1); pure written.0
write_if false written = raise "value not allowed"

-- the row is written, or an exception thrown; whether it was inserted
abbrev pub put_row : DeviceMac → Storing Bool
put_row new = do
  asset ← gets (asset_by new.asset_id)
  written ← gets (λ db. upsert (conflicts new) (with_values new) new db.device_macs)
  write_if (row_fits asset new) written

-- from here on, for both tables: the answer, or 500 with what was written before the exception
abbrev pub or_500 : Exit TableReply TableReply × TopologyDb → TableReply × TopologyDb
or_500 (next r, db) = (r, db)
or_500 (reply r, db) = (r, db)
or_500 (throw e, db) = (refused 500 "Internal Server Error", db)

abbrev pub no_entries {ℓ} : {A : Type ℓ} → List A → Bool
no_entries [] = true
no_entries (x ∷ xs) = false

abbrev pub missing : TableReply
missing = refused 400 "asset_id and entries required"

module _ {A : Type 0} (store_entry : A → Storing Bool) where
  -- the loop, with the counts so far
  abbrev pub store_entries : List A → ℕ → ℕ → Storing TableReply
  store_entries [] inserted updated = pure (stored inserted updated)
  store_entries (e ∷ es) inserted updated = do
    is_insert ← store_entry e
    store_entries es (if is_insert then suc inserted else inserted)
        (if is_insert then updated else suc updated)

abbrev pub clear_when : Bool → (TopologyDb → TopologyDb) → TopologyDb → TopologyDb
clear_when replace clear db = if replace then clear db else db

-- DELETE FROM device_mac_table WHERE asset_id = $1
abbrev pub clear_macs : ℕ → TopologyDb → TopologyDb
clear_macs asset_id db =
    set_macs (delete_where (λ (m : DeviceMac). m.asset_id == asset_id) db.device_macs) db

abbrev pub clear_wwns : ℕ → TopologyDb → TopologyDb
clear_wwns asset_id db = record db {
  wwns =
      delete_where
        (λ (w : Wwn).
          w.asset_id == asset_id && (str_eq w.wwn_type "switch_port" || str_eq w.wwn_type "target"))
        db.wwns;
}

abbrev pub entry_row : ℕ → String → TableEntry → DeviceMac
entry_row asset_id mac e = record {
  asset_id = asset_id;
  mac = mac;
  port_name = text_or_null e.port;
  vlan_id = vlan_or_null e.vlan;
  entry_type = text_or e.type "dynamic";
}

abbrev pub store_cast : ℕ → TableEntry → Option String → Storing Bool
store_cast asset_id e none = raise "invalid macaddr"
store_cast asset_id e (some mac) = put_row (entry_row asset_id mac e)

-- `to_macaddr` is the cast of PostgreSQL: the address in its own form, or an exception
module _ (to_macaddr : String → Option String) where
  abbrev pub store_mac : ℕ → TableEntry → Storing Bool
  store_mac asset_id e = store_cast asset_id e (to_macaddr e.mac)

  abbrev store_table : ℕ → List TableEntry → Bool → Storing TableReply
  store_table asset_id entries replace = do
    reject_if (asset_id == 0 || no_entries entries) missing
    modify (clear_when replace (clear_macs asset_id))
    store_entries (store_mac asset_id) entries 0 0

  -- POST of the device table
  unfoldable pub post_device_table :
      ℕ → List TableEntry → Bool → TopologyDb → TableReply × TopologyDb
  post_device_table asset_id entries replace db = or_500 (store_table asset_id entries replace db)

-- a text that is no number is refused by the database, and a negative one is the id of no asset
abbrev clear_parsed : Option ℤ → TopologyDb → TableReply × TopologyDb
clear_parsed none db = (refused 500 "Internal Server Error", db)
clear_parsed (some (pos n)) db = (deleted, clear_macs n db)
clear_parsed (some (negsuc n)) db = (deleted, db)

-- DELETE of the device table
unfoldable pub delete_device_table : Option String → TopologyDb → TableReply × TopologyDb
unfolding parse_int
delete_device_table none db = (refused 400 "asset_id required", db)
delete_device_table (some id) db =
    if is_empty id then (refused 400 "asset_id required", db) else clear_parsed (parse_int id) db

abbrev pub is_wwn : ℕ → String → Wwn → Bool
is_wwn asset_id wwn row = row.asset_id == asset_id && str_eq row.wwn wwn

abbrev pub wwn_input_row : ℕ → WwnInput → Wwn
wwn_input_row asset_id e = record {
  asset_id = asset_id;
  wwn = e.wwn;
  wwn_type = if is_empty e.wwn_type then "switch_port" else e.wwn_type;
  port_name = text_or_null (or_else e.port_name "");
}

-- DO UPDATE SET wwn_type = $3, port_name = $4
abbrev with_port : Wwn → Wwn → Wwn
with_port new row = record row { wwn_type = new.wwn_type; port_name = new.port_name }

abbrev set_wwns : List Wwn → TopologyDb → TopologyDb
set_wwns rows db = record db { wwns = rows }

abbrev pub wwn_fits : Option Asset → Wwn → Bool
wwn_fits asset new =
    is_varchar 10 (some new.wwn_type)
    && is_varchar 23 (some new.wwn)
    && is_varchar 50 new.port_name
    && is_some asset

abbrev pub write_wwn_if : Bool → Bool × List Wwn → Storing Bool
write_wwn_if true written = do modify (set_wwns written.1); pure written.0
write_wwn_if false written = raise "value not allowed"

abbrev pub put_wwn : Wwn → Storing Bool
put_wwn new = do
  asset ← gets (asset_by new.asset_id)
  written ← gets (λ db. upsert (is_wwn new.asset_id new.wwn) (with_port new) new db.wwns)
  write_wwn_if (wwn_fits asset new) written

abbrev store_wwns : ℕ → List WwnInput → Bool → Storing TableReply
store_wwns asset_id entries replace = do
  reject_if (asset_id == 0 || no_entries entries) missing
  modify (clear_when replace (clear_wwns asset_id))
  store_entries (λ e. put_wwn (wwn_input_row asset_id e)) entries 0 0

-- POST of the WWN table
unfoldable pub post_wwn_table : ℕ → List WwnInput → Bool → TopologyDb → TableReply × TopologyDb
post_wwn_table asset_id entries replace db = or_500 (store_wwns asset_id entries replace db)
