-- ===== src/Topology/Tables/View.antt =====
-- The device table of web/src/app/api/topology/discover/device-table/route.ts as a map from an
-- asset, an address and a port to a VLAN and a type.
use mathlib.Core.Path.{fun_ext, subst}
use mathlib.Core.Option
use go_digi.Prelude.{
  ℕ, String, Bool, true, false, Option, none, some, List, [], ◌∷◌, ◌++◌, ◌≡◌, refl, sym, ap, ◌∙◌,
  arith, inl, inr, ◌==◌, ==_iff, eq_iff, eq_refl, Bool-cases, Option-cases, find, upsert, touch,
  delete_where, find-update_where, find-insert, find-eq_some, is_some, if◌then◌else◌,
}
use go_digi.Prelude.Int.{ℤ}
use go_digi.Http.{Exit, next, reply, throw}
use go_digi.Topology.{asset_by, DeviceMac, TopologyDb}
use go_digi.Topology.Tables.{
  TableReply, MacKey, key_eq, has_key, conflicts, with_values, put_row, row_fits,
}

abbrev pub Values : Type 0
Values = Option ℤ × String

abbrev pub values : DeviceMac → Values
values row = (row.vlan_id, row.entry_type)

-- what the table says of a key
abbrev pub look : List DeviceMac → MacKey → Option Values
look rows k = Option.map values (find (has_key k) rows)

abbrev pub view : TopologyDb → MacKey → Option Values
view db = look db.device_macs

-- a map, written at one key
abbrev pub write : (MacKey → Option Values) → MacKey → Values → MacKey → Option Values
write f k v l = if key_eq k l then some v else f l

key_eq→≡ : (k l : MacKey) → key_eq k l ≡ true → k ≡ l
key_eq→≡ k l h =
    let a : k.asset_id ≡ l.asset_id = ground (arith, ==_iff k.asset_id l.asset_id) in
    let m : k.mac ≡ l.mac = (eq_iff k.mac l.mac).0 (ground arith) in
    let p : k.port ≡ l.port = (eq_iff k.port l.port).0 (ground arith) in
    λ i. record { asset_id = a i; mac = m i; port = p i }

key_eq_refl : (k : MacKey) → key_eq k k ≡ true
key_eq_refl k = ground (arith, ==_iff k.asset_id k.asset_id, eq_refl k.mac, eq_refl k.port)

has_key-eq : (k l : MacKey) (x : DeviceMac) → has_key k x ≡ true → has_key l x ≡ true → k ≡ l
has_key-eq k l x h j = elim (Option-cases x.port_name) [
  | inl e ↦ absurd (ground arith)
  | inr (p, e) ↦
      let r : MacKey = record { asset_id = x.asset_id; mac = x.mac; port = p } in
      let at_k : key_eq k r ≡ true = rw e at h in
      let at_l : key_eq l r ≡ true = rw e at j in key_eq→≡ k r at_k ∙ sym (key_eq→≡ l r at_l)
]

other_key :
    (k l : MacKey) (x : DeviceMac) → has_key k x ≡ true → key_eq k l ≡ false → has_key l x ≡ false
other_key k l x h j = elim (Bool-cases (has_key l x)) [
  | inl e ↦
      let same : key_eq k l ≡ true =
        subst (λ m. key_eq k m ≡ true) (has_key-eq k l x h e) (key_eq_refl k) in
      absurd (cc (same, j))
  | inr e ↦ e
]

-- A row that was found and updated, or one that was not.
look-touch :
    (new : DeviceMac) (k l : MacKey) (o : Option DeviceMac)
    → ((x : DeviceMac) → o ≡ some x → has_key l x ≡ true)
    → (key_eq k l ≡ true → is_some o ≡ true)
    → Option.map values (Option.map (touch (has_key k) (with_values new)) o)
      ≡ (if key_eq k l then some (values new) else Option.map values o)
look-touch new k l none h f = elim (Bool-cases (key_eq k l)) [
  | inl e ↦ absurd (ground (arith, f e))
  | inr e ↦ rw e refl
]
look-touch new k l (some x) h f = elim (Bool-cases (key_eq k l)) [
  | inl e ↦
      let same = key_eq→≡ k l e in
      let has : has_key k x ≡ true = rw same (h x refl) in rw (e, has) refl
  | inr e ↦ elim (Bool-cases (has_key k x)) [
    | inl b ↦ absurd (cc (other_key k l x b e, h x refl))
    | inr n ↦ rw (e, n) refl
  ]
]

find-insert_other {ℓ} :
    {A : Type ℓ} (p : A → Bool) (xs : List A) (y : A)
    → p y ≡ false
    → find p (xs ++ y ∷ []) ≡ find p xs
find-insert_other p [] y h = rw h refl
find-insert_other p (x ∷ xs) y h = ground (arith, find-insert_other p xs y h)

look-upsert :
    (new : DeviceMac) (k l : MacKey) (rows : List DeviceMac)
    → has_key k new ≡ true
    → look (upsert (has_key k) (with_values new) new rows).1 l ≡ write (look rows) k (values new) l
look-upsert new k l rows h = elim (Bool-cases (is_some (find (has_key k) rows))) [
  | inl e ↦ rw e (
      rw (find-update_where (has_key l) (has_key k) (with_values new) rows (λ x. refl)) (
        look-touch new k l (find (has_key l) rows) (λ x. find-eq_some (has_key l) rows)
          λ j. rw (← key_eq→≡ k l j) e))
  | inr e ↦
      let absent : find (has_key k) rows ≡ none = ground (arith, e) in
      rw e (elim (Bool-cases (key_eq k l)) [
        | inl j ↦ rw j (
            subst (λ m. look (rows ++ new ∷ []) m ≡ some (values new)) (key_eq→≡ k l j)
              (rw (find-insert (has_key k) rows new absent, h) refl))
        | inr j ↦ rw (find-insert_other (has_key l) rows new (other_key k l new h j), j) refl
      ])
]

-- what the map learns from a row: nothing without a port
abbrev pub learn_row : (MacKey → Option Values) → DeviceMac → MacKey → Option Values
learn_row f row = elim row.port_name [
  | none ↦ f
  | some p ↦ write f (record { asset_id = row.asset_id; mac = row.mac; port = p }) (values row)
]

find-never {ℓ} : {A : Type ℓ} (xs : List A) → find (λ _. false) xs ≡ none
find-never [] = refl
find-never (x ∷ xs) = find-never xs

view-upsert_port :
    (asset_id : ℕ) (mac : String) (port : Option String) (vlan : Option ℤ) (type : String)
    (rows : List DeviceMac)
    → (let new : DeviceMac = record {
      asset_id = asset_id;
      mac = mac;
      port_name = port;
      vlan_id = vlan;
      entry_type = type;
    } in
        look (upsert (conflicts new) (with_values new) new rows).1 ≡ learn_row (look rows) new)
view-upsert_port asset_id mac none vlan type rows =
    rw (find-never rows)
      (fun_ext λ l. ap (Option.map values) (find-insert_other (has_key l) rows _ refl))
view-upsert_port asset_id mac (some p) vlan type rows =
    let k : MacKey = record { asset_id = asset_id; mac = mac; port = p } in
    fun_ext λ l. look-upsert _ k l rows (key_eq_refl k)

abbrev pub View : Type 0
View = MacKey → Option Values

-- a statement that writes the map from `f` to `g`, or throws and leaves it
abbrev pub Writes : View → View → Exit TableReply Bool × TopologyDb → Type 0
Writes f g (next b, db) = view db ≡ g
Writes f g (reply r, db) = ⊥
Writes f g (throw e, db) = view db ≡ f

pub put_row-Writes :
    (new : DeviceMac) (db : TopologyDb)
    → Writes (view db) (learn_row (view db) new) (put_row new db)
put_row-Writes new db = elim (Bool-cases (row_fits (asset_by new.asset_id db) new)) [
  | inl e ↦ rw e (
      view-upsert_port new.asset_id new.mac new.port_name new.vlan_id new.entry_type db.device_macs)
  | inr e ↦ rw e refl
]

-- the map without the rows of an asset
abbrev pub forget : ℕ → View → View
forget asset_id f k = if k.asset_id == asset_id then none else f k

has_key-asset : (k : MacKey) (x : DeviceMac) → has_key k x ≡ true → k.asset_id ≡ x.asset_id
has_key-asset k x h = elim (Option-cases x.port_name) [
  | inl e ↦ absurd (ground arith)
  | inr (p, e) ↦
      let at_k : key_eq k (record { asset_id = x.asset_id; mac = x.mac; port = p }) ≡ true =
        rw e at h in
      ground (arith, ==_iff k.asset_id x.asset_id)
]

pub look-delete :
    (asset_id : ℕ) (rows : List DeviceMac) (k : MacKey)
    → look (delete_where (λ (m : DeviceMac). m.asset_id == asset_id) rows) k
      ≡ forget asset_id (look rows) k
look-delete asset_id [] k = ground arith
look-delete asset_id (x ∷ xs) k =
    let ih = look-delete asset_id xs k in
    elim (Bool-cases (x.asset_id == asset_id)) [
      | inl e ↦ elim (Bool-cases (has_key k x)) [
        | inl h ↦
            let here : (k.asset_id == asset_id) ≡ true =
              ap (λ n. n == asset_id) (has_key-asset k x h) ∙ e in
            rw e (ground (arith, ih, here))
        | inr h ↦ rw (e, h) ih
      ]
      | inr e ↦ elim (Bool-cases (has_key k x)) [
        | inl h ↦
            let there : (k.asset_id == asset_id) ≡ false =
              ap (λ n. n == asset_id) (has_key-asset k x h) ∙ e in
            rw (e, h, there) refl
        | inr h ↦ rw (e, h) ih
      ]
    ]

-- the map that the entries are written to
abbrev pub start : Bool → ℕ → View → View
start replace asset_id f = if replace then forget asset_id f else f
