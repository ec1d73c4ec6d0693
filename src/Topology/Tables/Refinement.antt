-- ===== src/Topology/Tables/Refinement.antt =====
-- The device table of web/src/app/api/topology/discover/device-table/route.ts as a map from an
-- asset, an address and a port to a VLAN and a type.
use mathlib.Core.Path.{fun_ext, subst}
use go_digi.Prelude.{
  ℕ, suc, ◌+◌, String, Bool, true, false, ◌||◌, ◌⊎◌, Option, none, some, List, [], ◌∷◌, ◌++◌, ◌≡◌,
  refl, ap, arith, inl, inr, ◌==◌, Bool-cases, if◌then◌else◌, length,
}
use go_digi.Http.{Exit, next, reply, throw, continue}
use go_digi.Topology.{TopologyDb}
use go_digi.Topology.Tables.{
  TableEntry, TableReply, stored, refused, no_entries, entry_row, store_entries, store_mac,
  store_cast, deleted, post_device_table, clear_macs, clear_when, or_500,
}
use go_digi.Topology.Tables.View.{View, view, learn_row, Writes, put_row-Writes, look-delete, start}

module _ (to_macaddr : String → Option String) (asset_id : ℕ) where
  -- what the map learns from an entry: an address that cannot be read is never stored
  abbrev learn_cast : View → TableEntry → Option String → View
  learn_cast f e none = f
  learn_cast f e (some mac) = learn_row f (entry_row asset_id mac e)

  abbrev learn : View → TableEntry → View
  learn f e = learn_cast f e (to_macaddr e.mac)

  -- the last entry of a key wins
  abbrev pub learn_all : View → List TableEntry → View
  learn_all f [] = f
  learn_all f (e ∷ es) = learn_all (learn f e) es

  store_cast-Writes :
      (e : TableEntry) (mac : Option String) (db : TopologyDb)
      → Writes (view db) (learn_cast (view db) e mac) (store_cast asset_id e mac db)
  store_cast-Writes e none db = refl
  store_cast-Writes e (some mac) db = put_row-Writes (entry_row asset_id mac e) db

  -- all entries were learnt and counted, or those before an exception
  abbrev Learns : View → List TableEntry → ℕ → Exit TableReply TableReply × TopologyDb → Type 0
  Learns f es n (next (stored i u), db) = (view db ≡ learn_all f es) × (i + u ≡ n + length es)
  Learns f es n (throw _, db) =
      (done : List TableEntry) × (rest : List TableEntry) × (done ++ rest ≡ es)
      × (view db ≡ learn_all f done)
  Learns f es n _ = ⊥

  after_entry :
      (f : View) (e : TableEntry) (es : List TableEntry) (n : ℕ)
      (r : Exit TableReply TableReply × TopologyDb)
      → Learns (learn f e) es (suc n) r
      → Learns f (e ∷ es) n r
  after_entry f e es n (next (stored i u), db) (v, c) = (v, omega arith)
  after_entry f e es n (next deleted, db) h = h
  after_entry f e es n (next (refused _ _), db) h = h
  after_entry f e es n (reply _, db) h = h
  after_entry f e es n (throw _, db) (done, rest, same, v) = (e ∷ done, rest, ap (◌∷◌ e) same, v)

  store_entries-Learns :
      (es : List TableEntry) (i u : ℕ) (db : TopologyDb)
      → Learns (view db) es (i + u) (store_entries (store_mac to_macaddr asset_id) es i u db)
  store_entries-Learns [] i u db = (refl, omega arith)
  store_entries-Learns (e ∷ es) i u db =
      step (store_mac to_macaddr asset_id e db) (store_cast-Writes e (to_macaddr e.mac) db)
        (λ i' u' db'. store_entries-Learns es i' u' db')
    where
      go_on :
          (db' : TopologyDb) (i' u' : ℕ) (r : Exit TableReply TableReply × TopologyDb)
          → view db' ≡ learn (view db) e
          → i' + u' ≡ suc (i + u)
          → Learns (view db') es (i' + u') r
          → Learns (view db) (e ∷ es) (i + u) r
      go_on db' i' u' r w n h = after_entry (view db) e es (i + u) r (
          subst (λ m. Learns (learn (view db) e) es m r) n
            (subst (λ f. Learns f es (i' + u') r) w h))

      step :
          (r : Exit TableReply Bool × TopologyDb)
          → Writes (view db) (learn (view db) e) r
          → ((i' u' : ℕ) (db' : TopologyDb)
              → Learns
                  (view db')
                  es
                  (i' + u')
                  (store_entries (store_mac to_macaddr asset_id) es i' u' db'))
          → Learns (view db) (e ∷ es) (i + u) (
              continue r.0
                (λ b.
                  store_entries
                    (store_mac to_macaddr asset_id)
                    es
                    (if b then suc i else i)
                    (if b then u else suc u))
                r.1)
      step (next true, db') w ih = go_on db' (suc i) u _ w (omega arith) (ih (suc i) u db')
      step (next false, db') w ih = go_on db' i (suc u) _ w (omega arith) (ih i (suc u) db')
      step (reply _, db') w ih = absurd w
      step (throw _, db') w ih = ([], e ∷ es, refl, w)

  -- what is promised of an answer: all entries, or those before an exception, are in the map
  abbrev pub Promised : View → View → List TableEntry → TableReply × TopologyDb → Type 0
  Promised f g es (stored i u, db) = (view db ≡ learn_all g es) × (i + u ≡ length es)
  Promised f g es (deleted, db) = ⊥
  Promised f g es (refused status _, db) =
      ((status ≡ 400) × (view db ≡ f))
      ⊎ ((status ≡ 500)
          × (done : List TableEntry) × (rest : List TableEntry) × (done ++ rest ≡ es)
          × (view db ≡ learn_all g done))

  Learns-Promised :
      (f g : View) (es : List TableEntry) (r : Exit TableReply TableReply × TopologyDb)
      → Learns g es 0 r
      → Promised f g es (or_500 r)
  Learns-Promised f g es (next (stored i u), db) (v, n) = (v, omega arith)
  Learns-Promised f g es (next deleted, db) h = h
  Learns-Promised f g es (next (refused _ _), db) h = absurd h
  Learns-Promised f g es (reply _, db) h = absurd h
  Learns-Promised f g es (throw _, db) (done, rest, same, v) = inr (refl, done, rest, same, v)

  view-clear :
      (replace : Bool) (db : TopologyDb)
      → view (clear_when replace (clear_macs asset_id) db) ≡ start replace asset_id (view db)
  view-clear true db = fun_ext λ k. look-delete asset_id db.device_macs k
  view-clear false db = refl

  -- The device table, seen as a map from an asset, an address and a port to a VLAN and a type, is
  -- after a POST the map before it, without the asset where that is to be replaced, with the
  -- entries written in order and the last of a key winning; the counts of the answer add up to
  -- the entries. Where the answer is 400 the map is as before, and where it is 500 exactly the
  -- entries of a first part of the list are written.
  pub post_device_table-Promised :
      (entries : List TableEntry) (replace : Bool) (db : TopologyDb)
      → Promised
          (view db)
          (start replace asset_id (view db))
          entries
          (post_device_table to_macaddr asset_id entries replace db)
  unfolding post_device_table
  post_device_table-Promised entries replace db =
      elim (Bool-cases (asset_id == 0 || no_entries entries)) [
        | inl e ↦ rw e (inl (refl, refl))
        | inr e ↦
            let cleared = clear_when replace (clear_macs asset_id) db in
            rw e (
              subst
                (λ g.
                  Promised (view db) g entries
                    (or_500 (store_entries (store_mac to_macaddr asset_id) entries 0 0 cleared)))
                (view-clear replace db)
                (Learns-Promised (view db) (view cleared) entries _
                  (store_entries-Learns entries 0 0 cleared)))
      ]
