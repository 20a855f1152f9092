-- ===== src/Dns/Records/Serial.antt =====
-- Record changes and the serial number of their zone, on success and on failure.
use edgefabric.Prelude.{
  ◌+◌, ◌≡◌, ◌⊎◌, ap, ◌∙◌, Option, none, some, List, [], ◌∷◌, ◌==◌, arith, if◌then◌else◌,
}
use edgefabric.Exec.{Error, ok, err, Db}
use edgefabric.Domain.{Uuid}
use edgefabric.Dns.Types.{Zone, Record, CreateRecordRequest}
use edgefabric.Dns.Validation.{Platform}
use edgefabric.Dns.Store.{
  Tables, Sorting, find_zone, bump_serial, get_zone, list_records, create_record,
  increment_zone_serial,
}
use edgefabric.Dns.Records.{record_of, create}

abbrev pub bumped : Option Zone → Option Zone
bumped none = none
bumped (some z) = some (record z { serial = z.serial + 1 })

pub find-bump_serial :
    (id j : Uuid) (l : List Zone)
    → find_zone j (bump_serial id l) ≡ (if id == j then bumped (find_zone j l) else find_zone j l)
unfolding find_zone bump_serial
find-bump_serial id j [] = ground arith
find-bump_serial id j (z ∷ l) = ground (arith, find-bump_serial id j l)

-- The serial of the zone `id`, and of no other, grew by one.
abbrev pub Bumped : Uuid → Tables → Tables → Type 0
Bumped id t u =
    (j : Uuid)
    → find_zone j u.zones ≡ (if id == j then bumped (find_zone j t.zones) else find_zone j t.zones)

bump_serial-Bumped : (id : Uuid) (t u : Tables) → u.zones ≡ bump_serial id t.zones → Bumped id t u
bump_serial-Bumped id t u e j = ap (find_zone j) e ∙ find-bump_serial id j t.zones

module _ (p : Platform) (order : Sorting Record) where
  create_ok_tables :
      (id : Uuid) (req : CreateRecordRequest) (db : Db Tables) {r : Record}
      → (create p order id req db).0 ≡ ok r
      → let u = (create p order id req db).1.tables in
        (r ≡ record_of id req)
        × (u.records ≡ r ∷ db.tables.records)
        × (u.zones ≡ bump_serial req.zone_id db.tables.zones)
  unfolding create get_zone list_records create_record increment_zone_serial
  create_ok_tables id req db h = ground arith

  -- A created record is stored, and the serial of its zone, and of no other, grew by one.
  pub create_ok :
      (id : Uuid) (req : CreateRecordRequest) (db : Db Tables) {r : Record}
      → (create p order id req db).0 ≡ ok r
      → let u = (create p order id req db).1.tables in
        (r ≡ record_of id req)
        × (u.records ≡ r ∷ db.tables.records)
        × Bumped req.zone_id db.tables u
  create_ok id req db h =
      let (same, added, zones) = create_ok_tables id req db h in
      let u : Tables = (create p order id req db).1.tables in
      (same, added, bump_serial-Bumped req.zone_id db.tables u zones)

  -- A failed `CreateRecord` has bumped no serial. It has stored nothing, or it has stored the
  -- record all the same: then the serial was what failed.
  pub create_err :
      (id : Uuid) (req : CreateRecordRequest) (db : Db Tables) {e : Error}
      → (create p order id req db).0 ≡ err e
      → let u = (create p order id req db).1.tables in
        (u.zones ≡ db.tables.zones)
        × ((u.records ≡ db.tables.records) ⊎ (u.records ≡ record_of id req ∷ db.tables.records))
  unfolding create get_zone list_records create_record increment_zone_serial
  create_err id req db h = ground arith
