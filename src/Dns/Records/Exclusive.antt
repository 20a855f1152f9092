-- ===== src/Dns/Records/Exclusive.antt =====
-- CNAME exclusivity in the zones, under the creation, change and deletion of records.
mod Clash
mod Rows
pub use Clash.{clash, Exclusive, Distinct}
use edgefabric.Dns.Types.{is_cname}
use edgefabric.Dns.Validation.{same_name_other, cname_other}
use Clash.{
  clash_other, check_no_clash, any-clash_of_new, SameZone, Distinct-replace, Exclusive-replace,
}
use Rows.{find-SameZone, Distinct-select, Exclusive-select}
use edgefabric.Prelude.{
  ℕ, zero, suc, ◌<◌, sym, any-select, if◌then◌else◌, ◌≤◌, Bool-cases, ◌≡◌, ◌⊎◌, refl, ◌∙◌, ap, Bool,
  true, false, not, ◌&&◌, Option, none, some, List, [], ◌∷◌, any, select, length, take_of_length-le,
  ◌==◌, arith, Option-cases, is_some, inl, inr,
}
use edgefabric.Exec.{Db, found}
use edgefabric.Exec.Reads.{call-read, found-ok}
use edgefabric.Domain.{Uuid}
use edgefabric.Dns.Types.{Record, CreateRecordRequest, UpdateRecordRequest}
use edgefabric.Dns.Validation.{Platform, check_cname_exclusivity}
use edgefabric.Dns.Store.{
  Tables, Sorting, page, find_record, replace_record, overwrite, get_zone, get_record, list_records,
  create_record, update_record, delete_record, increment_zone_serial,
}
use edgefabric.Dns.Records.{create, update, store_update, delete, record_of, patch_record}

module _ (order : Sorting Record) where
  abbrev existing : Uuid → Tables → List Record
  existing zone_id t = page 10000 (order.sort (select (λ r. r.zone_id == zone_id) t.records))

page_all : (n : ℕ) (l : List Record) → 0 < n → length l ≤ n → page n l ≡ l
unfolding page
page_all zero l h k = absurd (omega arith)
page_all (suc n) l h k = ground (arith, take_of_length-le (suc n) l k)

module _ (p : Platform) (order : Sorting Record) where
  create_records :
      (id : Uuid) (req : CreateRecordRequest) (db : Db Tables)
      → let u = (create p order id req db).1.tables in
        (u.records ≡ db.tables.records)
        ⊎ (find_record id db.tables.records ≡ none)
          × (check_cname_exclusivity (existing order req.zone_id db.tables) (record_of id req)
              ≡ true)
          × (u.records ≡ record_of id req ∷ db.tables.records)
  unfolding create get_zone list_records create_record increment_zone_serial
  create_records id req db = ground arith

  store_update_records :
      (r : Record) (db : Db Tables)
      → let u = (store_update p order r db).1.tables in
        (u.records ≡ db.tables.records)
        ⊎ (check_cname_exclusivity (existing order r.zone_id db.tables) r ≡ true)
          × (u.records ≡ replace_record r db.tables.records)
  unfolding store_update list_records update_record increment_zone_serial
  store_update_records r db = ground arith

  -- `update` loads a record, or leaves everything alone.
  update_loads :
      (id : Uuid) (req : UpdateRecordRequest) (db : Db Tables)
      → ((update p order id req db).1.tables ≡ db.tables)
        ⊎ ((old : Record) × (find_record id db.tables.records ≡ some old)
            × ((f : List Bool) × (update p order id req db
                  ≡ store_update p order
                      (patch_record req old)
                      (record { tables = db.tables; faults = f }))))
  unfolding update get_record
  update_loads id req db =
      elim (call-read (λ t. found (find_record id t.records))
        (λ r. store_update p order (patch_record req r)) db) [
          | inl (e, failed, same) ↦ inl same
          | inr (old, e, rest) ↦ inr (old, found-ok _ old e, rest)
        ]

-- No two rows of the record table have one identifier, and in every zone a CNAME record is alone at
-- its name.
pub record Consistent (t : Tables) : Type 0 where
  pub distinct : Distinct t.records
  pub exclusive : Exclusive t.records

-- The zone's records fit in the page of 10000 that the check loads.
abbrev pub FitsPage : Uuid → Tables → Type 0
FitsPage zone_id t = length (select (λ r. r.zone_id == zone_id) t.records) ≤ 10000

module _ (order : Sorting Record) where
  existing-any :
      (zone_id : Uuid) (t : Tables) (q : Record → Bool)
      → FitsPage zone_id t
      → any q (existing order zone_id t) ≡ any (λ r. r.zone_id == zone_id && q r) t.records
  existing-any zone_id t q h =
      let rows : List Record = select (λ r. r.zone_id == zone_id) t.records in
      ap (any q) (page_all 10000 (order.sort rows) (omega arith) (rw (order.length-sort rows) h))
      ∙ order.any-sort q rows
      ∙ any-select q (λ r. r.zone_id == zone_id) t.records

  passes :
      (c x y : Bool)
      → (if c && x then false else not y) ≡ true
      → (c ≡ true → x ≡ false) × (y ≡ false)
  passes c x y h = (λ e. ground arith, ground arith)

  check_sound :
      (r : Record) (t : Tables)
      → FitsPage r.zone_id t
      → check_cname_exclusivity (existing order r.zone_id t) r ≡ true
      → any (clash_other r) t.records ≡ false
  unfolding check_cname_exclusivity
  check_sound r t h k =
      let (a, b) =
        passes (is_cname r.type) (any (same_name_other r) (existing order r.zone_id t))
          (any (cname_other r) (existing order r.zone_id t)) k in
      check_no_clash r t.records (λ e. sym (existing-any r.zone_id t (same_name_other r) h) ∙ a e)
        (sym (existing-any r.zone_id t (cname_other r) h) ∙ b)

module _ (p : Platform) (order : Sorting Record) where
  -- `CreateRecord` keeps the records consistent, on success and on every failure, if the zone's
  -- records fit in the page that the check loads.
  pub create-Consistent :
      (id : Uuid) (req : CreateRecordRequest) (db : Db Tables)
      → FitsPage req.zone_id db.tables
      → Consistent db.tables
      → Consistent (create p order id req db).1.tables
  create-Consistent id req db fits inv = elim (create_records p order id req db) [
    | inl same ↦ record { distinct = rw same inv.distinct; exclusive = rw same inv.exclusive }
    | inr (fresh, checked, grown) ↦ record {
      distinct = rw grown (fresh, inv.distinct);
      exclusive = rw grown (
        any-clash_of_new (record_of id req) db.tables.records fresh
            (check_sound order (record_of id req) db.tables fits checked),
        inv.exclusive,
      );
    }
  ]

  store_update-Consistent :
      (r : Record) (db : Db Tables)
      → FitsPage r.zone_id db.tables
      → SameZone r db.tables.records
      → Consistent db.tables
      → Consistent (store_update p order r db).1.tables
  store_update-Consistent r db fits same_zone inv = elim (store_update_records p order r db) [
    | inl same ↦ record { distinct = rw same inv.distinct; exclusive = rw same inv.exclusive }
    | inr (checked, replaced) ↦ record {
      distinct = rw replaced (Distinct-replace r db.tables.records inv.distinct);
      exclusive = rw replaced (
          Exclusive-replace r db.tables.records inv.distinct same_zone
            (check_sound order r db.tables fits checked) inv.exclusive);
    }
  ]

  -- `UpdateRecord` keeps the records consistent, on success and on every failure, if the records of
  -- the zone of the stored record fit in the page that the check loads.
  pub update-Consistent :
      (id : Uuid) (req : UpdateRecordRequest) (db : Db Tables)
      → ((old : Record)
          → find_record id db.tables.records ≡ some old
          → FitsPage old.zone_id db.tables)
      → Consistent db.tables
      → Consistent (update p order id req db).1.tables
  update-Consistent id req db fits inv = elim (update_loads p order id req db) [
    | inl same ↦ rw same inv
    | inr (old, e, (f, next)) ↦ rw next (
        store_update-Consistent (patch_record req old) (record { tables = db.tables; faults = f })
          (fits old e) (find-SameZone id old db.tables.records inv.distinct e) inv)
  ]

delete_records :
    (id : Uuid) (db : Db Tables)
    → let u = (delete id db).1.tables in
      (u.records ≡ db.tables.records)
      ⊎ (u.records ≡ select (λ r. not (r.id == id)) db.tables.records)
unfolding delete get_record delete_record increment_zone_serial
delete_records id db = ground arith

-- `DeleteRecord` keeps the records consistent, on success and on every failure.
pub delete-Consistent :
    (id : Uuid) (db : Db Tables) → Consistent db.tables → Consistent (delete id db).1.tables
delete-Consistent id db inv = elim (delete_records id db) [
  | inl same ↦ record { distinct = rw same inv.distinct; exclusive = rw same inv.exclusive }
  | inr less ↦ record {
    distinct = rw less (Distinct-select _ db.tables.records inv.distinct);
    exclusive = rw less (Exclusive-select _ db.tables.records inv.exclusive);
  }
]
