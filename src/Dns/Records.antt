-- ===== src/Dns/Records.antt =====
-- internal/dns/dns.go: creating, reading, updating and deleting records.
pub mod Exclusive
pub mod Serial
use edgefabric.Prelude.{
  ℕ, String, Bool, true, false, Option, none, some, List, [], ◌∷◌, is_some, not, or_keep,
  or_keep_ptr, if◌then◌else◌,
}
use edgefabric.Exec.{
  Error, Result, ok, err, not_found, conflict, invalid, Exec, pure, raise, ◌>>=◌, ◌>>◌, require, Db,
  call,
}
use edgefabric.Domain.{Uuid}
use edgefabric.Dns.Types.{Zone, Record, CreateRecordRequest, UpdateRecordRequest}
use edgefabric.Dns.Validation.{Platform, validate_record, check_cname_exclusivity}
use edgefabric.Dns.Store.{
  Tables, Sorting, get_zone, get_record, list_records, create_record, update_record, delete_record,
  increment_zone_serial,
}

abbrev pub record_of : Uuid → CreateRecordRequest → Record
record_of id req = record {
  id = id;
  zone_id = req.zone_id;
  name = req.name;
  type = req.type;
  value = req.value;
  ttl = req.ttl;
  priority = req.priority;
  weight = req.weight;
  port = req.port;
}

-- The fields that the request names, on top of the record that is stored.
abbrev pub patch_record : UpdateRecordRequest → Record → Record
patch_record req r = record r {
  name = or_keep req.name r.name;
  type = or_keep req.type r.type;
  value = or_keep req.value r.value;
  ttl = or_keep_ptr req.ttl r.ttl;
  priority = or_keep_ptr req.priority r.priority;
  weight = or_keep_ptr req.weight r.weight;
  port = or_keep_ptr req.port r.port;
}

module _ (p : Platform) (order : Sorting Record) where
  -- What `CreateRecord` and `UpdateRecord` test before they write: the record's own rules, then
  -- CNAME exclusivity against the first 10000 records of the zone.
  unfoldable pub check_record : Record → Exec (Db Tables) (Unit {0})
  check_record r = do
    require (not (is_some (validate_record p r))) invalid
    existing ← call (list_records order r.zone_id 10000)
    require (check_cname_exclusivity existing r) invalid

  -- `id` is the identifier that `NewID` drew.
  unfoldable pub create : Uuid → CreateRecordRequest → Exec (Db Tables) Record
  unfolding check_record
  create id req = do
    call (get_zone req.zone_id)
    let r = record_of id req
    check_record r
    call (create_record r)
    call (increment_zone_serial req.zone_id)
    pure r

  -- The part of `UpdateRecord` that follows the changes to the loaded record.
  unfoldable pub store_update : Record → Exec (Db Tables) Record
  unfolding check_record
  store_update r = do
    check_record r
    call (update_record r)
    call (increment_zone_serial r.zone_id)
    pure r

  unfoldable pub update : Uuid → UpdateRecordRequest → Exec (Db Tables) Record
  unfolding store_update
  update id req = do stored ← call (get_record id); store_update (patch_record req stored)

unfoldable pub delete : Uuid → Exec (Db Tables) (Unit {0})
delete id = do
  stored ← call (get_record id)
  call (delete_record id)
  call (increment_zone_serial stored.zone_id)
