-- ===== src/Dns/Zones.antt =====
-- internal/dns/dns.go: creating, changing and deleting zones, with the statements of
-- internal/storage/sqlite/dns_zone.go on the table of zones.
pub mod Valid
pub mod Requests
use edgefabric.Prelude.{
  ℕ, String, Bool, true, false, not, ◌==◌, str_eq, Option, none, some, List, [], ◌∷◌, is_some,
  or_keep, or_keep_ptr, select, if◌then◌else◌,
}
use edgefabric.Prelude.Int.{ℤ, is_zero}
use edgefabric.Exec.{
  Error, Result, ok, err, not_found, already_exists, invalid, Exec, pure, raise, ◌>>=◌, ◌>>◌,
  require, Db, call,
}
use edgefabric.Domain.{Uuid}
use edgefabric.Dns.Types.{Zone, ZoneStatus, Record, CreateZoneRequest, UpdateZoneRequest}
use edgefabric.Dns.Validation.{Platform, Invalid, validate_zone_name, validate_transfer_allowed_ips}
use edgefabric.Dns.Store.{Tables, find_zone, get_zone}

-- `if z.Serial == 0 { z.Serial = 1 }`, and the same for the lifetime and the status.
abbrev default_serial : ℕ → ℕ
default_serial n = if n == 0 then 1 else n

abbrev default_ttl : ℤ → ℤ
default_ttl z = if is_zero z then ℤ.pos 3600 else z

abbrev default_status : ZoneStatus → ZoneStatus
default_status (ZoneStatus.other s) = if str_eq s "" then ZoneStatus.active else ZoneStatus.other s
default_status s = s

abbrev pub stored_zone : Zone → Zone
stored_zone z = record z {
  serial = default_serial z.serial;
  ttl = default_ttl z.ttl;
  status = default_status z.status;
}

insert_row : Option Zone → Zone → Exec Tables Zone
insert_row none z t = (ok z, record t { zones = z ∷ t.zones })
insert_row (some old) z t = (err already_exists, t)

-- `CreateDNSZone` sets its defaults in the caller's zone: the zone that is stored comes back.
unfoldable pub create_zone : Zone → Exec Tables Zone
unfolding insert_row
create_zone z t = insert_row (find_zone z.id t.zones) (stored_zone z) t

-- `UPDATE … WHERE id = ?` leaves the identifiers and the serial as they are.
abbrev pub overwrite : Zone → Zone → Zone
overwrite new old = record new { id = old.id; tenant_id = old.tenant_id; serial = old.serial }

unfoldable pub replace_zone : Zone → List Zone → List Zone
replace_zone new [] = []
replace_zone new (z ∷ rest) =
    (if z.id == new.id then overwrite new z else z) ∷ replace_zone new rest

-- `ErrNotFound` if no row was affected.
affected : Option Zone → Tables → Tables → Result (Unit {0}) × Tables
affected none old new = (err not_found, old)
affected (some row) old new = (ok tt, new)

unfoldable pub update_zone : Zone → Exec Tables (Unit {0})
unfolding affected
update_zone z t = affected (find_zone z.id t.zones) t (record t { zones = replace_zone z t.zones })

-- The records of a zone are deleted with it (`ON DELETE CASCADE`).
unfoldable pub delete_zone : Uuid → Exec Tables (Unit {0})
unfolding affected
delete_zone id t = affected (find_zone id t.zones) t (record t {
  zones = select (λ z. not (z.id == id)) t.zones;
  records = select (λ r. not (r.zone_id == id)) t.records;
})

abbrev pub zone_of : Uuid → CreateZoneRequest → Zone
zone_of id req = record {
  id = id;
  tenant_id = req.tenant_id;
  name = req.name;
  status = ZoneStatus.other "";
  serial = 0;
  ttl = req.ttl;
  node_group_id = req.node_group_id;
  transfer_allowed_ips = req.transfer_allowed_ips;
}

abbrev patch_group : Bool → Option Uuid → Option Uuid → Option Uuid
patch_group true new old = none
patch_group false new old = or_keep_ptr new old

-- The fields that the request names, on top of the zone that is stored.
abbrev pub patch_zone : UpdateZoneRequest → Zone → Zone
patch_zone req z = record z {
  name = or_keep req.name z.name;
  status = or_keep req.status z.status;
  ttl = or_keep req.ttl z.ttl;
  node_group_id = patch_group req.clear_node_group req.node_group_id z.node_group_id;
  transfer_allowed_ips = or_keep req.transfer_allowed_ips z.transfer_allowed_ips;
}

module _ (p : Platform) where
  -- The tests of the fields that an update names; none is a field that it leaves alone.
  abbrev pub name_fits : Option String → Bool
  name_fits none = true
  name_fits (some name) = not (is_some (validate_zone_name p name))

  abbrev pub ips_fit : Option (List String) → Bool
  ips_fit none = true
  ips_fit (some ips) = not (is_some (validate_transfer_allowed_ips p ips))

  -- `id` is the identifier that `NewID` drew.
  unfoldable pub create : Uuid → CreateZoneRequest → Exec (Db Tables) Zone
  create id req = do
    require (not (is_some (validate_zone_name p req.name))) invalid
    require (not (is_some (validate_transfer_allowed_ips p req.transfer_allowed_ips))) invalid
    call (create_zone (zone_of id req))

  -- The part of `UpdateZone` that follows the query for the zone.
  unfoldable pub save : UpdateZoneRequest → Zone → Exec (Db Tables) Zone
  save req stored = do
    require (name_fits req.name) invalid
    require (ips_fit req.transfer_allowed_ips) invalid
    call (update_zone (patch_zone req stored))
    pure (patch_zone req stored)

  unfoldable pub update : Uuid → UpdateZoneRequest → Exec (Db Tables) Zone
  unfolding save
  update id req = do stored ← call (get_zone id); save req stored

unfoldable pub delete : Uuid → Exec (Db Tables) (Unit {0})
delete id = call (delete_zone id)
