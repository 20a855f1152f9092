-- ===== src/Dns/Store.antt =====
-- internal/storage/sqlite/{dns_zone,dns_record}.go: the statements on the two DNS tables. The
-- order that `ORDER BY` gives the rows is the parameter `Sorting`.
use edgefabric.Prelude.{
  ℕ, ◌+◌, not, Option, none, some, List, [], ◌∷◌, select, take, ◌==◌, if◌then◌else◌,
}
use edgefabric.Exec.{Result, ok, err, not_found, already_exists, Exec, found}
pub use edgefabric.Exec.Sorting.{Sorting}
use edgefabric.Domain.{Uuid}
use edgefabric.Dns.Types.{Zone, Record}

pub record Tables : Type 0 where
  pub zones : List Zone
  pub records : List Record

unfoldable pub find_zone : Uuid → List Zone → Option Zone
find_zone id [] = none
find_zone id (z ∷ rest) = if z.id == id then some z else find_zone id rest

unfoldable pub find_record : Uuid → List Record → Option Record
find_record id [] = none
find_record id (r ∷ rest) = if r.id == id then some r else find_record id rest

unfoldable pub get_zone : Uuid → Exec Tables Zone
get_zone id t = (found (find_zone id t.zones), t)

unfoldable pub get_record : Uuid → Exec Tables Record
get_record id t = (found (find_record id t.records), t)

-- `LIMIT` with the default of `ListDNSRecords`.
unfoldable pub page : ℕ → List Record → List Record
page limit l = take (if limit == 0 then 50 else limit) l

unfoldable pub list_records : Sorting Record → Uuid → ℕ → Exec Tables (List Record)
unfolding page
list_records order zone_id limit t =
    (ok (page limit (order.sort (select (λ r. r.zone_id == zone_id) t.records))), t)

insert_row : Option Record → Record → Exec Tables (Unit {0})
insert_row none r t = (ok tt, record t { records = r ∷ t.records })
insert_row (some old) r t = (err already_exists, t)

-- The primary key of a new row must be free.
unfoldable pub create_record : Record → Exec Tables (Unit {0})
unfolding insert_row
create_record r t = insert_row (find_record r.id t.records) r t

-- `UPDATE … WHERE id = ?` sets every column but the identifiers.
abbrev pub overwrite : Record → Record → Record
overwrite new old = record new { id = old.id; zone_id = old.zone_id }

unfoldable pub replace_record : Record → List Record → List Record
replace_record new [] = []
replace_record new (r ∷ rest) =
    (if r.id == new.id then overwrite new r else r) ∷ replace_record new rest

-- `ErrNotFound` if no row was affected.
affected : {A : Type 0} → Option A → Tables → Tables → Result (Unit {0}) × Tables
affected none old new = (err not_found, old)
affected (some row) old new = (ok tt, new)

unfoldable pub update_record : Record → Exec Tables (Unit {0})
unfolding affected
update_record r t =
    affected (find_record r.id t.records) t (record t { records = replace_record r t.records })

unfoldable pub delete_record : Uuid → Exec Tables (Unit {0})
unfolding affected
delete_record id t =
    affected (find_record id t.records) t
      (record t { records = select (λ r. not (r.id == id)) t.records })

unfoldable pub bump_serial : Uuid → List Zone → List Zone
bump_serial id [] = []
bump_serial id (z ∷ rest) =
    (if z.id == id then record z { serial = z.serial + 1 } else z) ∷ bump_serial id rest

unfoldable pub increment_zone_serial : Uuid → Exec Tables (Unit {0})
unfolding affected
increment_zone_serial id t =
    affected (find_zone id t.zones) t (record t { zones = bump_serial id t.zones })
