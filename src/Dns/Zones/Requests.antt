-- ===== src/Dns/Zones/Requests.antt =====
-- The requests that change zones, one after another.
use edgefabric.Prelude.{List, [], ◌∷◌}
use edgefabric.Exec.{Db}
use edgefabric.Domain.{Uuid}
use edgefabric.Dns.Types.{CreateZoneRequest, UpdateZoneRequest}
use edgefabric.Dns.Validation.{Platform}
use edgefabric.Dns.Store.{Tables}
use edgefabric.Dns.Zones.{create, update, delete}
use edgefabric.Dns.Zones.Valid.{ValidZones, create-ValidZones, update-ValidZones, delete-ValidZones}

pub data ZoneRequest : Type 0 where
  new_zone : Uuid → CreateZoneRequest → ZoneRequest
  edit_zone : Uuid → UpdateZoneRequest → ZoneRequest
  drop_zone : Uuid → ZoneRequest

module _ (p : Platform) where
  -- The database when the request has been answered, with an error or without.
  abbrev pub answer : ZoneRequest → Db Tables → Db Tables
  answer (new_zone id req) db = (create p id req db).1
  answer (edit_zone id req) db = (update p id req db).1
  answer (drop_zone id) db = (delete id db).1

  abbrev pub answer_all : List ZoneRequest → Db Tables → Db Tables
  answer_all [] db = db
  answer_all (q ∷ queue) db = answer_all queue (answer q db)

  answer-ValidZones :
      (q : ZoneRequest) (db : Db Tables)
      → ValidZones p db.tables
      → ValidZones p (answer q db).tables
  answer-ValidZones (new_zone id req) db v = create-ValidZones p id req db v
  answer-ValidZones (edit_zone id req) db v = update-ValidZones p id req db v
  answer-ValidZones (drop_zone id) db v = delete-ValidZones p id db v

  -- Any sequence of creations, changes and deletions of zones, each of which may fail at any of its
  -- queries, keeps every stored zone valid.
  pub answer_all-ValidZones :
      (queue : List ZoneRequest) (db : Db Tables)
      → ValidZones p db.tables
      → ValidZones p (answer_all queue db).tables
  answer_all-ValidZones [] db v = v
  answer_all-ValidZones (q ∷ queue) db v =
      answer_all-ValidZones queue (answer q db) (answer-ValidZones q db v)
