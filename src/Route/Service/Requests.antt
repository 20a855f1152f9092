-- ===== src/Route/Service/Requests.antt =====
-- The requests that a route service gets, one after another.
use edgefabric.Prelude.{String, Bool, List, [], ◌∷◌}
use edgefabric.Exec.{Db}
use edgefabric.Domain.{Uuid}
use edgefabric.Route.Types.{CreateRouteRequest, UpdateRouteRequest}
use edgefabric.Route.Store.{Tables}
use edgefabric.Route.Service.{create, update, delete}
use edgefabric.Route.Service.Sound.{Sound, create-Sound, update-Sound, delete-Sound}

pub data RouteRequest : Type 0 where
  creation : Uuid → CreateRouteRequest → RouteRequest
  change : Uuid → UpdateRouteRequest → RouteRequest
  deletion : Uuid → RouteRequest

module _ (is_ip : String → Bool) where
  -- The database after a request, which may have failed.
  abbrev pub serve : RouteRequest → Db Tables → Db Tables
  serve (creation id req) db = (create is_ip id req db).1
  serve (change id req) db = (update is_ip id req db).1
  serve (deletion id) db = (delete id db).1

  abbrev pub serve_all : List RouteRequest → Db Tables → Db Tables
  serve_all [] db = db
  serve_all (r ∷ requests) db = serve_all requests (serve r db)

  serve-Sound :
      (r : RouteRequest) (db : Db Tables) → Sound is_ip db.tables → Sound is_ip (serve r db).tables
  serve-Sound (creation id req) db h = create-Sound is_ip id req db h
  serve-Sound (change id req) db h = update-Sound is_ip id req db h
  serve-Sound (deletion id) db h = delete-Sound is_ip id db h

  -- Any sequence of creations, changes and deletions of routes, each of which may fail at any of its
  -- queries, keeps every stored route valid and its gateway there.
  pub serve_all-Sound :
      (requests : List RouteRequest) (db : Db Tables)
      → Sound is_ip db.tables
      → Sound is_ip (serve_all requests db).tables
  serve_all-Sound [] db h = h
  serve_all-Sound (r ∷ requests) db h = serve_all-Sound requests (serve r db) (serve-Sound r db h)
