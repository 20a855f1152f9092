-- ===== src/Route/Service/Sound.antt =====
-- Validity of the stored routes, and their gateways.
use edgefabric.Prelude.{
  ◌≡◌, ◌⊎◌, inl, inr, subst, String, Bool, true, false, not, Option, none, some, List, [], ◌∷◌,
  is_some, or_keep, select, ◌==◌, All, arith, Bool-cases,
}
use edgefabric.Exec.{Db}
use edgefabric.Domain.{Uuid}
use edgefabric.Route.Types.{Route, RouteStatus, Gateway, CreateRouteRequest, UpdateRouteRequest}
use edgefabric.Route.Validation.{validate_route}
use edgefabric.Route.Store.{
  Tables, find_route, find_gateway, overwrite, replace_route, get_route, get_gateway, create_route,
  update_route, delete_route,
}
use edgefabric.Route.Service.{route_of, patch_route, check_gateway, create, update, delete}

-- The gateway that a request names, if it names one, is there.
abbrev pub Checked : Option Uuid → List Gateway → Type 0
Checked none gs = Unit
Checked (some id) gs = is_some (find_gateway id gs) ≡ true

module _ (is_ip : String → Bool) where
  abbrev pub SoundRoute : List Gateway → Route → Type 0
  SoundRoute gateways r =
      (validate_route is_ip r ≡ none) × (is_some (find_gateway r.gateway_id gateways) ≡ true)

  abbrev pub Sound : Tables → Type 0
  Sound t = All (SoundRoute t.gateways) t.routes

  find-SoundRoute :
      (gs : List Gateway) (id : Uuid) (r : Route) (l : List Route)
      → All (SoundRoute gs) l
      → find_route id l ≡ some r
      → SoundRoute gs r
  unfolding find_route
  find-SoundRoute gs id r [] h k = cc
  find-SoundRoute gs id r (s ∷ l) h k = elim (Bool-cases (s.id == id)) [
    | inl e ↦ subst (SoundRoute gs) (first e) h.0
    | inr e ↦ find-SoundRoute gs id r l h.1 (later e)
  ]
    where
      first : (s.id == id) ≡ true → s ≡ r
      first e = ground arith

      later : (s.id == id) ≡ false → find_route id l ≡ some r
      later e = ground arith

  same_validity :
      (gs : List Gateway) (new old : Route) → SoundRoute gs new → SoundRoute gs (overwrite new old)
  unfolding validate_route
  same_validity gs new old h = h

  replace-Sound :
      (gs : List Gateway) (r : Route) (l : List Route)
      → SoundRoute gs r
      → All (SoundRoute gs) l
      → All (SoundRoute gs) (replace_route r l)
  unfolding replace_route
  replace-Sound gs r [] k h = tt
  replace-Sound gs r (s ∷ l) k h = elim (Bool-cases (s.id == r.id)) [
    | inl e ↦ rw e (same_validity gs r s k, replace-Sound gs r l k h.1)
    | inr e ↦ rw e (h.0, replace-Sound gs r l k h.1)
  ]

  select-Sound :
      (gs : List Gateway) (q : Route → Bool) (l : List Route)
      → All (SoundRoute gs) l
      → All (SoundRoute gs) (select q l)
  select-Sound gs q [] h = tt
  select-Sound gs q (s ∷ l) h = elim (Bool-cases (q s)) [
    | inl e ↦ rw e (h.0, select-Sound gs q l h.1)
    | inr e ↦ rw e (select-Sound gs q l h.1)
  ]

  create_tables :
      (id : Uuid) (req : CreateRouteRequest) (db : Db Tables)
      → let u = (create is_ip id req db).1.tables in
        (u ≡ db.tables)
        ⊎ (validate_route is_ip (route_of id req) ≡ none)
          × (is_some (find_gateway req.gateway_id db.tables.gateways) ≡ true)
          × (u ≡ record db.tables {
            routes = record (route_of id req) { status = RouteStatus.active } ∷ db.tables.routes;
          })
  unfolding create get_gateway create_route
  create_tables id req db = ground arith

  -- `CreateRoute` keeps every stored route valid and its gateway there, on success and on every
  -- failure.
  pub create-Sound :
      (id : Uuid) (req : CreateRouteRequest) (db : Db Tables)
      → Sound db.tables
      → Sound (create is_ip id req db).1.tables
  create-Sound id req db h = elim (create_tables id req db) [
    | inl same ↦ rw same h
    | inr (valid, exists, grown) ↦ rw grown (unfold validate_route in (valid, exists), h)
  ]

  update_tables :
      (id : Uuid) (req : UpdateRouteRequest) (db : Db Tables)
      → let u = (update is_ip id req db).1.tables in
        (u ≡ db.tables)
        ⊎ ((old : Route) × (find_route id db.tables.routes ≡ some old)
            × (validate_route is_ip (patch_route req old) ≡ none)
            × Checked req.gateway_id db.tables.gateways
            × (u ≡ record db.tables {
              routes = replace_route (patch_route req old) db.tables.routes;
            }))
  unfolding update get_route check_gateway get_gateway update_route
  update_tables id req db = ground arith

  patched_gateway :
      (gs : List Gateway) (new : Option Uuid) (old : Uuid)
      → Checked new gs
      → is_some (find_gateway old gs) ≡ true
      → is_some (find_gateway (or_keep new old) gs) ≡ true
  patched_gateway gs none old c h = h
  patched_gateway gs (some id) old c h = c

  -- `UpdateRoute` keeps every stored route valid and its gateway there, on success and on every
  -- failure.
  pub update-Sound :
      (id : Uuid) (req : UpdateRouteRequest) (db : Db Tables)
      → Sound db.tables
      → Sound (update is_ip id req db).1.tables
  update-Sound id req db h = elim (update_tables id req db) [
    | inl same ↦ rw same h
    | inr (old, is_old, valid, checked, changed) ↦ rw changed (
        let was = find-SoundRoute db.tables.gateways id old db.tables.routes h is_old in
        replace-Sound db.tables.gateways (patch_route req old) db.tables.routes
          (valid, patched_gateway db.tables.gateways req.gateway_id old.gateway_id checked was.1) h)
  ]

  delete_tables :
      (id : Uuid) (db : Db Tables)
      → let u = (delete id db).1.tables in
        (u ≡ db.tables)
        ⊎ (u ≡ record db.tables { routes = select (λ r. not (r.id == id)) db.tables.routes })
  unfolding delete delete_route
  delete_tables id db = ground arith

  -- `DeleteRoute` keeps every stored route valid and its gateway there.
  pub delete-Sound : (id : Uuid) (db : Db Tables) → Sound db.tables → Sound (delete id db).1.tables
  delete-Sound id db h = elim (delete_tables id db) [
    | inl same ↦ rw same h
    | inr less ↦ rw less (select-Sound db.tables.gateways _ db.tables.routes h)
  ]
