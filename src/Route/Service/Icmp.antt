-- ===== src/Route/Service/Icmp.antt =====
-- `UpdateRoute` and the protocol ICMP.
use edgefabric.Prelude.{
  ◌≡◌, ◌⊎◌, inl, inr, refl, String, Bool, true, Option, none, some, or_keep_ptr, or_keep, is_some,
  arith, subst,
}
use edgefabric.Prelude.Int.{ℤ}
use edgefabric.Exec.{Db, ok, err, Error, Result}
use edgefabric.Domain.{Uuid}
use edgefabric.Route.Types.{Protocol, Route, UpdateRouteRequest, is_icmp}
use edgefabric.Route.Validation.{validate_route}
use edgefabric.Route.Validation.Laws.{PortFits, validate_route_iff}
use edgefabric.Route.Store.{Tables, find_route, get_route, get_gateway, update_route}
use edgefabric.Route.Service.{patch_route, check_gateway, update}

Result-cases : {A : Type 0} (x : Result A) → ((a : A) × (x ≡ ok a)) ⊎ ((e : Error) × (x ≡ err e))
Result-cases (ok a) = inl (a, refl)
Result-cases (err e) = inr (e, refl)

kept_port : (new old : Option ℤ) → is_some old ≡ true → PortFits true (or_keep_ptr new old) → ⊥
kept_port none none h k = cc
kept_port none (some p) h k = k
kept_port (some n) old h k = k

module _ (is_ip : String → Bool) where
  update_valid :
      (id : Uuid) (req : UpdateRouteRequest) (db : Db Tables) {old r : Route}
      → find_route id db.tables.routes ≡ some old
      → (update is_ip id req db).0 ≡ ok r
      → validate_route is_ip (patch_route req old) ≡ none
  unfolding update get_route check_gateway get_gateway update_route
  update_valid id req db h k = ground arith

  -- A route that has an entry port cannot be changed to ICMP: `UpdateRoute` returns an error for
  -- every request that asks for it.
  pub to_icmp_fails :
      (id : Uuid) (req : UpdateRouteRequest) (db : Db Tables) {old : Route}
      → find_route id db.tables.routes ≡ some old
      → is_some old.entry_port ≡ true
      → req.protocol ≡ some Protocol.icmp
      → (e : Error) × ((update is_ip id req db).0 ≡ err e)
  to_icmp_fails id req db {old} h port icmp = elim (Result-cases (update is_ip id req db).0) [
    | inr failed ↦ failed
    | inl (r, k) ↦
        let valid =
          (validate_route_iff is_ip (patch_route req old)).0 (update_valid id req db h k) in
        absurd (
          kept_port req.entry_port old.entry_port port (
            subst
              (λ o.
                PortFits (is_icmp (or_keep o old.protocol))
                  (or_keep_ptr req.entry_port old.entry_port))
              icmp valid.4))
  ]
