-- ===== src/Route/Config/Reference.antt =====
-- What a node's configuration is, without the cache and the list of seen routes: the assigned routes
-- of its groups, each once, in order, with the address of its gateway.
use edgefabric.Prelude.{
  ◌≡◌, inl, inr, refl, ◌∙◌, ap, Bool, true, false, some, List, [], ◌∷◌, ◌++◌, ◌==◌, select, arith,
  Bool-cases, if◌then◌else◌,
}
use mathlib.Core.List.{append-nil}
use edgefabric.Exec.Sorting.{Sorting}
use edgefabric.Domain.{Uuid}
use edgefabric.Domain.Node.{NodeGroup}
use edgefabric.Route.Types.{Route, Gateway, RouteWithGateway}
use edgefabric.Route.Store.{Tables, page, find_gateway, is_member}
use edgefabric.Route.Config.{dial_address, is_assigned, is_seen}

-- The route's gateway is there, and the entry has its address.
abbrev pub Dialled : Tables → RouteWithGateway → Type 0
Dialled t e =
    (gw : Gateway) × (find_gateway e.route.gateway_id t.gateways ≡ some gw)
    × (e.gateway_wg_ip ≡ dial_address gw)

-- The routes with an identifier that neither `seen` nor an earlier route has.
abbrev pub once : List Uuid → List Route → List Route
once seen [] = []
once seen (r ∷ l) =
    let later = once (r.id ∷ seen) l in if is_seen r seen then once seen l else r ∷ later

-- The first 10000 routes of the group's tenant.
abbrev pub listed : Sorting Route → Tables → NodeGroup → List Route
listed by_name t group =
    page 10000 (by_name.sort (select (λ r. r.tenant_id == group.tenant_id) t.routes))

-- Those that are assigned to the group.
abbrev pub assigned : Sorting Route → Tables → NodeGroup → List Route
assigned by_name t group = select (is_assigned group) (listed by_name t group)

abbrev pub assigned_to_any : Sorting Route → Tables → List NodeGroup → List Route
assigned_to_any by_name t [] = []
assigned_to_any by_name t (group ∷ rest) =
    assigned by_name t group ++ assigned_to_any by_name t rest

abbrev pub groups_of : Sorting NodeGroup → Uuid → Tables → List NodeGroup
groups_of order node_id t = order.sort (select (is_member node_id t) t.groups)

-- The identifiers seen after the routes of a list.
abbrev pub seen_after : List Uuid → List Route → List Uuid
seen_after seen [] = seen
seen_after seen (r ∷ l) = seen_after (if is_seen r seen then seen else r.id ∷ seen) l

once-append :
    (seen : List Uuid) (l : List Route) (r : Route)
    → once seen (l ++ r ∷ [])
      ≡ once seen l ++ (if is_seen r (seen_after seen l) then [] else r ∷ [])
once-append seen [] r = ground arith
once-append seen (s ∷ l) r = elim (Bool-cases (is_seen s seen)) [
  | inl e ↦ rw e (once-append seen l r)
  | inr e ↦ rw e (ap (◌∷◌ s) (once-append (s.id ∷ seen) l r))
]

seen_after-append :
    (seen : List Uuid) (l : List Route) (r : Route)
    → seen_after seen (l ++ r ∷ [])
      ≡ (if is_seen r (seen_after seen l) then seen_after seen l else r.id ∷ seen_after seen l)
seen_after-append seen [] r = refl
seen_after-append seen (s ∷ l) r =
    seen_after-append (if is_seen s seen then seen else s.id ∷ seen) l r

module _ (past : List Route) (r : Route) where
  pub once_new :
      is_seen r (seen_after [] past) ≡ false → once [] (past ++ r ∷ []) ≡ once [] past ++ r ∷ []
  once_new e =
      once-append [] past r ∙ ap (λ (b : Bool). once [] past ++ (if b then [] else r ∷ [])) e

  pub once_old : is_seen r (seen_after [] past) ≡ true → once [] (past ++ r ∷ []) ≡ once [] past
  once_old e =
      once-append [] past r
      ∙ ap (λ (b : Bool). once [] past ++ (if b then [] else r ∷ [])) e
      ∙ append-nil (once [] past)

  pub after_new :
      is_seen r (seen_after [] past) ≡ false
      → seen_after [] (past ++ r ∷ []) ≡ r.id ∷ seen_after [] past
  after_new e = seen_after-append [] past r ∙ rw e refl

  pub after_old :
      is_seen r (seen_after [] past) ≡ true → seen_after [] (past ++ r ∷ []) ≡ seen_after [] past
  after_old e = seen_after-append [] past r ∙ rw e refl
