-- ===== src/Route/Config/Loops.antt =====
-- The loops of `GetNodeRouteConfig`, with their cache and their list of seen routes, against the
-- reference.
use edgefabric.Prelude.{
  ◌≡◌, inl, inr, refl, sym, ◌∙◌, ap, subst, String, Bool, true, false, not, ◌&&◌, Option, none,
  some, List, [], ◌∷◌, ◌++◌, map, ◌==◌, select, All, All-append, ==_iff, arith, Bool-cases,
  if◌then◌else◌,
}
use mathlib.Core.List.{append-nil, append_assoc}
use edgefabric.Exec.{ok, found}
use edgefabric.Exec.Reads.{Run, Run-pure, Run-call, Run-bind, found-ok}
use edgefabric.Exec.Sorting.{Sorting}
use edgefabric.Domain.{Uuid}
use edgefabric.Domain.Node.{NodeGroup}
use edgefabric.Route.Types.{Route, Gateway, RouteWithGateway}
use edgefabric.Route.Store.{Tables, find_gateway, get_gateway, list_routes}
use edgefabric.Route.Config.{
  Gathered, cached, dial_address, resolve, is_assigned, is_seen, add_route, visit, each_route,
  each_group,
}
use edgefabric.Route.Config.Reference.{
  Dialled, once, listed, assigned, assigned_to_any, seen_after, once_new, once_old, after_new,
  after_old,
}

-- What the cache holds is right.
abbrev CacheSound : Tables → List (Uuid × String) → Type 0
CacheSound t cache =
    (id : Uuid) (ip : String)
    → cached id cache ≡ some ip
    → (gw : Gateway) × (find_gateway id t.gateways ≡ some gw) × (ip ≡ dial_address gw)

-- The variables after the assigned routes `past` of the groups so far.
pub record Holds (t : Tables) (past : List Route) (g : Gathered) : Type 0 where
  pub same : map (λ (e : RouteWithGateway). e.route) g.routes ≡ once [] past
  pub dialled : All (Dialled t) g.routes
  pub seen : g.seen ≡ seen_after [] past
  pub cache : CacheSound t g.cache

-- A gateway whose address the caller may use and cache.
abbrev Resolved : Tables → Uuid → String × List (Uuid × String) → Type 0
Resolved t id (ip, cache) =
    ((gw : Gateway) × (find_gateway id t.gateways ≡ some gw) × (ip ≡ dial_address gw))
    × CacheSound t cache

found_first :
    {A : Type 0} (b : Bool) (x y : A) (o : Option A)
    → b ≡ true
    → (if b then some x else o) ≡ some y
    → y ≡ x
found_first b x y o e h = ground arith

found_later :
    {A : Type 0} (b : Bool) (x y : A) (o : Option A)
    → b ≡ false
    → (if b then some x else o) ≡ some y
    → o ≡ some y
found_later b x y o e h = ground arith

CacheSound-cons :
    (t : Tables) (id : Uuid) (gw : Gateway) (cache : List (Uuid × String))
    → find_gateway id t.gateways ≡ some gw
    → CacheSound t cache
    → CacheSound t ((id, dial_address gw) ∷ cache)
CacheSound-cons t id gw cache is_gw h j ip e = elim (Bool-cases (id == j)) [
  | inl same ↦ (
    gw,
    subst (λ k. find_gateway k t.gateways ≡ some gw) ((==_iff id j).0 same) is_gw,
    found_first (id == j) (dial_address gw) ip (cached j cache) same e,
  )
  | inr other ↦ h j ip (found_later (id == j) (dial_address gw) ip (cached j cache) other e)
]

resolve-Run :
    (t : Tables) (o : Option String) (id : Uuid) (cache : List (Uuid × String))
    → cached id cache ≡ o
    → CacheSound t cache
    → Run t (Resolved t id) (resolve o id cache)
unfolding resolve get_gateway
resolve-Run t (some ip) id cache e h = Run-pure t _ (ip, cache) (h id ip e, h)
resolve-Run t none id cache e h =
    Run-bind t (λ gw. find_gateway id t.gateways ≡ some gw) (Resolved t id) _ _
      (Run-call t _ (λ u. found (find_gateway id u.gateways)) (λ gw k. found-ok _ gw k))
      (λ gw is_gw.
        Run-pure t (Resolved t id) (dial_address gw, (id, dial_address gw) ∷ cache)
          ((gw, is_gw, refl), CacheSound-cons t id gw cache is_gw h))

route_append :
    (l : List RouteWithGateway) (e : RouteWithGateway)
    → map (λ (x : RouteWithGateway). x.route) (l ++ e ∷ [])
      ≡ map (λ (x : RouteWithGateway). x.route) l ++ e.route ∷ []
route_append [] e = refl
route_append (x ∷ l) e = ap (◌∷◌ x.route) (route_append l e)

add_route-Run :
    (t : Tables) (past : List Route) (r : Route) (g : Gathered)
    → Holds t past g
    → is_seen r g.seen ≡ false
    → Run t (Holds t (past ++ r ∷ [])) (add_route r g)
unfolding add_route
add_route-Run t past r g h new =
    Run-bind t (Resolved t r.gateway_id) (Holds t (past ++ r ∷ [])) _ _
      (resolve-Run t (cached r.gateway_id g.cache) r.gateway_id g.cache refl h.cache)
      (λ (ip, cache) (dialled, sound). Run-pure t (Holds t (past ++ r ∷ [])) _ (record {
        same =
            route_append g.routes _
            ∙ ap (λ (l : List Route). l ++ r ∷ []) h.same
            ∙ sym (once_new past r fresh);
        dialled = All-append (Dialled t) g.routes _ h.dialled (dialled, tt);
        seen = ap (◌∷◌ r.id) h.seen ∙ sym (after_new past r fresh);
        cache = sound;
      }))
  where
    fresh : is_seen r (seen_after [] past) ≡ false
    fresh = ap (is_seen r) (sym h.seen) ∙ new

skip-Holds :
    (t : Tables) (past : List Route) (r : Route) (g : Gathered)
    → Holds t past g
    → is_seen r g.seen ≡ true
    → Holds t (past ++ r ∷ []) g
skip-Holds t past r g h old =
    let e : is_seen r (seen_after [] past) ≡ true = ap (is_seen r) (sym h.seen) ∙ old in
    record {
      same = h.same ∙ sym (once_old past r e);
      dialled = h.dialled;
      seen = h.seen ∙ sym (after_old past r e);
      cache = h.cache;
    }

visit-Run :
    (t : Tables) (group : NodeGroup) (past : List Route) (r : Route) (g : Gathered)
    → Holds t past g
    → Run t
        (Holds t (past ++ (if is_assigned group r then r ∷ [] else [])))
        (visit (is_assigned group r && not (is_seen r g.seen)) r g)
unfolding visit
visit-Run t group past r g h = elim (Bool-cases (is_assigned group r)) [
  | inl a ↦ elim (Bool-cases (is_seen r g.seen)) [
    | inl old ↦ rw (a, old) (Run-pure t (Holds t (past ++ r ∷ [])) g (skip-Holds t past r g h old))
    | inr new ↦ rw (a, new) (add_route-Run t past r g h new)
  ]
  | inr n ↦ rw (n, append-nil past) (Run-pure t (Holds t past) g h)
]

select-cons :
    (q : Route → Bool) (past : List Route) (r : Route) (l : List Route)
    → (past ++ (if q r then r ∷ [] else [])) ++ select q l ≡ past ++ select q (r ∷ l)
select-cons q past r l = elim (Bool-cases (q r)) [
  | inl e ↦ rw e (append_assoc past (r ∷ []) (select q l))
  | inr e ↦ rw e (ap (λ (x : List Route). x ++ select q l) (append-nil past))
]

each_route-Run :
    (t : Tables) (group : NodeGroup) (l past : List Route) (g : Gathered)
    → Holds t past g
    → Run t (Holds t (past ++ select (is_assigned group) l)) (each_route group l g)
unfolding each_route
each_route-Run t group [] past g h =
    Run-pure t _ g (subst (λ x. Holds t x g) (sym (append-nil past)) h)
each_route-Run t group (r ∷ l) past g h =
    let next : List Route = past ++ (if is_assigned group r then r ∷ [] else []) in
    subst (λ x. Run t (Holds t x) (each_route group (r ∷ l) g))
      (select-cons (is_assigned group) past r l)
      (Run-bind t (Holds t next) (Holds t (next ++ select (is_assigned group) l)) _ _
        (visit-Run t group past r g h) (λ g'. each_route-Run t group l next g'))

pub ok-injective : {A : Type 0} {a b : A} → ok a ≡ ok b → b ≡ a
ok-injective e = cc

pub each_group-Run :
    (by_name : Sorting Route) (t : Tables) (groups : List NodeGroup) (past : List Route)
    (g : Gathered)
    → Holds t past g
    → Run t (Holds t (past ++ assigned_to_any by_name t groups)) (each_group by_name groups g)
unfolding each_group list_routes
each_group-Run by_name t [] past g h =
    Run-pure t _ g (subst (λ x. Holds t x g) (sym (append-nil past)) h)
each_group-Run by_name t (group ∷ rest) past g h =
    let mine : List Route = assigned by_name t group in
    let later : List Route = assigned_to_any by_name t rest in
    Run-bind t (λ routes. routes ≡ listed by_name t group) (Holds t (past ++ (mine ++ later))) _ _
      (Run-call t _ (λ u. ok (listed by_name u group)) (λ routes e. ok-injective e))
      (λ routes e.
        Run-bind t (Holds t (past ++ mine)) (Holds t (past ++ (mine ++ later))) _ _
          (subst (λ l. Run t (Holds t (past ++ mine)) (each_route group l g)) (sym e)
            (each_route-Run t group (listed by_name t group) past g h))
          (λ g' h'.
            subst (λ l. Run t (Holds t l) (each_group by_name rest g'))
              (append_assoc past mine later) (each_group-Run by_name t rest (past ++ mine) g' h')))
