-- ===== src/RouteServer/Reconciled.antt =====
-- The routes that run after a reconciliation, by their identifiers.
use edgefabric.Prelude.{
  ◌≡◌, refl, sym, ap, ◌∙◌, subst, inl, inr, Bool-cases, true, false, ◌==◌, ==_iff, is_some, Option,
  Option-cases, none, some, List, [], ◌∷◌, if◌then◌else◌, arith,
}
use edgefabric.Domain.{Uuid}
use edgefabric.Route.Types.{RouteWithGateway}
use edgefabric.RouteServer.{
  start_route, keep_started, settle, settle_all, sweep, forget, reconcile, wanted,
}
use edgefabric.RouteServer.Types.{
  Socket, Os, RouteRuntime, Forwarder, stop_route, find_route, find_desired, put_desired,
  desired_from, route_changed,
}
use edgefabric.RouteServer.Sockets.{start_route-Opens, find_route_id}
use edgefabric.RouteServer.Accounts.{if_running, Opens, find-delete_route, ==_self}
use edgefabric.RouteServer.Starts.{
  last_desired, UniqueDesired, Visits, Started, Settled, Bound, start_as-Bound,
}

module _ (os : Os) where
  -- What a start adds to the routes.
  keep_started_lem :
      (d : RouteWithGateway) (f : Forwarder) (r : Option RouteRuntime × Forwarder)
      → find_route d.route.id f.routes ≡ none
      → Opens d f r
      → Bound os d.route.protocol r.0
      → Started os d (find_route d.route.id (keep_started os r).routes)
        × ((id : Uuid)
            → (d.route.id == id) ≡ false
            → find_route id (keep_started os r).routes ≡ find_route id f.routes)
  unfolding find_route
  keep_started_lem d f (none, g) n (o, same) b = (
    subst (Started os d) (sym (ap (find_route d.route.id) same ∙ n)) b,
    λ id e. ap (find_route id) same,
  )
  keep_started_lem d f (some rt, g) n (o, same, route, gateway) b =
      let id_eq : (rt.route.id == d.route.id) ≡ true =
        ap (λ r. r.id == d.route.id) route ∙ ==_self d.route.id in
      (
        rw id_eq (record { route = route; gateway = gateway; over_tcp = b.0; over_udp = b.1 }),
        λ id e. rw (route, e) (ap (find_route id) same),
      )

  -- Beside a route that is settled, the others run as before.
  abbrev pub Apart : Uuid → Forwarder → Forwarder → Type 0
  Apart d f g = (id : Uuid) → (d == id) ≡ false → find_route id g.routes ≡ find_route id f.routes

  renewed :
      (d : RouteWithGateway) (f : Forwarder)
      → find_route d.route.id f.routes ≡ none
      → Started os d (find_route d.route.id (keep_started os (start_route os d f)).routes)
        × Apart d.route.id f (keep_started os (start_route os d f))
  unfolding start_route
  renewed d f n =
      keep_started_lem d f (start_route os d f) n (start_route-Opens os d f)
        (start_as-Bound os d.route.protocol d f)

  settle_lem :
      (d : RouteWithGateway) (f : Forwarder)
      → Settled os
          (some d)
          (find_route d.route.id f.routes)
          (find_route d.route.id (settle os d f).routes)
        × Apart d.route.id f (settle os d f)
  unfolding settle
  settle_lem d f = elim (Option-cases (find_route d.route.id f.routes)) [
    | inl n ↦ rw n (renewed d f n)
    | inr (rt, found) ↦ elim (Bool-cases (route_changed rt d)) [
      | inr kept ↦ rw (found, kept) (found, λ id e. refl)
      | inl changed ↦
          let same = find_route_id os d.route.id f.routes rt found in
          let gone : find_route d.route.id (forget os rt f).routes ≡ none =
            find-delete_route rt.route.id d.route.id f.routes
            ∙ rw (same, ==_self d.route.id) refl in
          let (started, apart) = renewed d (forget os rt f) gone in
          rw (found, changed)
            (
              started,
              λ id e. apart id e ∙ find-delete_route rt.route.id id f.routes ∙ rw (same, e) refl,
            )
    ]
  ]

  -- What runs for a route after the second loop.
  abbrev Outcome : Option RouteWithGateway → Option RouteRuntime → Option RouteRuntime → Type 0
  Outcome none before after = after ≡ before
  Outcome (some d) before after = Settled os (some d) before after

  settle_all-Outcome :
      (ds : List RouteWithGateway) (f : Forwarder) (id : Uuid)
      → UniqueDesired ds
      → Outcome
          (find_desired id ds)
          (find_route id f.routes)
          (find_route id (settle_all os ds f).routes)
  unfolding settle_all find_desired
  settle_all-Outcome [] f id u = refl
  settle_all-Outcome (d ∷ ds) f id (n, u) =
      let g = settle os d f in
      let (settled, apart) = settle_lem d f in
      let rest = settle_all-Outcome ds g id u in
      elim (Bool-cases (d.route.id == id)) [
        | inl same ↦
            let e : d.route.id ≡ id = (==_iff d.route.id id).0 same in
            let last : find_route id (settle_all os ds g).routes ≡ find_route id g.routes =
              subst
                (λ (o : Option RouteWithGateway).
                  Outcome o (find_route id g.routes) (find_route id (settle_all os ds g).routes))
                (subst (λ j. find_desired j ds ≡ none) e n) rest in
            rw same (
              subst (λ o. Settled os (some d) (find_route id f.routes) o) (sym last)
                (subst (λ j. Settled os (some d) (find_route j f.routes) (find_route j g.routes)) e
                  settled))
        | inr other ↦ rw other (
            subst (λ o. Outcome (find_desired id ds) o (find_route id (settle_all os ds g).routes))
              (apart id other) rest)
      ]

  find-sweep :
      (ds : List RouteWithGateway) (rts : List RouteRuntime) (ss : List Socket) (id : Uuid)
      → find_route id (sweep os ds rts ss).0
        ≡ (if is_some (find_desired id ds) then find_route id rts else none)
  unfolding sweep find_route
  find-sweep ds [] ss id = ground arith
  find-sweep ds (rt ∷ rts) ss id = elim (Bool-cases (rt.route.id == id)) [
    | inl same ↦
        let e : rt.route.id ≡ id = (==_iff rt.route.id id).0 same in
        elim (Bool-cases (is_some (find_desired id ds))) [
          | inl keep ↦
              rw (subst (λ j. is_some (find_desired j ds) ≡ true) (sym e) keep, keep, same) refl
          | inr gone ↦
              rw (subst (λ j. is_some (find_desired j ds) ≡ false) (sym e) gone, gone)
                (find-sweep ds rts (stop_route rt ss) id ∙ rw gone refl)
        ]
    | inr other ↦ elim (Bool-cases (is_some (find_desired rt.route.id ds))) [
      | inl keep ↦ rw (keep, other) (find-sweep ds rts ss id)
      | inr gone ↦ rw (gone, other) (find-sweep ds rts (stop_route rt ss) id)
    ]
  ]

  find-put_desired :
      (d : RouteWithGateway) (m : List RouteWithGateway) (id : Uuid)
      → find_desired id (put_desired d m) ≡ (if d.route.id == id then some d else find_desired id m)
  unfolding find_desired put_desired
  find-put_desired d [] id = refl
  find-put_desired d (e ∷ m) id = ground (
    arith,
    find-put_desired d m id,
    ==_iff e.route.id d.route.id,
    ==_iff e.route.id id,
    ==_iff d.route.id id,
  )

  UniqueDesired-put_desired :
      (d : RouteWithGateway) (m : List RouteWithGateway)
      → UniqueDesired m
      → UniqueDesired (put_desired d m)
  unfolding put_desired
  UniqueDesired-put_desired d [] u = (unfold find_desired in refl, tt)
  UniqueDesired-put_desired d (e ∷ m) (n, u) = elim (Bool-cases (e.route.id == d.route.id)) [
    | inl same ↦
        rw same (subst (λ j. find_desired j m ≡ none) ((==_iff e.route.id d.route.id).0 same) n, u)
    | inr other ↦
        rw other
          (find-put_desired d m e.route.id ∙ rw n (ground arith), UniqueDesired-put_desired d m u)
  ]

  find-desired_from :
      (ds m : List RouteWithGateway) (id : Uuid)
      → find_desired id (desired_from ds m) ≡ last_desired id ds (find_desired id m)
  unfolding desired_from
  find-desired_from [] m id = refl
  find-desired_from (d ∷ ds) m id =
      find-desired_from ds (put_desired d m) id ∙ ap (last_desired id ds) (find-put_desired d m id)

  UniqueDesired-desired_from :
      (ds m : List RouteWithGateway) → UniqueDesired m → UniqueDesired (desired_from ds m)
  unfolding desired_from
  UniqueDesired-desired_from [] m u = u
  UniqueDesired-desired_from (d ∷ ds) m u =
      UniqueDesired-desired_from ds (put_desired d m) (UniqueDesired-put_desired d m u)

  -- The routes that a configuration asks for: of several with one identifier the last.
  abbrev pub configured : Option (List RouteWithGateway) → Uuid → Option RouteWithGateway
  configured none id = none
  configured (some ds) id = last_desired id ds none

  find-wanted :
      (config : Option (List RouteWithGateway)) (id : Uuid)
      → find_desired id (wanted os config) ≡ configured config id
  find-wanted none id = unfold find_desired in refl
  find-wanted (some ds) id = find-desired_from ds [] id ∙ unfold find_desired in refl

  UniqueDesired-wanted :
      (config : Option (List RouteWithGateway)) → UniqueDesired (wanted os config)
  UniqueDesired-wanted none = tt
  UniqueDesired-wanted (some ds) = UniqueDesired-desired_from ds [] tt

  Outcome-Settled :
      (o : Option RouteWithGateway) (before after : Option RouteRuntime)
      → Outcome o (if is_some o then before else none) after
      → Settled os o before after
  Outcome-Settled none before after h = h
  Outcome-Settled (some d) before after h = h

  -- After a reconciliation of a forwarder that runs, in whatever order the map is visited: a route
  -- that the configuration lacks does not run; one that ran and whose last entry in the
  -- configuration changes nothing that counts runs with the same listeners; and any other runs as
  -- its last entry says, with the listeners of its protocol, or not at all.
  pub reconcile-Settled :
      (visit : List RouteWithGateway → List RouteWithGateway)
      (config : Option (List RouteWithGateway)) (f : Forwarder) (id : Uuid)
      → Visits visit
      → f.running ≡ true
      → Settled os
          (configured config id)
          (find_route id f.routes)
          (find_route id (reconcile os visit config f).1.routes)
  unfolding reconcile
  reconcile-Settled visit config f id v on =
      let ds = wanted os config in
      let swept = sweep os ds f.routes f.sockets in
      let g : Forwarder = record f { routes = swept.0; sockets = swept.1 } in
      let o = settle_all-Outcome (visit ds) g id (v.unique ds (UniqueDesired-wanted config)) in
      let same = v.same ds (UniqueDesired-wanted config) id in
      let after = find_route id (settle_all os (visit ds) g).routes in
      let settled : Settled os (find_desired id ds) (find_route id f.routes) after =
        Outcome-Settled (find_desired id ds) (find_route id f.routes) after (
          subst (λ b. Outcome (find_desired id ds) b after) (find-sweep ds f.routes f.sockets id)
            (subst (λ d. Outcome d (find_route id swept.0) after) same o)) in
      if_running
        (λ r. Settled os (configured config id) (find_route id f.routes) (find_route id r.1.routes))
        f.running (λ off. cc)
        (λ e.
          subst (λ d. Settled os d (find_route id f.routes) after) (find-wanted config id) settled)
