-- ===== src/RouteServer/Sockets.antt =====
-- The sockets that are open, and the routes that own them.
use edgefabric.Prelude.{
  ℕ, ◌+◌, ◌≡◌, refl, sym, ap, ◌∙◌, subst, inl, inr, Bool-cases, true, ◌==◌, ==_iff, is_some, Option,
  Option-cases, none, some, List, [], ◌∷◌, if◌then◌else◌, arith,
}
use edgefabric.Domain.{Uuid}
use edgefabric.Route.Types.{Protocol, Route, RouteWithGateway}
use edgefabric.RouteServer.{
  listen, start_route, start_as, keep_started, settle, settle_all, sweep, with_both, reconcile,
  wanted, stop, stop_all, forget,
}
use edgefabric.RouteServer.Types.{
  Kind, Socket, Os, RouteRuntime, Forwarder, stop_route, find_route, find_desired, safe_port,
  route_changed,
}
use edgefabric.RouteServer.Accounts.{
  opened, owned_by, owned, UniqueRoutes, Accounted, ==_self, if_running, opened-stop_route,
  find-delete_route, UniqueRoutes-delete_route, owned-delete_route, Opens, Listens, with_tcp-Opens,
  with_udp-Opens, with_second-Opens, register_icmp-Opens,
}

module _ (os : Os) where
  listen-Listens : (k : Kind) (r : Route) (f : Forwarder) → Listens f (listen os k r f)
  unfolding listen
  listen-Listens k r f =
      elim (Bool-cases (os.can_listen k r.entry_ip (safe_port r.entry_port) f.sockets)) [
        | inl e ↦ rw e (λ h. refl, refl)
        | inr e ↦ rw e (λ h. refl, refl)
      ]

  with_both-Opens :
      (d : RouteWithGateway) (f : Forwarder) (r : Option ℕ × Forwarder)
      → Listens f r
      → Opens d f (with_both os d r)
  with_both-Opens d f (none, g) h = h
  with_both-Opens d f (some k, g) h =
      with_second-Opens os d f g k (listen os Kind.on_udp d.route g) h
        (listen-Listens Kind.on_udp d.route g)

  pub start_route-Opens : (d : RouteWithGateway) (f : Forwarder) → Opens d f (start_route os d f)
  unfolding start_route
  start_route-Opens d f = opens d.route.protocol
    where
      opens : (p : Protocol) → Opens d f (start_as os p d f)
      opens Protocol.tcp =
          with_tcp-Opens os d f (listen os Kind.on_tcp d.route f)
            (listen-Listens Kind.on_tcp d.route f)
      opens Protocol.udp =
          with_udp-Opens os d f (listen os Kind.on_udp d.route f)
            (listen-Listens Kind.on_udp d.route f)
      opens Protocol.all =
          with_both-Opens d f (listen os Kind.on_tcp d.route f)
            (listen-Listens Kind.on_tcp d.route f)
      opens Protocol.icmp =
          register_icmp-Opens d
            (if f.icmp_once then f.icmp_proxy else (if os.can_raw then some [] else none)) f
      opens (Protocol.other q) = (λ h. refl, refl)

  keep_started-Accounted :
      (before : ℕ → ℕ) (d : RouteWithGateway) (f : Forwarder) (r : Option RouteRuntime × Forwarder)
      → Accounted before f
      → find_route d.route.id f.routes ≡ none
      → Opens d f r
      → Accounted before (keep_started os r)
  keep_started-Accounted before d f (none, g) a n (o, same) = record {
    accounts = λ h. o h ∙ a.accounts h ∙ ap (λ l. owned h l + before h) (sym same);
    unique = subst UniqueRoutes (sym same) a.unique;
  }
  keep_started-Accounted before d f (some rt, g) a n (o, same, route, gateway) = record {
    accounts = λ h. omega (arith, o h, a.accounts h, ap (owned h) same);
    unique = (
      ap (λ r. find_route r.id g.routes) route ∙ ap (find_route d.route.id) same ∙ n,
      subst UniqueRoutes (sym same) a.unique,
    );
  }

  forget-Accounted :
      (before : ℕ → ℕ) (f : Forwarder) (rt : RouteRuntime) (id : Uuid)
      → rt.route.id ≡ id
      → Accounted before f
      → find_route id f.routes ≡ some rt
      → Accounted before (forget os rt f) × (find_route id (forget os rt f).routes ≡ none)
  forget-Accounted before f rt id same a found =
      let found' : find_route rt.route.id f.routes ≡ some rt =
        subst (λ j. find_route j f.routes ≡ some rt) (sym same) found in
      (
        record {
          accounts = λ h. omega (
            arith,
            opened-stop_route h rt f.sockets,
            a.accounts h,
            owned-delete_route h rt.route.id f.routes rt a.unique found',
          );
          unique = UniqueRoutes-delete_route rt.route.id f.routes a.unique;
        },
        find-delete_route rt.route.id id f.routes ∙ rw (same, ==_self id) refl,
      )

  pub find_route_id :
      (id : Uuid) (rts : List RouteRuntime) (rt : RouteRuntime)
      → find_route id rts ≡ some rt
      → rt.route.id ≡ id
  unfolding find_route
  find_route_id id [] rt e = cc
  find_route_id id (q ∷ rts) rt e = elim (Bool-cases (q.route.id == id)) [
    | inl same ↦
        let eq : q ≡ rt = ground arith in
        subst (λ (r : RouteRuntime). r.route.id ≡ id) eq ((==_iff q.route.id id).0 same)
    | inr other ↦ find_route_id id rts rt (ground arith)
  ]

  settle-Accounted :
      (before : ℕ → ℕ) (d : RouteWithGateway) (f : Forwarder)
      → Accounted before f
      → Accounted before (settle os d f)
  unfolding settle
  settle-Accounted before d f a = elim (Option-cases (find_route d.route.id f.routes)) [
    | inl n ↦
        rw n (keep_started-Accounted before d f (start_route os d f) a n (start_route-Opens d f))
    | inr (rt, found) ↦ elim (Bool-cases (route_changed rt d)) [
      | inr kept ↦ rw (found, kept) a
      | inl changed ↦
          let (b, n) =
            forget-Accounted before f rt d.route.id (find_route_id d.route.id f.routes rt found) a
              found in
          rw (found, changed)
            (keep_started-Accounted before d (forget os rt f) (start_route os d (forget os rt f)) b
              n (start_route-Opens d (forget os rt f)))
    ]
  ]

  settle_all-Accounted :
      (before : ℕ → ℕ) (ds : List RouteWithGateway) (f : Forwarder)
      → Accounted before f
      → Accounted before (settle_all os ds f)
  unfolding settle_all
  settle_all-Accounted before [] f a = a
  settle_all-Accounted before (d ∷ ds) f a =
      settle_all-Accounted before ds (settle os d f) (settle-Accounted before d f a)

  sweep_find :
      (ds : List RouteWithGateway) (id : Uuid) (rts : List RouteRuntime) (ss : List Socket)
      → find_route id rts ≡ none
      → find_route id (sweep os ds rts ss).0 ≡ none
  unfolding sweep find_route
  sweep_find ds id [] ss e = refl
  sweep_find ds id (rt ∷ rts) ss e =
      ground (arith, sweep_find ds id rts ss, sweep_find ds id rts (stop_route rt ss))

  sweep-Accounted :
      (before : ℕ → ℕ) (ds : List RouteWithGateway) (rts : List RouteRuntime) (ss : List Socket)
      → ((h : ℕ) → opened h ss ≡ owned h rts + before h)
      → UniqueRoutes rts
      → ((h : ℕ) → opened h (sweep os ds rts ss).1 ≡ owned h (sweep os ds rts ss).0 + before h)
        × UniqueRoutes (sweep os ds rts ss).0
  unfolding sweep
  sweep-Accounted before ds [] ss a u = (a, u)
  sweep-Accounted before ds (rt ∷ rts) ss a (n, u) =
      elim (Bool-cases (is_some (find_desired rt.route.id ds))) [
        | inl keep ↦
            let (b, v) =
              sweep-Accounted (λ h. owned_by h rt + before h) ds rts ss (λ h. omega (arith, a h))
                u in
            rw keep (λ h. omega (arith, b h), (sweep_find ds rt.route.id rts ss n, v))
        | inr gone ↦ rw gone (
            sweep-Accounted before ds rts (stop_route rt ss)
              (λ h. omega (arith, opened-stop_route h rt ss, a h)) u)
      ]

  stop_all-opened :
      (before : ℕ → ℕ) (h : ℕ) (rts : List RouteRuntime) (ss : List Socket)
      → opened h ss ≡ owned h rts + before h
      → opened h (stop_all rts ss) ≡ before h
  unfolding stop_all
  stop_all-opened before h [] ss e = omega arith
  stop_all-opened before h (rt ∷ rts) ss e =
      stop_all-opened before h rts (stop_route rt ss) (omega (arith, opened-stop_route h rt ss))

  -- A reconciliation leaves as many sockets of each handle open as the runtimes own besides those
  -- that were open without the forwarder: a listener of a route that was removed or has changed is
  -- closed, and a start that fails half way leaves none behind.
  pub reconcile-Accounted :
      (before : ℕ → ℕ) (visit : List RouteWithGateway → List RouteWithGateway)
      (config : Option (List RouteWithGateway)) (f : Forwarder)
      → Accounted before f
      → Accounted before (reconcile os visit config f).1
  unfolding reconcile
  reconcile-Accounted before visit config f a =
      let (b, v) =
        sweep-Accounted before (wanted os config) f.routes f.sockets a.accounts a.unique in
      if_running (λ r. Accounted before r.1) f.running (λ e. a)
        (λ e.
          settle_all-Accounted before (visit (wanted os config))
            (record f {
              routes = (sweep os (wanted os config) f.routes f.sockets).0;
              sockets = (sweep os (wanted os config) f.routes f.sockets).1;
            })
            (record { accounts = b; unique = v }))

  -- A stop of a forwarder that runs leaves open exactly what was open without it.
  pub stop-Accounted :
      (before : ℕ → ℕ) (f : Forwarder)
      → Accounted before f
      → f.running ≡ true
      → ((h : ℕ) → opened h (stop f).1.sockets ≡ before h) × Accounted before (stop f).1
  unfolding stop
  stop-Accounted before f a on =
      let closed = λ (h : ℕ). stop_all-opened before h f.routes f.sockets (a.accounts h) in
      if_running (λ r. ((h : ℕ) → opened h r.1.sockets ≡ before h) × Accounted before r.1) f.running
        (λ off. cc) (λ e. (closed, record { accounts = λ h. omega (arith, closed h); unique = tt }))
