-- ===== src/RouteServer/Restart.antt =====
-- ICMP routes on a forwarder that is stopped and started again.
use edgefabric.Prelude.{
  ℕ, ◌≡◌, refl, sym, ap, ◌∙◌, subst, inl, inr, Bool, Bool-cases, true, false, ◌==◌, is_some, Option,
  Option-cases, none, some, List, [], ◌∷◌, if◌then◌else◌,
}
use edgefabric.Domain.{Uuid}
use edgefabric.Route.Types.{Protocol, Route, RouteWithGateway, is_icmp}
use edgefabric.RouteServer.{
  listen, start_route, start_as, with_tcp, with_udp, with_second, with_both, keep_started, settle,
  settle_all, sweep, forget, reconcile, wanted, start, stop,
}
use edgefabric.RouteServer.Types.{
  Kind, Socket, IcmpRoute, Os, RouteRuntime, Forwarder, stop_route, find_route, delete_route,
  find_desired, register_icmp, route_changed, safe_port,
}
use edgefabric.RouteServer.Accounts.{if_running}

abbrev pub NoIcmp : List RouteRuntime → Type 0
NoIcmp [] = Unit
NoIcmp (rt ∷ rts) = (is_icmp rt.route.protocol ≡ false) × NoIcmp rts

-- The proxy is gone for good, and no route needs it.
pub record Deaf (f : Forwarder) : Type 0 where
  pub once : f.icmp_once ≡ true
  pub proxy : f.icmp_proxy ≡ none
  pub quiet : NoIcmp f.routes

-- The calls of the service.
pub data Call : Type 0 where
  start_call : Call
  stop_call : Call
  reconcile_call :
      (os : Os) (visit : List RouteWithGateway → List RouteWithGateway)
      (config : Option (List RouteWithGateway))
      → Call

abbrev pub call : Call → Forwarder → Forwarder
call start_call f = (start f).1
call stop_call f = (stop f).1
call (reconcile_call os visit config) f = (reconcile os visit config f).1

unfoldable pub calls : List Call → Forwarder → Forwarder
calls [] f = f
calls (c ∷ cs) f = calls cs (call c f)

abbrev FromRoute : Route → Option RouteRuntime → Type 0
FromRoute r none = Unit
FromRoute r (some rt) = rt.route ≡ r

abbrev StillDeaf : Route → Option RouteRuntime × Forwarder → Type 0
StillDeaf r (o, g) = Deaf g × FromRoute r o

NoIcmp-delete_route :
    (id : Uuid) (rts : List RouteRuntime) → NoIcmp rts → NoIcmp (delete_route id rts)
unfolding delete_route
NoIcmp-delete_route id [] q = tt
NoIcmp-delete_route id (rt ∷ rts) (a, q) = elim (Bool-cases (rt.route.id == id)) [
  | inl e ↦ rw e (NoIcmp-delete_route id rts q)
  | inr e ↦ rw e (a, NoIcmp-delete_route id rts q)
]

module _ (os : Os) where
  listen-Deaf : (k : Kind) (r : Route) (f : Forwarder) → Deaf f → Deaf (listen os k r f).1
  unfolding listen
  listen-Deaf k r f a =
      elim (Bool-cases (os.can_listen k r.entry_ip (safe_port r.entry_port) f.sockets)) [
        | inl e ↦ rw e (record { once = a.once; proxy = a.proxy; quiet = a.quiet })
        | inr e ↦ rw e a
      ]

  with_tcp-Deaf :
      (d : RouteWithGateway) (r : Option ℕ × Forwarder)
      → Deaf r.1
      → StillDeaf d.route (with_tcp os d r)
  with_tcp-Deaf d (none, g) a = (a, tt)
  with_tcp-Deaf d (some h, g) a = (a, refl)

  with_udp-Deaf :
      (d : RouteWithGateway) (r : Option ℕ × Forwarder)
      → Deaf r.1
      → StillDeaf d.route (with_udp os d r)
  with_udp-Deaf d (none, g) a = (a, tt)
  with_udp-Deaf d (some h, g) a = (a, refl)

  with_second-Deaf :
      (d : RouteWithGateway) (h : ℕ) (r : Option ℕ × Forwarder)
      → Deaf r.1
      → StillDeaf d.route (with_second os d h r)
  with_second-Deaf d h (none, g) a =
      (record { once = a.once; proxy = a.proxy; quiet = a.quiet }, tt)
  with_second-Deaf d h (some k, g) a = (a, refl)

  with_both-Deaf :
      (d : RouteWithGateway) (r : Option ℕ × Forwarder)
      → Deaf r.1
      → StillDeaf d.route (with_both os d r)
  with_both-Deaf d (none, g) a = (a, tt)
  with_both-Deaf d (some h, g) a =
      with_second-Deaf d h (listen os Kind.on_udp d.route g) (listen-Deaf Kind.on_udp d.route g a)

  -- An ICMP route does not start without the proxy.
  keep_started-Deaf :
      (d : RouteWithGateway) (r : Option RouteRuntime × Forwarder)
      → is_icmp d.route.protocol ≡ false
      → StillDeaf d.route r
      → Deaf (keep_started os r)
  keep_started-Deaf d (none, g) q (a, same) = a
  keep_started-Deaf d (some rt, g) q (a, same) = record {
    once = a.once;
    proxy = a.proxy;
    quiet = (ap (λ r. is_icmp r.protocol) same ∙ q, a.quiet);
  }

  start_as-Deaf :
      (p : Protocol) (d : RouteWithGateway) (f : Forwarder)
      → d.route.protocol ≡ p
      → Deaf f
      → Deaf (keep_started os (start_as os p d f))
  start_as-Deaf Protocol.tcp d f e a =
      keep_started-Deaf d _ (ap is_icmp e)
        (with_tcp-Deaf d (listen os Kind.on_tcp d.route f) (listen-Deaf Kind.on_tcp d.route f a))
  start_as-Deaf Protocol.udp d f e a =
      keep_started-Deaf d _ (ap is_icmp e)
        (with_udp-Deaf d (listen os Kind.on_udp d.route f) (listen-Deaf Kind.on_udp d.route f a))
  start_as-Deaf Protocol.all d f e a =
      keep_started-Deaf d _ (ap is_icmp e)
        (with_both-Deaf d (listen os Kind.on_tcp d.route f) (listen-Deaf Kind.on_tcp d.route f a))
  start_as-Deaf Protocol.icmp d f e a =
      subst (λ o. Deaf (keep_started os (register_icmp d o f)))
        (sym (absent f.icmp_once f.icmp_proxy a.once a.proxy))
        (record { once = refl; proxy = refl; quiet = a.quiet })
    where
      absent :
          (b : Bool) (o : Option (List IcmpRoute))
          → b ≡ true
          → o ≡ none
          → (if b then o else (if os.can_raw then some [] else none)) ≡ none
      absent b o s t = rw s t
  start_as-Deaf (Protocol.other q) d f e a = a

  settle-Deaf : (d : RouteWithGateway) (f : Forwarder) → Deaf f → Deaf (settle os d f)
  unfolding settle start_route
  settle-Deaf d f a = elim (Option-cases (find_route d.route.id f.routes)) [
    | inl n ↦ rw n (start_as-Deaf d.route.protocol d f refl a)
    | inr (rt, found) ↦ elim (Bool-cases (route_changed rt d)) [
      | inr kept ↦ rw (found, kept) a
      | inl changed ↦
          rw (found, changed)
            (start_as-Deaf d.route.protocol d (forget os rt f) refl (record {
              once = a.once;
              proxy = a.proxy;
              quiet = NoIcmp-delete_route rt.route.id f.routes a.quiet;
            }))
    ]
  ]

  settle_all-Deaf :
      (ds : List RouteWithGateway) (f : Forwarder) → Deaf f → Deaf (settle_all os ds f)
  unfolding settle_all
  settle_all-Deaf [] f a = a
  settle_all-Deaf (d ∷ ds) f a = settle_all-Deaf ds (settle os d f) (settle-Deaf d f a)

  NoIcmp-sweep :
      (ds : List RouteWithGateway) (rts : List RouteRuntime) (ss : List Socket)
      → NoIcmp rts
      → NoIcmp (sweep os ds rts ss).0
  unfolding sweep
  NoIcmp-sweep ds [] ss q = tt
  NoIcmp-sweep ds (rt ∷ rts) ss (a, q) = elim (Bool-cases (is_some (find_desired rt.route.id ds))) [
    | inl e ↦ rw e (a, NoIcmp-sweep ds rts ss q)
    | inr e ↦ rw e (NoIcmp-sweep ds rts (stop_route rt ss) q)
  ]

  reconcile-Deaf :
      (visit : List RouteWithGateway → List RouteWithGateway)
      (config : Option (List RouteWithGateway)) (f : Forwarder)
      → Deaf f
      → Deaf (reconcile os visit config f).1
  unfolding reconcile
  reconcile-Deaf visit config f a =
      let ds = wanted os config in
      let swept = sweep os ds f.routes f.sockets in
      if_running (λ r. Deaf r.1) f.running (λ off. a)
        (λ on.
          settle_all-Deaf (visit ds) (record f { routes = swept.0; sockets = swept.1 })
            (record {
              once = a.once;
              proxy = a.proxy;
              quiet = NoIcmp-sweep ds f.routes f.sockets a.quiet;
            }))

call-Deaf : (c : Call) (f : Forwarder) → Deaf f → Deaf (call c f)
unfolding start stop
call-Deaf start_call f a = started f.running
  where
    started :
        (b : Bool)
        → let r : Bool × Forwarder =
            if b then (false, f) else (true, record f { running = true }) in
          Deaf r.1
    started true = a
    started false = record { once = a.once; proxy = a.proxy; quiet = a.quiet }
call-Deaf stop_call f a =
    if_running (λ r. Deaf r.1) f.running (λ off. a)
      (λ on. record { once = a.once; proxy = refl; quiet = tt })
call-Deaf (reconcile_call os visit config) f a = reconcile-Deaf os visit config f a

calls-Deaf : (cs : List Call) (f : Forwarder) → Deaf f → Deaf (calls cs f)
unfolding calls
calls-Deaf [] f a = a
calls-Deaf (c ∷ cs) f a = calls-Deaf cs (call c f) (call-Deaf c f a)

-- A forwarder that has tried once to open the ICMP socket and is stopped runs no ICMP route ever
-- after, whatever is called and whether or not the socket can be opened then: its proxy is gone and
-- is not opened again.
pub stop_forever :
    (f : Forwarder) (cs : List Call)
    → f.running ≡ true
    → f.icmp_once ≡ true
    → ((calls cs (stop f).1).icmp_proxy ≡ none) × NoIcmp (calls cs (stop f).1).routes
unfolding stop
stop_forever f cs on once =
    let stopped : Deaf (stop f).1 =
      if_running (λ r. Deaf r.1) f.running (λ off. cc)
        (λ e. record { once = once; proxy = refl; quiet = tt }) in
    let after = calls-Deaf cs (stop f).1 stopped in (after.proxy, after.quiet)
