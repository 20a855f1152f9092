-- ===== src/RouteServer.antt =====
-- internal/routeserver/forwarder.go, and the table of internal/routeserver/icmp.go: the listeners
-- of the routes on a node. The network of the node is the parameter `Os`; an open socket is a
-- handle in the state. The relays of connections and packets are left out, and so are the messages
-- of errors and the log. The order in which Go visits a map is an argument.
pub mod Types
pub mod Accounts
pub mod Sockets
pub mod Starts
pub mod Reconciled
pub mod Matching
pub mod Restart
use edgefabric.Prelude.{
  ℕ, ◌+◌, String, Bool, true, false, not, ◌&&◌, ◌||◌, ◌==◌, str_eq, is_some, Option, none, some,
  List, [], ◌∷◌, if◌then◌else◌,
}
use edgefabric.Prelude.Int.{ℤ}
use edgefabric.Domain.{Uuid}
use edgefabric.Route.Types.{Protocol, Route, RouteWithGateway}
use edgefabric.RouteServer.Types.{
  Kind, Socket, Os, RouteRuntime, Forwarder, safe_port, route_changed, close, stop_route,
  find_route, delete_route, find_desired, desired_from, runtime, register_icmp,
}

module _ (os : Os) where
  open os use {can_listen, can_raw}

  -- The handle of a new listener.
  unfoldable pub listen : Kind → Route → Forwarder → Option ℕ × Forwarder
  listen k r f =
      if can_listen k r.entry_ip (safe_port r.entry_port) f.sockets
      then (
        some f.next,
        record f {
          sockets =
              record { handle = f.next; kind = k; ip = r.entry_ip; port = safe_port r.entry_port }
              ∷ f.sockets;
          next = f.next + 1;
        },
      )
      else (none, f)

  abbrev pub with_tcp : RouteWithGateway → Option ℕ × Forwarder → Option RouteRuntime × Forwarder
  with_tcp d (none, f) = (none, f)
  with_tcp d (some h, f) = (some (runtime d (some h) none), f)

  abbrev pub with_udp : RouteWithGateway → Option ℕ × Forwarder → Option RouteRuntime × Forwarder
  with_udp d (none, f) = (none, f)
  with_udp d (some h, f) = (some (runtime d none (some h)), f)

  -- The second listener; without it the first is closed.
  abbrev pub with_second :
      RouteWithGateway → ℕ → Option ℕ × Forwarder → Option RouteRuntime × Forwarder
  with_second d h (none, f) = (none, record f { sockets = close h f.sockets })
  with_second d h (some k, f) = (some (runtime d (some h) (some k)), f)

  abbrev pub with_both : RouteWithGateway → Option ℕ × Forwarder → Option RouteRuntime × Forwarder
  with_both d (none, f) = (none, f)
  with_both d (some h, f) = with_second d h (listen Kind.on_udp d.route f)

  -- `icmpOnce.Do` opens the raw socket at the first call alone.
  abbrev pub start_icmp : RouteWithGateway → Forwarder → Option RouteRuntime × Forwarder
  start_icmp d f =
      register_icmp d (if f.icmp_once then f.icmp_proxy else (if can_raw then some [] else none)) f

  abbrev pub start_as : Protocol → RouteWithGateway → Forwarder → Option RouteRuntime × Forwarder
  start_as Protocol.tcp d f = with_tcp d (listen Kind.on_tcp d.route f)
  start_as Protocol.udp d f = with_udp d (listen Kind.on_udp d.route f)
  start_as Protocol.all d f = with_both d (listen Kind.on_tcp d.route f)
  start_as Protocol.icmp d f = start_icmp d f
  start_as (Protocol.other p) d f = (none, f)

  -- `startRoute`: none is an error.
  unfoldable pub start_route : RouteWithGateway → Forwarder → Option RouteRuntime × Forwarder
  start_route d f = start_as d.route.protocol d f

  abbrev pub keep_started : Option RouteRuntime × Forwarder → Forwarder
  keep_started (none, f) = f
  keep_started (some rt, f) = record f { routes = rt ∷ f.routes }

  abbrev pub forget : RouteRuntime → Forwarder → Forwarder
  forget rt f = record f {
    routes = delete_route rt.route.id f.routes;
    sockets = stop_route rt f.sockets;
  }

  abbrev pub settle_at : RouteWithGateway → Option RouteRuntime → Forwarder → Forwarder
  settle_at d none f = keep_started (start_route d f)
  settle_at d (some rt) f =
      if route_changed rt d then keep_started (start_route d (forget rt f)) else f

  -- The body of the second loop: a route that is new or has changed is started.
  unfoldable pub settle : RouteWithGateway → Forwarder → Forwarder
  settle d f = settle_at d (find_route d.route.id f.routes) f

  unfoldable pub settle_all : List RouteWithGateway → Forwarder → Forwarder
  settle_all [] f = f
  settle_all (d ∷ ds) f = settle_all ds (settle d f)

  -- The first loop: the routes that are desired still, and the sockets without those of the others.
  unfoldable pub sweep :
      List RouteWithGateway → List RouteRuntime → List Socket → List RouteRuntime × List Socket
  sweep ds [] ss = ([], ss)
  sweep ds (rt ∷ rts) ss =
      if is_some (find_desired rt.route.id ds)
      then (let (kept, rest) = sweep ds rts ss in (rt ∷ kept, rest))
      else sweep ds rts (stop_route rt ss)

  -- The routes of the configuration, or none if there is no configuration.
  abbrev pub wanted : Option (List RouteWithGateway) → List RouteWithGateway
  wanted none = []
  wanted (some ds) = desired_from ds []

  -- `visit` is the order of the second loop. The result is false where `Reconcile` fails.
  unfoldable pub reconcile :
      (List RouteWithGateway → List RouteWithGateway)
      → Option (List RouteWithGateway)
      → Forwarder
      → Bool × Forwarder
  reconcile visit config f =
      let swept = sweep (wanted config) f.routes f.sockets in
      if not f.running then (false, f) else (
        true,
        settle_all (visit (wanted config)) (record f { routes = swept.0; sockets = swept.1 }),
      )

unfoldable pub start : Forwarder → Bool × Forwarder
start f = if f.running then (false, f) else (true, record f { running = true })

unfoldable pub stop_all : List RouteRuntime → List Socket → List Socket
stop_all [] ss = ss
stop_all (rt ∷ rts) ss = stop_all rts (stop_route rt ss)

unfoldable pub stop : Forwarder → Bool × Forwarder
stop f = if not f.running then (false, f) else (
  true,
  record f {
    sockets = stop_all f.routes f.sockets;
    routes = [];
    icmp_proxy = none;
    running = false;
  },
)

abbrev pub tcp_listeners : List RouteRuntime → ℕ
tcp_listeners [] = 0
tcp_listeners (rt ∷ rts) = (if is_some rt.tcp_listener then 1 else 0) + tcp_listeners rts
