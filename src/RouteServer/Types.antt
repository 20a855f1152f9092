-- ===== src/RouteServer/Types.antt =====
-- The state of the forwarder of routes, and the operations on its maps and sockets.
use edgefabric.Prelude.{
  ℕ, String, Bool, true, false, not, ◌||◌, ◌==◌, str_eq, Option, none, some, List, [], ◌∷◌,
  if◌then◌else◌,
}
use edgefabric.Prelude.Int.{ℤ}
use edgefabric.Domain.{Uuid}
use edgefabric.Route.Types.{Protocol, Route, RouteWithGateway}

pub data Kind : Type 0 where
  on_tcp on_udp : Kind

pub record Socket : Type 0 where
  pub handle : ℕ
  pub kind : Kind
  pub ip : String
  pub port : ℤ

-- Whether net.Listen and net.ListenPacket give a socket, by the sockets that are open; and whether
-- the raw socket for ICMP can be opened.
pub record Os : Type 0 where
  pub can_listen : Kind → String → ℤ → List Socket → Bool
  pub can_raw : Bool

pub record IcmpRoute : Type 0 where
  pub route_id : Uuid
  pub entry_ip : String
  pub gateway_wgip : String
  pub destination_ip : String

-- The listeners of a route, by their handles.
pub record RouteRuntime : Type 0 where
  pub route : Route
  pub gateway_wgip : String
  pub tcp_listener : Option ℕ
  pub udp_conn : Option ℕ

-- `routes` is the map by the identifiers of the routes, and `icmp_proxy` the table of the proxy.
-- `sockets` and `next` belong to the system: what is open, and the handle that it gives next.
pub record Forwarder : Type 0 where
  pub running : Bool
  pub routes : List RouteRuntime
  pub icmp_proxy : Option (List IcmpRoute)
  pub icmp_once : Bool
  pub sockets : List Socket
  pub next : ℕ

abbrev pub new_forwarder : List Socket → ℕ → Forwarder
new_forwarder sockets next = record {
  running = false;
  routes = [];
  icmp_proxy = none;
  icmp_once = false;
  sockets = sockets;
  next = next;
}

-- `safePort`
abbrev pub safe_port : Option ℤ → ℤ
safe_port none = ℤ.pos 0
safe_port (some p) = p

abbrev pub int_eq : ℤ → ℤ → Bool
int_eq (ℤ.pos a) (ℤ.pos b) = a == b
int_eq (ℤ.negsuc a) (ℤ.negsuc b) = a == b
int_eq _ _ = false

abbrev pub int_ptr_equal : Option ℤ → Option ℤ → Bool
int_ptr_equal none none = true
int_ptr_equal (some a) (some b) = int_eq a b
int_ptr_equal _ _ = false

abbrev pub protocol_eq : Protocol → Protocol → Bool
protocol_eq Protocol.tcp Protocol.tcp = true
protocol_eq Protocol.udp Protocol.udp = true
protocol_eq Protocol.icmp Protocol.icmp = true
protocol_eq Protocol.all Protocol.all = true
protocol_eq (Protocol.other a) (Protocol.other b) = str_eq a b
protocol_eq _ _ = false

unfoldable pub route_changed : RouteRuntime → RouteWithGateway → Bool
route_changed rt d =
    not (str_eq rt.route.entry_ip d.route.entry_ip)
    || (not (int_ptr_equal rt.route.entry_port d.route.entry_port)
        || (not (protocol_eq rt.route.protocol d.route.protocol)
            || (not (str_eq rt.gateway_wgip d.gateway_wg_ip)
                || (not (str_eq rt.route.destination_ip d.route.destination_ip)
                    || not (int_ptr_equal rt.route.destination_port d.route.destination_port)))))

-- Close on a listener.
unfoldable pub close : ℕ → List Socket → List Socket
close h [] = []
close h (s ∷ ss) = if s.handle == h then ss else s ∷ close h ss

abbrev pub close_ptr : Option ℕ → List Socket → List Socket
close_ptr none ss = ss
close_ptr (some h) ss = close h ss

-- `stopRouteLocked`
abbrev pub stop_route : RouteRuntime → List Socket → List Socket
stop_route rt ss = close_ptr rt.udp_conn (close_ptr rt.tcp_listener ss)

unfoldable pub find_route : Uuid → List RouteRuntime → Option RouteRuntime
find_route id [] = none
find_route id (rt ∷ rts) = if rt.route.id == id then some rt else find_route id rts

unfoldable pub delete_route : Uuid → List RouteRuntime → List RouteRuntime
delete_route id [] = []
delete_route id (rt ∷ rts) =
    let rest = delete_route id rts in if rt.route.id == id then rest else rt ∷ rest

unfoldable pub find_desired : Uuid → List RouteWithGateway → Option RouteWithGateway
find_desired id [] = none
find_desired id (d ∷ ds) = if d.route.id == id then some d else find_desired id ds

-- `desired[rwg.Route.ID] = rwg`
unfoldable pub put_desired : RouteWithGateway → List RouteWithGateway → List RouteWithGateway
put_desired d [] = d ∷ []
put_desired d (e ∷ es) = if e.route.id == d.route.id then d ∷ es else e ∷ put_desired d es

unfoldable pub desired_from : List RouteWithGateway → List RouteWithGateway → List RouteWithGateway
desired_from [] m = m
desired_from (d ∷ ds) m = desired_from ds (put_desired d m)

-- `addRoute` of the ICMP proxy, whose table is by the entry addresses.
abbrev pub add_icmp : IcmpRoute → List IcmpRoute → List IcmpRoute
add_icmp r [] = r ∷ []
add_icmp r (q ∷ qs) = if str_eq q.entry_ip r.entry_ip then r ∷ qs else q ∷ add_icmp r qs

abbrev pub icmp_route : RouteWithGateway → IcmpRoute
icmp_route d = record {
  route_id = d.route.id;
  entry_ip = d.route.entry_ip;
  gateway_wgip = d.gateway_wg_ip;
  destination_ip = d.route.destination_ip;
}

abbrev pub runtime : RouteWithGateway → Option ℕ → Option ℕ → RouteRuntime
runtime d t u = record {
  route = d.route;
  gateway_wgip = d.gateway_wg_ip;
  tcp_listener = t;
  udp_conn = u;
}

-- The end of `startICMPRoute`, on the proxy that is there after the first call.
abbrev pub register_icmp :
    RouteWithGateway → Option (List IcmpRoute) → Forwarder → Option RouteRuntime × Forwarder
register_icmp d none f = (none, record f { icmp_proxy = none; icmp_once = true })
register_icmp d (some table) f = (
  some (runtime d none none),
  record f { icmp_proxy = some (add_icmp (icmp_route d) table); icmp_once = true },
)
