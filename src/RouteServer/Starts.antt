-- ===== src/RouteServer/Starts.antt =====
-- What runs for a route after its start, or after the body of the second loop.
use edgefabric.Prelude.{
  ℕ, ◌≡◌, refl, Bool, true, false, not, ◌==◌, is_some, Option, none, some, List, [], ◌∷◌,
  if◌then◌else◌,
}
use edgefabric.Prelude.{String, ◌||◌}
use edgefabric.Prelude.Int.{ℤ}
use edgefabric.Domain.{Uuid}
use edgefabric.Route.Types.{Protocol, RouteWithGateway}
use edgefabric.RouteServer.{listen, start_as, with_second, with_both, with_tcp, with_udp}
use edgefabric.RouteServer.Types.{
  safe_port, Kind, Socket, IcmpRoute, Os, RouteRuntime, Forwarder, find_desired, route_changed,
  register_icmp,
}

-- The last of the routes of the configuration with the identifier.
abbrev pub last_desired :
    Uuid → List RouteWithGateway → Option RouteWithGateway → Option RouteWithGateway
last_desired id [] o = o
last_desired id (d ∷ ds) o = last_desired id ds (if d.route.id == id then some d else o)

abbrev pub UniqueDesired : List RouteWithGateway → Type 0
UniqueDesired [] = Unit
UniqueDesired (d ∷ ds) = (find_desired d.route.id ds ≡ none) × UniqueDesired ds

-- The order of a map: each of its entries once.
pub record Visits (visit : List RouteWithGateway → List RouteWithGateway) : Type 0 where
  pub same :
      (ds : List RouteWithGateway)
      → UniqueDesired ds
      → (id : Uuid) → find_desired id (visit ds) ≡ find_desired id ds
  pub unique : (ds : List RouteWithGateway) → UniqueDesired ds → UniqueDesired (visit ds)

abbrev pub uses_tcp : Protocol → Bool
uses_tcp Protocol.tcp = true
uses_tcp Protocol.all = true
uses_tcp _ = false

abbrev pub uses_udp : Protocol → Bool
uses_udp Protocol.udp = true
uses_udp Protocol.all = true
uses_udp _ = false

-- A runtime of the route, with the listeners of its protocol.
pub record Serves (d : RouteWithGateway) (rt : RouteRuntime) : Type 0 where
  pub route : rt.route ≡ d.route
  pub gateway : rt.gateway_wgip ≡ d.gateway_wg_ip
  pub over_tcp : is_some rt.tcp_listener ≡ uses_tcp d.route.protocol
  pub over_udp : is_some rt.udp_conn ≡ uses_udp d.route.protocol

-- The system gives every listener that is asked for.
abbrev pub AllListen : Os → Type 0
AllListen os =
    (k : Kind) (ip : String) (port : ℤ) (ss : List Socket) → os.can_listen k ip port ss ≡ true

-- A start can fail, unless the route needs listeners alone and the system gives each of them.
abbrev pub CanFail : Os → Protocol → Type 0
CanFail os p = AllListen os → (uses_tcp p || uses_udp p) ≡ true → ⊥

-- A route that was started, or whose start has failed.
abbrev pub Started : Os → RouteWithGateway → Option RouteRuntime → Type 0
Started os d none = CanFail os d.route.protocol
Started os d (some rt) = Serves d rt

abbrev pub keeps : RouteWithGateway → Option RouteRuntime → Bool
keeps d none = false
keeps d (some rt) = not (route_changed rt d)

abbrev pub Renewed :
    Os → Bool → RouteWithGateway → Option RouteRuntime → Option RouteRuntime → Type 0
Renewed os true d before after = after ≡ before
Renewed os false d before after = Started os d after

-- What runs for a route after a reconciliation, by what is desired and what ran before.
abbrev pub Settled :
    Os → Option RouteWithGateway → Option RouteRuntime → Option RouteRuntime → Type 0
Settled os none before after = after ≡ none
Settled os (some d) before after = Renewed os (keeps d before) d before after

abbrev pub Bound : Os → Protocol → Option RouteRuntime → Type 0
Bound os p none = CanFail os p
Bound os p (some rt) = (is_some rt.tcp_listener ≡ uses_tcp p) × (is_some rt.udp_conn ≡ uses_udp p)

register_icmp-Bound :
    (os : Os) (d : RouteWithGateway) (o : Option (List IcmpRoute)) (f : Forwarder)
    → Bound os Protocol.icmp (register_icmp d o f).0
register_icmp-Bound os d none f = λ all uses. cc
register_icmp-Bound os d (some table) f = (refl, refl)

module _ (os : Os) where
  -- A result of an attempt to listen.
  abbrev Tried : Option ℕ × Forwarder → Type 0
  Tried r = AllListen os → is_some r.0 ≡ true

  listen-Tried : (k : Kind) (d : RouteWithGateway) (f : Forwarder) → Tried (listen os k d.route f)
  unfolding listen
  listen-Tried k d f all = rw (all k d.route.entry_ip (safe_port d.route.entry_port) f.sockets) refl

  with_tcp-Bound :
      (d : RouteWithGateway) (r : Option ℕ × Forwarder)
      → Tried r
      → Bound os Protocol.tcp (with_tcp os d r).0
  with_tcp-Bound d (none, g) t = λ all uses. let e = t all in cc
  with_tcp-Bound d (some k, g) t = (refl, refl)

  with_udp-Bound :
      (d : RouteWithGateway) (r : Option ℕ × Forwarder)
      → Tried r
      → Bound os Protocol.udp (with_udp os d r).0
  with_udp-Bound d (none, g) t = λ all uses. let e = t all in cc
  with_udp-Bound d (some k, g) t = (refl, refl)

  with_second-Bound :
      (d : RouteWithGateway) (k : ℕ) (r : Option ℕ × Forwarder)
      → Tried r
      → Bound os Protocol.all (with_second os d k r).0
  with_second-Bound d k (none, g) t = λ all uses. let e = t all in cc
  with_second-Bound d k (some m, g) t = (refl, refl)

  with_both-Bound :
      (d : RouteWithGateway) (r : Option ℕ × Forwarder)
      → Tried r
      → Bound os Protocol.all (with_both os d r).0
  with_both-Bound d (none, g) t = λ all uses. let e = t all in cc
  with_both-Bound d (some k, g) t =
      with_second-Bound d k (listen os Kind.on_udp d.route g) (listen-Tried Kind.on_udp d g)

  pub start_as-Bound :
      (p : Protocol) (d : RouteWithGateway) (f : Forwarder) → Bound os p (start_as os p d f).0
  start_as-Bound Protocol.tcp d f =
      with_tcp-Bound d (listen os Kind.on_tcp d.route f) (listen-Tried Kind.on_tcp d f)
  start_as-Bound Protocol.udp d f =
      with_udp-Bound d (listen os Kind.on_udp d.route f) (listen-Tried Kind.on_udp d f)
  start_as-Bound Protocol.all d f =
      with_both-Bound d (listen os Kind.on_tcp d.route f) (listen-Tried Kind.on_tcp d f)
  start_as-Bound Protocol.icmp d f =
      register_icmp-Bound os d
        (if f.icmp_once then f.icmp_proxy else (if os.can_raw then some [] else none)) f
  start_as-Bound (Protocol.other q) d f = λ all uses. cc
