-- ===== src/Scenarios/Forwarders.antt =====
-- Runs and instances for the forwarder of routes, on a node where another process holds a socket.
use edgefabric.Prelude.{ℕ, ◌≡◌, refl, true, false, Option, none, some, List, [], ◌∷◌, length}
use edgefabric.Prelude.Int.{ℤ}
use edgefabric.Route.Types.{Protocol, RouteStatus, RouteWithGateway}
use edgefabric.RouteServer.{stop, reconcile, listen, start_route, settle, settle_all, sweep}
use edgefabric.RouteServer.Types.{
  Kind, Socket, Os, Forwarder, new_forwarder, find_route, close, find_desired, put_desired,
  desired_from,
}
use edgefabric.RouteServer.Sockets.{reconcile-Accounted}
use edgefabric.RouteServer.Accounts.{Accounted, opened, new-Accounted}
use edgefabric.RouteServer.Reconciled.{configured}
use edgefabric.RouteServer.Starts.{Visits}
use edgefabric.RouteServer.Matching.{AsConfigured, reconcile-AsConfigured}
use edgefabric.RouteServer.Restart.{Call, NoIcmp, start_call, reconcile_call, calls, stop_forever}

abbrev os : Os
os = record { can_listen = λ k ip port ss. true; can_raw = true }

abbrev deaf_os : Os
deaf_os = record {
  can_listen = λ k ip port ss. elim k [ Kind.on_tcp ↦ true | Kind.on_udp ↦ false ];
  can_raw = true;
}

abbrev route_for : ℕ → Protocol → RouteWithGateway
route_for id p = record {
  route = record {
    id = id;
    tenant_id = 1;
    name = "r";
    protocol = p;
    entry_ip = "192.0.2.1";
    entry_port = some (ℤ.pos 53);
    gateway_id = 3;
    destination_ip = "10.0.0.1";
    destination_port = some (ℤ.pos 53);
    node_group_id = some 4;
    status = RouteStatus.active;
  };
  gateway_wg_ip = "10.100.0.5";
}

abbrev config : Option (List RouteWithGateway)
config = some (route_for 1 Protocol.all ∷ route_for 2 Protocol.icmp ∷ [])

abbrev taken : List Socket
taken = record { handle = 0; kind = Kind.on_tcp; ip = "192.0.2.9"; port = ℤ.pos 80 } ∷ []

abbrev as_listed : List RouteWithGateway → List RouteWithGateway
as_listed ds = ds

as_listed-Visits : Visits as_listed
as_listed-Visits = record { same = λ ds u id. refl; unique = λ ds u. u }

abbrev started : Forwarder
started = record (new_forwarder taken 1) { running = true }

abbrev reconciled : Forwarder
reconciled = (reconcile os as_listed config started).1

reconciled_sockets : (length reconciled.sockets ≡ 3) × (length reconciled.routes ≡ 2)
unfolding reconcile sweep settle_all settle find_route find_desired put_desired desired_from
    start_route listen
reconciled_sockets = (refl, refl)

-- The route over both protocols does not start without its second listener, and the first is closed.
half_started :
    let f = (reconcile deaf_os as_listed config started).1 in
    (length f.sockets ≡ 1) × (length f.routes ≡ 1)
unfolding reconcile sweep settle_all settle find_route find_desired put_desired desired_from
    start_route listen close
half_started = (refl, refl)

started-Accounted : Accounted (λ h. opened h taken) started
started-Accounted =
    let a = new-Accounted taken 1 in record { accounts = a.accounts; unique = a.unique }

reconcile-Accounted_example :
    Accounted (λ h. opened h taken) (reconcile os as_listed config started).1
reconcile-Accounted_example =
    reconcile-Accounted os (λ h. opened h taken) as_listed config started started-Accounted

reconcile-AsConfigured_example :
    AsConfigured os
      (configured os config 1)
      (find_route 1 started.routes)
      (find_route 1 (reconcile os as_listed config started).1.routes)
reconcile-AsConfigured_example =
    reconcile-AsConfigured os as_listed config started 1 as_listed-Visits refl

abbrev restarted : List Call
restarted = start_call ∷ reconcile_call os as_listed config ∷ []

abbrev pinged : Forwarder
pinged = record started { icmp_proxy = some []; icmp_once = true }

stop_forever_example :
    ((calls restarted (stop pinged).1).icmp_proxy ≡ none)
    × NoIcmp (calls restarted (stop pinged).1).routes
stop_forever_example = stop_forever pinged restarted refl refl
