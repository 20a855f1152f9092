-- ===== src/RouteServer/Matching.antt =====
-- When a running route is what the configuration asks for.
use edgefabric.Prelude.{
  ◌≡◌, ◌⊎◌, refl, sym, ap, ◌∙◌, subst, inl, inr, Bool, true, false, not, ◌||◌, ==_iff, str_eq,
  eq_iff, String, Option, none, some, List, arith,
}
use edgefabric.Prelude.Int.{ℤ}
use edgefabric.Domain.{Uuid}
use edgefabric.Route.Types.{Protocol, RouteWithGateway}
use edgefabric.RouteServer.{reconcile}
use edgefabric.RouteServer.Types.{
  Os, RouteRuntime, Forwarder, int_eq, int_ptr_equal, protocol_eq, route_changed, find_route,
}
use edgefabric.RouteServer.Reconciled.{configured, reconcile-Settled}
use edgefabric.RouteServer.Starts.{Visits, Serves, Started, Settled, Renewed, keeps}

-- What a listener depends on is as in the configuration.
pub record Matches (d : RouteWithGateway) (rt : RouteRuntime) : Type 0 where
  pub entry_ip : rt.route.entry_ip ≡ d.route.entry_ip
  pub entry_port : rt.route.entry_port ≡ d.route.entry_port
  pub protocol : rt.route.protocol ≡ d.route.protocol
  pub gateway : rt.gateway_wgip ≡ d.gateway_wg_ip
  pub destination_ip : rt.route.destination_ip ≡ d.route.destination_ip
  pub destination_port : rt.route.destination_port ≡ d.route.destination_port

int_eq_same : (a b : ℤ) → int_eq a b ≡ true → a ≡ b
int_eq_same (ℤ.pos a) (ℤ.pos b) h = ap ℤ.pos ((==_iff a b).0 h)
int_eq_same (ℤ.negsuc a) (ℤ.negsuc b) h = ap ℤ.negsuc ((==_iff a b).0 h)
int_eq_same (ℤ.pos a) (ℤ.negsuc b) h = cc
int_eq_same (ℤ.negsuc a) (ℤ.pos b) h = cc

int_eq_self : (a : ℤ) → int_eq a a ≡ true
int_eq_self (ℤ.pos a) = ground arith
int_eq_self (ℤ.negsuc a) = ground arith

int_ptr_equal_same : (a b : Option ℤ) → int_ptr_equal a b ≡ true → a ≡ b
int_ptr_equal_same none none h = refl
int_ptr_equal_same (some a) (some b) h = ap some (int_eq_same a b h)
int_ptr_equal_same none (some b) h = cc
int_ptr_equal_same (some a) none h = cc

int_ptr_equal_self : (a : Option ℤ) → int_ptr_equal a a ≡ true
int_ptr_equal_self none = refl
int_ptr_equal_self (some a) = int_eq_self a

protocol_eq_same : (a b : Protocol) → protocol_eq a b ≡ true → a ≡ b
protocol_eq_same Protocol.tcp Protocol.tcp h = refl
protocol_eq_same Protocol.udp Protocol.udp h = refl
protocol_eq_same Protocol.icmp Protocol.icmp h = refl
protocol_eq_same Protocol.all Protocol.all h = refl
protocol_eq_same (Protocol.other a) (Protocol.other b) h =
    ap Protocol.other (ground (arith, eq_iff a b))
protocol_eq_same Protocol.tcp Protocol.udp h = cc
protocol_eq_same Protocol.tcp Protocol.icmp h = cc
protocol_eq_same Protocol.tcp Protocol.all h = cc
protocol_eq_same Protocol.tcp (Protocol.other b) h = cc
protocol_eq_same Protocol.udp Protocol.tcp h = cc
protocol_eq_same Protocol.udp Protocol.icmp h = cc
protocol_eq_same Protocol.udp Protocol.all h = cc
protocol_eq_same Protocol.udp (Protocol.other b) h = cc
protocol_eq_same Protocol.icmp Protocol.tcp h = cc
protocol_eq_same Protocol.icmp Protocol.udp h = cc
protocol_eq_same Protocol.icmp Protocol.all h = cc
protocol_eq_same Protocol.icmp (Protocol.other b) h = cc
protocol_eq_same Protocol.all Protocol.tcp h = cc
protocol_eq_same Protocol.all Protocol.udp h = cc
protocol_eq_same Protocol.all Protocol.icmp h = cc
protocol_eq_same Protocol.all (Protocol.other b) h = cc
protocol_eq_same (Protocol.other a) Protocol.tcp h = cc
protocol_eq_same (Protocol.other a) Protocol.udp h = cc
protocol_eq_same (Protocol.other a) Protocol.icmp h = cc
protocol_eq_same (Protocol.other a) Protocol.all h = cc

protocol_eq_self : (a : Protocol) → protocol_eq a a ≡ true
protocol_eq_self Protocol.tcp = refl
protocol_eq_self Protocol.udp = refl
protocol_eq_self Protocol.icmp = refl
protocol_eq_self Protocol.all = refl
protocol_eq_self (Protocol.other a) = ground (arith, eq_iff a a)

-- The next of several tests for a difference.
no_change : (same rest : Bool) → (not same || rest) ≡ false → (same ≡ true) × (rest ≡ false)
no_change same rest h = ground arith

text_same : (a b : String) → str_eq a b ≡ true → a ≡ b
text_same a b h = ground (arith, eq_iff a b)

pub route_changed-Matches :
    (rt : RouteRuntime) (d : RouteWithGateway) → route_changed rt d ≡ false → Matches d rt
unfolding route_changed
route_changed-Matches rt d h =
    let (a, h1) = no_change (str_eq rt.route.entry_ip d.route.entry_ip) _ h in
    let (b, h2) = no_change (int_ptr_equal rt.route.entry_port d.route.entry_port) _ h1 in
    let (c, h3) = no_change (protocol_eq rt.route.protocol d.route.protocol) _ h2 in
    let (e, h4) = no_change (str_eq rt.gateway_wgip d.gateway_wg_ip) _ h3 in
    let (f, h5) = no_change (str_eq rt.route.destination_ip d.route.destination_ip) _ h4 in
    record {
      entry_ip = text_same rt.route.entry_ip d.route.entry_ip a;
      entry_port = int_ptr_equal_same rt.route.entry_port d.route.entry_port b;
      protocol = protocol_eq_same rt.route.protocol d.route.protocol c;
      gateway = text_same rt.gateway_wgip d.gateway_wg_ip e;
      destination_ip = text_same rt.route.destination_ip d.route.destination_ip f;
      destination_port =
          int_ptr_equal_same rt.route.destination_port d.route.destination_port (ground arith);
    }

text_self : (a : String) → str_eq a a ≡ true
text_self a = ground (arith, eq_iff a a)

Matches-route_changed :
    (rt : RouteRuntime) (d : RouteWithGateway) → Matches d rt → route_changed rt d ≡ false
unfolding route_changed
Matches-route_changed rt d m =
    let a = ap (λ s. str_eq s d.route.entry_ip) m.entry_ip ∙ text_self d.route.entry_ip in
    let b =
      ap (λ s. int_ptr_equal s d.route.entry_port) m.entry_port
      ∙ int_ptr_equal_self d.route.entry_port in
    let c =
      ap (λ s. protocol_eq s d.route.protocol) m.protocol ∙ protocol_eq_self d.route.protocol in
    let e = ap (λ s. str_eq s d.gateway_wg_ip) m.gateway ∙ text_self d.gateway_wg_ip in
    let f =
      ap (λ s. str_eq s d.route.destination_ip) m.destination_ip
      ∙ text_self d.route.destination_ip in
    let g =
      ap (λ s. int_ptr_equal s d.route.destination_port) m.destination_port
      ∙ int_ptr_equal_self d.route.destination_port in
    rw (a, b, c, e, f, g) refl

Serves-Matches : (d : RouteWithGateway) (rt : RouteRuntime) → Serves d rt → Matches d rt
Serves-Matches d rt s = record {
  entry_ip = ap (λ r. r.entry_ip) s.route;
  entry_port = ap (λ r. r.entry_port) s.route;
  protocol = ap (λ r. r.protocol) s.route;
  gateway = s.gateway;
  destination_ip = ap (λ r. r.destination_ip) s.route;
  destination_port = ap (λ r. r.destination_port) s.route;
}

-- What runs for a route that the configuration asks for.
pub record Current (os : Os) (d : RouteWithGateway) (before after : Option RouteRuntime)
    : Type 0 where
  pub untouched : (rt : RouteRuntime) → before ≡ some rt → Matches d rt → after ≡ before
  pub as_asked : (rt : RouteRuntime) → after ≡ some rt → Matches d rt
  pub origin : (after ≡ before) ⊎ Started os d after

abbrev pub AsConfigured :
    Os → Option RouteWithGateway → Option RouteRuntime → Option RouteRuntime → Type 0
AsConfigured os none before after = after ≡ none
AsConfigured os (some d) before after = Current os d before after

started-Matches :
    (os : Os) (d : RouteWithGateway) (after : Option RouteRuntime) (rt : RouteRuntime)
    → Started os d after
    → after ≡ some rt
    → Matches d rt
started-Matches os d none rt s e = cc
started-Matches os d (some q) rt s e = subst (Matches d) (same e) (Serves-Matches d q s)
  where
    same : some q ≡ some rt → q ≡ rt
    same h = cc

Settled-Current :
    (os : Os) (d : RouteWithGateway) (before after : Option RouteRuntime)
    → Renewed os (keeps d before) d before after
    → Current os d before after
Settled-Current os d none after h = record {
  untouched = λ rt e m. cc;
  as_asked = λ rt e. started-Matches os d after rt h e;
  origin = inr h;
}
Settled-Current os d (some q) after h = by_test (route_changed q d) refl h
  where
    same : (rt : RouteRuntime) → some q ≡ some rt → q ≡ rt
    same rt e = cc

    by_test :
        (b : Bool)
        → route_changed q d ≡ b
        → Renewed os (not b) d (some q) after
        → Current os d (some q) after
    by_test false e kept = record {
      untouched = λ rt f m. kept;
      as_asked = λ rt f. subst (Matches d) (same rt (sym kept ∙ f)) (route_changed-Matches q d e);
      origin = inl kept;
    }
    by_test true e started = record {
      untouched = λ rt f m.
          let unchanged = Matches-route_changed q d (subst (Matches d) (sym (same rt f)) m) in cc;
      as_asked = λ rt f. started-Matches os d after rt started f;
      origin = inr started;
    }

Settled-AsConfigured :
    (os : Os) (o : Option RouteWithGateway) (before after : Option RouteRuntime)
    → Settled os o before after
    → AsConfigured os o before after
Settled-AsConfigured os none before after h = h
Settled-AsConfigured os (some d) before after h = Settled-Current os d before after h

-- After a reconciliation of a forwarder that runs, in whatever order the map is visited: a route
-- that the configuration lacks does not run. A route that the configuration has, by its last entry
-- there, and that runs has the addresses, the ports, the protocol and the gateway of this entry; it
-- is not touched if it had them before. What there is for it is what there was before, or was started
-- from this entry with the listeners of its protocol, or nothing where the start has failed; the
-- start of a route over TCP, UDP or both does not fail if the system gives every listener.
pub reconcile-AsConfigured :
    (os : Os) (visit : List RouteWithGateway → List RouteWithGateway)
    (config : Option (List RouteWithGateway)) (f : Forwarder) (id : Uuid)
    → Visits visit
    → f.running ≡ true
    → AsConfigured os
        (configured os config id)
        (find_route id f.routes)
        (find_route id (reconcile os visit config f).1.routes)
reconcile-AsConfigured os visit config f id v on =
    Settled-AsConfigured os (configured os config id) (find_route id f.routes)
      (find_route id (reconcile os visit config f).1.routes)
      (reconcile-Settled os visit config f id v on)
