-- ===== src/RouteServer/Accounts.antt =====
-- Sockets that are open and runtimes that own them, and what the parts of a start do to both.
use edgefabric.Prelude.{
  ℕ, ◌+◌, ◌-◌, ◌≡◌, refl, ap, ◌∙◌, subst, inl, inr, Bool, Bool-cases, true, false, not, ◌==◌,
  ==_iff, Option, none, some, List, [], ◌∷◌, if◌then◌else◌, arith,
}
use edgefabric.Domain.{Uuid}
use edgefabric.Route.Types.{RouteWithGateway}
use edgefabric.RouteServer.{with_tcp, with_udp, with_second}
use edgefabric.RouteServer.Types.{
  Socket, Os, RouteRuntime, Forwarder, close, close_ptr, stop_route, find_route, delete_route,
  IcmpRoute, new_forwarder, register_icmp,
}

-- How often a handle occurs.
abbrev pub opened : ℕ → List Socket → ℕ
opened h [] = 0
opened h (s ∷ ss) = (if s.handle == h then 1 else 0) + opened h ss

abbrev pub owns_ptr : ℕ → Option ℕ → ℕ
owns_ptr h none = 0
owns_ptr h (some k) = if k == h then 1 else 0

abbrev pub owned_by : ℕ → RouteRuntime → ℕ
owned_by h rt = owns_ptr h rt.tcp_listener + owns_ptr h rt.udp_conn

abbrev pub owned : ℕ → List RouteRuntime → ℕ
owned h [] = 0
owned h (rt ∷ rts) = owned_by h rt + owned h rts

abbrev pub UniqueRoutes : List RouteRuntime → Type 0
UniqueRoutes [] = Unit
UniqueRoutes (rt ∷ rts) = (find_route rt.route.id rts ≡ none) × UniqueRoutes rts

-- One runtime for each route, and of each handle as many sockets are open as the runtimes own and
-- as were open, `before h`, without them.
pub record Accounted (before : ℕ → ℕ) (f : Forwarder) : Type 0 where
  pub accounts : (h : ℕ) → opened h f.sockets ≡ owned h f.routes + before h
  pub unique : UniqueRoutes f.routes

pub ==_self : (a : ℕ) → (a == a) ≡ true
==_self a = ground arith

-- `if !s.running { return err }`
pub if_running :
    (P : Bool × Forwarder → Type 0) (on : Bool) {x y : Bool × Forwarder}
    → (on ≡ false → P x)
    → (on ≡ true → P y)
    → P (if not on then x else y)
if_running P true f g = g refl
if_running P false f g = f refl

opened-close :
    (h k : ℕ) (ss : List Socket) → opened h (close k ss) ≡ opened h ss - owns_ptr h (some k)
unfolding close
opened-close h k [] = ground arith
opened-close h k (s ∷ ss) =
    ground (arith, opened-close h k ss, ==_iff s.handle k, ==_iff s.handle h)

pub opened-stop_route :
    (h : ℕ) (rt : RouteRuntime) (ss : List Socket)
    → opened h (stop_route rt ss) ≡ opened h ss - owned_by h rt
opened-stop_route h rt ss = closed rt.tcp_listener rt.udp_conn
  where
    closed :
        (t u : Option ℕ)
        → opened h (close_ptr u (close_ptr t ss)) ≡ opened h ss - (owns_ptr h t + owns_ptr h u)
    closed none none = omega arith
    closed (some a) none = omega (arith, opened-close h a ss)
    closed none (some b) = omega (arith, opened-close h b ss)
    closed (some a) (some b) = omega (arith, opened-close h a ss, opened-close h b (close a ss))

pub find-delete_route :
    (id j : Uuid) (rts : List RouteRuntime)
    → find_route j (delete_route id rts) ≡ (if id == j then none else find_route j rts)
unfolding find_route delete_route
find-delete_route id j [] = ground arith
find-delete_route id j (rt ∷ rts) =
    ground
      (arith, find-delete_route id j rts, ==_iff rt.route.id id, ==_iff rt.route.id j, ==_iff id j)

delete_absent :
    (id : Uuid) (rts : List RouteRuntime) → find_route id rts ≡ none → delete_route id rts ≡ rts
unfolding find_route delete_route
delete_absent id [] e = refl
delete_absent id (rt ∷ rts) e = ground (arith, delete_absent id rts)

pub UniqueRoutes-delete_route :
    (id : Uuid) (rts : List RouteRuntime) → UniqueRoutes rts → UniqueRoutes (delete_route id rts)
unfolding delete_route
UniqueRoutes-delete_route id [] u = tt
UniqueRoutes-delete_route id (rt ∷ rts) (n, u) = elim (Bool-cases (rt.route.id == id)) [
  | inl e ↦ rw e (UniqueRoutes-delete_route id rts u)
  | inr e ↦ rw e (
    find-delete_route id rt.route.id rts ∙ rw n (ground arith),
    UniqueRoutes-delete_route id rts u,
  )
]

pub owned-delete_route :
    (h : ℕ) (id : Uuid) (rts : List RouteRuntime) (rt : RouteRuntime)
    → UniqueRoutes rts
    → find_route id rts ≡ some rt
    → owned h rts ≡ owned_by h rt + owned h (delete_route id rts)
unfolding find_route delete_route
owned-delete_route h id [] rt u e = cc
owned-delete_route h id (q ∷ rts) rt (n, u) e = elim (Bool-cases (q.route.id == id)) [
  | inl same ↦
      let absent : find_route id rts ≡ none =
        subst (λ j. find_route j rts ≡ none) ((==_iff q.route.id id).0 same) n in
      rw (same, delete_absent id rts absent) (ap (λ r. owned_by h r + owned h rts) (first same e))
  | inr other ↦ rw other (omega (arith, owned-delete_route h id rts rt u (later other e)))
]
  where
    first :
        (q.route.id == id) ≡ true
        → (if q.route.id == id then some q else find_route id rts) ≡ some rt
        → q ≡ rt
    first s e = ground arith

    later :
        (q.route.id == id) ≡ false
        → (if q.route.id == id then some q else find_route id rts) ≡ some rt
        → find_route id rts ≡ some rt
    later s e = ground arith

-- What a start opens, the new runtime owns; a start that fails leaves nothing open.
abbrev pub Opens : RouteWithGateway → Forwarder → Option RouteRuntime × Forwarder → Type 0
Opens d f (none, g) = ((h : ℕ) → opened h g.sockets ≡ opened h f.sockets) × (g.routes ≡ f.routes)
Opens d f (some rt, g) =
    ((h : ℕ) → opened h g.sockets ≡ owned_by h rt + opened h f.sockets)
    × (g.routes ≡ f.routes)
    × (rt.route ≡ d.route)
    × (rt.gateway_wgip ≡ d.gateway_wg_ip)

abbrev pub Listens : Forwarder → Option ℕ × Forwarder → Type 0
Listens f (none, g) = ((h : ℕ) → opened h g.sockets ≡ opened h f.sockets) × (g.routes ≡ f.routes)
Listens f (some k, g) =
    ((h : ℕ) → opened h g.sockets ≡ owns_ptr h (some k) + opened h f.sockets)
    × (g.routes ≡ f.routes)

pub with_tcp-Opens :
    (os : Os) (d : RouteWithGateway) (f : Forwarder) (r : Option ℕ × Forwarder)
    → Listens f r
    → Opens d f (with_tcp os d r)
with_tcp-Opens os d f (none, g) h = h
with_tcp-Opens os d f (some k, g) (a, b) = (λ h. omega (arith, a h), b, refl, refl)

pub with_udp-Opens :
    (os : Os) (d : RouteWithGateway) (f : Forwarder) (r : Option ℕ × Forwarder)
    → Listens f r
    → Opens d f (with_udp os d r)
with_udp-Opens os d f (none, g) h = h
with_udp-Opens os d f (some k, g) (a, b) = (λ h. omega (arith, a h), b, refl, refl)

pub with_second-Opens :
    (os : Os) (d : RouteWithGateway) (f g : Forwarder) (k : ℕ) (r : Option ℕ × Forwarder)
    → Listens f (some k, g)
    → Listens g r
    → Opens d f (with_second os d k r)
with_second-Opens os d f g k (none, e) (a, b) (c, l) =
    (λ h. omega (arith, opened-close h k e.sockets, c h, a h), l ∙ b)
with_second-Opens os d f g k (some m, e) (a, b) (c, l) =
    (λ h. omega (arith, c h, a h), l ∙ b, refl, refl)

pub register_icmp-Opens :
    (d : RouteWithGateway) (o : Option (List IcmpRoute)) (f : Forwarder)
    → Opens d f (register_icmp d o f)
register_icmp-Opens d none f = (λ h. refl, refl)
register_icmp-Opens d (some table) f = (λ h. omega arith, refl, refl, refl)

pub new-Accounted :
    (sockets : List Socket) (next : ℕ)
    → Accounted (λ h. opened h sockets) (new_forwarder sockets next)
new-Accounted sockets next = record { accounts = λ h. omega arith; unique = tt }
