-- ===== src/Health.antt =====
-- internal/routeserver/health.go: the probes of the destinations of routes. The dialer is the
-- parameter `probe`, which says whether a connection was made.
pub mod Streaks
pub mod Targets
pub mod Origins
use edgefabric.Prelude.{
  ℕ, ◌+◌, String, Bool, true, false, not, ◌&&◌, ◌||◌, ◌==◌, leb, str_eq, Option, none, some, List,
  [], ◌∷◌, ◌++◌, if◌then◌else◌,
}
use edgefabric.Prelude.Int.{ℤ, is_zero}
use edgefabric.Domain.{Uuid}
use edgefabric.Route.Types.{Protocol}

pub record Config : Type 0 where
  pub unhealthy_threshold : ℤ
  pub healthy_threshold : ℤ

abbrev pub default_config : Config
default_config = record { unhealthy_threshold = ℤ.pos 3; healthy_threshold = ℤ.pos 1 }

pub record Target : Type 0 where
  pub route_id : Uuid
  pub route_name : String
  pub protocol : Protocol
  pub gateway_wgip : String
  pub entry_port : ℤ

pub record State : Type 0 where
  pub target : Target
  pub healthy : Bool
  pub consecutive_fail : ℕ
  pub consecutive_ok : ℕ

pub data EventType : Type 0 where
  check_failed check_recovered : EventType

pub record Event : Type 0 where
  pub event_type : EventType
  pub about : Target

-- `n >= z`
abbrev pub reaches : ℕ → ℤ → Bool
reaches n (ℤ.pos m) = leb m n
reaches n (ℤ.negsuc m) = true

abbrev pub new_state : Target → State
new_state t = record { target = t; healthy = true; consecutive_fail = 0; consecutive_ok = 0 }

module _ (c : Config) where
  -- The counters and the verdict.
  unfoldable pub count_result : Bool → State → State
  count_result true s =
      let n = s.consecutive_ok + 1 in
      record s {
        consecutive_ok = n;
        consecutive_fail = 0;
        healthy = if reaches n c.healthy_threshold then true else s.healthy;
      }
  count_result false s =
      let n = s.consecutive_fail + 1 in
      record s {
        consecutive_fail = n;
        consecutive_ok = 0;
        healthy = if reaches n c.unhealthy_threshold then false else s.healthy;
      }

  -- An event for a change of the verdict.
  abbrev pub event_of : Target → Bool → Bool → List Event
  event_of t true false = record { event_type = check_failed; about = t } ∷ []
  event_of t false true = record { event_type = check_recovered; about = t } ∷ []
  event_of t _ _ = []

  -- The state and the events that are published.
  unfoldable pub mark_result : Bool → State → State × List Event
  unfolding count_result
  mark_result success s =
      let u = count_result success s in (u, event_of s.target s.healthy u.healthy)

  abbrev is_tcp : Protocol → Bool
  is_tcp Protocol.tcp = true
  is_tcp _ = false

  -- Only TCP is probed.
  unfoldable pub check_route : (Target → Bool) → State → State × List Event
  unfolding mark_result
  check_route probe s =
      let t = s.target in
      if not (is_tcp t.protocol) || (is_zero t.entry_port || str_eq t.gateway_wgip "")
      then (s, [])
      else mark_result (probe t) s

  -- One pass over the routes, and the events in their order.
  unfoldable pub check_all : (Target → Bool) → List State → List State × List Event
  unfolding check_route
  check_all probe [] = ([], [])
  check_all probe (s ∷ states) =
      let (u, here) = check_route probe s in
      let (rest, later) = check_all probe states in (u ∷ rest, here ++ later)

-- The map of the checker, by the identifiers of the routes.
unfoldable pub find_state : Uuid → List State → Option State
find_state id [] = none
find_state id (s ∷ rest) = if s.target.route_id == id then some s else find_state id rest

-- `newRoutes[id] = …`
unfoldable pub put_state : State → List State → List State
put_state s [] = s ∷ []
put_state s (old ∷ rest) =
    if old.target.route_id == s.target.route_id then s ∷ rest else old ∷ put_state s rest

-- The state of a route that stays is kept, with its new target.
abbrev pub state_for : Target → Option State → State
state_for t none = new_state t
state_for t (some s) = record s { target = t }

unfoldable pub add_targets : List State → List Target → List State → List State
add_targets old [] new = new
add_targets old (t ∷ targets) new =
    add_targets old targets (put_state (state_for t (find_state t.route_id old)) new)

unfoldable pub update_targets : List Target → List State → List State
unfolding add_targets
update_targets targets old = add_targets old targets []

abbrev healthy_of : Option State → Bool
healthy_of none = false
healthy_of (some s) = s.healthy

unfoldable pub is_route_healthy : Uuid → List State → Bool
is_route_healthy id states = healthy_of (find_state id states)
