-- ===== src/Health/Targets.antt =====
-- The routes that the checker watches after its targets were replaced.
use edgefabric.Prelude.{
  ◌≡◌, refl, ◌∙◌, ap, true, false, ◌==◌, ==_iff, Bool-cases, inl, inr, Option, none, some, List, [],
  ◌∷◌, arith, if◌then◌else◌,
}
use edgefabric.Domain.{Uuid}
use edgefabric.Health.{Target, State, find_state, put_state, state_for, add_targets, update_targets}

-- The last of the targets for a route.
abbrev last_target : Uuid → List Target → Option Target
last_target id [] = none
last_target id (t ∷ targets) = elim (last_target id targets) [
  | some u ↦ some u
  | none ↦ if t.route_id == id then some t else none
]

-- A target with the health and the counters that its route had, or as healthy if it is new.
abbrev carried : Target → Option State → State
carried t none = record { target = t; healthy = true; consecutive_fail = 0; consecutive_ok = 0 }
carried t (some s) = record {
  target = t;
  healthy = s.healthy;
  consecutive_fail = s.consecutive_fail;
  consecutive_ok = s.consecutive_ok;
}

state_for-carried : (t : Target) (o : Option State) → state_for t o ≡ carried t o
state_for-carried t none = refl
state_for-carried t (some s) = refl

-- The last target of the route, with the old health or, for a route that was not there, a new one.
abbrev watched : Option Target → Option State → Option State → Option State
watched none old before = before
watched (some t) old before = some (carried t old)

find_state-put_state :
    (id : Uuid) (s : State) (l : List State)
    → find_state id (put_state s l) ≡ (if s.target.route_id == id then some s else find_state id l)
unfolding find_state put_state
find_state-put_state id s [] = refl
find_state-put_state id s (old ∷ l) = ground (arith, find_state-put_state id s l)

route_of_state_for : (t : Target) (o : Option State) → (state_for t o).target.route_id ≡ t.route_id
route_of_state_for t none = refl
route_of_state_for t (some s) = refl

add_targets-watched :
    (id : Uuid) (old : List State) (targets : List Target) (new : List State)
    → find_state id (add_targets old targets new)
      ≡ watched (last_target id targets) (find_state id old) (find_state id new)
unfolding add_targets
add_targets-watched id old [] new = refl
add_targets-watched id old (t ∷ targets) new =
    add_targets-watched id old targets (put_state s new) ∙ first (last_target id targets)
  where
    s : State
    s = state_for t (find_state t.route_id old)

    first :
        (o : Option Target)
        → watched o (find_state id old) (find_state id (put_state s new))
          ≡ watched
              (elim o [ some u ↦ some u | none ↦ if t.route_id == id then some t else none ])
              (find_state id old)
              (find_state id new)
    first (some u) = refl
    first none = elim (Bool-cases (t.route_id == id)) [
      | inl same ↦
          let here : (s.target.route_id == id) ≡ true =
            ap (λ x. x == id) (route_of_state_for t (find_state t.route_id old)) ∙ same in
          let e : t.route_id ≡ id = (==_iff t.route_id id).0 same in
          find_state-put_state id s new
          ∙ rw (here, same)
              (ap some (
                ap (λ x. state_for t (find_state x old)) e
                ∙ state_for-carried t (find_state id old)))
      | inr apart ↦
          let elsewhere : (s.target.route_id == id) ≡ false =
            ap (λ x. x == id) (route_of_state_for t (find_state t.route_id old)) ∙ apart in
          find_state-put_state id s new ∙ rw (elsewhere, apart) refl
    ]

-- After `UpdateTargets`, a route is watched exactly if it is among the targets: with the last of its
-- targets, and with the health and the counters that it had if it was watched before, and as
-- healthy with counters of 0 if not.
pub update_targets-watched :
    (id : Uuid) (targets : List Target) (old : List State)
    → find_state id (update_targets targets old)
      ≡ watched (last_target id targets) (find_state id old) none
unfolding update_targets find_state
update_targets-watched id targets old = add_targets-watched id old targets []
