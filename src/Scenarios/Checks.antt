-- ===== src/Scenarios/Checks.antt =====
-- Runs of the health checkers.
use edgefabric.Prelude.{◌≡◌, refl, true, false, some, [], ◌∷◌}
use edgefabric.Prelude.Int.{ℤ}
use edgefabric.Route.Types.{Protocol}
use edgefabric.Health.{
  default_config, Target, State, find_state, put_state, add_targets, update_targets,
}
use edgefabric.Health.Streaks.{after, Tracked, repeat, mark_result-Tracked, mark_result_settles}
use edgefabric.Health.Targets.{update_targets-watched}
use edgefabric.Health.Origins.{OriginHealth}

abbrev target : Target
target = record {
  route_id = 4;
  route_name = "web";
  protocol = Protocol.tcp;
  gateway_wgip = "10.100.0.2";
  entry_port = ℤ.pos 443;
}

abbrev moved : Target
moved = record target { gateway_wgip = "10.100.0.3" }

mark_result-Tracked_example :
    Tracked default_config target
      (true ∷ false ∷ false ∷ false ∷ [])
      (after default_config target (true ∷ false ∷ false ∷ false ∷ [])).0
mark_result-Tracked_example =
    mark_result-Tracked default_config target (true ∷ false ∷ false ∷ false ∷ [])

mark_result_settles_example :
    (after default_config target (repeat 3 false (true ∷ []))).0.healthy ≡ false
mark_result_settles_example = mark_result_settles default_config target false 2 (true ∷ []) refl

abbrev unhealthy : State
unhealthy = record { target = target; healthy = false; consecutive_fail = 5; consecutive_ok = 0 }

update_targets-watched_example :
    find_state 4 (update_targets (moved ∷ []) (unhealthy ∷ []))
    ≡ some (record { target = moved; healthy = false; consecutive_fail = 5; consecutive_ok = 0 })
unfolding find_state
update_targets-watched_example = update_targets-watched 4 (moved ∷ []) (unhealthy ∷ [])

kept :
    find_state 4 (update_targets (moved ∷ []) (unhealthy ∷ []))
    ≡ some (record unhealthy { target = moved })
unfolding find_state update_targets add_targets put_state
kept = refl

abbrev origin : OriginHealth
origin = record {
  origin = record { scheme = ""; address = "192.0.2.1"; health_check_path = "" };
  healthy = true;
  consecutive_fail = 0;
  consecutive_ok = 0;
}
