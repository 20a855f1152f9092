-- ===== src/Provisioning/Actions.antt =====
-- internal/domain/provisioning.go and internal/provisioning/statemachine.go: the actions, the node
-- statuses from which each may start, and the steps that each runs.
use edgefabric.Prelude.{◌==◌, ℕ, String, Bool, true, false, List, [], ◌∷◌, str_eq, if◌then◌else◌}
use edgefabric.Domain.Node.{NodeStatus, status_eq}

pub data Action : Type 0 where
  enroll reprovision upgrade start stop restart decommission : Action
  other : String → Action

pub data JobStatus : Type 0 where
  pending running completed failed : JobStatus

pub data Step : Type 0 where
  validate_ssh upload_binary write_config install_systemd start_service generate_wg_keys : Step
  configure_wireguard wait_enrollment verify_online stop_service cleanup send_command : Step
  backup_binary atomic_swap rollback : Step
  other : String → Step

-- A number for each constant, to compare steps by.
abbrev step_index : Step → ℕ
step_index validate_ssh = 1
step_index upload_binary = 2
step_index write_config = 3
step_index install_systemd = 4
step_index start_service = 5
step_index generate_wg_keys = 6
step_index configure_wireguard = 7
step_index wait_enrollment = 8
step_index verify_online = 9
step_index stop_service = 10
step_index cleanup = 11
step_index send_command = 12
step_index backup_binary = 13
step_index atomic_swap = 14
step_index rollback = 15
step_index (Step.other s) = 0

abbrev pub step_eq : Step → Step → Bool
step_eq (Step.other s) (Step.other t) = str_eq s t
step_eq s t = step_index s == step_index t

-- `ValidActionStates`; an action that the map lacks has no state.
abbrev valid_action_states : Action → List NodeStatus
valid_action_states Action.enroll = NodeStatus.pending ∷ []
valid_action_states Action.start = NodeStatus.offline ∷ NodeStatus.error ∷ []
valid_action_states Action.stop = NodeStatus.online ∷ []
valid_action_states Action.restart = NodeStatus.online ∷ []
valid_action_states Action.upgrade = NodeStatus.online ∷ NodeStatus.offline ∷ []
valid_action_states Action.reprovision =
    NodeStatus.online ∷ NodeStatus.offline ∷ NodeStatus.error ∷ []
valid_action_states Action.decommission =
    NodeStatus.pending ∷ NodeStatus.online ∷ NodeStatus.offline ∷ NodeStatus.error ∷ []
valid_action_states (Action.other s) = []

-- The loop of `IsValidTransition`.
abbrev any_state : List NodeStatus → NodeStatus → Bool
any_state [] current = false
any_state (s ∷ rest) current = if status_eq s current then true else any_state rest current

unfoldable pub is_valid_transition : Action → NodeStatus → Bool
is_valid_transition action current = any_state (valid_action_states action) current

unfoldable pub pipeline_for : Action → List Step
pipeline_for Action.enroll =
    validate_ssh ∷ upload_binary ∷ write_config ∷ install_systemd ∷ start_service ∷ generate_wg_keys
    ∷ configure_wireguard ∷ wait_enrollment ∷ verify_online ∷ []
pipeline_for Action.upgrade =
    validate_ssh ∷ backup_binary ∷ upload_binary ∷ stop_service ∷ atomic_swap ∷ start_service
    ∷ verify_online ∷ []
pipeline_for Action.start = send_command ∷ []
pipeline_for Action.stop = send_command ∷ []
pipeline_for Action.restart = send_command ∷ []
pipeline_for Action.reprovision =
    validate_ssh ∷ upload_binary ∷ write_config ∷ install_systemd ∷ start_service ∷ generate_wg_keys
    ∷ configure_wireguard ∷ wait_enrollment ∷ verify_online ∷ []
pipeline_for Action.decommission = send_command ∷ cleanup ∷ []
pipeline_for (Action.other s) = []

-- The loop of `shouldRollback`, with its variable `backupSeen`.
unfoldable pub rollback_loop : Bool → List Step → Step → Bool
rollback_loop backup_seen [] failed_step = false
rollback_loop backup_seen (s ∷ rest) failed_step =
    let seen = if step_eq s backup_binary then true else backup_seen in
    if step_eq s failed_step then seen else rollback_loop seen rest failed_step

unfoldable pub should_rollback : List Step → Step → Bool
unfolding rollback_loop
should_rollback steps failed_step = rollback_loop false steps failed_step

-- The switch of `updateNodeStatusAfterCompletion`.
unfoldable pub status_after : Action → NodeStatus → NodeStatus
status_after Action.enroll s = NodeStatus.online
status_after Action.start s = NodeStatus.online
status_after Action.restart s = NodeStatus.online
status_after Action.upgrade s = NodeStatus.online
status_after Action.reprovision s = NodeStatus.online
status_after Action.stop s = NodeStatus.offline
status_after Action.decommission s = NodeStatus.decommissioned
status_after (Action.other a) s = s
