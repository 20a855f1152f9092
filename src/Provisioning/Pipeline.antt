-- ===== src/Provisioning/Pipeline.antt =====
-- internal/provisioning/provisioner.go: `runPipeline` and the helpers that it calls.
-- The remote commands of the steps, SSH and the clock are the parameter `Outside`.
pub mod Run
use edgefabric.Prelude.{
  ℕ, ◌-◌, String, Bool, true, false, ◌&&◌, Option, none, some, List, [], ◌∷◌, ◌++◌, if◌then◌else◌,
}
use edgefabric.Domain.{Uuid}
use edgefabric.Domain.Node.{NodeStatus, Node}
use edgefabric.Provisioning.Actions.{
  Action, JobStatus, Step, running, completed, failed, rollback, should_rollback, status_after,
}

pub data StepStatus : Type 0 where
  success failure : StepStatus

-- `error` is none for Go's empty text. Durations are in milliseconds, as times are here.
pub record StepResult : Type 0 where
  pub step : Step
  pub status : StepStatus
  pub output : String
  pub error : Option String
  pub started_at : ℕ
  pub duration_ms : ℕ

-- `steps` is the list whose JSON the source stores; `error` has the step and the text that the
-- source prints into one message.
pub record Job : Type 0 where
  pub id : Uuid
  pub node_id : Uuid
  pub tenant_id : Option Uuid
  pub action : Action
  pub status : JobStatus
  pub current_step : Step
  pub steps : List StepResult
  pub error : Option (Step × String)
  pub initiated_by : Uuid
  pub started_at : Option ℕ
  pub completed_at : Option ℕ

-- What a step returns: its output, its error, and the overlay addresses that it wrote into the
-- node (only `stepGenerateWGKeys` does; the IPv6 address only if one is configured).
pub record StepOutcome : Type 0 where
  pub output : String
  pub error : Option String
  pub overlay : Option (String × Option String)

pub record Outside : Type 1 where
  pub World : Type 0
  pub now : World → ℕ
  pub execute_step : Step → Job → Node → World → StepOutcome × World
  pub step_rollback : Node → World → StepOutcome × World

-- What the pipeline writes to the database, in order. It ignores the errors of these writes.
pub data Write : Type 0 where
  job_saved : Job → Write
  node_saved : Node → Write

pub record Progress (W : Type 0) : Type 0 where
  pub job : Job
  pub node : Node
  pub results : List StepResult
  pub writes : List Write
  pub world : W

abbrev pub is_enroll : Action → Bool
is_enroll Action.enroll = true
is_enroll _ = false

abbrev pub is_upgrade : Action → Bool
is_upgrade Action.upgrade = true
is_upgrade _ = false

assign_overlay : Option (String × Option String) → Node → Node
assign_overlay none n = n
assign_overlay (some (ip, none)) n = record n { wireguard_ip = ip }
assign_overlay (some (ip, some ip6)) n = record n { wireguard_ip = ip; wireguard_ipv6 = ip6 }

abbrev status_of : Option String → StepStatus
status_of none = success
status_of (some e) = failure

module _ {W : Type 0} where
  save_job : Progress W → Progress W
  save_job p = record p { writes = p.writes ++ job_saved p.job ∷ [] }

  save_node : Progress W → Progress W
  save_node p = record p { writes = p.writes ++ node_saved p.node ∷ [] }

  set_node_status : NodeStatus → Progress W → Progress W
  unfolding save_node
  set_node_status status p = save_node (record p { node = record p.node { status = status } })
