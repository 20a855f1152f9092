-- ===== src/Scenarios/Jobs.antt =====
-- Runs and instances for the provisioning jobs, with a clock that counts the steps.
use edgefabric.Prelude.{ℕ, ◌+◌, ◌≡◌, refl, true, false, none, some, [], ◌∷◌, arith}
use edgefabric.Prelude.Int.{ℤ}
use edgefabric.Exec.{Db, ok, err, conflict, unavailable}
use edgefabric.Domain.Node.{Node, NodeStatus}
use edgefabric.Provisioning.Actions.{
  Action, Step, is_valid_transition, pipeline_for, atomic_swap, backup_binary,
}
use edgefabric.Provisioning.Pipeline.{Job, StepOutcome, Outside}
use edgefabric.Provisioning.Pipeline.Run.{run_pipeline}
use edgefabric.Provisioning.Pipeline.Run.Report.{Report, run_pipeline-Report}
use edgefabric.Provisioning.Pipeline.Run.Saved.{Ended, run_pipeline-Ended}
use edgefabric.Provisioning.Start.{Tables, start_action, new_job}
use edgefabric.Provisioning.Start.Exclusion.{active_jobs, OneActive, start_action-OneActive}

abbrev done : StepOutcome
done = record { output = "done"; error = none; overlay = none }

abbrev broken : StepOutcome
broken = record { output = ""; error = some "no space left"; overlay = none }

-- Every step succeeds, but the swap of the binaries does not.
abbrev swap_of : Step → StepOutcome
swap_of atomic_swap = broken
swap_of _ = done

abbrev swap_fails : Outside
swap_fails = record {
  World = ℕ;
  now = λ w. w;
  execute_step = λ s job node w. (swap_of s, w + 1);
  step_rollback = λ node w. (done, w + 1);
}

abbrev node : Node
node = record {
  id = 5;
  tenant_id = some 7;
  name = "edge-1";
  hostname = "edge-1.example.com";
  public_ip = "192.0.2.1";
  wireguard_ip = "";
  wireguard_ipv6 = "";
  status = NodeStatus.online;
  region = "";
  provider = "";
  ssh_port = ℤ.pos 22;
  ssh_user = "root";
  ssh_key_id = none;
}

abbrev upgrade : Job
upgrade = new_job 20 5 1 Action.upgrade node

abbrev idle_node : Db Tables
idle_node = record { tables = record { nodes = node ∷ []; jobs = [] }; faults = [] }

-- The insertion of the job fails.
abbrev insert_fails : Db Tables
insert_fails = record idle_node { faults = false ∷ false ∷ true ∷ [] }

idle_node-OneActive : OneActive idle_node.tables
unfolding active_jobs
idle_node-OneActive = record { at = λ n. omega arith }

abbrev busy_node : Db Tables
busy_node = record idle_node { tables = record { nodes = node ∷ []; jobs = upgrade ∷ [] } }

upgrade_starts :
    (start_action 20 5 1 Action.upgrade idle_node).0
    ≡ ok (upgrade, node, pipeline_for Action.upgrade)
unfolding start_action is_valid_transition
upgrade_starts = refl

second_start_rejected : (start_action 21 5 1 Action.stop busy_node).0 ≡ err conflict
unfolding start_action is_valid_transition
second_start_rejected = refl

insert_error : (start_action 20 5 1 Action.upgrade insert_fails).0 ≡ err unavailable
unfolding start_action is_valid_transition
insert_error = refl

upgrade_fails :
    (run_pipeline swap_fails upgrade node (backup_binary ∷ atomic_swap ∷ []) 0).job.error
    ≡ some (atomic_swap, "no space left")
unfolding run_pipeline
upgrade_fails = refl

run_pipeline-Report_example :
    Report
      (pipeline_for Action.upgrade)
      (pipeline_for Action.upgrade)
      Action.upgrade
      []
      (run_pipeline swap_fails upgrade node (pipeline_for Action.upgrade) 0).job
run_pipeline-Report_example =
    run_pipeline-Report swap_fails upgrade node (pipeline_for Action.upgrade) 0

run_pipeline-Ended_example :
    Ended swap_fails upgrade NodeStatus.online
      (run_pipeline swap_fails upgrade node (pipeline_for Action.upgrade) 0)
run_pipeline-Ended_example =
    run_pipeline-Ended swap_fails upgrade node (pipeline_for Action.upgrade) 0

start_action-OneActive_example : OneActive (start_action 20 5 1 Action.upgrade idle_node).1.tables
start_action-OneActive_example =
    start_action-OneActive 20 5 1 Action.upgrade idle_node idle_node-OneActive

upgrade_legal : is_valid_transition Action.upgrade NodeStatus.online ≡ true
unfolding is_valid_transition
upgrade_legal = refl
