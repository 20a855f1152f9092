-- ===== src/Provisioning/Start.antt =====
-- internal/provisioning/provisioner.go: `startAction`, and the statements of
-- internal/storage/sqlite that it runs on nodes and jobs. A new row stands in front, which is the
-- order of `ORDER BY created_at DESC`. `GetNode` runs a second query, for the capabilities of the
-- node: the two are one call here.
pub mod Exclusion
use edgefabric.Prelude.{
  ℕ, Bool, true, false, ◌&&◌, Option, none, some, List, [], ◌∷◌, ◌==◌, if◌then◌else◌,
}
use edgefabric.Exec.{
  Error, Result, ok, err, not_found, conflict, already_exists, Exec, pure, raise, ◌>>=◌, ◌>>◌,
  require, Db, call, attempt, found,
}
use edgefabric.Domain.{Uuid}
use edgefabric.Domain.Node.{Node}
use edgefabric.Provisioning.Actions.{Action, JobStatus, Step, is_valid_transition, pipeline_for}
use edgefabric.Provisioning.Pipeline.{Job}

pub record Tables : Type 0 where
  pub nodes : List Node
  pub jobs : List Job

unfoldable pub find_node : Uuid → List Node → Option Node
find_node id [] = none
find_node id (n ∷ rest) = if n.id == id then some n else find_node id rest

-- `status IN ('pending', 'running')`
abbrev pub is_active : JobStatus → Bool
is_active JobStatus.pending = true
is_active JobStatus.running = true
is_active _ = false

unfoldable pub find_active : Uuid → List Job → Option Job
find_active node_id [] = none
find_active node_id (j ∷ rest) =
    if j.node_id == node_id && is_active j.status then some j else find_active node_id rest

unfoldable pub find_job : Uuid → List Job → Option Job
find_job id [] = none
find_job id (j ∷ rest) = if j.id == id then some j else find_job id rest

get_node : Uuid → Exec Tables Node
unfolding find_node
get_node id t = (found (find_node id t.nodes), t)

get_active_job : Uuid → Exec Tables Job
unfolding find_active
get_active_job node_id t = (found (find_active node_id t.jobs), t)

insert_job : Option Job → Job → Exec Tables (Unit {0})
insert_job none j t = (ok tt, record t { jobs = j ∷ t.jobs })
insert_job (some old) j t = (err already_exists, t)

-- The primary key of a new row must be free.
create_job : Job → Exec Tables (Unit {0})
unfolding insert_job find_job
create_job j t = insert_job (find_job j.id t.jobs) j t

-- What `startAction` makes of the answer to its query for an active job.
idle : Result Job → Exec (Db Tables) (Unit {0})
idle (ok j) = raise conflict
idle (err not_found) = pure tt
idle (err e) = raise e

check_idle : Uuid → Exec (Db Tables) (Unit {0})
unfolding idle get_active_job
check_idle node_id = do active ← attempt (call (get_active_job node_id)); idle active

-- `firstStep`, the empty text where the pipeline is empty.
abbrev pub first_step : List Step → Step
first_step [] = Step.other ""
first_step (s ∷ rest) = s

abbrev pub new_job : Uuid → Uuid → Uuid → Action → Node → Job
new_job id node_id initiated_by action node = record {
  id = id;
  node_id = node_id;
  tenant_id = node.tenant_id;
  action = action;
  status = JobStatus.pending;
  current_step = first_step (pipeline_for action);
  steps = [];
  error = none;
  initiated_by = initiated_by;
  started_at = none;
  completed_at = none;
}

-- `id` is the identifier that `NewID` drew. The result is what the background run is started with.
unfoldable pub start_action :
    Uuid → Uuid → Uuid → Action → Exec (Db Tables) (Job × Node × List Step)
unfolding get_node check_idle create_job
start_action id node_id initiated_by action = do
  node ← call (get_node node_id)
  require (is_valid_transition action node.status) conflict
  check_idle node_id
  let job = new_job id node_id initiated_by action node
  call (create_job job)
  pure (job, node, pipeline_for action)
