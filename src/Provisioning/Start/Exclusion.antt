-- ===== src/Provisioning/Start/Exclusion.antt =====
-- What a start requires of a node, and what it adds.
use edgefabric.Prelude.{
  ℕ, ◌≤◌, suc, ◌≡◌, refl, ap, true, ◌&&◌, none, some, List, [], ◌∷◌, ◌==◌, arith, if◌then◌else◌,
}
use edgefabric.Exec.{Error, Result, ok, err, Db}
use edgefabric.Domain.{Uuid}
use edgefabric.Domain.Node.{Node}
use edgefabric.Provisioning.Actions.{Action, Step, is_valid_transition, pipeline_for}
use edgefabric.Provisioning.Pipeline.{Job}
use edgefabric.Provisioning.Start.{Tables, find_node, find_active, is_active, start_action}

unfoldable pub active_jobs : Uuid → List Job → ℕ
active_jobs node_id [] = 0
active_jobs node_id (j ∷ rest) =
    if j.node_id == node_id && is_active j.status
    then suc (active_jobs node_id rest)
    else active_jobs node_id rest

active_jobs_of_none : (n : Uuid) (l : List Job) → find_active n l ≡ none → active_jobs n l ≡ 0
unfolding active_jobs find_active
active_jobs_of_none n [] h = refl
active_jobs_of_none n (j ∷ l) h = ground (arith, active_jobs_of_none n l)

-- No node has two jobs that are pending or running.
pub record OneActive (t : Tables) : Type 0 where
  pub at : (node_id : Uuid) → active_jobs node_id t.jobs ≤ 1

-- A successful start, whatever calls of the driver fail: the node and the action were legal, the
-- node had no active job, and the new pending job is the one row that was added.
pub record Started (action : Action) (node_id : Uuid) (t u : Tables) (job : Job) (node : Node)
    (steps : List Step) : Type 0 where
  pub legal : is_valid_transition action node.status ≡ true
  pub is_node : find_node node_id t.nodes ≡ some node
  pub was_idle : active_jobs node_id t.jobs ≡ 0
  pub added : u ≡ record t { jobs = job ∷ t.jobs }
  pub job_node : job.node_id ≡ node_id
  pub job_action : job.action ≡ action
  pub job_active : is_active job.status ≡ true
  pub job_steps : steps ≡ pipeline_for action

-- `startAction` returns a job only for an existing node, in a status from which the action may
-- start, that had no pending or running job; the job is pending, is about that node and action, and
-- is the one row that was added. This holds whichever calls the database driver fails.
pub start_ok :
    (id node_id by : Uuid) (action : Action) (db : Db Tables) {job : Job} {node : Node}
    {steps : List Step}
    → (start_action id node_id by action db).0 ≡ ok (job, node, steps)
    → Started action node_id db.tables
        (start_action id node_id by action db).1.tables
        job
        node
        steps
unfolding start_action
start_ok id node_id by action db h = ground (arith, active_jobs_of_none node_id db.tables.jobs)

-- If `startAction` returns an error, whichever it is, the nodes and the jobs are as they were.
pub start_err :
    (id node_id by : Uuid) (action : Action) (db : Db Tables) {e : Error}
    → (start_action id node_id by action db).0 ≡ err e
    → (start_action id node_id by action db).1.tables ≡ db.tables
unfolding start_action
start_err id node_id by action db h = ground arith

active_jobs-Started :
    {action : Action} {node_id : Uuid} {t u : Tables} {job : Job} {node : Node} {steps : List Step}
    (other : Uuid)
    → Started action node_id t u job node steps
    → active_jobs other t.jobs ≤ 1
    → active_jobs other u.jobs ≤ 1
unfolding active_jobs
active_jobs-Started {t = t} {u = u} {job = job} other s h =
    let grown : u.jobs ≡ job ∷ t.jobs = ap (λ (x : Tables). x.jobs) s.added in
    rw grown (ground (arith, s.was_idle, s.job_node))

-- Starts keep the rule that no node has two jobs that are pending or running.
pub start_action-OneActive :
    (id node_id by : Uuid) (action : Action) (db : Db Tables)
    → OneActive db.tables
    → OneActive (start_action id node_id by action db).1.tables
start_action-OneActive id node_id by action db inv =
    go (start_action id node_id by action db).0 refl
  where
    go :
        (r : Result (Job × Node × List Step))
        → (start_action id node_id by action db).0 ≡ r
        → OneActive (start_action id node_id by action db).1.tables
    go (err e) h = rw (start_err id node_id by action db h) inv
    go (ok (job, node, steps)) h = record {
      at = λ other. active_jobs-Started other (start_ok id node_id by action db h) (inv.at other);
    }
