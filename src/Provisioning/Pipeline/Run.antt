-- ===== src/Provisioning/Pipeline/Run.antt =====
-- internal/provisioning/provisioner.go: the loop of `runPipeline`, one function for each part.
pub mod Report
pub mod Saved
use edgefabric.Prelude.{
  ℕ, ◌-◌, String, Bool, true, false, ◌&&◌, Option, none, some, List, [], ◌∷◌, ◌++◌, if◌then◌else◌,
}
use edgefabric.Domain.Node.{NodeStatus, Node}
use edgefabric.Provisioning.Actions.{
  Action, JobStatus, Step, running, completed, failed, rollback, should_rollback, status_after,
}
use edgefabric.Provisioning.Pipeline.{
  StepStatus, StepResult, Job, StepOutcome, Outside, Progress, is_enroll, is_upgrade,
  assign_overlay, status_of, save_job, set_node_status,
}

-- `if test { node.Status = status; UpdateNode }`
pub set_if : {W : Type 0} → Bool → NodeStatus → Progress W → Progress W
unfolding set_node_status
set_if true status p = set_node_status status p
set_if false status p = p

module _ (o : Outside) where
  open o use {World, now, execute_step, step_rollback}

  -- Up to the loop: the job is running, and the node enrolling if it is being enrolled.
  begin : Job → Node → World → Progress World
  unfolding save_job set_if
  begin job node w =
      let started = save_job (record {
        job = record job { status = running; started_at = some (now w) };
        node = node;
        results = [];
        writes = [];
        world = w;
      }) in
      set_if (is_enroll job.action) NodeStatus.enrolling started

  -- The head of the loop's body: the job with the step that starts and the results so far.
  enter : Step → Progress World → Progress World
  unfolding save_job
  enter s p = save_job (record p { job = record p.job { current_step = s; steps = p.results } })

  -- A step is executed, and its result recorded.
  record_result : Step → ℕ → StepOutcome → World → Progress World → Progress World
  unfolding assign_overlay
  record_result s start out w p = record p {
    node = assign_overlay out.overlay p.node;
    results =
        p.results
        ++ record {
          step = s;
          status = status_of out.error;
          output = out.output;
          error = out.error;
          started_at = start;
          duration_ms = now w - start;
        }
          ∷ [];
    world = w;
  }

  attempt_rollback : Progress World → Progress World
  attempt_rollback p =
      let (out, w) = step_rollback p.node p.world in
      record p {
        results =
            p.results
            ++ record {
              step = rollback;
              status = status_of out.error;
              output = out.output;
              error = out.error;
              started_at = now p.world;
              duration_ms = now w - now p.world;
            }
              ∷ [];
        world = w;
      }

  finish : JobStatus → Option (Step × String) → Progress World → Progress World
  unfolding save_job
  finish status error p = save_job (record p {
    job = record p.job {
      status = status;
      error = error;
      completed_at = some (now p.world);
      steps = p.results;
    };
  })

  rollback_if : Bool → Progress World → Progress World
  unfolding attempt_rollback
  rollback_if true p = attempt_rollback p
  rollback_if false p = p

  -- A failed step: a rollback if an upgrade may need one, the failed job, and the node's error.
  fail : List Step → Step → String → Progress World → Progress World
  unfolding rollback_if finish set_if
  fail steps s e p =
      let tried = rollback_if (is_upgrade p.job.action && should_rollback steps s) p in
      set_if (is_enroll p.job.action) NodeStatus.error (finish failed (some (s, e)) tried)

  -- After the loop. `job.Error` keeps what it had.
  complete : Progress World → Progress World
  unfolding finish set_node_status
  complete p =
      let done = finish completed p.job.error p in
      set_node_status (status_after p.job.action p.node.status) done

  outcome_of : Step → Progress World → StepOutcome × World
  outcome_of s p = let q = enter s p in execute_step s q.job q.node q.world

  -- The progress after one step, whatever it returned.
  result_of : Step → Progress World → Progress World
  unfolding enter record_result outcome_of
  result_of s p = let (out, w) = outcome_of s p in record_result s (now p.world) out w (enter s p)

  -- The loop over the steps that are left of `steps`.
  run_steps : List Step → List Step → Progress World → Progress World
  unfolding result_of outcome_of
  run_steps steps [] p = complete p
  run_steps steps (s ∷ rest) p =
      let r = result_of s p in
      elim (outcome_of s p).0.error [ none ↦ run_steps steps rest r | some e ↦ fail steps s e r ]

  unfoldable pub run_pipeline : Job → Node → List Step → World → Progress World
  unfolding begin run_steps complete fail
  run_pipeline job node steps w = run_steps steps steps (begin job node w)
