-- ===== src/Provisioning/Lifecycle.antt =====
-- Where the jobs take a node: the transition table together with the pipeline that it guards.
use edgefabric.Prelude.{
  ◌≡◌, ◌≢◌, refl, sym, ◌∙◌, Bool, true, false, ◌||◌, Option, none, some, List, [], ◌∷◌, arith,
  if◌then◌else◌, Bool-cases, inl, inr,
}
use edgefabric.Domain.Node.{Node, NodeStatus}
use edgefabric.Provisioning.Actions.{
  Action, JobStatus, Step, step_eq, backup_binary, is_valid_transition, pipeline_for, status_after,
  should_rollback, rollback_loop,
}
use edgefabric.Provisioning.Pipeline.{Job, Outside}
use edgefabric.Provisioning.Pipeline.Run.{run_pipeline}
use edgefabric.Provisioning.Pipeline.Run.Saved.{run_pipeline-Ended}

abbrev pub is_decommission : Action → Bool
is_decommission Action.decommission = true
is_decommission _ = false

-- No action may start on a node that is decommissioned or being enrolled.
closed_states :
    (a : Action)
    → (is_valid_transition a NodeStatus.decommissioned ≡ false)
      × (is_valid_transition a NodeStatus.enrolling ≡ false)
unfolding is_valid_transition
closed_states Action.enroll = (refl, refl)
closed_states _ = (refl, refl)

module _ (o : Outside) where
  open o use {World}

  -- A job that was started legally leaves the node in a settled status: never in `enrolling`, and
  -- in `decommissioned` only if it is a decommission that completed.
  pub run_settles :
      (job : Job) (node : Node) (w : World)
      → is_valid_transition job.action node.status ≡ true
      → let q = run_pipeline o job node (pipeline_for job.action) w in
        (q.node.status ≢ NodeStatus.enrolling)
        × (q.node.status ≡ NodeStatus.decommissioned
            → (job.action ≡ Action.decommission) × (q.job.status ≡ JobStatus.completed))
  unfolding is_valid_transition status_after
  run_settles job node w h =
      ground (arith, run_pipeline-Ended o job node (pipeline_for job.action) w)

cons_part : Step → Option (List Step) → Option (List Step)
cons_part t none = none
cons_part t (some l) = some (t ∷ l)

-- The part of a pipeline up to the first occurrence of a step, with it.
pub up_to : Step → List Step → Option (List Step)
unfolding cons_part
up_to s [] = none
up_to s (t ∷ rest) = if step_eq t s then some (t ∷ []) else cons_part t (up_to s rest)

abbrev pub takes_backup : List Step → Bool
takes_backup [] = false
takes_backup (t ∷ l) = step_eq t backup_binary || takes_backup l

abbrev pub backup_in : Bool → Option (List Step) → Bool
backup_in seen none = false
backup_in seen (some l) = seen || takes_backup l

or_regroup : (seen b x : Bool) → (seen || (b || x)) ≡ ((if b then true else seen) || x)
or_regroup seen b x = ground arith

or_regroup_false : (seen b : Bool) → (if b then true else seen) ≡ (seen || (b || false))
or_regroup_false seen b = ground arith

backup_in-cons_part :
    (seen : Bool) (t : Step) (o : Option (List Step))
    → backup_in seen (cons_part t o) ≡ backup_in (if step_eq t backup_binary then true else seen) o
unfolding cons_part
backup_in-cons_part seen t none = refl
backup_in-cons_part seen t (some l) = or_regroup seen (step_eq t backup_binary) (takes_backup l)

rollback_loop-up_to :
    (seen : Bool) (steps : List Step) (s : Step)
    → rollback_loop seen steps s ≡ backup_in seen (up_to s steps)
unfolding rollback_loop up_to
rollback_loop-up_to seen [] s = refl
rollback_loop-up_to seen (t ∷ rest) s =
    let now : Bool = if step_eq t backup_binary then true else seen in
    elim (Bool-cases (step_eq t s)) [
      | inl e ↦ rw e (or_regroup_false seen (step_eq t backup_binary))
      | inr e ↦
          rw e (rollback_loop-up_to now rest s ∙ sym (backup_in-cons_part seen t (up_to s rest)))
    ]

-- `shouldRollback` holds of a step exactly if the pipeline has the step and takes the backup
-- before its first occurrence or at it: also where the backup itself is the step that failed.
pub should_rollback-up_to :
    (steps : List Step) (s : Step) → should_rollback steps s ≡ backup_in false (up_to s steps)
unfolding should_rollback
should_rollback-up_to steps s = rollback_loop-up_to false steps s
