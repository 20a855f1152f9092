-- ===== src/Provisioning/Pipeline/Run/Report.antt =====
-- What a finished job reports of its steps.
use edgefabric.Prelude.{
  String, Bool, true, false, ◌&&◌, Option, none, some, List, [], ◌∷◌, ◌++◌, ◌≡◌, refl, sym, ap, ◌∙◌,
  inl, inr, Option-cases, Bool-cases,
}
use mathlib.Core.List.{append-nil, append_assoc}
use edgefabric.Domain.Node.{Node, NodeStatus}
use edgefabric.Provisioning.Actions.{Action, Step, completed, failed, rollback, should_rollback}
use edgefabric.Provisioning.Pipeline.{
  StepResult, success, failure, Job, Outside, Progress, is_enroll, is_upgrade, status_of,
}
use edgefabric.Provisioning.Pipeline.Run.{
  set_if, rollback_if, outcome_of, result_of, finish, fail, complete, run_steps, outcome_of,
  result_of, run_pipeline,
}

-- The steps of a pipeline ran in order up to the end, or up to the first that failed, and each
-- left one result.
pub data Ran : List Step → List StepResult → Option (Step × String) → Type 0 where
  done : Ran [] [] none
  passed :
      {s : Step} {rest : List Step} {r : StepResult} {rs : List StepResult}
      {f : Option (Step × String)}
      → r.step ≡ s
      → r.status ≡ success
      → Ran rest rs f
      → Ran (s ∷ rest) (r ∷ rs) f
  stopped :
      {s : Step} {rest : List Step} {r : StepResult} {e : String}
      → r.step ≡ s
      → r.status ≡ failure
      → r.error ≡ some e
      → Ran (s ∷ rest) (r ∷ []) (some (s, e))

abbrev pub RolledBack : Bool → List StepResult → Type 0
RolledBack true tail = (r : StepResult) × (r.step ≡ rollback) × (tail ≡ r ∷ [])
RolledBack false tail = tail ≡ []

-- How the job ended, and what follows the results of the pipeline's own steps.
abbrev pub Ends : List Step → Action → Option (Step × String) → List StepResult → Job → Type 0
Ends steps a none tail j = (tail ≡ []) × (j.status ≡ completed)
Ends steps a (some (s, e)) tail j =
    RolledBack (is_upgrade a && should_rollback steps s) tail
    × (j.status ≡ failed)
    × (j.error ≡ some (s, e))

pub record Report (steps rest : List Step) (a : Action) (earlier : List StepResult) (j : Job)
    : Type 0 where
  pub ran : List StepResult
  pub tail : List StepResult
  pub stop : Option (Step × String)
  pub in_order : Ran rest ran stop
  pub all : j.steps ≡ earlier ++ (ran ++ tail)
  pub ends : Ends steps a stop tail j

pub job-set_if :
    {W : Type 0} (b : Bool) (status : NodeStatus) (p : Progress W) → (set_if b status p).job ≡ p.job
unfolding set_if
job-set_if true status p = refl
job-set_if false status p = refl

Report-passed :
    {steps rest : List Step} {a : Action} {earlier : List StepResult} {j : Job} {s : Step}
    (r : StepResult)
    → r.step ≡ s
    → r.status ≡ success
    → Report steps rest a (earlier ++ r ∷ []) j
    → Report steps (s ∷ rest) a earlier j
Report-passed {earlier = earlier} r hs hp h = record {
  ran = r ∷ h.ran;
  tail = h.tail;
  stop = h.stop;
  in_order = passed hs hp h.in_order;
  all = h.all ∙ append_assoc earlier (r ∷ []) (h.ran ++ h.tail);
  ends = h.ends;
}

module _ (o : Outside) where
  open o use {World, execute_step, now}

  job-rollback_if : (b : Bool) (p : Progress World) → (rollback_if o b p).job ≡ p.job
  unfolding rollback_if
  job-rollback_if true p = refl
  job-rollback_if false p = refl

  rollback_tail :
      (b : Bool) (p : Progress World)
      → (tail : List StepResult) × ((rollback_if o b p).results ≡ p.results ++ tail)
        × RolledBack b tail
  unfolding rollback_if
  rollback_tail true p = (_, refl, (_, refl, refl))
  rollback_tail false p = ([], sym (append-nil p.results), refl)

  complete-Report :
      (steps : List Step) (p : Progress World)
      → Report steps [] p.job.action p.results (complete o p).job
  unfolding complete
  complete-Report steps p = record {
    ran = [];
    tail = [];
    stop = none;
    in_order = done;
    all = sym (append-nil p.results);
    ends = (refl, refl);
  }

  fail-Report :
      (steps rest : List Step) (s : Step) (e : String) (r : StepResult) (earlier : List StepResult)
      (p : Progress World)
      → r.step ≡ s
      → r.status ≡ failure
      → r.error ≡ some e
      → p.results ≡ earlier ++ r ∷ []
      → Report steps (s ∷ rest) p.job.action earlier (fail o steps s e p).job
  unfolding fail finish
  fail-Report steps rest s e r earlier p hs hf he hp =
      let needed : Bool = is_upgrade p.job.action && should_rollback steps s in
      let (tail, results, rolled) = rollback_tail needed p in
      rw job-set_if (record {
        ran = r ∷ [];
        tail = tail;
        stop = some (s, e);
        in_order = stopped hs hf he;
        all =
            results
            ∙ ap (λ (l : List StepResult). l ++ tail) hp
            ∙ append_assoc earlier (r ∷ []) tail;
        ends = (rolled, refl, refl);
      })

  run_steps-Report :
      (steps rest : List Step) (p : Progress World)
      → Report steps rest p.job.action p.results (run_steps o steps rest p).job
  unfolding run_steps
  run_steps-Report steps [] p = complete-Report steps p
  run_steps-Report steps (s ∷ rest) p = elim (Option-cases (outcome_of o s p).0.error) [
    | inl e ↦
        rw (e, run_steps)
          (Report-passed _ refl (ap status_of e) (run_steps-Report steps rest (result_of o s p)))
    | inr (text, e) ↦
        rw (e, run_steps)
          (fail-Report steps rest s text _ p.results (result_of o s p) refl (ap status_of e) e refl)
  ]

  -- A job that ran a pipeline from the start reports the pipeline's steps in order, each with its
  -- result: all of them if it completed, and up to the first failure if it failed. The failed job
  -- names that step and its error, and one rollback result follows exactly if the action is an
  -- upgrade for which `shouldRollback` holds at that step.
  pub run_pipeline-Report :
      (job : Job) (node : Node) (steps : List Step) (w : World)
      → Report steps steps job.action [] (run_pipeline o job node steps w).job
  unfolding run_pipeline
  run_pipeline-Report job node steps w = elim (Bool-cases (is_enroll job.action)) [
    | inl e ↦ rw e (run_steps-Report steps steps _)
    | inr e ↦ rw e (run_steps-Report steps steps _)
  ]
