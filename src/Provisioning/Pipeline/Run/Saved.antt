-- ===== src/Provisioning/Pipeline/Run/Saved.antt =====
-- What a run of a pipeline leaves in the database, and the status that it gives the node.
use edgefabric.Prelude.{
  String, Bool, true, false, ◌&&◌, Option, none, some, List, [], ◌∷◌, ◌++◌, ◌≡◌, refl, ap₂, ◌∙◌,
  subst, sym, inl, inr, ◌⊎◌, Option-cases, Bool-cases, All, All-append, if◌then◌else◌,
}
use edgefabric.Domain.Node.{Node, NodeStatus}
use edgefabric.Provisioning.Actions.{Action, Step, completed, failed, should_rollback, status_after}
use edgefabric.Provisioning.Pipeline.{
  Job, Outside, Progress, Write, job_saved, node_saved, is_enroll, is_upgrade, assign_overlay,
}
use edgefabric.Provisioning.Pipeline.Run.Report.{job-set_if}
use edgefabric.Provisioning.Pipeline.Run.{
  set_if, rollback_if, begin, result_of, outcome_of, finish, fail, complete, run_steps,
  run_pipeline,
}

-- The job that the database holds after the writes.
abbrev pub last_job : Option Job → List Write → Option Job
last_job old [] = old
last_job old (job_saved j ∷ rest) = last_job (some j) rest
last_job old (node_saved n ∷ rest) = last_job old rest

last_job-append :
    (old : Option Job) (xs ys : List Write)
    → last_job old (xs ++ ys) ≡ last_job (last_job old xs) ys
last_job-append old [] ys = refl
last_job-append old (job_saved j ∷ xs) ys = last_job-append (some j) xs ys
last_job-append old (node_saved n ∷ xs) ys = last_job-append old xs ys

-- A write of the job that was started, under its identifier, or a write of a node.
abbrev pub WritesJob : Job → Write → Type 0
WritesJob job (job_saved j) = (j.id ≡ job.id) × (j.node_id ≡ job.node_id) × (j.action ≡ job.action)
WritesJob job (node_saved n) = Unit

-- The status of a node after an action: decommissioned, offline after a stop, unchanged after an
-- action that is not known, and online after all others.
abbrev Settled : Action → NodeStatus → NodeStatus → Type 0
Settled Action.decommission old new = new ≡ NodeStatus.decommissioned
Settled Action.stop old new = new ≡ NodeStatus.offline
Settled (Action.other a) old new = new ≡ old
Settled _ old new = new ≡ NodeStatus.online

status_after-Settled : (a : Action) (old : NodeStatus) → Settled a old (status_after a old)
unfolding status_after
status_after-Settled Action.enroll old = refl
status_after-Settled Action.start old = refl
status_after-Settled Action.stop old = refl
status_after-Settled Action.restart old = refl
status_after-Settled Action.upgrade old = refl
status_after-Settled Action.reprovision old = refl
status_after-Settled Action.decommission old = refl
status_after-Settled (Action.other a) old = refl

module _ {W : Type 0} where
  last_job-set_if :
      (b : Bool) (status : NodeStatus) (p : Progress W)
      → last_job none (set_if b status p).writes ≡ last_job none p.writes
  unfolding set_if
  last_job-set_if true status p = last_job-append none p.writes _
  last_job-set_if false status p = refl

  node_status-set_if :
      (b : Bool) (status : NodeStatus) (p : Progress W)
      → (set_if b status p).node.status ≡ (if b then status else p.node.status)
  unfolding set_if
  node_status-set_if true status p = refl
  node_status-set_if false status p = refl

  writes-set_if :
      (job : Job) (b : Bool) (status : NodeStatus) (p : Progress W)
      → All (WritesJob job) p.writes
      → All (WritesJob job) (set_if b status p).writes
  unfolding set_if
  writes-set_if job true status p h = All-append (WritesJob job) p.writes _ h (tt, tt)
  writes-set_if job false status p h = h

module _ (o : Outside) where
  open o use {World, execute_step, now}

  -- The invariant rule of the loop.
  run_steps_inv :
      (I P : Progress World → Type 0) (steps rest : List Step)
      → ((s : Step) (p : Progress World) → I p → I (result_of o s p))
      → ((p : Progress World) → I p → P (complete o p))
      → ((s : Step) (e : String) (p : Progress World) → I p → P (fail o steps s e p))
      → (p : Progress World) → I p
      → P (run_steps o steps rest p)
  unfolding run_steps
  run_steps_inv I P steps [] keep all stop p h = all p h
  run_steps_inv I P steps (s ∷ rest) keep all stop p h =
      elim (Option-cases (outcome_of o s p).0.error) [
        | inl e ↦
            rw (e, run_steps)
              (run_steps_inv I P steps rest keep all stop (result_of o s p) (keep s p h))
        | inr (text, e) ↦ rw (e, run_steps) (stop s text (result_of o s p) (keep s p h))
      ]

  complete-last_job :
      (p : Progress World) → last_job none (complete o p).writes ≡ some (complete o p).job
  unfolding complete
  complete-last_job p =
      last_job-append none (p.writes ++ _ ∷ []) _ ∙ last_job-append none p.writes _

  fail-last_job :
      (steps : List Step) (s : Step) (e : String) (p : Progress World)
      → last_job none (fail o steps s e p).writes ≡ some (fail o steps s e p).job
  unfolding fail finish
  fail-last_job steps s e p = simp (last_job-set_if, job-set_if, last_job-append)

  -- Whatever happens, the job that the database holds at the end is the job as it ended.
  pub run_pipeline-last_job :
      (job : Job) (node : Node) (steps : List Step) (w : World)
      → last_job none (run_pipeline o job node steps w).writes
        ≡ some (run_pipeline o job node steps w).job
  unfolding run_pipeline
  run_pipeline-last_job job node steps w =
      run_steps_inv (λ p. Unit) (λ p. last_job none p.writes ≡ some p.job) steps steps (λ s p h. tt)
        (λ p h. complete-last_job p) (λ s e p h. fail-last_job steps s e p) (begin o job node w) tt

  -- What the loop leaves alone: the job's identity and action, and the node's status.
  abbrev Kept : Job → NodeStatus → Progress World → Type 0
  Kept job status p =
      (p.job.action ≡ job.action)
      × (p.node.status ≡ status)
      × (p.job.id ≡ job.id)
      × (p.job.node_id ≡ job.node_id)
      × All (WritesJob job) p.writes

  overlay_status :
      (out : Option (String × Option String)) (n : Node) → (assign_overlay out n).status ≡ n.status
  unfolding assign_overlay
  overlay_status none n = refl
  overlay_status (some (ip, none)) n = refl
  overlay_status (some (ip, some ip6)) n = refl

  result_of-Kept :
      (job : Job) (status : NodeStatus) (s : Step) (p : Progress World)
      → Kept job status p
      → Kept job status (result_of o s p)
  unfolding result_of
  result_of-Kept job status s p (a, st, i, n, ws) = (
    a,
    overlay_status _ p.node ∙ st,
    i,
    n,
    All-append (WritesJob job) p.writes _ ws ((i, n, a), tt),
  )

  -- How a run ends for the node, and which job its writes are about.
  abbrev pub Ended : Job → NodeStatus → Progress World → Type 0
  Ended job begun p =
      ((p.job.status ≡ completed) × Settled job.action begun p.node.status
        ⊎ (p.job.status ≡ failed)
          × (p.node.status ≡ (if is_enroll job.action then NodeStatus.error else begun)))
      × All (WritesJob job) p.writes

  complete-Ended :
      (job : Job) (status : NodeStatus) (p : Progress World)
      → Kept job status p
      → Ended job status (complete o p)
  unfolding complete
  complete-Ended job status p (a, st, i, n, ws) = (
    inl (
      refl,
      subst (Settled job.action status) (sym (ap₂ status_after a st))
          (status_after-Settled job.action status),
    ),
    All-append (WritesJob job) (p.writes ++ _ ∷ []) _
        (All-append (WritesJob job) p.writes _ ws ((i, n, a), tt)) (tt, tt),
  )

  rollback_if-Kept :
      (job : Job) (status : NodeStatus) (b : Bool) (p : Progress World)
      → Kept job status p
      → Kept job status (rollback_if o b p)
  unfolding rollback_if
  rollback_if-Kept job status true p h = h
  rollback_if-Kept job status false p h = h

  finish-WritesJob :
      (job : Job) (status : NodeStatus) (e : Option (Step × String)) (p : Progress World)
      → Kept job status p
      → All (WritesJob job) (finish o failed e p).writes
  unfolding finish
  finish-WritesJob job status e p (a, st, i, n, ws) =
      All-append (WritesJob job) p.writes _ ws ((i, n, a), tt)

  node-rollback_if : (b : Bool) (p : Progress World) → (rollback_if o b p).node ≡ p.node
  unfolding rollback_if
  node-rollback_if true p = refl
  node-rollback_if false p = refl

  fail-status :
      (steps : List Step) (s : Step) (e : String) (p : Progress World)
      → ((fail o steps s e p).job.status ≡ failed)
        × ((fail o steps s e p).node.status
            ≡ (if is_enroll p.job.action then NodeStatus.error else p.node.status))
  unfolding fail finish
  fail-status steps s e p = (simp job-set_if, simp (node_status-set_if, node-rollback_if))

  fail-Ended :
      (job : Job) (status : NodeStatus) (steps : List Step) (s : Step) (e : String)
      (p : Progress World)
      → Kept job status p
      → Ended job status (fail o steps s e p)
  fail-Ended job status steps s e p h =
      let tried = rollback_if o (is_upgrade p.job.action && should_rollback steps s) p in
      let (failed_job, node_status) = fail-status steps s e p in
      (
        inr (
          failed_job,
          node_status ∙ ap₂ (λ a st. if is_enroll a then NodeStatus.error else st) h.0 h.1,
        ),
        unfold fail in
            (writes-set_if job _ NodeStatus.error _
              (finish-WritesJob job status _ tried (rollback_if-Kept job status _ p h))),
      )

  -- The status that the node has while the steps of a job run.
  abbrev pub begun_status : Job → Node → NodeStatus
  begun_status job node = if is_enroll job.action then NodeStatus.enrolling else node.status

  begin-Kept :
      (job : Job) (node : Node) (w : World) → Kept job (begun_status job node) (begin o job node w)
  unfolding begin
  begin-Kept job node w = elim (Bool-cases (is_enroll job.action)) [
    | inl e ↦ rw e (refl, refl, refl, refl, ((refl, refl, refl), (tt, tt)))
    | inr e ↦ rw e (refl, refl, refl, refl, ((refl, refl, refl), tt))
  ]

  -- A run ends in one of two ways. The job is completed, and the node is decommissioned after that
  -- action, offline after a stop, online after every other action that is known, and as it was
  -- after one that is not. Or the job has failed, and the node is in `error` if it was being
  -- enrolled and in its old status if not: a failure of another action does not take it to `error`.
  -- Every job that the run writes to the database is the one that was started, by its identifier,
  -- its node and its action.
  pub run_pipeline-Ended :
      (job : Job) (node : Node) (steps : List Step) (w : World)
      → Ended job (begun_status job node) (run_pipeline o job node steps w)
  unfolding run_pipeline
  run_pipeline-Ended job node steps w =
      let status : NodeStatus = begun_status job node in
      run_steps_inv (Kept job status) (Ended job status) steps steps (result_of-Kept job status)
        (complete-Ended job status) (fail-Ended job status steps) (begin o job node w)
        (begin-Kept job node w)
