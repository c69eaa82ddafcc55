-- ===== src/ControlStore/Finality.antt =====
-- apps/api/open_hollywood_api/services/run_controls.py: any sequence of controls and boundaries.
use open_hollywood.ControlStore.Usage.{run_usage}
use open_hollywood.RunControls.Limits.{projected_budget_limits, RunUsage, BudgetLimit}
use open_hollywood.ControlStore.Transitions.{
  can_requeue, can_move, budget_change-moves, can_pause, retry_change-moves, resume_change-moves,
  Moves-same, Moves-put, stop_change-moves, pause_change-moves, transact-Moves, Moves,
}
use open_hollywood.RunControls.{RunControlCommand}
use open_hollywood.ControlStore.Operations.{
  requeue, is_missing, requeue_at, fail_command, complete_checkpoint_retry, complete_retry,
}
use open_hollywood.ControlStore.Boundaries.{
  waiting_pause, is_held, standing_at, Signal, hold_for, before_node, gate,
}
use open_hollywood.ControlStore.Transactions.{
  same_target, row-some, budget_from, paused_run, usual_steps, result_of, require_run,
  require_control, apply_pause,
}
use open_hollywood.ControlStore.Replay.{
  perform, Operation, requesting_pause, stopping, resuming, retrying, changing_budget,
}
use open_hollywood.ControlStore.Contracts.{
  RunStatus, status_is, WorkflowRunControl, RunPauseReason, WorkflowRun, RunControlResult, Store,
  ControlTools, cancelled, paused, pending, running, succeeded, failed, user, budget_reason,
}
use open_hollywood.Prelude.{
  ok-injective, if-cases, Integer, get, true, false, ℕ, ◌≡◌, refl, subst, inl, inr, Bool, true,
  false, ◌&&◌, not, Option, none, some, List, [], ◌∷◌, arith, ok, >>=-eq-ok, guard-bind,
  if◌then◌else◌, string_eq, nat_eq, String, run, is_some,
}

-- One call of the store that returns.
pub data Step (tools : ControlTools) : Store → Store → Type 0 where
  performing :
      {s after : Store} {r : RunControlResult} (now run_id : ℕ) (operation : Operation)
      (c : RunControlCommand)
      → perform tools now operation s run_id c ≡ ok (after, r)
      → Step tools s after
  asking :
      {s after : Store} {signal : Option Signal} (now run_id : ℕ) (node : String) (includes : Bool)
      (steps : Integer)
      → before_node tools now s run_id node includes steps ≡ ok (after, signal)
      → Step tools s after
  linking :
      {s after : Store} {r : RunControlResult} (now id child : ℕ) (checkpoint : String)
      → complete_retry tools now s id child checkpoint ≡ ok (after, r)
      → Step tools s after
  requeueing :
      {s after : Store} {r : RunControlResult} (now id : ℕ)
      → complete_checkpoint_retry tools now s id ≡ ok (after, r)
      → Step tools s after
  failing :
      {s after : Store} (now id : ℕ) (message : String)
      → fail_command tools now s id message ≡ ok after
      → Step tools s after

-- Any number of calls.
pub data Steps (tools : ControlTools) : Store → Store → Type 0 where
  done : {s : Store} → Steps tools s s
  more : {s t u : Store} → Step tools s t → Steps tools t u → Steps tools s u

apply_pause-Moves :
    (now run_id : ℕ) (s : Store) (run at : WorkflowRun) (reason : RunPauseReason)
    (command : Option (ℕ × WorkflowRunControl)) (limits : List BudgetLimit) (used : Option RunUsage)
    → get run_id s.runs ≡ some run
    → status_is run.status cancelled ≡ false
    → Moves s.runs (apply_pause now run_id at reason command limits used s).runs
unfolding apply_pause
apply_pause-Moves now run_id s run at reason none limits used found alive =
    Moves-put s.runs run_id run (paused_run now reason at) found (can_pause run.status alive)
apply_pause-Moves now run_id s run at reason (some (id, control)) limits used found alive =
    Moves-put s.runs run_id run (paused_run now reason at) found (can_pause run.status alive)

gate-Moves :
    (tools : ControlTools) (now run_id : ℕ) (steps : Integer) (includes : Bool) (node : String)
    (s after : Store) (signal : Option Signal) (run : WorkflowRun)
    (waiting : Option (ℕ × WorkflowRunControl))
    → get run_id s.runs ≡ some run
    → status_is run.status cancelled ≡ false
    → gate tools now steps includes node run_id run s waiting ≡ ok (after, signal)
    → Moves s.runs after.runs
unfolding gate hold_for
gate-Moves tools now run_id steps includes node s after signal run (some waiting) found alive h =
    subst (λ q. Moves s.runs q.0.runs) (ok-injective h)
      (apply_pause-Moves now run_id s run (standing_at node run) user (some waiting) [] none found
        alive)
gate-Moves tools now run_id steps includes node s after signal run none found alive h =
    let (held, hb, h1) = >>=-eq-ok (budget_from tools steps run.budget) _ h in
    subst (λ q. Moves s.runs q.0.runs) (ok-injective h1)
      (hold-Moves (projected_budget_limits held (run_usage now s run_id run) includes))
  where
    hold-Moves :
        (limits : List BudgetLimit)
        → Moves s.runs (hold_for now node run_id run (run_usage now s run_id run) s limits).0.runs
    hold-Moves [] = Moves-same s.runs
    hold-Moves (limit ∷ others) =
        apply_pause-Moves now run_id s run (standing_at node run) budget_reason none
          (limit ∷ others) _ found alive

before_node-Moves :
    (tools : ControlTools) (now : ℕ) (s after : Store) (run_id : ℕ) (node : String)
    (includes : Bool) (steps : Integer) (signal : Option Signal)
    → before_node tools now s run_id node includes steps ≡ ok (after, signal)
    → Moves s.runs after.runs
unfolding before_node
before_node-Moves tools now s after run_id node includes steps signal h =
    let (run, hr, h1) = >>=-eq-ok (require_run s run_id) _ h in
    let stays = λ (x : Store × Option Signal). Moves s.runs x.0.runs in
    elim (if-cases (status_is run.status cancelled) _ _ h1) [
      | inl (over, e) ↦ subst stays (ok-injective e) (Moves-same s.runs)
      | inr (alive, e) ↦ elim (if-cases (is_held run) _ _ e) [
        | inl (held, e') ↦ subst stays (ok-injective e') (Moves-same s.runs)
        | inr (free, e') ↦
            gate-Moves tools now run_id steps includes node s after signal run
              (waiting_pause s run_id) (row-some _ _ _ hr) alive e'
      ]
    ]

complete_retry-Moves :
    (tools : ControlTools) (now : ℕ) (s after : Store) (id child : ℕ) (checkpoint : String)
    (r : RunControlResult)
    → complete_retry tools now s id child checkpoint ≡ ok (after, r)
    → Moves s.runs after.runs
unfolding complete_retry
complete_retry-Moves tools now s after id child checkpoint r h =
    let (control, p, h1) = >>=-eq-ok (require_control s id) _ h in
    let (result, q, h2) = >>=-eq-ok (result_of tools now usual_steps _ id) _ h1 in
    subst (λ x. Moves s.runs x.0.runs) (ok-injective h2) (Moves-same s.runs)

requeue_at-Moves :
    (tools : ControlTools) (now : ℕ) (s after : Store) (id : ℕ) (control : WorkflowRunControl)
    (run : WorkflowRun)
    → get control.control_run_id s.runs ≡ some run
    → requeue_at tools now s id control run ≡ ok after
    → Moves s.runs after.runs
unfolding requeue_at
requeue_at-Moves tools now s after id control run found h =
    let (has_failed, h1) = guard-bind (status_is run.status failed) _ _ h in
    let (p, h2) = guard-bind (not (is_missing tools now run.checkpoint_id)) _ _ h1 in
    let (q, h3) =
      guard-bind
        (not (is_missing tools now run.current_node)
          && same_target control.target_node run.current_node)
        _ _ h2 in
    subst (λ x. Moves s.runs x.runs) (ok-injective h3)
      (Moves-put s.runs control.control_run_id run (requeue run) found
        (can_requeue run.status (ground (arith, has_failed))))

complete_checkpoint_retry-Moves :
    (tools : ControlTools) (now : ℕ) (s after : Store) (id : ℕ) (r : RunControlResult)
    → complete_checkpoint_retry tools now s id ≡ ok (after, r)
    → Moves s.runs after.runs
unfolding complete_checkpoint_retry
complete_checkpoint_retry-Moves tools now s after id r h =
    let (control, p, h1) = >>=-eq-ok (require_control s id) _ h in
    let (run, q, h2) = >>=-eq-ok (require_run s control.control_run_id) _ h1 in
    let (last, e, h3) =
      >>=-eq-ok
        (if is_some control.resulting_workflow_run_id
          then ok s
          else requeue_at tools now s id control run)
        _ h2 in
    let (result, t, h4) = >>=-eq-ok (result_of tools now usual_steps last id) _ h3 in
    subst (λ x. Moves s.runs x.0.runs) (ok-injective h4)
      (elim (if-cases (is_some control.resulting_workflow_run_id) _ _ e) [
        | inl (linked, e') ↦ subst (λ x. Moves s.runs x.runs) (ok-injective e') (Moves-same s.runs)
        | inr (fresh, e') ↦ requeue_at-Moves tools now s last id control run (row-some _ _ _ q) e'
      ])

fail_command-Moves :
    (tools : ControlTools) (now : ℕ) (s after : Store) (id : ℕ) (message : String)
    → fail_command tools now s id message ≡ ok after
    → Moves s.runs after.runs
unfolding fail_command
fail_command-Moves tools now s after id message h =
    let (control, p, h1) = >>=-eq-ok (require_control s id) _ h in
    subst (λ x. Moves s.runs x.runs) (ok-injective h1) (Moves-same s.runs)

perform-Moves :
    (tools : ControlTools) (now run_id : ℕ) (operation : Operation) (c : RunControlCommand)
    (s after : Store) (r : RunControlResult)
    → perform tools now operation s run_id c ≡ ok (after, r)
    → Moves s.runs after.runs
perform-Moves tools now run_id requesting_pause c s after r =
    transact-Moves tools now run_id c _ _ _ s after r (pause_change-moves tools now run_id c)
perform-Moves tools now run_id stopping c s after r =
    transact-Moves tools now run_id c _ _ _ s after r (stop_change-moves tools now run_id c)
perform-Moves tools now run_id resuming c s after r =
    transact-Moves tools now run_id c _ _ _ s after r (resume_change-moves tools now run_id c)
perform-Moves tools now run_id retrying c s after r =
    transact-Moves tools now run_id c _ _ _ s after r (retry_change-moves tools now run_id c)
perform-Moves tools now run_id (changing_budget steps) c s after r =
    transact-Moves tools now run_id c _ _ _ s after r (budget_change-moves tools now run_id c steps)

-- No call of the store loses a run, and each changes a run's status only as `can_move` allows: none
-- makes a run succeed or fail or starts one, and none leads out of a cancelled run.
pub Step-Moves :
    (tools : ControlTools) (s after : Store) → Step tools s after → Moves s.runs after.runs
Step-Moves tools s after (performing now run_id operation c h) =
    perform-Moves tools now run_id operation c s after _ h
Step-Moves tools s after (asking now run_id node includes steps h) =
    before_node-Moves tools now s after run_id node includes steps _ h
Step-Moves tools s after (linking now id child checkpoint h) =
    complete_retry-Moves tools now s after id child checkpoint _ h
Step-Moves tools s after (requeueing now id h) =
    complete_checkpoint_retry-Moves tools now s after id _ h
Step-Moves tools s after (failing now id message h) =
    fail_command-Moves tools now s after id message h

stays_cancelled : (status : RunStatus) → can_move cancelled status ≡ true → status ≡ cancelled
stays_cancelled pending h = cc h
stays_cancelled running h = cc h
stays_cancelled paused h = cc h
stays_cancelled succeeded h = cc h
stays_cancelled failed h = cc h
stays_cancelled cancelled h = refl

-- After any sequence of calls a cancelled run is still cancelled.
pub Steps-cancelled :
    (tools : ControlTools) (s after : Store) (id : ℕ) (run : WorkflowRun)
    → Steps tools s after
    → get id s.runs ≡ some run
    → run.status ≡ cancelled
    → (next : WorkflowRun) × (get id after.runs ≡ some next) × (next.status ≡ cancelled)
Steps-cancelled tools s _ id run done found over = (run, found, over)
Steps-cancelled tools s u id run (more {t} step rest) found over =
    let (next, at, may) = (Step-Moves tools s t step).moves id run found in
    Steps-cancelled tools t u id next rest at
      (stays_cancelled next.status (subst (λ x. can_move x next.status ≡ true) over may))
