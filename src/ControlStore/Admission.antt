-- ===== src/ControlStore/Admission.antt =====
-- apps/api/open_hollywood_api/services/run_controls.py: when a node may run.
use open_hollywood.RunControls.{RunBudget}
use open_hollywood.ControlStore.Usage.{run_usage}
use open_hollywood.ControlStore.Operations.{is_user_or_budget}
use open_hollywood.RunControls.Limits.{
  projected_budget_limits, HasRoom, projected_budget_limits-covers, RunUsage, BudgetLimit,
}
use open_hollywood.ControlStore.Transactions.{
  row-some, budget_from, paused_run, require_run, apply_pause,
}
use open_hollywood.ControlStore.Boundaries.{
  waiting_pause, is_held, Signal, standing_at, standing_signal, before_node, gate, hold_for,
  execution_boundary, paused_signal,
}
use open_hollywood.ControlStore.Contracts.{
  status_is, WorkflowRunControl, RunPauseReason, WorkflowRun, ControlTools, Store,
}
use open_hollywood.ControlStore.Contracts.{cancelled, user, budget_reason}
use open_hollywood.Prelude.{
  Integer, get-put_self, Bool-cases, if-true, if-false, ok-injective, get, ℕ, ◌<◌, ◌≡◌, refl, sym,
  ◌∙◌, subst, ap, inl, inr, Bool, true, false, Option, none, some, List, [], ◌∷◌, ok, >>=-eq-ok,
  string_eq, nat_eq, String, run,
}

apply_pause-run :
    (now run_id : ℕ) (s : Store) (run : WorkflowRun) (reason : RunPauseReason)
    (command : Option (ℕ × WorkflowRunControl)) (limits : List BudgetLimit) (used : Option RunUsage)
    → get run_id (apply_pause now run_id run reason command limits used s).runs
      ≡ some (paused_run now reason run)
unfolding apply_pause
apply_pause-run now run_id s run reason none limits used =
    get-put_self run_id (paused_run now reason run) s.runs
apply_pause-run now run_id s run reason (some (id, control)) limits used =
    get-put_self run_id (paused_run now reason run) s.runs

module _ (now : ℕ) (run_id : ℕ) where
  -- A pause leaves the run paused for the reason.
  apply_pause-boundary :
      (s : Store) (run : WorkflowRun) (reason : RunPauseReason)
      (command : Option (ℕ × WorkflowRunControl)) (limits : List BudgetLimit)
      (used : Option RunUsage)
      → is_user_or_budget (some reason) ≡ true
      → execution_boundary (apply_pause now run_id run reason command limits used s) run_id
        ≡ ok (some paused_signal)
  unfolding execution_boundary
  apply_pause-boundary s run reason command limits used known =
      rw (apply_pause-run now run_id s run reason command limits used, known) refl

  hold_for-boundary :
      (s : Store) (run : WorkflowRun) (node : String) (used : RunUsage) (limits : List BudgetLimit)
      → get run_id s.runs ≡ some run
      → standing_signal run ≡ none
      → execution_boundary (hold_for now node run_id run used s limits).0 run_id
        ≡ ok (hold_for now node run_id run used s limits).1
  unfolding hold_for execution_boundary
  hold_for-boundary s run node used [] h free = rw h (ap ok free)
  hold_for-boundary s run node used (limit ∷ more) h free =
      apply_pause-boundary s (standing_at node run) budget_reason none (limit ∷ more) (some used)
        refl

  gate-boundary :
      (tools : ControlTools) (steps : Integer) (includes : Bool) (node : String) (s after : Store)
      (signal : Option Signal) (run : WorkflowRun) (waiting : Option (ℕ × WorkflowRunControl))
      → get run_id s.runs ≡ some run
      → standing_signal run ≡ none
      → gate tools now steps includes node run_id run s waiting ≡ ok (after, signal)
      → execution_boundary after run_id ≡ ok signal
  unfolding gate
  gate-boundary tools steps includes node s after signal run (some waiting) found free h =
      subst (λ q. execution_boundary q.0 run_id ≡ ok q.1) (ok-injective h)
        (apply_pause-boundary s (standing_at node run) user (some waiting) [] none refl)
  gate-boundary tools steps includes node s after signal run none found free h =
      let (held, hb, h1) = >>=-eq-ok (budget_from tools steps run.budget) _ h in
      subst (λ q. execution_boundary q.0 run_id ≡ ok q.1) (ok-injective h1)
        (hold_for-boundary s run node (run_usage now s run_id run) _ found free)

-- Whatever `before_node` says of a node, it leaves the run so that `execution_boundary` says the same:
-- a node that it lets run is at no boundary, and a signal that it raises stays in force.
pub before_node-boundary :
    (tools : ControlTools) (now : ℕ) (s after : Store) (run_id : ℕ) (node : String)
    (includes_model_call : Bool) (steps : Integer) (signal : Option Signal)
    → before_node tools now s run_id node includes_model_call steps ≡ ok (after, signal)
    → execution_boundary after run_id ≡ ok signal
unfolding before_node execution_boundary
before_node-boundary tools now s after run_id node includes steps signal h =
    let (run, hr, h1) = >>=-eq-ok (require_run s run_id) _ h in
    let found = row-some _ _ _ hr in
    elim (Bool-cases (status_is run.status cancelled)) [
      | inl over ↦
          subst (λ q. execution_boundary q.0 run_id ≡ ok q.1)
            (ok-injective (sym (if-true _ _ _ over) ∙ h1)) (rw (found, over) refl)
      | inr alive ↦ elim (Bool-cases (is_held run)) [
        | inl held ↦
            subst (λ q. execution_boundary q.0 run_id ≡ ok q.1)
              (ok-injective (sym (if-true _ _ _ held) ∙ (sym (if-false _ _ _ alive) ∙ h1)))
              (rw (found, alive, held) refl)
        | inr free ↦
            gate-boundary now run_id tools steps includes node s after signal run
              (waiting_pause s run_id) found (rw (alive, free) refl)
              (sym (if-false _ _ _ free) ∙ (sym (if-false _ _ _ alive) ∙ h1))
      ]
    ]

-- What holds when a node with a model call may run.
pub record Admitted (tools : ControlTools) (now : ℕ) (s : Store) (run_id : ℕ) (steps : Integer)
    : Type 0 where
  pub run : WorkflowRun
  pub found : get run_id s.runs ≡ some run
  pub not_cancelled : status_is run.status cancelled ≡ false
  pub not_held : is_held run ≡ false
  pub no_pause : waiting_pause s run_id ≡ none
  pub held_budget : RunBudget
  pub budget_of : budget_from tools steps run.budget ≡ ok held_budget
  pub has_time :
      (run_usage now s run_id run).wall_clock_seconds < held_budget.max_wall_clock_seconds
  pub has_room : HasRoom held_budget (run_usage now s run_id run)

gate-admits :
    (tools : ControlTools) (now run_id : ℕ) (steps : Integer) (node : String) (s after : Store)
    (run : WorkflowRun) (waiting : Option (ℕ × WorkflowRunControl))
    → gate tools now steps true node run_id run s waiting ≡ ok (after, none)
    → (waiting ≡ none)
      × (after ≡ s)
      × (held : RunBudget) × (budget_from tools steps run.budget ≡ ok held)
      × (projected_budget_limits held (run_usage now s run_id run) true ≡ [])
unfolding gate hold_for
gate-admits tools now run_id steps node s after run (some waiting) h =
    cc (ap (λ q. q.1) (ok-injective h))
gate-admits tools now run_id steps node s after run none h =
    let (held, hb, h1) = >>=-eq-ok (budget_from tools steps run.budget) _ h in
    let split =
      held-nothing (projected_budget_limits held (run_usage now s run_id run) true)
        (ok-injective h1) in
    (refl, split.0, held, hb, split.1)
  where
    held-nothing :
        (limits : List BudgetLimit)
        → hold_for now node run_id run (run_usage now s run_id run) s limits ≡ (after, none)
        → (after ≡ s) × (limits ≡ [])
    held-nothing [] e = (sym (ap (λ q. q.0) e), refl)
    held-nothing (limit ∷ more) e = cc (ap (λ q. q.1) e)

-- When `before_node` lets a node with a model call run, it has changed nothing; the run is neither
-- cancelled nor held, no pause waits for it, it has time left, and after any call within the budget's
-- reservation the budget covers the usage if and only if the run is not over its time.
pub before_node-admits :
    (tools : ControlTools) (now : ℕ) (s after : Store) (run_id : ℕ) (node : String)
    (steps : Integer)
    → before_node tools now s run_id node true steps ≡ ok (after, none)
    → (after ≡ s) × Admitted tools now s run_id steps
unfolding before_node
before_node-admits tools now s after run_id node steps h =
    let (run, hr, h1) = >>=-eq-ok (require_run s run_id) _ h in
    elim (Bool-cases (status_is run.status cancelled)) [
      | inl over ↦ cc (ap (λ q. q.1) (ok-injective (sym (if-true _ _ _ over) ∙ h1)))
      | inr alive ↦ elim (Bool-cases (is_held run)) [
        | inl held ↦ cc (
            ap (λ q. q.1)
              (ok-injective (sym (if-true _ _ _ held) ∙ (sym (if-false _ _ _ alive) ∙ h1))))
        | inr free ↦
            let (no_pause, same, budget, hb, none_left) =
              gate-admits tools now run_id steps node s after run (waiting_pause s run_id)
                (sym (if-false _ _ _ free) ∙ (sym (if-false _ _ _ alive) ∙ h1)) in
            let room =
              (projected_budget_limits-covers budget (run_usage now s run_id run)).0 none_left in
            (
              same,
              record {
                run = run;
                found = row-some _ _ _ hr;
                not_cancelled = alive;
                not_held = free;
                no_pause = no_pause;
                held_budget = budget;
                budget_of = hb;
                has_time = room.0;
                has_room = room.1;
              },
            )
      ]
    ]
