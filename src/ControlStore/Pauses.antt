-- ===== src/ControlStore/Pauses.antt =====
-- apps/api/open_hollywood_api/services/run_controls.py: a pause keeps the account of what a run has used.
use open_hollywood.ControlStore.Boundaries.{
  waiting_pause, is_held, hold_for, before_node, gate, standing_at,
}
use open_hollywood.ControlStore.Operations.{is_user_or_budget}
use open_hollywood.ControlStore.Usage.{open_seconds, is_node_start, run_usage}
use open_hollywood.RunControls.Limits.{projected_budget_limits, BudgetLimit, RunUsage}
use open_hollywood.ControlStore.Transactions.{row, paused_run, apply_pause, budget_from}
use open_hollywood.ControlStore.Contracts.{
  RunStatus, WorkflowEvent, RunPauseReason, WorkflowRunControl, status_is, WorkflowRun, Store,
  ControlTools, cancelled,
}
use open_hollywood.ControlStore.Contracts.{running}
use open_hollywood.ControlStore.Boundaries.{paused_signal, stopped_signal}
use open_hollywood.ControlStore.Contracts.{paused, user, budget_reason, unknown_run}
use open_hollywood.Prelude.{
  count_if-append, count_if, [], ◌∷◌, none, some, true, false, if-false, get-put_self, ok-injective,
  Integer, get, ℕ, ◌+◌, ◌≡◌, refl, sym, ◌∙◌, subst, ap, Bool, true, false, ◌&&◌, Option, none, some,
  List, [], ◌∷◌, ◌++◌, arith, ok, ◌>>=◌, >>=-eq-ok, if◌then◌else◌, string_eq, nat_eq, nat_beq,
  String, run,
}

-- A paused run whose use no longer grows.
pub record KeepsUsage (now : ℕ) (s after : Store) (run_id : ℕ) (before : WorkflowRun) : Type 0 where
  pub paused_as : WorkflowRun
  pub found_paused : get run_id after.runs ≡ some paused_as
  pub usage_stays :
      (later : ℕ) → run_usage later after run_id paused_as ≡ run_usage now s run_id before

never : (b : Bool) → (b && false) ≡ false
never true = refl
never false = refl

-- An event that is no start of a node leaves the count of steps.
count-other :
    (run_id : ℕ) (events : List WorkflowEvent) (e : WorkflowEvent)
    → is_node_start run_id e ≡ false
    → count_if (is_node_start run_id) (events ++ e ∷ []) ≡ count_if (is_node_start run_id) events
count-other run_id events e h =
    ground (arith, h, count_if-append (is_node_start run_id) events (e ∷ []))

paused-usage :
    (now later run_id : ℕ) (s after : Store) (run : WorkflowRun) (node : String)
    (reason : RunPauseReason) (e : WorkflowEvent)
    → after.events ≡ s.events ++ e ∷ []
    → is_node_start run_id e ≡ false
    → status_is run.status running ≡ true
    → run_usage later after run_id (paused_run now reason (standing_at node run))
      ≡ run_usage now s run_id run
unfolding run_usage
paused-usage now later run_id s after run node reason e added other active =
    let steps = ap (count_if (is_node_start run_id)) added ∙ count-other run_id s.events e other in
    let seconds : run.active_elapsed_seconds + open_seconds run.active_started_at now + 0
        ≡ run.active_elapsed_seconds
          + (if status_is run.status running then open_seconds run.active_started_at now else 0) =
      rw active (omega arith) in
    rw (steps, seconds) refl

apply_pause-KeepsUsage :
    (now run_id : ℕ) (s : Store) (run : WorkflowRun) (node : String) (reason : RunPauseReason)
    (command : Option (ℕ × WorkflowRunControl)) (limits : List BudgetLimit) (used : Option RunUsage)
    → status_is run.status running ≡ true
    → KeepsUsage now s
        (apply_pause now run_id (standing_at node run) reason command limits used s)
        run_id
        run
unfolding apply_pause
apply_pause-KeepsUsage now run_id s run node reason none limits used active = record {
  paused_as = paused_run now reason (standing_at node run);
  found_paused = get-put_self run_id (paused_run now reason (standing_at node run)) s.runs;
  usage_stays = λ later.
      paused-usage now later run_id s _ run node reason _ refl (never (nat_beq run_id run_id))
        active;
}
apply_pause-KeepsUsage now run_id s run node reason (some (id, control)) limits used active =
    record {
      paused_as = paused_run now reason (standing_at node run);
      found_paused = get-put_self run_id (paused_run now reason (standing_at node run)) s.runs;
      usage_stays = λ later.
          paused-usage now later run_id s _ run node reason _ refl (never (nat_beq run_id run_id))
            active;
    }

gate-KeepsUsage :
    (tools : ControlTools) (now run_id : ℕ) (steps : Integer) (includes : Bool) (node : String)
    (s after : Store) (run : WorkflowRun) (waiting : Option (ℕ × WorkflowRunControl))
    → status_is run.status running ≡ true
    → gate tools now steps includes node run_id run s waiting ≡ ok (after, some paused_signal)
    → KeepsUsage now s after run_id run
unfolding gate hold_for
gate-KeepsUsage tools now run_id steps includes node s after run (some waiting) active h =
    subst (λ q. KeepsUsage now s q.0 run_id run) (ok-injective h)
      (apply_pause-KeepsUsage now run_id s run node user (some waiting) [] none active)
gate-KeepsUsage tools now run_id steps includes node s after run none active h =
    let (held, hb, h1) = >>=-eq-ok (budget_from tools steps run.budget) _ h in
    held-KeepsUsage (projected_budget_limits held (run_usage now s run_id run) includes)
      (ok-injective h1)
  where
    held-KeepsUsage :
        (limits : List BudgetLimit)
        → hold_for now node run_id run (run_usage now s run_id run) s limits
          ≡ (after, some paused_signal)
        → KeepsUsage now s after run_id run
    held-KeepsUsage [] e = cc (ap (λ q. q.1) e)
    held-KeepsUsage (limit ∷ others) e =
        subst (λ q. KeepsUsage now s q.0 run_id run) e
          (apply_pause-KeepsUsage now run_id s run node budget_reason none (limit ∷ others) _
            active)

-- When `before_node` pauses a running run, the run's usage at any later time is what it was at that
-- moment: no time that it was active is lost, and none is counted while it waits.
pub before_node-KeepsUsage :
    (tools : ControlTools) (now : ℕ) (s after : Store) (run_id : ℕ) (node : String)
    (includes_model_call : Bool) (steps : Integer) (run : WorkflowRun)
    → get run_id s.runs ≡ some run
    → run.status ≡ running
    → before_node tools now s run_id node includes_model_call steps ≡ ok (after, some paused_signal)
    → KeepsUsage now s after run_id run
unfolding before_node
before_node-KeepsUsage tools now s after run_id node includes steps run found active h =
    let decide = λ (x : WorkflowRun).
      if status_is x.status cancelled
      then ok (s, some stopped_signal)
      else if is_held x
      then ok (s, some paused_signal)
      else gate tools now steps includes node run_id x s (waiting_pause s run_id) in
    let running_is = λ (status : RunStatus). status_is status running in
    let h1 : decide run ≡ ok (after, some paused_signal) =
      subst (λ o. (row (unknown_run run_id) o >>= decide) ≡ ok (after, some paused_signal)) found
        h in
    let alive = subst (λ x. status_is x cancelled ≡ false) (sym active) refl in
    let free =
      subst (λ x. (status_is x paused && is_user_or_budget run.pause_reason) ≡ false) (sym active)
        refl in
    gate-KeepsUsage tools now run_id steps includes node s after run (waiting_pause s run_id)
      (subst (λ x. running_is x ≡ true) (sym active) refl)
      (sym (if-false _ _ _ free) ∙ (sym (if-false _ _ _ alive) ∙ h1))
