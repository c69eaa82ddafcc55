-- ===== src/ControlStore/Budgets.antt =====
-- apps/api/open_hollywood_api/services/run_controls.py: a run's budget and what it has used.
use open_hollywood.ControlStore.Transitions.{transact-fresh}
use open_hollywood.ControlStore.Operations.{change_budget, budget_change}
use open_hollywood.ControlStore.Usage.{run_usage}
use open_hollywood.RunControls.Limits.{budget_can_cover_usage}
use open_hollywood.ControlStore.Transactions.{defaults, budget_from, lift_budget}
use open_hollywood.RunControls.{
  replace, from_data, run_budget, RunControlCommand, to_data, Value, RunBudget, BudgetError,
  update_budget, text,
}
use open_hollywood.ControlStore.Contracts.{
  WorkflowRunControl, status_is, RunControlResult, WorkflowRun, Store, ControlTools, cancelled,
  succeeded,
}
use open_hollywood.Models.{Decimal}
use open_hollywood.RunControls.Budgets.{IsValid, from_data-to_data, replace-IsValid}
use open_hollywood.Prelude.{
  [], none, some, true, get-put_self, or_value, ok-injective, Integer, get, Dict, ℕ, ◌≡◌, refl,
  subst, ap, true, ◌||◌, not, none, some, [], Result, ok, raise, ◌>>=◌, >>=-eq-ok, guard-bind,
  string_eq, nat_eq, String, run,
}

-- After a budget update the run has a budget that covers what it has used.
pub record CoversUsage (tools : ControlTools) (now : ℕ) (steps : Integer) (s after : Store)
    (run_id : ℕ) : Type 0 where
  pub before : WorkflowRun
  pub found_before : get run_id s.runs ≡ some before
  pub next : WorkflowRun
  pub found : get run_id after.runs ≡ some next
  pub updated : RunBudget
  pub budget_of : budget_from tools steps next.budget ≡ ok updated
  pub covers : budget_can_cover_usage updated (run_usage now s run_id before) ≡ true
  pub same_status : next.status ≡ before.status

lift_budget-ok :
    {A : Type 0} (call : Result BudgetError A) (a : A) → lift_budget call ≡ ok a → call ≡ ok a
lift_budget-ok (ok b) a h = ap ok (ok-injective h)
lift_budget-ok (raise e) a h = cc h

module _ (tools : ControlTools)
    (parse-print : (n : ℕ) → tools.parse (text (tools.print n)) ≡ some (Decimal.amount n)) where
  -- What was written is read again.
  budget_from-to_data :
      (steps : Integer) (written : Dict String Value) (held b : RunBudget)
      → budget_from tools steps written ≡ ok held
      → IsValid b
      → budget_from tools steps (to_data tools.parse tools.print b) ≡ ok b
  unfolding budget_from
  budget_from-to_data steps written held b h valid =
      let (d, hd, h1) = >>=-eq-ok (run_budget (defaults tools steps)) _ (
        lift_budget-ok
          (run_budget (defaults tools steps) >>= λ d. from_data tools.parse tools.print d written)
          held h) in
      rw hd (ap lift_budget (from_data-to_data tools.parse tools.print d b parse-print valid))

  budget_change-covers :
      (now : ℕ) (steps : Integer) (run_id : ℕ) (c : RunControlCommand) (s after : Store)
      (run : WorkflowRun) (control : WorkflowRunControl)
      → get run_id s.runs ≡ some run
      → budget_change tools now run_id c steps s run control ≡ ok after
      → CoversUsage tools now steps s after run_id
  unfolding budget_change
  budget_change-covers now steps run_id c s after run control found changed =
      let (p1, h1) =
        guard-bind (not (status_is run.status succeeded || status_is run.status cancelled)) _ _
          changed in
      let (held, hb, h2) = >>=-eq-ok (budget_from tools steps run.budget) _ h1 in
      let (updated, hu, h3) =
        >>=-eq-ok
          (lift_budget (replace tools.parse tools.print held (or_value c.command_updates []))) _
          h2 in
      let (covered, h4) =
        guard-bind (budget_can_cover_usage updated (run_usage now s run_id run)) _ _ h3 in
      let valid =
        (replace-IsValid tools.parse tools.print held updated _ (lift_budget-ok _ updated hu)).0 in
      let written = record run { budget = to_data tools.parse tools.print updated } in
      record {
        before = run;
        found_before = found;
        next = written;
        found =
            subst (λ x. get run_id x.runs ≡ some written) (ok-injective h4)
              (get-put_self run_id written s.runs);
        updated = updated;
        budget_of = budget_from-to_data steps run.budget held updated hb valid;
        covers = covered;
        same_status = refl;
      }

  -- A new budget update that is accepted leaves the run with its status and with a valid budget, as it
  -- will be read again, that covers what the run has used.
  pub change_budget-covers :
      (now : ℕ) (steps : Integer) (run_id : ℕ) (c : RunControlCommand) (s after : Store)
      (r : RunControlResult)
      → get c.command_id s.controls ≡ none
      → change_budget tools now steps s run_id c ≡ ok (after, r)
      → CoversUsage tools now steps s after run_id
  unfolding run_usage
  change_budget-covers now steps run_id c s after r fresh h =
      let (run, control, found, recorded, changed) =
        transact-fresh tools now update_budget steps
          (λ run_id c. budget_change tools now run_id c steps) s after run_id c r fresh h in
      let left = budget_change-covers now steps run_id c _ after run control found changed in
      record {
        before = left.before;
        found_before = left.found_before;
        next = left.next;
        found = left.found;
        updated = left.updated;
        budget_of = left.budget_of;
        covers = left.covers;
        same_status = left.same_status;
      }
