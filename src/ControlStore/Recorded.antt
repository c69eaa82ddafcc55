-- ===== src/ControlStore/Recorded.antt =====
-- apps/api/open_hollywood_api/services/run_controls.py: the row of a command that has been recorded.
use open_hollywood.ControlStore.Usage.{run_usage}
use open_hollywood.RunControls.Limits.{budget_can_cover_usage}
use open_hollywood.ControlStore.Transactions.{
  result_of, row-some, require_control, require_run, record_found, mark_applied, updates_of,
  lift_budget, record_command, new_control, same_target, same_updates, budget_from, apply_pause,
  same_data,
}
use open_hollywood.ControlStore.Operations.{
  transact, apply_change, requeue, is_user_or_budget, stopped, conclude, is_human_approval,
  budget_change, retry_change, resume_change, stop_change, pause_change, Change,
}
use open_hollywood.RunControls.{action_is, RunControlAction, replace, Value, RunControlCommand}
use open_hollywood.ControlStore.Contracts.{
  EventDetails, status_is, WorkflowRun, RunControlResult, WorkflowRunControl, Store, ControlTools,
  cancelled, paused, pending, running, succeeded,
}
use mathlib.Core.Option.{some-injective}
use open_hollywood.Prelude.{
  if-cases, true, or_value, get-put_self, ok-injective, Dict, Integer, get, ℕ, ◌≡◌, refl, sym, ◌∙◌,
  subst, inl, inr, Bool, true, ◌||◌, not, Option, none, some, [], ◌∷◌, arith, ok, >>=-eq-ok,
  guard-bind, if◌then◌else◌, string_eq, nat_eq, String, run,
}

-- The command has a row with its data.
pub record HasRow (tools : ControlTools) (run_id : ℕ) (c : RunControlCommand) (s : Store)
    : Type 0 where
  pub control : WorkflowRunControl
  pub found : get c.command_id s.controls ≡ some control
  pub same : same_data tools control run_id c ≡ true

module _ (tools : ControlTools) (now : ℕ) where
  module _ (run_id : ℕ) (c : RunControlCommand) where
    abbrev pub IsRecorded : Store → Type 0
    IsRecorded s = HasRow tools run_id c s

    -- A change keeps the data of the command's row.
    abbrev pub Keeps : Change → Type 0
    Keeps change =
        (s after : Store) (run : WorkflowRun) (control : WorkflowRunControl)
        → get c.command_id s.controls ≡ some control
        → same_data tools control run_id c ≡ true
        → change s run control ≡ ok after
        → IsRecorded after

    conclude-IsRecorded :
        (s : Store) (run : WorkflowRun) (control : WorkflowRunControl) (name : String)
        (payload : EventDetails)
        → same_data tools control run_id c ≡ true
        → IsRecorded (conclude tools now run_id c run control name payload s)
    unfolding same_data
    conclude-IsRecorded s run control name payload same = record {
      control = mark_applied now run.checkpoint_id control;
      found = get-put_self c.command_id (mark_applied now run.checkpoint_id control) s.controls;
      same = same;
    }

    pub pause_change-keeps : Keeps (pause_change tools now run_id c)
    unfolding pause_change apply_pause same_data
    pause_change-keeps s after run control found same h =
        elim (if-cases (status_is run.status pending) _ _ h) [
          | inl (p, e) ↦ subst IsRecorded (ok-injective e) (record {
            control = mark_applied now run.checkpoint_id control;
            found =
                get-put_self c.command_id (mark_applied now run.checkpoint_id control) s.controls;
            same = same;
          })
          | inr (p, e) ↦ elim (if-cases (status_is run.status running) _ _ e) [
            | inl (q, e') ↦
                subst IsRecorded (ok-injective e')
                  (record { control = control; found = found; same = same })
            | inr (q, e') ↦ cc e'
          ]
        ]

    pub stop_change-keeps : Keeps (stop_change tools now run_id c)
    unfolding stop_change
    stop_change-keeps s after run control found same h =
        let (open_run, h1) =
          guard-bind (not (status_is run.status succeeded || status_is run.status cancelled)) _ _
            h in
        subst IsRecorded (ok-injective h1)
          (conclude-IsRecorded s (stopped tools now run_id c run) control _ _ same)

    pub resume_change-keeps : Keeps (resume_change tools now run_id c)
    unfolding resume_change
    resume_change-keeps s after run control found same h =
        let (p1, h1) = guard-bind (status_is run.status paused) _ _ h in
        let (p2, h2) = guard-bind (not (is_human_approval run.pause_reason)) _ _ h1 in
        let (p3, h3) = guard-bind (is_user_or_budget run.pause_reason) _ _ h2 in
        subst IsRecorded (ok-injective h3) (conclude-IsRecorded s (requeue run) control _ _ same)

    pub retry_change-keeps : Keeps (retry_change tools now run_id c)
    unfolding retry_change
    retry_change-keeps s after run control found same h =
        let (p1, h1) =
          guard-bind (not (status_is run.status pending || status_is run.status running)) _ _ h in
        subst IsRecorded (ok-injective h1)
          (record { control = control; found = found; same = same })

    pub budget_change-keeps : (steps : Integer) → Keeps (budget_change tools now run_id c steps)
    unfolding budget_change
    budget_change-keeps steps s after run control found same h =
        let (p1, h1) =
          guard-bind (not (status_is run.status succeeded || status_is run.status cancelled)) _ _
            h in
        let (held, p2, h2) = >>=-eq-ok (budget_from tools steps run.budget) _ h1 in
        let (updated, p3, h3) =
          >>=-eq-ok
            (lift_budget (replace tools.parse tools.print held (or_value c.command_updates []))) _
            h2 in
        let (p4, h4) =
          guard-bind (budget_can_cover_usage updated (run_usage now s run_id run)) _ _ h3 in
        subst IsRecorded (ok-injective h4) (conclude-IsRecorded s _ control _ _ same)

    module _ (reflexive : (d : Dict String Value) → tools.same_object d d ≡ true) where
      same_updates_refl :
          (o : Option (Dict String Value)) → same_updates tools (updates_of o) (updates_of o) ≡ true
      same_updates_refl none = refl
      same_updates_refl (some []) = refl
      same_updates_refl (some (e ∷ es)) = reflexive (e ∷ es)

      same_target_refl : (o : Option String) → same_target o o ≡ true
      same_target_refl none = refl
      same_target_refl (some t) = (string_eq.is_same_iff t t).1 refl

      new_control-same : same_data tools (new_control tools now run_id c) run_id c ≡ true
      unfolding same_data
      new_control-same =
          ground (arith, same_updates_refl c.command_updates, same_target_refl c.command_target)

      record_found-IsRecorded :
          (s s1 : Store) (known : Bool) (o : Option WorkflowRunControl)
          → get c.command_id s.controls ≡ o
          → record_found tools now s run_id c o ≡ ok (s1, known)
          → IsRecorded s1
      unfolding record_found
      record_found-IsRecorded s s1 known (some existing) found h =
          let (same, h1) = guard-bind (same_data tools existing run_id c) _ _ h in
          subst (λ q. IsRecorded q.0) (ok-injective h1)
            (record { control = existing; found = found; same = same })
      record_found-IsRecorded s s1 known none found h =
          let (run, p, h1) = >>=-eq-ok (require_run s run_id) _ h in
          subst (λ q. IsRecorded q.0) (ok-injective h1)
            (record {
              control = new_control tools now run_id c;
              found = get-put_self c.command_id (new_control tools now run_id c) s.controls;
              same = new_control-same;
            })

      IsRecorded-record_command :
          (s : Store) → IsRecorded s → record_command tools now s run_id c ≡ ok (s, true)
      unfolding record_found
      IsRecorded-record_command s is = rw (is.found, is.same) refl

      apply_change-IsRecorded :
          (change : Change) (s after : Store)
          → Keeps change
          → IsRecorded s
          → apply_change change s run_id c ≡ ok after
          → IsRecorded after
      unfolding apply_change
      apply_change-IsRecorded change s after keeps is h =
          let (run, p, h1) = >>=-eq-ok (require_run s run_id) _ h in
          let (control, q, h2) = >>=-eq-ok (require_control s c.command_id) _ h1 in
          let same_row = some-injective _ _ (sym is.found ∙ row-some _ _ _ q) in
          keeps s after run control (row-some _ _ _ q)
            (subst (λ x. same_data tools x run_id c ≡ true) same_row is.same) h2

      -- A command that is recorded gives the result of its row.
      pub transact-recorded :
          (wanted : RunControlAction) (steps : Integer) (change : ℕ → RunControlCommand → Change)
          (s : Store) (r : RunControlResult)
          → action_is c.command_action wanted ≡ true
          → IsRecorded s
          → result_of tools now steps s c.command_id ≡ ok r
          → transact tools now wanted steps change s run_id c ≡ ok (s, r)
      unfolding transact
      transact-recorded wanted steps change s r right is result =
          rw (right, IsRecorded-record_command s is, result) refl

      -- A transaction that has committed leaves the row of its command, and the result is that row's.
      pub transact-IsRecorded :
          (wanted : RunControlAction) (steps : Integer) (change : ℕ → RunControlCommand → Change)
          (s after : Store) (r : RunControlResult)
          → Keeps (change run_id c)
          → transact tools now wanted steps change s run_id c ≡ ok (after, r)
          → (action_is c.command_action wanted ≡ true)
            × IsRecorded after
            × (result_of tools now steps after c.command_id ≡ ok r)
      unfolding transact
      transact-IsRecorded wanted steps change s after r keeps h =
          let (right, h1) = guard-bind (action_is c.command_action wanted) _ _ h in
          let (recorded, p, h2) = >>=-eq-ok (record_command tools now s run_id c) _ h1 in
          let (last, q, h3) =
            >>=-eq-ok
              (if recorded.1
                then ok recorded.0
                else apply_change (change run_id c) recorded.0 run_id c)
              _ h2 in
          let (result, t, h4) = >>=-eq-ok (result_of tools now steps last c.command_id) _ h3 in
          let first = record_found-IsRecorded s recorded.0 recorded.1 _ refl p in
          let is : IsRecorded last = elim (if-cases recorded.1 _ _ q) [
            | inl (known, e) ↦ subst IsRecorded (ok-injective e) first
            | inr (fresh, e) ↦
                apply_change-IsRecorded (change run_id c) recorded.0 last keeps first e
          ] in
          subst
            (λ x.
              (action_is c.command_action wanted ≡ true)
              × IsRecorded x.0
              × (result_of tools now steps x.0 c.command_id ≡ ok x.1))
            (ok-injective h4) (right, is, t)
