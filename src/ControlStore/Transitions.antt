-- ===== src/ControlStore/Transitions.antt =====
-- apps/api/open_hollywood_api/services/run_controls.py: the statuses that a run goes through. The graphs'
-- own transitions, of the runtime, are not among these.
use open_hollywood.ControlStore.Usage.{run_usage}
use open_hollywood.RunControls.Limits.{budget_can_cover_usage}
use open_hollywood.ControlStore.Transactions.{
  new_control, save_control, row-some, require_control, result_of, record_command, require_run,
  same_data, lift_budget, paused_run, budget_from, apply_pause, record_found,
}
use open_hollywood.ControlStore.Operations.{
  requeue, is_user_or_budget, stopped, apply_change, is_human_approval, transact, budget_change,
  retry_change, resume_change, stop_change, pause_change, Change,
}
use open_hollywood.RunControls.{action_is, replace, RunControlAction, RunControlCommand}
use mathlib.Core.Option.{some-injective}
use open_hollywood.ControlStore.Contracts.{
  RunControlResult, WorkflowRunControl, Store, WorkflowRun, status_is, ControlTools, RunStatus,
  cancelled, paused, pending, running, succeeded, failed, user,
}
use open_hollywood.Prelude.{
  or_value, if-cases, Integer, ok-injective, get-put, put, Dict, get, Bool-cases, if-true, if-false,
  nat_beq_iff, true, false, ℕ, ◌≡◌, refl, sym, ◌∙◌, subst, ap, inl, inr, Bool, true, false, ◌||◌,
  not, Option, none, some, [], arith, ok, >>=-eq-ok, guard-bind, if◌then◌else◌, string_eq, nat_eq,
  nat_beq, run,
}

-- The statuses that a control or a boundary may give a run in a status. Only the boundary before a node
-- pauses a run that has succeeded or failed.
abbrev pub can_move : RunStatus → RunStatus → Bool
can_move cancelled to = status_is to cancelled
can_move succeeded to = status_is to succeeded || status_is to paused
can_move failed to = not (status_is to succeeded || status_is to running)
can_move running to = not (status_is to succeeded || status_is to failed || status_is to pending)
can_move pending to = not (status_is to succeeded || status_is to failed || status_is to running)
can_move paused to = not (status_is to succeeded || status_is to failed || status_is to running)

-- Every run is kept, with a status that it may have moved to.
pub record Moves (before after : Dict ℕ WorkflowRun) : Type 0 where
  pub moves :
      (id : ℕ) (run : WorkflowRun)
      → get id before ≡ some run
      → (next : WorkflowRun) × (get id after ≡ some next) × (can_move run.status next.status ≡ true)

pub can_move_refl : (status : RunStatus) → can_move status status ≡ true
can_move_refl pending = refl
can_move_refl running = refl
can_move_refl paused = refl
can_move_refl succeeded = refl
can_move_refl failed = refl
can_move_refl cancelled = refl

pub can_pause :
    (status : RunStatus) → status_is status cancelled ≡ false → can_move status paused ≡ true
can_pause pending h = refl
can_pause running h = refl
can_pause paused h = refl
can_pause succeeded h = refl
can_pause failed h = refl
can_pause cancelled h = cc h

can_cancel :
    (status : RunStatus)
    → not (status_is status succeeded || status_is status cancelled) ≡ true
    → can_move status cancelled ≡ true
can_cancel pending h = refl
can_cancel running h = refl
can_cancel paused h = refl
can_cancel succeeded h = cc h
can_cancel failed h = refl
can_cancel cancelled h = refl

pub can_requeue :
    (status : RunStatus)
    → status_is status paused || status_is status failed ≡ true
    → can_move status pending ≡ true
can_requeue pending h = refl
can_requeue running h = cc h
can_requeue paused h = refl
can_requeue succeeded h = cc h
can_requeue failed h = refl
can_requeue cancelled h = cc h

pub Moves-same : (runs : Dict ℕ WorkflowRun) → Moves runs runs
Moves-same runs = record { moves = λ id run found. (run, found, can_move_refl run.status) }

pub Moves-put :
    (runs : Dict ℕ WorkflowRun) (run_id : ℕ) (run next : WorkflowRun)
    → get run_id runs ≡ some run
    → can_move run.status next.status ≡ true
    → Moves runs (put run_id next runs)
Moves-put runs run_id run next found may = record {
  moves = λ id other at. elim (Bool-cases (nat_beq run_id id)) [
    | inl same ↦
        let run_is =
          some-injective _ _
            (sym found ∙ (ap (λ k. get k runs) ((nat_beq_iff run_id id).0 same) ∙ at)) in
        (
          next,
          get-put run_id id next runs ∙ if-true _ _ _ same,
          subst (λ x. can_move x.status next.status ≡ true) run_is may,
        )
    | inr different ↦ (
      other,
      get-put run_id id next runs ∙ (if-false _ _ _ different ∙ at),
      can_move_refl other.status,
    )
  ];
}

module _ (tools : ControlTools) (now run_id : ℕ) (c : RunControlCommand) where
  -- A change moves its run only.
  abbrev MovesRun : Change → Type 0
  MovesRun change =
      (s after : Store) (run : WorkflowRun) (control : WorkflowRunControl)
      → get run_id s.runs ≡ some run
      → change s run control ≡ ok after
      → Moves s.runs after.runs

  pub pause_change-moves : MovesRun (pause_change tools now run_id c)
  unfolding pause_change apply_pause
  pause_change-moves s after run control found h =
      elim (if-cases (status_is run.status pending) _ _ h) [
        | inl (p, e) ↦
            subst (λ x. Moves s.runs x.runs) (ok-injective e)
              (Moves-put s.runs run_id run (paused_run now user run) found
                (can_pause run.status (ground (arith, p))))
        | inr (p, e) ↦ elim (if-cases (status_is run.status running) _ _ e) [
          | inl (q, e') ↦ subst (λ x. Moves s.runs x.runs) (ok-injective e') (Moves-same s.runs)
          | inr (q, e') ↦ cc e'
        ]
      ]

  pub stop_change-moves : MovesRun (stop_change tools now run_id c)
  unfolding stop_change
  stop_change-moves s after run control found h =
      let (open_run, h1) =
        guard-bind (not (status_is run.status succeeded || status_is run.status cancelled)) _ _ h in
      subst (λ x. Moves s.runs x.runs) (ok-injective h1)
        (Moves-put s.runs run_id run (stopped tools now run_id c run) found
          (can_cancel run.status open_run))

  pub resume_change-moves : MovesRun (resume_change tools now run_id c)
  unfolding resume_change
  resume_change-moves s after run control found h =
      let (p1, h1) = guard-bind (status_is run.status paused) _ _ h in
      let (p2, h2) = guard-bind (not (is_human_approval run.pause_reason)) _ _ h1 in
      let (p3, h3) = guard-bind (is_user_or_budget run.pause_reason) _ _ h2 in
      subst (λ x. Moves s.runs x.runs) (ok-injective h3)
        (Moves-put s.runs run_id run (requeue run) found
          (can_requeue run.status (ground (arith, p1))))

  pub retry_change-moves : MovesRun (retry_change tools now run_id c)
  unfolding retry_change
  retry_change-moves s after run control found h =
      let (p1, h1) =
        guard-bind (not (status_is run.status pending || status_is run.status running)) _ _ h in
      subst (λ x. Moves s.runs x.runs) (ok-injective h1) (Moves-same s.runs)

  pub budget_change-moves : (steps : Integer) → MovesRun (budget_change tools now run_id c steps)
  unfolding budget_change
  budget_change-moves steps s after run control found h =
      let (p1, h1) =
        guard-bind (not (status_is run.status succeeded || status_is run.status cancelled)) _ _ h in
      let (held, p2, h2) = >>=-eq-ok (budget_from tools steps run.budget) _ h1 in
      let (updated, p3, h3) =
        >>=-eq-ok
          (lift_budget (replace tools.parse tools.print held (or_value c.command_updates []))) _
          h2 in
      let (p4, h4) =
        guard-bind (budget_can_cover_usage updated (run_usage now s run_id run)) _ _ h3 in
      subst (λ x. Moves s.runs x.runs) (ok-injective h4)
        (Moves-put s.runs run_id run _ found (can_move_refl run.status))

  record_found-runs :
      (s s1 : Store) (known : Bool) (o : Option WorkflowRunControl)
      → record_found tools now s run_id c o ≡ ok (s1, known)
      → s.runs ≡ s1.runs
  unfolding record_found
  record_found-runs s s1 known (some existing) h =
      let (same, h1) = guard-bind (same_data tools existing run_id c) _ _ h in
      ap (λ q. q.0.runs) (ok-injective h1)
  record_found-runs s s1 known none h =
      let (run, p, h1) = >>=-eq-ok (require_run s run_id) _ h in
      ap (λ q. q.0.runs) (ok-injective h1)

  pub transact-Moves :
      (wanted : RunControlAction) (steps : Integer) (change : ℕ → RunControlCommand → Change)
      (s after : Store) (r : RunControlResult)
      → MovesRun (change run_id c)
      → transact tools now wanted steps change s run_id c ≡ ok (after, r)
      → Moves s.runs after.runs
  unfolding transact apply_change
  transact-Moves wanted steps change s after r keeps h =
      let (right, h1) = guard-bind (action_is c.command_action wanted) _ _ h in
      let (recorded, p, h2) = >>=-eq-ok (record_command tools now s run_id c) _ h1 in
      let (last, q, h3) =
        >>=-eq-ok
          (if recorded.1 then ok recorded.0 else apply_change (change run_id c) recorded.0 run_id c)
          _ h2 in
      let (result, t, h4) = >>=-eq-ok (result_of tools now steps last c.command_id) _ h3 in
      let moved : Moves recorded.0.runs last.runs = elim (if-cases recorded.1 _ _ q) [
        | inl (known, e) ↦
            subst (λ x. Moves recorded.0.runs x.runs) (ok-injective e) (Moves-same recorded.0.runs)
        | inr (fresh, e) ↦
            let (run, a, e1) = >>=-eq-ok (require_run recorded.0 run_id) _ e in
            let (control, b, e2) = >>=-eq-ok (require_control recorded.0 c.command_id) _ e1 in
            keeps recorded.0 last run control (row-some _ _ _ a) e2
      ] in
      subst (λ x. Moves s.runs x.0.runs) (ok-injective h4)
        (subst (λ d. Moves d last.runs) (sym (record_found-runs s recorded.0 recorded.1 _ p)) moved)

-- A command that is new is recorded, and its change is applied.
pub transact-fresh :
    (tools : ControlTools) (now : ℕ) (wanted : RunControlAction) (steps : Integer)
    (change : ℕ → RunControlCommand → Change) (s after : Store) (run_id : ℕ) (c : RunControlCommand)
    (r : RunControlResult)
    → get c.command_id s.controls ≡ none
    → transact tools now wanted steps change s run_id c ≡ ok (after, r)
    → (run : WorkflowRun) × (control : WorkflowRunControl) × (get run_id s.runs ≡ some run)
      × (result_of tools now steps after c.command_id ≡ ok r)
      × (change run_id c (save_control c.command_id (new_control tools now run_id c) s) run control
          ≡ ok after)
unfolding transact record_found apply_change
transact-fresh tools now wanted steps change s after run_id c r fresh h =
    let (right, h1) = guard-bind (action_is c.command_action wanted) _ _ h in
    let (recorded, p, h2) = >>=-eq-ok (record_command tools now s run_id c) _ h1 in
    let (last, e, h3) =
      >>=-eq-ok
        (if recorded.1 then ok recorded.0 else apply_change (change run_id c) recorded.0 run_id c) _
        h2 in
    let (result, t, h4) = >>=-eq-ok (result_of tools now steps last c.command_id) _ h3 in
    let p' = subst (λ o. record_found tools now s run_id c o ≡ ok recorded) fresh p in
    let (run0, q0, p1) = >>=-eq-ok (require_run s run_id) _ p' in
    let recorded_is = ok-injective p1 in
    let e' =
      subst (λ x. (if x.1 then ok x.0 else apply_change (change run_id c) x.0 run_id c) ≡ ok last)
        (sym recorded_is) e in
    let (run, a, e1) = >>=-eq-ok (require_run s run_id) _ e' in
    let (control, b, e2) =
      >>=-eq-ok
        (require_control (save_control c.command_id (new_control tools now run_id c) s)
          c.command_id)
        _ e1 in
    let pair = ok-injective h4 in
    (
      run,
      control,
      row-some _ _ _ a,
      subst (λ x. result_of tools now steps x.0 c.command_id ≡ ok x.1) pair t,
      subst
          (λ x.
            change run_id c (save_control c.command_id (new_control tools now run_id c) s) run
              control
            ≡ ok x.0)
          pair e2,
    )
