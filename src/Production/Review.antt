-- ===== src/Production/Review.antt =====
-- The review gate: what a critique and a continuity report decide about a candidate scene.
use open_hollywood.Prelude.{
  ℕ, suc, ◌+◌, Bool, true, false, none, some, List, [], ◌∷◌, ◌&&◌, ◌||◌, not, string_eq, elem, any,
  count_if, leb, ltb, nat_beq, if◌then◌else◌, Result, ok, raise,
}
use open_hollywood.Artifacts.{
  CritiqueIssue, is_blocking, ContinuityReport, has_blocking_findings, is_contradiction,
  is_world_rule,
}
use open_hollywood.Production.Contracts.{
  ProductionError, UnitAcceptanceReason, passed_rubric, revision_limit_reached,
  adjudicable_critic_categories,
}
use open_hollywood.Production.State.{ProductionState}

-- What `_critique_node` derives from the issues.
unfoldable pub blocking_count : List CritiqueIssue → ℕ
blocking_count issues = count_if (λ issue. is_blocking issue.severity) issues

unfoldable pub adjudicable_count : List CritiqueIssue → ℕ
adjudicable_count issues =
    count_if
      (λ issue. is_blocking issue.severity && elem issue.category adjudicable_critic_categories)
      issues

unfoldable pub blocking_indexes : ℕ → List CritiqueIssue → List ℕ
blocking_indexes k [] = []
blocking_indexes k (issue ∷ issues) =
    let rest = blocking_indexes (suc k) issues in
    if is_blocking issue.severity then k ∷ rest else rest

pub data AdjudicationStatus : Type 0 where
  completed revision_budget_remaining skipped_competing_review_blockers : AdjudicationStatus
  eligible skipped_hard_critic_blockers : AdjudicationStatus
  skipped_no_eligible_non_world_contradiction : AdjudicationStatus

-- `_adjudication_status`
unfoldable pub adjudication_status : ProductionState → ℕ → ContinuityReport → AdjudicationStatus
adjudication_status s revision_number report =
    if s.adjudication_completed
    then completed
    else if ltb revision_number s.production.maximum_revision_cycles
    then revision_budget_remaining
    else if ltb 0 s.critique_blocking_issue_count
    then (if has_blocking_findings report
        then skipped_competing_review_blockers
        else if ltb 0 revision_number
            && nat_beq s.critique_adjudicable_issue_count s.critique_blocking_issue_count
        then eligible
        else skipped_hard_critic_blockers)
    else if any
        (λ finding.
          finding.blocks_approval
          && is_contradiction finding.basis
          && not (is_world_rule finding.category))
        report.findings
    then eligible
    else skipped_no_eligible_non_world_contradiction

abbrev pub is_eligible : AdjudicationStatus → Bool
is_eligible eligible = true
is_eligible _ = false

-- The fields that `_review_disposition` writes; `scheduled` is left alone where it writes no key.
pub data Disposition : Type 0 where
  revise : Disposition
  accepted_as : UnitAcceptanceReason → Disposition

-- `_review_disposition`
unfoldable pub review_disposition :
    ProductionState → ℕ → ContinuityReport → Result ProductionError Disposition
review_disposition s revision_number report =
    let has_blockers = has_blocking_findings report in
    let maximum = s.production.maximum_revision_cycles in
    if has_blockers && leb maximum revision_number
    then raise ProductionError.continuity_revision_limit
    else if ltb 0 s.critique_blocking_issue_count && leb maximum revision_number
    then raise ProductionError.critique_revision_limit
    else if (has_blockers || s.critique_requires_revision) && ltb revision_number maximum
    then ok revise
    else if s.critique_requires_revision
    then ok (accepted_as revision_limit_reached)
    else ok (accepted_as passed_rubric)

-- `update.update(...)` with the disposition's keys.
unfoldable pub dispose : Disposition → ℕ → ProductionState → ProductionState
dispose revise revision_number s = record s {
  current_revision_number = revision_number + 1;
  current_acceptance_reason = none;
  revision_scheduled = true;
}
dispose (accepted_as reason) revision_number s = record s {
  current_acceptance_reason = some reason;
}

-- The acceptance reason of a critique without a blocking issue, after its adjudication.
abbrev pub adjudicated_reason : Bool → UnitAcceptanceReason
adjudicated_reason true = revision_limit_reached
adjudicated_reason false = passed_rubric
