-- ===== src/Production/Openings.antt =====
-- The terminal adjudication that a continuity check opens.
use mathlib.Core.Option.{some-injective}
use open_hollywood.Production.Review.{adjudication_status, is_eligible}
use open_hollywood.Production.Envelope.{Ready}
use open_hollywood.Production.Graph.{route}
use open_hollywood.Production.Nodes.{checked}
use open_hollywood.Production.Adjudications.{is_continuity_gate, is_critic_gate}
use open_hollywood.Production.State.{ProductionState}
use open_hollywood.Production.Contracts.{ContinuityCheckResult, continuity, ProductionNode}
use open_hollywood.Prelude.{
  if-cases, ◌≤◌, ltb, true, subst, inl, inr, ◌≡◌, some, arith, string_eq, nat_eq,
}

-- The checkpoint that opens a terminal adjudication.
abbrev pub opened : ProductionState → ContinuityCheckResult → ProductionState
opened s output = record (checked s output) { adjudication_required = true }

opened-critic_gate :
    (s : ProductionState) (output : ContinuityCheckResult)
    → s.current_revision_number ≤ s.production.maximum_revision_cycles
    → is_eligible (adjudication_status s s.current_revision_number output.report) ≡ true
    → ltb 0 s.critique_blocking_issue_count ≡ true
    → is_critic_gate (opened s output) ≡ true
unfolding adjudication_status checked is_critic_gate
opened-critic_gate s output le e blocks = ground arith

opened-continuity_gate :
    (s : ProductionState) (output : ContinuityCheckResult)
    → s.current_revision_number ≤ s.production.maximum_revision_cycles
    → is_eligible (adjudication_status s s.current_revision_number output.report) ≡ true
    → is_continuity_gate (opened s output) ≡ true
unfolding adjudication_status checked is_continuity_gate
opened-continuity_gate s output le e = ground arith

-- The adjudication that a continuity check opens finds its gate open.
pub opened-Ready :
    (s : ProductionState) (output : ContinuityCheckResult) (node' : ProductionNode)
    → s.current_revision_number ≤ s.production.maximum_revision_cycles
    → is_eligible (adjudication_status s s.current_revision_number output.report) ≡ true
    → route continuity (opened s output) ≡ some node'
    → Ready node' (opened s output)
unfolding route checked Ready
opened-Ready s output node' le e r = elim (if-cases (ltb 0 s.critique_blocking_issue_count) _ _ r) [
  | inl (blocks, to) ↦
      subst (λ x. Ready x (opened s output)) (some-injective _ _ to)
        (opened-critic_gate s output le e blocks)
  | inr (free, to) ↦
      subst (λ x. Ready x (opened s output)) (some-injective _ _ to)
        (opened-continuity_gate s output le e)
]
