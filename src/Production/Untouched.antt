-- ===== src/Production/Untouched.antt =====
-- What every node of the production graph but the acceptance leaves as it is.
use open_hollywood.Production.Contracts.{
  SceneProductionExecutor, ContinuityCheckResult, ProductionNode, draft, dialogue_pass,
  dialogue_integration, critique, continuity, critic_adjudication, continuity_adjudication,
  story_bible_update, accept,
}
use open_hollywood.Production.Acceptance.{story_bible_update_node-Updated}
use open_hollywood.Production.Steps.{
  dialogue_integration_node-Integrated, dialogue_pass_node-Passed, draft_node-Drafted,
}
use open_hollywood.Dialogue.{DialogueExecutor}
use open_hollywood.Production.Decisions.{
  continuity_adjudication_node-Adjudicated, critic_adjudication_node-CriticAdjudicated,
  continuity_node-Checked, critique_node-Critiqued, continuity_outcome-eq-ok, Adjudicated,
}
use open_hollywood.Production.Nodes.{
  bible_updated, continuity_outcome, critiqued, integrated, drafted, checked,
}
use open_hollywood.Production.Adjudications.{critic_adjudicated, adjudicated}
use open_hollywood.Production.State.{ProductionState}
use open_hollywood.Production.Graph.{node_step}
use open_hollywood.Production.Review.{Disposition, dispose, revise, accepted_as}
use open_hollywood.Prelude.{
  ◌∙◌, ℕ, ◌≡◌, refl, ap, inl, inr, Bool, true, false, ok, string_eq, nat_eq,
}

-- The other nodes accept nothing.
pub record Untouched (s s' : ProductionState) : Type 0 where
  pub accepted : s'.accepted_units ≡ s.accepted_units
  pub index : s'.current_unit_index ≡ s.current_unit_index

result-Untouched :
    (s s' t : ProductionState)
    → s' ≡ t
    → t.accepted_units ≡ s.accepted_units
    → t.current_unit_index ≡ s.current_unit_index
    → Untouched s s'
result-Untouched s s' t h a b = record {
  accepted = ap (λ x. x.accepted_units) h ∙ a;
  index = ap (λ x. x.current_unit_index) h ∙ b;
}

outcome-Untouched :
    (s s' : ProductionState) (output : ContinuityCheckResult)
    → continuity_outcome s output ≡ ok s'
    → Untouched s s'
unfolding checked dispose
outcome-Untouched s s' output h = elim (continuity_outcome-eq-ok s s' output h) [
  | inl (e, result) ↦ result-Untouched s s' _ result refl refl
  | inr (e, revise, decided, result) ↦ result-Untouched s s' _ result refl refl
  | inr (e, accepted_as reason, decided, result) ↦ result-Untouched s s' _ result refl refl
]

adjudication-Untouched : (s s' : ProductionState) → Adjudicated s s' → Untouched s s'
unfolding adjudicated dispose
adjudication-Untouched s s' b = split b.disposition b.result
  where
    split :
        (d : Disposition)
        → s' ≡ adjudicated (dispose d s.current_revision_number s) b.output
        → Untouched s s'
    split revise result = result-Untouched s s' _ result refl refl
    split (accepted_as reason) result = result-Untouched s s' _ result refl refl

unfoldable pub is_accept : ProductionNode → Bool
is_accept accept = true
is_accept _ = false

pub untouched :
    (ex : SceneProductionExecutor) (actors : DialogueExecutor) (top n : ℕ) (node : ProductionNode)
    (s s' : ProductionState)
    → is_accept node ≡ false
    → node_step ex actors top n node s ≡ ok s'
    → Untouched s s'
unfolding node_step is_accept drafted integrated critiqued critic_adjudicated bible_updated
untouched ex actors top n draft s s' k h =
    result-Untouched s s' _ (draft_node-Drafted ex n s s' h).result refl refl
untouched ex actors top n dialogue_pass s s' k h =
    result-Untouched s s' _ (dialogue_pass_node-Passed actors top n s s' h).result refl refl
untouched ex actors top n dialogue_integration s s' k h =
    result-Untouched s s' _ (dialogue_integration_node-Integrated ex n s s' h).result refl refl
untouched ex actors top n critique s s' k h =
    result-Untouched s s' _ (critique_node-Critiqued ex n s s' h).result refl refl
untouched ex actors top n continuity s s' k h =
    let b = continuity_node-Checked ex n s s' h in outcome-Untouched s s' b.output b.result
untouched ex actors top n critic_adjudication s s' k h =
    result-Untouched s s' _ (critic_adjudication_node-CriticAdjudicated ex n s s' h).result refl
      refl
untouched ex actors top n continuity_adjudication s s' k h =
    adjudication-Untouched s s' (continuity_adjudication_node-Adjudicated ex n s s' h)
untouched ex actors top n story_bible_update s s' k h =
    result-Untouched s s' _ (story_bible_update_node-Updated ex n s s' h).result refl refl
untouched ex actors top n accept s s' k h = cc k
