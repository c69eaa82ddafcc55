-- ===== src/Production/Advance.antt =====
-- Each step of the production graph lowers the measure and keeps what the states keep.
use open_hollywood.Production.Acceptance.{story_bible_update_node-Updated}
use mathlib.Core.Option.{some-injective}
use open_hollywood.Production.Decisions.{
  critic_adjudication_node-CriticAdjudicated, critique_node-Critiqued,
}
use open_hollywood.Production.Envelope.{
  attempt-dialogue, fits_envelope, onward, route-draft, attempt-eq, result-Same, Advance, Within,
  Ready,
}
use open_hollywood.Production.Graph.{route}
use open_hollywood.Production.Nodes.{
  story_bible_update_node, dialogue_integration_node, critique_node, dialogue_pass_node,
  bible_updated, critiqued, integrated, draft_node, drafted,
}
use open_hollywood.Production.Adjudications.{critic_adjudication_node, critic_adjudicated}
use open_hollywood.Production.Steps.{
  dialogue_integration_node-Integrated, dialogue_pass_node-Passed, draft_node-Drafted,
}
use open_hollywood.Dialogue.{DialogueExecutor, dialogue_max_graph_steps}
use open_hollywood.Production.State.{ProductionState}
use open_hollywood.Production.Rules.{max_graph_steps}
use open_hollywood.Production.Contracts.{
  accept, continuity, story_bible_update, critic_adjudication, dialogue_integration,
  SceneProductionExecutor, draft, dialogue_pass, critique, ProductionNode, SceneProductionInput,
}
use open_hollywood.Prelude.{
  refl, ap, subst, sym, inl, inr, ok, ◌∙◌, ℕ, ◌≤◌, ◌≡◌, some, arith, string_eq, nat_eq,
}

module _ (p : SceneProductionInput) (ex : SceneProductionExecutor) (n : ℕ) (node' : ProductionNode)
    (s s' : ProductionState) where
  pub draft-Advance :
      Within p draft s
      → draft_node ex n s ≡ ok s'
      → route draft s' ≡ some node'
      → Advance p draft node' s s'
  unfolding Ready drafted
  draft-Advance w h r =
      let b = draft_node-Drafted ex n s s' h in
      let same = result-Same s s' _ b.result refl refl refl in
      let steps = attempt-eq s.production s.current_unit_index b.unit b.placed.here in
      elim (route-draft s s' b.unit node' b.placed same r) [
        | inl (to, d, e) ↦
            let (scene, set, rounds, some_round) = b.dialogue_set d e in
            subst (λ x. Advance p draft x s s') (sym to)
              (onward p draft dialogue_pass s s' w same
                (
                  s.dialogue,
                  scene,
                  ap (λ x. x.dialogue) b.result ∙ set,
                  some_round,
                  subst (λ q. dialogue_max_graph_steps scene ≤ max_graph_steps q)
                      (sym same.production)
                      (fits_envelope s.production s.current_unit_index b.unit d scene b.placed.here
                        e rounds),
                )
                (omega (
                  arith,
                  attempt-dialogue s.production s.current_unit_index b.unit d b.placed.here e,
                )))
        | inr to ↦
            subst (λ x. Advance p draft x s s') (sym to)
              (onward p draft critique s s' w same tt (omega (arith, steps)))
      ]

  pub dialogue_pass-Advance :
      (actors : DialogueExecutor) (top : ℕ)
      → Within p dialogue_pass s
      → dialogue_pass_node actors top n s ≡ ok s'
      → route dialogue_pass s' ≡ some node'
      → Advance p dialogue_pass node' s s'
  unfolding Ready route
  dialogue_pass-Advance actors top w h r =
      let b = dialogue_pass_node-Passed actors top n s s' h in
      let same = result-Same s s' _ b.result refl refl refl in
      subst (λ x. Advance p dialogue_pass x s s') (some-injective _ _ r)
        (onward p dialogue_pass dialogue_integration s s' w same tt (omega arith))

  pub dialogue_integration-Advance :
      Within p dialogue_integration s
      → dialogue_integration_node ex n s ≡ ok s'
      → route dialogue_integration s' ≡ some node'
      → Advance p dialogue_integration node' s s'
  unfolding Ready route integrated
  dialogue_integration-Advance w h r =
      let b = dialogue_integration_node-Integrated ex n s s' h in
      let same = result-Same s s' _ b.result refl refl refl in
      subst (λ x. Advance p dialogue_integration x s s') (some-injective _ _ r)
        (onward p dialogue_integration critique s s' w same tt (omega arith))

  pub critique-Advance :
      Within p critique s
      → critique_node ex n s ≡ ok s'
      → route critique s' ≡ some node'
      → Advance p critique node' s s'
  unfolding Ready route critiqued
  critique-Advance w h r =
      let b = critique_node-Critiqued ex n s s' h in
      let same = result-Same s s' _ b.result refl refl refl in
      subst (λ x. Advance p critique x s s') (some-injective _ _ r)
        (onward p critique continuity s s' w same tt (omega arith))

  pub critic_adjudication-Advance :
      Within p critic_adjudication s
      → critic_adjudication_node ex n s ≡ ok s'
      → route critic_adjudication s' ≡ some node'
      → Advance p critic_adjudication node' s s'
  unfolding Ready route critic_adjudicated
  critic_adjudication-Advance w h r =
      let b = critic_adjudication_node-CriticAdjudicated ex n s s' h in
      let same = result-Same s s' _ b.result refl refl refl in
      subst (λ x. Advance p critic_adjudication x s s') (some-injective _ _ r)
        (onward p critic_adjudication story_bible_update s s' w same tt (omega arith))

  pub story_bible_update-Advance :
      Within p story_bible_update s
      → story_bible_update_node ex n s ≡ ok s'
      → route story_bible_update s' ≡ some node'
      → Advance p story_bible_update node' s s'
  unfolding Ready route bible_updated
  story_bible_update-Advance w h r =
      let b = story_bible_update_node-Updated ex n s s' h in
      let same = result-Same s s' _ b.result refl refl refl in
      subst (λ x. Advance p story_bible_update x s s') (some-injective _ _ r)
        (onward p story_bible_update accept s s' w same tt (omega arith))
