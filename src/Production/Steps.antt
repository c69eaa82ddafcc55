-- ===== src/Production/Steps.antt =====
-- What a node of the production graph that returns has checked, and what it wrote: the draft, the
-- dialogue and its integration.
use open_hollywood.Prelude.{
  ℕ, ◌≤◌, ◌≡◌, refl, ◌∙◌, subst, inl, inr, true, not, Option, none, some, List, ◌∷◌, ◌++◌, arith,
  Result, ok, ◌>>=◌, >>=-eq-ok, guard-bind, ◌==◌, string_eq, nat_eq, get_elem?, is_some,
  Result-cases,
}
use open_hollywood.Production.Validate.{all_inputs, validate_draft}
use open_hollywood.Production.Nodes.{
  lift_dialogue, dialogue_outcome, dialogue_integration_node, integrated, dialogue_pass_node,
  drafted, with_dialogue, draft_node,
}
use open_hollywood.Artifacts.{kind_eq, scene_draft, ArtifactReference}
use open_hollywood.Production.Rules.{production_valid}
use open_hollywood.Dialogue.{
  director_briefing, dialogue_result_from_state, run_dialogue, DialogueExecutor,
  initial_dialogue_state, DialogueSceneInput, DialogueState,
}
use open_hollywood.Production.Contracts.{
  DialoguePassConfiguration, ProductionError, SceneDraftResult, SceneProductionInput,
  ProductionUnitInput, SceneProductionExecutor,
}
use open_hollywood.Production.Tasks.{
  integration_task, writing_task, previous_inputs, conflicts, dialogue_character,
  dialogue_scene_input,
}
use open_hollywood.Production.State.{
  lift, required, current_critique_history, accepted_artifacts, found, current_unit,
  production_from_state, ProductionState,
}

-- The unit that a state works on, under a valid assignment.
pub record Placed (s : ProductionState) (unit : ProductionUnitInput) : Type 0 where
  pub valid : production_valid s.production ≡ true
  pub here : get_elem? s.production.units s.current_unit_index ≡ some unit

pub production_from_state-eq-ok :
    (s : ProductionState) (p : SceneProductionInput)
    → production_from_state s ≡ ok p
    → (p ≡ s.production) × (production_valid s.production ≡ true)
unfolding production_from_state
production_from_state-eq-ok s p h = ground arith

pub current_unit-eq-ok :
    (s : ProductionState) (p : SceneProductionInput) (unit : ProductionUnitInput)
    → current_unit s p ≡ ok unit
    → get_elem? p.units s.current_unit_index ≡ some unit
unfolding current_unit
current_unit-eq-ok s p unit h = ground arith

pub found-eq-ok {ℓ} :
    {A : Type ℓ} (e : ProductionError) (o : Option A) (a : A) → found e o ≡ ok a → o ≡ some a
found-eq-ok e o a h = ground arith

-- Every node but the subgraph begins in this way.
pub opening {ℓ} :
    {B : Type ℓ} (s : ProductionState)
    (f : SceneProductionInput → ProductionUnitInput → Result ProductionError B) {b : B}
    → (production_from_state s >>= λ p. current_unit s p >>= λ u. f p u) ≡ ok b
    → (unit : ProductionUnitInput) × Placed s unit × (f s.production unit ≡ ok b)
opening s f {b} h =
    let (p, e1, h1) = >>=-eq-ok (production_from_state s) _ h in
    let (same, v) = production_from_state-eq-ok s p e1 in
    let (unit, e2, h2) = >>=-eq-ok (current_unit s p) _ h1 in
    (
      unit,
      record {
        valid = v;
        here =
            subst (λ q. get_elem? q.units s.current_unit_index ≡ some unit) same
              (current_unit-eq-ok s p unit e2);
      },
      subst (λ q. f q unit ≡ ok b) same h2,
    )

-- The state after a draft: with the dialogue's keys when the unit has one.
pub record Drafted (s s' : ProductionState) : Type 0 where
  pub unit : ProductionUnitInput
  pub placed : Placed s unit
  pub output : SceneDraftResult
  pub feedback : Option ArtifactReference
  pub dialogue_state : Option DialogueState
  pub result : s' ≡ record (drafted s feedback output) { dialogue = dialogue_state }
  pub kind : (output.artifact.kind == scene_draft) ≡ true
  pub dialogue_set :
      (d : DialoguePassConfiguration)
      → unit.dialogue_configuration ≡ some d
      → (scene : DialogueSceneInput) × (dialogue_state
          ≡ some (initial_dialogue_state s.dialogue scene))
        × (scene.maximum_rounds ≡ d.maximum_rounds)
        × (1 ≤ scene.maximum_rounds)

dialogue_scene_input-eq-ok :
    (s : ProductionState) (p : SceneProductionInput) (unit : ProductionUnitInput)
    (d : DialoguePassConfiguration) (candidate : ArtifactReference)
    (accepted : List ArtifactReference) (scene : DialogueSceneInput)
    → dialogue_scene_input s p unit d candidate accepted ≡ ok scene
    → (scene.maximum_rounds ≡ d.maximum_rounds) × (1 ≤ scene.maximum_rounds)
unfolding dialogue_scene_input
dialogue_scene_input-eq-ok s p unit d candidate accepted scene h =
    let (first, e1, h1) = >>=-eq-ok (dialogue_character unit d.first_id) _ h in
    let (second, e2, h2) = >>=-eq-ok (dialogue_character unit d.second_id) _ h1 in
    ground (arith, h2)

module _ (s : ProductionState) (p : SceneProductionInput) (unit : ProductionUnitInput)
    (accepted : List ArtifactReference) (output : SceneDraftResult) where
  -- What the dialogue's keys are set to.
  with_dialogue-eq-ok :
      (o : Option DialoguePassConfiguration) (t t' : ProductionState)
      → with_dialogue s p unit accepted output o t ≡ ok t'
      → (d : Option DialogueState) × (t' ≡ record t { dialogue = d })
        × ((c : DialoguePassConfiguration)
            → o ≡ some c
            → (scene : DialogueSceneInput) × (d ≡ some (initial_dialogue_state s.dialogue scene))
              × (scene.maximum_rounds ≡ c.maximum_rounds)
              × (1 ≤ scene.maximum_rounds))
  unfolding with_dialogue
  with_dialogue-eq-ok none t t' h = (t.dialogue, cc h, λ c e. cc e)
  with_dialogue-eq-ok (some c) t t' h =
      let (scene, e1, h1) =
        >>=-eq-ok (dialogue_scene_input s p unit c output.artifact accepted) _ h in
      let (rounds, some_round) =
        dialogue_scene_input-eq-ok s p unit c output.artifact accepted scene e1 in
      (
        some (initial_dialogue_state s.dialogue scene),
        cc h1,
        λ c' e. (scene, refl, rounds ∙ ground (arith, e), some_round),
      )

validate_draft-kind :
    (unit : ProductionUnitInput) (r : ℕ) (output : SceneDraftResult)
    (inputs : List ArtifactReference) {u : Unit {0}}
    → validate_draft unit r output inputs ≡ ok u
    → (output.artifact.kind == scene_draft) ≡ true
unfolding validate_draft
validate_draft-kind unit r output inputs h =
    (guard-bind (output.artifact.kind == scene_draft) _ _ h).0

module _ (ex : SceneProductionExecutor) (n : ℕ) (s s' : ProductionState) where
  pub draft_node-Drafted : draft_node ex n s ≡ ok s' → Drafted s s'
  unfolding draft_node
  draft_node-Drafted h =
      let (unit, placed, h1) = opening s _ h in
      let (accepted, e2, h2) = >>=-eq-ok (accepted_artifacts s) _ h1 in
      let (_, h3) =
        guard-bind (not (conflicts s.current_continuity_artifact s.pending_continuity_artifact)) _ _
          h2 in
      let (previous, e4, h4) = >>=-eq-ok (previous_inputs s) _ h3 in
      let (history, e5, h5) =
        >>=-eq-ok (current_critique_history s.critique_artifacts s.current_revision_number) _ h4 in
      let task = writing_task s s.production unit accepted previous history in
      let (output, e6, h6) = >>=-eq-ok (lift (ex.write n task)) _ h5 in
      let (_, e7, h7) =
        >>=-eq-ok (validate_draft unit s.current_revision_number output (all_inputs task)) _ h6 in
      let (d, same, set) =
        with_dialogue-eq-ok s s.production unit accepted output unit.dialogue_configuration
          (drafted s previous.continuity_artifact output) s' h7 in
      record {
        unit = unit;
        placed = placed;
        output = output;
        feedback = previous.continuity_artifact;
        dialogue_state = d;
        result = same;
        kind = validate_draft-kind unit s.current_revision_number output (all_inputs task) e7;
        dialogue_set = set;
      }

-- The state after the subgraph.
pub record Passed (s s' : ProductionState) : Type 0 where
  pub output : DialogueState
  pub result : s' ≡ record s { dialogue = some output }

pub dialogue_pass_node-Passed :
    (actors : DialogueExecutor) (top n : ℕ) (s s' : ProductionState)
    → dialogue_pass_node actors top n s ≡ ok s'
    → Passed s s'
unfolding dialogue_pass_node dialogue_outcome
dialogue_pass_node-Passed actors top n s s' h =
    let (d, e1, h1) = >>=-eq-ok (found ProductionError.dialogue_not_configured s.dialogue) _ h in
    elim (Result-cases (run_dialogue actors top n director_briefing d)) [
      | inl (e, he) ↦ ground (arith, he)
      | inr (out, ho) ↦ record { output = out; result = ground (arith, ho) }
    ]

-- The state after the dialogue's integration.
pub record Integrated (s s' : ProductionState) : Type 0 where
  pub unit : ProductionUnitInput
  pub placed : Placed s unit
  pub output : SceneDraftResult
  pub result : s' ≡ integrated s output
  pub kind : (output.artifact.kind == scene_draft) ≡ true

pub dialogue_integration_node-Integrated :
    (ex : SceneProductionExecutor) (n : ℕ) (s s' : ProductionState)
    → dialogue_integration_node ex n s ≡ ok s'
    → Integrated s s'
unfolding dialogue_integration_node
dialogue_integration_node-Integrated ex n s s' h =
    let (unit, placed, h1) = opening s _ h in
    let (_, h2) = guard-bind (is_some unit.dialogue_configuration) _ _ h1 in
    let (source, e3, h3) = >>=-eq-ok (required s.current_draft_artifact) _ h2 in
    let (d, e4, h4) = >>=-eq-ok (found ProductionError.dialogue_not_configured s.dialogue) _ h3 in
    let (dialogue, e5, h5) = >>=-eq-ok (lift_dialogue (dialogue_result_from_state d)) _ h4 in
    let (output, e6, h6) =
      >>=-eq-ok
        (lift (ex.integrate_dialogue n (integration_task s s.production unit source dialogue))) _
        h5 in
    let inputs =
      source
      ∷ dialogue.briefing_artifact
      ∷ (dialogue.dialogue_turn_artifacts ++ dialogue.evaluation_artifacts) in
    let (_, e7, h7) =
      >>=-eq-ok (validate_draft unit s.current_revision_number output inputs) _ h6 in
    record {
      unit = unit;
      placed = placed;
      output = output;
      result = cc h7;
      kind = validate_draft-kind unit s.current_revision_number output inputs e7;
    }
