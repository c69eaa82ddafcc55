-- ===== src/Dialogue/Steps.antt =====
-- What a node of the dialogue graph that returns has checked, and what it wrote.
use open_hollywood.Prelude.{
  ℕ, ◌+◌, ◌-◌, ◌*◌, ◌≤◌, ◌≡◌, Bool, true, some, [], ◌∷◌, ◌++◌, arith, ok, length, if◌then◌else◌,
  guard-bind, >>=-eq-ok,
}
use open_hollywood.Artifacts.{ArtifactReference}
use open_hollywood.Dialogue.Contracts.{
  DialogueExecutor, DialogueSceneInput, DirectorEvaluationResult,
}
use open_hollywood.Dialogue.Nodes.{
  director_task, character_task, is_round_complete, is_actor_turn, DialogueState, briefing_node,
  character_node, director_node, close_round, lift, scene_from_state, briefing_reference,
  validate_briefing, validate_turn, validate_evaluation,
}

pub record Briefed (s s' : DialogueState) : Type 0 where
  pub output : ArtifactReference
  pub result : s' ≡ record s { briefing_artifact = some output }
  pub rounds : s.scene.minimum_rounds ≤ s.scene.maximum_rounds
  pub some_round : 1 ≤ s.scene.minimum_rounds

pub record Spoken (second : Bool) (s s' : DialogueState) : Type 0 where
  pub output : ArtifactReference
  pub result : s' ≡ record s { dialogue_turn_artifacts = s.dialogue_turn_artifacts ++ output ∷ [] }
  pub turns :
      length s.dialogue_turn_artifacts ≡ (s.current_round - 1) * 2 + (if second then 1 else 0)
  pub evaluations : length s.evaluation_artifacts ≡ s.current_round - 1

pub record Directed (s s' : DialogueState) : Type 0 where
  pub output : DirectorEvaluationResult
  pub result :
      s'
      ≡ close_round s.scene s.current_round output
          (record s { evaluation_artifacts = s.evaluation_artifacts ++ output.artifact ∷ [] })
  pub turns : length s.dialogue_turn_artifacts ≡ s.current_round * 2
  pub evaluations : length s.evaluation_artifacts ≡ s.current_round - 1
  pub rounds : s.scene.minimum_rounds ≤ s.scene.maximum_rounds
  pub some_round : 1 ≤ s.scene.minimum_rounds

scene_from_state-eq-ok :
    (s : DialogueState) (scene : DialogueSceneInput)
    → scene_from_state s ≡ ok scene
    → (s.scene ≡ scene)
      × (s.scene.minimum_rounds ≤ s.scene.maximum_rounds)
      × (1 ≤ s.scene.minimum_rounds)
unfolding scene_from_state
scene_from_state-eq-ok s scene h = ground arith

is_actor_turn_counts :
    (second : Bool) (s : DialogueState)
    → is_actor_turn second s ≡ true
    → (length s.dialogue_turn_artifacts ≡ (s.current_round - 1) * 2 + (if second then 1 else 0))
      × (length s.evaluation_artifacts ≡ s.current_round - 1)
unfolding is_actor_turn
is_actor_turn_counts second s h = ground arith

is_round_complete_counts :
    (s : DialogueState)
    → is_round_complete s ≡ true
    → (length s.dialogue_turn_artifacts ≡ s.current_round * 2)
      × (length s.evaluation_artifacts ≡ s.current_round - 1)
unfolding is_round_complete
is_round_complete_counts s h = ground arith

module _ (ex : DialogueExecutor) (n : ℕ) (s s' : DialogueState) where
  pub briefing_node-Briefed : briefing_node ex n s ≡ ok s' → Briefed s s'
  unfolding briefing_node
  briefing_node-Briefed h =
      let (scene, e1, h1) = >>=-eq-ok (scene_from_state s) _ h in
      let (same, r, o) = scene_from_state-eq-ok s scene e1 in
      let (result, e2, h2) = >>=-eq-ok (lift (ex.brief n (record { scene = scene }))) _ h1 in
      let (_, e3, h3) = >>=-eq-ok (validate_briefing scene result) _ h2 in
      record { output = result.artifact; result = cc h3; rounds = r; some_round = o }

  pub character_node-Spoken :
      (second : Bool) → character_node ex n second s ≡ ok s' → Spoken second s s'
  unfolding character_node
  character_node-Spoken second h =
      let (scene, e1, h1) = >>=-eq-ok (scene_from_state s) _ h in
      let (briefing, e2, h2) = >>=-eq-ok (briefing_reference s) _ h1 in
      let (counts, h3) = guard-bind (is_actor_turn second s) _ _ h2 in
      let (result, e4, h4) =
        >>=-eq-ok (lift (ex.perform n (character_task second scene briefing s))) _ h3 in
      let (_, e5, h5) =
        >>=-eq-ok (validate_turn (character_task second scene briefing s) result) _ h4 in
      record {
        output = result.artifact;
        result = cc h5;
        turns = (is_actor_turn_counts second s counts).0;
        evaluations = (is_actor_turn_counts second s counts).1;
      }

  pub director_node-Directed : director_node ex n s ≡ ok s' → Directed s s'
  unfolding director_node
  director_node-Directed h =
      let (scene, e1, h1) = >>=-eq-ok (scene_from_state s) _ h in
      let (same, r, o) = scene_from_state-eq-ok s scene e1 in
      let (counts, h2) = guard-bind (is_round_complete s) _ _ h1 in
      let (briefing, e3, h3) = >>=-eq-ok (briefing_reference s) _ h2 in
      let (result, e4, h4) =
        >>=-eq-ok (lift (ex.evaluate n (director_task scene briefing s))) _ h3 in
      let (_, e5, h5) =
        >>=-eq-ok (validate_evaluation (director_task scene briefing s) result) _ h4 in
      record {
        output = result;
        result = cc (h5, same);
        turns = (is_round_complete_counts s counts).0;
        evaluations = (is_round_complete_counts s counts).1;
        rounds = r;
        some_round = o;
      }
