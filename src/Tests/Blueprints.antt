-- ===== src/Tests/Blueprints.antt =====
-- A blueprint from its brief to its approval, and a retry of the world specialist.
use open_hollywood.Blueprint.Termination.{
  start_blueprint-ne-recursion_limit, resume_blueprint-ne-recursion_limit,
}
use open_hollywood.Blueprint.Retries.{initial_blueprint_retry_state-StartsAt, StartsAt}
use open_hollywood.Blueprint.Ready.{start_blueprint-IsReady, IsReady}
use open_hollywood.Artifacts.{
  ArtifactReference, ArtifactKind, creative_brief, character, relationship, location, world_rule,
  story_blueprint, critique,
}
use open_hollywood.Blueprint.{
  merge_into, merge_artifact_states, apply_update, check_requirements, validate_outputs,
  specialist_node, node_update, run_nodes, select_inputs, superstep, blueprint_node_order,
  retry_artifacts_for_node, entry_frontier, initial_blueprint_state, initial_blueprint_retry_state,
  resume_blueprint, BlueprintDecisionResume, start_blueprint, BlueprintGraphState,
  BlueprintNodeExecutor, BlueprintNode, revise, retry_entry, recursion_limit,
}
use open_hollywood.Prelude.{
  ℕ, ◌≡◌, ◌≢◌, refl, some, List, [], ◌∷◌, arith, ok, raise, string_eq, nat_eq, take, String, run,
}

abbrev reference : ArtifactKind → String → ℕ → ArtifactReference
reference kind key version = record {
  kind = kind;
  artifact_key = key;
  version_id = version;
  schema_version = "1";
}

abbrev made_by : BlueprintNode → List ArtifactReference
made_by BlueprintNode.brief = reference creative_brief "brief" 1 ∷ []
made_by BlueprintNode.premise = reference ArtifactKind.premise "premise" 2 ∷ []
made_by BlueprintNode.world_specialist =
    reference world_rule "tides" 4 ∷ reference location "harbour" 3 ∷ []
made_by BlueprintNode.character_specialist =
    reference character "ann" 5 ∷ reference character "ben" 6 ∷ reference relationship "pair" 7 ∷ []
made_by BlueprintNode.integration = reference story_blueprint "blueprint" 8 ∷ []
made_by BlueprintNode.evaluation = reference critique "critique" 9 ∷ []
made_by _ = []

abbrev executor : BlueprintNodeExecutor
executor = record { execute = λ n task. ok (made_by task.task_node) }

abbrev all_artifacts : List ArtifactReference
all_artifacts =
    reference character "ann" 5
    ∷ reference character "ben" 6
    ∷ reference creative_brief "brief" 1
    ∷ reference critique "critique" 9
    ∷ reference location "harbour" 3
    ∷ reference ArtifactKind.premise "premise" 2
    ∷ reference relationship "pair" 7
    ∷ reference story_blueprint "blueprint" 8
    ∷ reference world_rule "tides" 4
    ∷ []

abbrev ready_state : BlueprintGraphState
ready_state = record (initial_blueprint_state 1) {
  artifacts = all_artifacts;
  completed_nodes = take 7 blueprint_node_order;
}

started : start_blueprint executor 12 (initial_blueprint_state 1) ≡ ok ready_state
unfolding start_blueprint entry_frontier run superstep run_nodes node_update specialist_node
    select_inputs validate_outputs check_requirements apply_update merge_artifact_states merge_into
started = refl

start_blueprint-IsReady_example : IsReady ready_state
start_blueprint-IsReady_example = start_blueprint-IsReady executor 12 1 ready_state started

start_blueprint-ne-recursion_limit_example :
    start_blueprint executor 12 (initial_blueprint_state 1) ≢ raise recursion_limit
start_blueprint-ne-recursion_limit_example =
    start_blueprint-ne-recursion_limit executor 12 (initial_blueprint_state 1) (omega arith)

abbrev revision : BlueprintDecisionResume
revision = record { decision_id = 40; action = revise }

resume_blueprint-ne-recursion_limit_example :
    resume_blueprint executor 12 revision ready_state ≢ raise recursion_limit
resume_blueprint-ne-recursion_limit_example =
    resume_blueprint-ne-recursion_limit executor 12 revision ready_state (omega arith)

abbrev retry_state : BlueprintGraphState
retry_state = record (initial_blueprint_state 2) {
  artifacts =
      reference character "ann" 5
      ∷ reference character "ben" 6
      ∷ reference creative_brief "brief" 1
      ∷ reference ArtifactKind.premise "premise" 2
      ∷ reference relationship "pair" 7
      ∷ [];
  entry_mode = retry_entry;
  retry_node = some BlueprintNode.world_specialist;
  run_control_id = some 50;
}

retried :
    initial_blueprint_retry_state 2 all_artifacts BlueprintNode.world_specialist 50 ≡ ok retry_state
unfolding initial_blueprint_retry_state retry_artifacts_for_node select_inputs
retried = refl

initial_blueprint_retry_state-StartsAt_example :
    StartsAt BlueprintNode.world_specialist all_artifacts retry_state
initial_blueprint_retry_state-StartsAt_example =
    initial_blueprint_retry_state-StartsAt 2 all_artifacts BlueprintNode.world_specialist 50
      retry_state retried
