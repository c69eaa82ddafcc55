-- ===== src/Blueprint/Nodes.antt =====
-- engine/open_hollywood_engine/workflows/blueprint_graph.py: the checkpoint, what a node reads of it and
-- what it writes. The checkpoint is kept decoded.
use open_hollywood.Artifacts.{
  reference_is, ArtifactReference, ArtifactKind, creative_brief, character, relationship, location,
  world_rule, beat, scene_plan, critique, continuity_finding, continuity_report, story_blueprint,
  story_bible, story_bible_update, dialogue_briefing, dialogue_turn, dialogue_evaluation,
  scene_draft, kind_eq,
}
use open_hollywood.Context.{within}
use open_hollywood.Blueprint.Contracts.{
  BlueprintNodeTask, blueprint_node_order, blueprint_node_definition, node_is,
  ArtifactOutputRequirement, BlueprintDecisionAction, BlueprintNodeExecutor, BlueprintError,
  BlueprintNodeDefinition, BlueprintNode, missing_inputs, no_artifacts, duplicate_versions,
  duplicate_keys, undeclared_kinds, no_role, too_few_outputs, too_many_outputs,
  conflicting_references, executor_failed,
}
use open_hollywood.Prelude.{
  elem, put, sort_by, is_unique, subset, filter_by, text_leb, Dict, get, ℕ, Bool, false, ◌&&◌, not,
  Option, none, some, List, [], ◌∷◌, ◌++◌, map, Result, ok, raise, ◌>>=◌, ◌>>◌, guard,
  if◌then◌else◌, ◌==◌, string_eq, nat_eq, leb, nat_beq, length, String, is_none, any,
}

pub data EntryMode : Type 0 where
  new_entry fork_entry retry_entry : EntryMode

pub record BlueprintGraphState : Type 0 where
  pub workflow_run_id : ℕ
  pub artifacts : List ArtifactReference
  pub completed_nodes : List BlueprintNode
  pub entry_mode : EntryMode
  pub human_decision_id : Option ℕ
  pub human_action : Option BlueprintDecisionAction
  pub retry_node : Option BlueprintNode
  pub run_control_id : Option ℕ

-- `kind.value`
abbrev pub kind_value : ArtifactKind → String
kind_value creative_brief = "creative_brief"
kind_value ArtifactKind.premise = "premise"
kind_value character = "character"
kind_value relationship = "relationship"
kind_value location = "location"
kind_value world_rule = "world_rule"
kind_value beat = "beat"
kind_value scene_plan = "scene_plan"
kind_value critique = "critique"
kind_value continuity_finding = "continuity_finding"
kind_value continuity_report = "continuity_report"
kind_value story_blueprint = "story_blueprint"
kind_value story_bible = "story_bible"
kind_value story_bible_update = "story_bible_update"
kind_value dialogue_briefing = "dialogue_briefing"
kind_value dialogue_turn = "dialogue_turn"
kind_value dialogue_evaluation = "dialogue_evaluation"
kind_value scene_draft = "scene_draft"

-- `_artifact_sort_key`, as the order of its triples
abbrev pub reference_leq : ArtifactReference → ArtifactReference → Bool
reference_leq a b =
    if a.kind == b.kind
    then (if a.artifact_key == b.artifact_key
        then leb a.version_id b.version_id
        else text_leb a.artifact_key b.artifact_key)
    else text_leb (kind_value a.kind) (kind_value b.kind)

abbrev pub of_kinds : List ArtifactKind → List ArtifactReference → List ArtifactReference
of_kinds wanted xs = filter_by (λ a. elem a.kind wanted) xs

-- `_select_inputs`
unfoldable pub select_inputs :
    List ArtifactReference
    → BlueprintNodeDefinition
    → Result BlueprintError (List ArtifactReference)
select_inputs artifacts d = do
  let selected = of_kinds d.input_kinds artifacts
  guard (subset d.input_kinds (map (λ a. a.kind) selected)) (missing_inputs d.node)
  ok (sort_by reference_leq selected)

-- The loop over the requirements.
unfoldable pub check_requirements :
    BlueprintNode
    → List ArtifactReference
    → List ArtifactOutputRequirement
    → Result BlueprintError (Unit {0})
check_requirements node outputs [] = ok tt
check_requirements node outputs (q ∷ qs) = do
  let found = length (of_kinds (q.output_kind ∷ []) outputs)
  guard (leb q.minimum_count found) (too_few_outputs node q.output_kind found)
  guard (within q.maximum_count found) (too_many_outputs node q.output_kind found)
  check_requirements node outputs qs

-- `_validate_outputs`
unfoldable pub validate_outputs :
    BlueprintNodeDefinition → List ArtifactReference → Result BlueprintError (Unit {0})
validate_outputs d outputs = do
  guard (leb 1 (length outputs)) (no_artifacts d.node)
  guard (is_unique (map (λ a. a.version_id) outputs)) (duplicate_versions d.node)
  guard (is_unique (map (λ a. a.artifact_key) outputs)) (duplicate_keys d.node)
  guard (subset (map (λ a. a.kind) outputs) (map (λ q. q.output_kind) d.output_requirements))
      (undeclared_kinds d.node)
  check_requirements d.node outputs d.output_requirements

-- `_reviewed_artifacts`
abbrev pub reviewed_artifacts_of : BlueprintGraphState → List ArtifactReference
reviewed_artifacts_of s =
    if is_none s.human_decision_id
    then []
    else sort_by reference_leq (of_kinds (story_blueprint ∷ critique ∷ []) s.artifacts)

-- The same version of an artifact in two references that differ.
abbrev pub conflicts : ArtifactReference → Option ArtifactReference → Bool
conflicts item none = false
conflicts item (some previous) =
    nat_beq previous.version_id item.version_id && not (reference_is previous item)

-- The loop of `_merge_artifact_states`
unfoldable pub merge_into :
    Dict String ArtifactReference
    → List ArtifactReference
    → Result BlueprintError (Dict String ArtifactReference)
merge_into by_key [] = ok by_key
merge_into by_key (item ∷ items) = do
  guard (not (conflicts item (get item.artifact_key by_key))) conflicting_references
  merge_into (put item.artifact_key item by_key) items

abbrev pub values : Dict String ArtifactReference → List ArtifactReference
values [] = []
values ((k, v) ∷ d) = v ∷ values d

-- `_merge_artifact_states`
unfoldable pub merge_artifact_states :
    List ArtifactReference → List ArtifactReference → Result BlueprintError (List ArtifactReference)
merge_artifact_states left right = do
  by_key ← merge_into [] (left ++ right)
  ok (sort_by reference_leq (values by_key))

-- `_merge_completed_nodes`
abbrev pub contains_node : BlueprintNode → List BlueprintNode → Bool
contains_node node xs = any (node_is node) xs

abbrev pub merge_completed_nodes : List BlueprintNode → List BlueprintNode → List BlueprintNode
merge_completed_nodes left right =
    filter_by (λ node. contains_node node (left ++ right)) blueprint_node_order

-- What a node writes.
abbrev pub Update : Type 0
Update = List ArtifactReference × BlueprintNode

unfoldable pub apply_update :
    BlueprintGraphState → Update → Result BlueprintError BlueprintGraphState
apply_update s (outputs, node) = do
  merged ← merge_artifact_states s.artifacts outputs
  ok (record s {
    artifacts = merged;
    completed_nodes = merge_completed_nodes s.completed_nodes (node ∷ []);
  })

-- `definition.specialist_role`, which a specialist's node has
abbrev pub role_of : BlueprintNode → Option String → Result BlueprintError String
role_of node none = raise (no_role node)
role_of node (some role) = ok role

-- A failure of the executor is the error of its node.
abbrev pub answer :
    Result ℕ (List ArtifactReference) → Result BlueprintError (List ArtifactReference)
answer (ok outputs) = ok outputs
answer (raise e) = raise (executor_failed e)

-- The task of a specialist.
abbrev pub task_for :
    BlueprintNode → String → List ArtifactReference → BlueprintGraphState → BlueprintNodeTask
task_for node role inputs s = record {
  task_run_id = s.workflow_run_id;
  task_node = node;
  task_role = role;
  input_artifacts = inputs;
  task_decision_id = s.human_decision_id;
  task_control_id = s.run_control_id;
  reviewed_artifacts = reviewed_artifacts_of s;
}

-- `_specialist_node`
unfoldable pub specialist_node :
    BlueprintNodeExecutor → ℕ → BlueprintNode → BlueprintGraphState → Result BlueprintError Update
specialist_node executor n node s = do
  let d = blueprint_node_definition node
  inputs ← select_inputs s.artifacts d
  role ← role_of node d.specialist_role
  outputs ← answer (executor.execute n (task_for node role inputs s))
  validate_outputs d outputs
  ok (outputs, node)
