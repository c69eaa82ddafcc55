-- ===== src/Blueprint/Contracts.antt =====
-- engine/open_hollywood_engine/workflows/contracts.py: the nodes of the graph and their contracts.
use open_hollywood.Artifacts.{
  ArtifactReference, ArtifactKind, creative_brief, character, relationship, location, world_rule,
  critique, story_blueprint, kind_eq,
}
use open_hollywood.Prelude.{
  ℕ, Bool, true, false, Option, none, some, List, [], ◌∷◌, Result, string_eq, nat_eq, nat_beq,
  String,
}

pub data BlueprintNode : Type 0 where
  intake brief premise world_specialist character_specialist integration evaluation approval :
      BlueprintNode

-- `node_sort_key`
abbrev pub node_sort_key : BlueprintNode → ℕ
node_sort_key BlueprintNode.intake = 0
node_sort_key BlueprintNode.brief = 1
node_sort_key BlueprintNode.premise = 2
node_sort_key BlueprintNode.world_specialist = 3
node_sort_key BlueprintNode.character_specialist = 4
node_sort_key BlueprintNode.integration = 5
node_sort_key BlueprintNode.evaluation = 6
node_sort_key BlueprintNode.approval = 7

abbrev pub node_is : BlueprintNode → BlueprintNode → Bool
node_is a b = nat_beq (node_sort_key a) (node_sort_key b)

-- `BLUEPRINT_NODE_ORDER`
abbrev pub blueprint_node_order : List BlueprintNode
blueprint_node_order =
    BlueprintNode.intake ∷ BlueprintNode.brief ∷ BlueprintNode.premise
    ∷ BlueprintNode.world_specialist ∷ BlueprintNode.character_specialist
    ∷ BlueprintNode.integration ∷ BlueprintNode.evaluation ∷ BlueprintNode.approval ∷ []

-- `node in BLUEPRINT_RETRYABLE_NODES`
abbrev pub is_retryable : BlueprintNode → Bool
is_retryable BlueprintNode.intake = false
is_retryable BlueprintNode.approval = false
is_retryable _ = true

pub data BlueprintDecisionAction : Type 0 where
  approve revise reject fork : BlueprintDecisionAction

pub record ArtifactOutputRequirement : Type 0 where
  pub output_kind : ArtifactKind
  pub minimum_count : ℕ
  pub maximum_count : Option ℕ

pub record BlueprintNodeDefinition : Type 0 where
  pub node : BlueprintNode
  pub specialist_role : Option String
  pub input_kinds : List ArtifactKind
  pub output_requirements : List ArtifactOutputRequirement

abbrev pub exactly_one : ArtifactKind → ArtifactOutputRequirement
exactly_one kind = record { output_kind = kind; minimum_count = 1; maximum_count = some 1 }

abbrev pub one_or_more : ArtifactKind → ArtifactOutputRequirement
one_or_more kind = record { output_kind = kind; minimum_count = 1; maximum_count = none }

abbrev pub specialist_role_of : BlueprintNode → Option String
specialist_role_of BlueprintNode.intake = none
specialist_role_of BlueprintNode.brief = some "brief_architect"
specialist_role_of BlueprintNode.premise = some "premise_architect"
specialist_role_of BlueprintNode.world_specialist = some "world_builder"
specialist_role_of BlueprintNode.character_specialist = some "character_architect"
specialist_role_of BlueprintNode.integration = some "blueprint_integrator"
specialist_role_of BlueprintNode.evaluation = some "blueprint_critic"
specialist_role_of BlueprintNode.approval = none

abbrev pub input_kinds_of : BlueprintNode → List ArtifactKind
input_kinds_of BlueprintNode.intake = []
input_kinds_of BlueprintNode.brief = []
input_kinds_of BlueprintNode.premise = creative_brief ∷ []
input_kinds_of BlueprintNode.world_specialist = creative_brief ∷ ArtifactKind.premise ∷ []
input_kinds_of BlueprintNode.character_specialist = creative_brief ∷ ArtifactKind.premise ∷ []
input_kinds_of BlueprintNode.integration =
    creative_brief ∷ ArtifactKind.premise ∷ location ∷ world_rule ∷ character ∷ relationship ∷ []
input_kinds_of BlueprintNode.evaluation = story_blueprint ∷ []
input_kinds_of BlueprintNode.approval = story_blueprint ∷ critique ∷ []

abbrev pub outputs_of : BlueprintNode → List ArtifactOutputRequirement
outputs_of BlueprintNode.intake = []
outputs_of BlueprintNode.brief = exactly_one creative_brief ∷ []
outputs_of BlueprintNode.premise = exactly_one ArtifactKind.premise ∷ []
outputs_of BlueprintNode.world_specialist = one_or_more location ∷ one_or_more world_rule ∷ []
outputs_of BlueprintNode.character_specialist =
    record { output_kind = character; minimum_count = 2; maximum_count = some 5 }
    ∷ one_or_more relationship
    ∷ []
outputs_of BlueprintNode.integration = exactly_one story_blueprint ∷ []
outputs_of BlueprintNode.evaluation = exactly_one critique ∷ []
outputs_of BlueprintNode.approval = []

-- `BLUEPRINT_NODE_DEFINITIONS`, without the runtime's timeouts and attempts
abbrev pub blueprint_node_definition : BlueprintNode → BlueprintNodeDefinition
blueprint_node_definition node = record {
  node = node;
  specialist_role = specialist_role_of node;
  input_kinds = input_kinds_of node;
  output_requirements = outputs_of node;
}

pub record BlueprintNodeTask : Type 0 where
  pub task_run_id : ℕ
  pub task_node : BlueprintNode
  pub task_role : String
  pub input_artifacts : List ArtifactReference
  pub task_decision_id : Option ℕ
  pub task_control_id : Option ℕ
  pub reviewed_artifacts : List ArtifactReference

-- `BlueprintDecisionResume`
pub record BlueprintDecisionResume : Type 0 where
  pub decision_id : ℕ
  pub action : BlueprintDecisionAction

-- An executor's answer to the task of one node in one step: artifacts, or a failure after its retries.
pub record BlueprintNodeExecutor : Type 0 where
  pub execute : ℕ → BlueprintNodeTask → Result ℕ (List ArtifactReference)

pub data BlueprintError : Type 0 where
  missing_inputs no_artifacts duplicate_versions duplicate_keys undeclared_kinds no_role :
      BlueprintNode → BlueprintError
  too_few_outputs too_many_outputs : BlueprintNode → ArtifactKind → ℕ → BlueprintError
  conflicting_references not_retryable no_retry_node no_action : BlueprintError
  executor_failed : ℕ → BlueprintError
  recursion_limit : BlueprintError
