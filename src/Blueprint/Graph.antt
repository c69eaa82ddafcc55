-- ===== src/Blueprint/Graph.antt =====
-- engine/open_hollywood_engine/workflows/blueprint_graph.py: the edges, the entries and the runs of the
-- compiled graph. The nodes of one superstep read the same checkpoint; their updates are then merged.
use open_hollywood.Artifacts.{
  ArtifactReference, ArtifactKind, creative_brief, character, relationship, location, world_rule,
  story_blueprint, kind_eq,
}
use open_hollywood.Blueprint.Nodes.{
  EntryMode, merge_completed_nodes, specialist_node, select_inputs, apply_update, Update, of_kinds,
  BlueprintGraphState, contains_node, new_entry, fork_entry, retry_entry,
}
use open_hollywood.Blueprint.Contracts.{
  blueprint_node_definition, is_retryable, BlueprintError, BlueprintDecisionResume,
  BlueprintNodeExecutor, BlueprintDecisionAction, BlueprintNode, approve, revise, reject, fork,
  no_action, no_retry_node, not_retryable, recursion_limit,
}
use open_hollywood.Prelude.{
  zero, suc, suc, ℕ, Option, none, some, List, [], ◌∷◌, ◌++◌, Result, ok, raise, ◌>>=◌, ◌>>◌, guard,
  if◌then◌else◌, string_eq, nat_eq, run,
}

-- The nodes of a superstep.
abbrev pub Frontier : Type 0
Frontier = List BlueprintNode

-- `_route_after_approval`; no node is the end.
abbrev pub route_after_approval : Option BlueprintDecisionAction → Result BlueprintError Frontier
route_after_approval none = raise no_action
route_after_approval (some approve) = ok []
route_after_approval (some revise) = ok (BlueprintNode.integration ∷ [])
route_after_approval (some reject) = ok (BlueprintNode.premise ∷ [])
route_after_approval (some fork) = ok []

-- The edges of `build_blueprint_graph` from a node that is no approval
abbrev pub successors : BlueprintNode → Frontier
successors BlueprintNode.intake = BlueprintNode.brief ∷ []
successors BlueprintNode.brief = BlueprintNode.premise ∷ []
successors BlueprintNode.premise =
    BlueprintNode.world_specialist ∷ BlueprintNode.character_specialist ∷ []
successors BlueprintNode.world_specialist = BlueprintNode.integration ∷ []
successors BlueprintNode.character_specialist = BlueprintNode.integration ∷ []
successors BlueprintNode.integration = BlueprintNode.evaluation ∷ []
successors BlueprintNode.evaluation = BlueprintNode.approval ∷ []
successors BlueprintNode.approval = []

-- A node that several edges reach is in the next superstep once.
abbrev pub join : Frontier → Frontier → Frontier
join xs [] = xs
join xs (y ∷ ys) = join (if contains_node y xs then xs else xs ++ y ∷ []) ys

abbrev pub next_frontier : Frontier → Frontier
next_frontier [] = []
next_frontier (node ∷ nodes) = join (successors node) (next_frontier nodes)

-- `_route_entry`
unfoldable pub entry_frontier : EntryMode → Option BlueprintNode → Result BlueprintError Frontier
entry_frontier new_entry retried = ok (BlueprintNode.intake ∷ [])
entry_frontier fork_entry retried = ok (BlueprintNode.premise ∷ [])
entry_frontier retry_entry none = raise no_retry_node
entry_frontier retry_entry (some node) = guard (is_retryable node) not_retryable >> ok (node ∷ [])

abbrev pub route_entry : BlueprintGraphState → Result BlueprintError Frontier
route_entry s = entry_frontier s.entry_mode s.retry_node

-- `initial_blueprint_state`
abbrev pub initial_blueprint_state : ℕ → BlueprintGraphState
initial_blueprint_state run_id = record {
  workflow_run_id = run_id;
  artifacts = [];
  completed_nodes = [];
  entry_mode = new_entry;
  human_decision_id = none;
  human_action = none;
  retry_node = none;
  run_control_id = none;
}

-- `initial_blueprint_fork_state`
abbrev pub initial_blueprint_fork_state : ℕ → List ArtifactReference → ℕ → BlueprintGraphState
initial_blueprint_fork_state run_id artifacts decision = record (initial_blueprint_state run_id) {
  artifacts = artifacts;
  entry_mode = fork_entry;
  human_decision_id = some decision;
  human_action = some fork;
}

-- The kinds that a retry of a node keeps.
abbrev pub retained_kinds : BlueprintNode → Option (List ArtifactKind)
retained_kinds BlueprintNode.intake = none
retained_kinds BlueprintNode.brief = some []
retained_kinds BlueprintNode.premise = some (creative_brief ∷ [])
retained_kinds BlueprintNode.world_specialist =
    some (creative_brief ∷ ArtifactKind.premise ∷ character ∷ relationship ∷ [])
retained_kinds BlueprintNode.character_specialist =
    some (creative_brief ∷ ArtifactKind.premise ∷ location ∷ world_rule ∷ [])
retained_kinds BlueprintNode.integration =
    some (
      creative_brief ∷ ArtifactKind.premise ∷ location ∷ world_rule ∷ character ∷ relationship ∷ [])
retained_kinds BlueprintNode.evaluation = some (
    creative_brief ∷ ArtifactKind.premise ∷ location ∷ world_rule ∷ character ∷ relationship
    ∷ story_blueprint ∷ [])
retained_kinds BlueprintNode.approval = none

abbrev pub kept_kinds :
    List ArtifactReference
    → Option (List ArtifactKind)
    → Result BlueprintError (List ArtifactReference)
kept_kinds artifacts none = raise not_retryable
kept_kinds artifacts (some allowed) = ok (of_kinds allowed artifacts)

-- `retry_artifacts_for_node`
unfoldable pub retry_artifacts_for_node :
    List ArtifactReference → BlueprintNode → Result BlueprintError (List ArtifactReference)
retry_artifacts_for_node artifacts node = kept_kinds artifacts (retained_kinds node)

-- `initial_blueprint_retry_state`
unfoldable pub initial_blueprint_retry_state :
    ℕ → List ArtifactReference → BlueprintNode → ℕ → Result BlueprintError BlueprintGraphState
initial_blueprint_retry_state run_id artifacts node control = do
  guard (is_retryable node) not_retryable
  retained ← retry_artifacts_for_node artifacts node
  inputs ← select_inputs retained (blueprint_node_definition node)
  ok (record (initial_blueprint_state run_id) {
    artifacts = retained;
    entry_mode = retry_entry;
    retry_node = some node;
    run_control_id = some control;
  })

abbrev pub applied : BlueprintGraphState → Option Update → Result BlueprintError BlueprintGraphState
applied t none = ok t
applied t (some update) = apply_update t update

module _ (executor : BlueprintNodeExecutor) where
  -- One node; the approval checks its inputs and then interrupts the run, which it leaves as it is.
  unfoldable pub node_update :
      ℕ → BlueprintGraphState → BlueprintNode → Result BlueprintError (Option Update)
  node_update n s BlueprintNode.intake = ok (some ([], BlueprintNode.intake))
  node_update n s BlueprintNode.approval =
      select_inputs s.artifacts (blueprint_node_definition BlueprintNode.approval) >>= λ inputs.
      ok none
  node_update n s node = specialist_node executor n node s >>= λ update. ok (some update)

  -- The updates of the nodes of a superstep, which read the checkpoint `s`, applied to `t`
  unfoldable pub run_nodes :
      ℕ
      → BlueprintGraphState
      → Frontier
      → BlueprintGraphState
      → Result BlueprintError BlueprintGraphState
  run_nodes n s [] t = ok t
  run_nodes n s (node ∷ nodes) t = do
    update ← node_update n s node
    t' ← applied t update
    run_nodes n s nodes t'

  unfoldable pub superstep :
      ℕ → Frontier → BlueprintGraphState → Result BlueprintError BlueprintGraphState
  superstep n frontier s = run_nodes n s frontier s

-- The next superstep, if there is one.
abbrev pub advance : Frontier → BlueprintGraphState → Option Frontier
advance frontier s = elim (next_frontier frontier) [
  | [] ↦ none
  | node ∷ nodes ↦ some (node ∷ nodes)
]

-- An invocation up to the end or the interrupt: the runtime's limit on steps, the number of the step,
-- the frontier and the checkpoint.
abbrev pub run_blueprint :
    BlueprintNodeExecutor
    → ℕ
    → ℕ
    → Frontier
    → BlueprintGraphState
    → Result BlueprintError BlueprintGraphState
run_blueprint executor = run (superstep executor) advance recursion_limit

-- A first invocation.
unfoldable pub start_blueprint :
    BlueprintNodeExecutor → ℕ → BlueprintGraphState → Result BlueprintError BlueprintGraphState
start_blueprint executor limit s =
    route_entry s >>= λ frontier. run_blueprint executor limit 0 frontier s

-- `_approval_node`, with the decision of a resumed invocation
unfoldable pub approval_node :
    BlueprintDecisionResume → BlueprintGraphState → Result BlueprintError BlueprintGraphState
approval_node resumed s = do
  inputs ← select_inputs s.artifacts (blueprint_node_definition BlueprintNode.approval)
  ok (record s {
    completed_nodes = merge_completed_nodes s.completed_nodes (BlueprintNode.approval ∷ []);
    human_decision_id = some resumed.decision_id;
    human_action = some resumed.action;
  })

abbrev pub default_max_graph_steps : ℕ
default_max_graph_steps = 12

-- An invocation that resumes the approval. The approval itself is one of its steps.
abbrev pub continue_blueprint :
    BlueprintNodeExecutor
    → ℕ
    → BlueprintGraphState
    → Frontier
    → Result BlueprintError BlueprintGraphState
continue_blueprint executor limit s [] = ok s
continue_blueprint executor limit s (node ∷ nodes) = run_blueprint executor limit 1 (node ∷ nodes) s

unfoldable pub resume_blueprint :
    BlueprintNodeExecutor
    → ℕ
    → BlueprintDecisionResume
    → BlueprintGraphState
    → Result BlueprintError BlueprintGraphState
resume_blueprint executor zero resumed s = raise recursion_limit
resume_blueprint executor (suc limit) resumed s = do
  s' ← approval_node resumed s
  frontier ← route_after_approval s'.human_action
  continue_blueprint executor limit s' frontier
