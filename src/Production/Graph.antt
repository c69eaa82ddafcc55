-- ===== src/Production/Graph.antt =====
-- The compiled production graph: its edges, and a run under the runtime's limit on steps.
use open_hollywood.Prelude.{
  run, ℕ, Bool, false, Option, none, some, Result, ltb, is_some, get_elem?, if◌then◌else◌,
}
use open_hollywood.Dialogue.{DialogueExecutor}
use open_hollywood.Production.Contracts.{
  ProductionNode, draft, dialogue_pass, dialogue_integration, critique, continuity,
  critic_adjudication, continuity_adjudication, story_bible_update, accept, SceneProductionExecutor,
  ProductionError, ProductionUnitInput,
}
use open_hollywood.Production.State.{ProductionState}
use open_hollywood.Production.Nodes.{
  draft_node, dialogue_pass_node, dialogue_integration_node, critique_node, continuity_node,
  story_bible_update_node, accept_node,
}
use open_hollywood.Production.Adjudications.{critic_adjudication_node, continuity_adjudication_node}

-- One node's work; `top` is the run's limit on steps, which the subgraph is given too.
unfoldable pub node_step :
    SceneProductionExecutor
    → DialogueExecutor
    → ℕ
    → ℕ
    → ProductionNode
    → ProductionState
    → Result ProductionError ProductionState
node_step ex actors top n draft s = draft_node ex n s
node_step ex actors top n dialogue_pass s = dialogue_pass_node actors top n s
node_step ex actors top n dialogue_integration s = dialogue_integration_node ex n s
node_step ex actors top n critique s = critique_node ex n s
node_step ex actors top n continuity s = continuity_node ex n s
node_step ex actors top n critic_adjudication s = critic_adjudication_node ex n s
node_step ex actors top n continuity_adjudication s = continuity_adjudication_node ex n s
node_step ex actors top n story_bible_update s = story_bible_update_node ex n s
node_step ex actors top n accept s = accept_node s

abbrev pub has_dialogue : Option ProductionUnitInput → Bool
has_dialogue none = false
has_dialogue (some unit) = is_some unit.dialogue_configuration

-- The edges of `build_scene_production_graph`, with `_route_after_draft`, `_route_after_continuity` and
-- `_route_after_acceptance`; `none` is the end.
unfoldable pub route : ProductionNode → ProductionState → Option ProductionNode
route draft s =
    if has_dialogue (get_elem? s.production.units s.current_unit_index)
    then some dialogue_pass
    else some critique
route dialogue_pass s = some dialogue_integration
route dialogue_integration s = some critique
route critique s = some continuity
route continuity s =
    if s.adjudication_required
    then (if ltb 0 s.critique_blocking_issue_count
        then some critic_adjudication
        else some continuity_adjudication)
    else if s.revision_scheduled
    then some draft
    else some story_bible_update
route critic_adjudication s = some story_bible_update
route continuity_adjudication s = some story_bible_update
route story_bible_update s = some accept
route accept s = if s.production_complete then none else some draft

-- A run from a node. `limit` is what is left of the limit `top` on steps, `n` the number of the step.
abbrev pub run_production :
    SceneProductionExecutor
    → DialogueExecutor
    → ℕ
    → ℕ
    → ℕ
    → ProductionNode
    → ProductionState
    → Result ProductionError ProductionState
run_production ex actors top = run (node_step ex actors top) route ProductionError.recursion_limit

-- A whole production run, from its assignment.
unfoldable pub produce :
    SceneProductionExecutor
    → DialogueExecutor
    → ℕ
    → ProductionState
    → Result ProductionError ProductionState
produce ex actors top s = run_production ex actors top top 0 draft s
