-- ===== src/Dialogue/Graph.antt =====
-- The compiled subgraph: its edges and a run under the runtime's limit on steps.
use open_hollywood.Prelude.{run, ℕ, true, false, Option, none, some, Result, is_some, if◌then◌else◌}
use open_hollywood.Dialogue.Contracts.{
  DialogueNode, director_briefing, character_one, character_two, director_evaluation, DialogueError,
  DialogueExecutor,
}
use open_hollywood.Dialogue.Nodes.{DialogueState, briefing_node, character_node, director_node}

-- One node's work.
unfoldable pub node_step :
    DialogueExecutor → ℕ → DialogueNode → DialogueState → Result DialogueError DialogueState
node_step ex n director_briefing s = briefing_node ex n s
node_step ex n character_one s = character_node ex n false s
node_step ex n character_two s = character_node ex n true s
node_step ex n director_evaluation s = director_node ex n s

-- The edges of `build_dialogue_subgraph`, with `_route_after_director`; `none` is the end.
unfoldable pub route : DialogueNode → DialogueState → Option DialogueNode
route director_briefing s = some character_one
route character_one s = some character_two
route character_two s = some director_evaluation
route director_evaluation s = if is_some s.completion_reason then none else some character_one

-- A run from a node. The first argument is the limit on steps, the second the number of the step.
abbrev pub run_dialogue :
    DialogueExecutor → ℕ → ℕ → DialogueNode → DialogueState → Result DialogueError DialogueState
run_dialogue ex = run (node_step ex) route DialogueError.recursion_limit
