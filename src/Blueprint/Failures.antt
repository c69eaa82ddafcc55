-- ===== src/Blueprint/Failures.antt =====
-- engine/open_hollywood_engine/workflows/blueprint_graph.py: no node raises the runtime's error for its limit
-- on steps.
use open_hollywood.Blueprint.Graph.{applied, run_nodes, node_update, Frontier}
use open_hollywood.Artifacts.{ArtifactReference}
use open_hollywood.Blueprint.Nodes.{
  role_of, answer, Update, BlueprintGraphState, specialist_node, merge_artifact_states,
  apply_update, merge_into, select_inputs, validate_outputs, check_requirements, of_kinds,
  conflicts,
}
use open_hollywood.Blueprint.Contracts.{
  specialist_role_of, blueprint_node_definition, BlueprintNodeDefinition, ArtifactOutputRequirement,
  BlueprintNodeExecutor, BlueprintNode, BlueprintError, recursion_limit, executor_failed, no_role,
  too_few_outputs, too_many_outputs, conflicting_references,
}
use open_hollywood.Context.{within}
use open_hollywood.Prelude.{
  get, length, not, leb, Spares-raise, Spares-bind, Spares-guard, Spares-ok, Spares, Dict, put, [],
  ◌∷◌, some, none, ℕ, refl, Bool, true, false, Option, List, ◌++◌, Result, ok, raise, ◌>>=◌,
  string_eq, nat_eq, String,
}

abbrev pub is_limit : BlueprintError → Bool
is_limit recursion_limit = true
is_limit _ = false

requirements-Spares :
    (node : BlueprintNode) (outputs : List ArtifactReference) (qs : List ArtifactOutputRequirement)
    → Spares is_limit (check_requirements node outputs qs)
unfolding check_requirements
requirements-Spares node outputs [] = Spares-ok is_limit tt
requirements-Spares node outputs (q ∷ qs) =
    let found = length (of_kinds (q.output_kind ∷ []) outputs) in
    Spares-guard is_limit (leb q.minimum_count found) (too_few_outputs node q.output_kind found) _
      refl
      (Spares-guard is_limit (within q.maximum_count found)
        (too_many_outputs node q.output_kind found) _ refl (requirements-Spares node outputs qs))

validate_outputs-Spares :
    (d : BlueprintNodeDefinition) (outputs : List ArtifactReference)
    → Spares is_limit (validate_outputs d outputs)
unfolding validate_outputs
validate_outputs-Spares d outputs = search (Spares-guard is_limit, requirements-Spares) depth 12

pub select_inputs-Spares :
    (xs : List ArtifactReference) (d : BlueprintNodeDefinition)
    → Spares is_limit (select_inputs xs d)
unfolding select_inputs
select_inputs-Spares xs d = search (Spares-guard is_limit, Spares-ok is_limit) depth 12

merge_into-Spares :
    (by_key : Dict String ArtifactReference) (xs : List ArtifactReference)
    → Spares is_limit (merge_into by_key xs)
unfolding merge_into
merge_into-Spares by_key [] = Spares-ok is_limit by_key
merge_into-Spares by_key (x ∷ xs) =
    Spares-guard is_limit (not (conflicts x (get x.artifact_key by_key))) conflicting_references _
      refl (merge_into-Spares (put x.artifact_key x by_key) xs)

apply_update-Spares : (s : BlueprintGraphState) (u : Update) → Spares is_limit (apply_update s u)
unfolding apply_update merge_artifact_states
apply_update-Spares s (outputs, node) =
    Spares-bind is_limit _ _
      (Spares-bind is_limit _ _ (merge_into-Spares [] (s.artifacts ++ outputs))
        (λ d. Spares-ok is_limit _))
      (λ merged. Spares-ok is_limit _)

answer-Spares : (r : Result ℕ (List ArtifactReference)) → Spares is_limit (answer r)
answer-Spares (ok outputs) = Spares-ok is_limit outputs
answer-Spares (raise e) = Spares-raise is_limit (executor_failed e) refl

role_of-Spares : (node : BlueprintNode) (o : Option String) → Spares is_limit (role_of node o)
role_of-Spares node none = Spares-raise is_limit (no_role node) refl
role_of-Spares node (some role) = Spares-ok is_limit role

module _ (executor : BlueprintNodeExecutor) (n : ℕ) where
  specialist-Spares :
      (node : BlueprintNode) (s : BlueprintGraphState)
      → Spares is_limit (specialist_node executor n node s)
  unfolding specialist_node
  specialist-Spares node s =
      Spares-bind is_limit _ _ (select_inputs-Spares s.artifacts (blueprint_node_definition node))
        (λ inputs. Spares-bind is_limit _ _ (role_of-Spares node (specialist_role_of node)) (λ role.
          Spares-bind is_limit _ _ (answer-Spares _) (λ outputs.
            Spares-bind is_limit _ _ (validate_outputs-Spares _ outputs)
              (λ checked. Spares-ok is_limit _))))

  update-Spares :
      (s : BlueprintGraphState) (node : BlueprintNode)
      → Spares is_limit (specialist_node executor n node s >>= λ update. ok (some update))
  update-Spares s node =
      Spares-bind is_limit _ _ (specialist-Spares node s) (λ update. Spares-ok is_limit _)

  node_update-Spares :
      (s : BlueprintGraphState) (node : BlueprintNode)
      → Spares is_limit (node_update executor n s node)
  unfolding node_update
  node_update-Spares s BlueprintNode.intake = Spares-ok is_limit _
  node_update-Spares s BlueprintNode.approval =
      Spares-bind is_limit _ _
        (select_inputs-Spares s.artifacts (blueprint_node_definition BlueprintNode.approval))
        (λ inputs. Spares-ok is_limit _)
  node_update-Spares s BlueprintNode.brief = update-Spares s BlueprintNode.brief
  node_update-Spares s BlueprintNode.premise = update-Spares s BlueprintNode.premise
  node_update-Spares s BlueprintNode.world_specialist =
      update-Spares s BlueprintNode.world_specialist
  node_update-Spares s BlueprintNode.character_specialist =
      update-Spares s BlueprintNode.character_specialist
  node_update-Spares s BlueprintNode.integration = update-Spares s BlueprintNode.integration
  node_update-Spares s BlueprintNode.evaluation = update-Spares s BlueprintNode.evaluation

  pub run_nodes-Spares :
      (s : BlueprintGraphState) (frontier : Frontier) (t : BlueprintGraphState)
      → Spares is_limit (run_nodes executor n s frontier t)
  unfolding run_nodes
  run_nodes-Spares s [] t = Spares-ok is_limit t
  run_nodes-Spares s (node ∷ nodes) t =
      Spares-bind is_limit _ _ (node_update-Spares s node) (λ update.
        Spares-bind is_limit _ _ (applied-Spares update) (λ t'. run_nodes-Spares s nodes t'))
    where
      applied-Spares : (update : Option Update) → Spares is_limit (applied t update)
      applied-Spares none = Spares-ok is_limit t
      applied-Spares (some u) = apply_update-Spares t u
