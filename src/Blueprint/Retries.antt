-- ===== src/Blueprint/Retries.antt =====
-- engine/open_hollywood_engine/workflows/blueprint_graph.py: what a retry keeps.
use open_hollywood.Blueprint.Graph.{
  initial_blueprint_state, entry_frontier, route_entry, retry_artifacts_for_node, retained_kinds,
  initial_blueprint_retry_state, kept_kinds,
}
use mathlib.Core.Option.{some-injective}
use open_hollywood.Artifacts.{ArtifactKind, ArtifactReference, critique, kind_eq}
use open_hollywood.Blueprint.Nodes.{
  reference_leq, BlueprintGraphState, select_inputs, of_kinds, retry_entry,
}
use open_hollywood.Blueprint.Contracts.{
  is_retryable, blueprint_node_definition, outputs_of, input_kinds_of, BlueprintNodeDefinition,
  BlueprintNode, missing_inputs,
}
use open_hollywood.Prelude.{
  ◌∙◌, sym, ◌==◌, Bool-cases, if-true, if-false, inl, inr, disjoint-elem, sort_by, disjoint_of,
  ok-injective, subset, elem, disjoint, ℕ, ◌≡◌, refl, subst, ap, true, false, Option, none, some,
  List, [], ◌∷◌, map, arith, ok, ◌>>◌, guard, >>=-eq-ok, guard-bind, string_eq, nat_eq,
}

elem-subset :
    (k : ArtifactKind) (wanted allowed : List ArtifactKind)
    → subset wanted allowed ≡ true
    → elem k wanted ≡ true
    → elem k allowed ≡ true
elem-subset k [] allowed h e = cc
elem-subset k (w ∷ wanted) allowed h e =
    ground (arith, elem-subset k wanted allowed, kind_eq.is_same_iff k w)

-- A narrower choice from a wider one.
of_kinds-of_kinds :
    (wanted allowed : List ArtifactKind) (xs : List ArtifactReference)
    → subset wanted allowed ≡ true
    → of_kinds wanted (of_kinds allowed xs) ≡ of_kinds wanted xs
of_kinds-of_kinds wanted allowed [] h = refl
of_kinds-of_kinds wanted allowed (x ∷ xs) h =
    ground (arith, of_kinds-of_kinds wanted allowed xs h, elem-subset x.kind wanted allowed h)

-- A kind that is not in a list differs from those that are.
other_kind :
    (k j : ArtifactKind) (allowed : List ArtifactKind)
    → elem k allowed ≡ false
    → elem j allowed ≡ true
    → (k == j) ≡ false
other_kind k j allowed absent here = elim (Bool-cases (k == j)) [
  | inl same ↦ cc (
      sym absent ∙ subst (λ i. elem i allowed ≡ true) (sym ((kind_eq.is_same_iff k j).0 same)) here)
  | inr differ ↦ differ
]

-- A kind that is not chosen is not there.
of_kinds-absent :
    (k : ArtifactKind) (allowed : List ArtifactKind) (xs : List ArtifactReference)
    → elem k allowed ≡ false
    → elem k (map (λ a. a.kind) (of_kinds allowed xs)) ≡ false
of_kinds-absent k allowed [] h = refl
of_kinds-absent k allowed (x ∷ xs) h =
    let rest = of_kinds-absent k allowed xs h in
    elim (Bool-cases (elem x.kind allowed)) [
      | inl here ↦
          subst (λ ys. elem k (map (λ a. a.kind) ys) ≡ false) (sym (if-true _ _ _ here))
            (rw (other_kind k x.kind allowed h here) rest)
      | inr gone ↦
          subst (λ ys. elem k (map (λ a. a.kind) ys) ≡ false) (sym (if-false _ _ _ gone)) rest
    ]

select_inputs-of_kinds :
    (xs : List ArtifactReference) (d : BlueprintNodeDefinition) (allowed : List ArtifactKind)
    → subset d.input_kinds allowed ≡ true
    → select_inputs (of_kinds allowed xs) d ≡ select_inputs xs d
unfolding select_inputs
select_inputs-of_kinds xs d allowed h =
    ap
      (λ chosen.
        guard (subset d.input_kinds (map (λ a. a.kind) chosen)) (missing_inputs d.node)
        >> ok (sort_by reference_leq chosen))
      (of_kinds-of_kinds d.input_kinds allowed xs h)

-- A checkpoint that starts a retry of a node.
pub record StartsAt (node : BlueprintNode) (artifacts : List ArtifactReference)
    (s : BlueprintGraphState) : Type 0 where
  pub enters : route_entry s ≡ ok (node ∷ [])
  pub same_inputs :
      select_inputs s.artifacts (blueprint_node_definition node)
      ≡ select_inputs artifacts (blueprint_node_definition node)
  pub no_outputs :
      disjoint (map (λ q. q.output_kind) (outputs_of node)) (map (λ a. a.kind) s.artifacts) ≡ true
  pub no_critique : elem critique (map (λ a. a.kind) s.artifacts) ≡ false

-- What the table of kept kinds has to satisfy.
record IsKept (node : BlueprintNode) (allowed : List ArtifactKind) : Type 0 where
  inputs_kept : subset (input_kinds_of node) allowed ≡ true
  outputs_dropped : disjoint (map (λ q. q.output_kind) (outputs_of node)) allowed ≡ true
  critique_dropped : elem critique allowed ≡ false

kept_kinds-eq-ok :
    (artifacts : List ArtifactReference) (o : Option (List ArtifactKind))
    (retained : List ArtifactReference)
    → kept_kinds artifacts o ≡ ok retained
    → (allowed : List ArtifactKind) × (o ≡ some allowed) × (of_kinds allowed artifacts ≡ retained)
kept_kinds-eq-ok artifacts none retained h = cc h
kept_kinds-eq-ok artifacts (some allowed) retained h = (allowed, refl, ok-injective h)

retained_kinds-IsKept :
    (node : BlueprintNode) (allowed : List ArtifactKind)
    → retained_kinds node ≡ some allowed
    → IsKept node allowed
retained_kinds-IsKept BlueprintNode.intake allowed h = cc h
retained_kinds-IsKept BlueprintNode.approval allowed h = cc h
retained_kinds-IsKept BlueprintNode.brief allowed h =
    subst (IsKept BlueprintNode.brief) (some-injective _ _ h)
      (record { inputs_kept = refl; outputs_dropped = refl; critique_dropped = refl })
retained_kinds-IsKept BlueprintNode.premise allowed h =
    subst (IsKept BlueprintNode.premise) (some-injective _ _ h)
      (record { inputs_kept = refl; outputs_dropped = refl; critique_dropped = refl })
retained_kinds-IsKept BlueprintNode.world_specialist allowed h =
    subst (IsKept BlueprintNode.world_specialist) (some-injective _ _ h)
      (record { inputs_kept = refl; outputs_dropped = refl; critique_dropped = refl })
retained_kinds-IsKept BlueprintNode.character_specialist allowed h =
    subst (IsKept BlueprintNode.character_specialist) (some-injective _ _ h)
      (record { inputs_kept = refl; outputs_dropped = refl; critique_dropped = refl })
retained_kinds-IsKept BlueprintNode.integration allowed h =
    subst (IsKept BlueprintNode.integration) (some-injective _ _ h)
      (record { inputs_kept = refl; outputs_dropped = refl; critique_dropped = refl })
retained_kinds-IsKept BlueprintNode.evaluation allowed h =
    subst (IsKept BlueprintNode.evaluation) (some-injective _ _ h)
      (record { inputs_kept = refl; outputs_dropped = refl; critique_dropped = refl })

of_kinds-disjoint :
    (dropped allowed : List ArtifactKind) (xs : List ArtifactReference)
    → disjoint dropped allowed ≡ true
    → disjoint dropped (map (λ a. a.kind) (of_kinds allowed xs)) ≡ true
of_kinds-disjoint dropped allowed xs h =
    disjoint_of dropped (map (λ a. a.kind) (of_kinds allowed xs))
      (λ k in_dropped. of_kinds-absent k allowed xs (disjoint-elem dropped allowed k h in_dropped))

-- A retry that is accepted enters at its node and selects for it the same inputs as the artifacts that it
-- was made from; it keeps nothing of the kinds that the node will make, and no critique.
pub initial_blueprint_retry_state-StartsAt :
    (run_id : ℕ) (artifacts : List ArtifactReference) (node : BlueprintNode) (control : ℕ)
    (s : BlueprintGraphState)
    → initial_blueprint_retry_state run_id artifacts node control ≡ ok s
    → StartsAt node artifacts s
unfolding initial_blueprint_retry_state retry_artifacts_for_node entry_frontier
initial_blueprint_retry_state-StartsAt run_id artifacts node control s h =
    let (can, h1) = guard-bind (is_retryable node) _ _ h in
    let (retained, hr, h2) = >>=-eq-ok (kept_kinds artifacts (retained_kinds node)) _ h1 in
    let (inputs, hi, h3) =
      >>=-eq-ok (select_inputs retained (blueprint_node_definition node)) _ h2 in
    let (allowed, known, same) = kept_kinds-eq-ok artifacts (retained_kinds node) retained hr in
    let is = retained_kinds-IsKept node allowed known in
    subst (StartsAt node artifacts) (ok-injective h3) (
      subst
        (λ xs. StartsAt node artifacts (record (initial_blueprint_state run_id) {
          artifacts = xs;
          entry_mode = retry_entry;
          retry_node = some node;
          run_control_id = some control;
        }))
        same
        (record {
          enters = rw can refl;
          same_inputs =
              select_inputs-of_kinds artifacts (blueprint_node_definition node) allowed
                is.inputs_kept;
          no_outputs = of_kinds-disjoint _ allowed artifacts is.outputs_dropped;
          no_critique = of_kinds-absent critique allowed artifacts is.critique_dropped;
        }))
