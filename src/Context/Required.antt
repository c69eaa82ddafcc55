-- ===== src/Context/Required.antt =====
-- engine/open_hollywood_engine/context/compiler.py: mandatory context is never left out.
use open_hollywood.Context.Accounting.{used_ids-counts, select_context-mandatory}
use open_hollywood.Context.Budget.{compile-MadeOf}
use mathlib.Core.Option.{some-injective}
use open_hollywood.Context.Partition.{partition_rules-cons, matches_count, in_artifacts}
use open_hollywood.Context.Manifests.{
  dependency_kinds, manifest_for, AgentDependencyManifest, Registry, ArtifactDependencyRule,
}
use open_hollywood.Context.Contracts.{ContextPacket, ContextPacketRequest, VersionedArtifact}
use open_hollywood.Context.Compiler.{compile, ContextTools}
use open_hollywood.Context.Sources.{
  partition_summaries, select_story_bible_sections, validate_unique_sources, CompilationParts,
  partition_artifacts, prepare_parts, spread, artifact_leq, of_kind, partition_rules,
}
use open_hollywood.Artifacts.{kind_eq}
use open_hollywood.Prelude.{
  subset, elem-occurrences, nat_beq_iff, count_if-append, elem, ok-injective, sort_by, ℕ, zero, suc,
  ◌≤◌, ◌≡◌, refl, ◌∙◌, subst, ap, Bool, true, false, some, List, [], ◌∷◌, ◌++◌, map, arith, ok,
  >>=-eq-ok, guard-bind, string_eq, nat_eq, nat_beq, get_elem?,
}

module _ (v : ℕ) where
  spread_le :
      (b : Bool) (found : List VersionedArtifact)
      (rest : List VersionedArtifact × List VersionedArtifact)
      → in_artifacts v rest.0 ≤ in_artifacts v (spread b found rest).0
  spread_le true found rest =
      omega (arith, count_if-append (λ a. nat_beq v a.version_id) found rest.0)
  spread_le false found rest = omega arith

  -- How often the matches of a rule are among what the rules require.
  rule-counted :
      (xs : List VersionedArtifact) (rules : List ArtifactDependencyRule) (i : ℕ)
      (rule : ArtifactDependencyRule) {split : List VersionedArtifact × List VersionedArtifact}
      → get_elem? rules i ≡ some rule
      → rule.required ≡ true
      → partition_rules xs rules ≡ ok split
      → in_artifacts v (of_kind rule.rule_kind xs) ≤ in_artifacts v split.0
  rule-counted xs [] i rule at needed h = ground arith
  rule-counted xs (first ∷ rules) zero rule at needed h =
      let (rest, hr, same) = partition_rules-cons xs first rules h in
      subst (λ q. in_artifacts v (of_kind rule.rule_kind xs) ≤ in_artifacts v q.0) same
        (first_counted first.required rest (ap (λ x. x.required) (some-injective _ _ at) ∙ needed)
          (ap (λ x. x.rule_kind) (some-injective _ _ at)))
    where
      first_counted :
          (b : Bool) (rest : List VersionedArtifact × List VersionedArtifact)
          → b ≡ true
          → first.rule_kind ≡ rule.rule_kind
          → in_artifacts v (of_kind rule.rule_kind xs)
            ≤ in_artifacts v (spread b (sort_by artifact_leq (of_kind first.rule_kind xs)) rest).0
      first_counted true rest e k =
          subst
            (λ wanted.
              in_artifacts v (of_kind wanted xs)
              ≤ in_artifacts v (sort_by artifact_leq (of_kind first.rule_kind xs) ++ rest.0))
            k
            (omega (
              arith,
              matches_count v first.rule_kind xs,
              count_if-append (λ a. nat_beq v a.version_id)
                  (sort_by artifact_leq (of_kind first.rule_kind xs)) rest.0,
            ))
      first_counted false rest e k = cc e
  rule-counted xs (first ∷ rules) (suc i) rule at needed h =
      let (rest, hr, same) = partition_rules-cons xs first rules h in
      subst (λ q. in_artifacts v (of_kind rule.rule_kind xs) ≤ in_artifacts v q.0) same
        (omega (
          arith,
          rule-counted xs rules i rule at needed hr,
          spread_le first.required (sort_by artifact_leq (of_kind first.rule_kind xs)) rest,
        ))

  of_kind-counted :
      (xs : List VersionedArtifact) (j : ℕ) (a : VersionedArtifact)
      → get_elem? xs j ≡ some a
      → nat_beq v a.version_id ≡ true
      → 1 ≤ in_artifacts v (of_kind a.kind xs)
  of_kind-counted [] j a at same = ground arith
  of_kind-counted (x ∷ xs) zero a at same =
      subst (λ y. 1 ≤ in_artifacts v (of_kind y.kind (x ∷ xs))) (some-injective _ _ at)
        (ground (
          arith,
          kind_eq.is_same_iff x.kind x.kind,
          ap (λ y. y.version_id) (some-injective _ _ at),
        ))
  of_kind-counted (x ∷ xs) (suc j) a at same = ground (arith, of_kind-counted xs j a at same)

module _ (r : ContextPacketRequest) (m : AgentDependencyManifest) (v : ℕ) where
  prepared-required :
      (parts : CompilationParts) (i : ℕ) (rule : ArtifactDependencyRule)
      → get_elem? m.artifact_dependencies i ≡ some rule
      → rule.required ≡ true
      → prepare_parts r m ≡ ok parts
      → in_artifacts v (of_kind rule.rule_kind r.artifacts)
        ≤ in_artifacts v parts.required_artifacts
  unfolding prepare_parts partition_artifacts
  prepared-required parts i rule at needed h =
      let (u, fresh, h1) = >>=-eq-ok (validate_unique_sources r) _ h in
      let (split, ha, h2) =
        >>=-eq-ok (partition_artifacts r.artifacts m.artifact_dependencies) _ h1 in
      let (sections, hs, h3) = >>=-eq-ok (select_story_bible_sections r m) _ h2 in
      let (rest, hr, h4) = >>=-eq-ok (partition_summaries r.nearby_summaries m) _ h3 in
      let (declared, hp) =
        guard-bind
          (subset (map (λ a. a.kind) r.artifacts) (dependency_kinds m.artifact_dependencies)) _ _
          ha in
      subst
        (λ q.
          in_artifacts v (of_kind rule.rule_kind r.artifacts) ≤ in_artifacts v q.required_artifacts)
        (ok-injective h4) (rule-counted v r.artifacts m.artifact_dependencies i rule at needed hp)

-- An artifact whose kind a rule requires is among the inputs of every packet that is compiled with it.
pub compile-required :
    (tools : ContextTools) (manifests : Registry) (r : ContextPacketRequest)
    (m : AgentDependencyManifest) (p : ContextPacket) (i j : ℕ) (rule : ArtifactDependencyRule)
    (a : VersionedArtifact)
    → manifest_for r.specialist_role manifests ≡ ok m
    → compile tools manifests r ≡ ok p
    → get_elem? m.artifact_dependencies i ≡ some rule
    → rule.required ≡ true
    → get_elem? r.artifacts j ≡ some a
    → a.kind ≡ rule.rule_kind
    → elem a.version_id p.input_artifact_version_ids ≡ true
compile-required tools manifests r m p i j rule a known h at needed supplied same =
    let v = a.version_id in
    let made = compile-MadeOf tools r m manifests p known h in
    let kept = select_context-mandatory tools r m v made.parts made.chosen made.selected in
    let there =
      subst (λ k. 1 ≤ in_artifacts v (of_kind k r.artifacts)) same
        (of_kind-counted v r.artifacts j a supplied ((nat_beq_iff v v).1 refl)) in
    subst (λ q. elem v q.input_artifact_version_ids ≡ true) made.same_packet
      (elem-occurrences v _ (
        omega (
          arith,
          kept,
          there,
          prepared-required r m v made.parts i rule at needed made.prepared,
          used_ids-counts tools r m v made.chosen.included_artifacts made.parts.bible_sections
              made.chosen.included_summaries,
        )))
