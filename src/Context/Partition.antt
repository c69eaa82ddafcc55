-- ===== src/Context/Partition.antt =====
-- engine/open_hollywood_engine/context/compiler.py: the partitions lose no source and repeat none.
use open_hollywood.Context.Manifests.{
  within, dependency_kinds, AgentDependencyManifest, ArtifactDependencyRule,
}
use open_hollywood.Context.Sources.{
  spread, summary_leq, artifact_leq, of_kind, omit_summary, partition_summaries, split_required,
  SummaryParts, partition_artifacts, partition_rules,
}
use open_hollywood.Context.Contracts.{
  OmissionReason, OmittedContext, NearbySummary, VersionedArtifact,
}
use open_hollywood.Artifacts.{ArtifactKind, kind_eq}
use open_hollywood.Context.Contracts.{manifest_limit}
use open_hollywood.Prelude.{
  last_of, ok-injective, count_if-append, count_if-split_last, count_if-sort_by, count_if-map,
  before_last, distinct, count_if-reversed, sort_by, subset, elem, filter_by, count_if, ℕ, zero,
  suc, ◌+◌, ◌≡◌, refl, ◌∙◌, subst, Bool, true, false, ◌&&◌, not, List, [], ◌∷◌, map, arith, ok,
  >>=-eq-ok, guard-bind, if◌then◌else◌, string_eq, nat_eq, ltb, leb, nat_beq, length,
}

-- One turn of the loop over the rules.
pub partition_rules-cons :
    (xs : List VersionedArtifact) (rule : ArtifactDependencyRule)
    (rules : List ArtifactDependencyRule) {split : List VersionedArtifact × List VersionedArtifact}
    → partition_rules xs (rule ∷ rules) ≡ ok split
    → (rest : List VersionedArtifact × List VersionedArtifact) × (partition_rules xs rules
        ≡ ok rest)
      × (spread rule.required (sort_by artifact_leq (of_kind rule.rule_kind xs)) rest ≡ split)
unfolding partition_rules
partition_rules-cons xs rule rules h =
    let found = sort_by artifact_leq (of_kind rule.rule_kind xs) in
    let (enough, h1) = guard-bind (leb rule.minimum_count (length found)) _ _ h in
    let (few, h2) = guard-bind (within rule.maximum_count (length found)) _ _ h1 in
    let (rest, hr, h3) = >>=-eq-ok (partition_rules xs rules) _ h2 in (rest, hr, ok-injective h3)

module _ (v : ℕ) where
  abbrev pub in_artifacts : List VersionedArtifact → ℕ
  in_artifacts xs = count_if (λ a. nat_beq v a.version_id) xs

  abbrev pub in_summaries : List NearbySummary → ℕ
  in_summaries xs = count_if (λ s. nat_beq v s.summary_version_id) xs

  abbrev pub in_omitted : List OmittedContext → ℕ
  in_omitted xs = count_if (λ o. nat_beq v o.identifier) xs

  abbrev in_both : List VersionedArtifact × List VersionedArtifact → ℕ
  in_both split = in_artifacts split.0 + in_artifacts split.1

  abbrev of_kinds : List ArtifactKind → List VersionedArtifact → List VersionedArtifact
  of_kinds wanted xs = filter_by (λ a. elem a.kind wanted) xs

  of_kinds-cons :
      (k : ArtifactKind) (ks : List ArtifactKind) (xs : List VersionedArtifact)
      → elem k ks ≡ false
      → in_artifacts (of_kinds (k ∷ ks) xs)
        ≡ in_artifacts (of_kind k xs) + in_artifacts (of_kinds ks xs)
  of_kinds-cons k ks [] h = refl
  of_kinds-cons k ks (a ∷ xs) h =
      ground (arith, of_kinds-cons k ks xs h, kind_eq.is_same_iff a.kind k)

  of_kinds-all :
      (ks : List ArtifactKind) (xs : List VersionedArtifact)
      → subset (map (λ a. a.kind) xs) ks ≡ true
      → in_artifacts (of_kinds ks xs) ≡ in_artifacts xs
  of_kinds-all ks [] h = refl
  of_kinds-all ks (a ∷ xs) h = ground (arith, of_kinds-all ks xs)

  of_kinds-none : (xs : List VersionedArtifact) → in_artifacts (of_kinds [] xs) ≡ 0
  of_kinds-none [] = refl
  of_kinds-none (a ∷ xs) = of_kinds-none xs

  pub matches_count :
      (k : ArtifactKind) (xs : List VersionedArtifact)
      → in_artifacts (sort_by artifact_leq (of_kind k xs)) ≡ in_artifacts (of_kind k xs)
  matches_count k xs = count_if-sort_by artifact_leq (λ a. nat_beq v a.version_id) (of_kind k xs)

  spread_count :
      (b : Bool) (xs : List VersionedArtifact)
      (split : List VersionedArtifact × List VersionedArtifact)
      → in_both (spread b xs split) ≡ in_artifacts xs + in_both split
  spread_count true xs split =
      omega (arith, count_if-append (λ a. nat_beq v a.version_id) xs split.0)
  spread_count false xs split =
      omega (arith, count_if-append (λ a. nat_beq v a.version_id) xs split.1)

  partition_rules-counts :
      (xs : List VersionedArtifact) (rules : List ArtifactDependencyRule)
      {split : List VersionedArtifact × List VersionedArtifact}
      → distinct (dependency_kinds rules) ≡ true
      → partition_rules xs rules ≡ ok split
      → in_both split ≡ in_artifacts (of_kinds (dependency_kinds rules) xs)
  unfolding partition_rules
  partition_rules-counts xs [] d h =
      subst (λ q. in_both q ≡ in_artifacts (of_kinds [] xs)) (ok-injective h)
        (omega (arith, of_kinds-none xs))
  partition_rules-counts xs (rule ∷ rules) {split} d h =
      let (rest, hr, same) = partition_rules-cons xs rule rules h in
      subst (λ q. in_both q ≡ in_artifacts (of_kinds (dependency_kinds (rule ∷ rules)) xs)) same
        (ground (
          arith,
          spread_count rule.required (sort_by artifact_leq (of_kind rule.rule_kind xs)) rest,
          matches_count rule.rule_kind xs,
          partition_rules-counts xs rules (ground (arith, d)) hr,
          of_kinds-cons rule.rule_kind (dependency_kinds rules) xs,
        ))

  pub partition_artifacts-counts :
      (xs : List VersionedArtifact) (rules : List ArtifactDependencyRule)
      {split : List VersionedArtifact × List VersionedArtifact}
      → distinct (dependency_kinds rules) ≡ true
      → partition_artifacts xs rules ≡ ok split
      → in_artifacts split.0 + in_artifacts split.1 ≡ in_artifacts xs
  unfolding partition_artifacts
  partition_artifacts-counts xs rules d h =
      let (declared, h1) =
        guard-bind (subset (map (λ a. a.kind) xs) (dependency_kinds rules)) _ _ h in
      partition_rules-counts xs rules d h1 ∙ of_kinds-all (dependency_kinds rules) xs declared

  abbrev in_parts : SummaryParts → ℕ
  in_parts parts = in_summaries parts.needed + in_summaries parts.extra + in_omitted parts.dropped

  split_required-counts :
      (n : ℕ) (ordered : List NearbySummary) (omitted : List OmittedContext)
      → in_parts (split_required n ordered omitted) ≡ in_summaries ordered + in_omitted omitted
  unfolding split_required
  split_required-counts zero ordered omitted =
      ground (arith, count_if-reversed (λ s. nat_beq v s.summary_version_id) ordered)
  split_required-counts (suc n) ordered omitted = ground (
    arith,
    count_if-reversed (λ s. nat_beq v s.summary_version_id) (before_last (suc n) ordered),
    count_if-split_last (λ s. nat_beq v s.summary_version_id) (suc n) ordered,
  )

  omitted-counts :
      (why : OmissionReason) (xs : List NearbySummary)
      → in_omitted (map (omit_summary why) xs) ≡ in_summaries xs
  omitted-counts why xs = count_if-map (λ o. nat_beq v o.identifier) (omit_summary why) xs

  limited_count :
      (least most : ℕ) (ordered : List NearbySummary)
      → in_parts (
          if ltb most (length ordered)
          then split_required least
              (last_of most ordered)
              (map (omit_summary manifest_limit) (before_last most ordered))
          else split_required least ordered [])
        ≡ in_summaries ordered
  limited_count least most ordered = ground (
    arith,
    split_required-counts least ordered [],
    split_required-counts least (last_of most ordered)
        (map (omit_summary manifest_limit) (before_last most ordered)),
    omitted-counts manifest_limit (before_last most ordered),
    count_if-split_last (λ s. nat_beq v s.summary_version_id) most ordered,
  )

  pub partition_summaries-counts :
      (xs : List NearbySummary) (m : AgentDependencyManifest) (parts : SummaryParts)
      → partition_summaries xs m ≡ ok parts
      → in_summaries parts.needed + in_summaries parts.extra + in_omitted parts.dropped
        ≡ in_summaries xs
  unfolding partition_summaries
  partition_summaries-counts xs m parts h =
      let most = m.maximum_nearby_summaries in
      let ordered = sort_by summary_leq xs in
      let (declared, h1) = guard-bind (not (nat_beq most 0 && leb 1 (length xs))) _ _ h in
      let (enough, h2) = guard-bind (leb m.minimum_nearby_summaries (length ordered)) _ _ h1 in
      subst (λ q. in_parts q ≡ in_summaries xs) (ok-injective h2)
        (limited_count m.minimum_nearby_summaries most ordered
          ∙ count_if-sort_by summary_leq (λ s. nat_beq v s.summary_version_id) xs)
