-- ===== src/Context/Sources.antt =====
-- engine/open_hollywood_engine/context/compiler.py: what a request supplies, checked against the manifest
-- and divided into what is mandatory, what is optional and what is left out.
use open_hollywood.Context.Manifests.{
  dependency_kinds, within, AgentDependencyManifest, ArtifactDependencyRule,
}
use open_hollywood.Artifacts.{ArtifactKind, kind_eq}
use open_hollywood.Context.Contracts.{
  OmittedContext, ContextError, OmissionReason, ContextPacketRequest, StoryBibleSnapshot,
  NearbySummary, VersionedArtifact, StoryBibleSection, reused_artifact_key, reused_source,
  too_few_dependencies, too_many_dependencies, undeclared_dependencies, story_bible_required,
  missing_sections, summaries_undeclared, too_few_summaries, nearby_summary_category,
  artifact_category, token_budget, manifest_limit,
}
use open_hollywood.Prelude.{
  true, false, before_last, last_of, reversed, subset, sort_by, filter_by, is_unique, text_leb,
  find, opt_list, ℕ, zero, suc, Bool, ◌&&◌, not, Option, none, some, List, [], ◌∷◌, ◌++◌, map,
  Result, ok, raise, ◌>>=◌, ◌>>◌, guard, if◌then◌else◌, ◌==◌, string_eq, nat_eq, ltb, leb, nat_beq,
  length, String, is_some, all,
}

-- `_CompilationParts`
pub record CompilationParts : Type 0 where
  pub required_artifacts : List VersionedArtifact
  pub optional_artifacts : List VersionedArtifact
  pub bible_sections : List StoryBibleSection
  pub required_summaries : List NearbySummary
  pub optional_summaries : List NearbySummary
  pub parts_omitted : List OmittedContext

-- `_artifact_sort_key`, as the order of its pairs
abbrev pub artifact_leq : VersionedArtifact → VersionedArtifact → Bool
artifact_leq a b =
    if a.artifact_key == b.artifact_key
    then leb a.version_id b.version_id
    else text_leb a.artifact_key b.artifact_key

-- `_summary_sort_key`, as the order of its triples
abbrev pub summary_leq : NearbySummary → NearbySummary → Bool
summary_leq a b =
    if nat_beq a.sequence b.sequence
    then (if a.summary_key == b.summary_key
        then leb a.summary_version_id b.summary_version_id
        else text_leb a.summary_key b.summary_key)
    else leb a.sequence b.sequence

abbrev pub artifact_ids : List VersionedArtifact → List ℕ
artifact_ids xs = map (λ x. x.version_id) xs

abbrev pub summary_ids : List NearbySummary → List ℕ
summary_ids xs = map (λ x. x.summary_version_id) xs

abbrev pub bible_ids : Option StoryBibleSnapshot → List ℕ
bible_ids none = []
bible_ids (some snapshot) = snapshot.bible_version_id ∷ []

-- `_validate_unique_sources`
unfoldable pub validate_unique_sources : ContextPacketRequest → Result ContextError (Unit {0})
validate_unique_sources r = do
  guard (is_unique (map (λ a. a.artifact_key) r.artifacts)) reused_artifact_key
  guard
      (is_unique
        (artifact_ids r.artifacts ++ (summary_ids r.nearby_summaries ++ bible_ids r.story_bible)))
      reused_source

abbrev pub of_kind : ArtifactKind → List VersionedArtifact → List VersionedArtifact
of_kind wanted xs = filter_by (λ a. a.kind == wanted) xs

-- `(required if rule.required else optional).extend(matches)`, before the matches of later rules
abbrev pub spread :
    Bool
    → List VersionedArtifact
    → List VersionedArtifact × List VersionedArtifact
    → List VersionedArtifact × List VersionedArtifact
spread true matches rest = (matches ++ rest.0, rest.1)
spread false matches rest = (rest.0, matches ++ rest.1)

-- The loop over the rules: what is required, and what is optional.
unfoldable pub partition_rules :
    List VersionedArtifact
    → List ArtifactDependencyRule
    → Result ContextError (List VersionedArtifact × List VersionedArtifact)
partition_rules artifacts [] = ok ([], [])
partition_rules artifacts (rule ∷ rules) = do
  let matches = sort_by artifact_leq (of_kind rule.rule_kind artifacts)
  guard (leb rule.minimum_count (length matches))
      (too_few_dependencies rule.rule_kind (length matches))
  guard (within rule.maximum_count (length matches))
      (too_many_dependencies rule.rule_kind (length matches))
  rest ← partition_rules artifacts rules
  ok (spread rule.required matches rest)

-- `_partition_artifacts`
unfoldable pub partition_artifacts :
    List VersionedArtifact
    → List ArtifactDependencyRule
    → Result ContextError (List VersionedArtifact × List VersionedArtifact)
partition_artifacts artifacts rules = do
  guard (subset (map (λ a. a.kind) artifacts) (dependency_kinds rules)) undeclared_dependencies
  partition_rules artifacts rules

abbrev pub section_named : String → List StoryBibleSection → Option StoryBibleSection
section_named wanted xs = find (λ x. x.name) wanted xs

abbrev pub sections_named : List String → List StoryBibleSection → List StoryBibleSection
sections_named [] xs = []
sections_named (n ∷ ns) xs = opt_list (section_named n xs) ++ sections_named ns xs

-- `_select_story_bible_sections`; the names of a snapshot's sections differ.
unfoldable pub select_sections :
    List String → Option StoryBibleSnapshot → Result ContextError (List StoryBibleSection)
select_sections [] bible = ok []
select_sections (n ∷ ns) none = raise story_bible_required
select_sections (n ∷ ns) (some snapshot) = do
  guard (all (λ x. is_some (section_named x snapshot.sections)) (n ∷ ns)) missing_sections
  ok (sections_named (n ∷ ns) snapshot.sections)

abbrev pub select_story_bible_sections :
    ContextPacketRequest → AgentDependencyManifest → Result ContextError (List StoryBibleSection)
select_story_bible_sections r m = select_sections m.story_bible_sections r.story_bible

abbrev pub omit_summary : OmissionReason → NearbySummary → OmittedContext
omit_summary why s = record {
  category = nearby_summary_category;
  identifier = s.summary_version_id;
  reason = why;
}

abbrev pub omit_artifact : VersionedArtifact → OmittedContext
omit_artifact a = record {
  category = artifact_category;
  identifier = a.version_id;
  reason = token_budget;
}

pub record SummaryParts : Type 0 where
  pub needed : List NearbySummary
  pub extra : List NearbySummary
  pub dropped : List OmittedContext

-- `_partition_summaries`, once the summaries that the manifest's limit leaves out are known
unfoldable pub split_required : ℕ → List NearbySummary → List OmittedContext → SummaryParts
split_required zero ordered omitted = record {
  needed = [];
  extra = reversed ordered;
  dropped = omitted;
}
split_required (suc n) ordered omitted = record {
  needed = last_of (suc n) ordered;
  extra = reversed (before_last (suc n) ordered);
  dropped = omitted;
}

unfoldable pub partition_summaries :
    List NearbySummary → AgentDependencyManifest → Result ContextError SummaryParts
partition_summaries summaries m = do
  let most = m.maximum_nearby_summaries
  guard (not (nat_beq most 0 && leb 1 (length summaries))) summaries_undeclared
  let ordered = sort_by summary_leq summaries
  guard (leb m.minimum_nearby_summaries (length ordered)) (too_few_summaries (length ordered))
  ok (
      if ltb most (length ordered)
      then split_required m.minimum_nearby_summaries (last_of most ordered)
          (map (omit_summary manifest_limit) (before_last most ordered))
      else split_required m.minimum_nearby_summaries ordered [])

-- `_prepare_parts`
unfoldable pub prepare_parts :
    ContextPacketRequest → AgentDependencyManifest → Result ContextError CompilationParts
prepare_parts r m = do
  validate_unique_sources r
  artifacts ← partition_artifacts r.artifacts m.artifact_dependencies
  sections ← select_story_bible_sections r m
  summaries ← partition_summaries r.nearby_summaries m
  ok (record {
    required_artifacts = artifacts.0;
    optional_artifacts = artifacts.1;
    bible_sections = sections;
    required_summaries = summaries.needed;
    optional_summaries = summaries.extra;
    parts_omitted = summaries.dropped;
  })
