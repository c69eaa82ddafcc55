-- ===== src/Tests/Contexts.antt =====
-- A request for a writer with more critiques and summaries than its budget and its manifest allow.
use open_hollywood.Context.Registration.{manifest_for-eq-find}
use open_hollywood.Context.Required.{compile-required}
use open_hollywood.Context.Packets.{compile-accounts}
use open_hollywood.Context.Outcome.{compile-outcome, Returns, IsCounter}
use open_hollywood.Context.Budget.{compile-IsBounded, IsBounded}
use open_hollywood.Artifacts.{ArtifactKind, critique, scene_plan, scene_draft}
use open_hollywood.Context.{
  of_option, manifest_for, add_manifests, dependency_manifest_registry, input_version_ids,
  add_summary, add_summaries, split_required, add_artifact, partition_summaries, add_artifacts,
  select_sections, mandatory, partition_rules, packet_tokens, select_context, omit_artifact,
  partition_artifacts, compile_with, validate_unique_sources, omit_summary, text_length, render,
  count, IsManifest, compile, ContextPacket, prepare_parts, CompilationParts, ContextPacketRequest,
  StoryBibleSnapshot, NearbySummary, VersionedArtifact, Registry, AgentDependencyManifest,
  ArtifactDependencyRule, ContextTools, manifest_limit, budget_exceeded, counted,
}
use open_hollywood.Prelude.{
  distinct, ◌≤◌, elem, occurrences, natural, ℕ, zero, suc, ◌+◌, ◌*◌, ◌≤◌, ◌<◌, ◌≡◌, refl, ◌⊎◌, true,
  false, none, some, [], ◌∷◌, arith, ok, raise, string_eq, nat_eq, length, String,
}

-- A stand-in for the serialised packet, whose length grows with what is included.
abbrev marks : ℕ → String
marks zero = ""
marks (suc n) = String.◌∷◌ "*" (marks n)

abbrev tools : ContextTools
tools = record {
  counter_identifier = "characters";
  count_tokens = λ text. counted (natural (text_length text));
  dumps = λ p. marks (length p.direct_dependencies * 10 + length p.payload_summaries * 4);
  sha256 = λ text. text;
}

abbrev plan_rule : ArtifactDependencyRule
plan_rule = record {
  rule_kind = scene_plan;
  required = true;
  minimum_count = 1;
  maximum_count = some 1;
}

abbrev critique_rule : ArtifactDependencyRule
critique_rule = record {
  rule_kind = critique;
  required = false;
  minimum_count = 0;
  maximum_count = none;
}

abbrev manifest : AgentDependencyManifest
manifest = record {
  manifest_role = "writer";
  manifest_version = "1";
  output_artifact_kind = scene_draft;
  artifact_dependencies = critique_rule ∷ plan_rule ∷ [];
  story_bible_sections = "facts" ∷ [];
  minimum_nearby_summaries = 1;
  maximum_nearby_summaries = 2;
}

abbrev manifests : Registry
manifests = ("writer", manifest) ∷ []

abbrev source : ArtifactKind → String → ℕ → VersionedArtifact
source kind key version = record {
  kind = kind;
  artifact_key = key;
  version_id = version;
  content = record { content_type = kind; content_schema_version = "1"; model_dump = "{}" };
  schema_version = "1";
}

abbrev summary : ℕ → ℕ → NearbySummary
summary version number = record {
  summary_version_id = version;
  summary_key = "scene";
  sequence = number;
  summary_content = "before";
}

abbrev snapshot : StoryBibleSnapshot
snapshot = record {
  bible_version_id = 50;
  sections = record { name = "facts"; section_content = "none" } ∷ [];
  bible_schema_version = "1";
}

abbrev request : ContextPacketRequest
request = record {
  specialist_role = "writer";
  assignment = "draft";
  evaluation_rubric = "rubric";
  budget = record { max_input_tokens = 80; reserved_tokens = 17 };
  user_constraints = [];
  artifacts =
      source critique "second" 12 ∷ source scene_plan "plan" 10 ∷ source critique "first" 11 ∷ [];
  story_bible = some snapshot;
  nearby_summaries = summary 31 1 ∷ summary 33 3 ∷ summary 32 2 ∷ [];
}

abbrev parts : CompilationParts
parts = record {
  required_artifacts = source scene_plan "plan" 10 ∷ [];
  optional_artifacts = source critique "first" 11 ∷ source critique "second" 12 ∷ [];
  bible_sections = record { name = "facts"; section_content = "none" } ∷ [];
  required_summaries = summary 33 3 ∷ [];
  optional_summaries = summary 32 2 ∷ [];
  parts_omitted = omit_summary manifest_limit (summary 31 1) ∷ [];
}

prepared : prepare_parts request manifest ≡ ok parts
unfolding prepare_parts validate_unique_sources partition_artifacts partition_rules select_sections
    partition_summaries split_required
prepared = refl

abbrev packet : ContextPacket
packet = record {
  packet_role = "writer";
  packet_manifest_version = "1";
  packet_output_kind = scene_draft;
  packet_content = "open_hollywood_context_packet_v1\n****************************";
  content_sha256 = "open_hollywood_context_packet_v1\n****************************";
  estimated_tokens = 61;
  token_counter = "characters";
  packet_budget = record { max_input_tokens = 80; reserved_tokens = 17 };
  input_artifact_version_ids = 10 ∷ 11 ∷ 50 ∷ 32 ∷ 33 ∷ [];
  omitted_context =
      omit_summary manifest_limit (summary 31 1) ∷ omit_artifact (source critique "second" 12) ∷ [];
}

compiled : compile tools manifests request ≡ ok packet
unfolding compile compile_with select_context mandatory add_artifacts add_artifact add_summaries
    add_summary render count input_version_ids prepare_parts validate_unique_sources
    partition_artifacts partition_rules select_sections partition_summaries split_required
    text_length
compiled = refl

manifest-IsManifest : IsManifest manifest
manifest-IsManifest = record { distinct_kinds = refl; minimum_summaries = omega arith }

counter : IsCounter tools
unfolding count
counter = record { size = text_length; count_size = λ text. refl }

compile-IsBounded_example : IsBounded tools request manifest packet
compile-IsBounded_example = compile-IsBounded tools manifests request manifest packet refl compiled

compile-accounts_example :
    occurrences 12 (10 ∷ 11 ∷ 50 ∷ 32 ∷ 33 ∷ []) + occurrences 12 (31 ∷ 12 ∷ [])
    ≡ occurrences 12 (12 ∷ 10 ∷ 11 ∷ [])
      + occurrences 12 (31 ∷ 33 ∷ 32 ∷ [])
      + occurrences 12 (50 ∷ [])
compile-accounts_example =
    compile-accounts tools manifests request manifest packet 12 refl manifest-IsManifest compiled

compile-required_example : elem {A = ℕ} 10 (10 ∷ 11 ∷ 50 ∷ 32 ∷ 33 ∷ []) ≡ true
compile-required_example =
    compile-required tools manifests request manifest packet 1 1 plan_rule
      (source scene_plan "plan" 10) refl compiled refl refl refl refl

compile-outcome_example :
    (text : String) × (render tools request manifest parts.required_artifacts parts.bible_sections
        parts.required_summaries
      ≡ ok text)
    × (((counter.size text ≤ packet_tokens request.budget)
          × Returns (compile tools manifests request))
        ⊎ ((packet_tokens request.budget < counter.size text)
            × (compile tools manifests request
                ≡ raise (budget_exceeded (counter.size text) (packet_tokens request.budget)))))
compile-outcome_example =
    compile-outcome tools counter manifests request manifest parts refl manifest-IsManifest prepared

registered : dependency_manifest_registry (manifest ∷ []) ≡ ok manifests
unfolding dependency_manifest_registry add_manifests
registered = refl

manifest_for-eq-find_example :
    (1 ≤ 1)
    × (distinct {A = String} ("writer" ∷ []) ≡ true)
    × (manifest_for "writer" manifests ≡ of_option "writer" (some manifest))
manifest_for-eq-find_example = manifest_for-eq-find (manifest ∷ []) manifests "writer" registered
