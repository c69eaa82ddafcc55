-- ===== src/Context/Compiler.antt =====
-- engine/open_hollywood_engine/context/compiler.py: the selection of what a packet holds. Optional
-- context is added as long as the rendered packet fits, and what is left out is recorded.
use open_hollywood.Context.Sources.{
  CompilationParts, artifact_ids, summary_ids, bible_ids, summary_leq, prepare_parts, omit_summary,
  omit_artifact,
}
use Prim.Native.String.{◌++◌ as append}
use open_hollywood.Context.Manifests.{manifest_for, AgentDependencyManifest, Registry}
use open_hollywood.Artifacts.{ArtifactKind, kind_eq}
use open_hollywood.Context.Contracts.{
  packet_tokens, ContextPacket, OmittedContext, ContextError, ContextPacketRequest, NearbySummary,
  VersionedArtifact, StoryBibleSection, reused_input, sections_without_snapshot, budget_exceeded,
  invalid_count, token_budget,
}
use open_hollywood.Prelude.{
  sort_by, is_unique, natural, negative, Integer, ℕ, Option, none, some, List, [], ◌∷◌, ◌++◌,
  Result, ok, raise, ◌>>=◌, ◌>>◌, guard, if◌then◌else◌, string_eq, nat_eq, leb, String,
}

-- `_PACKET_FORMAT`, and the line that it makes at the head of a packet
abbrev pub packet_format : String
packet_format = "open_hollywood_context_packet_v1"

abbrev pub packet_header : String
packet_header = append packet_format "\n"

-- What the packet's JSON text is made of.
pub record StoryBiblePayload : Type 0 where
  pub payload_bible_version : ℕ
  pub payload_bible_schema : String
  pub payload_sections : List StoryBibleSection

pub record Payload : Type 0 where
  pub payload_assignment : String
  pub direct_dependencies : List VersionedArtifact
  pub payload_rubric : String
  pub payload_format : String
  pub payload_manifest_version : String
  pub payload_summaries : List NearbySummary
  pub output_contract : ArtifactKind
  pub payload_role : String
  pub payload_bible : Option StoryBiblePayload
  pub payload_constraints : List String

-- What a token counter returns.
pub data Counted : Type 0 where
  counted : Integer → Counted
  not_an_integer : Counted

-- The code that the compiler calls: the token counter that it was given, `json.dumps` of a payload, in
-- which the output contract gets the JSON schema of its kind, and SHA-256.
pub record ContextTools : Type 0 where
  pub counter_identifier : String
  pub count_tokens : String → Counted
  pub dumps : Payload → String
  pub sha256 : String → String

-- The story bible of a payload: none without sections.
abbrev pub bible_payload :
    ContextPacketRequest → List StoryBibleSection → Result ContextError (Option StoryBiblePayload)
bible_payload r [] = ok none
bible_payload r (x ∷ xs) = elim r.story_bible [
  | none ↦ raise sections_without_snapshot
  | some snapshot ↦ ok (
      some (record {
        payload_bible_version = snapshot.bible_version_id;
        payload_bible_schema = snapshot.bible_schema_version;
        payload_sections = x ∷ xs;
      }))
]

-- `_input_version_ids`, before its guard
abbrev pub used_ids :
    ContextPacketRequest
    → List VersionedArtifact
    → List StoryBibleSection
    → List NearbySummary
    → List ℕ
used_ids r artifacts [] summaries = artifact_ids artifacts ++ summary_ids summaries
used_ids r artifacts (x ∷ xs) summaries =
    artifact_ids artifacts ++ (bible_ids r.story_bible ++ summary_ids summaries)

-- `_input_version_ids`
unfoldable pub input_version_ids :
    ContextPacketRequest
    → List VersionedArtifact
    → List StoryBibleSection
    → List NearbySummary
    → Result ContextError (List ℕ)
input_version_ids r artifacts sections summaries = do
  let ids = used_ids r artifacts sections summaries
  guard (is_unique ids) reused_input
  ok ids

-- What the loops of `compile` have selected so far.
pub record Selection : Type 0 where
  pub included_artifacts : List VersionedArtifact
  pub included_summaries : List NearbySummary
  pub content_text : String
  pub content_tokens : ℕ
  pub omitted : List OmittedContext

module _ (tools : ContextTools) where
  -- `_count`
  unfoldable pub count : String → Result ContextError ℕ
  count text = elim (tools.count_tokens text) [
    | counted (natural n) ↦ ok n
    | counted (negative n) ↦ raise invalid_count
    | not_an_integer ↦ raise invalid_count
  ]

  module _ (r : ContextPacketRequest) (m : AgentDependencyManifest) where
    -- `_render`
    unfoldable pub render :
        List VersionedArtifact
        → List StoryBibleSection
        → List NearbySummary
        → Result ContextError String
    render artifacts sections summaries = do
      bible ← bible_payload r sections
      ok (
          append packet_header (
            tools.dumps (record {
              payload_assignment = r.assignment;
              direct_dependencies = artifacts;
              payload_rubric = r.evaluation_rubric;
              payload_format = packet_format;
              payload_manifest_version = m.manifest_version;
              payload_summaries = summaries;
              output_contract = m.output_artifact_kind;
              payload_role = r.specialist_role;
              payload_bible = bible;
              payload_constraints = r.user_constraints;
            })))

    -- The loops of `compile`: a trial that fits is kept, any other is recorded as omitted.
    module _ (sections : List StoryBibleSection) where
      unfoldable pub add_artifact : Selection → VersionedArtifact → Result ContextError Selection
      add_artifact chosen artifact = do
        let trial = chosen.included_artifacts ++ artifact ∷ []
        text ← render trial sections chosen.included_summaries
        tokens ← count text
        ok (
            if leb tokens (packet_tokens r.budget)
            then record chosen {
              included_artifacts = trial;
              content_text = text;
              content_tokens = tokens;
            }
            else record chosen { omitted = chosen.omitted ++ omit_artifact artifact ∷ [] })

      unfoldable pub add_artifacts :
          Selection → List VersionedArtifact → Result ContextError Selection
      add_artifacts chosen [] = ok chosen
      add_artifacts chosen (x ∷ xs) = add_artifact chosen x >>= λ next. add_artifacts next xs

      unfoldable pub add_summary : Selection → NearbySummary → Result ContextError Selection
      add_summary chosen summary = do
        let trial = sort_by summary_leq (chosen.included_summaries ++ summary ∷ [])
        text ← render chosen.included_artifacts sections trial
        tokens ← count text
        ok (
            if leb tokens (packet_tokens r.budget)
            then record chosen {
              included_summaries = trial;
              content_text = text;
              content_tokens = tokens;
            }
            else record chosen {
              omitted = chosen.omitted ++ omit_summary token_budget summary ∷ [];
            })

      unfoldable pub add_summaries : Selection → List NearbySummary → Result ContextError Selection
      add_summaries chosen [] = ok chosen
      add_summaries chosen (x ∷ xs) = add_summary chosen x >>= λ next. add_summaries next xs

    -- The mandatory packet, which must fit.
    unfoldable pub mandatory : CompilationParts → Result ContextError Selection
    mandatory parts = do
      text ← render parts.required_artifacts parts.bible_sections parts.required_summaries
      tokens ← count text
      guard (leb tokens (packet_tokens r.budget)) (budget_exceeded tokens (packet_tokens r.budget))
      ok (record {
        included_artifacts = parts.required_artifacts;
        included_summaries = parts.required_summaries;
        content_text = text;
        content_tokens = tokens;
        omitted = parts.parts_omitted;
      })

    unfoldable pub select_context : CompilationParts → Result ContextError Selection
    select_context parts = do
      start ← mandatory parts
      middle ← add_artifacts parts.bible_sections start parts.optional_artifacts
      add_summaries parts.bible_sections middle parts.optional_summaries

    abbrev pub packet_of : Selection → List ℕ → ContextPacket
    packet_of chosen ids = record {
      packet_role = r.specialist_role;
      packet_manifest_version = m.manifest_version;
      packet_output_kind = m.output_artifact_kind;
      packet_content = chosen.content_text;
      content_sha256 = tools.sha256 chosen.content_text;
      estimated_tokens = chosen.content_tokens;
      token_counter = tools.counter_identifier;
      packet_budget = r.budget;
      input_artifact_version_ids = ids;
      omitted_context = chosen.omitted;
    }

    unfoldable pub compile_with : Result ContextError ContextPacket
    compile_with = do
      parts ← prepare_parts r m
      chosen ← select_context parts
      ids ←
          input_version_ids r chosen.included_artifacts parts.bible_sections
            chosen.included_summaries
      ok (packet_of chosen ids)

  -- `ContextPacketCompiler.compile`
  unfoldable pub compile : Registry → ContextPacketRequest → Result ContextError ContextPacket
  compile manifests r = manifest_for r.specialist_role manifests >>= compile_with r
