-- ===== src/Context/Contracts.antt =====
-- engine/open_hollywood_engine/context/contracts.py: the sources of a context packet, its request, and
-- the packet. The records are as their constructors have accepted them; a constructor that may refuse
-- its arguments is a function. A UUID is its number, which has the order of its text.
use Prim.Native.Char.{code}
use open_hollywood.Artifacts.{ArtifactKind, kind_eq}
use open_hollywood.Models.{ModelCallBudget}
use open_hollywood.Prelude.{
  is_unique, Integer, is_blank, natural, negative, ℕ, suc, ◌-◌, Bool, true, false, ◌&&◌, ◌||◌, not,
  Option, List, [], ◌∷◌, map, Result, ok, raise, ◌>>=◌, ◌>>◌, guard, ◌==◌, string_eq, nat_eq, ltb,
  leb, nat_beq, length, String,
}

pub data ContextError : Type 0 where
  -- ValueError of a constructor, by the label of its message
  invalid : String → ContextError
  unknown_specialist_role : String → ContextError
  -- ContextDependencyError, by its message
  undeclared_dependencies : ContextError
  too_few_dependencies too_many_dependencies : ArtifactKind → ℕ → ContextError
  story_bible_required missing_sections : ContextError
  summaries_undeclared : ContextError
  too_few_summaries : ℕ → ContextError
  reused_artifact_key reused_source reused_input : ContextError
  sections_without_snapshot : ContextError
  budget_exceeded : (required_tokens available_tokens : ℕ) → ContextError
  invalid_count : ContextError

-- `_require_text`
abbrev pub require_text : String → String → Result ContextError (Unit {0})
require_text value label = guard (not (is_blank value)) (invalid label)

abbrev pub require_texts : List String → String → Result ContextError (Unit {0})
require_texts [] label = ok tt
require_texts (value ∷ values) label = require_text value label >> require_texts values label

-- `_is_integer(value) and not value < least`, of an integer
abbrev pub at_least : ℕ → Integer → String → Result ContextError ℕ
at_least least (negative n) label = raise (invalid label)
at_least least (natural n) label = guard (leb least n) (invalid label) >> ok n

-- The class `[a-z]`, and the class `[a-z0-9_-]`.
abbrev pub is_lower : ℕ → Bool
is_lower c = leb 97 c && leb c 122

abbrev pub is_key_char : ℕ → Bool
is_key_char c = is_lower c || (leb 48 c && leb c 57) || nat_beq c 95 || nat_beq c 45

unfoldable pub are_key_chars : String → Bool
are_key_chars String.[] = true
are_key_chars (String.◌∷◌ c s) = is_key_char (code c) && are_key_chars s

-- `_ARTIFACT_KEY_PATTERN.fullmatch`
unfoldable pub matches_key_pattern : String → Bool
matches_key_pattern String.[] = false
matches_key_pattern (String.◌∷◌ c s) = is_lower (code c) && are_key_chars s

unfoldable pub text_length : String → ℕ
text_length String.[] = 0
text_length (String.◌∷◌ c s) = suc (text_length s)

-- `_require_artifact_key`
unfoldable pub require_artifact_key : String → Result ContextError (Unit {0})
require_artifact_key value =
    guard (leb (text_length value) 150 && matches_key_pattern value) (invalid "artifact_key")

-- Artifact content, with the kind whose class in `ARTIFACT_SCHEMAS` is its own, and its JSON dump.
pub record ArtifactSchema : Type 0 where
  pub content_type : ArtifactKind
  pub content_schema_version : String
  pub model_dump : String

pub record VersionedArtifact : Type 0 where
  pub kind : ArtifactKind
  pub artifact_key : String
  pub version_id : ℕ
  pub content : ArtifactSchema
  pub schema_version : String

-- `VersionedArtifact.__post_init__`
unfoldable pub versioned_artifact : VersionedArtifact → Result ContextError VersionedArtifact
versioned_artifact a = do
  require_artifact_key a.artifact_key
  require_text a.schema_version "schema_version"
  guard (a.content.content_type == a.kind) (invalid "content")
  guard (a.schema_version == a.content.content_schema_version) (invalid "schema versions")
  ok a

pub record StoryBibleSection : Type 0 where
  pub name : String
  pub section_content : String

-- `StoryBibleSection.__post_init__`
unfoldable pub story_bible_section : StoryBibleSection → Result ContextError StoryBibleSection
story_bible_section s = do
  require_text s.name "story-bible section name"
  require_text s.section_content "story-bible section content"
  ok s

pub record StoryBibleSnapshot : Type 0 where
  pub bible_version_id : ℕ
  pub sections : List StoryBibleSection
  pub bible_schema_version : String

-- `StoryBibleSnapshot.__post_init__`
unfoldable pub story_bible_snapshot : StoryBibleSnapshot → Result ContextError StoryBibleSnapshot
story_bible_snapshot s = do
  guard (leb 1 (length s.sections)) (invalid "a section")
  guard (is_unique (map (λ x. x.name) s.sections)) (invalid "story-bible sections")
  require_text s.bible_schema_version "story-bible schema_version"
  ok s

pub record NearbySummary : Type 0 where
  pub summary_version_id : ℕ
  pub summary_key : String
  pub sequence : ℕ
  pub summary_content : String

-- `NearbySummary.__post_init__`, which is given any integer as the sequence
unfoldable pub nearby_summary : ℕ → String → Integer → String → Result ContextError NearbySummary
nearby_summary version key number text = do
  require_artifact_key key
  sequence ← at_least 1 number "summary sequence"
  require_text text "summary content"
  ok (record {
    summary_version_id = version;
    summary_key = key;
    sequence = sequence;
    summary_content = text;
  })

pub record ContextTokenBudget : Type 0 where
  pub max_input_tokens : ℕ
  pub reserved_tokens : ℕ

-- `ContextTokenBudget.__post_init__`
unfoldable pub context_token_budget : Integer → Integer → Result ContextError ContextTokenBudget
context_token_budget max_input reserved = do
  most ← at_least 1 max_input "max_input_tokens"
  kept ← at_least 0 reserved "reserved_tokens"
  guard (ltb kept most) (invalid "reserved_tokens below max_input_tokens")
  ok (record { max_input_tokens = most; reserved_tokens = kept })

-- `ContextTokenBudget.packet_tokens`
abbrev pub packet_tokens : ContextTokenBudget → ℕ
packet_tokens b = b.max_input_tokens - b.reserved_tokens

-- `ContextTokenBudget.from_model_budget`
unfoldable pub from_model_budget :
    ModelCallBudget → Integer → Result ContextError ContextTokenBudget
from_model_budget b reserved = context_token_budget (natural b.max_input_tokens) reserved

pub record ContextPacketRequest : Type 0 where
  pub specialist_role : String
  pub assignment : String
  pub evaluation_rubric : String
  pub budget : ContextTokenBudget
  pub user_constraints : List String
  pub artifacts : List VersionedArtifact
  pub story_bible : Option StoryBibleSnapshot
  pub nearby_summaries : List NearbySummary

-- `ContextPacketRequest.__post_init__`
unfoldable pub context_packet_request :
    ContextPacketRequest → Result ContextError ContextPacketRequest
context_packet_request r = do
  require_text r.specialist_role "specialist_role"
  require_text r.assignment "assignment"
  require_text r.evaluation_rubric "evaluation_rubric"
  require_texts r.user_constraints "user constraint"
  ok r

pub data Category : Type 0 where
  artifact_category nearby_summary_category : Category

pub data OmissionReason : Type 0 where
  token_budget manifest_limit : OmissionReason

pub record OmittedContext : Type 0 where
  pub category : Category
  pub identifier : ℕ
  pub reason : OmissionReason

pub record ContextPacket : Type 0 where
  pub packet_role : String
  pub packet_manifest_version : String
  pub packet_output_kind : ArtifactKind
  pub packet_content : String
  pub content_sha256 : String
  pub estimated_tokens : ℕ
  pub token_counter : String
  pub packet_budget : ContextTokenBudget
  pub input_artifact_version_ids : List ℕ
  pub omitted_context : List OmittedContext

-- `ContextPacket.remaining_tokens`
abbrev pub remaining_tokens : ContextPacket → ℕ
remaining_tokens p = packet_tokens p.packet_budget - p.estimated_tokens

-- `ContextPacket.invocation_context`
pub record InvocationContext : Type 0 where
  pub invocation_role : String
  pub prompt_template_version : String
  pub invocation_inputs : List ℕ
  pub model_profile_id : Option ℕ

abbrev pub invocation_context : ContextPacket → String → Option ℕ → InvocationContext
invocation_context p template profile = record {
  invocation_role = p.packet_role;
  prompt_template_version = template;
  invocation_inputs = p.input_artifact_version_ids;
  model_profile_id = profile;
}
