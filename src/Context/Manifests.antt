-- ===== src/Context/Manifests.antt =====
-- engine/open_hollywood_engine/context/contracts.py: what each role may be given, and the registry.
use open_hollywood.Artifacts.{ArtifactKind, kind_eq}
use open_hollywood.Context.Contracts.{
  require_texts, require_text, at_least, ContextError, invalid, unknown_specialist_role,
}
use open_hollywood.Prelude.{
  keys, put, is_unique, text_leb, get, distinct, sort_by, Dict, Integer, ℕ, ◌≤◌, ◌≡◌, Bool, true,
  ◌||◌, not, Option, none, some, List, [], ◌∷◌, map, Result, ok, raise, ◌>>=◌, ◌>>◌, guard,
  string_eq, nat_eq, leb, nat_beq, length, String, is_none,
}

pub record ArtifactDependencyRule : Type 0 where
  pub rule_kind : ArtifactKind
  pub required : Bool
  pub minimum_count : ℕ
  pub maximum_count : Option ℕ

abbrev pub optional_at_least : ℕ → Option Integer → String → Result ContextError (Option ℕ)
optional_at_least least none label = ok none
optional_at_least least (some n) label = at_least least n label >>= λ m. ok (some m)

-- `count <= maximum`, where there is a maximum
abbrev pub within : Option ℕ → ℕ → Bool
within none n = true
within (some most) n = leb n most

-- `ArtifactDependencyRule.__post_init__`
unfoldable pub artifact_dependency_rule :
    ArtifactKind → Bool → Integer → Option Integer → Result ContextError ArtifactDependencyRule
artifact_dependency_rule kind required minimum maximum = do
  least ← at_least 0 minimum "minimum_count"
  guard (not required || leb 1 least) (invalid "positive minimum_count")
  guard (required || nat_beq least 0) (invalid "minimum_count zero")
  most ← optional_at_least 1 maximum "maximum_count"
  guard (within most least) (invalid "maximum_count below minimum_count")
  ok (record { rule_kind = kind; required = required; minimum_count = least; maximum_count = most })

pub record AgentDependencyManifest : Type 0 where
  pub manifest_role : String
  pub manifest_version : String
  pub output_artifact_kind : ArtifactKind
  pub artifact_dependencies : List ArtifactDependencyRule
  pub story_bible_sections : List String
  pub minimum_nearby_summaries : ℕ
  pub maximum_nearby_summaries : ℕ

abbrev pub dependency_kinds : List ArtifactDependencyRule → List ArtifactKind
dependency_kinds rules = map (λ rule. rule.rule_kind) rules

-- `AgentDependencyManifest.__post_init__`
unfoldable pub agent_dependency_manifest :
    String
    → String
    → ArtifactKind
    → List ArtifactDependencyRule
    → List String
    → Integer
    → Integer
    → Result ContextError AgentDependencyManifest
agent_dependency_manifest role version output rules names minimum maximum = do
  require_text role "specialist_role"
  require_text version "manifest_version"
  guard (is_unique (dependency_kinds rules)) (invalid "artifact dependency kinds")
  guard (is_unique names) (invalid "story-bible section names")
  require_texts names "story-bible section name"
  least ← at_least 0 minimum "minimum_nearby_summaries"
  most ← at_least 0 maximum "maximum_nearby_summaries"
  guard (leb least most) (invalid "minimum_nearby_summaries above maximum_nearby_summaries")
  ok (record {
    manifest_role = role;
    manifest_version = version;
    output_artifact_kind = output;
    artifact_dependencies = rules;
    story_bible_sections = names;
    minimum_nearby_summaries = least;
    maximum_nearby_summaries = most;
  })

abbrev pub Registry : Type 0
Registry = Dict String AgentDependencyManifest

-- `DependencyManifestRegistry.__init__`
unfoldable pub add_manifests :
    Registry → List AgentDependencyManifest → Result ContextError Registry
add_manifests by_role [] = ok by_role
add_manifests by_role (m ∷ ms) = do
  guard (is_none (get m.manifest_role by_role)) (invalid "duplicate dependency manifest")
  add_manifests (put m.manifest_role m by_role) ms

unfoldable pub dependency_manifest_registry :
    List AgentDependencyManifest → Result ContextError Registry
dependency_manifest_registry manifests = do
  by_role ← add_manifests [] manifests
  guard (leb 1 (length by_role)) (invalid "at least one dependency manifest")
  ok by_role

-- `DependencyManifestRegistry.roles`
abbrev pub roles : Registry → List String
roles registry = sort_by text_leb (keys registry)

-- `DependencyManifestRegistry.get`
abbrev pub of_option :
    String → Option AgentDependencyManifest → Result ContextError AgentDependencyManifest
of_option role none = raise (unknown_specialist_role role)
of_option role (some m) = ok m

abbrev pub manifest_for : String → Registry → Result ContextError AgentDependencyManifest
manifest_for role registry = of_option role (get role registry)

-- What a manifest's constructor has checked.
pub record IsManifest (m : AgentDependencyManifest) : Type 0 where
  pub distinct_kinds : distinct (dependency_kinds m.artifact_dependencies) ≡ true
  pub minimum_summaries : m.minimum_nearby_summaries ≤ m.maximum_nearby_summaries
